-- ===== src/Http/Request/Stages.antt =====
-- The stages that an accepted request went through.
use kruda.Base.{
  ℕ, ◌+◌, ◌≤◌, ◌<◌, ◌≡◌, refl, arith, Bool, true, false, Option, none, some, ltb, Bytes, index_byte,
  length, take, drop, Bool-cases, inl, inr,
}
use kruda.Http.Lexical.{requires_host_header, max_content_length}
use kruda.Http.Headers.{Limits, Fields, no_fields, ◌>>=◌, strip_cr, parse_lines}
use kruda.Http.Request.{
  Request, RequestLine, header_end, parse_request_line, finish_request, parse_at,
}

pub >>=-eq-some :
    {A B : Type 0} (m : Option A) (k : A → Option B) {b : B}
    → (m >>= k) ≡ some b
    → (a : A) × (m ≡ some a) × (k a ≡ some b)
>>=-eq-some none k e = absurd (ground arith)
>>=-eq-some (some a) k e = (a, refl, e)

-- The values that `parse_at` computes on the way.
pub record Stages (limits : Limits) (unsafe_path : Bool) (bytes : Bytes) (r : Request) (used : ℕ)
    : Type 0 where
  pub end : ℕ
  pub line_end : ℕ
  pub line : RequestLine
  pub fields : Fields
  pub found_end : header_end bytes ≡ some end
  pub found_line : index_byte bytes b'\n' ≡ some line_end
  pub read_line : parse_request_line (strip_cr (take line_end bytes)) ≡ some line
  pub read_fields :
      parse_lines
        (length (drop (line_end + 1) (take end bytes)))
        limits
        unsafe_path
        b'\n'
        (drop (line_end + 1) (take end bytes))
        no_fields
      ≡ some fields
  pub finished : finish_request limits unsafe_path line fields bytes (end + 4) ≡ some (r, used)

pub parse_at-Stages :
    (limits : Limits) (unsafe_path : Bool) (bytes : Bytes) (r : Request) (used : ℕ)
    → parse_at limits unsafe_path bytes ≡ some (r, used)
    → Stages limits unsafe_path bytes r used
unfolding parse_at
parse_at-Stages limits unsafe_path bytes r used e =
    let (end, found_end, e1) = >>=-eq-some (header_end bytes) _ e in
    let (line_end, found_line, e2) = >>=-eq-some (index_byte bytes b'\n') _ e1 in
    let (line, read_line, e3) =
      >>=-eq-some (parse_request_line (strip_cr (take line_end bytes))) _ e2 in
    let (fields, read_fields, finished) =
      >>=-eq-some
        (parse_lines (length (drop (line_end + 1) (take end bytes))) limits unsafe_path b'\n'
          (drop (line_end + 1) (take end bytes)) no_fields)
        _ e3 in
    record {
      end = end;
      line_end = line_end;
      line = line;
      fields = fields;
      found_end = found_end;
      found_line = found_line;
      read_line = read_line;
      read_fields = read_fields;
      finished = finished;
    }

-- What the tests behind the header loop leave.
pub record Finished (limits : Limits) (line : RequestLine) (f : Fields) (bytes : Bytes) (start : ℕ)
    (r : Request) (used : ℕ) : Type 0 where
  pub same_fields : r.fields ≡ f
  pub same_method : r.method ≡ line.method
  pub host_given : requires_host_header line.version ≡ true → f.host_seen ≡ true
  pub not_encoded : f.encoding_seen ≡ false
  pub length_bounded : f.length_value ≤ max_content_length
  pub body_bounded : 0 < limits.body_limit → f.length_value ≤ limits.body_limit
  pub body_there : start ≤ length bytes → start + f.length_value ≤ length bytes
  pub same_body : r.body ≡ take f.length_value (drop start bytes)
  pub used_up : used ≡ start + f.length_value

pub finish_request-Finished :
    (limits : Limits) (unsafe_path : Bool) (line : RequestLine) (f : Fields) (bytes : Bytes)
    (start : ℕ) (r : Request) (used : ℕ)
    → finish_request limits unsafe_path line f bytes start ≡ some (r, used)
    → Finished limits line f bytes start r used
unfolding finish_request
finish_request-Finished limits unsafe_path line f bytes start r used e =
    elim (Bool-cases (ltb 0 f.length_value)) [
      | inl some_body ↦ record {
        same_fields = ground arith;
        same_method = ground arith;
        host_given = ground arith;
        not_encoded = ground arith;
        length_bounded = ground arith;
        body_bounded = ground arith;
        body_there = ground arith;
        same_body = ground arith;
        used_up = ground arith;
      }
      | inr no_body ↦
          let empty : f.length_value ≡ 0 = ground arith in
          record {
            same_fields = ground arith;
            same_method = ground arith;
            host_given = ground arith;
            not_encoded = ground arith;
            length_bounded = ground arith;
            body_bounded = ground arith;
            body_there = ground arith;
            same_body = rw (empty) (ground arith);
            used_up = ground arith;
          }
    ]
