-- ===== src/Http/Request/Framing.antt =====
-- wing_http.go: where `parseHTTPRequestInternal` takes an accepted request to begin and to end.
use kruda.Base.{
  ℕ, ◌+◌, ◌≤◌, ◌<◌, ◌≡◌, arith, Bool, true, none, some, List, Bytes, index_byte, length, take, drop,
  length-take, length-drop, has_prefix, prefix-le, drop-drop, [], ◌∷◌, Option-cases, inl, inr,
}
use kruda.Http.Lexical.{requires_host_header, max_content_length}
use kruda.Http.Headers.{Limits, Fields, no_fields, strip_cr}
use kruda.Http.Headers.Counts.{
  lines_of, count_kind, declared, is_length, is_host, is_encoding, BlockSteps,
  parse_lines-BlockSteps,
}
use kruda.Http.Request.{
  Request, RequestLine, skip_crlf, crlfcrlf, header_end, parse_request_line, parse_at,
  parse_http_request_internal,
}
use kruda.Http.Request.Stages.{Stages, parse_at-Stages, Finished, finish_request-Finished}

-- What follows the empty lines in front of a request.
unfoldable pub request_start : Bytes → Bytes
request_start input = drop (skip_crlf input) input

-- The request line, and the lines between it and the empty line that ends the header.
unfoldable pub first_line : Bytes → Bytes
first_line bytes = elim (index_byte bytes b'\n') [ none ↦ bytes | some i ↦ strip_cr (take i bytes) ]

unfoldable pub header_block : Bytes → Bytes
header_block bytes = elim (header_end bytes) [
  | none ↦ bytes
  | some end ↦ elim (index_byte bytes b'\n') [
    | none ↦ bytes
    | some i ↦ drop (i + 1) (take end bytes)
  ]
]

unfoldable pub header_lines : Bytes → List Bytes
unfolding request_start
header_lines input = let block = header_block (request_start input) in lines_of (length block) block

pub record IsFramed (limits : Limits) (lines : List Bytes) (line : RequestLine) (r : Request)
    : Type 0 where
  pub no_encoding : count_kind is_encoding lines ≡ 0
  pub one_length : count_kind is_length lines ≤ 1
  pub one_host : count_kind is_host lines ≤ 1
  pub host_given : requires_host_header line.version ≡ true → count_kind is_host lines ≡ 1
  pub few_lines : 0 < limits.max_header_count → length lines ≤ limits.max_header_count
  pub length_declared : r.fields.length_value ≡ declared lines 0

Finished-IsFramed :
    {limits : Limits} {lines : List Bytes} {line : RequestLine} {f : Fields} {bytes : Bytes}
    {start : ℕ} {r : Request} {used : ℕ}
    → BlockSteps limits lines no_fields f
    → Finished limits line f bytes start r used
    → IsFramed limits lines line r
Finished-IsFramed {f = f} b e = record {
  no_encoding = b.encodings e.not_encoded;
  one_length = ground (arith, b.lengths);
  one_host = ground (arith, b.hosts);
  host_given = λ needed. ground (arith, b.hosts, e.host_given needed);
  few_lines = λ set. omega (arith, b.counted, b.within_count (omega arith) set);
  length_declared = rw (e.same_fields) b.value;
}

pub header_end-le : (bytes : Bytes) (end : ℕ) → header_end bytes ≡ some end → end + 4 ≤ length bytes
unfolding header_end has_prefix
header_end-le [] end e = absurd (ground arith)
header_end-le (c ∷ cs) end e = elim (Option-cases (header_end cs)) [
  | inl missing ↦ ground (arith, prefix-le (c ∷ cs) crlfcrlf)
  | inr (later, found) ↦ ground (arith, prefix-le (c ∷ cs) crlfcrlf, header_end-le cs later found)
]

-- The parts of an accepted request, with the line and the header lines named by the input.
pub record Accepted (limits : Limits) (bytes : Bytes) (r : Request) (used : ℕ) : Type 0 where
  pub line : RequestLine
  pub fields : Fields
  pub start : ℕ
  pub read_line : parse_request_line (first_line bytes) ≡ some line
  pub steps :
      BlockSteps limits
        (lines_of (length (header_block bytes)) (header_block bytes))
        no_fields
        fields
  pub start_within : start ≤ length bytes
  pub finish : Finished limits line fields bytes start r used

Stages-Accepted :
    {limits : Limits} {unsafe_path : Bool} {bytes : Bytes} {r : Request} {used : ℕ}
    → Stages limits unsafe_path bytes r used
    → Accepted limits bytes r used
unfolding first_line header_block
Stages-Accepted {limits} {unsafe_path} {bytes} {r} {used} s =
    let block = drop (s.line_end + 1) (take s.end bytes) in
    record {
      line = s.line;
      fields = s.fields;
      start = s.end + 4;
      read_line = rw (s.found_line, first_line) s.read_line;
      steps =
          rw (s.found_end, s.found_line, header_block)
            (parse_lines-BlockSteps (length block) limits unsafe_path b'\n' block no_fields s.fields
              (omega arith) s.read_fields);
      start_within = header_end-le bytes s.end s.found_end;
      finish =
          finish_request-Finished limits unsafe_path s.line s.fields bytes (s.end + 4) r used
            s.finished;
    }

pub parse_http_request_internal-Accepted :
    (limits : Limits) (unsafe_path : Bool) (input : Bytes) (r : Request) (consumed : ℕ)
    → parse_http_request_internal limits unsafe_path input ≡ some (r, consumed)
    → (used : ℕ) × (consumed ≡ skip_crlf input + used)
      × Accepted limits (request_start input) r used
unfolding parse_http_request_internal request_start
parse_http_request_internal-Accepted limits unsafe_path input r consumed e =
    let rest = drop (skip_crlf input) input in
    elim (Option-cases (parse_at limits unsafe_path rest)) [
      | inl refused ↦ absurd (ground arith)
      | inr ((r', used), read) ↦
          let same : parse_at limits unsafe_path rest ≡ some (r, used) = ground arith in
          (
            used,
            ground arith,
            Stages-Accepted (parse_at-Stages limits unsafe_path rest r used same),
          )
    ]

-- An accepted request has no Transfer-Encoding line, at most one Content-Length line and at most one
-- Host line, and exactly one Host line when its version requires it. It has no more header lines than
-- the limit, if there is one, and its content length is what `btoi` reads in the value of its
-- Content-Length line, or 0 without one.
pub parse_http_request_internal-IsFramed :
    (limits : Limits) (unsafe_path : Bool) (input : Bytes) (r : Request) (consumed : ℕ)
    → parse_http_request_internal limits unsafe_path input ≡ some (r, consumed)
    → (line : RequestLine) × (parse_request_line (first_line (request_start input)) ≡ some line)
      × IsFramed limits (header_lines input) line r
unfolding header_lines
parse_http_request_internal-IsFramed limits unsafe_path input r consumed e =
    let (used, _, a) = parse_http_request_internal-Accepted limits unsafe_path input r consumed e in
    (a.line, a.read_line, Finished-IsFramed a.steps a.finish)

pub record HasBody (limits : Limits) (input : Bytes) (r : Request) (consumed : ℕ) : Type 0 where
  pub body_start : ℕ
  pub ends_there : consumed ≡ body_start + r.fields.length_value
  pub within_input : consumed ≤ length input
  pub same_body : r.body ≡ take r.fields.length_value (drop body_start input)
  pub bounded : r.fields.length_value ≤ max_content_length
  pub within_limit : 0 < limits.body_limit → r.fields.length_value ≤ limits.body_limit

Finished-HasBody :
    {limits : Limits} {line : RequestLine} {f : Fields} {input : Bytes} {start : ℕ} {r : Request}
    {used : ℕ} (skip : ℕ)
    → Finished limits line f (drop skip input) start r used
    → start ≤ length (drop skip input)
    → skip ≤ length input
    → HasBody limits input r (skip + used)
Finished-HasBody {input = input} {start} {r} skip e within skipped =
    let there = e.body_there (omega arith) in
    record {
      body_start = skip + start;
      ends_there = rw (e.same_fields) (omega (arith, e.used_up));
      within_input = omega (arith, e.used_up, there, length-drop skip input);
      same_body = rw (e.same_fields, ← drop-drop skip start input) e.same_body;
      bounded = rw (e.same_fields) e.length_bounded;
      within_limit = rw (e.same_fields) e.body_bounded;
    }

pub skip_crlf-le : (input : Bytes) → skip_crlf input ≤ length input
unfolding skip_crlf
skip_crlf-le [] = omega arith
skip_crlf-le (c ∷ []) = omega arith
skip_crlf-le (c ∷ d ∷ cs) = ground (arith, skip_crlf-le cs)

length-HasBody :
    {limits : Limits} {input : Bytes} {r : Request} {consumed : ℕ}
    → HasBody limits input r consumed
    → length r.body ≡ r.fields.length_value
length-HasBody {input = input} {r} b = rw (b.same_body) (
    omega (
      arith,
      length-take r.fields.length_value (drop b.body_start input),
      length-drop b.body_start input,
      b.ends_there,
      b.within_input,
    ))

-- The body of an accepted request is as long as its content length says and the last of the bytes
-- that the request takes, none of which is behind the input; its length is at most the largest
-- content length, and at most the body limit if there is one.
pub parse_http_request_internal-HasBody :
    (limits : Limits) (unsafe_path : Bool) (input : Bytes) (r : Request) (consumed : ℕ)
    → parse_http_request_internal limits unsafe_path input ≡ some (r, consumed)
    → HasBody limits input r consumed × (length r.body ≡ r.fields.length_value)
unfolding request_start
parse_http_request_internal-HasBody limits unsafe_path input r consumed e =
    let (used, total, a) =
      parse_http_request_internal-Accepted limits unsafe_path input r consumed e in
    let b : HasBody limits input r consumed =
      rw total (Finished-HasBody (skip_crlf input) a.finish a.start_within (skip_crlf-le input)) in
    (b, length-HasBody b)
