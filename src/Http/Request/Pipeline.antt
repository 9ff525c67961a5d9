-- ===== src/Http/Request/Pipeline.antt =====
-- wing_http.go: what `parseHTTPRequestInternal` makes of a request with more bytes behind it.
use kruda.Base.{
  ℕ, ◌+◌, ◌≤◌, ◌≡◌, arith, Bool, false, some, [], ◌∷◌, ◌++◌, Bytes, length, take, drop, length-drop,
  length-append, take_of_append, drop_of_append, index_byte-append, index_byte-lt,
  has_prefix-append, Option-cases, Bool-cases, inl, inr, ltb,
}
use kruda.Http.Headers.{Limits, Fields}
use kruda.Http.Request.{
  Request, RequestLine, skip_crlf, crlfcrlf, header_end, parse_at, finish_request,
  parse_http_request_internal,
}
use kruda.Http.Request.Stages.{parse_at-Stages, finish_request-Finished}
use kruda.Http.Request.Framing.{header_end-le, skip_crlf-le}

pub header_end-append :
    (bytes more : Bytes) (end : ℕ)
    → header_end bytes ≡ some end
    → header_end (bytes ++ more) ≡ some end
unfolding header_end
header_end-append [] more end e = absurd (ground arith)
header_end-append (c ∷ cs) more end e =
    let long = header_end-le (c ∷ cs) end e in
    let same = has_prefix-append (c ∷ cs) more crlfcrlf (omega (arith, long)) in
    elim (Option-cases (header_end cs)) [
      | inl missing ↦ ground (arith, same)
      | inr (later, found) ↦ ground (arith, same, header_end-append cs more later found)
    ]

pub skip_crlf-append :
    (bytes more : Bytes)
    → 2 ≤ length (drop (skip_crlf bytes) bytes)
    → skip_crlf (bytes ++ more) ≡ skip_crlf bytes
unfolding skip_crlf
skip_crlf-append [] more h = absurd (omega arith)
skip_crlf-append (c ∷ []) more h = absurd (omega arith)
skip_crlf-append (c ∷ d ∷ cs) more h = ground (arith, skip_crlf-append cs more)

finish_request-append :
    (limits : Limits) (unsafe_path : Bool) (line : RequestLine) (f : Fields) (bytes more : Bytes)
    (start : ℕ) (r : Request) (used : ℕ)
    → start ≤ length bytes
    → finish_request limits unsafe_path line f bytes start ≡ some (r, used)
    → finish_request limits unsafe_path line f (bytes ++ more) start ≡ some (r, used)
unfolding finish_request
finish_request-append limits unsafe_path line f bytes more start r used h e =
    elim (Bool-cases (ltb 0 f.length_value)) [
      | inr no_body ↦ ground arith
      | inl some_body ↦
          let g = finish_request-Finished limits unsafe_path line f bytes start r used e in
          let there = g.body_there h in
          let body : take f.length_value (drop start (bytes ++ more))
              ≡ take f.length_value (drop start bytes) =
            rw (
              drop_of_append start bytes more h,
              take_of_append f.length_value (drop start bytes) more
                  (omega (arith, there, length-drop start bytes)),
            ) in
          let long : ltb (length (bytes ++ more)) (start + f.length_value) ≡ false =
            ground (arith, length-append bytes more, there) in
          ground (arith, body, long)
    ]

parse_at-append :
    (limits : Limits) (unsafe_path : Bool) (bytes more : Bytes) (r : Request) (used : ℕ)
    → parse_at limits unsafe_path bytes ≡ some (r, used)
    → parse_at limits unsafe_path (bytes ++ more) ≡ some (r, used)
unfolding parse_at
parse_at-append limits unsafe_path bytes more r used e =
    let s = parse_at-Stages limits unsafe_path bytes r used e in
    let long = header_end-le bytes s.end s.found_end in
    let there = index_byte-lt bytes b'\n' s.line_end s.found_line in
    rw
      (
        header_end-append bytes more s.end s.found_end,
        index_byte-append bytes more b'\n' s.line_end s.found_line,
        take_of_append s.line_end bytes more (omega (arith, there)),
        take_of_append s.end bytes more (omega (arith, long)),
        s.read_line,
        s.read_fields,
      )
      (finish_request-append limits unsafe_path s.line s.fields bytes more (s.end + 4) r used long
        s.finished)

-- A request that is accepted is accepted with the same result and the same number of bytes consumed
-- whatever follows it in the input.
pub parse_http_request_internal-append :
    (limits : Limits) (unsafe_path : Bool) (input more : Bytes) (r : Request) (consumed : ℕ)
    → parse_http_request_internal limits unsafe_path input ≡ some (r, consumed)
    → parse_http_request_internal limits unsafe_path (input ++ more) ≡ some (r, consumed)
unfolding parse_http_request_internal
parse_http_request_internal-append limits unsafe_path input more r consumed e =
    let skip = skip_crlf input in
    elim (Option-cases (parse_at limits unsafe_path (drop skip input))) [
      | inl refused ↦ absurd (ground arith)
      | inr ((r', used), read) ↦
          let s = parse_at-Stages limits unsafe_path (drop skip input) r' used read in
          let long = header_end-le (drop skip input) s.end s.found_end in
          let later = parse_at-append limits unsafe_path (drop skip input) more r' used read in
          rw
            (
              skip_crlf-append input more (omega (arith, long)),
              drop_of_append skip input more (skip_crlf-le input),
              later,
            )
            (rw read at e)
    ]
