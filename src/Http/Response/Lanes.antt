-- ===== src/Http/Response/Lanes.antt =====
-- wing_http.go: the fast lanes of a response against the generic path, and the pre-built tables.
use kruda.Base.{
  ℕ, ◌+◌, ◌<◌, ◌≡◌, ◌∙◌, refl, ap, sym, arith, ◌&&◌, List, [], ◌∷◌, ◌++◌, append_assoc, append-nil,
  ltb, ◌==◌, Bytes, codes, ◌=ᵇ◌, length, length-append, Option, none, some, Bool-cases, inl, inr,
}
use mathlib.Core.Option
use kruda.Http.HeaderMap as HeaderMap
use kruda.Http.HeaderMap.{WingHeader, WingHeaders}
use kruda.Http.Request.{crlfcrlf}
use kruda.Http.Response.{
  WingResponse, acquire_response, write_header, write, set_string_body, set_json,
}
use kruda.Http.Response.Serial.{
  crlf, status_lines, known_line, unknown_line, or_else, status_line, json_status_line,
  header_lines, has_content_length, append_status_and_headers, append_content_length_value,
  append_to, content_type_line, append_string_to, json_header_content_length, append_json_to,
  build_zero_copy, content_length_value_len, empty_and_close, cached_close, closing_codes,
  wing_status_close,
}
use kruda.Http.Response.Digits.{length-itoa, append_content_length_value_lem}

abbrev pub content_type : Bytes
content_type = codes "Content-Type"

abbrev pub json_type : Bytes
json_type = codes "application/json; charset=utf-8"

-- What a handler does on the generic path: it sets the content type, the status and writes the body.
unfoldable pub respond : WingResponse → Bytes → ℕ → Bytes → WingResponse
unfolding write write_header HeaderMap.set
respond r type status body =
    write (write_header (record r { headers = HeaderMap.set r.headers content_type type }) status)
      body

-- The string lane writes, byte for byte, what the generic path writes for a handler that sets the same
-- content type, unless that is empty, status and body.
pub build_zero_copy-set_string_body :
    (date : Bytes) (r : WingResponse) (status : ℕ) (type body : Bytes)
    → 0 < length type
    → build_zero_copy date (set_string_body (acquire_response r) status type body)
      ≡ build_zero_copy date (respond (acquire_response r) type status body)
unfolding build_zero_copy set_string_body acquire_response respond append_string_to append_to
    append_status_and_headers header_lines has_content_length ◌=ᵇ◌ content_type_line
build_zero_copy-set_string_body date r status [] body h = absurd (omega arith)
build_zero_copy-set_string_body date r status (c ∷ type) body h =
    simp (append_content_length_value_lem, append_assoc, append-nil)

-- The status that the JSON lane sends: a status without a line of its own becomes 200.
abbrev pub json_status : ℕ → ℕ
json_status status = elim (known_line status) [ some line ↦ status | none ↦ 200 ]

json_line :
    (known : Option Bytes) (status : ℕ)
    → known ≡ known_line status
    → status_line (elim known [ some line ↦ status | none ↦ 200 ])
      ≡ or_else known (or_else (status_lines 200) [])
unfolding status_line
json_line none status e = refl
json_line (some line) status e = ap (λ o. or_else o (unknown_line status)) (sym e)

status_line-json_status : (status : ℕ) → status_line (json_status status) ≡ json_status_line status
unfolding json_status_line
status_line-json_status status = json_line (known_line status) status refl

abbrev generic_bytes : Bytes → Bytes → Bytes → Bytes → Bytes
generic_bytes line date type body =
    append_content_length_value
      (line
        ++ date
        ++ (content_type ++ codes ": " ++ type ++ crlf ++ [])
        ++ []
        ++ codes "Content-Length: ")
      (length body)
    ++ crlf
    ++ crlf
    ++ body

json_bytes :
    (line date body : Bytes)
    → append_content_length_value (line ++ date ++ json_header_content_length) (length body)
        ++ crlfcrlf
        ++ body
      ≡ generic_bytes line date json_type body
json_bytes line date body = simp (append_content_length_value_lem, append_assoc, append-nil)

-- The JSON lane writes, byte for byte, what the generic path writes for a handler that sets the JSON
-- content type and the body, with the status 200 in place of a status without a line of its own.
pub build_zero_copy-set_json :
    (date : Bytes) (r : WingResponse) (status : ℕ) (body : Bytes)
    → build_zero_copy date (set_json (acquire_response r) status body)
      ≡ build_zero_copy date (respond (acquire_response r) json_type (json_status status) body)
unfolding build_zero_copy set_json acquire_response respond append_json_to append_to
    append_status_and_headers header_lines has_content_length ◌=ᵇ◌
build_zero_copy-set_json date r status body =
    json_bytes (json_status_line status) date body
    ∙ ap (λ line. generic_bytes line date json_type body) (sym (status_line-json_status status))

-- The room that is made for a JSON response is exactly what its bytes take.
pub length-append_json_to :
    (date : Bytes) (r : WingResponse) (b : Bytes)
    → length (append_json_to date r b)
      ≡ length b
        + (length (json_status_line r.status)
            + length date
            + length json_header_content_length
            + content_length_value_len (length r.body)
            + 4
            + length r.body)
unfolding append_json_to
length-append_json_to date r b =
    simp (append_content_length_value_lem, length-append, length-itoa) (omega arith)

cached_answer :
    (line : Option Bytes) (other more : Bytes)
    → or_else (Option.map (λ l. l ++ more) line) (or_else line other ++ more)
      ≡ or_else line other ++ more
unfolding or_else
cached_answer none other more = refl
cached_answer (some l) other more = refl

-- The line within the range of the table.
abbrev known_or_ok : ℕ → Bytes
known_or_ok status = or_else (status_lines status) (or_else (status_lines 200) [])

cached_close-json_status_line :
    (status : ℕ) (codes : List ℕ)
    → or_else (cached_close status codes) (known_or_ok status ++ empty_and_close)
      ≡ known_or_ok status ++ empty_and_close
unfolding cached_close or_else
cached_close-json_status_line status [] = refl
cached_close-json_status_line status (code ∷ more) = elim (Bool-cases (code == status)) [
  | inl same ↦
      let e : code ≡ status = ground arith in
      rw (same, e)
        (cached_answer (status_lines status) (or_else (status_lines 200) []) empty_and_close)
  | inr other ↦ rw other (cached_close-json_status_line status more)
]

-- Whether it was built in advance or not, the answer of `wingStatusClose` is the line of the status, or
-- that of 200 where it has none, an empty body and `Connection: close`.
pub wing_status_close_lem :
    (status : ℕ) → wing_status_close status ≡ json_status_line status ++ empty_and_close
unfolding wing_status_close
wing_status_close_lem status = elim (Bool-cases (ltb 0 status && ltb status 600)) [
  | inl inside ↦ rw inside (cached_close-json_status_line status closing_codes)
  | inr outside ↦ rw outside refl
]
