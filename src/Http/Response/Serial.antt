-- ===== src/Http/Response/Serial.antt =====
-- wing_http.go: the bytes of a response. `date` is the chunk that `dateHdr` returns, which a ticker of
-- the program renews.
use kruda.Base.{
  ℕ, zero, suc, ◌+◌, ◌/◌, ◌%◌, List, [], ◌∷◌, ◌++◌, Bool, false, ◌&&◌, ◌||◌, if◌then◌else◌, ltb,
  ◌==◌, Bytes, codes, ◌=ᵇ◌, length, Option, none, some,
}
use mathlib.Core.Option
use kruda.Http.HeaderMap.{WingHeader, WingHeaders}
use kruda.Http.Request.{crlfcrlf}
use kruda.Http.Response.{WingResponse}

abbrev pub crlf : Bytes
crlf = b'\r' ∷ b'\n' ∷ []

-- `strconv.Itoa` and `strconv.AppendInt`, base 10. Every round takes a digit off, so the number itself
-- is fuel enough.
unfoldable pub itoa_from : ℕ → ℕ → Bytes → Bytes
itoa_from zero n acc = acc
itoa_from (suc fuel) n acc =
    let digit = b'0' + n % 10 in
    let rest = itoa_from fuel (n / 10) (digit ∷ acc) in if ltb n 10 then digit ∷ acc else rest

unfoldable pub itoa : ℕ → Bytes
unfolding itoa_from
itoa n = itoa_from (suc n) n []

abbrev pub status_texts : List (ℕ × Bytes)
status_texts =
    (200, codes "OK")
    ∷ (201, codes "Created")
    ∷ (204, codes "No Content")
    ∷ (301, codes "Moved Permanently")
    ∷ (302, codes "Found")
    ∷ (304, codes "Not Modified")
    ∷ (400, codes "Bad Request")
    ∷ (401, codes "Unauthorized")
    ∷ (403, codes "Forbidden")
    ∷ (404, codes "Not Found")
    ∷ (405, codes "Method Not Allowed")
    ∷ (409, codes "Conflict")
    ∷ (413, codes "Content Too Large")
    ∷ (422, codes "Unprocessable Entity")
    ∷ (429, codes "Too Many Requests")
    ∷ (431, codes "Request Header Fields Too Large")
    ∷ (500, codes "Internal Server Error")
    ∷ (501, codes "Not Implemented")
    ∷ (502, codes "Bad Gateway")
    ∷ (503, codes "Service Unavailable")
    ∷ []

unfoldable pub text_of : ℕ → List (ℕ × Bytes) → Option Bytes
text_of status [] = none
text_of status ((code, text) ∷ texts) = if code == status then some text else text_of status texts

-- The table `statusLines`: `none` for nil.
unfoldable pub status_lines : ℕ → Option Bytes
unfolding text_of itoa
status_lines status =
    Option.map (λ text. codes "HTTP/1.1 " ++ itoa status ++ codes " " ++ text ++ crlf)
      (text_of status status_texts)

-- The guard `status > 0 && status < len(statusLines)` and the look into the table.
unfoldable pub known_line : ℕ → Option Bytes
unfolding status_lines
known_line status = if ltb 0 status && ltb status 600 then status_lines status else none

unfoldable pub unknown_line : ℕ → Bytes
unfolding itoa
unknown_line status = codes "HTTP/1.1 " ++ itoa status ++ codes " Unknown\r\n"

unfoldable pub or_else : Option Bytes → Bytes → Bytes
or_else none b = b
or_else (some a) b = a

unfoldable pub status_line : ℕ → Bytes
unfolding or_else known_line unknown_line
status_line status = or_else (known_line status) (unknown_line status)

unfoldable pub json_status_line : ℕ → Bytes
unfolding or_else known_line status_lines
json_status_line status = or_else (known_line status) (or_else (status_lines 200) [])

-- The entries, one line each.
unfoldable pub header_lines : List WingHeader → Bytes
header_lines [] = []
header_lines (h ∷ hs) = h.key ++ codes ": " ++ h.val ++ crlf ++ header_lines hs

abbrev pub bytes_content_length : Bytes
bytes_content_length = codes "Content-Length"

unfoldable pub has_content_length : List WingHeader → Bool
has_content_length [] = false
has_content_length (h ∷ hs) = h.key =ᵇ bytes_content_length || has_content_length hs

unfoldable pub append_status_and_headers : Bytes → Bytes → ℕ → WingHeaders → Bytes × Bool
unfolding status_line header_lines has_content_length
append_status_and_headers date b status h = (
  b ++ status_line status ++ date ++ header_lines h.slots ++ header_lines h.extra,
  has_content_length h.slots || has_content_length h.extra,
)

-- The table `contentLengthStrings` has 2049 entries, each of them `strconv.Itoa`.
unfoldable pub append_content_length_value : Bytes → ℕ → Bytes
unfolding itoa
append_content_length_value b n = if ltb n 2049 then b ++ itoa n else b ++ itoa n

unfoldable pub append_to : Bytes → WingResponse → Bytes → Bytes
unfolding append_status_and_headers append_content_length_value
append_to date r b = elim r.static_resp [
  | some bytes ↦ b ++ bytes
  | none ↦
      let (head, has_cl) = append_status_and_headers date b r.status r.headers in
      (if has_cl
        then head
        else append_content_length_value (head ++ codes "Content-Length: ") (length r.body) ++ crlf)
      ++ crlf
      ++ r.body
]

unfoldable pub content_type_line : Bytes → Bytes
content_type_line [] = []
content_type_line (c ∷ cs) = codes "Content-Type: " ++ (c ∷ cs) ++ crlf

unfoldable pub append_string_to : Bytes → WingResponse → Bytes → Bytes
unfolding status_line content_type_line append_content_length_value
append_string_to date r b =
    let head = b ++ status_line r.status ++ date ++ content_type_line r.string_content_type in
    append_content_length_value (head ++ codes "Content-Length: ") (length r.string_body)
    ++ crlfcrlf
    ++ r.string_body

abbrev pub json_header_content_length : Bytes
json_header_content_length =
    codes "Content-Type: application/json; charset=utf-8\r\nContent-Length: "

unfoldable pub append_json_to : Bytes → WingResponse → Bytes → Bytes
unfolding json_status_line append_content_length_value
append_json_to date r b =
    append_content_length_value
      (b ++ json_status_line r.status ++ date ++ json_header_content_length) (length r.body)
    ++ crlfcrlf
    ++ r.body

unfoldable pub build_headers_only : Bytes → WingResponse → Bytes
unfolding or_else known_line header_lines append_content_length_value
build_headers_only date r =
    append_content_length_value
      (or_else (known_line r.status) (codes "HTTP/1.1 200 OK\r\n")
        ++ date
        ++ header_lines r.headers.slots
        ++ header_lines r.headers.extra
        ++ codes "Content-Length: ")
      r.file_size
    ++ crlfcrlf

-- The lanes in the order in which the code tries them.
unfoldable pub build_zero_copy : Bytes → WingResponse → Bytes
unfolding append_to append_string_to append_json_to build_headers_only
build_zero_copy date r = elim r.static_resp [
  | some bytes ↦ bytes
  | none ↦
      if ltb 0 r.file_fd
      then build_headers_only date r
      else if r.string_fast
      then append_string_to date r []
      else if r.json_fast
      then append_json_to date r []
      else append_to date r []
]

-- `decimalLen`: the rounds in which `n` is divided by 10 until it is 0.
unfoldable pub decimal_len_from : ℕ → ℕ → ℕ
decimal_len_from zero n = 0
decimal_len_from (suc fuel) n =
    let rest = decimal_len_from fuel (n / 10) in if ltb 0 n then suc rest else 0

unfoldable pub decimal_len : ℕ → ℕ
unfolding decimal_len_from
decimal_len n = decimal_len_from n n

unfoldable pub content_length_value_len : ℕ → ℕ
unfolding itoa decimal_len
content_length_value_len n =
    if ltb n 2049 then length (itoa n) else if n == 0 then 1 else decimal_len n

-- What `init` writes behind the line of each cached answer.
abbrev pub cached_and_close : Bytes
cached_and_close = codes "Content-Length: 0\r\nConnection: close\r\n\r\n"

-- What `wingStatusClose` itself writes behind the line.
abbrev pub empty_and_close : Bytes
empty_and_close = codes "Content-Length: 0\r\nConnection: close\r\n\r\n"

-- The table `statusCloseCache`: `none` for nil.
unfoldable pub cached_close : ℕ → List ℕ → Option Bytes
unfolding status_lines
cached_close status [] = none
cached_close status (code ∷ more) =
    if code == status
    then Option.map (λ line. line ++ cached_and_close) (status_lines code)
    else cached_close status more

abbrev pub closing_codes : List ℕ
closing_codes = 400 ∷ 413 ∷ 431 ∷ 500 ∷ 501 ∷ 503 ∷ []

unfoldable pub status_close_cache : ℕ → Option Bytes
unfolding cached_close
status_close_cache status =
    if ltb 0 status && ltb status 600 then cached_close status closing_codes else none

unfoldable pub wing_status_close : ℕ → Bytes
unfolding status_close_cache json_status_line
wing_status_close status =
    or_else (status_close_cache status) (json_status_line status ++ empty_and_close)
