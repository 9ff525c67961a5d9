-- ===== src/Http/Tests.antt =====
-- Requests as byte strings, and the theorems at concrete requests.
use kruda.Base.{
  ℕ, Bool, Option, ◌⊎◌, take, drop, arith, if◌then◌else◌, true, false, [], ◌∷◌, ◌++◌, ◌≡◌, refl,
  none, some, min, ◌+◌, Bytes, codes, length, index_byte, ◌=ᵇ◌,
}
use kruda.Http.Classify.{need_header_more, need_body, classify_incomplete}
use kruda.Http.Classify.Lines.{ReadsDigits}
use kruda.Http.Classify.Prefix.{classify_incomplete-prefix}
use kruda.Http.Lexical.{
  is_all_digits, btoi, max_content_length, is_valid_http_version, is_valid_token_name,
  has_invalid_header_value_byte, known_header, lower, is_valid_host_header, requires_host_header,
}
use kruda.Http.Lexical.Decimal.{decimal_from, btoi-decimal_from}
use kruda.Http.Headers.{Limits, no_fields, strip_cr, set_field, parse_line, parse_lines}
use kruda.Http.Request.{
  Request, RequestLine, skip_crlf, header_end, parse_request_line, split_target, keeps_alive,
  finish_request, parse_at, parse_http_request_internal,
}
use kruda.Http.Request.Framing.{
  request_start, first_line, header_lines, IsFramed, HasBody, parse_http_request_internal-IsFramed,
  parse_http_request_internal-HasBody,
}
use kruda.Http.Request.Pipeline.{parse_http_request_internal-append}

abbrev limits : Limits
limits = record { max_header_count = 100; max_header_size = 8192; body_limit = 4096 }

abbrev crlf : Bytes
crlf = b'\r' ∷ b'\n' ∷ []

abbrev post : Bytes
post =
    crlf
    ++ codes "POST /a?b HTTP/1.1"
    ++ crlf
    ++ codes "Host: h"
    ++ crlf
    ++ codes "X-Id: 7"
    ++ crlf
    ++ codes "Content-Length: 3"
    ++ crlf
    ++ crlf
    ++ codes "xyz"

abbrev post_request : Request
post_request = record {
  method = codes "POST";
  path = codes "/a";
  query = codes "b";
  body = codes "xyz";
  fields = record no_fields {
    length_value = 3;
    length_seen = true;
    host_value = codes "h";
    host_seen = true;
    header_count = 3;
    extra_hdrs = (codes "x-id", codes "7") ∷ [];
  };
  keep_alive = true;
  path_unsafe = false;
}

read_post : parse_http_request_internal limits false post ≡ some (post_request, 64)
unfolding parse_http_request_internal parse_at parse_request_line split_target keeps_alive
    finish_request parse_line parse_lines set_field skip_crlf header_end index_byte strip_cr
    is_valid_http_version ◌=ᵇ◌ is_valid_token_name has_invalid_header_value_byte known_header lower
    is_valid_host_header is_all_digits requires_host_header btoi
read_post = refl

-- Two lengths, a chunked body, a missing host, a body over the limit, and a body that is not there yet.
abbrev get_with : Bytes → Bytes
get_with headers = codes "GET / HTTP/1.1" ++ crlf ++ headers ++ crlf ++ crlf

refused :
    (parse_http_request_internal limits false (
        get_with (
          codes "Host: h"
          ++ crlf
          ++ codes "Content-Length: 1"
          ++ crlf
          ++ codes "Content-Length: 1"))
      ≡ none)
    × (parse_http_request_internal limits false
          (get_with (codes "Host: h" ++ crlf ++ codes "Transfer-Encoding: chunked"))
        ≡ none)
    × (parse_http_request_internal limits false (get_with (codes "Accept: x")) ≡ none)
    × (parse_http_request_internal limits false
          (get_with (codes "Host: h" ++ crlf ++ codes "Content-Length: 4097"))
        ≡ none)
    × (parse_http_request_internal limits false
          (get_with (codes "Host: h" ++ crlf ++ codes "Content-Length: 1"))
        ≡ none)
unfolding parse_http_request_internal parse_at parse_request_line split_target keeps_alive
    finish_request parse_line parse_lines set_field skip_crlf header_end index_byte strip_cr
    is_valid_http_version ◌=ᵇ◌ is_valid_token_name has_invalid_header_value_byte known_header lower
    is_valid_host_header is_all_digits requires_host_header btoi
refused = (refl, refl, refl, refl, refl)

parse_http_request_internal-IsFramed_example :
    (line : RequestLine) × (parse_request_line (first_line (request_start post)) ≡ some line)
    × IsFramed limits (header_lines post) line post_request
parse_http_request_internal-IsFramed_example =
    parse_http_request_internal-IsFramed limits false post post_request 64 read_post

parse_http_request_internal-HasBody_example :
    HasBody limits post post_request 64
    × (length post_request.body ≡ post_request.fields.length_value)
parse_http_request_internal-HasBody_example =
    parse_http_request_internal-HasBody limits false post post_request 64 read_post

parse_http_request_internal-append_example :
    parse_http_request_internal limits false (post ++ codes "GET /") ≡ some (post_request, 64)
parse_http_request_internal-append_example =
    parse_http_request_internal-append limits false post (codes "GET /") post_request 64 read_post

btoi-decimal_from_example :
    btoi (codes "10485761") ≡ min (decimal_from 0 (codes "10485761")) (max_content_length + 1)
unfolding is_all_digits
btoi-decimal_from_example = btoi-decimal_from (codes "10485761") refl

-- Digits to a number, for `strconv.Atoi`.
abbrev digits_value : Bytes → Option ℕ
digits_value b = if is_all_digits b then some (decimal_from 0 b) else none

digits_value-ReadsDigits : ReadsDigits digits_value
digits_value-ReadsDigits b digits small = rw digits refl

classify_incomplete-prefix_example :
    (classify_incomplete digits_value limits (take 62 post) ≡ (need_header_more, (0, false)))
    ⊎ ((expects : Bool) × (classify_incomplete digits_value limits (take 62 post)
          ≡ (need_body, (post_request.fields.length_value, expects))))
classify_incomplete-prefix_example =
    classify_incomplete-prefix digits_value digits_value-ReadsDigits limits false (take 62 post)
      (drop 62 post) post_request 64 read_post (omega arith)
