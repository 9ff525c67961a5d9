-- ===== src/Http/Response/Tests.antt =====
-- Responses and what handlers read, at concrete inputs.
use kruda.Base.{
  ◌≡◌, ◌++◌, true, false, [], ◌∷◌, refl, arith, Bytes, codes, ◌=ᵇ◌, none, if◌then◌else◌, split,
}
use mathlib.Core.List.{Perm}
use kruda.Http.Lexical.{lower, ascii_equal_fold}
use kruda.Http.Headers.{no_fields}
use kruda.Http.Request.{Request}
use kruda.Http.HeaderMap as HeaderMap
use kruda.Http.HeaderMap.{WingHeader, WingHeaders}
use kruda.Http.HeaderMap.Laws.{entries, without, get-set_any, del-Perm}
use kruda.Http.Response.{
  WingResponse, response_generic, acquire_response, set_string_body, set_json,
}
use kruda.Http.Response.Serial.{
  build_zero_copy, json_status_line, wing_status_close, empty_and_close, has_content_length,
  status_line,
}
use kruda.Http.Response.Lanes.{
  respond, json_type, json_status, build_zero_copy-set_string_body, build_zero_copy-set_json,
  wing_status_close_lem,
}
use kruda.Http.Response.Framing.{IsFramed, build_zero_copy-IsFramed}
use kruda.Http.Adapter.{header, query_param}
use kruda.Http.Adapter.Query.{IsFirstValue, query_param-IsFirstValue}

abbrev date : Bytes
date = codes "Date: Mon, 02 Jan 2006 15:04:05 GMT\r\n"

abbrev headers : WingHeaders
headers = record {
  slots =
      record { key = codes "X-A"; val = codes "1" }
      ∷ record { key = codes "X-B"; val = codes "2" }
      ∷ record { key = codes "X-A"; val = codes "3" }
      ∷ [];
  extra = [];
}

abbrev response : WingResponse
response = record {
  status = 200;
  headers = headers;
  body = codes "hello";
  static_resp = none;
  json_fast = false;
  response_mode = response_generic;
  string_fast = false;
  string_body = [];
  string_content_type = [];
  send_file_enabled = false;
  file_fd = 0;
  file_size = 0;
}

sent :
    build_zero_copy date response
    ≡ codes "HTTP/1.1 200 OK\r\n"
      ++ date
      ++ codes "X-A: 1\r\nX-B: 2\r\nX-A: 3\r\nContent-Length: 5\r\n\r\nhello"
unfolding build_zero_copy ◌=ᵇ◌
sent = refl

get-set_any_example :
    HeaderMap.get (HeaderMap.set headers (codes "X-A") (codes "9")) (codes "X-B")
    ≡ (if codes "X-A" =ᵇ codes "X-B" then codes "9" else HeaderMap.get headers (codes "X-B"))
get-set_any_example = get-set_any headers (codes "X-A") (codes "9") (codes "X-B")

del-Perm_example :
    Perm (entries (HeaderMap.del headers (codes "X-A"))) (without (codes "X-A") (entries headers))
del-Perm_example = del-Perm headers (codes "X-A")

build_zero_copy-IsFramed_example : IsFramed date response (build_zero_copy date response)
unfolding has_content_length ◌=ᵇ◌
build_zero_copy-IsFramed_example = build_zero_copy-IsFramed date response (record {
  not_static = refl;
  no_file = refl;
  no_string = refl;
  no_json = refl;
  no_length_slots = refl;
  no_length_extra = refl;
  clean = ((refl, refl), ((refl, refl), ((refl, refl), tt)));
  date_line = (codes "Date: Mon, 02 Jan 2006 15:04:05 GMT", (refl, refl));
})

build_zero_copy-set_string_body_example :
    build_zero_copy date
      (set_string_body (acquire_response response) 404 (codes "text/plain") (codes "gone"))
    ≡ build_zero_copy date
        (respond (acquire_response response) (codes "text/plain") 404 (codes "gone"))
build_zero_copy-set_string_body_example =
    build_zero_copy-set_string_body date response 404 (codes "text/plain") (codes "gone")
      (omega arith)

build_zero_copy-set_json_example :
    build_zero_copy date (set_json (acquire_response response) 202 (codes "{}"))
    ≡ build_zero_copy date
        (respond (acquire_response response) json_type (json_status 202) (codes "{}"))
build_zero_copy-set_json_example = build_zero_copy-set_json date response 202 (codes "{}")

-- The JSON lane sends 202 as 200.
accepted_is_ok : json_status_line 202 ≡ codes "HTTP/1.1 200 OK\r\n"
unfolding json_status_line
accepted_is_ok = refl

unknown_kept : status_line 202 ≡ codes "HTTP/1.1 202 Unknown\r\n"
unfolding status_line
unknown_kept = refl

wing_status_close_lem_example : wing_status_close 413 ≡ json_status_line 413 ++ empty_and_close
wing_status_close_lem_example = wing_status_close_lem 413

abbrev request : Request
request = record {
  method = codes "GET";
  path = codes "/";
  query = codes "a=1&b&c=2&a=3";
  body = [];
  fields = record no_fields { extra_hdrs = (codes "x-id", codes "7") ∷ [] };
  keep_alive = true;
  path_unsafe = false;
}

query_param-IsFirstValue_example :
    IsFirstValue (codes "c") (split b'&' request.query) (query_param request (codes "c"))
query_param-IsFirstValue_example = query_param-IsFirstValue request (codes "c")

-- A common name in a third spelling.
not_found :
    (header
      (record request { fields = record no_fields { host_value = codes "h" } })
      (codes "HOST")).1
    ≡ []
unfolding header ◌=ᵇ◌ ascii_equal_fold lower
not_found = refl
