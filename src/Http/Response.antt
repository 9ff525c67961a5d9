-- ===== src/Http/Response.antt =====
-- wing_http.go: wingResponse, the response that a handler fills and the transport sends. The scratch
-- buffers `buf` and `jsonBuf` and the pool are left out: they are empty where the code starts to fill
-- them. A status and a size are natural numbers.
pub mod Serial
pub mod Digits
pub mod Lanes
pub mod Lines
pub mod Framing
mod Tests
use kruda.Base.{
  ℕ, ◌+◌, ◌⊎◌, inl, inr, List, [], ◌∷◌, ◌++◌, Bool, true, false, not, ◌&&◌, if◌then◌else◌, ltb,
  ◌==◌, Bytes, Option, none, some,
}
use kruda.Http.HeaderMap.{WingHeaders, reset}

pub data ResponseMode : Type 0 where
  response_generic response_json response_render response_stream response_hijack : ResponseMode

pub record WingResponse : Type 0 where
  pub status : ℕ
  pub headers : WingHeaders
  pub body : Bytes
  pub static_resp : Option Bytes
  pub json_fast : Bool
  pub response_mode : ResponseMode
  pub string_fast : Bool
  pub string_body : Bytes
  pub string_content_type : Bytes
  pub send_file_enabled : Bool
  pub file_fd : ℕ
  pub file_size : ℕ

-- What the pool hands out, from whatever response it holds.
unfoldable pub acquire_response : WingResponse → WingResponse
unfolding reset
acquire_response r = record {
  status = 200;
  headers = reset r.headers;
  body = [];
  static_resp = none;
  json_fast = false;
  response_mode = response_generic;
  string_fast = false;
  string_body = [];
  string_content_type = [];
  send_file_enabled = false;
  file_fd = 0;
  file_size = 0;
}

-- The response that goes back to the pool, and the descriptors that are closed.
unfoldable pub release_response : WingResponse → WingResponse × List ℕ
unfolding reset
release_response r = (
  record {
    status = 0;
    headers = reset r.headers;
    body = [];
    static_resp = none;
    json_fast = false;
    response_mode = response_generic;
    string_fast = false;
    string_body = [];
    string_content_type = [];
    send_file_enabled = false;
    file_fd = 0;
    file_size = 0;
  },
  if ltb 0 r.file_fd then r.file_fd ∷ [] else [],
)

unfoldable pub write_header : WingResponse → ℕ → WingResponse
write_header r code = record r { status = code }

unfoldable pub write : WingResponse → Bytes → WingResponse
write r bytes = record r { body = r.body ++ bytes }

unfoldable pub set_static_response : WingResponse → Bytes → WingResponse
set_static_response r bytes = record r { static_resp = some bytes }

unfoldable pub set_string_body : WingResponse → ℕ → Bytes → Bytes → WingResponse
unfolding reset
set_string_body r status content_type body = record r {
  status = status;
  headers = reset r.headers;
  body = [];
  static_resp = none;
  json_fast = false;
  string_fast = true;
  string_body = body;
  string_content_type = content_type;
}

-- With the descriptors that are closed.
unfoldable pub set_send_file : WingResponse → ℕ → ℕ → WingResponse × List ℕ
set_send_file r fd size = (
  record r { file_fd = fd; file_size = size },
  if ltb 0 r.file_fd && not (r.file_fd == fd) then r.file_fd ∷ [] else [],
)

unfoldable pub set_json : WingResponse → ℕ → Bytes → WingResponse
set_json r status bytes = record r { status = status; body = bytes; json_fast = true }

-- `encoded` is what the encoder writes, or its error.
unfoldable pub set_json_stream :
    {E : Type 0} → WingResponse → ℕ → E ⊎ Bytes → WingResponse × Option E
unfolding set_json
set_json_stream r status (inl e) = (r, some e)
set_json_stream r status (inr bytes) = (set_json r status bytes, none)
