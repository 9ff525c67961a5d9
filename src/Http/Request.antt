-- ===== src/Http/Request.antt =====
-- wing_http.go: `parseHTTPRequestInternal`.
pub mod Stages
pub mod Framing
pub mod Pipeline
use kruda.Base.{
  ℕ, zero, suc, ◌+◌, ◌-◌, Bool, true, false, not, ◌&&◌, ◌||◌, List, [], ◌∷◌, ◌++◌, map, Option,
  none, some, if◌then◌else◌, ltb, leb, ◌==◌, Bytes, codes, ◌=ᵇ◌, index_byte, has_prefix, length,
  take, drop, get_or, is_empty,
}
use mathlib.Core.Option
use kruda.Http.Lexical.{
  is_valid_token_name, is_valid_http_version, requires_host_header, max_content_length,
}
use kruda.Http.Headers.{Limits, Fields, no_fields, ◌>>=◌, ◌>>◌, reject_if, strip_cr, parse_lines}

-- `wingRequest` as the parser fills it.
pub record Request : Type 0 where
  pub method : Bytes
  pub path : Bytes
  pub query : Bytes
  pub body : Bytes
  pub fields : Fields
  pub keep_alive : Bool
  pub path_unsafe : Bool

-- The leading CRLFs: how many bytes they are.
unfoldable pub skip_crlf : Bytes → ℕ
skip_crlf [] = 0
skip_crlf (c ∷ []) = 0
skip_crlf (c ∷ d ∷ cs) =
    let rest = skip_crlf cs in if c == b'\r' && d == b'\n' then suc (suc rest) else 0

abbrev pub crlfcrlf : Bytes
crlfcrlf = b'\r' ∷ b'\n' ∷ b'\r' ∷ b'\n' ∷ []

-- `bytes.Index(data, crlfcrlf)`.
unfoldable pub header_end : Bytes → Option ℕ
unfolding has_prefix
header_end [] = none
header_end (c ∷ cs) =
    let rest = header_end cs in if has_prefix (c ∷ cs) crlfcrlf then some 0 else Option.map suc rest

pub record RequestLine : Type 0 where
  pub method : Bytes
  pub target : Bytes
  pub version : Bytes

-- "METHOD /path HTTP/1.x", without its line end.
unfoldable pub parse_request_line : Bytes → Option RequestLine
parse_request_line line = do
  sp1 ← index_byte line b' '
  reject_if (sp1 == 0)
  sp2 ← index_byte (drop (sp1 + 1) line) b' '
  reject_if (sp2 == 0)
  let version = drop (sp1 + 1 + sp2 + 1) line
  reject_if (not (is_valid_http_version version))
  reject_if (not (is_valid_token_name (take sp1 line)))
  let target = take sp2 (drop (sp1 + 1) line)
  reject_if (not (get_or target 0 0 == b'/' || target =ᵇ (b'*' ∷ [])))
  some (record { method = take sp1 line; target = target; version = version })

-- The path and the query of a request target.
unfoldable pub split_target : Bytes → Bytes × Bytes
split_target target = elim (index_byte target b'?') [
  | none ↦ (target, [])
  | some qi ↦ (take qi target, drop (qi + 1) target)
]

unfoldable pub keeps_alive : Bytes → Fields → Bool
keeps_alive version f =
    let http10 = get_or version 5 0 == b'1' && get_or version 7 0 == b'0' in
    not f.close_token && (requires_host_header version || http10 && f.keep_alive_token)

-- What follows the header loop: the tests on the fields, the body, and the bytes consumed.
unfoldable pub finish_request :
    Limits → Bool → RequestLine → Fields → Bytes → ℕ → Option (Request × ℕ)
finish_request limits unsafe_path line f input body_start = do
  reject_if (requires_host_header line.version && not f.host_seen)
  reject_if (f.encoding_seen && f.length_seen)
  reject_if f.encoding_seen
  reject_if (ltb max_content_length f.length_value)
  let (path, query) = split_target line.target
  let r : Request = record {
    method = line.method;
    path = path;
    query = query;
    body = [];
    fields = f;
    keep_alive = keeps_alive line.version f;
    path_unsafe = unsafe_path && not (path =ᵇ (b'/' ∷ []));
  }
  if ltb 0 f.length_value
      then (do
        reject_if (ltb 0 limits.body_limit && ltb limits.body_limit f.length_value)
        reject_if (ltb (length input) (body_start + f.length_value))
        some (
          record r { body = take f.length_value (drop body_start input) },
          body_start + f.length_value,
        ))
      else some (r, body_start)

-- The request behind the leading CRLFs.
unfoldable pub parse_at : Limits → Bool → Bytes → Option (Request × ℕ)
parse_at limits unsafe_path input = do
  end ← header_end input
  line_end ← index_byte input b'\n'
  line ← parse_request_line (strip_cr (take line_end input))
  let window = drop (line_end + 1) (take end input)
  f ← parse_lines (length window) limits unsafe_path b'\n' window no_fields
  finish_request limits unsafe_path line f input (end + 4)

unfoldable pub parse_http_request_internal : Limits → Bool → Bytes → Option (Request × ℕ)
unfolding skip_crlf
parse_http_request_internal limits unsafe_path input = do
  let skip = skip_crlf input
  (r, consumed) ← parse_at limits unsafe_path (drop skip input)
  some (r, skip + consumed)
