-- ===== src/Http/Headers.antt =====
-- wing_http.go: the header loop of `parseHTTPRequestInternal`. `none` stands for the early return
-- of `(nil, 0, false)`.
pub mod Counts
pub mod Fuel
use kruda.Base.{
  ℕ, zero, suc, ◌+◌, ◌-◌, Bool, true, false, not, ◌&&◌, ◌||◌, List, [], ◌∷◌, ◌++◌, map, Option,
  none, some, if◌then◌else◌, ltb, ◌==◌, Bytes, index_byte, length, take, drop, get_or, is_empty,
}
use kruda.Http.Lexical.{
  HeaderKind, unknown, content_length, content_type, connection, transfer_encoding, cookie, host,
  accept, forwarded_for, real_ip, known_header, lower, contains_byte, is_valid_token_name,
  has_invalid_header_value_byte, is_all_digits, is_valid_host_header, is_space, trim_http_spaces,
  btoi, scan_connection_tokens,
}

-- `parserLimits` of wing_transport.go; 0 is no limit.
pub record Limits : Type 0 where
  pub max_header_count : ℕ
  pub max_header_size : ℕ
  pub body_limit : ℕ

-- The variables of the loop. `extra_hdrs` holds the eight inline headers and the overflow behind
-- them; a string is the same bytes whether it was copied or not, and the `unsafe` flags say which.
pub record Fields : Type 0 where
  pub length_value : ℕ
  pub type_value : Bytes
  pub cookie_value : Bytes
  pub host_value : Bytes
  pub accept_value : Bytes
  pub connection_value : Bytes
  pub forwarded_value : Bytes
  pub real_ip_value : Bytes
  pub forwarded_seen : Bool
  pub real_ip_seen : Bool
  pub host_seen : Bool
  pub connection_seen : Bool
  pub host_unsafe : Bool
  pub accept_unsafe : Bool
  pub connection_unsafe : Bool
  pub close_token : Bool
  pub keep_alive_token : Bool
  pub header_count : ℕ
  pub length_seen : Bool
  pub encoding_seen : Bool
  pub extra_hdrs : List (Bytes × Bytes)

abbrev pub no_fields : Fields
no_fields = record {
  length_value = 0;
  type_value = [];
  cookie_value = [];
  host_value = [];
  accept_value = [];
  connection_value = [];
  forwarded_value = [];
  real_ip_value = [];
  forwarded_seen = false;
  real_ip_seen = false;
  host_seen = false;
  connection_seen = false;
  host_unsafe = false;
  accept_unsafe = false;
  connection_unsafe = false;
  close_token = false;
  keep_alive_token = false;
  header_count = 0;
  length_seen = false;
  encoding_seen = false;
  extra_hdrs = [];
}

infixl 5 ◌>>=◌ ◌>>◌
abbrev pub ◌>>=◌ {ℓ κ} : {A : Type ℓ} {B : Type κ} → Option A → (A → Option B) → Option B
none >>= f = none
some a >>= f = f a

abbrev pub ◌>>◌ {ℓ} : {B : Type ℓ} → Option (Unit {0}) → Option B → Option B
m >> k = m >>= λ _. k

abbrev pub reject_if : Bool → Option (Unit {0})
reject_if true = none
reject_if false = some tt

set_connection : Bool → Bytes → Fields → Fields
unfolding scan_connection_tokens
set_connection unsafe_path val f =
    let (has_close, has_keep_alive) = scan_connection_tokens val in
    let f' = record f {
      close_token = f.close_token || has_close;
      keep_alive_token = f.keep_alive_token || has_keep_alive;
    } in
    if f.connection_seen then f' else record f' {
      connection_seen = true;
      connection_value = val;
      connection_unsafe = unsafe_path && not (is_empty val);
    }

-- The switch on `knownHeader(key)`, which the source has twice, before and behind the test of the
-- header's name; the last case is the default of the second one, on the trimmed key.
unfoldable pub set_field : HeaderKind → Bool → Bytes → Bytes → Fields → Option Fields
unfolding set_connection
set_field content_length unsafe_path key val f = do
  reject_if f.length_seen
  reject_if (not (is_all_digits val))
  some (record f { length_seen = true; length_value = btoi val })
set_field content_type unsafe_path key val f = some (record f { type_value = val })
set_field connection unsafe_path key val f = some (set_connection unsafe_path val f)
set_field transfer_encoding unsafe_path key val f = some (record f { encoding_seen = true })
set_field cookie unsafe_path key val f = some (record f { cookie_value = val })
set_field host unsafe_path key val f = do
  reject_if f.host_seen
  reject_if (not (is_valid_host_header val))
  some (record f {
    host_seen = true;
    host_value = val;
    host_unsafe = unsafe_path && not (is_empty val);
  })
set_field accept unsafe_path key val f =
    some (record f { accept_value = val; accept_unsafe = unsafe_path && not (is_empty val) })
set_field forwarded_for unsafe_path key val f =
    some (if f.forwarded_seen then f else record f { forwarded_seen = true; forwarded_value = val })
set_field real_ip unsafe_path key val f =
    some (if f.real_ip_seen then f else record f { real_ip_seen = true; real_ip_value = val })
set_field unknown unsafe_path key val f =
    some (record f { extra_hdrs = f.extra_hdrs ++ (map lower key, val) ∷ [] })

abbrev pub is_known : HeaderKind → Bool
is_known unknown = false
is_known _ = true

-- `hline[len(hline)-1] == '\r'` and the slice without it.
unfoldable pub strip_cr : Bytes → Bytes
strip_cr [] = []
strip_cr (c ∷ []) = if c == b'\r' then [] else c ∷ []
strip_cr (c ∷ d ∷ cs) = c ∷ strip_cr (d ∷ cs)

abbrev pub starts_with_space : Bytes → Bool
starts_with_space [] = false
starts_with_space (c ∷ cs) = is_space c

abbrev pub ends_with_space : Bytes → Bool
ends_with_space [] = false
ends_with_space (c ∷ []) = is_space c
ends_with_space (c ∷ d ∷ cs) = ends_with_space (d ∷ cs)

-- One header line, without its line end.
unfoldable pub parse_line : Limits → Bool → Bytes → Fields → Option Fields
parse_line limits unsafe_path hline f = do
  reject_if (starts_with_space hline)
  colon ← index_byte hline b':'
  let count = f.header_count + 1
  reject_if (ltb 0 limits.max_header_count && ltb limits.max_header_count count)
  reject_if (ltb 0 limits.max_header_size && ltb limits.max_header_size (length hline))
  let key = take colon hline
  let val = trim_http_spaces (drop (colon + 1) hline)
  reject_if (ends_with_space key)
  reject_if (has_invalid_header_value_byte val)
  let f' : Fields = record f { header_count = count }
  if is_known (known_header key) then set_field (known_header key) unsafe_path key val f' else (do
    reject_if (not (is_valid_token_name (trim_http_spaces key)))
    set_field (known_header (trim_http_spaces key)) unsafe_path (trim_http_spaces key) val f')

-- The loop over `data[pos:headerEnd]`; `prev` is `data[pos-1]`. Each round takes a byte at least, so
-- the length is enough fuel.
unfoldable pub parse_lines : ℕ → Limits → Bool → ℕ → Bytes → Fields → Option Fields
parse_lines zero limits unsafe_path prev window f = some f
parse_lines (suc fuel) limits unsafe_path prev [] f = some f
parse_lines (suc fuel) limits unsafe_path prev (c ∷ cs) f = elim (index_byte (c ∷ cs) b'\n') [
  | none ↦ do
    reject_if (contains_byte (c ∷ cs) b'\r')
    parse_line limits unsafe_path (strip_cr (c ∷ cs)) f
  | some zero ↦ do
    reject_if (not (prev == b'\r'))
    f' ← parse_line limits unsafe_path [] f
    parse_lines fuel limits unsafe_path b'\n' cs f'
  | some (suc nl) ↦ do
    reject_if (not (get_or (c ∷ cs) nl 0 == b'\r'))
    f' ← parse_line limits unsafe_path (strip_cr (take (suc nl) (c ∷ cs))) f
    parse_lines fuel limits unsafe_path b'\n' (drop (suc nl) cs) f'
]
