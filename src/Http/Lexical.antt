-- ===== src/Http/Lexical.antt =====
-- wing_http.go: the tests on bytes, numbers and tokens that the parser is made of.
pub mod Decimal
use kruda.Base.{
  ℕ, zero, suc, ◌+◌, ◌-◌, ◌*◌, ◌/◌, Bool, true, false, not, ◌&&◌, ◌||◌, List, [], ◌∷◌, ◌++◌, Option,
  none, some, if◌then◌else◌, ltb, leb, ◌==◌, Bytes, codes, ◌=ᵇ◌, index_byte, length, take, drop,
  get_or, is_empty,
}

abbrev pub within : ℕ → ℕ → ℕ → Bool
within lo hi c = leb lo c && leb c hi

abbrev pub is_digit : ℕ → Bool
is_digit = within b'0' b'9'

-- `if c >= 'A' && c <= 'Z' { c += 32 }`.
unfoldable pub lower : ℕ → ℕ
lower c = if within b'A' b'Z' c then c + 32 else c

unfoldable pub ascii_equal_fold : Bytes → Bytes → Bool
ascii_equal_fold [] [] = true
ascii_equal_fold (x ∷ xs) (y ∷ ys) = lower x == lower y && ascii_equal_fold xs ys
ascii_equal_fold _ _ = false

abbrev pub contains_byte : Bytes → ℕ → Bool
contains_byte [] c = false
contains_byte (x ∷ xs) c = x == c || contains_byte xs c

-- `tokenTable`, with the test `c >= 128` that guards it.
unfoldable pub is_token_byte : ℕ → Bool
is_token_byte c =
    is_digit c
    || within b'A' b'Z' c
    || within b'a' b'z' c
    || contains_byte (codes "!#$%&'*+-.^_`|~") c

abbrev pub every : (ℕ → Bool) → Bytes → Bool
every p [] = true
every p (c ∷ cs) = p c && every p cs

unfoldable pub is_valid_token_name : Bytes → Bool
unfolding is_token_byte
is_valid_token_name name = not (is_empty name) && every is_token_byte name

unfoldable pub has_invalid_header_value_byte : Bytes → Bool
has_invalid_header_value_byte b = not (every (λ c. c == b'\t' || not (ltb c 0x20 || c == 0x7f)) b)

unfoldable pub is_all_digits : Bytes → Bool
is_all_digits b = not (is_empty b) && every is_digit b

-- Exactly "HTTP/X.Y".
unfoldable pub is_valid_http_version : Bytes → Bool
is_valid_http_version v =
    length v == 8
    && take 5 v =ᵇ codes "HTTP/"
    && get_or v 6 0 == b'.'
    && is_digit (get_or v 5 0)
    && is_digit (get_or v 7 0)

unfoldable pub requires_host_header : Bytes → Bool
requires_host_header v =
    length v == 8 && (ltb b'1' (get_or v 5 0) || get_or v 5 0 == b'1' && leb b'1' (get_or v 7 0))

unfoldable pub is_valid_host_header : Bytes → Bool
is_valid_host_header = every λ c.
    is_digit c
    || within b'a' b'z' c
    || within b'A' b'Z' c
    || contains_byte (codes "!$%&'()*+,-.:;=[]_~") c

abbrev pub is_space : ℕ → Bool
is_space c = c == b' ' || c == b'\t'

unfoldable pub trim_front : Bytes → Bytes
trim_front [] = []
trim_front (c ∷ cs) = if is_space c then trim_front cs else c ∷ cs

-- The second loop, from the end: nothing is left of a list of spaces.
unfoldable pub trim_back : Bytes → Bytes
trim_back [] = []
trim_back (c ∷ cs) = let rest = trim_back cs in if is_empty rest && is_space c then [] else c ∷ rest

unfoldable pub trim_http_spaces : Bytes → Bytes
unfolding trim_front trim_back
trim_http_spaces b = trim_back (trim_front b)

abbrev pub max_content_length : ℕ
max_content_length = 10 * 1048576

-- The loop of `btoi` from the value `n` on.
unfoldable pub btoi_from : ℕ → Bytes → ℕ
btoi_from n [] = n
btoi_from n (c ∷ cs) =
    let rest = btoi_from (n * 10 + (c - b'0')) cs in
    if not (is_digit c)
    then n
    else if ltb (max_content_length / 10) n
    then max_content_length + 1
    else if ltb max_content_length (n * 10 + (c - b'0'))
    then max_content_length + 1
    else rest

unfoldable pub btoi : Bytes → ℕ
unfolding btoi_from
btoi = btoi_from 0

abbrev pub b_close : Bytes
b_close = codes "close"

abbrev pub b_keep_alive : Bytes
b_keep_alive = codes "keep-alive"

-- The loop of `scanConnectionTokens`; each round takes a comma at least, so the length is enough fuel.
unfoldable pub scan_tokens : ℕ → Bytes → Bool → Bool → Bool × Bool
unfolding ascii_equal_fold trim_http_spaces
scan_tokens zero value has_close has_keep_alive = (has_close, has_keep_alive)
scan_tokens (suc fuel) value has_close has_keep_alive =
    let comma = index_byte value b',' in
    let token = trim_http_spaces (elim comma [ none ↦ value | some i ↦ take i value ]) in
    let close' =
      if length token == length b_close
      then has_close || ascii_equal_fold token b_close
      else has_close in
    let keep_alive' =
      if length token == length b_close
      then has_keep_alive
      else if length token == length b_keep_alive
      then has_keep_alive || ascii_equal_fold token b_keep_alive
      else has_keep_alive in
    elim comma [
      | none ↦ (close', keep_alive')
      | some i ↦ elim (close' && keep_alive') [
        | true ↦ (close', keep_alive')
        | false ↦ scan_tokens fuel (drop (i + 1) value) close' keep_alive'
      ]
    ]

unfoldable pub scan_connection_tokens : Bytes → Bool × Bool
unfolding scan_tokens
scan_connection_tokens value = scan_tokens (length value + 1) value false false

pub data HeaderKind : Type 0 where
  unknown content_length content_type connection transfer_encoding cookie host accept : HeaderKind
  forwarded_for real_ip : HeaderKind

-- `knownHeader`: the length selects the names that are compared.
unfoldable pub known_header : Bytes → HeaderKind
unfolding ascii_equal_fold
known_header key =
    let n = length key in
    if n == 4
    then (if ascii_equal_fold key (codes "host") then host else unknown)
    else if n == 6
    then (if ascii_equal_fold key (codes "cookie")
        then cookie
        else if ascii_equal_fold key (codes "accept")
        then accept
        else unknown)
    else if n == 9
    then (if ascii_equal_fold key (codes "x-real-ip") then real_ip else unknown)
    else if n == 15
    then (if ascii_equal_fold key (codes "x-forwarded-for") then forwarded_for else unknown)
    else if n == 10
    then (if ascii_equal_fold key (codes "connection") then connection else unknown)
    else if n == 12
    then (if ascii_equal_fold key (codes "content-type") then content_type else unknown)
    else if n == 14
    then (if ascii_equal_fold key (codes "content-length") then content_length else unknown)
    else if n == 17
    then (if ascii_equal_fold key (codes "transfer-encoding") then transfer_encoding else unknown)
    else unknown
