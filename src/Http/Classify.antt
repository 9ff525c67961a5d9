-- ===== src/Http/Classify.antt =====
-- wing_http.go: `classifyIncomplete`, for a buffer that the parser refused. `atoi` stands for
-- `strconv.Atoi`: the number it gives where that is no error and not negative.
pub mod Lines
pub mod Prefix
use kruda.Base.{
  ℕ, zero, suc, ◌+◌, Bool, true, false, not, ◌&&◌, ◌||◌, [], ◌∷◌, Option, none, some, if◌then◌else◌,
  ltb, leb, ◌==◌, Bytes, codes, index_byte, length, take, drop,
}
use kruda.Http.Lexical.{
  HeaderKind, unknown, content_length, transfer_encoding, host, known_header, contains_byte,
  ascii_equal_fold, has_invalid_header_value_byte, is_valid_http_version, requires_host_header,
  is_valid_host_header, trim_http_spaces,
}
use kruda.Http.Headers.{Limits, strip_cr, starts_with_space, ends_with_space}
use kruda.Http.Request.{skip_crlf, header_end}

-- `parseStatus`.
pub data Status : Type 0 where
  need_header_more header_too_large malformed bad_request chunked body_too_large need_body : Status

-- The variables of the loop.
pub record Seen : Type 0 where
  pub has_te : Bool
  pub has_cl : Bool
  pub host_seen : Bool
  pub cl : ℕ
  pub expect_continue : Bool

abbrev pub nothing_seen : Seen
nothing_seen = record {
  has_te = false;
  has_cl = false;
  host_seen = false;
  cl = 0;
  expect_continue = false;
}

-- An early return with a status, no need and no expectation, or a value to go on with.
pub data Step (A : Type 0) : Type 0 where
  stop : Status → Step A
  go_on : A → Step A

infixl 5 ◌>>=◌ ◌>>◌
abbrev pub ◌>>=◌ : {A B : Type 0} → Step A → (A → Step B) → Step B
stop why >>= k = stop why
go_on a >>= k = k a

abbrev pub ◌>>◌ : {B : Type 0} → Step (Unit {0}) → Step B → Step B
stop why >> k = stop why
go_on u >> k = k

abbrev pub stop_if : Bool → Status → Step (Unit {0})
stop_if b why = if b then stop why else go_on tt

abbrev pub found : {A : Type 0} → Option A → Step A
found none = stop malformed
found (some a) = go_on a

-- The switch on the name of a header.
unfoldable pub see_field : (Bytes → Option ℕ) → HeaderKind → Bytes → Bytes → Seen → Step Seen
see_field atoi content_length name val s = do
  stop_if s.has_cl malformed
  n ← found (atoi val)
  go_on (record s { has_cl = true; cl = n })
see_field atoi transfer_encoding name val s = go_on (record s { has_te = true })
see_field atoi host name val s = do
  stop_if (s.host_seen || not (is_valid_host_header val)) bad_request
  go_on (record s { host_seen = true })
see_field atoi _ name val s = go_on (
    if ascii_equal_fold name (codes "expect") && ascii_equal_fold val (codes "100-continue")
    then record s { expect_continue = true }
    else s)

-- One header line, without its line end.
unfoldable pub see_line : (Bytes → Option ℕ) → Limits → Bytes → Seen → Step Seen
see_line atoi limits hline s = do
  stop_if (starts_with_space hline) malformed
  stop_if (ltb 0 limits.max_header_size && ltb limits.max_header_size (length hline))
      header_too_large
  colon ← found (index_byte hline b':')
  stop_if (colon == 0) malformed
  stop_if (ends_with_space (take colon hline)) malformed
  let name = trim_http_spaces (take colon hline)
  let val = trim_http_spaces (drop (colon + 1) hline)
  stop_if (has_invalid_header_value_byte val) malformed
  see_field atoi (known_header name) name val s

-- The loop over `data[pos:headerEnd]`; the length is enough fuel.
unfoldable pub see_lines : (Bytes → Option ℕ) → ℕ → Limits → Bytes → Seen → Step Seen
see_lines atoi zero limits window s = go_on s
see_lines atoi (suc fuel) limits [] s = go_on s
see_lines atoi (suc fuel) limits (c ∷ cs) s = elim (index_byte (c ∷ cs) b'\n') [
  | none ↦ do
    stop_if (contains_byte (c ∷ cs) b'\r') malformed
    see_line atoi limits (strip_cr (c ∷ cs)) s
  | some nl ↦ do
    s' ← see_line atoi limits (strip_cr (take nl (c ∷ cs))) s
    see_lines atoi fuel limits (drop nl cs) s'
]

-- The version in a request line that has one.
unfoldable pub version_of : Bytes → Step Bytes
version_of line = do
  sp1 ← found (index_byte line b' ')
  stop_if (sp1 == 0) malformed
  sp2 ← found (index_byte (drop (sp1 + 1) line) b' ')
  stop_if (sp2 == 0) malformed
  let version = drop (sp1 + 1 + sp2 + 1) line
  stop_if (not (is_valid_http_version version)) malformed
  go_on version

-- Behind the loop: the status, the bytes of body needed and the expectation.
unfoldable pub conclude : Limits → Bytes → Seen → Status × (ℕ × Bool)
conclude limits version s =
    if requires_host_header version && not s.host_seen
    then (bad_request, (0, false))
    else if s.has_te && s.has_cl
    then (malformed, (0, false))
    else if s.has_te
    then (chunked, (0, false))
    else if not s.has_cl || s.cl == 0
    then (malformed, (0, false))
    else if ltb 0 limits.body_limit && ltb limits.body_limit s.cl
    then (body_too_large, (0, s.expect_continue))
    else (need_body, (s.cl, s.expect_continue))

-- Everything up to the end of the loop, from the bytes behind the empty lines.
unfoldable pub see_header : (Bytes → Option ℕ) → Limits → Bytes → ℕ → Step (Bytes × Seen)
see_header atoi limits input end = do
  line_end ← found (index_byte (take (end + 2) input) b'\n')
  stop_if (line_end == 0) malformed
  version ← version_of (strip_cr (take line_end input))
  let window = drop (line_end + 1) (take end input)
  s ← see_lines atoi (length window) limits window nothing_seen
  go_on (version, s)

unfoldable pub classify_incomplete : (Bytes → Option ℕ) → Limits → Bytes → Status × (ℕ × Bool)
unfolding skip_crlf
classify_incomplete atoi limits input =
    let rest = drop (skip_crlf input) input in
    elim (header_end rest) [
      | none ↦ (need_header_more, (0, false))
      | some end ↦ elim (see_header atoi limits rest end) [
        | stop why ↦ (why, (0, false))
        | go_on (version, s) ↦ conclude limits version s
      ]
    ]
