-- ===== src/PathTraversal.antt =====
-- middleware/pathtraversal.go. url.PathUnescape and path.Clean are parameters.
pub mod Safe
mod Tests
use kruda.Base.{
  ℕ, zero, suc, Bool, true, false, not, ◌&&◌, ◌||◌, List, [], ◌∷◌, map, Option, none, some,
  if◌then◌else◌, ◌==◌, Bytes, codes, ◌=ᵇ◌, split,
}

pub data Verdict : Type 0 where
  passed rejected : Verdict

unfoldable pub contains_dot_or_percent : Bytes → Bool
contains_dot_or_percent [] = false
contains_dot_or_percent (c ∷ cs) =
    c == b'.' || c == b'%' || c == b'\\' || c == 0 || contains_dot_or_percent cs

-- `strings.ReplaceAll(decoded, "\\", "/")`.
unfoldable pub with_slashes : Bytes → Bytes
with_slashes = map λ c. if c == b'\\' then b'/' else c

unfoldable pub has_dot_dot : List Bytes → Bool
has_dot_dot [] = false
has_dot_dot (s ∷ ss) = s =ᵇ codes ".." || has_dot_dot ss

-- `strings.Contains(cleaned, "..")`.
unfoldable pub contains_dot_dot : Bytes → Bool
contains_dot_dot [] = false
contains_dot_dot (c ∷ []) = false
contains_dot_dot (c ∷ d ∷ cs) = c == b'.' && d == b'.' || contains_dot_dot (d ∷ cs)

module _ (path_unescape : Bytes → Option Bytes) (clean : Bytes → Bytes) where
  -- The rounds of decoding; `none` where one fails.
  unfoldable pub decode : ℕ → Bytes → Option Bytes
  decode zero s = some s
  decode (suc n) s = elim (path_unescape s) [
    | none ↦ none
    | some s' ↦ let rest = decode n s' in if s' =ᵇ s then some s else rest
  ]

  unfoldable pub is_path_traversal : Bytes → Bool
  unfolding decode with_slashes has_dot_dot contains_dot_dot
  is_path_traversal raw = elim (decode 3 raw) [
    | none ↦ true
    | some d ↦
        has_dot_dot (split b'/' (with_slashes d)) || contains_dot_dot (clean (with_slashes d))
  ]

  unfoldable pub path_traversal : Bytes → Verdict
  unfolding contains_dot_or_percent is_path_traversal
  path_traversal path =
      if not (contains_dot_or_percent path)
      then passed
      else if is_path_traversal path
      then rejected
      else passed
