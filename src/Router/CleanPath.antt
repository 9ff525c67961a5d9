-- ===== src/Router/CleanPath.antt =====
-- router.go: `cleanPath` and `isTraversal`. url.PathUnescape and path.Clean are parameters.
pub mod Escape
mod Tests
use mathlib.Core.Path.{subst}
use kruda.Base.{
  ℕ, zero, suc, ◌+◌, ◌<◌, Bool, true, false, not, ◌&&◌, ◌||◌, List, [], ◌∷◌, ◌++◌, Option, none,
  some, if◌then◌else◌, ◌==◌, Bytes, codes, ◌=ᵇ◌, split, has_prefix, is_empty, ◌≡◌, ◌↔◌, refl, arith,
  inl, inr, Bool-cases, Option-cases,
}

pub data PathError : Type 0 where
  bad_escape path_traversal : PathError

pub data Cleaned : Type 0 where
  ok : Bytes → Cleaned
  failed : PathError → Cleaned

-- `strings.ReplaceAll(raw, "\x00", "")`, which changes nothing where there is no such byte.
unfoldable pub strip_nuls : Bytes → Bytes
strip_nuls [] = []
strip_nuls (c ∷ cs) = let rest = strip_nuls cs in if c == 0 then rest else c ∷ rest

-- The walk over the segments; `depth` would go below 0 where it is 0 at a segment of two dots.
unfoldable pub walk : ℕ → List Bytes → Bool
walk depth [] = false
walk zero (seg ∷ segs) =
    let here = walk zero segs in
    let below = walk 1 segs in
    if is_empty seg || seg =ᵇ codes "." then here else if seg =ᵇ codes ".." then true else below
walk (suc d) (seg ∷ segs) =
    let here = walk (suc d) segs in
    let above = walk d segs in
    let below = walk (suc (suc d)) segs in
    if is_empty seg || seg =ᵇ codes "." then here else if seg =ᵇ codes ".." then above else below

unfoldable pub is_traversal : Bytes → Bool
unfolding walk
is_traversal p = walk 0 (split b'/' p)

-- The rounds of decoding; `none` where one fails.
unfoldable pub decode_rounds : (Bytes → Option Bytes) → ℕ → Bytes → Option Bytes
decode_rounds path_unescape zero s = some s
decode_rounds path_unescape (suc n) s = elim (path_unescape s) [
  | none ↦ none
  | some next ↦ let rest = decode_rounds path_unescape n next in if next =ᵇ s then some s else rest
]

unfoldable pub with_slash : Bytes → Bytes
with_slash p = if has_prefix p (codes "/") then p else codes "/" ++ p

unfoldable pub clean_path : (Bytes → Option Bytes) → (Bytes → Bytes) → Bytes → Cleaned
unfolding strip_nuls decode_rounds is_traversal with_slash
clean_path path_unescape clean raw = elim (decode_rounds path_unescape 3 (strip_nuls raw)) [
  | none ↦ failed bad_escape
  | some decoded ↦
      if is_traversal decoded then failed path_traversal else ok (with_slash (clean decoded))
]
