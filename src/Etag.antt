-- ===== src/Etag.antt =====
-- contrib/etag/etag.go: the comparison of an ETag with If-None-Match, and the choice of weak tags.
pub mod Laws
pub mod Pieces
mod Tests
use kruda.Base.{
  ℕ, Bool, true, false, not, ◌&&◌, ◌||◌, List, [], ◌∷◌, ◌++◌, if◌then◌else◌, ltb, ◌==◌, Bytes,
  codes, ◌=ᵇ◌, length, drop, is_empty,
}

-- The part of the configuration that `defaults` writes.
pub record Config : Type 0 where
  pub weak : Bool

unfoldable pub defaults : Config → Config
defaults c = record { weak = true }

unfoldable pub is_weak_etag : Bytes → Bool
is_weak_etag (a ∷ b ∷ c ∷ cs) = a == b'W' && b == b'/'
is_weak_etag _ = false

-- Without the prefix `W/`.
unfoldable pub opaque_tag : Bytes → Bytes
unfolding is_weak_etag
opaque_tag etag = if is_weak_etag etag then drop 2 etag else etag

unfoldable pub weak_etags_match : Bytes → Bytes → Bool
unfolding opaque_tag
weak_etags_match a b = opaque_tag a =ᵇ opaque_tag b

abbrev pub is_space : ℕ → Bool
is_space c = c == b' ' || c == b'\t'

unfoldable pub trim_front : Bytes → Bytes
trim_front [] = []
trim_front (c ∷ cs) = let rest = trim_front cs in if is_space c then rest else c ∷ cs

unfoldable pub trim_back : Bytes → Bytes
trim_back [] = []
trim_back (c ∷ cs) = let rest = trim_back cs in if is_space c && is_empty rest then [] else c ∷ rest

unfoldable pub trim_spaces : Bytes → Bytes
unfolding trim_front trim_back
trim_spaces s = trim_back (trim_front s)

unfoldable pub is_candidate : Bytes → Bytes → Bool
unfolding is_weak_etag weak_etags_match
is_candidate candidate etag =
    candidate =ᵇ etag
    || (is_weak_etag candidate || is_weak_etag etag) && weak_etags_match candidate etag

-- The loop: `segment` is what stands from `start` on, the last argument what is left.
unfoldable pub contains_from : Bytes → Bytes → Bytes → Bool
unfolding trim_spaces is_candidate
contains_from etag segment [] = is_candidate (trim_spaces segment) etag
contains_from etag segment (c ∷ cs) =
    let behind = contains_from etag [] cs in
    let longer = contains_from etag (segment ++ c ∷ []) cs in
    if c == b',' then is_candidate (trim_spaces segment) etag || behind else longer

unfoldable pub contains_etag : Bytes → Bytes → Bool
unfolding contains_from
contains_etag list etag = contains_from etag [] list

unfoldable pub etag_matches : Bytes → Bytes → Bool
unfolding is_weak_etag weak_etags_match contains_etag
etag_matches if_none_match etag =
    if if_none_match =ᵇ codes "*"
    then true
    else if if_none_match =ᵇ etag
    then true
    else if is_weak_etag if_none_match || is_weak_etag etag
    then weak_etags_match if_none_match etag
    else if ltb (length etag) (length if_none_match)
    then contains_etag if_none_match etag
    else false
