-- ===== src/Router/Compile/Serves.antt =====
-- router.go: the search for a path that static children spell out, which the children of other kinds
-- do not disturb.
use mathlib.Core.Path.{subst}
use kruda.Base.{
  ℕ, zero, suc, true, false, Bytes, [], ◌∷◌, ◌++◌, some, ◌≡◌, ◌≢◌, refl, arith, sym, ◌∙◌,
  has_prefix, length, drop, drop-append, append-nil, index_byte, =ᵇ_iff,
}
use kruda.Router.Build.{RegexEngine}
use kruda.Router.Params.{Params}
use kruda.Router.Tree.{Node, node, Nodes, nil, cons, info, children, is_static, child_at}
use kruda.Router.Find.{
  Lookup, or_else, ends_at, find_static, search_at, static_stage, param_stage, wildcard_stage,
  search_children, child_of, children_of, find_in_node,
}
use kruda.Router.Find.Complete.{has_prefix-append, has_prefix-longer}
use kruda.Router.Find.Spec.{InKids, IsRadix, radix}
use kruda.Router.Compile.Radix.{InKids-child_at}

pub first_byte :
    (n c : Node)
    → IsRadix n
    → InKids c (children n)
    → is_static (info c) ≡ true
    → (b : ℕ) × (bs : Bytes) × ((info c).path ≡ b ∷ bs)
first_byte n c (radix places wild kids) k st =
    let (i, at) = InKids-child_at (children n) c k in
    let (b, bs, e, found) = places c i at st in (b, bs, e)

module _ (engine : RegexEngine) where
  -- The search below a node finds these handlers, whatever the parameters are.
  unfoldable pub Serves : Node → Bytes → ℕ → Type 0
  Serves n path h = (ps : Params) → (find_in_node engine n path ps).handlers ≡ some h

  search_at-handlers :
      (pos i : ℕ) (cs : Nodes) (c : Node) (path : Bytes) (ps : Params)
      → child_at i cs ≡ some c
      → (search_at pos i (children_of engine cs) path ps).handlers
        ≡ (find_static (child_of engine c) path ps).handlers
  unfolding search_at children_of child_at
  search_at-handlers pos i nil c path ps e = absurd (ground arith)
  search_at-handlers pos zero (cons d cs) c path ps e =
      let same : d ≡ c = ground arith in rw same refl
  search_at-handlers pos (suc i) (cons d cs) c path ps e =
      search_at-handlers (suc pos) i cs c path ps e

  or_else-left :
      (l : Lookup) (k : Params → Lookup) (h : ℕ)
      → l.handlers ≡ some h
      → (or_else l k).handlers ≡ some h
  or_else-left l k h e = ground arith

  search-static :
      (n : Node) (path : Bytes) (ps : Params) (h : ℕ)
      → (static_stage (info n) (children_of engine (children n)) path ps).handlers ≡ some h
      → (find_in_node engine n path ps).handlers ≡ some h
  unfolding find_in_node child_of search_children
  search-static (node m cs) path ps h e =
      let kids = children_of engine cs in
      or_else-left (static_stage m kids path ps)
        (λ ps₁. or_else (param_stage engine 0 kids path ps₁) (wildcard_stage 0 kids path)) h e

  -- The static child whose path starts as the searched one does, with the byte `b`.
  child-static :
      (n c : Node) (b : ℕ) (more path : Bytes) (h : ℕ)
      → IsRadix n
      → InKids c (children n)
      → is_static (info c) ≡ true
      → (info c).path ≡ b ∷ more
      → ((ps : Params) → (find_static (child_of engine c) (b ∷ path) ps).handlers ≡ some h)
      → Serves n (b ∷ path) h
  unfolding Serves static_stage
  child-static n c b more path h (radix places wild kids) k st e f ps =
      let (i, at) = InKids-child_at (children n) c k in
      let (b', bs, starts, found) = places c i at st in
      let first : b' ≡ b = ground arith in
      let found' : index_byte (info n).indices b ≡ some i = rw first at found in
      search-static n (b ∷ path) ps h
        (rw (found', static_stage) (search_at-handlers 0 i (children n) c (b ∷ path) ps at ∙ f ps))

  find_static-more :
      (c : Node) (rest : Bytes) (ps : Params) (h : ℕ)
      → is_static (info c) ≡ true
      → rest ≢ []
      → Serves c rest h
      → (find_static (child_of engine c) ((info c).path ++ rest) ps).handlers ≡ some h
  unfolding find_static child_of find_in_node Serves
  find_static-more (node m cs) rest ps h st ne f =
      ground (arith, st, has_prefix-append m.path rest, drop-append m.path rest, f ps)

  find_static-end :
      (c : Node) (ps : Params) (h : ℕ)
      → is_static (info c) ≡ true
      → (info c).handlers ≡ some h
      → (find_static (child_of engine c) (info c).path ps).handlers ≡ some h
  unfolding find_static child_of ends_at
  find_static-end (node m cs) ps h st s =
      let prefix : has_prefix m.path m.path ≡ true =
        rw append-nil at (has_prefix-append m.path []) in
      let nothing : drop (length m.path) m.path ≡ [] = rw append-nil at (drop-append m.path []) in
      ground (arith, st, prefix, nothing, s)

  find_static-slash :
      (c : Node) (path : Bytes) (ps : Params) (h : ℕ)
      → is_static (info c) ≡ true
      → (info c).handlers ≡ some h
      → (info c).path ≡ path ++ b'/' ∷ []
      → (find_static (child_of engine c) path ps).handlers ≡ some h
  unfolding find_static child_of ends_at
  find_static-slash (node m cs) path ps h st s e =
      let no_prefix : has_prefix path m.path ≡ false = rw e (has_prefix-longer path b'/') in
      ground (arith, st, no_prefix, =ᵇ_iff m.path (path ++ b'/' ∷ []), e, s)

  -- The three ways to be served by a static child.
  pub Serves-more :
      (n c : Node) (rest : Bytes) (h : ℕ)
      → IsRadix n
      → InKids c (children n)
      → is_static (info c) ≡ true
      → rest ≢ []
      → Serves c rest h
      → Serves n ((info c).path ++ rest) h
  Serves-more n c rest h r k st ne f =
      let (b, more, e) = first_byte n c r k st in
      subst (λ p. Serves n (p ++ rest) h) (sym e)
        (child-static n c b more (more ++ rest) h r k st e (λ ps.
          subst (λ p. (find_static (child_of engine c) (p ++ rest) ps).handlers ≡ some h) e
            (find_static-more c rest ps h st ne f)))

  pub Serves-end :
      (n c : Node) (h : ℕ)
      → IsRadix n
      → InKids c (children n)
      → is_static (info c) ≡ true
      → (info c).handlers ≡ some h
      → Serves n (info c).path h
  Serves-end n c h r k st s =
      let (b, more, e) = first_byte n c r k st in
      subst (λ p. Serves n p h) (sym e)
        (child-static n c b more more h r k st e (λ ps.
          subst (λ p. (find_static (child_of engine c) p ps).handlers ≡ some h) e
            (find_static-end c ps h st s)))

  pub Serves-slash :
      (n c : Node) (path : Bytes) (h : ℕ)
      → IsRadix n
      → InKids c (children n)
      → is_static (info c) ≡ true
      → (info c).handlers ≡ some h
      → (info c).path ≡ path ++ b'/' ∷ []
      → path ≢ []
      → Serves n path h
  Serves-slash n c [] h r k st s e ne = absurd (ne refl)
  Serves-slash n c (b ∷ path) h r k st s e ne =
      child-static n c b (path ++ b'/' ∷ []) path h r k st e
        (λ ps. find_static-slash c (b ∷ path) ps h st s e)
