-- ===== src/Router/Compile/AllowedCache.antt =====
-- router.go: the cache of the allowed methods that `Compile` fills.
use kruda.Base.{
  ℕ, zero, suc, List, Bytes, [], ◌∷◌, ◌++◌, some, ◌≡◌, refl, inl, inr, arith, sym, ◌∙◌, ap,
  Bool-cases, Option-cases, get_or, set, codes, is_empty, if◌then◌else◌, ◌=ᵇ◌, =ᵇ_iff,
}
use kruda.Router.Build.{RegexEngine}
use kruda.Router.Method.{standard_methods}
use kruda.Router.Params.{Params}
use kruda.Router.Tree.{Node, is_some}
use kruda.Router.Find.{Lookup, find_from_root}
use kruda.Router.Table.{
  Table, lookup, insert, Router, empty_root, static_handlers, root_of, find, hit_all, count_hits,
  scan_allowed, find_allowed_methods,
}
use kruda.Router.Compile.{
  allowed_for, fill_cache, with_static_routes, seen_paths, table_keys, compile,
}
use kruda.Router.Compile.Hits.{hit_all-find_from_root}
use kruda.Router.Compile.Paths.{lookup-insert}

get_or-set :
    {A B : Type 0} (F : A → B) (f : A → A) (d : A)
    → ((a : A) → F (f a) ≡ F a)
    → (xs : List A) (i j : ℕ) → F (get_or (set xs i (f (get_or xs i d))) j d) ≡ F (get_or xs j d)
get_or-set F f d e [] i j = refl
get_or-set F f d e (x ∷ xs) zero zero = e x
get_or-set F f d e (x ∷ xs) zero (suc j) = refl
get_or-set F f d e (x ∷ xs) (suc i) zero = refl
get_or-set F f d e (x ∷ xs) (suc i) (suc j) = get_or-set F f d e xs i j

module _ (engine : RegexEngine) where
  -- Two routers answer every search alike.
  SameFind : Router → Router → Type 0
  SameFind r s =
      (method path : Bytes) (ps : Params)
      → find engine r method path ps ≡ find engine s method path ps

  roots-SameFind :
      (r : Router) (rs : List Node)
      → ((root : ℕ) (path : Bytes) (ps : Params)
          → find_from_root engine (get_or rs root empty_root) path ps
            ≡ find_from_root engine (get_or r.roots root empty_root) path ps)
      → SameFind (record r { roots = rs }) r
  unfolding SameFind find static_handlers root_of
  roots-SameFind r rs same method path ps = elim (Option-cases (static_handlers method path r)) [
    | inr (h, s) ↦ rw (s, find) refl
    | inl s ↦ elim (Option-cases (root_of method r)) [
      | inl t ↦ rw (s, t, find) refl
      | inr (root, t) ↦ rw (s, t, find) (same root path ps)
    ]
  ]

  count_hits-SameFind : (m : Bytes) (l : Lookup) (r : Router) → SameFind (count_hits m l r) r
  unfolding count_hits SameFind find
  count_hits-SameFind m l r method path ps = elim (Bool-cases r.compiled) [
    | inl c ↦ rw (c, count_hits) refl
    | inr c ↦ elim (Option-cases (root_of m r)) [
      | inl t ↦ rw (c, t, count_hits) refl
      | inr (root, t) ↦
          rw (c, t, count_hits)
            (roots-SameFind r (set r.roots root (hit_all l.hits (get_or r.roots root empty_root)))
              (λ i p qs.
                get_or-set (λ n. find_from_root engine n p qs) (hit_all l.hits) empty_root
                  (λ n. hit_all-find_from_root engine l.hits n p qs) r.roots root i)
              method path ps)
    ]
  ]

  SameFind-trans : (r s t : Router) → SameFind r s → SameFind s t → SameFind r t
  unfolding SameFind
  SameFind-trans r s t f g method path ps = f method path ps ∙ g method path ps

  scan_allowed-SameFind :
      (r s : Router)
      → SameFind r s
      → (path : Bytes) (ms : List Bytes) (out : Bytes)
      → scan_allowed engine r path ms out ≡ scan_allowed engine s path ms out
  unfolding scan_allowed SameFind
  scan_allowed-SameFind r s same path [] out = refl
  scan_allowed-SameFind r s same path (m ∷ ms) out =
      let e = same m path (record { items = []; pattern = [] }) in
      ap
        (λ (l : Lookup). scan_allowed engine r path ms (
          if is_some l.handlers then (if is_empty out then m else out ++ codes ", " ++ m) else out))
        e
      ∙ scan_allowed-SameFind r s same path ms (
          if is_some (find engine s m path (record { items = []; pattern = [] })).handlers
          then (if is_empty out then m else out ++ codes ", " ++ m)
          else out)

  -- One path: the methods that the plain scan finds, and a router that answers as before.
  allowed_for-scan_allowed :
      (path : Bytes) (ms : List Bytes) (out : Bytes) (r : Router)
      → ((allowed_for engine path ms out r).0 ≡ scan_allowed engine r path ms out)
        × SameFind (allowed_for engine path ms out r).1 r
  unfolding allowed_for scan_allowed SameFind
  allowed_for-scan_allowed path [] out r = (refl, (λ method p ps. refl))
  allowed_for-scan_allowed path (m ∷ ms) out r =
      let l = find engine r m path (record { items = []; pattern = [] }) in
      let out' =
        if is_some l.handlers then (if is_empty out then m else out ++ codes ", " ++ m) else out in
      let (e, f) = allowed_for-scan_allowed path ms out' (count_hits m l r) in
      let g = count_hits-SameFind m l r in
      (
        e ∙ scan_allowed-SameFind (count_hits m l r) r g path ms out',
        SameFind-trans (allowed_for engine path ms out' (count_hits m l r)).1 (count_hits m l r) r f
            g,
      )

  -- Each entry is what the scan of a router gives for its path.
  Scanned : Router → Table Bytes → Type 0
  Scanned r cache =
      (p v : Bytes) → lookup p cache ≡ some v → v ≡ scan_allowed engine r p standard_methods []

  Scanned-insert :
      (r : Router) (k v : Bytes) (cache : Table Bytes)
      → v ≡ scan_allowed engine r k standard_methods []
      → Scanned r cache
      → Scanned r (if is_empty v then cache else insert k v cache)
  unfolding Scanned
  Scanned-insert r k v cache good all p w e = elim (Bool-cases (is_empty v)) [
    | inl empty ↦ all p w (rw empty at e)
    | inr full ↦ elim (Bool-cases (k =ᵇ p)) [
      | inl same ↦
          let key : k ≡ p = (=ᵇ_iff k p).0 same in
          let value : v ≡ w = ground (arith, lookup-insert p k v cache, same, full, e) in
          sym value ∙ good ∙ ap (λ q. scan_allowed engine r q standard_methods []) key
      | inr other ↦ all p w (ground (arith, lookup-insert p k v cache, other, full, e))
    ]
  ]

  fill_cache-Scanned :
      (r₀ : Router) (ps : List Bytes) (cache : Table Bytes) (r : Router)
      → SameFind r r₀
      → Scanned r₀ cache
      → Scanned r₀ (fill_cache engine ps cache r).0 × SameFind (fill_cache engine ps cache r).1 r₀
  unfolding fill_cache
  fill_cache-Scanned r₀ [] cache r same all = (all, same)
  fill_cache-Scanned r₀ (p ∷ ps) cache r same all =
      let (e, f) = allowed_for-scan_allowed p standard_methods [] r in
      let found = allowed_for engine p standard_methods [] r in
      fill_cache-Scanned r₀ ps (if is_empty found.0 then cache else insert p found.0 cache) found.1
        (SameFind-trans found.1 r r₀ f same)
        (Scanned-insert r₀ p found.0 cache
          (e ∙ scan_allowed-SameFind r r₀ same p standard_methods []) all)

  Scanned-nil : (r : Router) → Scanned r []
  unfolding Scanned lookup
  Scanned-nil r p v e = absurd (ground arith)

  answer_of :
      (r s : Router) (cache : Table Bytes) (path : Bytes)
      → r.allowed_cache ≡ some cache
      → Scanned s cache
      → SameFind r s
      → find_allowed_methods engine r path ≡ scan_allowed engine s path standard_methods []
  unfolding find_allowed_methods Scanned
  answer_of r s cache path c all same = elim (Option-cases (lookup path cache)) [
    | inl e ↦
        rw (c, e, find_allowed_methods) (scan_allowed-SameFind r s same path standard_methods [])
    | inr (v, e) ↦ rw (c, e, find_allowed_methods) (all path v e)
  ]

  -- The allowed methods that a compiled router gives for a path, from its cache or by a scan, are
  -- those that a scan gives over the optimised trees with the static maps, before any cache is made.
  pub find_allowed_methods-compile :
      (r : Router) (path : Bytes)
      → find_allowed_methods engine (compile engine r) path
        ≡ scan_allowed engine (with_static_routes r) path standard_methods []
  unfolding compile SameFind find
  find_allowed_methods-compile r path =
      let r₁ = with_static_routes r in
      let paths = table_keys (seen_paths r₁.roots r₁.trees []) in
      let (all, same) =
        fill_cache-Scanned r₁ paths [] (record r₁ { allowed_cache = some [] }) (λ method p ps. refl)
          (Scanned-nil r₁) in
      let filled = fill_cache engine paths [] (record r₁ { allowed_cache = some [] }) in
      answer_of (compile engine r) r₁ filled.0 path refl all same
