-- ===== src/Router/Compile/Merge.antt =====
-- router.go: one step of `flattenNode`, which merges a child and its only child.
use kruda.Base.{
  ℕ, true, false, Bytes, [], ◌∷◌, ◌++◌, none, ◌≡◌, ◌≢◌, refl, ◌⊎◌, inl, inr, arith, sym,
  append_assoc,
}
use kruda.Router.Build.{RegexEngine}
use kruda.Router.Tree.{NodeInfo, node, Nodes, nil, cons, is_static}
use kruda.Router.Find.Spec.{
  InKids, here, there, is_param, Matches, Ends, own, static_end, static_more, param_end, param_more,
  param_empty, wildcard,
}
use kruda.Router.Find.Spec
use kruda.Router.Compile.{merge, can_merge}
use kruda.Router.Compile.Covers.{
  Below, Alike, Covers, Below-refl, Matches-Covers, only, OptionalEnd,
}

pub merge_parts :
    (c g : NodeInfo)
    → can_merge c g ≡ true
    → (is_static c ≡ true) × (c.handlers ≡ none) × (is_static g ≡ true)
unfolding can_merge
merge_parts c g m = (ground arith, ground arith, ground arith)

no_static_param : (n : NodeInfo) → is_static n ≡ true → is_param n ≢ true
no_static_param n s p = absurd (ground arith)

no_static_wildcard : (n : NodeInfo) → is_static n ≡ true → n.wildcard ≢ true
no_static_wildcard n s w = absurd (ground arith)

append_ne : (a b : Bytes) → b ≢ [] → a ++ b ≢ []
append_ne [] b ne e = ne e
append_ne (x ∷ a) b ne e = absurd (ground arith)

ne_append : (a b : Bytes) → a ≢ [] → a ++ b ≢ []
ne_append [] b ne e = ne refl
ne_append (x ∷ a) b ne e = absurd (ground arith)

-- What stands before a last byte, where the text is in two parts.
last_byte :
    (a g p : Bytes) (s : ℕ)
    → g ≢ []
    → a ++ g ≡ p ++ s ∷ []
    → (r : Bytes) × (g ≡ r ++ s ∷ []) × (p ≡ a ++ r)
last_byte [] g p s ne e = (p, e, refl)
last_byte (x ∷ a) g [] s ne e = absurd (append_ne a g ne (ground arith))
last_byte (x ∷ a) g (y ∷ p) s ne e =
    let (r, e₁, e₂) = last_byte a g p s ne (ground arith) in (r, e₁, ground arith)

Ends_merge :
    (c g : NodeInfo) (gs : Nodes) (h : ℕ) → Ends (node g gs) h → Ends (node (merge c g) gs) h
unfolding merge
Ends_merge c g gs h (own s) = own s
Ends_merge c g gs h (Spec.optional_kid k o s) = Spec.optional_kid k o s

Ends_merge_back :
    (c g : NodeInfo) (gs : Nodes) (h : ℕ) → Ends (node (merge c g) gs) h → Ends (node g gs) h
unfolding merge
Ends_merge_back c g gs h (own s) = own s
Ends_merge_back c g gs h (Spec.optional_kid k o s) = Spec.optional_kid k o s

no_Ends :
    (c g : NodeInfo) (gs : Nodes) (h : ℕ)
    → c.handlers ≡ none
    → g.optional ≡ false
    → Ends (node c (cons (node g gs) nil)) h
    → ⊥
no_Ends c g gs h n o (own s) = absurd (ground arith)
no_Ends c g gs h n o (Spec.optional_kid here o' s) = absurd (ground arith)
no_Ends c g gs h n o (Spec.optional_kid (there k) o' s) = elim k [ ]

module _ (engine : RegexEngine) where
  Matches-kids :
      (m n : NodeInfo) (gs : Nodes) (path : Bytes) (h : ℕ)
      → Matches engine (node m gs) path h
      → Matches engine (node n gs) path h
  unfolding Covers
  Matches-kids m n gs path h t =
      Matches-Covers engine (node m gs) (node n gs) (λ c k. (c, k, Below-refl engine c)) path h t

  merge-Matches :
      (c g : NodeInfo) (gs : Nodes)
      → can_merge c g ≡ true
      → (path rest : Bytes) (h : ℕ) → path ≡ c.path ++ rest
      → Matches engine (node c (cons (node g gs) nil)) rest h
      → Matches engine (only (node (merge c g) gs)) path h
  unfolding merge
  merge-Matches c g gs m path rest h e (static_end here st ne (inl e₁) ends) =
      static_end here refl (rw e (append_ne c.path rest ne)) (inl (rw (← e₁) e))
        (Ends_merge c g gs h ends)
  merge-Matches c g gs m path rest h e (static_end here st ne (inr e₁) ends) =
      static_end here refl (rw e (append_ne c.path rest ne))
        (inr (rw (e, e₁) (sym (append_assoc c.path rest (b'/' ∷ []))))) (Ends_merge c g gs h ends)
  merge-Matches c g gs m path rest h e (static_more {rest = rest'} here st e₁ ne t) =
      static_more here refl (rw (e, e₁) (sym (append_assoc c.path g.path rest'))) ne
        (Matches-kids g (merge c g) gs rest' h t)
  merge-Matches c g gs m path rest h e (param_end here p ne free good ends) =
      absurd (no_static_param g (merge_parts c g m).2 p)
  merge-Matches c g gs m path rest h e (param_more here p e₁ ne free good t) =
      absurd (no_static_param g (merge_parts c g m).2 p)
  merge-Matches c g gs m path rest h e (param_empty here p empty o s) =
      absurd (no_static_param g (merge_parts c g m).2 p)
  merge-Matches c g gs m path rest h e (wildcard here w s) =
      absurd (no_static_wildcard g (merge_parts c g m).2 w)
  merge-Matches c g gs m path rest h e (static_end (there j) st ne e₁ ends) = elim j [ ]
  merge-Matches c g gs m path rest h e (static_more (there j) st e₁ ne t) = elim j [ ]
  merge-Matches c g gs m path rest h e (param_end (there j) p ne free good ends) = elim j [ ]
  merge-Matches c g gs m path rest h e (param_more (there j) p e₁ ne free good t) = elim j [ ]
  merge-Matches c g gs m path rest h e (param_empty (there j) p empty o s) = elim j [ ]
  merge-Matches c g gs m path rest h e (wildcard (there j) w s) = elim j [ ]

  -- A path that ends at the second of two static nodes, in a search from the first one on.
  end_below :
      (c g : NodeInfo) (gs : Nodes) (path : Bytes) (h : ℕ)
      → can_merge c g ≡ true
      → g.path ≢ []
      → g.path ≢ (b'/' ∷ [])
      → (path ≡ c.path ++ g.path) ⊎ (c.path ++ g.path ≡ path ++ b'/' ∷ [])
      → Ends (node g gs) h
      → Matches engine (only (node c (cons (node g gs) nil))) path h
  end_below c g gs path h m ne slash (inl e) ends =
      let (st, n, st') = merge_parts c g m in
      static_more here st e ne (static_end here st' ne (inl refl) ends)
  end_below c g gs path h m ne slash (inr e) ends =
      let (st, n, st') = merge_parts c g m in
      let (r, e₁, e₂) = last_byte c.path g.path path b'/' ne e in
      let ne' : r ≢ [] = λ z. slash (rw z at e₁) in
      static_more here st e₂ ne' (static_end here st' ne' (inr e₁) ends)

  merge-Below :
      (c g : NodeInfo) (gs : Nodes) (path : Bytes) (h : ℕ)
      → can_merge c g ≡ true
      → g.optional ≡ false
      → Matches engine (only (node c (cons (node g gs) nil))) path h
      → Matches engine (only (node (merge c g) gs)) path h
  merge-Below c g gs path h m o (static_end here st ne e ends) =
      absurd (no_Ends c g gs h (merge_parts c g m).1 o ends)
  merge-Below c g gs path h m o (static_more {rest = rest} here st e ne t) =
      merge-Matches c g gs m path rest h e t
  merge-Below c g gs path h m o (param_end here p ne free good ends) =
      absurd (no_static_param c (merge_parts c g m).0 p)
  merge-Below c g gs path h m o (param_more here p e₁ ne free good t) =
      absurd (no_static_param c (merge_parts c g m).0 p)
  merge-Below c g gs path h m o (param_empty here p empty o' s) =
      absurd (no_static_param c (merge_parts c g m).0 p)
  merge-Below c g gs path h m o (wildcard here w s) =
      absurd (no_static_wildcard c (merge_parts c g m).0 w)
  merge-Below c g gs path h m o (static_end (there j) st ne e ends) = elim j [ ]
  merge-Below c g gs path h m o (static_more (there j) st e ne t) = elim j [ ]
  merge-Below c g gs path h m o (param_end (there j) p ne free good ends) = elim j [ ]
  merge-Below c g gs path h m o (param_more (there j) p e ne free good t) = elim j [ ]
  merge-Below c g gs path h m o (param_empty (there j) p empty o' s) = elim j [ ]
  merge-Below c g gs path h m o (wildcard (there j) w s) = elim j [ ]

  merge-Below_back :
      (c g : NodeInfo) (gs : Nodes) (path : Bytes) (h : ℕ)
      → can_merge c g ≡ true
      → g.path ≢ []
      → g.path ≢ (b'/' ∷ [])
      → Matches engine (only (node (merge c g) gs)) path h
      → Matches engine (only (node c (cons (node g gs) nil))) path h
  unfolding merge
  merge-Below_back c g gs path h m ne slash (static_end here st ne' e ends) =
      end_below c g gs path h m ne slash e (Ends_merge_back c g gs h ends)
  merge-Below_back c g gs path h m ne slash (static_more {rest = rest} here st e ne' t) =
      let (st₁, n, st₂) = merge_parts c g m in
      static_more here st₁ (rw e (append_assoc c.path g.path rest)) (ne_append g.path rest ne)
        (static_more here st₂ refl ne' (Matches-kids (merge c g) g gs rest h t))
  merge-Below_back c g gs path h m ne slash (param_end here p ne' free good ends) =
      absurd (ground arith)
  merge-Below_back c g gs path h m ne slash (param_more here p e₁ ne' free good t) =
      absurd (ground arith)
  merge-Below_back c g gs path h m ne slash (param_empty here p empty o' s) = absurd (ground arith)
  merge-Below_back c g gs path h m ne slash (wildcard here w s) = absurd (ground arith)
  merge-Below_back c g gs path h m ne slash (static_end (there j) st ne' e ends) = elim j [ ]
  merge-Below_back c g gs path h m ne slash (static_more (there j) st e ne' t) = elim j [ ]
  merge-Below_back c g gs path h m ne slash (param_end (there j) p ne' free good ends) = elim j [ ]
  merge-Below_back c g gs path h m ne slash (param_more (there j) p e ne' free good t) = elim j [ ]
  merge-Below_back c g gs path h m ne slash (param_empty (there j) p empty o' s) = elim j [ ]
  merge-Below_back c g gs path h m ne slash (wildcard (there j) w s) = elim j [ ]

  -- A child without handlers and its only child, both static, may be merged.
  pub merge-Alike :
      (c g : NodeInfo) (gs : Nodes)
      → can_merge c g ≡ true
      → g.optional ≡ false
      → g.path ≢ []
      → g.path ≢ (b'/' ∷ [])
      → c.optional ≡ false
      → Alike engine (node c (cons (node g gs) nil)) (node (merge c g) gs)
  unfolding Alike Below OptionalEnd merge
  merge-Alike c g gs m o ne slash o' = (
    ((λ path h. merge-Below c g gs path h m o), (λ h x. absurd (ground arith))),
    ((λ path h. merge-Below_back c g gs path h m ne slash), (λ h x. absurd (ground arith))),
  )
