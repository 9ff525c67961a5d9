-- ===== src/Router/Compile/Covers.antt =====
-- One child that may take the place of another: it accepts every path that the other accepts, and
-- serves the paths that end above it whenever the other does.
use kruda.Base.{ℕ, true, Bytes, some, ◌≡◌, refl}
use kruda.Router.Build.{RegexEngine}
use kruda.Router.Tree.{NodeInfo, Node, node, Nodes, nil, cons, info, children, empty_info}
use kruda.Router.Find.{regex_rejects}
use kruda.Router.Find.Spec
use kruda.Router.Find.Spec.{
  InKids, here, there, Ends, own, Matches, static_end, static_more, param_end, param_more,
  param_empty, wildcard,
}

abbrev pub only : Node → Node
only c = node empty_info (cons c nil)

unfoldable pub OptionalEnd : Node → ℕ → Type 0
OptionalEnd c h = ((info c).optional ≡ true) × ((info c).handlers ≡ some h)

pub sole : {c d : Node} → InKids c (cons d nil) → d ≡ c
sole here = refl
sole (there k) = elim k [ ]

module _ (engine : RegexEngine) where
  -- A path goes through one child of a node.
  pub Matches-via_child :
      {n : Node} {path : Bytes} {h : ℕ}
      → Matches engine n path h
      → (c : Node) × (InKids c (children n)) × Matches engine (only c) path h
  Matches-via_child (static_end {c = c} k st ne e ends) = (c, k, static_end here st ne e ends)
  Matches-via_child (static_more {c = c} k st e ne m) = (c, k, static_more here st e ne m)
  Matches-via_child (param_end {c = c} k p ne free good ends) =
      (c, k, param_end here p ne free good ends)
  Matches-via_child (param_more {c = c} k p e ne free good m) =
      (c, k, param_more here p e ne free good m)
  Matches-via_child (param_empty {c = c} k p empty o s) = (c, k, param_empty here p empty o s)
  Matches-via_child (wildcard {c = c} k w s) = (c, k, wildcard here w s)

  pub Matches-by_child :
      (n c : Node) {path : Bytes} {h : ℕ}
      → InKids c (children n)
      → Matches engine (only c) path h
      → Matches engine n path h
  Matches-by_child n c k (static_end here st ne e ends) = static_end k st ne e ends
  Matches-by_child n c k (static_more here st e ne m) = static_more k st e ne m
  Matches-by_child n c k (param_end here p ne free good ends) = param_end k p ne free good ends
  Matches-by_child n c k (param_more here p e ne free good m) = param_more k p e ne free good m
  Matches-by_child n c k (param_empty here p empty o s) = param_empty k p empty o s
  Matches-by_child n c k (wildcard here w s) = wildcard k w s
  Matches-by_child n c k (static_end (there j) st ne e ends) = elim j [ ]
  Matches-by_child n c k (static_more (there j) st e ne m) = elim j [ ]
  Matches-by_child n c k (param_end (there j) p ne free good ends) = elim j [ ]
  Matches-by_child n c k (param_more (there j) p e ne free good m) = elim j [ ]
  Matches-by_child n c k (param_empty (there j) p empty o s) = elim j [ ]
  Matches-by_child n c k (wildcard (there j) w s) = elim j [ ]

  unfoldable pub Below : Node → Node → Type 0
  Below c d =
      ((path : Bytes) (h : ℕ) → Matches engine (only c) path h → Matches engine (only d) path h)
      × ((h : ℕ) → OptionalEnd c h → OptionalEnd d h)

  unfoldable pub Covers : Nodes → Nodes → Type 0
  Covers cs ds = (c : Node) → InKids c cs → (d : Node) × (InKids d ds) × Below c d

  -- A child and what stands in its place accept the same paths.
  unfoldable pub Alike : Node → Node → Type 0
  Alike c d = Below c d × Below d c

  pub Below-refl : (c : Node) → Below c c
  unfolding Below
  Below-refl c = ((λ path h m. m), (λ h o. o))

  pub Below-trans : (c d e : Node) → Below c d → Below d e → Below c e
  unfolding Below
  Below-trans c d e (f, o) (g, p) = ((λ path h m. g path h (f path h m)), (λ h x. p h (o h x)))

  -- Two nodes of one kind, where the children of one cover those of the other.
  pub Matches-Covers :
      (n m : Node)
      → Covers (children n) (children m)
      → (path : Bytes) (h : ℕ) → Matches engine n path h
      → Matches engine m path h
  unfolding Covers Below
  Matches-Covers n m covers path h t =
      let (c, k, v) = Matches-via_child t in
      let (d, j, (f, o)) = covers c k in Matches-by_child m d j (f path h v)

  pub Ends-Covers :
      (n : NodeInfo) (x z : Bytes) (cs ds : Nodes)
      → Covers cs ds
      → (h : ℕ) → Ends (node (record n { indices = x }) cs) h
      → Ends (node (record n { indices = z }) ds) h
  unfolding Covers Below OptionalEnd
  Ends-Covers n x z cs ds covers h (own s) = own s
  Ends-Covers n x z cs ds covers h (Spec.optional_kid {gc = gc} k o s) =
      let (d, j, (f, p)) = covers gc k in let (o', s') = p h (o, s) in Spec.optional_kid j o' s'

  via-Covers :
      (n : NodeInfo) (x z : Bytes) (cs ds : Nodes)
      → Covers cs ds
      → {path : Bytes} {h : ℕ} → Matches engine (only (node (record n { indices = x }) cs)) path h
      → Matches engine (only (node (record n { indices = z }) ds)) path h
  unfolding regex_rejects
  via-Covers n x z cs ds covers {h = h} (static_end here st ne e ends) =
      static_end here st ne e (Ends-Covers n x z cs ds covers h ends)
  via-Covers n x z cs ds covers {h = h} (static_more {rest = rest} here st e ne m) =
      static_more here st e ne (
        Matches-Covers (node (record n { indices = x }) cs) (node (record n { indices = z }) ds)
          covers rest h m)
  via-Covers n x z cs ds covers {h = h} (param_end here p ne free good ends) =
      param_end here p ne free good (Ends-Covers n x z cs ds covers h ends)
  via-Covers n x z cs ds covers {h = h} (param_more {rest = rest} here p e ne free good m) =
      param_more here p e ne free good (
        Matches-Covers (node (record n { indices = x }) cs) (node (record n { indices = z }) ds)
          covers rest h m)
  via-Covers n x z cs ds covers (param_empty here p empty o s) = param_empty here p empty o s
  via-Covers n x z cs ds covers (wildcard here w s) = wildcard here w s
  via-Covers n x z cs ds covers (static_end (there j) st ne e ends) = elim j [ ]
  via-Covers n x z cs ds covers (static_more (there j) st e ne m) = elim j [ ]
  via-Covers n x z cs ds covers (param_end (there j) p ne free good ends) = elim j [ ]
  via-Covers n x z cs ds covers (param_more (there j) p e ne free good m) = elim j [ ]
  via-Covers n x z cs ds covers (param_empty (there j) p empty o s) = elim j [ ]
  via-Covers n x z cs ds covers (wildcard (there j) w s) = elim j [ ]

  pub Below-Covers :
      (n : NodeInfo) (x z : Bytes) (cs ds : Nodes)
      → Covers cs ds
      → Below (node (record n { indices = x }) cs) (node (record n { indices = z }) ds)
  unfolding Below OptionalEnd
  Below-Covers n x z cs ds covers = ((λ path h t. via-Covers n x z cs ds covers t), (λ h o. o))
