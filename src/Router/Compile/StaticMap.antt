-- ===== src/Router/Compile/StaticMap.antt =====
-- router.go: the static map that `collectStaticRoutes` makes, and the search in the tree.
use mathlib.Core.Path.{subst}
use kruda.Base.{
  ℕ, true, false, Bytes, [], ◌∷◌, ◌++◌, none, some, ◌≡◌, ◌≢◌, refl, inl, inr, arith, sym, ◌∙◌, ap,
  Bool-cases, append_assoc, =ᵇ_iff, ◌=ᵇ◌, Option-cases,
}
use kruda.Router.Build.{RegexEngine}
use kruda.Router.Params.{Params}
use kruda.Router.Tree.{NodeInfo, Node, node, Nodes, nil, cons, info, children, is_static}
use kruda.Router.Find.{find_from_root}
use kruda.Router.Find.Spec.{InKids, here, there, IsRadix, radix}
use kruda.Router.Table.{Table, lookup, insert}
use kruda.Router.Compile.{
  ends_with_slash, trim_slash, join_path, record_route, collect_static_routes, collect_children,
}
use kruda.Router.Compile.Paths.{
  lookup-insert, ends_with_slash-split, ends_with_slash-append, trim_slash-append, trim_slash-same,
  join_path-append, append-empty, join_path-root,
}
use kruda.Router.Compile.Serves.{Serves, Serves-more, Serves-end, Serves-slash, first_byte}

-- Below a node, a static child whose path is only a slash has no handlers and stands behind a path
-- that does not end with a slash.
pub data OneSlash : Node → Type 0 where
  one_slash :
      {n : Node}
      → ((c : Node)
          → InKids c (children n)
          → is_static (info c) ≡ true
          → (info c).path ≡ b'/' ∷ []
          → ((info c).handlers ≡ none) × (ends_with_slash (info n).path ≡ false))
      → ((c : Node) → InKids c (children n) → OneSlash c)
      → OneSlash n

OneSlash-kid :
    (n c : Node)
    → OneSlash n
    → InKids c (children n)
    → is_static (info c) ≡ true
    → (info c).path ≡ b'/' ∷ []
    → ((info c).handlers ≡ none) × (ends_with_slash (info n).path ≡ false)
OneSlash-kid n c (one_slash slash kids) k = slash c k

OneSlash-below : (n c : Node) → OneSlash n → InKids c (children n) → OneSlash c
OneSlash-below n c (one_slash slash kids) k = kids c k

IsRadix-below : (n c : Node) → IsRadix n → InKids c (children n) → IsRadix c
IsRadix-below n c (radix places wild kids) k = kids c k

module _ (engine : RegexEngine) (root : Node) where
  -- The search from the root finds these handlers.
  Answers : Bytes → ℕ → Type 0
  Answers p h = (ps : Params) → (find_from_root engine root p ps).handlers ≡ some h

  AllAnswers : Table ℕ → Type 0
  AllAnswers out = (p : Bytes) (h : ℕ) → lookup p out ≡ some h → Answers p h

  AllAnswers-insert :
      (k : Bytes) (h : ℕ) (out : Table ℕ)
      → Answers k h
      → AllAnswers out
      → AllAnswers (insert k h out)
  unfolding AllAnswers
  AllAnswers-insert k h out good all p i e = elim (Bool-cases (k =ᵇ p)) [
    | inl same ↦
        let key : k ≡ p = (=ᵇ_iff k p).0 same in
        let value : h ≡ i = ground (arith, lookup-insert p k h out, same, e) in
        rw (← key, ← value) good
    | inr other ↦ all p i (ground (arith, lookup-insert p k h out, other, e))
  ]

  -- What is served below the node at a path is an answer for the full path.
  Lifts : Node → Bytes → Type 0
  Lifts n q =
      (path : Bytes) (h : ℕ) → path ≢ [] → Serves engine n path h → Answers (b'/' ∷ q ++ path) h

  Lifts-more :
      (n c : Node) (q : Bytes)
      → IsRadix n
      → InKids c (children n)
      → is_static (info c) ≡ true
      → Lifts n q
      → Lifts c (q ++ (info c).path)
  unfolding Lifts Answers
  Lifts-more n c q r k st lift path h ne s =
      let (b, bs, e) = first_byte n c r k st in
      let ne' : (info c).path ++ path ≢ [] = rw e (λ z. absurd (ground arith)) in
      subst (λ p. Answers (b'/' ∷ p) h) (sym (append_assoc q (info c).path path))
        (lift ((info c).path ++ path) h ne' (Serves-more engine n c path h r k st ne s))

  -- The trimmed path of a child with handlers.
  child-Answers :
      (n c : Node) (q : Bytes) (h : ℕ)
      → IsRadix n
      → InKids c (children n)
      → is_static (info c) ≡ true
      → (info c).path ≢ b'/' ∷ []
      → (info c).handlers ≡ some h
      → Lifts n q
      → Answers (trim_slash (b'/' ∷ q ++ (info c).path)) h
  unfolding Lifts
  child-Answers n c q h r k st slash s lift =
      let (b, bs, e) = first_byte n c r k st in
      let ends : ends_with_slash (b'/' ∷ q ++ (info c).path) ≡ ends_with_slash (info c).path =
        rw e (ends_with_slash-append (b'/' ∷ q) b bs) in
      elim (Bool-cases (ends_with_slash (info c).path)) [
        | inr plain ↦
            subst (λ p. Answers p h)
              (sym (trim_slash-same (b'/' ∷ q ++ (info c).path) (ends ∙ plain)))
              (lift (info c).path h (rw e (λ z. absurd (ground arith)))
                (Serves-end engine n c h r k st s))
        | inl slashed ↦
            let (t, e') = ends_with_slash-split (info c).path slashed in
            let ne : t ≢ [] = λ z. slash (e' ∙ ap (λ w. w ++ b'/' ∷ []) z) in
            let ne' : q ++ t ≢ [] = λ z. ne (append-empty q t z) in
            let trimmed : trim_slash (b'/' ∷ q ++ (info c).path) ≡ b'/' ∷ q ++ t = rw e' (
              subst (λ w. trim_slash (b'/' ∷ w) ≡ b'/' ∷ q ++ t) (append_assoc q t (b'/' ∷ []))
                (trim_slash-append b'/' (q ++ t) ne')) in
            subst (λ p. Answers p h) (sym trimmed)
              (lift t h ne (Serves-slash engine n c t h r k st s e' ne))
      ]

  record_route-AllAnswers :
      (n c : Node) (q : Bytes) (out : Table ℕ)
      → IsRadix n
      → InKids c (children n)
      → is_static (info c) ≡ true
      → ((info c).path ≡ b'/' ∷ [] → (info c).handlers ≡ none)
      → Lifts n q
      → AllAnswers out
      → AllAnswers (record_route (b'/' ∷ q ++ (info c).path) (info c).handlers out)
  unfolding record_route AllAnswers
  record_route-AllAnswers n c q out r k st slash lift all = elim (Option-cases (info c).handlers) [
    | inl s ↦ rw s all
    | inr (h, s) ↦
        let answer =
          child-Answers n c q h r k st (λ e. absurd (ground (arith, slash e, s))) s lift in
        rw s (AllAnswers-insert (trim_slash (b'/' ∷ q ++ (info c).path)) h out answer all)
  ]

  -- A node's path ends as the full path does.
  SameEnd : Node → Bytes → Type 0
  SameEnd n q = ends_with_slash (b'/' ∷ q) ≡ ends_with_slash (info n).path

  mutual
    unfolding collect_static_routes SameEnd

    collect_static_routes-AllAnswers :
        (n c : Node) (q : Bytes) (out : Table ℕ)
        → IsRadix n
        → OneSlash n
        → InKids c (children n)
        → SameEnd n q
        → Lifts n q
        → AllAnswers out
        → AllAnswers (collect_static_routes c (b'/' ∷ q) out)
    collect_static_routes-AllAnswers n (node m cs) q out r o k same lift all =
        elim (Bool-cases (is_static m)) [
          | inr other ↦ rw other all
          | inl st ↦
              let c = node m cs in
              let (b, bs, e) = first_byte n c r k st in
              let ne : m.path ≢ [] = rw e (λ z. absurd (ground arith)) in
              let joined : join_path (b'/' ∷ q) m.path ≡ b'/' ∷ q ++ m.path =
                join_path-append q m.path ne (λ z. same ∙ (OneSlash-kid n c o k st z).1) in
              let recorded : AllAnswers (record_route (b'/' ∷ q ++ m.path) m.handlers out) =
                record_route-AllAnswers n c q out r k st (λ z. (OneSlash-kid n c o k st z).0) lift
                  all in
              let ends : SameEnd c (q ++ m.path) = rw e (ends_with_slash-append (b'/' ∷ q) b bs) in
              rw (st, joined)
                (collect_children-AllAnswers c cs (q ++ m.path)
                  (record_route (b'/' ∷ q ++ m.path) m.handlers out) (IsRadix-below n c r k)
                  (OneSlash-below n c o k) (λ d j. j) ends (Lifts-more n c q r k st lift) recorded)
        ]

    collect_children-AllAnswers :
        (n : Node) (cs : Nodes) (q : Bytes) (out : Table ℕ)
        → IsRadix n
        → OneSlash n
        → ((c : Node) → InKids c cs → InKids c (children n))
        → SameEnd n q
        → Lifts n q
        → AllAnswers out
        → AllAnswers (collect_children cs (b'/' ∷ q) out)
    collect_children-AllAnswers n nil q out r o k same lift all = all
    collect_children-AllAnswers n (cons c cs) q out r o k same lift all =
        collect_children-AllAnswers n cs q (collect_static_routes c (b'/' ∷ q) out) r o
          (λ d j. k d (there j)) same lift
          (collect_static_routes-AllAnswers n c q out r o (k c here) same lift all)

  Lifts-root : Lifts root []
  unfolding Lifts Answers Serves find_from_root
  Lifts-root path h ne s ps =
      let other : ((b'/' ∷ path) =ᵇ (b'/' ∷ [])) ≢ true = λ e.
        let z : b'/' ∷ path ≡ b'/' ∷ [] = (=ᵇ_iff (b'/' ∷ path) (b'/' ∷ [])).0 e in
        ne (ground arith) in
      ground (arith, other, s ps)

root-AllAnswers :
    (engine : RegexEngine) (n : NodeInfo) (cs : Nodes)
    → AllAnswers engine (node n cs) (record_route (b'/' ∷ []) n.handlers [])
unfolding AllAnswers Answers record_route insert lookup trim_slash find_from_root
root-AllAnswers engine n cs p h e ps = elim (Option-cases n.handlers) [
  | inl s ↦ absurd (ground (arith, s, e))
  | inr (k, s) ↦ ground (arith, s, e, =ᵇ_iff (b'/' ∷ []) p, =ᵇ_iff p (b'/' ∷ []))
]

AllAnswers-nil : (engine : RegexEngine) (root : Node) → AllAnswers engine root []
unfolding AllAnswers lookup
AllAnswers-nil engine root p h e = absurd (ground arith)

static-AllAnswers :
    (engine : RegexEngine) (n : NodeInfo) (cs : Nodes)
    → n.path ≡ b'/' ∷ []
    → IsRadix (node n cs)
    → OneSlash (node n cs)
    → AllAnswers engine (node n cs) (collect_static_routes (node n cs) (b'/' ∷ []) [])
unfolding collect_static_routes SameEnd
static-AllAnswers engine n cs slash r o =
    let root = node n cs in
    let joined : join_path (b'/' ∷ []) n.path ≡ b'/' ∷ [] = rw slash join_path-root in
    elim (Bool-cases (is_static n)) [
      | inr other ↦ rw other (AllAnswers-nil engine root)
      | inl st ↦
          rw (st, joined)
            (collect_children-AllAnswers engine root root cs []
              (record_route (b'/' ∷ []) n.handlers []) r o (λ d j. j) (rw slash refl)
              (Lifts-root engine root) (root-AllAnswers engine n cs))
    ]

AllAnswers-at :
    (engine : RegexEngine) (root : Node) (p : Bytes) (h : ℕ) (ps : Params) (out : Table ℕ)
    → lookup p out ≡ some h
    → AllAnswers engine root out
    → (find_from_root engine root p ps).handlers ≡ some h
unfolding AllAnswers Answers
AllAnswers-at engine root p h ps out e all = all p h e ps

static_find :
    (engine : RegexEngine) (root : Node)
    → (info root).path ≡ b'/' ∷ []
    → IsRadix root
    → OneSlash root
    → AllAnswers engine root (collect_static_routes root (b'/' ∷ []) [])
static_find engine (node n cs) slash r o = static-AllAnswers engine n cs slash r o

-- In a radix tree with the path "/" at its root, where no static child has a path of only a slash
-- and handlers, or such a path behind one that ends with a slash, the search finds for a path
-- whatever handlers the static map of the tree holds for it.
pub collect_static_routes-find_from_root :
    (engine : RegexEngine) (root : Node) (p : Bytes) (h : ℕ) (ps : Params)
    → (info root).path ≡ b'/' ∷ []
    → IsRadix root
    → OneSlash root
    → lookup p (collect_static_routes root (b'/' ∷ []) []) ≡ some h
    → (find_from_root engine root p ps).handlers ≡ some h
collect_static_routes-find_from_root engine root p h ps slash r o e =
    AllAnswers-at engine root p h ps (collect_static_routes root (b'/' ∷ []) []) e
      (static_find engine root slash r o)
