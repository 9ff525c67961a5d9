-- ===== src/Router/Compile/FlatRadix.antt =====
-- router.go: the tree that `flattenNode` leaves is a radix tree, as the search wants it.
use mathlib.Core.Path.{subst}
use kruda.Base.{
  ℕ, zero, suc, true, Bytes, ◌∷◌, ◌++◌, ◌≡◌, refl, inl, inr, arith, sym, ◌∙◌, ap, Bool-cases,
  append_assoc, ◌∷◌,
}
use kruda.Router.Tree.{NodeInfo, Node, node, Nodes, nil, cons, info, is_static, is_some, child_at}
use kruda.Router.Find.Spec.{here, there, IsRadix}
use kruda.Router.Compile.{merge, can_merge, flatten_child, flatten_children, flatten_node}
use kruda.Router.Compile.Merge.{merge_parts}
use kruda.Router.Compile.Flatten.{flatten_child-merge, flatten_child-keep}
use kruda.Router.Compile.Radix.{Indexed, place, WildcardsServe, AllRadix, IsRadix-of, IsRadix-parts}

-- What a child becomes: a static child stays static, with a path that starts as before, and a child
-- of another kind stays as it is.
pub data Grown (c d : NodeInfo) : Type 0 where
  kept : d ≡ c → Grown c d
  longer : (s : Bytes) → is_static c ≡ true → is_static d ≡ true → d.path ≡ c.path ++ s → Grown c d

Grown-merge : (c g d : NodeInfo) → can_merge c g ≡ true → Grown (merge c g) d → Grown c d
unfolding merge
Grown-merge c g d m (kept e) =
    let (st, n, st') = merge_parts c g m in longer g.path st (rw e refl) (rw e refl)
Grown-merge c g d m (longer s st₁ st₂ e) =
    let (st, n, st') = merge_parts c g m in
    longer (g.path ++ s) st st₂ (e ∙ append_assoc c.path g.path s)

flatten_child-Grown : (c : NodeInfo) (cs : Nodes) → Grown c (info (flatten_child c cs))
unfolding flatten_child
flatten_child-Grown c nil = kept refl
flatten_child-Grown c (cons (node g gs) nil) = elim (Bool-cases (can_merge c g)) [
  | inl m ↦
      subst (λ n. Grown c (info n)) (sym (flatten_child-merge c g gs m))
        (Grown-merge c g (info (flatten_child (merge c g) gs)) m
          (flatten_child-Grown (merge c g) gs))
  | inr m ↦ subst (λ n. Grown c (info n)) (sym (flatten_child-keep c g gs m)) (kept refl)
]
flatten_child-Grown c (cons (node g gs) (cons (node d ds) es)) = kept refl

Grown-is_static : (c d : NodeInfo) → Grown c d → is_static d ≡ true → is_static c ≡ true
Grown-is_static c d (kept e) st = rw e at st
Grown-is_static c d (longer s st₁ st₂ e) st = st₁

Grown-path :
    (c d : NodeInfo)
    → Grown c d
    → (b : ℕ) (bs : Bytes) → c.path ≡ b ∷ bs
    → (ds : Bytes) × (d.path ≡ b ∷ ds)
Grown-path c d (kept e) b bs p = (bs, rw e p)
Grown-path c d (longer s st₁ st₂ e) b bs p = (bs ++ s, e ∙ ap (λ q. q ++ s) p)

Indexed-flatten_children :
    (s : ℕ → ℕ) (ix : Bytes) (cs : Nodes) → Indexed s ix cs → Indexed s ix (flatten_children cs)
unfolding flatten_child child_at Indexed
Indexed-flatten_children s ix nil f c i at st = absurd (ground arith)
Indexed-flatten_children s ix (cons (node n ns) cs) f c zero at st =
    let same : flatten_child n ns ≡ c = ground arith in
    let grown = flatten_child-Grown n ns in
    let st' : is_static (info (flatten_child n ns)) ≡ true = rw same st in
    let (b, bs, p, q) =
      f (node n ns) 0 refl (Grown-is_static n (info (flatten_child n ns)) grown st') in
    let (ds, r) = Grown-path n (info (flatten_child n ns)) grown b bs p in
    (b, ds, ap (λ e. (info e).path) (sym same) ∙ r, q)
Indexed-flatten_children s ix (cons (node n ns) cs) f c (suc i) at st =
    Indexed-flatten_children (λ i. s (suc i)) ix cs (λ d j e t. f d (suc j) e t) c i at st

Grown-wildcard :
    (c d : NodeInfo)
    → Grown c d
    → (c.wildcard ≡ true → is_some c.handlers ≡ true)
    → d.wildcard ≡ true
    → is_some d.handlers ≡ true
Grown-wildcard c d (kept e) w wild = rw e (w (rw e at wild))
Grown-wildcard c d (longer s st₁ st₂ e) w wild = absurd (ground arith)

WildcardsServe-flatten_children :
    (cs : Nodes) → WildcardsServe cs → WildcardsServe (flatten_children cs)
unfolding flatten_child WildcardsServe
WildcardsServe-flatten_children nil w c k wild = elim k [ ]
WildcardsServe-flatten_children (cons (node n ns) cs) w c here wild =
    Grown-wildcard n (info (flatten_child n ns)) (flatten_child-Grown n ns) (w (node n ns) here)
      wild
WildcardsServe-flatten_children (cons (node n ns) cs) w c (there k) wild =
    WildcardsServe-flatten_children cs (λ e j. w e (there j)) c k wild

flat-IsRadix :
    (n : NodeInfo) (cs ds : Nodes)
    → ds ≡ flatten_children cs
    → IsRadix (node n cs)
    → AllRadix ds
    → IsRadix (node n ds)
flat-IsRadix n cs ds e r all =
    let (f, w, kids) = IsRadix-parts n cs r in
    IsRadix-of n ds (rw e (Indexed-flatten_children place n.indices cs f))
      (rw e (WildcardsServe-flatten_children cs w)) all

AllRadix-nil : AllRadix nil
unfolding AllRadix
AllRadix-nil c k = elim k [ ]

AllRadix-cons : (c : Node) (cs : Nodes) → IsRadix c → AllRadix cs → AllRadix (cons c cs)
unfolding AllRadix
AllRadix-cons c cs r rs d here = r
AllRadix-cons c cs r rs d (there k) = rs d k

AllRadix-parts : (c : Node) (cs : Nodes) → AllRadix (cons c cs) → IsRadix c × AllRadix cs
unfolding AllRadix
AllRadix-parts c cs rs = (rs c here, (λ d k. rs d (there k)))

IsRadix-merge : (c g : NodeInfo) (gs : Nodes) → IsRadix (node g gs) → IsRadix (node (merge c g) gs)
unfolding merge
IsRadix-merge c g gs r =
    let (f, w, kids) = IsRadix-parts g gs r in IsRadix-of (merge c g) gs f w kids

only-IsRadix : (n : NodeInfo) (c : Node) → IsRadix (node n (cons c nil)) → IsRadix c
unfolding AllRadix
only-IsRadix n c r = let (f, w, kids) = IsRadix-parts n (cons c nil) r in kids c here

mutual
  unfolding flatten_child

  flatten_child-IsRadix :
      (c : NodeInfo) (cs : Nodes) → IsRadix (node c cs) → IsRadix (flatten_child c cs)
  flatten_child-IsRadix c nil r = r
  flatten_child-IsRadix c (cons (node g gs) nil) r =
      let r' = only-IsRadix c (node g gs) r in
      elim (Bool-cases (can_merge c g)) [
        | inl m ↦
            subst IsRadix (sym (flatten_child-merge c g gs m))
              (flatten_child-IsRadix (merge c g) gs (IsRadix-merge c g gs r'))
        | inr m ↦ subst IsRadix (sym (flatten_child-keep c g gs m)) (
            flat-IsRadix c (cons (node g gs) nil) (cons (flatten_child g gs) nil) refl r
              (AllRadix-cons (flatten_child g gs) nil (flatten_child-IsRadix g gs r') AllRadix-nil))
      ]
  flatten_child-IsRadix c (cons (node g gs) (cons (node d ds) es)) r =
      let (f, w, kids) = IsRadix-parts c (cons (node g gs) (cons (node d ds) es)) r in
      let (r₁, rest) = AllRadix-parts (node g gs) (cons (node d ds) es) kids in
      let (r₂, rs) = AllRadix-parts (node d ds) es rest in
      let flat = cons (flatten_child d ds) (flatten_children es) in
      flat-IsRadix c (cons (node g gs) (cons (node d ds) es)) (cons (flatten_child g gs) flat) refl
        r
        (AllRadix-cons (flatten_child g gs) flat (flatten_child-IsRadix g gs r₁) (
          AllRadix-cons (flatten_child d ds) (flatten_children es) (flatten_child-IsRadix d ds r₂)
            (AllRadix-flatten_children es rs)))

  AllRadix-flatten_children : (cs : Nodes) → AllRadix cs → AllRadix (flatten_children cs)
  AllRadix-flatten_children nil r = r
  AllRadix-flatten_children (cons (node c cs) ds) r =
      let (r₁, rs) = AllRadix-parts (node c cs) ds r in
      AllRadix-cons (flatten_child c cs) (flatten_children ds) (flatten_child-IsRadix c cs r₁)
        (AllRadix-flatten_children ds rs)

pub flatten_node-IsRadix : (n : Node) → IsRadix n → IsRadix (flatten_node n)
unfolding flatten_node
flatten_node-IsRadix (node n cs) r =
    let (f, w, kids) = IsRadix-parts n cs r in
    flat-IsRadix n cs (flatten_children cs) refl r (AllRadix-flatten_children cs kids)
