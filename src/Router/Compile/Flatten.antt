-- ===== src/Router/Compile/Flatten.antt =====
-- router.go: `flattenNode`, and the paths that the tree accepts.
use mathlib.Core.Path.{subst}
use kruda.Base.{
  ℕ, true, false, Bytes, [], ◌∷◌, ◌≡◌, ◌≢◌, refl, inl, inr, arith, Bool-cases, ◌↔◌, sym,
}
use kruda.Router.Build.{RegexEngine}
use kruda.Router.Tree.{NodeInfo, Node, node, Nodes, nil, cons, info, children, is_static}
use kruda.Router.Find.Spec.{InKids, here, there, Matches}
use kruda.Router.Compile.{merge, can_merge, flatten_child, flatten_children, flatten_node}
use kruda.Router.Compile.Covers.{
  Below, Alike, Covers, Below-refl, Below-trans, Below-Covers, Matches-Covers,
}
use kruda.Router.Compile.Merge.{merge_parts, merge-Alike}

-- A merge of a child with its only child does not make a path of one slash more.
unfoldable pub NotSlash : NodeInfo → Nodes → Type 0
NotSlash c cs =
    (g : Node) → can_merge c (info g) ≡ true → cs ≡ cons g nil → (info g).path ≢ (b'/' ∷ [])

-- Below a node, a static child is not optional and has a path; and a static child without handlers
-- does not have "/" as its only child.
pub data IsPlain : Node → Type 0 where
  plain :
      {n : Node}
      → ((c : Node)
          → InKids c (children n)
          → is_static (info c) ≡ true
          → ((info c).optional ≡ false) × ((info c).path ≢ []))
      → ((c : Node) → InKids c (children n) → NotSlash (info c) (children c))
      → ((c : Node) → InKids c (children n) → IsPlain c)
      → IsPlain n

pub flatten_child-merge :
    (c g : NodeInfo) (gs : Nodes)
    → can_merge c g ≡ true
    → flatten_child c (cons (node g gs) nil) ≡ flatten_child (merge c g) gs
unfolding flatten_child
flatten_child-merge c g gs m = rw (m, flatten_child) refl

pub flatten_child-keep :
    (c g : NodeInfo) (gs : Nodes)
    → can_merge c g ≡ false
    → flatten_child c (cons (node g gs) nil) ≡ node c (cons (flatten_child g gs) nil)
unfolding flatten_child
flatten_child-keep c g gs m = rw (m, flatten_child) refl

NotSlash-merge :
    (c g : NodeInfo) (gs : Nodes) → can_merge c g ≡ true → NotSlash g gs → NotSlash (merge c g) gs
unfolding NotSlash can_merge merge
NotSlash-merge c g gs m ns x m' e = ns x (ground arith) e

IsPlain-kids : (m n : NodeInfo) (cs : Nodes) → IsPlain (node m cs) → IsPlain (node n cs)
IsPlain-kids m n cs (plain good ns kids) = plain good ns kids

head_kid :
    (n c : NodeInfo) (cs ds : Nodes)
    → IsPlain (node n (cons (node c cs) ds))
    → (is_static c ≡ true → (c.optional ≡ false) × (c.path ≢ []))
      × NotSlash c cs
      × IsPlain (node c cs)
head_kid n c cs ds (plain good ns kids) =
    (good (node c cs) here, ns (node c cs) here, kids (node c cs) here)

tail_kids :
    (n : NodeInfo) (c : Node) (cs : Nodes) → IsPlain (node n (cons c cs)) → IsPlain (node n cs)
tail_kids n c cs (plain good ns kids) =
    plain (λ d k. good d (there k)) (λ d k. ns d (there k)) (λ d k. kids d (there k))

module _ (engine : RegexEngine) where
  Both : Nodes → Nodes → Type 0
  Both cs ds = Covers engine cs ds × Covers engine ds cs

  Both-nil : Both nil nil
  unfolding Both Covers
  Both-nil = ((λ c k. elim k [ ]), (λ c k. elim k [ ]))

  Covers-cons :
      (c d : Node) (cs ds : Nodes)
      → Below engine c d
      → Covers engine cs ds
      → Covers engine (cons c cs) (cons d ds)
  unfolding Covers
  Covers-cons c d cs ds b f e here = (d, here, b)
  Covers-cons c d cs ds b f e (there k) = let (x, j, p) = f e k in (x, there j, p)

  Both-cons :
      (c d : Node) (cs ds : Nodes) → Alike engine c d → Both cs ds → Both (cons c cs) (cons d ds)
  unfolding Both Alike
  Both-cons c d cs ds (b, b') (f, f') = (Covers-cons c d cs ds b f, Covers-cons d c ds cs b' f')

  Alike-Both : (n : NodeInfo) (cs ds : Nodes) → Both cs ds → Alike engine (node n cs) (node n ds)
  unfolding Both Alike
  Alike-Both n cs ds (f, f') = (
    Below-Covers engine n n.indices n.indices cs ds f,
    Below-Covers engine n n.indices n.indices ds cs f',
  )

  Alike-trans : (c d e : Node) → Alike engine c d → Alike engine d e → Alike engine c e
  unfolding Alike
  Alike-trans c d e (f, f') (g, g') = (Below-trans engine c d e f g, Below-trans engine e d c g' f')

  -- The child of a plain node, kept or merged with its own only child.
  child_step :
      (c g : NodeInfo) (gs : Nodes)
      → (is_static c ≡ true → c.optional ≡ false)
      → NotSlash c (cons (node g gs) nil)
      → (is_static g ≡ true → (g.optional ≡ false) × (g.path ≢ []))
      → (can_merge c g ≡ true → Alike engine (node (merge c g) gs) (flatten_child (merge c g) gs))
      → Alike engine (node g gs) (flatten_child g gs)
      → Alike engine (node c (cons (node g gs) nil)) (flatten_child c (cons (node g gs) nil))
  unfolding NotSlash
  child_step c g gs o ns good merged kept = elim (Bool-cases (can_merge c g)) [
    | inl m ↦
        let (st, n, st') = merge_parts c g m in
        let (o', ne) = good st' in
        subst (Alike engine (node c (cons (node g gs) nil))) (sym (flatten_child-merge c g gs m)) (
          Alike-trans (node c (cons (node g gs) nil)) (node (merge c g) gs)
            (flatten_child (merge c g) gs)
            (merge-Alike engine c g gs m o' ne (ns (node g gs) m refl) (o st)) (merged m))
    | inr m ↦
        subst (Alike engine (node c (cons (node g gs) nil))) (sym (flatten_child-keep c g gs m)) (
          Alike-Both c (cons (node g gs) nil) (cons (flatten_child g gs) nil)
            (Both-cons (node g gs) (flatten_child g gs) nil nil kept Both-nil))
  ]

  mutual
    unfolding flatten_child NotSlash merge Alike

    flatten_child-Alike :
        (c : NodeInfo) (cs : Nodes)
        → (is_static c ≡ true → c.optional ≡ false)
        → NotSlash c cs
        → IsPlain (node c cs)
        → Alike engine (node c cs) (flatten_child c cs)
    flatten_child-Alike c nil o ns p =
        (Below-refl engine (node c nil), Below-refl engine (node c nil))
    flatten_child-Alike c (cons (node g gs) nil) o ns p =
        let (good, ns', p') = head_kid c g gs nil p in
        child_step c g gs o ns good
          (λ m.
            flatten_child-Alike (merge c g) gs (λ st. (good (merge_parts c g m).2).0)
              (NotSlash-merge c g gs m ns') (IsPlain-kids g (merge c g) gs p'))
          (flatten_child-Alike g gs (λ st. (good st).0) ns' p')
    flatten_child-Alike c (cons (node g gs) (cons (node d ds) es)) o ns p =
        let (good, ns', p') = head_kid c g gs (cons (node d ds) es) p in
        let q = tail_kids c (node g gs) (cons (node d ds) es) p in
        let (good_d, ns_d, p_d) = head_kid c d ds es q in
        Alike-Both c (cons (node g gs) (cons (node d ds) es))
          (cons (flatten_child g gs) (cons (flatten_child d ds) (flatten_children es)))
          (Both-cons (node g gs) (flatten_child g gs) (cons (node d ds) es)
            (cons (flatten_child d ds) (flatten_children es))
            (flatten_child-Alike g gs (λ st. (good st).0) ns' p')
            (Both-cons (node d ds) (flatten_child d ds) es (flatten_children es)
              (flatten_child-Alike d ds (λ st. (good_d st).0) ns_d p_d)
              (flatten_children-Both c es (tail_kids c (node d ds) es q))))

    flatten_children-Both :
        (n : NodeInfo) (cs : Nodes) → IsPlain (node n cs) → Both cs (flatten_children cs)
    flatten_children-Both n nil p = Both-nil
    flatten_children-Both n (cons (node c cs) ds) p =
        let (good, ns, p') = head_kid n c cs ds p in
        Both-cons (node c cs) (flatten_child c cs) ds (flatten_children ds)
          (flatten_child-Alike c cs (λ st. (good st).0) ns p')
          (flatten_children-Both n ds (tail_kids n (node c cs) ds p))

  -- In a plain tree `flattenNode` changes neither the paths that the tree accepts nor the handlers
  -- that it accepts them with.
  pub flatten_node-Matches :
      (n : Node) (path : Bytes) (h : ℕ)
      → IsPlain n
      → Matches engine n path h ↔ Matches engine (flatten_node n) path h
  unfolding flatten_node Both
  flatten_node-Matches (node n cs) path h p =
      let (f, f') = flatten_children-Both n cs p in
      (
        Matches-Covers engine (node n cs) (node n (flatten_children cs)) f path h,
        Matches-Covers engine (node n (flatten_children cs)) (node n cs) f' path h,
      )
