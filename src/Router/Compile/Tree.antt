-- ===== src/Router/Compile/Tree.antt =====
-- router.go: a tree behind both passes of `Compile`.
use kruda.Base.{true, false, [], ◌≡◌, ◌≢◌, refl, inl, inr, arith, sym, ◌∙◌, ap, Bool-cases}
use kruda.Router.Params.{Params}
use kruda.Router.Tree.{NodeInfo, Node, node, Nodes, nil, cons, info, children, is_static}
use kruda.Router.Find.Spec.{InKids, here, there}
use kruda.Router.Compile.{
  before, insert_child, sort_children, order_children, optimize_node, optimize_children, can_merge,
}
use kruda.Router.Compile.Optimize.{sort_children-InKids_inv}
use kruda.Router.Compile.Radix.{optimize_node-info}
use kruda.Router.Compile.Flatten.{NotSlash, IsPlain, plain}

order_children-InKids_inv :
    (n : NodeInfo) (cs : Nodes) (c : Node) → InKids c (children (order_children n cs)) → InKids c cs
unfolding order_children
order_children-InKids_inv n nil c k = k
order_children-InKids_inv n (cons d nil) c k = k
order_children-InKids_inv n (cons d (cons e cs)) c k =
    sort_children-InKids_inv c (cons d (cons e cs)) k

insert_child-ne_nil : (c : Node) (cs : Nodes) → insert_child c cs ≢ nil
unfolding insert_child
insert_child-ne_nil c nil e = absurd (ground arith)
insert_child-ne_nil c (cons d cs) e = elim (Bool-cases (before (info d) (info c))) [
  | inl b ↦ absurd (ground (arith, b))
  | inr b ↦ absurd (ground (arith, b))
]

insert_child-single : (c g : Node) (cs : Nodes) → insert_child c cs ≡ cons g nil → cs ≡ nil
unfolding insert_child
insert_child-single c g nil e = refl
insert_child-single c g (cons d cs) e = elim (Bool-cases (before (info d) (info c))) [
  | inl b ↦ absurd (insert_child-ne_nil c cs (ground (arith, b)))
  | inr b ↦ absurd (ground (arith, b))
]

order_children-single :
    (n : NodeInfo) (cs : Nodes) (g : Node)
    → children (order_children n cs) ≡ cons g nil
    → cs ≡ cons g nil
unfolding order_children sort_children
order_children-single n nil g e = e
order_children-single n (cons d nil) g e = e
order_children-single n (cons d (cons c cs)) g e = absurd (
    insert_child-ne_nil c (sort_children cs)
      (insert_child-single d g (insert_child c (sort_children cs)) e))

optimize_children-single :
    (cs : Nodes) (g : Node)
    → optimize_children cs ≡ cons g nil
    → (d : Node) × (cs ≡ cons d nil) × (g ≡ optimize_node d)
unfolding optimize_node
optimize_children-single nil g e = absurd (ground arith)
optimize_children-single (cons d nil) g e = (d, refl, ground arith)
optimize_children-single (cons d (cons c cs)) g e = absurd (ground arith)

can_merge-optimize_node :
    (c g : Node)
    → can_merge (info (optimize_node c)) (info (optimize_node g)) ≡ can_merge (info c) (info g)
unfolding can_merge
can_merge-optimize_node c g =
    ap (λ n. can_merge n (info (optimize_node g))) (optimize_node-info c)
    ∙ ap (can_merge (info c)) (optimize_node-info g)

optimize_node-single :
    (c g : Node)
    → children (optimize_node c) ≡ cons g nil
    → (d : Node) × (children c ≡ cons d nil) × (g ≡ optimize_node d)
unfolding optimize_node
optimize_node-single (node n cs) g e =
    optimize_children-single cs g (order_children-single n (optimize_children cs) g e)

NotSlash-optimize_node :
    (c : Node)
    → NotSlash (info c) (children c)
    → NotSlash (info (optimize_node c)) (children (optimize_node c))
unfolding NotSlash
NotSlash-optimize_node c ns g m e p =
    let (d, alone, same) = optimize_node-single c g e in
    let m' : can_merge (info (optimize_node c)) (info (optimize_node d)) ≡ true = rw same at m in
    ns d (sym (can_merge-optimize_node c d) ∙ m') alone
      (sym (ap (λ n. n.path) (optimize_node-info d)) ∙ ap (λ x. (info x).path) (sym same) ∙ p)

-- What a plain node asks of one child.
PlainKid : Node → Type 0
PlainKid c =
    (is_static (info c) ≡ true → ((info c).optional ≡ false) × ((info c).path ≢ []))
    × NotSlash (info c) (children c)
    × IsPlain c

plain_kids : (n c : Node) → IsPlain n → InKids c (children n) → PlainKid c
unfolding PlainKid
plain_kids n c (plain good ns kids) k = (good c k, ns c k, kids c k)

IsPlain-of : (n : Node) → ((c : Node) → InKids c (children n) → PlainKid c) → IsPlain n
unfolding PlainKid
IsPlain-of n f = plain (λ c k. (f c k).0) (λ c k. (f c k).1) (λ c k. (f c k).2)

PlainKid-optimize_node :
    (c : Node) → PlainKid c → IsPlain (optimize_node c) → PlainKid (optimize_node c)
unfolding PlainKid
PlainKid-optimize_node c (good, ns, p) p' =
    let e = optimize_node-info c in
    (
      (λ st.
          let (o, ne) = good (sym (ap is_static e) ∙ st) in
          (ap (λ n. n.optional) e ∙ o, λ z. ne (sym (ap (λ n. n.path) e) ∙ z))),
      NotSlash-optimize_node c ns,
      p',
    )

plain_self : (c : Node) → PlainKid c → IsPlain c
unfolding PlainKid
plain_self c (good, ns, p) = p

mutual
  unfolding optimize_node

  optimize_node-IsPlain : (n : Node) → IsPlain n → IsPlain (optimize_node n)
  optimize_node-IsPlain (node n cs) p = IsPlain-of (order_children n (optimize_children cs)) (λ c k.
      optimize_children-PlainKid cs (λ d j. plain_kids (node n cs) d p j) c
        (order_children-InKids_inv n (optimize_children cs) c k))

  optimize_children-PlainKid :
      (cs : Nodes)
      → ((c : Node) → InKids c cs → PlainKid c)
      → (c : Node) → InKids c (optimize_children cs)
      → PlainKid c
  optimize_children-PlainKid nil f c k = elim k [ ]
  optimize_children-PlainKid (cons d cs) f c here =
      PlainKid-optimize_node d (f d here) (optimize_node-IsPlain d (plain_self d (f d here)))
  optimize_children-PlainKid (cons d cs) f c (there k) =
      optimize_children-PlainKid cs (λ e j. f e (there j)) c k
