-- ===== src/Router/Compile/Optimize.antt =====
-- router.go: the sort of `optimizeNode`, and the paths that the tree accepts.
use mathlib.Core.Path.{subst}
use kruda.Base.{ℕ, true, false, Bytes, ◌≡◌, refl, ◌↔◌, ◌⊎◌, inl, inr, if◌then◌else◌}
use kruda.Router.Build.{RegexEngine}
use kruda.Router.Tree.{NodeInfo, Node, node, Nodes, nil, cons, info, children}
use kruda.Router.Find.Spec.{InKids, here, there, Matches}
use kruda.Router.Compile.{
  before, insert_child, sort_children, order_children, rebuild_indices, optimize_node,
  optimize_children,
}
use kruda.Router.Compile.Covers.{Alike, Covers, Below-Covers, Matches-Covers}

pub InKids-cases : {d e : Node} {ds : Nodes} → InKids e (cons d ds) → (d ≡ e) ⊎ InKids e ds
InKids-cases here = inl refl
InKids-cases (there k) = inr k

-- The sort only moves the children.
insert_child-InKids_head : (c : Node) (cs : Nodes) → InKids c (insert_child c cs)
unfolding insert_child
insert_child-InKids_head c nil = here
insert_child-InKids_head c (cons d ds) =
    elim (before (info d) (info c))
      as (λ b. InKids c (if b then cons d (insert_child c ds) else cons c (cons d ds))) [
        | true ↦ there (insert_child-InKids_head c ds)
        | false ↦ here
      ]

insert_child-InKids_tail : (c e : Node) (cs : Nodes) → InKids e cs → InKids e (insert_child c cs)
unfolding insert_child
insert_child-InKids_tail c e nil k = elim k [ ]
insert_child-InKids_tail c e (cons d ds) k =
    elim (before (info d) (info c))
      as (λ b. InKids e (if b then cons d (insert_child c ds) else cons c (cons d ds))) [
        | true ↦ elim (InKids-cases k) [
          | inl p ↦ subst (λ x. InKids x (cons d (insert_child c ds))) p here
          | inr j ↦ there (insert_child-InKids_tail c e ds j)
        ]
        | false ↦ there k
      ]

pub insert_child-InKids_inv :
    (c e : Node) (cs : Nodes) → InKids e (insert_child c cs) → (c ≡ e) ⊎ InKids e cs
unfolding insert_child
insert_child-InKids_inv c e nil here = inl refl
insert_child-InKids_inv c e nil (there k) = elim k [ ]
insert_child-InKids_inv c e (cons d ds) k =
    elim (before (info d) (info c))
        as (λ b.
          InKids e (if b then cons d (insert_child c ds) else cons c (cons d ds))
          → (c ≡ e) ⊎ InKids e (cons d ds)) [
            | true ↦ λ j. elim (InKids-cases j) [
              | inl p ↦ inr (subst (λ x. InKids x (cons d ds)) p here)
              | inr i ↦ elim (insert_child-InKids_inv c e ds i) [
                | inl p ↦ inl p
                | inr p ↦ inr (there p)
              ]
            ]
            | false ↦ InKids-cases
          ]
      k

pub sort_children-InKids : (e : Node) (cs : Nodes) → InKids e cs → InKids e (sort_children cs)
unfolding sort_children
sort_children-InKids e nil k = k
sort_children-InKids e (cons c cs) here = insert_child-InKids_head c (sort_children cs)
sort_children-InKids e (cons c cs) (there k) =
    insert_child-InKids_tail c e (sort_children cs) (sort_children-InKids e cs k)

pub sort_children-InKids_inv : (e : Node) (cs : Nodes) → InKids e (sort_children cs) → InKids e cs
unfolding sort_children
sort_children-InKids_inv e nil k = k
sort_children-InKids_inv e (cons c cs) k = elim (insert_child-InKids_inv c e (sort_children cs) k) [
  | inl p ↦ subst (λ x. InKids x (cons c cs)) p here
  | inr j ↦ there (sort_children-InKids_inv e cs j)
]

module _ (engine : RegexEngine) where
  Covers-sort_children : (cs ds : Nodes) → Covers engine cs ds → Covers engine cs (sort_children ds)
  unfolding Covers
  Covers-sort_children cs ds f c k = let (d, j, b) = f c k in (d, sort_children-InKids d ds j, b)

  sort_children-Covers : (cs ds : Nodes) → Covers engine cs ds → Covers engine (sort_children cs) ds
  unfolding Covers
  sort_children-Covers cs ds f c k = f c (sort_children-InKids_inv c cs k)

  order_children-Alike :
      (n : NodeInfo) (cs ds : Nodes)
      → Covers engine cs ds
      → Covers engine ds cs
      → Alike engine (node n cs) (order_children n ds)
  unfolding Alike order_children
  order_children-Alike n cs nil f g = (
    Below-Covers engine n n.indices n.indices cs nil f,
    Below-Covers engine n n.indices n.indices nil cs g,
  )
  order_children-Alike n cs (cons d nil) f g = (
    Below-Covers engine n n.indices n.indices cs (cons d nil) f,
    Below-Covers engine n n.indices n.indices (cons d nil) cs g,
  )
  order_children-Alike n cs (cons d (cons e ds)) f g =
      let kids = sort_children (cons d (cons e ds)) in
      (
        Below-Covers engine n n.indices (rebuild_indices kids) cs kids
            (Covers-sort_children cs (cons d (cons e ds)) f),
        Below-Covers engine n (rebuild_indices kids) n.indices kids cs
            (sort_children-Covers (cons d (cons e ds)) cs g),
      )

  mutual
    unfolding Alike Covers optimize_node

    optimize_node-Alike : (n : Node) → Alike engine n (optimize_node n)
    optimize_node-Alike (node n cs) =
        order_children-Alike n cs (optimize_children cs) (optimize_children-Covers cs)
          (optimize_children-Covers_back cs)

    optimize_children-Covers : (cs : Nodes) → Covers engine cs (optimize_children cs)
    optimize_children-Covers nil c k = elim k [ ]
    optimize_children-Covers (cons d cs) c here = (optimize_node d, here, (optimize_node-Alike d).0)
    optimize_children-Covers (cons d cs) c (there k) =
        let (e, j, b) = optimize_children-Covers cs c k in (e, there j, b)

    optimize_children-Covers_back : (cs : Nodes) → Covers engine (optimize_children cs) cs
    optimize_children-Covers_back nil c k = elim k [ ]
    optimize_children-Covers_back (cons d cs) c here = (d, here, (optimize_node-Alike d).1)
    optimize_children-Covers_back (cons d cs) c (there k) =
        let (e, j, b) = optimize_children-Covers_back cs c k in (e, there j, b)

  children-Covers :
      (n : NodeInfo) (cs ds : Nodes)
      → Covers engine cs ds
      → Covers engine cs (children (order_children n ds))
  unfolding order_children
  children-Covers n cs nil f = f
  children-Covers n cs (cons d nil) f = f
  children-Covers n cs (cons d (cons e ds)) f = Covers-sort_children cs (cons d (cons e ds)) f

  children-Covers_back :
      (n : NodeInfo) (cs ds : Nodes)
      → Covers engine ds cs
      → Covers engine (children (order_children n ds)) cs
  unfolding order_children
  children-Covers_back n cs nil f = f
  children-Covers_back n cs (cons d nil) f = f
  children-Covers_back n cs (cons d (cons e ds)) f = sort_children-Covers (cons d (cons e ds)) cs f

  -- `optimizeNode` changes neither the paths that a tree accepts nor the handlers that it accepts
  -- them with.
  pub optimize_node-Matches :
      (n : Node) (path : Bytes) (h : ℕ)
      → Matches engine n path h ↔ Matches engine (optimize_node n) path h
  unfolding optimize_node
  optimize_node-Matches (node n cs) path h =
      let kids = optimize_children cs in
      (
        Matches-Covers engine (node n cs) (order_children n kids)
            (children-Covers n cs kids (optimize_children-Covers cs)) path h,
        Matches-Covers engine (order_children n kids) (node n cs)
            (children-Covers_back n cs kids (optimize_children-Covers_back cs)) path h,
      )
