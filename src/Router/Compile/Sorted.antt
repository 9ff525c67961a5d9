-- ===== src/Router/Compile/Sorted.antt =====
-- router.go: the children of a node as `optimizeNode` sorts them, and the index rebuilt from them.
use mathlib.Core.Path.{subst}
use kruda.Base.{
  ℕ, zero, suc, true, false, Bytes, [], ◌∷◌, some, ◌≡◌, ◌≢◌, refl, inl, inr, arith, Bool-cases, sym,
  take, index_byte, is_empty,
}
use kruda.Router.Tree.{NodeInfo, Node, Nodes, nil, cons, info, is_static, child_at}
use kruda.Router.Find.Spec.{InKids, here, there}
use kruda.Router.Compile.{before, differ, insert_child, sort_children, index_of, rebuild_indices}
use kruda.Router.Compile.Optimize.{InKids-cases, insert_child-InKids_inv, sort_children-InKids_inv}

-- The static children come first.
unfoldable pub StaticFirst : Nodes → Type 0
StaticFirst nil = Unit
StaticFirst (cons c cs) =
    ((d : Node) → InKids d cs → is_static (info d) ≡ true → is_static (info c) ≡ true)
    × StaticFirst cs

-- Two static children do not start with the same byte.
unfoldable pub Apart : Node → Node → Type 0
Apart c d =
    is_static (info c) ≡ true
    → is_static (info d) ≡ true
    → take 1 (info c).path ≢ take 1 (info d).path

unfoldable pub Distinct : Nodes → Type 0
Distinct nil = Unit
Distinct (cons c cs) = ((d : Node) → InKids d cs → Apart c d) × Distinct cs

unfoldable pub Named : Nodes → Type 0
Named cs =
    (c : Node)
    → InKids c cs
    → is_static (info c) ≡ true
    → (b : ℕ) × (bs : Bytes) × ((info c).path ≡ b ∷ bs)

Apart-sym : (c d : Node) → Apart c d → Apart d c
unfolding Apart
Apart-sym c d a s t e = a t s (sym e)

before_static : (d c : NodeInfo) → before d c ≡ true → is_static c ≡ true → is_static d ≡ true
unfolding before differ
before_static d c b s = ground arith

not_before_static : (d c : NodeInfo) → before d c ≡ false → is_static d ≡ true → is_static c ≡ true
unfolding before differ
not_before_static d c b s = ground arith

insert_child-StaticFirst :
    (c : Node) (cs : Nodes) → StaticFirst cs → StaticFirst (insert_child c cs)
unfolding StaticFirst insert_child
insert_child-StaticFirst c nil s = ((λ d k. elim k [ ]), s)
insert_child-StaticFirst c (cons d ds) (f, s) = elim (Bool-cases (before (info d) (info c))) [
  | inl b ↦ rw b (
    (λ e k st. elim (insert_child-InKids_inv c e ds k) [
      | inl p ↦ before_static (info d) (info c) b (rw p st)
      | inr j ↦ f e j st
    ]),
    insert_child-StaticFirst c ds s,
  )
  | inr b ↦ rw b (
    (λ e k st.
        not_before_static (info d) (info c) b
          (elim (InKids-cases k) [ inl p ↦ rw p st | inr j ↦ f e j st ])),
    (f, s),
  )
]

insert_child-Distinct :
    (c : Node) (cs : Nodes)
    → ((d : Node) → InKids d cs → Apart c d)
    → Distinct cs
    → Distinct (insert_child c cs)
unfolding Distinct insert_child
insert_child-Distinct c nil a s = ((λ d k. elim k [ ]), s)
insert_child-Distinct c (cons d ds) a (f, s) = elim (Bool-cases (before (info d) (info c))) [
  | inl b ↦ rw b (
    (λ e k. elim (insert_child-InKids_inv c e ds k) [
      | inl p ↦ subst (Apart d) p (Apart-sym c d (a d here))
      | inr j ↦ f e j
    ]),
    insert_child-Distinct c ds (λ e k. a e (there k)) s,
  )
  | inr b ↦ rw b (a, (f, s))
]

pub sort_children-StaticFirst : (cs : Nodes) → StaticFirst (sort_children cs)
unfolding StaticFirst sort_children
sort_children-StaticFirst nil = tt
sort_children-StaticFirst (cons c cs) =
    insert_child-StaticFirst c (sort_children cs) (sort_children-StaticFirst cs)

pub sort_children-Distinct : (cs : Nodes) → Distinct cs → Distinct (sort_children cs)
unfolding Distinct sort_children
sort_children-Distinct nil s = s
sort_children-Distinct (cons c cs) (a, s) =
    insert_child-Distinct c (sort_children cs) (λ d k. a d (sort_children-InKids_inv d cs k))
      (sort_children-Distinct cs s)

index_of-static :
    (n : NodeInfo) (b : ℕ) (bs : Bytes) → is_static n ≡ true → n.path ≡ b ∷ bs → index_of n ≡ b ∷ []
unfolding index_of
index_of-static n b bs st e =
    let wild : n.wildcard ≡ false = ground arith in
    let param : is_empty n.param ≡ true = ground arith in rw (wild, param, e) refl

pub child_at-InKids : (i : ℕ) (cs : Nodes) (c : Node) → child_at i cs ≡ some c → InKids c cs
unfolding child_at
child_at-InKids i nil c e = absurd (ground arith)
child_at-InKids zero (cons d cs) c e =
    let same : d ≡ c = ground arith in subst (λ x. InKids x (cons d cs)) same here
child_at-InKids (suc i) (cons d cs) c e = there (child_at-InKids i cs c e)

-- The place of a static child in the rebuilt index is its place among the children.
pub index_byte-rebuild_indices :
    (cs : Nodes) (c : Node) (i b : ℕ) (bs : Bytes)
    → StaticFirst cs
    → Distinct cs
    → Named cs
    → child_at i cs ≡ some c
    → is_static (info c) ≡ true
    → (info c).path ≡ b ∷ bs
    → index_byte (rebuild_indices cs) b ≡ some i
unfolding StaticFirst Distinct Named Apart rebuild_indices index_of child_at index_byte
index_byte-rebuild_indices nil c i b bs f d n at st e = absurd (ground arith)
index_byte-rebuild_indices (cons k cs) c zero b bs f d n at st e =
    let same : k ≡ c = ground arith in
    let path : (info k).path ≡ b ∷ bs = rw same e in
    let st' : is_static (info k) ≡ true = rw same st in
    rw (index_of-static (info k) b bs st' path) (ground arith)
index_byte-rebuild_indices (cons k cs) c (suc i) b bs (f, f') (d, d') n at st e =
    let j = child_at-InKids i cs c at in
    let st' = f c j st in
    let (x, xs, path) = n k here st' in
    let apart : x ≢ b = λ p. d c j st' st (rw (path, e, p) refl) in
    let rest = index_byte-rebuild_indices cs c i b bs f' d' (λ e k. n e (there k)) at st e in
    rw (index_of-static (info k) x xs st' path) (ground (arith, rest, apart))
