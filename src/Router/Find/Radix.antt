-- ===== src/Router/Find/Radix.antt =====
-- Proper radix trees built by hand: a leaf, and a node with one child.
use kruda.Base.{ℕ, zero, suc, true, ◌∷◌, some, ◌≡◌, arith, Bytes, index_byte}
use kruda.Router.Tree.{NodeInfo, Node, node, nil, cons, info, is_static, is_some, child_at}
use kruda.Router.Find.Spec.{InKids, here, there, IsRadix, radix}

pub leaf-IsRadix : (m : NodeInfo) → IsRadix (node m nil)
unfolding child_at
leaf-IsRadix m =
    radix (λ c i at st. absurd (ground arith)) (λ c k w. elim k [ ]) (λ c k. elim k [ ])

IsFirst : NodeInfo → Node → Type 0
IsFirst m d =
    is_static (info d) ≡ true
    → (b : ℕ) × (bs : Bytes) × ((info d).path ≡ b ∷ bs) × (index_byte m.indices b ≡ some 0)

only_place :
    (m : NodeInfo) (d : Node)
    → IsFirst m d
    → (c : Node) (i : ℕ) → child_at i (cons d nil) ≡ some c
    → is_static (info c) ≡ true
    → (b : ℕ) × (bs : Bytes) × ((info c).path ≡ b ∷ bs) × (index_byte m.indices b ≡ some i)
unfolding child_at IsFirst
only_place m d first c zero at st =
    let same : d ≡ c = ground arith in let first_c : IsFirst m c = rw same at first in first_c st
only_place m d first c (suc i) at st = absurd (ground arith)

only_kid : {c d : Node} (P : Node → Type 0) → InKids c (cons d nil) → P d → P c
only_kid P here p = p
only_kid P (there k) p = elim k [ ]

pub one_kid-IsRadix :
    (m : NodeInfo) (d : Node)
    → (is_static (info d) ≡ true
        → (b : ℕ) × (bs : Bytes) × ((info d).path ≡ b ∷ bs) × (index_byte m.indices b ≡ some 0))
    → ((info d).wildcard ≡ true → is_some (info d).handlers ≡ true)
    → IsRadix d
    → IsRadix (node m (cons d nil))
unfolding IsFirst
one_kid-IsRadix m d first wild r =
    radix (only_place m d first)
      (λ c k w.
        only_kid (λ e. (info e).wildcard ≡ true → is_some (info e).handlers ≡ true) k wild w)
      (λ c k. only_kid IsRadix k r)
