-- ===== src/Router/Compile/Radix.antt =====
-- router.go: the tree that `optimizeNode` leaves is a radix tree, as the search wants it.
use kruda.Base.{ℕ, zero, suc, true, Bytes, ◌∷◌, some, ◌≡◌, refl, arith, sym, ◌∙◌, ap, index_byte}
use kruda.Router.Tree.{NodeInfo, Node, node, Nodes, nil, cons, info, is_static, is_some, child_at}
use kruda.Router.Find.Spec.{InKids, here, there, IsRadix, radix}
use kruda.Router.Compile.{
  sort_children, rebuild_indices, order_children, optimize_node, optimize_children,
}
use kruda.Router.Compile.Optimize.{sort_children-InKids_inv}
use kruda.Router.Compile.Sorted.{
  Apart, Distinct, Named, sort_children-StaticFirst, sort_children-Distinct, child_at-InKids,
  index_byte-rebuild_indices,
}

-- Each static child starts with a byte for which an index gives its place, or what `s` makes of it.
unfoldable pub Indexed : (ℕ → ℕ) → Bytes → Nodes → Type 0
Indexed s ix cs =
    (c : Node) (i : ℕ)
    → child_at i cs ≡ some c
    → is_static (info c) ≡ true
    → (b : ℕ) × (bs : Bytes) × ((info c).path ≡ b ∷ bs) × (index_byte ix b ≡ some (s i))

abbrev pub place : ℕ → ℕ
place i = i

pub InKids-child_at : (cs : Nodes) (c : Node) → InKids c cs → (i : ℕ) × (child_at i cs ≡ some c)
unfolding child_at
InKids-child_at nil c k = elim k [ ]
InKids-child_at (cons d cs) c here = (0, refl)
InKids-child_at (cons d cs) c (there k) = let (i, e) = InKids-child_at cs c k in (suc i, e)

Indexed-tail :
    (s : ℕ → ℕ) (ix : Bytes) (c : Node) (cs : Nodes)
    → Indexed s ix (cons c cs)
    → Indexed (λ i. s (suc i)) ix cs
unfolding Indexed child_at
Indexed-tail s ix c cs f d i e st = f d (suc i) e st

Indexed-Distinct :
    (s : ℕ → ℕ) (ix : Bytes) (cs : Nodes)
    → ((i j : ℕ) → s i ≡ s j → i ≡ j)
    → Indexed s ix cs
    → Distinct cs
unfolding Indexed Distinct Apart child_at
Indexed-Distinct s ix nil inj f = tt
Indexed-Distinct s ix (cons c cs) inj f = (
  (λ d j st st' e.
      let (i, at) = InKids-child_at cs d j in
      let (b, bs, p, q) = f c 0 refl st in
      let (b', bs', p', q') = f d (suc i) at st' in
      let same : b ≡ b' = ground arith in
      let again : index_byte ix b' ≡ some (s 0) = rw same at q in
      let places : s 0 ≡ s (suc i) = ground arith in
      let clash : zero ≡ suc i = inj 0 (suc i) places in absurd (ground arith)),
  Indexed-Distinct (λ i. s (suc i)) ix cs
      (λ i j e. let r : suc i ≡ suc j = inj (suc i) (suc j) e in ground arith)
      (Indexed-tail s ix c cs f),
)

Indexed-Named : (s : ℕ → ℕ) (ix : Bytes) (cs : Nodes) → Indexed s ix cs → Named cs
unfolding Indexed Named
Indexed-Named s ix cs f c j st =
    let (i, at) = InKids-child_at cs c j in let (b, bs, p, q) = f c i at st in (b, bs, p)

Indexed-sort_children :
    (ix : Bytes) (cs : Nodes)
    → Indexed place ix cs
    → Indexed place (rebuild_indices (sort_children cs)) (sort_children cs)
unfolding Indexed Named
Indexed-sort_children ix cs f c i at st =
    let kids = sort_children cs in
    let named : Named kids =
      λ d j. Indexed-Named place ix cs f d (sort_children-InKids_inv d cs j) in
    let (b, bs, p) = named c (child_at-InKids i kids c at) st in
    (
      b,
      bs,
      p,
      index_byte-rebuild_indices kids c i b bs (sort_children-StaticFirst cs)
          (sort_children-Distinct cs (Indexed-Distinct place ix cs (λ i j e. e) f)) named at st p,
    )

-- Each wildcard child has handlers.
unfoldable pub WildcardsServe : Nodes → Type 0
WildcardsServe cs =
    (c : Node) → InKids c cs → (info c).wildcard ≡ true → is_some (info c).handlers ≡ true

unfoldable pub AllRadix : Nodes → Type 0
AllRadix cs = (c : Node) → InKids c cs → IsRadix c

pub IsRadix-of :
    (n : NodeInfo) (cs : Nodes)
    → Indexed place n.indices cs
    → WildcardsServe cs
    → AllRadix cs
    → IsRadix (node n cs)
unfolding Indexed WildcardsServe AllRadix
IsRadix-of n cs f w r = radix {n = node n cs} f w r

pub IsRadix-parts :
    (n : NodeInfo) (cs : Nodes)
    → IsRadix (node n cs)
    → Indexed place n.indices cs × WildcardsServe cs × AllRadix cs
unfolding Indexed WildcardsServe AllRadix
IsRadix-parts n cs (radix f w r) = (f, w, r)

order_children-info :
    (n : NodeInfo) (cs : Nodes)
    → info (order_children n cs) ≡ record n { indices = (info (order_children n cs)).indices }
unfolding order_children
order_children-info n nil = refl
order_children-info n (cons c nil) = refl
order_children-info n (cons c (cons d cs)) = refl

pub optimize_node-info :
    (c : Node)
    → info (optimize_node c) ≡ record (info c) { indices = (info (optimize_node c)).indices }
unfolding optimize_node
optimize_node-info (node n cs) = order_children-info n (optimize_children cs)

pub optimize_node-is_static : (c : Node) → is_static (info (optimize_node c)) ≡ is_static (info c)
optimize_node-is_static c = ap is_static (optimize_node-info c)

order_children-IsRadix :
    (n : NodeInfo) (cs : Nodes)
    → Indexed place n.indices cs
    → WildcardsServe cs
    → AllRadix cs
    → IsRadix (order_children n cs)
unfolding order_children WildcardsServe AllRadix
order_children-IsRadix n nil f w r = IsRadix-of n nil f w r
order_children-IsRadix n (cons c nil) f w r = IsRadix-of n (cons c nil) f w r
order_children-IsRadix n (cons c (cons d cs)) f w r =
    let kids = cons c (cons d cs) in
    IsRadix-of (record n { indices = rebuild_indices (sort_children kids) }) (sort_children kids)
      (Indexed-sort_children n.indices kids f) (λ e k. w e (sort_children-InKids_inv e kids k))
      (λ e k. r e (sort_children-InKids_inv e kids k))

Indexed-optimize_children :
    (s : ℕ → ℕ) (ix : Bytes) (cs : Nodes) → Indexed s ix cs → Indexed s ix (optimize_children cs)
unfolding optimize_node child_at Indexed
Indexed-optimize_children s ix nil f c i at st = absurd (ground arith)
Indexed-optimize_children s ix (cons d cs) f c zero at st =
    let same : optimize_node d ≡ c = ground arith in
    let st' : is_static (info (optimize_node d)) ≡ true = rw same st in
    let (b, bs, p, q) = f d 0 refl (sym (optimize_node-is_static d) ∙ st') in
    (b, bs, ap (λ e. (info e).path) (sym same) ∙ ap (λ n. n.path) (optimize_node-info d) ∙ p, q)
Indexed-optimize_children s ix (cons d cs) f c (suc i) at st =
    Indexed-optimize_children (λ i. s (suc i)) ix cs (Indexed-tail s ix d cs f) c i at st

WildcardsServe-optimize_children :
    (cs : Nodes) → WildcardsServe cs → WildcardsServe (optimize_children cs)
unfolding optimize_node WildcardsServe
WildcardsServe-optimize_children nil w c k wild = elim k [ ]
WildcardsServe-optimize_children (cons d cs) w c here wild =
    let e = optimize_node-info d in
    ap (λ n. is_some n.handlers) e ∙ w d here (sym (ap (λ n. n.wildcard) e) ∙ wild)
WildcardsServe-optimize_children (cons d cs) w c (there k) wild =
    WildcardsServe-optimize_children cs (λ e j. w e (there j)) c k wild

mutual
  unfolding optimize_node AllRadix

  pub optimize_node-IsRadix : (n : Node) → IsRadix n → IsRadix (optimize_node n)
  optimize_node-IsRadix (node n cs) r =
      let (f, w, kids) = IsRadix-parts n cs r in
      order_children-IsRadix n (optimize_children cs)
        (Indexed-optimize_children place n.indices cs f) (WildcardsServe-optimize_children cs w)
        (AllRadix-optimize_children cs kids)

  AllRadix-optimize_children : (cs : Nodes) → AllRadix cs → AllRadix (optimize_children cs)
  AllRadix-optimize_children nil r c k = elim k [ ]
  AllRadix-optimize_children (cons d cs) r c here = optimize_node-IsRadix d (r d here)
  AllRadix-optimize_children (cons d cs) r c (there k) =
      AllRadix-optimize_children cs (λ e j. r e (there j)) c k
