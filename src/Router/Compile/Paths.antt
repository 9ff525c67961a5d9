-- ===== src/Router/Compile/Paths.antt =====
-- router.go: the full paths of `collectStaticRoutes`, joined and trimmed, and the map they are the keys of.
use kruda.Base.{
  ℕ, true, false, Bytes, [], ◌∷◌, ◌++◌, some, ◌≡◌, ◌≢◌, refl, inl, inr, arith, sym, ap, Bool-cases,
  length, take, =ᵇ_iff, ◌=ᵇ◌, codes, if◌then◌else◌,
}
use kruda.Router.Table.{Table, lookup, insert}
use kruda.Router.Compile.{ends_with_slash, trim_slash, join_path}

-- A path with a slash at its end is one without it and a slash.
pub ends_with_slash-split :
    (p : Bytes) → ends_with_slash p ≡ true → (r : Bytes) × (p ≡ r ++ b'/' ∷ [])
unfolding ends_with_slash
ends_with_slash-split [] e = absurd (ground arith)
ends_with_slash-split (c ∷ []) e = ([], ground arith)
ends_with_slash-split (c ∷ d ∷ cs) e =
    let (r, e') = ends_with_slash-split (d ∷ cs) e in (c ∷ r, ap (λ q. c ∷ q) e')

pub ends_with_slash-append :
    (p : Bytes) (c : ℕ) (cs : Bytes) → ends_with_slash (p ++ c ∷ cs) ≡ ends_with_slash (c ∷ cs)
unfolding ends_with_slash
ends_with_slash-append [] c cs = refl
ends_with_slash-append (x ∷ []) c cs = refl
ends_with_slash-append (x ∷ y ∷ p) c cs = ends_with_slash-append (y ∷ p) c cs

take-init : (x : ℕ) (r : Bytes) (s : ℕ) → take (length (r ++ s ∷ [])) (x ∷ r ++ s ∷ []) ≡ x ∷ r
take-init x [] s = refl
take-init x (y ∷ r) s = ap (λ q. x ∷ q) (take-init y r s)

pub trim_slash-append : (c : ℕ) (r : Bytes) → r ≢ [] → trim_slash (c ∷ r ++ b'/' ∷ []) ≡ c ∷ r
unfolding trim_slash
trim_slash-append c [] ne = absurd (ne refl)
trim_slash-append c (x ∷ r) ne =
    rw (ends_with_slash-append (x ∷ r) b'/' []) (ap (λ q. c ∷ q) (take-init x r b'/'))

pub trim_slash-same : (p : Bytes) → ends_with_slash p ≡ false → trim_slash p ≡ p
unfolding trim_slash
trim_slash-same [] e = refl
trim_slash-same (c ∷ []) e = refl
trim_slash-same (c ∷ d ∷ cs) e = rw e refl

-- The full path of a child, in both functions' cases of a slash.
pub join_path-append :
    (q p : Bytes)
    → p ≢ []
    → (p ≡ b'/' ∷ [] → ends_with_slash (b'/' ∷ q) ≡ false)
    → join_path (b'/' ∷ q) p ≡ b'/' ∷ q ++ p
unfolding join_path
join_path-append q [] ne one = absurd (ne refl)
join_path-append q (x ∷ p) ne one = elim (Bool-cases ((x ∷ p) =ᵇ codes "/")) [
  | inl e ↦
      let slash : x ∷ p ≡ b'/' ∷ [] = (=ᵇ_iff (x ∷ p) (codes "/")).0 e in
      rw (e, one slash) (rw slash refl)
  | inr e ↦ elim (Bool-cases ((b'/' ∷ q) =ᵇ codes "/")) [
    | inl f ↦
        let root : b'/' ∷ q ≡ b'/' ∷ [] = (=ᵇ_iff (b'/' ∷ q) (codes "/")).0 f in
        rw (e, f) (ap (λ z. z ++ (x ∷ p)) (sym root))
    | inr f ↦ rw (e, f) refl
  ]
]

pub append-empty : (q t : Bytes) → q ++ t ≡ [] → t ≡ []
append-empty [] t e = e
append-empty (x ∷ q) t e = absurd (ground arith)

pub join_path-root : join_path (b'/' ∷ []) (b'/' ∷ []) ≡ b'/' ∷ []
unfolding join_path ◌=ᵇ◌
join_path-root = refl

pub lookup-insert {ℓ} :
    {V : Type ℓ}
    → (p k : Bytes) (v : V) (out : Table V)
    → lookup p (insert k v out) ≡ (if k =ᵇ p then some v else lookup p out)
unfolding lookup insert
lookup-insert p k v [] = refl
lookup-insert p k v ((j, w) ∷ m) =
    ground (arith, lookup-insert p k v m, =ᵇ_iff j k, =ᵇ_iff k p, =ᵇ_iff j p)
