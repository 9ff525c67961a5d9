-- ===== src/Http/Adapter/Query.antt =====
-- wing_http.go: what QueryParam finds, said of the bytes of the query's pieces.
use kruda.Base.{
  ℕ, suc, ◌+◌, ◌≡◌, refl, ap, arith, false, List, [], ◌∷◌, ◌++◌, some, ◌==◌, Bytes, ◌=ᵇ◌, =ᵇ_iff,
  index_byte, split, length, take, drop, take-append, Bool-cases, Option-cases, inl, inr,
}
use mathlib.Core.Path.{subst}
use kruda.Http.Lexical.{contains_byte}
use kruda.Http.Request.{Request}
use kruda.Http.Adapter.{value_of, query_param}
use kruda.Http.Adapter.Laws.{first_value, query_param-first_value}

-- The piece is the name, an equals sign and the value, and the sign is its first one.
abbrev pub IsPair : Bytes → Bytes → Bytes → Type 0
IsPair name value piece = (piece ≡ name ++ b'=' ∷ value) × (contains_byte name b'=' ≡ false)

-- The value of the first piece that is a pair with the name; the empty string where none is.
pub data IsFirstValue (name : Bytes) : List Bytes → Bytes → Type 0 where
  missing : IsFirstValue name [] []
  found :
      (p : Bytes) (ps : List Bytes) (value : Bytes)
      → IsPair name value p
      → IsFirstValue name (p ∷ ps) value
  later :
      (p : Bytes) (ps : List Bytes) (value : Bytes)
      → ((v : Bytes) → ¬ IsPair name v p)
      → IsFirstValue name ps value
      → IsFirstValue name (p ∷ ps) value

index_byte-split :
    (s : Bytes) (c i : ℕ)
    → index_byte s c ≡ some i
    → (s ≡ take i s ++ c ∷ drop (i + 1) s) × (contains_byte (take i s) c ≡ false)
unfolding index_byte
index_byte-split [] c i e = absurd (ground arith)
index_byte-split (x ∷ xs) c i e = elim (Bool-cases (x == c)) [
  | inl same ↦
      let first : i ≡ 0 = ground (arith, e, same) in
      let eq : x ≡ c = ground (arith, same) in rw (first, eq) (refl, refl)
  | inr other ↦ elim (Option-cases (index_byte xs c)) [
    | inl none_left ↦ absurd (ground (arith, e, other, none_left))
    | inr (j, there) ↦
        let next : i ≡ suc j = ground (arith, e, other, there) in
        let shift : suc j + 1 ≡ suc (j + 1) = omega arith in
        let ih = index_byte-split xs c j there in
        rw (next, shift) (ap (◌∷◌ x) ih.0, ground (arith, other, ih.1))
  ]
]

index_byte-pair :
    (name v : Bytes)
    → contains_byte name b'=' ≡ false
    → index_byte (name ++ b'=' ∷ v) b'=' ≡ some (length name)
unfolding index_byte
index_byte-pair [] v h = refl
index_byte-pair (x ∷ xs) v h = ground (arith, h, index_byte-pair xs v (ground (arith, h)))

drop-pair : (name v : Bytes) → drop (length name + 1) (name ++ b'=' ∷ v) ≡ v
drop-pair [] v = refl
drop-pair (x ∷ xs) v =
    let shift : suc (length xs) + 1 ≡ suc (length xs + 1) = omega arith in rw shift (drop-pair xs v)

value_of-pair : (name v p : Bytes) → IsPair name v p → value_of name p ≡ some v
unfolding value_of
value_of-pair name v p (e, h) = rw e (
    rw
      (
        index_byte-pair name v h,
        take-append name (b'=' ∷ v),
        (=ᵇ_iff name name).1 refl,
        drop-pair name v,
        value_of,
      )
      refl)

value_of-IsPair : (name v p : Bytes) → value_of name p ≡ some v → IsPair name v p
unfolding value_of
value_of-IsPair name v p h = elim (Option-cases (index_byte p b'=')) [
  | inl none_left ↦ absurd (ground (arith, h, none_left))
  | inr (i, there) ↦
      let (cut_there, free) = index_byte-split p b'=' i there in
      elim (Bool-cases (take i p =ᵇ name)) [
        | inr other ↦ absurd (ground (arith, h, there, other))
        | inl same ↦
            let is_name : take i p ≡ name = (=ᵇ_iff (take i p) name).0 same in
            let value : drop (i + 1) p ≡ v = ground (arith, h, there, same) in
            (
              subst (λ n. p ≡ n ++ b'=' ∷ v) is_name
                  (subst (λ w. p ≡ take i p ++ b'=' ∷ w) value cut_there),
              subst (λ n. contains_byte n b'=' ≡ false) is_name free,
            )
      ]
]

first_value-IsFirstValue :
    (name : Bytes) (ps : List Bytes) → IsFirstValue name ps (first_value name ps)
first_value-IsFirstValue name [] = missing
first_value-IsFirstValue name (p ∷ ps) = elim (Option-cases (value_of name p)) [
  | inr (v, e) ↦ rw (e, first_value) (found p ps v (value_of-IsPair name v p e))
  | inl e ↦
      rw (e, first_value)
        (later p ps (first_value name ps)
          (λ v is_pair. ground (arith, e, value_of-pair name v p is_pair))
          (first_value-IsFirstValue name ps))
]

-- `QueryParam` gives, of the pieces of the query between the ampersands, the bytes behind the first
-- equals sign of the first piece whose bytes before that sign are the name, and the empty string if no
-- piece is such a pair. Nothing is unescaped.
pub query_param-IsFirstValue :
    (r : Request) (name : Bytes) → IsFirstValue name (split b'&' r.query) (query_param r name)
query_param-IsFirstValue r name =
    rw (query_param-first_value r name) (first_value-IsFirstValue name (split b'&' r.query))
