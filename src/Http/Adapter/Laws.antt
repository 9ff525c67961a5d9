-- ===== src/Http/Adapter/Laws.antt =====
-- wing_http.go: QueryParam against a split of the query, Header under any case, interned methods.
use kruda.Base.{
  ℕ, zero, suc, ◌+◌, ◌%◌, ◌≤◌, ◌≡◌, ◌∙◌, refl, ap, sym, arith, bit_xor, Bool, false, not, ◌&&◌,
  ◌||◌, List, [], ◌∷◌, map, Option, none, some, if◌then◌else◌, ◌==◌, Bytes, codes, ◌=ᵇ◌, =ᵇ_iff,
  index_byte, split, length, length-drop, take, drop, is_empty, Bool-cases, Option-cases, inl, inr,
}
use kruda.Http.Lexical.{lower, ascii_equal_fold}
use kruda.Http.Request.{Request}
use kruda.Http.Adapter.{
  find_extra, header, value_of, query_from, query_param, method_table, wing_intern_method,
}

-- The value of the first pair with the name, or the empty string.
abbrev pub first_value : Bytes → List Bytes → Bytes
first_value name [] = []
first_value name (p ∷ ps) = elim (value_of name p) [ some v ↦ v | none ↦ first_value name ps ]

split-index_byte :
    (sep : ℕ) (s : Bytes)
    → split sep s
      ≡ elim (index_byte s sep) [ some i ↦ take i s ∷ split sep (drop (i + 1) s) | none ↦ s ∷ [] ]
unfolding split index_byte
split-index_byte sep [] = refl
split-index_byte sep (c ∷ cs) = elim (Bool-cases (c == sep)) [
  | inl here ↦ rw here refl
  | inr later ↦ elim (Option-cases (index_byte cs sep)) [
    | inl missing ↦
        let e : split sep cs ≡ cs ∷ [] = split-index_byte sep cs ∙ rw missing refl in
        rw (later, missing, e) refl
    | inr (i, found) ↦
        let e : split sep cs ≡ take i cs ∷ split sep (drop (i + 1) cs) =
          split-index_byte sep cs ∙ rw found refl in
        let shift : suc i + 1 ≡ suc (i + 1) = omega arith in rw (later, found, e, shift) refl
  ]
]

rest :
    (o : Option Bytes) {a b : Bytes}
    → a ≡ b
    → (elim o as (λ _. Bytes) [ some v ↦ v | none ↦ a ])
      ≡ (elim o as (λ _. Bytes) [ some v ↦ v | none ↦ b ])
rest (some v) e = refl
rest none e = e

first_value-nil : (name : Bytes) → first_value name (split b'&' []) ≡ []
unfolding value_of split index_byte
first_value-nil name = refl

query_from-nil : (fuel : ℕ) (name : Bytes) → query_from fuel [] name ≡ []
unfolding query_from
query_from-nil zero name = refl
query_from-nil (suc fuel) name = refl

query_from-first_value :
    (fuel : ℕ) (q name : Bytes)
    → length q ≤ fuel
    → query_from fuel q name ≡ first_value name (split b'&' q)
unfolding query_from
query_from-first_value zero [] name h = sym (first_value-nil name)
query_from-first_value zero (c ∷ cs) name h = absurd (omega arith)
query_from-first_value (suc fuel) [] name h = sym (first_value-nil name)
query_from-first_value (suc fuel) (c ∷ cs) name h =
    rw (split-index_byte b'&' (c ∷ cs))
      (elim (index_byte (c ∷ cs) b'&')
        as (λ o.
          let cutting = elim o as (λ _. Bytes × Bytes) [
            | some i ↦ (take i (c ∷ cs), drop (i + 1) (c ∷ cs))
            | none ↦ (c ∷ cs, [])
          ] in
          elim (value_of name cutting.0) as (λ _. Bytes) [
            | some v ↦ v
            | none ↦ query_from fuel cutting.1 name
          ]
          ≡ first_value name (elim o as (λ _. List Bytes) [
            | some i ↦ take i (c ∷ cs) ∷ split b'&' (drop (i + 1) (c ∷ cs))
            | none ↦ (c ∷ cs) ∷ []
          ])) [
            | some i ↦ rest (value_of name (take i (c ∷ cs))) (
                query_from-first_value fuel (drop (i + 1) (c ∷ cs)) name
                  (omega (arith, length-drop (i + 1) (c ∷ cs))))
            | none ↦ rest (value_of name (c ∷ cs)) (query_from-nil fuel name)
          ])

-- `QueryParam` gives the value of the first of the pairs between the ampersands that has the name, and
-- the empty string if none has.
pub query_param-first_value :
    (r : Request) (name : Bytes) → query_param r name ≡ first_value name (split b'&' r.query)
unfolding query_param
query_param-first_value r name = query_from-first_value (length r.query) r.query name (omega arith)

interned : (m b : Bytes) → (if not (is_empty m) && length m == length b && m =ᵇ b then m else b) ≡ b
interned m b = elim (Bool-cases (m =ᵇ b)) [
  | inl same ↦ ground (arith, (=ᵇ_iff m b).0 same)
  | inr other ↦ ground (arith, other)
]

-- Interning never changes the method, also where two methods share a slot of the table.
pub wing_intern_method_lem : (b : Bytes) → wing_intern_method b ≡ b
unfolding wing_intern_method
wing_intern_method_lem (b₀ ∷ b₁ ∷ b₂ ∷ bs) =
    interned (method_table ((bit_xor b₀ b₁ + b₂) % 256)) (b₀ ∷ b₁ ∷ b₂ ∷ bs)
wing_intern_method_lem [] = refl
wing_intern_method_lem (b₀ ∷ []) = refl
wing_intern_method_lem (b₀ ∷ b₁ ∷ []) = refl

lower-lower : (c : ℕ) → lower (lower c) ≡ lower c
unfolding lower
lower-lower c = ground arith

map-lower : (key : Bytes) → map lower (map lower key) ≡ map lower key
map-lower [] = refl
map-lower (c ∷ cs) = rw (lower-lower c, map-lower cs) refl

ascii_equal_fold-lower :
    (key name : Bytes) → ascii_equal_fold (map lower key) name ≡ ascii_equal_fold key name
unfolding ascii_equal_fold
ascii_equal_fold-lower [] [] = refl
ascii_equal_fold-lower [] (d ∷ ds) = refl
ascii_equal_fold-lower (c ∷ cs) [] = refl
ascii_equal_fold-lower (c ∷ cs) (d ∷ ds) = rw (lower-lower c, ascii_equal_fold-lower cs ds) refl

spelled_otherwise :
    (key name low : Bytes)
    → map lower name ≡ low
    → (map lower key =ᵇ low) ≡ false
    → (key =ᵇ name) ≡ false
spelled_otherwise key name low e h = elim (Bool-cases (key =ᵇ name)) [
  | inl same ↦
      let spelled : map lower key ≡ low = ap (map lower) ((=ᵇ_iff key name).0 same) ∙ e in
      absurd (cc (h, (=ᵇ_iff (map lower key) low).1 spelled))
  | inr other ↦ other
]

-- The names that `Header` compares in two spellings only.
abbrev pub is_common : Bytes → Bool
is_common key =
    key =ᵇ codes "content-type"
    || key =ᵇ codes "cookie"
    || key =ᵇ codes "host"
    || key =ᵇ codes "accept"
    || key =ᵇ codes "connection"

default_header :
    (r : Request) (key : Bytes)
    → is_common (map lower key) ≡ false
    → header r key ≡ (
        if ascii_equal_fold key (codes "x-forwarded-for")
        then (r, r.fields.forwarded_value)
        else if ascii_equal_fold key (codes "x-real-ip")
        then (r, r.fields.real_ip_value)
        else (r, find_extra (map lower key) r.fields.extra_hdrs))
unfolding header lower
default_header r key h =
    let no = spelled_otherwise key in
    rw
      (
        no (codes "Content-Type") (codes "content-type") refl (ground (arith, h)),
        no (codes "content-type") (codes "content-type") refl (ground (arith, h)),
        no (codes "Cookie") (codes "cookie") refl (ground (arith, h)),
        no (codes "cookie") (codes "cookie") refl (ground (arith, h)),
        no (codes "Host") (codes "host") refl (ground (arith, h)),
        no (codes "host") (codes "host") refl (ground (arith, h)),
        no (codes "Accept") (codes "accept") refl (ground (arith, h)),
        no (codes "accept") (codes "accept") refl (ground (arith, h)),
        no (codes "Connection") (codes "connection") refl (ground (arith, h)),
        no (codes "connection") (codes "connection") refl (ground (arith, h)),
      )
      refl

-- Under a name that is none of the five common ones, the case of the letters does not matter.
pub header-lower :
    (r : Request) (key : Bytes)
    → is_common (map lower key) ≡ false
    → header r key ≡ header r (map lower key)
header-lower r key h =
    default_header r key h
    ∙ rw
        (
          ← ascii_equal_fold-lower key (codes "x-forwarded-for"),
          ← ascii_equal_fold-lower key (codes "x-real-ip"),
        )
        (rw (map-lower key) refl)
    ∙ sym (default_header r (map lower key) (rw (map-lower key) h))
