-- ===== src/Router/Params/Valid.antt =====
-- Valid route parameters, and what a write does to them (ctx_lifecycle.go: `routeParams.set`).
use kruda.Base.{
  suc, ◌≤◌, ◌<◌, ◌≡◌, ◌≢◌, refl, sym, ap, ◌⊎◌, inl, inr, List, [], ◌∷◌, ◌++◌, none, some,
  if◌then◌else◌, ltb, arith, Bytes, ◌=ᵇ◌, =ᵇ_iff, length, length-append, Bool-cases, Option-cases,
}
use kruda.Router.Params.{
  RouteParam, Params, max_route_params, update_item, set_items, set, get_items,
}

abbrev pub keys : List RouteParam → List Bytes
keys [] = []
keys (i ∷ is) = i.key ∷ keys is

abbrev pub Has : Bytes → List Bytes → Type 0
Has key [] = ⊥
Has key (k ∷ ks) = (k ≡ key) ⊎ Has key ks

abbrev pub NoRepeat : List Bytes → Type 0
NoRepeat [] = Unit
NoRepeat (k ∷ ks) = (Has k ks → ⊥) × NoRepeat ks

-- No key twice, and at most eight items.
pub record IsValid (p : Params) : Type 0 where
  pub no_repeat : NoRepeat (keys p.items)
  pub fits : length p.items ≤ max_route_params

update_item-some :
    (key value j : Bytes) (is : List RouteParam) {js : List RouteParam}
    → update_item key value is ≡ some js
    → get_items j js ≡ (if key =ᵇ j then value else get_items j is)
unfolding update_item get_items
update_item-some key value j [] e = cc
update_item-some key value j (i ∷ is) e = elim (Option-cases (update_item key value is)) [
  | inl gone ↦ ground (arith, gone, =ᵇ_iff i.key key, =ᵇ_iff key j, =ᵇ_iff i.key j)
  | inr (js, there) ↦ ground (
    arith,
    there,
    update_item-some key value j is there,
    =ᵇ_iff i.key key,
    =ᵇ_iff key j,
    =ᵇ_iff i.key j,
  )
]

update_item-none :
    (key value j : Bytes) (is : List RouteParam)
    → update_item key value is ≡ none
    → get_items j (is ++ record { key = key; value = value } ∷ [])
      ≡ (if key =ᵇ j then value else get_items j is)
unfolding update_item get_items
update_item-none key value j [] e = refl
update_item-none key value j (i ∷ is) e =
    ground (arith, update_item-none key value j is, =ᵇ_iff i.key key, =ᵇ_iff key j, =ᵇ_iff i.key j)

update_item-Has :
    (key value : Bytes) (is : List RouteParam) → Has key (keys is) → update_item key value is ≢ none
unfolding update_item
update_item-Has key value (i ∷ is) h =
    ground (arith, update_item-Has key value is, =ᵇ_iff i.key key)
update_item-Has key value [] h = absurd h

update_item-not-Has :
    (key value : Bytes) (is : List RouteParam)
    → update_item key value is ≡ none
    → Has key (keys is)
    → ⊥
unfolding update_item
update_item-not-Has key value is e h = update_item-Has key value is h e

pub get_items-set_items :
    (key value j : Bytes) (is : List RouteParam)
    → Has key (keys is) ⊎ (length is < max_route_params)
    → get_items j (set_items key value is) ≡ (if key =ᵇ j then value else get_items j is)
unfolding set_items
get_items-set_items key value j is room = elim (Option-cases (update_item key value is)) [
  | inl gone ↦
      ground (arith, gone, update_item-Has key value is, update_item-none key value j is gone)
  | inr (js, there) ↦ ground (arith, there, update_item-some key value j is there)
]

-- A write to a key that is there keeps the keys.
update_item-keys :
    (key value : Bytes) (is js : List RouteParam)
    → update_item key value is ≡ some js
    → keys js ≡ keys is
unfolding update_item
update_item-keys key value [] js e = cc
update_item-keys key value (i ∷ is) js e = elim (Option-cases (update_item key value is)) [
  | inl gone ↦ ground (arith, gone)
  | inr (js', there) ↦ ground (arith, there, update_item-keys key value is js' there)
]

length-keys : (is : List RouteParam) → length (keys is) ≡ length is
length-keys [] = refl
length-keys (i ∷ is) = ap suc (length-keys is)

keys-append : (is : List RouteParam) (i : RouteParam) → keys (is ++ i ∷ []) ≡ keys is ++ i.key ∷ []
keys-append [] i = refl
keys-append (j ∷ is) i = ap (◌∷◌ j.key) (keys-append is i)

Has-append : (k j : Bytes) (ks : List Bytes) → Has k (ks ++ j ∷ []) → Has k ks ⊎ (j ≡ k)
Has-append k j [] h = ground arith
Has-append k j (x ∷ ks) h = ground (arith, Has-append k j ks)

NoRepeat-append :
    (k : Bytes) (ks : List Bytes) → NoRepeat ks → (Has k ks → ⊥) → NoRepeat (ks ++ k ∷ [])
NoRepeat-append k [] n h = ((λ x. x), tt)
NoRepeat-append k (x ∷ ks) (n, ns) h = (
  λ g. elim (Has-append x k ks g) [ inl old ↦ n old | inr e ↦ h (inl (sym e)) ],
  NoRepeat-append k ks ns (λ g. h (inr g)),
)

-- The three outcomes of a write to the items.
set_items-cases :
    (key value : Bytes) (is : List RouteParam)
    → (keys (set_items key value is) ≡ keys is)
      ⊎ ((Has key (keys is) → ⊥)
          × (length is < max_route_params)
          × (keys (set_items key value is) ≡ keys is ++ key ∷ []))
unfolding set_items
set_items-cases key value is = elim (Option-cases (update_item key value is)) [
  | inl gone ↦ elim (Bool-cases (ltb (length is) max_route_params)) [
    | inl room ↦ inr (
      update_item-not-Has key value is gone,
      ground arith,
      rw (gone, set_items) (rw room (keys-append is _)),
    )
    | inr full ↦ inl (rw (gone, set_items) (rw full))
  ]
  | inr (js, there) ↦ inl (rw (there, set_items) (update_item-keys key value is js there))
]

-- Writing keeps the items valid.
pub set-IsValid : (key value : Bytes) (p : Params) → IsValid p → IsValid (set key value p)
unfolding set
set-IsValid key value p v =
    let same = length-keys p.items in
    let same' = length-keys (set_items key value p.items) in
    elim (set_items-cases key value p.items) [
      | inl e ↦ record {
        no_repeat = rw e v.no_repeat;
        fits = omega (arith, same, same', ap length e, v.fits);
      }
      | inr (new, room, e) ↦ record {
        no_repeat = rw e (NoRepeat-append key (keys p.items) v.no_repeat new);
        fits = omega (arith, same, same', ap length e, length-append (keys p.items) (key ∷ []));
      }
    ]
