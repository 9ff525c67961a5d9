-- ===== src/Router/Params/Deletion.antt =====
-- The move of the last item into the gap (ctx_lifecycle.go: `routeParams.del`).
use kruda.Base.{
  suc, ◌≤◌, ◌≡◌, ◌≢◌, refl, sym, ap, ◌⊎◌, inl, inr, List, [], ◌∷◌, if◌then◌else◌, arith, Bytes,
  ◌=ᵇ◌, =ᵇ_iff, length, Bool-cases,
}
use kruda.Router.Params.{RouteParam, Params, get_items, drop_last, del_items, del}
use kruda.Router.Params.Valid.{keys, Has, NoRepeat, IsValid}

-- The last item moved to the front: the keys are the same, and so is what each key gives.
drop_last-Has :
    (k : Bytes) (i : RouteParam) (is : List RouteParam)
    → Has k (keys (drop_last i is).0) ⊎ ((drop_last i is).1.key ≡ k)
    → Has k (keys (i ∷ is))
unfolding drop_last
drop_last-Has k i [] h = ground arith
drop_last-Has k i (j ∷ js) h = ground (arith, drop_last-Has k j js)

drop_last-NoRepeat :
    (i : RouteParam) (is : List RouteParam)
    → NoRepeat (keys (i ∷ is))
    → NoRepeat (keys ((drop_last i is).1 ∷ (drop_last i is).0))
unfolding drop_last
drop_last-NoRepeat i [] n = n
drop_last-NoRepeat i (j ∷ js) (n, ns) =
    let (m, ms) = drop_last-NoRepeat j js ns in
    (
      λ h. elim h [ inl e ↦ n (drop_last-Has i.key j js (inr (sym e))) | inr g ↦ m g ],
      (λ g. n (drop_last-Has i.key j js (inl g)), ms),
    )

drop_last_get :
    (k : Bytes) (i : RouteParam) (is : List RouteParam)
    → NoRepeat (keys (i ∷ is))
    → get_items k ((drop_last i is).1 ∷ (drop_last i is).0) ≡ get_items k (i ∷ is)
unfolding drop_last get_items
drop_last_get k i [] n = refl
drop_last_get k i (j ∷ js) (n, ns) =
    let apart : (drop_last j js).1.key ≢ i.key = λ e. n (drop_last-Has i.key j js (inr e)) in
    ground (
      arith,
      drop_last_get k j js ns,
      apart,
      =ᵇ_iff i.key k,
      =ᵇ_iff j.key k,
      =ᵇ_iff (drop_last j js).1.key k,
    )

get_items-not-Has : (k : Bytes) (is : List RouteParam) → (Has k (keys is) → ⊥) → get_items k is ≡ []
unfolding get_items
get_items-not-Has k [] h = refl
get_items-not-Has k (i ∷ is) h =
    ground (arith, =ᵇ_iff i.key k, get_items-not-Has k is (λ g. h (inr g)))

length-drop_last : (i : RouteParam) (is : List RouteParam) → length (drop_last i is).0 ≡ length is
unfolding drop_last
length-drop_last i [] = refl
length-drop_last i (j ∷ js) = ap suc (length-drop_last j js)

get_items-cons :
    (k : Bytes) (i : RouteParam) (is : List RouteParam)
    → get_items k (i ∷ is) ≡ (if i.key =ᵇ k then i.value else get_items k is)
unfolding get_items
get_items-cons k i is = refl

del_items-cons :
    (key : Bytes) (i i' : RouteParam) (is : List RouteParam)
    → del_items key (i ∷ i' ∷ is) ≡ (
        if i.key =ᵇ key
        then (drop_last i' is).1 ∷ (drop_last i' is).0
        else i ∷ del_items key (i' ∷ is))
unfolding del_items
del_items-cons key i i' is = refl

-- Without repeated keys, a deleted key gives the empty string and every other key what it gave.
pub get_items-del_items :
    (key j : Bytes) (is : List RouteParam)
    → NoRepeat (keys is)
    → get_items j (del_items key is) ≡ (if key =ᵇ j then [] else get_items j is)
get_items-del_items key j [] n = unfold get_items del_items in ground arith
get_items-del_items key j (i ∷ []) (n, ns) =
    unfold get_items del_items in ground (arith, =ᵇ_iff i.key key, =ᵇ_iff key j, =ᵇ_iff i.key j)
get_items-del_items key j (i ∷ i' ∷ is) (n, ns) =
    let absent = get_items-not-Has i.key (i' ∷ is) n in
    let moved = drop_last_get j i' is ns in
    let later = get_items-del_items key j (i' ∷ is) ns in
    rw (del_items-cons, get_items-cons j i)
      (elim (Bool-cases (i.key =ᵇ key)) [
        | inl here ↦
            let e : i.key ≡ key = (=ᵇ_iff _ _).0 here in
            rw (here, moved) (ground (arith, absent, e, =ᵇ_iff key j, =ᵇ_iff i.key j))
        | inr other ↦
            rw (other, get_items-cons j i (del_items key (i' ∷ is)), later)
              (ground (arith, other, =ᵇ_iff i.key key, =ᵇ_iff key j, =ᵇ_iff i.key j))
      ])

del_items-Has :
    (k key : Bytes) (is : List RouteParam) → Has k (keys (del_items key is)) → Has k (keys is)
unfolding del_items
del_items-Has k key [] h = h
del_items-Has k key (i ∷ []) h = ground arith
del_items-Has k key (i ∷ i' ∷ is) h =
    ground (arith, del_items-Has k key (i' ∷ is), drop_last-Has k i' is)

del_items-NoRepeat :
    (key : Bytes) (is : List RouteParam) → NoRepeat (keys is) → NoRepeat (keys (del_items key is))
del_items-NoRepeat key [] n = unfold del_items in tt
del_items-NoRepeat key (i ∷ []) n = unfold del_items in ground arith
del_items-NoRepeat key (i ∷ i' ∷ is) (n, ns) = rw del_items-cons (elim (Bool-cases (i.key =ᵇ key)) [
  | inl here ↦ rw here (drop_last-NoRepeat i' is ns)
  | inr other ↦
      rw other (λ h. n (del_items-Has i.key key (i' ∷ is) h), del_items-NoRepeat key (i' ∷ is) ns)
])

length-del_items : (key : Bytes) (is : List RouteParam) → length (del_items key is) ≤ length is
length-del_items key [] = unfold del_items in omega arith
length-del_items key (i ∷ []) = unfold del_items in ground arith
length-del_items key (i ∷ i' ∷ is) =
    rw del_items-cons (ground (arith, length-del_items key (i' ∷ is), length-drop_last i' is))

-- Deleting keeps the items valid.
pub del-IsValid : (key : Bytes) (p : Params) → IsValid p → IsValid (del key p)
unfolding del
del-IsValid key p v = record {
  no_repeat = del_items-NoRepeat key p.items v.no_repeat;
  fits = omega (arith, length-del_items key p.items, v.fits);
}
