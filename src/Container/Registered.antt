-- ===== src/Container/Registered.antt =====
-- container.go: the maps of the container through its registrations.
use mathlib.Core.Path.{subst}
use kruda.Base.{
  ◌++◌, ℕ, ◌+◌, ◌≤◌, Bool, true, false, List, [], ◌∷◌, Option, none, some, if◌then◌else◌, ◌==◌, ◌≡◌,
  inl, inr, refl, arith, Bool-cases, Bytes,
}
use kruda.Container.{
  Reflect, duplicate, Resolved, ok, failed, Types, type_entry, put_type, present, Container,
  new_container, Factory, Wrapped, Lazy, is_registered, Given, add_singleton, give, give_as,
  validate_factory, wrap_factory, give_transient, give_lazy, give_named,
}
use kruda.Router.Table.{lookup, insert}
use kruda.Container.Use.{on_stack}
use kruda.Container.Kept.{LockedIsResolving}

abbrev count : Bool → ℕ
count true = 1
count false = 0

-- How many of the three maps have a type.
unfoldable pub places : ℕ → Container → ℕ
places t c =
    count (present (type_entry t c.singletons))
    + count (present (type_entry t c.lazies))
    + count (present (type_entry t c.transients))

unfoldable pub OnePlace : Container → Type 0
OnePlace c = (t : ℕ) → places t c ≤ 1

-- One registration.
pub data Registration : Type 0 where
  singleton : Option ℕ → Registration
  interface : Option ℕ → Option (Option ℕ) → Registration
  transient lazy : Factory → Registration
  by_name : Bytes → Option ℕ → Registration

abbrev pub register_one : Reflect → Registration → Container → Given
register_one reflect (singleton instance) c = give reflect instance c
register_one reflect (interface instance iface) c = give_as reflect instance iface c
register_one reflect (transient f) c = give_transient reflect f c
register_one reflect (lazy f) c = give_lazy reflect f c
register_one reflect (by_name name instance) c = give_named name instance c

-- A sequence of them, whether or not each is accepted.
unfoldable pub register_all : Reflect → List Registration → Container → Container
register_all reflect [] c = c
register_all reflect (r ∷ rs) c = register_all reflect rs (register_one reflect r c).1

type_entry-put_type_lem {ℓ} :
    {V : Type ℓ}
    → (u t : ℕ) (v : V) (m : Types V)
    → type_entry u (put_type t v m) ≡ (if t == u then some v else type_entry u m)
unfolding type_entry put_type
type_entry-put_type_lem u t v [] = refl
type_entry-put_type_lem u t v ((s, w) ∷ m) = ground (arith, type_entry-put_type_lem u t v m)

-- A registration keeps the container or puts in its place a new one.
refused_or :
    (P : Container → Type 0) (b : Bool) (c d : Container)
    → P c
    → (b ≡ false → P d)
    → P (if◌then◌else◌ {A = Given} b (some duplicate, c) (none, d)).1
refused_or P true c d p q = p
refused_or P false c d p q = q refl

-- What holds of a container through its registrations.
unfoldable pub IsSound : Container → Type 0
IsSound c = OnePlace c × LockedIsResolving c

singletons-IsSound :
    (t instance : ℕ) (order : List ℕ) (c : Container)
    → IsSound c
    → is_registered t c ≡ false
    → IsSound (record c { singletons = put_type t instance c.singletons; init_order = order })
unfolding IsSound OnePlace LockedIsResolving places is_registered
singletons-IsSound t instance order c (one, lock) new = (
  (λ u. elim (Bool-cases (t == u)) [
    | inl same ↦
        let e : t ≡ u = ground (arith, same) in
        let new' = subst (λ x. is_registered x c ≡ false) e new in
        ground (arith, type_entry-put_type_lem u t instance c.singletons, new')
    | inr other ↦ ground (arith, type_entry-put_type_lem u t instance c.singletons, other, one u)
  ]),
  lock,
)

transients-IsSound :
    (t : ℕ) (entry : Wrapped) (c : Container)
    → IsSound c
    → is_registered t c ≡ false
    → IsSound (record c { transients = put_type t entry c.transients })
unfolding IsSound OnePlace LockedIsResolving places is_registered
transients-IsSound t entry c (one, lock) new = (
  (λ u. elim (Bool-cases (t == u)) [
    | inl same ↦
        let e : t ≡ u = ground (arith, same) in
        let new' = subst (λ x. is_registered x c ≡ false) e new in
        ground (arith, type_entry-put_type_lem u t entry c.transients, new')
    | inr other ↦ ground (arith, type_entry-put_type_lem u t entry c.transients, other, one u)
  ]),
  lock,
)

lazies-IsSound :
    (t : ℕ) (entry : Lazy) (c : Container)
    → IsSound c
    → is_registered t c ≡ false
    → IsSound (record c { lazies = put_type t entry c.lazies })
unfolding IsSound OnePlace LockedIsResolving places is_registered
lazies-IsSound t entry c (one, lock) new = (
  (λ u. elim (Bool-cases (t == u)) [
    | inl same ↦
        let e : t ≡ u = ground (arith, same) in
        let new' = subst (λ x. is_registered x c ≡ false) e new in
        ground (arith, type_entry-put_type_lem u t entry c.lazies, new')
    | inr other ↦ ground (arith, type_entry-put_type_lem u t entry c.lazies, other, one u)
  ]),
  lock,
)

add_singleton-IsSound :
    (t instance : ℕ) (c : Container) → IsSound c → IsSound (add_singleton t instance c).1
unfolding add_singleton
add_singleton-IsSound t instance c s =
    refused_or IsSound (is_registered t c) c
      (record c {
        singletons = put_type t instance c.singletons;
        init_order = c.init_order ++ instance ∷ [];
      })
      s (singletons-IsSound t instance (c.init_order ++ instance ∷ []) c s)

by_name-IsSound :
    (name : Bytes) (instance : Option ℕ) (c : Container)
    → IsSound c
    → IsSound (give_named name instance c).1
unfolding give_named IsSound OnePlace LockedIsResolving places
by_name-IsSound name none c s = s
by_name-IsSound name (some instance) c s =
    refused_or IsSound (present (lookup name c.named)) c
      (record c {
        named = insert name instance c.named;
        init_order = c.init_order ++ instance ∷ [];
      })
      s (λ e. s)

interface-IsSound :
    (reflect : Reflect) (instance : Option ℕ) (iface : Option (Option ℕ)) (c : Container)
    → IsSound c
    → IsSound (give_as reflect instance iface c).1
unfolding give_as
interface-IsSound reflect none iface c s = s
interface-IsSound reflect (some instance) none c s = s
interface-IsSound reflect (some instance) (some none) c s = s
interface-IsSound reflect (some instance) (some (some t)) c s =
    elim (Bool-cases (reflect.is_a instance t)) [
      | inl fits ↦ rw fits (add_singleton-IsSound t instance c s)
      | inr other ↦ rw other s
    ]

factory-IsSound :
    (o : Resolved) (c : Container) (k : ℕ → Given)
    → IsSound c
    → ((t : ℕ) → IsSound (k t).1)
    → IsSound (elim o as (λ _. Given) [ failed e ↦ (some e, c) | ok t ↦ k t ]).1
factory-IsSound (failed e) c k s f = s
factory-IsSound (ok t) c k s f = f t

register_one-IsSound :
    (reflect : Reflect) (r : Registration) (c : Container)
    → IsSound c
    → IsSound (register_one reflect r c).1
unfolding give give_transient give_lazy
register_one-IsSound reflect (singleton none) c s = s
register_one-IsSound reflect (singleton (some instance)) c s =
    add_singleton-IsSound (reflect.type_of instance) instance c s
register_one-IsSound reflect (interface instance iface) c s =
    interface-IsSound reflect instance iface c s
register_one-IsSound reflect (transient f) c s =
    factory-IsSound (validate_factory reflect f) c
      (λ t.
        if is_registered t c
        then (some duplicate, c)
        else (none, record c { transients = put_type t (wrap_factory f) c.transients }))
      s
      (λ t.
        refused_or IsSound (is_registered t c) c
          (record c { transients = put_type t (wrap_factory f) c.transients }) s
          (transients-IsSound t (wrap_factory f) c s))
register_one-IsSound reflect (lazy f) c s =
    let entry : Lazy = record { factory = wrap_factory f; instance = none } in
    factory-IsSound (validate_factory reflect f) c
      (λ t.
        if is_registered t c
        then (some duplicate, c)
        else (none, record c { lazies = put_type t entry c.lazies }))
      s
      (λ t.
        refused_or IsSound (is_registered t c) c (record c { lazies = put_type t entry c.lazies }) s
          (lazies-IsSound t entry c s))
register_one-IsSound reflect (by_name name instance) c s = by_name-IsSound name instance c s

-- Through any registrations, accepted or refused, a sound container stays sound.
register_all-IsSound :
    (reflect : Reflect) (rs : List Registration) (c : Container)
    → IsSound c
    → IsSound (register_all reflect rs c)
unfolding register_all
register_all-IsSound reflect [] c s = s
register_all-IsSound reflect (r ∷ rs) c s =
    register_all-IsSound reflect rs (register_one reflect r c).1
      (register_one-IsSound reflect r c s)

-- Whatever is registered with a new container, in whatever order, each type is in one of the maps of
-- singletons, lazies and transients at most.
pub register_all-OnePlace :
    (reflect : Reflect) (rs : List Registration) → OnePlace (register_all reflect rs new_container)
unfolding IsSound OnePlace LockedIsResolving places type_entry on_stack
register_all-OnePlace reflect rs =
    (register_all-IsSound reflect rs new_container
      ((λ t. omega arith), (λ t e. absurd (ground arith)))).0

pub register_all-LockedIsResolving :
    (reflect : Reflect) (rs : List Registration)
    → LockedIsResolving (register_all reflect rs new_container)
unfolding IsSound OnePlace LockedIsResolving places type_entry on_stack
register_all-LockedIsResolving reflect rs =
    (register_all-IsSound reflect rs new_container
      ((λ t. omega arith), (λ t e. absurd (ground arith)))).1
