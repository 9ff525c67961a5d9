-- ===== src/Container.antt =====
-- container.go: the dependency container. A reflect.Type and an instance are numbers; what reflect says
-- of them is a parameter. There is one goroutine, whose number is known; the mutex of a lazy entry is
-- modelled, since the goroutine may wait for itself, and the lock of the maps is left out.
pub mod Use
pub mod Kept
pub mod Total
pub mod Lifecycle
pub mod Rollback
pub mod Cached
pub mod Registered
mod Tests
use kruda.Base.{
  ℕ, zero, suc, ◌+◌, Bool, true, false, not, ◌&&◌, ◌||◌, List, [], ◌∷◌, ◌++◌, Option, none, some,
  if◌then◌else◌, ◌==◌, Bytes, ◌=ᵇ◌, length,
}
use kruda.Router.Table.{Table, lookup, insert}

pub record Reflect : Type 0 where
  pub type_of : ℕ → ℕ
  pub is_a : ℕ → ℕ → Bool
  pub is_error : ℕ → Bool

pub data Error : Type 0 where
  nil_value nil_iface no_iface not_implemented duplicate : Error
  not_function has_arguments bad_results no_error : Error
  no_provider mismatch : Error
  circular : List ℕ → Error
  factory_failed : ℕ → ℕ → Error

pub data Resolved : Type 0 where
  ok : ℕ → Resolved
  failed : Error → Resolved

-- What a factory does: it may resolve other services before it returns its values, the second of
-- which is an error or nil.
pub data Script : Type 0 where
  returns : ℕ → Option ℕ → Script
  resolves : ℕ → (Resolved → Script) → Script

pub record Factory : Type 0 where
  pub is_func : Bool
  pub num_in : ℕ
  pub outs : List ℕ
  pub body : Script

-- An entry of `transients` or `lazies`: the wrapped factory, and how many results it has.
pub record Wrapped : Type 0 where
  pub body : Script
  pub num_out : ℕ

-- `instance` is set where the source's `done` is true.
pub record Lazy : Type 0 where
  pub factory : Wrapped
  pub instance : Option ℕ

-- A Go map keyed by types.
abbrev pub Types {ℓ} : Type ℓ → Type ℓ
Types V = List (ℕ × V)

unfoldable pub type_entry {ℓ} : {V : Type ℓ} → ℕ → Types V → Option V
type_entry t [] = none
type_entry t ((u, v) ∷ m) = if u == t then some v else type_entry t m

unfoldable pub put_type {ℓ} : {V : Type ℓ} → ℕ → V → Types V → Types V
put_type t v [] = (t, v) ∷ []
put_type t v ((u, w) ∷ m) =
    let rest = put_type t v m in if u == t then (t, v) ∷ m else (u, w) ∷ rest

abbrev pub present {ℓ} : {A : Type ℓ} → Option A → Bool
present none = false
present (some a) = true

-- `resolving` is the stack of the goroutine, empty where the source has no entry; `locked` has the
-- types whose lazy entry's mutex the goroutine holds.
pub record Container : Type 0 where
  pub singletons : Types ℕ
  pub transients : Types Wrapped
  pub lazies : Types Lazy
  pub named : Table ℕ
  pub init_order : List ℕ
  pub resolving : List ℕ
  pub locked : List ℕ

abbrev pub new_container : Container
new_container = record {
  singletons = [];
  transients = [];
  lazies = [];
  named = [];
  init_order = [];
  resolving = [];
  locked = [];
}

unfoldable pub is_registered : ℕ → Container → Bool
is_registered t c =
    present (type_entry t c.singletons)
    || present (type_entry t c.lazies)
    || present (type_entry t c.transients)

-- The error of a registration, if any, and the container behind it.
abbrev pub Given : Type 0
Given = Option Error × Container

-- `c.singletons[t] = instance; c.initOrder = append(c.initOrder, instance)`, for a new type.
unfoldable pub add_singleton : ℕ → ℕ → Container → Given
unfolding is_registered
add_singleton t instance c = if is_registered t c then (some duplicate, c) else (
  none,
  record c {
    singletons = put_type t instance c.singletons;
    init_order = c.init_order ++ instance ∷ [];
  },
)

unfoldable pub give : Reflect → Option ℕ → Container → Given
unfolding add_singleton
give reflect none c = (some nil_value, c)
give reflect (some instance) c = add_singleton (reflect.type_of instance) instance c

-- The interface is `none` for nil and `some none` for what is no pointer to an interface.
unfoldable pub give_as : Reflect → Option ℕ → Option (Option ℕ) → Container → Given
unfolding add_singleton
give_as reflect none iface c = (some nil_value, c)
give_as reflect (some instance) none c = (some nil_iface, c)
give_as reflect (some instance) (some none) c = (some no_iface, c)
give_as reflect (some instance) (some (some t)) c =
    if not (reflect.is_a instance t) then (some not_implemented, c) else add_singleton t instance c

unfoldable pub validate_results : Reflect → List ℕ → Resolved
validate_results reflect [] = failed bad_results
validate_results reflect (t ∷ []) = ok t
validate_results reflect (t ∷ e ∷ []) = if reflect.is_error e then ok t else failed no_error
validate_results reflect (t ∷ e ∷ x ∷ xs) = failed bad_results

-- The type that a factory returns.
unfoldable pub validate_factory : Reflect → Factory → Resolved
unfolding validate_results
validate_factory reflect f =
    if not f.is_func
    then failed not_function
    else if not (f.num_in == 0)
    then failed has_arguments
    else validate_results reflect f.outs

abbrev pub wrap_factory : Factory → Wrapped
wrap_factory f = record { body = f.body; num_out = length f.outs }

unfoldable pub give_transient : Reflect → Factory → Container → Given
unfolding validate_factory is_registered
give_transient reflect f c = elim (validate_factory reflect f) [
  | failed e ↦ (some e, c)
  | ok t ↦
      if is_registered t c
      then (some duplicate, c)
      else (none, record c { transients = put_type t (wrap_factory f) c.transients })
]

unfoldable pub give_lazy : Reflect → Factory → Container → Given
unfolding validate_factory is_registered
give_lazy reflect f c = elim (validate_factory reflect f) [
  | failed e ↦ (some e, c)
  | ok t ↦ if is_registered t c then (some duplicate, c) else (
    none,
    record c {
      lazies = put_type t (record { factory = wrap_factory f; instance = none }) c.lazies;
    },
  )
]

unfoldable pub give_named : Bytes → Option ℕ → Container → Given
give_named name none c = (some nil_value, c)
give_named name (some instance) c = if present (lookup name c.named) then (some duplicate, c) else (
  none,
  record c { named = insert name instance c.named; init_order = c.init_order ++ instance ∷ [] },
)
