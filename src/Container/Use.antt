-- ===== src/Container/Use.antt =====
-- container.go: `Use`, `UseNamed`, `Warmup` and the factories that they run.
use kruda.Base.{
  ℕ, zero, suc, Bool, false, ◌||◌, List, [], ◌∷◌, ◌++◌, Option, none, some, if◌then◌else◌, ◌==◌,
  Bytes,
}
use kruda.Router.Table.{lookup}
use kruda.Container.{
  Reflect, Error, no_provider, mismatch, circular, factory_failed, Resolved, ok, failed, Script,
  returns, resolves, Wrapped, Lazy, Types, type_entry, put_type, Container,
}

-- How a call ends: it may wait for a mutex that it holds itself. Rounds of `Use` within `Use` run on
-- fuel.
pub data Run {ℓ} (A : Type ℓ) : Type ℓ where
  done : A → Run A
  deadlock out_of_fuel : Run A

abbrev pub Used : Type 0
Used = Run (Resolved × Container)

-- What a wrapped factory gives.
pub data Made : Type 0 where
  made error : ℕ → Made

unfoldable pub on_stack : ℕ → List ℕ → Bool
on_stack t [] = false
on_stack t (s ∷ ss) = s == t || on_stack t ss

unfoldable pub without_last : List ℕ → List ℕ
without_last [] = []
without_last (t ∷ []) = []
without_last (t ∷ u ∷ ts) = t ∷ without_last (u ∷ ts)

unfoldable pub push_resolving : ℕ → Container → Option Error × Container
unfolding on_stack
push_resolving t c =
    if on_stack t c.resolving
    then (some (circular (c.resolving ++ t ∷ [])), c)
    else (none, record c { resolving = c.resolving ++ t ∷ [] })

unfoldable pub pop_resolving : Container → Container
unfolding without_last
pop_resolving c = record c { resolving = without_last c.resolving }

-- The function that `wrapFactory` returns, on the values of the factory.
abbrev pub wrapped : ℕ → ℕ → Option ℕ → Made
wrapped num_out v none = made v
wrapped num_out v (some e) = if num_out == 2 then error e else made v

unfoldable pub run_script : (ℕ → Container → Used) → ℕ → Script → Container → Run (Made × Container)
run_script use_type num_out (returns v err) c = done (wrapped num_out v err, c)
run_script use_type num_out (resolves t k) c = elim (use_type t c) [
  | done r ↦ run_script use_type num_out (k r.0) r.1
  | deadlock ↦ deadlock
  | out_of_fuel ↦ out_of_fuel
]

-- `typed, ok := inst.(T)`.
abbrev pub checked : Reflect → ℕ → ℕ → Resolved
checked reflect t instance = if reflect.is_a instance t then ok instance else failed mismatch

abbrev pub outcome_of : Reflect → ℕ → Made → Resolved
outcome_of reflect t (made v) = checked reflect t v
outcome_of reflect t (error e) = failed (factory_failed t e)

abbrev pub unlock : List ℕ → List ℕ
unlock [] = []
unlock (t ∷ ts) = ts

-- The lazy entry behind its factory: a result is kept, with the instance in `initOrder`.
abbrev pub settle : ℕ → Lazy → Made × Container → Made × Container
settle t entry (error e, c) = (error e, record c { locked = unlock c.locked })
settle t entry (made v, c) = (
  made v,
  record c {
    lazies = put_type t (record entry { instance = some v }) c.lazies;
    init_order = c.init_order ++ v ∷ [];
    locked = unlock c.locked;
  },
)

-- `resolve`, and what its callers do with a first result.
unfoldable pub resolve : (ℕ → Container → Used) → ℕ → Lazy → Container → Run (Made × Container)
unfolding on_stack run_script put_type
resolve use_type t entry c = if on_stack t c.locked then deadlock else elim entry.instance [
  | some v ↦ done (made v, c)
  | none ↦
      elim (run_script use_type entry.factory.num_out entry.factory.body
        (record c { locked = t ∷ c.locked })) [
          | done r ↦ done (settle t entry r)
          | deadlock ↦ deadlock
          | out_of_fuel ↦ out_of_fuel
        ]
]

abbrev pub finish_use : Reflect → ℕ → Run (Made × Container) → Used
finish_use reflect t (done r) = done (outcome_of reflect t r.0, pop_resolving r.1)
finish_use reflect t deadlock = deadlock
finish_use reflect t out_of_fuel = out_of_fuel

-- `if err := c.pushResolving(t); err != nil { return zero, err }`, and what follows.
abbrev pub after_push :
    Reflect → ℕ → (Container → Run (Made × Container)) → Option Error × Container → Used
after_push reflect t k (some e, c) = done (failed e, c)
after_push reflect t k (none, c) = finish_use reflect t (k c)

unfoldable pub use_transient : Reflect → (ℕ → Container → Used) → ℕ → Wrapped → Container → Used
unfolding push_resolving pop_resolving run_script
use_transient reflect use_type t entry c =
    after_push reflect t (run_script use_type entry.num_out entry.body) (push_resolving t c)

unfoldable pub use_lazy : Reflect → (ℕ → Container → Used) → ℕ → Lazy → Container → Used
unfolding push_resolving pop_resolving resolve
use_lazy reflect use_type t entry c = elim entry.instance [
  | some v ↦ done (checked reflect t v, c)
  | none ↦ after_push reflect t (resolve use_type t entry) (push_resolving t c)
]

-- `Use`, with a factory's own calls of it by `use_type`.
unfoldable pub use_with : Reflect → (ℕ → Container → Used) → ℕ → Container → Used
unfolding type_entry use_transient use_lazy
use_with reflect use_type t c = elim (type_entry t c.singletons) [
  | some v ↦ done (checked reflect t v, c)
  | none ↦ elim (type_entry t c.transients) [
    | some entry ↦ use_transient reflect use_type t entry c
    | none ↦ elim (type_entry t c.lazies) [
      | some entry ↦ use_lazy reflect use_type t entry c
      | none ↦ done (failed no_provider, c)
    ]
  ]
]

unfoldable pub use_type : Reflect → ℕ → ℕ → Container → Used
unfolding use_with
use_type reflect zero t c = out_of_fuel
use_type reflect (suc fuel) t c = use_with reflect (use_type reflect fuel) t c

unfoldable pub use_named : Reflect → ℕ → Bytes → Container → Resolved
use_named reflect t name c = elim (lookup name c.named) [
  | none ↦ failed no_provider
  | some v ↦ checked reflect t v
]

-- The lazy types that are not resolved yet.
unfoldable pub pending : Types Lazy → List ℕ
pending [] = []
pending ((t, entry) ∷ m) =
    let rest = pending m in elim entry.instance [ none ↦ t ∷ rest | some v ↦ rest ]

-- The loop of `Warmup`, with the errors of the factories so far; `cancelled` says at which rounds
-- the context has an error, which is `none` among the errors.
unfoldable pub warm_up_loop :
    (ℕ → Bool)
    → (ℕ → Container → Used)
    → ℕ
    → List ℕ
    → List (Option ℕ)
    → Container
    → Run (List (Option ℕ) × Container)
unfolding type_entry resolve
warm_up_loop cancelled use_type i [] errs c = done (errs, c)
warm_up_loop cancelled use_type i (t ∷ ts) errs c =
    if cancelled i then done (errs ++ none ∷ [], c) else elim (type_entry t c.lazies) [
      | none ↦ warm_up_loop cancelled use_type (suc i) ts errs c
      | some entry ↦ elim (resolve use_type t entry c) [
        | done r ↦ elim r.0 [
          | made v ↦ warm_up_loop cancelled use_type (suc i) ts errs r.1
          | error e ↦ warm_up_loop cancelled use_type (suc i) ts (errs ++ some e ∷ []) r.1
        ]
        | deadlock ↦ deadlock
        | out_of_fuel ↦ out_of_fuel
      ]
    ]

unfoldable pub warm_up : (ℕ → Bool) → Reflect → ℕ → Container → Run (List (Option ℕ) × Container)
unfolding pending warm_up_loop use_type
warm_up cancelled reflect fuel c =
    warm_up_loop cancelled (use_type reflect fuel) 0 (pending c.lazies) [] c
