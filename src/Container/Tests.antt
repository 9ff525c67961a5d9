-- ===== src/Container/Tests.antt =====
-- Runs of the container on concrete services, and its theorems at concrete inputs.
use kruda.Base.{
  ℕ, suc, ◌+◌, true, false, List, [], ◌∷◌, Option, none, some, ◌≡◌, refl, codes, ◌==◌,
  if◌then◌else◌,
}
use kruda.Container.{
  Reflect, Resolved, ok, failed, Script, returns, resolves, Factory, Container, new_container,
  type_entry, factory_failed,
}
use kruda.Container.Use.{Run, done, deadlock, out_of_fuel, use_type, warm_up}
use kruda.Container.Kept.{free_factories, LockedIsResolving, Ends}
use kruda.Container.Total.{use_type-Ends}
use kruda.Container.Lifecycle.{Hooks, start_services}
use kruda.Container.Rollback.{Started, start_services-Started}
use kruda.Container.Cached.{use_type-cached}
use kruda.Container.Registered.{
  Registration, singleton, lazy, transient, by_name, register_all, OnePlace, register_all-OnePlace,
  register_all-LockedIsResolving,
}

abbrev reflect : Reflect
reflect = record { type_of = λ i. i; is_a = λ i t. true; is_error = λ t. true }

abbrev factory : ℕ → Script → Factory
factory t body = record { is_func = true; num_in = 0; outs = t ∷ 0 ∷ []; body = body }

-- A factory that needs another type, and fails with 7 where it does not get it.
abbrev needs : ℕ → ℕ → Script
needs t v = resolves t (λ o. elim o [ ok w ↦ returns v none | failed e ↦ returns 0 (some 7) ])

-- The types 1 and 2 need each other, 3 needs nothing, and 4 is registered twice.
abbrev services : List Registration
services =
    lazy (factory 1 (needs 2 11))
    ∷ lazy (factory 2 (needs 1 12))
    ∷ lazy (factory 3 (returns 13 none))
    ∷ singleton (some 4)
    ∷ transient (factory 4 (needs 3 14))
    ∷ by_name (codes "db") (some 5)
    ∷ []

abbrev container : Container
container = register_all reflect services new_container

container-LockedIsResolving : LockedIsResolving container
container-LockedIsResolving = register_all-LockedIsResolving reflect services

register_all-OnePlace_example : OnePlace (register_all reflect services new_container)
register_all-OnePlace_example = register_all-OnePlace reflect services

use_type-Ends_example : Ends container (use_type reflect (free_factories container + 1) 1 container)
use_type-Ends_example = use_type-Ends reflect 1 container container-LockedIsResolving

abbrev three : Container
three = register_all reflect (lazy (factory 3 (returns 13 none)) ∷ []) new_container

three-LockedIsResolving : LockedIsResolving three
three-LockedIsResolving =
    register_all-LockedIsResolving reflect (lazy (factory 3 (returns 13 none)) ∷ [])

abbrev after_use : Run (Resolved × Container) → Container
after_use (done (o, c)) = c
after_use deadlock = three
after_use out_of_fuel = three

use_type-cached_example :
    use_type reflect 1 3 (after_use (use_type reflect (suc (free_factories three)) 3 three))
    ≡ done (ok 13, after_use (use_type reflect (suc (free_factories three)) 3 three))
unfolding register_all type_entry kruda.Container.give_lazy kruda.Container.put_type use_type
use_type-cached_example =
    use_type-cached reflect 3 13 0
      (record { factory = record { body = returns 13 none; num_out = 2 }; instance = none }) three
      (after_use (use_type reflect (suc (free_factories three)) 3 three)) three-LockedIsResolving
      refl refl refl refl

abbrev hooks : Hooks
hooks = record {
  is_initializer = λ i. true;
  is_shutdowner = λ i. true;
  init_error = λ i. if i == 5 then some 1 else none;
  shutdown_error = λ i. none;
}

start_services-Started_example :
    Started hooks (λ i. none) container.init_order (start_services hooks (λ i. none) container)
start_services-Started_example = start_services-Started hooks (λ i. none) container

-- Use finds the cycle of a factory that needs its own type. Warmup, which does not push the type,
-- waits for the mutex that it holds.
abbrev selfish : Container
selfish = register_all reflect (lazy (factory 1 (needs 1 11)) ∷ []) new_container

abbrev outcome : Run (Resolved × Container) → Option Resolved
outcome (done (o, c)) = some o
outcome deadlock = none
outcome out_of_fuel = none

cycle_found : outcome (use_type reflect 3 1 selfish) ≡ some (failed (factory_failed 1 7))
unfolding use_type register_all kruda.Container.give_lazy
cycle_found = refl

warm_up_deadlock : warm_up (λ i. false) reflect 3 selfish ≡ deadlock
unfolding warm_up register_all kruda.Container.give_lazy
warm_up_deadlock = refl
