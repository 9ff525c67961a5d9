-- ===== src/Container/Total.antt =====
-- container.go: `Use` comes to an end, and leaves the stack and the mutexes as it found them.
use kruda.Base.{
  ℕ, zero, suc, ◌+◌, ◌≤◌, ◌<◌, false, [], ◌∷◌, ◌++◌, none, some, ◌≡◌, refl, ap, arith, inl, inr,
  Bool-cases, Option-cases,
}
use kruda.Container.{
  Reflect, no_provider, circular, failed, Script, returns, resolves, Wrapped, Lazy, type_entry,
  Container,
}
use kruda.Container.Use.{
  Run, Used, Made, on_stack, pop_resolving, wrapped, run_script, checked, outcome_of, settle,
  resolve, finish_use, use_transient, use_lazy, use_with, use_type,
}
use kruda.Container.Kept.{
  free_factories, LockedIsResolving, type_entry-types_of, Kept-refl, Kept-trans,
  Kept-free_factories, Kept-LockedIsResolving, Ends, Uses, pushed, push_resolving-new,
  push_resolving-circular, pushed-LockedIsResolving, locking-LockedIsResolving,
  pushed-free_transient, pushed-free_lazy, pop-Kept, settle-Kept, ends_here, not_locked,
}

module _ (reflect : Reflect) (use_t : ℕ → Container → Used) (n : ℕ) (uses : Uses use_t n) where
  pub run_script-Ends :
      (num_out : ℕ) (s : Script) (c : Container)
      → LockedIsResolving c
      → free_factories c < n
      → Ends c (run_script use_t num_out s c)
  unfolding run_script Ends Uses
  run_script-Ends num_out (returns v err) c l lt = (wrapped num_out v err, c, refl, Kept-refl c)
  run_script-Ends num_out (resolves t k) c l lt =
      let (o, d, e, kept) = uses t c l lt in
      let (a, d', e', kept') =
        run_script-Ends num_out (k o) d (Kept-LockedIsResolving c d kept l)
          (rw (Kept-free_factories c d kept) lt) in
      (a, d', rw (e, run_script) e', Kept-trans c d d' kept kept')

  finish_use-Ends :
      (t : ℕ) (c : Container) (r : Run (Made × Container))
      → Ends (pushed t c) r
      → Ends c (finish_use reflect t r)
  unfolding Ends
  finish_use-Ends t c r (a, d, e, k) =
      (outcome_of reflect t a, pop_resolving d, ap (finish_use reflect t) e, pop-Kept t c d k)

  use_transient-Ends :
      (t : ℕ) (entry : Wrapped) (c : Container)
      → type_entry t c.transients ≡ some entry
      → LockedIsResolving c
      → free_factories c ≤ n
      → Ends c (use_transient reflect use_t t entry c)
  unfolding use_transient
  use_transient-Ends t entry c there l le = elim (Bool-cases (on_stack t c.resolving)) [
    | inl on ↦
        rw (push_resolving-circular t c on, use_transient)
          (ends_here c (failed (circular (c.resolving ++ t ∷ []))))
    | inr new ↦
        rw (push_resolving-new t c new, use_transient)
          (finish_use-Ends t c (run_script use_t entry.num_out entry.body (pushed t c)) (
            run_script-Ends entry.num_out entry.body (pushed t c) (pushed-LockedIsResolving t c l)
              (omega (arith, pushed-free_transient t entry c new there))))
  ]

  resolve-Ends :
      (t : ℕ) (entry : Lazy) (c : Container)
      → on_stack t c.resolving ≡ false
      → type_entry t c.lazies ≡ some entry
      → entry.instance ≡ none
      → LockedIsResolving c
      → free_factories c ≤ n
      → Ends (pushed t c) (resolve use_t t entry (pushed t c))
  unfolding resolve Ends free_factories
  resolve-Ends t entry c new there fresh l le =
      let unlocked : on_stack t c.locked ≡ false = not_locked t c l new in
      let locking = record (pushed t c) { locked = t ∷ c.locked } in
      let (a, d, e, k) =
        run_script-Ends entry.factory.num_out entry.factory.body locking
          (locking-LockedIsResolving t c l) (omega (arith, pushed-free_lazy t entry c new there)) in
      (
        (settle t entry (a, d)).0,
        (settle t entry (a, d)).1,
        rw (unlocked, fresh, e, resolve) refl,
        settle-Kept t entry (pushed t c) d a (type_entry-types_of t entry c.lazies there) k,
      )

  use_lazy-Ends :
      (t : ℕ) (entry : Lazy) (c : Container)
      → type_entry t c.lazies ≡ some entry
      → LockedIsResolving c
      → free_factories c ≤ n
      → Ends c (use_lazy reflect use_t t entry c)
  unfolding use_lazy
  use_lazy-Ends t entry c there l le = elim (Option-cases entry.instance) [
    | inr (v, set) ↦ rw (set, use_lazy) (ends_here c (checked reflect t v))
    | inl fresh ↦ elim (Bool-cases (on_stack t c.resolving)) [
      | inl on ↦
          rw (fresh, push_resolving-circular t c on, use_lazy)
            (ends_here c (failed (circular (c.resolving ++ t ∷ []))))
      | inr new ↦
          rw (fresh, push_resolving-new t c new, use_lazy)
            (finish_use-Ends t c (resolve use_t t entry (pushed t c))
              (resolve-Ends t entry c new there fresh l le))
    ]
  ]

  use_with-Ends :
      (t : ℕ) (c : Container)
      → LockedIsResolving c
      → free_factories c ≤ n
      → Ends c (use_with reflect use_t t c)
  unfolding use_with
  use_with-Ends t c l le = elim (Option-cases (type_entry t c.singletons)) [
    | inr (v, e) ↦ rw (e, use_with) (ends_here c (checked reflect t v))
    | inl e ↦ elim (Option-cases (type_entry t c.transients)) [
      | inr (entry, f) ↦ rw (e, f, use_with) (use_transient-Ends t entry c f l le)
      | inl f ↦ elim (Option-cases (type_entry t c.lazies)) [
        | inr (entry, g) ↦ rw (e, f, g, use_with) (use_lazy-Ends t entry c g l le)
        | inl g ↦ rw (e, f, g, use_with) (ends_here c (failed no_provider))
      ]
    ]
  ]

pub use_type-Uses : (reflect : Reflect) (fuel : ℕ) → Uses (use_type reflect fuel) fuel
unfolding use_type Uses
use_type-Uses reflect zero t c l lt = absurd (omega (arith, lt))
use_type-Uses reflect (suc fuel) t c l lt =
    use_with-Ends reflect (use_type reflect fuel) fuel (use_type-Uses reflect fuel) t c l
      (omega (arith, lt))

-- Where the goroutine holds the mutexes of types on its stack only, Use comes to a service or an
-- error, whatever the factories resolve and however they depend on each other: it never waits for
-- itself, and one round more than there are factories left to run is enough. Behind it the stack, the
-- mutexes, the singletons, the transients and the lazy types are as before.
pub use_type-Ends :
    (reflect : Reflect) (t : ℕ) (c : Container)
    → LockedIsResolving c
    → Ends c (use_type reflect (free_factories c + 1) t c)
unfolding Uses
use_type-Ends reflect t c l = use_type-Uses reflect (free_factories c + 1) t c l (omega arith)
