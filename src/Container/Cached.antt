-- ===== src/Container/Cached.antt =====
-- container.go: a lazy service is made once.
use mathlib.Core.Path.{subst}
use kruda.Base.{
  ℕ, suc, ◌≤◌, true, false, [], ◌∷◌, ◌++◌, none, some, ◌≡◌, ◌≢◌, inl, inr, refl, sym, ◌∙◌, ap,
  arith, Bool-cases, Option-cases,
}
use kruda.Container.{
  Reflect, Resolved, ok, failed, Types, type_entry, put_type, Lazy, Container, circular,
}
use kruda.Container.Use.{
  done, Used, Made, made, error, on_stack, pop_resolving, run_script, checked, outcome_of, settle,
  resolve, finish_use, use_lazy, use_with, use_type,
}
use kruda.Container.Kept.{
  free_factories, LockedIsResolving, Kept, Uses, pushed, push_resolving-new,
  push_resolving-circular, not_locked, locking-LockedIsResolving, pushed-free_lazy, Ends,
}
use kruda.Container.Total.{run_script-Ends, use_type-Uses}

type_entry-put_type {ℓ} :
    {V : Type ℓ} → (t : ℕ) (v : V) (m : Types V) → type_entry t (put_type t v m) ≡ some v
unfolding type_entry put_type
type_entry-put_type t v [] = ground arith
type_entry-put_type t v ((u, w) ∷ m) = ground (arith, type_entry-put_type t v m)

done_parts :
    (a b : Resolved) (c d : Container)
    → ◌≡◌ {A = Used} (done (a, c)) (done (b, d))
    → (a ≡ b) × (c ≡ d)
done_parts a b c d e = (cc, cc)

-- The container has a lazy type that is resolved, and gives the same service for it from now on.
Settled : Reflect → ℕ → ℕ → Container → Container → Type 0
Settled reflect t v c d =
    (entry : Lazy) × (w : ℕ) × (type_entry t d.lazies ≡ some entry)
    × (entry.instance ≡ some w)
    × (checked reflect t w ≡ ok v)
    × (d.singletons ≡ c.singletons)
    × (d.transients ≡ c.transients)

module _ (reflect : Reflect) (use_t : ℕ → Container → Used) (n : ℕ) (uses : Uses use_t n) where
  settle-Settled :
      (t v : ℕ) (entry : Lazy) (a : Made) (c d : Container)
      → Kept (record (pushed t c) { locked = t ∷ c.locked }) d
      → outcome_of reflect t (settle t entry (a, d)).0 ≡ ok v
      → Settled reflect t v c (pop_resolving (settle t entry (a, d)).1)
  unfolding Settled pop_resolving
  settle-Settled t v entry (error e) c d k o = absurd (ground arith)
  settle-Settled t v entry (made w) c d k o = (
    record entry { instance = some w },
    w,
    type_entry-put_type t (record entry { instance = some w }) d.lazies,
    refl,
    o,
    k.singletons,
    k.transients,
  )

  use_lazy-Settled_set :
      (t v w : ℕ) (entry : Lazy) (c d : Container)
      → type_entry t c.lazies ≡ some entry
      → entry.instance ≡ some w
      → use_lazy reflect use_t t entry c ≡ done (ok v, d)
      → Settled reflect t v c d
  unfolding Settled use_lazy
  use_lazy-Settled_set t v w entry c d there set used =
      let e : use_lazy reflect use_t t entry c ≡ done (checked reflect t w, c) =
        rw (set, use_lazy) refl in
      let (o, same) = done_parts (checked reflect t w) (ok v) c d (sym e ∙ used) in
      subst (Settled reflect t v c) same (entry, w, there, set, o, refl, refl)

  use_lazy-circular :
      (t v : ℕ) (entry : Lazy) (c d : Container)
      → entry.instance ≡ none
      → on_stack t c.resolving ≡ true
      → use_lazy reflect use_t t entry c ≢ done (ok v, d)
  unfolding use_lazy
  use_lazy-circular t v entry c d fresh on used =
      let error = failed (circular (c.resolving ++ t ∷ [])) in
      let e : use_lazy reflect use_t t entry c ≡ done (error, c) =
        rw (fresh, push_resolving-circular t c on, use_lazy) refl in
      let (o, same) = done_parts error (ok v) c d (sym e ∙ used) in absurd (ground arith)

  resolve-settle :
      (t : ℕ) (entry : Lazy) (a : Made) (c d : Container)
      → on_stack t c.locked ≡ false
      → entry.instance ≡ none
      → run_script use_t entry.factory.num_out entry.factory.body
          (record (pushed t c) { locked = t ∷ c.locked })
        ≡ done (a, d)
      → resolve use_t t entry (pushed t c) ≡ done (settle t entry (a, d))
  unfolding resolve
  resolve-settle t entry a c d unlocked fresh e = rw (unlocked, fresh, e, resolve) refl

  use_lazy-Settled_new :
      (t v : ℕ) (entry : Lazy) (c d : Container)
      → type_entry t c.lazies ≡ some entry
      → entry.instance ≡ none
      → on_stack t c.resolving ≡ false
      → LockedIsResolving c
      → free_factories c ≤ n
      → use_lazy reflect use_t t entry c ≡ done (ok v, d)
      → Settled reflect t v c d
  unfolding use_lazy Ends free_factories
  use_lazy-Settled_new t v entry c d there fresh new l le used =
      let (a, d', e, k) =
        run_script-Ends reflect use_t n uses entry.factory.num_out entry.factory.body
          (record (pushed t c) { locked = t ∷ c.locked }) (locking-LockedIsResolving t c l)
          (omega (arith, pushed-free_lazy t entry c new there)) in
      let settled = settle t entry (a, d') in
      let resolved = resolve-settle t entry a c d' (not_locked t c l new) fresh e in
      let eq : use_lazy reflect use_t t entry c
          ≡ done (outcome_of reflect t settled.0, pop_resolving settled.1) =
        rw (fresh, push_resolving-new t c new, use_lazy) (ap (finish_use reflect t) resolved) in
      let (o, same) =
        done_parts (outcome_of reflect t settled.0) (ok v) (pop_resolving settled.1) d
          (sym eq ∙ used) in
      subst (Settled reflect t v c) same (settle-Settled t v entry a c d' k o)

  use_lazy-Settled :
      (t v : ℕ) (entry : Lazy) (c d : Container)
      → type_entry t c.lazies ≡ some entry
      → LockedIsResolving c
      → free_factories c ≤ n
      → use_lazy reflect use_t t entry c ≡ done (ok v, d)
      → Settled reflect t v c d
  use_lazy-Settled t v entry c d there l le used = elim (Option-cases entry.instance) [
    | inr (w, set) ↦ use_lazy-Settled_set t v w entry c d there set used
    | inl fresh ↦ elim (Bool-cases (on_stack t c.resolving)) [
      | inl on ↦ absurd (use_lazy-circular t v entry c d fresh on used)
      | inr new ↦ use_lazy-Settled_new t v entry c d there fresh new l le used
    ]
  ]

use_with-lazy :
    (reflect : Reflect) (use_t : ℕ → Container → Used) (t : ℕ) (entry : Lazy) (c : Container)
    → type_entry t c.singletons ≡ none
    → type_entry t c.transients ≡ none
    → type_entry t c.lazies ≡ some entry
    → use_with reflect use_t t c ≡ use_lazy reflect use_t t entry c
unfolding use_with
use_with-lazy reflect use_t t entry c e f g = rw (e, f, g, use_with) refl

use_lazy-instance :
    (reflect : Reflect) (use_t : ℕ → Container → Used) (t w : ℕ) (entry : Lazy) (c : Container)
    → entry.instance ≡ some w
    → use_lazy reflect use_t t entry c ≡ done (checked reflect t w, c)
unfolding use_lazy
use_lazy-instance reflect use_t t w entry c e = rw (e, use_lazy) refl

-- A lazy type that is neither a singleton nor a transient, where the goroutine holds the mutexes of
-- types on its stack only: once Use has given a service for it, every later Use on the container left
-- gives the same service, and neither runs a factory nor changes the container.
pub use_type-cached :
    (reflect : Reflect) (t v fuel : ℕ) (entry : Lazy) (c d : Container)
    → LockedIsResolving c
    → type_entry t c.singletons ≡ none
    → type_entry t c.transients ≡ none
    → type_entry t c.lazies ≡ some entry
    → use_type reflect (suc (free_factories c)) t c ≡ done (ok v, d)
    → use_type reflect (suc fuel) t d ≡ done (ok v, d)
unfolding use_type Settled
use_type-cached reflect t v fuel entry c d l e f g used =
    let n = free_factories c in
    let used' : use_lazy reflect (use_type reflect n) t entry c ≡ done (ok v, d) =
      sym (use_with-lazy reflect (use_type reflect n) t entry c e f g) ∙ used in
    let (entry', w, there, set, o, s, r) =
      use_lazy-Settled reflect (use_type reflect n) n (use_type-Uses reflect n) t v entry c d g l
        (omega arith) used' in
    use_with-lazy reflect (use_type reflect fuel) t entry' d (ap (type_entry t) s ∙ e)
      (ap (type_entry t) r ∙ f) there
    ∙ use_lazy-instance reflect (use_type reflect fuel) t w entry' d set
    ∙ ap (λ x. done (x, d)) o
