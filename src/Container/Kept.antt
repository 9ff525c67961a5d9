-- ===== src/Container/Kept.antt =====
-- container.go: what Use keeps of a container, and the factories that it has left to run.
use mathlib.Core.Path.{subst}
use kruda.Base.{
  ℕ, suc, ◌+◌, ◌≤◌, ◌<◌, true, false, ◌||◌, List, [], ◌∷◌, ◌++◌, none, some, if◌then◌else◌, ◌==◌,
  ◌≡◌, refl, sym, ◌∙◌, ap, arith, inl, inr, Bool-cases,
}
use kruda.Container.{circular, Wrapped, Lazy, Types, type_entry, put_type, Container}
use kruda.Container.Use.{
  Run, done, Used, Made, made, error, on_stack, without_last, push_resolving, pop_resolving, unlock,
  settle,
}

abbrev pub types_of {ℓ} : {V : Type ℓ} → Types V → List ℕ
types_of [] = []
types_of ((t, v) ∷ m) = t ∷ types_of m

-- How many of the types are not on a stack.
unfoldable pub free_in : List ℕ → List ℕ → ℕ
unfolding on_stack
free_in stack [] = 0
free_in stack (t ∷ ts) = let rest = free_in stack ts in if on_stack t stack then rest else suc rest

-- The factories that `Use` can still run below the ones that are running.
unfoldable pub free_factories : Container → ℕ
free_factories c =
    free_in c.resolving (types_of c.transients) + free_in c.resolving (types_of c.lazies)

-- Each mutex that the goroutine holds is that of a type on its stack.
unfoldable pub LockedIsResolving : Container → Type 0
LockedIsResolving c = (t : ℕ) → on_stack t c.locked ≡ true → on_stack t c.resolving ≡ true

-- What no call of `Use` changes in the end.
pub record Kept (c d : Container) : Type 0 where
  pub singletons : d.singletons ≡ c.singletons
  pub resolving : d.resolving ≡ c.resolving
  pub locked : d.locked ≡ c.locked
  pub transients : d.transients ≡ c.transients
  pub lazies : types_of d.lazies ≡ types_of c.lazies

pub on_stack-append :
    (t u : ℕ) (stack : List ℕ) → on_stack t (stack ++ u ∷ []) ≡ (on_stack t stack || u == t)
unfolding on_stack
on_stack-append t u [] = ground arith
on_stack-append t u (s ∷ ss) = ground (arith, on_stack-append t u ss)

pub without_last-append : (stack : List ℕ) (t : ℕ) → without_last (stack ++ t ∷ []) ≡ stack
unfolding without_last
without_last-append [] t = refl
without_last-append (s ∷ []) t = refl
without_last-append (s ∷ u ∷ ss) t = ap (λ q. s ∷ q) (without_last-append (u ∷ ss) t)

pub free_in-append_le :
    (u : ℕ) (stack ts : List ℕ) → free_in (stack ++ u ∷ []) ts ≤ free_in stack ts
unfolding free_in
free_in-append_le u stack [] = omega arith
free_in-append_le u stack (t ∷ ts) =
    ground (arith, on_stack-append t u stack, free_in-append_le u stack ts)

pub free_in-append_lt :
    (u : ℕ) (stack ts : List ℕ)
    → on_stack u stack ≡ false
    → on_stack u ts ≡ true
    → free_in (stack ++ u ∷ []) ts < free_in stack ts
unfolding free_in on_stack
free_in-append_lt u stack [] new there = absurd (ground arith)
free_in-append_lt u stack (t ∷ ts) new there = elim (Bool-cases (t == u)) [
  | inl same ↦
      let e : t ≡ u = ground (arith, same) in
      let self : (on_stack u stack || u == u) ≡ true = ground arith in
      let top : on_stack t (stack ++ u ∷ []) ≡ true =
        subst (λ x. on_stack x (stack ++ u ∷ []) ≡ true) (sym e)
          (on_stack-append u u stack ∙ self) in
      ground (
        arith,
        top,
        subst (λ x. on_stack x stack ≡ false) (sym e) new,
        free_in-append_le u stack ts,
      )
  | inr other ↦ ground (
    arith,
    on_stack-append t u stack,
    other,
    free_in-append_lt u stack ts new (ground (arith, there, other)),
  )
]

pub type_entry-types_of {ℓ} :
    {V : Type ℓ}
    → (t : ℕ) (v : V) (m : Types V) → type_entry t m ≡ some v
    → on_stack t (types_of m) ≡ true
unfolding type_entry on_stack
type_entry-types_of t v [] e = absurd (ground arith)
type_entry-types_of t v ((u, w) ∷ m) e = ground (arith, e, type_entry-types_of t v m)

pub types_of-put_type {ℓ} :
    {V : Type ℓ}
    → (t : ℕ) (v : V) (m : Types V) → on_stack t (types_of m) ≡ true
    → types_of (put_type t v m) ≡ types_of m
unfolding put_type on_stack
types_of-put_type t v [] e = absurd (ground arith)
types_of-put_type t v ((u, w) ∷ m) e = elim (Bool-cases (u == t)) [
  | inl same ↦ let eq : u ≡ t = ground (arith, same) in rw same (ap (λ x. x ∷ types_of m) (sym eq))
  | inr other ↦ rw other (ap (λ q. u ∷ q) (types_of-put_type t v m (ground (arith, e, other))))
]

pub Kept-refl : (c : Container) → Kept c c
Kept-refl c = record {
  singletons = refl;
  resolving = refl;
  locked = refl;
  transients = refl;
  lazies = refl;
}

pub Kept-trans : (c d e : Container) → Kept c d → Kept d e → Kept c e
Kept-trans c d e k l = record {
  singletons = l.singletons ∙ k.singletons;
  resolving = l.resolving ∙ k.resolving;
  locked = l.locked ∙ k.locked;
  transients = l.transients ∙ k.transients;
  lazies = l.lazies ∙ k.lazies;
}

pub Kept-free_factories : (c d : Container) → Kept c d → free_factories d ≡ free_factories c
unfolding free_factories
Kept-free_factories c d k = rw (k.resolving, k.transients, k.lazies) refl

pub Kept-LockedIsResolving :
    (c d : Container) → Kept c d → LockedIsResolving c → LockedIsResolving d
unfolding LockedIsResolving
Kept-LockedIsResolving c d k l t e =
    subst (λ s. on_stack t s ≡ true) (sym k.resolving)
      (l t (subst (λ s. on_stack t s ≡ true) k.locked e))

-- A call comes to an end with the container kept.
unfoldable pub Ends : {A : Type 0} → Container → Run (A × Container) → Type 0
Ends {A} c r = (a : A) × (d : Container) × (r ≡ done (a, d)) × Kept c d

-- So do all calls of `Use` with fewer than `n` factories left to run.
unfoldable pub Uses : (ℕ → Container → Used) → ℕ → Type 0
Uses use_t n =
    (t : ℕ) (c : Container) → LockedIsResolving c → free_factories c < n → Ends c (use_t t c)

abbrev pub pushed : ℕ → Container → Container
pushed t c = record c { resolving = c.resolving ++ t ∷ [] }

pub push_resolving-new :
    (t : ℕ) (c : Container)
    → on_stack t c.resolving ≡ false
    → push_resolving t c ≡ (none, pushed t c)
unfolding push_resolving
push_resolving-new t c e = rw (e, push_resolving) refl

pub push_resolving-circular :
    (t : ℕ) (c : Container)
    → on_stack t c.resolving ≡ true
    → push_resolving t c ≡ (some (circular (c.resolving ++ t ∷ [])), c)
unfolding push_resolving
push_resolving-circular t c e = rw (e, push_resolving) refl

pub pushed-LockedIsResolving :
    (t : ℕ) (c : Container) → LockedIsResolving c → LockedIsResolving (pushed t c)
unfolding LockedIsResolving
pushed-LockedIsResolving t c l u e =
    let old = l u e in ground (arith, on_stack-append u t c.resolving, old)

pub locking-LockedIsResolving :
    (t : ℕ) (c : Container)
    → LockedIsResolving c
    → LockedIsResolving (record (pushed t c) { locked = t ∷ c.locked })
unfolding LockedIsResolving on_stack
locking-LockedIsResolving t c l u e = ground (arith, on_stack-append u t c.resolving, l u, e)

pub pushed-free_transient :
    (t : ℕ) (entry : Wrapped) (c : Container)
    → on_stack t c.resolving ≡ false
    → type_entry t c.transients ≡ some entry
    → free_factories (pushed t c) < free_factories c
unfolding free_factories
pushed-free_transient t entry c new e = omega (
  arith,
  free_in-append_lt t c.resolving (types_of c.transients) new
      (type_entry-types_of t entry c.transients e),
  free_in-append_le t c.resolving (types_of c.lazies),
)

pub pushed-free_lazy :
    (t : ℕ) (entry : Lazy) (c : Container)
    → on_stack t c.resolving ≡ false
    → type_entry t c.lazies ≡ some entry
    → free_factories (pushed t c) < free_factories c
unfolding free_factories
pushed-free_lazy t entry c new e = omega (
  arith,
  free_in-append_lt t c.resolving (types_of c.lazies) new (type_entry-types_of t entry c.lazies e),
  free_in-append_le t c.resolving (types_of c.transients),
)

pub pop-Kept : (t : ℕ) (c d : Container) → Kept (pushed t c) d → Kept c (pop_resolving d)
unfolding pop_resolving
pop-Kept t c d k = record {
  singletons = k.singletons;
  resolving = ap without_last k.resolving ∙ without_last-append c.resolving t;
  locked = k.locked;
  transients = k.transients;
  lazies = k.lazies;
}

pub settle-Kept :
    (t : ℕ) (entry : Lazy) (c d : Container) (a : Made)
    → on_stack t (types_of c.lazies) ≡ true
    → Kept (record c { locked = t ∷ c.locked }) d
    → Kept c (settle t entry (a, d)).1
settle-Kept t entry c d (error e) there k = record {
  singletons = k.singletons;
  resolving = k.resolving;
  locked = ap unlock k.locked;
  transients = k.transients;
  lazies = k.lazies;
}
settle-Kept t entry c d (made v) there k = record {
  singletons = k.singletons;
  resolving = k.resolving;
  locked = ap unlock k.locked;
  transients = k.transients;
  lazies =
      types_of-put_type t (record entry { instance = some v }) d.lazies
        (subst (λ ts. on_stack t ts ≡ true) (sym k.lazies) there)
      ∙ k.lazies;
}

pub ends_here : {A : Type 0} → (c : Container) (a : A) → Ends c (done (a, c))
unfolding Ends
ends_here c a = (a, c, refl, Kept-refl c)

pub not_locked :
    (t : ℕ) (c : Container)
    → LockedIsResolving c
    → on_stack t c.resolving ≡ false
    → on_stack t c.locked ≡ false
unfolding LockedIsResolving
not_locked t c l new = elim (Bool-cases (on_stack t c.locked)) [
  | inl e ↦ let old = l t e in absurd (ground (arith, old, new))
  | inr e ↦ e
]
