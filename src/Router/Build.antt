-- ===== src/Router/Build.antt =====
-- Registering a route either succeeds or panics; a panic ends the registration, and `kruda` builds
-- its routes before it serves, so no state is kept behind one. Regular expressions are those of the
-- standard library's regexp package, taken as a parameter.
use kruda.Base.{Bool, true, false, ◌≡◌, refl, Bytes}

pub data Panic : Type 0 where
  compiled_router bad_prefix duplicate_route wildcard_unnamed wildcard_not_last : Panic
  invalid_regex unsafe_regex regex_compile slice_bounds route_conflict index_range : Panic
  out_of_fuel : Panic

pub data Build {ℓ} (A : Type ℓ) : Type ℓ where
  ok : A → Build A
  panic : Panic → Build A

infixl 5 ◌>>=◌ ◌>>◌
abbrev pub ◌>>=◌ {ℓ κ} : {A : Type ℓ} {B : Type κ} → Build A → (A → Build B) → Build B
ok a >>= f = f a
panic e >>= f = panic e

abbrev pub ◌>>◌ {ℓ} : {B : Type ℓ} → Build (Unit {0}) → Build B → Build B
m >> k = m >>= λ _. k

abbrev pub panic_if : Bool → Panic → Build (Unit {0})
panic_if true e = panic e
panic_if false e = ok tt

-- `regexp.MustCompile` panics where `compiles` is false; `matches` is `MatchString`.
pub record RegexEngine : Type 0 where
  pub compiles : Bytes → Bool
  pub matches : Bytes → Bytes → Bool

pub bind-eq-ok {ℓ κ} :
    {A : Type ℓ} {B : Type κ} (m : Build A) (f : A → Build B) {b : B}
    → (m >>= f) ≡ ok b
    → (a : A) × (m ≡ ok a) × (f a ≡ ok b)
bind-eq-ok (ok a) f h = (a, refl, h)
bind-eq-ok (panic e) f h = cc

pub panic_if-eq-ok : (b : Bool) (e : Panic) → panic_if b e ≡ ok tt → b ≡ false
panic_if-eq-ok true e h = cc
panic_if-eq-ok false e h = refl
