-- ===== src/Container/Rollback.antt =====
-- container.go: the calls that `Start` makes, also where it fails.
use mathlib.Core.Path.{subst}
use kruda.Base.{
  ℕ, suc, ◌+◌, length, length-append, true, List, [], ◌∷◌, ◌++◌, Option, none, some, if◌then◌else◌,
  ◌≡◌, inl, inr, refl, ◌∙◌, ap, arith, append-nil, append_assoc, Bool-cases, Option-cases,
}
use kruda.Container.{Container}
use kruda.Container.Lifecycle.{
  Hooks, Call, on_init, on_shutdown, StartError, cancelled, init_failed, shut_back, start_loop,
  start_services, shutdown_calls,
}

-- The calls of OnInit for some services, in their order.
unfoldable pub init_calls : Hooks → List ℕ → List Call
init_calls hooks [] = []
init_calls hooks (s ∷ ss) =
    let rest = init_calls hooks ss in if hooks.is_initializer s then on_init s ∷ rest else rest

-- The services that `Start` passes from the position `i` on: the context lives before each, and the
-- OnInit of each that has it gives no error.
pub data Passed (hooks : Hooks) (ctx_err : ℕ → Option ℕ) : ℕ → List ℕ → Type 0 where
  nothing : (i : ℕ) → Passed hooks ctx_err i []
  service :
      (i x : ℕ) (xs : List ℕ)
      → ctx_err i ≡ none
      → (hooks.is_initializer x ≡ true → hooks.init_error x ≡ none)
      → Passed hooks ctx_err (suc i) xs
      → Passed hooks ctx_err i (x ∷ xs)

-- How `Start` ends: it passes every service, with a call of each OnInit; or it passes some, and the
-- context has ended before the next or its OnInit fails, with those passed shut down as `Shutdown` would
-- do it.
pub data Started (hooks : Hooks) (ctx_err : ℕ → Option ℕ) (order : List ℕ)
    : Option StartError × List Call → Type 0 where
  all : Passed hooks ctx_err 0 order → Started hooks ctx_err order (none, init_calls hooks order)
  stopped :
      (e : ℕ) (xs : List ℕ) (inst : ℕ) (ys : List ℕ)
      → order ≡ xs ++ inst ∷ ys
      → Passed hooks ctx_err 0 xs
      → ctx_err (length xs) ≡ some e
      → Started hooks ctx_err order
          (some (cancelled e), init_calls hooks xs ++ shutdown_calls hooks xs)
  broken :
      (e : ℕ) (xs : List ℕ) (inst : ℕ) (ys : List ℕ)
      → order ≡ xs ++ inst ∷ ys
      → Passed hooks ctx_err 0 xs
      → ctx_err (length xs) ≡ none
      → hooks.is_initializer inst ≡ true
      → hooks.init_error inst ≡ some e
      → Started hooks ctx_err order (
        some (init_failed inst e),
        (init_calls hooks xs ++ on_init inst ∷ []) ++ shutdown_calls hooks xs,
      )

shutdowners : Hooks → List ℕ → List ℕ
shutdowners hooks [] = []
shutdowners hooks (s ∷ ss) =
    let rest = shutdowners hooks ss in if hooks.is_shutdowner s then s ∷ rest else rest

module _ (hooks : Hooks) where
  shut_back-shutdowners : (xs : List ℕ) → shut_back (shutdowners hooks xs) ≡ shutdown_calls hooks xs
  unfolding shut_back shutdowners shutdown_calls
  shut_back-shutdowners [] = refl
  shut_back-shutdowners (x ∷ xs) = elim (Bool-cases (hooks.is_shutdowner x)) [
    | inl s ↦ rw (s) (ap (λ q. q ++ on_shutdown x ∷ []) (shut_back-shutdowners xs))
    | inr n ↦ rw (n) (shut_back-shutdowners xs)
  ]

  shutdowners-append :
      (xs : List ℕ) (x : ℕ)
      → shutdowners hooks (xs ++ x ∷ [])
        ≡ (if hooks.is_shutdowner x then shutdowners hooks xs ++ x ∷ [] else shutdowners hooks xs)
  unfolding shutdowners
  shutdowners-append [] x = ground arith
  shutdowners-append (y ∷ xs) x = ground (arith, shutdowners-append xs x)

  init_calls-append :
      (xs : List ℕ) (x : ℕ)
      → init_calls hooks (xs ++ x ∷ []) ≡ (
          if hooks.is_initializer x
          then init_calls hooks xs ++ on_init x ∷ []
          else init_calls hooks xs)
  unfolding init_calls
  init_calls-append [] x = ground arith
  init_calls-append (y ∷ xs) x = ground (arith, init_calls-append xs x)

  module _ (ctx_err : ℕ → Option ℕ) where
    Passed-snoc :
        {i : ℕ} {xs : List ℕ} (y : ℕ)
        → Passed hooks ctx_err i xs
        → ctx_err (i + length xs) ≡ none
        → (hooks.is_initializer y ≡ true → hooks.init_error y ≡ none)
        → Passed hooks ctx_err i (xs ++ y ∷ [])
    Passed-snoc y (nothing i) lives inits =
        service i y [] (subst (λ k. ctx_err k ≡ none) (omega arith) lives) inits (nothing (suc i))
    Passed-snoc y (service i x xs lives inits rest) here ok =
        service i x (xs ++ y ∷ []) lives inits
          (Passed-snoc y rest (subst (λ k. ctx_err k ≡ none) (omega arith) here) ok)

    -- What the loop does with the services left, from those that it has passed.
    LoopStarted : List ℕ → List ℕ → Type 0
    LoopStarted xs ys =
        Started hooks ctx_err (xs ++ ys)
          (start_loop hooks ctx_err (length xs) ys (shutdowners hooks xs) (init_calls hooks xs))

    next_round :
        (xs ys : List ℕ) (y : ℕ) (calls : List Call)
        → init_calls hooks (xs ++ y ∷ []) ≡ calls
        → LoopStarted (xs ++ y ∷ []) ys
        → Started hooks ctx_err (xs ++ y ∷ ys) (
            start_loop hooks ctx_err
              (suc (length xs))
              ys
              (if hooks.is_shutdowner y
                then shutdowners hooks xs ++ y ∷ []
                else shutdowners hooks xs)
              calls)
    unfolding LoopStarted
    next_round xs ys y calls e s =
        let one_more : length (xs ++ y ∷ []) ≡ suc (length xs) =
          length-append xs (y ∷ []) ∙ omega arith in
        rw (← append_assoc xs (y ∷ []) ys, ← e, ← shutdowners-append xs y, ← one_more) s

    start_loop-Started : (ys xs : List ℕ) → Passed hooks ctx_err 0 xs → LoopStarted xs ys
    unfolding start_loop LoopStarted
    start_loop-Started [] xs p = let e : xs ++ [] ≡ xs = append-nil xs in rw e (all p)
    start_loop-Started (y ∷ ys) xs p =
        let next : (lives : ctx_err (length xs) ≡ none)
            → (inits : hooks.is_initializer y ≡ true → hooks.init_error y ≡ none)
            → LoopStarted (xs ++ y ∷ []) ys =
          λ lives inits.
            start_loop-Started ys (xs ++ y ∷ [])
              (Passed-snoc y p (subst (λ k. ctx_err k ≡ none) (omega arith) lives) inits) in
        elim (Option-cases (ctx_err (length xs))) [
          | inr (e, f) ↦
              rw (f, start_loop) (rw (shut_back-shutdowners xs) (stopped e xs y ys refl p f))
          | inl f ↦ elim (Bool-cases (hooks.is_initializer y)) [
            | inr g ↦
                rw (f, g, start_loop)
                  (next_round xs ys y (init_calls hooks xs) (init_calls-append xs y ∙ rw g refl)
                    (next f (λ h. ground (arith, g, h))))
            | inl g ↦ elim (Option-cases (hooks.init_error y)) [
              | inl k ↦
                  rw (f, g, k, start_loop)
                    (next_round xs ys y (init_calls hooks xs ++ on_init y ∷ [])
                      (init_calls-append xs y ∙ rw g refl) (next f (λ _. k)))
              | inr (e, k) ↦
                  rw (f, g, k, start_loop)
                    (rw (shut_back-shutdowners xs) (broken e xs y ys refl p f g k))
            ]
          ]
        ]

    -- Start calls OnInit of the services in their order. It gives no error where the context lives
    -- before each and no OnInit fails; at the first service before which the context has ended, or whose
    -- OnInit fails, it stops with that error and makes for the services before exactly the calls that
    -- Shutdown makes, the last first.
    pub start_services-Started :
        (c : Container) → Started hooks ctx_err c.init_order (start_services hooks ctx_err c)
    unfolding start_services LoopStarted shutdowners init_calls
    start_services-Started c = start_loop-Started c.init_order [] (nothing 0)
