-- ===== src/Container/Lifecycle.antt =====
-- container.go: `Start` and `Shutdown`. What the services do is a parameter; their calls are recorded.
use kruda.Base.{ℕ, suc, Bool, List, [], ◌∷◌, ◌++◌, Option, none, some, if◌then◌else◌}
use kruda.Container.{Container}

-- Which services implement Initializer and Shutdowner, and the errors of their methods.
pub record Hooks : Type 0 where
  pub is_initializer : ℕ → Bool
  pub is_shutdowner : ℕ → Bool
  pub init_error : ℕ → Option ℕ
  pub shutdown_error : ℕ → Option ℕ

pub data Call : Type 0 where
  on_init on_shutdown : ℕ → Call

pub data StartError : Type 0 where
  cancelled : ℕ → StartError
  init_failed : ℕ → ℕ → StartError

-- `for i := len(initialized) - 1; i >= 0; i-- { _ = initialized[i].OnShutdown(ctx) }`.
unfoldable pub shut_back : List ℕ → List Call
shut_back [] = []
shut_back (s ∷ ss) = shut_back ss ++ on_shutdown s ∷ []

-- The loop of `Start` from the service `i` on; `ctx_err` is the context's error before each.
unfoldable pub start_loop :
    Hooks → (ℕ → Option ℕ) → ℕ → List ℕ → List ℕ → List Call → Option StartError × List Call
unfolding shut_back
start_loop hooks ctx_err i [] initialized calls = (none, calls)
start_loop hooks ctx_err i (inst ∷ order) initialized calls =
    let initialized' = if hooks.is_shutdowner inst then initialized ++ inst ∷ [] else initialized in
    let plain = start_loop hooks ctx_err (suc i) order initialized' calls in
    let inited = start_loop hooks ctx_err (suc i) order initialized' (calls ++ on_init inst ∷ []) in
    elim (ctx_err i) [
      | some e ↦ (some (cancelled e), calls ++ shut_back initialized)
      | none ↦
          if hooks.is_initializer inst
          then elim (hooks.init_error inst) [
            | some e ↦
                (some (init_failed inst e), (calls ++ on_init inst ∷ []) ++ shut_back initialized)
            | none ↦ inited
          ]
          else plain
    ]

unfoldable pub start_services : Hooks → (ℕ → Option ℕ) → Container → Option StartError × List Call
unfolding start_loop
start_services hooks ctx_err c = start_loop hooks ctx_err 0 c.init_order [] []

-- The calls of `Shutdown`, from the last service on.
unfoldable pub shutdown_calls : Hooks → List ℕ → List Call
shutdown_calls hooks [] = []
shutdown_calls hooks (s ∷ ss) =
    let later = shutdown_calls hooks ss in
    if hooks.is_shutdowner s then later ++ on_shutdown s ∷ [] else later

unfoldable pub shutdown_errors : Hooks → List ℕ → List ℕ
shutdown_errors hooks [] = []
shutdown_errors hooks (s ∷ ss) =
    let later = shutdown_errors hooks ss in
    if hooks.is_shutdowner s
    then elim (hooks.shutdown_error s) [ none ↦ later | some e ↦ later ++ e ∷ [] ]
    else later

unfoldable pub shutdown : Hooks → Container → List ℕ × List Call
unfolding shutdown_errors shutdown_calls
shutdown hooks c = (shutdown_errors hooks c.init_order, shutdown_calls hooks c.init_order)
