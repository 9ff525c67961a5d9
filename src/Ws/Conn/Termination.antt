-- ===== src/Ws/Conn/Termination.antt =====
-- contrib/ws/conn.go: results for which the fuel was enough.
pub mod Operations
use kruda.Base.{
  ℕ, zero, suc, ◌+◌, ◌≤◌, ◌<◌, ◌≡◌, refl, arith, Bool, true, false, not, ◌&&◌, ◌||◌, List, [], ◌∷◌,
  ◌++◌, if◌then◌else◌, ltb, leb, ◌==◌, Bytes, codes, length, Bool-cases, inl, inr,
}
use kruda.Ws.Frame as F
use kruda.Ws.Frame.{Frame, read_frame, write_frame}
use kruda.Ws.Frame.Sound.{Result-cases}
use kruda.Ws.Frame.Progress.{read_frame-lt}
use kruda.Ws.Close.{
  CloseCheck, accepted, failed, validate_close_payload, close_protocol_error, close_invalid_payload,
}
use kruda.Ws.Conn.{
  Env, Conn, ConnError, Outcome, M, and_then, ◌>>◌, ◌>>=◌, return, fail_with, done, fail,
  frame_error, unmasked_frame, eof, lone_continuation, message_too_big, invalid_utf8,
  ping_rate_exceeded, write_failed, out_of_fuel, continuation_expected, unknown_control,
  close_error, close_policy_violation, close_message_too_big, text_message, send, try_send, close,
  next_frame, require_mask, read_client_frame, ping_window, count_ping, echo_close, close_reason,
  take_close, handle_control, control, finish_message, join_fragment, read_fragments,
  close_oversize, is_oversize, read_first, start_message, read_messages, read_message,
}

abbrev pub is_starved : ConnError → Bool
is_starved out_of_fuel = true
is_starved _ = false

abbrev pub starved : {A : Type 0} → Outcome A → Bool
starved (fail e) = is_starved e
starved (done a) = false

abbrev pub is_done : {A : Type 0} → Outcome A → Bool
is_done (done a) = true
is_done (fail e) = false

-- The fuel was enough, and where there is a result the reader holds fewer than `n` bytes.
pub record IsFed {A : Type 0} (n : ℕ) (r : Conn × Outcome A) : Type 0 where
  pub fed : starved r.1 ≡ false
  pub left : is_done r.1 ≡ true → length r.0.source < n

pub and_then-IsFed :
    {A B : Type 0} {n : ℕ} (m : ℕ) (r : Conn × Outcome A) (f : A → M B)
    → IsFed m r
    → ((a : A) (d : Conn) → length d.source < m → IsFed n (f a d))
    → IsFed n (and_then f r)
and_then-IsFed m (d, fail e) f o next = record { fed = o.fed; left = λ h. absurd (ground arith) }
and_then-IsFed m (d, done a) f o next = next a d (o.left refl)

pub same-IsFed :
    {A : Type 0} {n : ℕ} (d : Conn) (r : Outcome A)
    → starved r ≡ false
    → length d.source < n
    → IsFed n (d, r)
same-IsFed d r fed le = record { fed = fed; left = λ _. le }

pub choose-IsFed :
    {A : Type 0} {n : ℕ} {c : Conn} (b : Bool) (m k : M A)
    → IsFed n (m c)
    → IsFed n (k c)
    → IsFed n ((if b then m else k) c)
choose-IsFed true m k h g = h
choose-IsFed false m k h g = g

pub either-IsFed :
    {A : Type 0} {n : ℕ} {c : Conn} (b : Bool) (m k : M A)
    → IsFed n (m c)
    → IsFed n (k c)
    → IsFed n ((elim b as (λ _. M A) [ true ↦ m | false ↦ k ]) c)
either-IsFed true m k h g = h
either-IsFed false m k h g = g

pub fail-IsFed :
    {A B : Type 0} {n : ℕ} (m : ℕ) (r : Conn × Outcome A) (e : ConnError)
    → IsFed m r
    → is_starved e ≡ false
    → IsFed {A = B} n (and_then (λ _. fail_with e) r)
fail-IsFed m (d, fail x) e o h = record { fed = o.fed; left = λ h. absurd (ground arith) }
fail-IsFed m (d, done a) e o h = record { fed = h; left = λ h. absurd (ground arith) }

pub weaken : {A : Type 0} {m n : ℕ} {r : Conn × Outcome A} → m ≤ n → IsFed m r → IsFed n r
weaken le o = record { fed = o.fed; left = λ h. omega (arith, o.left h, le) }
