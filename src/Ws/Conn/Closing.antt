-- ===== src/Ws/Conn/Closing.antt =====
-- contrib/ws/conn.go: what every operation keeps of the close frame and the flag `closed`.
pub mod Operations
pub mod Session
use kruda.Base.{
  bit_or, ℕ, zero, suc, ◌+◌, ◌≤◌, ◌≡◌, ◌⊎◌, ◌∙◌, refl, arith, Bool, true, false, not, ◌&&◌, ◌||◌,
  List, [], ◌∷◌, ◌++◌, if◌then◌else◌, ltb, leb, ◌==◌, Bytes, codes, length, get_or, Bool-cases, inl,
  inr,
}
use kruda.Ws.Frame as F
use kruda.Ws.Frame.{Frame, FrameError, read_frame, write_frame}
use kruda.Ws.Close.{
  CloseCheck, accepted, failed, write_close_frame, close_payload, validate_close_payload,
  close_protocol_error, close_invalid_payload,
}
use kruda.Ws.Conn.{
  Env, Conn, ConnError, Outcome, M, and_then, ◌>>◌, ◌>>=◌, return, fail_with, done, fail,
  frame_error, unmasked_frame, eof, lone_continuation, message_too_big, invalid_utf8,
  ping_rate_exceeded, write_failed, connection_closed, out_of_fuel, continuation_expected,
  unknown_control, close_error, close_policy_violation, close_message_too_big, text_message, send,
  try_send, close, next_frame, require_mask, read_client_frame, ping_window, count_ping, echo_close,
  close_reason, take_close, handle_control, control, finish_message, join_fragment, read_fragments,
  close_oversize, is_oversize, read_first, start_message, read_messages, read_message,
  write_message,
}

-- The errors that `ReadMessage` gives of its own about what the peer sent: an unmasked frame, a
-- continuation frame without a message or another frame within one, a message that is too big in all or
-- not UTF-8, too many pings, an unknown control frame and a bad close payload. Those that `readFrame`
-- gives, of a frame's header, are not among them: behind them the code does not close the connection,
-- but for a first frame above the limit.
abbrev pub is_refusal : ConnError → Bool
is_refusal (frame_error e) = false
is_refusal eof = false
is_refusal write_failed = false
is_refusal connection_closed = false
is_refusal out_of_fuel = false
is_refusal _ = true

abbrev pub refuses : {A : Type 0} → Outcome A → Bool
refuses (fail e) = is_refusal e
refuses (done a) = false

-- A close frame on the wire: FIN and opcode 8.
abbrev pub is_close : Bytes → Bool
is_close b = get_or b 0 0 == 0x88

abbrev pub close_frames : List Bytes → ℕ
close_frames [] = 0
close_frames (b ∷ bs) = (if is_close b then 1 else 0) + close_frames bs

-- No close frame before the flag is set, and at most one after.
abbrev pub ClosesOnce : Conn → Type 0
ClosesOnce c = close_frames c.sent ≤ (if c.closed then 1 else 0)

pub close_frames-snoc :
    (bs : List Bytes) (b : Bytes)
    → close_frames (bs ++ b ∷ []) ≡ close_frames bs + (if is_close b then 1 else 0)
close_frames-snoc [] b = omega arith
close_frames-snoc (c ∷ cs) b = omega (arith, close_frames-snoc cs b)

pub is_close-write_frame_close : (p : Bytes) → is_close (write_frame true 0x8 p) ≡ true
unfolding write_frame
is_close-write_frame_close p = ground arith

-- A frame of this type is no close frame: the opcode with the FIN bit is not 0x88.
abbrev pub is_no_close : ℕ → Bool
is_no_close op = not (bit_or op 0x80 == 0x88)

pub is_close-write_frame_data :
    (op : ℕ) (p : Bytes) → is_no_close op ≡ true → is_close (write_frame true op p) ≡ false
unfolding write_frame
is_close-write_frame_data op p h = ground (arith, h)

-- What every operation keeps, from the connection before it to its result.
pub record IsOrderly {A : Type 0} (c : Conn) (r : Conn × Outcome A) : Type 0 where
  pub once : ClosesOnce c → ClosesOnce r.0
  pub stays_closed : c.closed ≡ true → r.0.closed ≡ true
  pub closed_on_refusal : refuses r.1 ≡ true → r.0.closed ≡ true

pub and_then-IsOrderly :
    {A B : Type 0} {c : Conn} (r : Conn × Outcome A) (f : A → M B)
    → IsOrderly c r
    → ((a : A) (d : Conn) → IsOrderly d (f a d))
    → IsOrderly c (and_then f r)
and_then-IsOrderly (d, fail e) f o next = record {
  once = o.once;
  stays_closed = o.stays_closed;
  closed_on_refusal = o.closed_on_refusal;
}
and_then-IsOrderly (d, done a) f o next =
    let n = next a d in
    record {
      once = λ h. n.once (o.once h);
      stays_closed = λ h. n.stays_closed (o.stays_closed h);
      closed_on_refusal = n.closed_on_refusal;
    }

pub same-IsOrderly :
    {A : Type 0} {c : Conn} (d : Conn) (r : Outcome A)
    → d.sent ≡ c.sent
    → d.closed ≡ c.closed
    → refuses r ≡ false
    → IsOrderly c (d, r)
same-IsOrderly d r sent closed quiet = record {
  once = λ h. rw (sent, closed) h;
  stays_closed = λ h. closed ∙ h;
  closed_on_refusal = λ h. ground (arith, quiet, h);
}

pub follow-IsOrderly :
    {A B : Type 0} {c : Conn} (d : Conn) {r : Outcome B} {r' : Conn × Outcome A}
    → IsOrderly c (d, r)
    → IsOrderly d r'
    → IsOrderly c r'
follow-IsOrderly d o n = record {
  once = λ h. n.once (o.once h);
  stays_closed = λ h. n.stays_closed (o.stays_closed h);
  closed_on_refusal = n.closed_on_refusal;
}

pub shift-IsOrderly :
    {A : Type 0} {c : Conn} (d : Conn) {r : Conn × Outcome A}
    → d.sent ≡ c.sent
    → d.closed ≡ c.closed
    → IsOrderly d r
    → IsOrderly c r
shift-IsOrderly d sent closed o = record {
  once = λ h. o.once (rw (sent, closed) h);
  stays_closed = λ h. o.stays_closed (closed ∙ h);
  closed_on_refusal = o.closed_on_refusal;
}

pub if-IsOrderly :
    {A : Type 0} {c : Conn} (b : Bool) {x y : Conn × Outcome A}
    → (b ≡ true → IsOrderly c x)
    → (b ≡ false → IsOrderly c y)
    → IsOrderly c (if b then x else y)
if-IsOrderly true h g = h refl
if-IsOrderly false h g = g refl

pub choose-IsOrderly :
    {A : Type 0} {c : Conn} (b : Bool) (m k : M A)
    → (b ≡ true → IsOrderly c (m c))
    → (b ≡ false → IsOrderly c (k c))
    → IsOrderly c ((if b then m else k) c)
choose-IsOrderly true m k h g = h refl
choose-IsOrderly false m k h g = g refl

pub either-IsOrderly :
    {A : Type 0} {c : Conn} (b : Bool) (m k : M A)
    → IsOrderly c (m c)
    → IsOrderly c (k c)
    → IsOrderly c ((elim b as (λ _. M A) [ true ↦ m | false ↦ k ]) c)
either-IsOrderly true m k h g = h
either-IsOrderly false m k h g = g

pub fail-IsOrderly :
    {A B : Type 0} {c : Conn} (e : ConnError) (r : Conn × Outcome A)
    → IsOrderly c r
    → r.0.closed ≡ true
    → IsOrderly c (and_then {B = B} (λ _. fail_with e) r)
fail-IsOrderly e (d, fail e') o shut = record {
  once = o.once;
  stays_closed = o.stays_closed;
  closed_on_refusal = o.closed_on_refusal;
}
fail-IsOrderly e (d, done a) o shut = record {
  once = o.once;
  stays_closed = o.stays_closed;
  closed_on_refusal = λ _. shut;
}
