-- ===== src/Ws/Conn.antt =====
-- contrib/ws/conn.go: a connection over frames. Deadlines are left out: they show only in reads and
-- writes that fail. The lock is left out: an operation is one step.
pub mod Assembly
pub mod Closing
pub mod Termination
mod Tests
use kruda.Base.{
  ◌%◌, ℕ, zero, suc, ◌+◌, ◌-◌, ◌*◌, Bool, true, false, not, ◌&&◌, ◌||◌, List, [], ◌∷◌, ◌++◌,
  if◌then◌else◌, ltb, leb, ◌==◌, Bytes, codes, length,
}
use kruda.Ws.Frame as F
use kruda.Ws.Frame.{Frame, FrameError, exceeds_max_size, read_frame, write_frame}
use kruda.Ws.Close.{
  CloseError, CloseCheck, accepted, failed, close_protocol_error, close_invalid_payload,
  write_close_frame, validate_close_payload,
}

abbrev pub close_policy_violation : ℕ
close_policy_violation = 1008

abbrev pub close_message_too_big : ℕ
close_message_too_big = 1009

abbrev pub text_message : ℕ
text_message = 1

abbrev pub binary_message : ℕ
binary_message = 2

-- What the code asks of its surroundings: the readings of `time.Now` in nanoseconds, which writes are
-- delivered, `utf8.Valid`, and what a reader holds after a `readFrame` that failed.
pub record Env : Type 0 where
  pub clock : ℕ → ℕ
  pub delivers : ℕ → Bool
  pub utf8_valid : Bytes → Bool
  pub left_over : Bytes → Bytes
  pub max_message_size : ℕ
  pub max_ping_per_sec : ℕ

-- `source` is what the reader has still to deliver, `sent` what was delivered, `writes` and `ticks`
-- count the writes and the readings of the clock. The count of the pings
-- stands below 2 ^ 31.
pub record Conn : Type 0 where
  pub source : Bytes
  pub sent : List Bytes
  pub writes : ℕ
  pub ticks : ℕ
  pub closed : Bool
  pub ping_count : ℕ
  pub ping_window_start : ℕ

unfoldable pub new_conn : Bytes → Conn
new_conn source = record {
  source = source;
  sent = [];
  writes = 0;
  ticks = 0;
  closed = false;
  ping_count = 0;
  ping_window_start = 0;
}

pub data ConnError : Type 0 where
  frame_error : FrameError → ConnError
  unmasked_frame eof lone_continuation message_too_big invalid_utf8 : ConnError
  ping_rate_exceeded write_failed connection_closed out_of_fuel : ConnError
  continuation_expected unknown_control : ℕ → ConnError
  close_error : CloseError → ConnError

pub data Outcome (A : Type 0) : Type 0 where
  fail : ConnError → Outcome A
  done : A → Outcome A

abbrev pub M : Type 0 → Type 0
M A = Conn → Conn × Outcome A

abbrev pub and_then : {A B : Type 0} → (A → M B) → Conn × Outcome A → Conn × Outcome B
and_then f (c, fail e) = (c, fail e)
and_then f (c, done a) = f a c

infixl 5 ◌>>=◌ ◌>>◌
abbrev pub ◌>>=◌ : {A B : Type 0} → M A → (A → M B) → M B
◌>>=◌ m f c = and_then f (m c)

abbrev pub ◌>>◌ : {B : Type 0} → M (Unit {0}) → M B → M B
◌>>◌ m k c = and_then (λ _. k) (m c)

abbrev pub return : {A : Type 0} → A → M A
return a c = (c, done a)

abbrev pub fail_with : {A : Type 0} → ConnError → M A
fail_with e c = (c, fail e)

module _ (env : Env) where
  -- A frame into the buffer, and the flush; `fail` where the write is not delivered.
  unfoldable pub send : Bytes → M (Unit {0})
  send bytes c =
      if env.delivers c.writes
      then (record c { sent = c.sent ++ bytes ∷ []; writes = c.writes + 1 }, done tt)
      else (record c { writes = c.writes + 1 }, fail write_failed)

  -- `_ = writeFrame(…); _ = c.bw.Flush()`.
  unfoldable pub try_send : Bytes → M (Unit {0})
  unfolding send
  try_send bytes c = ((send bytes c).0, done tt)

  unfoldable pub close : ℕ → Bytes → M (Unit {0})
  unfolding try_send
  close code reason c =
      if c.closed
      then (c, done tt)
      else try_send (write_close_frame code reason) (record c { closed = true })

  -- A frame from the reader.
  unfoldable pub next_frame : M Frame
  next_frame c = elim (read_frame c.source env.max_message_size) [
    | F.ok (f, rest) ↦ (record c { source = rest }, done f)
    | F.err e ↦ (record c { source = env.left_over c.source }, fail (frame_error e))
  ]

  -- RFC 6455 has each frame of a client masked.
  unfoldable pub require_mask : Frame → M Frame
  unfolding close
  require_mask f =
      if f.masked
      then return f
      else (do close close_protocol_error (codes "unmasked client frame"); fail_with unmasked_frame)

  unfoldable pub read_client_frame : M Frame
  unfolding next_frame require_mask
  read_client_frame = do f ← next_frame; require_mask f

  -- A new window of a second where the last is over.
  unfoldable pub ping_window : Conn → Conn
  ping_window c =
      let now = env.clock c.ticks in
      if leb (c.ping_window_start + 1000000000) now
      then record c { ping_count = 0; ping_window_start = now; ticks = c.ticks + 1 }
      else record c { ticks = c.ticks + 1 }

  unfoldable pub count_ping : M (Unit {0})
  unfolding close ping_window
  count_ping c =
      if ltb 0 env.max_ping_per_sec
      then (let c' = ping_window c in
          let c'' : Conn = record c' { ping_count = c'.ping_count + 1 } in
          if ltb env.max_ping_per_sec c''.ping_count
          then and_then (λ _. fail_with ping_rate_exceeded)
              (close close_policy_violation (codes "ping rate exceeded") c'')
          else (c'', done tt))
      else (c, done tt)

  -- The echo of a close frame.
  unfoldable pub echo_close : Bytes → M (Unit {0})
  unfolding try_send
  echo_close payload c =
      if c.closed
      then (c, done tt)
      else try_send (write_frame true 0x8 payload) (record c { closed = true })

  unfoldable pub close_reason : ℕ → Bytes
  close_reason code =
      if code == close_invalid_payload
      then codes "invalid UTF-8 close reason"
      else codes "invalid close payload"

  unfoldable pub take_close : Bytes → M (Unit {0})
  unfolding close echo_close close_reason
  take_close payload = elim (validate_close_payload env.utf8_valid payload) [
    | accepted ↦ echo_close payload
    | failed code e ↦ (do close code (close_reason code); fail_with (close_error e))
  ]

  unfoldable pub handle_control : Frame → M (Unit {0})
  unfolding send close count_ping take_close
  handle_control f =
      if f.opcode == 0x9
      then (do count_ping; send (write_frame true 0xa f.payload))
      else if f.opcode == 0xa
      then return tt
      else if f.opcode == 0x8
      then take_close f.payload
      else (do
        close close_protocol_error (codes "unknown control opcode")
        fail_with (unknown_control f.opcode))

  -- A control frame within `ReadMessage`: after a close frame nothing is read any more.
  unfoldable pub control : Frame → M (Unit {0})
  unfolding handle_control
  control f = do handle_control f; if f.opcode == 0x8 then fail_with eof else return tt

  -- A complete message.
  unfoldable pub finish_message : ℕ → Bytes → M (ℕ × Bytes)
  unfolding close
  finish_message type bytes =
      if type == text_message && not (env.utf8_valid bytes)
      then (do
        close close_invalid_payload (codes "invalid UTF-8 text message")
        fail_with invalid_utf8)
      else return (type, bytes)

  -- A continuation frame joins the message.
  unfoldable pub join_fragment : Frame → Bytes → M Bytes
  unfolding close
  join_fragment f bytes =
      if not (f.opcode == 0)
      then (do
        close close_protocol_error (codes "expected continuation frame")
        fail_with (continuation_expected f.opcode))
      else if ltb 0 env.max_message_size
          && ltb env.max_message_size (length bytes + length f.payload)
      then (do close close_message_too_big (codes "message too big"); fail_with message_too_big)
      else return (bytes ++ f.payload)

  -- The inner loop: the message so far is `bytes`. A round takes two bytes from the reader at least,
  -- so more rounds than it holds bytes are enough.
  unfoldable pub read_fragments : ℕ → ℕ → Bytes → M (ℕ × Bytes)
  unfolding read_client_frame control join_fragment finish_message
  read_fragments zero type bytes = fail_with out_of_fuel
  read_fragments (suc fuel) type bytes = do
    f ← read_client_frame
    elim (leb 0x8 f.opcode) [
      | true ↦ (do control f; read_fragments fuel type bytes)
      | false ↦ (do
        bytes' ← join_fragment f bytes
        elim f.fin [ true ↦ finish_message type bytes' | false ↦ read_fragments fuel type bytes' ])
    ]

  abbrev pub is_oversize : ConnError → Bool
  is_oversize (frame_error exceeds_max_size) = true
  is_oversize _ = false

  -- Before `ReadMessage` returns the error of a frame that is too large, it closes the connection.
  unfoldable pub close_oversize : Conn × Outcome Frame → Conn × Outcome Frame
  unfolding close
  close_oversize (c, done f) = (c, done f)
  close_oversize (c, fail e) =
      if ltb 0 env.max_message_size && is_oversize e
      then and_then (λ _. fail_with e) (close close_message_too_big (codes "message too big") c)
      else (c, fail e)

  -- The first frame of a message.
  unfoldable pub read_first : M Frame
  unfolding close_oversize read_client_frame
  read_first c = close_oversize (read_client_frame c)

  -- A data frame outside of a message.
  unfoldable pub start_message : ℕ → Frame → M (ℕ × Bytes)
  unfolding finish_message read_fragments close
  start_message fuel f =
      if f.opcode == 0
      then (do
        close close_protocol_error (codes "unexpected continuation frame")
        fail_with lone_continuation)
      else if f.fin
      then finish_message f.opcode f.payload
      else read_fragments fuel f.opcode f.payload

  -- The outer loop.
  unfoldable pub read_messages : ℕ → M (ℕ × Bytes)
  unfolding read_first control start_message
  read_messages zero = fail_with out_of_fuel
  read_messages (suc fuel) = do
    f ← read_first
    elim (leb 0x8 f.opcode) [
      | true ↦ (do control f; read_messages fuel)
      | false ↦ start_message fuel f
    ]

  unfoldable pub read_message : M (ℕ × Bytes)
  unfolding read_messages
  read_message c = read_messages (suc (length c.source)) c

  -- The type goes to the wire as `byte(messageType)`.
  unfoldable pub write_message : ℕ → Bytes → M (Unit {0})
  unfolding send
  write_message type bytes c =
      if c.closed then (c, fail connection_closed) else send (write_frame true (type % 256) bytes) c

  unfoldable pub write_text : Bytes → M (Unit {0})
  unfolding write_message
  write_text text = write_message text_message text

  unfoldable pub write_binary : Bytes → M (Unit {0})
  unfolding write_message
  write_binary = write_message binary_message
