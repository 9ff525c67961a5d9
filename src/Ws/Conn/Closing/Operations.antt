-- ===== src/Ws/Conn/Closing/Operations.antt =====
-- contrib/ws/conn.go: the close frame, the flag `closed` and the errors, operation by operation.
use kruda.Base.{
  ◌%◌, ℕ, zero, suc, ◌+◌, ◌≡◌, refl, arith, true, false, not, ◌&&◌, ◌++◌, ltb, leb, ◌==◌, Bytes,
  codes, length,
}
use kruda.Ws.Frame as F
use kruda.Ws.Frame.{Frame, FrameError, read_frame, write_frame}
use kruda.Ws.Close.{
  accepted, failed, write_close_frame, close_payload, validate_close_payload, close_protocol_error,
  close_invalid_payload,
}
use kruda.Ws.Conn.{
  Env, Conn, ConnError, Outcome, M, ◌>>◌, ◌>>=◌, return, fail_with, done, fail, frame_error,
  unmasked_frame, eof, lone_continuation, message_too_big, invalid_utf8, ping_rate_exceeded,
  write_failed, connection_closed, out_of_fuel, continuation_expected, unknown_control, close_error,
  close_policy_violation, close_message_too_big, text_message, send, try_send, close, next_frame,
  require_mask, read_client_frame, ping_window, count_ping, echo_close, close_reason, take_close,
  handle_control, control, finish_message, join_fragment, read_fragments, close_oversize,
  is_oversize, read_first, start_message, read_messages, read_message, write_message,
}
use kruda.Ws.Conn.Closing.{
  IsOrderly, and_then-IsOrderly, same-IsOrderly, follow-IsOrderly, shift-IsOrderly, if-IsOrderly,
  choose-IsOrderly, either-IsOrderly, fail-IsOrderly, is_close, close_frames-snoc,
  is_close-write_frame_close, is_no_close, is_close-write_frame_data,
}

module _ (env : Env) where
  try_send-IsOrderly :
      (b : Bytes) (c : Conn)
      → is_close b ≡ true
      → c.closed ≡ false
      → IsOrderly c (try_send env b (record c { closed = true }))
  unfolding try_send send
  try_send-IsOrderly b c last open_still = record {
    once = λ h. ground (arith, last, open_still, h, close_frames-snoc c.sent b);
    stays_closed = λ h. ground arith;
    closed_on_refusal = λ h. ground arith;
  }

  pub close-IsOrderly :
      (code : ℕ) (reason : Bytes) (c : Conn) → IsOrderly c (close env code reason c)
  unfolding close write_close_frame
  close-IsOrderly code reason c =
      if-IsOrderly c.closed (λ shut. same-IsOrderly c (done tt) refl refl refl)
        λ open_still.
          try_send-IsOrderly (write_close_frame code reason) c
            (is_close-write_frame_close (close_payload code reason)) open_still

  close-closed : (code : ℕ) (reason : Bytes) (c : Conn) → (close env code reason c).0.closed ≡ true
  unfolding close try_send send
  close-closed code reason c = ground arith

  refuse-IsOrderly :
      {B : Type 0} (code : ℕ) (reason : Bytes) (e : ConnError) (c : Conn)
      → IsOrderly {A = B} c ((close env code reason >> fail_with e) c)
  refuse-IsOrderly code reason e c =
      fail-IsOrderly e (close env code reason c) (close-IsOrderly code reason c)
        (close-closed code reason c)

  send-IsOrderly :
      (type : ℕ) (p : Bytes) (c : Conn)
      → is_no_close type ≡ true
      → IsOrderly c (send env (write_frame true type p) c)
  unfolding send
  send-IsOrderly type p c kind =
      let b = write_frame true type p in
      let no_close = is_close-write_frame_data type p kind in
      if-IsOrderly (env.delivers c.writes)
        (λ _. record {
          once = λ h. ground (arith, no_close, h, close_frames-snoc c.sent b);
          stays_closed = λ h. h;
          closed_on_refusal = λ h. cc;
        })
        λ _. same-IsOrderly (record c { writes = c.writes + 1 }) (fail write_failed) refl refl refl

  next_frame-IsOrderly : (c : Conn) → IsOrderly c (next_frame env c)
  unfolding next_frame
  next_frame-IsOrderly c =
      elim (read_frame c.source env.max_message_size)
        as (λ r. IsOrderly {A = Frame} c (elim r [
          | F.ok (f, rest) ↦ (record c { source = rest }, done f)
          | F.err e ↦ (record c { source = env.left_over c.source }, fail (frame_error e))
        ])) [
          | F.ok (f, rest) ↦ same-IsOrderly (record c { source = rest }) (done f) refl refl refl
          | F.err e ↦
              same-IsOrderly (record c { source = env.left_over c.source }) (fail (frame_error e))
                refl refl refl
        ]

  read_client_frame-IsOrderly : (c : Conn) → IsOrderly c (read_client_frame env c)
  unfolding read_client_frame require_mask
  read_client_frame-IsOrderly c =
      and_then-IsOrderly (next_frame env c) (require_mask env) (next_frame-IsOrderly c) λ f d.
        choose-IsOrderly f.masked _ _ (λ _. same-IsOrderly d (done f) refl refl refl)
          λ _.
            refuse-IsOrderly close_protocol_error (codes "unmasked client frame") unmasked_frame d

  ping_window-same :
      (c : Conn) → ((ping_window env c).sent ≡ c.sent) × ((ping_window env c).closed ≡ c.closed)
  unfolding ping_window
  ping_window-same c = ground arith

  count_ping-IsOrderly : (c : Conn) → IsOrderly c (count_ping env c)
  unfolding count_ping
  count_ping-IsOrderly c =
      let c' = ping_window env c in
      let c'' : Conn = record c' { ping_count = c'.ping_count + 1 } in
      let (sent, closed) = ping_window-same c in
      if-IsOrderly (ltb 0 env.max_ping_per_sec)
        (λ _.
          if-IsOrderly (ltb env.max_ping_per_sec c''.ping_count)
            (λ _. shift-IsOrderly c'' sent closed (
              refuse-IsOrderly close_policy_violation (codes "ping rate exceeded")
                ping_rate_exceeded c''))
            λ _. same-IsOrderly c'' (done tt) sent closed refl)
        λ _. same-IsOrderly c (done tt) refl refl refl

  echo_close-IsOrderly : (p : Bytes) (c : Conn) → IsOrderly c (echo_close env p c)
  unfolding echo_close
  echo_close-IsOrderly p c =
      if-IsOrderly c.closed (λ shut. same-IsOrderly c (done tt) refl refl refl)
        λ open_still.
          try_send-IsOrderly (write_frame true 0x8 p) c (is_close-write_frame_close p) open_still

  take_close-IsOrderly : (p : Bytes) (c : Conn) → IsOrderly c (take_close env p c)
  unfolding take_close
  take_close-IsOrderly p c =
      elim (validate_close_payload env.utf8_valid p)
        as (λ r. IsOrderly c (
          (elim r as (λ _. M (Unit {0})) [
            | accepted ↦ echo_close env p
            | failed code e ↦ close env code (close_reason env code) >> fail_with (close_error e)
          ])
            c)) [
              | accepted ↦ echo_close-IsOrderly p c
              | failed code e ↦ refuse-IsOrderly code (close_reason env code) (close_error e) c
            ]

  handle_control-IsOrderly : (f : Frame) (c : Conn) → IsOrderly c (handle_control env f c)
  unfolding handle_control
  handle_control-IsOrderly f c =
      choose-IsOrderly (f.opcode == 0x9) _ _
        (λ _.
          and_then-IsOrderly (count_ping env c) (λ _. send env (write_frame true 0xa f.payload))
            (count_ping-IsOrderly c) (λ _ d. send-IsOrderly 10 f.payload d refl))
        λ _.
          choose-IsOrderly (f.opcode == 0xa) _ _ (λ _. same-IsOrderly c (done tt) refl refl refl)
            λ _.
              choose-IsOrderly (f.opcode == 0x8) _ _ (λ _. take_close-IsOrderly f.payload c)
                λ _.
                  refuse-IsOrderly close_protocol_error (codes "unknown control opcode")
                    (unknown_control f.opcode) c

  control-IsOrderly : (f : Frame) (c : Conn) → IsOrderly c (control env f c)
  unfolding control
  control-IsOrderly f c =
      and_then-IsOrderly (handle_control env f c) _ (handle_control-IsOrderly f c) λ _ d.
        choose-IsOrderly (f.opcode == 0x8) (fail_with eof) (return tt)
          (λ _. same-IsOrderly d (fail eof) refl refl refl)
          λ _. same-IsOrderly d (done tt) refl refl refl

  finish_message-IsOrderly :
      (type : ℕ) (bytes : Bytes) (c : Conn) → IsOrderly c (finish_message env type bytes c)
  unfolding finish_message
  finish_message-IsOrderly type bytes c =
      choose-IsOrderly (type == text_message && not (env.utf8_valid bytes)) _ _
        (λ _.
          refuse-IsOrderly close_invalid_payload (codes "invalid UTF-8 text message") invalid_utf8
            c)
        λ _. same-IsOrderly c (done (type, bytes)) refl refl refl

  join_fragment-IsOrderly :
      (f : Frame) (bytes : Bytes) (c : Conn) → IsOrderly c (join_fragment env f bytes c)
  unfolding join_fragment
  join_fragment-IsOrderly f bytes c =
      choose-IsOrderly (not (f.opcode == 0)) _ _
        (λ _.
          refuse-IsOrderly close_protocol_error (codes "expected continuation frame")
            (continuation_expected f.opcode) c)
        λ _.
          choose-IsOrderly
            (ltb 0 env.max_message_size
              && ltb env.max_message_size (length bytes + length f.payload))
            _ _
            (λ _.
              refuse-IsOrderly close_message_too_big (codes "message too big") message_too_big c)
            λ _. same-IsOrderly c (done (bytes ++ f.payload)) refl refl refl

  read_fragments-IsOrderly :
      (fuel type : ℕ) (bytes : Bytes) (c : Conn)
      → IsOrderly c (read_fragments env fuel type bytes c)
  unfolding read_fragments
  read_fragments-IsOrderly zero type bytes c = same-IsOrderly c (fail out_of_fuel) refl refl refl
  read_fragments-IsOrderly (suc fuel) type bytes c =
      and_then-IsOrderly (read_client_frame env c) _ (read_client_frame-IsOrderly c) λ f d.
        let next : Bytes → M (ℕ × Bytes) = λ b. elim f.fin as (λ _. M (ℕ × Bytes)) [
          | true ↦ finish_message env type b
          | false ↦ read_fragments env fuel type b
        ] in
        either-IsOrderly (leb 0x8 f.opcode) (control env f >> read_fragments env fuel type bytes)
          (join_fragment env f bytes >>= next)
          (and_then-IsOrderly (control env f d) (λ _. read_fragments env fuel type bytes)
            (control-IsOrderly f d) λ _ d'. read_fragments-IsOrderly fuel type bytes d')
          (and_then-IsOrderly (join_fragment env f bytes d) next (join_fragment-IsOrderly f bytes d)
            λ bytes' d'.
              either-IsOrderly f.fin (finish_message env type bytes')
                (read_fragments env fuel type bytes') (finish_message-IsOrderly type bytes' d')
                (read_fragments-IsOrderly fuel type bytes' d'))

  close_oversize-IsOrderly :
      (c : Conn) (r : Conn × Outcome Frame) → IsOrderly c r → IsOrderly c (close_oversize env r)
  unfolding close_oversize
  close_oversize-IsOrderly c (d, done f) o = record {
    once = o.once;
    stays_closed = o.stays_closed;
    closed_on_refusal = o.closed_on_refusal;
  }
  close_oversize-IsOrderly c (d, fail e) o =
      if-IsOrderly (ltb 0 env.max_message_size && is_oversize env e)
        (λ _.
          follow-IsOrderly d o
            (refuse-IsOrderly close_message_too_big (codes "message too big") e d))
        λ _. o

  start_message-IsOrderly :
      (fuel : ℕ) (f : Frame) (c : Conn) → IsOrderly c (start_message env fuel f c)
  unfolding start_message
  start_message-IsOrderly fuel f c =
      choose-IsOrderly (f.opcode == 0) _ _
        (λ _.
          refuse-IsOrderly close_protocol_error (codes "unexpected continuation frame")
            lone_continuation c)
        λ _.
          choose-IsOrderly f.fin (finish_message env f.opcode f.payload)
            (read_fragments env fuel f.opcode f.payload)
            (λ _. finish_message-IsOrderly f.opcode f.payload c)
            λ _. read_fragments-IsOrderly fuel f.opcode f.payload c

  read_messages-IsOrderly : (fuel : ℕ) (c : Conn) → IsOrderly c (read_messages env fuel c)
  unfolding read_messages read_first
  read_messages-IsOrderly zero c = same-IsOrderly c (fail out_of_fuel) refl refl refl
  read_messages-IsOrderly (suc fuel) c =
      and_then-IsOrderly (read_first env c) _
        (close_oversize-IsOrderly c (read_client_frame env c) (read_client_frame-IsOrderly c))
        λ f d.
          either-IsOrderly (leb 0x8 f.opcode) (control env f >> read_messages env fuel)
            (start_message env fuel f)
            (and_then-IsOrderly (control env f d) (λ _. read_messages env fuel)
              (control-IsOrderly f d) λ _ d'. read_messages-IsOrderly fuel d')
            (start_message-IsOrderly fuel f d)

  -- `ReadMessage` never takes back the flag `closed`, and where it gives an error other than the error of
  -- a frame, the end of the input, a failed write or a closed connection it has set the flag. So it has
  -- for an unmasked frame, a frame out of place in a fragmented message, a message too big in all or not
  -- UTF-8, too many pings and a bad close payload. It keeps that no close frame was sent before the flag
  -- was set and at most one after. Of the errors of a frame nothing is said.
  pub read_message-IsOrderly : (c : Conn) → IsOrderly c (read_message env c)
  unfolding read_message
  read_message-IsOrderly c = read_messages-IsOrderly (suc (length c.source)) c

  pub write_message-IsOrderly :
      (type : ℕ) (p : Bytes) (c : Conn)
      → is_no_close (type % 256) ≡ true
      → IsOrderly c (write_message env type p c)
  unfolding write_message
  write_message-IsOrderly type p c kind =
      if-IsOrderly c.closed (λ _. same-IsOrderly c (fail connection_closed) refl refl refl)
        λ _. send-IsOrderly (type % 256) p c kind
