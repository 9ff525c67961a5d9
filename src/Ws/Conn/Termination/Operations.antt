-- ===== src/Ws/Conn/Termination/Operations.antt =====
-- contrib/ws/conn.go: the rounds of `ReadMessage`, operation by operation.
use kruda.Base.{
  ℕ, zero, suc, ◌+◌, ◌<◌, ◌≡◌, refl, arith, Bool, true, false, not, ◌&&◌, ◌++◌, if◌then◌else◌, ltb,
  leb, ◌==◌, Bytes, codes, length, inl, inr,
}
use kruda.Ws.Frame.{Frame, read_frame, write_frame}
use kruda.Ws.Frame.Sound.{Result-cases}
use kruda.Ws.Frame.Progress.{read_frame-lt}
use kruda.Ws.Close.{
  accepted, failed, validate_close_payload, close_protocol_error, close_invalid_payload,
}
use kruda.Ws.Conn.{
  Env, Conn, ConnError, Outcome, M, ◌>>◌, ◌>>=◌, return, fail_with, done, fail, unmasked_frame, eof,
  lone_continuation, message_too_big, invalid_utf8, ping_rate_exceeded, continuation_expected,
  unknown_control, close_error, close_policy_violation, close_message_too_big, text_message, send,
  try_send, close, next_frame, require_mask, read_client_frame, ping_window, count_ping, echo_close,
  close_reason, take_close, handle_control, control, finish_message, join_fragment, read_fragments,
  close_oversize, is_oversize, read_first, start_message, read_messages, read_message,
}
use kruda.Ws.Conn.Termination.{
  starved, is_starved, IsFed, and_then-IsFed, same-IsFed, choose-IsFed, either-IsFed, fail-IsFed,
  weaken,
}

module _ (env : Env) where
  send-IsFed : (b : Bytes) (c : Conn) → IsFed (suc (length c.source)) (send env b c)
  unfolding send
  send-IsFed b c = record { fed = ground arith; left = λ _. ground arith }

  close-IsFed :
      (code : ℕ) (reason : Bytes) (c : Conn)
      → IsFed (suc (length c.source)) (close env code reason c)
  unfolding close try_send send
  close-IsFed code reason c = record { fed = ground arith; left = λ _. ground arith }

  refuse-IsFed :
      {B : Type 0} {n : ℕ} (code : ℕ) (reason : Bytes) (e : ConnError) (c : Conn)
      → is_starved e ≡ false
      → IsFed {A = B} n ((close env code reason >> fail_with e) c)
  refuse-IsFed code reason e c h =
      fail-IsFed (suc (length c.source)) (close env code reason c) e (close-IsFed code reason c) h

  next_frame-IsFed : (c : Conn) → IsFed (length c.source) (next_frame env c)
  unfolding next_frame
  next_frame-IsFed c = elim (Result-cases (read_frame c.source env.max_message_size)) [
    | inl ((f, rest), e) ↦
        rw (e, next_frame)
          (same-IsFed (record c { source = rest }) (done f) refl
            (read_frame-lt c.source env.max_message_size f rest e))
    | inr (x, e) ↦ rw (e, next_frame) (record { fed = refl; left = λ h. absurd (ground arith) })
  ]

  read_client_frame-IsFed : (c : Conn) → IsFed (length c.source) (read_client_frame env c)
  unfolding read_client_frame require_mask
  read_client_frame-IsFed c =
      let refuse =
        close env close_protocol_error (codes "unmasked client frame")
        >> fail_with unmasked_frame in
      and_then-IsFed (length c.source) (next_frame env c) (require_mask env) (next_frame-IsFed c)
        λ f d le.
          choose-IsFed f.masked (return f) refuse (same-IsFed d (done f) refl le) (
            refuse-IsFed close_protocol_error (codes "unmasked client frame") unmasked_frame d refl)

  try_close-IsFed :
      (b : Bytes) (c : Conn)
      → IsFed (suc (length c.source)) (try_send env b (record c { closed = true }))
  unfolding try_send send
  try_close-IsFed b c = record { fed = refl; left = λ _. ground arith }

  ping_window-source : (c : Conn) → (ping_window env c).source ≡ c.source
  unfolding ping_window
  ping_window-source c = ground arith

  if-IsFed :
      {A : Type 0} {n : ℕ} (b : Bool) (x y : Conn × Outcome A)
      → IsFed n x
      → IsFed n y
      → IsFed n (if b then x else y)
  if-IsFed true x y h g = h
  if-IsFed false x y h g = g

  count_ping-IsFed : (c : Conn) → IsFed (suc (length c.source)) (count_ping env c)
  unfolding count_ping
  count_ping-IsFed c =
      let c' = ping_window env c in
      let c'' : Conn = record c' { ping_count = c'.ping_count + 1 } in
      if-IsFed (ltb 0 env.max_ping_per_sec) _ _
        (if-IsFed (ltb env.max_ping_per_sec c''.ping_count) _ _
          (refuse-IsFed close_policy_violation (codes "ping rate exceeded") ping_rate_exceeded c''
            refl)
          (same-IsFed c'' (done tt) refl (rw (ping_window-source c) (omega arith))))
        (same-IsFed c (done tt) refl (omega arith))

  echo_close-IsFed : (p : Bytes) (c : Conn) → IsFed (suc (length c.source)) (echo_close env p c)
  unfolding echo_close
  echo_close-IsFed p c =
      if-IsFed c.closed _ _ (same-IsFed c (done tt) refl (omega arith))
        (try_close-IsFed (write_frame true 0x8 p) c)

  take_close-IsFed : (p : Bytes) (c : Conn) → IsFed (suc (length c.source)) (take_close env p c)
  unfolding take_close
  take_close-IsFed p c =
      elim (validate_close_payload env.utf8_valid p)
        as (λ r. IsFed (suc (length c.source)) (
          (elim r as (λ _. M (Unit {0})) [
            | accepted ↦ echo_close env p
            | failed code e ↦ close env code (close_reason env code) >> fail_with (close_error e)
          ])
            c)) [
              | accepted ↦ echo_close-IsFed p c
              | failed code e ↦ refuse-IsFed code (close_reason env code) (close_error e) c refl
            ]

  handle_control-IsFed :
      (f : Frame) (c : Conn) → IsFed (suc (length c.source)) (handle_control env f c)
  unfolding handle_control
  handle_control-IsFed f c =
      let unknown =
        close env close_protocol_error (codes "unknown control opcode")
        >> fail_with (unknown_control f.opcode) in
      let at_close = if f.opcode == 0x8 then take_close env f.payload else unknown in
      let at_pong = if f.opcode == 0xa then return tt else at_close in
      choose-IsFed (f.opcode == 0x9) (count_ping env >> send env (write_frame true 0xa f.payload))
        at_pong
        (and_then-IsFed (suc (length c.source)) (count_ping env c)
          (λ _. send env (write_frame true 0xa f.payload)) (count_ping-IsFed c)
          (λ _ d le. weaken le (send-IsFed (write_frame true 0xa f.payload) d)))
        (choose-IsFed (f.opcode == 0xa) (return tt) at_close
          (same-IsFed c (done tt) refl (omega arith))
          (choose-IsFed (f.opcode == 0x8) (take_close env f.payload) unknown
            (take_close-IsFed f.payload c)
            (refuse-IsFed close_protocol_error (codes "unknown control opcode")
              (unknown_control f.opcode) c refl)))

  control-IsFed : (f : Frame) (c : Conn) → IsFed (suc (length c.source)) (control env f c)
  unfolding control
  control-IsFed f c =
      and_then-IsFed (suc (length c.source)) (handle_control env f c)
        (λ _. if f.opcode == 0x8 then fail_with eof else return tt) (handle_control-IsFed f c)
        λ _ d le.
          choose-IsFed (f.opcode == 0x8) (fail_with eof) (return tt)
            (same-IsFed d (fail eof) refl le) (same-IsFed d (done tt) refl le)

  finish_message-IsFed :
      (n type : ℕ) (bytes : Bytes) (c : Conn)
      → length c.source < n
      → IsFed n (finish_message env type bytes c)
  unfolding finish_message
  finish_message-IsFed n type bytes c le =
      choose-IsFed (type == text_message && not (env.utf8_valid bytes))
        (close env close_invalid_payload (codes "invalid UTF-8 text message")
          >> fail_with invalid_utf8)
        (return (type, bytes))
        (refuse-IsFed close_invalid_payload (codes "invalid UTF-8 text message") invalid_utf8 c
          refl)
        (same-IsFed c (done (type, bytes)) refl le)

  join_fragment-IsFed :
      (n : ℕ) (f : Frame) (bytes : Bytes) (c : Conn)
      → length c.source < n
      → IsFed n (join_fragment env f bytes c)
  unfolding join_fragment
  join_fragment-IsFed n f bytes c le =
      let big =
        close env close_message_too_big (codes "message too big") >> fail_with message_too_big in
      choose-IsFed (not (f.opcode == 0))
        (close env close_protocol_error (codes "expected continuation frame")
          >> fail_with (continuation_expected f.opcode))
        (if ltb 0 env.max_message_size && ltb env.max_message_size (length bytes + length f.payload)
          then big
          else return (bytes ++ f.payload))
        (refuse-IsFed close_protocol_error (codes "expected continuation frame")
          (continuation_expected f.opcode) c refl)
        (choose-IsFed
          (ltb 0 env.max_message_size && ltb env.max_message_size (length bytes + length f.payload))
          big (return (bytes ++ f.payload))
          (refuse-IsFed close_message_too_big (codes "message too big") message_too_big c refl)
          (same-IsFed c (done (bytes ++ f.payload)) refl le))

  read_fragments-IsFed :
      (fuel type : ℕ) (bytes : Bytes) (c : Conn)
      → length c.source < fuel
      → IsFed fuel (read_fragments env fuel type bytes c)
  unfolding read_fragments
  read_fragments-IsFed zero type bytes c h = absurd (omega arith)
  read_fragments-IsFed (suc fuel) type bytes c h =
      and_then-IsFed (length c.source) (read_client_frame env c) _ (read_client_frame-IsFed c)
        λ f d le.
          let next : Bytes → M (ℕ × Bytes) = λ b. elim f.fin as (λ _. M (ℕ × Bytes)) [
            | true ↦ finish_message env type b
            | false ↦ read_fragments env fuel type b
          ] in
          either-IsFed (leb 0x8 f.opcode) (control env f >> read_fragments env fuel type bytes)
            (join_fragment env f bytes >>= next)
            (and_then-IsFed (suc (length d.source)) (control env f d)
              (λ _. read_fragments env fuel type bytes) (control-IsFed f d)
              λ _ d' le'.
                weaken (omega arith)
                  (read_fragments-IsFed fuel type bytes d' (omega (arith, h, le, le'))))
            (and_then-IsFed fuel (join_fragment env f bytes d) next
              (join_fragment-IsFed fuel f bytes d (omega (arith, h, le)))
              λ bytes' d' le'.
                either-IsFed f.fin (finish_message env type bytes')
                  (read_fragments env fuel type bytes')
                  (finish_message-IsFed (suc fuel) type bytes' d' (omega (arith, le')))
                  (weaken (omega arith) (read_fragments-IsFed fuel type bytes' d' le')))

  close_oversize-IsFed :
      (n : ℕ) (r : Conn × Outcome Frame) → IsFed n r → IsFed n (close_oversize env r)
  unfolding close_oversize
  close_oversize-IsFed n (d, done f) o = o
  close_oversize-IsFed n (d, fail e) o =
      if-IsFed (ltb 0 env.max_message_size && is_oversize env e) _ _
        (refuse-IsFed close_message_too_big (codes "message too big") e d o.fed) o

  start_message-IsFed :
      (fuel : ℕ) (f : Frame) (c : Conn)
      → length c.source < fuel
      → IsFed fuel (start_message env fuel f c)
  unfolding start_message
  start_message-IsFed fuel f c h =
      let alone =
        close env close_protocol_error (codes "unexpected continuation frame")
        >> fail_with lone_continuation in
      let started =
        if f.fin
        then finish_message env f.opcode f.payload
        else read_fragments env fuel f.opcode f.payload in
      choose-IsFed (f.opcode == 0) alone started
        (refuse-IsFed close_protocol_error (codes "unexpected continuation frame") lone_continuation
          c refl)
        (choose-IsFed f.fin (finish_message env f.opcode f.payload)
          (read_fragments env fuel f.opcode f.payload)
          (finish_message-IsFed fuel f.opcode f.payload c h)
          (read_fragments-IsFed fuel f.opcode f.payload c h))

  read_messages-IsFed :
      (fuel : ℕ) (c : Conn) → length c.source < fuel → IsFed fuel (read_messages env fuel c)
  unfolding read_messages read_first
  read_messages-IsFed zero c h = absurd (omega arith)
  read_messages-IsFed (suc fuel) c h =
      and_then-IsFed (length c.source) (read_first env c) _
        (close_oversize-IsFed (length c.source) (read_client_frame env c)
          (read_client_frame-IsFed c))
        λ f d le.
          either-IsFed (leb 0x8 f.opcode) (control env f >> read_messages env fuel)
            (start_message env fuel f)
            (and_then-IsFed (suc (length d.source)) (control env f d) (λ _. read_messages env fuel)
              (control-IsFed f d)
              λ _ d' le'.
                weaken (omega arith) (read_messages-IsFed fuel d' (omega (arith, h, le, le'))))
            (weaken (omega arith) (start_message-IsFed fuel f d (omega (arith, h, le))))

  -- `ReadMessage` always comes to a message or an error of the code: with as many rounds as the reader
  -- holds bytes, and one more, it never runs out of rounds, whatever the bytes are.
  pub read_message-total : (c : Conn) → starved (read_message env c).1 ≡ false
  unfolding read_message
  read_message-total c = (read_messages-IsFed (suc (length c.source)) c (omega arith)).fed
