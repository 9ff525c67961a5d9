-- ===== src/Ws/Conn/Closing/Session.antt =====
-- contrib/ws/conn.go: a connection over its whole life, as a sequence of operations.
use kruda.Base.{◌%◌, true, ℕ, ◌≤◌, ◌≡◌, Bool, false, Bytes, refl, arith, if◌then◌else◌}
use kruda.Ws.Conn.{
  Env, Conn, new_conn, close, read_message, write_message, write_text, write_binary,
}
use kruda.Ws.Conn.Closing.{ClosesOnce, close_frames, is_no_close}
use kruda.Ws.Conn.Closing.Operations.{
  close-IsOrderly, read_message-IsOrderly, write_message-IsOrderly,
}

module _ (env : Env) where
  -- An operation with any arguments; but WriteMessage only of a type that makes no close frame.
  pub data Step : Conn → Conn → Type 0 where
    read : (c : Conn) → Step c (read_message env c).0
    text : (c : Conn) (message : Bytes) → Step c (write_text env message c).0
    binary : (c : Conn) (message : Bytes) → Step c (write_binary env message c).0
    typed :
        (c : Conn) (type : ℕ) (message : Bytes)
        → is_no_close (type % 256) ≡ true
        → Step c (write_message env type message c).0
    shut : (c : Conn) (code : ℕ) (reason : Bytes) → Step c (close env code reason c).0

  pub data Reach (c : Conn) : Conn → Type 0 where
    here : Reach c c
    next : {d e : Conn} → Reach c d → Step d e → Reach c e

  Step-ClosesOnce : {c d : Conn} → Step c d → ClosesOnce c → ClosesOnce d
  unfolding write_text write_binary
  Step-ClosesOnce (read c) = (read_message-IsOrderly env c).once
  Step-ClosesOnce (text c m) = (write_message-IsOrderly env 1 m c refl).once
  Step-ClosesOnce (binary c m) = (write_message-IsOrderly env 2 m c refl).once
  Step-ClosesOnce (typed c type m h) = (write_message-IsOrderly env type m c h).once
  Step-ClosesOnce (shut c code reason) = (close-IsOrderly env code reason c).once

  Reach-ClosesOnce : {c d : Conn} → ClosesOnce c → Reach c d → ClosesOnce d
  Reach-ClosesOnce h here = h
  Reach-ClosesOnce h (next r s) = Step-ClosesOnce s (Reach-ClosesOnce h r)

  at_most_one : (b : Bool) (n : ℕ) → n ≤ (if b then 1 else 0) → (n ≤ 1) × (b ≡ false → n ≡ 0)
  at_most_one b n h = ground arith

  -- Whatever calls of ReadMessage, WriteText, WriteBinary and Close a connection has gone through since it
  -- was made, and of WriteMessage of types whose byte makes no close frame, at most one close frame was
  -- sent, and none where the flag `closed` is not set.
  pub close_frames-le_one :
      (source : Bytes) (c : Conn)
      → Reach (new_conn source) c
      → (close_frames c.sent ≤ 1) × (c.closed ≡ false → close_frames c.sent ≡ 0)
  unfolding new_conn
  close_frames-le_one source c r =
      at_most_one c.closed (close_frames c.sent) (Reach-ClosesOnce (omega arith) r)
