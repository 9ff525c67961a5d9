-- ===== src/Ws/Conn/Tests.antt =====
-- A connection at concrete frames, and its theorems.
use kruda.Base.{◌≤◌, ◌≡◌, true, false, [], ◌∷◌, refl, arith, inl, Bytes, codes, ◌+◌}
use kruda.Ws.Frame.{
  read_frame, write_frame, mask_bytes, read_length, check_limits, read_key, read_payload,
}
use kruda.Ws.Close.{write_close_frame, validate_close_payload}
use kruda.Ws.Conn.{
  Env, Conn, new_conn, close, read_message, write_message, done, fail, eof, unmasked_frame,
}
use kruda.Ws.Conn.Assembly.{Message, split, pong, AllSendable, source_of, read_message-source_of}
use kruda.Ws.Conn.Termination.{starved}
use kruda.Ws.Conn.Termination.Operations.{read_message-total}
use kruda.Ws.Conn.Closing.{IsOrderly, close_frames}
use kruda.Ws.Conn.Closing.Operations.{read_message-IsOrderly}
use kruda.Ws.Conn.Closing.Session.{here, next, read, typed, shut, close_frames-le_one}

abbrev env : Env
env = record {
  clock = λ n. 2000000000 + n;
  delivers = λ _. true;
  utf8_valid = λ _. true;
  left_over = λ src. [];
  max_message_size = 1024;
  max_ping_per_sec = 10;
}

abbrev key : Bytes
key = 1 ∷ 2 ∷ 3 ∷ 4 ∷ []

-- "Hel", a pong, and "lo".
abbrev hello : Message
hello = split (codes "Hel") (pong (codes "hi") ∷ []) (codes "lo")

abbrev conn : Conn
unfolding new_conn
conn = new_conn (source_of key 1 hello (7 ∷ []))

sendable : AllSendable hello
sendable = omega arith

read_message-source_of_example :
    read_message env conn ≡ (record conn { source = 7 ∷ [] }, done (1, codes "Hello"))
unfolding conn new_conn
read_message-source_of_example =
    read_message-source_of env key (omega arith) 1 hello (7 ∷ []) conn sendable
      (record {
        data_type = inl refl;
        within_max = λ _. omega arith;
        length_fits = omega arith;
        text_valid = λ _. refl;
      })
      refl

read_message-total_example : starved (read_message env conn).1 ≡ false
read_message-total_example = read_message-total env conn

read_message-IsOrderly_example : IsOrderly conn (read_message env conn)
read_message-IsOrderly_example = read_message-IsOrderly env conn

abbrev greeted : Conn
greeted = (write_message env 9 (codes "hi") (read_message env conn).0).0

close_frames-le_one_example :
    let c = (close env 1000 (codes "bye") greeted).0 in
    (close_frames c.sent ≤ 1) × (c.closed ≡ false → close_frames c.sent ≡ 0)
unfolding conn new_conn
close_frames-le_one_example =
    close_frames-le_one env (source_of key 1 hello (7 ∷ []))
      (close env 1000 (codes "bye") greeted).0
      (next (next (next here (read conn)) (typed _ 9 (codes "hi") refl))
        (shut _ 1000 (codes "bye")))

-- WriteMessage of the type 8 sends a close frame and leaves the flag, so that Close sends another.
close_twice :
    (close env 1000 [] (write_message env 8 [] (new_conn [])).0).0.sent
    ≡ (0x88 ∷ 0 ∷ []) ∷ write_close_frame 1000 [] ∷ []
unfolding close write_message new_conn write_close_frame write_frame
close_twice = refl

-- An unmasked frame is refused with the close code 1002; a close frame is echoed.
refused : (read_message env (new_conn (0x81 ∷ 1 ∷ 65 ∷ []))).1 ≡ fail unmasked_frame
unfolding read_message new_conn read_frame read_length check_limits read_key read_payload
refused = refl

refused_close :
    (read_message env (new_conn (0x81 ∷ 1 ∷ 65 ∷ []))).0.sent
    ≡ write_close_frame 1002 (codes "unmasked client frame") ∷ []
unfolding read_message new_conn read_frame read_length check_limits read_key read_payload
refused_close = refl

echoed : read_message env (new_conn (0x88 ∷ 0x82 ∷ 0 ∷ 0 ∷ 0 ∷ 0 ∷ 3 ∷ 0xe8 ∷ [])) ≡ (
  record (new_conn []) { sent = (0x88 ∷ 2 ∷ 3 ∷ 0xe8 ∷ []) ∷ []; writes = 1; closed = true },
  fail eof,
)
unfolding read_message new_conn read_frame read_length check_limits read_key read_payload
    validate_close_payload mask_bytes write_frame
echoed = refl
