-- ===== src/Ws/Frame/Tests.antt =====
-- Frames on the wire, and the theorems at concrete frames.
use kruda.Base.{true, false, [], ◌∷◌, ◌++◌, ◌≡◌, refl, arith, Bytes, codes}
use kruda.Ws.Frame.{
  Frame, FrameError, ok, err, reserved_opcode, non_minimal_length, control_too_long, unexpected_eof,
  read_full, mask_bytes, read_length, check_limits, read_key, read_payload, read_frame, write_frame,
}
use kruda.Ws.Frame.Encoding.{encode, IsAllowed}
use kruda.Ws.Frame.RoundTrip.{read_frame-encode, read_frame-write_frame}
use kruda.Ws.Frame.Sound.{IsEncoded, read_frame-IsEncoded}

abbrev key : Bytes
key = 1 ∷ 2 ∷ 3 ∷ 4 ∷ []

abbrev hello : Frame
hello = record { fin = true; opcode = 1; masked = true; payload = codes "hello" }

abbrev pong : Frame
pong = record { fin = true; opcode = 10; masked = false; payload = codes "hi" }

read_hello : read_frame (encode hello key ++ 7 ∷ []) 100 ≡ ok (hello, 7 ∷ [])
unfolding read_frame read_length check_limits read_key read_payload mask_bytes encode
    kruda.Ws.Frame.Encoding.length_bytes
read_hello = refl

write_pong : write_frame true 10 (codes "hi") ≡ 0x8a ∷ 2 ∷ codes "hi"
unfolding write_frame
write_pong = refl

-- A two-byte length below 126, a reserved opcode, a long ping, and a frame that breaks off.
refused :
    (read_frame (0x81 ∷ 126 ∷ 0 ∷ 5 ∷ []) 0 ≡ err non_minimal_length)
    × (read_frame (0x83 ∷ 0 ∷ []) 0 ≡ err reserved_opcode)
    × (read_frame (0x89 ∷ 126 ∷ 0 ∷ 200 ∷ []) 0 ≡ err control_too_long)
    × (read_frame (0x81 ∷ 3 ∷ 65 ∷ []) 0 ≡ err unexpected_eof)
unfolding read_frame read_length check_limits read_key read_payload
refused = (refl, refl, refl, refl)

hello-IsAllowed : IsAllowed 100 hello
hello-IsAllowed = record {
  opcode_defined = refl;
  length_fits = omega arith;
  within_max = λ _ _. omega arith;
  control_whole = λ _. refl;
  control_short = λ _. omega arith;
}

pong-IsAllowed : IsAllowed 100 pong
pong-IsAllowed = record {
  opcode_defined = refl;
  length_fits = omega arith;
  within_max = λ _ _. omega arith;
  control_whole = λ _. refl;
  control_short = λ _. omega arith;
}

read_frame-encode_example : read_frame (encode hello key ++ 7 ∷ []) 100 ≡ ok (hello, 7 ∷ [])
read_frame-encode_example =
    read_frame-encode hello 100 key (7 ∷ []) hello-IsAllowed (omega arith) (omega arith)

read_frame-write_frame_example :
    read_frame (write_frame true 10 (codes "hi") ++ 7 ∷ []) 100 ≡ ok (pong, 7 ∷ [])
read_frame-write_frame_example =
    read_frame-write_frame true 10 (codes "hi") 100 (7 ∷ []) pong-IsAllowed (omega arith)

hello_read :
    read_frame (0x81 ∷ 0x85 ∷ 1 ∷ 2 ∷ 3 ∷ 4 ∷ 105 ∷ 103 ∷ 111 ∷ 104 ∷ 110 ∷ 7 ∷ []) 100
    ≡ ok (hello, 7 ∷ [])
unfolding read_frame read_length check_limits read_key read_payload mask_bytes
hello_read = refl

read_frame-IsEncoded_example :
    IsEncoded 100 hello
      (0x81 ∷ 0x85 ∷ 1 ∷ 2 ∷ 3 ∷ 4 ∷ 105 ∷ 103 ∷ 111 ∷ 104 ∷ 110 ∷ 7 ∷ [])
      (7 ∷ [])
read_frame-IsEncoded_example =
    read_frame-IsEncoded (0x81 ∷ 0x85 ∷ 1 ∷ 2 ∷ 3 ∷ 4 ∷ 105 ∷ 103 ∷ 111 ∷ 104 ∷ 110 ∷ 7 ∷ []) 100
      hello (7 ∷ []) (omega arith) hello_read
