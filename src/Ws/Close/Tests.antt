-- ===== src/Ws/Close/Tests.antt =====
-- The theorems on close frames at concrete codes and reasons.
use kruda.Base.{Bool, ◌&&◌, true, ◌≡◌, ◌↔◌, arith, [], ◌∷◌, ◌++◌, Bytes, codes, ltb}
use kruda.Ws.Frame.{ok, read_frame}
use kruda.Ws.Close.{
  close_payload, write_close_frame, parse_close_payload, accepted, validate_close_payload,
}
use kruda.Ws.Close.RoundTrip.{
  close_frame, IsReceivable, read_frame-write_close_frame, validate_close_payload_iff,
}

-- Reasons in ASCII, for `utf8.Valid`.
abbrev is_ascii : Bytes → Bool
is_ascii [] = true
is_ascii (c ∷ cs) = ltb c 128 && is_ascii cs

read_frame-write_close_frame_example :
    (read_frame (write_close_frame 1000 (codes "bye") ++ 7 ∷ []) 10
      ≡ ok (close_frame 1000 (codes "bye"), 7 ∷ []))
    × (parse_close_payload (close_payload 1000 (codes "bye")) ≡ (1000, codes "bye"))
read_frame-write_close_frame_example =
    read_frame-write_close_frame 1000 (codes "bye") 10 (7 ∷ []) (omega arith) (omega arith)
      (omega arith) (omega arith, (omega arith, (omega arith, tt)))

validate_close_payload_iff_example :
    (validate_close_payload is_ascii (close_payload 1006 (codes "bye")) ≡ accepted)
    ↔ (IsReceivable 1006 × (is_ascii (codes "bye") ≡ true))
validate_close_payload_iff_example =
    validate_close_payload_iff is_ascii 1006 (codes "bye") (omega arith) (omega arith)
