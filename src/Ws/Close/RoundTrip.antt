-- ===== src/Ws/Close/RoundTrip.antt =====
-- contrib/ws/frame.go: what a peer reads of a close frame that this side writes.
use kruda.Base.{
  ℕ, ◌≤◌, ◌<◌, ◌^◌, ◌≡◌, ◌↔◌, ◌⊎◌, inl, inr, arith, Bool, true, false, [], ◌∷◌, ◌++◌, Bytes, IsByte,
  All, length, ◌==◌, Bool-cases,
}
use kruda.Ws.Frame.{Frame, ok, read_frame, put_big_endian}
use kruda.Ws.Frame.Encoding.{IsAllowed, big_endian-put_two}
use kruda.Ws.Frame.RoundTrip.{read_frame-write_frame}
use kruda.Ws.Close.{
  close_payload, write_close_frame, parse_close_payload, valid_received_close_code, accepted,
  validate_close_payload,
}

-- A close frame as it is read.
abbrev pub close_frame : ℕ → Bytes → Frame
close_frame code reason = record {
  fin = true;
  opcode = 8;
  masked = false;
  payload = close_payload code reason;
}

close_frame-IsAllowed :
    (code : ℕ) (reason : Bytes) (max_size : ℕ)
    → length reason ≤ 123
    → IsAllowed max_size (close_frame code reason)
unfolding close_payload
close_frame-IsAllowed code reason max_size h = elim (Bool-cases (code == 0)) [
  | inl zero_code ↦ ground arith
  | inr given ↦ ground arith
]

close_payload_given :
    (code : ℕ) (reason : Bytes)
    → 0 < code
    → close_payload code reason ≡ put_big_endian 2 code ++ reason
unfolding close_payload
close_payload_given code reason given = ground arith

parsed :
    (code : ℕ) (reason : Bytes)
    → code < 2 ^ 16
    → parse_close_payload (put_big_endian 2 code ++ reason) ≡ (code, reason)
unfolding parse_close_payload
parsed code [] fits = ground (arith, big_endian-put_two code fits)
parsed code (c ∷ cs) fits = ground (arith, big_endian-put_two code fits)

-- A close frame with a code from 1 to 65535 and a reason of at most 123 bytes is read back whole, and
-- its payload parses to that code and that reason.
pub read_frame-write_close_frame :
    (code : ℕ) (reason : Bytes) (max_size : ℕ) (rest : Bytes)
    → 0 < code
    → code < 2 ^ 16
    → length reason ≤ 123
    → All IsByte reason
    → (read_frame (write_close_frame code reason ++ rest) max_size
        ≡ ok (close_frame code reason, rest))
      × (parse_close_payload (close_payload code reason) ≡ (code, reason))
unfolding write_close_frame parse_close_payload
read_frame-write_close_frame code reason max_size rest given fits short bytes =
    let payload = close_payload code reason in
    let whole = close_payload_given code reason given in
    let all_bytes : All IsByte payload = rw whole (omega arith, (omega arith, bytes)) in
    (
      read_frame-write_frame true 8 payload max_size rest
          (close_frame-IsAllowed code reason max_size short) all_bytes,
      rw whole (parsed code reason fits),
    )

-- The status codes that a peer may send.
abbrev pub IsReceivable : ℕ → Type 0
IsReceivable code =
    ((1000 ≤ code) × (code ≤ 1003))
    ⊎ (((1007 ≤ code) × (code ≤ 1014)) ⊎ ((3000 ≤ code) × (code ≤ 4999)))

valid_received_close_code_iff :
    (code : ℕ) → (valid_received_close_code code ≡ true) ↔ IsReceivable code
unfolding valid_received_close_code
valid_received_close_code_iff code = ground arith

-- The payload of a code from 1 to 65535 and a reason is accepted exactly when the code is one of 1000
-- to 1003, 1007 to 1014 and 3000 to 4999, and the reason is UTF-8.
pub validate_close_payload_iff :
    (utf8_valid : Bytes → Bool) (code : ℕ) (reason : Bytes)
    → 0 < code
    → code < 2 ^ 16
    → (validate_close_payload utf8_valid (close_payload code reason) ≡ accepted)
      ↔ (IsReceivable code × (utf8_valid reason ≡ true))
unfolding validate_close_payload
validate_close_payload_iff utf8_valid code reason given fits =
    let known = valid_received_close_code_iff code in
    rw (close_payload_given code reason given, big_endian-put_two code fits) (ground (arith, known))
