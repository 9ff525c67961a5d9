-- ===== src/Ws/Close.antt =====
-- contrib/ws/frame.go: the payload of a close frame. `utf8.Valid` is a parameter. A status code is a
-- natural number; the source passes an `int`.
pub mod RoundTrip
mod Tests
use kruda.Base.{
  ℕ, ◌+◌, ◌&&◌, ◌||◌, Bool, true, false, not, [], ◌∷◌, ◌++◌, if◌then◌else◌, ltb, leb, ◌==◌, Bytes,
  length, take, drop,
}
use kruda.Ws.Frame.{big_endian, put_big_endian, write_frame}

abbrev pub close_protocol_error : ℕ
close_protocol_error = 1002

abbrev pub close_no_status_received : ℕ
close_no_status_received = 1005

abbrev pub close_abnormal_closure : ℕ
close_abnormal_closure = 1006

abbrev pub close_invalid_payload : ℕ
close_invalid_payload = 1007

unfoldable pub close_payload : ℕ → Bytes → Bytes
close_payload code reason = if not (code == 0) then put_big_endian 2 code ++ reason else []

unfoldable pub write_close_frame : ℕ → Bytes → Bytes
write_close_frame code reason = write_frame true 0x8 (close_payload code reason)

unfoldable pub parse_close_payload : Bytes → ℕ × Bytes
parse_close_payload payload =
    if leb 2 (length payload)
    then (big_endian (take 2 payload), if ltb 2 (length payload) then drop 2 payload else [])
    else (0, [])

unfoldable pub valid_received_close_code : ℕ → Bool
valid_received_close_code code =
    if leb 3000 code && leb code 4999
    then true
    else if ltb code 1000 || ltb 1014 code
    then false
    else not (code == 1004 || code == close_no_status_received || code == close_abnormal_closure)

pub data CloseError : Type 0 where
  short_payload invalid_status invalid_reason : CloseError

-- The pair `(0, nil)`, or the code to fail with and the error.
pub data CloseCheck : Type 0 where
  accepted : CloseCheck
  failed : ℕ → CloseError → CloseCheck

unfoldable pub validate_close_payload : (Bytes → Bool) → Bytes → CloseCheck
unfolding valid_received_close_code
validate_close_payload utf8_valid payload =
    if length payload == 0
    then accepted
    else if length payload == 1
    then failed close_protocol_error short_payload
    else if not (valid_received_close_code (big_endian (take 2 payload)))
    then failed close_protocol_error invalid_status
    else if not (utf8_valid (drop 2 payload))
    then failed close_invalid_payload invalid_reason
    else accepted
