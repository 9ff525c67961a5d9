-- ===== src/Ws/Frame/Encoding.antt =====
-- The wire format of RFC 6455 section 5.2, apart from the code: one frame as bytes, in the shortest
-- form of its length, and which frames may be sent. `write_frame` writes the unmasked ones.
use kruda.Base.{
  ℕ, ◌+◌, ◌^◌, ◌≤◌, ◌<◌, ◌≡◌, Bool, true, false, [], ◌∷◌, ◌++◌, if◌then◌else◌, ltb, leb, arith,
  Bytes, IsByte, length, All, set_top_bit,
}
use kruda.Ws.Frame.{Frame, big_endian, put_big_endian, mask_bytes, defined_opcode, write_frame}

abbrev pub bit : Bool → ℕ
bit b = if b then 128 else 0

abbrev pub first_byte : Frame → ℕ
first_byte f = bit f.fin + f.opcode

-- The second byte and the extended length.
unfoldable pub length_bytes : Bool → ℕ → Bytes
length_bytes masked len =
    if ltb len 126
    then (bit masked + len) ∷ []
    else if leb len 65535
    then (bit masked + 126) ∷ put_big_endian 2 len
    else (bit masked + 127) ∷ put_big_endian 8 len

abbrev pub body : Bool → Bytes → Bytes → Bytes
body masked key payload = if masked then key ++ mask_bytes key payload else payload

unfoldable pub encode : Frame → Bytes → Bytes
encode f key =
    first_byte f ∷ (length_bytes f.masked (length f.payload) ++ body f.masked key f.payload)

-- The size limit binds data frames, and is off at 0; control frames are whole and short.
pub record IsAllowed (max_size : ℕ) (f : Frame) : Type 0 where
  pub opcode_defined : defined_opcode f.opcode ≡ true
  pub length_fits : length f.payload < 2 ^ 63
  pub within_max : 0 < max_size → f.opcode < 8 → length f.payload ≤ max_size
  pub control_whole : 8 ≤ f.opcode → f.fin ≡ true
  pub control_short : 8 ≤ f.opcode → length f.payload ≤ 125

-- A masking key of four bytes where the frame is masked.
abbrev pub IsKey : Bool → Bytes → Type 0
IsKey true key = (length key ≡ 4) × All IsByte key
IsKey false key = key ≡ []

pub big_endian-put_two : (v : ℕ) → v < 2 ^ 16 → big_endian (put_big_endian 2 v) ≡ v
big_endian-put_two v h = omega arith

pub big_endian-put_eight : (v : ℕ) → v < 2 ^ 64 → big_endian (put_big_endian 8 v) ≡ v
big_endian-put_eight v h = omega arith

put_two-eq : (a b : ℕ) → a < 256 → b < 256 → put_big_endian 2 (big_endian (a ∷ b ∷ [])) ≡ a ∷ b ∷ []
put_two-eq a b p q = ground arith

-- What the code writes is the encoding of an unmasked frame.
pub write_frame-encode :
    (fin : Bool) (op : ℕ) (payload : Bytes)
    → op < 128
    → write_frame fin op payload
      ≡ encode (record { fin = fin; opcode = op; masked = false; payload = payload }) []
unfolding write_frame encode length_bytes
write_frame-encode fin op payload h = ground (arith, set_top_bit op h)
