-- ===== src/Ws/Frame.antt =====
-- contrib/ws/frame.go: one frame of RFC 6455 on the wire. A reader is the list of bytes that it has
-- still to deliver; a read gives back what is left, and `write_frame` gives the bytes that
-- `w.Write` is called with.
pub mod Encoding
pub mod RoundTrip
pub mod Sound
pub mod Progress
mod Tests
use kruda.Base.{
  ℕ, zero, suc, ◌+◌, ◌-◌, ◌*◌, ◌/◌, ◌%◌, ◌^◌, ◌<◌, bit_and, bit_or, bit_xor, Bool, true, false, not,
  ◌&&◌, ◌||◌, List, [], ◌∷◌, ◌++◌, if◌then◌else◌, ltb, leb, ◌==◌, Bytes, length, take, drop, get_or,
}

pub record Frame : Type 0 where
  pub fin : Bool
  pub opcode : ℕ
  pub masked : Bool
  pub payload : Bytes

-- `eof` and `unexpected_eof` are those of `io.ReadFull`; the others are the messages of `readFrame`.
pub data FrameError : Type 0 where
  eof unexpected_eof reserved_bits_set reserved_opcode non_minimal_length : FrameError
  length_overflow exceeds_max_size fragmented_control control_too_long : FrameError

-- What a function that reads gives: an error, or a value.
pub data Result {ℓ} (A : Type ℓ) : Type ℓ where
  err : FrameError → Result A
  ok : A → Result A

abbrev pub reject_if : Bool → FrameError → Result (Unit {0})
reject_if unwanted e = if unwanted then err e else ok tt

infixl 5 ◌>>=◌ ◌>>◌
abbrev pub ◌>>=◌ {ℓ κ} : {A : Type ℓ} {B : Type κ} → Result A → (A → Result B) → Result B
err e >>= next = err e
ok a >>= next = next a

abbrev pub ◌>>◌ {κ} : {B : Type κ} → Result (Unit {0}) → Result B → Result B
err e >> next = err e
ok done >> next = next

-- `io.ReadFull` into a buffer of `n` bytes: the bytes, and what the reader still holds.
unfoldable pub read_full : ℕ → Bytes → Result (Bytes × Bytes)
read_full zero src = ok ([], src)
read_full (suc n) [] = err eof
read_full (suc n) (b ∷ bs) =
    if ltb (length bs) n then err unexpected_eof else ok (b ∷ take n bs, drop n bs)

-- `binary.BigEndian.Uint16` and `Uint64`, on a slice of that many bytes.
abbrev pub big_endian_from : ℕ → Bytes → ℕ
big_endian_from acc [] = acc
big_endian_from acc (b ∷ bs) = big_endian_from (acc * 256 + b) bs

abbrev pub big_endian : Bytes → ℕ
big_endian = big_endian_from 0

-- `binary.BigEndian.PutUint16` and `PutUint64`: the low `n` bytes, the highest first.
abbrev pub put_big_endian : ℕ → ℕ → Bytes
put_big_endian zero v = []
put_big_endian (suc n) v = (v / 256 ^ n % 256) ∷ put_big_endian n v

mask_from : ℕ → Bytes → Bytes → Bytes
mask_from i key [] = []
mask_from i key (d ∷ ds) = bit_xor d (get_or key (i % 4) 0) ∷ mask_from (i + 1) key ds

unfoldable pub mask_bytes : Bytes → Bytes → Bytes
unfolding mask_from
mask_bytes key = mask_from 0 key

abbrev pub defined_opcode : ℕ → Bool
defined_opcode op = op == 0x0 || op == 0x1 || op == 0x2 || op == 0x8 || op == 0x9 || op == 0xa

-- The switch on the seven bits of the length: the length, and what the reader still holds.
unfoldable pub read_length : ℕ → Bytes → Result (ℕ × Bytes)
read_length len src =
    if len == 126
    then (do
      (ext, rest) ← read_full 2 src
      reject_if (ltb (big_endian ext) 126) non_minimal_length
      ok (big_endian ext, rest))
    else if len == 127
    then (do
      (ext, rest) ← read_full 8 src
      reject_if (not (big_endian ext / 2 ^ 63 == 0)) length_overflow
      reject_if (leb (big_endian ext) 0xffff) non_minimal_length
      ok (big_endian ext, rest))
    else ok (len, src)

-- The size limit on data frames, then the two rules on control frames.
unfoldable pub check_limits : Bool → ℕ → ℕ → ℕ → Result (Unit {0})
check_limits fin op len max_size = do
  reject_if (ltb 0 max_size && ltb op 0x8 && ltb max_size len) exceeds_max_size
  reject_if (leb 0x8 op && not fin) fragmented_control
  reject_if (leb 0x8 op && ltb 125 len) control_too_long

-- The masking key: four bytes, or none.
unfoldable pub read_key : Bool → Bytes → Result (Bytes × Bytes)
read_key true src = read_full 4 src
read_key false src = ok ([], src)

unfoldable pub read_payload : Bool → Bytes → ℕ → Bytes → Result (Bytes × Bytes)
read_payload masked key len src =
    if ltb 0 len
    then (do
      (payload, rest) ← read_full len src
      ok (if masked then mask_bytes key payload else payload, rest))
    else ok ([], src)

-- `max_size` is 0 where the source's `maxSize` is not positive: no limit.
unfoldable pub read_frame : Bytes → ℕ → Result (Frame × Bytes)
unfolding read_full
read_frame src max_size = do
  (hdr, src₁) ← read_full 2 src
  let b₀ = get_or hdr 0 0
  let b₁ = get_or hdr 1 0
  let fin = not (bit_and b₀ 0x80 == 0)
  let op = bit_and b₀ 0x0f
  let masked = not (bit_and b₁ 0x80 == 0)
  reject_if (not (bit_and b₀ 0x70 == 0)) reserved_bits_set
  reject_if (not (defined_opcode op)) reserved_opcode
  (len, src₂) ← read_length (bit_and b₁ 0x7f) src₁
  check_limits fin op len max_size
  (key, src₃) ← read_key masked src₂
  (payload, src₄) ← read_payload masked key len src₃
  ok (record { fin = fin; opcode = op; masked = masked; payload = payload }, src₄)

-- The header of `writeFrame`, then the payload.
unfoldable pub write_frame : Bool → ℕ → Bytes → Bytes
write_frame fin op payload =
    let len = length payload in
    let b₀ = if fin then bit_or op 0x80 else op in
    if ltb len 126
    then b₀ ∷ (len % 256) ∷ payload
    else if leb len 65535
    then b₀ ∷ 126 ∷ (put_big_endian 2 len ++ payload)
    else b₀ ∷ 127 ∷ (put_big_endian 8 len ++ payload)
