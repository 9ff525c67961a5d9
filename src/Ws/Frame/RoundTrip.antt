-- ===== src/Ws/Frame/RoundTrip.antt =====
-- `read_frame` on a frame in the wire format of RFC 6455.
use kruda.Base.{
  ℕ, zero, suc, ◌+◌, ◌%◌, ◌^◌, ◌≤◌, ◌<◌, ◌≡◌, refl, ap, inl, inr, bit_and, Bool, true, false, not,
  [], ◌∷◌, ◌++◌, ltb, leb, ◌==◌, arith, Bytes, IsByte, length, All, append_assoc, get_or, top_bit,
  low_nibble, low_seven, reserved_bits, xor_twice, xor_below, take-append, drop-append,
  length-append, Bool-cases,
}
use kruda.Ws.Frame.{
  Frame, ok, read_full, put_big_endian, mask_from, mask_bytes, defined_opcode, read_length,
  check_limits, read_key, read_payload, read_frame, write_frame,
}
use kruda.Ws.Frame.Encoding.{
  bit, first_byte, length_bytes, body, encode, IsAllowed, IsKey, big_endian-put_two,
  big_endian-put_eight, write_frame-encode,
}

read_full-append : (xs rest : Bytes) → read_full (length xs) (xs ++ rest) ≡ ok (xs, rest)
unfolding read_full
read_full-append [] rest = refl
read_full-append (x ∷ xs) rest =
    ground (arith, length-append xs rest, take-append xs rest, drop-append xs rest)

get_or-IsByte : (xs : Bytes) (i : ℕ) → All IsByte xs → IsByte (get_or xs i 0)
get_or-IsByte [] i h = omega arith
get_or-IsByte (x ∷ xs) zero h = h.0
get_or-IsByte (x ∷ xs) (suc i) h = get_or-IsByte xs i h.1

mask_from_twice :
    (i : ℕ) (key d : Bytes)
    → All IsByte key
    → All IsByte d
    → mask_from i key (mask_from i key d) ≡ d
unfolding mask_from
mask_from_twice i key [] k h = refl
mask_from_twice i key (d ∷ ds) k h = cc (
  xor_twice d (get_or key (i % 4) 0) h.0 (get_or-IsByte key (i % 4) k),
  mask_from_twice (i + 1) key ds k h.1,
)

length-mask_from : (i : ℕ) (key d : Bytes) → length (mask_from i key d) ≡ length d
unfolding mask_from
length-mask_from i key [] = refl
length-mask_from i key (d ∷ ds) = ap suc (length-mask_from (i + 1) key ds)

mask_from-IsByte :
    (i : ℕ) (key d : Bytes) → All IsByte key → All IsByte d → All IsByte (mask_from i key d)
unfolding mask_from
mask_from-IsByte i key [] k h = tt
mask_from-IsByte i key (d ∷ ds) k h = (
  xor_below d (get_or key (i % 4) 0) h.0 (get_or-IsByte key (i % 4) k),
  mask_from-IsByte (i + 1) key ds k h.1,
)

pub mask_bytes-IsByte :
    (key d : Bytes) → All IsByte key → All IsByte d → All IsByte (mask_bytes key d)
unfolding mask_bytes
mask_bytes-IsByte key d k h = mask_from-IsByte 0 key d k h

-- Masking twice with one key gives the data back, and masking keeps the length.
pub mask_bytes_twice :
    (key d : Bytes)
    → All IsByte key
    → All IsByte d
    → (mask_bytes key (mask_bytes key d) ≡ d) × (length (mask_bytes key d) ≡ length d)
unfolding mask_bytes
mask_bytes_twice key d k h = (mask_from_twice 0 key d k h, length-mask_from 0 key d)

read_payload_plain : (p rest : Bytes) → read_payload false [] (length p) (p ++ rest) ≡ ok (p, rest)
unfolding read_payload
read_payload_plain [] rest = refl
read_payload_plain (x ∷ xs) rest = rw (read_full-append (x ∷ xs) rest) (ground arith)

read_payload_masked :
    (key p rest : Bytes)
    → All IsByte key
    → All IsByte p
    → read_payload true key (length p) (mask_bytes key p ++ rest) ≡ ok (p, rest)
read_payload_masked key [] rest k h = unfold read_payload mask_bytes in refl
read_payload_masked key (x ∷ xs) rest k h =
    let (twice, same) = mask_bytes_twice key (x ∷ xs) k h in
    let read = rw same at (read_full-append (mask_bytes key (x ∷ xs)) rest) in
    unfold read_payload in ground (arith, read, twice)

read_length_short : (len : ℕ) (rest : Bytes) → len < 126 → read_length len rest ≡ ok (len, rest)
unfolding read_length
read_length_short len rest h = ground arith

read_length_two :
    (len : ℕ) (rest : Bytes)
    → 126 ≤ len
    → len ≤ 65535
    → read_length 126 (put_big_endian 2 len ++ rest) ≡ ok (len, rest)
unfolding read_length
read_length_two len rest h g =
    rw (read_full-append (put_big_endian 2 len) rest)
      (ground (arith, big_endian-put_two len (omega arith)))

read_length_eight :
    (len : ℕ) (rest : Bytes)
    → 65535 < len
    → len < 2 ^ 63
    → read_length 127 (put_big_endian 8 len ++ rest) ≡ ok (len, rest)
unfolding read_length
read_length_eight len rest h g =
    rw (read_full-append (put_big_endian 8 len) rest)
      (ground (arith, big_endian-put_eight len (omega arith)))

-- The masking key and the payload are found behind the length.
record ReadsBody (masked : Bool) (p src rest : Bytes) : Type 0 where
  key : Bytes
  src' : Bytes
  key_read : read_key masked src ≡ ok (key, src')
  payload_read : read_payload masked key (length p) src' ≡ ok (p, rest)

read_body :
    (masked : Bool) (key p rest : Bytes)
    → IsKey masked key
    → All IsByte p
    → ReadsBody masked p (body masked key p ++ rest) rest
unfolding read_key
read_body true key p rest (four, k) h = record {
  key = key;
  src' = mask_bytes key p ++ rest;
  key_read = rw (append_assoc, ← four) (read_full-append key (mask_bytes key p ++ rest));
  payload_read = read_payload_masked key p rest k h;
}
read_body false key p rest k h = record {
  key = [];
  src' = p ++ rest;
  key_read = refl;
  payload_read = read_payload_plain p rest;
}

opcode-lt : (op : ℕ) → defined_opcode op ≡ true → op < 16
opcode-lt op h = ground arith

-- What the code reads off the first byte.
first_byte_bits :
    (fin : Bool) (op : ℕ)
    → op < 16
    → (not (bit_and (bit fin + op) 0x80 == 0) ≡ fin)
      × (bit_and (bit fin + op) 0x0f ≡ op)
      × (bit_and (bit fin + op) 0x70 ≡ 0)
first_byte_bits true op h = (
  ground (arith, top_bit (128 + op) (omega arith)),
  omega (arith, low_nibble (128 + op) (omega arith)),
  omega (arith, reserved_bits (128 + op) (omega arith)),
)
first_byte_bits false op h = (
  ground (arith, top_bit (0 + op) (omega arith)),
  omega (arith, low_nibble (0 + op) (omega arith)),
  omega (arith, reserved_bits (0 + op) (omega arith)),
)

-- What it reads off the second.
second_byte_bits :
    (masked : Bool) (low : ℕ)
    → low < 128
    → (not (bit_and (bit masked + low) 0x80 == 0) ≡ masked)
      × (bit_and (bit masked + low) 0x7f ≡ low)
second_byte_bits true low h = (
  ground (arith, top_bit (128 + low) (omega arith)),
  omega (arith, low_seven (128 + low) (omega arith)),
)
second_byte_bits false low h = (
  ground (arith, top_bit (0 + low) (omega arith)),
  omega (arith, low_seven (0 + low) (omega arith)),
)

check_limits_of_IsAllowed :
    (f : Frame) (max_size : ℕ)
    → IsAllowed max_size f
    → check_limits f.fin f.opcode (length f.payload) max_size ≡ ok tt
unfolding check_limits
check_limits_of_IsAllowed f max_size a = ground arith

-- Behind the two bytes of the header, the length and the body decide the result.
read_frame_header :
    (f : Frame) (max_size low : ℕ) (key src₁ rest : Bytes)
    → IsAllowed max_size f
    → IsKey f.masked key
    → All IsByte f.payload
    → low < 128
    → read_length low src₁ ≡ ok (length f.payload, body f.masked key f.payload ++ rest)
    → read_frame (first_byte f ∷ (bit f.masked + low) ∷ src₁) max_size ≡ ok (f, rest)
unfolding read_frame
read_frame_header f max_size low key src₁ rest a k h l e =
    let r = read_body f.masked key f.payload rest k h in
    ground (
      arith,
      first_byte_bits f.fin f.opcode (opcode-lt f.opcode a.opcode_defined),
      second_byte_bits f.masked low l,
      check_limits_of_IsAllowed f max_size a,
      r.key_read,
      r.payload_read,
    )

-- For a frame that the limit allows, with bytes as its payload and a key of four bytes if it is
-- masked: reading its encoding gives the frame with its payload unmasked, and leaves exactly what
-- follows it.
pub read_frame-encode :
    (f : Frame) (max_size : ℕ) (key rest : Bytes)
    → IsAllowed max_size f
    → IsKey f.masked key
    → All IsByte f.payload
    → read_frame (encode f key ++ rest) max_size ≡ ok (f, rest)
unfolding encode length_bytes
read_frame-encode f max_size key rest a k h = elim (Bool-cases (ltb (length f.payload) 126)) [
  | inl short ↦ rw short (
      read_frame_header f max_size (length f.payload) key _ rest a k h (ground arith)
        (read_length_short (length f.payload) _ (ground arith)))
  | inr more ↦ elim (Bool-cases (leb (length f.payload) 65535)) [
    | inl two ↦
        rw (more, two)
          (read_frame_header f max_size 126 key _ rest a k h (omega arith)
            (read_length_two (length f.payload) _ (ground arith) (ground arith)))
    | inr eight ↦
        rw (more, eight)
          (read_frame_header f max_size 127 key _ rest a k h (omega arith)
            (read_length_eight (length f.payload) _ (ground arith) a.length_fits))
  ]
]

-- What `write_frame` writes, `read_frame` reads back as an unmasked frame, for every frame that the
-- limit allows; it leaves exactly what follows the frame.
pub read_frame-write_frame :
    (fin : Bool) (op : ℕ) (payload : Bytes) (max_size : ℕ) (rest : Bytes)
    → IsAllowed max_size (record { fin = fin; opcode = op; masked = false; payload = payload })
    → All IsByte payload
    → read_frame (write_frame fin op payload ++ rest) max_size
      ≡ ok (record { fin = fin; opcode = op; masked = false; payload = payload }, rest)
read_frame-write_frame fin op payload max_size rest a h =
    let f : Frame = record { fin = fin; opcode = op; masked = false; payload = payload } in
    let low : op < 128 = omega (arith, opcode-lt op a.opcode_defined) in
    rw (write_frame-encode fin op payload low) (read_frame-encode f max_size [] rest a refl h)
