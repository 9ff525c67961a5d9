-- ===== src/Ws/Frame/Sound.antt =====
-- What a successful `read_frame` says of the bytes that it read.
use mathlib.Core.Logic.{◌⊎◌}
use kruda.Base.{
  ℕ, zero, suc, ◌+◌, ◌^◌, ◌<◌, ◌≡◌, refl, inl, inr, bit_and, Bool, true, false, not, [], ◌∷◌, ◌++◌,
  ◌==◌, arith, Bytes, IsByte, length, All, append_assoc, append-nil, top_bit, low_nibble, low_seven,
  reserved_bits, length-take, take-append-drop, Bool-cases,
}
use kruda.Ws.Frame.{
  Frame, Result, ok, err, FrameError, read_full, big_endian, put_big_endian, mask_bytes,
  defined_opcode, read_length, check_limits, read_key, read_payload, read_frame,
}
use kruda.Ws.Frame.Encoding.{bit, first_byte, length_bytes, body, encode, IsAllowed, IsKey}
use kruda.Ws.Frame.RoundTrip.{mask_bytes_twice, mask_bytes-IsByte}

-- `io.ReadFull` takes a prefix of the length that it was asked for.
read_full_sound :
    (n : ℕ) (src : Bytes) {xs rest : Bytes}
    → read_full n src ≡ ok (xs, rest)
    → (src ≡ xs ++ rest) × (length xs ≡ n)
unfolding read_full
read_full_sound zero src e = ground arith
read_full_sound (suc n) [] e = cc
read_full_sound (suc n) (b ∷ bs) e = ground (arith, length-take n bs, take-append-drop n bs)

record Reads (n : ℕ) (src : Bytes) : Type 0 where
  taken : Bytes
  left : Bytes
  reads : read_full n src ≡ ok (taken, left)
  splits : src ≡ taken ++ left
  length_taken : length taken ≡ n

read_full_cases :
    (n : ℕ) (src : Bytes) → Reads n src ⊎ ((e : FrameError) × (read_full n src ≡ err e))
read_full_cases n src = go (read_full n src) refl
  where
    go :
        (r : Result (Bytes × Bytes))
        → read_full n src ≡ r
        → Reads n src ⊎ ((e : FrameError) × (read_full n src ≡ err e))
    go (ok (xs, rest)) e =
        let (s, l) = read_full_sound n src e in
        inl (record { taken = xs; left = rest; reads = e; splits = s; length_taken = l })
    go (err x) e = inr (x, e)

All-append_left : (xs ys : Bytes) → All IsByte (xs ++ ys) → All IsByte xs × All IsByte ys
All-append_left [] ys h = (tt, h)
All-append_left (x ∷ xs) ys (p, h) = let (l, r) = All-append_left xs ys h in ((p, l), r)

put-big_endian_two :
    (xs : Bytes) → length xs ≡ 2 → All IsByte xs → put_big_endian 2 (big_endian xs) ≡ xs
put-big_endian_two (a ∷ b ∷ []) l h = ground arith
put-big_endian_two _ l h = absurd (omega arith)

put-big_endian_eight :
    (xs : Bytes) → length xs ≡ 8 → All IsByte xs → put_big_endian 8 (big_endian xs) ≡ xs
put-big_endian_eight (a ∷ b ∷ c ∷ d ∷ e ∷ f ∷ g ∷ i ∷ []) l h = ground arith
put-big_endian_eight _ l h = absurd (omega arith)

Reads-IsByte :
    {n : ℕ} {src : Bytes} (r : Reads n src)
    → All IsByte src
    → All IsByte r.taken × All IsByte r.left
Reads-IsByte r h = All-append_left r.taken r.left (rw r.splits at h)

-- A length that is read is written back in the same bytes.
read_length_sound :
    (masked : Bool) (low : ℕ) (src : Bytes) {len : ℕ} {rest : Bytes}
    → low < 128
    → All IsByte src
    → read_length low src ≡ ok (len, rest)
    → ((bit masked + low) ∷ src ≡ length_bytes masked len ++ rest)
      × (len < 2 ^ 63)
      × All IsByte rest
unfolding read_length length_bytes
read_length_sound masked low src {len} {rest} l h e = elim (Bool-cases (low == 126)) [
  | inl two ↦ elim (read_full_cases 2 src) [
    | inl r ↦
        let (t, u) = Reads-IsByte r h in
        let written = put-big_endian_two r.taken r.length_taken t in
        ground (arith, r.reads, r.splits, written)
    | inr (x, bad) ↦ ground arith
  ]
  | inr other ↦ elim (Bool-cases (low == 127)) [
    | inl eight ↦ elim (read_full_cases 8 src) [
      | inl r ↦
          let (t, u) = Reads-IsByte r h in
          let written = put-big_endian_eight r.taken r.length_taken t in
          ground (arith, r.reads, r.splits, written)
      | inr (x, bad) ↦ ground arith
    ]
    | inr short ↦ ground arith
  ]
]

read_key_sound :
    (masked : Bool) (src : Bytes) {key rest : Bytes}
    → All IsByte src
    → read_key masked src ≡ ok (key, rest)
    → IsKey masked key × (src ≡ key ++ rest) × All IsByte rest
unfolding read_key
read_key_sound true src h e =
    let (s, l) = read_full_sound 4 src e in
    let (t, u) = All-append_left _ _ (rw s at h) in ((l, t), s, u)
read_key_sound false src h e = ground arith

body_empty :
    (masked : Bool) (key src : Bytes)
    → IsKey masked key
    → (key ++ src ≡ body masked key [] ++ src) × (length {A = ℕ} [] ≡ 0) × All IsByte []
unfolding mask_bytes
body_empty true key src k = (rw append-nil, refl, tt)
body_empty false key src k = (rw k, refl, tt)

read_payload_sound :
    (masked : Bool) (key : Bytes) (len : ℕ) (src : Bytes) {payload rest : Bytes}
    → IsKey masked key
    → All IsByte src
    → read_payload masked key len src ≡ ok (payload, rest)
    → (key ++ src ≡ body masked key payload ++ rest) × (length payload ≡ len) × All IsByte payload
unfolding read_payload
read_payload_sound masked key zero src {payload} {rest} k h e =
    let nothing : payload ≡ [] = ground arith in
    let same : rest ≡ src = ground arith in rw (nothing, same) (body_empty masked key src k)
read_payload_sound true key (suc n) src k h e = elim (read_full_cases (suc n) src) [
  | inl r ↦
      let (t, u) = Reads-IsByte r h in
      let (twice, len) = mask_bytes_twice key r.taken k.1 t in
      let masked = mask_bytes-IsByte key r.taken k.1 t in
      let whole = append_assoc key r.taken r.left in
      ground (arith, r.reads, r.splits, r.length_taken, twice, len, masked, whole)
  | inr (x, bad) ↦ ground arith
]
read_payload_sound false key (suc n) src k h e = elim (read_full_cases (suc n) src) [
  | inl r ↦ let (t, u) = Reads-IsByte r h in ground (arith, r.reads, r.splits, r.length_taken)
  | inr (x, bad) ↦ ground arith
]

pub Result-cases :
    {A : Type 0} (r : Result A) → ((a : A) × (r ≡ ok a)) ⊎ ((e : FrameError) × (r ≡ err e))
Result-cases (ok a) = inl (a, refl)
Result-cases (err e) = inr (e, refl)

-- The parts of a successful read behind the two bytes of the header.
pub record Parts (b₀ b₁ : ℕ) (src : Bytes) (max_size : ℕ) (f : Frame) (rest : Bytes) : Type 0 where
  pub len : ℕ
  pub key : Bytes
  pub src₂ : Bytes
  pub src₃ : Bytes
  pub reserved_clear : bit_and b₀ 0x70 ≡ 0
  pub fin_read : f.fin ≡ not (bit_and b₀ 0x80 == 0)
  pub opcode_read : f.opcode ≡ bit_and b₀ 0x0f
  pub masked_read : f.masked ≡ not (bit_and b₁ 0x80 == 0)
  pub opcode_defined : defined_opcode f.opcode ≡ true
  pub length_read : read_length (bit_and b₁ 0x7f) src ≡ ok (len, src₂)
  pub limits : check_limits f.fin f.opcode len max_size ≡ ok tt
  pub key_read : read_key f.masked src₂ ≡ ok (key, src₃)
  pub payload_read : read_payload f.masked key len src₃ ≡ ok (f.payload, rest)

pub read_frame-Parts :
    (b₀ b₁ : ℕ) (src : Bytes) (max_size : ℕ) (f : Frame) (rest : Bytes)
    → read_frame (b₀ ∷ b₁ ∷ src) max_size ≡ ok (f, rest)
    → Parts b₀ b₁ src max_size f rest
unfolding read_frame
read_frame-Parts b₀ b₁ src max_size f rest e =
    elim (Result-cases (read_length (bit_and b₁ 0x7f) src)) [
      | inl ((len, src₂), l) ↦ elim (Result-cases (read_key (not (bit_and b₁ 0x80 == 0)) src₂)) [
        | inl ((key, src₃), k) ↦ record {
          len = len;
          key = key;
          src₂ = src₂;
          src₃ = src₃;
          reserved_clear = ground arith;
          fin_read = ground arith;
          opcode_read = ground arith;
          masked_read = ground arith;
          opcode_defined = ground arith;
          length_read = l;
          limits = ground arith;
          key_read = ground arith;
          payload_read = ground arith;
        }
        | inr (x, bad) ↦ absurd (ground arith)
      ]
      | inr (x, bad) ↦ absurd (ground arith)
    ]

check_limits_sound :
    (f : Frame) (max_size : ℕ)
    → defined_opcode f.opcode ≡ true
    → length f.payload < 2 ^ 63
    → check_limits f.fin f.opcode (length f.payload) max_size ≡ ok tt
    → IsAllowed max_size f
unfolding check_limits
check_limits_sound f max_size o l e = record {
  opcode_defined = o;
  length_fits = l;
  within_max = ground arith;
  control_whole = ground arith;
  control_short = ground arith;
}

-- The two bytes of the header are those of the frame that was read.
header_bytes :
    (f : Frame) (b₀ b₁ : ℕ)
    → b₀ < 256
    → b₁ < 256
    → bit_and b₀ 0x70 ≡ 0
    → f.fin ≡ not (bit_and b₀ 0x80 == 0)
    → f.opcode ≡ bit_and b₀ 0x0f
    → f.masked ≡ not (bit_and b₁ 0x80 == 0)
    → (b₀ ≡ first_byte f) × (b₁ ≡ bit f.masked + bit_and b₁ 0x7f) × (bit_and b₁ 0x7f < 128)
header_bytes f b₀ b₁ h g r x y z = (
  ground (arith, top_bit b₀ h, low_nibble b₀ h, reserved_bits b₀ h),
  ground (arith, top_bit b₁ g, low_seven b₁ g),
  omega (arith, low_seven b₁ g),
)

-- The frame is allowed, and the bytes read are its encoding under some key.
pub record IsEncoded (max_size : ℕ) (f : Frame) (src rest : Bytes) : Type 0 where
  pub key : Bytes
  pub is_key : IsKey f.masked key
  pub allowed : IsAllowed max_size f
  pub payload_bytes : All IsByte f.payload
  pub encoded : src ≡ encode f key ++ rest

Parts-IsEncoded :
    {b₀ b₁ : ℕ} {src : Bytes} {max_size : ℕ} {f : Frame} {rest : Bytes}
    → All IsByte (b₀ ∷ b₁ ∷ src)
    → Parts b₀ b₁ src max_size f rest
    → IsEncoded max_size f (b₀ ∷ b₁ ∷ src) rest
unfolding encode
Parts-IsEncoded {b₀} {b₁} {src} {f} {rest} (h₀, (h₁, h)) p =
    let (first, second, low) =
      header_bytes f b₀ b₁ h₀ h₁ p.reserved_clear p.fin_read p.opcode_read p.masked_read in
    let (written, fits, bytes₂) = read_length_sound f.masked _ src low h p.length_read in
    let (is_key, split₂, bytes₃) = read_key_sound f.masked p.src₂ bytes₂ p.key_read in
    let (split₃, same, bytes) =
      read_payload_sound f.masked p.key p.len p.src₃ is_key bytes₃ p.payload_read in
    record {
      key = p.key;
      is_key = is_key;
      allowed = check_limits_sound f _ p.opcode_defined (rw same fits) (rw same p.limits);
      payload_bytes = bytes;
      encoded = cc (
        first,
        second,
        written,
        split₂,
        split₃,
        same,
        append_assoc (length_bytes f.masked p.len) (body f.masked p.key f.payload) rest,
      );
    }

-- A frame that `read_frame` returns was on the wire in the one encoding that RFC 6455 allows: the
-- bytes read are its encoding under some key of four bytes, or none if it is not masked, followed by
-- what is left; the opcode is a defined one, the size limit holds, and a control frame is whole and
-- has at most 125 bytes.
pub read_frame-IsEncoded :
    (src : Bytes) (max_size : ℕ) (f : Frame) (rest : Bytes)
    → All IsByte src
    → read_frame src max_size ≡ ok (f, rest)
    → IsEncoded max_size f src rest
read_frame-IsEncoded [] max_size f rest h e = unfold read_frame in absurd (ground arith)
read_frame-IsEncoded (b₀ ∷ []) max_size f rest h e = unfold read_frame in absurd (ground arith)
read_frame-IsEncoded (b₀ ∷ b₁ ∷ src) max_size f rest h e =
    Parts-IsEncoded h (read_frame-Parts b₀ b₁ src max_size f rest e)
