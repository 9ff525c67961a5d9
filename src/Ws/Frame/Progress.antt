-- ===== src/Ws/Frame/Progress.antt =====
-- contrib/ws/frame.go: how many bytes a frame takes from the reader.
use kruda.Base.{
  ℕ, ◌≤◌, ◌<◌, ◌≡◌, arith, Bool, true, false, [], ◌∷◌, Bytes, length, length-drop, Bool-cases, inl,
  inr, ltb, ◌==◌,
}
use kruda.Ws.Frame.{Frame, ok, read_full, read_length, read_key, read_payload, read_frame}
use kruda.Ws.Frame.Sound.{read_frame-Parts, Result-cases}

read_full-le :
    (n : ℕ) (src part rest : Bytes) → read_full n src ≡ ok (part, rest) → length rest ≤ length src
unfolding read_full
read_full-le n src part rest e = ground (arith, length-drop n src)

read_length-le :
    (n : ℕ) (src : Bytes) (len : ℕ) (rest : Bytes)
    → read_length n src ≡ ok (len, rest)
    → length rest ≤ length src
unfolding read_length
read_length-le n src len rest e = elim (Bool-cases (n == 126)) [
  | inl two ↦ elim (Result-cases (read_full 2 src)) [
    | inl ((ext, left), r) ↦ ground (arith, two, r, read_full-le 2 src ext left r)
    | inr (x, r) ↦ absurd (ground (arith, two, r))
  ]
  | inr more ↦ elim (Bool-cases (n == 127)) [
    | inl eight ↦ elim (Result-cases (read_full 8 src)) [
      | inl ((ext, left), r) ↦ ground (arith, more, eight, r, read_full-le 8 src ext left r)
      | inr (x, r) ↦ absurd (ground (arith, more, eight, r))
    ]
    | inr short ↦ ground (arith, more, short)
  ]
]

read_key-le :
    (masked : Bool) (src key rest : Bytes)
    → read_key masked src ≡ ok (key, rest)
    → length rest ≤ length src
unfolding read_key
read_key-le true src key rest e = read_full-le 4 src key rest e
read_key-le false src key rest e = ground arith

read_payload-le :
    (masked : Bool) (key : Bytes) (len : ℕ) (src payload rest : Bytes)
    → read_payload masked key len src ≡ ok (payload, rest)
    → length rest ≤ length src
unfolding read_payload
read_payload-le masked key len src payload rest e = elim (Bool-cases (ltb 0 len)) [
  | inl some_left ↦ elim (Result-cases (read_full len src)) [
    | inl ((part, left), r) ↦ ground (arith, some_left, r, read_full-le len src part left r)
    | inr (x, r) ↦ absurd (ground (arith, some_left, r))
  ]
  | inr none_left ↦ ground (arith, none_left)
]

pub read_frame-lt :
    (src : Bytes) (max_size : ℕ) (f : Frame) (rest : Bytes)
    → read_frame src max_size ≡ ok (f, rest)
    → length rest < length src
read_frame-lt [] max_size f rest e = unfold read_frame in absurd (ground arith)
read_frame-lt (b₀ ∷ []) max_size f rest e = unfold read_frame in absurd (ground arith)
read_frame-lt (b₀ ∷ b₁ ∷ src) max_size f rest e =
    let p = read_frame-Parts b₀ b₁ src max_size f rest e in
    omega (
      arith,
      read_length-le _ src p.len p.src₂ p.length_read,
      read_key-le f.masked p.src₂ p.key p.src₃ p.key_read,
      read_payload-le f.masked p.key p.len p.src₃ f.payload rest p.payload_read,
    )
