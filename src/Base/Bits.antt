-- ===== src/Base/Bits.antt =====
-- The bit operations on bytes that the program uses, as arithmetic, by evaluation of all bytes.
use Prim.Native.Nat.{ℕ, zero, suc, ◌+◌, ◌*◌, ◌/◌, ◌%◌, ◌<◌, bit_and, bit_or, bit_xor}
use mathlib.Core.Path.{◌≡◌, refl}
use mathlib.Core.Bool.{Bool, true, false}
use native.Mathlib.Omega.{arith}
use kruda.Base.Tests.{◌==◌, ==_iff, ltb, ltb→lt, if◌then◌else◌}

-- A test of all the numbers below a bound, and what it shows of one of them.
unfoldable holds_below : (ℕ → Bool) → ℕ → Bool
holds_below test zero = true
holds_below test (suc bound) = if test bound then holds_below test bound else false

holds_below-at :
    (test : ℕ → Bool) {bound : ℕ}
    → holds_below test bound ≡ true
    → (b : ℕ) → b < bound
    → test b ≡ true
unfolding holds_below
holds_below-at test {bound = zero} held b inside = absurd (omega arith)
holds_below-at test {bound = suc bound} held b inside =
    let last : test bound ≡ true = ground (arith, held) in
    let earlier : holds_below test bound ≡ true = ground (arith, held) in
    ground (arith, last, holds_below-at test {bound = bound} earlier b)

top_bit_table : holds_below (λ x. bit_and x 0x80 == x / 128 * 128) 256 ≡ true
unfolding holds_below
top_bit_table = refl

pub top_bit : (x : ℕ) → x < 256 → bit_and x 0x80 ≡ x / 128 * 128
top_bit x h = (==_iff _ _).0 (holds_below-at _ top_bit_table x h)

reserved_bits_table : holds_below (λ x. bit_and x 0x70 == x % 128 / 16 * 16) 256 ≡ true
unfolding holds_below
reserved_bits_table = refl

pub reserved_bits : (x : ℕ) → x < 256 → bit_and x 0x70 ≡ x % 128 / 16 * 16
reserved_bits x h = (==_iff _ _).0 (holds_below-at _ reserved_bits_table x h)

low_nibble_table : holds_below (λ x. bit_and x 0x0f == x % 16) 256 ≡ true
unfolding holds_below
low_nibble_table = refl

pub low_nibble : (x : ℕ) → x < 256 → bit_and x 0x0f ≡ x % 16
low_nibble x h = (==_iff _ _).0 (holds_below-at _ low_nibble_table x h)

low_seven_table : holds_below (λ x. bit_and x 0x7f == x % 128) 256 ≡ true
unfolding holds_below
low_seven_table = refl

pub low_seven : (x : ℕ) → x < 256 → bit_and x 0x7f ≡ x % 128
low_seven x h = (==_iff _ _).0 (holds_below-at _ low_seven_table x h)

set_top_bit_table : holds_below (λ x. bit_or x 0x80 == x + 128) 128 ≡ true
unfolding holds_below
set_top_bit_table = refl

pub set_top_bit : (x : ℕ) → x < 128 → bit_or x 0x80 ≡ x + 128
set_top_bit x h = (==_iff _ _).0 (holds_below-at _ set_top_bit_table x h)

xor_twice_table : holds_below (λ x. holds_below (λ k. bit_xor (bit_xor x k) k == x) 256) 256 ≡ true
unfolding holds_below
xor_twice_table = refl

pub xor_twice : (x k : ℕ) → x < 256 → k < 256 → bit_xor (bit_xor x k) k ≡ x
xor_twice x k h g =
    (==_iff _ _).0 (
      holds_below-at (λ k. bit_xor (bit_xor x k) k == x) (holds_below-at _ xor_twice_table x h) k g)

xor_below_table : holds_below (λ x. holds_below (λ k. ltb (bit_xor x k) 256) 256) 256 ≡ true
unfolding holds_below
xor_below_table = refl

pub xor_below : (x k : ℕ) → x < 256 → k < 256 → bit_xor x k < 256
xor_below x k h g =
    ltb→lt _ _
      (holds_below-at (λ k. ltb (bit_xor x k) 256) (holds_below-at _ xor_below_table x h) k g)
