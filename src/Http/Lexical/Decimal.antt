-- ===== src/Http/Lexical/Decimal.antt =====
-- wing_http.go: `btoi` and the number that its digits spell.
use kruda.Base.{
  ℕ, ◌+◌, ◌-◌, ◌*◌, ◌≤◌, ◌≡◌, arith, min, true, [], ◌∷◌, Bytes, ltb, Bool-cases, inl, inr,
}
use kruda.Http.Lexical.{every, is_digit, is_all_digits, max_content_length, btoi_from, btoi}

-- The value of a string of digits behind the number `n`, without a bound.
unfoldable pub decimal_from : ℕ → Bytes → ℕ
decimal_from n [] = n
decimal_from n (c ∷ cs) = decimal_from (n * 10 + (c - b'0')) cs

decimal_from-le : (n : ℕ) (b : Bytes) → n ≤ decimal_from n b
unfolding decimal_from
decimal_from-le n [] = omega arith
decimal_from-le n (c ∷ cs) = omega (arith, decimal_from-le (n * 10 + (c - b'0')) cs)

btoi_from-decimal_from :
    (n : ℕ) (b : Bytes)
    → every is_digit b ≡ true
    → n ≤ max_content_length
    → btoi_from n b ≡ min (decimal_from n b) (max_content_length + 1)
unfolding decimal_from btoi_from
btoi_from-decimal_from n [] digits h = omega arith
btoi_from-decimal_from n (c ∷ cs) digits h =
    let m = n * 10 + (c - b'0') in
    elim (Bool-cases (ltb max_content_length m)) [
      | inl over ↦ ground (arith, decimal_from-le m cs)
      | inr under ↦ ground (arith, btoi_from-decimal_from m cs)
    ]

-- Of a value made of digits only, `btoi` is the number that they spell as long as that is no more
-- than the largest content length, and one more than the largest content length from there on.
pub btoi-decimal_from :
    (b : Bytes) → is_all_digits b ≡ true → btoi b ≡ min (decimal_from 0 b) (max_content_length + 1)
unfolding btoi is_all_digits
btoi-decimal_from b digits = btoi_from-decimal_from 0 b (ground arith) (omega arith)
