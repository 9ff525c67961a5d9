-- ===== src/Http/Response/Digits.antt =====
-- wing_http.go: the digits of a number, the number that they spell and how many they are.
use kruda.Base.{
  ℕ, zero, suc, ◌+◌, ◌-◌, ◌*◌, ◌/◌, ◌%◌, ◌≤◌, ◌<◌, ◌≡◌, ◌∙◌, refl, ap, arith, true, false, [], ◌∷◌,
  ◌++◌, ltb, ◌==◌, Bytes, length, Bool-cases, inl, inr,
}
use kruda.Http.Lexical.{every, is_digit}
use kruda.Http.Lexical.Decimal.{decimal_from}
use kruda.Http.Response.Serial.{
  itoa_from, itoa, decimal_len_from, decimal_len, content_length_value_len,
  append_content_length_value,
}

itoa_from-decimal_from :
    (fuel n : ℕ) (acc : Bytes)
    → n < fuel
    → decimal_from 0 (itoa_from fuel n acc) ≡ decimal_from n acc
unfolding itoa_from decimal_from
itoa_from-decimal_from zero n acc h = absurd (omega arith)
itoa_from-decimal_from (suc fuel) n acc h = elim (Bool-cases (ltb n 10)) [
  | inl small ↦
      let e : 0 * 10 + (b'0' + n % 10 - b'0') ≡ n = ground arith in
      rw small (ap (λ m. decimal_from m acc) e)
  | inr big ↦
      let e : n / 10 * 10 + (b'0' + n % 10 - b'0') ≡ n = omega arith in
      let less : n / 10 < fuel = ground arith in
      rw big (itoa_from-decimal_from fuel (n / 10) ((b'0' + n % 10) ∷ acc) less ∙ rw e refl)
]

-- The digits spell the number.
pub decimal_from-itoa : (n : ℕ) → decimal_from 0 (itoa n) ≡ n
unfolding itoa decimal_from
decimal_from-itoa n = itoa_from-decimal_from (suc n) n [] (omega arith)

itoa_from-every :
    (fuel n : ℕ) (acc : Bytes)
    → every is_digit acc ≡ true
    → every is_digit (itoa_from fuel n acc) ≡ true
unfolding itoa_from
itoa_from-every zero n acc h = h
itoa_from-every (suc fuel) n acc h =
    let digits : every is_digit ((b'0' + n % 10) ∷ acc) ≡ true = ground (arith, h) in
    elim (Bool-cases (ltb n 10)) [
      | inl small ↦ rw small digits
      | inr big ↦ rw big (itoa_from-every fuel (n / 10) ((b'0' + n % 10) ∷ acc) digits)
    ]

pub every-itoa : (n : ℕ) → every is_digit (itoa n) ≡ true
unfolding itoa every
every-itoa n = itoa_from-every (suc n) n [] refl

decimal_len_from-zero : (k : ℕ) → decimal_len_from k 0 ≡ 0
unfolding decimal_len_from
decimal_len_from-zero zero = refl
decimal_len_from-zero (suc k) = refl

length-itoa_from :
    (fuel n k : ℕ) (acc : Bytes)
    → 0 < n
    → n < fuel
    → n ≤ k
    → length (itoa_from fuel n acc) ≡ decimal_len_from k n + length acc
unfolding itoa_from decimal_len_from
length-itoa_from zero n k acc pos h le = absurd (omega arith)
length-itoa_from (suc fuel) n zero acc pos h le = absurd (omega arith)
length-itoa_from (suc fuel) n (suc k) acc pos h le =
    let positive : ltb 0 n ≡ true = ground arith in
    elim (Bool-cases (ltb n 10)) [
      | inl small ↦
          let none_left : n / 10 ≡ 0 = ground arith in
          rw (small, positive, none_left, decimal_len_from-zero k) (omega arith)
      | inr big ↦
          let some_left : 0 < n / 10 = ground arith in
          rw (big, positive)
            (length-itoa_from fuel (n / 10) k ((b'0' + n % 10) ∷ acc) some_left (omega arith)
                (omega arith)
              ∙ omega arith)
    ]

-- The room that is made for the digits is exactly what they take.
pub length-itoa : (n : ℕ) → length (itoa n) ≡ content_length_value_len n
unfolding content_length_value_len decimal_len itoa
length-itoa n = elim (Bool-cases (ltb n 2049)) [
  | inl table ↦ rw table refl
  | inr computed ↦
      let nonzero : (n == 0) ≡ false = ground arith in
      rw (computed, nonzero)
        (length-itoa_from (suc n) n n [] (ground arith) (omega arith) (omega arith) ∙ omega arith)
]

pub append_content_length_value_lem :
    (b : Bytes) (n : ℕ) → append_content_length_value b n ≡ b ++ itoa n
unfolding append_content_length_value
append_content_length_value_lem b n = ground arith
