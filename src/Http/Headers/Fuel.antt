-- ===== src/Http/Headers/Fuel.antt =====
-- wing_http.go: the fuel of the header loop of `parseHTTPRequestInternal`.
use kruda.Base.{
  ℕ, zero, suc, ◌≤◌, ◌≡◌, refl, arith, Bool, not, Option, some, none, [], ◌∷◌, ◌==◌, Bytes,
  index_byte, length, length-drop, take, drop, get_or, Option-cases, inl, inr,
}
use kruda.Http.Headers.{Limits, Fields, ◌>>=◌, reject_if, strip_cr, parse_line, parse_lines}

bind-same :
    {A B : Type 0} (m : Option A) {k l : A → Option B}
    → ((a : A) → k a ≡ l a)
    → (m >>= k) ≡ (m >>= l)
bind-same none same = refl
bind-same (some a) same = same a

-- The header loop gives the same result with any fuel that is at least the length of the window.
pub parse_lines-fuel :
    (n m : ℕ) (limits : Limits) (unsafe_path : Bool) (prev : ℕ) (window : Bytes) (f : Fields)
    → length window ≤ n
    → length window ≤ m
    → parse_lines n limits unsafe_path prev window f
      ≡ parse_lines m limits unsafe_path prev window f
unfolding parse_lines
parse_lines-fuel zero zero limits unsafe_path prev [] f h g = refl
parse_lines-fuel zero (suc m) limits unsafe_path prev [] f h g = refl
parse_lines-fuel (suc n) zero limits unsafe_path prev [] f h g = refl
parse_lines-fuel (suc n) (suc m) limits unsafe_path prev [] f h g = refl
parse_lines-fuel zero m limits unsafe_path prev (c ∷ cs) f h g = absurd (omega arith)
parse_lines-fuel (suc n) zero limits unsafe_path prev (c ∷ cs) f h g = absurd (omega arith)
parse_lines-fuel (suc n) (suc m) limits unsafe_path prev (c ∷ cs) f h g =
    elim (Option-cases (index_byte (c ∷ cs) b'\n')) [
      | inl missing ↦ rw (missing, parse_lines) refl
      | inr (zero, at_nl) ↦
          rw (at_nl, parse_lines)
            (bind-same (reject_if (not (prev == b'\r'))) λ u.
              bind-same (parse_line limits unsafe_path [] f) λ f'.
                parse_lines-fuel n m limits unsafe_path b'\n' cs f' (omega arith) (omega arith))
      | inr (suc nl, at_nl) ↦
          let rest = drop (suc nl) cs in
          rw (at_nl, parse_lines)
            (bind-same (reject_if (not (get_or (c ∷ cs) nl 0 == b'\r'))) λ u.
              bind-same (parse_line limits unsafe_path (strip_cr (take (suc nl) (c ∷ cs))) f) λ f'.
                parse_lines-fuel n m limits unsafe_path b'\n' rest f'
                  (omega (arith, length-drop (suc nl) cs)) (omega (arith, length-drop (suc nl) cs)))
    ]
