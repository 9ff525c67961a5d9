-- ===== src/Base/ByteStrings.antt =====
-- Go's `string` and `[]byte` as lists of bytes, with the functions of `strings` and `bytes` that the
-- program calls.
use Prim.Native.Nat.{ℕ, suc, ◌<◌, ◌≤◌}
use Prim.Native.Char.{code}
use Prim.Native.String.{String}
use mathlib.Core.Path.{◌≡◌}
use mathlib.Core.Bool.{Bool, true, false, ◌&&◌}
use mathlib.Core.Logic.{◌↔◌, inl, inr}
use mathlib.Core.Option
use mathlib.Core.Option.{Option, none, some}
use mathlib.Core.List.{List, [], ◌∷◌, ◌++◌}
use native.Mathlib.Omega.{arith}
use kruda.Base.Tests.{◌==◌, if◌then◌else◌, Option-cases}
use kruda.Base.Lists.{length}

abbrev pub Bytes : Type 0
Bytes = List ℕ

abbrev pub IsByte : ℕ → Type 0
IsByte b = b < 256

-- The bytes of an ASCII literal.
abbrev pub codes : String → Bytes
codes String.[] = []
codes (String.◌∷◌ c s) = code c ∷ codes s

-- `==` on strings, and `bytes.Equal`.
infix 50 ◌=ᵇ◌
unfoldable pub ◌=ᵇ◌ : Bytes → Bytes → Bool
[] =ᵇ [] = true
(x ∷ xs) =ᵇ (y ∷ ys) = x == y && xs =ᵇ ys
_ =ᵇ _ = false

pub =ᵇ_iff : (xs ys : Bytes) → ((xs =ᵇ ys) ≡ true) ↔ (xs ≡ ys)
unfolding ◌=ᵇ◌
=ᵇ_iff (x ∷ xs) (y ∷ ys) = ground (arith, =ᵇ_iff xs ys)
=ᵇ_iff _ _ = ground arith

-- `strings.IndexByte`, with `none` for -1.
unfoldable pub index_byte : Bytes → ℕ → Option ℕ
index_byte [] c = none
index_byte (x ∷ xs) c = if x == c then some 0 else Option.map suc (index_byte xs c)

-- `strings.HasPrefix`.
unfoldable pub has_prefix : Bytes → Bytes → Bool
has_prefix xs [] = true
has_prefix (x ∷ xs) (p ∷ ps) = x == p && has_prefix xs ps
has_prefix [] (p ∷ ps) = false

pub prefix-le : (xs ps : Bytes) → has_prefix xs ps ≡ true → length ps ≤ length xs
unfolding has_prefix
prefix-le xs [] h = omega arith
prefix-le (x ∷ xs) (p ∷ ps) h = ground (arith, prefix-le xs ps)
prefix-le [] (p ∷ ps) h = absurd (ground arith)

-- More bytes change neither what is found nor a prefix.
pub index_byte-append :
    (xs more : Bytes) (c i : ℕ) → index_byte xs c ≡ some i → index_byte (xs ++ more) c ≡ some i
unfolding index_byte
index_byte-append [] more c i e = absurd (ground arith)
index_byte-append (x ∷ xs) more c i e = elim (Option-cases (index_byte xs c)) [
  | inl missing ↦ ground arith
  | inr (j, found) ↦ ground (arith, index_byte-append xs more c j found)
]

pub index_byte-lt : (xs : Bytes) (c i : ℕ) → index_byte xs c ≡ some i → i < length xs
unfolding index_byte
index_byte-lt [] c i e = absurd (ground arith)
index_byte-lt (x ∷ xs) c i e = elim (Option-cases (index_byte xs c)) [
  | inl missing ↦ ground arith
  | inr (j, found) ↦ ground (arith, index_byte-lt xs c j found)
]

pub has_prefix-append :
    (xs more ps : Bytes) → length ps ≤ length xs → has_prefix (xs ++ more) ps ≡ has_prefix xs ps
unfolding has_prefix
has_prefix-append xs more [] h = cc
has_prefix-append (x ∷ xs) more (p ∷ ps) h = rw (has_prefix-append xs more ps (omega arith))
has_prefix-append [] more (p ∷ ps) h = absurd (omega arith)

-- `strings.Split(s, sep)` for a separator of one byte; the result is never empty.
abbrev pub push_head : ℕ → List Bytes → List Bytes
push_head c [] = (c ∷ []) ∷ []
push_head c (p ∷ ps) = (c ∷ p) ∷ ps

unfoldable pub split : ℕ → Bytes → List Bytes
split sep [] = [] ∷ []
split sep (c ∷ cs) = if c == sep then [] ∷ split sep cs else push_head c (split sep cs)
