-- ===== src/PathTraversal/Safe.antt =====
-- middleware/pathtraversal.go: what a path that passes holds.
use kruda.Base.{
  ℕ, ◌≡◌, ◌≢◌, ◌∙◌, refl, ap, sym, arith, Bool, true, false, ◌||◌, List, [], ◌∷◌, Option, none,
  some, if◌then◌else◌, ◌==◌, Bytes, codes, ◌=ᵇ◌, =ᵇ_iff, split, push_head, All, Bool-cases, inl,
  inr,
}
use mathlib.Core.Path.{subst}
use kruda.Http.Lexical.{contains_byte}
use kruda.PathTraversal.{
  passed, contains_dot_or_percent, with_slashes, has_dot_dot, contains_dot_dot, decode,
  is_path_traversal, path_traversal,
}

abbrev NoDot : Bytes → Type 0
NoDot s = contains_byte s b'.' ≡ false

quick-NoDot : (s : Bytes) → contains_dot_or_percent s ≡ false → NoDot s
unfolding contains_dot_or_percent
quick-NoDot [] h = refl
quick-NoDot (c ∷ cs) h = ground (arith, quick-NoDot cs)

quick-no_percent : (s : Bytes) → contains_dot_or_percent s ≡ false → contains_byte s b'%' ≡ false
unfolding contains_dot_or_percent
quick-no_percent [] h = refl
quick-no_percent (c ∷ cs) h = ground (arith, quick-no_percent cs)

with_slashes-NoDot : (s : Bytes) → NoDot s → NoDot (with_slashes s)
unfolding with_slashes
with_slashes-NoDot [] h = refl
with_slashes-NoDot (c ∷ cs) h = ground (arith, with_slashes-NoDot cs)

push_head-NoDot :
    (c : ℕ) (ps : List Bytes) → (c == b'.') ≡ false → All NoDot ps → All NoDot (push_head c ps)
push_head-NoDot c [] h ps = (ground (arith, h), tt)
push_head-NoDot c (p ∷ ps) h hs = (ground (arith, h, hs.0), hs.1)

split-NoDot : (s : Bytes) → NoDot s → All NoDot (split b'/' s)
unfolding split
split-NoDot [] h = (refl, tt)
split-NoDot (c ∷ cs) h = elim (Bool-cases (c == b'/')) [
  | inl here ↦ rw here (refl, split-NoDot cs (ground (arith, h)))
  | inr later ↦
      rw later
        (push_head-NoDot c (split b'/' cs) (ground (arith, h)) (split-NoDot cs (ground (arith, h))))
]

piece-NoDot : (p : Bytes) → NoDot p → (p =ᵇ codes "..") ≡ false
unfolding ◌=ᵇ◌
piece-NoDot [] h = refl
piece-NoDot (c ∷ cs) h = ground (arith, h)

has_dot_dot-NoDot : (ps : List Bytes) → All NoDot ps → has_dot_dot ps ≡ false
unfolding has_dot_dot
has_dot_dot-NoDot [] h = refl
has_dot_dot-NoDot (p ∷ ps) h = ground (arith, piece-NoDot p h.0, has_dot_dot-NoDot ps h.1)

-- The pieces of a path between slashes and backslashes.
abbrev pub segments : Bytes → List Bytes
segments [] = [] ∷ []
segments (c ∷ cs) =
    let rest = segments cs in if c == b'\\' || c == b'/' then [] ∷ rest else push_head c rest

split-segments : (s : Bytes) → split b'/' (with_slashes s) ≡ segments s
unfolding with_slashes split
split-segments [] = refl
split-segments (c ∷ cs) = elim (Bool-cases (c == b'\\')) [
  | inl back ↦ rw (back, split) (ap (λ ps. [] ∷ ps) (split-segments cs))
  | inr other ↦ elim (Bool-cases (c == b'/')) [
    | inl slash ↦ rw (other, slash, split) (ap (λ ps. [] ∷ ps) (split-segments cs))
    | inr plain ↦ rw (other, plain, split) (ap (push_head c) (split-segments cs))
  ]
]

abbrev pub NotDotDot : Bytes → Type 0
NotDotDot s = s ≢ codes ".."

has_dot_dot-NotDotDot : (ps : List Bytes) → has_dot_dot ps ≡ false → All NotDotDot ps
unfolding has_dot_dot
has_dot_dot-NotDotDot [] h = tt
has_dot_dot-NotDotDot (p ∷ ps) h = (
  λ e. absurd (ground (arith, h, (=ᵇ_iff p (codes "..")).1 e)),
  has_dot_dot-NotDotDot ps (ground (arith, h)),
)

some-injective : {a b : Bytes} → some a ≡ some b → a ≡ b
some-injective e = cc

judged :
    (clean : Bytes → Bytes) (o : Option Bytes) (d : Bytes)
    → (elim o as (λ _. Bool) [
      | none ↦ true
      | some x ↦
          has_dot_dot (split b'/' (with_slashes x)) || contains_dot_dot (clean (with_slashes x))
    ])
      ≡ false
    → o ≡ some d
    → has_dot_dot (split b'/' (with_slashes d)) ≡ false
judged clean none d h e = absurd (ground arith)
judged clean (some x) d h e = rw (← some-injective e) (ground (arith, h))

module _ (path_unescape : Bytes → Option Bytes) (clean : Bytes → Bytes)
    (keeps_plain : (s : Bytes) → contains_byte s b'%' ≡ false → path_unescape s ≡ some s) where
  decode-plain :
      (s : Bytes) → contains_byte s b'%' ≡ false → decode path_unescape clean 3 s ≡ some s
  unfolding decode
  decode-plain s h = rw (keeps_plain s h, decode, (=ᵇ_iff s s).1 refl) refl

  traversal-no_dot_dot :
      (path d : Bytes)
      → is_path_traversal path_unescape clean path ≡ false
      → decode path_unescape clean 3 path ≡ some d
      → has_dot_dot (split b'/' (with_slashes d)) ≡ false
  unfolding is_path_traversal
  traversal-no_dot_dot path d h e = judged clean (decode path_unescape clean 3 path) d h e

  path_traversal-has_dot_dot :
      (path d : Bytes)
      → path_traversal path_unescape clean path ≡ passed
      → decode path_unescape clean 3 path ≡ some d
      → has_dot_dot (split b'/' (with_slashes d)) ≡ false
  unfolding path_traversal
  path_traversal-has_dot_dot path d h e = elim (Bool-cases (contains_dot_or_percent path)) [
    | inr plain ↦
        let same : path ≡ d =
          some-injective (sym (decode-plain path (quick-no_percent path plain)) ∙ e) in
        rw (← same) (
          has_dot_dot-NoDot (split b'/' (with_slashes path))
            (split-NoDot (with_slashes path) (with_slashes-NoDot path (quick-NoDot path plain))))
    | inl checked ↦ elim (Bool-cases (is_path_traversal path_unescape clean path)) [
      | inl bad ↦ absurd (ground (arith, checked, bad, h))
      | inr good ↦ traversal-no_dot_dot path d good e
    ]
  ]

  -- No piece of a path that the middleware lets through is `..`: neither between its slashes nor between
  -- its backslashes, once it is decoded up to three times, and also where it passes by the quick check
  -- alone. PathUnescape leaves a path without a percent sign as it is.
  pub path_traversal-NotDotDot :
      (path d : Bytes)
      → path_traversal path_unescape clean path ≡ passed
      → decode path_unescape clean 3 path ≡ some d
      → All NotDotDot (segments d)
  path_traversal-NotDotDot path d e decoded = subst (All NotDotDot) (split-segments d) (
      has_dot_dot-NotDotDot (split b'/' (with_slashes d))
        (path_traversal-has_dot_dot path d e decoded))
