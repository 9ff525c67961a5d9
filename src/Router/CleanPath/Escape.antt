-- ===== src/Router/CleanPath/Escape.antt =====
-- router.go: which paths `isTraversal` and `cleanPath` refuse.
use mathlib.Core.Path.{subst}
use kruda.Base.{
  ℕ, zero, suc, ◌+◌, ◌<◌, Bool, true, false, ◌||◌, List, [], ◌∷◌, ◌++◌, Option, none, some,
  if◌then◌else◌, Bytes, codes, ◌=ᵇ◌, split, has_prefix, is_empty, ◌≡◌, ◌↔◌, refl, arith, inl, inr,
  Bool-cases, Option-cases, ap, sym,
}
use kruda.Router.CleanPath.{
  bad_escape, path_traversal, ok, failed, strip_nuls, walk, is_traversal, decode_rounds, with_slash,
  clean_path,
}

-- What an independent reader counts: the steps down and the steps up.
unfoldable pub downs : List Bytes → ℕ
downs [] = 0
downs (s ∷ ss) =
    let rest = downs ss in
    if is_empty s || s =ᵇ codes "." || s =ᵇ codes ".." then rest else suc rest

unfoldable pub ups : List Bytes → ℕ
ups [] = 0
ups (s ∷ ss) = let rest = ups ss in if s =ᵇ codes ".." then suc rest else rest

-- Some first segments of a path go up more often than down, and so leave the directory that the path
-- starts in.
unfoldable pub Escapes : List Bytes → Type 0
Escapes segs = (xs ys : List Bytes) × (segs ≡ xs ++ ys) × (downs xs < ups xs)

-- The same, from a number of steps down that were taken before.
EscapesFrom : ℕ → List Bytes → Type 0
EscapesFrom d segs = (xs ys : List Bytes) × (segs ≡ xs ++ ys) × (downs xs + d < ups xs)

abbrev passed_over : Bytes → Bool
passed_over s = is_empty s || s =ᵇ codes "."

not_both : (s : Bytes) → passed_over s ≡ true → (s =ᵇ codes "..") ≡ false
unfolding ◌=ᵇ◌
not_both [] e = refl
not_both (c ∷ []) e = ground arith
not_both (c ∷ d ∷ cs) e = ground arith

walk-EscapesFrom : (d : ℕ) (segs : List Bytes) → walk d segs ≡ true → EscapesFrom d segs
unfolding walk EscapesFrom downs ups
walk-EscapesFrom zero [] w = absurd (ground arith)
walk-EscapesFrom (suc d) [] w = absurd (ground arith)
walk-EscapesFrom zero (s ∷ segs) w = elim (Bool-cases (passed_over s)) [
  | inl over ↦
      let (xs, ys, e, lt) = walk-EscapesFrom zero segs (ground (arith, over, w)) in
      (s ∷ xs, ys, ap (λ q. s ∷ q) e, ground (arith, over, not_both s over, lt))
  | inr step ↦ elim (Bool-cases (s =ᵇ codes "..")) [
    | inl up ↦ (s ∷ [], segs, refl, ground (arith, step, up))
    | inr down ↦
        let (xs, ys, e, lt) = walk-EscapesFrom 1 segs (ground (arith, step, down, w)) in
        (s ∷ xs, ys, ap (λ q. s ∷ q) e, ground (arith, step, down, lt))
  ]
]
walk-EscapesFrom (suc d) (s ∷ segs) w = elim (Bool-cases (passed_over s)) [
  | inl over ↦
      let (xs, ys, e, lt) = walk-EscapesFrom (suc d) segs (ground (arith, over, w)) in
      (s ∷ xs, ys, ap (λ q. s ∷ q) e, ground (arith, over, not_both s over, lt))
  | inr step ↦ elim (Bool-cases (s =ᵇ codes "..")) [
    | inl up ↦
        let (xs, ys, e, lt) = walk-EscapesFrom d segs (ground (arith, step, up, w)) in
        (s ∷ xs, ys, ap (λ q. s ∷ q) e, ground (arith, step, up, lt))
    | inr down ↦
        let (xs, ys, e, lt) = walk-EscapesFrom (suc (suc d)) segs (ground (arith, step, down, w)) in
        (s ∷ xs, ys, ap (λ q. s ∷ q) e, ground (arith, step, down, lt))
  ]
]

EscapesFrom-walk : (d : ℕ) (xs ys : List Bytes) → downs xs + d < ups xs → walk d (xs ++ ys) ≡ true
unfolding walk downs ups
EscapesFrom-walk d [] ys lt = absurd (ground arith)
EscapesFrom-walk zero (s ∷ xs) ys lt =
    ground (arith, not_both s, EscapesFrom-walk zero xs ys, EscapesFrom-walk 1 xs ys)
EscapesFrom-walk (suc d) (s ∷ xs) ys lt = ground (
  arith,
  not_both s,
  EscapesFrom-walk (suc d) xs ys,
  EscapesFrom-walk d xs ys,
  EscapesFrom-walk (suc (suc d)) xs ys,
)

-- `isTraversal` holds exactly if some first segments of the path go up more often than down.
is_traversal-Escapes : (p : Bytes) → (is_traversal p ≡ true) ↔ Escapes (split b'/' p)
unfolding is_traversal Escapes EscapesFrom
is_traversal-Escapes p = (
  (λ t.
      let (xs, ys, e, lt) = walk-EscapesFrom 0 (split b'/' p) t in (xs, ys, e, omega (arith, lt))),
  (λ (xs, ys, e, lt).
      subst (λ segs. walk 0 segs ≡ true) (sym e) (EscapesFrom-walk 0 xs ys (omega (arith, lt)))),
)

single_slash : (p : Bytes) → has_prefix (codes "/" ++ p) (codes "/") ≡ true
unfolding has_prefix
single_slash [] = refl
single_slash (c ∷ cs) = refl

with_slash-has_prefix : (p : Bytes) → has_prefix (with_slash p) (codes "/") ≡ true
unfolding with_slash
with_slash-has_prefix p = elim (Bool-cases (has_prefix p (codes "/"))) [
  | inl slash ↦ rw (slash, with_slash) slash
  | inr bare ↦ rw (bare, with_slash) (single_slash p)
]

module _ (path_unescape : Bytes → Option Bytes) (clean : Bytes → Bytes) where
  clean_path-failed :
      (raw : Bytes)
      → decode_rounds path_unescape 3 (strip_nuls raw) ≡ none
      → clean_path path_unescape clean raw ≡ failed bad_escape
  unfolding clean_path
  clean_path-failed raw e = rw (e, clean_path) refl

  clean_path-decoded :
      (raw d : Bytes)
      → decode_rounds path_unescape 3 (strip_nuls raw) ≡ some d
      → clean_path path_unescape clean raw
        ≡ (if is_traversal d then failed path_traversal else ok (with_slash (clean d)))
  unfolding clean_path
  clean_path-decoded raw d e = rw (e, clean_path) refl

  refused :
      (raw : Bytes)
      → clean_path path_unescape clean raw ≡ failed path_traversal
      → (d : Bytes) × (decode_rounds path_unescape 3 (strip_nuls raw) ≡ some d)
        × Escapes (split b'/' d)
  refused raw e = elim (Option-cases (decode_rounds path_unescape 3 (strip_nuls raw))) [
    | inl n ↦ absurd (ground (arith, clean_path-failed raw n, e))
    | inr (d, s) ↦
        let t : is_traversal d ≡ true = ground (arith, clean_path-decoded raw d s, e) in
        (d, s, (is_traversal-Escapes d).0 t)
  ]

  accepted :
      (raw p : Bytes) → clean_path path_unescape clean raw ≡ ok p → has_prefix p (codes "/") ≡ true
  accepted raw p e = elim (Option-cases (decode_rounds path_unescape 3 (strip_nuls raw))) [
    | inl n ↦ absurd (ground (arith, clean_path-failed raw n, e))
    | inr (d, s) ↦
        let same : with_slash (clean d) ≡ p = ground (arith, clean_path-decoded raw d s, e) in
        rw (← same) (with_slash-has_prefix (clean d))
  ]

  -- `cleanPath` refuses a path as a traversal exactly if the path, without its zero bytes and decoded
  -- up to three times, has first segments that go up more often than down; and a path that it gives
  -- starts with a slash.
  pub clean_path-Escapes :
      (raw : Bytes)
      → ((clean_path path_unescape clean raw ≡ failed path_traversal) ↔ (
          (d : Bytes) × (decode_rounds path_unescape 3 (strip_nuls raw) ≡ some d)
          × Escapes (split b'/' d)))
        × ((p : Bytes)
            → clean_path path_unescape clean raw ≡ ok p
            → has_prefix p (codes "/") ≡ true)
  clean_path-Escapes raw = (
    (
      refused raw,
      (λ (d, s, esc).
          let t : is_traversal d ≡ true = (is_traversal-Escapes d).1 esc in
          ground (arith, clean_path-decoded raw d s, t)),
    ),
    accepted raw,
  )
