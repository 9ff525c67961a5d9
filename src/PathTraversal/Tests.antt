-- ===== src/PathTraversal/Tests.antt =====
-- Paths with `..` behind one and two rounds of decoding, with a decoder of `%2e` and `%25`.
use kruda.Base.{
  ◌≡◌, refl, ap, arith, false, ◌&&◌, ◌==◌, if◌then◌else◌, [], ◌∷◌, some, All, Bytes, codes, ◌=ᵇ◌,
  split,
}
use kruda.Http.Lexical.{contains_byte}
use kruda.PathTraversal.{rejected, path_traversal}
use kruda.PathTraversal.Safe.{NotDotDot, segments, path_traversal-NotDotDot}

abbrev unescaped : Bytes → Bytes
unescaped [] = []
unescaped (c ∷ []) = c ∷ []
unescaped (c ∷ d ∷ []) = c ∷ d ∷ []
unescaped (c ∷ d ∷ e ∷ cs) =
    let rest = unescaped cs in
    let plain = c ∷ unescaped (d ∷ e ∷ cs) in
    if c == b'%' && d == b'2' && e == b'e'
    then b'.' ∷ rest
    else if c == b'%' && d == b'2' && e == b'5'
    then b'%' ∷ rest
    else plain

unescaped-plain : (s : Bytes) → contains_byte s b'%' ≡ false → unescaped s ≡ s
unescaped-plain [] h = refl
unescaped-plain (c ∷ []) h = refl
unescaped-plain (c ∷ d ∷ []) h = refl
unescaped-plain (c ∷ d ∷ e ∷ cs) h = ground (arith, unescaped-plain (d ∷ e ∷ cs))

path_traversal-NotDotDot_example : All NotDotDot (segments (codes "/a.b\\c"))
unfolding path_traversal ◌=ᵇ◌ split
path_traversal-NotDotDot_example =
    path_traversal-NotDotDot (λ s. some (unescaped s)) (λ s. s)
      (λ s h. ap some (unescaped-plain s h)) (codes "/a%2eb\\c") (codes "/a.b\\c") refl refl

twice : path_traversal (λ s. some (unescaped s)) (λ s. s) (codes "/%252e./a") ≡ rejected
unfolding path_traversal ◌=ᵇ◌ split
twice = refl

-- Two dots within a segment are refused as well.
in_segment : path_traversal (λ s. some (unescaped s)) (λ s. s) (codes "/v1..2") ≡ rejected
unfolding path_traversal ◌=ᵇ◌ split
in_segment = refl
