-- ===== src/Etag/Laws.antt =====
-- contrib/etag/etag.go: the loop over the list of tags against a split.
use kruda.Base.{
  ℕ, ◌≡◌, ◌∙◌, refl, ap, sym, arith, Bool, true, false, ◌||◌, List, [], ◌∷◌, ◌++◌, append_assoc,
  append-nil, ◌==◌, Bytes, ◌=ᵇ◌, =ᵇ_iff, split, push_head, Bool-cases, inl, inr,
}
use kruda.Etag.{is_weak_etag, opaque_tag, trim_spaces, is_candidate, contains_from, contains_etag}

-- Some piece has the same opaque tag, which is the weak comparison of RFC 9110.
abbrev pub any_match : Bytes → List Bytes → Bool
any_match etag [] = false
any_match etag (p ∷ ps) = opaque_tag (trim_spaces p) =ᵇ opaque_tag etag || any_match etag ps

=ᵇ-cong : (a b : Bytes) → (a =ᵇ b) ≡ true → (opaque_tag a =ᵇ opaque_tag b) ≡ true
=ᵇ-cong a b h = (=ᵇ_iff (opaque_tag a) (opaque_tag b)).1 (ap opaque_tag ((=ᵇ_iff a b).0 h))

is_candidate_lem : (c etag : Bytes) → is_candidate c etag ≡ (opaque_tag c =ᵇ opaque_tag etag)
unfolding is_candidate
is_candidate_lem c etag = elim (Bool-cases (c =ᵇ etag)) [
  | inl same ↦ ground (arith, same, =ᵇ-cong c etag same)
  | inr other ↦ elim (Bool-cases (is_weak_etag c || is_weak_etag etag)) [
    | inl weak ↦ rw (other, weak) refl
    | inr strong ↦ ground (arith, other, strong)
  ]
]

abbrev prepend : Bytes → List Bytes → List Bytes
prepend segment [] = segment ∷ []
prepend segment (p ∷ ps) = (segment ++ p) ∷ ps

prepend-push_head :
    (segment : Bytes) (c : ℕ) (ps : List Bytes)
    → prepend segment (push_head c ps) ≡ prepend (segment ++ c ∷ []) ps
prepend-push_head segment c [] = refl
prepend-push_head segment c (p ∷ ps) = ap (λ x. x ∷ ps) (sym (append_assoc segment (c ∷ []) p))

prepend-nil : (c : ℕ) (ps : List Bytes) → prepend [] (push_head c ps) ≡ push_head c ps
prepend-nil c [] = refl
prepend-nil c (p ∷ ps) = refl

prepend-split : (cs : Bytes) → prepend [] (split b',' cs) ≡ split b',' cs
unfolding split
prepend-split [] = refl
prepend-split (c ∷ cs) = elim (Bool-cases (c == b',')) [
  | inl comma ↦ rw comma refl
  | inr other ↦ rw other (prepend-nil c (split b',' cs))
]

or_false : (b : Bool) → b ≡ (b || false)
or_false true = refl
or_false false = refl

contains_from-split :
    (etag segment rest : Bytes)
    → contains_from etag segment rest ≡ any_match etag (prepend segment (split b',' rest))
unfolding contains_from split
contains_from-split etag segment [] =
    rw (append-nil segment, is_candidate_lem (trim_spaces segment) etag) (or_false _)
contains_from-split etag segment (c ∷ cs) = elim (Bool-cases (c == b',')) [
  | inl comma ↦
      rw
        (
          comma,
          append-nil segment,
          is_candidate_lem (trim_spaces segment) etag,
          contains_from-split etag [] cs,
          prepend-split cs,
        )
        refl
  | inr other ↦ rw other (
      contains_from-split etag (segment ++ c ∷ []) cs
      ∙ ap (any_match etag) (sym (prepend-push_head segment c (split b',' cs))))
]

pub contains_etag-split :
    (list etag : Bytes) → contains_etag list etag ≡ any_match etag (split b',' list)
unfolding contains_etag
contains_etag-split list etag =
    contains_from-split etag [] list ∙ ap (any_match etag) (prepend-split list)
