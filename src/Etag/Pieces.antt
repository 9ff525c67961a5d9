-- ===== src/Etag/Pieces.antt =====
-- contrib/etag/etag.go: the pieces of If-None-Match without their blanks, and the weak comparison, said
-- of the bytes.
use kruda.Base.{
  ℕ, ◌≡◌, ◌≢◌, ◌∙◌, ◌↔◌, refl, ap, sym, arith, Bool, true, false, not, ◌&&◌, ◌||◌, List, [], ◌∷◌,
  ◌++◌, append-nil, if◌then◌else◌, ◌==◌, Bytes, ◌=ᵇ◌, =ᵇ_iff, split, is_empty, Bool-cases, inl, inr,
}
use mathlib.Core.Path.{subst}
use kruda.Etag.{is_weak_etag, opaque_tag, trim_front, trim_back, trim_spaces, contains_etag}
use kruda.Etag.Laws.{any_match, contains_etag-split}

-- A space or a tab.
abbrev pub is_blank : ℕ → Bool
is_blank c = c == 32 || c == 9

abbrev pub blank : Bytes → Bool
blank [] = true
blank (c ∷ cs) = is_blank c && blank cs

abbrev pub plain_first : Bytes → Bool
plain_first [] = true
plain_first (c ∷ cs) = not (is_blank c)

abbrev pub plain_last : Bytes → Bool
plain_last [] = true
plain_last (c ∷ []) = not (is_blank c)
plain_last (c ∷ d ∷ cs) = plain_last (d ∷ cs)

-- The piece is the tag with blanks before and behind it, and the tag has none at its ends.
pub record IsTrimmed (tag piece : Bytes) : Type 0 where
  pub front : Bytes
  pub back : Bytes
  pub whole : piece ≡ front ++ (tag ++ back)
  pub blank_front : blank front ≡ true
  pub blank_back : blank back ≡ true
  pub first : plain_first tag ≡ true
  pub last : plain_last tag ≡ true

-- What a tag says besides `W/`, which only makes a tag weak where something follows.
pub data IsOpaque : Bytes → Bytes → Type 0 where
  weak_tag : (a : ℕ) (more : Bytes) → IsOpaque (b'W' ∷ b'/' ∷ a ∷ more) (a ∷ more)
  strong_tag : (t : Bytes) → ((a : ℕ) (more : Bytes) → t ≢ b'W' ∷ b'/' ∷ a ∷ more) → IsOpaque t t

-- A piece holds a tag that says the same.
pub data HasTag (etag : Bytes) : List Bytes → Type 0 where
  here :
      (p : Bytes) (ps : List Bytes) (tag said : Bytes)
      → IsTrimmed tag p
      → IsOpaque tag said
      → IsOpaque etag said
      → HasTag etag (p ∷ ps)
  there : (p : Bytes) (ps : List Bytes) → HasTag etag ps → HasTag etag (p ∷ ps)

abbrev front_of : Bytes → Bytes
front_of [] = []
front_of (c ∷ cs) = let rest = front_of cs in if is_blank c then c ∷ rest else []

abbrev back_of : Bytes → Bytes
back_of [] = []
back_of (c ∷ cs) =
    let rest = back_of cs in if is_blank c && is_empty (trim_back cs) then c ∷ cs else rest

front_of-append : (s : Bytes) → s ≡ front_of s ++ trim_front s
unfolding trim_front
front_of-append [] = refl
front_of-append (c ∷ cs) = ground (arith, front_of-append cs)

blank-front_of : (s : Bytes) → blank (front_of s) ≡ true
blank-front_of [] = refl
blank-front_of (c ∷ cs) = ground (arith, blank-front_of cs)

plain_first-trim_front : (s : Bytes) → plain_first (trim_front s) ≡ true
unfolding trim_front
plain_first-trim_front [] = refl
plain_first-trim_front (c ∷ cs) = ground (arith, plain_first-trim_front cs)

empty : (s : Bytes) → is_empty s ≡ true → s ≡ []
empty [] h = refl
empty (c ∷ cs) h = absurd (ground arith)

trim_back-append : (s : Bytes) → s ≡ trim_back s ++ back_of s
unfolding trim_back
trim_back-append [] = refl
trim_back-append (c ∷ cs) = elim (Bool-cases (is_blank c && is_empty (trim_back cs))) [
  | inl drops ↦ rw (drops, trim_back) refl
  | inr keeps ↦ rw (keeps, trim_back) (ap (◌∷◌ c) (trim_back-append cs))
]

blank-back_of : (s : Bytes) → blank (back_of s) ≡ true
unfolding trim_back
blank-back_of [] = refl
blank-back_of (c ∷ cs) = elim (Bool-cases (is_blank c && is_empty (trim_back cs))) [
  | inl drops ↦
      let none_left : trim_back cs ≡ [] = empty (trim_back cs) (ground (arith, drops)) in
      let same : cs ≡ back_of cs = trim_back-append cs ∙ ap (λ t. t ++ back_of cs) none_left in
      let rest : blank cs ≡ true = ap blank same ∙ blank-back_of cs in ground (arith, drops, rest)
  | inr keeps ↦ ground (arith, keeps, blank-back_of cs)
]

plain_last-cons :
    (c : ℕ) (s : Bytes)
    → plain_last s ≡ true
    → (is_blank c && is_empty s) ≡ false
    → plain_last (c ∷ s) ≡ true
plain_last-cons c [] h k = ground (arith, k)
plain_last-cons c (d ∷ ds) h k = h

plain_last-trim_back : (s : Bytes) → plain_last (trim_back s) ≡ true
unfolding trim_back
plain_last-trim_back [] = refl
plain_last-trim_back (c ∷ cs) = elim (Bool-cases (is_blank c && is_empty (trim_back cs))) [
  | inl drops ↦ rw (drops, trim_back) refl
  | inr keeps ↦
      rw (keeps, trim_back) (plain_last-cons c (trim_back cs) (plain_last-trim_back cs) keeps)
]

plain_first-trim_back : (s : Bytes) → plain_first s ≡ true → plain_first (trim_back s) ≡ true
unfolding trim_back
plain_first-trim_back [] h = refl
plain_first-trim_back (c ∷ cs) h = ground (arith, h)

trim_spaces-IsTrimmed : (s : Bytes) → IsTrimmed (trim_spaces s) s
unfolding trim_spaces
trim_spaces-IsTrimmed s = record {
  front = front_of s;
  back = back_of (trim_front s);
  whole = front_of-append s ∙ ap (λ t. front_of s ++ t) (trim_back-append (trim_front s));
  blank_front = blank-front_of s;
  blank_back = blank-back_of (trim_front s);
  first = plain_first-trim_back (trim_front s) (plain_first-trim_front s);
  last = plain_last-trim_back (trim_front s);
}

trim_front-blank : (f s : Bytes) → blank f ≡ true → trim_front (f ++ s) ≡ trim_front s
unfolding trim_front
trim_front-blank [] s h = refl
trim_front-blank (c ∷ cs) s h = ground (arith, h, trim_front-blank cs s)

trim_front-plain : (s : Bytes) → plain_first s ≡ true → trim_front s ≡ s
unfolding trim_front
trim_front-plain [] h = refl
trim_front-plain (c ∷ cs) h = ground (arith, h)

trim_back-blank : (b : Bytes) → blank b ≡ true → trim_back b ≡ []
unfolding trim_back
trim_back-blank [] h = refl
trim_back-blank (c ∷ cs) h =
    rw (trim_back-blank cs (ground (arith, h)), trim_back) (ground (arith, h))

trim_back-plain : (s b : Bytes) → plain_last s ≡ true → blank b ≡ true → trim_back (s ++ b) ≡ s
unfolding trim_back
trim_back-plain [] b h k = trim_back-blank b k
trim_back-plain (c ∷ []) b h k = rw (trim_back-blank b k, trim_back) (ground (arith, h))
trim_back-plain (c ∷ d ∷ ds) b h k =
    let ih : trim_back (d ∷ (ds ++ b)) ≡ d ∷ ds = trim_back-plain (d ∷ ds) b h k in
    ground (arith, ih)

trim_spaces-parts :
    (f s b : Bytes)
    → blank f ≡ true
    → blank b ≡ true
    → plain_first s ≡ true
    → plain_last s ≡ true
    → trim_spaces (f ++ (s ++ b)) ≡ s
unfolding trim_spaces trim_back trim_front
trim_spaces-parts f [] b hf hb h k =
    ap trim_back
      (trim_front-blank f b hf ∙ ap trim_front (sym (append-nil b)) ∙ trim_front-blank b [] hb)
trim_spaces-parts f (c ∷ cs) b hf hb h k =
    ap trim_back (trim_front-blank f ((c ∷ cs) ++ b) hf ∙ trim_front-plain ((c ∷ cs) ++ b) h)
    ∙ trim_back-plain (c ∷ cs) b k hb

IsTrimmed-trim_spaces : {tag p : Bytes} → IsTrimmed tag p → trim_spaces p ≡ tag
IsTrimmed-trim_spaces {tag} {p} t =
    ap trim_spaces t.whole
    ∙ trim_spaces-parts t.front tag t.back t.blank_front t.blank_back t.first t.last

opaque_tag-IsOpaque : (t : Bytes) → IsOpaque t (opaque_tag t)
unfolding opaque_tag is_weak_etag
opaque_tag-IsOpaque [] = strong_tag [] (λ a more e. ground (arith, e))
opaque_tag-IsOpaque (x ∷ []) = strong_tag (x ∷ []) (λ a more e. ground (arith, e))
opaque_tag-IsOpaque (x ∷ y ∷ []) = strong_tag (x ∷ y ∷ []) (λ a more e. ground (arith, e))
opaque_tag-IsOpaque (x ∷ y ∷ z ∷ zs) = elim (Bool-cases (x == b'W' && y == b'/')) [
  | inl is_weak ↦
      let first : x ≡ b'W' = ground (arith, is_weak) in
      let second : y ≡ b'/' = ground (arith, is_weak) in rw (first, second) (weak_tag z zs)
  | inr strong ↦ rw strong (strong_tag (x ∷ y ∷ z ∷ zs) (λ a more e. ground (arith, strong, e)))
]

IsOpaque-opaque_tag : {t said : Bytes} → IsOpaque t said → opaque_tag t ≡ said
unfolding opaque_tag is_weak_etag
IsOpaque-opaque_tag (weak_tag a more) = refl
IsOpaque-opaque_tag (strong_tag [] h) = refl
IsOpaque-opaque_tag (strong_tag (x ∷ []) h) = refl
IsOpaque-opaque_tag (strong_tag (x ∷ y ∷ []) h) = refl
IsOpaque-opaque_tag (strong_tag (x ∷ y ∷ z ∷ zs) h) = elim (Bool-cases (x == b'W' && y == b'/')) [
  | inl is_weak ↦
      let first : x ≡ b'W' = ground (arith, is_weak) in
      let second : y ≡ b'/' = ground (arith, is_weak) in absurd (h z zs (rw (first, second) refl))
  | inr strong ↦ rw strong refl
]

any_match-HasTag : (etag : Bytes) (ps : List Bytes) → any_match etag ps ≡ true → HasTag etag ps
any_match-HasTag etag [] h = absurd (ground (arith, h))
any_match-HasTag etag (p ∷ ps) h =
    elim (Bool-cases (opaque_tag (trim_spaces p) =ᵇ opaque_tag etag)) [
      | inl same ↦
          here p ps (trim_spaces p) (opaque_tag etag) (trim_spaces-IsTrimmed p)
            (subst (IsOpaque (trim_spaces p))
              ((=ᵇ_iff (opaque_tag (trim_spaces p)) (opaque_tag etag)).0 same)
              (opaque_tag-IsOpaque (trim_spaces p)))
            (opaque_tag-IsOpaque etag)
      | inr other ↦ there p ps (any_match-HasTag etag ps (ground (arith, h, other)))
    ]

HasTag-any_match : {etag : Bytes} {ps : List Bytes} → HasTag etag ps → any_match etag ps ≡ true
HasTag-any_match {etag} (here p ps tag said trimmed says etag_says) =
    let same : opaque_tag (trim_spaces p) ≡ opaque_tag etag =
      ap opaque_tag (IsTrimmed-trim_spaces trimmed)
      ∙ IsOpaque-opaque_tag says
      ∙ sym (IsOpaque-opaque_tag etag_says) in
    ground (arith, (=ᵇ_iff (opaque_tag (trim_spaces p)) (opaque_tag etag)).1 same)
HasTag-any_match {etag} (there p ps rest) =
    let found = HasTag-any_match rest in ground (arith, found)

-- `containsETag` finds a tag exactly if some piece of the list between commas is, but for spaces and tabs
-- before and behind it, a tag that says the same: the bytes of both are equal once `W/` is left out where
-- something follows it.
pub contains_etag_iff :
    (list etag : Bytes) → (contains_etag list etag ≡ true) ↔ HasTag etag (split b',' list)
contains_etag_iff list etag = (
  λ h. any_match-HasTag etag (split b',' list) (sym (contains_etag-split list etag) ∙ h),
  λ h. contains_etag-split list etag ∙ HasTag-any_match h,
)
