-- ===== src/Http/HeaderMap/Laws.antt =====
-- wing_http.go: what is looked up after Set and Del, and the entries that Add and Del leave.
use kruda.Base.{
  ℕ, zero, suc, ◌≤◌, ◌≡◌, ◌∙◌, refl, ap, arith, List, [], ◌∷◌, ◌++◌, false, if◌then◌else◌, ltb,
  Bytes, ◌=ᵇ◌, =ᵇ_iff, length, none, some, Bool-cases, Option-cases, inl, inr, append_assoc,
  append-nil,
}
use mathlib.Core.List.{Perm, perm_middle}
use mathlib.Core.List.Perm
use kruda.Http.HeaderMap.{
  WingHeader, WingHeaders, slot_count, replace_first, find_value, add, set, get, behind_last,
  last_first, swap_remove, del,
}

-- All entries, in the order in which they are written.
abbrev pub entries : WingHeaders → List WingHeader
entries h = h.slots ++ h.extra

-- The entries with another key.
abbrev pub without : Bytes → List WingHeader → List WingHeader
without key [] = []
without key (h ∷ hs) = if h.key =ᵇ key then without key hs else h ∷ without key hs

without-append :
    (key : Bytes) (hs gs : List WingHeader)
    → without key (hs ++ gs) ≡ without key hs ++ without key gs
without-append key [] gs = refl
without-append key (h ∷ hs) gs = elim (Bool-cases (h.key =ᵇ key)) [
  | inl same ↦ rw same (without-append key hs gs)
  | inr other ↦ rw other (ap (◌∷◌ h) (without-append key hs gs))
]

without-cons :
    (key : Bytes) (h : WingHeader) (hs gs : List WingHeader)
    → Perm (without key hs) (without key gs)
    → Perm (without key (h ∷ hs)) (without key (h ∷ gs))
without-cons key h hs gs p = elim (Bool-cases (h.key =ᵇ key)) [
  | inl same ↦ rw same p
  | inr other ↦ rw other (Perm.cons h p)
]

without-behind_last :
    (key : Bytes) (h : WingHeader) (hs : List WingHeader)
    → Perm (without key (behind_last h hs)) (without key (h ∷ hs))
without-behind_last key h [] = Perm.refl (without key (h ∷ []))
without-behind_last key h (l ∷ hs) = elim (Bool-cases (h.key =ᵇ key)) [
  | inl same ↦ rw same (Perm.refl (without key (l ∷ hs)))
  | inr other ↦ elim (Bool-cases (l.key =ᵇ key)) [
    | inl gone ↦ rw (other, gone) (Perm.refl (h ∷ without key hs))
    | inr kept ↦ rw (other, kept) (Perm.swap h l (without key hs))
  ]
]

without-last_first :
    (key : Bytes) (hs : List WingHeader) → Perm (without key (last_first hs)) (without key hs)
unfolding last_first
without-last_first key [] = Perm.refl []
without-last_first key (h ∷ hs) =
    Perm.trans (without-behind_last key h (last_first hs))
      (without-cons key h (last_first hs) hs (without-last_first key hs))

length-behind_last :
    (h : WingHeader) (hs : List WingHeader) → length (behind_last h hs) ≡ suc (length hs)
length-behind_last h [] = refl
length-behind_last h (l ∷ hs) = refl

length-last_first : (hs : List WingHeader) → length (last_first hs) ≡ length hs
unfolding last_first
length-last_first [] = refl
length-last_first (h ∷ hs) = length-behind_last h (last_first hs) ∙ ap suc (length-last_first hs)

swap_remove-Perm :
    (fuel : ℕ) (key : Bytes) (hs : List WingHeader)
    → length hs ≤ fuel
    → Perm (swap_remove fuel key hs) (without key hs)
unfolding swap_remove
swap_remove-Perm zero key [] le = Perm.refl []
swap_remove-Perm zero key (h ∷ hs) le = absurd (omega arith)
swap_remove-Perm (suc fuel) key [] le = Perm.refl []
swap_remove-Perm (suc fuel) key (h ∷ hs) le = elim (Bool-cases (h.key =ᵇ key)) [
  | inl same ↦ rw same (
      Perm.trans (swap_remove-Perm fuel key (last_first hs) (omega (arith, length-last_first hs)))
        (without-last_first key hs))
  | inr other ↦ rw other (Perm.cons h (swap_remove-Perm fuel key hs (omega arith)))
]

-- `Del` leaves exactly the entries with another key, each as often as it was there. Their order may
-- change.
pub del-Perm :
    (h : WingHeaders) (key : Bytes) → Perm (entries (del h key)) (without key (entries h))
unfolding del
del-Perm h key = rw (without-append key h.slots h.extra) (
    Perm.append (swap_remove-Perm (length h.slots) key h.slots (omega arith))
      (swap_remove-Perm (length h.extra) key h.extra (omega arith)))

-- `Add` keeps every entry and has one more.
pub add-Perm :
    (h : WingHeaders) (key value : Bytes)
    → Perm (entries (add h key value)) (record { key = key; val = value } ∷ entries h)
unfolding add
add-Perm h key value =
    let header : WingHeader = record { key = key; val = value } in
    elim (Bool-cases (ltb (length h.slots) slot_count)) [
      | inl room ↦ rw (room, append_assoc) (perm_middle h.slots h.extra)
      | inr full ↦
          rw (full, ← append_assoc)
            (rw (append-nil (h.slots ++ h.extra)) at
              (perm_middle {a = header} (h.slots ++ h.extra) []))
    ]

=ᵇ-comm : (a b : Bytes) → (a =ᵇ b) ≡ (b =ᵇ a)
unfolding ◌=ᵇ◌
=ᵇ-comm [] [] = refl
=ᵇ-comm [] (y ∷ ys) = refl
=ᵇ-comm (x ∷ xs) [] = refl
=ᵇ-comm (x ∷ xs) (y ∷ ys) = ground (arith, =ᵇ-comm xs ys)

find_value-replace_first :
    (key value k : Bytes) (hs hs' : List WingHeader)
    → replace_first key value hs ≡ some hs'
    → find_value k hs' ≡ (if key =ᵇ k then some value else find_value k hs)
unfolding find_value replace_first
find_value-replace_first key value k [] hs' e = cc
find_value-replace_first key value k (h ∷ hs) hs' e = elim (Bool-cases (h.key =ᵇ key)) [
  | inl same ↦ ground (arith, (=ᵇ_iff h.key key).0 same)
  | inr other ↦ elim (Option-cases (replace_first key value hs)) [
    | inl missing ↦ ground arith
    | inr (gs, found) ↦
        let rest = find_value-replace_first key value k hs gs found in
        let apart : key ≡ k → (h.key =ᵇ k) ≡ false = λ e. rw (← e) other in
        elim (Bool-cases (key =ᵇ k)) [
          | inl here ↦ ground (arith, rest, apart ((=ᵇ_iff key k).0 here))
          | inr away ↦ ground (arith, rest)
        ]
  ]
]

find_value-none :
    (key value : Bytes) (hs : List WingHeader)
    → replace_first key value hs ≡ none
    → find_value key hs ≡ none
unfolding find_value replace_first
find_value-none key value [] e = refl
find_value-none key value (h ∷ hs) e = elim (Option-cases (replace_first key value hs)) [
  | inl missing ↦ ground (arith, find_value-none key value hs)
  | inr (gs, found) ↦ ground arith
]

find_value-snoc :
    (k : Bytes) (hs : List WingHeader) (h : WingHeader)
    → find_value k (hs ++ h ∷ [])
      ≡ elim (find_value k hs) [ some v ↦ some v | none ↦ if h.key =ᵇ k then some h.val else none ]
unfolding find_value
find_value-snoc k [] h = refl
find_value-snoc k (g ∷ hs) h = ground (arith, find_value-snoc k hs h)

-- What is found under a key once a value is set: under the key that was set that value, wherever its
-- entry stands, and under any other key what was found before.
pub get-set_any :
    (h : WingHeaders) (key value k : Bytes)
    → get (set h key value) k ≡ (if key =ᵇ k then value else get h k)
unfolding set get add
get-set_any h key value k = elim (Option-cases (replace_first key value h.slots)) [
  | inr (slots', found) ↦ ground (arith, find_value-replace_first key value k h.slots slots' found)
  | inl no_slot ↦
      let not_in_slots : key ≡ k → find_value k h.slots ≡ none =
        λ e. rw (← e) (find_value-none key value h.slots no_slot) in
      let same_key = (=ᵇ_iff key k).0 in
      elim (Option-cases (replace_first key value h.extra)) [
        | inr (extra', found) ↦ elim (Bool-cases (key =ᵇ k)) [
          | inl here ↦ ground (
            arith,
            not_in_slots (same_key here),
            find_value-replace_first key value k h.extra extra' found,
          )
          | inr away ↦ ground (arith, find_value-replace_first key value k h.extra extra' found)
        ]
        | inl no_extra ↦
            let header : WingHeader = record { key = key; val = value } in
            let not_in_extra : key ≡ k → find_value k h.extra ≡ none =
              λ e. rw (← e) (find_value-none key value h.extra no_extra) in
            elim (Bool-cases (key =ᵇ k)) [
              | inl here ↦ ground (
                arith,
                not_in_slots (same_key here),
                not_in_extra (same_key here),
                find_value-snoc k h.slots header,
                find_value-snoc k h.extra header,
              )
              | inr away ↦
                  ground (arith, find_value-snoc k h.slots header, find_value-snoc k h.extra header)
            ]
      ]
]
