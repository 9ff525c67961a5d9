-- ===== src/Cache/Store.antt =====
-- contrib/cache/memory_store.go: what Get finds, the bound on the entries and whom Set evicts.
use kruda.Base.{
  ℕ, ◌+◌, ◌≤◌, ◌<◌, ◌≡◌, ◌≢◌, ◌∙◌, refl, ap, sym, arith, true, false, not, ◌&&◌, List, [], ◌∷◌,
  Option, none, some, if◌then◌else◌, ltb, leb, Bytes, ◌=ᵇ◌, =ᵇ_iff, length, is_empty, Bool-cases,
  Option-cases, inl, inr, ◌⊎◌,
}
use mathlib.Core.List.{Mem, Perm, mem-cons, not-mem-nil, mem-cons_self, mem-cons_of_mem}
use mathlib.Core.List.Perm
use mathlib.Core.Logic.Or
use mathlib.Core.Path.{subst}
use mathlib.Core.Bool.{Bool-set}
use kruda.Cache.{
  older, CachedResponse, MemoryEntry, MemoryStore, is_expired, find_entry, remove_entry, put_entry,
  has_entry, victim, is_evicted, evict_oldest, set, remove_expired,
}

=ᵇ-self : (k : Bytes) → (k =ᵇ k) ≡ true
=ᵇ-self k = (=ᵇ_iff k k).1 refl

pub find_entry-put_entry :
    (new : MemoryEntry) (es : List MemoryEntry) → find_entry new.key (put_entry new es) ≡ some new
unfolding find_entry put_entry
find_entry-put_entry new [] = rw (=ᵇ-self new.key) refl
find_entry-put_entry new (e ∷ es) = elim (Bool-cases (e.key =ᵇ new.key)) [
  | inl same ↦ rw (same, =ᵇ-self new.key) refl
  | inr other ↦ rw (other, other) (find_entry-put_entry new es)
]

pub length-remove_entry :
    (key : Bytes) (es : List MemoryEntry) → length (remove_entry key es) ≤ length es
unfolding remove_entry
length-remove_entry key [] = omega arith
length-remove_entry key (e ∷ es) = ground (arith, length-remove_entry key es)

remove_entry-lt :
    (key : Bytes) (es : List MemoryEntry)
    → has_entry key es ≡ true
    → length (remove_entry key es) < length es
unfolding remove_entry has_entry
remove_entry-lt key [] h = absurd (ground arith)
remove_entry-lt key (e ∷ es) h = ground (arith, remove_entry-lt key es, length-remove_entry key es)

length-put_entry :
    (new : MemoryEntry) (es : List MemoryEntry)
    → length (put_entry new es) ≡ (if has_entry new.key es then length es else length es + 1)
unfolding put_entry has_entry
length-put_entry new [] = omega arith
length-put_entry new (e ∷ es) = ground (arith, length-put_entry new es)

pub length-remove_expired :
    (now : ℕ) (es : List MemoryEntry) → length (remove_expired now es) ≤ length es
unfolding remove_expired
length-remove_expired now [] = omega arith
length-remove_expired now (e ∷ es) = ground (arith, length-remove_expired now es)

has_entry-Mem : (v : MemoryEntry) (es : List MemoryEntry) → Mem v es → has_entry v.key es ≡ true
unfolding has_entry
has_entry-Mem v [] m = absurd (not-mem-nil m)
has_entry-Mem v (e ∷ es) m =
    Or.elim (Bool-set _ _) (mem-cons.0 m)
      (λ same. ground (arith, ap (λ x. x.key) same, =ᵇ-self v.key))
      λ later. ground (arith, has_entry-Mem v es later)

some-injective : {a b : MemoryEntry} → some a ≡ some b → a ≡ b
some-injective e = cc

pub older-cases :
    (best : Option MemoryEntry) (f : MemoryEntry)
    → (best ≡ some (older best f)) ⊎ (older best f ≡ f)
older-cases none f = inr refl
older-cases (some b) f = elim (Bool-cases (ltb f.resp.cached_at b.resp.cached_at)) [
  | inl before ↦ inr (rw before refl)
  | inr behind ↦ inl (rw behind refl)
]

-- The victim is the best so far or one of the entries that are left.
pub victim-Mem :
    (now : ℕ) (best : Option MemoryEntry) (es : List MemoryEntry) (v : MemoryEntry)
    → victim now best es ≡ some v
    → (best ≡ some v) ⊎ Mem v es
unfolding victim
victim-Mem now best [] v e = inl e
victim-Mem now best (f ∷ es) v e = elim (Bool-cases (is_expired now f)) [
  | inl over ↦
      let same : f ≡ v = some-injective (rw over at e) in
      inr (rw (← same) (mem-cons_self {a = f} {l = es}))
  | inr lives ↦ elim (victim-Mem now (some (older best f)) es v (rw lives at e)) [
    | inl found ↦
        let same : older best f ≡ v = some-injective found in
        elim (older-cases best f) [
          | inl kept ↦ inl (kept ∙ ap some same)
          | inr taken ↦ inr (rw (← (sym taken ∙ same)) (mem-cons_self {a = f} {l = es}))
        ]
    | inr later ↦ inr (mem-cons_of_mem f later)
  ]
]

victim-ne-none : (now : ℕ) (b : MemoryEntry) (es : List MemoryEntry) → victim now (some b) es ≢ none
unfolding victim
victim-ne-none now b [] e = cc
victim-ne-none now b (f ∷ es) e = elim (Bool-cases (is_expired now f)) [
  | inl over ↦ let none_left : some f ≡ none = rw over at e in cc
  | inr lives ↦ victim-ne-none now (older (some b) f) es (rw lives at e)
]

victim-of_Mem :
    (now : ℕ) (f : MemoryEntry) (es : List MemoryEntry)
    → Mem f es
    → (v : MemoryEntry) × (victim now none es ≡ some v)
unfolding victim
victim-of_Mem now f [] m = absurd (not-mem-nil m)
victim-of_Mem now f (e ∷ es) m = elim (Bool-cases (is_expired now e)) [
  | inl over ↦ (e, rw over refl)
  | inr lives ↦ elim (Option-cases (victim now (some e) es)) [
    | inl gone ↦ absurd (victim-ne-none now e es gone)
    | inr (v, found) ↦ (v, rw lives found)
  ]
]

empty_key : (k : Bytes) → is_empty k ≡ true → k ≡ []
empty_key [] h = refl
empty_key (c ∷ cs) h = absurd (ground arith)

not_empty_key : (k : Bytes) → is_empty k ≡ false → (k =ᵇ []) ≡ false
not_empty_key k full = elim (Bool-cases (k =ᵇ [])) [
  | inl same ↦ absurd (cc (full, ap is_empty ((=ᵇ_iff k []).0 same)))
  | inr other ↦ other
]

key_nonempty :
    (v : MemoryEntry) (es : List MemoryEntry)
    → has_entry [] es ≡ false
    → has_entry v.key es ≡ true
    → is_empty v.key ≡ false
key_nonempty v es clean has = elim (Bool-cases (is_empty v.key)) [
  | inl empty ↦ let e : v.key ≡ [] = empty_key v.key empty in absurd (cc (clean, rw e at has))
  | inr full ↦ full
]

pub has_entry-remove_entry :
    (k key : Bytes) (es : List MemoryEntry)
    → has_entry k es ≡ false
    → has_entry k (remove_entry key es) ≡ false
unfolding has_entry remove_entry
has_entry-remove_entry k key [] h = h
has_entry-remove_entry k key (e ∷ es) h = ground (arith, has_entry-remove_entry k key es)

pub has_entry-remove_expired :
    (k : Bytes) (now : ℕ) (es : List MemoryEntry)
    → has_entry k es ≡ false
    → has_entry k (remove_expired now es) ≡ false
unfolding has_entry remove_expired
has_entry-remove_expired k now [] h = h
has_entry-remove_expired k now (e ∷ es) h = ground (arith, has_entry-remove_expired k now es)

has_entry-put_entry :
    (k : Bytes) (new : MemoryEntry) (es : List MemoryEntry)
    → (new.key =ᵇ k) ≡ false
    → has_entry k es ≡ false
    → has_entry k (put_entry new es) ≡ false
unfolding has_entry put_entry
has_entry-put_entry k new [] n h = rw n refl
has_entry-put_entry k new (e ∷ es) n h = ground (arith, has_entry-put_entry k new es)

-- No entry under the empty key, and no more entries than the limit, if there is one.
pub record IsValid (s : MemoryStore) : Type 0 where
  pub no_empty_key : has_entry [] s.entries ≡ false
  pub within_max : 0 < s.max_entries → length s.entries ≤ s.max_entries

module _ (range : ℕ → List MemoryEntry → List MemoryEntry)
    (visits_each : (now : ℕ) (es : List MemoryEntry) → Perm (range now es) es) where
  victim-some :
      (now : ℕ) (es : List MemoryEntry)
      → 0 < length es
      → (v : MemoryEntry) × (victim now none (range now es) ≡ some v)
  victim-some now [] h = absurd (omega arith)
  victim-some now (e ∷ es) h =
      victim-of_Mem now e (range now (e ∷ es))
        ((Perm.mem_iff (visits_each now (e ∷ es))).1 (mem-cons_self {a = e} {l = es}))

  evict_oldest-lt :
      (now : ℕ) (es : List MemoryEntry)
      → has_entry [] es ≡ false
      → 0 < length es
      → length (evict_oldest range now es) < length es
  unfolding evict_oldest
  evict_oldest-lt now es clean h =
      let (v, found) = victim-some now es h in
      let has : has_entry v.key es ≡ true = elim (victim-Mem now none (range now es) v found) [
        | inl no_best ↦ cc
        | inr m ↦ has_entry-Mem v es ((Perm.mem_iff (visits_each now es)).0 m)
      ] in
      let full = key_nonempty v es clean has in
      let goes : is_evicted now v ≡ true = unfold is_evicted in ground (arith, full) in
      subst
        (λ o.
          length (elim o as (λ _. List MemoryEntry) [
            | none ↦ es
            | some e ↦ if is_evicted now e then remove_entry e.key es else es
          ])
          < length es)
        (sym found) (rw goes (remove_entry-lt v.key es has))

  evict_oldest-has_entry :
      (k : Bytes) (now : ℕ) (es : List MemoryEntry)
      → has_entry k es ≡ false
      → has_entry k (evict_oldest range now es) ≡ false
  unfolding evict_oldest
  evict_oldest-has_entry k now es h =
      elim (victim now none (range now es))
        as (λ o.
          has_entry k (elim o as (λ _. List MemoryEntry) [
            | none ↦ es
            | some e ↦ if is_evicted now e then remove_entry e.key es else es
          ])
          ≡ false) [ none ↦ h | some e ↦ ground (arith, h, has_entry-remove_entry k e.key es) ]

  pub set-IsValid :
      (s : MemoryStore) (key : Bytes) (resp : CachedResponse) (ttl now now' : ℕ)
      → is_empty key ≡ false
      → IsValid s
      → IsValid (set range s key resp ttl now now')
  unfolding set
  set-IsValid s key resp ttl now now' full v =
      let new : MemoryEntry = record { key = key; resp = resp; expires_at = now' + ttl } in
      let evicted = evict_oldest range now s.entries in
      let other_key : (key =ᵇ []) ≡ false = not_empty_key key full in
      elim (Bool-cases (
        ltb 0 s.max_entries
        && leb s.max_entries (length s.entries)
        && not (has_entry key s.entries))) [
          | inl evicts ↦ rw evicts (record {
            no_empty_key =
                has_entry-put_entry [] new evicted other_key
                  (evict_oldest-has_entry [] now s.entries v.no_empty_key);
            within_max = λ pos. ground (
              arith,
              evicts,
              v.within_max pos,
              length-put_entry new evicted,
              evict_oldest-lt now s.entries v.no_empty_key,
            );
          })
          | inr stays ↦ rw stays (record {
            no_empty_key = has_entry-put_entry [] new s.entries other_key v.no_empty_key;
            within_max =
                λ pos. ground (arith, stays, v.within_max pos, length-put_entry new s.entries);
          })
        ]
