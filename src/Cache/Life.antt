-- ===== src/Cache/Life.antt =====
-- contrib/cache/memory_store.go: a store over its whole life.
use kruda.Base.{
  ℕ, ◌+◌, ◌≤◌, ◌<◌, ◌≡◌, ◌∙◌, refl, ap, arith, Bool, true, false, List, [], Option, none, some,
  if◌then◌else◌, ltb, Bytes, is_empty,
}
use mathlib.Core.List.{Perm}
use kruda.Cache.{
  CachedResponse, MemoryEntry, MemoryStore, Found, new_memory_store, is_expired, has_entry, delete,
  get_read, get, missing, expired, fresh, set, remove_expired, clean_up, close_store, len,
}
use kruda.Cache.Store.{
  IsValid, set-IsValid, length-remove_entry, length-remove_expired, has_entry-remove_entry,
  has_entry-remove_expired, find_entry-put_entry,
}

delete-IsValid : (s : MemoryStore) (key : Bytes) → IsValid s → IsValid (delete s key)
unfolding delete
delete-IsValid s key v = record {
  no_empty_key = has_entry-remove_entry [] key s.entries v.no_empty_key;
  within_max = λ pos. omega (arith, v.within_max pos, length-remove_entry key s.entries);
}

get-IsValid : (s : MemoryStore) (key : Bytes) (now : ℕ) → IsValid s → IsValid (get s key now).0
unfolding get
get-IsValid s key now v =
    elim (get_read s key now)
      as (λ f.
        IsValid
          (elim f as (λ _. MemoryStore × Option CachedResponse) [
            | missing ↦ (s, none)
            | expired ↦ (delete s key, none)
            | fresh resp ↦ (s, some resp)
          ]).0) [ missing ↦ v | expired ↦ delete-IsValid s key v | fresh resp ↦ v ]

if-IsValid : (b : Bool) (s t : MemoryStore) → IsValid s → IsValid t → IsValid (if b then s else t)
if-IsValid true s t v w = v
if-IsValid false s t v w = w

clean_up-IsValid : (s : MemoryStore) (now : ℕ) → IsValid s → IsValid (clean_up s now)
unfolding clean_up
clean_up-IsValid s now v =
    if-IsValid s.stopped s (record s { entries = remove_expired now s.entries }) v
      (record {
        no_empty_key = has_entry-remove_expired [] now s.entries v.no_empty_key;
        within_max = λ pos. omega (arith, v.within_max pos, length-remove_expired now s.entries);
      })

-- What Get answers, by the entry that it finds.
answer :
    (t : MemoryStore) (key : Bytes) (later : ℕ) (o : Option MemoryEntry) → Option CachedResponse
answer t key later o =
    (elim (elim o as (λ _. Found) [
      | none ↦ missing
      | some e ↦ if is_expired later e then expired else fresh e.resp
    ])
      as (λ _. MemoryStore × Option CachedResponse) [
        | missing ↦ (t, none)
        | expired ↦ (delete t key, none)
        | fresh resp ↦ (t, some resp)
      ]).1

answer-some :
    (t : MemoryStore) (key : Bytes) (later : ℕ) (e : MemoryEntry)
    → answer t key later (some e) ≡ (if ltb e.expires_at later then none else some e.resp)
unfolding answer
answer-some t key later e = ground arith

module _ (range : ℕ → List MemoryEntry → List MemoryEntry)
    (visits_each : (now : ℕ) (es : List MemoryEntry) → Perm (range now es) es) where
  -- The operations, in any order and at any times; a key that is set is not empty.
  pub data Step : MemoryStore → MemoryStore → Type 0 where
    reads : (s : MemoryStore) (key : Bytes) (now : ℕ) → Step s (get s key now).0
    sets :
        (s : MemoryStore) (key : Bytes) (resp : CachedResponse) (ttl now now' : ℕ)
        → is_empty key ≡ false
        → Step s (set range s key resp ttl now now')
    deletes : (s : MemoryStore) (key : Bytes) → Step s (delete s key)
    cleans : (s : MemoryStore) (now : ℕ) → Step s (clean_up s now)
    closes : (s : MemoryStore) → Step s (close_store s)

  pub data Reach (s : MemoryStore) : MemoryStore → Type 0 where
    here : Reach s s
    next : {t u : MemoryStore} → Reach s t → Step t u → Reach s u

  Step-IsValid : {s t : MemoryStore} → Step s t → IsValid s → IsValid t
  unfolding close_store
  Step-IsValid (reads s key now) v = get-IsValid s key now v
  Step-IsValid (sets s key resp ttl now now' full) v =
      set-IsValid range visits_each s key resp ttl now now' full v
  Step-IsValid (deletes s key) v = delete-IsValid s key v
  Step-IsValid (cleans s now) v = clean_up-IsValid s now v
  Step-IsValid (closes s) v = record { no_empty_key = v.no_empty_key; within_max = v.within_max }

  Step-max_entries : {s t : MemoryStore} → Step s t → t.max_entries ≡ s.max_entries
  unfolding get delete set clean_up close_store
  Step-max_entries (reads s key now) = ground arith
  Step-max_entries (sets s key resp ttl now now' full) = refl
  Step-max_entries (deletes s key) = refl
  Step-max_entries (cleans s now) = ground arith
  Step-max_entries (closes s) = refl

  Reach-IsValid :
      {s t : MemoryStore} → Reach s t → IsValid s → IsValid t × (t.max_entries ≡ s.max_entries)
  Reach-IsValid here v = (v, refl)
  Reach-IsValid (next r st) v =
      let (before, same) = Reach-IsValid r v in (Step-IsValid st before, Step-max_entries st ∙ same)

  -- Whatever operations a store with a limit has gone through since it was made, in any order, at any
  -- times and with any order of visiting the entries, as long as no empty key is set it has no more
  -- entries than the limit.
  pub len-le_max :
      (max : ℕ) (s : MemoryStore) → 0 < max → Reach (new_memory_store max) s → len s ≤ max
  unfolding new_memory_store len has_entry
  len-le_max max s pos r =
      let (v, same) =
        Reach-IsValid r (record { no_empty_key = refl; within_max = λ _. omega arith }) in
      rw (← same) (v.within_max (rw same pos))

module _ (range : ℕ → List MemoryEntry → List MemoryEntry) where
  -- What Get finds under a key that was set: the response until its time is over and nothing
  -- behind it, whatever the store held and evicted.
  pub get-set_entry :
      (s : MemoryStore) (key : Bytes) (resp : CachedResponse) (ttl now now' later : ℕ)
      → (get (set range s key resp ttl now now') key later).1
        ≡ (if ltb (now' + ttl) later then none else some resp)
  unfolding get get_read set answer
  get-set_entry s key resp ttl now now' later =
      let t = set range s key resp ttl now now' in
      let new : MemoryEntry = record { key = key; resp = resp; expires_at = now' + ttl } in
      ap (answer t key later) (find_entry-put_entry new _) ∙ answer-some t key later new
