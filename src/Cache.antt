-- ===== src/Cache.antt =====
-- contrib/cache/memory_store.go: the store of the cache in memory. Times are counted in nanoseconds, a
-- TTL is not negative. A map is the list of its entries; `range` is the order in which the loop
-- that starts at a time visits them. The lock makes each operation but Get one step; Get is a step that reads and one that deletes.
pub mod Store
pub mod Life
mod Tests
use kruda.Base.{
  ℕ, ◌+◌, Bool, true, false, not, ◌&&◌, ◌||◌, List, [], ◌∷◌, ◌++◌, Option, none, some,
  if◌then◌else◌, ltb, leb, Bytes, ◌=ᵇ◌, length, is_empty,
}

pub record CachedResponse : Type 0 where
  pub status_code : ℕ
  pub headers : List (Bytes × Bytes)
  pub body : Bytes
  pub cached_at : ℕ

pub record MemoryEntry : Type 0 where
  pub key : Bytes
  pub resp : CachedResponse
  pub expires_at : ℕ

pub record MemoryStore : Type 0 where
  pub entries : List MemoryEntry
  pub max_entries : ℕ
  pub stopped : Bool

unfoldable pub new_memory_store : ℕ → MemoryStore
new_memory_store max = record { entries = []; max_entries = max; stopped = false }

abbrev pub is_expired : ℕ → MemoryEntry → Bool
is_expired now e = ltb e.expires_at now

unfoldable pub find_entry : Bytes → List MemoryEntry → Option MemoryEntry
find_entry key [] = none
find_entry key (e ∷ es) = if e.key =ᵇ key then some e else find_entry key es

-- `delete(s.entries, key)`.
unfoldable pub remove_entry : Bytes → List MemoryEntry → List MemoryEntry
remove_entry key [] = []
remove_entry key (e ∷ es) =
    let rest = remove_entry key es in if e.key =ᵇ key then rest else e ∷ rest

-- `s.entries[key] = entry`.
unfoldable pub put_entry : MemoryEntry → List MemoryEntry → List MemoryEntry
put_entry new [] = new ∷ []
put_entry new (e ∷ es) = if e.key =ᵇ new.key then new ∷ es else e ∷ put_entry new es

unfoldable pub has_entry : Bytes → List MemoryEntry → Bool
has_entry key [] = false
has_entry key (e ∷ es) = e.key =ᵇ key || has_entry key es

unfoldable pub delete : MemoryStore → Bytes → MemoryStore
unfolding remove_entry
delete s key = record s { entries = remove_entry key s.entries }

-- What the first half of Get finds: nothing, an entry that is over, or the response.
pub data Found : Type 0 where
  missing expired : Found
  fresh : CachedResponse → Found

unfoldable pub get_read : MemoryStore → Bytes → ℕ → Found
unfolding find_entry
get_read s key now = elim (find_entry key s.entries) [
  | none ↦ missing
  | some e ↦ if is_expired now e then expired else fresh e.resp
]

unfoldable pub get : MemoryStore → Bytes → ℕ → MemoryStore × Option CachedResponse
unfolding get_read delete
get s key now = elim (get_read s key now) [
  | missing ↦ (s, none)
  | expired ↦ (delete s key, none)
  | fresh resp ↦ (s, some resp)
]

abbrev pub older : Option MemoryEntry → MemoryEntry → MemoryEntry
older none e = e
older (some best) e = if ltb e.resp.cached_at best.resp.cached_at then e else best

-- The loop of evictOldest: the first entry that is over, or else the oldest; `best` is the oldest so
-- far.
unfoldable pub victim : ℕ → Option MemoryEntry → List MemoryEntry → Option MemoryEntry
victim now best [] = best
victim now best (e ∷ es) =
    let later = victim now (some (older best e)) es in if is_expired now e then some e else later

-- An oldest entry with the empty key stays; an entry that is over goes whatever its key is.
unfoldable pub is_evicted : ℕ → MemoryEntry → Bool
is_evicted now e = is_expired now e || not (is_empty e.key)

module _ (range : ℕ → List MemoryEntry → List MemoryEntry) where
  unfoldable pub evict_oldest : ℕ → List MemoryEntry → List MemoryEntry
  unfolding victim is_evicted remove_entry
  evict_oldest now es = elim (victim now none (range now es)) [
    | none ↦ es
    | some e ↦ if is_evicted now e then remove_entry e.key es else es
  ]

  -- The clock is read for the eviction and for the new entry.
  unfoldable pub set : MemoryStore → Bytes → CachedResponse → ℕ → ℕ → ℕ → MemoryStore
  unfolding evict_oldest has_entry put_entry
  set s key resp ttl now now' =
      let full = ltb 0 s.max_entries && leb s.max_entries (length s.entries) in
      let kept =
        if full && not (has_entry key s.entries) then evict_oldest now s.entries else s.entries in
      record s {
        entries = put_entry (record { key = key; resp = resp; expires_at = now' + ttl }) kept;
      }

unfoldable pub remove_expired : ℕ → List MemoryEntry → List MemoryEntry
remove_expired now [] = []
remove_expired now (e ∷ es) =
    let rest = remove_expired now es in if is_expired now e then rest else e ∷ rest

-- A tick of the loop that cleans up.
unfoldable pub clean_up : MemoryStore → ℕ → MemoryStore
unfolding remove_expired
clean_up s now = if s.stopped then s else record s { entries = remove_expired now s.entries }

unfoldable pub close_store : MemoryStore → MemoryStore
close_store s = record s { stopped = true }

unfoldable pub len : MemoryStore → ℕ
len s = length s.entries
