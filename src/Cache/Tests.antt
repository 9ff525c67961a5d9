-- ===== src/Cache/Tests.antt =====
-- A store of two entries, and a Get that runs beside a Set.
use kruda.Base.{
  ℕ, ◌+◌, ◌≤◌, ◌≡◌, refl, arith, List, [], none, some, if◌then◌else◌, ltb, codes, ◌=ᵇ◌,
}
use mathlib.Core.List.Perm
use kruda.Cache.{
  CachedResponse, MemoryEntry, MemoryStore, expired, new_memory_store, get, get_read, set, delete,
  len, has_entry,
}
use kruda.Cache.Life.{here, next, sets, len-le_max, get-set_entry}

abbrev page : ℕ → CachedResponse
page at = record { status_code = 200; headers = []; body = codes "x"; cached_at = at }

abbrev in_order : ℕ → List MemoryEntry → List MemoryEntry
in_order now es = es

abbrev one : MemoryStore
unfolding set new_memory_store
one = set in_order (new_memory_store 2) (codes "a") (page 5) 10 5 5

abbrev two : MemoryStore
unfolding set one
two = set in_order one (codes "b") (page 3) 10 6 6

abbrev three : MemoryStore
unfolding set two
three = set in_order two (codes "c") (page 7) 10 7 7

len-le_max_example : len three ≤ 2
unfolding one two three
len-le_max_example =
    len-le_max in_order (λ now es. Perm.refl es) 2 three (omega arith)
      (next
        (next (next here (sets _ (codes "a") (page 5) 10 5 5 refl))
          (sets _ (codes "b") (page 3) 10 6 6 refl))
        (sets _ (codes "c") (page 7) 10 7 7 refl))

get-set_entry_example :
    (get (set in_order two (codes "c") (page 7) 10 7 7) (codes "c") 18).1
    ≡ (if ltb (7 + 10) 18 then none else some (page 7))
get-set_entry_example = get-set_entry in_order two (codes "c") (page 7) 10 7 7 18

-- The oldest entry is gone.
evicted : has_entry (codes "b") three.entries ≡ has_entry (codes "b") []
unfolding has_entry three set new_memory_store ◌=ᵇ◌
evicted = refl

-- Get reads an entry that is over; before it takes the lock for the deletion the key is set again, and
-- the deletion then takes the new entry.
read_before : get_read one (codes "a") 20 ≡ expired
unfolding get_read one ◌=ᵇ◌
read_before = refl

lost :
    (get (delete (set in_order one (codes "a") (page 20) 10 20 20) (codes "a")) (codes "a") 21).1
    ≡ none
unfolding get set delete one ◌=ᵇ◌
lost = refl
