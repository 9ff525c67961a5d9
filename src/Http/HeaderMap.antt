-- ===== src/Http/HeaderMap.antt =====
-- wing_http.go: wingHeaders, the headers of a response. The first eight stand in two arrays: `slots`
-- is what they hold below `count`.
pub mod Laws
use kruda.Base.{
  ℕ, zero, suc, List, [], ◌∷◌, ◌++◌, Bool, if◌then◌else◌, ltb, Bytes, ◌=ᵇ◌, length, Option, none,
  some,
}
use mathlib.Core.Option

pub record WingHeader : Type 0 where
  pub key : Bytes
  pub val : Bytes

pub record WingHeaders : Type 0 where
  pub slots : List WingHeader
  pub extra : List WingHeader

abbrev pub slot_count : ℕ
slot_count = 8

unfoldable pub reset : WingHeaders → WingHeaders
reset h = record { slots = []; extra = [] }

-- A walk that writes the first entry with the key, `none` where there is none.
unfoldable pub replace_first : Bytes → Bytes → List WingHeader → Option (List WingHeader)
replace_first key value [] = none
replace_first key value (h ∷ hs) =
    if h.key =ᵇ key
    then some (record { key = h.key; val = value } ∷ hs)
    else Option.map (λ hs'. h ∷ hs') (replace_first key value hs)

unfoldable pub find_value : Bytes → List WingHeader → Option Bytes
find_value key [] = none
find_value key (h ∷ hs) = if h.key =ᵇ key then some h.val else find_value key hs

-- Into the arrays while they have room.
unfoldable pub add : WingHeaders → Bytes → Bytes → WingHeaders
add h key value =
    let header : WingHeader = record { key = key; val = value } in
    if ltb (length h.slots) slot_count
    then record h { slots = h.slots ++ header ∷ [] }
    else record h { extra = h.extra ++ header ∷ [] }

unfoldable pub set : WingHeaders → Bytes → Bytes → WingHeaders
unfolding replace_first add
set h key value = elim (replace_first key value h.slots) [
  | some slots' ↦ record h { slots = slots' }
  | none ↦ elim (replace_first key value h.extra) [
    | some extra' ↦ record h { extra = extra' }
    | none ↦ add h key value
  ]
]

unfoldable pub get : WingHeaders → Bytes → Bytes
unfolding find_value
get h key = elim (find_value key h.slots) [
  | some v ↦ v
  | none ↦ elim (find_value key h.extra) [ some v ↦ v | none ↦ [] ]
]

-- What follows the place of a deleted entry, once the last entry is moved there.
abbrev pub behind_last : WingHeader → List WingHeader → List WingHeader
behind_last h [] = h ∷ []
behind_last h (last ∷ hs) = last ∷ h ∷ hs

unfoldable pub last_first : List WingHeader → List WingHeader
last_first [] = []
last_first (h ∷ hs) = behind_last h (last_first hs)

-- The loop of `Del` over the entries from the index on. A round drops an entry or passes one, so their
-- number is enough.
unfoldable pub swap_remove : ℕ → Bytes → List WingHeader → List WingHeader
unfolding last_first
swap_remove zero key hs = hs
swap_remove (suc fuel) key [] = []
swap_remove (suc fuel) key (h ∷ hs) =
    let moved = swap_remove fuel key (last_first hs) in
    let passed = swap_remove fuel key hs in if h.key =ᵇ key then moved else h ∷ passed

unfoldable pub del : WingHeaders → Bytes → WingHeaders
unfolding swap_remove
del h key = record {
  slots = swap_remove (length h.slots) key h.slots;
  extra = swap_remove (length h.extra) key h.extra;
}
