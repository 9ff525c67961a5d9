-- ===== src/Router/CleanPath/Tests.antt =====
-- `cleanPath` at a concrete path, with a decoder of "%2e" and a cleaner that keeps what it gets.
use mathlib.Core.Option
use kruda.Base.{
  ℕ, zero, suc, if◌then◌else◌, ◌==◌, true, [], ◌∷◌, Option, none, some, ◌≡◌, ◌↔◌, Bytes, codes,
  split, has_prefix,
}
use kruda.Router.CleanPath.{path_traversal, ok, failed, clean_path, decode_rounds, strip_nuls}
use kruda.Router.CleanPath.Escape.{Escapes, clean_path-Escapes}

-- The number is that of the bytes to pass over.
unfoldable unescape_from : ℕ → Bytes → Option Bytes
unescape_from k [] = some []
unescape_from zero (c ∷ cs) =
    let behind = unescape_from 2 cs in
    let next = unescape_from 0 cs in
    if c == b'%'
    then (if has_prefix cs (codes "2e") then Option.map (◌∷◌ b'.') behind else none)
    else Option.map (◌∷◌ c) next
unescape_from (suc k) (c ∷ cs) = unescape_from k cs

unescape_dots : Bytes → Option Bytes
unescape_dots = unescape_from 0

abbrev keep : Bytes → Bytes
keep p = p

-- "/a/%2e./../b" goes up twice behind one step down.
clean_path-Escapes_example :
    ((clean_path unescape_dots keep (codes "/a/%2e./../b") ≡ failed path_traversal) ↔ (
      (d : Bytes) × (decode_rounds unescape_dots 3 (strip_nuls (codes "/a/%2e./../b")) ≡ some d)
      × Escapes (split b'/' d)))
    × ((p : Bytes)
        → clean_path unescape_dots keep (codes "/a/%2e./../b") ≡ ok p
        → has_prefix p (codes "/") ≡ true)
clean_path-Escapes_example = clean_path-Escapes unescape_dots keep (codes "/a/%2e./../b")
