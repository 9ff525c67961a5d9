-- ===== src/Etag/Tests.antt =====
-- Tags and lists of tags.
use kruda.Base.{◌≡◌, ◌↔◌, refl, true, false, codes, ◌=ᵇ◌, split}
use kruda.Etag.{contains_etag, etag_matches}
use kruda.Etag.Pieces.{HasTag, contains_etag_iff}

contains_etag_iff_example :
    (contains_etag (codes "\"a\",\t W/\"b\" ") (codes "\"b\"") ≡ true)
    ↔ HasTag (codes "\"b\"") (split b',' (codes "\"a\",\t W/\"b\" "))
contains_etag_iff_example = contains_etag_iff (codes "\"a\",\t W/\"b\" ") (codes "\"b\"")

-- The list holds the weak tag, and is not looked into.
not_matched : etag_matches (codes "\"a\", W/\"b\"") (codes "W/\"b\"") ≡ false
unfolding etag_matches ◌=ᵇ◌
not_matched = refl

in_list : contains_etag (codes "\"a\", W/\"b\"") (codes "W/\"b\"") ≡ true
unfolding contains_etag ◌=ᵇ◌
in_list = refl
