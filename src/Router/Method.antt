-- ===== src/Router/Method.antt =====
-- router.go: `methodIndex`.
use kruda.Base.{
  ℕ, Bool, ◌&&◌, List, [], ◌∷◌, Option, none, some, if◌then◌else◌, ◌==◌, Bytes, codes, length,
  get_or,
}

abbrev pub m_get : ℕ
m_get = 0

abbrev pub m_post : ℕ
m_post = 1

abbrev pub m_put : ℕ
m_put = 2

abbrev pub m_delete : ℕ
m_delete = 3

abbrev pub m_patch : ℕ
m_patch = 4

abbrev pub m_options : ℕ
m_options = 5

abbrev pub m_head : ℕ
m_head = 6

abbrev pub m_count : ℕ
m_count = 7

abbrev at : Bytes → ℕ → ℕ → Bool
at s i c = get_or s i 0 == c

-- `none` stands for -1. A case whose tests fail falls out of the switch.
unfoldable pub method_index : Bytes → Option ℕ
method_index m =
    if length m == 3
    then (if at m 0 b'G' && at m 1 b'E' && at m 2 b'T'
        then some m_get
        else if at m 0 b'P' && at m 1 b'U' && at m 2 b'T'
        then some m_put
        else none)
    else if length m == 4
    then (if at m 0 b'P' && at m 1 b'O'
        then some m_post
        else if at m 0 b'H' && at m 1 b'E'
        then some m_head
        else none)
    else if length m == 5
    then (if at m 0 b'P' && at m 1 b'A' then some m_patch else none)
    else if length m == 6
    then (if at m 0 b'D' && at m 1 b'E' then some m_delete else none)
    else if length m == 7
    then (if at m 0 b'O' && at m 1 b'P' then some m_options else none)
    else none

abbrev pub standard_methods : List Bytes
standard_methods =
    codes "GET"
    ∷ codes "POST"
    ∷ codes "PUT"
    ∷ codes "DELETE"
    ∷ codes "PATCH"
    ∷ codes "OPTIONS"
    ∷ codes "HEAD"
    ∷ []
