-- ===== src/Router/Find/Spec.antt =====
-- Which paths a radix tree accepts, apart from the order of the search: a path below a node matches
-- through any child, with no backtracking, no parameters and no index by first bytes.
use kruda.Base.{
  ℕ, Bool, true, false, not, ◌&&◌, [], ◌∷◌, ◌++◌, some, ◌≡◌, ◌≢◌, ◌⊎◌, Bytes, is_empty, index_byte,
}
use kruda.Router.Build.{RegexEngine}
use kruda.Router.Tree.{NodeInfo, Node, Nodes, cons, info, children, is_static, is_some, child_at}
use kruda.Router.Find.{regex_rejects}

pub data InKids (c : Node) : Nodes → Type 0 where
  here : {cs : Nodes} → InKids c (cons c cs)
  there : {d : Node} {cs : Nodes} → InKids c cs → InKids c (cons d cs)

abbrev pub NoSlash : Bytes → Type 0
NoSlash [] = Unit
NoSlash (c ∷ cs) = (c ≢ b'/') × NoSlash cs

abbrev pub is_param : NodeInfo → Bool
is_param n = not (is_empty n.param) && not n.wildcard

-- A path may end at a node: with its own handlers, or with those of an optional parameter below it.
pub data Ends : Node → ℕ → Type 0 where
  own : {c : Node} {h : ℕ} → (info c).handlers ≡ some h → Ends c h
  optional_kid :
      {c gc : Node} {h : ℕ}
      → InKids gc (children c)
      → (info gc).optional ≡ true
      → (info gc).handlers ≡ some h
      → Ends c h

-- The path has an empty first segment.
abbrev pub EmptySegment : Bytes → Type 0
EmptySegment [] = Unit
EmptySegment (c ∷ cs) = c ≡ b'/'

pub data Matches (engine : RegexEngine) : Node → Bytes → ℕ → Type 0 where
  static_end :
      {n c : Node} {path : Bytes} {h : ℕ}
      → InKids c (children n)
      → is_static (info c) ≡ true
      → path ≢ []
      → (path ≡ (info c).path) ⊎ ((info c).path ≡ path ++ b'/' ∷ [])
      → Ends c h
      → Matches engine n path h
  static_more :
      {n c : Node} {path rest : Bytes} {h : ℕ}
      → InKids c (children n)
      → is_static (info c) ≡ true
      → path ≡ (info c).path ++ rest
      → rest ≢ []
      → Matches engine c rest h
      → Matches engine n path h
  param_end :
      {n c : Node} {value : Bytes} {h : ℕ}
      → InKids c (children n)
      → is_param (info c) ≡ true
      → value ≢ []
      → NoSlash value
      → regex_rejects engine (info c) value ≡ false
      → Ends c h
      → Matches engine n value h
  param_more :
      {n c : Node} {path value rest : Bytes} {h : ℕ}
      → InKids c (children n)
      → is_param (info c) ≡ true
      → path ≡ value ++ b'/' ∷ rest
      → value ≢ []
      → NoSlash value
      → regex_rejects engine (info c) value ≡ false
      → Matches engine c rest h
      → Matches engine n path h
  param_empty :
      {n c : Node} {path : Bytes} {h : ℕ}
      → InKids c (children n)
      → is_param (info c) ≡ true
      → EmptySegment path
      → (info c).optional ≡ true
      → (info c).handlers ≡ some h
      → Matches engine n path h
  wildcard :
      {n c : Node} {path : Bytes} {h : ℕ}
      → InKids c (children n)
      → (info c).wildcard ≡ true
      → (info c).handlers ≡ some h
      → Matches engine n path h

-- In a node and below it: each static child starts with a byte for which `indices` gives its place,
-- and each wildcard child has handlers.
pub data IsRadix : Node → Type 0 where
  radix :
      {n : Node}
      → ((c : Node) (i : ℕ)
          → child_at i (children n) ≡ some c
          → is_static (info c) ≡ true
          → (b : ℕ) × (bs : Bytes) × ((info c).path ≡ b ∷ bs)
            × (index_byte (info n).indices b ≡ some i))
      → ((c : Node)
          → InKids c (children n)
          → (info c).wildcard ≡ true
          → is_some (info c).handlers ≡ true)
      → ((c : Node) → InKids c (children n) → IsRadix c)
      → IsRadix n
