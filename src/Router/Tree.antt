-- ===== src/Router/Tree.antt =====
-- router.go: the nodes of the radix tree, `insertRoute`, `insertStatic`, `splitAndInsert`.
use kruda.Base.{
  ℕ, zero, suc, ◌+◌, ◌/◌, ◌%◌, Bool, true, false, not, ◌&&◌, List, [], ◌∷◌, ◌++◌, Option, none,
  some, if◌then◌else◌, ltb, ◌==◌, Bytes, ◌=ᵇ◌, index_byte, length, take, drop, is_empty,
}
use kruda.Router.Build.{
  duplicate_route, wildcard_not_last, route_conflict, index_range, out_of_fuel, Build, ok, panic,
  ◌>>=◌, ◌>>◌, panic_if,
}
use kruda.Router.Segments.{Segment}

-- A chain of handlers, which the router only stores and tests against nil, is a number.
pub record NodeInfo : Type 0 where
  pub path : Bytes
  pub indices : Bytes
  pub handlers : Option ℕ
  pub param : Bytes
  pub wildcard : Bool
  pub regex : Option Bytes
  pub optional : Bool
  pub hits : ℕ
  pub route_pattern : Bytes

mutual
  pub data Node : Type 0 where
    node : NodeInfo → Nodes → Node

  pub data Nodes : Type 0 where
    nil : Nodes
    cons : Node → Nodes → Nodes

abbrev pub info : Node → NodeInfo
info (node n cs) = n

abbrev pub children : Node → Nodes
children (node n cs) = cs

abbrev pub is_some {ℓ} : {A : Type ℓ} → Option A → Bool
is_some none = false
is_some (some a) = true

-- `&node{path: "/"}` and the other literals, which leave the rest at its zero value.
abbrev pub empty_info : NodeInfo
empty_info = record {
  path = [];
  indices = [];
  handlers = none;
  param = [];
  wildcard = false;
  regex = none;
  optional = false;
  hits = 0;
  route_pattern = [];
}

-- A node whose children are reached by literal text: neither a parameter nor a wildcard.
abbrev pub is_static : NodeInfo → Bool
is_static n = is_empty n.param && not n.wildcard

abbrev pub snoc : Nodes → Node → Nodes
snoc nil c = cons c nil
snoc (cons d ds) c = cons d (snoc ds c)

-- The child at an index is replaced by what `k` makes of it; out of range is a Go panic.
unfoldable pub update_at : ℕ → (Node → Build Node) → Nodes → Build Nodes
update_at i k nil = panic index_range
update_at zero k (cons c cs) = do c' ← k c; ok (cons c' cs)
update_at (suc i) k (cons c cs) = do cs' ← update_at i k cs; ok (cons c cs')

-- `for _, child := range n.children { if … { …; return } }`: the first child that passes the test.
unfoldable pub find_index : (NodeInfo → Bool) → Nodes → Option ℕ
find_index p nil = none
find_index p (cons c cs) =
    let rest = find_index p cs in
    if p (info c) then some 0 else elim rest [ none ↦ none | some i ↦ some (suc i) ]

-- The handlers and the pattern are stored, unless there are handlers already.
unfoldable pub set_handlers : ℕ → Bytes → Node → Build Node
set_handlers h full (node n cs) = do
  panic_if (is_some n.handlers) duplicate_route
  ok (node (record n { handlers = some h; route_pattern = full }) cs)

unfoldable pub longest_prefix : Bytes → Bytes → ℕ
longest_prefix (x ∷ xs) (y ∷ ys) = let rest = longest_prefix xs ys in if x == y then suc rest else 0
longest_prefix _ _ = 0

-- Go's `string(c)` of a byte, which is the UTF-8 encoding of the code point: two bytes from 0x80 on.
abbrev pub byte_string : ℕ → Bytes
byte_string c = if ltb c 0x80 then c ∷ [] else (0xc0 + c / 64) ∷ (0x80 + c % 64) ∷ []

-- `string(s[0])`, and nothing where the string is empty.
abbrev pub first_string : Bytes → Bytes
first_string [] = []
first_string (c ∷ cs) = byte_string c

-- `n.children = append(n.children, child); n.indices += string(c)`.
abbrev pub append_child : ℕ → Node → Node → Node
append_child c child (node n cs) =
    node (record n { indices = n.indices ++ byte_string c }) (snoc cs child)

-- What is left to insert behind a static string: nothing if its segment is the last one, or the
-- insertion of the next segments.
pub data Rest : Type 0 where
  last : Rest
  more : (Node → Build Node) → Rest

-- The node is split at `i` bytes, if its path is longer.
unfoldable pub split_node : ℕ → Node → Node
split_node i (node n cs) =
    if ltb i (length n.path)
    then node
        (record n {
          path = take i n.path;
          indices = first_string (drop i n.path);
          handlers = none;
          route_pattern = [];
        })
        (cons
          (node
            (record empty_info {
              path = drop i n.path;
              indices = n.indices;
              handlers = n.handlers;
              route_pattern = n.route_pattern;
            })
            cs)
          nil)
    else node n cs

-- A new child for the bytes that are left, `c` the first of them.
unfoldable pub add_remaining : ℕ → Bytes → ℕ → Bytes → Rest → Node → Build Node
add_remaining c remaining h full last n = ok (
    append_child c
      (node (record empty_info { path = remaining; handlers = some h; route_pattern = full }) nil)
      n)
add_remaining c remaining h full (more k) n = do
  child ← k (node (record empty_info { path = remaining }) nil)
  ok (append_child c child n)

unfoldable pub finish : ℕ → Bytes → Rest → Node → Build Node
finish h full last n = set_handlers h full n
finish h full (more k) n = k n

-- The child at an index, if there is one.
unfoldable pub child_at : ℕ → Nodes → Option Node
child_at i nil = none
child_at zero (cons c cs) = some c
child_at (suc i) (cons c cs) = child_at i cs

abbrev pub put_children : Node → Nodes → Node
put_children (node n _) cs = node n cs

-- `splitAndInsert`. Each round takes at least one byte of `str`, so `length str + 1` rounds are
-- enough wherever the children are indexed by the first byte of their paths. A byte from 0x80 on adds
-- two bytes to `indices`; below such a child the bound is not shown.
unfoldable pub split_and_insert : ℕ → Bytes → ℕ → Bytes → Rest → Node → Build Node
split_and_insert zero str h full rest n = panic out_of_fuel
split_and_insert (suc fuel) str h full rest n =
    let i = longest_prefix str (info n).path in
    let n' = split_node i n in
    elim (drop i str) [
      | [] ↦ finish h full rest n'
      | c ∷ cs ↦ elim (index_byte (info n').indices c) [
        | none ↦ add_remaining c (c ∷ cs) h full rest n'
        | some idx ↦ elim (child_at idx (children n')) [
          | none ↦ panic index_range
          | some child ↦
              if is_static (info child)
              then (do
                kids ← update_at idx (split_and_insert fuel (c ∷ cs) h full rest) (children n')
                ok (put_children n' kids))
              else add_remaining c (c ∷ cs) h full rest n'
        ]
      ]
    ]

-- The new child of `insertStatic`; as a last segment it gets no pattern.
unfoldable pub add_static : Bytes → ℕ → Rest → Node → Build Node
add_static str h last (node n cs) = ok (
    node (record n { indices = n.indices ++ first_string str })
      (snoc cs (node (record empty_info { path = str; handlers = some h }) nil)))
add_static str h (more k) (node n cs) = do
  child ← k (node (record empty_info { path = str }) nil)
  ok (node (record n { indices = n.indices ++ first_string str }) (snoc cs child))

unfoldable pub insert_static : Bytes → ℕ → Bytes → Rest → Node → Build Node
insert_static [] h full rest n = add_static [] h rest n
insert_static (c ∷ cs) h full rest n = elim (index_byte (info n).indices c) [
  | none ↦ add_static (c ∷ cs) h rest n
  | some idx ↦ elim (child_at idx (children n)) [
    | none ↦ panic index_range
    | some child ↦ if not (is_static (info child)) then panic route_conflict else (do
      kids ←
          update_at idx (split_and_insert (length (c ∷ cs) + 1) (c ∷ cs) h full rest) (children n)
      ok (put_children n kids))
  ]
]

-- A wildcard segment, which must be the last one.
unfoldable pub insert_wildcard : Segment → Bool → ℕ → Bytes → Node → Build Node
insert_wildcard seg is_last h full n = do
  panic_if (not is_last) wildcard_not_last
  elim (find_index (λ c. c.wildcard) (children n)) [
    | some i ↦ do kids ← update_at i (set_handlers h full) (children n); ok (put_children n kids)
    | none ↦ ok (
        append_child b'*'
          (node
            (record empty_info {
              param = seg.param;
              wildcard = true;
              handlers = some h;
              route_pattern = full;
            })
            nil)
          n)
  ]

-- A parameter segment; an optional last one also sets the handlers of the node itself.
unfoldable pub insert_param : Segment → Rest → ℕ → Bytes → Node → Build Node
insert_param seg rest h full n =
    elim (find_index (λ c. c.param =ᵇ seg.param && not c.wildcard) (children n)) [
      | some i ↦ elim rest [
        | last ↦ do
          kids ← update_at i (set_handlers h full) (children n)
          if seg.optional
              then set_handlers h full (put_children n kids)
              else ok (put_children n kids)
        | more k ↦ do kids ← update_at i k (children n); ok (put_children n kids)
      ]
      | none ↦
          let fresh =
            node
              (record empty_info { param = seg.param; regex = seg.regex; optional = seg.optional })
              nil in
          elim rest [
            | last ↦ do
              child ← set_handlers h full fresh
              let n' = append_child b':' child n
              if seg.optional then set_handlers h full n' else ok n'
            | more k ↦ do child ← k fresh; ok (append_child b':' child n)
          ]
    ]

abbrev pub rest_of : List Segment → (Node → Build Node) → Rest
rest_of [] k = last
rest_of (s ∷ ss) k = more k

-- `insertRoute`, with the segments from `idx` on.
unfoldable pub insert_route : List Segment → ℕ → Bytes → Node → Build Node
insert_route [] h full n = set_handlers h full n
insert_route (seg ∷ segs) h full n =
    let rest = rest_of segs (insert_route segs h full) in
    if seg.wildcard
    then insert_wildcard seg (is_empty segs) h full n
    else if not seg.static
    then insert_param seg rest h full n
    else insert_static (if is_empty segs then seg.text else seg.text ++ b'/' ∷ []) h full rest n
