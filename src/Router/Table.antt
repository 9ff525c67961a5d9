-- ===== src/Router/Table.antt =====
-- router.go: the router itself, with one tree for each method. The roots are on a heap, since
-- `methodTrees` and `trees` point to the same nodes; a pointer is an index of `roots`.
use kruda.Base.{
  ℕ, zero, suc, ◌+◌, ◌%◌, ◌^◌, Bool, false, not, List, [], ◌∷◌, ◌++◌, Option, none, some,
  if◌then◌else◌, ◌==◌, Bytes, codes, ◌=ᵇ◌, length, get_or, set, is_empty, replicate,
}
use kruda.Router.Build.{compiled_router, bad_prefix, Build, ok, ◌>>=◌, ◌>>◌, panic_if, RegexEngine}
use kruda.Router.Method.{method_index, standard_methods, m_count}
use kruda.Router.Segments.{parse_segments}
use kruda.Router.Params.{Params}
use kruda.Router.Tree.{
  Node, node, Nodes, nil, cons, is_some, empty_info, set_handlers, insert_route,
}
use kruda.Router.Find.{Lookup, miss, find_from_root}

-- A Go map with string keys.
abbrev pub Table {ℓ} : Type ℓ → Type ℓ
Table V = List (Bytes × V)

unfoldable pub lookup {ℓ} : {V : Type ℓ} → Bytes → Table V → Option V
lookup k [] = none
lookup k ((j, v) ∷ m) = if j =ᵇ k then some v else lookup k m

unfoldable pub insert {ℓ} : {V : Type ℓ} → Bytes → V → Table V → Table V
insert k v [] = (k, v) ∷ []
insert k v ((j, w) ∷ m) = if j =ᵇ k then (k, v) ∷ m else (j, w) ∷ insert k v m

-- `static_routes` has no table where the source's is nil.
pub record Router : Type 0 where
  pub roots : List Node
  pub method_trees : List (Option ℕ)
  pub trees : Table ℕ
  pub static_routes : List (Option (Table ℕ))
  pub compiled : Bool
  pub allowed_cache : Option (Table Bytes)

abbrev pub empty_root : Node
empty_root = node (record empty_info { path = b'/' ∷ [] }) nil

-- `methodTrees[idx] = root`, for a standard method.
unfoldable pub sync : Bytes → ℕ → List (Option ℕ) → List (Option ℕ)
sync method root ts = elim (method_index method) [ none ↦ ts | some idx ↦ set ts idx (some root) ]

unfoldable pub add_roots : List Bytes → Router → Router
add_roots [] r = r
add_roots (m ∷ ms) r =
    let root = length r.roots in
    add_roots ms (record r {
      roots = r.roots ++ empty_root ∷ [];
      trees = insert m root r.trees;
      method_trees = sync m root r.method_trees;
    })

unfoldable pub new_router : Router
new_router = add_roots standard_methods (record {
  roots = [];
  method_trees = replicate m_count none;
  trees = [];
  static_routes = replicate m_count none;
  compiled = false;
  allowed_cache = none;
})

-- The root of a method: the one in the map, or a new one.
unfoldable pub root_for : Bytes → Router → ℕ × Router
root_for method r = elim (lookup method r.trees) [
  | some root ↦ (root, r)
  | none ↦
      let root = length r.roots in
      (root, record r { roots = r.roots ++ empty_root ∷ []; trees = insert method root r.trees })
]

-- What `addRoute` does to the root.
unfoldable pub register : RegexEngine → Bytes → ℕ → Node → Build Node
register engine path h root =
    if path =ᵇ (b'/' ∷ [])
    then set_handlers h path root
    else (do segments ← parse_segments engine path; insert_route segments h path root)

unfoldable pub add_route : RegexEngine → Bytes → Bytes → ℕ → Router → Build Router
unfolding root_for
add_route engine method path h r = do
  panic_if r.compiled compiled_router
  panic_if (not (get_or path 0 0 == b'/')) bad_prefix
  let (root, r₁) = root_for method r
  let r₂ : Router = record r₁ { method_trees = sync method root r₁.method_trees }
  root' ← register engine path h (get_or r₂.roots root empty_root)
  ok (record r₂ { roots = set r₂.roots root root' })

-- The handlers that the static map has for a path.
unfoldable pub static_handlers : Bytes → Bytes → Router → Option ℕ
static_handlers method path r = elim (method_index method) [
  | none ↦ none
  | some idx ↦ elim (get_or r.static_routes idx none) [
    | none ↦ none
    | some routes ↦ lookup path routes
  ]
]

unfoldable pub root_of : Bytes → Router → Option ℕ
root_of method r = elim (method_index method) [
  | none ↦ lookup method r.trees
  | some idx ↦ get_or r.method_trees idx none
]

-- `find`. The hits are counted only before `Compile`, by `count_hits`.
unfoldable pub find : RegexEngine → Router → Bytes → Bytes → Params → Lookup
unfolding static_handlers root_of
find engine r method path ps = elim (static_handlers method path r) [
  | some h ↦ record { handlers = some h; params = ps; hits = [] }
  | none ↦ elim (root_of method r) [
    | none ↦ miss ps
    | some root ↦ find_from_root engine (get_or r.roots root empty_root) path ps
  ]
]

-- One more hit for the node at the end of a trail of child indices, a `uint32`.
unfoldable mutual
  pub hit_node : List ℕ → Node → Node
  hit_node [] (node n cs) = node (record n { hits = (n.hits + 1) % 2 ^ 32 }) cs
  hit_node (i ∷ trail) (node n cs) = node n (hit_child i trail cs)

  pub hit_child : ℕ → List ℕ → Nodes → Nodes
  hit_child i trail nil = nil
  hit_child zero trail (cons c cs) = cons (hit_node trail c) cs
  hit_child (suc i) trail (cons c cs) = cons c (hit_child i trail cs)

unfoldable pub hit_all : List (List ℕ) → Node → Node
unfolding hit_node
hit_all [] n = n
hit_all (t ∷ ts) n = hit_all ts (hit_node t n)

-- The router behind a call of `find`.
unfoldable pub count_hits : Bytes → Lookup → Router → Router
unfolding root_of hit_all
count_hits method l r = if r.compiled then r else elim (root_of method r) [
  | none ↦ r
  | some root ↦ record r {
    roots = set r.roots root (hit_all l.hits (get_or r.roots root empty_root));
  }
]

-- The scan over the standard methods: those for which `find` gives handlers, joined by ", ".
unfoldable pub scan_allowed : RegexEngine → Router → Bytes → List Bytes → Bytes → Bytes
unfolding find
scan_allowed engine r path [] out = out
scan_allowed engine r path (m ∷ ms) out =
    let found = find engine r m path (record { items = []; pattern = [] }) in
    scan_allowed engine r path ms
      (if is_some found.handlers then (if is_empty out then m else out ++ codes ", " ++ m) else out)

-- `findAllowedMethods`.
unfoldable pub find_allowed_methods : RegexEngine → Router → Bytes → Bytes
unfolding scan_allowed
find_allowed_methods engine r path = elim r.allowed_cache [
  | none ↦ scan_allowed engine r path standard_methods []
  | some cache ↦ elim (lookup path cache) [
    | some cached ↦ cached
    | none ↦ scan_allowed engine r path standard_methods []
  ]
]
