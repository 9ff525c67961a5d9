-- ===== src/Router/Compile.antt =====
-- router.go: `Compile`, with `optimizeNode`, `flattenNode`, `collectStaticRoutes` and `collectPaths`.
pub mod Covers
pub mod Optimize
pub mod Sorted
pub mod Radix
pub mod Merge
pub mod Flatten
pub mod FlatRadix
pub mod Tree
pub mod Paths
pub mod Serves
pub mod StaticMap
pub mod Hits
pub mod AllowedCache
mod Tests
-- A loop over the map of the trees goes through its table in order.
use kruda.Base.{
  ℕ, ◌+◌, ◌%◌, ◌^◌, Bool, true, false, not, ◌&&◌, ◌||◌, List, [], ◌∷◌, ◌++◌, map, Option, none,
  some, if◌then◌else◌, ltb, Bytes, codes, ◌==◌, ◌=ᵇ◌, length, take, get_or, set, is_empty,
}
use kruda.Router.Build.{RegexEngine}
use kruda.Router.Method.{method_index, standard_methods}
use kruda.Router.Tree.{NodeInfo, Node, node, Nodes, nil, cons, info, is_static, is_some}
use kruda.Router.Find.{Lookup}
use kruda.Router.Table.{Table, lookup, insert, Router, empty_root, find, count_hits}

unfoldable pub differ : Bool → Bool → Bool
differ true b = not b
differ false b = b

-- The order of `sort.SliceStable`: the static children, then the parameters, the wildcards last, and
-- among children of one kind the ones with more hits first.
unfoldable pub before : NodeInfo → NodeInfo → Bool
unfolding differ
before ci cj =
    if differ ci.wildcard cj.wildcard
    then not ci.wildcard
    else if differ (not (is_empty ci.param)) (not (is_empty cj.param))
    then is_empty ci.param
    else ltb cj.hits ci.hits

-- The stable sort, by insertion from the right.
unfoldable pub insert_child : Node → Nodes → Nodes
unfolding before
insert_child c nil = cons c nil
insert_child c (cons d ds) =
    let rest = insert_child c ds in
    if before (info d) (info c) then cons d rest else cons c (cons d ds)

unfoldable pub sort_children : Nodes → Nodes
unfolding insert_child
sort_children nil = nil
sort_children (cons c cs) = insert_child c (sort_children cs)

unfoldable pub index_of : NodeInfo → Bytes
index_of n =
    if n.wildcard then b'*' ∷ [] else if not (is_empty n.param) then b':' ∷ [] else take 1 n.path

unfoldable pub rebuild_indices : Nodes → Bytes
unfolding index_of
rebuild_indices nil = []
rebuild_indices (cons c cs) = index_of (info c) ++ rebuild_indices cs

-- The children are sorted where there are several.
unfoldable pub order_children : NodeInfo → Nodes → Node
unfolding sort_children rebuild_indices
order_children n (cons c (cons d cs)) =
    let kids = sort_children (cons c (cons d cs)) in
    node (record n { indices = rebuild_indices kids }) kids
order_children n cs = node n cs

-- `optimizeNode`. The order of two children depends on nothing that the recursion changes, which
-- is done first here and last in the source.
unfoldable mutual
  unfolding order_children

  pub optimize_node : Node → Node
  optimize_node (node n cs) = order_children n (optimize_children cs)

  pub optimize_children : Nodes → Nodes
  optimize_children nil = nil
  optimize_children (cons c cs) = cons (optimize_node c) (optimize_children cs)

-- The node that takes the place of a child and its only child.
unfoldable pub merge : NodeInfo → NodeInfo → NodeInfo
merge c g = record {
  path = c.path ++ g.path;
  indices = g.indices;
  handlers = g.handlers;
  param = [];
  wildcard = false;
  regex = g.regex;
  optional = g.optional;
  hits = (c.hits + g.hits) % 2 ^ 32;
  route_pattern = [];
}

unfoldable pub can_merge : NodeInfo → NodeInfo → Bool
can_merge c g = is_static c && not (is_some c.handlers) && is_static g

-- `flattenNode`: a merged child is looked at again, in place of the one it replaces.
unfoldable mutual
  unfolding can_merge merge

  pub flatten_child : NodeInfo → Nodes → Node
  flatten_child c nil = node c nil
  flatten_child c (cons (node g gs) nil) = elim (can_merge c g) [
    | true ↦ flatten_child (merge c g) gs
    | false ↦ node c (cons (flatten_child g gs) nil)
  ]
  flatten_child c (cons (node g gs) (cons (node d ds) es)) =
      node c (cons (flatten_child g gs) (cons (flatten_child d ds) (flatten_children es)))

  pub flatten_children : Nodes → Nodes
  flatten_children nil = nil
  flatten_children (cons (node c cs) ds) = cons (flatten_child c cs) (flatten_children ds)

unfoldable pub flatten_node : Node → Node
unfolding flatten_child
flatten_node (node n cs) = node n (flatten_children cs)

unfoldable pub ends_with_slash : Bytes → Bool
ends_with_slash [] = false
ends_with_slash (c ∷ []) = c == b'/'
ends_with_slash (c ∷ d ∷ cs) = ends_with_slash (d ∷ cs)

-- `p = p[:len(p)-1]`, for a path longer than "/" that ends with a slash.
unfoldable pub trim_slash : Bytes → Bytes
unfolding ends_with_slash
trim_slash [] = []
trim_slash (c ∷ []) = c ∷ []
trim_slash (c ∷ d ∷ cs) =
    if ends_with_slash (c ∷ d ∷ cs) then take (length (d ∷ cs)) (c ∷ d ∷ cs) else c ∷ d ∷ cs

-- The full path of a node below `prefix`, as `collectStaticRoutes` joins the two.
unfoldable pub join_path : Bytes → Bytes → Bytes
unfolding ends_with_slash
join_path prefix path =
    if is_empty path
    then prefix
    else if path =ᵇ codes "/"
    then (if not (is_empty prefix) && not (ends_with_slash prefix)
        then prefix ++ codes "/"
        else prefix)
    else if prefix =ᵇ codes "/"
    then codes "/" ++ path
    else prefix ++ path

-- `if n.handlers != nil { …; out[p] = n.handlers }`.
unfoldable pub record_route : Bytes → Option ℕ → Table ℕ → Table ℕ
unfolding trim_slash
record_route current none out = out
record_route current (some h) out = insert (trim_slash current) h out

unfoldable mutual
  unfolding join_path record_route

  pub collect_static_routes : Node → Bytes → Table ℕ → Table ℕ
  collect_static_routes (node n cs) prefix out =
      let current = join_path prefix n.path in
      let below = collect_children cs current (record_route current n.handlers out) in
      if is_static n then below else out

  pub collect_children : Nodes → Bytes → Table ℕ → Table ℕ
  collect_children nil prefix out = out
  collect_children (cons c cs) prefix out =
      collect_children cs prefix (collect_static_routes c prefix out)

-- The same for `collectPaths`, which passes over a path "/".
unfoldable pub join_seen : Bytes → Bytes → Bytes
join_seen prefix path =
    if is_empty path || path =ᵇ codes "/"
    then prefix
    else if prefix =ᵇ codes "/"
    then codes "/" ++ path
    else prefix ++ path

unfoldable mutual
  unfolding join_seen trim_slash

  pub collect_paths : Node → Bytes → Table Bool → Table Bool
  collect_paths (node n cs) prefix seen =
      let current = join_seen prefix n.path in
      let below =
        collect_paths_in cs current
          (if is_some n.handlers then insert (trim_slash current) true seen else seen) in
      if is_static n then below else seen

  pub collect_paths_in : Nodes → Bytes → Table Bool → Table Bool
  collect_paths_in nil prefix seen = seen
  collect_paths_in (cons c cs) prefix seen =
      collect_paths_in cs prefix (collect_paths c prefix seen)

-- `for _, root := range r.trees`, with what it does to a root.
unfoldable pub for_roots : (Node → Node) → Table ℕ → List Node → List Node
for_roots f [] roots = roots
for_roots f ((method, root) ∷ ts) roots =
    for_roots f ts (set roots root (f (get_or roots root empty_root)))

unfoldable pub static_tables :
    List Node → Table ℕ → List (Option (Table ℕ)) → List (Option (Table ℕ))
unfolding collect_static_routes
static_tables roots [] tables = tables
static_tables roots ((method, root) ∷ ts) tables =
    let m = collect_static_routes (get_or roots root empty_root) (codes "/") [] in
    static_tables roots ts (elim m [
      | [] ↦ tables
      | r ∷ rs ↦ elim (method_index method) [
        | none ↦ tables
        | some idx ↦ set tables idx (some (r ∷ rs))
      ]
    ])

unfoldable pub seen_paths : List Node → Table ℕ → Table Bool → Table Bool
unfolding collect_paths
seen_paths roots [] seen = seen
seen_paths roots ((method, root) ∷ ts) seen =
    seen_paths roots ts (collect_paths (get_or roots root empty_root) (codes "/") seen)

abbrev pub table_keys {ℓ} : {V : Type ℓ} → Table V → List Bytes
table_keys = map λ (k, v). k

-- The methods for one path; each search counts its hits, since the router is not compiled yet.
unfoldable pub allowed_for : RegexEngine → Bytes → List Bytes → Bytes → Router → Bytes × Router
unfolding find count_hits
allowed_for engine path [] out r = (out, r)
allowed_for engine path (m ∷ ms) out r =
    let l = find engine r m path (record { items = []; pattern = [] }) in
    allowed_for engine path ms
      (if is_some l.handlers then (if is_empty out then m else out ++ codes ", " ++ m) else out)
      (count_hits m l r)

unfoldable pub fill_cache : RegexEngine → List Bytes → Table Bytes → Router → Table Bytes × Router
unfolding allowed_for
fill_cache engine [] cache r = (cache, r)
fill_cache engine (p ∷ ps) cache r =
    let (allowed, r') = allowed_for engine p standard_methods [] r in
    fill_cache engine ps (if is_empty allowed then cache else insert p allowed cache) r'

-- The router behind the passes over the trees, with its static maps.
unfoldable pub with_static_routes : Router → Router
unfolding optimize_node flatten_node for_roots static_tables
with_static_routes r =
    let optimized = for_roots optimize_node r.trees r.roots in
    let flat = for_roots flatten_node r.trees optimized in
    record r { roots = flat; static_routes = static_tables flat r.trees r.static_routes }

unfoldable pub compile : RegexEngine → Router → Router
unfolding with_static_routes seen_paths fill_cache
compile engine r =
    let r₁ = with_static_routes r in
    let paths = table_keys (seen_paths r₁.roots r₁.trees []) in
    let (cache, r₂) = fill_cache engine paths [] (record r₁ { allowed_cache = some [] }) in
    record r₂ { allowed_cache = some cache; compiled = true }
