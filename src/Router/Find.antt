-- ===== src/Router/Find.antt =====
-- router.go: `findInNode`, and the part of `find` behind the static map.
pub mod Radix
pub mod Spec
pub mod Sound
pub mod Complete
use kruda.Base.{
  ℕ, zero, suc, ◌+◌, Bool, true, false, not, ◌&&◌, ◌||◌, List, [], ◌∷◌, ◌++◌, map, Option, none,
  some, if◌then◌else◌, ltb, ◌==◌, Bytes, ◌=ᵇ◌, index_byte, has_prefix, length, take, drop, is_empty,
}
use kruda.Router.Build.{RegexEngine}
use kruda.Router.Params.{Params, set, del}
use kruda.Router.Tree.{NodeInfo, Node, node, Nodes, nil, cons, info, children, is_static, is_some}

-- What a search leaves: the handlers found, the parameters, and the nodes whose counters are raised,
-- each named by the indices of the children on the way to it.
pub record Lookup : Type 0 where
  pub handlers : Option ℕ
  pub params : Params
  pub hits : List (List ℕ)

abbrev pub miss : Params → Lookup
miss ps = record { handlers = none; params = ps; hits = [] }

-- `params.pattern = n.routePattern; return n.handlers`, with the counter of the node at `trail`.
abbrev pub take_node : NodeInfo → List ℕ → Params → Lookup
take_node n trail ps = record {
  handlers = n.handlers;
  params = record ps { pattern = n.route_pattern };
  hits = trail ∷ [];
}

-- A search that finds nothing goes on with the next one, which starts with the parameters it left.
abbrev pub or_else : Lookup → (Params → Lookup) → Lookup
or_else l k = elim l.handlers [
  | some h ↦ l
  | none ↦ let m = k l.params in record m { hits = l.hits ++ m.hits }
]

-- The hits of a search in the child at index `i`.
abbrev pub below : ℕ → Lookup → Lookup
below i l = record l { hits = map (◌∷◌ i) l.hits }

-- What a search reads of a child: the child, its own children, and the search behind it.
pub record Child : Type 0 where
  pub self : NodeInfo
  pub kids : List NodeInfo
  pub search : Bytes → Params → Lookup

-- `for _, gc := range child.children { if gc.optional && gc.handlers != nil { … } }`, and the same
-- loop over the children of the root; `i` is the index of the first of them.
unfoldable pub optional_kid : ℕ → List NodeInfo → Params → Lookup
optional_kid i [] ps = miss ps
optional_kid i (gc ∷ gcs) ps =
    if gc.optional && is_some gc.handlers
    then take_node gc (i ∷ []) (set gc.param [] ps)
    else optional_kid (suc i) gcs ps

-- The child is where the path ends: its own handlers, or those of an optional parameter behind it.
unfoldable pub ends_at : Child → Params → Lookup
ends_at c ps = if is_some c.self.handlers then take_node c.self [] ps else optional_kid 0 c.kids ps

-- The static child that the first byte selects.
unfoldable pub find_static : Child → Bytes → Params → Lookup
find_static c path ps =
    if not (is_static c.self)
    then miss ps
    else if has_prefix path c.self.path
    then (if is_empty (drop (length c.self.path) path)
        then ends_at c ps
        else c.search (drop (length c.self.path) path) ps)
    else if c.self.path =ᵇ (path ++ b'/' ∷ [])
    then ends_at c ps
    else miss ps

-- The child at an index; out of range, which is a Go panic, no child is searched.
unfoldable pub search_at : ℕ → ℕ → List Child → Bytes → Params → Lookup
search_at pos idx [] path ps = miss ps
search_at pos zero (c ∷ cs) path ps = below pos (find_static c path ps)
search_at pos (suc idx) (c ∷ cs) path ps = search_at (suc pos) idx cs path ps

unfoldable pub static_stage : NodeInfo → List Child → Bytes → Params → Lookup
static_stage n cs [] ps = miss ps
static_stage n cs (b ∷ bs) ps = elim (index_byte n.indices b) [
  | none ↦ miss ps
  | some idx ↦ search_at 0 idx cs (b ∷ bs) ps
]

-- `end`, the index of the first slash or the length.
unfoldable pub segment_end : Bytes → ℕ
segment_end path = elim (index_byte path b'/') [ none ↦ length path | some e ↦ e ]

-- `child.regex != nil && !child.regex.MatchString(value)`.
unfoldable pub regex_rejects : RegexEngine → NodeInfo → Bytes → Bool
regex_rejects engine n value = elim n.regex [ none ↦ false | some r ↦ not (engine.matches r value) ]

-- One parameter child: `none` in `handlers` sends the loop on to the next.
unfoldable pub find_param : RegexEngine → Child → Bytes → Params → Lookup
find_param engine c path ps =
    let end = segment_end path in
    let value = take end path in
    if is_empty c.self.param || c.self.wildcard
    then miss ps
    else if is_empty value
    then (if c.self.optional && is_some c.self.handlers
        then take_node c.self [] (set c.self.param [] ps)
        else miss ps)
    else if regex_rejects engine c.self value
    then miss ps
    else let ps' = set c.self.param value ps in
      let l = if end == length path then ends_at c ps' else c.search (drop (end + 1) path) ps' in
      elim l.handlers [ some h ↦ l | none ↦ record l { params = del c.self.param l.params } ]

unfoldable pub param_stage : RegexEngine → ℕ → List Child → Bytes → Params → Lookup
param_stage engine pos [] path ps = miss ps
param_stage engine pos (c ∷ cs) path ps =
    or_else (below pos (find_param engine c path ps))
      (λ ps'. param_stage engine (suc pos) cs path ps')

-- The first wildcard child takes the rest of the path.
unfoldable pub wildcard_stage : ℕ → List Child → Bytes → Params → Lookup
wildcard_stage pos [] path ps = miss ps
wildcard_stage pos (c ∷ cs) path ps =
    if not c.self.wildcard
    then wildcard_stage (suc pos) cs path ps
    else take_node c.self (pos ∷ []) (set c.self.param path ps)

unfoldable pub search_children : RegexEngine → NodeInfo → List Child → Bytes → Params → Lookup
search_children engine n cs path ps =
    or_else (static_stage n cs path ps)
      λ ps₁. or_else (param_stage engine 0 cs path ps₁) λ ps₂. wildcard_stage 0 cs path ps₂

abbrev pub infos : Nodes → List NodeInfo
infos nil = []
infos (cons c cs) = info c ∷ infos cs

unfoldable mutual
  pub child_of : RegexEngine → Node → Child
  child_of engine (node n cs) = record {
    self = n;
    kids = infos cs;
    search = search_children engine n (children_of engine cs);
  }

  pub children_of : RegexEngine → Nodes → List Child
  children_of engine nil = []
  children_of engine (cons c cs) = child_of engine c ∷ children_of engine cs

-- `findInNode`.
unfoldable pub find_in_node : RegexEngine → Node → Bytes → Params → Lookup
unfolding child_of
find_in_node engine n = (child_of engine n).search

-- `find` from the root on, behind the static map: the root path, or the path without its slash. The
-- path is not empty: `path[1:]` of the empty string would panic, and here `drop` leaves it empty.
unfoldable pub find_from_root : RegexEngine → Node → Bytes → Params → Lookup
unfolding find_in_node
find_from_root engine root path ps =
    if path =ᵇ (b'/' ∷ [])
    then (if is_some (info root).handlers
        then take_node (info root) [] ps
        else optional_kid 0 (infos (children root)) ps)
    else find_in_node engine root (drop 1 path) ps
