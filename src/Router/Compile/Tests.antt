-- ===== src/Router/Compile/Tests.antt =====
-- Runs of `Compile` on concrete routes, and its theorems at concrete inputs.
use mathlib.Core.Path.{subst}
use kruda.Base.{
  index_byte, zero, suc, ℕ, true, false, List, [], ◌∷◌, Option, none, some, ◌≡◌, ◌≢◌, refl, sym,
  arith, Bytes, codes,
}
use kruda.Router.Build.{RegexEngine, Build, ok, panic, ◌>>=◌}
use kruda.Router.Params.{Params}
use kruda.Router.Tree.{
  is_static, is_some, child_at, NodeInfo, Nodes, Node, node, nil, cons, empty_info, info,
}
use kruda.Router.Find.{find_in_node, find_from_root}
use kruda.Router.Find.Spec.{InKids, here, there, IsRadix, radix}
use kruda.Router.Find.Radix.{leaf-IsRadix, one_kid-IsRadix}
use kruda.Router.Table.{
  Table, lookup, Router, new_router, add_route, find, scan_allowed, find_allowed_methods,
}
use kruda.Router.Method.{standard_methods}
use kruda.Router.Compile.StaticMap.{OneSlash, one_slash, collect_static_routes-find_from_root}
use kruda.Router.Compile.AllowedCache.{find_allowed_methods-compile}
use kruda.Router.Compile.{
  can_merge, ends_with_slash, optimize_node, flatten_node, collect_static_routes,
  with_static_routes, compile,
}

abbrev any_regex : RegexEngine
any_regex = record { compiles = λ _. true; matches = λ _ _. true }

abbrev no_params : Params
no_params = record { items = []; pattern = [] }

abbrev handlers_of : Build Router → Bytes → Option ℕ
handlers_of (ok r) path = (find any_regex r (codes "GET") path no_params).handlers
handlers_of (panic p) path = none

abbrev compiled : Build Router → Build Router
compiled (ok r) = ok (compile any_regex r)
compiled (panic p) = panic p

abbrev two_routes : Build Router
two_routes = do
  r ← add_route any_regex (codes "GET") (codes "/a") 1 new_router
  add_route any_regex (codes "GET") (codes "/a/:id?") 2 r

abbrev before_after : Option ℕ × Option ℕ
before_after = (handlers_of two_routes (codes "/a"), handlers_of (compiled two_routes) (codes "/a"))

-- "/a" has the handlers 1 when it is registered. Compiled, it has those of "/a/:id?", whose node "/"
-- is trimmed to the same path and comes later.
compile_changes_handlers :
    (handlers_of two_routes (codes "/a") ≡ some 1)
    × (handlers_of (compiled two_routes) (codes "/a") ≡ some 2)
unfolding add_route compile find new_router kruda.Router.Table.add_roots kruda.Router.Table.register
    kruda.Base.◌=ᵇ◌ kruda.Router.Segments.parse_segments kruda.Router.Tree.insert_route
    kruda.Router.Tree.insert_static lookup kruda.Router.Table.insert kruda.Router.Tree.add_static
    kruda.Router.Tree.child_at kruda.Router.Tree.update_at kruda.Router.Tree.split_and_insert
    kruda.Router.Tree.longest_prefix kruda.Router.Tree.split_node kruda.Router.Tree.add_remaining
    kruda.Router.Tree.insert_param kruda.Base.has_prefix kruda.Base.index_byte kruda.Base.split
    kruda.Router.Compile.allowed_for kruda.Router.Compile.before kruda.Router.Compile.can_merge
    kruda.Router.Compile.collect_paths collect_static_routes kruda.Router.Compile.differ
    kruda.Router.Compile.ends_with_slash kruda.Router.Compile.fill_cache
    kruda.Router.Compile.flatten_children flatten_node kruda.Router.Compile.for_roots
    kruda.Router.Compile.index_of kruda.Router.Compile.insert_child kruda.Router.Compile.join_path
    kruda.Router.Compile.join_seen kruda.Router.Compile.merge optimize_node
    kruda.Router.Compile.order_children kruda.Router.Compile.rebuild_indices
    kruda.Router.Compile.record_route kruda.Router.Compile.seen_paths
    kruda.Router.Compile.sort_children kruda.Router.Compile.static_tables
    kruda.Router.Compile.trim_slash with_static_routes kruda.Router.Find.child_of
    kruda.Router.Find.ends_at find_from_root find_in_node kruda.Router.Find.find_param
    kruda.Router.Find.find_static kruda.Router.Find.optional_kid kruda.Router.Find.param_stage
    kruda.Router.Find.regex_rejects kruda.Router.Find.search_at kruda.Router.Find.search_children
    kruda.Router.Find.segment_end kruda.Router.Find.static_stage kruda.Router.Find.wildcard_stage
    kruda.Router.Method.method_index kruda.Router.Params.del kruda.Router.Params.del_items
    kruda.Router.Params.drop_last kruda.Router.Params.set kruda.Router.Params.set_items
    kruda.Router.Params.update_item kruda.Router.Segments.parse_one_segment
    kruda.Router.Segments.validate_regex_safety kruda.Router.Table.count_hits
    kruda.Router.Table.hit_all kruda.Router.Table.hit_node kruda.Router.Table.root_for
    kruda.Router.Table.root_of kruda.Router.Table.static_handlers kruda.Router.Table.sync
    kruda.Router.Tree.find_index kruda.Router.Tree.finish kruda.Router.Tree.insert_wildcard
    kruda.Router.Tree.set_handlers
compile_changes_handlers = (refl, refl)

abbrev static_node : Bytes → Bytes → Option ℕ → Nodes → Node
static_node path indices h cs =
    node (record empty_info { path = path; indices = indices; handlers = h }) cs

-- The tree of "/v1/users/:id" and "/v1/users/me", with the children below "users/" out of order.
abbrev id_node : Node
id_node = node (record empty_info { param = codes "id"; handlers = some 7 }) nil

abbrev me_node : Node
me_node = static_node (codes "me") [] (some 5) nil

abbrev users_node : Node
users_node = static_node (codes "users/") (codes ":m") none (cons id_node (cons me_node nil))

abbrev v1_node : Node
v1_node = static_node (codes "v1/") (codes "u") none (cons users_node nil)

abbrev root : Node
root = static_node (codes "/") (codes "v") none (cons v1_node nil)

place_of_me :
    (c : Node) (i : ℕ)
    → child_at i (cons id_node (cons me_node nil)) ≡ some c
    → is_static (info c) ≡ true
    → (b : ℕ) × (bs : Bytes) × ((info c).path ≡ b ∷ bs) × (index_byte (codes ":m") b ≡ some i)
unfolding child_at index_byte
place_of_me c zero e st =
    let same : id_node ≡ c = ground arith in
    let clash : is_static (info id_node) ≡ true =
      subst (λ d. is_static (info d) ≡ true) (sym same) st in
    absurd cc
place_of_me c (suc zero) e st =
    let same : me_node ≡ c = ground arith in (b'm', codes "e", rw (← same) refl, refl)
place_of_me c (suc (suc i)) e st = absurd (ground arith)

two_kids : {a b c : Node} (P : Node → Type 0) → InKids c (cons a (cons b nil)) → P a → P b → P c
two_kids P here p q = p
two_kids P (there here) p q = q
two_kids P (there (there k)) p q = elim k [ ]

one_kid : {a c : Node} (P : Node → Type 0) → InKids c (cons a nil) → P a → P c
one_kid P here p = p
one_kid P (there k) p = elim k [ ]

users_node-IsRadix : IsRadix users_node
users_node-IsRadix =
    radix place_of_me
      (λ c k.
        two_kids (λ d. (info d).wildcard ≡ true → is_some (info d).handlers ≡ true) k (λ w. refl)
          (λ w. refl))
      (λ c k. two_kids IsRadix k (leaf-IsRadix _) (leaf-IsRadix _))

root-IsRadix : IsRadix root
unfolding index_byte
root-IsRadix =
    one_kid-IsRadix _ v1_node (λ st. (b'v', codes "1/", refl, refl)) (λ w. absurd cc)
      (one_kid-IsRadix _ users_node (λ st. (b'u', codes "sers/", refl, refl)) (λ w. absurd cc)
        users_node-IsRadix)

abbrev head_or : Nodes → Node → Node
head_or nil c = c
head_or (cons d ds) c = d

-- The static map of the tree has the one route without a parameter.
me_recorded : lookup (codes "/v1/users/me") (collect_static_routes root (codes "/") []) ≡ some 5
unfolding lookup collect_static_routes kruda.Router.Compile.join_path
    kruda.Router.Compile.ends_with_slash kruda.Router.Compile.record_route
    kruda.Router.Compile.trim_slash kruda.Router.Table.insert kruda.Base.◌=ᵇ◌
me_recorded = refl

leaf-OneSlash : (n : NodeInfo) → OneSlash (node n nil)
leaf-OneSlash n = one_slash (λ c k. elim k [ ]) (λ c k. elim k [ ])

one_kid-OneSlash :
    (n : NodeInfo) (c : Node)
    → (info c).path ≢ b'/' ∷ []
    → OneSlash c
    → OneSlash (node n (cons c nil))
one_kid-OneSlash n c ne o =
    one_slash
      (λ d k.
        one_kid
          (λ e.
            is_static (info e) ≡ true
            → (info e).path ≡ b'/' ∷ []
            → ((info e).handlers ≡ none) × (ends_with_slash n.path ≡ false))
          k (λ st e. absurd (ne e)))
      (λ d k. one_kid OneSlash k o)

users_node-OneSlash : OneSlash users_node
users_node-OneSlash =
    one_slash
      (λ c k.
        two_kids
          (λ d.
            is_static (info d) ≡ true
            → (info d).path ≡ b'/' ∷ []
            → ((info d).handlers ≡ none) × (ends_with_slash (info users_node).path ≡ false))
          k (λ st e. absurd cc) (λ st e. absurd cc))
      (λ c k. two_kids OneSlash k (leaf-OneSlash _) (leaf-OneSlash _))

root-OneSlash : OneSlash root
root-OneSlash =
    one_kid-OneSlash _ v1_node (λ e. cc)
      (one_kid-OneSlash _ users_node (λ e. cc) users_node-OneSlash)

collect_static_routes-find_from_root_example :
    (find_from_root any_regex root (codes "/v1/users/me") no_params).handlers ≡ some 5
collect_static_routes-find_from_root_example =
    collect_static_routes-find_from_root any_regex root (codes "/v1/users/me") 5 no_params refl
      root-IsRadix root-OneSlash me_recorded

abbrev two_routes_router : Router
two_routes_router = elim two_routes [ ok r ↦ r | panic p ↦ new_router ]

find_allowed_methods-compile_example :
    find_allowed_methods any_regex (compile any_regex two_routes_router) (codes "/a")
    ≡ scan_allowed any_regex (with_static_routes two_routes_router) (codes "/a") standard_methods []
find_allowed_methods-compile_example =
    find_allowed_methods-compile any_regex two_routes_router (codes "/a")
