-- ===== src/Router/Tests.antt =====
-- Runs of the router on concrete routes, and its theorems at concrete inputs.
use kruda.Base.{
  ℕ, true, false, List, [], ◌∷◌, Option, some, ◌≡◌, refl, inl, inr, arith, Bytes, codes, length,
  if◌then◌else◌, ◌=ᵇ◌,
}
use kruda.Router.Build.{RegexEngine}
use kruda.Router.Params.{Params, set, get, del, set_items}
use kruda.Router.Params.Valid.{IsValid}
use kruda.Router.Params.Laws.{get-set, get-del}
use kruda.Router.Tree.{Node, node, nil, cons, empty_info}
use kruda.Router.Find.{
  find_in_node, search_children, static_stage, search_at, find_static, ends_at, optional_kid,
  param_stage, find_param, wildcard_stage, segment_end, regex_rejects,
}
use kruda.Router.Find.Spec.{Matches}
use kruda.Router.Find.Sound.{find_in_node-Matches}

abbrev any_regex : RegexEngine
any_regex = record { compiles = λ _. true; matches = λ _ _. true }

abbrev no_params : Params
no_params = record { items = []; pattern = [] }

abbrev one_param : Params
one_param = record { items = record { key = codes "id"; value = codes "5" } ∷ []; pattern = [] }

one_param-IsValid : IsValid one_param
one_param-IsValid = record { no_repeat = ((λ h. h), tt); fits = omega arith }

get-set_example :
    (get (codes "x") (set (codes "x") (codes "7") one_param)
      ≡ (if codes "x" =ᵇ codes "x" then codes "7" else get (codes "x") one_param))
    × IsValid (set (codes "x") (codes "7") one_param)
get-set_example =
    get-set (codes "x") (codes "7") (codes "x") one_param one_param-IsValid (inr (omega arith))

get-del_example :
    (get (codes "id") (del (codes "id") one_param)
      ≡ (if codes "id" =ᵇ codes "id" then [] else get (codes "id") one_param))
    × IsValid (del (codes "id") one_param)
get-del_example = get-del (codes "id") (codes "id") one_param one_param-IsValid

-- The tree of "/users/:id": a root, a static child and a parameter child with the handlers 7.
abbrev id_node : Node
id_node = node (record empty_info { param = codes "id"; handlers = some 7 }) nil

abbrev users_node : Node
users_node =
    node (record empty_info { path = codes "users/"; indices = codes ":" }) (cons id_node nil)

abbrev root : Node
root = node (record empty_info { path = codes "/"; indices = codes "u" }) (cons users_node nil)

found : (find_in_node any_regex root (codes "users/5") no_params).handlers ≡ some 7
unfolding find_in_node search_children static_stage search_at find_static ends_at optional_kid
    param_stage find_param wildcard_stage segment_end regex_rejects set set_items
    kruda.Base.index_byte kruda.Base.has_prefix kruda.Base.◌=ᵇ◌
found = refl

find_in_node-Matches_example : Matches any_regex root (codes "users/5") 7
find_in_node-Matches_example =
    find_in_node-Matches any_regex root (codes "users/5") no_params 7 found
