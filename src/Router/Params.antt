-- ===== src/Router/Params.antt =====
-- ctx_lifecycle.go: `routeParams`, the path parameters of one request. The array of eight items and
-- its `count` are the list of the items in use; the slots behind `count` are never read.
pub mod Valid
pub mod Deletion
pub mod Laws
use kruda.Base.{
  ℕ, ◌+◌, Bool, true, false, List, [], ◌∷◌, ◌++◌, Option, none, some, if◌then◌else◌, ltb, Bytes,
  ◌=ᵇ◌, length,
}

pub record RouteParam : Type 0 where
  pub key : Bytes
  pub value : Bytes

pub record Params : Type 0 where
  pub items : List RouteParam
  pub pattern : Bytes

abbrev pub max_route_params : ℕ
max_route_params = 8

-- The loop of `set` over the items in use; `none` if no key is equal.
unfoldable pub update_item : Bytes → Bytes → List RouteParam → Option (List RouteParam)
update_item key value [] = none
update_item key value (i ∷ is) =
    let rest = update_item key value is in
    if i.key =ᵇ key
    then some (record i { value = value } ∷ is)
    else elim rest [ none ↦ none | some js ↦ some (i ∷ js) ]

unfoldable pub set_items : Bytes → Bytes → List RouteParam → List RouteParam
unfolding update_item
set_items key value is = elim (update_item key value is) [
  | some js ↦ js
  | none ↦
      if ltb (length is) max_route_params
      then is ++ record { key = key; value = value } ∷ []
      else is
]

unfoldable pub set : Bytes → Bytes → Params → Params
set key value p = record p { items = set_items key value p.items }

unfoldable pub get_items : Bytes → List RouteParam → Bytes
get_items key [] = []
get_items key (i ∷ is) = if i.key =ᵇ key then i.value else get_items key is

unfoldable pub get : Bytes → Params → Bytes
get key p = get_items key p.items

-- The last item, and the items in front of it.
unfoldable pub drop_last : RouteParam → List RouteParam → List RouteParam × RouteParam
drop_last i [] = ([], i)
drop_last i (j ∷ js) = let (front, last) = drop_last j js in (i ∷ front, last)

-- The item found is overwritten by the last one, and the last slot is freed.
unfoldable pub del_items : Bytes → List RouteParam → List RouteParam
unfolding drop_last
del_items key [] = []
del_items key (i ∷ is) =
    let rest = del_items key is in
    if i.key =ᵇ key
    then elim is [ [] ↦ [] | j ∷ js ↦ let (front, last) = drop_last j js in last ∷ front ]
    else i ∷ rest

unfoldable pub del : Bytes → Params → Params
del key p = record p { items = del_items key p.items }

-- `reset`, and the shorter form that `ServeFast` (serve_fast.go) uses.
unfoldable pub reset : Params → Params
reset p = record { items = []; pattern = [] }

unfoldable pub reset_count : Params → Params
reset_count p = record p { items = [] }

-- `Ctx.Route` of ctx_request.go, on the request's path.
unfoldable pub route : Bytes → Params → Bytes
route path p = if p.pattern =ᵇ [] then path else p.pattern
