-- ===== src/Router/Params/Laws.antt =====
-- The route parameters as a map from keys to values.
use kruda.Base.{◌<◌, ◌≡◌, ◌⊎◌, [], if◌then◌else◌, Bytes, ◌=ᵇ◌, length}
use kruda.Router.Params.{Params, max_route_params, set, get, del}
use kruda.Router.Params.Valid.{keys, Has, IsValid, get_items-set_items, set-IsValid}
use kruda.Router.Params.Deletion.{get_items-del_items, del-IsValid}

-- After a write of a key that is there, or with fewer than eight items, that key gives the new value
-- and every other key gives what it gave; the items stay valid.
pub get-set :
    (key value j : Bytes) (p : Params)
    → IsValid p
    → Has key (keys p.items) ⊎ (length p.items < max_route_params)
    → (get j (set key value p) ≡ (if key =ᵇ j then value else get j p)) × IsValid (set key value p)
get-set key value j p v room =
    (unfold get set in get_items-set_items key value j p.items room, set-IsValid key value p v)

-- On valid items a deleted key gives the empty string and every other key gives what it gave, though
-- the last item is moved into the gap; the items stay valid.
pub get-del :
    (key j : Bytes) (p : Params)
    → IsValid p
    → (get j (del key p) ≡ (if key =ᵇ j then [] else get j p)) × IsValid (del key p)
get-del key j p v =
    (unfold get del in get_items-del_items key j p.items v.no_repeat, del-IsValid key p v)
