-- ===== src/Load/Panels.antt =====
-- The layers behind the boxes of a panel are layers that `load` adds.
use simply_transport.Common.{
  none, Text, units, Bool, List, [], ◌∷◌, ◌++◌, if◌then◌else◌, true, false, ◌≡◌, refl, text_eq,
  text_eq_refl, arith, All, All-append, ap,
}
use simply_transport.Shared.Visibility.{listed}
use simply_transport.Shared.Visibility.Agree.{listed-append_left, listed-append_right}
use simply_transport.Panel.Rows.{layer_list}
use simply_transport.Panel.Stop.{route_layers, other_stop_ids}
use simply_transport.Panel.Agency
use simply_transport.Load.{
  Call, Payload, stop_payload, route_payload, agency_payload, nearby_payload, static_payload, load,
  layer_ids, row_ids, panel_ids, line_calls, vehicle_calls, stop_label_calls, load_stop_map,
  load_route_map, load_agency_map, add_source, add_layer, circle, in_focus,
}

-- The map gets a layer with this id.
abbrev pub Added : List Call → Text → Type 0
Added calls id = listed id (layer_ids calls) ≡ true

pub layer_ids-append : (cs ds : List Call) → layer_ids (cs ++ ds) ≡ layer_ids cs ++ layer_ids ds
unfolding layer_ids
layer_ids-append [] ds = refl
layer_ids-append (add_source id ∷ cs) ds = layer_ids-append cs ds
layer_ids-append (add_layer id src kind filter min_zoom ∷ cs) ds =
    ap (λ (ids : List Text). id ∷ ids) (layer_ids-append cs ds)

Added-left : (cs ds : List Call) (id : Text) → Added cs id → Added (cs ++ ds) id
Added-left cs ds id h =
    rw (layer_ids-append cs ds) (listed-append_left id (layer_ids cs) (layer_ids ds) h)

Added-right : (cs ds : List Call) (id : Text) → Added ds id → Added (cs ++ ds) id
Added-right cs ds id h =
    rw (layer_ids-append cs ds) (listed-append_right id (layer_ids cs) (layer_ids ds) h)

module _ {P Q : Text → Type 0} where
  All-map : ((id : Text) → P id → Q id) → (ids : List Text) → All P ids → All Q ids
  All-map f [] h = tt
  All-map f (id ∷ ids) (h, hs) = (f id h, All-map f ids hs)

All-row_ids :
    (P : Text → Type 0) (ids_of : Text → List Text) (routes : List Text)
    → All (λ id. All P (ids_of id)) routes
    → All P (row_ids ids_of routes)
unfolding row_ids
All-row_ids P ids_of [] h = tt
All-row_ids P ids_of (id ∷ routes) (h, hs) =
    All-append P (ids_of id) (row_ids ids_of routes) h (All-row_ids P ids_of routes hs)

agency-Added :
    (routes : List Text)
    → All (λ id. All (Added (load_agency_map routes)) (layer_list (Agency.route_layers id))) routes
unfolding load_agency_map layer_list Agency.route_layers layer_ids
agency-Added [] = tt
agency-Added (id ∷ routes) = (
  (rw (text_eq_refl (units "agency-route-line-" ++ id)) refl, tt),
  All-map (λ j h. (ground (arith, h.0), tt)) routes (agency-Added routes),
)

lines-Added :
    (routes : List Text) → All (λ id. Added (line_calls routes) (units "route-line-" ++ id)) routes
unfolding line_calls layer_ids
lines-Added [] = tt
lines-Added (id ∷ routes) = (
  rw (text_eq_refl (units "route-line-" ++ id)) refl,
  All-map (λ j h. ground (arith, h)) routes (lines-Added routes),
)

-- The layers of a route's vehicles.
abbrev vehicle_layers : Text → List Text
vehicle_layers id =
    (units "vehicle-" ++ id) ∷ (units "vehicle-pulse-" ++ id) ∷ (units "vehicle-label-" ++ id) ∷ []

vehicles-Added :
    (routes : List Text) → All (λ id. All (Added (vehicle_calls routes)) (vehicle_layers id)) routes
unfolding vehicle_calls layer_ids
vehicles-Added [] = tt
vehicles-Added (id ∷ routes) =
    let v = text_eq_refl (units "vehicle-" ++ id) in
    let pulse = text_eq_refl (units "vehicle-pulse-" ++ id) in
    let label = text_eq_refl (units "vehicle-label-" ++ id) in
    (
      (ground arith, (ground arith, (ground arith, tt))),
      All-map (λ j (v, (pulse, (label, _))). (ground arith, (ground arith, (ground arith, tt))))
          routes (vehicles-Added routes),
    )

-- The calls after the lines of the routes, without and with vehicles.
abbrev after_lines : Bool → List Text → List Call
after_lines has_vehicles routes =
    add_layer (units "stops-other") (units "stops-src") circle (in_focus false) none
    ∷ add_layer (units "stops-focus") (units "stops-src") circle (in_focus true) none
    ∷ (if has_vehicles
        then add_source (units "vehicles-src") ∷ (vehicle_calls routes ++ stop_label_calls)
        else stop_label_calls)

Added-vehicle :
    (routes : List Text) (id : Text)
    → Added (vehicle_calls routes) id
    → Added (load_stop_map true routes) id
unfolding load_stop_map layer_ids
Added-vehicle routes id h =
    Added-right (line_calls routes) (after_lines true routes) id
      (let calls = Added-left (vehicle_calls routes) stop_label_calls id h in ground arith)

Added-line :
    (has_vehicles : Bool) (routes : List Text) (id : Text)
    → Added (line_calls routes) id
    → Added (load_stop_map has_vehicles routes) id
unfolding load_stop_map layer_ids
Added-line has_vehicles routes id h =
    Added-left (line_calls routes) (after_lines has_vehicles routes) id h

rows-Added :
    (has_vehicles : Bool) (routes ids : List Text)
    → All (λ id. Added (line_calls routes) (units "route-line-" ++ id)) ids
    → All (λ id. All (Added (vehicle_calls routes)) (vehicle_layers id)) ids
    → All
        (λ id.
          All
            (Added (load_stop_map has_vehicles routes))
            (layer_list (route_layers has_vehicles id)))
        ids
unfolding layer_list route_layers
rows-Added has_vehicles routes [] h k = tt
rows-Added true routes (id ∷ ids) (l, ls) ((v, (pulse, (label, _))), vs) = (
  (
    Added-line true routes _ l,
    (Added-vehicle routes _ v, (Added-vehicle routes _ pulse, (Added-vehicle routes _ label, tt))),
  ),
  rows-Added true routes ids ls vs,
)
rows-Added false routes (id ∷ ids) (l, ls) (v, vs) =
    ((Added-line false routes _ l, tt), rows-Added false routes ids ls vs)

label-Added : Added stop_label_calls (units "stops-labels-other")
unfolding stop_label_calls layer_ids text_eq units
label-Added = refl

labels-Added :
    (has_vehicles : Bool) (routes : List Text)
    → Added (after_lines has_vehicles routes) (units "stops-labels-other")
unfolding layer_ids
labels-Added true routes =
    let calls =
      Added-right (vehicle_calls routes) stop_label_calls (units "stops-labels-other")
        label-Added in
    ground arith
labels-Added false routes = let calls = label-Added in ground arith

stops-Added :
    (has_vehicles : Bool) (routes : List Text)
    → All (Added (load_stop_map has_vehicles routes)) other_stop_ids
unfolding load_stop_map layer_ids
stops-Added has_vehicles routes = (
  Added-right (line_calls routes) (after_lines has_vehicles routes) (units "stops-other")
      (rw (text_eq_refl (units "stops-other")) refl),
  (
    Added-right (line_calls routes) (after_lines has_vehicles routes) (units "stops-labels-other")
        (labels-Added has_vehicles routes),
    tt,
  ),
)

route-Added :
    (has_vehicles : Bool) (id : Text)
    → All (Added (load_route_map has_vehicles id)) (panel_ids (route_payload has_vehicles id))
unfolding load_route_map layer_ids panel_ids text_eq units
route-Added true id = (refl, (refl, (refl, (refl, (refl, (refl, tt))))))
route-Added false id = (refl, (refl, (refl, tt)))

-- On each of the five maps, whatever its data: every layer that a box of the panel shows or hides is one that `load`
-- has added.
pub panel-Added : (payload : Payload) → All (Added (load payload)) (panel_ids payload)
unfolding panel_ids
panel-Added (stop_payload has_vehicles routes) =
    All-append (Added (load_stop_map has_vehicles routes))
      (row_ids (λ id. layer_list (route_layers has_vehicles id)) routes) other_stop_ids
      (All-row_ids _ _ routes
        (rows-Added has_vehicles routes routes (lines-Added routes) (vehicles-Added routes)))
      (stops-Added has_vehicles routes)
panel-Added (route_payload has_vehicles id) = route-Added has_vehicles id
panel-Added (agency_payload routes) = All-row_ids _ _ routes (agency-Added routes)
panel-Added (nearby_payload mono) = tt
panel-Added static_payload = tt
