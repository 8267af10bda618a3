-- ===== src/Load.antt =====
-- The sources and layers that the `load` handlers of the five map scripts add, in the order in which they are
-- painted: the calls of `addSource` and `addLayer`, with a layer's id, source, type, filter and least zoom.
-- Colours and texts of a
-- layer are not modelled.
pub mod Sourced
pub mod Panels
pub mod Distinct
pub mod VehicleIds
pub mod StopIds
pub mod StopSources
pub mod Accepted
pub mod Drawn
pub mod Loaded
pub mod Works
use simply_transport.Common.{
  ℕ, Text, units, Bool, Option, none, some, List, [], ◌∷◌, ◌++◌, ◌&&◌, true, false, if◌then◌else◌,
}
use simply_transport.Shared.Visibility.{listed}
use simply_transport.Panel.Rows.{layer_list}
use simply_transport.Panel.Route.{
  line_id, vehicle_pulse_id, vehicle_id, vehicle_labels_id, stops_id, stops_labels_id, vehicle_ids,
  stop_ids,
}
use simply_transport.Panel.Stop.{route_layers, other_stop_ids}
use simply_transport.Panel.Agency

pub data LayerType : Type 0 where
  line circle symbol fill : LayerType

-- Which features of its source a layer draws: all; those whose property is this text, or this flag; or those that two
-- filters take.
pub data Filter : Type 0 where
  every : Filter
  text_is : Text → Text → Filter  -- `["==", ["get", k], t]`
  flag_is : Text → Bool → Filter  -- `["==", ["get", k], b]`
  all_of : Filter → Filter → Filter  -- `["all", …, …]`

-- From this zoom on the stops have their labels.
abbrev pub stop_label_min_zoom : ℕ
stop_label_min_zoom = 15

pub data Call : Type 0 where
  add_source : Text → Call
  add_layer : Text → Text → LayerType → Filter → Option ℕ → Call  -- id, source, type, filter, `minzoom`

-- The filters on a route's vehicles, and on the stop in focus or the others.
abbrev pub of_route : Text → Filter
of_route id = text_is (units "route_id") id

abbrev pub pulsing_of_route : Text → Filter
pulsing_of_route id = all_of (of_route id) (flag_is (units "pulse_active") true)

abbrev pub in_focus : Bool → Filter
in_focus b = flag_is (units "is_focus") b

-- stop-map.js: a route's line has a source of its own.
unfoldable pub line_calls : List Text → List Call
line_calls [] = []
line_calls (id ∷ routes) =
    add_source (units "route-src-" ++ id)
    ∷ add_layer (units "route-line-" ++ id) (units "route-src-" ++ id) line every none
    ∷ line_calls routes

-- stop-map.js: the layers of a route's vehicles.
unfoldable pub vehicle_calls : List Text → List Call
vehicle_calls [] = []
vehicle_calls (id ∷ routes) =
    add_layer (units "vehicle-pulse-" ++ id) (units "vehicles-src") circle (pulsing_of_route id)
      none
    ∷ add_layer (units "vehicle-" ++ id) (units "vehicles-src") symbol (of_route id) none
    ∷ add_layer (units "vehicle-label-" ++ id) (units "vehicles-src") symbol (of_route id) none
    ∷ vehicle_calls routes

unfoldable pub stop_label_calls : List Call
stop_label_calls =
    add_layer (units "stops-labels-focus") (units "stops-src") symbol (in_focus true)
      (some stop_label_min_zoom)
    ∷ add_layer (units "stops-labels-other") (units "stops-src") symbol (in_focus false)
        (some stop_label_min_zoom)
    ∷ []

unfoldable pub load_stop_map : Bool → List Text → List Call
load_stop_map has_vehicles routes =
    add_source (units "stops-src")
    ∷ (line_calls routes
        ++ add_layer (units "stops-other") (units "stops-src") circle (in_focus false) none
          ∷ add_layer (units "stops-focus") (units "stops-src") circle (in_focus true) none
          ∷ (if has_vehicles
              then add_source (units "vehicles-src") ∷ (vehicle_calls routes ++ stop_label_calls)
              else stop_label_calls))

unfoldable pub load_route_map : Bool → Text → List Call
load_route_map has_vehicles id =
    add_source (units "route-src-main")
    ∷ add_layer line_id (units "route-src-main") line every none
    ∷ add_source (units "stops-src")
    ∷ add_layer stops_id (units "stops-src") circle every none
    ∷ ((if has_vehicles
          then add_source (units "vehicles-src")
            ∷ add_layer vehicle_pulse_id (units "vehicles-src") circle (pulsing_of_route id) none
            ∷ add_layer vehicle_id (units "vehicles-src") symbol (of_route id) none
            ∷ add_layer vehicle_labels_id (units "vehicles-src") symbol (of_route id) none
            ∷ []
          else [])
        ++ add_layer stops_labels_id (units "stops-src") symbol every (some stop_label_min_zoom)
          ∷ [])

unfoldable pub load_agency_map : List Text → List Call
load_agency_map [] = []
load_agency_map (id ∷ routes) =
    add_source (units "agency-route-src-" ++ id)
    ∷ add_layer (units "agency-route-line-" ++ id) (units "agency-route-src-" ++ id) line every none
    ∷ load_agency_map routes

-- `mono`: the marker's image is registered, and the map has it.
unfoldable pub load_nearby_map : Bool → List Call
load_nearby_map mono =
    add_source (units "radius-src")
    ∷ add_layer (units "search-radius") (units "radius-src") fill every none
    ∷ add_layer (units "search-radius-outline") (units "radius-src") line every none
    ∷ add_source (units "user-src")
    ∷ add_layer (units "user-loc") (units "user-src") (if mono then symbol else circle) every none
    ∷ add_source (units "stops-src")
    ∷ add_layer (units "stops-nearby") (units "stops-src") circle every none
    ∷ add_layer (units "stops-labels-nearby") (units "stops-src") symbol every
        (some stop_label_min_zoom)
    ∷ []

unfoldable pub load_static_stop_map : List Call
load_static_stop_map =
    add_source (units "stops-src")
    ∷ add_layer (units "stops-static") (units "stops-src") circle every none
    ∷ add_layer (units "stops-labels-static") (units "stops-src") symbol every
        (some stop_label_min_zoom)
    ∷ []

-- What a handler depends on: whether there are vehicles, the ids of the routes, the marker.
pub data Payload : Type 0 where
  stop_payload : Bool → List Text → Payload
  route_payload : Bool → Text → Payload
  agency_payload : List Text → Payload
  nearby_payload : Bool → Payload
  static_payload : Payload

abbrev pub load : Payload → List Call
load (stop_payload has_vehicles routes) = load_stop_map has_vehicles routes
load (route_payload has_vehicles id) = load_route_map has_vehicles id
load (agency_payload routes) = load_agency_map routes
load (nearby_payload mono) = load_nearby_map mono
load static_payload = load_static_stop_map

-- Each layer's source has been added before, after the sources `srcs`.
unfoldable pub sourced : List Text → List Call → Bool
sourced srcs [] = true
sourced srcs (add_source id ∷ calls) = sourced (id ∷ srcs) calls
sourced srcs (add_layer id src kind filter min_zoom ∷ calls) = listed src srcs && sourced srcs calls

-- The ids of the layers, from the lowest to the topmost.
unfoldable pub layer_ids : List Call → List Text
layer_ids [] = []
layer_ids (add_source id ∷ calls) = layer_ids calls
layer_ids (add_layer id src kind filter min_zoom ∷ calls) = id ∷ layer_ids calls

unfoldable pub source_ids : List Call → List Text
source_ids [] = []
source_ids (add_source id ∷ calls) = id ∷ source_ids calls
source_ids (add_layer id src kind filter min_zoom ∷ calls) = source_ids calls

-- The layers that the boxes of the map's panel show and hide.
unfoldable pub row_ids : (Text → List Text) → List Text → List Text
row_ids ids_of [] = []
row_ids ids_of (id ∷ routes) = ids_of id ++ row_ids ids_of routes

unfoldable pub panel_ids : Payload → List Text
panel_ids (stop_payload has_vehicles routes) =
    row_ids (λ id. layer_list (route_layers has_vehicles id)) routes ++ other_stop_ids
panel_ids (route_payload has_vehicles id) =
    line_id ∷ ((if has_vehicles then vehicle_ids else []) ++ stop_ids)
panel_ids (agency_payload routes) = row_ids (λ id. layer_list (Agency.route_layers id)) routes
panel_ids _ = []
