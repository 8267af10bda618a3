-- ===== src/Panel/Stop.antt =====
-- static/static/js/stop-map.js: `buildLayerPanel`, with the route layers that `load` records.
pub mod Consistent
pub mod Apart
use simply_transport.Common.{
  ℕ, Text, units, Bool, true, not, List, [], ◌∷◌, ◌++◌, if◌then◌else◌, some, none, get_elem?,
}
use simply_transport.Shared.Visibility.{Layers, set_all}
use simply_transport.Panel.Route.{toggle_text}
use simply_transport.Panel.Rows.{
  RouteLayers, LayerState, layer_list, fill, set_box, set_boxes, checked_boxes, show_rows,
  show_row_at,
}

-- The ids of a route's layers; the last three are there only where the map has vehicles.
unfoldable pub route_layers : Bool → Text → RouteLayers
route_layers has_vehicles route_id = record {
  line = units "route-line-" ++ route_id;
  vehicle = if has_vehicles then some (units "vehicle-" ++ route_id) else none;
  vehicle_pulse = if has_vehicles then some (units "vehicle-pulse-" ++ route_id) else none;
  vehicle_label = if has_vehicles then some (units "vehicle-label-" ++ route_id) else none;
}

-- `layerState.routes` after `load` has drawn the routes.
unfoldable pub layer_state_routes : Bool → List Text → LayerState
layer_state_routes has_vehicles routes = fill (route_layers has_vehicles) routes []

-- The layers behind the box of the stops: the stop in focus and its label stay visible.
abbrev pub other_stop_ids : List Text
other_stop_ids = units "stops-other" ∷ units "stops-labels-other" ∷ []

-- The panel on its map.
pub record StopPanel (M : Type 0) : Type 0 where
  pub map : M
  pub stops : Bool  -- `layerState.stops`
  pub all_on : Bool
  pub button_text : Text
  pub route_boxes : List Bool
  pub stops_checked : Bool

pub data Action : Type 0 where
  set_route : ℕ → Bool → Action
  set_stops : Bool → Action
  toggle_all : Action

-- `routes` are the ids of the payload's routes, and `layer_state` is `layerState.routes`.
module _ (lib : Layers) (routes : List Text) (layer_state : LayerState) where
  open lib use {Map}

  unfoldable pub build_layer_panel : Map → StopPanel Map
  build_layer_panel m = record {
    map = m;
    stops = true;
    all_on = true;
    button_text = units "Toggle all off";
    route_boxes = checked_boxes routes;
    stops_checked = true;
  }

  unfoldable pub click_toggle_all : StopPanel Map → StopPanel Map
  click_toggle_all p =
      let v = not p.all_on in
      let m = show_rows lib layer_state p.map routes v in
      record p {
        map = set_all lib m other_stop_ids v;
        all_on = v;
        button_text = toggle_text v;
        route_boxes = set_boxes p.route_boxes v;
        stops_checked = v;
      }

  unfoldable pub act : StopPanel Map → Action → StopPanel Map
  unfolding click_toggle_all
  act p (set_route i vis) = record p {
    map = show_row_at lib layer_state p.map (get_elem? routes i) vis;
    route_boxes = set_box p.route_boxes i vis;
  }
  act p (set_stops vis) = record p {
    map = set_all lib p.map other_stop_ids vis;
    stops = vis;
    stops_checked = vis;
  }
  act p toggle_all = click_toggle_all p

  unfoldable pub act_all : StopPanel Map → List Action → StopPanel Map
  unfolding act
  act_all p [] = p
  act_all p (a ∷ as') = act_all (act p a) as'
