-- ===== src/Panel/Agency.antt =====
-- static/static/js/agency-map.js: `buildLayerPanel`, with the line layers that `load` records.
pub mod Consistent
use simply_transport.Common.{ℕ, Text, units, Bool, true, not, List, [], ◌∷◌, ◌++◌, none, get_elem?}
use simply_transport.Shared.Visibility.{Layers}
use simply_transport.Panel.Route.{toggle_text}
use simply_transport.Panel.Rows.{
  RouteLayers, LayerState, fill, set_box, set_boxes, checked_boxes, show_rows, show_row_at,
}

-- `{ line: lid }`
unfoldable pub route_layers : Text → RouteLayers
route_layers route_id = record {
  line = units "agency-route-line-" ++ route_id;
  vehicle = none;
  vehicle_pulse = none;
  vehicle_label = none;
}

-- `layerState.routes` after `load` has drawn the routes.
unfoldable pub layer_state_routes : List Text → LayerState
layer_state_routes routes = fill route_layers routes []

pub record AgencyPanel (M : Type 0) : Type 0 where
  pub map : M
  pub all_on : Bool
  pub button_text : Text
  pub route_boxes : List Bool

pub data Action : Type 0 where
  set_route : ℕ → Bool → Action
  toggle_all : Action

-- `routes` are the ids of the payload's routes, and `layer_state` is `layerState.routes`.
module _ (lib : Layers) (routes : List Text) (layer_state : LayerState) where
  open lib use {Map}

  unfoldable pub build_layer_panel : Map → AgencyPanel Map
  build_layer_panel m = record {
    map = m;
    all_on = true;
    button_text = units "Toggle all off";
    route_boxes = checked_boxes routes;
  }

  unfoldable pub act : AgencyPanel Map → Action → AgencyPanel Map
  act p (set_route i vis) = record p {
    map = show_row_at lib layer_state p.map (get_elem? routes i) vis;
    route_boxes = set_box p.route_boxes i vis;
  }
  act p toggle_all =
      let v = not p.all_on in
      record {
        map = show_rows lib layer_state p.map routes v;
        all_on = v;
        button_text = toggle_text v;
        route_boxes = set_boxes p.route_boxes v;
      }

  unfoldable pub act_all : AgencyPanel Map → List Action → AgencyPanel Map
  unfolding act
  act_all p [] = p
  act_all p (a ∷ as') = act_all (act p a) as'
