-- ===== src/Panel/Route.antt =====
-- static/static/js/route-map.js: `buildRouteLayerPanel` and the listeners that it installs.
pub mod Consistent
use simply_transport.Common.{
  Text, units, Bool, true, false, not, List, [], ◌∷◌, if◌then◌else◌, Option, none, some,
}
use simply_transport.Shared.Visibility.{Layers, set_layer_visibility, set_all}

-- The ids of the layers, as the file's constants give them.
abbrev pub line_id : Text
line_id = units "route-line-main"

abbrev pub vehicle_pulse_id : Text
vehicle_pulse_id = units "vehicle-pulse-main"

abbrev pub vehicle_id : Text
vehicle_id = units "vehicle-main"

abbrev pub vehicle_labels_id : Text
vehicle_labels_id = units "vehicle-labels-main"

abbrev pub stops_id : Text
stops_id = units "stops-all"

abbrev pub stops_labels_id : Text
stops_labels_id = units "stops-labels-main"

abbrev pub vehicle_ids : List Text
vehicle_ids = vehicle_pulse_id ∷ vehicle_id ∷ vehicle_labels_id ∷ []

abbrev pub stop_ids : List Text
stop_ids = stops_id ∷ stops_labels_id ∷ []

-- `allOn ? "Toggle all off" : "Toggle all on"`
unfoldable pub toggle_text : Bool → Text
toggle_text all_on = if all_on then units "Toggle all off" else units "Toggle all on"

-- The panel on its map: the button and the boxes' `checked`; without vehicles the second box is not there.
pub record RoutePanel (M : Type 0) : Type 0 where
  pub map : M
  pub all_on : Bool
  pub button_text : Text
  pub line_checked : Bool
  pub vehicles_checked : Option Bool
  pub stops_checked : Bool

-- What the user does: sets a box, or clicks the button.
pub data Action : Type 0 where
  set_line set_vehicles set_stops : Bool → Action
  toggle_all : Action

module _ (lib : Layers) where
  open lib use {Map}

  unfoldable pub build_route_layer_panel : Map → Bool → RoutePanel Map
  build_route_layer_panel m has_vehicles = record {
    map = m;
    all_on = true;
    button_text = units "Toggle all off";
    line_checked = true;
    vehicles_checked = if has_vehicles then some true else none;
    stops_checked = true;
  }

  -- The listener of the vehicles' box.
  unfoldable pub change_vehicles : RoutePanel Map → Bool → Option Bool → RoutePanel Map
  change_vehicles p vis none = p
  change_vehicles p vis (some old) = record p {
    map = set_all lib p.map vehicle_ids vis;
    vehicles_checked = some vis;
  }

  -- The button's calls on the vehicle layers, which are made only where the panel has vehicles.
  unfoldable pub toggle_vehicle_layers : Map → Bool → Option Bool → Map
  toggle_vehicle_layers m v none = m
  toggle_vehicle_layers m v (some old) = set_all lib m vehicle_ids v

  unfoldable pub click_toggle_all : RoutePanel Map → RoutePanel Map
  unfolding toggle_text toggle_vehicle_layers
  click_toggle_all p =
      let v = not p.all_on in
      let m = set_layer_visibility lib p.map line_id v in
      let m' = toggle_vehicle_layers m v p.vehicles_checked in
      record {
        map = set_all lib m' stop_ids v;
        all_on = v;
        button_text = toggle_text v;
        line_checked = v;
        vehicles_checked = elim p.vehicles_checked [ none ↦ none | some old ↦ some v ];
        stops_checked = v;
      }

  unfoldable pub act : RoutePanel Map → Action → RoutePanel Map
  unfolding change_vehicles click_toggle_all
  act p (set_line vis) = record p {
    map = set_layer_visibility lib p.map line_id vis;
    line_checked = vis;
  }
  act p (set_vehicles vis) = change_vehicles p vis p.vehicles_checked
  act p (set_stops vis) = record p { map = set_all lib p.map stop_ids vis; stops_checked = vis }
  act p toggle_all = click_toggle_all p

  unfoldable pub act_all : RoutePanel Map → List Action → RoutePanel Map
  unfolding act
  act_all p [] = p
  act_all p (a ∷ as') = act_all (act p a) as'
