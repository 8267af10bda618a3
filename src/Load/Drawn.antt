-- ===== src/Load/Drawn.antt =====
-- Which layers draw a feature of a map with vehicles, at a zoom.
pub mod Vehicles
pub mod Stops
pub mod Together
use simply_transport.Common.{
  ℕ, leb, Option, none, some, Text, units, Bool, List, [], ◌∷◌, ◌++◌, true, false, not, ◌&&◌, ◌||◌,
  ◌≡◌, ◌≢◌, refl, sym, ap, ◌∙◌, if◌then◌else◌, text_eq, text_eq_iff, text_eq_refl, All, arith,
  Bool-cases, inl, inr, ◌⊎◌, append-nil,
}
use simply_transport.Js.Values.{Field, undefined, null, str}
use simply_transport.Js.Floats.{Floats}
use simply_transport.Popup.Dates.{Dates}
use simply_transport.Popup.Builders.{MapStop}
use simply_transport.Shared.Visibility.{listed}
use simply_transport.Shared.Bearing.{Point}
use simply_transport.Shared.Pulse.{vehicle_pulse_is_active}
use simply_transport.Features.{
  StopFeature, stop_feature, Vehicle, VehicleFeature, vehicle_feature, Property, field, flag, other,
  stop_properties, vehicle_properties,
}
use simply_transport.Panel.Agency.Consistent.{Distinct}
use simply_transport.Panel.Stop.Apart.{text_eq_sym}
use simply_transport.Panel.Route.{
  line_id, stops_id, stops_labels_id, vehicle_pulse_id, vehicle_id, vehicle_labels_id,
}
use simply_transport.Load.{
  Call, add_source, add_layer, line, circle, symbol, Filter, every, text_is, flag_is, all_of,
  of_route, pulsing_of_route, in_focus, line_calls, vehicle_calls, stop_label_calls, load_stop_map,
  load_route_map,
}

abbrev pub is_text : Text → Property → Bool
is_text t (field (str s)) = text_eq s t
is_text t _ = false

abbrev pub is_flag : Bool → Property → Bool
is_flag true (flag b) = b
is_flag false (flag b) = not b
is_flag c _ = false

-- The map library's filters, and what its documentation says of them.
pub record Filters : Type 0 where
  pub matches : Filter → (Text → Property) → Bool
  pub every_matches : (ps : Text → Property) → matches every ps ≡ true
  pub text_matches :
      (k t : Text) (ps : Text → Property) → matches (text_is k t) ps ≡ is_text t (ps k)
  pub flag_matches :
      (k : Text) (b : Bool) (ps : Text → Property) → matches (flag_is k b) ps ≡ is_flag b (ps k)
  pub all_matches :
      (f g : Filter) (ps : Text → Property)
      → matches (all_of f g) ps ≡ (matches f ps && matches g ps)

-- A layer without a `minzoom` draws at every zoom; `zoom` is the map's, rounded down.
abbrev pub at_zoom : ℕ → Option ℕ → Bool
at_zoom zoom none = true
at_zoom zoom (some min_zoom) = leb min_zoom zoom

module _ (lib : Filters) (zoom : ℕ) (src : Text) (ps : Text → Property) where
  open lib use {matches}

  -- The layers that draw a feature of the source, from the lowest to the topmost.
  unfoldable pub drawn : List Call → List Text
  drawn [] = []
  drawn (add_source id ∷ calls) = drawn calls
  drawn (add_layer id s kind filter min_zoom ∷ calls) =
      let rest = drawn calls in
      if text_eq s src && (at_zoom zoom min_zoom && matches filter ps) then id ∷ rest else rest

-- The layers of a route's vehicle.
abbrev pub vehicle_layers : Bool → Text → List Text
vehicle_layers pulses id =
    (if pulses then (units "vehicle-pulse-" ++ id) ∷ [] else [])
    ++ (units "vehicle-" ++ id) ∷ (units "vehicle-label-" ++ id) ∷ []

-- Those of a route map.
abbrev pub main_layers : Bool → List Text
main_layers pulses =
    (if pulses then vehicle_pulse_id ∷ [] else []) ++ vehicle_id ∷ vehicle_labels_id ∷ []

-- The circle of a stop, and its label where the zoom is near enough.
abbrev pub stop_layers : Bool → Bool → List Text
stop_layers near focus =
    if focus
    then units "stops-focus" ∷ (if near then units "stops-labels-focus" ∷ [] else [])
    else units "stops-other" ∷ (if near then units "stops-labels-other" ∷ [] else [])
