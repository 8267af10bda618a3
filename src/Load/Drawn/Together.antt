-- ===== src/Load/Drawn/Together.antt =====
-- Features and layers together.
use simply_transport.Common.{
  ℕ, leb, Text, units, Bool, List, [], true, ◌≡◌, refl, if◌then◌else◌, text_eq,
}
use simply_transport.Js.Values.{Field, str}
use simply_transport.Js.Floats.{Floats}
use simply_transport.Popup.Dates.{Dates}
use simply_transport.Popup.Builders.{MapStop}
use simply_transport.Shared.Visibility.{listed}
use simply_transport.Shared.Bearing.{Point}
use simply_transport.Shared.Pulse.{vehicle_pulse_is_active}
use simply_transport.Features.{
  stop_feature, Vehicle, vehicle_feature, field, flag, stop_properties, vehicle_properties,
}
use simply_transport.Panel.Agency.Consistent.{Distinct}
use simply_transport.Load.{load_stop_map, load_route_map}
use simply_transport.Load.Drawn.{Filters, drawn, vehicle_layers, main_layers, stop_layers}
use simply_transport.Load.Drawn.Vehicles.{stop_map-drawn, route_map-drawn}
use simply_transport.Load.Drawn.Stops.{stops-shown}

module _ (floats : Floats) (dates : Dates) (direction : Field)
    (path : Text → List (Point floats)) where
  vehicle_route :
      (v : Vehicle floats.F)
      → vehicle_properties (vehicle_feature floats dates direction path v) (units "route_id")
        ≡ field (str v.route_id)
  unfolding vehicle_properties vehicle_feature text_eq units
  vehicle_route v = refl

  vehicle_pulse :
      (v : Vehicle floats.F)
      → vehicle_properties (vehicle_feature floats dates direction path v) (units "pulse_active")
        ≡ flag (vehicle_pulse_is_active dates v.time_of_update)
  unfolding vehicle_properties vehicle_feature text_eq units
  vehicle_pulse v = refl

stop_focus :
    {F : Type 0} (s : MapStop F)
    → stop_properties (stop_feature s) (units "is_focus") ≡ flag s.is_focus
unfolding stop_properties stop_feature text_eq units
stop_focus s = refl

-- With filters as the map library documents them: on a stop map no route of which comes twice, a vehicle is drawn by
-- the icons and the labels of its own route and, exactly if it pulses, by that route's circles, in the order of
-- painting, and not at all if it is of no route of the map; on a route map the same holds of the one route, both at any
-- zoom; and on a stop map with or without vehicles each stop is drawn by one circle, of the focus or of the others, and
-- from zoom 15 on, but not before, by one label of the same kind.
pub features_drawn :
    (lib : Filters) (floats : Floats) (dates : Dates) (direction : Field)
    (path : Text → List (Point floats)) (v : Vehicle floats.F) (s : MapStop floats.F)
    (has_vehicles : Bool) (routes : List Text) (id : Text) (zoom : ℕ)
    → Distinct routes
    → let ps = vehicle_properties (vehicle_feature floats dates direction path v) in
      let pulses = vehicle_pulse_is_active dates v.time_of_update in
      (drawn lib zoom (units "vehicles-src") ps (load_stop_map true routes)
        ≡ (if listed v.route_id routes then vehicle_layers pulses v.route_id else []))
      × (drawn lib zoom (units "vehicles-src") ps (load_route_map true id)
          ≡ (if text_eq v.route_id id then main_layers pulses else []))
      × (drawn lib zoom
            (units "stops-src")
            (stop_properties (stop_feature s))
            (load_stop_map has_vehicles routes)
          ≡ stop_layers (leb 15 zoom) s.is_focus)
features_drawn lib floats dates direction path v s has_vehicles routes id zoom d =
    let ps = vehicle_properties (vehicle_feature floats dates direction path v) in
    let pulses = vehicle_pulse_is_active dates v.time_of_update in
    let r = vehicle_route floats dates direction path v in
    let a = vehicle_pulse floats dates direction path v in
    (
      stop_map-drawn lib zoom ps v.route_id pulses r a routes d,
      route_map-drawn lib zoom ps v.route_id pulses r a id,
      stops-shown lib zoom (stop_properties (stop_feature s)) s.is_focus (stop_focus s) has_vehicles
          routes,
    )
