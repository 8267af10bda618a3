-- ===== src/Tests/Vehicles.antt =====
-- Vehicles of a stop map with two routes.
use simply_transport.Common.{
  Text, units, Bool, true, false, ◌&&◌, refl, if◌then◌else◌, text_eq, List, [], ◌∷◌, ◌≡◌, some,
  none, map, arith,
}
use simply_transport.Js.Values.{undefined, str}
use simply_transport.Panel.Agency.Consistent.{Distinct}
use simply_transport.Shared.Pulse.{vehicle_pulse_is_active}
use simply_transport.Popup.Builders.{MapStop}
use simply_transport.Shared.Visibility.{listed}
use simply_transport.Load.{Filter, every, text_is, flag_is, all_of, load_stop_map, load_route_map}
use simply_transport.Load.Drawn.{
  Filters, is_text, is_flag, drawn, vehicle_layers, main_layers, stop_layers,
}
use simply_transport.Load.Drawn.Together.{features_drawn}
use simply_transport.Features.{
  Property, vehicle_properties, vehicle_feature, stop_properties, stop_feature, Vehicle, Route,
  stop_map_vehicles,
}
use simply_transport.Features.Headings.{Turned, features_of, stop_map_vehicles-Turned}
use simply_transport.Tests.Instances.{at_time}
use simply_transport.Tests.Numbers.{whole_numbers}

abbrev north : Route whole_numbers
north = record {
  route_id = units "4";
  coordinates = some (
      (whole_numbers.num 0, whole_numbers.num 0) ∷ (whole_numbers.num 0, whole_numbers.num 9) ∷ []);
}

abbrev lineless : Route whole_numbers
lineless = record { route_id = units "7"; coordinates = none }

abbrev both : List (Route whole_numbers)
both = north ∷ lineless ∷ []

abbrev bus_of : Text → Vehicle whole_numbers.F
bus_of id = record {
  route_id = id;
  lon = whole_numbers.num 1;
  lat = whole_numbers.num 2;
  color = undefined;
  vehicle_id = undefined;
  trip_id = undefined;
  route_short_name = undefined;
  agency_name = undefined;
  time_of_update = str (units "now");
}

abbrev buses : List (Vehicle whole_numbers.F)
buses = bus_of (units "7") ∷ bus_of (units "4") ∷ []

Distinct-both : Distinct (map (λ (r : Route whole_numbers). r.route_id) both)
unfolding units
Distinct-both = (((λ e. ground arith), tt), (tt, tt))

stop_map_vehicles-Turned_example :
    Turned whole_numbers both buses
      (features_of (stop_map_vehicles whole_numbers (at_time 0) undefined both buses))
stop_map_vehicles-Turned_example =
    stop_map_vehicles-Turned whole_numbers (at_time 0) undefined both buses Distinct-both

-- Filters that are what is documented.
abbrev matches : Filter → (Text → Property) → Bool
matches every ps = true
matches (text_is k t) ps = is_text t (ps k)
matches (flag_is k b) ps = is_flag b (ps k)
matches (all_of f g) ps = matches f ps && matches g ps

abbrev plain_filters : Filters
plain_filters = record {
  matches = matches;
  every_matches = λ ps. refl;
  text_matches = λ k t ps. refl;
  flag_matches = λ k b ps. refl;
  all_matches = λ f g ps. refl;
}

abbrev terminus : MapStop whole_numbers.F
terminus = record {
  stop_id = units "s";
  code = undefined;
  name = undefined;
  lon = whole_numbers.num 1;
  lat = whole_numbers.num 2;
  is_focus = true;
}

abbrev route_ids : List Text
route_ids = map (λ (r : Route whole_numbers). r.route_id) both

features_drawn_example :
    let ps =
      vehicle_properties
        (vehicle_feature whole_numbers (at_time 0) undefined (λ id. []) (bus_of (units "7"))) in
    let pulses = vehicle_pulse_is_active (at_time 0) (str (units "now")) in
    (drawn plain_filters 14 (units "vehicles-src") ps (load_stop_map true route_ids)
      ≡ (if listed (units "7") route_ids then vehicle_layers pulses (units "7") else []))
    × (drawn plain_filters 14 (units "vehicles-src") ps (load_route_map true (units "4"))
        ≡ (if text_eq (units "7") (units "4") then main_layers pulses else []))
    × (drawn plain_filters 14
          (units "stops-src")
          (stop_properties (stop_feature terminus))
          (load_stop_map true route_ids)
        ≡ stop_layers false true)
features_drawn_example =
    features_drawn plain_filters whole_numbers (at_time 0) undefined (λ id. []) (bus_of (units "7"))
      terminus true route_ids (units "4") 14 Distinct-both
