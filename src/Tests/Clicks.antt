-- ===== src/Tests/Clicks.antt =====
-- Clicks on a map with two stops.
use simply_transport.Common.{
  ℕ, ◌≡◌, refl, Text, units, true, false, List, [], ◌∷◌, Option, none, some, text_eq, map,
  get_elem?,
}
use simply_transport.Js.Values.{undefined, str}
use simply_transport.Js.Uri.{encode_uri_component, is_alphanumeric, is_mark}
use simply_transport.Popup.Builders.{MapStop, Detailed, build_loading_popup_html}
use simply_transport.Panel.Agency.Consistent.{Distinct}
use simply_transport.Load.Distinct.{are_distinct, are_distinct-Distinct}
use simply_transport.Features.{stop_feature}
use simply_transport.Features.Places.{place_feature, stops_geojson}
use simply_transport.Clicks.Found.{ids, click_finds_stop}
use simply_transport.Popup.Vehicle.{VehicleProps}
use simply_transport.Clicks.{
  Kind, with_vehicles, stops_only, Event, click_stop, click_vehicle, answered, close_stop,
  no_popups, run, step, outcome, find_stop, fetch_stop_detailed, open_stop_popup, show_stop, settle,
  take_at, show, Popups,
}
use simply_transport.Clicks.Exclusive.{AtMostOne, popups-AtMostOne}
use simply_transport.Clicks.Patient.{Patient, Truthful, patient_popup-Truthful}
use simply_transport.Clicks.Late.{late_answer_shown}
use simply_transport.Tests.Instances.{at_time}

abbrev stop_at : Text → ℕ → MapStop ℕ
stop_at id x = record {
  stop_id = id;
  code = undefined;
  name = str id;
  lon = x;
  lat = 53;
  is_focus = false;
}

abbrev two_stops : List (MapStop ℕ)
two_stops = stop_at (units "a") 6 ∷ stop_at (units "b") 7 ∷ []

abbrev silent : Text → Option Detailed
silent url = none

abbrev tram : VehicleProps
tram = record {
  route_id = str (units "r");
  route_short_name = undefined;
  agency_name = undefined;
  map_direction = undefined;
  time_of_update = undefined;
}

abbrev clicks : List (Event ℕ)
clicks =
    click_stop (units "a")
    ∷ click_vehicle (6, 53) tram
    ∷ answered 0
    ∷ click_stop (units "b")
    ∷ close_stop
    ∷ answered 0
    ∷ []

popups-AtMostOne_example :
    AtMostOne with_vehicles
      (run (at_time 0) silent two_stops undefined with_vehicles no_popups clicks)
popups-AtMostOne_example =
    popups-AtMostOne (at_time 0) silent two_stops undefined with_vehicles clicks

patience : Patient (at_time 0) silent two_stops undefined stops_only no_popups clicks
unfolding step open_stop_popup find_stop text_eq units show_stop fetch_stop_detailed
    encode_uri_component is_alphanumeric is_mark settle take_at
patience = (refl, (refl, tt))

patient_popup-Truthful_example :
    Truthful
      (at_time 0)
      silent
      two_stops
      undefined
      (run (at_time 0) silent two_stops undefined stops_only no_popups clicks)
patient_popup-Truthful_example =
    patient_popup-Truthful (at_time 0) silent two_stops undefined stops_only clicks patience

found_a : find_stop (units "a") two_stops ≡ some (stop_at (units "a") 6)
unfolding find_stop text_eq units
found_a = refl

found_b : find_stop (units "b") two_stops ≡ some (stop_at (units "b") 7)
unfolding find_stop text_eq units
found_b = refl

address_a : fetch_stop_detailed (units "a") ≡ some (units "/api/v1/stop/a/detailed")
unfolding fetch_stop_detailed encode_uri_component is_alphanumeric is_mark units
address_a = refl

address_b : fetch_stop_detailed (units "b") ≡ some (units "/api/v1/stop/b/detailed")
unfolding fetch_stop_detailed encode_uri_component is_alphanumeric is_mark units
address_b = refl

abbrev hasty : Popups ℕ
hasty =
    run (at_time 0) silent two_stops undefined with_vehicles no_popups
      (click_stop (units "a") ∷ click_stop (units "b") ∷ answered 1 ∷ answered 0 ∷ [])

late_answer_shown_example :
    (hasty.stop_popup.opened ≡ true)
    × (hasty.stop_popup.place ≡ some (7, 53))
    × (hasty.stop_popup.html
        ≡ outcome
            (at_time 0)
            silent
            two_stops
            undefined
            (stop_at (units "a") 6)
            (units "/api/v1/stop/a/detailed"))
late_answer_shown_example =
    late_answer_shown (at_time 0) silent two_stops undefined with_vehicles (stop_at (units "a") 6)
      (stop_at (units "b") 7) (units "/api/v1/stop/a/detailed") (units "/api/v1/stop/b/detailed")
      found_a found_b address_a address_b

stops-Distinct : Distinct (ids two_stops)
unfolding are_distinct text_eq units
stops-Distinct = are_distinct-Distinct (ids two_stops) refl

click_finds_stop_example :
    let f = stop_feature (stop_at (units "b") 7) in
    let g = place_feature (stop_at (units "b") 7) in
    (get_elem? (map stop_feature two_stops) 1 ≡ some f)
    × ((step
          (at_time 0)
          silent
          two_stops
          undefined
          with_vehicles
          hasty
          (click_stop f.stop_id)).stop_popup
        ≡ show (f.lon, f.lat) (build_loading_popup_html (stop_at (units "b") 7)))
    × (get_elem? (stops_geojson two_stops) 1 ≡ some g)
    × ((kind : Kind)
        → (step (at_time 0) silent two_stops undefined kind hasty (click_stop g.stop_id)).stop_popup
          ≡ show (g.lon, g.lat) (build_loading_popup_html (stop_at (units "b") 7)))
click_finds_stop_example =
    click_finds_stop (at_time 0) silent two_stops undefined 1 (stop_at (units "b") 7) hasty
      stops-Distinct refl
