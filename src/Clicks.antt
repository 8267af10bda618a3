-- ===== src/Clicks.antt =====
-- What a click on a stop or a vehicle does: `openPopupForStopId` and `openVehiclePopupFromFeature` of route-map.js,
-- the same of stop-map.js (there `onVehicleClick`), nearby-map.js and static-stop-map.js, and `fetchStopDetailed`
-- of stop-detail-popup.js. What the server answers for an address is a parameter.
pub mod Exclusive
pub mod Patient
pub mod Late
pub mod Found
use simply_transport.Common.{
  ℕ, zero, suc, Text, units, Bool, true, false, List, [], ◌∷◌, ◌++◌, if◌then◌else◌, Option, none,
  some, text_eq,
}
use simply_transport.Js.Values.{Field, str}
use simply_transport.Js.Uri.{encode_uri_component}
use simply_transport.Popup.Dates.{Dates}
use simply_transport.Popup.Builders.{
  MapStop, Detailed, build_loading_popup_html, build_error_popup_html,
  build_popup_html_from_detailed,
}
use simply_transport.Popup.Vehicle.{VehicleProps, build_vehicle_popup_html}

-- A popup of the map library: whether it is on the map, where, and its content.
pub record View (F : Type 0) : Type 0 where
  pub opened : Bool
  pub place : Option (F × F)
  pub html : Text

-- The two popups, and the requests without an answer yet, each with its stop and its address.
pub record Popups (F : Type 0) : Type 0 where
  pub stop_popup : View F
  pub vehicle_popup : View F
  pub requests : List (MapStop F × Text)

-- The nearby map and the static maps have no vehicles.
pub data Kind : Type 0 where
  with_vehicles stops_only : Kind

-- A click on the layers of the stops or of the vehicles, the answer to one of the requests, or a popup that the
-- user closes.
pub data Event (F : Type 0) : Type 0 where
  click_stop : Text → Event F
  click_vehicle : F × F → VehicleProps → Event F
  answered : ℕ → Event F
  close_stop close_vehicle : Event F

abbrev pub closed : {F : Type 0} → View F
closed = record { opened = false; place = none; html = [] }

abbrev pub no_popups : {F : Type 0} → Popups F
no_popups = record { stop_popup = closed; vehicle_popup = closed; requests = [] }

-- The address that `fetchStopDetailed` asks for; `none` where it throws.
unfoldable pub fetch_stop_detailed : Text → Option Text
fetch_stop_detailed stop_id = elim (encode_uri_component stop_id) [
  | none ↦ none
  | some id ↦ some (units "/api/v1/stop/" ++ id ++ units "/detailed")
]

-- `popup.remove()`
abbrev pub remove : {F : Type 0} → View F → View F
remove v = record v { opened = false }

-- `popup.setLngLat(…).setHTML(…).addTo(map)`
abbrev pub show : {F : Type 0} → F × F → Text → View F
show at html = record { opened = true; place = some at; html = html }

-- `payload.stops.find((s) => s.stop_id === sid)`
unfoldable pub find_stop : {F : Type 0} → Text → List (MapStop F) → Option (MapStop F)
find_stop sid [] = none
find_stop sid (s ∷ stops) = if text_eq s.stop_id sid then some s else find_stop sid stops

-- The i-th entry, and the others.
unfoldable pub take_at : {A : Type 0} → List A → ℕ → Option (A × List A)
take_at [] i = none
take_at (x ∷ xs) zero = some (x, xs)
take_at (x ∷ xs) (suc i) = elim (take_at xs i) [ none ↦ none | some (y, ys) ↦ some (y, x ∷ ys) ]

-- `stops` and `direction` are the payload's; the direction 0 of nearby-map.js and static-stop-map.js, which is falsy,
-- is `undefined`.
module _ {F : Type 0} (dates : Dates) (answer : Text → Option Detailed) (stops : List (MapStop F))
    (direction : Field) where
  -- The stop's popup with its loading text; the request is sent unless its address cannot be built.
  unfoldable pub show_stop : MapStop F → Popups F → Popups F
  show_stop stop p =
      let view = show (stop.lon, stop.lat) (build_loading_popup_html stop) in
      elim (fetch_stop_detailed stop.stop_id) [
        | none ↦ record p { stop_popup = view }
        | some url ↦ record p { stop_popup = view; requests = p.requests ++ (stop, url) ∷ [] }
      ]

  -- nearby-map.js and static-stop-map.js
  unfoldable pub open_stop_popup : Text → Popups F → Popups F
  open_stop_popup sid p = elim (find_stop sid stops) [ none ↦ p | some stop ↦ show_stop stop p ]

  -- route-map.js and stop-map.js
  unfoldable pub open_popup_for_stop_id : Text → Popups F → Popups F
  open_popup_for_stop_id sid p =
      open_stop_popup sid (record p { vehicle_popup = remove p.vehicle_popup })

  -- Where the content cannot be built, the popup has been moved but is not put on the map.
  unfoldable pub open_vehicle_popup_from_feature : F × F → VehicleProps → Popups F → Popups F
  open_vehicle_popup_from_feature at props p = elim (build_vehicle_popup_html dates props) [
    | none ↦ record p {
      stop_popup = remove p.stop_popup;
      vehicle_popup = record p.vehicle_popup { place = some at };
    }
    | some html ↦ record p { stop_popup = remove p.stop_popup; vehicle_popup = show at html }
  ]

  -- The content for an answer: the stop's details, or where there are none its error text.
  unfoldable pub outcome : MapStop F → Text → Text
  outcome stop url = elim (answer url) [
    | none ↦ build_error_popup_html stop
    | some detail ↦ build_popup_html_from_detailed detail direction
  ]

  unfoldable pub settle :
      Option ((MapStop F × Text) × List (MapStop F × Text)) → Popups F → Popups F
  settle none p = p
  settle (some ((stop, url), rest)) p = record p {
    stop_popup = record p.stop_popup { html = outcome stop url };
    requests = rest;
  }

  unfoldable pub step : Kind → Popups F → Event F → Popups F
  step with_vehicles p (click_stop sid) = open_popup_for_stop_id sid p
  step stops_only p (click_stop sid) = open_stop_popup sid p
  step with_vehicles p (click_vehicle at props) = open_vehicle_popup_from_feature at props p
  step stops_only p (click_vehicle at props) = p
  step kind p (answered i) = settle (take_at p.requests i) p
  step kind p close_stop = record p { stop_popup = remove p.stop_popup }
  step kind p close_vehicle = record p { vehicle_popup = remove p.vehicle_popup }

  unfoldable pub run : Kind → Popups F → List (Event F) → Popups F
  run kind p [] = p
  run kind p (e ∷ es) = run kind (step kind p e) es
