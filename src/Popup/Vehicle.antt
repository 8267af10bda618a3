-- ===== src/Popup/Vehicle.antt =====
-- `buildVehiclePopupHtml`. A URIError of `encodeURIComponent` is `none`.
pub mod Inert
use simply_transport.Common.{
  ℕ, Text, units, Bool, true, false, List, [], ◌∷◌, ◌++◌, if◌then◌else◌, Option, none, some,
}
use simply_transport.Js.Values.{Field, undefined, null, str, to_string, truthy, or_else}
use simply_transport.Js.Uri.{encode_uri_component}
use simply_transport.Popup.Escape.{escape_html}
use simply_transport.Popup.Builders.{join}
use simply_transport.Popup.Dates.{Dates, format_relative_from_iso}

infixl 5 ◌>>=◌
abbrev ◌>>=◌ : Option Text → (Text → Option Text) → Option Text
none >>= k = none
some s >>= k = k s

-- The properties of a vehicle that its popup reads.
pub record VehicleProps : Type 0 where
  pub route_id : Field
  pub route_short_name : Field
  pub agency_name : Field
  pub map_direction : Field
  pub time_of_update : Field

-- `props.map_direction !== undefined && props.map_direction !== null ? String(…) : "OUTBOUND"`
abbrev pub direction_or_default : Field → Text
direction_or_default undefined = units "OUTBOUND"
direction_or_default null = units "OUTBOUND"
direction_or_default (str s) = s

-- `[a, b].filter(Boolean)`
abbrev pub filter_truthy : List Text → List Text
filter_truthy [] = []
filter_truthy (s ∷ ss) = if truthy (str s) then s ∷ filter_truthy ss else filter_truthy ss

unfoldable pub vehicle_title : VehicleProps → Text
unfolding join
vehicle_title props =
    let route_label = or_else props.route_short_name (or_else props.route_id []) in
    let agency = or_else props.agency_name [] in
    or_else (str (join (units " - ") (filter_truthy (route_label ∷ agency ∷ [])))) (units "Vehicle")

unfoldable pub title_inner : Text → VehicleProps → Text
title_inner route_href props =
    if truthy props.route_id
    then units "<a class=\"map-popup-link map-popup-vehicle-head-link\" href=\""
      ++ route_href
      ++ units "\">"
      ++ escape_html (str (vehicle_title props))
      ++ units "</a>"
    else escape_html (str (vehicle_title props))

unfoldable pub last_updated_line : Dates → Field → Text
last_updated_line d time_of_update =
    let iso = or_else time_of_update [] in
    let local : Text = elim (d.parse iso) [ none ↦ iso | some t ↦ d.to_locale t ] in
    if truthy time_of_update
    then units "<p class=\"map-popup-block map-popup-muted\">Last updated: "
      ++ escape_html (str local)
      ++ units "<br>"
      ++ escape_html (str (format_relative_from_iso d (str iso)))
      ++ units "</p>"
    else []

-- `/realtime/route/{id}/{dir}`, from the encoded parts.
unfoldable pub route_href : Text → Text → Text
route_href id dir = units "/realtime/route/" ++ id ++ units "/" ++ dir

unfoldable pub vehicle_html : Dates → VehicleProps → Text → Text
vehicle_html d props href =
    units
      "<div class=\"map-popup-inner map-popup-inner--vehicle\"><h4 class=\"map-popup-vehicle-head\">"
    ++ title_inner href props
    ++ units "</h4>"
    ++ last_updated_line d props.time_of_update
    ++ units "</div>"

unfoldable pub build_vehicle_popup_html : Dates → VehicleProps → Option Text
build_vehicle_popup_html d props = do
  id ← encode_uri_component (to_string props.route_id)
  dir ← encode_uri_component (direction_or_default props.map_direction)
  some (vehicle_html d props (route_href id dir))
