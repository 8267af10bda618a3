-- ===== src/Tests/Popups.antt =====
-- Popups of concrete stops and vehicles.
use simply_transport.Common.{
  ℕ, ◌+◌, ◌*◌, ◌≤◌, ◌<◌, ◌≡◌, refl, Text, units, true, false, [], ◌∷◌, ◌++◌, none, some, arith,
}
use simply_transport.Js.Values.{Field, undefined, null, str, to_string}
use simply_transport.Js.Decimal.{decimal}
use simply_transport.Js.Uri.{
  encode_uri_component, encode_point, percent, hex_digit, is_alphanumeric, is_mark,
}
use simply_transport.Js.Strings.{replace_all, trim}
use simply_transport.Popup.Escape.{escape_html}
use simply_transport.Popup.Escape.Decoding.{decode_html, decode_html-escape_html}
use simply_transport.Popup.Escape.Markup.{markup}
use simply_transport.Popup.Builders.{
  MapStop, DetailedRoute, Detailed, stop_title, build_popup_html_from_detailed,
  build_loading_popup_html, build_error_popup_html, build_stop_tooltip_html,
}
use simply_transport.Popup.Inert.{stop_popups_inert, detailed_popup_inert}
use simply_transport.Popup.Dates.{format_relative_from_iso, format_relative_windows}
use simply_transport.Popup.Vehicle.{
  VehicleProps, build_vehicle_popup_html, vehicle_html, route_href,
}
use simply_transport.Popup.Vehicle.Inert.{vehicle_popup_inert}
use simply_transport.Tests.Instances.{at_time}

escaped : escape_html (str (units "<a & \"b\">")) ≡ units "&lt;a &amp; &quot;b&quot;&gt;"
unfolding escape_html replace_all units to_string
escaped = refl

decode_html-escape_html_example : decode_html 4 (escape_html (str (units "<&>"))) ≡ units "<&>"
decode_html-escape_html_example =
    decode_html-escape_html 3 (units "<&>") (unfold units in omega arith)

encoded : encode_uri_component (units "a/é~") ≡ some (units "a%2F%C3%A9~")
unfolding encode_uri_component encode_point percent hex_digit is_alphanumeric is_mark units
encoded = refl

-- A high surrogate alone throws.
lone_surrogate : encode_uri_component (0xd800 ∷ []) ≡ none
unfolding encode_uri_component is_alphanumeric is_mark
lone_surrogate = refl

pair_encoded : encode_uri_component (0xd83d ∷ 0xde8c ∷ []) ≡ some (units "%F0%9F%9A%8C")
unfolding encode_uri_component encode_point percent hex_digit is_alphanumeric is_mark units
pair_encoded = refl

title_trimmed : stop_title (str []) (str (units "Main Street ")) ≡ units "- Main Street"
unfolding stop_title trim units to_string
title_trimmed = refl

-- Coordinates do not matter to the popups.
abbrev plain_stop : MapStop ℕ
plain_stop = record {
  stop_id = units "8220DB000002";
  code = str (units "2");
  name = str (units "Parnell Square West");
  lon = 0;
  lat = 0;
  is_focus = true;
}

abbrev hostile_stop : MapStop ℕ
hostile_stop = record plain_stop { name = str (units "\"><script>alert(1)</script>") }

stop_popups_inert_example :
    (markup (build_loading_popup_html plain_stop) ≡ markup (build_loading_popup_html hostile_stop))
    × (markup (build_error_popup_html plain_stop) ≡ markup (build_error_popup_html hostile_stop))
    × (markup (build_stop_tooltip_html plain_stop) ≡ markup (build_stop_tooltip_html hostile_stop))
stop_popups_inert_example = stop_popups_inert plain_stop hostile_stop

abbrev bus : Text → DetailedRoute
bus name = record {
  route_id = str (units "3249_46339");
  short_name = str name;
  long_name = str (units "Ballywaltrim - Mountjoy Sq");
}

abbrev detailed : Text → Field → Detailed
detailed name url = record {
  stop = record { id = str (units "8220DB000002"); code = str (units "2"); name = str name };
  routes = bus name ∷ bus (units "46A") ∷ [];
  stop_features = some (record {
    wheelchair_accessible = some true;
    shelter_active = some false;
    rtpi_active = none;
  });
  street_view_url = url;
}

abbrev url : Field
url = str (units "https://maps.example/?a=1&b=\"2\"")

detailed_popup_inert_example :
    markup (build_popup_html_from_detailed (detailed (units "Quay") url) null)
    ≡ markup (build_popup_html_from_detailed (detailed (units "<b>") url) null)
detailed_popup_inert_example =
    detailed_popup_inert (detailed (units "Quay") url) (detailed (units "<b>") url) null
      (refl, refl, refl)

abbrev vehicle : Text → VehicleProps
vehicle name = record {
  route_id = str (units "4");
  route_short_name = str name;
  agency_name = str (units "Dublin Bus");
  map_direction = str (units "1");
  time_of_update = undefined;
}

abbrev link : Text
link = units "/realtime/route/4/1"

built :
    (name : Text)
    → build_vehicle_popup_html (at_time 0) (vehicle name)
      ≡ some (vehicle_html (at_time 0) (vehicle name) link)
unfolding build_vehicle_popup_html route_href encode_uri_component is_alphanumeric units to_string
built name = refl

vehicle_popup_inert_example :
    markup (vehicle_html (at_time 0) (vehicle (units "4")) link)
    ≡ markup (vehicle_html (at_time 0) (vehicle (units "<4>")) link)
vehicle_popup_inert_example =
    vehicle_popup_inert (at_time 0) (vehicle (units "4")) (vehicle (units "<4>")) _ _ refl refl
      (built (units "4")) (built (units "<4>"))

abbrev noon : Field
noon = str (units "2024-05-01T12:00:00")

three_minutes : format_relative_from_iso (at_time 800000) noon ≡ units "3 mins ago"
unfolding format_relative_from_iso decimal units
three_minutes = refl

format_relative_windows_example :
    (800000 < 600000 + 60000
      → format_relative_from_iso (at_time 800000) noon ≡ units "Less than a minute ago")
    × (600000 + 60000 ≤ 800000
        → 800000 < 600000 + 120000
        → format_relative_from_iso (at_time 800000) noon ≡ units "1 min ago")
    × (600000 + 120000 ≤ 800000
        → (n : ℕ) × (format_relative_from_iso (at_time 800000) noon
            ≡ decimal n ++ units " mins ago")
          × (600000 + n * 60000 ≤ 800000)
          × (800000 < 600000 + (n + 1) * 60000))
format_relative_windows_example =
    format_relative_windows (at_time 800000) noon 600000 (unfold units in refl) refl
