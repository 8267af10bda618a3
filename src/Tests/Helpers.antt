-- ===== src/Tests/Helpers.antt =====
-- The shared helpers at concrete inputs.
use simply_transport.Common.{
  ℕ, ◌+◌, ◌<◌, ◌≡◌, refl, ◌↔◌, Text, units, Bool, true, false, List, [], ◌∷◌, ◌++◌, map, Option,
  none, some, text_eq, length, arith, All, if◌then◌else◌,
}
use simply_transport.Js.Values.{Field, str, truthy, to_string}
use simply_transport.Js.Uri.{is_alphanumeric}
use simply_transport.Shared.Keys.{
  IsKey, is_key_unit, sanitize_route_id_for_image_key, sanitize_route_id,
}
use simply_transport.Shared.Icons.{Image, register_all}
use simply_transport.Shared.Icons.Colors.{AllDrawn}
use simply_transport.Shared.Icons.Payload.{AllHex, AllShown, register_all_shows}
use simply_transport.Shared.Bearing.{
  segment_distances, distance_sq_point_to_segment_planar, best_segment, bearing_degrees,
  vehicle_icon_rotate_degrees_from_line_string,
}
use simply_transport.Shared.Bearing.Nearest.{IsNearest, best_segment-IsNearest}
use simply_transport.Shared.Bearing.Range.{IsAngle, AllFinite, heading-IsAngle}
use simply_transport.Shared.Pulse as Pulse
use simply_transport.Shared.Pulse.{
  vehicle_pulse_is_active, pulse_active_iff, start_vehicle_pulse_animation,
}
use simply_transport.Shared.Pulse.Stops.{painted, InRange, animation_paints_until_removed}
use simply_transport.Shared.Marker as Marker
use simply_transport.Shared.Marker.{Page, Outcome, returned, threw, load_mono_marker_image}
use simply_transport.Shared.Marker.Calls.{
  Returns, CalledOnce, marker-CalledOnce, noting, page_of, marker_told,
}
use simply_transport.Tests.Instances.{list_images, at_time}
use simply_transport.Tests.Numbers.{Number, plus, whole_numbers}

sanitized : sanitize_route_id_for_image_key (str (units "4-82 é")) ≡ units "4-82__"
unfolding sanitize_route_id_for_image_key to_string units is_key_unit is_alphanumeric
sanitized = refl

sanitize_route_id_example :
    let key = sanitize_route_id_for_image_key (str (units "4 b")) in
    IsKey key
    × (length key ≡ length (to_string (str (units "4 b"))))
    × (key ≡ to_string (str (units "4 b")) ↔ IsKey (to_string (str (units "4 b"))))
sanitize_route_id_example = sanitize_route_id (str (units "4 b"))

abbrev hex : Text → Field
hex digits = str (b'#' ∷ digits)

-- Both routes have the same sanitised id.
abbrev colored : List (Field × Field)
colored = (str (units "1 a"), hex (units "ff0000")) ∷ (str (units "1_a"), hex (units "00ff00")) ∷ []

colored-AllHex : AllHex list_images true true colored
unfolding is_key_unit is_alphanumeric units
colored-AllHex = (
  record { digits = units "ff0000"; shape = refl; key = ground arith; six = refl },
  (record { digits = units "00ff00"; shape = refl; key = ground arith; six = refl }, tt),
)

no_images : AllDrawn list_images true true []
no_images id i e = absurd (cc)

register_all_shows_example :
    (m : List (Text × Image)) × (register_all list_images true true [] colored ≡ some m)
    × AllShown list_images true true m colored
register_all_shows_example =
    register_all_shows list_images true true [] colored refl colored-AllHex no_images

abbrev line : List (Number × Number)
line = (plus 0, plus 0) ∷ (plus 10, plus 0) ∷ (plus 10, plus 10) ∷ []

second_segment : best_segment whole_numbers line (plus 12) (plus 10) ≡ 1
unfolding best_segment distance_sq_point_to_segment_planar
second_segment = refl

best_segment-IsNearest_example :
    IsNearest whole_numbers
      (segment_distances whole_numbers (plus 1) (plus 12) (plus 10) line)
      (best_segment whole_numbers line (plus 12) (plus 10))
best_segment-IsNearest_example =
    best_segment-IsNearest whole_numbers line (plus 12) (plus 10) (omega arith)

line-AllFinite : AllFinite whole_numbers line
unfolding bearing_degrees
line-AllFinite = (tt, (tt, tt))

heading-IsAngle_example :
    IsAngle whole_numbers
      (vehicle_icon_rotate_degrees_from_line_string whole_numbers line (plus 12) (plus 10))
heading-IsAngle_example = heading-IsAngle whole_numbers line (plus 12) (plus 10) line-AllFinite

abbrev noon : Field
noon = str (units "2024-05-01T12:00:00")

pulse_active_iff_example :
    (vehicle_pulse_is_active (at_time 700000) noon ≡ true)
    ↔ ((truthy noon ≡ true) × (ms : ℕ) × (some 600000 ≡ some ms) × (700000 < ms + 180000))
pulse_active_iff_example = pulse_active_iff (at_time 700000) noon

abbrev circles : Text → Option Text
circles id = if text_eq id (units "vehicle-pulse-1") then some (units "circle") else none

abbrev pulse_ids : List Text
pulse_ids = units "vehicle-pulse-1" ∷ units "vehicle-pulse-2" ∷ []

animation_paints_until_removed_example :
    let calls =
      (Pulse.run circles pulse_ids
        (start_vehicle_pulse_animation circles pulse_ids)
        (map Pulse.frame (0 ∷ 10000 ∷ []) ++ Pulse.remove ∷ Pulse.frame 5000 ∷ [])).calls in
    (calls ≡ painted circles pulse_ids (0 ∷ 10000 ∷ [])) × All InRange calls
animation_paints_until_removed_example =
    animation_paints_until_removed circles pulse_ids (0 ∷ 10000 ∷ []) (Pulse.frame 5000 ∷ [])
      (omega arith, (omega arith, tt))

-- Each call is noted, with its argument; in the second version a call that tells of success throws.
abbrev note :
    Bool → Page (List (Text × Image)) (List Bool) → Outcome (Page (List (Text × Image)) (List Bool))
note ok p = returned (record p { rest = ok ∷ p.rest })

note-Returns : Returns note
note-Returns ok p = (record p { rest = ok ∷ p.rest }, refl)

abbrev blank : Page (List (Text × Image)) (List Bool)
blank = record { map = []; urls = 0; rest = [] }

marker-CalledOnce_example : CalledOnce list_images [] note blank (
    load_mono_marker_image list_images [] note
      (Marker.errors (Marker.image_loads Marker.drawn))
      blank)
marker-CalledOnce_example =
    marker-CalledOnce list_images [] note (Marker.errors (Marker.image_loads Marker.drawn)) blank
      note-Returns

-- It throws whenever it is told of success.
abbrev throws_on_success : List Bool → Bool
throws_on_success [] = false
throws_on_success (ok ∷ notes) = ok

marker_told_example :
    (page_of (
      load_mono_marker_image list_images []
        (noting throws_on_success)
        (Marker.errors (Marker.image_loads Marker.drawn))
        blank)).rest
    ≡ false ∷ true ∷ []
marker_told_example =
    marker_told list_images [] throws_on_success (Marker.errors (Marker.image_loads Marker.drawn))
      blank
