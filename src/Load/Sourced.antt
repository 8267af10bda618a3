-- ===== src/Load/Sourced.antt =====
-- A layer's source is there when the layer is added.
use simply_transport.Common.{
  Text, units, Bool, List, [], ◌∷◌, ◌++◌, true, false, ◌≡◌, refl, text_eq, text_eq_refl,
}
use simply_transport.Shared.Visibility.{listed}
use simply_transport.Shared.Visibility.Agree.{listed-cons}
use simply_transport.Load.{
  Call, Payload, stop_payload, route_payload, agency_payload, nearby_payload, static_payload, load,
  sourced, line_calls, vehicle_calls, stop_label_calls, load_stop_map, load_route_map,
  load_agency_map, load_nearby_map, load_static_stop_map,
}

agency-sourced : (routes srcs : List Text) → sourced srcs (load_agency_map routes) ≡ true
unfolding sourced load_agency_map
agency-sourced [] srcs = refl
agency-sourced (id ∷ routes) srcs =
    rw (text_eq_refl (units "agency-route-src-" ++ id)) (agency-sourced routes _)

lines-sourced :
    (routes srcs : List Text) (calls : List Call)
    → listed (units "stops-src") srcs ≡ true
    → ((more : List Text) → listed (units "stops-src") more ≡ true → sourced more calls ≡ true)
    → sourced srcs (line_calls routes ++ calls) ≡ true
unfolding sourced line_calls
lines-sourced [] srcs calls h k = k srcs h
lines-sourced (id ∷ routes) srcs calls h k =
    rw (text_eq_refl (units "route-src-" ++ id))
      (lines-sourced routes ((units "route-src-" ++ id) ∷ srcs) calls (listed-cons _ _ srcs h) k)

vehicles-sourced :
    (routes srcs : List Text) (calls : List Call)
    → listed (units "vehicles-src") srcs ≡ true
    → sourced srcs calls ≡ true
    → sourced srcs (vehicle_calls routes ++ calls) ≡ true
unfolding sourced vehicle_calls
vehicles-sourced [] srcs calls h k = k
vehicles-sourced (id ∷ routes) srcs calls h k = rw h (vehicles-sourced routes srcs calls h k)

labels-sourced :
    (srcs : List Text)
    → listed (units "stops-src") srcs ≡ true
    → sourced srcs stop_label_calls ≡ true
unfolding sourced stop_label_calls
labels-sourced srcs h = rw h refl

stop_map-sourced :
    (has_vehicles : Bool) (routes : List Text)
    → sourced [] (load_stop_map has_vehicles routes) ≡ true
unfolding sourced load_stop_map text_eq units
stop_map-sourced true routes = lines-sourced routes (units "stops-src" ∷ []) _ refl (λ more h.
    rw h (
      vehicles-sourced routes (units "vehicles-src" ∷ more) stop_label_calls refl (
        labels-sourced (units "vehicles-src" ∷ more)
          (listed-cons (units "stops-src") (units "vehicles-src") more h))))
stop_map-sourced false routes =
    lines-sourced routes (units "stops-src" ∷ []) _ refl (λ more h. rw h (labels-sourced more h))

route_map-sourced :
    (has_vehicles : Bool) (id : Text) → sourced [] (load_route_map has_vehicles id) ≡ true
unfolding sourced load_route_map text_eq units
route_map-sourced true id = refl
route_map-sourced false id = refl

nearby_map-sourced : (mono : Bool) → sourced [] (load_nearby_map mono) ≡ true
unfolding sourced load_nearby_map text_eq units
nearby_map-sourced true = refl
nearby_map-sourced false = refl

static_stop_map-sourced : sourced [] load_static_stop_map ≡ true
unfolding sourced load_static_stop_map text_eq units
static_stop_map-sourced = refl

-- On each of the five maps, whatever its data: every layer that `load` adds has a source that was added before it.
pub load-sourced : (payload : Payload) → sourced [] (load payload) ≡ true
load-sourced (stop_payload has_vehicles routes) = stop_map-sourced has_vehicles routes
load-sourced (route_payload has_vehicles id) = route_map-sourced has_vehicles id
load-sourced (agency_payload routes) = agency-sourced routes []
load-sourced (nearby_payload mono) = nearby_map-sourced mono
load-sourced static_payload = static_stop_map-sourced
