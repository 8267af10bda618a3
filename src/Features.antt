-- ===== src/Features.antt =====
-- The features of stops that `initStopMap` of stop-map.js makes of a payload, and those of vehicles that it and
-- `initRouteMap` of route-map.js make.
pub mod Places
pub mod Headings
use simply_transport.Common.{
  Text, units, Bool, true, false, not, ◌&&◌, List, [], ◌∷◌, map, any, if◌then◌else◌, Option, none,
  some, text_eq,
}
use simply_transport.Js.Values.{Field, str, truthy}
use simply_transport.Js.Floats.{Floats}
use simply_transport.Popup.Dates.{Dates}
use simply_transport.Popup.Builders.{MapStop}
use simply_transport.Popup.Vehicle.{VehicleProps}
use simply_transport.Shared.Bearing.{Point, vehicle_icon_rotate_degrees_from_line_string}
use simply_transport.Shared.Pulse.{vehicle_pulse_is_active}

-- A stop's feature: its point, and the properties that the layers read.
pub record StopFeature (F : Type 0) : Type 0 where
  pub lon : F
  pub lat : F
  pub stop_id : Text
  pub is_focus : Bool
  pub stop_code : Field

unfoldable pub stop_feature : {F : Type 0} → MapStop F → StopFeature F
stop_feature s = record {
  lon = s.lon;
  lat = s.lat;
  stop_id = s.stop_id;
  is_focus = s.is_focus;
  stop_code = if truthy s.code then s.code else str s.stop_id;
}

-- A vehicle of the payload.
pub record Vehicle (F : Type 0) : Type 0 where
  pub route_id : Text
  pub lon : F
  pub lat : F
  pub color : Field
  pub vehicle_id : Field
  pub trip_id : Field
  pub route_short_name : Field
  pub agency_name : Field
  pub time_of_update : Field

-- Its feature; `popup` has the properties that its popup reads.
pub record VehicleFeature (F : Type 0) : Type 0 where
  pub lon : F
  pub lat : F
  pub color : Field
  pub vehicle_id : Field
  pub trip_id : Field
  pub popup : VehicleProps
  pub pulse_active : Bool
  pub heading_deg : F

module _ (floats : Floats) where
  open floats use {F}

  -- A route of the payload, with the coordinates of its line if it has any.
  pub record Route : Type 0 where
    pub route_id : Text
    pub coordinates : Option (List (Point floats))

  -- `routeCoordinatesById`, the last entry first; of an object's own properties.
  abbrev pub Lines : Type 0
  Lines = List (Text × List (Point floats))

  -- The loop over the payload's routes.
  unfoldable pub fill_coordinates : List Route → Lines → Lines
  fill_coordinates [] by_id = by_id
  fill_coordinates (r ∷ routes) by_id =
      fill_coordinates routes
        (elim r.coordinates [ none ↦ by_id | some line ↦ (r.route_id, line) ∷ by_id ])

  -- `routeCoordinatesById[id] || []`
  unfoldable pub coordinates_of : Text → Lines → List (Point floats)
  coordinates_of id [] = []
  coordinates_of id ((j, line) ∷ by_id) = if text_eq j id then line else coordinates_of id by_id

  -- `line` gives the coordinates by which a vehicle is turned.
  unfoldable pub vehicle_feature :
      Dates → Field → (Text → List (Point floats)) → Vehicle F → VehicleFeature F
  vehicle_feature dates direction line v = record {
    lon = v.lon;
    lat = v.lat;
    color = v.color;
    vehicle_id = v.vehicle_id;
    trip_id = v.trip_id;
    popup = record {
      route_id = str v.route_id;
      route_short_name = v.route_short_name;
      agency_name = v.agency_name;
      map_direction = direction;
      time_of_update = v.time_of_update;
    };
    pulse_active = vehicle_pulse_is_active dates v.time_of_update;
    heading_deg = vehicle_icon_rotate_degrees_from_line_string floats (line v.route_id) v.lon v.lat;
  }

  -- `null` without vehicles.
  unfoldable pub vehicles_geojson :
      Dates
      → Field
      → (Text → List (Point floats))
      → List (Vehicle F)
      → Option (List (VehicleFeature F))
  vehicles_geojson dates direction line [] = none
  vehicles_geojson dates direction line (v ∷ vehicles) =
      some (map (vehicle_feature dates direction line) (v ∷ vehicles))

  -- stop-map.js
  unfoldable pub stop_map_vehicles :
      Dates → Field → List Route → List (Vehicle F) → Option (List (VehicleFeature F))
  stop_map_vehicles dates direction routes =
      vehicles_geojson dates direction (λ id. coordinates_of id (fill_coordinates routes []))

  -- route-map.js, whose map has one route.
  unfoldable pub route_map_vehicles :
      Dates → Field → Route → List (Vehicle F) → Option (List (VehicleFeature F))
  route_map_vehicles dates direction r =
      vehicles_geojson dates direction (λ id. elim r.coordinates [ none ↦ [] | some line ↦ line ])

-- Whether `load` starts the animation.
unfoldable pub pulse_starts : {F : Type 0} → Option (List (VehicleFeature F)) → Bool
pulse_starts none = false
pulse_starts (some features) = any (λ f. f.pulse_active) features

-- A property of a feature: a field, a flag, or another value.
pub data Property : Type 0 where
  field : Field → Property
  flag : Bool → Property
  other : Property

-- The `properties` of a stop's feature and of a vehicle's, as far as the layers' filters read them; `other` stands for
-- the rest, and for what is not there.
unfoldable pub stop_properties : {F : Type 0} → StopFeature F → Text → Property
stop_properties f k =
    if text_eq k (units "is_focus")
    then flag f.is_focus
    else if text_eq k (units "stop_id")
    then field (str f.stop_id)
    else if text_eq k (units "stop_code")
    then field f.stop_code
    else other

unfoldable pub vehicle_properties : {F : Type 0} → VehicleFeature F → Text → Property
vehicle_properties f k =
    if text_eq k (units "route_id")
    then field f.popup.route_id
    else if text_eq k (units "pulse_active")
    then flag f.pulse_active
    else if text_eq k (units "color")
    then field f.color
    else if text_eq k (units "vehicle_id")
    then field f.vehicle_id
    else if text_eq k (units "trip_id")
    then field f.trip_id
    else if text_eq k (units "route_short_name")
    then field f.popup.route_short_name
    else other
