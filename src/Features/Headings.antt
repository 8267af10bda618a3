-- ===== src/Features/Headings.antt =====
-- A vehicle is turned along its own route.
use simply_transport.Common.{
  Text, false, List, [], ◌∷◌, ◌≡◌, ◌≢◌, refl, sym, ap, ◌∙◌, map, All, Option, none, some, text_eq,
  text_eq_iff, text_eq_refl, Bool-cases, inl, inr,
}
use simply_transport.Js.Values.{Field}
use simply_transport.Js.Floats.{Floats}
use simply_transport.Popup.Dates.{Dates}
use simply_transport.Panel.Agency.Consistent.{Distinct}
use simply_transport.Shared.Bearing.{Point, vehicle_icon_rotate_degrees_from_line_string}
use simply_transport.Features.{
  Vehicle, VehicleFeature, Route, Lines, fill_coordinates, coordinates_of, vehicle_feature,
  vehicles_geojson, stop_map_vehicles,
}

unequal_ids : (j id : Text) → j ≢ id → text_eq j id ≡ false
unequal_ids j id h = elim (Bool-cases (text_eq j id)) [
  | inl same ↦ absurd (h ((text_eq_iff j id).0 same))
  | inr other ↦ other
]

module _ (floats : Floats) where
  open floats use {F}

  -- The coordinates of a route's line, or none.
  abbrev pub line_of : Route floats → List (Point floats)
  line_of r = elim r.coordinates [ none ↦ [] | some line ↦ line ]

  -- The entries after one route.
  abbrev put_line : Route floats → Lines floats → Lines floats
  put_line r by_id = elim r.coordinates [ none ↦ by_id | some line ↦ (r.route_id, line) ∷ by_id ]

  coordinates_of-put_other :
      (id : Text) (r : Route floats) (by_id : Lines floats)
      → r.route_id ≢ id
      → coordinates_of floats id (put_line r by_id) ≡ coordinates_of floats id by_id
  unfolding coordinates_of
  coordinates_of-put_other id r by_id h = go r.coordinates
    where
      go :
          (c : Option (List (Point floats)))
          → coordinates_of floats id
              (elim c [ none ↦ by_id | some line ↦ (r.route_id, line) ∷ by_id ])
            ≡ coordinates_of floats id by_id
      go none = refl
      go (some line) = rw (unequal_ids r.route_id id h) refl

  coordinates_of-put_self :
      (r : Route floats) (by_id : Lines floats)
      → coordinates_of floats r.route_id by_id ≡ []
      → coordinates_of floats r.route_id (put_line r by_id) ≡ line_of r
  unfolding coordinates_of
  coordinates_of-put_self r by_id h = go r.coordinates
    where
      go :
          (c : Option (List (Point floats)))
          → coordinates_of floats r.route_id
              (elim c [ none ↦ by_id | some line ↦ (r.route_id, line) ∷ by_id ])
            ≡ elim c [ none ↦ [] | some line ↦ line ]
      go none = h
      go (some line) = rw (text_eq_refl r.route_id) refl

  coordinates_of-fill_other :
      (id : Text) (routes : List (Route floats)) (by_id : Lines floats)
      → All (λ j. j ≢ id) (map (λ (r : Route floats). r.route_id) routes)
      → coordinates_of floats id (fill_coordinates floats routes by_id)
        ≡ coordinates_of floats id by_id
  unfolding fill_coordinates
  coordinates_of-fill_other id [] by_id h = refl
  coordinates_of-fill_other id (r ∷ routes) by_id (h, hs) =
      coordinates_of-fill_other id routes (put_line r by_id) hs
      ∙ coordinates_of-put_other id r by_id h

  lines-fill :
      (routes : List (Route floats)) (by_id : Lines floats)
      → Distinct (map (λ (r : Route floats). r.route_id) routes)
      → All (λ (r : Route floats). coordinates_of floats r.route_id by_id ≡ []) routes
      → All
          (λ (r : Route floats).
            coordinates_of floats r.route_id (fill_coordinates floats routes by_id) ≡ line_of r)
          routes
  unfolding fill_coordinates
  lines-fill [] by_id d hs = tt
  lines-fill (r ∷ routes) by_id (d, ds) (h, hs) = (
    coordinates_of-fill_other r.route_id routes (put_line r by_id) d
        ∙ coordinates_of-put_self r by_id h,
    lines-fill routes (put_line r by_id) ds (still_none routes d hs),
  )
    where
      still_none :
          (rs : List (Route floats))
          → All (λ j. j ≢ r.route_id) (map (λ (r : Route floats). r.route_id) rs)
          → All (λ (q : Route floats). coordinates_of floats q.route_id by_id ≡ []) rs
          → All (λ (q : Route floats). coordinates_of floats q.route_id (put_line r by_id) ≡ []) rs
      still_none [] d hs = tt
      still_none (q ∷ rs) (d, ds) (h, hs) =
          (coordinates_of-put_other q.route_id r by_id (λ e. d (sym e)) ∙ h, still_none rs ds hs)

  none_yet :
      (routes : List (Route floats))
      → All (λ (r : Route floats). coordinates_of floats r.route_id [] ≡ []) routes
  unfolding coordinates_of
  none_yet [] = tt
  none_yet (r ∷ routes) = (refl, none_yet routes)

  turned :
      (dates : Dates) (direction : Field) (line : Text → List (Point floats)) (v : Vehicle F)
      (r : Route floats)
      → line r.route_id ≡ line_of r
      → v.route_id ≡ r.route_id
      → (vehicle_feature floats dates direction line v).heading_deg
        ≡ vehicle_icon_rotate_degrees_from_line_string floats (line_of r) v.lon v.lat
  unfolding vehicle_feature
  turned dates direction line v r h e =
      ap (λ c. vehicle_icon_rotate_degrees_from_line_string floats c v.lon v.lat) (ap line e ∙ h)

  -- One feature for each vehicle, each turned along the line of the vehicle's route.
  abbrev pub Turned : List (Route floats) → List (Vehicle F) → List (VehicleFeature F) → Type 0
  Turned routes [] [] = Unit
  Turned routes (v ∷ vs) (f ∷ fs) =
      All
        (λ (r : Route floats).
          v.route_id ≡ r.route_id
          → f.heading_deg
            ≡ vehicle_icon_rotate_degrees_from_line_string floats (line_of r) v.lon v.lat)
        routes
      × Turned routes vs fs
  Turned routes _ _ = ⊥

  turned-All :
      (dates : Dates) (direction : Field) (line : Text → List (Point floats)) (v : Vehicle F)
      (routes : List (Route floats))
      → All (λ (r : Route floats). line r.route_id ≡ line_of r) routes
      → All
          (λ (r : Route floats).
            v.route_id ≡ r.route_id
            → (vehicle_feature floats dates direction line v).heading_deg
              ≡ vehicle_icon_rotate_degrees_from_line_string floats (line_of r) v.lon v.lat)
          routes
  turned-All dates direction line v [] hs = tt
  turned-All dates direction line v (r ∷ routes) (h, hs) =
      (turned dates direction line v r h, turned-All dates direction line v routes hs)

  map-Turned :
      (dates : Dates) (direction : Field) (line : Text → List (Point floats))
      (routes : List (Route floats)) (vs : List (Vehicle F))
      → All (λ (r : Route floats). line r.route_id ≡ line_of r) routes
      → Turned routes vs (map (vehicle_feature floats dates direction line) vs)
  map-Turned dates direction line routes [] hs = tt
  map-Turned dates direction line routes (v ∷ vs) hs =
      (turned-All dates direction line v routes hs, map-Turned dates direction line routes vs hs)

abbrev pub features_of : {A : Type 0} → Option (List A) → List A
features_of none = []
features_of (some fs) = fs

-- On a stop map no route of which comes twice, there is a feature for each vehicle, in order, and the icon of a vehicle
-- of one of the routes is turned along that route's own line; a route without a line counts as one with no points.
pub stop_map_vehicles-Turned :
    (floats : Floats) (dates : Dates) (direction : Field) (routes : List (Route floats))
    (vs : List (Vehicle floats.F))
    → Distinct (map (λ (r : Route floats). r.route_id) routes)
    → Turned floats routes vs (features_of (stop_map_vehicles floats dates direction routes vs))
unfolding stop_map_vehicles vehicles_geojson
stop_map_vehicles-Turned floats dates direction routes [] distinct = tt
stop_map_vehicles-Turned floats dates direction routes (v ∷ vs) distinct =
    map-Turned floats dates direction _ routes (v ∷ vs)
      (lines-fill floats routes [] distinct (none_yet floats routes))
