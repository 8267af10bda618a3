-- ===== src/Load/StopIds.antt =====
-- The layers of a stop map have different ids.
use simply_transport.Common.{
  Text, units, Bool, List, [], ◌∷◌, ◌++◌, map, true, false, ◌≡◌, ◌≢◌, refl, text_eq, if◌then◌else◌,
  All, All-append,
}
use simply_transport.Panel.Agency.Consistent.{Distinct}
use simply_transport.Panel.Stop.Apart.{IsUnmarked, line_vehicle, line_pulse, line_label}
use simply_transport.Load.{
  Call, layer_ids, line_calls, vehicle_calls, stop_label_calls, load_stop_map,
}
use simply_transport.Load.Panels.{layer_ids-append}
use simply_transport.Load.Distinct.{differ, Distinct-append, All-map, All-any, prefixed-Distinct}
use simply_transport.Load.VehicleIds.{vehicles-All, vehicles-Distinct}

lines-layer_ids :
    (ids : List Text) (calls : List Call)
    → layer_ids (line_calls ids ++ calls)
      ≡ map (λ id. units "route-line-" ++ id) ids ++ layer_ids calls
unfolding layer_ids line_calls
lines-layer_ids [] calls = refl
lines-layer_ids (id ∷ ids) calls = rw (lines-layer_ids ids calls) refl

abbrev labels : List Text
labels = units "stops-labels-focus" ∷ units "stops-labels-other" ∷ []

-- The layers of a stop map above the lines of the routes.
abbrev upper_ids : Bool → List Text → List Text
upper_ids has_vehicles ids =
    units "stops-other"
    ∷ units "stops-focus"
    ∷ ((if has_vehicles then layer_ids (vehicle_calls ids) else []) ++ labels)

stop_map-layer_ids :
    (has_vehicles : Bool) (ids : List Text)
    → layer_ids (load_stop_map has_vehicles ids)
      ≡ map (λ id. units "route-line-" ++ id) ids ++ upper_ids has_vehicles ids
unfolding load_stop_map layer_ids stop_label_calls
stop_map-layer_ids true ids =
    rw (lines-layer_ids ids _, layer_ids-append (vehicle_calls ids) stop_label_calls) refl
stop_map-layer_ids false ids = rw (lines-layer_ids ids _) refl

-- Those above the stops.
labelled-All :
    (P : Text → Type 0) (has_vehicles : Bool) (ids : List Text)
    → P (units "stops-labels-focus")
    → P (units "stops-labels-other")
    → ((id : Text) → P (units "vehicle-pulse-" ++ id))
    → ((id : Text) → P (units "vehicle-" ++ id))
    → ((id : Text) → P (units "vehicle-label-" ++ id))
    → All P ((if has_vehicles then layer_ids (vehicle_calls ids) else []) ++ labels)
labelled-All P true ids c d p v l =
    All-append P (layer_ids (vehicle_calls ids)) labels
      (vehicles-All P ids (All-any _ (λ id. (p id, v id, l id)) ids)) (c, (d, tt))
labelled-All P false ids c d p v l = (c, (d, tt))

labelled-Distinct :
    (has_vehicles : Bool) (ids : List Text)
    → Distinct ids
    → All IsUnmarked ids
    → Distinct ((if has_vehicles then layer_ids (vehicle_calls ids) else []) ++ labels)
unfolding text_eq units
labelled-Distinct true ids d us =
    Distinct-append (layer_ids (vehicle_calls ids)) labels (vehicles-Distinct ids d us)
      ((differ _ _ refl, tt), (tt, tt))
      (vehicles-All _ ids
        (All-any _ (λ id. (apart _ refl refl, apart _ refl refl, apart _ refl refl)) ids))
  where
    apart :
        (x : Text)
        → text_eq x (units "stops-labels-focus") ≡ false
        → text_eq x (units "stops-labels-other") ≡ false
        → All (λ y. y ≢ x) labels
    apart x h k = (differ _ _ h, (differ _ _ k, tt))
labelled-Distinct false ids d us = ((differ _ _ refl, tt), (tt, tt))

upper-Distinct :
    (has_vehicles : Bool) (ids : List Text)
    → Distinct ids
    → All IsUnmarked ids
    → Distinct (upper_ids has_vehicles ids)
unfolding text_eq units
upper-Distinct has_vehicles ids d us = (
  (
    differ _ _ refl,
    labelled-All _ has_vehicles ids (differ _ _ refl) (differ _ _ refl) (λ id. differ _ _ refl)
        (λ id. differ _ _ refl) (λ id. differ _ _ refl),
  ),
  (
    labelled-All _ has_vehicles ids (differ _ _ refl) (differ _ _ refl) (λ id. differ _ _ refl)
        (λ id. differ _ _ refl) (λ id. differ _ _ refl),
    labelled-Distinct has_vehicles ids d us,
  ),
)

upper-All :
    (P : Text → Type 0) (has_vehicles : Bool) (ids : List Text)
    → P (units "stops-other")
    → P (units "stops-focus")
    → P (units "stops-labels-focus")
    → P (units "stops-labels-other")
    → ((id : Text) → P (units "vehicle-pulse-" ++ id))
    → ((id : Text) → P (units "vehicle-" ++ id))
    → ((id : Text) → P (units "vehicle-label-" ++ id))
    → All P (upper_ids has_vehicles ids)
upper-All P has_vehicles ids a b c d p v l = (a, (b, labelled-All P has_vehicles ids c d p v l))

lines-apart :
    (has_vehicles : Bool) (ids routes : List Text)
    → All
        (λ x. All (λ y. y ≢ x) (upper_ids has_vehicles ids))
        (map (λ id. units "route-line-" ++ id) routes)
unfolding text_eq units
lines-apart has_vehicles ids routes = All-map _ _ routes (
    All-any _
      (λ id.
        upper-All (λ y. y ≢ units "route-line-" ++ id) has_vehicles ids (differ _ _ refl)
          (differ _ _ refl) (differ _ _ refl) (differ _ _ refl) (λ j. differ _ _ (line_pulse id j))
          (λ j. differ _ _ (line_vehicle id j)) (λ j. differ _ _ (line_label id j)))
      routes)

pub stop_map-layers :
    (has_vehicles : Bool) (ids : List Text)
    → Distinct ids
    → All IsUnmarked ids
    → Distinct (units "osm" ∷ layer_ids (load_stop_map has_vehicles ids))
unfolding text_eq units
stop_map-layers has_vehicles ids d us = rw (stop_map-layer_ids has_vehicles ids) (
  All-append _ (map (λ id. units "route-line-" ++ id) ids) (upper_ids has_vehicles ids)
      (All-map _ _ ids (All-any _ (λ id. differ _ _ refl) ids))
      (upper-All _ has_vehicles ids (differ _ _ refl) (differ _ _ refl) (differ _ _ refl)
        (differ _ _ refl) (λ id. differ _ _ refl) (λ id. differ _ _ refl) (λ id. differ _ _ refl)),
  Distinct-append (map (λ id. units "route-line-" ++ id) ids) (upper_ids has_vehicles ids)
      (prefixed-Distinct (units "route-line-") ids d) (upper-Distinct has_vehicles ids d us)
      (lines-apart has_vehicles ids ids),
)
