-- ===== src/Load/StopSources.antt =====
-- The sources of a stop map have different ids.
use simply_transport.Common.{
  Text, units, Bool, List, [], ◌∷◌, ◌++◌, map, true, false, ◌≡◌, ◌≢◌, refl, text_eq, if◌then◌else◌,
  All, All-append,
}
use simply_transport.Panel.Agency.Consistent.{Distinct}
use simply_transport.Load.{
  Call, source_ids, line_calls, vehicle_calls, stop_label_calls, load_stop_map,
}
use simply_transport.Load.Distinct.{differ, Distinct-append, All-map, All-any, prefixed-Distinct}

lines-source_ids :
    (ids : List Text) (calls : List Call)
    → source_ids (line_calls ids ++ calls)
      ≡ map (λ id. units "route-src-" ++ id) ids ++ source_ids calls
unfolding source_ids line_calls
lines-source_ids [] calls = refl
lines-source_ids (id ∷ ids) calls = rw (lines-source_ids ids calls) refl

vehicles-source_ids :
    (ids : List Text) (calls : List Call)
    → source_ids (vehicle_calls ids ++ calls) ≡ source_ids calls
unfolding source_ids vehicle_calls
vehicles-source_ids [] calls = refl
vehicles-source_ids (id ∷ ids) calls = vehicles-source_ids ids calls

abbrev vehicle_sources : Bool → List Text
vehicle_sources has_vehicles = if has_vehicles then units "vehicles-src" ∷ [] else []

stop_map-source_ids :
    (has_vehicles : Bool) (ids : List Text)
    → source_ids (load_stop_map has_vehicles ids)
      ≡ units "stops-src"
        ∷ (map (λ id. units "route-src-" ++ id) ids ++ vehicle_sources has_vehicles)
unfolding load_stop_map source_ids stop_label_calls
stop_map-source_ids true ids = rw (lines-source_ids ids _, vehicles-source_ids ids _) refl
stop_map-source_ids false ids = rw (lines-source_ids ids _) refl

pub stop_map-sources :
    (has_vehicles : Bool) (ids : List Text)
    → Distinct ids
    → Distinct (units "osm" ∷ source_ids (load_stop_map has_vehicles ids))
unfolding text_eq units
stop_map-sources has_vehicles ids d = rw (stop_map-source_ids has_vehicles ids) (
  (differ _ _ refl, unlike has_vehicles (units "osm") (λ id. refl) refl),
  (
    unlike has_vehicles (units "stops-src") (λ id. refl) refl,
    Distinct-append (map (λ id. units "route-src-" ++ id) ids) (vehicle_sources has_vehicles)
        (prefixed-Distinct (units "route-src-") ids d) (one has_vehicles)
        (All-map _ _ ids (All-any _ (λ id. last has_vehicles id) ids)),
  ),
)
  where
    unlike :
        (has_vehicles : Bool) (x : Text)
        → ((id : Text) → text_eq x (units "route-src-" ++ id) ≡ false)
        → text_eq x (units "vehicles-src") ≡ false
        → All
            (λ y. y ≢ x)
            (map (λ id. units "route-src-" ++ id) ids ++ vehicle_sources has_vehicles)
    unlike true x h k =
        All-append _ (map (λ id. units "route-src-" ++ id) ids) (vehicle_sources true)
          (All-map _ _ ids (All-any _ (λ id. differ _ _ (h id)) ids)) (differ _ _ k, tt)
    unlike false x h k =
        All-append _ (map (λ id. units "route-src-" ++ id) ids) []
          (All-map _ _ ids (All-any _ (λ id. differ _ _ (h id)) ids)) tt

    one : (has_vehicles : Bool) → Distinct (vehicle_sources has_vehicles)
    one true = (tt, tt)
    one false = tt

    last :
        (has_vehicles : Bool) (id : Text)
        → All (λ y. y ≢ units "route-src-" ++ id) (vehicle_sources has_vehicles)
    last true id = (differ _ _ refl, tt)
    last false id = tt
