-- ===== src/Load/VehicleIds.antt =====
-- The layers of the vehicles of a stop map have different ids.
use simply_transport.Common.{Text, units, List, [], ◌∷◌, ◌++◌, ◌≢◌, sym, All}
use simply_transport.Panel.Agency.Consistent.{Distinct}
use simply_transport.Panel.Stop.Apart.{IsUnmarked, unequal, pulse_label, after_vehicle, swap}
use simply_transport.Load.{layer_ids, vehicle_calls}
use simply_transport.Load.Distinct.{differ, All-with}

-- The layers of the vehicles.
pub vehicles-All :
    (P : Text → Type 0) (ids : List Text)
    → All
        (λ id.
          P (units "vehicle-pulse-" ++ id)
          × P (units "vehicle-" ++ id)
          × P (units "vehicle-label-" ++ id))
        ids
    → All P (layer_ids (vehicle_calls ids))
unfolding layer_ids vehicle_calls
vehicles-All P [] h = tt
vehicles-All P (id ∷ ids) ((p, v, l), hs) = (p, (v, (l, vehicles-All P ids hs)))

-- What the ids of a route's layers need to differ from those of another route.
abbrev IsOther : Text → Text → Type 0
IsOther id j = (j ≢ id) × IsUnmarked j

others :
    (id : Text) (ids : List Text)
    → All (λ j. j ≢ id) ids
    → All IsUnmarked ids
    → All (IsOther id) ids
others id [] h us = tt
others id (j ∷ ids) (h, hs) (u, us) = ((h, u), others id ids hs us)

pulse-differs :
    (id j : Text)
    → IsOther id j
    → (units "vehicle-pulse-" ++ j ≢ units "vehicle-pulse-" ++ id)
      × (units "vehicle-" ++ j ≢ units "vehicle-pulse-" ++ id)
      × (units "vehicle-label-" ++ j ≢ units "vehicle-pulse-" ++ id)
pulse-differs id j (n, u) = (
  differ _ _ (unequal (units "vehicle-pulse-") id j (λ e. n (sym e))),
  differ _ _ (swap _ _ (after_vehicle j id u).0),
  differ _ _ (pulse_label id j),
)

vehicle-differs :
    (id j : Text)
    → IsUnmarked id
    → IsOther id j
    → (units "vehicle-pulse-" ++ j ≢ units "vehicle-" ++ id)
      × (units "vehicle-" ++ j ≢ units "vehicle-" ++ id)
      × (units "vehicle-label-" ++ j ≢ units "vehicle-" ++ id)
vehicle-differs id j v (n, u) = (
  differ _ _ (after_vehicle id j v).0,
  differ _ _ (unequal (units "vehicle-") id j (λ e. n (sym e))),
  differ _ _ (after_vehicle id j v).1,
)

label-differs :
    (id j : Text)
    → IsOther id j
    → (units "vehicle-pulse-" ++ j ≢ units "vehicle-label-" ++ id)
      × (units "vehicle-" ++ j ≢ units "vehicle-label-" ++ id)
      × (units "vehicle-label-" ++ j ≢ units "vehicle-label-" ++ id)
label-differs id j (n, u) = (
  differ _ _ (swap _ _ (pulse_label j id)),
  differ _ _ (swap _ _ (after_vehicle j id u).1),
  differ _ _ (unequal (units "vehicle-label-") id j (λ e. n (sym e))),
)

pub vehicles-Distinct :
    (ids : List Text) → Distinct ids → All IsUnmarked ids → Distinct (layer_ids (vehicle_calls ids))
unfolding layer_ids vehicle_calls
vehicles-Distinct [] d us = tt
vehicles-Distinct (id ∷ ids) (d, ds) (u, us) =
    let os = others id ids d us in
    (
      (
        differ _ _ (swap _ _ (after_vehicle id id u).0),
        (differ _ _ (pulse_label id id), vehicles-All _ ids (All-with (pulse-differs id) ids os)),
      ),
      (
        (
          differ _ _ (after_vehicle id id u).1,
          vehicles-All _ ids (All-with (λ j. vehicle-differs id j u) ids os),
        ),
        (vehicles-All _ ids (All-with (label-differs id) ids os), vehicles-Distinct ids ds us),
      ),
    )
