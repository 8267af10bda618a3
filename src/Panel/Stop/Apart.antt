-- ===== src/Panel/Stop/Apart.antt =====
-- When the routes of a stop map share no layer: their ids differ, and none begins with `pulse-` or `label-`.
use simply_transport.Common.{
  Text, units, Bool, true, false, List, [], ◌∷◌, ◌++◌, ◌||◌, ◌≡◌, ◌≢◌, refl, sym, ◌∙◌, none, some,
  All, text_eq, text_eq_iff, append_cancel_left, arith, Bool-cases, inl, inr,
}
use simply_transport.Js.Strings.{strip_prefix}
use simply_transport.Shared.Visibility.{Layers}
use simply_transport.Shared.Visibility.Agree.{Apart}
use simply_transport.Panel.Agency.Consistent.{Distinct}
use simply_transport.Panel.Rows.{layer_list}
use simply_transport.Panel.Rows.Agreement.{RowsApart, RowsApartFrom}
use simply_transport.Panel.Stop.{route_layers, other_stop_ids}
use simply_transport.Panel.Stop.Consistent.{RoutesApart, ids_of}

-- The id cannot be read as that of another layer of a route's vehicles.
abbrev pub IsUnmarked : Text → Type 0
IsUnmarked id =
    (strip_prefix (units "pulse-") id ≡ none) × (strip_prefix (units "label-") id ≡ none)

strip_prefix-append : (p s : Text) → strip_prefix p (p ++ s) ≡ some s
unfolding strip_prefix
strip_prefix-append [] s = refl
strip_prefix-append (c ∷ p) s = ground (arith, strip_prefix-append p s)

pub unprefixed : (p s t : Text) → strip_prefix p s ≡ none → text_eq s (p ++ t) ≡ false
unprefixed p s t h = elim (Bool-cases (text_eq s (p ++ t))) [
  | inl same ↦
      let e : s ≡ p ++ t = (text_eq_iff _ _).0 same in
      absurd (
        let found = strip_prefix-append p t in
        let clash : strip_prefix p (p ++ t) ≡ none = rw⁻¹ e h in cc)
  | inr other ↦ other
]

pub text_eq_sym : (s t : Text) → text_eq s t ≡ text_eq t s
text_eq_sym s t = elim (Bool-cases (text_eq s t)) [
  | inl same ↦ let e : s ≡ t = (text_eq_iff _ _).0 same in rw e refl
  | inr other ↦ elim (Bool-cases (text_eq t s)) [
    | inl same ↦ let e : t ≡ s = (text_eq_iff _ _).0 same in rw e refl
    | inr other' ↦ other ∙ sym other'
  ]
]

pub unequal : (p s t : Text) → s ≢ t → text_eq (p ++ s) (p ++ t) ≡ false
unequal p s t h = elim (Bool-cases (text_eq (p ++ s) (p ++ t))) [
  | inl same ↦ absurd (h (append_cancel_left p s t ((text_eq_iff _ _).0 same)))
  | inr other ↦ other
]

-- After `vehicle-`, a marked id is none that is not marked.
pub after_vehicle :
    (i j : Text)
    → IsUnmarked i
    → (text_eq (units "vehicle-" ++ i) (units "vehicle-pulse-" ++ j) ≡ false)
      × (text_eq (units "vehicle-" ++ i) (units "vehicle-label-" ++ j) ≡ false)
unfolding text_eq units
after_vehicle i j (p, l) = (unprefixed (units "pulse-") i j p, unprefixed (units "label-") i j l)

all_false :
    (a b c d : Bool)
    → a ≡ false
    → b ≡ false
    → c ≡ false
    → d ≡ false
    → (a || (b || (c || (d || false)))) ≡ false
all_false a b c d h k l m = ground arith

-- Ids that begin differently.
pub line_vehicle : (i j : Text) → text_eq (units "route-line-" ++ i) (units "vehicle-" ++ j) ≡ false
unfolding text_eq units
line_vehicle i j = refl

pub line_pulse :
    (i j : Text) → text_eq (units "route-line-" ++ i) (units "vehicle-pulse-" ++ j) ≡ false
unfolding text_eq units
line_pulse i j = refl

pub line_label :
    (i j : Text) → text_eq (units "route-line-" ++ i) (units "vehicle-label-" ++ j) ≡ false
unfolding text_eq units
line_label i j = refl

pub pulse_label :
    (i j : Text) → text_eq (units "vehicle-pulse-" ++ i) (units "vehicle-label-" ++ j) ≡ false
unfolding text_eq units
pulse_label i j = refl

pub swap : (s t : Text) → text_eq s t ≡ false → text_eq t s ≡ false
swap s t h = text_eq_sym t s ∙ h

ids-Apart :
    (has_vehicles : Bool) (i j : Text)
    → i ≢ j
    → IsUnmarked i
    → IsUnmarked j
    → Apart (ids_of has_vehicles j) (ids_of has_vehicles i)
unfolding layer_list route_layers
ids-Apart false i j h u v = (let e = unequal (units "route-line-") i j h in ground arith, tt)
ids-Apart true i j h u v = (
  all_false _ _ _ _ (unequal (units "route-line-") i j h) (swap _ _ (line_vehicle j i))
      (swap _ _ (line_pulse j i)) (swap _ _ (line_label j i)),
  (
    all_false _ _ _ _ (line_vehicle i j) (unequal (units "vehicle-") i j h)
        (swap _ _ (after_vehicle j i v).0) (swap _ _ (after_vehicle j i v).1),
    (
      all_false _ _ _ _ (line_pulse i j) (after_vehicle i j u).0
          (unequal (units "vehicle-pulse-") i j h) (swap _ _ (pulse_label j i)),
      (
        all_false _ _ _ _ (line_label i j) (after_vehicle i j u).1 (pulse_label i j)
            (unequal (units "vehicle-label-") i j h),
        tt,
      ),
    ),
  ),
)

stops-Apart :
    (has_vehicles : Bool) (id : Text)
    → Apart (ids_of has_vehicles id) other_stop_ids × Apart other_stop_ids (ids_of has_vehicles id)
unfolding layer_list route_layers text_eq units
stops-Apart true id = ((refl, (refl, (refl, (refl, tt)))), (refl, (refl, tt)))
stops-Apart false id = ((refl, tt), (refl, (refl, tt)))

module _ (lib : Layers) (has_vehicles : Bool) where
  row-Apart :
      (id : Text) (ids : List Text)
      → IsUnmarked id
      → All (λ j. j ≢ id) ids
      → All IsUnmarked ids
      → All
          (λ j.
            Apart (ids_of has_vehicles j) (ids_of has_vehicles id)
            × Apart (ids_of has_vehicles id) (ids_of has_vehicles j))
          ids
  row-Apart id [] u h us = tt
  row-Apart id (j ∷ ids) u (h, hs) (v, us) = (
    (ids-Apart has_vehicles id j (λ e. h (sym e)) u v, ids-Apart has_vehicles j id h v u),
    row-Apart id ids u hs us,
  )

  rows-Apart :
      (routes : List Text)
      → Distinct routes
      → All IsUnmarked routes
      → RowsApart lib (ids_of has_vehicles) routes
  rows-Apart [] d us = tt
  rows-Apart (id ∷ routes) (d, ds) (u, us) = (row-Apart id routes u d us, rows-Apart routes ds us)

  stops-ApartFrom :
      (routes : List Text) → RowsApartFrom lib (ids_of has_vehicles) other_stop_ids routes
  stops-ApartFrom [] = tt
  stops-ApartFrom (id ∷ routes) = (stops-Apart has_vehicles id, stops-ApartFrom routes)

-- If no route comes twice and no route's id begins with `pulse-` or `label-`, no two rows of a stop map's panel, and
-- no row and the stops, share a layer.
pub routes-RoutesApart :
    (lib : Layers) (has_vehicles : Bool) (routes : List Text)
    → Distinct routes
    → All IsUnmarked routes
    → RoutesApart lib has_vehicles routes
routes-RoutesApart lib has_vehicles routes distinct unmarked = record {
  rows = rows-Apart lib has_vehicles routes distinct unmarked;
  stops = stops-ApartFrom lib has_vehicles routes;
}
