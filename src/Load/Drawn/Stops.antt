-- ===== src/Load/Drawn/Stops.antt =====
-- Which layers of a stop map draw a stop.
use simply_transport.Common.{
  ℕ, leb, Text, units, Bool, List, [], ◌∷◌, ◌++◌, true, false, not, ◌&&◌, ◌≡◌, refl, ap, ◌∙◌,
  if◌then◌else◌, text_eq, text_eq_refl,
}
use simply_transport.Features.{Property, flag}
use simply_transport.Load.{
  Call, add_source, in_focus, line_calls, vehicle_calls, stop_label_calls, load_stop_map,
}
use simply_transport.Load.Drawn.{is_flag, Filters, drawn, stop_layers}

module _ (lib : Filters) (zoom : ℕ) (ps : Text → Property) (focus : Bool)
    (a : ps (units "is_focus") ≡ flag focus) where
  open lib use {matches, flag_matches}

  abbrev shown : List Call → List Text
  shown calls = drawn lib zoom (units "stops-src") ps calls

  focus-matches : matches (in_focus true) ps ≡ focus
  focus-matches = flag_matches (units "is_focus") true ps ∙ ap (is_flag true) a

  other-matches : matches (in_focus false) ps ≡ not focus
  other-matches = flag_matches (units "is_focus") false ps ∙ ap (is_flag false) a

  route_lines-skipped :
      (ids : List Text) (calls : List Call) → shown (line_calls ids ++ calls) ≡ shown calls
  unfolding drawn line_calls text_eq units
  route_lines-skipped [] calls = refl
  route_lines-skipped (id ∷ ids) calls = route_lines-skipped ids calls

  vehicles-skipped :
      (ids : List Text) (calls : List Call) → shown (vehicle_calls ids ++ calls) ≡ shown calls
  unfolding drawn vehicle_calls text_eq units
  vehicles-skipped [] calls = refl
  vehicles-skipped (id ∷ ids) calls = vehicles-skipped ids calls

  upper-skipped :
      (has_vehicles : Bool) (ids : List Text)
      → shown (
          if has_vehicles
          then add_source (units "vehicles-src") ∷ (vehicle_calls ids ++ stop_label_calls)
          else stop_label_calls)
        ≡ shown stop_label_calls
  unfolding drawn
  upper-skipped true ids = vehicles-skipped ids stop_label_calls
  upper-skipped false ids = refl

  abbrev near : Bool
  near = leb 15 zoom

  abbrev labels : List Text
  labels =
      if near
      then (if focus then units "stops-labels-focus" ∷ [] else units "stops-labels-other" ∷ [])
      else []

  labels-shown : shown stop_label_calls ≡ labels
  unfolding drawn stop_label_calls
  labels-shown = rw (text_eq_refl (units "stops-src"), focus-matches, other-matches) (go near focus)
    where
      go :
          (near focus : Bool)
          → (if near && focus
              then units "stops-labels-focus"
                ∷ (if near && not focus then units "stops-labels-other" ∷ [] else [])
              else (if near && not focus then units "stops-labels-other" ∷ [] else []))
            ≡ (if near
                then (if focus
                    then units "stops-labels-focus" ∷ []
                    else units "stops-labels-other" ∷ [])
                else [])
      go true true = refl
      go true false = refl
      go false focus = refl

  pub stops-shown :
      (has_vehicles : Bool) (ids : List Text)
      → shown (load_stop_map has_vehicles ids) ≡ stop_layers near focus
  unfolding load_stop_map drawn
  stops-shown has_vehicles ids =
      route_lines-skipped ids _
      ∙ rw
          (
            text_eq_refl (units "stops-src"),
            focus-matches,
            other-matches,
            upper-skipped has_vehicles ids,
            labels-shown,
          )
          (go near focus)
    where
      circles : Bool → List Text → List Text
      circles focus rest =
          if not focus
          then units "stops-other" ∷ (if focus then units "stops-focus" ∷ rest else rest)
          else (if focus then units "stops-focus" ∷ rest else rest)

      go :
          (near focus : Bool)
          → circles focus (
              if near
              then (if focus
                  then units "stops-labels-focus" ∷ []
                  else units "stops-labels-other" ∷ [])
              else [])
            ≡ stop_layers near focus
      go true true = refl
      go true false = refl
      go false true = refl
      go false false = refl
