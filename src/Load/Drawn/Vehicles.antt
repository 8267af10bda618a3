-- ===== src/Load/Drawn/Vehicles.antt =====
-- Which layers draw a vehicle.
use simply_transport.Common.{
  ℕ, none, some, Text, units, Bool, List, [], ◌∷◌, ◌++◌, true, false, ◌&&◌, ◌≡◌, ◌≢◌, refl, ap, ◌∙◌,
  if◌then◌else◌, text_eq, text_eq_iff, text_eq_refl, All, Bool-cases, inl, inr, append-nil,
}
use simply_transport.Js.Values.{str}
use simply_transport.Shared.Visibility.{listed}
use simply_transport.Features.{Property, field, flag}
use simply_transport.Panel.Agency.Consistent.{Distinct}
use simply_transport.Panel.Stop.Apart.{text_eq_sym}
use simply_transport.Panel.Route.{
  line_id, stops_id, stops_labels_id, vehicle_pulse_id, vehicle_id, vehicle_labels_id,
}
use simply_transport.Load.{
  stop_label_min_zoom, Call, add_source, add_layer, line, circle, symbol, every, flag_is, of_route,
  pulsing_of_route, in_focus, line_calls, vehicle_calls, stop_label_calls, load_stop_map,
  load_route_map,
}
use simply_transport.Load.Drawn.{is_text, Filters, drawn, vehicle_layers, main_layers}

unlisted : (id : Text) (ids : List Text) → All (λ j. j ≢ id) ids → listed id ids ≡ false
unlisted id [] h = refl
unlisted id (j ∷ ids) (h, hs) = elim (Bool-cases (text_eq j id)) [
  | inl same ↦ absurd (h ((text_eq_iff j id).0 same))
  | inr differs ↦ rw differs (unlisted id ids hs)
]

module _ (lib : Filters) (zoom : ℕ) (ps : Text → Property) (route : Text) (pulses : Bool)
    (r : ps (units "route_id") ≡ field (str route))
    (a : ps (units "pulse_active") ≡ flag pulses) where
  open lib use {matches, text_matches, flag_matches, all_matches}

  route-matches : (id : Text) → matches (of_route id) ps ≡ text_eq route id
  route-matches id = text_matches (units "route_id") id ps ∙ ap (is_text id) r

  pulse-matches : (id : Text) → matches (pulsing_of_route id) ps ≡ (text_eq route id && pulses)
  pulse-matches id =
      rw
        (
          all_matches (of_route id) (flag_is (units "pulse_active") true) ps,
          route-matches id,
          flag_matches (units "pulse_active") true ps,
          a,
        )
        refl

  abbrev draws : List Call → List Text
  draws calls = drawn lib zoom (units "vehicles-src") ps calls

  -- The three layers of a route, under these ids.
  route-drawn :
      (id x y z : Text) (calls : List Call)
      → draws (
          add_layer x (units "vehicles-src") circle (pulsing_of_route id) none
          ∷ add_layer y (units "vehicles-src") symbol (of_route id) none
          ∷ add_layer z (units "vehicles-src") symbol (of_route id) none
          ∷ calls)
        ≡ (if text_eq route id then (if pulses then x ∷ [] else []) ++ y ∷ z ∷ [] else [])
          ++ draws calls
  unfolding drawn
  route-drawn id x y z calls =
      rw (text_eq_refl (units "vehicles-src"), pulse-matches id, route-matches id)
        (go (text_eq route id) pulses)
    where
      go :
          (same pulses : Bool)
          → (if same && pulses
              then x
                ∷ (if same
                    then y ∷ (if same then z ∷ draws calls else draws calls)
                    else (if same then z ∷ draws calls else draws calls))
              else (if same
                  then y ∷ (if same then z ∷ draws calls else draws calls)
                  else (if same then z ∷ draws calls else draws calls)))
            ≡ (if same then (if pulses then x ∷ [] else []) ++ y ∷ z ∷ [] else []) ++ draws calls
      go true true = refl
      go true false = refl
      go false pulses = refl

  vehicles-drawn :
      (ids : List Text) (calls : List Call)
      → Distinct ids
      → draws (vehicle_calls ids ++ calls)
        ≡ (if listed route ids then vehicle_layers pulses route else []) ++ draws calls
  unfolding vehicle_calls
  vehicles-drawn [] calls d = refl
  vehicles-drawn (id ∷ ids) calls (d, ds) = elim (Bool-cases (text_eq route id)) [
    | inl same ↦
        let e : route ≡ id = (text_eq_iff route id).0 same in
        let off : listed route ids ≡ false = rw (← e) at (unlisted id ids d) in
        route-drawn id _ _ _ (vehicle_calls ids ++ calls)
        ∙ rw (← e, text_eq_refl route, vehicles-drawn ids calls ds, off) refl
    | inr differs ↦
        route-drawn id _ _ _ (vehicle_calls ids ++ calls)
        ∙ rw (text_eq_sym id route, differs) (vehicles-drawn ids calls ds)
  ]

  -- No layer of the lines or of the stops draws a vehicle.
  lines-skipped :
      (ids : List Text) (calls : List Call) → draws (line_calls ids ++ calls) ≡ draws calls
  unfolding drawn line_calls text_eq units
  lines-skipped [] calls = refl
  lines-skipped (id ∷ ids) calls = lines-skipped ids calls

  stops-skipped :
      (calls : List Call)
      → draws (
          add_layer (units "stops-other") (units "stops-src") circle (in_focus false) none
          ∷ add_layer (units "stops-focus") (units "stops-src") circle (in_focus true) none
          ∷ add_source (units "vehicles-src")
          ∷ calls)
        ≡ draws calls
  unfolding drawn text_eq units
  stops-skipped calls = refl

  labels-skipped : draws stop_label_calls ≡ []
  unfolding drawn stop_label_calls text_eq units
  labels-skipped = refl

  pub stop_map-drawn :
      (ids : List Text)
      → Distinct ids
      → draws (load_stop_map true ids)
        ≡ (if listed route ids then vehicle_layers pulses route else [])
  unfolding load_stop_map drawn
  stop_map-drawn ids d =
      lines-skipped ids _
      ∙ stops-skipped (vehicle_calls ids ++ stop_label_calls)
      ∙ vehicles-drawn ids stop_label_calls d
      ∙ ap (λ r. (if listed route ids then vehicle_layers pulses route else []) ++ r) labels-skipped
      ∙ append-nil _

  main-skipped :
      (calls : List Call)
      → draws (
          add_source (units "route-src-main")
          ∷ add_layer line_id (units "route-src-main") line every none
          ∷ add_source (units "stops-src")
          ∷ add_layer stops_id (units "stops-src") circle every none
          ∷ add_source (units "vehicles-src")
          ∷ calls)
        ≡ draws calls
  unfolding drawn text_eq units
  main-skipped calls = refl

  main_labels-skipped :
      draws
        (add_layer stops_labels_id (units "stops-src") symbol every (some stop_label_min_zoom) ∷ [])
      ≡ []
  unfolding drawn text_eq units
  main_labels-skipped = refl

  pub route_map-drawn :
      (id : Text)
      → draws (load_route_map true id) ≡ (if text_eq route id then main_layers pulses else [])
  unfolding load_route_map
  route_map-drawn id =
      main-skipped _
      ∙ route-drawn id vehicle_pulse_id vehicle_id vehicle_labels_id _
      ∙ ap (λ r. (if text_eq route id then main_layers pulses else []) ++ r) main_labels-skipped
      ∙ append-nil _
