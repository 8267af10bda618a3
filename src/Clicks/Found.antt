-- ===== src/Clicks/Found.antt =====
-- A click on a stop's feature finds that stop.
use simply_transport.Common.{
  ℕ, zero, suc, Text, List, [], ◌∷◌, map, ◌≡◌, ◌≢◌, refl, sym, ap, Option, some, get_elem?, text_eq,
  text_eq_iff, text_eq_refl, All, arith, Bool-cases, inl, inr, Option-cases,
}
use simply_transport.Js.Values.{Field}
use simply_transport.Popup.Dates.{Dates}
use simply_transport.Popup.Builders.{MapStop, Detailed, build_loading_popup_html}
use simply_transport.Features.{stop_feature}
use simply_transport.Features.Places.{place_feature, stops_geojson}
use simply_transport.Clicks.{
  Popups, Kind, with_vehicles, stops_only, click_stop, show, remove, find_stop, fetch_stop_detailed,
  show_stop, open_stop_popup, open_popup_for_stop_id, step,
}
use simply_transport.Panel.Agency.Consistent.{Distinct}

module _ {F : Type 0} where
  abbrev pub ids : List (MapStop F) → List Text
  ids stops = map (λ (s : MapStop F). s.stop_id) stops

  -- The id of the i-th stop is not that of one before.
  unlike_first :
      (id : Text) (stops : List (MapStop F)) (i : ℕ) (s : MapStop F)
      → get_elem? stops i ≡ some s
      → All (λ j. j ≢ id) (ids stops)
      → s.stop_id ≢ id
  unlike_first id [] i s e h = absurd (ground arith)
  unlike_first id (t ∷ stops) zero s e (h, hs) = λ same. h (cc)
  unlike_first id (t ∷ stops) (suc i) s e (h, hs) = unlike_first id stops i s e hs

  find_stop-nth :
      (stops : List (MapStop F)) (i : ℕ) (s : MapStop F)
      → Distinct (ids stops)
      → get_elem? stops i ≡ some s
      → find_stop s.stop_id stops ≡ some s
  unfolding find_stop
  find_stop-nth [] i s d e = absurd (ground arith)
  find_stop-nth (t ∷ stops) zero s d e =
      let same : s ≡ t = cc in rw (same, text_eq_refl t.stop_id) refl
  find_stop-nth (t ∷ stops) (suc i) s (d, ds) e = elim (Bool-cases (text_eq t.stop_id s.stop_id)) [
    | inl same ↦ absurd (unlike_first t.stop_id stops i s e d (sym ((text_eq_iff _ _).0 same)))
    | inr other ↦ rw other (find_stop-nth stops i s ds e)
  ]

  nth_of_map :
      {B : Type 0} (f : MapStop F → B) (stops : List (MapStop F)) (i : ℕ) (s : MapStop F)
      → get_elem? stops i ≡ some s
      → get_elem? (map f stops) i ≡ some (f s)
  nth_of_map f [] i s e = absurd (cc)
  nth_of_map f (t ∷ stops) zero s e = let same : t ≡ s = cc in ap (λ u. some (f u)) same
  nth_of_map f (t ∷ stops) (suc i) s e = nth_of_map f stops i s e

module _ {F : Type 0} (dates : Dates) (answer : Text → Option Detailed) (stops : List (MapStop F))
    (direction : Field) where
  show_stop-popup :
      (s : MapStop F) (p : Popups F)
      → (show_stop dates answer stops direction s p).stop_popup
        ≡ show (s.lon, s.lat) (build_loading_popup_html s)
  unfolding show_stop
  show_stop-popup s p = elim (Option-cases (fetch_stop_detailed s.stop_id)) [
    | inl e ↦ rw (e, show_stop) refl
    | inr (url, e) ↦ rw (e, show_stop) refl
  ]

  open_stop_popup-popup :
      (i : ℕ) (s : MapStop F) (p : Popups F)
      → Distinct (ids stops)
      → get_elem? stops i ≡ some s
      → (open_stop_popup dates answer stops direction s.stop_id p).stop_popup
        ≡ show (s.lon, s.lat) (build_loading_popup_html s)
  unfolding open_stop_popup
  open_stop_popup-popup i s p d e =
      rw (find_stop-nth stops i s d e, open_stop_popup) (show_stop-popup s p)

-- Where no two stops of a map have one id, each stop's feature stands at its index, and a click on it opens the popup
-- at the feature's point with the loading text of that stop: a feature of stop-map.js, or one of the other three scripts,
-- on a map with vehicles or without.
pub click_finds_stop :
    {F : Type 0} (dates : Dates) (answer : Text → Option Detailed) (stops : List (MapStop F))
    (direction : Field) (i : ℕ) (s : MapStop F) (p : Popups F)
    → Distinct (ids stops)
    → get_elem? stops i ≡ some s
    → let f = stop_feature s in
      let g = place_feature s in
      (get_elem? (map stop_feature stops) i ≡ some f)
      × ((step dates answer stops direction with_vehicles p (click_stop f.stop_id)).stop_popup
          ≡ show (f.lon, f.lat) (build_loading_popup_html s))
      × (get_elem? (stops_geojson stops) i ≡ some g)
      × ((kind : Kind)
          → (step dates answer stops direction kind p (click_stop g.stop_id)).stop_popup
            ≡ show (g.lon, g.lat) (build_loading_popup_html s))
unfolding step open_popup_for_stop_id stop_feature place_feature
click_finds_stop dates answer stops direction i s p d e = (
  nth_of_map stop_feature stops i s e,
  vehicles_too,
  nth_of_map place_feature stops i s e,
  λ kind. of_kind kind,
)
  where
    vehicles_too :
        (step dates answer stops direction with_vehicles p (click_stop s.stop_id)).stop_popup
        ≡ show (s.lon, s.lat) (build_loading_popup_html s)
    vehicles_too =
        open_stop_popup-popup dates answer stops direction i s
          (record p { vehicle_popup = remove p.vehicle_popup }) d e

    of_kind :
        (kind : Kind)
        → (step dates answer stops direction kind p (click_stop s.stop_id)).stop_popup
          ≡ show (s.lon, s.lat) (build_loading_popup_html s)
    of_kind with_vehicles = vehicles_too
    of_kind stops_only = open_stop_popup-popup dates answer stops direction i s p d e
