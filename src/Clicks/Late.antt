-- ===== src/Clicks/Late.antt =====
-- If a stop is clicked while the request of another has no answer, the popup speaks of the one answered last.
use simply_transport.Common.{Text, true, List, [], ◌∷◌, ◌++◌, ◌≡◌, refl, ap, ◌∙◌, Option, some}
use simply_transport.Js.Values.{Field}
use simply_transport.Popup.Dates.{Dates}
use simply_transport.Popup.Builders.{MapStop, Detailed, build_loading_popup_html}
use simply_transport.Clicks.{
  Popups, Kind, with_vehicles, stops_only, Event, click_stop, answered, no_popups, show, remove,
  find_stop, fetch_stop_detailed, take_at, show_stop, open_stop_popup, open_popup_for_stop_id,
  outcome, settle, step, run,
}

module _ {F : Type 0} (dates : Dates) (answer : Text → Option Detailed) (stops : List (MapStop F))
    (direction : Field) where
  show_stop-eq :
      (s : MapStop F) (url : Text) (p : Popups F)
      → fetch_stop_detailed s.stop_id ≡ some url
      → show_stop dates answer stops direction s p ≡ record p {
        stop_popup = show (s.lon, s.lat) (build_loading_popup_html s);
        requests = p.requests ++ (s, url) ∷ [];
      }
  unfolding show_stop
  show_stop-eq s url p e = rw (e, show_stop) refl

  open_stop_popup-eq :
      (s : MapStop F) (url : Text) (p : Popups F)
      → find_stop s.stop_id stops ≡ some s
      → fetch_stop_detailed s.stop_id ≡ some url
      → open_stop_popup dates answer stops direction s.stop_id p ≡ record p {
        stop_popup = show (s.lon, s.lat) (build_loading_popup_html s);
        requests = p.requests ++ (s, url) ∷ [];
      }
  unfolding open_stop_popup
  open_stop_popup-eq s url p found e = rw (found, open_stop_popup) (show_stop-eq s url p e)

  -- The page after the click, with a vehicle's popup closed where there are vehicles.
  abbrev clicked : Kind → MapStop F → Text → Popups F → Popups F
  clicked kind s url p = record {
    stop_popup = show (s.lon, s.lat) (build_loading_popup_html s);
    vehicle_popup = elim kind [
      | with_vehicles ↦ remove p.vehicle_popup
      | stops_only ↦ p.vehicle_popup
    ];
    requests = p.requests ++ (s, url) ∷ [];
  }

  click-eq :
      (kind : Kind) (s : MapStop F) (url : Text) (p : Popups F)
      → find_stop s.stop_id stops ≡ some s
      → fetch_stop_detailed s.stop_id ≡ some url
      → step dates answer stops direction kind p (click_stop s.stop_id) ≡ clicked kind s url p
  unfolding step open_popup_for_stop_id
  click-eq with_vehicles s url p found e = open_stop_popup-eq s url _ found e
  click-eq stops_only s url p found e = open_stop_popup-eq s url p found e

  clicks-eq :
      (kind : Kind) (s t : MapStop F) (first second : Text) (es : List (Event F))
      → find_stop s.stop_id stops ≡ some s
      → find_stop t.stop_id stops ≡ some t
      → fetch_stop_detailed s.stop_id ≡ some first
      → fetch_stop_detailed t.stop_id ≡ some second
      → run dates answer stops direction kind no_popups
          (click_stop s.stop_id ∷ click_stop t.stop_id ∷ es)
        ≡ run dates answer stops direction kind
            (clicked kind t second (clicked kind s first no_popups))
            es
  unfolding run
  clicks-eq kind s t first second es found found' url url' =
      ap (λ p. run dates answer stops direction kind p es)
        (ap (λ p. step dates answer stops direction kind p (click_stop t.stop_id))
            (click-eq kind s first no_popups found url)
          ∙ click-eq kind t second (clicked kind s first no_popups) found' url')

-- Where a second stop is clicked before the first is answered, and the first is answered after the second: the popup
-- stands at the second stop and says what the answer says of the first.
pub late_answer_shown :
    {F : Type 0} (dates : Dates) (answer : Text → Option Detailed) (stops : List (MapStop F))
    (direction : Field) (kind : Kind) (s t : MapStop F) (first second : Text)
    → find_stop s.stop_id stops ≡ some s
    → find_stop t.stop_id stops ≡ some t
    → fetch_stop_detailed s.stop_id ≡ some first
    → fetch_stop_detailed t.stop_id ≡ some second
    → let p =
        run dates answer stops direction kind no_popups
          (click_stop s.stop_id ∷ click_stop t.stop_id ∷ answered 1 ∷ answered 0 ∷ []) in
      (p.stop_popup.opened ≡ true)
      × (p.stop_popup.place ≡ some (t.lon, t.lat))
      × (p.stop_popup.html ≡ outcome dates answer stops direction s first)
unfolding run step take_at settle
late_answer_shown dates answer stops direction kind s t first second found found' url url' =
    let two =
      clicks-eq dates answer stops direction kind s t first second (answered 1 ∷ answered 0 ∷ [])
        found found' url url' in
    (
      ap (λ p. p.stop_popup.opened) two,
      ap (λ p. p.stop_popup.place) two,
      ap (λ p. p.stop_popup.html) two,
    )
