-- ===== src/Clicks/Exclusive.antt =====
-- A map never shows the popup of a stop and that of a vehicle together.
use simply_transport.Common.{
  Text, false, ◌&&◌, List, [], ◌∷◌, ◌≡◌, refl, Option, none, some, arith, Option-cases, inl, inr,
  ap, ◌∙◌,
}
use simply_transport.Js.Values.{Field}
use simply_transport.Popup.Dates.{Dates}
use simply_transport.Popup.Builders.{MapStop, Detailed}
use simply_transport.Popup.Vehicle.{VehicleProps, build_vehicle_popup_html}
use simply_transport.Clicks.{
  Popups, Kind, with_vehicles, stops_only, Event, click_stop, click_vehicle, answered, close_stop,
  close_vehicle, no_popups, find_stop, fetch_stop_detailed, take_at, show_stop, open_stop_popup,
  open_popup_for_stop_id, open_vehicle_popup_from_feature, settle, step, run,
}

module _ {F : Type 0} where
  -- At most one popup is on the map; where there are no vehicles, theirs is not.
  pub record AtMostOne (kind : Kind) (p : Popups F) : Type 0 where
    pub apart : p.stop_popup.opened && p.vehicle_popup.opened ≡ false
    pub no_vehicles : kind ≡ stops_only → p.vehicle_popup.opened ≡ false

  apart_of_no_vehicle :
      (kind : Kind) (p : Popups F) → p.vehicle_popup.opened ≡ false → AtMostOne kind p
  apart_of_no_vehicle kind p e = record { apart = ground arith; no_vehicles = λ k. e }

module _ {F : Type 0} (dates : Dates) (answer : Text → Option Detailed) (stops : List (MapStop F))
    (direction : Field) where
  show_stop-vehicle :
      (stop : MapStop F) (p : Popups F)
      → (show_stop dates answer stops direction stop p).vehicle_popup ≡ p.vehicle_popup
  unfolding show_stop
  show_stop-vehicle stop p = elim (Option-cases (fetch_stop_detailed stop.stop_id)) [
    | inl e ↦ rw (e, show_stop) refl
    | inr (url, e) ↦ rw (e, show_stop) refl
  ]

  open_stop_popup-vehicle :
      (sid : Text) (p : Popups F)
      → (open_stop_popup dates answer stops direction sid p).vehicle_popup ≡ p.vehicle_popup
  unfolding open_stop_popup
  open_stop_popup-vehicle sid p = elim (Option-cases (find_stop sid stops)) [
    | inl e ↦ rw (e, open_stop_popup) refl
    | inr (stop, e) ↦ rw (e, open_stop_popup) (show_stop-vehicle stop p)
  ]

  settle-opened :
      (found : Option ((MapStop F × Text) × List (MapStop F × Text))) (p : Popups F)
      → ((settle dates answer stops direction found p).stop_popup.opened ≡ p.stop_popup.opened)
        × ((settle dates answer stops direction found p).vehicle_popup ≡ p.vehicle_popup)
  unfolding settle
  settle-opened none p = (refl, refl)
  settle-opened (some ((stop, url), rest)) p = (refl, refl)

  vehicle-AtMostOne :
      (at : F × F) (props : VehicleProps) (p : Popups F)
      → AtMostOne with_vehicles
          (open_vehicle_popup_from_feature dates answer stops direction at props p)
  unfolding open_vehicle_popup_from_feature
  vehicle-AtMostOne at props p = elim (Option-cases (build_vehicle_popup_html dates props)) [
    | inl e ↦
        rw (e, open_vehicle_popup_from_feature)
          (record { apart = refl; no_vehicles = λ k. absurd (ground arith) })
    | inr (html, e) ↦
        rw (e, open_vehicle_popup_from_feature)
          (record { apart = refl; no_vehicles = λ k. absurd (ground arith) })
  ]

  step-AtMostOne :
      (kind : Kind) (p : Popups F) (e : Event F)
      → AtMostOne kind p
      → AtMostOne kind (step dates answer stops direction kind p e)
  unfolding step open_popup_for_stop_id
  step-AtMostOne with_vehicles p (click_stop sid) h =
      apart_of_no_vehicle with_vehicles _ (ap (λ v. v.opened) (open_stop_popup-vehicle sid _))
  step-AtMostOne stops_only p (click_stop sid) h =
      apart_of_no_vehicle stops_only _
        (ap (λ v. v.opened) (open_stop_popup-vehicle sid p) ∙ h.no_vehicles refl)
  step-AtMostOne with_vehicles p (click_vehicle at props) h = vehicle-AtMostOne at props p
  step-AtMostOne stops_only p (click_vehicle at props) h = h
  step-AtMostOne kind p (answered i) h =
      let (o, v) = settle-opened (take_at p.requests i) p in
      record { apart = rw (o, v) h.apart; no_vehicles = λ k. rw v (h.no_vehicles k) }
  step-AtMostOne kind p close_stop h = record { apart = refl; no_vehicles = h.no_vehicles }
  step-AtMostOne kind p close_vehicle h = apart_of_no_vehicle kind _ refl

  run-AtMostOne :
      (kind : Kind) (p : Popups F) (es : List (Event F))
      → AtMostOne kind p
      → AtMostOne kind (run dates answer stops direction kind p es)
  unfolding run
  run-AtMostOne kind p [] h = h
  run-AtMostOne kind p (e ∷ es) h =
      run-AtMostOne kind (step dates answer stops direction kind p e) es (step-AtMostOne kind p e h)

-- Whatever is clicked, answered and closed, in whatever order: a map never shows the popup of a stop and that of a
-- vehicle together, and a map without vehicles never shows the latter.
pub popups-AtMostOne :
    {F : Type 0} (dates : Dates) (answer : Text → Option Detailed) (stops : List (MapStop F))
    (direction : Field) (kind : Kind) (es : List (Event F))
    → AtMostOne kind (run dates answer stops direction kind no_popups es)
popups-AtMostOne dates answer stops direction kind es =
    run-AtMostOne dates answer stops direction kind no_popups es
      (apart_of_no_vehicle kind no_popups refl)
