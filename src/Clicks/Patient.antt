-- ===== src/Clicks/Patient.antt =====
-- If stops are clicked one at a time, the popup speaks of the stop at its place.
use simply_transport.Common.{
  ℕ, zero, suc, Text, List, [], ◌∷◌, ◌++◌, ◌≡◌, refl, ap, ◌∙◌, Option, none, some, arith,
  Option-cases, inl, inr,
}
use simply_transport.Js.Values.{Field}
use simply_transport.Popup.Dates.{Dates}
use simply_transport.Popup.Builders.{MapStop, Detailed, build_loading_popup_html}
use simply_transport.Popup.Vehicle.{VehicleProps, build_vehicle_popup_html}
use simply_transport.Clicks.{
  Popups, Kind, with_vehicles, stops_only, Event, click_stop, click_vehicle, answered, close_stop,
  close_vehicle, no_popups, find_stop, fetch_stop_detailed, take_at, show_stop, open_stop_popup,
  open_popup_for_stop_id, open_vehicle_popup_from_feature, outcome, settle, step, run,
}

module _ {F : Type 0} (dates : Dates) (answer : Text → Option Detailed) (stops : List (MapStop F))
    (direction : Field) where
  -- The popup has not been used; or it shows the loading text of the stop at its place, whose request is the only
  -- one; or no request is left and it shows what came of that stop's; or that could not be sent.
  pub data Truthful (p : Popups F) : Type 0 where
    unused : p.requests ≡ [] → p.stop_popup.place ≡ none → Truthful p
    loading :
        (s : MapStop F) (url : Text)
        → fetch_stop_detailed s.stop_id ≡ some url
        → p.requests ≡ (s, url) ∷ []
        → p.stop_popup.place ≡ some (s.lon, s.lat)
        → p.stop_popup.html ≡ build_loading_popup_html s
        → Truthful p
    settled :
        (s : MapStop F) (url : Text)
        → fetch_stop_detailed s.stop_id ≡ some url
        → p.requests ≡ []
        → p.stop_popup.place ≡ some (s.lon, s.lat)
        → p.stop_popup.html ≡ outcome dates answer stops direction s url
        → Truthful p
    unsent :
        (s : MapStop F)
        → fetch_stop_detailed s.stop_id ≡ none
        → p.requests ≡ []
        → p.stop_popup.place ≡ some (s.lon, s.lat)
        → p.stop_popup.html ≡ build_loading_popup_html s
        → Truthful p

  -- A stop is clicked only when no request is left.
  abbrev pub Patient : Kind → Popups F → List (Event F) → Type 0
  Patient kind p [] = Unit
  Patient kind p (click_stop sid ∷ es) =
      (p.requests ≡ [])
      × Patient kind (step dates answer stops direction kind p (click_stop sid)) es
  Patient kind p (e ∷ es) = Patient kind (step dates answer stops direction kind p e) es

  -- The same requests, at the same place, with the same content.
  same-Truthful :
      (p q : Popups F)
      → q.requests ≡ p.requests
      → q.stop_popup.place ≡ p.stop_popup.place
      → q.stop_popup.html ≡ p.stop_popup.html
      → Truthful p
      → Truthful q
  same-Truthful p q r l h (unused r' l') = unused (r ∙ r') (l ∙ l')
  same-Truthful p q r l h (loading s url f r' l' h') = loading s url f (r ∙ r') (l ∙ l') (h ∙ h')
  same-Truthful p q r l h (settled s url f r' l' h') = settled s url f (r ∙ r') (l ∙ l') (h ∙ h')
  same-Truthful p q r l h (unsent s f r' l' h') = unsent s f (r ∙ r') (l ∙ l') (h ∙ h')

  show_stop-Truthful :
      (s : MapStop F) (p : Popups F)
      → p.requests ≡ []
      → Truthful (show_stop dates answer stops direction s p)
  unfolding show_stop
  show_stop-Truthful s p r = elim (Option-cases (fetch_stop_detailed s.stop_id)) [
    | inl e ↦ rw (e, show_stop) (unsent s e r refl refl)
    | inr (url, e) ↦
        rw (e, show_stop) (loading s url e (ap (λ rs. rs ++ (s, url) ∷ []) r) refl refl)
  ]

  open_stop_popup-Truthful :
      (sid : Text) (p : Popups F)
      → p.requests ≡ []
      → Truthful p
      → Truthful (open_stop_popup dates answer stops direction sid p)
  unfolding open_stop_popup
  open_stop_popup-Truthful sid p r h = elim (Option-cases (find_stop sid stops)) [
    | inl e ↦ rw (e, open_stop_popup) h
    | inr (s, e) ↦ rw (e, open_stop_popup) (show_stop-Truthful s p r)
  ]

  vehicle-Truthful :
      (at : F × F) (props : VehicleProps) (p : Popups F)
      → Truthful p
      → Truthful (open_vehicle_popup_from_feature dates answer stops direction at props p)
  unfolding open_vehicle_popup_from_feature
  vehicle-Truthful at props p h = elim (Option-cases (build_vehicle_popup_html dates props)) [
    | inl e ↦ rw (e, open_vehicle_popup_from_feature) (same-Truthful p _ refl refl refl h)
    | inr (html, e) ↦ rw (e, open_vehicle_popup_from_feature) (same-Truthful p _ refl refl refl h)
  ]

  settle-none :
      (i : ℕ) (p : Popups F)
      → p.requests ≡ []
      → settle dates answer stops direction (take_at p.requests i) p ≡ p
  unfolding take_at settle
  settle-none i p r = rw r refl

  answered-Truthful :
      (i : ℕ) (p : Popups F)
      → Truthful p
      → Truthful (settle dates answer stops direction (take_at p.requests i) p)
  unfolding take_at settle
  answered-Truthful i p (unused r l) = rw (settle-none i p r) (unused r l)
  answered-Truthful zero p (loading s url f r l h) = rw r (settled s url f refl l refl)
  answered-Truthful (suc i) p (loading s url f r l h) = rw r (loading s url f refl l h)
  answered-Truthful i p (settled s url f r l h) = rw (settle-none i p r) (settled s url f r l h)
  answered-Truthful i p (unsent s f r l h) = rw (settle-none i p r) (unsent s f r l h)

  step-Truthful :
      (kind : Kind) (p : Popups F) (e : Event F)
      → ((sid : Text) → e ≡ click_stop sid → p.requests ≡ [])
      → Truthful p
      → Truthful (step dates answer stops direction kind p e)
  unfolding step open_popup_for_stop_id
  step-Truthful with_vehicles p (click_stop sid) free h =
      open_stop_popup-Truthful sid _ (free sid refl) (same-Truthful p _ refl refl refl h)
  step-Truthful stops_only p (click_stop sid) free h =
      open_stop_popup-Truthful sid p (free sid refl) h
  step-Truthful with_vehicles p (click_vehicle at props) free h = vehicle-Truthful at props p h
  step-Truthful stops_only p (click_vehicle at props) free h = h
  step-Truthful kind p (answered i) free h = answered-Truthful i p h
  step-Truthful kind p close_stop free h = same-Truthful p _ refl refl refl h
  step-Truthful kind p close_vehicle free h = same-Truthful p _ refl refl refl h

  run-Truthful :
      (kind : Kind) (p : Popups F) (es : List (Event F))
      → Patient kind p es
      → Truthful p
      → Truthful (run dates answer stops direction kind p es)
  unfolding run
  run-Truthful kind p [] t h = h
  run-Truthful kind p (click_stop sid ∷ es) (free, t) h =
      run-Truthful kind (step dates answer stops direction kind p (click_stop sid)) es t
        (step-Truthful kind p (click_stop sid) (λ _ _. free) h)
  run-Truthful kind p (click_vehicle at props ∷ es) t h =
      run-Truthful kind (step dates answer stops direction kind p (click_vehicle at props)) es t
        (step-Truthful kind p (click_vehicle at props) (λ _ e. absurd (ground arith)) h)
  run-Truthful kind p (answered i ∷ es) t h =
      run-Truthful kind (step dates answer stops direction kind p (answered i)) es t
        (step-Truthful kind p (answered i) (λ _ e. absurd (ground arith)) h)
  run-Truthful kind p (close_stop ∷ es) t h =
      run-Truthful kind (step dates answer stops direction kind p close_stop) es t
        (step-Truthful kind p close_stop (λ _ e. absurd (ground arith)) h)
  run-Truthful kind p (close_vehicle ∷ es) t h =
      run-Truthful kind (step dates answer stops direction kind p close_vehicle) es t
        (step-Truthful kind p close_vehicle (λ _ e. absurd (ground arith)) h)

-- Where a stop is clicked only when no request is left, whatever else is clicked, answered and closed: the popup of
-- the stops says of the stop at its place that it is loading, as long as its request has no answer, and then what the
-- answer says of that stop.
pub patient_popup-Truthful :
    {F : Type 0} (dates : Dates) (answer : Text → Option Detailed) (stops : List (MapStop F))
    (direction : Field) (kind : Kind) (es : List (Event F))
    → Patient dates answer stops direction kind no_popups es
    → Truthful dates answer stops direction (run dates answer stops direction kind no_popups es)
patient_popup-Truthful dates answer stops direction kind es patient =
    run-Truthful dates answer stops direction kind no_popups es patient (unused refl refl)
