-- ===== src/Embed/Waiting/Popup.antt =====
-- The wait of the other maps, with the popup helper there: `load` starts the map.
use simply_transport.Common.{
  ℕ, ◌≡◌, ◌≢◌, refl, ◌∙◌, Bool, true, false, List, [], ◌∷◌, ◌++◌, All, none, arith,
}
use simply_transport.Ready.Library.{Wait, fresh, when_map_libre_ready}
use simply_transport.Ready.Library as Library
use simply_transport.Ready.Library.Once.{Pending, step-Pending, start-Pending, load_settles}
use simply_transport.Ready.Library.Tied.{
  Tied, parsed-Tied, loaded-Tied, frame-Tied, library-Tied, start-Tied,
}
use simply_transport.Ready.Popup.{PopupWait, idle, when_stop_map_popup_ready, frame as frame_popup}
use simply_transport.Ready.Both.{
  Event, library_is, popup_is, parsed, loaded, frame, wait_for_popup, when_map_with_popup_ready,
}
use simply_transport.Ready.Both as Both
use simply_transport.Embed.Waiting.{arrive, step_both, run_both, start_both}
use simply_transport.Embed.{Page, library_and_popup, do_init}
use simply_transport.Embed.Waiting.Alone.{Unstarted, Started, do_init-library}

module _ (n : ℕ) where
  -- The other maps, with the popup helper there: before its wait is over, and after.
  abbrev pub Before : PopupWait Page → Type 0
  Before s =
      (s.popup ≡ true)
      × (s.world.popup ≡ true)
      × (s.done ≡ false)
      × (s.queued ≡ none)
      × Unstarted n s.world

  abbrev pub After : PopupWait Page → Type 0
  After s =
      (s.popup ≡ true)
      × (s.world.popup ≡ true)
      × (s.done ≡ true)
      × (s.queued ≡ none)
      × Started n s.world

  abbrev pub popup_wait : PopupWait Page → PopupWait Page
  popup_wait = wait_for_popup (do_init library_and_popup) true

  pub both-After : (s : PopupWait Page) → s.world.library ≡ true → Before s → After (popup_wait s)
  unfolding wait_for_popup when_stop_map_popup_ready do_init
  both-After s l b = ground arith

  pub popup_wait-library : (s : PopupWait Page) → (popup_wait s).world.library ≡ s.world.library
  unfolding wait_for_popup when_stop_map_popup_ready
  popup_wait-library s = ground (arith, do_init-library library_and_popup s.world)

  abbrev pub BothTied : Wait (PopupWait Page) → Type 0
  BothTied = Tied popup_wait (λ s. s.world.library) Before After both-After popup_wait-library

  abbrev pub BothWaits : Wait (PopupWait Page) → Type 0
  BothWaits w = BothTied w × Pending popup_wait w

  frame_popup-library :
      (s : PopupWait Page)
      → (frame_popup (do_init library_and_popup) s).world.library ≡ s.world.library
  unfolding frame_popup
  frame_popup-library s = ground (arith, do_init-library library_and_popup s.world)

  frame_popup-Before :
      (s : PopupWait Page) → Before s → Before (frame_popup (do_init library_and_popup) s)
  unfolding frame_popup
  frame_popup-Before s b = ground arith

  frame_popup-After :
      (s : PopupWait Page) → After s → After (frame_popup (do_init library_and_popup) s)
  unfolding frame_popup
  frame_popup-After s a = ground arith

  step-Both :
      (w : Wait (PopupWait Page)) (e : Event)
      → e ≢ popup_is false
      → BothWaits w
      → BothWaits (step_both w e)
  unfolding step_both arrive Both.step Library.step
  step-Both w (library_is b) h (t, p) = (
    library-Tied _ _ _ _ _ _ w b
        (record (w.world) { world = record (w.world.world) { library = b } }) refl (λ h. h) (λ h. h)
        t,
    p,
  )
  step-Both w (popup_is true) h (t, p) = (
    record {
      same = t.same;
      before = λ e. let b = t.before e in (refl, refl, b.2, b.3, b.4);
      after = λ e. let a = t.after e in (refl, refl, a.2, a.3, a.4);
    },
    p,
  )
  step-Both w (popup_is false) h (t, p) = absurd (h refl)
  step-Both w parsed h (t, p) =
      (parsed-Tied _ _ _ _ _ _ w t, step-Pending popup_wait w Library.parsed p)
  step-Both w loaded h (t, p) =
      (loaded-Tied _ _ _ _ _ _ w t, step-Pending popup_wait w Library.loaded p)
  step-Both w frame h (t, p) =
      let v = record w { world = frame_popup (do_init library_and_popup) w.world } in
      (
        frame-Tied _ _ _ _ _ _ v (record {
          same = frame_popup-library w.world ∙ t.same;
          before = λ e. frame_popup-Before w.world (t.before e);
          after = λ e. frame_popup-After w.world (t.after e);
        }),
        step-Pending popup_wait v Library.frame p,
      )

  both_done :
      (w : Wait (PopupWait Page))
      → Pending popup_wait w
      → (step_both (step_both w (library_is true)) loaded).done ≡ true
  unfolding step_both Both.step Library.run
  both_done w p =
      load_settles popup_wait
        (record w { world = record (w.world) { world = arrive (library_is true) w.world.world } }) p

  pub run-Both :
      (w : Wait (PopupWait Page)) (es : List Event)
      → All (λ e. e ≢ popup_is false) es
      → BothWaits w
      → Started n (run_both w (es ++ library_is true ∷ loaded ∷ [])).world.world
  unfolding run_both
  run-Both w [] hs a =
      let v = step_both w (library_is true) in
      let (t, p) = step-Both v loaded (λ e. cc) (step-Both w (library_is true) (λ e. cc) a) in
      (t.after (both_done w a.1)).4
  run-Both w (e ∷ es) (h, hs) a = run-Both (step_both w e) es hs (step-Both w e h a)

  pub start-Both :
      (loading : Bool) (q : Page)
      → q.popup ≡ true
      → Unstarted n q
      → BothWaits (start_both loading q)
  unfolding when_map_with_popup_ready
  start-Both loading q h u = (
    start-Tied _ _ _ _ _ _ true loading (fresh q.library (idle q.popup q)) (record {
      same = refl;
      before = λ e. (h, h, refl, refl, u);
      after = λ e. absurd (ground arith);
    }),
    start-Pending popup_wait loading (fresh q.library (idle q.popup q)),
  )
