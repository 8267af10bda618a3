-- ===== src/Ready/Both/Once.antt =====
-- Both waits together call the callback at most once.
use simply_transport.Common.{
  ◌≡◌, refl, Bool, true, false, List, [], ◌∷◌, none, Bool-cases, inl, inr,
}
use simply_transport.Ready.Library as Library
use simply_transport.Ready.Library.{Wait, fresh, when_map_libre_ready}
use simply_transport.Ready.Library.Once.{Gate, step-Gate, start-Gate}
use simply_transport.Ready.Popup.{
  PopupWait, idle, Once, start-Once, frame-Once, frame as frame_popup, run_tick,
}
use simply_transport.Ready.Both.{
  Event, library_is, popup_is, parsed, loaded, frame, wait_for_popup, when_map_with_popup_ready,
  step, run,
}

module _ {S : Type 0} (callback : S → S) (callable : Bool) (s : S) where
  -- The popup's wait has not begun.
  abbrev NotBegun : PopupWait S → Type 0
  NotBegun p = (p.done ≡ false) × (p.world ≡ s) × (p.queued ≡ none)

  NotBegun-Once : (p : PopupWait S) → NotBegun p → Once callback s p
  NotBegun-Once p h = record { before = λ e. h.1; after = λ e. cc }

  begins : (p : PopupWait S) → NotBegun p → Once callback s (wait_for_popup callback callable p)
  unfolding wait_for_popup
  begins p h = start-Once callback s callable p (NotBegun-Once p h)

  abbrev Inv : Wait (PopupWait S) → Type 0
  Inv = Gate (wait_for_popup callback callable) NotBegun (Once callback s) begins

  frame-NotBegun : (p : PopupWait S) → NotBegun p → NotBegun (frame_popup callback p)
  unfolding frame_popup
  frame-NotBegun p (d, u, q) = rw (q, run_tick) (d, u, refl)

  inner-Inv :
      (w : Wait (PopupWait S)) (f : PopupWait S → PopupWait S)
      → ((p : PopupWait S) → NotBegun p → NotBegun (f p))
      → ((p : PopupWait S) → Once callback s p → Once callback s (f p))
      → Inv w
      → Inv (record w { world = f w.world })
  inner-Inv w f keeps keeps' g = record {
    before = λ e. keeps _ (g.before e);
    after = λ e. keeps' _ (g.after e);
  }

  step-Inv : (w : Wait (PopupWait S)) (e : Event) → Inv w → Inv (step callback callable w e)
  unfolding step
  step-Inv w (library_is b) g = step-Gate _ _ _ _ w (Library.library_is b) g
  step-Inv w (popup_is b) g =
      inner-Inv w (λ p. record p { popup = b }) (λ p h. h)
        (λ p h. record { before = h.before; after = h.after }) g
  step-Inv w parsed g = step-Gate _ _ _ _ w Library.parsed g
  step-Inv w loaded g = step-Gate _ _ _ _ w Library.loaded g
  step-Inv w frame g =
      step-Gate _ _ _ _ (record w { world = frame_popup callback w.world }) Library.frame
        (inner-Inv w (frame_popup callback) frame-NotBegun (frame-Once callback s) g)

  run-Inv : (w : Wait (PopupWait S)) (es : List Event) → Inv w → Inv (run callback callable w es)
  unfolding run
  run-Inv w [] g = g
  run-Inv w (e ∷ es) g = run-Inv (step callback callable w e) es (step-Inv w e g)

  start-Inv :
      (loading library popup : Bool)
      → Inv (when_map_with_popup_ready callback callable loading (fresh library (idle popup s)))
  unfolding when_map_with_popup_ready
  start-Inv loading library popup =
      start-Gate _ _ _ _ true loading (fresh library (idle popup s))
        (record { before = λ e. (refl, refl, refl); after = λ e. cc })

  Inv-Once : (w : Wait (PopupWait S)) → Inv w → Once callback s w.world
  Inv-Once w g = elim (Bool-cases w.done) [
    | inl begun ↦ g.after begun
    | inr waiting ↦ NotBegun-Once w.world (g.before waiting)
  ]

  pub reached-Once :
      (loading library popup : Bool) (es : List Event)
      → Once callback s
          (run callback callable
            (when_map_with_popup_ready callback callable loading (fresh library (idle popup s)))
            es).world
  reached-Once loading library popup es =
      Inv-Once _ (run-Inv _ es (start-Inv loading library popup))

-- The callback of `whenMapWithPopupReady` acts at most once on `s`, and not before the wait for the
-- library is over, whatever happens on the page and in whichever order the two scripts come.
pub popup_called_once :
    {S : Type 0} (callback : S → S) (callable loading library popup : Bool) (s : S)
    (es : List Event)
    → let w =
        run callback callable
          (when_map_with_popup_ready callback callable loading (fresh library (idle popup s)))
          es in
      (w.done ≡ false → w.world.world ≡ s)
      × (w.world.done ≡ false → w.world.world ≡ s)
      × (w.world.done ≡ true → w.world.world ≡ callback s)
popup_called_once callback callable loading library popup s es =
    let g =
      run-Inv callback callable s _ es (start-Inv callback callable s loading library popup) in
    let once = reached-Once callback callable s loading library popup es in
    (λ e. (g.before e).1, once.before, once.after)
