-- ===== src/Ready/Both/Load.antt =====
-- With the popup helper loaded from the start, the callback runs by the `load` event at the latest.
use simply_transport.Common.{◌≡◌, refl, Bool, true, false, List, [], ◌∷◌, ◌++◌, ◌≢◌, All, arith}
use simply_transport.Ready.Library as Library
use simply_transport.Ready.Library.{Wait, fresh, when_map_libre_ready}
use simply_transport.Ready.Library.Once.{
  Gate, step-Gate, start-Gate, Pending, step-Pending, start-Pending, load_settles,
}
use simply_transport.Ready.Popup.{PopupWait, idle, when_stop_map_popup_ready, frame as frame_popup}
use simply_transport.Ready.Both.{
  Event, library_is, popup_is, parsed, loaded, frame, wait_for_popup, when_map_with_popup_ready,
  step, run,
}
use simply_transport.Ready.Both.Once.{reached-Once}

module _ {S : Type 0} (callback : S → S) where
  -- The helper is there; and the callback has run.
  abbrev HasPopup : PopupWait S → Type 0
  HasPopup p = p.popup ≡ true

  abbrev IsDone : PopupWait S → Type 0
  IsDone p = (p.popup ≡ true) × (p.done ≡ true)

  begins_done : (p : PopupWait S) → HasPopup p → IsDone (wait_for_popup callback true p)
  unfolding wait_for_popup when_stop_map_popup_ready
  begins_done p h = ground arith

  record Inv (w : Wait (PopupWait S)) : Type 0 where
    gate : Gate (wait_for_popup callback true) HasPopup IsDone begins_done w
    pending : Pending (wait_for_popup callback true) w

  frame-HasPopup : (p : PopupWait S) → HasPopup p → HasPopup (frame_popup callback p)
  unfolding frame_popup
  frame-HasPopup p h = ground arith

  frame-IsDone : (p : PopupWait S) → IsDone p → IsDone (frame_popup callback p)
  unfolding frame_popup
  frame-IsDone p h = ground arith

  frame-Inv :
      (w : Wait (PopupWait S)) → Inv w → Inv (record w { world = frame_popup callback w.world })
  frame-Inv w i = record {
    gate = record {
      before = λ e. frame-HasPopup w.world (i.gate.before e);
      after = λ e. frame-IsDone w.world (i.gate.after e);
    };
    pending = i.pending;
  }

  library-Inv :
      (w : Wait (PopupWait S)) (e : Library.Event)
      → Inv w
      → Inv (Library.step (wait_for_popup callback true) w e)
  library-Inv w e i = record {
    gate = step-Gate _ _ _ _ w e i.gate;
    pending = step-Pending _ w e i.pending;
  }

  step-Inv :
      (w : Wait (PopupWait S)) (e : Event)
      → e ≢ popup_is false
      → Inv w
      → Inv (step callback true w e)
  unfolding step
  step-Inv w (library_is b) h i = library-Inv w (Library.library_is b) i
  step-Inv w (popup_is true) h i = record {
    gate = record { before = λ e. refl; after = λ e. (refl, (i.gate.after e).1) };
    pending = i.pending;
  }
  step-Inv w (popup_is false) h i = absurd (h refl)
  step-Inv w parsed h i = library-Inv w Library.parsed i
  step-Inv w loaded h i = library-Inv w Library.loaded i
  step-Inv w frame h i =
      library-Inv (record w { world = frame_popup callback w.world }) Library.frame (frame-Inv w i)

  run-Inv :
      (w : Wait (PopupWait S)) (es : List Event)
      → All (λ e. e ≢ popup_is false) es
      → Inv w
      → Inv (run callback true w es)
  unfolding run
  run-Inv w [] hs i = i
  run-Inv w (e ∷ es) (h, hs) i = run-Inv (step callback true w e) es hs (step-Inv w e h i)

  run-append :
      (w : Wait (PopupWait S)) (es fs : List Event)
      → run callback true w (es ++ fs) ≡ run callback true (run callback true w es) fs
  unfolding run
  run-append w [] fs = refl
  run-append w (e ∷ es) fs = run-append (step callback true w e) es fs

  start-Inv :
      (loading library : Bool) (s : S)
      → Inv (when_map_with_popup_ready callback true loading (fresh library (idle true s)))
  unfolding when_map_with_popup_ready
  start-Inv loading library s = record {
    gate =
        start-Gate _ _ _ _ true loading (fresh library (idle true s))
          (record { before = λ e. refl; after = λ e. (refl, e) });
    pending = start-Pending _ loading _;
  }

  load_done :
      (w : Wait (PopupWait S))
      → Inv w
      → (run callback true w (library_is true ∷ loaded ∷ [])).world.done ≡ true
  unfolding run
  load_done w i =
      let v = run callback true w (library_is true ∷ loaded ∷ []) in
      let j =
        step-Inv (step callback true w (library_is true)) loaded (λ e. cc)
          (step-Inv w (library_is true) (λ e. cc) i) in
      (j.gate.after
        (unfold Library.run in load_settles (wait_for_popup callback true) w i.pending)).1

-- Where `StopMapPopup` was there at the call and stays, and the library is there when `load` fires, the
-- callback of `whenMapWithPopupReady` has then acted exactly once.
pub popup_called_by_load :
    {S : Type 0} (callback : S → S) (loading library : Bool) (s : S) (es : List Event)
    → All (λ e. e ≢ popup_is false) es
    → (run callback true
        (when_map_with_popup_ready callback true loading (fresh library (idle true s)))
        (es ++ library_is true ∷ loaded ∷ [])).world.world
      ≡ callback s
popup_called_by_load callback loading library s es hs =
    let w = when_map_with_popup_ready callback true loading (fresh library (idle true s)) in
    let last = library_is true ∷ loaded ∷ [] in
    (reached-Once callback true s loading library true (es ++ last)).after (
      rw (run-append callback w es last) (
        load_done callback (run callback true w es)
          (run-Inv callback w es hs (start-Inv callback loading library s))))
