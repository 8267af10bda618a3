-- ===== src/Tests/Waits.antt =====
-- The waits for the deferred scripts, with a callback that counts its calls.
use simply_transport.Common.{
  suc, ◌≡◌, refl, true, false, List, [], ◌∷◌, ◌++◌, replicate, arith, All, ◌≢◌,
}
use simply_transport.Ready.Library as Library
use simply_transport.Ready.Library.{fresh, when_map_libre_ready}
use simply_transport.Ready.Library.Once.{called_once, called_by_load}
use simply_transport.Ready.Library.Deadline.{called_in_time, gives_up}
use simply_transport.Ready.Popup
use simply_transport.Ready.Popup.{idle}
use simply_transport.Ready.Both as Both
use simply_transport.Ready.Both.{when_map_with_popup_ready}
use simply_transport.Ready.Both.Once.{popup_called_once}
use simply_transport.Ready.Both.Load.{popup_called_by_load}

abbrev events : List Library.Event
events =
    Library.frame ∷ Library.library_is true ∷ Library.frame ∷ Library.loaded ∷ Library.frame ∷ []

-- One call, although the library is there at a frame and at `load`.
one_call : (Library.run suc (when_map_libre_ready suc true false (fresh false 0)) events).world ≡ 1
unfolding Library.run when_map_libre_ready
one_call = refl

called_once_example :
    let w = Library.run suc (when_map_libre_ready suc true false (fresh false 0)) events in
    (w.done ≡ false → w.world ≡ 0) × (w.done ≡ true → w.world ≡ 1)
called_once_example = called_once suc true false false 0 events

called_by_load_example :
    (Library.run suc (when_map_libre_ready suc true true (fresh false 0)) (
      (Library.frame ∷ Library.parsed ∷ []) ++ Library.library_is true ∷ Library.loaded ∷ [])).world
    ≡ 1
called_by_load_example = called_by_load suc true false 0 (Library.frame ∷ Library.parsed ∷ [])

called_in_time_example :
    (Library.run suc
      (when_map_libre_ready suc true false (fresh false 0))
      (replicate 300 Library.frame ++ Library.library_is true ∷ Library.frame ∷ [])).world
    ≡ 1
called_in_time_example = called_in_time suc 0 300 (omega arith)

abbrev late : List Library.Event
late = Library.library_is true ∷ Library.frame ∷ []

no_listeners : All (λ e. (e ≢ Library.parsed) × (e ≢ Library.loaded)) late
no_listeners =
    (((λ e. ground arith), (λ e. ground arith)), (((λ e. ground arith), (λ e. ground arith)), tt))

gives_up_example :
    (Library.run suc
      (when_map_libre_ready suc true false (fresh false 0))
      (replicate 300 Library.frame ++ Library.frame ∷ late)).world
    ≡ 0
gives_up_example = gives_up suc 0 late no_listeners

abbrev both_events : List Both.Event
both_events = Both.frame ∷ Both.library_is true ∷ Both.loaded ∷ Both.popup_is true ∷ Both.frame ∷ []

both_called :
    (Both.run suc true
      (when_map_with_popup_ready suc true false (fresh false (idle false 0)))
      both_events).world.world
    ≡ 1
unfolding Both.run when_map_with_popup_ready Library.step when_map_libre_ready Popup.frame
    Popup.when_stop_map_popup_ready
both_called = refl

popup_called_once_example :
    let w =
      Both.run suc true
        (when_map_with_popup_ready suc true false (fresh false (idle false 0)))
        both_events in
    (w.done ≡ false → w.world.world ≡ 0)
    × (w.world.done ≡ false → w.world.world ≡ 0)
    × (w.world.done ≡ true → w.world.world ≡ 1)
popup_called_once_example = popup_called_once suc true false false false 0 both_events

popup_called_by_load_example :
    (Both.run suc true
      (when_map_with_popup_ready suc true true (fresh false (idle true 0)))
      ((Both.frame ∷ []) ++ Both.library_is true ∷ Both.loaded ∷ [])).world.world
    ≡ 1
popup_called_by_load_example =
    popup_called_by_load suc true false 0 (Both.frame ∷ []) ((λ e. ground arith), tt)
