-- ===== src/Ready/Both.antt =====
-- `whenMapWithPopupReady`: the wait for the popup helper is the callback of the wait for the library.
pub mod Once
pub mod Load
use simply_transport.Common.{Bool, true, List, [], ◌∷◌}
use simply_transport.Ready.Library.{Wait, when_map_libre_ready, step as step_library}
use simply_transport.Ready.Library as Library
use simply_transport.Ready.Popup.{PopupWait, when_stop_map_popup_ready, frame as frame_popup}

-- What happens on the page, with the popup helper among it.
pub data Event : Type 0 where
  library_is popup_is : Bool → Event
  parsed loaded frame : Event

module _ {S : Type 0} (callback : S → S) (callable : Bool) where
  -- The function that `whenMapWithPopupReady` hands on.
  unfoldable pub wait_for_popup : PopupWait S → PopupWait S
  wait_for_popup p = when_stop_map_popup_ready callback callable p

  -- The argument handed on is always a function; `callable` is of the inner argument.
  unfoldable pub when_map_with_popup_ready : Bool → Wait (PopupWait S) → Wait (PopupWait S)
  unfolding wait_for_popup
  when_map_with_popup_ready loading w = when_map_libre_ready wait_for_popup true loading w

  -- In a frame the ticks of both waits run. A wait that begins in the frame queues its tick for the
  -- next one; the popup's wait does not touch the library's.
  unfoldable pub step : Wait (PopupWait S) → Event → Wait (PopupWait S)
  unfolding wait_for_popup
  step w (library_is b) = step_library wait_for_popup w (Library.library_is b)
  step w (popup_is b) = record w { world = record (w.world) { popup = b } }
  step w parsed = step_library wait_for_popup w Library.parsed
  step w loaded = step_library wait_for_popup w Library.loaded
  step w frame =
      step_library wait_for_popup (record w { world = frame_popup callback w.world }) Library.frame

  unfoldable pub run : Wait (PopupWait S) → List Event → Wait (PopupWait S)
  unfolding step
  run w [] = w
  run w (e ∷ es) = run (step w e) es
