-- ===== src/Embed/Waiting.antt =====
-- A map's page while `doInit` waits in its helper: the callback of `whenMapWithPopupReady`, or on the agency map of
-- `whenMapLibreReady`. A script that arrives is there for the helper and for `doInit` alike.
pub mod Alone
pub mod Popup
use simply_transport.Common.{Bool, true, List, [], ◌∷◌}
use simply_transport.Ready.Library.{Wait, fresh, when_map_libre_ready}
use simply_transport.Ready.Library as Library
use simply_transport.Ready.Popup.{PopupWait, idle}
use simply_transport.Ready.Both.{
  Event, library_is, popup_is, parsed, loaded, frame, when_map_with_popup_ready,
}
use simply_transport.Ready.Both as Both
use simply_transport.Embed.{Page, Needs, library_and_popup, library_only, do_init}

-- The page of the map as the event leaves it, before the wait runs.
unfoldable pub arrive : Event → Page → Page
arrive (library_is b) q = record q { library = b }
arrive (popup_is b) q = record q { popup = b }
arrive _ q = q

abbrev pub arrive_both : Event → Wait (PopupWait Page) → Wait (PopupWait Page)
arrive_both e w = record w { world = record (w.world) { world = arrive e w.world.world } }

unfoldable pub step_both : Wait (PopupWait Page) → Event → Wait (PopupWait Page)
unfolding arrive
step_both w e = Both.step (do_init library_and_popup) true (arrive_both e w) e

unfoldable pub run_both : Wait (PopupWait Page) → List Event → Wait (PopupWait Page)
unfolding step_both
run_both w [] = w
run_both w (e ∷ es) = run_both (step_both w e) es

abbrev pub arrive_alone : Event → Wait Page → Wait Page
arrive_alone e w = record w { world = arrive e w.world }

unfoldable pub step_alone : Wait Page → Event → Wait Page
unfolding arrive
step_alone w (library_is b) =
    Library.step (do_init library_only) (arrive_alone (library_is b) w) (Library.library_is b)
step_alone w (popup_is b) = arrive_alone (popup_is b) w
step_alone w parsed = Library.step (do_init library_only) w Library.parsed
step_alone w loaded = Library.step (do_init library_only) w Library.loaded
step_alone w frame = Library.step (do_init library_only) w Library.frame

unfoldable pub run_alone : Wait Page → List Event → Wait Page
unfolding step_alone
run_alone w [] = w
run_alone w (e ∷ es) = run_alone (step_alone w e) es

-- The map has just been handed to its helper on the page `q`; `loading` tells whether the document is still being read.
abbrev pub start_both : Bool → Page → Wait (PopupWait Page)
start_both loading q =
    when_map_with_popup_ready (do_init library_and_popup) true loading
      (fresh q.library (idle q.popup q))

abbrev pub start_alone : Bool → Page → Wait Page
start_alone loading q = when_map_libre_ready (do_init library_only) true loading (fresh q.library q)

-- The page after the events.
unfoldable pub after_wait : Needs → Bool → List Event → Page → Page
unfolding run_both run_alone
after_wait library_and_popup loading es q = (run_both (start_both loading q) es).world.world
after_wait library_only loading es q = (run_alone (start_alone loading q) es).world
