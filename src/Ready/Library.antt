-- ===== src/Ready/Library.antt =====
-- `whenMapLibreReady`. A value of `Wait` is the closure of one call, what the page holds for it,
-- and the state `world` on which the callback acts. `requestAnimationFrame` queues a `tick` for the
-- next frame; the listeners stay registered.
pub mod Once
pub mod Deadline
pub mod Tied
use simply_transport.Common.{
  ℕ, suc, ◌+◌, Bool, true, false, not, List, [], ◌∷◌, ◌++◌, ltb, if◌then◌else◌,
}

pub record Wait (S : Type 0) : Type 0 where
  pub library : Bool  -- `global.maplibregl` is there
  pub done : Bool
  pub world : S
  pub ticks : List ℕ  -- the queued `tick`s, each with its own `n`
  pub parsed_listener : Bool
  pub load_listener : Bool

-- What the page and the browser do between two runs of the code.
pub data Event : Type 0 where
  library_is : Bool → Event
  parsed loaded frame : Event

abbrev pub fresh : {S : Type 0} → Bool → S → Wait S
fresh library world = record {
  library = library;
  done = false;
  world = world;
  ticks = [];
  parsed_listener = false;
  load_listener = false;
}

module _ {S : Type 0} (callback : S → S) where
  unfoldable pub invoke : Wait S → Wait S
  invoke w =
      if w.done
      then w
      else if not w.library
      then w
      else record w { done = true; world = callback w.world }

  -- one round of the loop in `scheduleRaf`
  unfoldable pub tick : ℕ → Wait S → Wait S
  unfolding invoke
  tick n w =
      if w.library
      then invoke w
      else if ltb 300 (n + 1)
      then w
      else record w { ticks = w.ticks ++ (n + 1) ∷ [] }

  unfoldable pub schedule_raf : Wait S → Wait S
  schedule_raf w = record w { ticks = w.ticks ++ 0 ∷ [] }

  -- `onParsingDone`, and the listener of `load`, which has the same body
  unfoldable pub on_parsing_done : Wait S → Wait S
  unfolding invoke schedule_raf
  on_parsing_done w = if w.library then invoke w else schedule_raf w

  -- `callable`: the argument is a function; `loading`: the document's `readyState`.
  unfoldable pub when_map_libre_ready : Bool → Bool → Wait S → Wait S
  unfolding invoke on_parsing_done
  when_map_libre_ready callable loading w =
      if not callable
      then w
      else if w.library
      then invoke w
      else record (if loading then record w { parsed_listener = true } else on_parsing_done w) {
        load_listener = true;
      }

  -- the queued ticks run one after another
  unfoldable pub run_ticks : List ℕ → Wait S → Wait S
  unfolding tick
  run_ticks [] w = w
  run_ticks (n ∷ ns) w = run_ticks ns (tick n w)

  unfoldable pub step : Wait S → Event → Wait S
  unfolding run_ticks on_parsing_done
  step w (library_is b) = record w { library = b }
  step w parsed = if w.parsed_listener then on_parsing_done w else w
  step w loaded = if w.load_listener then on_parsing_done w else w
  step w frame = run_ticks w.ticks (record w { ticks = [] })

  unfoldable pub run : Wait S → List Event → Wait S
  unfolding step
  run w [] = w
  run w (e ∷ es) = run (step w e) es
