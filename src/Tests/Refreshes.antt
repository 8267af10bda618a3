-- ===== src/Tests/Refreshes.antt =====
-- The map of a stop's page, refreshed.
use simply_transport.Common.{true, false, List, [], ◌∷◌, ◌≡◌, refl, none, some, replicate}
use simply_transport.Refresh.{
  Page, Event, start, click_refresh, answered, loaded, failed, built, run, set_if,
}
use simply_transport.Refresh.One.{IsFresh, first_failure_stuck}

abbrev stop_page : Page
stop_page = record {
  able = true;
  wrap_there = true;
  loader_shown = some true;
  refresh_disabled = some false;
  refresh_handler = false;
  error_shown = false;
  requests = 0;
  made = 0;
  live = [];
  loading = [];
  panels = [];
  cleanup = none;
}

IsFresh-stop_page : IsFresh stop_page
IsFresh-stop_page = record {
  able = refl;
  wrap = refl;
  requests = refl;
  live = refl;
  loading = refl;
  panels = refl;
  cleanup = refl;
  unset = refl;
}

abbrev visit : List Event
visit =
    click_refresh
    ∷ answered built
    ∷ loaded 0
    ∷ click_refresh
    ∷ click_refresh
    ∷ answered failed
    ∷ click_refresh
    ∷ []

abbrev stuck : Page
stuck = run stop_page (start ∷ answered failed ∷ replicate 3 click_refresh)

first_failure_stuck_example :
    (stuck.refresh_disabled ≡ set_if (some false) false)
    × (stuck.requests ≡ 0)
    × (stuck.live ≡ [])
    × (stuck.error_shown ≡ true)
first_failure_stuck_example = first_failure_stuck stop_page 3 IsFresh-stop_page
