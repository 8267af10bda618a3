-- ===== src/Refresh.antt =====
-- `initStopMap` of stop-map.js and `initRouteMap` of route-map.js around their maps: the request for the map's data,
-- the loader, the error text, the clean-up of the map before, and the button that draws the map anew. The address of
-- the request can be built, and the container has a parent.
pub mod Phases
pub mod One
use simply_transport.Common.{
  ℕ, zero, suc, ◌+◌, ◌-◌, Bool, true, false, not, ◌&&◌, List, [], ◌∷◌, if◌then◌else◌, Option, none,
  some, ◌==◌, any,
}

-- Maps are numbered in the order in which they are made.
pub record Page : Type 0 where
  pub able : Bool  -- the container, `maplibregl` and `StopMapPopup` are there
  pub wrap_there : Bool  -- `container.closest(…)` finds the element around the map
  pub loader_shown : Option Bool  -- `.map-loader`, if the page has one
  pub refresh_disabled : Option Bool  -- the refresh button, if the page has one
  pub refresh_handler : Bool  -- its `onclick` is set
  pub error_shown : Bool  -- the container has been given the error text
  pub requests : ℕ  -- requests without an answer
  pub made : ℕ  -- maps made so far
  pub live : List ℕ  -- maps made and not removed
  pub loading : List ℕ  -- maps whose `load` has not come
  pub panels : List ℕ  -- maps whose panel is on the page
  pub cleanup : Option ℕ  -- the map of `wrap.__stopMapCleanup`

-- How a request ends: it fails, or the map is made; building the map's data may still throw then.
pub data Answer : Type 0 where
  failed built threw : Answer

pub data Event : Type 0 where
  start click_refresh : Event
  answered : Answer → Event
  loaded : ℕ → Event

unfoldable pub without : ℕ → List ℕ → List ℕ
without m [] = []
without m (n ∷ ns) = if n == m then without m ns else n ∷ without m ns

-- A property of an element, set if the element is there.
abbrev pub set_if : Option Bool → Bool → Option Bool
set_if none b = none
set_if (some old) b = some b

-- `wrap.__stopMapCleanup()`, if it is a function
unfoldable pub clean_up : Option ℕ → Page → Page
clean_up none p = p
clean_up (some m) p = record p {
  live = without m p.live;
  panels = without m p.panels;
  cleanup = none;
}

unfoldable pub init_map : Page → Page
init_map p =
    if not p.able
    then p
    else let q = clean_up p.cleanup p in
      record q { loader_shown = set_if q.loader_shown true; requests = q.requests + 1 }

-- The `catch`.
unfoldable pub fail : Page → Page
fail p = record p {
  loader_shown = set_if p.loader_shown false;
  refresh_disabled = set_if p.refresh_disabled false;
  error_shown = true;
}

unfoldable pub make_map : Page → Page
make_map p = record p {
  loader_shown = set_if p.loader_shown false;
  made = p.made + 1;
  live = p.made ∷ p.live;
}

unfoldable pub answer : Answer → Page → Page
answer failed p = fail p
answer built p = let q = make_map p in record q { loading = p.made ∷ q.loading }
answer threw p = fail (make_map p)

unfoldable pub on_load : ℕ → Page → Page
on_load m p = record p {
  loading = without m p.loading;
  panels = m ∷ p.panels;
  cleanup = if p.wrap_there then some m else p.cleanup;
  refresh_disabled = set_if p.refresh_disabled false;
  refresh_handler = true;
}

-- A disabled button is not clicked, and its handler looks again.
unfoldable pub on_refresh : Option Bool → Page → Page
on_refresh none p = p
on_refresh (some disabled) p =
    if not p.refresh_handler
    then p
    else if disabled
    then p
    else init_map (record p { refresh_disabled = some true })

unfoldable pub step : Page → Event → Page
step p start = init_map p
step p click_refresh = on_refresh p.refresh_disabled p
step p (answered a) = elim p.requests [ zero ↦ p | suc n ↦ answer a (record p { requests = n }) ]
step p (loaded m) = if any (λ n. n == m) p.loading then on_load m p else p

unfoldable pub run : Page → List Event → Page
run p [] = p
run p (e ∷ es) = run (step p e) es
