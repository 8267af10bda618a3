-- ===== src/Embed.antt =====
-- The `bind…Embed` functions at the end of the five map scripts, which start a map on its page. They have
-- one shape: what differs is the guard before the wait and the scripts that are waited for.
pub mod Once
pub mod Patience
pub mod Waiting
pub mod Started
use simply_transport.Common.{
  ℕ, zero, suc, ◌+◌, Bool, true, false, not, ◌&&◌, ◌||◌, List, [], ◌∷◌, if◌then◌else◌, Option, none,
  some, ltb,
}

-- One `wrap` element and the page around it.
pub record Page : Type 0 where
  pub wrap_there : Bool  -- the query finds the element
  pub started : Bool  -- the data attribute `…EmbedInit` is "1"
  pub wait_deps : Option ℕ  -- the data attribute `embedWaitDeps`
  pub id_given : Bool  -- the data attribute with the id, or the map's type, is not empty
  pub latitude_given : Bool  -- it parses to a number
  pub longitude_given : Bool
  pub element_there : Bool  -- `map-element`
  pub init_defined : Bool  -- `window.init…Map`
  pub library : Bool  -- `window.maplibregl`
  pub popup : Bool  -- `window.StopMapPopup`
  pub ready_helper : Bool  -- `window.whenMap…Ready`
  pub registered : ℕ  -- `doInit`s handed to that helper
  pub queued : ℕ  -- `fallback`s that wait for a frame
  pub inits : ℕ  -- calls of `init…Map`

-- What a map waits for.
pub data Needs : Type 0 where
  library_and_popup library_only : Needs

abbrev pub deps : Needs → Page → Bool
deps library_and_popup p = p.library && p.popup
deps library_only p = p.library

unfoldable pub do_init : Needs → Page → Page
do_init needs p =
    if p.started
    then p
    else if not p.init_defined || not (deps needs p)
    then p
    else record p { started = true; inits = p.inits + 1 }

abbrev pub count_of : Option ℕ → ℕ
count_of none = 0
count_of (some n) = n

unfoldable pub fallback : Needs → Page → Page
unfolding do_init
fallback needs p =
    if p.started
    then p
    else if not (deps needs p)
    then (if ltb 120 (count_of p.wait_deps + 1)
        then p
        else record p { wait_deps = some (count_of p.wait_deps + 1); queued = p.queued + 1 })
    else do_init needs (record p { wait_deps = none })

-- The wait, once the guard has passed.
unfoldable pub wait : Needs → Page → Page
unfolding fallback
wait needs p =
    if p.ready_helper then record p { registered = p.registered + 1 } else fallback needs p

unfoldable pub bind_stop_map_realtime_embed : Page → Page
unfolding wait
bind_stop_map_realtime_embed p =
    if not p.wrap_there || p.started
    then p
    else if not p.init_defined
    then p
    else if not p.id_given || not p.element_there
    then p
    else wait library_and_popup p

unfoldable pub bind_route_map_embed : Page → Page
unfolding wait
bind_route_map_embed p =
    if not p.wrap_there || p.started
    then p
    else if not p.init_defined
    then p
    else if not p.id_given || not p.element_there
    then p
    else wait library_and_popup p

unfoldable pub bind_nearby_map_embed : Page → Page
unfolding wait
bind_nearby_map_embed p =
    if not p.wrap_there || p.started
    then p
    else if not p.init_defined
    then p
    else if not p.element_there
    then p
    else if not p.latitude_given || not p.longitude_given
    then p
    else wait library_and_popup p

unfoldable pub bind_agency_map_embed : Page → Page
unfolding wait
bind_agency_map_embed p =
    if not p.wrap_there || p.started
    then p
    else if not p.init_defined
    then p
    else if not p.id_given || not p.element_there
    then p
    else wait library_only p

unfoldable pub bind_static_stop_map_embed : Page → Page
unfolding wait
bind_static_stop_map_embed p =
    if not p.wrap_there || p.started
    then p
    else if not p.init_defined
    then p
    else if not p.id_given || not p.element_there
    then p
    else wait library_and_popup p

-- The five scripts.
pub data MapKind : Type 0 where
  stop_map route_map nearby_map agency_map static_stop_map : MapKind

abbrev pub needs_of : MapKind → Needs
needs_of agency_map = library_only
needs_of _ = library_and_popup

abbrev pub bind : MapKind → Page → Page
bind stop_map p = bind_stop_map_realtime_embed p
bind route_map p = bind_route_map_embed p
bind nearby_map p = bind_nearby_map_embed p
bind agency_map p = bind_agency_map_embed p
bind static_stop_map p = bind_static_stop_map_embed p

-- What happens on the page: a listener binds, the helper calls a `doInit`, a frame comes, scripts arrive.
pub data Event : Type 0 where
  bound ready frame : Event
  library_is popup_is init_is : Bool → Event

-- The queued fallbacks of one frame.
unfoldable pub run_queued : Needs → ℕ → Page → Page
unfolding fallback
run_queued needs zero p = p
run_queued needs (suc n) p = run_queued needs n (fallback needs p)

-- The helper calls a `doInit` that it was handed, and drops it.
unfoldable pub call_ready : Needs → ℕ → Page → Page
unfolding do_init
call_ready needs zero p = p
call_ready needs (suc n) p = do_init needs (record p { registered = n })

unfoldable pub step : MapKind → Page → Event → Page
unfolding run_queued call_ready
step kind p bound = bind kind p
step kind p ready = call_ready (needs_of kind) p.registered p
step kind p frame = run_queued (needs_of kind) p.queued (record p { queued = 0 })
step kind p (library_is b) = record p { library = b }
step kind p (popup_is b) = record p { popup = b }
step kind p (init_is b) = record p { init_defined = b }

unfoldable pub run : MapKind → Page → List Event → Page
unfolding step
run kind p [] = p
run kind p (e ∷ es) = run kind (step kind p e) es
