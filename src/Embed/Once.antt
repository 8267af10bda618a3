-- ===== src/Embed/Once.antt =====
-- A map is started once on its page.
use simply_transport.Common.{
  ℕ, zero, suc, ◌+◌, ◌≤◌, ◌≡◌, if◌then◌else◌, Bool, true, false, not, ◌||◌, List, [], ◌∷◌, none,
  some, arith,
}
use simply_transport.Embed.{
  Page, Needs, library_and_popup, library_only, do_init, fallback, wait, MapKind, stop_map,
  route_map, nearby_map, agency_map, static_stop_map, needs_of, bind, bind_stop_map_realtime_embed,
  bind_route_map_embed, bind_nearby_map_embed, bind_agency_map_embed, bind_static_stop_map_embed,
  Event, bound, ready, frame, library_is, popup_is, init_is, run_queued, call_ready, step, run,
}

-- The mark on the element counts the starts, and the counter of the fallback stays within its limit.
pub record Inv (p : Page) : Type 0 where
  pub unstarted : p.started ≡ false → p.inits ≡ 0
  pub once : p.started ≡ true → p.inits ≡ 1
  pub counter : (n : ℕ) → p.wait_deps ≡ some n → n ≤ 120

do_init-Inv : (needs : Needs) (p : Page) → Inv p → Inv (do_init needs p)
unfolding do_init
do_init-Inv library_and_popup p h = ground arith
do_init-Inv library_only p h = ground arith

fallback-Inv : (needs : Needs) (p : Page) → Inv p → Inv (fallback needs p)
unfolding fallback do_init
fallback-Inv library_and_popup p h = ground arith
fallback-Inv library_only p h = ground arith

register-Inv : (p : Page) → Inv p → Inv (record p { registered = p.registered + 1 })
register-Inv p h = record { unstarted = h.unstarted; once = h.once; counter = h.counter }

if-Inv : (b : Bool) {p q : Page} → Inv p → Inv q → Inv (if b then p else q)
if-Inv true hp hq = hp
if-Inv false hp hq = hq

wait-Inv : (needs : Needs) (p : Page) → Inv p → Inv (wait needs p)
unfolding wait
wait-Inv needs p h = if-Inv p.ready_helper (register-Inv p h) (fallback-Inv needs p h)

guarded-Inv :
    (a b c : Bool) (needs : Needs) (p : Page)
    → Inv p
    → Inv (if a then p else if b then p else if c then p else wait needs p)
guarded-Inv a b c needs p h = if-Inv a h (if-Inv b h (if-Inv c h (wait-Inv needs p h)))

bind-Inv : (kind : MapKind) (p : Page) → Inv p → Inv (bind kind p)
unfolding bind_stop_map_realtime_embed bind_route_map_embed bind_nearby_map_embed
    bind_agency_map_embed bind_static_stop_map_embed
bind-Inv stop_map p h =
    guarded-Inv (not p.wrap_there || p.started) (not p.init_defined)
      (not p.id_given || not p.element_there) library_and_popup p h
bind-Inv route_map p h =
    guarded-Inv (not p.wrap_there || p.started) (not p.init_defined)
      (not p.id_given || not p.element_there) library_and_popup p h
bind-Inv nearby_map p h = if-Inv (not p.wrap_there || p.started) h (
    guarded-Inv (not p.init_defined) (not p.element_there)
      (not p.latitude_given || not p.longitude_given) library_and_popup p h)
bind-Inv agency_map p h =
    guarded-Inv (not p.wrap_there || p.started) (not p.init_defined)
      (not p.id_given || not p.element_there) library_only p h
bind-Inv static_stop_map p h =
    guarded-Inv (not p.wrap_there || p.started) (not p.init_defined)
      (not p.id_given || not p.element_there) library_and_popup p h

run_queued-Inv : (needs : Needs) (n : ℕ) (p : Page) → Inv p → Inv (run_queued needs n p)
unfolding run_queued
run_queued-Inv needs zero p h = h
run_queued-Inv needs (suc n) p h =
    run_queued-Inv needs n (fallback needs p) (fallback-Inv needs p h)

call_ready-Inv : (needs : Needs) (n : ℕ) (p : Page) → Inv p → Inv (call_ready needs n p)
unfolding call_ready
call_ready-Inv needs zero p h = h
call_ready-Inv needs (suc n) p h =
    do_init-Inv needs (record p { registered = n })
      (record { unstarted = h.unstarted; once = h.once; counter = h.counter })

step-Inv : (kind : MapKind) (p : Page) (e : Event) → Inv p → Inv (step kind p e)
unfolding step
step-Inv kind p bound h = bind-Inv kind p h
step-Inv kind p ready h = call_ready-Inv (needs_of kind) p.registered p h
step-Inv kind p frame h =
    run_queued-Inv (needs_of kind) p.queued (record p { queued = 0 })
      (record { unstarted = h.unstarted; once = h.once; counter = h.counter })
step-Inv kind p (library_is b) h = record {
  unstarted = h.unstarted;
  once = h.once;
  counter = h.counter;
}
step-Inv kind p (popup_is b) h = record {
  unstarted = h.unstarted;
  once = h.once;
  counter = h.counter;
}
step-Inv kind p (init_is b) h = record {
  unstarted = h.unstarted;
  once = h.once;
  counter = h.counter;
}

run-Inv : (kind : MapKind) (p : Page) (es : List Event) → Inv p → Inv (run kind p es)
unfolding run
run-Inv kind p [] h = h
run-Inv kind p (e ∷ es) h = run-Inv kind (step kind p e) es (step-Inv kind p e h)

fresh_page-Inv : (p : Page) → p.started ≡ false → p.inits ≡ 0 → p.wait_deps ≡ none → Inv p
fresh_page-Inv p fresh uncalled uncounted = record {
  unstarted = λ _. uncalled;
  once = λ started. ground arith;
  counter = λ n given. ground arith;
}

inits_match : (p : Page) → Inv p → p.inits ≡ (if p.started then 1 else 0)
inits_match p h = ground arith

-- From an element that no script has started, whatever the order in which the listeners bind, the ready
-- helper calls back, frames come and scripts arrive or go: the map's init function has been called once
-- when the element is marked as started and never when it is not, and the counter of the fallback stays
-- within 120.
pub embed_starts_once :
    (kind : MapKind) (p : Page) (es : List Event)
    → p.started ≡ false
    → p.inits ≡ 0
    → p.wait_deps ≡ none
    → ((run kind p es).inits ≡ (if (run kind p es).started then 1 else 0))
      × ((n : ℕ) → (run kind p es).wait_deps ≡ some n → n ≤ 120)
embed_starts_once kind p es fresh uncalled uncounted =
    let h = run-Inv kind p es (fresh_page-Inv p fresh uncalled uncounted) in
    (inits_match (run kind p es) h, h.counter)
