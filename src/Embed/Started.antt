-- ===== src/Embed/Started.antt =====
-- A bound map on a page with the ready helpers is started by `load`.
use simply_transport.Common.{ℕ, ◌+◌, ◌≡◌, ◌≢◌, refl, Bool, true, false, List, [], ◌∷◌, ◌++◌, All}
use simply_transport.Ready.Both.{Event, library_is, popup_is, loaded}
use simply_transport.Embed.Waiting.{start_both, start_alone, after_wait}
use simply_transport.Embed.Waiting.Alone.{Unstarted, Started, run-Alone, start-Alone}
use simply_transport.Embed.Waiting.Popup.{run-Both, start-Both}
use simply_transport.Embed.{
  Page, Needs, library_and_popup, library_only, wait, MapKind, stop_map, route_map, nearby_map,
  agency_map, static_stop_map, needs_of, bind, bind_stop_map_realtime_embed, bind_route_map_embed,
  bind_nearby_map_embed, bind_agency_map_embed, bind_static_stop_map_embed,
}

-- The guards of the five functions let the page pass, and it has the ready helper.
pub record IsBindable (p : Page) : Type 0 where
  pub wrap_there : p.wrap_there ≡ true
  pub unstarted : p.started ≡ false
  pub init_defined : p.init_defined ≡ true
  pub id_given : p.id_given ≡ true
  pub latitude_given : p.latitude_given ≡ true
  pub longitude_given : p.longitude_given ≡ true
  pub element_there : p.element_there ≡ true
  pub ready_helper : p.ready_helper ≡ true

bind-registers :
    (kind : MapKind) (p : Page)
    → IsBindable p
    → bind kind p ≡ record p { registered = p.registered + 1 }
unfolding bind_stop_map_realtime_embed bind_route_map_embed bind_nearby_map_embed
    bind_agency_map_embed bind_static_stop_map_embed wait
bind-registers stop_map p h =
    simp (h.wrap_there, h.unstarted, h.init_defined, h.id_given, h.element_there, h.ready_helper)
bind-registers route_map p h =
    simp (h.wrap_there, h.unstarted, h.init_defined, h.id_given, h.element_there, h.ready_helper)
bind-registers nearby_map p h = simp (
  h.wrap_there, h.unstarted, h.init_defined, h.latitude_given, h.longitude_given, h.element_there,
  h.ready_helper,
)
bind-registers agency_map p h =
    simp (h.wrap_there, h.unstarted, h.init_defined, h.id_given, h.element_there, h.ready_helper)
bind-registers static_stop_map p h =
    simp (h.wrap_there, h.unstarted, h.init_defined, h.id_given, h.element_there, h.ready_helper)

-- Where a map needs the popup helper, it is there from the start and stays.
abbrev pub PopupStays : Needs → Page → List Event → Type 0
PopupStays library_and_popup q es = (q.popup ≡ true) × All (λ e. e ≢ popup_is false) es
PopupStays library_only q es = Unit

after_wait-Started :
    (needs : Needs) (loading : Bool) (es : List Event) (q : Page) (n : ℕ)
    → PopupStays needs q es
    → Unstarted n q
    → Started n (after_wait needs loading (es ++ library_is true ∷ loaded ∷ []) q)
unfolding after_wait
after_wait-Started library_and_popup loading es q n (h, hs) u =
    run-Both n (start_both loading q) es hs (start-Both n loading q h u)
after_wait-Started library_only loading es q n h u =
    run-Alone n (start_alone loading q) es (start-Alone n loading q u)

-- On a page that lets a map pass and has the ready helpers, and where `StopMapPopup`, if the map needs it, is there from
-- the start and stays: binding any of the five maps hands `doInit` to its helper once, and the map has been started
-- exactly once when `load` has fired with the library there, whatever happens before. `doInit` looks at the page
-- itself, for which a script has arrived when it has for the helper.
pub bound_map_starts :
    (kind : MapKind) (p : Page) (loading : Bool) (es : List Event)
    → IsBindable p
    → PopupStays (needs_of kind) p es
    → let q = bind kind p in
      let end = after_wait (needs_of kind) loading (es ++ library_is true ∷ loaded ∷ []) q in
      (q.registered ≡ p.registered + 1) × (end.started ≡ true) × (end.inits ≡ p.inits + 1)
bound_map_starts kind p loading es h hs =
    let q : Page = record p { registered = p.registered + 1 } in
    let (started, inits) =
      after_wait-Started (needs_of kind) loading es q p.inits (stays (needs_of kind) hs)
        (h.unstarted, h.init_defined, refl) in
    rw (bind-registers kind p h) (refl, started, inits)
  where
    stays :
        (needs : Needs)
        → PopupStays needs p es
        → PopupStays needs (record p { registered = p.registered + 1 }) es
    stays library_and_popup h = h
    stays library_only h = tt
