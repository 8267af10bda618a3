-- ===== src/Plain/Stages.antt =====
-- How far one of the three maps has come, as the events tell it.
use simply_transport.Common.{ℕ, zero, suc, Text, units, Bool, true, false, List, [], ◌∷◌, ◌≡◌, refl}
use simply_transport.Shared.Style.{
  osm_raster_style, Control, navigation, fullscreen, add_default_map_controls,
}
use simply_transport.Load.{Call, load}
use simply_transport.Load.Accepted.{Accepted, IsDistinct, kind_of, load-Accepted}
use simply_transport.Plain.{
  Request, init_nearby_map, init_agency_map, init_static_stop_map, map_kind, Phase, PlainMap,
  Answer, failed, threw, built, Event, start, answered, loaded, marker_done, payload_of, draw,
  on_load, on_marker, update_at,
}
use simply_transport.Plain as Plain

-- The answer is awaited, or was no payload, or one that could not be drawn; or the map has the payload of these routes,
-- before `load`, before the marker's callback, and drawn, with what the marker's callback has told.
pub data Stage : Type 0 where
  waiting refused broken : Stage
  loading marking : List Text → Stage
  shown : List Text → Bool → Stage

abbrev pub after_answer : Answer → Stage → Stage
after_answer failed waiting = refused
after_answer threw waiting = broken
after_answer (built routes) waiting = loading routes
after_answer a stage = stage

-- Only the map of the stops nearby has a marker.
abbrev pub after_load : {F : Type 0} → Request F → Stage → Stage
after_load (init_nearby_map latitude longitude) (loading routes) = marking routes
after_load (init_agency_map id) (loading routes) = shown routes false
after_load (init_static_stop_map map_type) (loading routes) = shown routes false
after_load request stage = stage

abbrev pub after_marker : Bool → Stage → Stage
after_marker mono (marking routes) = shown routes mono
after_marker mono stage = stage

-- There is one map at most, and its number is 0.
abbrev pub after : {F : Type 0} → Request F → Stage → Event → Stage
after request stage start = stage
after request stage (answered a) = after_answer a stage
after request stage (loaded zero) = after_load request stage
after request stage (loaded (suc i)) = stage
after request stage (marker_done zero mono) = after_marker mono stage
after request stage (marker_done (suc i) mono) = stage

abbrev pub after_all : {F : Type 0} → Request F → Stage → List Event → Stage
after_all request stage [] = stage
after_all request stage (e ∷ es) = after_all request (after request stage e) es

abbrev pub default_controls : List (Control × Text)
default_controls = (navigation, units "top-left") ∷ (fullscreen, units "top-left") ∷ []

pub both_controls : add_default_map_controls true [] ≡ default_controls
unfolding add_default_map_controls
both_controls = refl

module _ {F : Type 0} where
  payload_kind :
      (request : Request F) (routes : List Text) (mono : Bool)
      → kind_of (payload_of request routes mono) ≡ map_kind request
  payload_kind (init_nearby_map latitude longitude) routes mono = refl
  payload_kind (init_agency_map id) routes mono = refl
  payload_kind (init_static_stop_map map_type) routes mono = refl

  payload-IsDistinct :
      (request : Request F) (routes : List Text)
      → IsDistinct (payload_of request routes false)
      → (mono : Bool) → IsDistinct (payload_of request routes mono)
  payload-IsDistinct (init_nearby_map latitude longitude) routes h mono = tt
  payload-IsDistinct (init_agency_map id) routes h mono = h
  payload-IsDistinct (init_static_stop_map map_type) routes h mono = tt

  pub payload-Accepted :
      (request : Request F) (routes : List Text) (mono : Bool)
      → IsDistinct (payload_of request routes false)
      → Accepted (osm_raster_style (map_kind request)) (load (payload_of request routes mono))
  payload-Accepted request routes mono h =
      rw (payload_kind request routes mono) at
        (load-Accepted (payload_of request routes mono) (payload-IsDistinct request routes h mono))

module _ {F : Type 0} (request : Request F) (host : Bool) where
  -- The map of a payload with these routes.
  abbrev pub map_with : List Text → Phase → List Call → Bool → List PlainMap
  map_with routes phase calls panel_shown =
      record {
        style = osm_raster_style (map_kind request);
        controls = default_controls;
        routes = routes;
        phase = phase;
        calls = calls;
        panel_shown = panel_shown;
      }
      ∷ []

  abbrev pub has_panel : Request F → Bool
  has_panel (init_agency_map id) = host
  has_panel _ = false

  -- The maps on the page.
  abbrev pub maps_at : Stage → List PlainMap
  maps_at waiting = []
  maps_at refused = []
  maps_at broken = map_with [] Plain.abandoned [] false
  maps_at (loading routes) = map_with routes Plain.loading [] false
  maps_at (marking routes) = map_with routes Plain.marking [] false
  maps_at (shown routes mono) =
      map_with routes Plain.drawn (load (payload_of request routes mono)) (has_panel request)

pub load-maps_at :
    {F : Type 0} (request : Request F) (host : Bool) (i : ℕ) (stage : Stage)
    → update_at (on_load request host) i (maps_at request host stage)
      ≡ maps_at request host (after request stage (loaded i))
unfolding update_at on_load draw
load-maps_at (init_nearby_map x y) host zero (loading routes) = refl
load-maps_at (init_agency_map id) host zero (loading routes) = refl
load-maps_at (init_static_stop_map t) host zero (loading routes) = refl
load-maps_at request host (suc i) waiting = refl
load-maps_at request host (suc i) refused = refl
load-maps_at request host (suc i) broken = refl
load-maps_at request host (suc i) (loading routes) = refl
load-maps_at request host (suc i) (marking routes) = refl
load-maps_at request host (suc i) (shown routes b) = refl
load-maps_at request host zero stage = refl

pub marker-maps_at :
    {F : Type 0} (request : Request F) (host mono : Bool) (i : ℕ) (stage : Stage)
    → update_at (on_marker request host mono) i (maps_at request host stage)
      ≡ maps_at request host (after request stage (marker_done i mono))
unfolding update_at on_marker draw
marker-maps_at (init_nearby_map x y) host mono zero (marking routes) = refl
marker-maps_at (init_agency_map id) host mono zero (marking routes) = refl
marker-maps_at (init_static_stop_map t) host mono zero (marking routes) = refl
marker-maps_at request host mono (suc i) waiting = refl
marker-maps_at request host mono (suc i) refused = refl
marker-maps_at request host mono (suc i) broken = refl
marker-maps_at request host mono (suc i) (loading routes) = refl
marker-maps_at request host mono (suc i) (marking routes) = refl
marker-maps_at request host mono (suc i) (shown routes b) = refl
marker-maps_at request host mono zero stage = refl
