-- ===== src/Plain/Stands.antt =====
-- What holds of a page at each stage of its map.
use simply_transport.Common.{
  ℕ, Text, Bool, true, false, [], ◌∷◌, ◌≡◌, ◌≢◌, refl, Option, none, some, arith,
}
use simply_transport.Shared.Style.{osm_raster_style}
use simply_transport.Load.{load}
use simply_transport.Load.Accepted.{IsDistinct, Accepted}
use simply_transport.Plain.Stages.{
  Stage, waiting, refused, broken, loading, marking, shown, after_load, after_marker, maps_at,
  payload-Accepted,
}
use simply_transport.Plain.{
  Request, init_nearby_map, init_agency_map, init_static_stop_map, map_kind, Page, built, Event,
  start, answered, hidden, payload_of,
}

abbrev pub open_requests : Stage → ℕ
open_requests waiting = 1
open_requests _ = 0

abbrev pub has_error : Stage → Bool
has_error refused = true
has_error broken = true
has_error _ = false

abbrev pub MayShow : Stage → Option Bool → Type 0
MayShow waiting loader = Unit
MayShow _ loader = loader ≢ some true

module _ {F : Type 0} (request : Request F) where
  -- The map takes every call of a drawn payload.
  abbrev pub IsAccepted : Stage → Type 0
  IsAccepted (shown routes mono) =
      Accepted (osm_raster_style (map_kind request)) (load (payload_of request routes mono))
  IsAccepted _ = Unit

  -- No second call, and on the agency map no payload with a route twice.
  abbrev pub IsSound : Event → Type 0
  IsSound start = ⊥
  IsSound (answered (built routes)) = IsDistinct (payload_of request routes false)
  IsSound _ = Unit

  abbrev pub HasDistinct : Stage → Type 0
  HasDistinct (loading routes) = IsDistinct (payload_of request routes false)
  HasDistinct (marking routes) = IsDistinct (payload_of request routes false)
  HasDistinct (shown routes mono) = IsDistinct (payload_of request routes false)
  HasDistinct _ = Unit

  pub stage-IsAccepted : (stage : Stage) → HasDistinct stage → IsAccepted stage
  stage-IsAccepted waiting h = tt
  stage-IsAccepted refused h = tt
  stage-IsAccepted broken h = tt
  stage-IsAccepted (loading routes) h = tt
  stage-IsAccepted (marking routes) h = tt
  stage-IsAccepted (shown routes mono) h = payload-Accepted request routes mono h

pub hidden-none : (o : Option Bool) → hidden o ≢ some true
hidden-none none e = ground arith
hidden-none (some b) e = ground arith

module _ {F : Type 0} (request : Request F) (host : Bool) where
  -- The page at a stage.
  pub record Stands (stage : Stage) (p : Page) : Type 0 where
    pub requests : p.requests ≡ open_requests stage
    pub maps : p.maps ≡ maps_at request host stage
    pub error_shown : p.error_shown ≡ has_error stage
    pub loader : MayShow stage p.loader_shown
    pub accepted : IsAccepted request stage

  -- What stays: the library, the host, and the address that was asked for, once.
  pub record Kept (url : Text) (p : Page) : Type 0 where
    pub library : p.library ≡ true
    pub same_host : p.host ≡ host
    pub asked : p.asked ≡ url ∷ []

pub after_load-HasDistinct :
    {F : Type 0} (request : Request F) (stage : Stage)
    → HasDistinct request stage
    → HasDistinct request (after_load request stage)
after_load-HasDistinct (init_nearby_map x y) (loading routes) h = h
after_load-HasDistinct (init_agency_map id) (loading routes) h = h
after_load-HasDistinct (init_static_stop_map t) (loading routes) h = h
after_load-HasDistinct request stage h = h

-- An event but an answer leaves the requests, the error and the loader as they are.
abbrev pub Still : Stage → Stage → Type 0
Still old new =
    (open_requests new ≡ open_requests old)
    × (has_error new ≡ has_error old)
    × ((loader : Option Bool) → MayShow old loader → MayShow new loader)

pub load-Still :
    {F : Type 0} (request : Request F) (stage : Stage) → Still stage (after_load request stage)
load-Still (init_nearby_map x y) (loading routes) = (refl, refl, λ o h. h)
load-Still (init_agency_map id) (loading routes) = (refl, refl, λ o h. h)
load-Still (init_static_stop_map t) (loading routes) = (refl, refl, λ o h. h)
load-Still request stage = (refl, refl, λ o h. h)

pub after_marker-HasDistinct :
    {F : Type 0} (request : Request F) (mono : Bool) (stage : Stage)
    → HasDistinct request stage
    → HasDistinct request (after_marker mono stage)
after_marker-HasDistinct request mono (marking routes) h = h
after_marker-HasDistinct request mono stage h = h

pub marker-Still : (mono : Bool) (stage : Stage) → Still stage (after_marker mono stage)
marker-Still mono (marking routes) = (refl, refl, λ o h. h)
marker-Still mono stage = (refl, refl, λ o h. h)
