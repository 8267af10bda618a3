-- ===== src/Plain.antt =====
-- `initNearbyMap`, `initAgencyMap` and `initStaticStopMap`: the guard, the address that is asked for, and what becomes
-- of the answer. What is said of one holds for the others where they do not differ. The map's data is that of Load.
pub mod Stages
pub mod Stands
pub mod Single
use simply_transport.Common.{
  ℕ, zero, suc, ◌+◌, Text, units, Bool, true, false, not, ◌&&◌, List, [], ◌∷◌, ◌++◌, if◌then◌else◌,
  Option, none, some,
}
use simply_transport.Js.Uri.{encode_uri_component, form_encode}
use simply_transport.Embed.{MapKind, nearby_map, agency_map, static_stop_map}
use simply_transport.Shared.Style.{Style, osm_raster_style, Control, add_default_map_controls}
use simply_transport.Load.{Payload, nearby_payload, agency_payload, static_payload, Call, load}

-- The call: with coordinates, an agency's id, or the type of a static map.
pub data Request (F : Type 0) : Type 0 where
  init_nearby_map : F → F → Request F
  init_agency_map : Text → Request F
  init_static_stop_map : Text → Request F

abbrev pub map_kind : {F : Type 0} → Request F → MapKind
map_kind (init_nearby_map latitude longitude) = nearby_map
map_kind (init_agency_map id) = agency_map
map_kind (init_static_stop_map map_type) = static_stop_map

-- The map waits for `load`, or after that for the marker's image; it is drawn; or its drawing threw before `load` was
-- listened to.
pub data Phase : Type 0 where
  loading marking drawn abandoned : Phase

-- A map that has been made.
pub record PlainMap : Type 0 where
  pub style : Style
  pub controls : List (Control × Text)
  pub routes : List Text  -- the ids of the payload's routes, if it has some
  pub phase : Phase
  pub calls : List Call  -- the sources and layers that were added
  pub panel_shown : Bool

pub record Page : Type 0 where
  pub container : Bool  -- the element is there
  pub library : Bool  -- `window.maplibregl`
  pub popup : Bool  -- `window.StopMapPopup`
  pub host : Bool  -- `container.parentElement`
  pub loader_shown : Option Bool  -- `.map-loader`, if the host has one
  pub error_shown : Bool  -- the container has the error text
  pub asked : List Text  -- the addresses that were asked for
  pub requests : ℕ  -- those without an answer
  pub maps : List PlainMap

-- How a request ends: it fails, or its status or body does; or the map is made, and its payload's routes are these; or
-- what the handler does with the payload throws then.
pub data Answer : Type 0 where
  failed threw : Answer
  built : List Text → Answer

-- The call, an answer, the `load` of a map, and the callback of the marker's image, which tells whether the map has it.
pub data Event : Type 0 where
  start : Event
  answered : Answer → Event
  loaded : ℕ → Event
  marker_done : ℕ → Bool → Event

unfoldable pub update_at : {A : Type 0} → (A → A) → ℕ → List A → List A
update_at f i [] = []
update_at f zero (x ∷ xs) = f x ∷ xs
update_at f (suc i) (x ∷ xs) = x ∷ update_at f i xs

-- `loader.style.display = "none"`
abbrev pub hidden : Option Bool → Option Bool
hidden none = none
hidden (some shown) = some false

-- The `catch`.
unfoldable pub fail : Page → Page
fail p = record p { loader_shown = hidden p.loader_shown; error_shown = true }

-- The payload as Load has it.
abbrev pub payload_of : {F : Type 0} → Request F → List Text → Bool → Payload
payload_of (init_nearby_map latitude longitude) routes mono = nearby_payload mono
payload_of (init_agency_map id) routes mono = agency_payload routes
payload_of (init_static_stop_map map_type) routes mono = static_payload

module _ {F : Type 0} (request : Request F) where
  -- The guard.
  unfoldable pub able : Page → Bool
  able p = elim (map_kind request) [
    | agency_map ↦ p.container && p.library
    | _ ↦ p.container && (p.library && p.popup)
  ]

  -- `new maplibregl.Map(…)` with its controls.
  abbrev pub new_map : Page → Phase → List Text → PlainMap
  new_map p phase routes = record {
    style = osm_raster_style (map_kind request);
    controls = add_default_map_controls p.library [];
    routes = routes;
    phase = phase;
    calls = [];
    panel_shown = false;
  }

  unfoldable pub make_map : Phase → List Text → Page → Page
  make_map phase routes p = record p {
    loader_shown = hidden p.loader_shown;
    maps = p.maps ++ new_map p phase routes ∷ [];
  }

  unfoldable pub answer : Answer → Page → Page
  answer failed p = fail p
  answer threw p = fail (make_map abandoned [] p)
  answer (built routes) p = make_map loading routes p

  unfoldable pub draw : Bool → Bool → PlainMap → PlainMap
  draw host mono m = record m {
    phase = drawn;
    calls = m.calls ++ load (payload_of request m.routes mono);
    panel_shown = elim (map_kind request) [ agency_map ↦ host | _ ↦ false ];
  }

  -- The `load` handler: on the nearby map the rest is left to the marker's callback.
  unfoldable pub on_load : Bool → PlainMap → PlainMap
  on_load host m = elim m.phase [
    | loading ↦ elim (map_kind request) [
      | nearby_map ↦ record m { phase = marking }
      | _ ↦ draw host false m
    ]
    | _ ↦ m
  ]

  unfoldable pub on_marker : Bool → Bool → PlainMap → PlainMap
  on_marker host mono m = elim m.phase [ marking ↦ draw host mono m | _ ↦ m ]

-- The numbers of a request are written by `String`.
module _ {F : Type 0} (number_text : F → Text) (request : Request F) where
  -- `none` where `encodeURIComponent` throws.
  unfoldable pub address : Option Text
  address = elim request [
    | init_nearby_map latitude longitude ↦ some (
        units "/api/v1/map/stop/nearby?latitude="
        ++ form_encode (number_text latitude)
        ++ units "&longitude="
        ++ form_encode (number_text longitude))
    | init_agency_map id ↦ elim (encode_uri_component id) [
      | none ↦ none
      | some s ↦ some (units "/api/v1/map/route/agency/" ++ s)
    ]
    | init_static_stop_map map_type ↦ elim (encode_uri_component map_type) [
      | none ↦ none
      | some s ↦ some (units "/api/v1/map/stop/aggregated/" ++ s)
    ]
  ]

  unfoldable pub init_map : Page → Page
  init_map p = if not (able request p) then p else elim address [
    | none ↦ p
    | some url ↦ record p { asked = url ∷ p.asked; requests = p.requests + 1 }
  ]

  unfoldable pub step : Page → Event → Page
  step p start = init_map p
  step p (answered a) = elim p.requests [
    | zero ↦ p
    | suc n ↦ answer request a (record p { requests = n })
  ]
  step p (loaded i) = record p { maps = update_at (on_load request p.host) i p.maps }
  step p (marker_done i mono) = record p {
    maps = update_at (on_marker request p.host mono) i p.maps;
  }

  unfoldable pub run : Page → List Event → Page
  run p [] = p
  run p (e ∷ es) = run (step p e) es
