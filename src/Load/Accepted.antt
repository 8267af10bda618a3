-- ===== src/Load/Accepted.antt =====
-- What the map library accepts of the calls of `load`: an id that is new, a source that is there, and texts only on
-- a style with glyphs.
use simply_transport.Common.{
  Text, units, Bool, List, [], ◌∷◌, ◌++◌, map, true, false, ◌≡◌, ◌≢◌, refl, Option, none, some,
  text_eq, All,
}
use simply_transport.Shared.Style.{
  Style, RasterSource, RasterLayer, osm_raster_style, create_osm_raster_style, glyphs_url,
}
use simply_transport.Embed.{MapKind, stop_map, route_map, nearby_map, agency_map, static_stop_map}
use simply_transport.Panel.Agency.Consistent.{Distinct}
use simply_transport.Panel.Stop.Apart.{IsUnmarked}
use simply_transport.Load.{
  Call, add_source, add_layer, LayerType, symbol, Payload, stop_payload, route_payload,
  agency_payload, nearby_payload, static_payload, load, sourced, layer_ids, source_ids,
  load_stop_map, load_route_map, load_agency_map, load_nearby_map, load_static_stop_map,
}
use simply_transport.Load.Sourced.{load-sourced}
use simply_transport.Load.Distinct.{prefixed-osm, are_distinct, are_distinct-Distinct}
use simply_transport.Load.StopIds.{stop_map-layers}
use simply_transport.Load.StopSources.{stop_map-sources}

-- The map on which `load` runs.
abbrev pub kind_of : Payload → MapKind
kind_of (stop_payload has_vehicles routes) = stop_map
kind_of (route_payload has_vehicles id) = route_map
kind_of (agency_payload routes) = agency_map
kind_of (nearby_payload mono) = nearby_map
kind_of static_payload = static_stop_map

-- The layer may have a text, whose font needs the style's glyphs.
abbrev pub HasFont : Option Text → LayerType → Type 0
HasFont none kind = kind ≢ symbol
HasFont (some glyphs) kind = Unit

abbrev pub HaveFonts : Option Text → List Call → Type 0
HaveFonts glyphs [] = Unit
HaveFonts glyphs (add_source id ∷ calls) = HaveFonts glyphs calls
HaveFonts glyphs (add_layer id src kind filter min_zoom ∷ calls) =
    HasFont glyphs kind × HaveFonts glyphs calls

abbrev pub style_sources : Style → List Text
style_sources style = map (λ (s : RasterSource). s.id) style.sources

abbrev pub style_layers : Style → List Text
style_layers style = map (λ (l : RasterLayer). l.id) style.layers

-- On a map with this style, no call is refused.
pub record Accepted (style : Style) (calls : List Call) : Type 0 where
  pub sources_differ : Distinct (style_sources style ++ source_ids calls)
  pub layers_differ : Distinct (style_layers style ++ layer_ids calls)
  pub sources_there : sourced [] calls ≡ true
  pub fonts_there : HaveFonts style.glyphs calls

-- The ids that a payload brings differ, and none is taken for that of another layer.
abbrev pub IsDistinct : Payload → Type 0
IsDistinct (stop_payload has_vehicles routes) = Distinct routes × All IsUnmarked routes
IsDistinct (agency_payload routes) = Distinct routes
IsDistinct _ = Unit

fonts-there : (glyphs : Text) (calls : List Call) → HaveFonts (some glyphs) calls
fonts-there glyphs [] = tt
fonts-there glyphs (add_source id ∷ calls) = fonts-there glyphs calls
fonts-there glyphs (add_layer id src kind filter min_zoom ∷ calls) = (tt, fonts-there glyphs calls)

agency-layer_ids :
    (ids : List Text)
    → layer_ids (load_agency_map ids) ≡ map (λ id. units "agency-route-line-" ++ id) ids
unfolding layer_ids load_agency_map
agency-layer_ids [] = refl
agency-layer_ids (id ∷ ids) = rw (agency-layer_ids ids) refl

agency-source_ids :
    (ids : List Text)
    → source_ids (load_agency_map ids) ≡ map (λ id. units "agency-route-src-" ++ id) ids
unfolding source_ids load_agency_map
agency-source_ids [] = refl
agency-source_ids (id ∷ ids) = rw (agency-source_ids ids) refl

agency-fonts : (ids : List Text) → HaveFonts none (load_agency_map ids)
unfolding load_agency_map
agency-fonts [] = tt
agency-fonts (id ∷ ids) = (λ e. cc, agency-fonts ids)

fixed-Accepted :
    (calls : List Call)
    → are_distinct (units "osm" ∷ source_ids calls) ≡ true
    → are_distinct (units "osm" ∷ layer_ids calls) ≡ true
    → sourced [] calls ≡ true
    → Accepted (create_osm_raster_style none) calls
unfolding create_osm_raster_style
fixed-Accepted calls h k l = record {
  sources_differ = are_distinct-Distinct _ h;
  layers_differ = are_distinct-Distinct _ k;
  sources_there = l;
  fonts_there = fonts-there glyphs_url calls;
}

route_sources :
    (b : Bool) (id : Text) → are_distinct (units "osm" ∷ source_ids (load_route_map b id)) ≡ true
unfolding are_distinct source_ids load_route_map text_eq units
route_sources true id = refl
route_sources false id = refl

route_layers :
    (b : Bool) (id : Text) → are_distinct (units "osm" ∷ layer_ids (load_route_map b id)) ≡ true
unfolding are_distinct layer_ids load_route_map text_eq units
route_layers true id = refl
route_layers false id = refl

nearby_sources : (b : Bool) → are_distinct (units "osm" ∷ source_ids (load_nearby_map b)) ≡ true
unfolding are_distinct source_ids load_nearby_map text_eq units
nearby_sources true = refl
nearby_sources false = refl

nearby_layers : (b : Bool) → are_distinct (units "osm" ∷ layer_ids (load_nearby_map b)) ≡ true
unfolding are_distinct layer_ids load_nearby_map text_eq units
nearby_layers true = refl
nearby_layers false = refl

static_sources : are_distinct (units "osm" ∷ source_ids load_static_stop_map) ≡ true
unfolding are_distinct source_ids load_static_stop_map text_eq units
static_sources = refl

static_layers : are_distinct (units "osm" ∷ layer_ids load_static_stop_map) ≡ true
unfolding are_distinct layer_ids load_static_stop_map text_eq units
static_layers = refl

-- On each of the five maps, if no route comes twice and on a stop map no route's id begins with `pulse-` or `label-`:
-- the ids of the sources differ from each other and from that of the style's, so do those of the layers, every layer
-- has a source that was added before it, and the style has glyphs if a layer is one of symbols.
pub load-Accepted :
    (payload : Payload)
    → IsDistinct payload
    → Accepted (osm_raster_style (kind_of payload)) (load payload)
unfolding osm_raster_style create_osm_raster_style
load-Accepted (stop_payload has_vehicles routes) (d, us) = record {
  sources_differ = stop_map-sources has_vehicles routes d;
  layers_differ = stop_map-layers has_vehicles routes d us;
  sources_there = load-sourced (stop_payload has_vehicles routes);
  fonts_there = fonts-there glyphs_url (load_stop_map has_vehicles routes);
}
load-Accepted (route_payload has_vehicles id) h =
    fixed-Accepted (load_route_map has_vehicles id) (route_sources has_vehicles id)
      (route_layers has_vehicles id) (load-sourced (route_payload has_vehicles id))
load-Accepted (agency_payload routes) d = record {
  sources_differ =
      rw (agency-source_ids routes)
        (prefixed-osm (units "agency-route-src-") routes (λ id. unfold text_eq units in refl) d);
  layers_differ =
      rw (agency-layer_ids routes)
        (prefixed-osm (units "agency-route-line-") routes (λ id. unfold text_eq units in refl) d);
  sources_there = load-sourced (agency_payload routes);
  fonts_there = agency-fonts routes;
}
load-Accepted (nearby_payload mono) h =
    fixed-Accepted (load_nearby_map mono) (nearby_sources mono) (nearby_layers mono)
      (load-sourced (nearby_payload mono))
load-Accepted static_payload h =
    fixed-Accepted load_static_stop_map static_sources static_layers (load-sourced static_payload)
