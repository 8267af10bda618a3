-- ===== src/Shared/Style.antt =====
-- `createOsmRasterStyle`, `addDefaultMapControls`, and the styles that the five map scripts make of the former.
use simply_transport.Common.{
  ℕ, Text, units, Bool, true, false, not, List, [], ◌∷◌, ◌++◌, if◌then◌else◌, Option, none, some,
}
use simply_transport.Embed.{MapKind, agency_map}

-- The source of the tiles.
pub record RasterSource : Type 0 where
  pub id : Text
  pub tiles : List Text
  pub tile_size : ℕ
  pub attribution : Text

-- The layer of the tiles.
pub record RasterLayer : Type 0 where
  pub id : Text
  pub source : Text
  pub minzoom : ℕ
  pub maxzoom : ℕ

pub record Style : Type 0 where
  pub version : ℕ
  pub sources : List RasterSource
  pub layers : List RasterLayer
  pub glyphs : Option Text

abbrev pub glyphs_url : Text
glyphs_url = units "https://demotiles.maplibre.org/font/{fontstack}/{range}.pbf"

-- `!opts || opts.includeGlyphs !== false`: without options, or with options without the field, it is true.
abbrev pub include_glyphs : Option (Option Bool) → Bool
include_glyphs (some (some false)) = false
include_glyphs _ = true

unfoldable pub create_osm_raster_style : Option (Option Bool) → Style
create_osm_raster_style opts = record {
  version = 8;
  sources =
      record {
        id = units "osm";
        tiles = units "https://tile.openstreetmap.org/{z}/{x}/{y}.png" ∷ [];
        tile_size = 256;
        attribution =
            units
              "&copy; <a href=\"https://www.openstreetmap.org/copyright\">OpenStreetMap</a> contributors";
      }
      ∷ [];
  layers = record { id = units "osm"; source = units "osm"; minzoom = 0; maxzoom = 19 } ∷ [];
  glyphs = if include_glyphs opts then some glyphs_url else none;
}

-- The `OSM_RASTER_STYLE` of each script.
unfoldable pub osm_raster_style : MapKind → Style
osm_raster_style agency_map = create_osm_raster_style (some (some false))
osm_raster_style _ = create_osm_raster_style none

pub data Control : Type 0 where
  navigation fullscreen : Control

-- The controls of a map, each with its corner. `library` tells whether `getMaplibre()` finds the library.
unfoldable pub add_default_map_controls : Bool → List (Control × Text) → List (Control × Text)
add_default_map_controls library controls =
    if not library
    then controls
    else controls ++ (navigation, units "top-left") ∷ (fullscreen, units "top-left") ∷ []
