-- ===== src/Features/Places.antt =====
-- The features of stops on the route map, the nearby map and the static maps, and the circle around the user's place
-- on the nearby map.
pub mod Ring
use simply_transport.Common.{
  ℕ, zero, suc, ◌+◌, Text, List, [], ◌∷◌, map, if◌then◌else◌, Option, none, some,
}
use simply_transport.Js.Values.{Field, str, truthy}
use simply_transport.Js.Floats.{Floats}
use simply_transport.Popup.Builders.{MapStop}

-- A stop's feature, without the focus that stop-map.js and route-map.js have.
pub record PlaceFeature (F : Type 0) : Type 0 where
  pub lon : F
  pub lat : F
  pub stop_id : Text
  pub stop_code : Field

unfoldable pub place_feature : {F : Type 0} → MapStop F → PlaceFeature F
place_feature s = record {
  lon = s.lon;
  lat = s.lat;
  stop_id = s.stop_id;
  stop_code = if truthy s.code then s.code else str s.stop_id;
}

-- `stopsGeojson`
abbrev pub stops_geojson : {F : Type 0} → List (MapStop F) → List (PlaceFeature F)
stops_geojson stops = map place_feature stops

-- `steps || 64`
abbrev pub steps_or : Option ℕ → ℕ
steps_or none = 64
steps_or (some zero) = 64
steps_or (some (suc n)) = suc n

module _ (floats : Floats) where
  open floats use {F, num, add, mul, div, sin, cos, pi}

  -- The point after `i` of `n` steps around the place, as longitude and latitude.
  unfoldable pub ring_point : F → F → F → ℕ → ℕ → F × F
  ring_point lon lat radius n i =
      let ang = mul (mul (div (num i) (num n)) (num 2)) pi in
      let dx = div (div (mul radius (sin ang)) (num 111320)) (cos (div (mul lat pi) (num 180))) in
      let dy = div (mul radius (cos ang)) (num 110540) in (add lon dx, add lat dy)

  -- The rounds of the loop from `i` on, of which `k` are left.
  unfoldable pub ring_from : F → F → F → ℕ → ℕ → ℕ → List (F × F)
  ring_from lon lat radius n i zero = []
  ring_from lon lat radius n i (suc k) =
      ring_point lon lat radius n i ∷ ring_from lon lat radius n (suc i) k

  -- The one ring of the polygon.
  unfoldable pub rough_circle_polygon : F → F → F → Option ℕ → List (F × F)
  rough_circle_polygon lon lat radius steps =
      let n = steps_or steps in ring_from lon lat radius n 0 (suc n)
