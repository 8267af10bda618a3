-- ===== src/Shared/Bearing.antt =====
-- `bearingDegreesClockwiseFromNorth`, `distanceSqPointToSegmentPlanar`,
-- `bearingAlongLineAtSegmentIndex` and `vehicleIconRotateDegreesFromLineString`.
pub mod Nearest
pub mod Range
use simply_transport.Common.{
  ℕ, zero, suc, ◌+◌, ◌-◌, Bool, List, [], ◌∷◌, if◌then◌else◌, Option, none, some, length, leb, ltb,
}
use simply_transport.Js.Floats.{Floats}

module _ (floats : Floats) where
  open floats use {
    F, num, tiny, pi, infinity, add, sub, mul, div, rem, lt, min, max, sin, cos, atan2,
  }

  -- `[lon, lat]`
  abbrev pub Point : Type 0
  Point = F × F

  abbrev pub radians : F → F
  radians x = div (mul x pi) (num 180)

  -- The angle of the great circle, in degrees, before it is brought into [0, 360).
  unfoldable pub bearing_degrees : F → F → F → F → F
  bearing_degrees lon1 lat1 lon2 lat2 =
      let φ1 = radians lat1 in
      let φ2 = radians lat2 in
      let Δλ = radians (sub lon2 lon1) in
      let y = mul (sin Δλ) (cos φ2) in
      let x = sub (mul (cos φ1) (sin φ2)) (mul (mul (sin φ1) (cos φ2)) (cos Δλ)) in
      let θ = atan2 y x in div (mul θ (num 180)) pi

  -- `((deg % 360) + 360) % 360`
  unfoldable pub wrap_degrees : F → F
  wrap_degrees deg = rem (add (rem deg (num 360)) (num 360)) (num 360)

  unfoldable pub bearing_degrees_clockwise_from_north : F → F → F → F → F
  unfolding bearing_degrees wrap_degrees
  bearing_degrees_clockwise_from_north lon1 lat1 lon2 lat2 =
      wrap_degrees (bearing_degrees lon1 lat1 lon2 lat2)

  unfoldable pub distance_sq_point_to_segment_planar : F → F → F → F → F → F → F
  distance_sq_point_to_segment_planar px py ax ay bx by =
      let abx = sub bx ax in
      let aby = sub by ay in
      let apx = sub px ax in
      let apy = sub py ay in
      let ab_len_sq = add (mul abx abx) (mul aby aby) in
      let t = max (num 0) (min (num 1) (div (add (mul apx abx) (mul apy aby)) ab_len_sq)) in
      let cx = add ax (mul t abx) in
      let cy = add ay (mul t aby) in
      if lt ab_len_sq (tiny 22)
      then add (mul (sub px ax) (sub px ax)) (mul (sub py ay) (sub py ay))
      else add (mul (sub px cx) (sub px cx)) (mul (sub py cy) (sub py cy))

  -- `dl * dl + dφ * dφ > 1e-20`
  unfoldable pub is_long : Point → Point → Bool
  is_long (ax, ay) (bx, by) =
      lt (tiny 20) (add (mul (sub ax bx) (sub ax bx)) (mul (sub ay by) (sub ay by)))

  -- The loop over the segments of the points that are left.
  unfoldable pub first_bearing : List Point → Option F
  first_bearing [] = none
  first_bearing (a ∷ []) = none
  first_bearing (a ∷ b ∷ rest) =
      let later = first_bearing (b ∷ rest) in
      if is_long a b then some (bearing_degrees_clockwise_from_north a.0 a.1 b.0 b.1) else later

  abbrev pub drop : ℕ → List Point → List Point
  drop zero ps = ps
  drop (suc n) [] = []
  drop (suc n) (p ∷ ps) = drop n ps

  -- The index is a list position, so it is not negative.
  unfoldable pub bearing_along_line_at_segment_index : List Point → ℕ → Option F
  unfolding first_bearing
  bearing_along_line_at_segment_index coords seg_index =
      if leb (length coords - 1) seg_index then none else first_bearing (drop seg_index coords)

  -- The square distance of the vehicle from each segment, longitudes scaled by `k`.
  unfoldable pub segment_distances : F → F → F → List Point → List F
  segment_distances k px py [] = []
  segment_distances k px py (a ∷ []) = []
  segment_distances k px py (a ∷ b ∷ rest) =
      distance_sq_point_to_segment_planar px py (mul a.0 k) a.1 (mul b.0 k) b.1
      ∷ segment_distances k px py (b ∷ rest)

  -- The loop for the nearest segment: index, best index and best distance so far.
  unfoldable pub nearest_segment : List F → ℕ → ℕ → F → ℕ
  nearest_segment [] i best_i best_d = best_i
  nearest_segment (dsq ∷ ds) i best_i best_d =
      nearest_segment ds (i + 1) (if lt dsq best_d then i else best_i)
        (if lt dsq best_d then dsq else best_d)

  -- `cos` of the vehicle's latitude scales longitudes.
  unfoldable pub best_segment : List Point → F → F → ℕ
  unfolding segment_distances nearest_segment
  best_segment coordinates lon lat =
      let k = cos (radians lat) in
      nearest_segment (segment_distances k (mul lon k) lat coordinates) 0 0 infinity

  -- The chevron points east, 90° from north; without a bearing it is not turned.
  unfoldable pub chevron_rotation : Option F → F
  chevron_rotation none = num 0
  chevron_rotation (some bearing_north) = wrap_degrees (sub bearing_north (num 90))

  -- A missing line is the empty one.
  unfoldable pub vehicle_icon_rotate_degrees_from_line_string : List Point → F → F → F
  vehicle_icon_rotate_degrees_from_line_string coordinates lon lat =
      let best_i = best_segment coordinates lon lat in
      let rotated = chevron_rotation (bearing_along_line_at_segment_index coordinates best_i) in
      if ltb (length coordinates) 2 then num 0 else rotated
