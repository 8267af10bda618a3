-- ===== src/Shared/Bearing/Range.antt =====
-- The rotation of a vehicle's icon is an angle in [0, 360).
use simply_transport.Common.{
  ℕ, zero, suc, ◌≡◌, true, false, List, [], ◌∷◌, Option, none, some, length, ltb, leb, ◌-◌,
  Bool-cases, inl, inr,
}
use simply_transport.Js.Floats.{Floats}
use simply_transport.Shared.Bearing.{
  Point, chevron_rotation, bearing_degrees, wrap_degrees, bearing_degrees_clockwise_from_north,
  is_long, first_bearing, drop, bearing_along_line_at_segment_index, best_segment,
  vehicle_icon_rotate_degrees_from_line_string,
}

module _ (floats : Floats) where
  open floats use {
    F, num, add, sub, rem, lt, IsFinite, lt_irrefl, rem_below, rem_sign, rem_shift, shift_finite,
    turn_finite, zero_below,
  }

  -- At least 0 and below 360.
  abbrev pub IsAngle : F → Type 0
  IsAngle d = (lt d (num 0) ≡ false) × (lt d (num 360) ≡ true)

  -- Each segment of the line has a bearing that is a finite number.
  abbrev pub AllFinite : List (Point floats) → Type 0
  AllFinite [] = Unit
  AllFinite (a ∷ []) = Unit
  AllFinite (a ∷ b ∷ rest) =
      IsFinite (bearing_degrees floats a.0 a.1 b.0 b.1) × AllFinite (b ∷ rest)

  wrap-IsAngle : (d : F) → IsFinite d → IsAngle (wrap_degrees floats d)
  unfolding wrap_degrees
  wrap-IsAngle d h = let k = shift_finite d h in (rem_sign _ k (rem_shift d h), rem_below _ k)

  -- What the rotation needs of a bearing.
  abbrev CanTurn : Option F → Type 0
  CanTurn none = Unit
  CanTurn (some d) = IsFinite (sub d (num 90))

  bearing-CanTurn :
      (a b : Point floats)
      → IsFinite (bearing_degrees floats a.0 a.1 b.0 b.1)
      → CanTurn (some (bearing_degrees_clockwise_from_north floats a.0 a.1 b.0 b.1))
  unfolding bearing_degrees_clockwise_from_north
  bearing-CanTurn a b h = turn_finite _ (shift_finite _ h)

  first_bearing-CanTurn :
      (ps : List (Point floats)) → AllFinite ps → CanTurn (first_bearing floats ps)
  unfolding first_bearing
  first_bearing-CanTurn [] h = tt
  first_bearing-CanTurn (a ∷ []) h = tt
  first_bearing-CanTurn (a ∷ b ∷ rest) (h, hs) = elim (Bool-cases (is_long floats a b)) [
    | inl long ↦ rw long (bearing-CanTurn a b h)
    | inr short ↦ rw short (first_bearing-CanTurn (b ∷ rest) hs)
  ]

  drop-AllFinite : (n : ℕ) (ps : List (Point floats)) → AllFinite ps → AllFinite (drop floats n ps)
  drop-AllFinite zero ps h = h
  drop-AllFinite (suc n) [] h = tt
  drop-AllFinite (suc zero) (a ∷ []) h = tt
  drop-AllFinite (suc (suc n)) (a ∷ []) h = tt
  drop-AllFinite (suc n) (a ∷ b ∷ rest) (h, hs) = drop-AllFinite n (b ∷ rest) hs

  along-CanTurn :
      (ps : List (Point floats)) (i : ℕ)
      → AllFinite ps
      → CanTurn (bearing_along_line_at_segment_index floats ps i)
  unfolding bearing_along_line_at_segment_index
  along-CanTurn ps i h = elim (Bool-cases (leb (length ps - 1) i)) [
    | inl out ↦ rw out tt
    | inr inside ↦ rw inside (first_bearing-CanTurn _ (drop-AllFinite i ps h))
  ]

  zero-IsAngle : IsAngle (num 0)
  zero-IsAngle = (lt_irrefl (num 0), zero_below)

  chevron-IsAngle : (o : Option F) → CanTurn o → IsAngle (chevron_rotation floats o)
  unfolding chevron_rotation
  chevron-IsAngle none h = zero-IsAngle
  chevron-IsAngle (some d) h = wrap-IsAngle _ h

-- The rotation of a vehicle's icon is at least 0 and below 360 degrees, wherever the vehicle is, if every
-- segment of the route's line has a bearing that is a finite number.
pub heading-IsAngle :
    (floats : Floats) (coords : List (Point floats)) (lon lat : floats.F)
    → AllFinite floats coords
    → IsAngle floats (vehicle_icon_rotate_degrees_from_line_string floats coords lon lat)
unfolding vehicle_icon_rotate_degrees_from_line_string
heading-IsAngle floats coords lon lat h = elim (Bool-cases (ltb (length coords) 2)) [
  | inl few ↦ rw few (zero-IsAngle floats)
  | inr enough ↦ rw enough (
      chevron-IsAngle floats _ (along-CanTurn floats coords (best_segment floats coords lon lat) h))
]
