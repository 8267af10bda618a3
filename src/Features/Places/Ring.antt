-- ===== src/Features/Places/Ring.antt =====
-- The ring of the circle around the user's place.
use simply_transport.Common.{
  ℕ, zero, suc, ◌+◌, ◌<◌, ◌≤◌, ◌≡◌, refl, ap, ◌∙◌, length, get_elem?, Option, some, arith,
}
use simply_transport.Js.Floats.{Floats}
use simply_transport.Features.Places.{steps_or, ring_point, ring_from, rough_circle_polygon}

module _ (floats : Floats) (lon lat radius : floats.F) (n : ℕ) where
  length-ring_from : (i k : ℕ) → length (ring_from floats lon lat radius n i k) ≡ k
  unfolding ring_from
  length-ring_from i zero = refl
  length-ring_from i (suc k) = ap suc (length-ring_from (suc i) k)

  ring_from-get :
      (i k j : ℕ)
      → j < k
      → get_elem? (ring_from floats lon lat radius n i k) j
        ≡ some (ring_point floats lon lat radius n (i + j))
  unfolding ring_from
  ring_from-get i zero j h = absurd (omega arith)
  ring_from-get i (suc k) zero h =
      ap (λ m. some (ring_point floats lon lat radius n m)) (omega arith)
  ring_from-get i (suc k) (suc j) h =
      ring_from-get (suc i) k j (omega arith)
      ∙ ap (λ m. some (ring_point floats lon lat radius n m)) (omega arith)

-- The ring has one point more than steps, of which there are 64 unless another number than 0 is given; the `j`-th is
-- that after `j` steps; and it ends where it begins if that is so of the points after all steps and none.
pub rough_circle_polygon-points :
    (floats : Floats) (lon lat radius : floats.F) (steps : Option ℕ) (j : ℕ)
    → j ≤ steps_or steps
    → let n = steps_or steps in
      let ring = rough_circle_polygon floats lon lat radius steps in
      (length ring ≡ suc n) × (get_elem? ring j ≡ some (ring_point floats lon lat radius n j))
unfolding rough_circle_polygon
rough_circle_polygon-points floats lon lat radius steps j h =
    let n = steps_or steps in
    (
      length-ring_from floats lon lat radius n 0 (suc n),
      ring_from-get floats lon lat radius n 0 (suc n) j (omega arith)
          ∙ ap (λ m. some (ring_point floats lon lat radius n m)) (omega arith),
    )
