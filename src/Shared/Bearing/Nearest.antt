-- ===== src/Shared/Bearing/Nearest.antt =====
-- The segment whose bearing a vehicle takes is a nearest one.
use mathlib.Core.Path.{subst}
use simply_transport.Common.{
  ℕ, suc, ◌+◌, ◌≤◌, ◌≡◌, refl, sym, true, false, List, [], ◌∷◌, some, length, get_elem?, All, arith,
  Bool-cases, inl, inr, ◌⊎◌,
}
use simply_transport.Js.Floats.{Floats}
use simply_transport.Shared.Bearing.{
  Point, radians, segment_distances, nearest_segment, best_segment,
}

module _ (floats : Floats) where
  open floats use {F, infinity, lt, lt_irrefl, lt_trans, lt_infinity, mul, cos}

  -- No distance of the list is below `d`.
  abbrev pub NoneBelow : F → List F → Type 0
  NoneBelow d = All (λ e. lt e d ≡ false)

  -- How the loop ends: it kept what it had, or it took the distance at `i + at`.
  record Found (ds : List F) (i : ℕ) (best_d : F) (r : ℕ) : Type 0 where
    at : ℕ
    dist : F
    place : r ≡ i + at
    there : get_elem? ds at ≡ some dist
    better : lt dist best_d ≡ true
    least : NoneBelow dist ds

  abbrev Ends : List F → ℕ → ℕ → F → ℕ → Type 0
  Ends ds i best_i best_d r = ((r ≡ best_i) × NoneBelow best_d ds) ⊎ Found ds i best_d r

  lt_asymm : (a b : F) → lt a b ≡ true → lt b a ≡ false
  lt_asymm a b h = elim (Bool-cases (lt b a)) [
    | inl k ↦ let l = lt_irrefl a in let m = lt_trans a b a h k in absurd (cc)
    | inr k ↦ k
  ]

  not-lt_of_lt : (a b c : F) → lt a c ≡ false → lt b c ≡ true → lt a b ≡ false
  not-lt_of_lt a b c h k = elim (Bool-cases (lt a b)) [
    | inl l ↦ let m = lt_trans a b c l k in absurd (cc)
    | inr l ↦ l
  ]

  Ends-take :
      (dsq : F) (ds : List F) (i best_i : ℕ) (best_d : F) (r : ℕ)
      → lt dsq best_d ≡ true
      → Ends ds (i + 1) i dsq r
      → Ends (dsq ∷ ds) i best_i best_d r
  Ends-take dsq ds i best_i best_d r h (inl (e, least)) = inr (record {
    at = 0;
    dist = dsq;
    place = omega arith;
    there = refl;
    better = h;
    least = (lt_irrefl dsq, least);
  })
  Ends-take dsq ds i best_i best_d r h (inr f) = inr (record {
    at = suc f.at;
    dist = f.dist;
    place = omega (arith, f.place);
    there = f.there;
    better = lt_trans f.dist dsq best_d f.better h;
    least = (lt_asymm f.dist dsq f.better, f.least);
  })

  Ends-skip :
      (dsq : F) (ds : List F) (i best_i : ℕ) (best_d : F) (r : ℕ)
      → lt dsq best_d ≡ false
      → Ends ds (i + 1) best_i best_d r
      → Ends (dsq ∷ ds) i best_i best_d r
  Ends-skip dsq ds i best_i best_d r h (inl (e, least)) = inl (e, (h, least))
  Ends-skip dsq ds i best_i best_d r h (inr f) = inr (record {
    at = suc f.at;
    dist = f.dist;
    place = omega (arith, f.place);
    there = f.there;
    better = f.better;
    least = (not-lt_of_lt dsq f.dist best_d h f.better, f.least);
  })

  nearest_take :
      (dsq : F) (ds : List F) (i best_i : ℕ) (best_d : F)
      → lt dsq best_d ≡ true
      → nearest_segment floats (dsq ∷ ds) i best_i best_d ≡ nearest_segment floats ds (i + 1) i dsq
  unfolding nearest_segment
  nearest_take dsq ds i best_i best_d h = rw h refl

  nearest_skip :
      (dsq : F) (ds : List F) (i best_i : ℕ) (best_d : F)
      → lt dsq best_d ≡ false
      → nearest_segment floats (dsq ∷ ds) i best_i best_d
        ≡ nearest_segment floats ds (i + 1) best_i best_d
  unfolding nearest_segment
  nearest_skip dsq ds i best_i best_d h = rw h refl

  nearest_segment-Ends :
      (ds : List F) (i best_i : ℕ) (best_d : F)
      → Ends ds i best_i best_d (nearest_segment floats ds i best_i best_d)
  nearest_segment-Ends [] i best_i best_d = inl (unfold nearest_segment in refl, tt)
  nearest_segment-Ends (dsq ∷ ds) i best_i best_d = elim (Bool-cases (lt dsq best_d)) [
    | inl h ↦
        subst (Ends (dsq ∷ ds) i best_i best_d) (sym (nearest_take dsq ds i best_i best_d h))
          (Ends-take dsq ds i best_i best_d _ h (nearest_segment-Ends ds (i + 1) i dsq))
    | inr h ↦
        subst (Ends (dsq ∷ ds) i best_i best_d) (sym (nearest_skip dsq ds i best_i best_d h))
          (Ends-skip dsq ds i best_i best_d _ h (nearest_segment-Ends ds (i + 1) best_i best_d))
  ]

  -- With no distance below Infinity, none is below the first.
  first-NoneBelow : (d : F) (es : List F) → NoneBelow infinity es → NoneBelow d es
  first-NoneBelow d [] h = tt
  first-NoneBelow d (e ∷ es) (h, hs) = (below, first-NoneBelow d es hs)
    where
      below : lt e d ≡ false
      below = elim (Bool-cases (lt e d)) [
        | inl k ↦ let l = lt_infinity e d k in absurd (cc)
        | inr k ↦ k
      ]

  -- The index is one of the list, and no distance is below the one it names.
  pub record IsNearest (ds : List F) (r : ℕ) : Type 0 where
    pub dist : F
    pub there : get_elem? ds r ≡ some dist
    pub least : NoneBelow dist ds

  nearest_segment-IsNearest :
      (d : F) (ds : List F) → IsNearest (d ∷ ds) (nearest_segment floats (d ∷ ds) 0 0 infinity)
  nearest_segment-IsNearest d ds = elim (nearest_segment-Ends (d ∷ ds) 0 0 infinity) [
    | inl (e, least) ↦ record {
      dist = d;
      there = rw e refl;
      least = first-NoneBelow d (d ∷ ds) least;
    }
    | inr f ↦
        let e : nearest_segment floats (d ∷ ds) 0 0 infinity ≡ f.at = omega (arith, f.place) in
        record { dist = f.dist; there = rw e f.there; least = f.least }
  ]

-- On a line of two points or more, the segment that the search picks is one of the line's, and no segment
-- is closer to the vehicle, also where distances are NaN or infinite.
pub best_segment-IsNearest :
    (floats : Floats) (coords : List (Point floats)) (lon lat : floats.F)
    → 2 ≤ length coords
    → let k = floats.cos (radians floats lat) in
      IsNearest floats
        (segment_distances floats k (floats.mul lon k) lat coords)
        (best_segment floats coords lon lat)
unfolding best_segment segment_distances
best_segment-IsNearest floats [] lon lat h = absurd (omega arith)
best_segment-IsNearest floats (a ∷ []) lon lat h = absurd (omega arith)
best_segment-IsNearest floats (a ∷ b ∷ rest) lon lat h = nearest_segment-IsNearest floats _ _
