-- ===== src/Shared/Pulse/Stops.antt =====
-- The animation paints in every frame until the map is removed, and never after.
use simply_transport.Common.{
  ℕ, ◌+◌, ◌*◌, none, some, ap, text_eq, units, if◌then◌else◌, ◌≤◌, ◌≡◌, refl, Text, true, false,
  List, [], ◌∷◌, ◌++◌, map, append_assoc, sym, ◌∙◌, append-nil, Option, arith, All, All-append,
  Bool-cases, inl, inr,
}
use simply_transport.Shared.Pulse.{
  Paint, circle_opacity, circle_radius, Animation, Event, frame, remove, is_circle, paint_layers,
  tick, start_vehicle_pulse_animation, run,
}

-- Opacities from 0.22 to 0.6, radii from 11 to 21.
abbrev pub InRange : Paint → Type 0
InRange (circle_opacity lid o) = (220000 ≤ o) × (o ≤ 600000)
InRange (circle_radius lid r) = (110000 ≤ r) × (r ≤ 210000)

module _ (layer_type : Text → Option Text) (ids : List Text) where
  -- Those of the ids under which the map has a circle layer.
  abbrev pub circles : List Text → List Text
  circles [] = []
  circles (lid ∷ lids) = elim (layer_type lid) [
    | none ↦ circles lids
    | some type ↦ if text_eq type (units "circle") then lid ∷ circles lids else circles lids
  ]

  -- An opacity of 0.22 and 0.38 of the wave, and a radius of 11 and 10 of the wave, for each layer.
  abbrev pub at_wave : ℕ → List Text → List Paint
  at_wave w [] = []
  at_wave w (lid ∷ lids) =
      circle_opacity lid (220000 + w * 38) ∷ circle_radius lid (110000 + w * 10) ∷ at_wave w lids

  -- What is to be painted for a list of waves.
  unfoldable pub painted : List ℕ → List Paint
  painted [] = []
  painted (w ∷ ws) = at_wave w (circles ids) ++ painted ws

  paint_layers-at_wave :
      (w : ℕ) (lids : List Text) → paint_layers layer_type ids w lids ≡ at_wave w (circles lids)
  unfolding paint_layers
  paint_layers-at_wave w [] = refl
  paint_layers-at_wave w (lid ∷ lids) = go (layer_type lid) (paint_layers-at_wave w lids)
    where
      go :
          (o : Option Text)
          → paint_layers layer_type ids w lids ≡ at_wave w (circles lids)
          → (if is_circle o
                then circle_opacity lid (220000 + w * 38) ∷ circle_radius lid (110000 + w * 10) ∷ []
                else [])
              ++ paint_layers layer_type ids w lids
            ≡ at_wave w (elim o [
              | none ↦ circles lids
              | some type ↦
                  if text_eq type (units "circle") then lid ∷ circles lids else circles lids
            ])
      go none e = e
      go (some type) e = elim (Bool-cases (text_eq type (units "circle"))) [
        | inl circle ↦ rw (circle, e) refl
        | inr differs ↦ rw (differs, e) refl
      ]

  -- Once no frame is queued, nothing is painted.
  run-stopped :
      (a : Animation) (es : List Event)
      → a.queued ≡ false
      → a.remove_listener ≡ false
      → (run layer_type ids a es).calls ≡ a.calls
  unfolding run
  run-stopped a [] q l = refl
  run-stopped a (frame w ∷ es) q l = simp q (run-stopped a es q l)
  run-stopped a (remove ∷ es) q l = simp l (run-stopped a es q l)

  run-frames :
      (a : Animation) (ws : List ℕ) (es : List Event)
      → a.queued ≡ true
      → a.remove_listener ≡ true
      → (run layer_type ids a (map frame ws ++ remove ∷ es)).calls ≡ a.calls ++ painted ws
  unfolding run painted tick
  run-frames a [] es q l = rw l (
      run-stopped (record a { queued = false; remove_listener = false }) es refl refl
      ∙ sym (append-nil a.calls))
  run-frames a (w ∷ ws) es q l = rw q (
      run-frames (tick layer_type ids w a) ws es refl l
      ∙ append_assoc a.calls (paint_layers layer_type ids w ids) (painted ws)
      ∙ ap (λ ps. a.calls ++ (ps ++ painted ws)) (paint_layers-at_wave w ids))

  at_wave-InRange : (w : ℕ) (lids : List Text) → w ≤ 10000 → All InRange (at_wave w lids)
  at_wave-InRange w [] h = tt
  at_wave-InRange w (lid ∷ lids) h =
      ((omega arith, omega arith), ((omega arith, omega arith), at_wave-InRange w lids h))

  painted-InRange : (ws : List ℕ) → All (λ w. w ≤ 10000) ws → All InRange (painted ws)
  unfolding painted
  painted-InRange [] h = tt
  painted-InRange (w ∷ ws) (h, hs) =
      All-append InRange (at_wave w (circles ids)) (painted ws) (at_wave-InRange w (circles ids) h)
        (painted-InRange ws hs)

-- With frames of the waves `ws` before the map is removed, and whatever comes after: the animation has
-- painted exactly the circle layers among its ids, each once for each of these waves, in their order, with an
-- opacity of 0.22 and 0.38 of the wave and a radius of 11 and 10 of the wave, and nothing after; and with waves
-- between 0 and 1 the opacities are from 0.22 to 0.6 and the radii from 11 to 21.
pub animation_paints_until_removed :
    (layer_type : Text → Option Text) (ids : List Text) (ws : List ℕ) (es : List Event)
    → All (λ w. w ≤ 10000) ws
    → let calls =
        (run layer_type ids
          (start_vehicle_pulse_animation layer_type ids)
          (map frame ws ++ remove ∷ es)).calls in
      (calls ≡ painted layer_type ids ws) × All InRange calls
unfolding start_vehicle_pulse_animation
animation_paints_until_removed layer_type ids ws es h =
    let e =
      run-frames layer_type ids (record { queued = true; remove_listener = true; calls = [] }) ws es
        refl refl in
    (e, rw e (painted-InRange layer_type ids ws h))
