-- ===== src/Shared/Pulse.antt =====
-- `vehiclePulseIsActive` and `startVehiclePulseAnimation`.
pub mod Stops
use simply_transport.Common.{
  ℕ, ◌+◌, ◌-◌, ◌*◌, ◌<◌, ◌≡◌, ◌↔◌, refl, Text, units, Bool, true, false, List, [], ◌∷◌, ◌++◌,
  if◌then◌else◌, Option, none, some, ltb, arith, text_eq, Option-cases, Bool-cases, inl, inr,
}
use simply_transport.Js.Values.{Field, truthy, to_string}
use simply_transport.Popup.Dates.{Dates}

abbrev pub vehicle_pulse_max_age_ms : ℕ
vehicle_pulse_max_age_ms = 180000

-- `Date.now() - ms` is below the age also where `ms` lies ahead; the truncated difference is 0 there.
unfoldable pub is_fresh : ℕ → Option ℕ → Bool
is_fresh now none = false
is_fresh now (some ms) = ltb (now - ms) vehicle_pulse_max_age_ms

unfoldable pub vehicle_pulse_is_active : Dates → Field → Bool
unfolding is_fresh
vehicle_pulse_is_active d time_of_update =
    if truthy time_of_update then is_fresh d.now (d.parse (to_string time_of_update)) else false

-- A vehicle pulses exactly if its time of update is given and readable, and is less than three minutes
-- old or lies ahead.
pub pulse_active_iff :
    (d : Dates) (time : Field)
    → (vehicle_pulse_is_active d time ≡ true) ↔ (
        (truthy time ≡ true)
        × (ms : ℕ) × (d.parse (to_string time) ≡ some ms)
        × (d.now < ms + 180000))
unfolding vehicle_pulse_is_active
pulse_active_iff d time = (to, λ h. rw (h.0, h.2) (ground arith))
  where
    to :
        vehicle_pulse_is_active d time ≡ true
        → (truthy time ≡ true)
          × (ms : ℕ) × (d.parse (to_string time) ≡ some ms)
          × (d.now < ms + 180000)
    to h = elim (Option-cases (d.parse (to_string time))) [
      | inl e ↦ absurd (ground arith)
      | inr (ms, e) ↦ (ground arith, ms, e, ground arith)
    ]

-- The calls of `setPaintProperty`: the opacity in millionths, the radius in ten-thousandths.
pub data Paint : Type 0 where
  circle_opacity circle_radius : Text → ℕ → Paint

-- The loop over frames of one map, with the calls made so far.
pub record Animation : Type 0 where
  pub queued : Bool  -- `raf` names a frame to come
  pub remove_listener : Bool
  pub calls : List Paint

-- A frame comes with the value of `wave`, in ten-thousandths; `remove` is the map's event.
pub data Event : Type 0 where
  frame : ℕ → Event
  remove : Event

-- `0.22 + wave * 0.38` and `11 + wave * 10`
abbrev pub opacity : ℕ → ℕ
opacity wave = 220000 + wave * 38

abbrev pub radius : ℕ → ℕ
radius wave = 110000 + wave * 10

-- `layer && layer.type === "circle"`
abbrev pub is_circle : Option Text → Bool
is_circle none = false
is_circle (some type) = text_eq type (units "circle")

-- `layer_type`: what `getLayer` has as the type of an id's layer; `ids`: the pulse layers.
module _ (layer_type : Text → Option Text) (ids : List Text) where
  unfoldable pub paint_layers : ℕ → List Text → List Paint
  paint_layers wave [] = []
  paint_layers wave (lid ∷ lids) =
      (if is_circle (layer_type lid)
        then circle_opacity lid (opacity wave) ∷ circle_radius lid (radius wave) ∷ []
        else [])
      ++ paint_layers wave lids

  unfoldable pub tick : ℕ → Animation → Animation
  unfolding paint_layers
  tick wave a = record a { queued = true; calls = a.calls ++ paint_layers wave ids }

  unfoldable pub start_vehicle_pulse_animation : Animation
  start_vehicle_pulse_animation = record { queued = true; remove_listener = true; calls = [] }

  unfoldable pub step : Animation → Event → Animation
  unfolding tick
  step a (frame wave) = if a.queued then tick wave a else a
  step a remove =
      if a.remove_listener then record a { queued = false; remove_listener = false } else a

  unfoldable pub run : Animation → List Event → Animation
  unfolding step
  run a [] = a
  run a (e ∷ es) = run (step a e) es
