-- ===== src/Ready/Popup.antt =====
-- `whenStopMapPopupReady`: the same wait for `StopMapPopup`, with no listener and a shorter loop.
use simply_transport.Common.{
  ℕ, ◌+◌, ◌≡◌, Bool, true, false, not, Option, none, some, ltb, if◌then◌else◌, arith,
}

pub record PopupWait (S : Type 0) : Type 0 where
  pub popup : Bool  -- `global.StopMapPopup` is there
  pub done : Bool
  pub world : S
  pub queued : Option ℕ  -- the queued `tick`, with its `n`

abbrev pub idle : {S : Type 0} → Bool → S → PopupWait S
idle popup world = record { popup = popup; done = false; world = world; queued = none }

module _ {S : Type 0} (callback : S → S) where
  unfoldable pub invoke : PopupWait S → PopupWait S
  invoke w =
      if w.done
      then w
      else if not w.popup
      then w
      else record w { done = true; world = callback w.world }

  unfoldable pub tick : ℕ → PopupWait S → PopupWait S
  unfolding invoke
  tick n w =
      if w.popup
      then invoke w
      else if ltb 120 (n + 1)
      then w
      else record w { queued = some (n + 1) }

  unfoldable pub when_stop_map_popup_ready : Bool → PopupWait S → PopupWait S
  unfolding invoke
  when_stop_map_popup_ready callable w =
      if not callable then w else if w.popup then invoke w else record w { queued = some 0 }

  -- the queued tick, if there is one
  unfoldable pub run_tick : Option ℕ → PopupWait S → PopupWait S
  unfolding tick
  run_tick none w = w
  run_tick (some n) w = tick n w

  unfoldable pub frame : PopupWait S → PopupWait S
  unfolding run_tick
  frame w = run_tick w.queued (record w { queued = none })

module _ {S : Type 0} (callback : S → S) (s : S) where
  -- The callback has acted once if `done`, and not at all otherwise.
  pub record Once (w : PopupWait S) : Type 0 where
    pub before : w.done ≡ false → w.world ≡ s
    pub after : w.done ≡ true → w.world ≡ callback s

  pub frame-Once : (w : PopupWait S) → Once w → Once (frame callback w)
  unfolding frame
  frame-Once w h = ground arith

  pub start-Once :
      (callable : Bool) (w : PopupWait S)
      → Once w
      → Once (when_stop_map_popup_ready callback callable w)
  unfolding when_stop_map_popup_ready
  start-Once callable w h = ground arith
