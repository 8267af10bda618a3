-- ===== src/Ready/Library/Once.antt =====
-- The callback runs at most once, only with the library there, and by the `load` event at the latest.
use simply_transport.Common.{
  ℕ, ◌≡◌, refl, Bool, true, false, List, [], ◌∷◌, ◌++◌, ◌⊎◌, arith, ap, All, ◌≢◌,
}
use simply_transport.Ready.Library.{
  Wait, Event, library_is, parsed, loaded, frame, fresh, invoke, tick, when_map_libre_ready,
  run_ticks, step, run,
}

module _ {S : Type 0} (callback : S → S) (P Q : S → Type 0)
    (acts : (s : S) → P s → Q (callback s)) where
  -- `P` holds of the world until the callback has run, and `Q` from then on.
  pub record Gate (w : Wait S) : Type 0 where
    pub before : w.done ≡ false → P w.world
    pub after : w.done ≡ true → Q w.world

  invoke-Gate : (w : Wait S) → Gate w → Gate (invoke callback w)
  unfolding invoke
  invoke-Gate w g = ground (arith, acts w.world)

  tick-Gate : (n : ℕ) (w : Wait S) → Gate w → Gate (tick callback n w)
  unfolding tick
  tick-Gate n w g = ground (arith, acts w.world)

  run_ticks-Gate : (ns : List ℕ) (w : Wait S) → Gate w → Gate (run_ticks callback ns w)
  unfolding run_ticks
  run_ticks-Gate [] w g = g
  run_ticks-Gate (n ∷ ns) w g = run_ticks-Gate ns (tick callback n w) (tick-Gate n w g)

  pub step-Gate : (w : Wait S) (e : Event) → Gate w → Gate (step callback w e)
  unfolding step
  step-Gate w (library_is b) g = ground arith
  step-Gate w parsed g = ground (arith, acts w.world)
  step-Gate w loaded g = ground (arith, acts w.world)
  step-Gate w frame g =
      run_ticks-Gate w.ticks (record w { ticks = [] })
        (record { before = g.before; after = g.after })

  pub start-Gate :
      (callable loading : Bool) (w : Wait S)
      → Gate w
      → Gate (when_map_libre_ready callback callable loading w)
  unfolding when_map_libre_ready
  start-Gate callable loading w g = ground (arith, acts w.world)

  pub run-Gate : (w : Wait S) (es : List Event) → Gate w → Gate (run callback w es)
  unfolding run
  run-Gate w [] g = g
  run-Gate w (e ∷ es) g = run-Gate (step callback w e) es (step-Gate w e g)

-- Whatever happens on the page, the callback of one call acts at most once on the state `s`, and
-- `done` tells whether it has.
pub called_once :
    {S : Type 0} (callback : S → S) (callable loading library : Bool) (s : S) (es : List Event)
    → let w = run callback (when_map_libre_ready callback callable loading (fresh library s)) es in
      (w.done ≡ false → w.world ≡ s) × (w.done ≡ true → w.world ≡ callback s)
called_once callback callable loading library s es =
    let start = fresh library s in
    let gate : Gate callback (λ t. t ≡ s) (λ t. t ≡ callback s) (λ t e. ap callback e) start =
      record { before = λ e. refl; after = λ e. cc } in
    let g =
      run-Gate callback (λ t. t ≡ s) (λ t. t ≡ callback s) (λ t e. ap callback e) _ es
        (start-Gate callback _ _ _ callable loading start gate) in
    (g.before, g.after)

module _ {S : Type 0} (callback : S → S) where
  -- What one call keeps for the `load` event.
  abbrev pub Pending : Wait S → Type 0
  Pending w = (w.done ≡ true) ⊎ (w.load_listener ≡ true)

  tick-Pending : (n : ℕ) (w : Wait S) → Pending w → Pending (tick callback n w)
  unfolding tick
  tick-Pending n w p = ground arith

  run_ticks-Pending : (ns : List ℕ) (w : Wait S) → Pending w → Pending (run_ticks callback ns w)
  unfolding run_ticks
  run_ticks-Pending [] w p = p
  run_ticks-Pending (n ∷ ns) w p = run_ticks-Pending ns (tick callback n w) (tick-Pending n w p)

  pub step-Pending : (w : Wait S) (e : Event) → Pending w → Pending (step callback w e)
  unfolding step
  step-Pending w (library_is b) p = p
  step-Pending w parsed p = ground arith
  step-Pending w loaded p = ground arith
  step-Pending w frame p = run_ticks-Pending w.ticks (record w { ticks = [] }) p

  run-Pending : (w : Wait S) (es : List Event) → Pending w → Pending (run callback w es)
  unfolding run
  run-Pending w [] p = p
  run-Pending w (e ∷ es) p = run-Pending (step callback w e) es (step-Pending w e p)

  pub start-Pending :
      (loading : Bool) (w : Wait S) → Pending (when_map_libre_ready callback true loading w)
  unfolding when_map_libre_ready
  start-Pending loading w = ground arith

  pub run-append :
      (w : Wait S) (es fs : List Event)
      → run callback w (es ++ fs) ≡ run callback (run callback w es) fs
  unfolding run
  run-append w [] fs = refl
  run-append w (e ∷ es) fs = run-append (step callback w e) es fs

  pub load_settles :
      (w : Wait S) → Pending w → (run callback w (library_is true ∷ loaded ∷ [])).done ≡ true
  unfolding run
  load_settles w p = ground arith

-- If the library is there when the `load` event fires, the callback has then acted exactly once,
-- whatever happened before, also where the document was still loading at the call.
pub called_by_load :
    {S : Type 0} (callback : S → S) (loading library : Bool) (s : S) (es : List Event)
    → (run callback
        (when_map_libre_ready callback true loading (fresh library s))
        (es ++ library_is true ∷ loaded ∷ [])).world
      ≡ callback s
called_by_load callback loading library s es =
    let w = when_map_libre_ready callback true loading (fresh library s) in
    let last = library_is true ∷ loaded ∷ [] in
    (called_once callback true loading library s (es ++ last)).1 (
      rw (run-append callback w es last) (
        load_settles callback (run callback w es)
          (run-Pending callback w es (start-Pending callback loading (fresh library s)))))

module _ {S : Type 0} (callback : S → S) where
  -- Without the library nothing is called.
  abbrev Idle : S → Wait S → Type 0
  Idle s w = (w.library ≡ false) × (w.world ≡ s)

  tick-Idle : (s : S) (n : ℕ) (w : Wait S) → Idle s w → Idle s (tick callback n w)
  unfolding tick
  tick-Idle s n w h = ground arith

  run_ticks-Idle : (s : S) (ns : List ℕ) (w : Wait S) → Idle s w → Idle s (run_ticks callback ns w)
  unfolding run_ticks
  run_ticks-Idle s [] w h = h
  run_ticks-Idle s (n ∷ ns) w h = run_ticks-Idle s ns (tick callback n w) (tick-Idle s n w h)

  step-Idle :
      (s : S) (w : Wait S) (e : Event) → e ≢ library_is true → Idle s w → Idle s (step callback w e)
  unfolding step
  step-Idle s w (library_is true) h i = absurd (h refl)
  step-Idle s w (library_is false) h i = (refl, i.1)
  step-Idle s w parsed h i = ground arith
  step-Idle s w loaded h i = ground arith
  step-Idle s w frame h i = run_ticks-Idle s w.ticks (record w { ticks = [] }) i

  run-Idle :
      (s : S) (w : Wait S) (es : List Event)
      → All (λ e. e ≢ library_is true) es
      → Idle s w
      → Idle s (run callback w es)
  unfolding run
  run-Idle s w [] h i = i
  run-Idle s w (e ∷ es) (h, hs) i = run-Idle s (step callback w e) es hs (step-Idle s w e h i)

  start-Idle :
      (s : S) (callable loading : Bool)
      → Idle s (when_map_libre_ready callback callable loading (fresh false s))
  unfolding when_map_libre_ready
  start-Idle s callable loading = ground arith

-- As long as the library is missing, the callback does not act, whatever else happens.
pub uncalled_without_library :
    {S : Type 0} (callback : S → S) (callable loading : Bool) (s : S) (es : List Event)
    → All (λ e. e ≢ library_is true) es
    → (run callback (when_map_libre_ready callback callable loading (fresh false s)) es).world ≡ s
uncalled_without_library callback callable loading s es h =
    (run-Idle callback s _ es h (start-Idle callback s callable loading)).1
