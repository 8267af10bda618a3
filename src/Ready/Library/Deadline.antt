-- ===== src/Ready/Library/Deadline.antt =====
-- How long the frame loop waits: the library may come as late as after the 300th frame.
use simply_transport.Common.{
  ℕ, zero, suc, ◌+◌, ◌≤◌, ◌<◌, ◌≡◌, refl, true, false, List, [], ◌∷◌, ◌++◌, ◌≢◌, replicate, All,
  arith,
}
use simply_transport.Ready.Library.{
  Wait, Event, library_is, parsed, loaded, frame, fresh, when_map_libre_ready, run_ticks, step, run,
}
use simply_transport.Ready.Library.Once.{run-append}

module _ {S : Type 0} (callback : S → S) (s : S) where
  -- One tick is queued, at count `n`, and the library is missing.
  abbrev Waits : ℕ → Wait S → Type 0
  Waits n w = (w.library ≡ false) × (w.done ≡ false) × (w.world ≡ s) × (w.ticks ≡ n ∷ [])

  -- No tick is queued, and the callback has not run.
  abbrev Quiet : Wait S → Type 0
  Quiet w = (w.done ≡ false) × (w.world ≡ s) × (w.ticks ≡ [])

  frame-Waits : (n : ℕ) (w : Wait S) → n < 300 → Waits n w → Waits (n + 1) (step callback w frame)
  unfolding step
  frame-Waits n w h (l, d, u, t) = rw (t, run_ticks) (ground arith)

  frames-Waits :
      (k n : ℕ) (w : Wait S)
      → n + k ≤ 300
      → Waits n w
      → Waits (n + k) (run callback w (replicate k frame))
  unfolding run
  frames-Waits zero n w h i = let e : n + zero ≡ n = omega arith in rw e i
  frames-Waits (suc k) n w h i =
      let e : n + suc k ≡ n + 1 + k = omega arith in
      rw e (
        frames-Waits k (n + 1) (step callback w frame) (omega arith)
          (frame-Waits n w (omega arith) i))

  frame-Quiet : (w : Wait S) → Waits 300 w → Quiet (step callback w frame)
  unfolding step
  frame-Quiet w (l, d, u, t) = rw (t, run_ticks) (ground arith)

  step-Quiet :
      (w : Wait S) (e : Event) → e ≢ parsed → e ≢ loaded → Quiet w → Quiet (step callback w e)
  unfolding step
  step-Quiet w (library_is b) p q h = h
  step-Quiet w parsed p q h = absurd (p refl)
  step-Quiet w loaded p q h = absurd (q refl)
  step-Quiet w frame p q (d, u, t) = rw (t, run_ticks) (d, u, refl)

  run-Quiet :
      (w : Wait S) (es : List Event)
      → All (λ e. (e ≢ parsed) × (e ≢ loaded)) es
      → Quiet w
      → Quiet (run callback w es)
  unfolding run
  run-Quiet w [] hs h = h
  run-Quiet w (e ∷ es) ((p, q), hs) h = run-Quiet (step callback w e) es hs (step-Quiet w e p q h)

  start-Waits : Waits 0 (when_map_libre_ready callback true false (fresh false s))
  unfolding when_map_libre_ready
  start-Waits = (refl, refl, refl, refl)

  answered :
      (n : ℕ) (w : Wait S)
      → Waits n w
      → (run callback w (library_is true ∷ frame ∷ [])).world ≡ callback s
  unfolding run
  answered n w (l, d, u, t) = rw (t, run_ticks) (ground arith)

-- After parsing, a library that comes within 300 frames is seen at the next frame, and the callback has
-- then acted exactly once.
pub called_in_time :
    {S : Type 0} (callback : S → S) (s : S) (k : ℕ)
    → k ≤ 300
    → (run callback
        (when_map_libre_ready callback true false (fresh false s))
        (replicate k frame ++ library_is true ∷ frame ∷ [])).world
      ≡ callback s
called_in_time callback s k h =
    let w = when_map_libre_ready callback true false (fresh false s) in
    rw (run-append callback w (replicate k frame) (library_is true ∷ frame ∷ [])) (
      answered callback s _ _
        (frames-Waits callback s k 0 w (omega arith) (start-Waits callback s)))

-- After 301 frames without the library the loop has ended: only `DOMContentLoaded` or `load` can still
-- bring the callback about.
pub gives_up :
    {S : Type 0} (callback : S → S) (s : S) (es : List Event)
    → All (λ e. (e ≢ parsed) × (e ≢ loaded)) es
    → (run callback
        (when_map_libre_ready callback true false (fresh false s))
        (replicate 300 frame ++ frame ∷ es)).world
      ≡ s
unfolding run
gives_up callback s es h =
    let w = when_map_libre_ready callback true false (fresh false s) in
    let v = run callback w (replicate 300 frame) in
    let waits : Waits callback s 300 v =
      frames-Waits callback s 300 0 w (omega arith) (start-Waits callback s) in
    rw (run-append callback w (replicate 300 frame) (frame ∷ es))
      (run-Quiet callback s _ es h (frame-Quiet callback s v waits)).1
