-- ===== src/Ready/Library/Tied.antt =====
-- A callback that looks for the library itself, on a page that shows it what the wait sees.
use simply_transport.Common.{ℕ, ◌≡◌, Bool, true, false, List, [], ◌∷◌, arith}
use simply_transport.Ready.Library.{
  Wait, library_is, parsed, loaded, frame, invoke, tick, on_parsing_done, when_map_libre_ready,
  run_ticks, step,
}

-- `library_of` is what the callback looks at; it acts as it should only where that is there.
module _ {S : Type 0} (callback : S → S) (library_of : S → Bool) (P Q : S → Type 0)
    (acts : (s : S) → library_of s ≡ true → P s → Q (callback s))
    (keeps : (s : S) → library_of (callback s) ≡ library_of s) where
  -- `P` holds of the world until the callback has run, and `Q` from then on.
  pub record Tied (w : Wait S) : Type 0 where
    pub same : library_of w.world ≡ w.library
    pub before : w.done ≡ false → P w.world
    pub after : w.done ≡ true → Q w.world

  invoke-Tied : (w : Wait S) → Tied w → Tied (invoke callback w)
  unfolding invoke
  invoke-Tied w t = ground (arith, acts w.world, keeps w.world)

  tick-Tied : (n : ℕ) (w : Wait S) → Tied w → Tied (tick callback n w)
  unfolding tick
  tick-Tied n w t = ground (arith, acts w.world, keeps w.world)

  run_ticks-Tied : (ns : List ℕ) (w : Wait S) → Tied w → Tied (run_ticks callback ns w)
  unfolding run_ticks
  run_ticks-Tied [] w t = t
  run_ticks-Tied (n ∷ ns) w t = run_ticks-Tied ns (tick callback n w) (tick-Tied n w t)

  on_parsing_done-Tied : (w : Wait S) → Tied w → Tied (on_parsing_done callback w)
  unfolding on_parsing_done
  on_parsing_done-Tied w t = ground (arith, acts w.world, keeps w.world)

  pub parsed-Tied : (w : Wait S) → Tied w → Tied (step callback w parsed)
  unfolding step
  parsed-Tied w t = ground (arith, on_parsing_done-Tied w t)

  pub loaded-Tied : (w : Wait S) → Tied w → Tied (step callback w loaded)
  unfolding step
  loaded-Tied w t = ground (arith, on_parsing_done-Tied w t)

  pub frame-Tied : (w : Wait S) → Tied w → Tied (step callback w frame)
  unfolding step
  frame-Tied w t =
      run_ticks-Tied w.ticks (record w { ticks = [] })
        (record { same = t.same; before = t.before; after = t.after })

  -- The library comes or goes, for the wait and for the callback.
  pub library-Tied :
      (w : Wait S) (b : Bool) (s : S)
      → library_of s ≡ b
      → (P w.world → P s)
      → (Q w.world → Q s)
      → Tied w
      → Tied (step callback (record w { world = s }) (library_is b))
  unfolding step
  library-Tied w b s e p q t = record {
    same = e;
    before = λ h. p (t.before h);
    after = λ h. q (t.after h);
  }

  pub start-Tied :
      (callable loading : Bool) (w : Wait S)
      → Tied w
      → Tied (when_map_libre_ready callback callable loading w)
  unfolding when_map_libre_ready
  start-Tied callable loading w t = ground (arith, acts w.world, keeps w.world)
