-- ===== src/Embed/Waiting/Alone.antt =====
-- The wait of the agency map, for the library alone: `load` starts the map.
use simply_transport.Common.{ℕ, ◌+◌, ◌≡◌, refl, Bool, true, false, List, [], ◌∷◌, ◌++◌, arith}
use simply_transport.Ready.Library.{Wait, fresh, when_map_libre_ready}
use simply_transport.Ready.Library as Library
use simply_transport.Ready.Library.Once.{Pending, step-Pending, start-Pending, load_settles}
use simply_transport.Ready.Library.Tied.{
  Tied, parsed-Tied, loaded-Tied, frame-Tied, library-Tied, start-Tied,
}
use simply_transport.Ready.Both.{Event, library_is, popup_is, parsed, loaded, frame}
use simply_transport.Embed.Waiting.{arrive, step_alone, run_alone, start_alone}
use simply_transport.Embed.{Page, Needs, library_only, do_init}

-- A page whose map has not been started, `n` starts so far; and the same page with the map started.
abbrev pub Unstarted : ℕ → Page → Type 0
Unstarted n q = (q.started ≡ false) × (q.init_defined ≡ true) × (q.inits ≡ n)

abbrev pub Started : ℕ → Page → Type 0
Started n q = (q.started ≡ true) × (q.inits ≡ n + 1)

pub do_init-library : (needs : Needs) (q : Page) → (do_init needs q).library ≡ q.library
unfolding do_init
do_init-library needs q = ground arith

module _ (n : ℕ) where
  -- The agency map, which waits for the library alone.
  pub alone-Started :
      (q : Page) → q.library ≡ true → Unstarted n q → Started n (do_init library_only q)
  unfolding do_init
  alone-Started q l u = ground arith

  abbrev pub Alone : Wait Page → Type 0
  Alone w =
      Tied (do_init library_only) (λ q. q.library) (Unstarted n) (Started n) alone-Started
        (do_init-library library_only) w
      × Pending (do_init library_only) w

  step-Alone : (w : Wait Page) (e : Event) → Alone w → Alone (step_alone w e)
  unfolding step_alone arrive Library.step
  step-Alone w (library_is b) (t, p) =
      (library-Tied _ _ _ _ _ _ w b (record (w.world) { library = b }) refl (λ h. h) (λ h. h) t, p)
  step-Alone w (popup_is b) (t, p) =
      (record { same = t.same; before = t.before; after = t.after }, p)
  step-Alone w parsed (t, p) =
      (parsed-Tied _ _ _ _ _ _ w t, step-Pending (do_init library_only) w Library.parsed p)
  step-Alone w loaded (t, p) =
      (loaded-Tied _ _ _ _ _ _ w t, step-Pending (do_init library_only) w Library.loaded p)
  step-Alone w frame (t, p) =
      (frame-Tied _ _ _ _ _ _ w t, step-Pending (do_init library_only) w Library.frame p)

  alone_done :
      (w : Wait Page)
      → Pending (do_init library_only) w
      → (step_alone (step_alone w (library_is true)) loaded).done ≡ true
  unfolding step_alone Library.run
  alone_done w p =
      load_settles (do_init library_only) (record w { world = arrive (library_is true) w.world }) p

  -- With the library there, `load` ends the wait.
  pub run-Alone :
      (w : Wait Page) (es : List Event)
      → Alone w
      → Started n (run_alone w (es ++ library_is true ∷ loaded ∷ [])).world
  unfolding run_alone
  run-Alone w [] a =
      let v = step_alone w (library_is true) in
      let (t, p) = step-Alone v loaded (step-Alone w (library_is true) a) in
      t.after (alone_done w a.1)
  run-Alone w (e ∷ es) a = run-Alone (step_alone w e) es (step-Alone w e a)

  pub start-Alone : (loading : Bool) (q : Page) → Unstarted n q → Alone (start_alone loading q)
  start-Alone loading q u = (
    start-Tied _ _ _ _ _ _ true loading (fresh q.library q)
        (record { same = refl; before = λ h. u; after = λ h. absurd (ground arith) }),
    start-Pending (do_init library_only) loading (fresh q.library q),
  )
