-- ===== src/Refresh/Phases.antt =====
-- The phases of a page with a map, and what leads from one to the next.
use simply_transport.Common.{
  ℕ, ◌+◌, Bool, true, false, [], ◌≡◌, ◌≢◌, refl, Option, none, some, arith, ap, ◌==◌, ◌∙◌, any, ◌∷◌,
}
use simply_transport.Refresh.{
  Page, Answer, failed, built, answered, loaded, without, set_if, clean_up, init_map, fail,
  make_map, answer, on_load, on_refresh, step,
}

-- What the page is about: a request, a map that loads, a map that is drawn, or nothing.
pub data Phase : Type 0 where
  waits draws : Phase
  shows : Phase
  idle : Phase

-- The page in a phase, `m` the map of the moment.
pub record In (phase : Phase) (m : ℕ) (p : Page) : Type 0 where
  pub able : p.able ≡ true
  pub wrap : p.wrap_there ≡ true
  pub requests : p.requests ≡ elim phase [ waits ↦ 1 | _ ↦ 0 ]
  pub live : p.live ≡ elim phase [ waits ↦ [] | idle ↦ [] | _ ↦ m ∷ [] ]
  pub loading : p.loading ≡ elim phase [ draws ↦ m ∷ [] | _ ↦ [] ]
  pub panels : p.panels ≡ elim phase [ shows ↦ m ∷ [] | _ ↦ [] ]
  pub cleanup : p.cleanup ≡ elim phase [ shows ↦ some m | _ ↦ none ]
  pub loader : p.loader_shown ≢ some (elim phase [ waits ↦ false | _ ↦ true ])
  pub busy :
      p.refresh_handler ≡ true
      → p.refresh_disabled ≢ some (elim phase [ waits ↦ false | draws ↦ false | _ ↦ true ])

abbrev pub Goes : Page → Type 0
Goes p = (phase : Phase) × (m : ℕ) × In phase m p

pub set_if-true : (o : Option Bool) → set_if o true ≢ some false
set_if-true none e = ground arith
set_if-true (some b) e = ground arith

pub set_if-false : (o : Option Bool) → set_if o false ≢ some true
set_if-false none e = ground arith
set_if-false (some b) e = ground arith

without_self : (m : ℕ) → without m (m ∷ []) ≡ []
unfolding without
without_self m = ground arith

pub init-fresh :
    (m : ℕ) (p : Page)
    → p.able ≡ true
    → p.wrap_there ≡ true
    → p.requests ≡ 0
    → p.live ≡ []
    → p.loading ≡ []
    → p.panels ≡ []
    → p.cleanup ≡ none
    → (p.refresh_handler ≡ true → p.refresh_disabled ≢ some false)
    → In waits m (init_map p)
unfolding init_map clean_up
init-fresh m p able wrap requests live loading panels cleanup busy =
    rw (able, cleanup)
      (record {
        able = refl;
        wrap = wrap;
        requests = ap (λ n. n + 1) requests;
        live = live;
        loading = loading;
        panels = panels;
        cleanup = refl;
        loader = set_if-true p.loader_shown;
        busy = busy;
      })

pub init-again :
    (m : ℕ) (p : Page)
    → p.able ≡ true
    → p.wrap_there ≡ true
    → p.requests ≡ 0
    → p.live ≡ m ∷ []
    → p.loading ≡ []
    → p.panels ≡ m ∷ []
    → p.cleanup ≡ some m
    → (p.refresh_handler ≡ true → p.refresh_disabled ≢ some false)
    → In waits m (init_map p)
unfolding init_map clean_up
init-again m p able wrap requests live loading panels cleanup busy =
    rw (able, cleanup)
      (record {
        able = refl;
        wrap = wrap;
        requests = ap (λ n. n + 1) requests;
        live = ap (without m) live ∙ without_self m;
        loading = loading;
        panels = ap (without m) panels ∙ without_self m;
        cleanup = refl;
        loader = set_if-true p.loader_shown;
        busy = busy;
      })

pub refresh-rests :
    (o : Option Bool) (p : Page) → (p.refresh_handler ≡ true → o ≢ some false) → on_refresh o p ≡ p
unfolding on_refresh
refresh-rests none p h = refl
refresh-rests (some true) p h = ground arith
refresh-rests (some false) p h = ground arith

pub answered-built : (m : ℕ) (p : Page) → In waits m p → In draws p.made (step p (answered built))
unfolding step answer make_map
answered-built m p h = rw h.requests (record {
  able = h.able;
  wrap = h.wrap;
  requests = refl;
  live = ap (λ ms. p.made ∷ ms) h.live;
  loading = ap (λ ms. p.made ∷ ms) h.loading;
  panels = h.panels;
  cleanup = h.cleanup;
  loader = set_if-false p.loader_shown;
  busy = h.busy;
})

pub answered-failed : (m : ℕ) (p : Page) → In waits m p → In idle m (step p (answered failed))
unfolding step answer fail
answered-failed m p h = rw h.requests (record {
  able = h.able;
  wrap = h.wrap;
  requests = refl;
  live = h.live;
  loading = h.loading;
  panels = h.panels;
  cleanup = h.cleanup;
  loader = set_if-false p.loader_shown;
  busy = λ _. set_if-false p.refresh_disabled;
})

pub loaded-shows : (m : ℕ) (p : Page) → In draws m p → In shows m (step p (loaded m))
unfolding step on_load without
loaded-shows m p h =
    let found : any (λ n. n == m) p.loading ≡ true = rw h.loading (ground arith) in
    rw (found, h.wrap)
      (record {
        able = h.able;
        wrap = refl;
        requests = h.requests;
        live = h.live;
        loading = ap (without m) h.loading ∙ without_self m;
        panels = ap (λ ms. m ∷ ms) h.panels;
        cleanup = refl;
        loader = h.loader;
        busy = λ _. set_if-false p.refresh_disabled;
      })

pub unloaded : (k : ℕ) (p : Page) → any (λ n. n == k) p.loading ≡ false → step p (loaded k) ≡ p
unfolding step
unloaded k p h = rw h refl

pub none_loading : (k : ℕ) (p : Page) → p.loading ≡ [] → step p (loaded k) ≡ p
none_loading k p h = unloaded k p (rw h refl)

pub none_answered : (a : Answer) (p : Page) → p.requests ≡ 0 → step p (answered a) ≡ p
unfolding step
none_answered a p h = rw h refl
