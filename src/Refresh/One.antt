-- ===== src/Refresh/One.antt =====
-- One map at a time, and none after a first failure.
use simply_transport.Common.{
  ℕ, zero, suc, true, false, [], ◌≡◌, refl, none, arith, ap, ◌∙◌, replicate, ◌∷◌,
}
use simply_transport.Refresh.{
  Page, failed, start, click_refresh, answered, set_if, clean_up, init_map, fail, answer, step, run,
}
use simply_transport.Refresh.Phases.{waits, In, init-fresh, refresh-rests, answered-failed}

-- The page as the template gives it, with MapLibre and the popups loaded.
pub record IsFresh (p : Page) : Type 0 where
  pub able : p.able ≡ true
  pub wrap : p.wrap_there ≡ true
  pub requests : p.requests ≡ 0
  pub live : p.live ≡ []
  pub loading : p.loading ≡ []
  pub panels : p.panels ≡ []
  pub cleanup : p.cleanup ≡ none
  pub unset : p.refresh_handler ≡ false

fresh-waits : (p : Page) → IsFresh p → In waits 0 (init_map p)
fresh-waits p h =
    init-fresh 0 p h.able h.wrap h.requests h.live h.loading h.panels h.cleanup
      (λ e. absurd (ground arith))

clicks-rest :
    (q : Page) (clicks : ℕ) → q.refresh_handler ≡ false → run q (replicate clicks click_refresh) ≡ q
unfolding run step
clicks-rest q zero unset = refl
clicks-rest q (suc n) unset =
    ap (λ p. run p (replicate n click_refresh))
      (refresh-rests q.refresh_disabled q (λ set. absurd (ground arith)))
    ∙ clicks-rest q n unset

failure :
    (p : Page)
    → IsFresh p
    → let q = step (init_map p) (answered failed) in
      (q.refresh_handler ≡ p.refresh_handler)
      × (q.refresh_disabled ≡ set_if p.refresh_disabled false)
      × (q.error_shown ≡ true)
unfolding init_map clean_up step answer fail
failure p h = rw (h.able, h.cleanup, h.requests) (refl, refl, refl)

-- After a first request that failed, the refresh button is enabled and does nothing, however often it is clicked: no
-- request is sent, and there is no map.
pub first_failure_stuck :
    (p : Page) (clicks : ℕ)
    → IsFresh p
    → let q = run p (start ∷ answered failed ∷ replicate clicks click_refresh) in
      (q.refresh_disabled ≡ set_if p.refresh_disabled false)
      × (q.requests ≡ 0)
      × (q.live ≡ [])
      × (q.error_shown ≡ true)
unfolding run step
first_failure_stuck p clicks h =
    let q = step (init_map p) (answered failed) in
    let e : run q (replicate clicks click_refresh) ≡ q =
      clicks-rest q clicks ((failure p h).0 ∙ h.unset) in
    let idle_page = answered-failed 0 (init_map p) (fresh-waits p h) in
    (
      ap (λ r. r.refresh_disabled) e ∙ (failure p h).1,
      ap (λ r. r.requests) e ∙ idle_page.requests,
      ap (λ r. r.live) e ∙ idle_page.live,
      ap (λ r. r.error_shown) e ∙ (failure p h).2,
    )
