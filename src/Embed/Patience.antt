-- ===== src/Embed/Patience.antt =====
-- How long a map waits for its scripts when `maplibre-ready.js` did not load.
use simply_transport.Common.{
  ℕ, zero, suc, ◌+◌, ◌≤◌, ◌<◌, ap, ◌∙◌, ◌≡◌, refl, true, false, [], ◌∷◌, none, some, ltb, replicate,
  inl, inr, Bool-cases, ◌-◌, if◌then◌else◌, arith,
}
use simply_transport.Embed.{
  Page, MapKind, stop_map, route_map, nearby_map, agency_map, static_stop_map, do_init, fallback,
  wait, bind_stop_map_realtime_embed, bind_route_map_embed, bind_nearby_map_embed,
  bind_agency_map_embed, bind_static_stop_map_embed, bound, frame, library_is, run_queued, step,
  run,
}

-- A page with a map's element and its script, where neither MapLibre nor the ready helper has loaded.
abbrev pub lone_page : Page
lone_page = record {
  wrap_there = true;
  started = false;
  wait_deps = none;
  id_given = true;
  latitude_given = true;
  longitude_given = true;
  element_there = true;
  init_defined = true;
  library = false;
  popup = true;
  ready_helper = false;
  registered = 0;
  queued = 0;
  inits = 0;
}

-- The same after some frames: the counter, and the fallbacks in the queue.
abbrev waiting : ℕ → ℕ → Page
waiting c q = record lone_page { wait_deps = some c; queued = q }

bound-wait : (kind : MapKind) → step kind lone_page bound ≡ waiting 1 1
unfolding step bind_stop_map_realtime_embed bind_route_map_embed bind_nearby_map_embed
    bind_agency_map_embed bind_static_stop_map_embed wait fallback
bound-wait stop_map = refl
bound-wait route_map = refl
bound-wait nearby_map = refl
bound-wait agency_map = refl
bound-wait static_stop_map = refl

frame-wait :
    (kind : MapKind) (c : ℕ)
    → step kind (waiting c 1) frame ≡ (if ltb 120 (c + 1) then waiting c 0 else waiting (c + 1) 1)
unfolding step run_queued fallback
frame-wait stop_map c = refl
frame-wait route_map c = refl
frame-wait nearby_map c = refl
frame-wait agency_map c = refl
frame-wait static_stop_map c = refl

frames-rest :
    (kind : MapKind) (k : ℕ) → run kind (waiting 120 0) (replicate k frame) ≡ waiting 120 0
unfolding run step run_queued
frames-rest kind zero = refl
frames-rest kind (suc k) = frames-rest kind k

frame-on : (kind : MapKind) (c : ℕ) → c < 120 → step kind (waiting c 1) frame ≡ waiting (c + 1) 1
frame-on kind c more =
    let on : ltb 120 (c + 1) ≡ false = ground arith in rw (frame-wait kind c, on) refl

frames-wait :
    (kind : MapKind) (k c : ℕ)
    → c + k ≤ 120
    → run kind (waiting c 1) (replicate k frame) ≡ waiting (c + k) 1
unfolding run
frames-wait kind zero c le = let e : c + zero ≡ c = omega arith in rw e refl
frames-wait kind (suc k) c le =
    let e : c + suc k ≡ c + 1 + k = omega arith in
    rw e (
      ap (λ p. run kind p (replicate k frame)) (frame-on kind c (omega arith))
      ∙ frames-wait kind k (c + 1) (omega arith))

frames-give_up :
    (kind : MapKind) (d k c : ℕ)
    → c + d ≡ 120
    → run kind (waiting c 1) (replicate (d + suc k) frame) ≡ waiting 120 0
unfolding run
frames-give_up kind zero k c le =
    let e : c ≡ 120 = omega arith in
    let first : 0 + suc k ≡ suc k = omega arith in
    rw (e, first)
      (ap (λ p. run kind p (replicate k frame)) (frame-wait kind 120) ∙ frames-rest kind k)
frames-give_up kind (suc d) k c le =
    let first : suc d + suc k ≡ suc (d + suc k) = omega arith in
    rw first (
      ap (λ p. run kind p (replicate (d + suc k) frame)) (frame-on kind c (omega arith))
      ∙ frames-give_up kind d k (c + 1) (omega arith))

library-starts :
    (kind : MapKind) (c : ℕ) → (run kind (waiting c 1) (library_is true ∷ frame ∷ [])).inits ≡ 1
unfolding run step run_queued fallback do_init
library-starts stop_map c = refl
library-starts route_map c = refl
library-starts nearby_map c = refl
library-starts agency_map c = refl
library-starts static_stop_map c = refl

library-comes_late :
    (kind : MapKind) → (run kind (waiting 120 0) (library_is true ∷ frame ∷ [])).inits ≡ 0
unfolding run step run_queued
library-comes_late kind = refl

-- The page after `k` frames without MapLibre, then MapLibre and one more frame.
abbrev pub patience : MapKind → ℕ → Page
patience kind k =
    run kind (run kind (step kind lone_page bound) (replicate k frame))
      (library_is true ∷ frame ∷ [])

-- On a page without the ready helper, whichever of the five scripts binds the map: MapLibre may come as late
-- as after the 119th frame, and the next frame starts the map, once; when it comes later, the map is not
-- started by the frames.
pub embed_patience :
    (kind : MapKind) (k : ℕ) → (patience kind k).inits ≡ (if ltb k 120 then 1 else 0)
embed_patience kind k = elim (Bool-cases (ltb k 120)) [
  | inl early ↦
      rw (early, bound-wait kind, frames-wait kind k 1 (ground arith)) (library-starts kind (1 + k))
  | inr late ↦
      let e : k ≡ 119 + suc (k - 120) = ground arith in
      rw (late, bound-wait kind, e, frames-give_up kind 119 (k - 120) 1 refl)
        (library-comes_late kind)
]
