-- ===== src/Plain/Single.antt =====
-- A page on which one of the three maps is started once.
use simply_transport.Common.{
  ℕ, zero, suc, ◌+◌, Text, Bool, true, false, List, [], ◌∷◌, ◌++◌, ◌≡◌, refl, ap, ◌∙◌, sym, some,
  All,
}
use simply_transport.Plain.Stages.{
  Stage, waiting, refused, broken, loading, marking, shown, after_answer, after, after_all, maps_at,
  map_with, both_controls, load-maps_at, marker-maps_at,
}
use simply_transport.Plain.{
  Request, init_nearby_map, init_agency_map, init_static_stop_map, map_kind, Phase, PlainMap, Page,
  Answer, failed, threw, built, Event, start, answered, loaded, marker_done, update_at, hidden,
  fail, address, able, init_map, new_map, make_map, answer, payload_of, on_load, on_marker, step,
  run,
}
use simply_transport.Plain as Plain
use simply_transport.Plain.Stands.{
  IsSound, HasDistinct, stage-IsAccepted, hidden-none, Stands, Kept, after_load-HasDistinct, Still,
  load-Still, after_marker-HasDistinct, marker-Still,
}

module _ {F : Type 0} (request : Request F) (host : Bool) where
  -- A change of the maps.
  moved :
      (old new : Stage) (p : Page) (maps : List PlainMap)
      → Still old new
      → maps ≡ maps_at request host new
      → HasDistinct request new
      → Stands request host old p
      → Stands request host new (record p { maps = maps })
  moved old new p maps (a, b, c) e d s = record {
    requests = s.requests ∙ sym a;
    maps = e;
    error_shown = s.error_shown ∙ sym b;
    loader = c p.loader_shown s.loader;
    accepted = stage-IsAccepted request new d;
  }

  answer-Stands :
      (a : Answer) (p : Page)
      → IsSound request (answered a)
      → p.library ≡ true
      → p.requests ≡ 0
      → p.maps ≡ []
      → p.error_shown ≡ false
      → Stands request host (after_answer a waiting) (answer request a p)
  unfolding answer fail make_map
  answer-Stands failed p s lib r e c = record {
    requests = r;
    maps = e;
    error_shown = refl;
    loader = hidden-none p.loader_shown;
    accepted = tt;
  }
  answer-Stands threw p s lib r e c = record {
    requests = r;
    maps = made [] Plain.abandoned;
    error_shown = refl;
    loader = hidden-none (hidden p.loader_shown);
    accepted = tt;
  }
    where
      made :
          (routes : List Text) (phase : Phase)
          → p.maps ++ new_map request p phase routes ∷ []
            ≡ map_with request host routes phase [] false
      made routes phase = rw (e, lib, both_controls) refl
  answer-Stands (built routes) p s lib r e c = record {
    requests = r;
    maps = rw (e, lib, both_controls) refl;
    error_shown = c;
    loader = hidden-none p.loader_shown;
    accepted = tt;
  }

  answer-HasDistinct :
      (a : Answer) (stage : Stage)
      → IsSound request (answered a)
      → HasDistinct request stage
      → HasDistinct request (after_answer a stage)
  answer-HasDistinct failed waiting s h = tt
  answer-HasDistinct threw waiting s h = tt
  answer-HasDistinct (built routes) waiting s h = s
  answer-HasDistinct a stage s h = h

  module _ (number_text : F → Text) where
    answered-Stands :
        (a : Answer) (stage : Stage) (p : Page)
        → IsSound request (answered a)
        → p.library ≡ true
        → Stands request host stage p
        → Stands request host (after_answer a stage) (step number_text request p (answered a))
    unfolding step
    answered-Stands a waiting p s lib h =
        rw (h.requests, step)
          (answer-Stands a (record p { requests = 0 }) s lib refl h.maps h.error_shown)
    answered-Stands failed refused p s lib h = rw (h.requests, step) h
    answered-Stands threw refused p s lib h = rw (h.requests, step) h
    answered-Stands (built rs) refused p s lib h = rw (h.requests, step) h
    answered-Stands failed broken p s lib h = rw (h.requests, step) h
    answered-Stands threw broken p s lib h = rw (h.requests, step) h
    answered-Stands (built rs) broken p s lib h = rw (h.requests, step) h
    answered-Stands failed (loading routes) p s lib h = rw (h.requests, step) h
    answered-Stands threw (loading routes) p s lib h = rw (h.requests, step) h
    answered-Stands (built rs) (loading routes) p s lib h = rw (h.requests, step) h
    answered-Stands failed (marking routes) p s lib h = rw (h.requests, step) h
    answered-Stands threw (marking routes) p s lib h = rw (h.requests, step) h
    answered-Stands (built rs) (marking routes) p s lib h = rw (h.requests, step) h
    answered-Stands failed (shown routes b) p s lib h = rw (h.requests, step) h
    answered-Stands threw (shown routes b) p s lib h = rw (h.requests, step) h
    answered-Stands (built rs) (shown routes b) p s lib h = rw (h.requests, step) h

    step-Stands :
        (url : Text) (e : Event) (stage : Stage) (p : Page)
        → IsSound request e
        → Kept request host url p
        → HasDistinct request stage
        → Stands request host stage p
        → Stands request host (after request stage e) (step number_text request p e)
    unfolding step
    step-Stands url start stage p s k d h = absurd s
    step-Stands url (answered a) stage p s k d h = answered-Stands a stage p s k.library h
    step-Stands url (loaded i) stage p s k d h =
        moved stage (after request stage (loaded i)) p _ (still i)
          (rw (h.maps, k.same_host) (load-maps_at request host i stage)) (distinct i) h
      where
        still : (i : ℕ) → Still stage (after request stage (loaded i))
        still zero = load-Still request stage
        still (suc i) = (refl, refl, λ o h. h)

        distinct : (i : ℕ) → HasDistinct request (after request stage (loaded i))
        distinct zero = after_load-HasDistinct request stage d
        distinct (suc i) = d
    step-Stands url (marker_done i mono) stage p s k d h =
        moved stage (after request stage (marker_done i mono)) p _ (still i)
          (rw (h.maps, k.same_host) (marker-maps_at request host mono i stage)) (distinct i) h
      where
        still : (i : ℕ) → Still stage (after request stage (marker_done i mono))
        still zero = marker-Still mono stage
        still (suc i) = (refl, refl, λ o h. h)

        distinct : (i : ℕ) → HasDistinct request (after request stage (marker_done i mono))
        distinct zero = after_marker-HasDistinct request mono stage d
        distinct (suc i) = d

    step-HasDistinct :
        (e : Event) (stage : Stage)
        → IsSound request e
        → HasDistinct request stage
        → HasDistinct request (after request stage e)
    step-HasDistinct start stage s d = d
    step-HasDistinct (answered a) stage s d = answer-HasDistinct a stage s d
    step-HasDistinct (loaded zero) stage s d = after_load-HasDistinct request stage d
    step-HasDistinct (loaded (suc i)) stage s d = d
    step-HasDistinct (marker_done zero mono) stage s d =
        after_marker-HasDistinct request mono stage d
    step-HasDistinct (marker_done (suc i) mono) stage s d = d

    answer-Kept :
        (url : Text) (a : Answer) (p : Page)
        → Kept request host url p
        → Kept request host url (answer request a p)
    unfolding answer fail make_map
    answer-Kept url failed p k = record {
      library = k.library;
      same_host = k.same_host;
      asked = k.asked;
    }
    answer-Kept url threw p k = record {
      library = k.library;
      same_host = k.same_host;
      asked = k.asked;
    }
    answer-Kept url (built routes) p k = record {
      library = k.library;
      same_host = k.same_host;
      asked = k.asked;
    }

    step-Kept :
        (url : Text) (e : Event) (p : Page)
        → IsSound request e
        → Kept request host url p
        → Kept request host url (step number_text request p e)
    unfolding step
    step-Kept url start p s k = absurd s
    step-Kept url (answered a) p s k = go p.requests
      where
        go :
            (n : ℕ)
            → Kept request host url
                (elim n [ zero ↦ p | suc n ↦ answer request a (record p { requests = n }) ])
        go zero = k
        go (suc n) =
            answer-Kept url a (record p { requests = n })
              (record { library = k.library; same_host = k.same_host; asked = k.asked })
    step-Kept url (loaded i) p s k = record {
      library = k.library;
      same_host = k.same_host;
      asked = k.asked;
    }
    step-Kept url (marker_done i mono) p s k = record {
      library = k.library;
      same_host = k.same_host;
      asked = k.asked;
    }

    run-Stands :
        (url : Text) (es : List Event) (stage : Stage) (p : Page)
        → All (IsSound request) es
        → Kept request host url p
        → HasDistinct request stage
        → Stands request host stage p
        → Kept request host url (run number_text request p es)
          × Stands request host (after_all request stage es) (run number_text request p es)
    unfolding run
    run-Stands url [] stage p ss k d h = (k, h)
    run-Stands url (e ∷ es) stage p (s, ss) k d h =
        run-Stands url es (after request stage e) (step number_text request p e) ss
          (step-Kept url e p s k) (step-HasDistinct e stage s d) (step-Stands url e stage p s k d h)

-- The page before the call, with what the map needs.
pub record IsFresh {F : Type 0} (request : Request F) (p : Page) : Type 0 where
  pub ready : able request p ≡ true
  pub library : p.library ≡ true
  pub unasked : p.asked ≡ []
  pub requests : p.requests ≡ 0
  pub maps : p.maps ≡ []
  pub error_shown : p.error_shown ≡ false

-- On a page with what the map needs, whose address can be built, after one call and whatever answers, `load` events
-- and callbacks of the marker's image come then, where no payload of an agency has a route twice: that address has been
-- asked for once, and the page is where the events bring it by the rules of `after`: the first answer ends the wait, the
-- first `load` after it draws an agency's or a static map, and the first callback of the marker's image after that draws
-- the map of the stops nearby, whatever it tells. At each stage the page has no map, or one with its style, its controls
-- and the routes of its answer, to which nothing has been added before it is drawn, and then all sources and layers of
-- its payload, once and in order, none of which the map refuses, with an agency's panel from then on where the map has a
-- host; the error text after a failure and else not; and a loader that is not shown once there is an answer.
pub start-Stands :
    {F : Type 0} (number_text : F → Text) (request : Request F) (url : Text) (p : Page)
    (es : List Event)
    → IsFresh request p
    → address number_text request ≡ some url
    → All (IsSound request) es
    → let q = run number_text request p (start ∷ es) in
      Kept request p.host url q × Stands request p.host (after_all request waiting es) q
unfolding run step init_map
start-Stands number_text request url p es h found sound =
    rw (h.ready, found)
      (run-Stands request p.host number_text url es waiting
        (record p { asked = url ∷ p.asked; requests = p.requests + 1 }) sound
        (record { library = h.library; same_host = refl; asked = ap (λ us. url ∷ us) h.unasked }) tt
        (record {
          requests = ap (λ n. n + 1) h.requests;
          maps = h.maps;
          error_shown = h.error_shown;
          loader = tt;
          accepted = tt;
        }))
