-- ===== src/Tests/Embeds.antt =====
-- The theorems on the start of a map, at concrete pages.
use simply_transport.Common.{
  ℕ, ◌+◌, ◌++◌, List, false, arith, ◌≤◌, ◌≡◌, refl, true, [], ◌∷◌, some, if◌then◌else◌, ltb,
}
use simply_transport.Embed.{
  stop_map, nearby_map, bind, library_and_popup, bound, ready, frame, library_is, run, Page,
}
use simply_transport.Embed.Waiting.{after_wait}
use simply_transport.Embed.Started.{bound_map_starts}
use simply_transport.Ready.Both as Both
use simply_transport.Embed.Once.{embed_starts_once}
use simply_transport.Embed.Patience.{lone_page, patience, embed_patience}

abbrev history : Page
history =
    run stop_map lone_page (bound ∷ bound ∷ frame ∷ library_is true ∷ frame ∷ bound ∷ ready ∷ [])

embed_starts_once_example :
    (history.inits ≡ (if history.started then 1 else 0))
    × ((n : ℕ) → history.wait_deps ≡ some n → n ≤ 120)
embed_starts_once_example =
    embed_starts_once stop_map lone_page
      (bound ∷ bound ∷ frame ∷ library_is true ∷ frame ∷ bound ∷ ready ∷ []) refl refl refl

embed_patience_example : (patience nearby_map 119).inits ≡ (if ltb 119 120 then 1 else 0)
embed_patience_example = embed_patience nearby_map 119

-- The element of a stop map, with the ready helper, while the document is being read.
abbrev bindable : Page
bindable = record lone_page { library = false; ready_helper = true }

abbrev arrivals : List Both.Event
arrivals = Both.frame ∷ Both.parsed ∷ Both.frame ∷ []

bound_map_starts_example :
    let q = bind stop_map bindable in
    let end =
      after_wait library_and_popup true (arrivals ++ Both.library_is true ∷ Both.loaded ∷ []) q in
    (q.registered ≡ bindable.registered + 1)
    × (end.started ≡ true)
    × (end.inits ≡ bindable.inits + 1)
bound_map_starts_example =
    bound_map_starts stop_map bindable true arrivals
      (record {
        wrap_there = refl;
        unstarted = refl;
        init_defined = refl;
        id_given = refl;
        latitude_given = refl;
        longitude_given = refl;
        element_there = refl;
        ready_helper = refl;
      })
      (
        refl,
        (
          λ e. absurd (ground arith),
          (λ e. absurd (ground arith), (λ e. absurd (ground arith), tt)),
        ),
      )
