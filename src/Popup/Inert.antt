-- ===== src/Popup/Inert.antt =====
-- What a popup's data can do to its tags: nothing, whatever the strings hold.
use simply_transport.Common.{
  ◌≡◌, refl, Text, units, Bool, true, false, List, [], ◌∷◌, map, length, Option, none, some, arith,
  append-nil, Bool-cases, inl, inr,
}
use simply_transport.Js.Values.{Field, truthy, or_else}
use simply_transport.Popup.Escape.Markup.{markup, markup-append, markup-escape_html}
use simply_transport.Popup.Builders.{
  MapStop, DetailedRoute, StopFeatures, Detailed, feature_bool_to_emoji, join, route_html,
  features_html, street_block, title_html, build_popup_html_from_detailed, build_loading_popup_html,
  build_error_popup_html, build_stop_tooltip_html,
}

ruleset inert = (markup-append, markup-escape_html, append-nil)

-- The loading popup, the error popup and the tooltip of any two stops have the same tags and
-- quotes, in the same order.
pub stop_popups_inert :
    {F : Type 0} (s t : MapStop F)
    → (markup (build_loading_popup_html s) ≡ markup (build_loading_popup_html t))
      × (markup (build_error_popup_html s) ≡ markup (build_error_popup_html t))
      × (markup (build_stop_tooltip_html s) ≡ markup (build_stop_tooltip_html t))
unfolding build_loading_popup_html build_error_popup_html build_stop_tooltip_html title_html
stop_popups_inert s t = (simp inert, simp inert, simp inert)

markup-emoji : (b : Option Bool) → markup (feature_bool_to_emoji b) ≡ []
unfolding feature_bool_to_emoji markup units
markup-emoji none = refl
markup-emoji (some true) = refl
markup-emoji (some false) = refl

markup-features_html :
    (f g : StopFeatures) → markup (features_html (some f)) ≡ markup (features_html (some g))
unfolding features_html
markup-features_html f g = simp (markup-append, markup-emoji, append-nil)

markup-street_block :
    (u v : Field) → truthy u ≡ truthy v → markup (street_block u) ≡ markup (street_block v)
unfolding street_block
markup-street_block u v e = elim (Bool-cases (truthy v)) [
  | inl link ↦ rw (e, link) (simp inert)
  | inr empty ↦ rw (e, empty) refl
]

markup-route_html :
    (dir : Text) (r q : DetailedRoute) → markup (route_html dir r) ≡ markup (route_html dir q)
unfolding route_html
markup-route_html dir r q = simp inert

markup-routes :
    (dir sep : Text) (rs qs : List DetailedRoute)
    → length rs ≡ length qs
    → markup (join sep (map (route_html dir) rs)) ≡ markup (join sep (map (route_html dir) qs))
unfolding join
markup-routes dir sep [] [] e = refl
markup-routes dir sep [] (q ∷ qs) e = absurd (omega arith)
markup-routes dir sep (r ∷ rs) [] e = absurd (omega arith)
markup-routes dir sep (r ∷ []) (q ∷ []) e = markup-route_html dir r q
markup-routes dir sep (r ∷ []) (q ∷ q' ∷ qs) e = absurd (omega arith)
markup-routes dir sep (r ∷ r' ∷ rs) (q ∷ []) e = absurd (omega arith)
markup-routes dir sep (r ∷ r' ∷ rs) (q ∷ q' ∷ qs) e = simp (
  markup-append,
  markup-route_html dir r q,
  markup-routes dir sep (r' ∷ rs) (q' ∷ qs) (omega arith),
)

-- The parts of a detailed stop that decide which tags its popup has.
abbrev is_some {ℓ} : {A : Type ℓ} → Option A → Bool
is_some none = false
is_some (some a) = true

abbrev pub SameShape : Detailed → Detailed → Type 0
SameShape d e =
    (length d.routes ≡ length e.routes)
    × (is_some d.stop_features ≡ is_some e.stop_features)
    × (truthy d.street_view_url ≡ truthy e.street_view_url)

markup-features_some :
    (f g : Option StopFeatures)
    → is_some f ≡ is_some g
    → markup (features_html f) ≡ markup (features_html g)
markup-features_some none none h = refl
markup-features_some none (some g) h = cc
markup-features_some (some f) none h = cc
markup-features_some (some f) (some g) h = markup-features_html f g

-- The popups of two detailed stops with as many routes, that both have or both lack the features and
-- the street view, have the same tags and quotes in the same order, for the same direction.
pub detailed_popup_inert :
    (d e : Detailed) (dir : Field)
    → SameShape d e
    → markup (build_popup_html_from_detailed d dir) ≡ markup (build_popup_html_from_detailed e dir)
unfolding build_popup_html_from_detailed
detailed_popup_inert d e dir (routes, features, street) =
    let links = or_else dir (units "OUTBOUND") in
    simp (
      markup-append,
      markup-escape_html,
      append-nil,
      markup-street_block d.street_view_url e.street_view_url street,
      markup-features_some d.stop_features e.stop_features features,
      routes,
      markup-routes links (units "<br>") d.routes e.routes routes,
    )
