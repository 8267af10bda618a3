-- ===== src/Panel/Agency/Consistent.antt =====
-- What the boxes of an agency map's panel say is what the map shows; the lines of distinct routes are
-- distinct layers.
use simply_transport.Common.{
  ◌≡◌, refl, sym, ap, ◌∙◌, Text, units, Bool, true, false, not, List, [], ◌∷◌, ◌++◌, ◌≢◌, some, All,
  text_eq, text_eq_iff, append_cancel_left, Bool-cases, inl, inr, ◌||◌,
}
use simply_transport.Shared.Visibility.{Layers}
use simply_transport.Shared.Visibility.Agree.{Agree, Apart}
use simply_transport.Panel.Button.{label, set_boxes-All, toggle_text-label}
use simply_transport.Panel.Rows.{LayerState, get, layer_list}
use simply_transport.Panel.Rows.Agreement.{
  get-fill, row_layers_of_get, rows-start, rows-set_at, RowsAgree, RowsApart, Knows, rows-toggled,
}
use simply_transport.Panel.Agency.{
  route_layers, layer_state_routes, AgencyPanel, Action, set_route, toggle_all, build_layer_panel,
  act, act_all,
}

abbrev pub ids_of : Text → List Text
ids_of id = layer_list (route_layers id)

-- No route comes twice.
abbrev pub Distinct : List Text → Type 0
Distinct [] = Unit
Distinct (id ∷ ids) = All (λ j. j ≢ id) ids × Distinct ids

line-Apart : (i j : Text) → j ≢ i → Apart (ids_of j) (ids_of i) × Apart (ids_of i) (ids_of j)
unfolding layer_list route_layers
line-Apart i j h = ((differ i j h, tt), (differ j i (λ e. h (sym e)), tt))
  where
    differ :
        (i j : Text)
        → j ≢ i
        → (text_eq (units "agency-route-line-" ++ i) (units "agency-route-line-" ++ j) || false)
          ≡ false
    differ i j h =
        elim (Bool-cases
          (text_eq (units "agency-route-line-" ++ i) (units "agency-route-line-" ++ j))) [
            | inl same ↦ absurd (
                h (
                  sym (
                    append_cancel_left (units "agency-route-line-") i j
                      ((text_eq_iff _ _).0 same))))
            | inr other ↦ rw other refl
          ]

-- What the clicks on the button come to: all shown at first, then hidden and shown in turn.
abbrev pub shows : Bool → Action → Bool
shows on toggle_all = not on
shows on _ = on

abbrev pub shows_after : Bool → List Action → Bool
shows_after on [] = on
shows_after on (a ∷ as') = shows_after (shows on a) as'

module _ (lib : Layers) (routes : List Text) where
  open lib use {Map}

  abbrev state : LayerState
  state = layer_state_routes routes

  rows-Apart-head :
      (id : Text) (ids : List Text)
      → All (λ j. j ≢ id) ids
      → All (λ j. Apart (ids_of j) (ids_of id) × Apart (ids_of id) (ids_of j)) ids
  rows-Apart-head id [] h = tt
  rows-Apart-head id (j ∷ ids) (h, hs) = (line-Apart id j h, rows-Apart-head id ids hs)

  rows-apart : (ids : List Text) → Distinct ids → RowsApart lib ids_of ids
  rows-apart [] h = tt
  rows-apart (id ∷ ids) (h, hs) = (rows-Apart-head id ids h, rows-apart ids hs)

  -- Each box tells whether its route's line is visible; where all was last shown the button offers to hide it, and
  -- otherwise to show it, and a click on it sets every box so.
  pub record Consistent (on : Bool) (p : AgencyPanel Map) : Type 0 where
    pub rows : RowsAgree lib ids_of p.map routes p.route_boxes
    pub button : p.button_text ≡ label on
    pub next : p.all_on ≡ on
    pub click : All (λ b. b ≡ not on) ((act lib routes state p toggle_all).route_boxes)

  known :
      (ids : List Text)
      → All (λ id. get id state ≡ some (route_layers id)) ids
      → Knows lib ids_of state ids
  known [] h = tt
  known (id ∷ ids) (h, hs) = (row_layers_of_get state id _ h, known ids hs)

  state-Knows : Knows lib ids_of state routes
  state-Knows = known routes (unfold layer_state_routes in get-fill route_layers routes [])

  click-boxes :
      (p : AgencyPanel Map) (on : Bool)
      → p.all_on ≡ on
      → All (λ b. b ≡ not on) ((act lib routes state p toggle_all).route_boxes)
  unfolding act
  click-boxes p on e = set_boxes-All p.route_boxes _ _ (ap not e)

  act-Consistent :
      (p : AgencyPanel Map) (on : Bool) (a : Action)
      → Distinct routes
      → Consistent on p
      → Consistent (shows on a) (act lib routes state p a)
  unfolding act
  act-Consistent p on (set_route i v) h c = record {
    rows =
        rows-set_at lib _ state p.map routes p.route_boxes i v state-Knows (rows-apart routes h)
          c.rows;
    button = c.button;
    next = c.next;
    click = click-boxes (act lib routes state p (set_route i v)) on c.next;
  }
  act-Consistent p on toggle_all h c = record {
    rows =
        rows-toggled lib _ state p.map p.map routes p.route_boxes (not p.all_on) state-Knows c.rows;
    button = toggle_text-label (not p.all_on) ∙ ap (λ b. label (not b)) c.next;
    next = ap not c.next;
    click = click-boxes (act lib routes state p toggle_all) (not on) (ap not c.next);
  }

  act_all-Consistent :
      (p : AgencyPanel Map) (on : Bool) (as' : List Action)
      → Distinct routes
      → Consistent on p
      → Consistent (shows_after on as') (act_all lib routes state p as')
  unfolding act_all
  act_all-Consistent p on [] h c = c
  act_all-Consistent p on (a ∷ as') h c =
      act_all-Consistent (act lib routes state p a) (shows on a) as' h (act-Consistent p on a h c)

  start-Consistent :
      (m : Map)
      → All (λ id. Agree lib m true (ids_of id)) routes
      → Consistent true (build_layer_panel lib routes state m)
  unfolding build_layer_panel
  start-Consistent m h = record {
    rows = rows-start lib _ m routes h;
    button = refl;
    next = refl;
    click = click-boxes (build_layer_panel lib routes state m) true refl;
  }

-- On an agency map with no route twice, whose lines are visible at first, whatever the user clicks: each box of the panel
-- is checked exactly if its route's line is visible; the button says "Toggle all off" after an even number of clicks on
-- it, none included, and "Toggle all on" after an odd number; and one more click on it leaves all boxes unchecked, or all
-- checked, as it says.
pub agency_panel-Consistent :
    (lib : Layers) (m : lib.Map) (routes : List Text) (actions : List Action)
    → Distinct routes
    → All (λ id. Agree lib m true (ids_of id)) routes
    → let state = layer_state_routes routes in
      Consistent lib routes
        (shows_after true actions)
        (act_all lib routes state (build_layer_panel lib routes state m) actions)
agency_panel-Consistent lib m routes actions distinct h =
    act_all-Consistent lib routes _ true actions distinct (start-Consistent lib routes m h)
