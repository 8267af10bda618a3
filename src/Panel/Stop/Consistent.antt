-- ===== src/Panel/Stop/Consistent.antt =====
-- What the boxes of a stop map's panel say is what the map shows.
use simply_transport.Common.{◌≡◌, refl, ap, ◌∙◌, Text, Bool, true, not, List, [], ◌∷◌, some, All}
use simply_transport.Shared.Visibility.{Layers}
use simply_transport.Shared.Visibility.Agree.{Agree, Agree-set_self}
use simply_transport.Panel.Button.{label, set_boxes-All, toggle_text-label}
use simply_transport.Panel.Rows.{LayerState, get, layer_list, set_boxes}
use simply_transport.Panel.Rows.Agreement.{
  get-fill, row_layers_of_get, rows-start, rows-set_at, Agree-set_at, RowsAgree, RowsApart,
  RowsApartFrom, rows-kept, Knows, rows-toggled,
}
use simply_transport.Panel.Stop.{
  route_layers, other_stop_ids, layer_state_routes, StopPanel, Action, set_route, set_stops,
  toggle_all, build_layer_panel, click_toggle_all, act, act_all,
}

-- The layers of a route's row.
abbrev pub ids_of : Bool → Text → List Text
ids_of has_vehicles id = layer_list (route_layers has_vehicles id)

-- Neither the rows nor a row and the stops share a layer.
pub record RoutesApart (lib : Layers) (has_vehicles : Bool) (routes : List Text) : Type 0 where
  pub rows : RowsApart lib (ids_of has_vehicles) routes
  pub stops : RowsApartFrom lib (ids_of has_vehicles) other_stop_ids routes

-- What the clicks on the button come to: all shown at first, then hidden and shown in turn.
abbrev pub shows : Bool → Action → Bool
shows on toggle_all = not on
shows on _ = on

abbrev pub shows_after : Bool → List Action → Bool
shows_after on [] = on
shows_after on (a ∷ as') = shows_after (shows on a) as'

abbrev pub boxes : {M : Type 0} → StopPanel M → List Bool
boxes p = p.stops_checked ∷ p.route_boxes

module _ (lib : Layers) (has_vehicles : Bool) (routes : List Text) where
  open lib use {Map}

  abbrev state : LayerState
  state = layer_state_routes has_vehicles routes

  -- Each box tells whether the layers behind it are visible; where all was last shown the button offers to hide it,
  -- and otherwise to show it, and a click on it sets every box so.
  pub record Consistent (on : Bool) (p : StopPanel Map) : Type 0 where
    pub rows : RowsAgree lib (ids_of has_vehicles) p.map routes p.route_boxes
    pub stops : Agree lib p.map p.stops_checked other_stop_ids
    pub button : p.button_text ≡ label on
    pub next : p.all_on ≡ on
    pub click : All (λ b. b ≡ not on) (boxes (click_toggle_all lib routes state p))

  known :
      (ids : List Text)
      → All (λ id. get id state ≡ some (route_layers has_vehicles id)) ids
      → Knows lib (ids_of has_vehicles) state ids
  known [] h = tt
  known (id ∷ ids) (h, hs) = (row_layers_of_get state id _ h, known ids hs)

  state-Knows : Knows lib (ids_of has_vehicles) state routes
  state-Knows =
      known routes (unfold layer_state_routes in get-fill (route_layers has_vehicles) routes [])

  click-boxes :
      (p : StopPanel Map) (on : Bool)
      → p.all_on ≡ on
      → All (λ b. b ≡ not on) (boxes (click_toggle_all lib routes state p))
  unfolding click_toggle_all
  click-boxes p on e = (ap not e, set_boxes-All p.route_boxes _ _ (ap not e))

  act-Consistent :
      (p : StopPanel Map) (on : Bool) (a : Action)
      → RoutesApart lib has_vehicles routes
      → Consistent on p
      → Consistent (shows on a) (act lib routes state p a)
  unfolding act click_toggle_all
  act-Consistent p on (set_route i v) h c = record {
    rows = rows-set_at lib _ state p.map routes p.route_boxes i v state-Knows h.rows c.rows;
    stops =
        Agree-set_at lib _ state p.map routes other_stop_ids i v p.stops_checked state-Knows h.stops
          c.stops;
    button = c.button;
    next = c.next;
    click = click-boxes (act lib routes state p (set_route i v)) on c.next;
  }
  act-Consistent p on (set_stops v) h c = record {
    rows = rows-kept lib _ p.map other_stop_ids routes p.route_boxes v h.stops c.rows;
    stops = Agree-set_self lib p.map v other_stop_ids;
    button = c.button;
    next = c.next;
    click = click-boxes (act lib routes state p (set_stops v)) on c.next;
  }
  act-Consistent p on toggle_all h c =
      let v = not p.all_on in
      record {
        rows =
            rows-kept lib _ _ other_stop_ids routes (set_boxes p.route_boxes v) v h.stops
              (rows-toggled lib _ state p.map p.map routes p.route_boxes v state-Knows c.rows);
        stops = Agree-set_self lib _ v other_stop_ids;
        button = toggle_text-label v ∙ ap (λ b. label (not b)) c.next;
        next = ap not c.next;
        click = click-boxes (click_toggle_all lib routes state p) (not on) (ap not c.next);
      }

  act_all-Consistent :
      (p : StopPanel Map) (on : Bool) (as' : List Action)
      → RoutesApart lib has_vehicles routes
      → Consistent on p
      → Consistent (shows_after on as') (act_all lib routes state p as')
  unfolding act_all
  act_all-Consistent p on [] h c = c
  act_all-Consistent p on (a ∷ as') h c =
      act_all-Consistent (act lib routes state p a) (shows on a) as' h (act-Consistent p on a h c)

  -- The map as `load` leaves it: all its layers of the panel are visible.
  pub record AllVisible (m : Map) : Type 0 where
    pub rows : All (λ id. Agree lib m true (ids_of has_vehicles id)) routes
    pub stops : Agree lib m true other_stop_ids

  start-Consistent :
      (m : Map) → AllVisible m → Consistent true (build_layer_panel lib routes state m)
  unfolding build_layer_panel
  start-Consistent m h = record {
    rows = rows-start lib _ m routes h.rows;
    stops = h.stops;
    button = refl;
    next = refl;
    click = click-boxes (build_layer_panel lib routes state m) true refl;
  }

-- On a stop map whose layers are visible at first and whose routes share no layer, whatever the user
-- clicks: each box of the panel is checked exactly if the layers of its route, or the other stops and
-- their labels, are visible; the button says "Toggle all off" after an even number of clicks on it, none included, and
-- "Toggle all on" after an odd number; and one more click on it leaves all boxes unchecked, or all checked, as it says.
pub stop_panel-Consistent :
    (lib : Layers) (m : lib.Map) (has_vehicles : Bool) (routes : List Text) (actions : List Action)
    → RoutesApart lib has_vehicles routes
    → AllVisible lib has_vehicles routes m
    → let state = layer_state_routes has_vehicles routes in
      Consistent lib has_vehicles routes
        (shows_after true actions)
        (act_all lib routes state (build_layer_panel lib routes state m) actions)
stop_panel-Consistent lib m has_vehicles routes actions apart h =
    act_all-Consistent lib has_vehicles routes _ true actions apart
      (start-Consistent lib has_vehicles routes m h)
