-- ===== src/Panel/Route/Consistent.antt =====
-- What the panel's boxes say is what the map shows.
use simply_transport.Common.{
  ◌≡◌, refl, ap, ◌∙◌, Text, units, Bool, true, false, not, List, [], ◌∷◌, Option, none, some,
  text_eq, All,
}
use simply_transport.Shared.Visibility.{Layers, set_all}
use simply_transport.Shared.Visibility.Agree.{Agree, Agree-set_self, Agree-set_apart, Apart}
use simply_transport.Panel.Button.{label, toggle_text-label}
use simply_transport.Panel.Route.{
  line_id, vehicle_ids, stop_ids, RoutePanel, Action, set_line, set_vehicles, set_stops, toggle_all,
  build_route_layer_panel, change_vehicles, toggle_vehicle_layers, click_toggle_all, act, act_all,
}

abbrev line_ids : List Text
line_ids = line_id ∷ []

-- The three groups of layers have no id in common.
line-Apart_vehicles : Apart line_ids vehicle_ids
unfolding text_eq units
line-Apart_vehicles = (refl, tt)

line-Apart_stops : Apart line_ids stop_ids
unfolding text_eq units
line-Apart_stops = (refl, tt)

vehicles-Apart_line : Apart vehicle_ids line_ids
unfolding text_eq units
vehicles-Apart_line = (refl, (refl, (refl, tt)))

vehicles-Apart_stops : Apart vehicle_ids stop_ids
unfolding text_eq units
vehicles-Apart_stops = (refl, (refl, (refl, tt)))

stops-Apart_line : Apart stop_ids line_ids
unfolding text_eq units
stops-Apart_line = (refl, (refl, tt))

stops-Apart_vehicles : Apart stop_ids vehicle_ids
unfolding text_eq units
stops-Apart_vehicles = (refl, (refl, tt))

-- What the clicks on the button come to: all shown at first, then hidden and shown in turn.
abbrev pub shows : Bool → Action → Bool
shows on toggle_all = not on
shows on _ = on

abbrev pub shows_after : Bool → List Action → Bool
shows_after on [] = on
shows_after on (a ∷ as') = shows_after (shows on a) as'

-- The boxes that are there.
abbrev pub box_list : Option Bool → List Bool
box_list none = []
box_list (some b) = b ∷ []

abbrev pub boxes : {M : Type 0} → RoutePanel M → List Bool
boxes p = p.line_checked ∷ p.stops_checked ∷ box_list p.vehicles_checked

module _ (lib : Layers) where
  open lib use {Map}

  -- The vehicles' layers agree with their box, where there is one.
  abbrev pub VehiclesAgree : Map → Option Bool → Type 0
  VehiclesAgree m none = Unit
  VehiclesAgree m (some b) = Agree lib m b vehicle_ids

  -- Each box tells whether the layers behind it are visible; where all was last shown the button offers to hide it,
  -- and otherwise to show it, and a click on it sets every box so.
  pub record Consistent (on : Bool) (p : RoutePanel Map) : Type 0 where
    pub line : Agree lib p.map p.line_checked line_ids
    pub vehicles : VehiclesAgree p.map p.vehicles_checked
    pub stops : Agree lib p.map p.stops_checked stop_ids
    pub button : p.button_text ≡ label on
    pub next : p.all_on ≡ on
    pub click : All (λ b. b ≡ not on) (boxes (click_toggle_all lib p))

  -- A change of the line or the stops leaves the vehicles alone.
  vehicles-kept :
      (m : Map) (o : Option Bool) (v : Bool) (big : List Text)
      → Apart vehicle_ids big
      → VehiclesAgree m o
      → VehiclesAgree (set_all lib m big v) o
  vehicles-kept m none v big h a = tt
  vehicles-kept m (some b) v big h a = Agree-set_apart lib m v b vehicle_ids big h a

  -- A change of the vehicles makes them agree, and keeps what is apart.
  toggle-vehicles :
      (m : Map) (o : Option Bool) (v : Bool)
      → VehiclesAgree (toggle_vehicle_layers lib m v o) (elim o [ none ↦ none | some b ↦ some v ])
  unfolding toggle_vehicle_layers
  toggle-vehicles m none v = tt
  toggle-vehicles m (some b) v = Agree-set_self lib m v vehicle_ids

  toggle-kept :
      (m : Map) (o : Option Bool) (v b : Bool) (ids : List Text)
      → Apart ids vehicle_ids
      → Agree lib m b ids
      → Agree lib (toggle_vehicle_layers lib m v o) b ids
  unfolding toggle_vehicle_layers
  toggle-kept m none v b ids h a = a
  toggle-kept m (some old) v b ids h a = Agree-set_apart lib m v b ids vehicle_ids h a

  old_box :
      (o : Option Bool) (v w : Bool)
      → v ≡ w
      → All (λ b. b ≡ w) (box_list (elim o [ none ↦ none | some old ↦ some v ]))
  old_box none v w e = tt
  old_box (some old) v w e = (e, tt)

  click-boxes :
      (p : RoutePanel Map) (on : Bool)
      → p.all_on ≡ on
      → All (λ b. b ≡ not on) (boxes (click_toggle_all lib p))
  unfolding click_toggle_all
  click-boxes p on e = (ap not e, (ap not e, old_box p.vehicles_checked _ _ (ap not e)))

  change-Consistent :
      (p : RoutePanel Map) (on v : Bool) (o : Option Bool)
      → p.vehicles_checked ≡ o
      → Consistent on p
      → Consistent on (change_vehicles lib p v o)
  unfolding change_vehicles
  change-Consistent p on v none e c = c
  change-Consistent p on v (some old) e c = record {
    line =
        Agree-set_apart lib p.map v p.line_checked line_ids vehicle_ids line-Apart_vehicles c.line;
    vehicles = Agree-set_self lib p.map v vehicle_ids;
    stops =
        Agree-set_apart lib p.map v p.stops_checked stop_ids vehicle_ids stops-Apart_vehicles
          c.stops;
    button = c.button;
    next = c.next;
    click = click-boxes (change_vehicles lib p v (some old)) on c.next;
  }

  toggle-Consistent :
      (p : RoutePanel Map) (on : Bool)
      → p.all_on ≡ on
      → Consistent (not on) (click_toggle_all lib p)
  unfolding click_toggle_all set_all
  toggle-Consistent p on e = record {
    line = Agree-set_apart lib _ v v line_ids stop_ids line-Apart_stops (
        toggle-kept m p.vehicles_checked v v line_ids line-Apart_vehicles
          (Agree-set_self lib p.map v line_ids));
    vehicles =
        vehicles-kept _ _ v stop_ids vehicles-Apart_stops (toggle-vehicles m p.vehicles_checked v);
    stops = Agree-set_self lib _ v stop_ids;
    button = toggle_text-label v ∙ ap (λ b. label (not b)) e;
    next = ap not e;
    click = click-boxes (click_toggle_all lib p) (not on) (ap not e);
  }
    where
      v : Bool
      v = not p.all_on

      m : Map
      m = set_all lib p.map line_ids v

  act-Consistent :
      (p : RoutePanel Map) (on : Bool) (a : Action)
      → Consistent on p
      → Consistent (shows on a) (act lib p a)
  unfolding act set_all
  act-Consistent p on (set_line v) c = record {
    line = Agree-set_self lib p.map v line_ids;
    vehicles = vehicles-kept p.map p.vehicles_checked v line_ids vehicles-Apart_line c.vehicles;
    stops = Agree-set_apart lib p.map v p.stops_checked stop_ids line_ids stops-Apart_line c.stops;
    button = c.button;
    next = c.next;
    click = click-boxes (act lib p (set_line v)) on c.next;
  }
  act-Consistent p on (set_vehicles v) c = change-Consistent p on v p.vehicles_checked refl c
  act-Consistent p on (set_stops v) c = record {
    line = Agree-set_apart lib p.map v p.line_checked line_ids stop_ids line-Apart_stops c.line;
    vehicles = vehicles-kept p.map p.vehicles_checked v stop_ids vehicles-Apart_stops c.vehicles;
    stops = Agree-set_self lib p.map v stop_ids;
    button = c.button;
    next = c.next;
    click = click-boxes (act lib p (set_stops v)) on c.next;
  }
  act-Consistent p on toggle_all c = toggle-Consistent p on c.next

  act_all-Consistent :
      (p : RoutePanel Map) (on : Bool) (as' : List Action)
      → Consistent on p
      → Consistent (shows_after on as') (act_all lib p as')
  unfolding act_all
  act_all-Consistent p on [] c = c
  act_all-Consistent p on (a ∷ as') c =
      act_all-Consistent (act lib p a) (shows on a) as' (act-Consistent p on a c)

  -- The map as `load` leaves it: all its layers of the panel are visible.
  pub record AllVisible (m : Map) : Type 0 where
    pub line : Agree lib m true line_ids
    pub vehicles : Agree lib m true vehicle_ids
    pub stops : Agree lib m true stop_ids

  start-Consistent :
      (m : Map) (has_vehicles : Bool)
      → AllVisible m
      → Consistent true (build_route_layer_panel lib m has_vehicles)
  unfolding build_route_layer_panel
  start-Consistent m true h = record {
    line = h.line;
    vehicles = h.vehicles;
    stops = h.stops;
    button = refl;
    next = refl;
    click = click-boxes (build_route_layer_panel lib m true) true refl;
  }
  start-Consistent m false h = record {
    line = h.line;
    vehicles = tt;
    stops = h.stops;
    button = refl;
    next = refl;
    click = click-boxes (build_route_layer_panel lib m false) true refl;
  }

-- On a route map whose layers are visible at first, whatever the user clicks: each box of the panel is checked exactly if
-- the layers behind it are visible; the button says "Toggle all off" after an even number of clicks on it, none included,
-- and "Toggle all on" after an odd number; and one more click on it leaves all boxes unchecked, or all checked, as it
-- says.
pub route_panel-Consistent :
    (lib : Layers) (m : lib.Map) (has_vehicles : Bool) (actions : List Action)
    → AllVisible lib m
    → Consistent lib
        (shows_after true actions)
        (act_all lib (build_route_layer_panel lib m has_vehicles) actions)
route_panel-Consistent lib m has_vehicles actions h =
    act_all-Consistent lib _ true actions (start-Consistent lib m has_vehicles h)
