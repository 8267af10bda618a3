-- ===== src/Tests/Panels.antt =====
-- The panels on small maps.
use simply_transport.Common.{
  refl, Text, units, Bool, true, false, List, [], ◌∷◌, text_eq, arith, All,
}
use simply_transport.Panel.Route as Route
use simply_transport.Panel.Route.Consistent as RouteC
use simply_transport.Panel.Route.Consistent.{route_panel-Consistent}
use simply_transport.Panel.Rows.{layer_list}
use simply_transport.Shared.Visibility.Agree.{Agree}
use simply_transport.Panel.Stop as Stop
use simply_transport.Panel.Stop.Consistent as StopC
use simply_transport.Panel.Stop.Consistent.{stop_panel-Consistent}
use simply_transport.Panel.Stop.Apart.{IsUnmarked}
use simply_transport.Js.Strings.{strip_prefix}
use simply_transport.Panel.Agency as Agency
use simply_transport.Panel.Agency.Consistent as AgencyC
use simply_transport.Panel.Agency.Consistent.{agency_panel-Consistent}
use simply_transport.Tests.Instances.{list_layers}
use simply_transport.Common.{◌≡◌, ◌||◌, if◌then◌else◌}
use simply_transport.Load.{stop_payload, route_payload, agency_payload}
use simply_transport.Load.Loaded.{Adding, loaded_map, AllThere}
use simply_transport.Load.Works.{panels_work}

abbrev on : Text → Text × Bool
on id = (id, true)

abbrev route_map : List (Text × Bool)
route_map =
    on Route.line_id
    ∷ on Route.stops_id
    ∷ on Route.vehicle_pulse_id
    ∷ on Route.vehicle_id
    ∷ on Route.vehicle_labels_id
    ∷ on Route.stops_labels_id
    ∷ []

abbrev route_clicks : List Route.Action
route_clicks = Route.set_line false ∷ Route.toggle_all ∷ Route.set_vehicles true ∷ []

route_visible : RouteC.AllVisible list_layers route_map
unfolding text_eq units
route_visible = record {
  line = ((λ h. refl), tt);
  vehicles = ((λ h. refl), ((λ h. refl), ((λ h. refl), tt)));
  stops = ((λ h. refl), ((λ h. refl), tt));
}

route_panel-Consistent_example :
    RouteC.Consistent list_layers (RouteC.shows_after true route_clicks) (
      Route.act_all list_layers
        (Route.build_route_layer_panel list_layers route_map true)
        route_clicks)
route_panel-Consistent_example =
    route_panel-Consistent list_layers route_map true route_clicks route_visible

abbrev routes : List Text
routes = units "R1" ∷ units "R2" ∷ []

abbrev stop_map : List (Text × Bool)
stop_map =
    on (units "route-line-R1")
    ∷ on (units "route-line-R2")
    ∷ on (units "stops-other")
    ∷ on (units "stops-focus")
    ∷ on (units "vehicle-pulse-R1")
    ∷ on (units "vehicle-R1")
    ∷ on (units "vehicle-label-R1")
    ∷ on (units "stops-labels-other")
    ∷ []

abbrev stop_clicks : List Stop.Action
stop_clicks = Stop.set_route 1 false ∷ Stop.toggle_all ∷ Stop.set_stops true ∷ []

routes_apart : StopC.RoutesApart list_layers true routes
unfolding text_eq units layer_list Stop.route_layers
routes_apart = ground arith

rows_visible : StopC.AllVisible list_layers true routes stop_map
unfolding text_eq units layer_list Stop.route_layers
rows_visible = ground arith

stop_panel-Consistent_example :
    let state = Stop.layer_state_routes true routes in
    StopC.Consistent list_layers true routes (StopC.shows_after true stop_clicks) (
      Stop.act_all list_layers routes state
        (Stop.build_layer_panel list_layers routes state stop_map)
        stop_clicks)
stop_panel-Consistent_example =
    stop_panel-Consistent list_layers stop_map true routes stop_clicks routes_apart rows_visible

abbrev agency_map : List (Text × Bool)
agency_map = on (units "agency-route-line-R1") ∷ on (units "agency-route-line-R2") ∷ []

abbrev agency_clicks : List Agency.Action
agency_clicks = Agency.set_route 0 false ∷ Agency.toggle_all ∷ Agency.set_route 1 true ∷ []

Distinct-routes : AgencyC.Distinct routes
unfolding units
Distinct-routes = (((λ e. ground arith), tt), (tt, tt))

lines_visible : All (λ id. Agree list_layers agency_map true (AgencyC.ids_of id)) routes
unfolding text_eq units layer_list Agency.route_layers
lines_visible = ground arith

agency_panel-Consistent_example :
    let state = Agency.layer_state_routes routes in
    AgencyC.Consistent list_layers routes (AgencyC.shows_after true agency_clicks) (
      Agency.act_all list_layers routes state
        (Agency.build_layer_panel list_layers routes state agency_map)
        agency_clicks)
agency_panel-Consistent_example =
    agency_panel-Consistent list_layers agency_map routes agency_clicks Distinct-routes
      lines_visible

IsUnmarked-routes : All IsUnmarked routes
unfolding units strip_prefix
IsUnmarked-routes = ((refl, refl), ((refl, refl), tt))

-- A layer goes before the others, and is visible.
added_there :
    (m : List (Text × Bool)) (id j : Text)
    → list_layers.has_layer ((id, true) ∷ m) j ≡ (text_eq id j || list_layers.has_layer m j)
added_there m id j = ground arith

added_visible :
    (m : List (Text × Bool)) (id j : Text)
    → list_layers.visible ((id, true) ∷ m) j
      ≡ (if text_eq id j then true else list_layers.visible m j)
added_visible m id j = ground arith

abbrev list_adding : Adding list_layers
list_adding = record {
  empty = [];
  add = λ m id. (id, true) ∷ m;
  none_at_first = λ j. refl;
  has_layer-add = added_there;
  visible-add = added_visible;
}

panels_work_example :
    let stop_state = Stop.layer_state_routes true routes in
    let agency_state = Agency.layer_state_routes routes in
    let drawn_stops = loaded_map list_layers list_adding (stop_payload true routes) in
    let drawn_route = loaded_map list_layers list_adding (route_payload true (units "R1")) in
    let drawn_agency = loaded_map list_layers list_adding (agency_payload routes) in
    let p =
      Stop.act_all list_layers routes stop_state
        (Stop.build_layer_panel list_layers routes stop_state drawn_stops)
        stop_clicks in
    let q =
      Route.act_all list_layers
        (Route.build_route_layer_panel list_layers drawn_route true)
        route_clicks in
    let r =
      Agency.act_all list_layers routes agency_state
        (Agency.build_layer_panel list_layers routes agency_state drawn_agency)
        agency_clicks in
    (StopC.Consistent list_layers true routes (StopC.shows_after true stop_clicks) p
      × AllThere list_layers list_adding p.map (stop_payload true routes))
    × (RouteC.Consistent list_layers (RouteC.shows_after true route_clicks) q
        × AllThere list_layers list_adding q.map (route_payload true (units "R1")))
    × (AgencyC.Consistent list_layers routes (AgencyC.shows_after true agency_clicks) r
        × AllThere list_layers list_adding r.map (agency_payload routes))
panels_work_example =
    panels_work list_layers list_adding true routes (units "R1") stop_clicks route_clicks
      agency_clicks Distinct-routes IsUnmarked-routes
