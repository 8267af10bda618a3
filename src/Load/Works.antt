-- ===== src/Load/Works.antt =====
-- The panels on the maps that `load` has drawn.
use simply_transport.Common.{
  Text, Bool, true, not, List, [], ◌∷◌, ◌≡◌, refl, ◌∙◌, All, Option, none, some, get_elem?,
}
use simply_transport.Shared.Visibility.{
  Layers, set_all, has_layer-set_all, has_layer-set_layer_visibility,
}
use simply_transport.Panel.Rows.{LayerState, row_layers, show_row, show_rows, show_row_at}
use simply_transport.Panel.Stop as Stop
use simply_transport.Panel.Stop.Consistent as StopC
use simply_transport.Panel.Stop.Apart.{IsUnmarked, routes-RoutesApart}
use simply_transport.Panel.Route as Route
use simply_transport.Panel.Route.Consistent as RouteC
use simply_transport.Panel.Agency as Agency
use simply_transport.Panel.Agency.Consistent as AgencyC
use simply_transport.Panel.Agency.Consistent.{Distinct}
use simply_transport.Load.{stop_payload, route_payload, agency_payload, panel_ids}
use simply_transport.Load.Panels.{panel-Added}
use simply_transport.Load.Loaded.{
  Adding, loaded_map, AllThere, loaded_map-AllShown, shown-Agree, shown_rows, there,
}

module _ (lib : Layers) where
  open lib use {Map, has_layer}

  show_rows-keeps :
      (state : LayerState) (ids : List Text) (m : Map) (v : Bool) (j : Text)
      → has_layer (show_rows lib state m ids v) j ≡ has_layer m j
  unfolding show_rows show_row
  show_rows-keeps state [] m v j = refl
  show_rows-keeps state (id ∷ ids) m v j =
      show_rows-keeps state ids (set_all lib m (row_layers state id) v) v j
      ∙ has_layer-set_all lib m _ v j

  show_row_at-keeps :
      (state : LayerState) (m : Map) (o : Option Text) (v : Bool) (j : Text)
      → has_layer (show_row_at lib state m o v) j ≡ has_layer m j
  unfolding show_row_at show_row
  show_row_at-keeps state m none v j = refl
  show_row_at-keeps state m (some id) v j = has_layer-set_all lib m _ v j

  module _ (routes : List Text) (state : LayerState) where
    stop_act-keeps :
        (a : Stop.Action) (p : Stop.StopPanel Map) (j : Text)
        → has_layer (Stop.act lib routes state p a).map j ≡ has_layer p.map j
    unfolding Stop.act Stop.click_toggle_all
    stop_act-keeps (Stop.set_route i v) p j = show_row_at-keeps state p.map (get_elem? routes i) v j
    stop_act-keeps (Stop.set_stops v) p j = has_layer-set_all lib p.map Stop.other_stop_ids v j
    stop_act-keeps Stop.toggle_all p j =
        has_layer-set_all lib (show_rows lib state p.map routes (not p.all_on)) Stop.other_stop_ids
          (not p.all_on) j
        ∙ show_rows-keeps state routes p.map (not p.all_on) j

    stop_panel-keeps :
        (as' : List Stop.Action) (p : Stop.StopPanel Map) (j : Text)
        → has_layer (Stop.act_all lib routes state p as').map j ≡ has_layer p.map j
    unfolding Stop.act_all
    stop_panel-keeps [] p j = refl
    stop_panel-keeps (a ∷ as') p j =
        stop_panel-keeps as' (Stop.act lib routes state p a) j ∙ stop_act-keeps a p j

    agency_act-keeps :
        (a : Agency.Action) (p : Agency.AgencyPanel Map) (j : Text)
        → has_layer (Agency.act lib routes state p a).map j ≡ has_layer p.map j
    unfolding Agency.act
    agency_act-keeps (Agency.set_route i v) p j =
        show_row_at-keeps state p.map (get_elem? routes i) v j
    agency_act-keeps Agency.toggle_all p j = show_rows-keeps state routes p.map (not p.all_on) j

    agency_panel-keeps :
        (as' : List Agency.Action) (p : Agency.AgencyPanel Map) (j : Text)
        → has_layer (Agency.act_all lib routes state p as').map j ≡ has_layer p.map j
    unfolding Agency.act_all
    agency_panel-keeps [] p j = refl
    agency_panel-keeps (a ∷ as') p j =
        agency_panel-keeps as' (Agency.act lib routes state p a) j ∙ agency_act-keeps a p j

  change_vehicles-keeps :
      (p : Route.RoutePanel Map) (v : Bool) (o : Option Bool) (j : Text)
      → has_layer (Route.change_vehicles lib p v o).map j ≡ has_layer p.map j
  unfolding Route.change_vehicles
  change_vehicles-keeps p v none j = refl
  change_vehicles-keeps p v (some old) j = has_layer-set_all lib p.map Route.vehicle_ids v j

  toggle_vehicles-keeps :
      (m : Map) (v : Bool) (o : Option Bool) (j : Text)
      → has_layer (Route.toggle_vehicle_layers lib m v o) j ≡ has_layer m j
  unfolding Route.toggle_vehicle_layers
  toggle_vehicles-keeps m v none j = refl
  toggle_vehicles-keeps m v (some old) j = has_layer-set_all lib m Route.vehicle_ids v j

  route_act-keeps :
      (a : Route.Action) (p : Route.RoutePanel Map) (j : Text)
      → has_layer (Route.act lib p a).map j ≡ has_layer p.map j
  unfolding Route.act Route.click_toggle_all
  route_act-keeps (Route.set_line v) p j =
      has_layer-set_layer_visibility lib p.map Route.line_id v j
  route_act-keeps (Route.set_vehicles v) p j = change_vehicles-keeps p v p.vehicles_checked j
  route_act-keeps (Route.set_stops v) p j = has_layer-set_all lib p.map Route.stop_ids v j
  route_act-keeps Route.toggle_all p j =
      has_layer-set_all lib _ Route.stop_ids (not p.all_on) j
      ∙ toggle_vehicles-keeps _ (not p.all_on) p.vehicles_checked j
      ∙ has_layer-set_layer_visibility lib p.map Route.line_id (not p.all_on) j

  route_panel-keeps :
      (as' : List Route.Action) (p : Route.RoutePanel Map) (j : Text)
      → has_layer (Route.act_all lib p as').map j ≡ has_layer p.map j
  unfolding Route.act_all
  route_panel-keeps [] p j = refl
  route_panel-keeps (a ∷ as') p j =
      route_panel-keeps as' (Route.act lib p a) j ∙ route_act-keeps a p j

  module _ (adding : Adding lib) where
    stop_works :
        (has_vehicles : Bool) (routes : List Text) (as' : List Stop.Action)
        → Distinct routes
        → All IsUnmarked routes
        → let payload = stop_payload has_vehicles routes in
          let state = Stop.layer_state_routes has_vehicles routes in
          let p =
            Stop.act_all lib routes state
              (Stop.build_layer_panel lib routes state (loaded_map lib adding payload))
              as' in
          StopC.Consistent lib has_vehicles routes (StopC.shows_after true as') p
          × AllThere lib adding p.map payload
    unfolding Stop.build_layer_panel
    stop_works has_vehicles routes as' d us =
        let payload = stop_payload has_vehicles routes in
        let m = loaded_map lib adding payload in
        let state = Stop.layer_state_routes has_vehicles routes in
        let shown = loaded_map-AllShown lib adding payload in
        (
          StopC.stop_panel-Consistent lib m has_vehicles routes as'
              (routes-RoutesApart lib has_vehicles routes d us)
              (record {
                rows = shown_rows lib adding m shown _ routes;
                stops = shown-Agree lib adding m shown Stop.other_stop_ids;
              }),
          there lib adding payload _
              (stop_panel-keeps routes state as' (Stop.build_layer_panel lib routes state m))
              (panel_ids payload) (panel-Added payload),
        )

    route_works :
        (has_vehicles : Bool) (id : Text) (as' : List Route.Action)
        → let payload = route_payload has_vehicles id in
          let p =
            Route.act_all lib
              (Route.build_route_layer_panel lib (loaded_map lib adding payload) has_vehicles)
              as' in
          RouteC.Consistent lib (RouteC.shows_after true as') p × AllThere lib adding p.map payload
    unfolding Route.build_route_layer_panel
    route_works has_vehicles id as' =
        let payload = route_payload has_vehicles id in
        let m = loaded_map lib adding payload in
        let agree = shown-Agree lib adding m (loaded_map-AllShown lib adding payload) in
        (
          RouteC.route_panel-Consistent lib m has_vehicles as' (record {
            line = agree (Route.line_id ∷ []);
            vehicles = agree Route.vehicle_ids;
            stops = agree Route.stop_ids;
          }),
          there lib adding payload _
              (route_panel-keeps as' (Route.build_route_layer_panel lib m has_vehicles))
              (panel_ids payload) (panel-Added payload),
        )

    agency_works :
        (routes : List Text) (as' : List Agency.Action)
        → Distinct routes
        → let payload = agency_payload routes in
          let state = Agency.layer_state_routes routes in
          let p =
            Agency.act_all lib routes state
              (Agency.build_layer_panel lib routes state (loaded_map lib adding payload))
              as' in
          AgencyC.Consistent lib routes (AgencyC.shows_after true as') p
          × AllThere lib adding p.map payload
    unfolding Agency.build_layer_panel
    agency_works routes as' d =
        let payload = agency_payload routes in
        let m = loaded_map lib adding payload in
        let state = Agency.layer_state_routes routes in
        (
          AgencyC.agency_panel-Consistent lib m routes as' d
              (shown_rows lib adding m (loaded_map-AllShown lib adding payload) _ routes),
          there lib adding payload _
              (agency_panel-keeps routes state as' (Agency.build_layer_panel lib routes state m))
              (panel_ids payload) (panel-Added payload),
        )

-- On the maps that `load` has drawn, with layers added as the map library documents it, no route twice, and on a stop
-- map no route's id beginning with `pulse-` or `label-`, whatever is clicked on the panel of a stop map, of a route map
-- and of an agency map: the layers behind its boxes are all there, each box is checked exactly if those behind it are
-- visible; its button says "Toggle all off" after an even number of clicks on it, none included, and "Toggle all on"
-- after an odd number; and one more click on it leaves all boxes unchecked, or all checked, as it says.
pub panels_work :
    (lib : Layers) (adding : Adding lib) (has_vehicles : Bool) (routes : List Text) (id : Text)
    (stop_clicks : List Stop.Action) (route_clicks : List Route.Action)
    (agency_clicks : List Agency.Action)
    → Distinct routes
    → All IsUnmarked routes
    → let stop_map = loaded_map lib adding (stop_payload has_vehicles routes) in
      let route_map = loaded_map lib adding (route_payload has_vehicles id) in
      let agency_map = loaded_map lib adding (agency_payload routes) in
      let stop_state = Stop.layer_state_routes has_vehicles routes in
      let agency_state = Agency.layer_state_routes routes in
      let p =
        Stop.act_all lib routes stop_state
          (Stop.build_layer_panel lib routes stop_state stop_map)
          stop_clicks in
      let q =
        Route.act_all lib (Route.build_route_layer_panel lib route_map has_vehicles) route_clicks in
      let r =
        Agency.act_all lib routes agency_state
          (Agency.build_layer_panel lib routes agency_state agency_map)
          agency_clicks in
      (StopC.Consistent lib has_vehicles routes (StopC.shows_after true stop_clicks) p
        × AllThere lib adding p.map (stop_payload has_vehicles routes))
      × (RouteC.Consistent lib (RouteC.shows_after true route_clicks) q
          × AllThere lib adding q.map (route_payload has_vehicles id))
      × (AgencyC.Consistent lib routes (AgencyC.shows_after true agency_clicks) r
          × AllThere lib adding r.map (agency_payload routes))
panels_work lib adding has_vehicles routes id stop_clicks route_clicks agency_clicks d us = (
  stop_works lib adding has_vehicles routes stop_clicks d us,
  route_works lib adding has_vehicles id route_clicks,
  agency_works lib adding routes agency_clicks d,
)
