-- ===== src/Tests/Loads.antt =====
-- The layers of a stop map with two routes.
use simply_transport.Common.{units, true, [], ◌∷◌, ◌≡◌, refl, All}
use simply_transport.Load.{
  load, stop_payload, layer_ids, load_stop_map, line_calls, vehicle_calls, stop_label_calls,
  Payload,
}
use simply_transport.Load.Distinct.{are_distinct, are_distinct-Distinct}
use simply_transport.Panel.Agency.Consistent.{Distinct}
use simply_transport.Panel.Stop.Apart.{IsUnmarked}
use simply_transport.Common.{text_eq}
use simply_transport.Load.Accepted.{Accepted, load-Accepted}
use simply_transport.Shared.Style.{osm_raster_style}
use simply_transport.Embed.{stop_map}
use simply_transport.Js.Strings.{strip_prefix}

abbrev two_routes : Payload
two_routes = stop_payload true (units "46A" ∷ units "145" ∷ [])

-- From the lowest layer to the topmost: the labels of the stops come last.
painted_order :
    layer_ids (load_stop_map true (units "46A" ∷ []))
    ≡ units "route-line-46A"
      ∷ units "stops-other"
      ∷ units "stops-focus"
      ∷ units "vehicle-pulse-46A"
      ∷ units "vehicle-46A"
      ∷ units "vehicle-label-46A"
      ∷ units "stops-labels-focus"
      ∷ units "stops-labels-other"
      ∷ []
unfolding layer_ids load_stop_map line_calls vehicle_calls stop_label_calls units
painted_order = refl

routes-Distinct : Distinct (units "46A" ∷ units "145" ∷ [])
unfolding are_distinct text_eq units
routes-Distinct = are_distinct-Distinct (units "46A" ∷ units "145" ∷ []) refl

routes-IsUnmarked : All IsUnmarked (units "46A" ∷ units "145" ∷ [])
unfolding units strip_prefix
routes-IsUnmarked = ((refl, refl), ((refl, refl), tt))

load-Accepted_example : Accepted (osm_raster_style stop_map) (load two_routes)
load-Accepted_example = load-Accepted two_routes (routes-Distinct, routes-IsUnmarked)
