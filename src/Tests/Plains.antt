-- ===== src/Tests/Plains.antt =====
-- The map of an agency, with two routes, and the map of the stops nearby.
use simply_transport.Common.{ℕ, units, true, false, List, [], ◌∷◌, ◌≡◌, refl, some, text_eq}
use simply_transport.Js.Uri.{
  encode_uri_component, form_encode, is_alphanumeric, is_mark, encode_point, percent,
}
use simply_transport.Js.Decimal.{decimal}
use simply_transport.Panel.Agency.Consistent.{Distinct}
use simply_transport.Load.Distinct.{are_distinct, are_distinct-Distinct}
use simply_transport.Plain.{
  Request, init_agency_map, init_nearby_map, Page, built, Event, start, answered, loaded, address,
  able, run,
}
use simply_transport.Plain.Stages.{waiting, after_all}
use simply_transport.Plain.Stands.{Kept, Stands}
use simply_transport.Plain.Single.{IsFresh, start-Stands}

abbrev plain_page : Page
plain_page = record {
  container = true;
  library = true;
  popup = true;
  host = true;
  loader_shown = some true;
  error_shown = false;
  asked = [];
  requests = 0;
  maps = [];
}

abbrev agency : Request ℕ
agency = init_agency_map (units "03 C")

agency-address : address decimal agency ≡ some (units "/api/v1/map/route/agency/03%20C")
unfolding address encode_uri_component is_alphanumeric is_mark encode_point percent units
agency-address = refl

nearby-address :
    address decimal (init_nearby_map 53 6)
    ≡ some (units "/api/v1/map/stop/nearby?latitude=53&longitude=6")
unfolding address form_encode units decimal is_alphanumeric
nearby-address = refl

routes-Distinct : Distinct (units "46A" ∷ units "145" ∷ [])
unfolding are_distinct text_eq units
routes-Distinct = are_distinct-Distinct (units "46A" ∷ units "145" ∷ []) refl

plain_page-IsFresh : IsFresh agency plain_page
unfolding able
plain_page-IsFresh = record {
  ready = refl;
  library = refl;
  unasked = refl;
  requests = refl;
  maps = refl;
  error_shown = refl;
}

-- The answer comes, then the `load` of the map.
abbrev events : List Event
events = answered (built (units "46A" ∷ units "145" ∷ [])) ∷ loaded 0 ∷ []

start-Stands_example :
    Kept agency true
      (units "/api/v1/map/route/agency/03%20C")
      (run decimal agency plain_page (start ∷ events))
    × Stands agency true
        (after_all agency waiting events)
        (run decimal agency plain_page (start ∷ events))
start-Stands_example =
    start-Stands decimal agency (units "/api/v1/map/route/agency/03%20C") plain_page events
      plain_page-IsFresh agency-address (routes-Distinct, (tt, tt))
