-- ===== src/Lib.antt =====
-- SimplyTransport: the browser code of the maps, and of the tables.
--
-- The scripts under SimplyTransport/static/static/js/ draw five MapLibre maps (a stop's, a route's, an agency's, the
-- stops nearby, and the static maps of stops). base.html loads the library with `defer`, and a script in the body may
-- run before it, so each script waits for what it needs, marks its element and starts its map once (Ready, Embed).
-- The map's data is requested (Refresh, Plain) and made into features (Features); the `load` handler adds layers and
-- icons (Load, Shared) and a panel of boxes (Panel), and clicks open popups (Clicks) with HTML made of the server's
-- data (Popup).
--
-- Files and code:
--   Common, Js: numbers, lists, texts (lists of UTF-16 units), and what the scripts use of JavaScript: fields that may
--     be undefined or null, replace, trim, encodeURIComponent, decimals. Js.Floats is the arithmetic of `Number` and
--     `Math`, a parameter with the laws of comparison and remainder that the proofs use.
--   Ready: maplibre-ready.js. Library is `whenMapLibreReady`, Popup is `whenStopMapPopupReady`, Both is
--     `whenMapWithPopupReady`. The state has `done`, the frames in the queue with their counts, and the listeners; the
--     callback is any function on a state of the caller's.
--   Popup: stop-detail-popup.js. Escape is `escapeHtml`, Builders and Vehicle are the builders of HTML, Dates is
--     `formatRelativeFromIso`; `Date` is the parameter Dates.
--   Shared: maplibre-map-shared.js. Keys and Icons are the ids, the drawing and the registration of the vehicle
--     icons, Style is `createOsmRasterStyle` and `addDefaultMapControls`, Bearing is
--     `vehicleIconRotateDegreesFromLineString` with its helpers, Pulse is `vehiclePulseIsActive` and
--     `startVehiclePulseAnimation`, Visibility is `setLayerVisibility`, Marker is `loadMonoMarkerImage` with its
--     helpers.
--   Panel: the layer panels. Stop and Agency are `buildLayerPanel` of stop-map.js and agency-map.js, Route is
--     `buildRouteLayerPanel` of route-map.js, Rows is what the first two share; Button says what the button of a
--     panel offers.
--   Embed: the functions `bind…Embed` at the end of stop-map.js, route-map.js, nearby-map.js, agency-map.js and
--     static-stop-map.js. Waiting is the page while the helpers of Ready wait with `doInit`.
--   Clicks: the listeners of clicks on stops and vehicles in stop-map.js, route-map.js, nearby-map.js and
--     static-stop-map.js, with `fetchStopDetailed`; two popups, and the requests that have no answer yet.
--   Load: the sources and layers that the `load` handlers of the five scripts add, with their filters and least
--     zooms. Accepted is about what the map library refuses, Drawn about the layers that draw a feature, Loaded and
--     Works about the panels on the maps that are drawn.
--   Plain: `initNearbyMap`, `initAgencyMap` and `initStaticStopMap`: guard, address, request, map and `load` handler.
--     Stages says where the events bring a page, Stands what holds there, and Single that it does.
--   Refresh: `initStopMap` and `initRouteMap` around their maps: requests, loader, error text, clean-up and refresh.
--   Features: the features of stops and vehicles that the scripts make of their payloads. Places has those of stops in
--     route-map.js, nearby-map.js and static-stop-map.js, and `roughCirclePolygon`.
--   Table: SimplyTransport/static/static/tablesort.js. Ordered and Sorted are about the rows, Marks and Clicked about the
--     classes of the heads, Truthful about both, Bound about listeners that were added more than once. Js.Sort is
--     `Array.prototype.sort` and `<` on strings.
--   Tests: runs at concrete inputs, and the theorems at inputs that meet their hypotheses.
--
-- Parameters: the map library is Shared.Visibility.Layers (getLayer and the property `visibility`) and
-- Shared.Icons.Images (hasImage, addImage), each with the documented behaviour of these calls as laws;
-- Popup.Dates.Dates is `Date`, Js.Floats is the arithmetic, Table.Reading is `parseFloat` and `isNaN`,
-- Load.Drawn.Filters is how the map reads a filter, Load.Loaded.Adding is addLayer, Plain takes the texts of numbers,
-- and Clicks what the server answers for an address. Frames, events and answers of the browser are explicit
-- sequences.
--
-- Bounds: two functions run on fuel. Js.Decimal.decimal_from has one round more than the number, and its digits denote
-- the number (read_from-decimal), so that is enough; the decoder of Popup.Escape.Decoding, which is part of a
-- specification, takes a round for each unit. The loops over frames end by their own counters, 300 and 120.
--
-- Not modelled: the layouts and paints of the layers and the constants for them (so a label that gives way to another, or
-- a layer that the panel hides, counts as one that draws in Load.Drawn), the cursor over a layer, the vendored libraries,
-- the templates, and the Python server.
pub mod Common
pub mod Js
pub mod Ready
pub mod Popup
pub mod Shared
pub mod Panel
pub mod Embed
pub mod Clicks
pub mod Load
pub mod Refresh
pub mod Features
pub mod Plain
pub mod Table
mod Tests
