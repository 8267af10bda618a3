-- ===== src/Shared.antt =====
-- static/static/js/maplibre-map-shared.js: constants and helpers of the five maps.
pub mod Style
pub mod Keys
pub mod Icons
pub mod Bearing
pub mod Pulse
pub mod Visibility
pub mod Marker
