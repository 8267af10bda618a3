-- ===== src/Ready.antt =====
-- static/static/js/maplibre-ready.js: callbacks that wait for the deferred scripts.
pub mod Library
pub mod Popup
pub mod Both
