-- ===== src/Popup.antt =====
-- static/static/js/stop-detail-popup.js: the HTML of the map popups.
pub mod Escape
pub mod Builders
pub mod Inert
pub mod Dates
pub mod Vehicle
