-- ===== src/Panel.antt =====
-- The layer panels of the route map, the stop map and the agency map.
pub mod Route
pub mod Rows
pub mod Button
pub mod Stop
pub mod Agency
