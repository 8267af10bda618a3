-- ===== src/Tests.antt =====
-- Runs of the definitions at concrete inputs, and each theorem with hypotheses at an input that meets them.
mod Instances
mod Numbers
mod Waits
mod Popups
mod Helpers
mod Panels
mod Embeds
mod Clicks
mod Loads
mod Refreshes
mod Vehicles
mod Tables
mod Plains
