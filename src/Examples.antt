-- ===== src/Examples.antt =====
-- Runs of the modelled code on small concrete inputs, and each property at one of them.
mod Alerts
mod Traffic
mod Sites
mod Network
mod Mail
mod Wire
mod State
mod Requests
