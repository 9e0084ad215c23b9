-- ===== src/Background.antt =====
-- The background tasks of main.py: the expiry loop, the administrators' notices and their schedule,
-- and the daily snapshots.
pub mod Messages
pub mod Expire
pub mod Admins
pub mod Schedule
pub mod Daily
