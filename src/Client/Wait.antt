-- ===== src/Client/Wait.antt =====
-- The loop of `waitForJobResult`: its fuel, how long it sleeps, and what it waits for.
pub mod Bounds
pub mod Progress
pub mod Delivery
pub mod Rounds
pub mod Timeout
