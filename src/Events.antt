-- ===== src/Events.antt =====
-- Queries over events (sprintctl/eventcore.py).
pub mod Takeups
pub mod Paired
pub mod Current
pub mod Accounted
