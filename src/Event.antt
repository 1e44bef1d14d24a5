-- ===== src/Event.antt =====
-- event_handling: what threads wait for.
pub mod AutoReset
pub mod Trigger
pub mod Tests
