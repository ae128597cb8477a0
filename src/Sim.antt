-- ===== src/Sim.antt =====
-- The simulator around the core: its configuration.
pub mod Config
