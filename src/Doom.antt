-- ===== src/Doom.antt =====
-- The guest code of the Doom port.
pub mod Fixed
pub mod Runtime
pub mod Memset
