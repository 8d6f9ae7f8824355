-- ===== src/Alexandria.antt =====
-- ddht/v5_1/alexandria, by its parts.
pub mod Storage
pub mod Batch
pub mod Proximity
