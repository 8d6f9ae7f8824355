-- ===== src/Kademlia.antt =====
-- ddht/kademlia.py, by its parts.
pub mod Distance
pub mod Table
pub mod Closest
