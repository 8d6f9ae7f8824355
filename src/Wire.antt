-- ===== src/Wire.antt =====
-- ddht/v5_1/packets.py: what a datagram of the protocol is made of, its encoding and its decoding.
pub mod Error
pub mod Header
pub mod Message
pub mod WhoAreYou
pub mod Handshake
pub mod Packet
