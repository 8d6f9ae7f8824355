-- ===== src/Session.antt =====
-- ddht/v5_1/session.py: the two ends of a session, and the handshake schemes that they use.
pub mod Scheme
pub mod State
pub mod Messages
pub mod Base
pub mod Initiator
pub mod Recipient
pub mod Progress
pub mod Branches
pub mod Nonces
pub mod Unreadable
