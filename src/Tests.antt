-- ===== src/Tests.antt =====
-- The theorems at concrete inputs.
pub mod Kademlia
pub mod Wire
pub mod ShortRlp
pub mod V5
pub mod Alexandria
pub mod Queues
pub mod Pool
pub mod V5Secrets
pub mod V5Handshake
pub mod V5Packer
pub mod Session
pub mod Dispatcher
pub mod FlatTable
