-- ===== src/V5.antt =====
-- Protocol v5: packets, tags, handshakes and the packer of one peer, and the table of topics (ddht/v5).
pub mod Rlp
pub mod Tags
pub mod Packets
pub mod TopicTable
pub mod Handshake
pub mod PeerPacker
