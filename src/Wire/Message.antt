-- ===== src/Wire/Message.antt =====
-- `MessagePacket` of ddht/v5_1/packets.py: the node id of the sender.
use ddht.Prelude.{ℕ, ◌≡◌, refl, nat_beq, length, arith}
use ddht.Prelude.Bytes.{Bytes}
use ddht.Wire.Error.{Result, ok, decoding_error, ◌>>◌, require}

abbrev pub message_packet_size : ℕ
message_packet_size = 32

pub record MessagePacket : Type 0 where
  pub source_node_id : Bytes

unfoldable pub to_wire_bytes : MessagePacket → Result Bytes
to_wire_bytes p = ok p.source_node_id

unfoldable pub from_wire_bytes : Bytes → Result MessagePacket
from_wire_bytes data_bytes = do
  require (nat_beq (length data_bytes) message_packet_size) decoding_error
  ok (record { source_node_id = data_bytes })

abbrev pub IsMessagePacket : MessagePacket → Type 0
IsMessagePacket p = length p.source_node_id ≡ message_packet_size

pub message_round_trip :
    (p : MessagePacket)
    → IsMessagePacket p
    → (b : Bytes) × (to_wire_bytes p ≡ ok b) × (from_wire_bytes b ≡ ok p)
unfolding to_wire_bytes from_wire_bytes
message_round_trip p v = (p.source_node_id, refl, ground arith)
