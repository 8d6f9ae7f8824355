-- ===== src/Wire/Handshake.antt =====
-- `HandshakeHeader` and `HandshakePacket` of ddht/v5_1/packets.py. The record of a node (ENR) and
-- its RLP encoding are those of the packages eth_enr and rlp: the parameter `EnrCodec`.
pub mod RoundTrip
use ddht.Prelude.{
  ℕ, ◌<◌, ◌≡◌, ◌++◌, Option, none, some, [], nat_beq, ltb, leb, not, length, take, drop, arith,
  if◌then◌else◌, ◌+◌,
}
use ddht.Prelude.Bytes.{Bytes, from_bytes, to_bytes}
use ddht.Wire.Error.{Result, ok, raise, decoding_error, ◌>>=◌, ◌>>◌, require, uint8_to_bytes}

abbrev pub handshake_header_packet_size : ℕ
handshake_header_packet_size = 34

pub record HandshakeHeader : Type 0 where
  pub source_node_id : Bytes
  pub signature_size : ℕ
  pub ephemeral_key_size : ℕ

unfoldable pub header_to_wire_bytes : HandshakeHeader → Result Bytes
header_to_wire_bytes h = do
  signature_size ← uint8_to_bytes h.signature_size
  ephemeral_key_size ← uint8_to_bytes h.ephemeral_key_size
  ok (h.source_node_id ++ (signature_size ++ ephemeral_key_size))

unfoldable pub header_from_wire_bytes : Bytes → Result HandshakeHeader
header_from_wire_bytes data_bytes = do
  require (nat_beq (length data_bytes) handshake_header_packet_size) decoding_error
  let source_node_id = take 32 data_bytes
  let sizes = drop 32 data_bytes
  ok (record {
    source_node_id = source_node_id;
    signature_size = from_bytes (take 1 sizes);
    ephemeral_key_size = from_bytes (take 1 (drop 1 sizes));
  })

-- `rlp.encode(enr, ENRSedes)` and `rlp.decode(data, sedes=ENRSedes)`; `none` is `rlp.DecodingError`.
-- What the code relies on: an encoding is not empty, and decodes to what was encoded.
pub record EnrCodec : Type 1 where
  pub Enr : Type 0
  pub encode : Enr → Bytes
  pub decode : Bytes → Option Enr
  pub encode_not_empty : (enr : Enr) → 0 < length (encode enr)
  pub decode-encode : (enr : Enr) → decode (encode enr) ≡ some enr

pub record HandshakePacket (Enr : Type 0) : Type 0 where
  pub auth_data_head : HandshakeHeader
  pub id_signature : Bytes
  pub ephemeral_public_key : Bytes
  pub enr_record : Option Enr

module _ (c : EnrCodec) where
  open c use {Enr, encode, decode}

  abbrev pub record_bytes : Option Enr → Bytes
  record_bytes none = []
  record_bytes (some enr) = encode enr

  unfoldable pub to_wire_bytes : HandshakePacket Enr → Result Bytes
  to_wire_bytes p = do
    head ← header_to_wire_bytes p.auth_data_head
    ok (head ++ (p.id_signature ++ (p.ephemeral_public_key ++ record_bytes p.enr_record)))

  unfoldable pub decode_record : Bytes → Result (Option Enr)
  decode_record enr_bytes =
      if ltb 0 (length enr_bytes)
      then (elim (decode enr_bytes) [ none ↦ raise decoding_error | some enr ↦ ok (some enr) ])
      else ok none

  unfoldable pub from_wire_bytes : Bytes → Result (HandshakePacket Enr)
  from_wire_bytes data_bytes = do
    head ← header_from_wire_bytes (take handshake_header_packet_size data_bytes)
    let after_head = drop handshake_header_packet_size data_bytes
    let expected_length =
        handshake_header_packet_size + head.signature_size + head.ephemeral_key_size
    require (not (ltb (length data_bytes) expected_length)) decoding_error
    let id_signature = take head.signature_size after_head
    let after_signature = drop head.signature_size after_head
    let ephemeral_public_key = take head.ephemeral_key_size after_signature
    let enr_bytes = drop head.ephemeral_key_size after_signature
    enr ← decode_record enr_bytes
    ok (record {
      auth_data_head = head;
      id_signature = id_signature;
      ephemeral_public_key = ephemeral_public_key;
      enr_record = enr;
    })
