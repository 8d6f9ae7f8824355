-- ===== src/Wire/Handshake/RoundTrip.antt =====
-- Encoding and decoding of handshake packets, ddht/v5_1/packets.py.
use ddht.Prelude.{
  ℕ, ◌+◌, ◌≤◌, ◌<◌, ◌≡◌, refl, ◌++◌, Option, none, some, nat_beq_iff, ltb, length, take-append,
  drop-append, take_of_length-le, length-append, arith, false,
}
use ddht.Prelude.Bytes.{Bytes, to_bytes, length-to_bytes, from_bytes-to_bytes}
use ddht.Wire.Error.{ok}
use ddht.Wire.Handshake.{
  HandshakeHeader, header_to_wire_bytes, header_from_wire_bytes, EnrCodec, HandshakePacket,
  to_wire_bytes, from_wire_bytes, record_bytes, decode_record, handshake_header_packet_size,
}

pub record IsHandshakeHeader (h : HandshakeHeader) : Type 0 where
  pub bytes32_id : length h.source_node_id ≡ 32
  pub uint8_signature : h.signature_size < 256
  pub uint8_key : h.ephemeral_key_size < 256

abbrev header_wire : HandshakeHeader → Bytes
header_wire h = h.source_node_id ++ (to_bytes 1 h.signature_size ++ to_bytes 1 h.ephemeral_key_size)

module _ (h : HandshakeHeader) (v : IsHandshakeHeader h) where
  header_to_wire_bytes-wire : header_to_wire_bytes h ≡ ok (header_wire h)
  unfolding header_to_wire_bytes
  header_to_wire_bytes-wire = ground (arith, v.uint8_signature, v.uint8_key)

  length-header_wire : length (header_wire h) ≡ handshake_header_packet_size
  length-header_wire = omega (
    arith,
    length-append h.source_node_id (to_bytes 1 h.signature_size ++ to_bytes 1 h.ephemeral_key_size),
    length-append (to_bytes 1 h.signature_size) (to_bytes 1 h.ephemeral_key_size),
    length-to_bytes 1 h.signature_size,
    length-to_bytes 1 h.ephemeral_key_size,
    v.bytes32_id,
  )

  header_from_wire_bytes-wire : header_from_wire_bytes (header_wire h) ≡ ok h
  unfolding header_from_wire_bytes
  header_from_wire_bytes-wire =
      rw
        (
          (nat_beq_iff _ handshake_header_packet_size).1 length-header_wire,
          take-append h.source_node_id (signature ++ key) 32 v.bytes32_id,
          drop-append h.source_node_id (signature ++ key) 32 v.bytes32_id,
          take-append signature key 1 (length-to_bytes 1 h.signature_size),
          drop-append signature key 1 (length-to_bytes 1 h.signature_size),
          take_of_length-le 1 key (omega (arith, length-to_bytes 1 h.ephemeral_key_size)),
          from_bytes-to_bytes 1 h.signature_size (omega (arith, v.uint8_signature)),
          from_bytes-to_bytes 1 h.ephemeral_key_size (omega (arith, v.uint8_key)),
        )
        refl
    where
      signature : Bytes
      signature = to_bytes 1 h.signature_size

      key : Bytes
      key = to_bytes 1 h.ephemeral_key_size

module _ (c : EnrCodec) where
  open c use {Enr, encode, decode, encode_not_empty, decode-encode}

  -- the sizes in the head are those of the two fields
  pub record IsHandshakePacket (p : HandshakePacket Enr) : Type 0 where
    pub head : IsHandshakeHeader p.auth_data_head
    pub signature : length p.id_signature ≡ p.auth_data_head.signature_size
    pub key : length p.ephemeral_public_key ≡ p.auth_data_head.ephemeral_key_size

  decode_record-record_bytes : (r : Option Enr) → decode_record c (record_bytes c r) ≡ ok r
  unfolding decode_record
  decode_record-record_bytes none = refl
  decode_record-record_bytes (some enr) = ground (arith, encode_not_empty enr, decode-encode enr)

  -- A handshake packet whose head gives the sizes of its signature and key is encoded, and decoded
  -- again, with its node record or without.
  pub handshake_round_trip :
      (p : HandshakePacket Enr)
      → IsHandshakePacket p
      → (b : Bytes) × (to_wire_bytes c p ≡ ok b) × (from_wire_bytes c b ≡ ok p)
  unfolding to_wire_bytes from_wire_bytes
  handshake_round_trip p v = (
    header_wire p.auth_data_head ++ after_head,
    rw (header_to_wire_bytes-wire p.auth_data_head v.head),
    rw
        (
          take-append (header_wire p.auth_data_head) after_head handshake_header_packet_size
              (length-header_wire p.auth_data_head v.head),
          header_from_wire_bytes-wire p.auth_data_head v.head,
          drop-append (header_wire p.auth_data_head) after_head handshake_header_packet_size
              (length-header_wire p.auth_data_head v.head),
          enough,
          take-append p.id_signature after_signature signature_size v.signature,
          drop-append p.id_signature after_signature signature_size v.signature,
          take-append p.ephemeral_public_key after_key key_size v.key,
          drop-append p.ephemeral_public_key after_key key_size v.key,
          decode_record-record_bytes p.enr_record,
        )
        refl,
  )
    where
      signature_size : ℕ
      signature_size = p.auth_data_head.signature_size

      key_size : ℕ
      key_size = p.auth_data_head.ephemeral_key_size

      after_key : Bytes
      after_key = record_bytes c p.enr_record

      after_signature : Bytes
      after_signature = p.ephemeral_public_key ++ after_key

      after_head : Bytes
      after_head = p.id_signature ++ after_signature

      whole : Bytes
      whole = header_wire p.auth_data_head ++ after_head

      expected : ℕ
      expected = handshake_header_packet_size + signature_size + key_size

      expected-le : expected ≤ length whole
      expected-le = omega (
        arith,
        length-append (header_wire p.auth_data_head) after_head,
        length-append p.id_signature after_signature,
        length-append p.ephemeral_public_key after_key,
        length-header_wire p.auth_data_head v.head,
        v.signature,
        v.key,
      )

      enough : ltb (length whole) expected ≡ false
      enough = ground (arith, expected-le)
