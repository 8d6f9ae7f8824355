-- ===== src/Tests/Wire.antt =====
-- ddht/v5_1/packets.py at concrete packets, with a codec of one byte and a cipher that leaves the
-- bytes as they are.
use ddht.Prelude.Bytes.{Bytes, AllBytes, to_bytes, length-to_bytes}
use ddht.Wire.Error.{ok}
use ddht.Wire.Header
use ddht.Wire.Header.{Header, header_packet_size, protocol_id_v5, packet_version_1}
use ddht.Wire.Header.RoundTrip.{IsHeader, header_canonical, wire, from_wire_bytes-wire}
use ddht.Wire.WhoAreYou
use ddht.Wire.WhoAreYou.{WhoAreYouPacket, IsWhoAreYouPacket, who_are_you_round_trip}
use ddht.Wire.Handshake
use ddht.Wire.Handshake.{EnrCodec, HandshakePacket}
use ddht.Wire.Handshake.RoundTrip.{IsHandshakePacket, handshake_round_trip}
use ddht.Wire.Packet.{
  Cipher, who_are_you, Packet, prepare, to_wire_bytes, decode_packet, auth_data_to_wire_bytes,
}
use ddht.Wire.Packet.RoundTrip.{IsPacket, packet_round_trip, prepare-IsPacket}
use ddht.Prelude.{ℕ, ◌≡◌, refl, [], ◌∷◌, Option, some, none, arith, take-append, length}

abbrev one_byte : Bytes → Option ℕ
one_byte [] = none
one_byte (b ∷ _) = some b

abbrev pub codec : EnrCodec
codec = record {
  Enr = ℕ;
  encode = λ n. n ∷ [];
  decode = one_byte;
  encode_not_empty = λ n. omega arith;
  decode-encode = λ n. refl;
}

abbrev pub clear : Cipher
clear = record {
  gcm_encrypt = λ key nonce plain_text authenticated_data. plain_text;
  gcm_decrypt = λ key nonce cipher_text authenticated_data. some cipher_text;
  ctr_encrypt = λ key iv plain_text. plain_text;
  ctr_decrypt = λ key iv cipher_text. cipher_text;
  length-ctr_encrypt = λ key iv plain_text. refl;
  ctr_decrypt-append =
      λ key iv plain_text rest. take-append plain_text rest (length plain_text) refl;
  gcm_decrypt-encrypt = λ key nonce plain_text authenticated_data. refl;
}

abbrev pub zeros : ℕ → Bytes
zeros n = to_bytes n 0

abbrev pub header : Header
header = record {
  protocol_id = protocol_id_v5;
  version = packet_version_1;
  flag = 1;
  aes_gcm_nonce = zeros 12;
  auth_data_size = 24;
}

pub header-IsHeader : IsHeader header
header-IsHeader = record {
  protocol = refl;
  version_1 = refl;
  uint8_flag = omega arith;
  uint96_nonce = length-to_bytes 12 0;
  uint16_size = omega arith;
}

wire-AllBytes : AllBytes (wire header)
unfolding to_bytes
wire-AllBytes = ground arith

header_canonical_example : IsHeader header × (Header.to_wire_bytes header ≡ ok (wire header))
header_canonical_example =
    header_canonical (wire header) header wire-AllBytes
      (from_wire_bytes-wire header header-IsHeader)

abbrev pub challenge : WhoAreYouPacket
challenge = record { id_nonce = zeros 16; enr_sequence_number = 7 }

pub challenge-IsWhoAreYouPacket : IsWhoAreYouPacket challenge
challenge-IsWhoAreYouPacket = record {
  uint128_nonce = length-to_bytes 16 0;
  uint64_number = omega arith;
}

abbrev pub completion : HandshakePacket ℕ
completion = record {
  auth_data_head = record {
    source_node_id = zeros 32;
    signature_size = 64;
    ephemeral_key_size = 33;
  };
  id_signature = zeros 64;
  ephemeral_public_key = zeros 33;
  enr_record = some 9;
}

completion-IsHandshakePacket : IsHandshakePacket codec completion
completion-IsHandshakePacket = record {
  head = record {
    bytes32_id = length-to_bytes 32 0;
    uint8_signature = omega arith;
    uint8_key = omega arith;
  };
  signature = length-to_bytes 64 0;
  key = length-to_bytes 33 0;
}

handshake_round_trip_example :
    (b : Bytes) × (Handshake.to_wire_bytes codec completion ≡ ok b)
    × (Handshake.from_wire_bytes codec b ≡ ok completion)
handshake_round_trip_example = handshake_round_trip codec completion completion-IsHandshakePacket

-- the packet of a challenge
abbrev pub packet : Packet ℕ
packet = record {
  iv = zeros 16;
  header = header;
  auth_data = who_are_you challenge;
  message_cipher_text = [];
  dest_node_id = zeros 32;
}

prepared :
    prepare clear codec
      (zeros 12)
      (zeros 16)
      none
      (who_are_you challenge)
      (zeros 32)
      protocol_id_v5
      (zeros 16)
    ≡ ok packet
unfolding prepare auth_data_to_wire_bytes WhoAreYou.to_wire_bytes Header.to_wire_bytes to_bytes
prepared = refl

prepare-IsPacket_example : IsPacket clear codec packet
prepare-IsPacket_example =
    prepare-IsPacket clear codec (zeros 12) (zeros 16) none (who_are_you challenge) (zeros 32)
      (zeros 16) packet (length-to_bytes 12 0) (length-to_bytes 16 0)
      (omega (arith, length-to_bytes 32 0)) challenge-IsWhoAreYouPacket prepared

packet-IsPacket : IsPacket clear codec packet
packet-IsPacket =
    prepare-IsPacket clear codec (zeros 12) (zeros 16) none (who_are_you challenge) (zeros 32)
      (zeros 16) packet (length-to_bytes 12 0) (length-to_bytes 16 0)
      (omega (arith, length-to_bytes 32 0)) challenge-IsWhoAreYouPacket prepared

packet_round_trip_example :
    (b : Bytes) × (to_wire_bytes clear codec packet ≡ ok b)
    × (decode_packet clear codec b packet.dest_node_id ≡ ok packet)
packet_round_trip_example = packet_round_trip clear codec packet packet-IsPacket
