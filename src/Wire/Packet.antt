-- ===== src/Wire/Packet.antt =====
-- `Packet` and `decode_packet` of ddht/v5_1/packets.py, over the ciphers of ddht/encryption.py.
-- AES is that of the package cryptography: the parameter `Cipher`.
pub mod RoundTrip
use ddht.Prelude.{
  ℕ, ◌+◌, ◌≡◌, ◌++◌, Bool, true, false, Option, none, some, [], nat_beq, ltb, length, take, drop,
  if◌then◌else◌,
}
use ddht.Prelude.Bytes.{Bytes}
use ddht.Wire.Error.{
  Result, ok, raise, decoding_error, decryption_error, validation_error, value_error, ◌>>=◌, ◌>>◌,
  require,
}
use ddht.Wire.Header
use ddht.Wire.Header.{Header, protocol_id_v5, packet_version_1, header_packet_size}
use ddht.Wire.Message
use ddht.Wire.Message.{MessagePacket}
use ddht.Wire.WhoAreYou
use ddht.Wire.WhoAreYou.{WhoAreYouPacket}
use ddht.Wire.Handshake
use ddht.Wire.Handshake.{EnrCodec, HandshakePacket}

-- AES-GCM and AES-CTR for a key of 16 bytes. What the code relies on: CTR is a stream mode, so it
-- keeps the length, and what it decrypts first does not depend on what follows; GCM decrypts what
-- it encrypted under the same key, nonce and authenticated data, and `none` is `InvalidTag`.
pub record Cipher : Type 0 where
  pub gcm_encrypt : Bytes → Bytes → Bytes → Bytes → Bytes
  pub gcm_decrypt : Bytes → Bytes → Bytes → Bytes → Option Bytes
  pub ctr_encrypt : Bytes → Bytes → Bytes → Bytes
  pub ctr_decrypt : Bytes → Bytes → Bytes → Bytes
  pub length-ctr_encrypt :
      (key iv plain_text : Bytes) → length (ctr_encrypt key iv plain_text) ≡ length plain_text
  pub ctr_decrypt-append :
      (key iv plain_text rest : Bytes)
      → take (length plain_text) (ctr_decrypt key iv (ctr_encrypt key iv plain_text ++ rest))
        ≡ plain_text
  pub gcm_decrypt-encrypt :
      (key nonce plain_text authenticated_data : Bytes)
      → gcm_decrypt key nonce
          (gcm_encrypt key nonce plain_text authenticated_data)
          authenticated_data
        ≡ some plain_text

abbrev pub aes128_key_size : ℕ
aes128_key_size = 16

abbrev pub nonce_size : ℕ
nonce_size = 12

-- ddht/validation.py
unfoldable pub validate_length : Bytes → ℕ → Result (Unit {0})
validate_length value size = require (nat_beq (length value) size) validation_error

module _ (cipher : Cipher) where
  open cipher use {gcm_encrypt, gcm_decrypt, ctr_encrypt, ctr_decrypt}

  unfoldable pub aesgcm_encrypt : Bytes → Bytes → Bytes → Bytes → Result Bytes
  unfolding validate_length
  aesgcm_encrypt key nonce plain_text authenticated_data = do
    validate_length key aes128_key_size
    validate_length nonce nonce_size
    ok (gcm_encrypt key nonce plain_text authenticated_data)

  unfoldable pub aesgcm_decrypt : Bytes → Bytes → Bytes → Bytes → Result Bytes
  unfolding validate_length
  aesgcm_decrypt key nonce cipher_text authenticated_data = do
    validate_length key aes128_key_size
    validate_length nonce nonce_size
    elim (gcm_decrypt key nonce cipher_text authenticated_data) [
      | none ↦ raise decryption_error
      | some plain_text ↦ ok plain_text
    ]

  -- `AES(key)` and the cipher's check of the block size raise a ValueError; the key sizes of AES-192
  -- and AES-256 do not occur, since a masking key has at most 16 bytes
  unfoldable pub aesctr_encrypt : Bytes → Bytes → Bytes → Result Bytes
  aesctr_encrypt key iv plain_text = do
    require (nat_beq (length key) aes128_key_size) value_error
    require (nat_beq (length iv) 16) value_error
    ok (ctr_encrypt key iv plain_text)

  -- the stream, as the list of the bytes that it yields; `AES(key)` stands outside the `try`
  unfoldable pub aesctr_decrypt_stream : Bytes → Bytes → Bytes → Result Bytes
  aesctr_decrypt_stream key iv cipher_text = do
    require (nat_beq (length key) aes128_key_size) value_error
    require (nat_beq (length iv) 16) decryption_error
    ok (ctr_decrypt key iv cipher_text)

pub data AuthData (Enr : Type 0) : Type 0 where
  message : MessagePacket → AuthData Enr
  who_are_you : WhoAreYouPacket → AuthData Enr
  handshake : HandshakePacket Enr → AuthData Enr

-- `auth_data.flag`
abbrev pub flag_of : {Enr : Type 0} → AuthData Enr → ℕ
flag_of (message p) = 0
flag_of (who_are_you p) = 1
flag_of (handshake p) = 2

pub record Packet (Enr : Type 0) : Type 0 where
  pub iv : Bytes
  pub header : Header
  pub auth_data : AuthData Enr
  pub message_cipher_text : Bytes
  pub dest_node_id : Bytes

-- the plain text of a message; `none` is `EmptyMessage`
abbrev pub PlainText : Type 0
PlainText = Option Bytes

unfoldable pub is_message : {Enr : Type 0} → Packet Enr → Bool
is_message p = nat_beq (flag_of p.auth_data) 0

unfoldable pub is_who_are_you : {Enr : Type 0} → Packet Enr → Bool
is_who_are_you p = nat_beq (flag_of p.auth_data) 1

unfoldable pub is_handshake : {Enr : Type 0} → Packet Enr → Bool
is_handshake p = nat_beq (flag_of p.auth_data) 2

module _ (cipher : Cipher) (c : EnrCodec) where
  open c use {Enr}

  unfoldable pub auth_data_to_wire_bytes : AuthData Enr → Result Bytes
  auth_data_to_wire_bytes (message p) = Message.to_wire_bytes p
  auth_data_to_wire_bytes (who_are_you p) = WhoAreYou.to_wire_bytes p
  auth_data_to_wire_bytes (handshake p) = Handshake.to_wire_bytes c p

  unfoldable pub challenge_data : Packet Enr → Result Bytes
  challenge_data p = do
    header_bytes ← Header.to_wire_bytes p.header
    auth_data_bytes ← auth_data_to_wire_bytes p.auth_data
    ok (p.iv ++ (header_bytes ++ auth_data_bytes))

  abbrev pub encrypt_message : Bytes → Bytes → PlainText → Bytes → Result Bytes
  encrypt_message key nonce none authenticated_data = ok []
  encrypt_message key nonce (some plain_text) authenticated_data =
      aesgcm_encrypt cipher key nonce plain_text authenticated_data

  -- `Packet.prepare`; the iv is given, or drawn by the caller
  unfoldable pub prepare :
      Bytes → Bytes → PlainText → AuthData Enr → Bytes → Bytes → Bytes → Result (Packet Enr)
  prepare aes_gcm_nonce initiator_key plain_text auth_data dest_node_id protocol_id iv = do
    auth_data_bytes ← auth_data_to_wire_bytes auth_data
    let header : Header = record {
      protocol_id = protocol_id;
      version = packet_version_1;
      flag = flag_of auth_data;
      aes_gcm_nonce = aes_gcm_nonce;
      auth_data_size = length auth_data_bytes;
    }
    header_bytes ← Header.to_wire_bytes header
    message_cipher_text ←
        encrypt_message initiator_key aes_gcm_nonce plain_text
          (iv ++ (header_bytes ++ auth_data_bytes))
    ok (record {
      iv = iv;
      header = header;
      auth_data = auth_data;
      message_cipher_text = message_cipher_text;
      dest_node_id = dest_node_id;
    })

  unfoldable pub to_wire_bytes : Packet Enr → Result Bytes
  to_wire_bytes p = do
    auth_data_bytes ← auth_data_to_wire_bytes p.auth_data
    header_wire_bytes ← Header.to_wire_bytes p.header
    let masking_key = take 16 p.dest_node_id
    masked_header ← aesctr_encrypt cipher masking_key p.iv (header_wire_bytes ++ auth_data_bytes)
    ok (p.iv ++ (masked_header ++ p.message_cipher_text))

  -- the ladder on `header.flag`
  unfoldable pub decode_auth_data : ℕ → Bytes → Result (AuthData Enr)
  decode_auth_data flag auth_data_bytes =
      if nat_beq flag 0
      then (do p ← Message.from_wire_bytes auth_data_bytes; ok (message p))
      else if nat_beq flag 1
      then (do p ← WhoAreYou.from_wire_bytes auth_data_bytes; ok (who_are_you p))
      else if nat_beq flag 2
      then (do p ← Handshake.from_wire_bytes c auth_data_bytes; ok (handshake p))
      else raise decoding_error

  unfoldable pub decode_packet : Bytes → Bytes → Result (Packet Enr)
  decode_packet datagram local_node_id = do
    let iv = take 16 datagram
    let masking_key = take 16 local_node_id
    stream ← aesctr_decrypt_stream cipher masking_key iv (drop 16 datagram)
    header ← Header.from_wire_bytes (take header_packet_size stream)
    let auth_data_bytes = take header.auth_data_size (drop header_packet_size stream)
    auth_data ← decode_auth_data header.flag auth_data_bytes
    let message_cipher_text = drop (16 + header_packet_size + header.auth_data_size) datagram
    ok (record {
      iv = iv;
      header = header;
      auth_data = auth_data;
      message_cipher_text = message_cipher_text;
      dest_node_id = local_node_id;
    })
