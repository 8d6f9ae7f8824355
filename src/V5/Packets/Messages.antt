-- ===== src/V5/Packets/Messages.antt =====
-- The encrypted parts of the packets of ddht/v5/packets.py: the auth response and the message.
use ddht.Prelude.{ℕ, Bool, Option, none, some, [], ◌∷◌, ◌++◌, nat_beq, if◌then◌else◌}
use ddht.Prelude.Bytes.{Bytes, bytes_eq, from_bytes}
use ddht.V5.Packets.{
  AuthHeaderPacket, AuthTagPacket, WhoAreYouPacket, auth_response_version, auth_scheme_name,
  zero_nonce, who_are_you_magic_suffix, or_raise, is_list, is_bytes, three_of,
}
use ddht.V5.Rlp.{Rlp, Items, bytes_item, list_item, end, item}
use ddht.Wire.Error.{Result, ok, raise, validation_error, ◌>>=◌, ◌>>◌, require}
use ddht.Wire.Packet.{Cipher, aesgcm_encrypt, aesgcm_decrypt}

-- The records of eth_enr as rlp sequences, and the messages with their registry. `none` of
-- `deserialize_enr` and of `rlp_decode` is an exception that the code catches.
pub record Formats : Type 1 where
  pub Enr : Type 0
  pub enr_items : Enr → Items
  pub deserialize_enr : Items → Option Enr
  pub Message : Type 0
  pub message_bytes : Message → Bytes
  pub is_registered : ℕ → Bool
  pub rlp_decode : ℕ → Bytes → Option Message

module _ (rlp : Rlp) (cipher : Cipher) (formats : Formats) where
  open rlp use {encode, decode, serialize_int}
  open formats use {
    Enr, enr_items, deserialize_enr, Message, message_bytes, is_registered, rlp_decode,
  }

  abbrev pub enr_or_empty : Option Enr → Items
  enr_or_empty none = end
  enr_or_empty (some enr) = enr_items enr

  unfoldable pub compute_encrypted_auth_response : Bytes → Bytes → Option Enr → Result Bytes
  unfolding aesgcm_encrypt
  compute_encrypted_auth_response auth_response_key id_nonce_signature enr =
      aesgcm_encrypt cipher auth_response_key zero_nonce
        (encode (
          list_item (
            item (bytes_item (serialize_int auth_response_version))
              (item (bytes_item id_nonce_signature) (item (list_item (enr_or_empty enr)) end)))))
        []

  unfoldable pub compute_encrypted_message : Bytes → Bytes → Message → Bytes → Result Bytes
  compute_encrypted_message key auth_tag m authenticated_data =
      aesgcm_encrypt cipher key auth_tag (message_bytes m) authenticated_data

  -- `AuthHeaderPacket.prepare`
  unfoldable pub prepare_auth_header :
      (tag auth_tag id_nonce : Bytes)
      → Message
      → (initiator_key id_nonce_signature auth_response_key : Bytes) → Option Enr
      → Bytes
      → Result AuthHeaderPacket
  prepare_auth_header tag auth_tag id_nonce m initiator_key id_nonce_signature auth_response_key enr
        ephemeral_public_key =
      do
        encrypted_auth_response ←
            compute_encrypted_auth_response auth_response_key id_nonce_signature enr
        encrypted_message ← compute_encrypted_message initiator_key auth_tag m tag
        ok (record {
          tag = tag;
          auth_header = record {
            auth_tag = auth_tag;
            id_nonce = id_nonce;
            scheme_name = auth_scheme_name;
            ephemeral_public_key = ephemeral_public_key;
            encrypted_auth_response = encrypted_auth_response;
          };
          encrypted_message = encrypted_message;
        })

  -- `AuthTagPacket.prepare`
  unfoldable pub prepare_auth_tag : (tag auth_tag : Bytes) → Message → Bytes → Result AuthTagPacket
  prepare_auth_tag tag auth_tag m key = do
    encrypted_message ← compute_encrypted_message key auth_tag m tag
    ok (record { tag = tag; auth_tag = auth_tag; encrypted_message = encrypted_message })

  unfoldable pub prepare_random : (tag auth_tag random_data : Bytes) → AuthTagPacket
  prepare_random tag auth_tag random_data = record {
    tag = tag;
    auth_tag = auth_tag;
    encrypted_message = random_data;
  }

  abbrev pub enr_of : Items → Result (Option Enr)
  enr_of end = ok none
  enr_of (item x xs) =
      or_raise validation_error (deserialize_enr (item x xs)) >>= λ enr. ok (some enr)

  unfoldable pub decrypt_auth_response : AuthHeaderPacket → Bytes → Result (Bytes × Option Enr)
  decrypt_auth_response p auth_response_key = do
    plain_text ←
        aesgcm_decrypt cipher auth_response_key zero_nonce p.auth_header.encrypted_auth_response []
    decoded_rlp ← or_raise validation_error (decode plain_text)
    elements ← is_list decoded_rlp
    fields ← three_of elements
    version_bytes ← is_bytes fields.0
    require (nat_beq (from_bytes version_bytes) auth_response_version) validation_error
    id_nonce_signature ← is_bytes fields.1
    serialized_enr ← is_list fields.2
    enr ← enr_of serialized_enr
    ok (id_nonce_signature, enr)

  abbrev pub message_of : Bytes → Result Message
  message_of [] = raise validation_error
  message_of (message_type ∷ encoded) =
      if is_registered message_type
      then or_raise validation_error (rlp_decode message_type encoded)
      else raise validation_error

  -- `_decrypt_message`, and the methods that call it
  unfoldable pub decrypt_message :
      (key auth_tag encrypted_message authenticated_data : Bytes) → Result Message
  decrypt_message key auth_tag encrypted_message authenticated_data = do
    plain_text ← aesgcm_decrypt cipher key auth_tag encrypted_message authenticated_data
    message_of plain_text

  unfoldable pub decrypt_auth_header_message : AuthHeaderPacket → Bytes → Result Message
  decrypt_auth_header_message p key =
      decrypt_message key p.auth_header.auth_tag p.encrypted_message p.tag

  unfoldable pub decrypt_auth_tag_message : AuthTagPacket → Bytes → Result Message
  decrypt_auth_tag_message p key = decrypt_message key p.auth_tag p.encrypted_message p.tag

-- `compute_who_are_you_magic` and `WhoAreYouPacket.prepare`
unfoldable pub compute_who_are_you_magic : (Bytes → Bytes) → Bytes → Bytes
compute_who_are_you_magic sha256 destination_node_id =
    sha256 (destination_node_id ++ who_are_you_magic_suffix)

unfoldable pub prepare_who_are_you :
    (Bytes → Bytes) → (destination_node_id token id_nonce : Bytes) → ℕ → WhoAreYouPacket
prepare_who_are_you sha256 destination_node_id token id_nonce enr_sequence_number = record {
  magic = compute_who_are_you_magic sha256 destination_node_id;
  token = bytes_item token;
  id_nonce = bytes_item id_nonce;
  enr_sequence_number = enr_sequence_number;
}
