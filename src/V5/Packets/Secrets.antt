-- ===== src/V5/Packets/Secrets.antt =====
-- What the recipient of a packet of ddht/v5/packets.py decrypts.
use ddht.Prelude.{ℕ, ◌≡◌, refl, Option, none, some, [], ◌∷◌, length, arith, true, ◌<◌, sym, ◌∙◌, ap}
use ddht.Prelude.Bytes.{Bytes, from_bytes}
use ddht.V5.Packets.{AuthHeaderPacket, AuthTagPacket, auth_scheme_name, zero_nonce}
use ddht.V5.Packets.Messages.{
  Formats, enr_or_empty, enr_of, compute_encrypted_auth_response, compute_encrypted_message,
  prepare_auth_header, prepare_auth_tag, decrypt_auth_response, decrypt_message,
  decrypt_auth_header_message, decrypt_auth_tag_message,
}
use ddht.V5.Rlp.{Rlp, Item, Items, bytes_item, list_item, end, item, items_length}
use ddht.Wire.Error.{ok_inj, ok}
use ddht.Wire.Packet.{Cipher, aesgcm_encrypt, aesgcm_decrypt, validate_length}

decrypts :
    (cipher : Cipher) (key nonce plain_text authenticated_data : Bytes)
    → length key ≡ 16
    → length nonce ≡ 12
    → (cipher_text : Bytes) × (aesgcm_encrypt cipher key nonce plain_text authenticated_data
        ≡ ok cipher_text)
      × (aesgcm_decrypt cipher key nonce cipher_text authenticated_data ≡ ok plain_text)
unfolding aesgcm_encrypt aesgcm_decrypt validate_length
decrypts cipher key nonce plain_text authenticated_data k n = (
  cipher.gcm_encrypt key nonce plain_text authenticated_data,
  ground (arith, k, n),
  ground (arith, k, n, cipher.gcm_decrypt-encrypt key nonce plain_text authenticated_data),
)

module _ (rlp : Rlp) (cipher : Cipher) (formats : Formats) where
  open rlp use {encode, decode, serialize_int}
  open formats use {
    Enr, enr_items, deserialize_enr, Message, message_bytes, is_registered, rlp_decode,
  }

  -- the registry and the codec read the message back from its bytes
  pub record IsReadable (m : Message) : Type 0 where
    pub message_type : ℕ
    pub encoded : Bytes
    pub bytes : message_bytes m ≡ message_type ∷ encoded
    pub registered : is_registered message_type ≡ true
    pub read_back : rlp_decode message_type encoded ≡ some m

  -- a record has entries, and eth_enr reads it back
  abbrev pub IsRecord : Option Enr → Type 0
  IsRecord none = Unit
  IsRecord (some enr) =
      (0 < items_length (enr_items enr)) × (deserialize_enr (enr_items enr) ≡ some enr)

  enr_of-items :
      (enr : Enr) (xs : Items)
      → 0 < items_length xs
      → deserialize_enr xs ≡ some enr
      → enr_of rlp cipher formats xs ≡ ok (some enr)
  enr_of-items enr end pos h = absurd (omega arith)
  enr_of-items enr (item x xs) pos h = rw h refl

  enr_of-record :
      (enr : Option Enr)
      → IsRecord enr
      → enr_of rlp cipher formats (enr_or_empty rlp cipher formats enr) ≡ ok enr
  enr_of-record none r = refl
  enr_of-record (some enr) r = enr_of-items enr (enr_items enr) r.0 r.1

  -- the items that the auth response is made of, and what is relied on for them
  abbrev pub auth_response_item : Bytes → Option Enr → Item
  auth_response_item id_nonce_signature enr = list_item (
      item (bytes_item (serialize_int 5)) (
        item (bytes_item id_nonce_signature)
          (item (list_item (enr_or_empty rlp cipher formats enr)) end)))

  pub record IsResponse (id_nonce_signature : Bytes) (enr : Option Enr) : Type 0 where
    pub version_read_back : from_bytes (serialize_int 5) ≡ 5
    pub read_back :
        decode (encode (auth_response_item id_nonce_signature enr))
        ≡ some (auth_response_item id_nonce_signature enr)
    pub enr_read_back : IsRecord enr

  message_decrypts :
      (key auth_tag : Bytes) (m : Message) (tag : Bytes)
      → length key ≡ 16
      → length auth_tag ≡ 12
      → IsReadable m
      → (encrypted : Bytes) × (compute_encrypted_message rlp cipher formats key auth_tag m tag
          ≡ ok encrypted)
        × (decrypt_message rlp cipher formats key auth_tag encrypted tag ≡ ok m)
  unfolding compute_encrypted_message decrypt_message
  message_decrypts key auth_tag m tag k n r =
      let (encrypted, made, read) = decrypts cipher key auth_tag (message_bytes m) tag k n in
      (encrypted, made, ground (arith, read, r.bytes, r.registered, r.read_back))

  response_decrypts :
      (p : AuthHeaderPacket) (key id_nonce_signature : Bytes) (enr : Option Enr)
      → length key ≡ 16
      → IsResponse id_nonce_signature enr
      → compute_encrypted_auth_response rlp cipher formats key id_nonce_signature enr
        ≡ ok p.auth_header.encrypted_auth_response
      → decrypt_auth_response rlp cipher formats p key ≡ ok (id_nonce_signature, enr)
  unfolding compute_encrypted_auth_response decrypt_auth_response
  response_decrypts p key id_nonce_signature enr k r made =
      let plain_text = encode (auth_response_item id_nonce_signature enr) in
      let (encrypted, encrypts, read) = decrypts cipher key zero_nonce plain_text [] k refl in
      let same : encrypted ≡ p.auth_header.encrypted_auth_response = ok_inj (sym encrypts ∙ made) in
      let opened : aesgcm_decrypt cipher key zero_nonce p.auth_header.encrypted_auth_response []
          ≡ ok plain_text =
        ap (λ (c : Bytes). aesgcm_decrypt cipher key zero_nonce c []) (sym same) ∙ read in
      ground (arith, opened, r.read_back, r.version_read_back, enr_of-record enr r.enr_read_back)

  -- A handshake packet can be prepared, and its recipient, who has the two keys, decrypts from it the signature and the record, if one was sent, and the message. So does the recipient of an ordinary packet with its message.
  pub prepare_auth_header-decrypt :
      (tag auth_tag id_nonce : Bytes) (m : Message)
      (initiator_key id_nonce_signature auth_response_key : Bytes) (enr : Option Enr)
      (ephemeral_public_key : Bytes)
      → length initiator_key ≡ 16
      → length auth_response_key ≡ 16
      → length auth_tag ≡ 12
      → IsReadable m
      → IsResponse id_nonce_signature enr
      → (p : AuthHeaderPacket) × (q : AuthTagPacket) × (prepare_auth_header rlp cipher formats tag
            auth_tag id_nonce m initiator_key id_nonce_signature auth_response_key enr
            ephemeral_public_key
          ≡ ok p)
        × (decrypt_auth_response rlp cipher formats p auth_response_key
            ≡ ok (id_nonce_signature, enr))
        × (decrypt_auth_header_message rlp cipher formats p initiator_key ≡ ok m)
        × (prepare_auth_tag rlp cipher formats tag auth_tag m initiator_key ≡ ok q)
        × (decrypt_auth_tag_message rlp cipher formats q initiator_key ≡ ok m)
  unfolding prepare_auth_header prepare_auth_tag decrypt_auth_header_message
      decrypt_auth_tag_message
  prepare_auth_header-decrypt tag auth_tag id_nonce m initiator_key id_nonce_signature
        auth_response_key enr ephemeral_public_key k a n r s =
      let (encrypted, made, read) = message_decrypts initiator_key auth_tag m tag k n r in
      let (response, encrypts, opens) =
        decrypts cipher auth_response_key zero_nonce
          (encode (auth_response_item id_nonce_signature enr)) [] a refl in
      let responds : compute_encrypted_auth_response rlp cipher formats auth_response_key
            id_nonce_signature enr
          ≡ ok response =
        unfold compute_encrypted_auth_response in encrypts in
      let p : AuthHeaderPacket = record {
        tag = tag;
        auth_header = record {
          auth_tag = auth_tag;
          id_nonce = id_nonce;
          scheme_name = auth_scheme_name;
          ephemeral_public_key = ephemeral_public_key;
          encrypted_auth_response = response;
        };
        encrypted_message = encrypted;
      } in
      (
        p,
        record { tag = tag; auth_tag = auth_tag; encrypted_message = encrypted },
        ground (arith, responds, made),
        response_decrypts p auth_response_key id_nonce_signature enr a s responds,
        read,
        ground (arith, made),
        read,
      )
