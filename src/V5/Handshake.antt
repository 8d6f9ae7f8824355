-- ===== src/V5/Handshake.antt =====
-- `HandshakeInitiator` and `HandshakeRecipient` of ddht/v5/handshake.py, with the scheme of
-- ddht/v5/handshake_schemes.py. What `secrets` returns is an argument. The records (eth_enr) and
-- eth_keys' encoding of points are parameters; the identity scheme of every record is V4.
pub mod Completes
pub mod Accepts
use ddht.Prelude.{
  ℕ, ◌≡◌, Bool, true, false, not, ◌&&◌, Option, none, some, [], ◌∷◌, ◌++◌, ltb, leb, ◌==◌, length,
  if◌then◌else◌,
}
use ddht.Prelude.Bytes.{Bytes, bytes_eq}
use ddht.Session.Scheme.{Crypto, SessionKeys, compute_session_keys, parsed}
use ddht.V5.Packets.{
  Packet, AuthHeaderPacket, AuthTagPacket, WhoAreYouPacket, auth_header, auth_tag, who_are_you,
}
use ddht.V5.Packets.Messages.{
  Formats, prepare_random, prepare_auth_header, prepare_who_are_you, decrypt_auth_response,
  decrypt_auth_header_message,
}
use ddht.V5.Rlp.{Rlp, Item, bytes_item, list_item}
use ddht.V5.Tags.{compute_tag, recover_source_id_from_tag}
use ddht.Wire.Error.{
  Error, Result, ok, raise, validation_error, decryption_error, handshake_failure, value_error,
  type_error, ◌>>=◌, ◌>>◌, require, key_error,
}
use ddht.Wire.Packet.{Cipher}

-- `b"discovery-id-nonce"`
abbrev pub id_nonce_signature_prefix : Bytes
id_nonce_signature_prefix =
    100 ∷ 105 ∷ 115 ∷ 99 ∷ 111 ∷ 118 ∷ 101 ∷ 114 ∷ 121 ∷ 45 ∷ 105 ∷ 100 ∷ 45 ∷ 110 ∷ 111 ∷ 110 ∷ 99
    ∷ 101 ∷ []

-- The packages together. A point is also encoded in 64 bytes, which are read back; a record has an
-- id, a compressed public key and a sequence number, and its signature is valid or not.
pub record Packages : Type 1 where
  pub rlp : Rlp
  pub cipher : Cipher
  pub formats : Formats
  pub crypto : Crypto
  pub to_uncompressed : crypto.Point → Bytes
  pub node_id : formats.Enr → Bytes
  pub public_key : formats.Enr → Bytes
  pub sequence_number : formats.Enr → ℕ
  pub has_valid_signature : formats.Enr → Bool
  pub has_v4_scheme : formats.Enr → Bool
  pub length-to_uncompressed : (p : crypto.Point) → length (to_uncompressed p) ≡ 64
  pub from_uncompressed-to_uncompressed :
      (p : crypto.Point) → crypto.from_uncompressed (to_uncompressed p) ≡ some p

-- the `except` clauses that turn a DecryptionError or a ValidationError into a HandshakeFailure
abbrev pub as_failure {ℓ} : {A : Type ℓ} → Result A → Result A
as_failure (ok a) = ok a
as_failure (raise decryption_error) = raise handshake_failure
as_failure (raise validation_error) = raise handshake_failure
as_failure (raise e) = raise e

-- a value that a package takes for bytes
abbrev pub as_bytes : Item → Result Bytes
as_bytes (bytes_item bs) = ok bs
as_bytes (list_item xs) = raise type_error

module _ (packages : Packages) where
  open packages use {
    rlp, cipher, formats, crypto, to_uncompressed, node_id, public_key, sequence_number,
    has_valid_signature, has_v4_scheme,
  }
  open formats use {Enr, Message}

  -- the scheme's `create_id_nonce_signature_input`, and what is made of it
  unfoldable pub create_id_nonce_signature_input : Bytes → Bytes → Bytes
  create_id_nonce_signature_input id_nonce ephemeral_public_key =
      crypto.sha256 (id_nonce_signature_prefix ++ (id_nonce ++ ephemeral_public_key))

  unfoldable pub create_id_nonce_signature : Bytes → Bytes → Bytes → Bytes
  create_id_nonce_signature id_nonce ephemeral_public_key private_key =
      crypto.sign private_key (create_id_nonce_signature_input id_nonce ephemeral_public_key)

  unfoldable pub validate_id_nonce_signature : Bytes → Bytes → Bytes → Bytes → Result (Unit {0})
  validate_id_nonce_signature id_nonce ephemeral_public_key signature key = do
    point ← parsed crypto (crypto.from_compressed key)
    require
        (crypto.verify point signature
          (create_id_nonce_signature_input id_nonce ephemeral_public_key))
        validation_error

  pub record HandshakeResult : Type 0 where
    pub session_keys : SessionKeys
    pub enr : Option Enr
    pub message : Option Message
    pub auth_header_packet : Option AuthHeaderPacket

  pub record Initiator : Type 0 where
    pub local_private_key : Bytes
    pub local_enr : Enr
    pub remote_enr : Enr
    pub initial_message : Message
    pub initiating_packet : AuthTagPacket

  -- the property `handshake_scheme`, of the record that the participant goes by: the registry has the
  -- scheme V4
  abbrev pub handshake_scheme : Enr → Result (Unit {0})
  handshake_scheme enr = require (has_v4_scheme enr) key_error

  -- the property `tag`
  abbrev pub tag_between : Enr → Bytes → Result Bytes
  tag_between local_enr remote_node_id =
      compute_tag crypto.sha256 (node_id local_enr) remote_node_id

  unfoldable pub init_initiator :
      Bytes → Enr → Enr → Message → (new_auth_tag random_data : Bytes) → Result Initiator
  init_initiator local_private_key local_enr remote_enr initial_message new_auth_tag random_data =
      do
        tag ← tag_between local_enr (node_id remote_enr)
        ok (record {
          local_private_key = local_private_key;
          local_enr = local_enr;
          remote_enr = remote_enr;
          initial_message = initial_message;
          initiating_packet = prepare_random rlp cipher formats tag new_auth_tag random_data;
        })

  -- `is_response_packet` of the initiator, and the packet where it is one
  abbrev pub expected_who_are_you : Initiator → Packet → Result WhoAreYouPacket
  expected_who_are_you i (who_are_you p) = do
    token ← as_bytes p.token
    require (token == i.initiating_packet.auth_tag) value_error
    ok p
  expected_who_are_you i (auth_header p) = raise value_error
  expected_who_are_you i (auth_tag p) = raise value_error

  -- `complete_handshake` of the initiator
  unfoldable pub complete_initiator :
      Initiator → Packet → (ephemeral_private_key new_auth_tag : Bytes) → Result HandshakeResult
  complete_initiator i response_packet ephemeral_private_key new_auth_tag = do
    p ← expected_who_are_you i response_packet
    handshake_scheme i.remote_enr
    let ephemeral_public_key = to_uncompressed (crypto.public_point ephemeral_private_key)
    remote_point ← parsed crypto (crypto.from_compressed (public_key i.remote_enr))
    id_nonce ← as_bytes p.id_nonce
    session_keys ←
        compute_session_keys crypto ephemeral_private_key (to_uncompressed remote_point)
          (node_id i.local_enr) (node_id i.remote_enr) id_nonce true
    tag ← tag_between i.local_enr (node_id i.remote_enr)
    packet ←
        prepare_auth_header rlp cipher formats tag new_auth_tag id_nonce i.initial_message
          session_keys.encryption_key
          (create_id_nonce_signature id_nonce ephemeral_public_key i.local_private_key)
          session_keys.auth_response_key
          (if ltb p.enr_sequence_number (sequence_number i.local_enr)
            then some i.local_enr
            else none)
          ephemeral_public_key
    ok (record {
      session_keys = session_keys;
      enr = none;
      message = none;
      auth_header_packet = some packet;
    })

  pub record Recipient : Type 0 where
    pub local_private_key : Bytes
    pub local_enr : Enr
    pub remote_node_id : Bytes
    pub remote_enr : Option Enr
    pub who_are_you_packet : WhoAreYouPacket

  -- the node id that `__init__` keeps
  abbrev pub known_node_id : Option Bytes → Option Enr → Result Bytes
  known_node_id none none = raise value_error
  known_node_id none (some enr) = ok (node_id enr)
  known_node_id (some id) none = ok id
  known_node_id (some id) (some enr) = require (id == node_id enr) value_error >> ok id

  abbrev pub known_sequence_number : Option Enr → ℕ
  known_sequence_number none = 0
  known_sequence_number (some enr) = sequence_number enr

  unfoldable pub init_recipient :
      Bytes
      → Enr
      → Option Bytes
      → Option Enr
      → (initiating_packet_auth_tag id_nonce : Bytes) → Result Recipient
  init_recipient local_private_key local_enr remote_node_id remote_enr initiating_packet_auth_tag
        id_nonce =
      do
        id ← known_node_id remote_node_id remote_enr
        ok (record {
          local_private_key = local_private_key;
          local_enr = local_enr;
          remote_node_id = id;
          remote_enr = remote_enr;
          who_are_you_packet =
              prepare_who_are_you crypto.sha256 id initiating_packet_auth_tag id_nonce
                (known_sequence_number remote_enr);
        })

  -- `is_response_packet` of the recipient, and the packet where it is one
  abbrev pub expected_auth_header : Recipient → Packet → Result AuthHeaderPacket
  expected_auth_header r (auth_header p) = do
    source ← recover_source_id_from_tag crypto.sha256 p.tag (node_id r.local_enr)
    require (source == r.remote_node_id) value_error
    ok p
  expected_auth_header r (who_are_you p) = raise value_error
  expected_auth_header r (auth_tag p) = raise value_error

  -- the record that the signature is checked with
  unfoldable pub current_remote_enr : Recipient → Option Enr → Result Enr
  current_remote_enr r none = elim r.remote_enr [
    | none ↦ raise handshake_failure
    | some known ↦ ok known
  ]
  current_remote_enr r (some enr) = do
    require (has_valid_signature enr) handshake_failure
    require
        (elim r.remote_enr [
          | none ↦ true
          | some known ↦ not (leb (sequence_number enr) (sequence_number known))
        ])
        handshake_failure
    require (node_id enr == r.remote_node_id) handshake_failure
    ok enr

  unfoldable pub decrypt_and_validate_auth_response :
      Recipient → AuthHeaderPacket → Bytes → Bytes → Result (Option Enr)
  decrypt_and_validate_auth_response r p auth_response_key id_nonce = do
    response ← as_failure (decrypt_auth_response rlp cipher formats p auth_response_key)
    current ← current_remote_enr r response.1
    as_failure (
        validate_id_nonce_signature id_nonce p.auth_header.ephemeral_public_key response.0
          (public_key current))
    ok response.1

  unfoldable pub decrypt_and_validate_message : AuthHeaderPacket → Bytes → Result Message
  decrypt_and_validate_message p decryption_key =
      as_failure (decrypt_auth_header_message rlp cipher formats p decryption_key)

  -- `validate_handshake_public_key`, within its `try`
  abbrev pub valid_point : Option crypto.Point → Result (Unit {0})
  valid_point none = raise handshake_failure
  valid_point (some point) = ok tt

  -- `complete_handshake` of the recipient
  unfoldable pub complete_recipient : Recipient → Packet → Result HandshakeResult
  complete_recipient r response_packet = do
    p ← expected_auth_header r response_packet
    handshake_scheme r.local_enr
    valid_point (crypto.from_uncompressed p.auth_header.ephemeral_public_key)
    id_nonce ← as_bytes r.who_are_you_packet.id_nonce
    session_keys ←
        compute_session_keys crypto r.local_private_key p.auth_header.ephemeral_public_key
          (node_id r.local_enr) r.remote_node_id id_nonce false
    enr ← decrypt_and_validate_auth_response r p session_keys.auth_response_key id_nonce
    m ← decrypt_and_validate_message p session_keys.decryption_key
    ok (record {
      session_keys = session_keys;
      enr = enr;
      message = some m;
      auth_header_packet = none;
    })
