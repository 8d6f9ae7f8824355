-- ===== src/Tests/Session.antt =====
-- ddht/v5_1/session.py at a concrete node, with a curve of one point and the codec and cipher of
-- the packets' tests.
use ddht.Session.Branches.{wrong_nonce-ignored, bad_signature-discarded}
use ddht.Session.Base.{get_encryption_nonce}
use ddht.Session.Unreadable.{Handles, received, handle_inbound_envelope-unreadable}
use ddht.Session.Initiator
use ddht.Session.Recipient
use ddht.Wire.Header
use ddht.Wire.Header.RoundTrip.{wire}
use ddht.Wire.Message
use ddht.Wire.WhoAreYou
use ddht.Wire.Packet.{
  Packet, handshake, message, aesgcm_decrypt, challenge_data, auth_data_to_wire_bytes,
}
use ddht.Session.Scheme.{
  create_id_nonce_signature_input, Crypto, SessionKeys, SignatureInputs, compute_session_keys,
  validate_id_nonce_signature,
}
use ddht.Session.Scheme.Agreement.{compute_session_keys_agree}
use ddht.Session.State.{
  during, packet_received, packet_discarded, Services, State, Endpoint, OutboundMessage,
  InboundEnvelope, init, after,
}
use ddht.Session.Progress.{Call, sends, receives, waits, IsValid, Later}
use ddht.Session.Initiator.Progress.{initiator_run, initiator_run_keeps}
use ddht.Session.Recipient.Progress.{recipient_run, recipient_run_keeps}
use ddht.Wire.Error.{
  Result, ok, raise, validation_error, decryption_error, key_error, rlp_error, index_error,
}
use ddht.Tests.Wire.{completion, codec, clear, zeros, header, challenge, packet}
use ddht.Prelude.Bytes.{from_bytes-to_bytes, to_bytes, from_bytes, length-to_bytes, bytes_eq, Bytes}
use ddht.Prelude.{
  ◌≢◌, ap, ℕ, ◌≡◌, refl, true, false, Option, some, none, List, [], ◌∷◌, ◌++◌, ◌==◌, ==_refl, leb,
  ◌&&◌, arith,
}

abbrev crypto : Crypto
crypto = record {
  Point = Unit;
  public_point = λ key. tt;
  to_compressed = λ point. zeros 33;
  from_compressed = λ encoded. some tt;
  from_uncompressed = λ encoded. some tt;
  multiply = λ key point. zeros 33;
  hkdf = λ secret salt info. to_bytes 48 (from_bytes (secret ++ (salt ++ info)));
  sha256 = λ data_bytes. to_bytes 32 (from_bytes data_bytes);
  sign = λ key hash. hash;
  verify = λ point signature hash. signature == hash;
  multiply_comm = λ a b. refl;
  length-to_compressed = λ point. length-to_bytes 33 0;
  from_compressed-to_compressed = λ point. refl;
  length-hkdf = λ secret salt info. length-to_bytes 48 (from_bytes (secret ++ (salt ++ info)));
  verify-sign = λ key hash. ==_refl hash;
}

abbrev ping : ℕ → Option ℕ
ping request_id = some request_id

-- a message is its request id; the database knows one record
abbrev services : Services
services = record {
  cipher = clear;
  codec = codec;
  crypto = crypto;
  Message = ℕ;
  to_bytes = λ m. some (1 ∷ m ∷ []);
  is_registered = λ message_type. leb 1 message_type && leb message_type 10;
  rlp_decode = λ message_type encoded. some 1;
  public_key = λ enr. zeros 33;
  sequence_number = λ enr. enr;
  has_v4_scheme = λ enr. true;
  Db = ℕ;
  get_enr = λ db node_id. some db;
  set_enr = λ db enr. some enr;
  token_bytes = λ index size. to_bytes size index;
  length-token_bytes = λ index size. length-to_bytes size index;
}

compute_session_keys_agree_example :
    (ours theirs : SessionKeys) × (compute_session_keys crypto
        (zeros 32)
        (crypto.to_compressed (crypto.public_point (zeros 31)))
        (zeros 32)
        (zeros 30)
        (zeros 63)
        true
      ≡ ok ours)
    × (compute_session_keys crypto
          (zeros 31)
          (crypto.to_compressed (crypto.public_point (zeros 32)))
          (zeros 30)
          (zeros 32)
          (zeros 63)
          false
        ≡ ok theirs)
    × (ours.encryption_key ≡ theirs.decryption_key)
    × (ours.decryption_key ≡ theirs.encryption_key)
    × (ours.auth_response_key ≡ theirs.auth_response_key)
compute_session_keys_agree_example =
    compute_session_keys_agree crypto (zeros 32) (zeros 31) (zeros 32) (zeros 30) (zeros 63)

abbrev inputs : SignatureInputs
inputs = record {
  iv = zeros 16;
  header = header;
  who_are_you = challenge;
  ephemeral_public_key = zeros 33;
  recipient_node_id = zeros 32;
}

abbrev endpoint : Endpoint
endpoint = record { ip_address = 127 ∷ 0 ∷ 0 ∷ 1 ∷ []; port = 30303 }

abbrev outbound : OutboundMessage services
outbound = record { message = 5; receiver_endpoint = endpoint; receiver_node_id = zeros 32 }

abbrev inbound : InboundEnvelope services
inbound = record { packet = packet; sender_endpoint = endpoint }

abbrev initiator : State services
initiator = init services (zeros 32) (zeros 32) endpoint (some (zeros 32)) 7 100

abbrev recipient : State services
recipient = init services (zeros 32) (zeros 32) endpoint none 7 100

initiator-IsValid : IsValid services initiator
unfolding init
initiator-IsValid = record {
  has_keys = tt;
  messages_fit = omega arith;
  envelopes_fit = omega arith;
}

recipient-IsValid : IsValid services recipient
unfolding init
recipient-IsValid = record {
  has_keys = tt;
  messages_fit = omega arith;
  envelopes_fit = omega arith;
}

abbrev calls : List (Call services)
calls = sends outbound ∷ waits 3 ∷ receives inbound ∷ []

initiator_run_keeps_example :
    IsValid services (initiator_run services initiator calls)
    × Later services initiator (initiator_run services initiator calls)
initiator_run_keeps_example = initiator_run_keeps services initiator calls initiator-IsValid

recipient_run_keeps_example :
    IsValid services (recipient_run services recipient calls)
    × Later services recipient (recipient_run services recipient calls)
recipient_run_keeps_example = recipient_run_keeps services recipient calls recipient-IsValid

abbrev later : State services
later = initiator_run services (get_encryption_nonce services initiator).0 (waits 3 ∷ [])

abbrev initiating : Packet ℕ
initiating = record packet { header = record header { aes_gcm_nonce = to_bytes 12 1 } }

abbrev waiting : State services
waiting = record initiator { status = during; initiating_packet = some initiating }

nonces_differ : packet.header.aes_gcm_nonce ≢ initiating.header.aes_gcm_nonce
nonces_differ h = omega (
  arith,
  ap from_bytes h,
  from_bytes-to_bytes 12 0 (omega arith),
  from_bytes-to_bytes 12 1 (omega arith),
)

wrong_nonce-ignored_example :
    Initiator.handle_inbound_envelope services inbound waiting
    ≡ ((record waiting { trace = waiting.trace ++ packet_received inbound ∷ [] }), ok false)
wrong_nonce-ignored_example =
    wrong_nonce-ignored services waiting inbound initiating challenge refl refl refl nonces_differ

abbrev challenging : State services
challenging = record recipient {
  status = during;
  handshake_response_packet = some packet;
  remote_node_id = some (zeros 32);
}

abbrev forged : InboundEnvelope services
forged = record {
  packet = record packet { auth_data = handshake completion };
  sender_endpoint = endpoint;
}

not_verified :
    validate_id_nonce_signature crypto
      (record inputs { recipient_node_id = challenging.local_node_id })
      completion.id_signature
      (zeros 33)
    ≡ raise validation_error
unfolding init validate_id_nonce_signature create_id_nonce_signature_input Header.to_wire_bytes
    WhoAreYou.to_wire_bytes to_bytes from_bytes
not_verified = refl

bad_signature-discarded_example : Recipient.handle_inbound_envelope services forged challenging ≡ (
  record challenging {
    enr_db = 9;
    trace = (challenging.trace ++ packet_received forged ∷ []) ++ packet_discarded forged ∷ [];
  },
  ok false,
)
bad_signature-discarded_example =
    bad_signature-discarded services challenging forged completion 9 9 packet challenge refl refl
      refl refl refl refl refl not_verified

abbrev session_keys : SessionKeys
session_keys = record {
  encryption_key = zeros 16;
  decryption_key = zeros 16;
  auth_response_key = zeros 16;
}

abbrev established : State services
established = record initiator { status = after; session_keys = some session_keys }

abbrev empty : InboundEnvelope services
empty = record {
  packet = record packet { auth_data = message (record { source_node_id = zeros 32 }) };
  sender_endpoint = endpoint;
}

empty-decrypts :
    aesgcm_decrypt clear session_keys.decryption_key empty.packet.header.aes_gcm_nonce
      empty.packet.message_cipher_text
      (zeros 16 ++ (wire header ++ zeros 32))
    ≡ ok []
unfolding aesgcm_decrypt to_bytes
empty-decrypts = refl

empty-challenge_data :
    challenge_data clear codec empty.packet ≡ ok (zeros 16 ++ (wire header ++ zeros 32))
unfolding challenge_data auth_data_to_wire_bytes Header.to_wire_bytes Message.to_wire_bytes
empty-challenge_data = refl

abbrev no_plain_text : Result Bytes
no_plain_text = ok []

handle_inbound_envelope-unreadable_example :
    (no_plain_text ≡ raise decryption_error
      → Handles services established empty (
        record established {
          trace = (established.trace ++ packet_received empty ∷ []) ++ packet_discarded empty ∷ [];
        },
        ok false,
      ))
    × (no_plain_text ≡ ok []
        → Handles services established empty
            (received services established empty, raise index_error))
    × ((message_type : ℕ) (encoded : Bytes)
        → no_plain_text ≡ ok (message_type ∷ encoded)
        → (services.is_registered message_type ≡ false
            → Handles services established empty
                (received services established empty, raise key_error))
          × (services.is_registered message_type ≡ true
              → services.rlp_decode message_type encoded ≡ none
              → Handles services established empty
                  (received services established empty, raise rlp_error)))
handle_inbound_envelope-unreadable_example =
    handle_inbound_envelope-unreadable services established empty
      (record { source_node_id = zeros 32 }) session_keys (zeros 16 ++ (wire header ++ zeros 32))
      no_plain_text refl refl refl empty-challenge_data empty-decrypts
