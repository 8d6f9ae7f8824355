-- ===== src/Session/Recipient.antt =====
-- `SessionRecipient` of ddht/v5_1/session.py. Its `remote_node_id` is there once a handshake has
-- begun: `none` before is the AttributeError.
pub mod Progress
use ddht.Session.Base.{
  remote_node_id, local_enr, handshake_scheme, send_envelope, send_message, buffer_message, discard,
  deliver, catching, is_handshake_failure, receive_after, is_after,
}
use ddht.Session.Messages.{found, decode_message}
use ddht.Session.Scheme.{
  SessionKeys, SignatureInputs, compute_session_keys, validate_id_nonce_signature,
}
use ddht.Session.State.{
  Services, State, Status, before, during, after, Action, pure, fail, lift, ask, modify, trigger,
  draw, Endpoint, OutboundMessage, InboundEnvelope, packet_received, packet_discarded,
  session_handshake_complete, ◌>>=◌, ◌>>◌,
}
use ddht.Wire.Error.{
  Error, Result, ok, raise, attribute_error, handshake_failure, validation_error, invalid_state,
  key_error,
}
use ddht.Wire.Handshake.{HandshakePacket}
use ddht.Wire.Message.{MessagePacket}
use ddht.Wire.Packet.{Packet, AuthData, prepare, message, who_are_you, handshake, challenge_data}
use ddht.Wire.WhoAreYou.{WhoAreYouPacket}
use ddht.Wire.Header.{protocol_id_v5}
use ddht.Prelude.Bytes.{Bytes}
use ddht.Prelude.{
  ℕ, ◌≡◌, Bool, true, false, Option, none, some, List, [], ◌∷◌, ◌++◌, if◌then◌else◌, ltb, length,
}

-- the `except ValidationError` around the check of the signature
abbrev pub as_failure : {A : Type 0} → Result A → Result A
as_failure (ok a) = ok a
as_failure (raise validation_error) = raise handshake_failure
as_failure (raise e) = raise e

abbrev pub challenge_of : {Enr : Type 0} → AuthData Enr → Option WhoAreYouPacket
challenge_of (who_are_you challenge) = some challenge
challenge_of _ = none

module _ (services : Services) where
  open services use {codec, cipher, crypto, Db, get_enr, set_enr, public_key, sequence_number}

  unfoldable pub outbound_in : Status → OutboundMessage services → Action services (Unit {0})
  outbound_in after m = send_message services m
  outbound_in during m = buffer_message services m
  outbound_in before m = fail services invalid_state

  unfoldable pub handle_outbound_message : OutboundMessage services → Action services (Unit {0})
  handle_outbound_message m = do
    modify services (λ s. record s { last_message_sent_at = some s.clock })
    status ← ask services (λ s. s.status)
    outbound_in status m

  abbrev pub known_sequence_number : Option codec.Enr → ℕ
  known_sequence_number none = 0
  known_sequence_number (some enr) = sequence_number enr

  unfoldable pub send_handshake_response :
      Packet codec.Enr → MessagePacket → Endpoint → Action services (Unit {0})
  send_handshake_response packet initiation sender_endpoint = do
    remote_enr ← ask services (λ s. get_enr s.enr_db initiation.source_node_id)
    id_nonce ← draw services 16
    initiator_key ← draw services 16
    iv ← draw services 16
    response ← lift services (
        prepare cipher codec packet.header.aes_gcm_nonce initiator_key none
          (who_are_you (record {
            id_nonce = id_nonce;
            enr_sequence_number = known_sequence_number remote_enr;
          }))
          initiation.source_node_id protocol_id_v5 iv)
    modify services (λ s. record s { handshake_response_packet = some response })
    send_envelope services (record { packet = response; receiver_endpoint = sender_endpoint })

  abbrev pub stored : Db → Option Db → Db
  stored db none = db
  stored db (some db') = db'

  -- the record of the remote node: the one that it sent, which is kept unless it is old, or the
  -- known one
  abbrev pub remote_record : Option codec.Enr → Action services codec.Enr
  remote_record (some enr) = do
    modify services (λ s. record s { enr_db = stored s.enr_db (set_enr s.enr_db enr) })
    pure services enr
  remote_record none = do
    node_id ← remote_node_id services
    (λ s. (s, found (get_enr s.enr_db node_id) key_error))

  unfoldable pub receive_handshake_completion :
      Packet codec.Enr → HandshakePacket codec.Enr → Action services SessionKeys
  receive_handshake_completion packet completion = do
    remote_enr ← remote_record completion.enr_record
    handshake_scheme services
    response ← (λ s. (s, found s.handshake_response_packet attribute_error))
    challenge ← lift services (found (challenge_of response.auth_data) attribute_error)
    local_node_id ← ask services (λ s. s.local_node_id)
    lift services (
        as_failure (
          validate_id_nonce_signature crypto
            (record {
              iv = response.iv;
              header = response.header;
              who_are_you = challenge;
              ephemeral_public_key = completion.ephemeral_public_key;
              recipient_node_id = local_node_id;
            })
            completion.id_signature (public_key remote_enr)))
    private_key ← ask services (λ s. s.local_private_key)
    node_id ← remote_node_id services
    salt ← lift services (challenge_data cipher codec response)
    session_keys ← lift services (
        compute_session_keys crypto private_key completion.ephemeral_public_key local_node_id
          node_id salt false)
    authenticated_data ← lift services (challenge_data cipher codec packet)
    m ← lift services (
        decode_message services session_keys.decryption_key packet.header.aes_gcm_nonce
          packet.message_cipher_text authenticated_data)
    deliver services m
    pure services session_keys

  -- The session is past the handshake while the buffered envelopes are handled, and stays there.
  unfoldable pub receive_all : List (InboundEnvelope services) → Action services (Unit {0})
  receive_all [] = pure services tt
  receive_all (envelope ∷ envelopes) = do
    trigger services (packet_received envelope)
    was_handled ← receive_after services envelope envelope.packet.auth_data
    receive_all envelopes

  unfoldable pub send_all : List (OutboundMessage services) → Action services (Unit {0})
  send_all [] = pure services tt
  send_all (m ∷ ms) = handle_outbound_message m >> send_all ms

  unfoldable pub process_message_buffers : Action services (Unit {0})
  process_message_buffers = do
    status ← ask services (λ s. s.status)
    lift services (if is_after status then ok tt else raise invalid_state)
    envelopes ← ask services (λ s. s.inbound_envelope_buffer)
    modify services (λ s. record s { inbound_envelope_buffer = [] })
    receive_all envelopes
    messages ← ask services (λ s. s.outbound_message_buffer)
    modify services (λ s. record s { outbound_message_buffer = [] })
    send_all messages

  unfoldable pub complete_handshake : SessionKeys → Action services Bool
  complete_handshake session_keys = do
    modify services (λ s. record s {
      session_keys = some session_keys;
      status = after;
      last_message_received_at = some s.clock;
    })
    trigger services session_handshake_complete
    process_message_buffers
    pure services true

  -- `send_nowait` on the channel for 256 envelopes; a full channel discards the envelope
  abbrev pub try_send : Bool → InboundEnvelope services → Action services (Unit {0})
  try_send true envelope =
      modify services
        (λ s. record s { inbound_envelope_buffer = s.inbound_envelope_buffer ++ envelope ∷ [] })
  try_send false envelope = trigger services (packet_discarded envelope)

  unfoldable pub buffer_envelope : InboundEnvelope services → Action services Bool
  buffer_envelope envelope = do
    has_room ← ask services (λ s. ltb (length s.inbound_envelope_buffer) 256)
    try_send has_room envelope
    pure services false

  -- `handle_inbound_envelope` during the handshake
  unfoldable pub receive_during :
      InboundEnvelope services → AuthData codec.Enr → Action services Bool
  receive_during envelope (handshake completion) =
      catching services is_handshake_failure
        (receive_handshake_completion envelope.packet completion) (discard services envelope)
        complete_handshake
  receive_during envelope (message _) = buffer_envelope envelope
  receive_during envelope (who_are_you _) = discard services envelope

  -- `handle_inbound_envelope` before the handshake
  unfoldable pub receive_before :
      InboundEnvelope services → AuthData codec.Enr → Action services Bool
  receive_before envelope (message initiation) = do
    modify services
        (λ s. record s { status = during; remote_node_id = some initiation.source_node_id })
    send_handshake_response envelope.packet initiation envelope.sender_endpoint
    pure services true
  receive_before envelope _ = discard services envelope

  unfoldable pub inbound_in : Status → InboundEnvelope services → Action services Bool
  inbound_in after envelope = receive_after services envelope envelope.packet.auth_data
  inbound_in during envelope = receive_during envelope envelope.packet.auth_data
  inbound_in before envelope = receive_before envelope envelope.packet.auth_data

  unfoldable pub handle_inbound_envelope : InboundEnvelope services → Action services Bool
  handle_inbound_envelope envelope = do
    trigger services (packet_received envelope)
    status ← ask services (λ s. s.status)
    inbound_in status envelope
