-- ===== src/Session/Initiator.antt =====
-- `SessionInitiator` of ddht/v5_1/session.py.
pub mod Progress
use ddht.Session.Base.{
  remote_node_id, local_enr, handshake_scheme, send_envelope, send_message, buffer_message, discard,
  catching, is_handshake_failure, receive_after, is_after,
}
use ddht.Session.Messages.{found, keys}
use ddht.Session.Scheme.{SessionKeys, compute_session_keys, create_id_nonce_signature}
use ddht.Session.State.{
  Services, State, Status, before, during, after, Action, pure, lift, ask, modify, trigger, draw,
  OutboundMessage, InboundEnvelope, packet_received, session_handshake_complete, ◌>>=◌, ◌>>◌,
}
use ddht.Wire.Error.{
  Error, Result, ok, raise, attribute_error, handshake_failure, invalid_state, key_error,
}
use ddht.Wire.Handshake.{HandshakePacket}
use ddht.Wire.Packet.{Packet, AuthData, prepare, message, who_are_you, handshake, challenge_data}
use ddht.Wire.WhoAreYou.{WhoAreYouPacket}
use ddht.Wire.Header.{protocol_id_v5}
use ddht.Prelude.Bytes.{Bytes, bytes_eq}
use ddht.Prelude.{
  ℕ, ◌≡◌, Bool, true, false, ◌||◌, Option, none, some, List, [], ◌∷◌, ◌++◌, if◌then◌else◌, ltb,
  nat_beq, ◌==◌, length,
}

module _ (services : Services) where
  open services use {codec, cipher, crypto, get_enr, public_key, sequence_number}

  unfoldable pub send_handshake_initiation : Action services (Unit {0})
  send_handshake_initiation = do
    aes_gcm_nonce ← draw services 12
    initiator_key ← draw services 16
    random_data ← draw services 12
    local_node_id ← ask services (λ s. s.local_node_id)
    dest_node_id ← remote_node_id services
    iv ← draw services 16
    packet ← lift services (
        prepare cipher codec aes_gcm_nonce initiator_key (some random_data)
          (message (record { source_node_id = local_node_id })) dest_node_id protocol_id_v5 iv)
    modify services (λ s. record s { initiating_packet = some packet })
    endpoint ← ask services (λ s. s.remote_endpoint)
    send_envelope services (record { packet = packet; receiver_endpoint = endpoint })

  unfoldable pub outbound_in : Status → OutboundMessage services → Action services (Unit {0})
  outbound_in after m = send_message services m
  outbound_in during m = buffer_message services m
  outbound_in before m = do
    modify services (λ s. record s { initial_message = some m; status = during })
    send_handshake_initiation

  unfoldable pub handle_outbound_message : OutboundMessage services → Action services (Unit {0})
  handle_outbound_message m = do
    modify services (λ s. record s { last_message_sent_at = some s.clock })
    status ← ask services (λ s. s.status)
    outbound_in status m

  unfoldable pub receive_handshake_response :
      Packet codec.Enr → Action services (SessionKeys × Bytes)
  receive_handshake_response packet = do
    sent ← (λ s. (s, found s.initiating_packet attribute_error))
    lift services (
        if packet.header.aes_gcm_nonce == sent.header.aes_gcm_nonce
        then ok tt
        else raise handshake_failure)
    ephemeral_private_key ← draw services 32
    node_id ← remote_node_id services
    remote_enr ← (λ s. (s, found (get_enr s.enr_db node_id) key_error))
    handshake_scheme services
    local_node_id ← ask services (λ s. s.local_node_id)
    salt ← lift services (challenge_data cipher codec packet)
    session_keys ← lift services (
        compute_session_keys crypto ephemeral_private_key (public_key remote_enr) local_node_id
          node_id salt true)
    pure services (session_keys, crypto.to_compressed (crypto.public_point ephemeral_private_key))

  unfoldable pub send_handshake_completion :
      Bytes → Packet codec.Enr → WhoAreYouPacket → Action services (Unit {0})
  send_handshake_completion ephemeral_public_key packet challenge = do
    enr ← local_enr services
    handshake_scheme services
    node_id ← remote_node_id services
    private_key ← ask services (λ s. s.local_private_key)
    id_nonce_signature ← lift services (
        create_id_nonce_signature crypto
          (record {
            iv = packet.iv;
            header = packet.header;
            who_are_you = challenge;
            ephemeral_public_key = ephemeral_public_key;
            recipient_node_id = node_id;
          })
          private_key)
    local_node_id ← ask services (λ s. s.local_node_id)
    session_keys ← (λ s. (s, keys services s))
    initial ← (λ s. (s, found s.initial_message attribute_error))
    iv ← draw services 16
    handshake_packet ← lift services (
        prepare cipher codec packet.header.aes_gcm_nonce session_keys.encryption_key
          (services.to_bytes initial.message)
          (handshake (record {
            auth_data_head = record {
              source_node_id = local_node_id;
              signature_size = length id_nonce_signature;
              ephemeral_key_size = length ephemeral_public_key;
            };
            id_signature = id_nonce_signature;
            ephemeral_public_key = ephemeral_public_key;
            enr_record =
                if ltb challenge.enr_sequence_number (sequence_number enr)
                  || nat_beq challenge.enr_sequence_number 0
                then some enr
                else none;
          }))
          node_id protocol_id_v5 iv)
    endpoint ← ask services (λ s. s.remote_endpoint)
    send_envelope services (record { packet = handshake_packet; receiver_endpoint = endpoint })

  unfoldable pub send_all : List (OutboundMessage services) → Action services (Unit {0})
  send_all [] = pure services tt
  send_all (m ∷ ms) = handle_outbound_message m >> send_all ms

  -- The loop closes the channel, also when it ends with an exception: what is left is lost.
  unfoldable pub process_message_buffers : Action services (Unit {0})
  process_message_buffers = do
    status ← ask services (λ s. s.status)
    lift services (if is_after status then ok tt else raise invalid_state)
    messages ← ask services (λ s. s.outbound_message_buffer)
    modify services (λ s. record s { outbound_message_buffer = [] })
    send_all messages

  unfoldable pub complete_handshake :
      InboundEnvelope services → WhoAreYouPacket → SessionKeys × Bytes → Action services Bool
  complete_handshake envelope challenge (session_keys, ephemeral_public_key) = do
    modify services (λ s. record s {
      session_keys = some session_keys;
      status = after;
      last_message_received_at = some s.clock;
    })
    trigger services session_handshake_complete
    send_handshake_completion ephemeral_public_key envelope.packet challenge
    process_message_buffers
    pure services true

  -- `handle_inbound_envelope` during the handshake
  unfoldable pub receive_during :
      InboundEnvelope services → AuthData codec.Enr → Action services Bool
  receive_during envelope (who_are_you challenge) =
      catching services is_handshake_failure (receive_handshake_response envelope.packet)
        (pure services false) (complete_handshake envelope challenge)
  receive_during envelope _ = discard services envelope

  unfoldable pub inbound_in : Status → InboundEnvelope services → Action services Bool
  inbound_in after envelope = receive_after services envelope envelope.packet.auth_data
  inbound_in during envelope = receive_during envelope envelope.packet.auth_data
  inbound_in before envelope = discard services envelope

  unfoldable pub handle_inbound_envelope : InboundEnvelope services → Action services Bool
  handle_inbound_envelope envelope = do
    trigger services (packet_received envelope)
    status ← ask services (λ s. s.status)
    inbound_in status envelope
