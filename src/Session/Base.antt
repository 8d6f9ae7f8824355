-- ===== src/Session/Base.antt =====
-- `BaseSession` of ddht/v5_1/session.py, and what the methods of both its classes share.
use ddht.Session.Messages.{found, decode_packet_message, keys}
use ddht.Session.State.{
  Services, State, Status, after, Action, pure, lift, ask, modify, trigger, draw, OutboundMessage,
  OutboundEnvelope, InboundEnvelope, packet_discarded, packet_sent, outbound_envelope,
  inbound_message, ◌>>=◌, ◌>>◌,
}
use ddht.Wire.Error.{
  Error, Result, ok, raise, attribute_error, decryption_error, handshake_failure, invalid_state,
  overflow_error, key_error,
}
use ddht.Wire.Packet.{Packet, prepare, message, AuthData}
use ddht.Wire.Header.{protocol_id_v5}
use ddht.Prelude.Bytes.{Bytes, to_bytes}
use ddht.Prelude.{
  ℕ, ◌+◌, ◌^◌, Bool, true, false, Option, none, some, [], ◌∷◌, ◌++◌, if◌then◌else◌, ltb, leb,
  length,
}

abbrev pub session_idle_timeout : ℕ
session_idle_timeout = 60

abbrev pub is_after : Status → Bool
is_after after = true
is_after _ = false

-- the exceptions that a method catches
abbrev pub is_decryption_error : Error → Bool
is_decryption_error decryption_error = true
is_decryption_error _ = false

abbrev pub is_handshake_failure : Error → Bool
is_handshake_failure handshake_failure = true
is_handshake_failure _ = false

module _ (services : Services) where
  open services use {codec, cipher, get_enr, has_v4_scheme}

  unfoldable pub timeout_at : State services → ℕ
  timeout_at s = s.created_at + session_idle_timeout

  unfoldable pub is_timed_out : State services → Bool
  is_timed_out s = if is_after s.status then false else leb (timeout_at s) s.clock

  abbrev pub stale_since : State services → Option ℕ → Option ℕ → Bool
  stale_since s none received = false
  stale_since s (some sent) none = leb (s.created_at + session_idle_timeout) s.clock
  stale_since s (some sent) (some received) =
      if ltb sent received then false else leb (received + session_idle_timeout) s.clock

  unfoldable pub is_stale : State services → Bool
  is_stale s = stale_since s s.last_message_sent_at s.last_message_received_at

  abbrev pub remote_node_id : Action services Bytes
  remote_node_id s = lift services (found s.remote_node_id attribute_error) s

  -- `self.local_enr`, where `self.handshake_scheme` is read too: the registry has the scheme v4
  unfoldable pub local_enr : Action services codec.Enr
  local_enr s = (s, found (get_enr s.enr_db s.local_node_id) key_error)

  unfoldable pub handshake_scheme : Action services (Unit {0})
  handshake_scheme = do
    enr ← local_enr
    lift services (if has_v4_scheme enr then ok tt else raise key_error)

  unfoldable pub get_encryption_nonce : Action services Bytes
  get_encryption_nonce = do
    counter ← ask services (λ s. s.nonce_counter)
    modify services (λ s. record s { nonce_counter = s.nonce_counter + 1 })
    prefix ←
        lift services
          (if ltb counter (2 ^ 32) then ok (to_bytes 4 counter) else raise overflow_error)
    suffix ← draw services 8
    pure services (prefix ++ suffix)

  unfoldable pub prepare_envelope :
      OutboundMessage services → Action services (OutboundEnvelope services)
  prepare_envelope m = do
    status ← ask services (λ s. s.status)
    lift services (if is_after status then ok tt else raise invalid_state)
    nonce ← get_encryption_nonce
    local_node_id ← ask services (λ s. s.local_node_id)
    session_keys ← (λ s. (s, keys services s))
    dest_node_id ← remote_node_id
    iv ← draw services 16
    packet ← lift services (
        prepare cipher codec nonce session_keys.encryption_key (services.to_bytes m.message)
          (message (record { source_node_id = local_node_id })) dest_node_id protocol_id_v5 iv)
    endpoint ← ask services (λ s. s.remote_endpoint)
    pure services (record { packet = packet; receiver_endpoint = endpoint })

  -- the two sends of an envelope
  abbrev pub send_envelope : OutboundEnvelope services → Action services (Unit {0})
  send_envelope envelope = do
    trigger services (packet_sent envelope)
    trigger services (outbound_envelope envelope)

  -- `handle_outbound_message` after the handshake
  unfoldable pub send_message : OutboundMessage services → Action services (Unit {0})
  send_message m = do envelope ← prepare_envelope m; send_envelope envelope

  -- `send_nowait` on the channel for 256 messages, which discards a message when it is full
  unfoldable pub buffer_message : OutboundMessage services → Action services (Unit {0})
  buffer_message m = modify services (λ s.
      if ltb (length s.outbound_message_buffer) 256
      then record s { outbound_message_buffer = s.outbound_message_buffer ++ m ∷ [] }
      else s)

  unfoldable pub discard : InboundEnvelope services → Action services Bool
  discard envelope = do trigger services (packet_discarded envelope); pure services false

  -- a `try` whose `except` catches the exceptions of one class
  unfoldable pub resume :
      {A B : Type 0}
      → (Error → Bool)
      → Action services B
      → (A → Action services B)
      → State services × Result A
      → State services × Result B
  resume caught handler rest (s, ok a) = rest a s
  resume caught handler rest (s, raise e) = if caught e then handler s else (s, raise e)

  unfoldable pub catching :
      {A B : Type 0}
      → (Error → Bool)
      → Action services A
      → Action services B
      → (A → Action services B)
      → Action services B
  catching caught body handler rest s = resume caught handler rest (body s)

  unfoldable pub deliver : services.Message → Action services (Unit {0})
  deliver m = do
    endpoint ← ask services (λ s. s.remote_endpoint)
    sender ← remote_node_id
    trigger services (
        inbound_message
          (record { message = m; sender_endpoint = endpoint; sender_node_id = sender }))

  unfoldable pub decode_inbound : Packet codec.Enr → Action services services.Message
  decode_inbound packet = do
    session_keys ← (λ s. (s, keys services s))
    lift services (decode_packet_message services session_keys packet)

  -- `handle_inbound_envelope` after the handshake, the same in both classes
  unfoldable pub receive_after :
      InboundEnvelope services → AuthData codec.Enr → Action services Bool
  receive_after envelope (message _) =
      catching is_decryption_error (decode_inbound envelope.packet) (discard envelope) (λ m. do
        modify services (λ s. record s { last_message_received_at = some s.clock })
        deliver m
        pure services true)
  receive_after envelope _ = discard envelope
