-- ===== src/Session/Unreadable.antt =====
-- Packets that a session of ddht/v5_1/session.py past its handshake cannot read.
use ddht.Session.Base.{
  catching, resume, receive_after, decode_inbound, discard, is_decryption_error,
}
use ddht.Session.Initiator
use ddht.Session.Recipient
use ddht.Session.Messages.{decode_message, decode_packet_message}
use ddht.Session.Scheme.{SessionKeys}
use ddht.Session.State.{
  Services, State, after, continue, InboundEnvelope, packet_received, packet_discarded, ◌>>=◌, ◌>>◌,
}
use ddht.Wire.Error.{Error, Result, ok, raise, decryption_error, index_error, key_error, rlp_error}
use ddht.Wire.Message.{MessagePacket}
use ddht.Wire.Packet.{message, challenge_data, aesgcm_decrypt}
use ddht.Prelude.Bytes.{Bytes}
use ddht.Prelude.{
  ℕ, ◌≡◌, refl, ap, ◌∙◌, Bool, true, false, none, some, [], ◌∷◌, ◌++◌, if◌then◌else◌, Bool-cases,
  inl, inr,
}

module _ (services : Services) where
  -- either kind of session leaves this state, and returns or raises this
  abbrev pub Handles :
      State services → InboundEnvelope services → State services × Result Bool → Type 0
  Handles s e x =
      (Initiator.handle_inbound_envelope services e s ≡ x)
      × (Recipient.handle_inbound_envelope services e s ≡ x)

  abbrev pub received : State services → InboundEnvelope services → State services
  received s e = record s { trace = s.trace ++ packet_received e ∷ [] }

  -- what becomes of an envelope that is not read because of an exception
  abbrev pub unread :
      State services → InboundEnvelope services → Error → State services × Result Bool
  unread s e error =
      if is_decryption_error error
      then (
        record s { trace = (s.trace ++ packet_received e ∷ []) ++ packet_discarded e ∷ [] },
        ok false,
      )
      else (received s e, raise error)

  receive_after-unread :
      (s : State services) (e : InboundEnvelope services) (m : MessagePacket) (k : SessionKeys)
      (error : Error)
      → s.status ≡ after
      → s.session_keys ≡ some k
      → decode_packet_message services k e.packet ≡ raise error
      → receive_after services e (message m) (received s e) ≡ unread s e error
  unfolding receive_after decode_inbound discard catching resume ◌>>=◌ ◌>>◌ continue
  receive_after-unread s e m k error d i h = elim (Bool-cases (is_decryption_error error)) [
    | inl caught ↦ rw (d, i, h, caught) refl
    | inr raises ↦ rw (d, i, h, raises) refl
  ]

  Handles-unread :
      (s : State services) (e : InboundEnvelope services) (m : MessagePacket) (k : SessionKeys)
      (error : Error)
      → s.status ≡ after
      → s.session_keys ≡ some k
      → e.packet.auth_data ≡ message m
      → decode_packet_message services k e.packet ≡ raise error
      → Handles s e (unread s e error)
  unfolding Initiator.handle_inbound_envelope Initiator.inbound_in Recipient.handle_inbound_envelope
      Recipient.inbound_in ◌>>=◌ ◌>>◌ continue
  Handles-unread s e m k error d i a h =
      let read =
        ap (λ x. receive_after services e x (received s e)) a
        ∙ receive_after-unread s e m k error d i h in
      (
        ap (λ x. Initiator.inbound_in services x e (received s e)) d ∙ read,
        ap (λ x. Recipient.inbound_in services x e (received s e)) d ∙ read,
      )

  -- A packet for a session of either kind that is past its handshake is discarded, with nothing else
  -- changed, where it does not decrypt. Where it decrypts to no bytes, to a type of message that is
  -- not registered, or to a body that its type does not decode, an exception leaves the handler and
  -- the packet is not discarded.
  pub handle_inbound_envelope-unreadable :
      (s : State services) (e : InboundEnvelope services) (m : MessagePacket) (k : SessionKeys)
      (associated : Bytes) (plain_text : Result Bytes)
      → s.status ≡ after
      → s.session_keys ≡ some k
      → e.packet.auth_data ≡ message m
      → challenge_data services.cipher services.codec e.packet ≡ ok associated
      → aesgcm_decrypt services.cipher k.decryption_key e.packet.header.aes_gcm_nonce
          e.packet.message_cipher_text associated
        ≡ plain_text
      → (plain_text ≡ raise decryption_error
          → Handles s e (
            record s { trace = (s.trace ++ packet_received e ∷ []) ++ packet_discarded e ∷ [] },
            ok false,
          ))
        × (plain_text ≡ ok [] → Handles s e (received s e, raise index_error))
        × ((message_type : ℕ) (encoded : Bytes)
            → plain_text ≡ ok (message_type ∷ encoded)
            → (services.is_registered message_type ≡ false
                → Handles s e (received s e, raise key_error))
              × (services.is_registered message_type ≡ true
                  → services.rlp_decode message_type encoded ≡ none
                  → Handles s e (received s e, raise rlp_error)))
  unfolding decode_packet_message decode_message
  handle_inbound_envelope-unreadable s e m k associated plain_text d i a c h =
      let unreads = λ (error : Error). Handles-unread s e m k error d i a in
      (
        (λ p. unreads decryption_error (rw (decode_packet_message, decode_message, c, h, p) refl)),
        (λ p. unreads index_error (rw (decode_packet_message, decode_message, c, h, p) refl)),
        λ message_type encoded p. (
          (λ u. unreads key_error (rw (decode_packet_message, decode_message, c, h, p, u) refl)),
          λ r n. unreads rlp_error (rw (decode_packet_message, decode_message, c, h, p, r, n) refl),
        ),
      )
