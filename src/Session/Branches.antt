-- ===== src/Session/Branches.antt =====
-- Branches of the sessions' methods, errors included.
use ddht.Session.Base.{discard, catching, resume, local_enr, handshake_scheme}
use ddht.Session.Initiator.{
  handle_inbound_envelope, receive_handshake_response, receive_during, inbound_in,
}
use ddht.Session.State.{
  Services, State, during, continue, InboundEnvelope, packet_received, packet_discarded, ◌>>=◌,
  ◌>>◌,
}
use ddht.Wire.Error.{handshake_failure, validation_error, ok, raise}
use ddht.Wire.Packet.{Packet, handshake, who_are_you}
use ddht.Session.Scheme.{validate_id_nonce_signature}
use ddht.Session.Recipient
use ddht.Session.Recipient.{
  stored, challenge_of, as_failure, remote_record, receive_handshake_completion,
}
use ddht.Wire.Handshake.{HandshakePacket}
use ddht.Wire.WhoAreYou.{WhoAreYouPacket}
use ddht.Prelude.Bytes.{bytes_eq}
use ddht.Prelude.{◌≡◌, ◌≢◌, refl, ◌∙◌, ap, true, false, some, [], ◌∷◌, ◌++◌, ==_ne}

module _ (services : Services) where
  -- During the handshake an initiator that receives a WhoAreYou packet with another nonce than that
  -- of its own initiating packet returns false, and only the trace changes.
  pub wrong_nonce-ignored :
      (s : State services) (e : InboundEnvelope services) (sent : Packet services.codec.Enr)
      (challenge : WhoAreYouPacket)
      → s.status ≡ during
      → s.initiating_packet ≡ some sent
      → e.packet.auth_data ≡ who_are_you challenge
      → e.packet.header.aes_gcm_nonce ≢ sent.header.aes_gcm_nonce
      → handle_inbound_envelope services e s
        ≡ ((record s { trace = s.trace ++ packet_received e ∷ [] }), ok false)
  unfolding handle_inbound_envelope inbound_in receive_during receive_handshake_response catching
      resume ◌>>=◌ ◌>>◌ continue
  wrong_nonce-ignored s e sent challenge d i a ne =
      rw (d, a, i, ==_ne e.packet.header.aes_gcm_nonce sent.header.aes_gcm_nonce ne) refl

  -- the state once an envelope has been received
  abbrev received : State services → InboundEnvelope services → State services
  received s e = record s { trace = s.trace ++ packet_received e ∷ [] }

  completion-fails :
      (s : State services) (p : Packet services.codec.Enr)
      (completion : HandshakePacket services.codec.Enr) (enr own : services.codec.Enr)
      (response : Packet services.codec.Enr) (challenge : WhoAreYouPacket)
      → completion.enr_record ≡ some enr
      → services.get_enr (stored services s.enr_db (services.set_enr s.enr_db enr)) s.local_node_id
        ≡ some own
      → services.has_v4_scheme own ≡ true
      → s.handshake_response_packet ≡ some response
      → challenge_of response.auth_data ≡ some challenge
      → validate_id_nonce_signature services.crypto
          (record {
            iv = response.iv;
            header = response.header;
            who_are_you = challenge;
            ephemeral_public_key = completion.ephemeral_public_key;
            recipient_node_id = s.local_node_id;
          })
          completion.id_signature
          (services.public_key enr)
        ≡ raise validation_error
      → receive_handshake_completion services p completion s ≡ (
        (record s { enr_db = stored services s.enr_db (services.set_enr s.enr_db enr) }),
        raise handshake_failure,
      )
  unfolding receive_handshake_completion local_enr handshake_scheme ◌>>=◌ ◌>>◌ continue
  completion-fails s p completion enr own response challenge r l v i c bad =
      rw (r, l, v, i, c, bad, ← i) refl

  discarded :
      (s : State services) (e : InboundEnvelope services)
      (completion : HandshakePacket services.codec.Enr) (enr : services.codec.Enr)
      → receive_handshake_completion services e.packet completion s ≡ (
        (record s { enr_db = stored services s.enr_db (services.set_enr s.enr_db enr) }),
        raise handshake_failure,
      )
      → Recipient.receive_during services e (handshake completion) s ≡ (
        record s {
          enr_db = stored services s.enr_db (services.set_enr s.enr_db enr);
          trace = s.trace ++ packet_discarded e ∷ [];
        },
        ok false,
      )
  unfolding Recipient.receive_during discard catching resume ◌>>◌ continue
  discarded s e completion enr h = rw h refl

  -- During the handshake a recipient that receives a handshake packet with a node record whose key
  -- does not verify the signature over its challenge discards the packet and returns false: the
  -- session gets no keys and its status stays. The record is stored all the same.
  pub bad_signature-discarded :
      (s : State services) (e : InboundEnvelope services)
      (completion : HandshakePacket services.codec.Enr) (enr own : services.codec.Enr)
      (response : Packet services.codec.Enr) (challenge : WhoAreYouPacket)
      → s.status ≡ during
      → e.packet.auth_data ≡ handshake completion
      → completion.enr_record ≡ some enr
      → services.get_enr (stored services s.enr_db (services.set_enr s.enr_db enr)) s.local_node_id
        ≡ some own
      → services.has_v4_scheme own ≡ true
      → s.handshake_response_packet ≡ some response
      → challenge_of response.auth_data ≡ some challenge
      → validate_id_nonce_signature services.crypto
          (record {
            iv = response.iv;
            header = response.header;
            who_are_you = challenge;
            ephemeral_public_key = completion.ephemeral_public_key;
            recipient_node_id = s.local_node_id;
          })
          completion.id_signature
          (services.public_key enr)
        ≡ raise validation_error
      → Recipient.handle_inbound_envelope services e s ≡ (
        record s {
          enr_db = stored services s.enr_db (services.set_enr s.enr_db enr);
          trace = (s.trace ++ packet_received e ∷ []) ++ packet_discarded e ∷ [];
        },
        ok false,
      )
  unfolding Recipient.handle_inbound_envelope Recipient.inbound_in ◌>>=◌ ◌>>◌ continue
  bad_signature-discarded s e completion enr own response challenge d a r l v i c bad =
      ap (λ x. Recipient.inbound_in services x e (received s e)) d
      ∙ (ap (λ x. Recipient.receive_during services e x (received s e)) a
          ∙ discarded (received s e) e completion enr (
              completion-fails (received s e) e.packet completion enr own response challenge r l v i
                c bad))
