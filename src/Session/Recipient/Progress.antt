-- ===== src/Session/Recipient/Progress.antt =====
-- The runs of a `SessionRecipient`.
use ddht.Session.Progress.{
  Call, sends, receives, waits, rank-le, IsValid, Later, Goes, Advances, Goes-refl, Goes-trans,
  Goes-of, kept, bind-Advances, then-Advances, catching-Advances, trigger-Advances, draw-Advances,
  send_envelope-Advances, remote_node_id-Advances, handshake_scheme-Advances, send_message-Advances,
  buffer_message-Advances, discard-Advances, deliver-Advances, receive_after-Advances,
}
use ddht.Session.Base.{is_handshake_failure}
use ddht.Session.Scheme.{SessionKeys}
use ddht.Session.State.{
  continue, Services, State, Status, before, during, after, pure, ask, Endpoint, OutboundMessage,
  InboundEnvelope, ◌>>=◌, ◌>>◌,
}
use ddht.Wire.Packet.{Packet, AuthData, message, who_are_you, handshake}
use ddht.Prelude.{
  ◌+◌, ◌≡◌, refl, true, Bool-cases, inl, inr, Option, none, some, List, [], ◌∷◌, ltb, length,
  length-append, arith,
}
use ddht.Wire.Message.{MessagePacket}
use ddht.Wire.Handshake.{HandshakePacket}
use ddht.Session.Recipient.{
  outbound_in, handle_outbound_message, send_handshake_response, remote_record,
  receive_handshake_completion, receive_all, send_all, process_message_buffers, complete_handshake,
  buffer_envelope, receive_during, receive_before, inbound_in, handle_inbound_envelope,
}

module _ (services : Services) where
  outbound_in-Advances :
      (status : Status) (m : OutboundMessage services)
      → Advances services (outbound_in services status m)
  unfolding outbound_in
  outbound_in-Advances after m = send_message-Advances services m
  outbound_in-Advances during m = buffer_message-Advances services m
  outbound_in-Advances before m = Goes-refl services

  pub handle_outbound_message-Goes :
      (m : OutboundMessage services) → Advances services (handle_outbound_message services m)
  unfolding handle_outbound_message
  handle_outbound_message-Goes m =
      then-Advances services _ _
        (λ s.
          Goes-of services s _ (kept services refl refl refl refl) (omega arith) refl refl refl
            refl)
        (bind-Advances services _ _ (Goes-refl services) (λ status. outbound_in-Advances status m))

  send_handshake_response-Advances :
      (p : Packet services.codec.Enr) (i : MessagePacket) (e : Endpoint)
      → Advances services (send_handshake_response services p i e)
  unfolding send_handshake_response
  send_handshake_response-Advances p i e = bind-Advances services _ _ (Goes-refl services) (λ enr.
      bind-Advances services _ _ (draw-Advances services 16) (λ id_nonce.
        bind-Advances services _ _ (draw-Advances services 16) (λ key.
          bind-Advances services _ _ (draw-Advances services 16) (λ iv.
            bind-Advances services _ _ (Goes-refl services) (λ response.
              then-Advances services _ _
                (λ s.
                  Goes-of services s _ (kept services refl refl refl refl) (omega arith) refl refl
                    refl refl)
                (send_envelope-Advances services _))))))

  remote_record-Advances :
      (r : Option services.codec.Enr) → Advances services (remote_record services r)
  remote_record-Advances none =
      bind-Advances services _ _ (remote_node_id-Advances services) (λ node_id. Goes-refl services)
  remote_record-Advances (some enr) =
      then-Advances services _ _
        (λ s.
          Goes-of services s _ (kept services refl refl refl refl) (omega arith) refl refl refl
            refl)
        (Goes-refl services)

  receive_handshake_completion-Advances :
      (p : Packet services.codec.Enr) (h : HandshakePacket services.codec.Enr)
      → Advances services (receive_handshake_completion services p h)
  unfolding receive_handshake_completion
  receive_handshake_completion-Advances p h =
      bind-Advances services _ _ (remote_record-Advances h.enr_record) (λ enr.
        then-Advances services _ _ (handshake_scheme-Advances services) (
          bind-Advances services _ _ (Goes-refl services) (λ response.
            bind-Advances services _ _ (Goes-refl services) (λ challenge.
              bind-Advances services _ _ (Goes-refl services) (λ local_node_id.
                then-Advances services _ _ (Goes-refl services) (
                  bind-Advances services _ _ (Goes-refl services) (λ private_key.
                    bind-Advances services _ _ (remote_node_id-Advances services) (λ node_id.
                      bind-Advances services _ _ (Goes-refl services) (λ salt.
                        bind-Advances services _ _ (Goes-refl services) (λ session_keys.
                          bind-Advances services _ _ (Goes-refl services) (λ associated.
                            bind-Advances services _ _ (Goes-refl services) (λ m.
                              then-Advances services _ _ (deliver-Advances services m)
                                (Goes-refl services)))))))))))))

  receive_all-Advances :
      (es : List (InboundEnvelope services)) → Advances services (receive_all services es)
  unfolding receive_all
  receive_all-Advances [] = Goes-refl services
  receive_all-Advances (e ∷ es) = then-Advances services _ _ (trigger-Advances services _) (
      bind-Advances services _ _ (receive_after-Advances services e e.packet.auth_data)
        (λ was_handled. receive_all-Advances es))

  send_all-Advances :
      (ms : List (OutboundMessage services)) → Advances services (send_all services ms)
  unfolding send_all
  send_all-Advances [] = Goes-refl services
  send_all-Advances (m ∷ ms) =
      then-Advances services _ _ (handle_outbound_message-Goes m) (send_all-Advances ms)

  process_message_buffers-Advances : Advances services (process_message_buffers services)
  unfolding process_message_buffers
  process_message_buffers-Advances = bind-Advances services _ _ (Goes-refl services) (λ status.
      then-Advances services _ _ (Goes-refl services) (
        bind-Advances services _ _ (Goes-refl services) (λ envelopes.
          then-Advances services _ _
            (λ s.
              Goes-of services s _
                (λ v. record {
                  has_keys = v.has_keys;
                  messages_fit = v.messages_fit;
                  envelopes_fit = omega arith;
                })
                (omega arith) refl refl refl refl)
            (then-Advances services _ _ (receive_all-Advances envelopes) (
              bind-Advances services _ _ (Goes-refl services) (λ messages.
                then-Advances services _ _
                  (λ s.
                    Goes-of services s _
                      (λ v. record {
                        has_keys = v.has_keys;
                        messages_fit = omega arith;
                        envelopes_fit = v.envelopes_fit;
                      })
                      (omega arith) refl refl refl refl)
                  (send_all-Advances messages)))))))

  complete_handshake-Advances :
      (k : SessionKeys) → Advances services (complete_handshake services k)
  unfolding complete_handshake
  complete_handshake-Advances k =
      then-Advances services _ _
        (λ s.
          Goes-of services s _
            (λ v. record {
              has_keys = tt;
              messages_fit = v.messages_fit;
              envelopes_fit = v.envelopes_fit;
            })
            (rank-le s.status) refl refl refl refl)
        (then-Advances services _ _ (trigger-Advances services _)
          (then-Advances services _ _ process_message_buffers-Advances (Goes-refl services)))

  buffer_envelope-Advances :
      (e : InboundEnvelope services) → Advances services (buffer_envelope services e)
  unfolding buffer_envelope ◌>>=◌ ◌>>◌ continue
  buffer_envelope-Advances e s = elim (Bool-cases (ltb (length s.inbound_envelope_buffer) 256)) [
    | inl room ↦ rw room (
        Goes-of services s _
          (λ v. record {
            has_keys = v.has_keys;
            messages_fit = v.messages_fit;
            envelopes_fit = ground (arith, room, length-append s.inbound_envelope_buffer (e ∷ []));
          })
          (omega arith) refl refl refl refl)
    | inr full ↦ rw full (trigger-Advances services _ s)
  ]

  receive_during-Advances :
      (e : InboundEnvelope services) (a : AuthData services.codec.Enr)
      → Advances services (receive_during services e a)
  unfolding receive_during
  receive_during-Advances e (handshake h) =
      catching-Advances services is_handshake_failure _ _ _
        (receive_handshake_completion-Advances e.packet h) (discard-Advances services e)
        complete_handshake-Advances
  receive_during-Advances e (message _) = buffer_envelope-Advances e
  receive_during-Advances e (who_are_you _) = discard-Advances services e

  respond-Advances :
      (e : InboundEnvelope services) (i : MessagePacket)
      → Advances services
          (send_handshake_response services e.packet i e.sender_endpoint >> pure services true)
  respond-Advances e i =
      then-Advances services _ _ (send_handshake_response-Advances e.packet i e.sender_endpoint)
        (Goes-refl services)

  abbrev begun : State services → MessagePacket → State services
  begun s i = record s { status = during; remote_node_id = some i.source_node_id }

  -- a handshake begins only before it
  receive_before-Goes :
      (e : InboundEnvelope services) (a : AuthData services.codec.Enr) (s : State services)
      → s.status ≡ before
      → Goes services s (receive_before services e a s).0
  unfolding receive_before ◌>>◌ continue
  receive_before-Goes e (message i) s h =
      Goes-trans services s (begun s i) _
        (Goes-of services s (begun s i)
          (λ v. record {
            has_keys = tt;
            messages_fit = v.messages_fit;
            envelopes_fit = v.envelopes_fit;
          })
          (rw h (omega arith)) refl refl refl refl)
        (respond-Advances e i (begun s i))
  receive_before-Goes e (who_are_you _) s h = discard-Advances services e s
  receive_before-Goes e (handshake _) s h = discard-Advances services e s

  inbound_in-Goes :
      (e : InboundEnvelope services) (status : Status) (s : State services)
      → s.status ≡ status
      → Goes services s (inbound_in services status e s).0
  unfolding inbound_in
  inbound_in-Goes e after s h = receive_after-Advances services e e.packet.auth_data s
  inbound_in-Goes e during s h = receive_during-Advances e e.packet.auth_data s
  inbound_in-Goes e before s h = receive_before-Goes e e.packet.auth_data s h

  dispatch :
      (e : InboundEnvelope services)
      → Advances services (ask services (λ s. s.status) >>= λ status. inbound_in services status e)
  unfolding ◌>>=◌ continue
  dispatch e s = inbound_in-Goes e s.status s refl

  pub handle_inbound_envelope-Goes :
      (e : InboundEnvelope services) → Advances services (handle_inbound_envelope services e)
  unfolding handle_inbound_envelope
  handle_inbound_envelope-Goes e =
      then-Advances services _ _ (trigger-Advances services _) (λ s. dispatch e s)

module _ (services : Services) where
  pub step : State services → Call services → State services
  step s (sends m) = (handle_outbound_message services m s).0
  step s (receives e) = (handle_inbound_envelope services e s).0
  step s (waits time) = record s { clock = s.clock + time }

  pub recipient_run : State services → List (Call services) → State services
  recipient_run s [] = s
  recipient_run s (c ∷ cs) = recipient_run (step s c) cs

  step-Goes : (s : State services) (c : Call services) → Goes services s (step s c)
  unfolding step
  step-Goes s (sends m) = handle_outbound_message-Goes services m s
  step-Goes s (receives e) = handle_inbound_envelope-Goes services e s
  step-Goes s (waits time) =
      Goes-of services s _ (kept services refl refl refl refl) (omega arith) refl refl refl refl

  -- Whatever a session of a recipient is told to send and receives, exceptions included,
  -- and whatever time passes, a valid session stays valid: at most 256 messages and 256 envelopes
  -- wait, and past the handshake there are keys. The status, the nonce counter and the random draws
  -- do not go back, the time of creation stays, and the trace only grows at its end.
  pub recipient_run_keeps :
      (s : State services) (cs : List (Call services))
      → IsValid services s
      → IsValid services (recipient_run s cs) × Later services s (recipient_run s cs)
  unfolding recipient_run
  recipient_run_keeps s [] = Goes-refl services s
  recipient_run_keeps s (c ∷ cs) =
      Goes-trans services s (step s c) (recipient_run (step s c) cs) (step-Goes s c)
        (recipient_run_keeps (step s c) cs)
