-- ===== src/Session/Initiator/Progress.antt =====
-- The runs of a `SessionInitiator`.
use ddht.Session.Progress.{
  Call, sends, receives, waits, rank-le, IsValid, Later, Goes, Advances, Goes-refl, Goes-trans,
  Goes-of, kept, bind-Advances, then-Advances, catching-Advances, trigger-Advances, draw-Advances,
  send_envelope-Advances, remote_node_id-Advances, local_enr-Advances, handshake_scheme-Advances,
  send_message-Advances, buffer_message-Advances, discard-Advances, receive_after-Advances,
}
use ddht.Session.Base.{is_handshake_failure}
use ddht.Session.Scheme.{SessionKeys}
use ddht.Session.State.{
  continue, Services, State, Status, before, during, after, OutboundMessage, InboundEnvelope, ◌>>=◌,
  ◌>>◌,
}
use ddht.Wire.Packet.{Packet, AuthData, message, who_are_you, handshake}
use ddht.Wire.WhoAreYou.{WhoAreYouPacket}
use ddht.Prelude.Bytes.{Bytes}
use ddht.Prelude.{◌+◌, ◌≡◌, refl, some, List, [], ◌∷◌, arith}
use ddht.Session.Initiator.{
  send_handshake_initiation, outbound_in, handle_outbound_message, receive_handshake_response,
  send_handshake_completion, send_all, process_message_buffers, complete_handshake, receive_during,
  inbound_in, handle_inbound_envelope,
}

module _ (services : Services) where
  send_handshake_initiation-Advances : Advances services (send_handshake_initiation services)
  unfolding send_handshake_initiation
  send_handshake_initiation-Advances =
      bind-Advances services _ _ (draw-Advances services 12) (λ nonce.
        bind-Advances services _ _ (draw-Advances services 16) (λ key.
          bind-Advances services _ _ (draw-Advances services 12) (λ random_data.
            bind-Advances services _ _ (Goes-refl services) (λ local_node_id.
              bind-Advances services _ _ (remote_node_id-Advances services) (λ node_id.
                bind-Advances services _ _ (draw-Advances services 16) (λ iv.
                  bind-Advances services _ _ (Goes-refl services) (λ packet.
                    then-Advances services _ _
                      (λ s.
                        Goes-of services s _ (kept services refl refl refl refl) (omega arith) refl
                          refl refl refl)
                      (bind-Advances services _ _ (Goes-refl services)
                        (λ endpoint. send_envelope-Advances services _)))))))))

  outbound_in-Goes :
      (m : OutboundMessage services) (status : Status) (s : State services)
      → s.status ≡ status
      → Goes services s (outbound_in services status m s).0
  unfolding outbound_in ◌>>◌ continue
  outbound_in-Goes m after s e = send_message-Advances services m s
  outbound_in-Goes m during s e = buffer_message-Advances services m s
  outbound_in-Goes m before s e =
      Goes-trans services s begun _
        (Goes-of services s begun
          (λ v. record {
            has_keys = tt;
            messages_fit = v.messages_fit;
            envelopes_fit = v.envelopes_fit;
          })
          (rw e (omega arith)) refl refl refl refl)
        (send_handshake_initiation-Advances begun)
    where
      begun : State services
      begun = record s { initial_message = some m; status = during }

  pub handle_outbound_message-Goes :
      (m : OutboundMessage services) → Advances services (handle_outbound_message services m)
  unfolding handle_outbound_message ◌>>=◌ ◌>>◌ continue
  handle_outbound_message-Goes m s =
      Goes-trans services s (record s { last_message_sent_at = some s.clock }) _
        (Goes-of services s _ (kept services refl refl refl refl) (omega arith) refl refl refl refl)
        (outbound_in-Goes m s.status (record s { last_message_sent_at = some s.clock }) refl)

  receive_handshake_response-Advances :
      (p : Packet services.codec.Enr) → Advances services (receive_handshake_response services p)
  unfolding receive_handshake_response
  receive_handshake_response-Advances p = bind-Advances services _ _ (Goes-refl services) (λ sent.
      then-Advances services _ _ (Goes-refl services) (
        bind-Advances services _ _ (draw-Advances services 32) (λ key.
          bind-Advances services _ _ (remote_node_id-Advances services) (λ node_id.
            bind-Advances services _ _ (Goes-refl services) (λ enr.
              then-Advances services _ _ (handshake_scheme-Advances services) (
                bind-Advances services _ _ (Goes-refl services) (λ local_node_id.
                  bind-Advances services _ _ (Goes-refl services) (λ salt.
                    bind-Advances services _ _ (Goes-refl services)
                      (λ session_keys. Goes-refl services)))))))))

  send_handshake_completion-Advances :
      (key : Bytes) (p : Packet services.codec.Enr) (w : WhoAreYouPacket)
      → Advances services (send_handshake_completion services key p w)
  unfolding send_handshake_completion
  send_handshake_completion-Advances key p w =
      bind-Advances services _ _ (local_enr-Advances services) (λ enr.
        then-Advances services _ _ (handshake_scheme-Advances services) (
          bind-Advances services _ _ (remote_node_id-Advances services) (λ node_id.
            bind-Advances services _ _ (Goes-refl services) (λ private_key.
              bind-Advances services _ _ (Goes-refl services) (λ signature.
                bind-Advances services _ _ (Goes-refl services) (λ local_node_id.
                  bind-Advances services _ _ (Goes-refl services) (λ session_keys.
                    bind-Advances services _ _ (Goes-refl services) (λ initial.
                      bind-Advances services _ _ (draw-Advances services 16) (λ iv.
                        bind-Advances services _ _ (Goes-refl services) (λ packet.
                          bind-Advances services _ _ (Goes-refl services)
                            (λ endpoint. send_envelope-Advances services _)))))))))))

  send_all-Advances :
      (ms : List (OutboundMessage services)) → Advances services (send_all services ms)
  unfolding send_all
  send_all-Advances [] = Goes-refl services
  send_all-Advances (m ∷ ms) =
      then-Advances services _ _ (handle_outbound_message-Goes m) (send_all-Advances ms)

  process_message_buffers-Advances : Advances services (process_message_buffers services)
  unfolding process_message_buffers
  process_message_buffers-Advances = bind-Advances services _ _ (Goes-refl services) (λ status.
      then-Advances services _ _ (Goes-refl services) (
        bind-Advances services _ _ (Goes-refl services) (λ messages.
          then-Advances services _ _
            (λ s.
              Goes-of services s _
                (λ v. record {
                  has_keys = v.has_keys;
                  messages_fit = omega arith;
                  envelopes_fit = v.envelopes_fit;
                })
                (omega arith) refl refl refl refl)
            (send_all-Advances messages))))

  complete_handshake-Advances :
      (e : InboundEnvelope services) (w : WhoAreYouPacket) (k : SessionKeys × Bytes)
      → Advances services (complete_handshake services e w k)
  unfolding complete_handshake
  complete_handshake-Advances e w (k, key) =
      then-Advances services _ _
        (λ s.
          Goes-of services s _
            (λ v. record {
              has_keys = tt;
              messages_fit = v.messages_fit;
              envelopes_fit = v.envelopes_fit;
            })
            (rank-le s.status) refl refl refl refl)
        (then-Advances services _ _ (trigger-Advances services _) (
          then-Advances services _ _ (send_handshake_completion-Advances key e.packet w)
            (then-Advances services _ _ process_message_buffers-Advances (Goes-refl services))))

  receive_during-Advances :
      (e : InboundEnvelope services) (a : AuthData services.codec.Enr)
      → Advances services (receive_during services e a)
  unfolding receive_during
  receive_during-Advances e (who_are_you w) =
      catching-Advances services is_handshake_failure _ _ _
        (receive_handshake_response-Advances e.packet) (Goes-refl services)
        (complete_handshake-Advances e w)
  receive_during-Advances e (message _) = discard-Advances services e
  receive_during-Advances e (handshake _) = discard-Advances services e

  inbound_in-Advances :
      (e : InboundEnvelope services) (status : Status)
      → Advances services (inbound_in services status e)
  unfolding inbound_in
  inbound_in-Advances e after = receive_after-Advances services e e.packet.auth_data
  inbound_in-Advances e during = receive_during-Advances e e.packet.auth_data
  inbound_in-Advances e before = discard-Advances services e

  pub handle_inbound_envelope-Goes :
      (e : InboundEnvelope services) → Advances services (handle_inbound_envelope services e)
  unfolding handle_inbound_envelope
  handle_inbound_envelope-Goes e =
      then-Advances services _ _ (trigger-Advances services _)
        (bind-Advances services _ _ (Goes-refl services) (λ status. inbound_in-Advances e status))

module _ (services : Services) where
  unfoldable pub step : State services → Call services → State services
  step s (sends m) = (handle_outbound_message services m s).0
  step s (receives e) = (handle_inbound_envelope services e s).0
  step s (waits time) = record s { clock = s.clock + time }

  unfoldable pub initiator_run : State services → List (Call services) → State services
  initiator_run s [] = s
  initiator_run s (c ∷ cs) = initiator_run (step s c) cs

  step-Goes : (s : State services) (c : Call services) → Goes services s (step s c)
  unfolding step
  step-Goes s (sends m) = handle_outbound_message-Goes services m s
  step-Goes s (receives e) = handle_inbound_envelope-Goes services e s
  step-Goes s (waits time) =
      Goes-of services s _ (kept services refl refl refl refl) (omega arith) refl refl refl refl

  -- Whatever a session of an initiator is told to send and receives, exceptions included,
  -- and whatever time passes, a valid session stays valid: at most 256 messages and 256 envelopes
  -- wait, and past the handshake there are keys. The status, the nonce counter and the random draws
  -- do not go back, the time of creation stays, and the trace only grows at its end.
  pub initiator_run_keeps :
      (s : State services) (cs : List (Call services))
      → IsValid services s
      → IsValid services (initiator_run s cs) × Later services s (initiator_run s cs)
  unfolding initiator_run
  initiator_run_keeps s [] = Goes-refl services s
  initiator_run_keeps s (c ∷ cs) =
      Goes-trans services s (step s c) (initiator_run (step s c) cs) (step-Goes s c)
        (initiator_run_keeps (step s c) cs)
