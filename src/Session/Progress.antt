-- ===== src/Session/Progress.antt =====
-- What the methods of a session keep, and how they move it on.
use ddht.Session.Base.{
  remote_node_id, local_enr, handshake_scheme, get_encryption_nonce, prepare_envelope,
  send_envelope, send_message, buffer_message, discard, deliver, decode_inbound, receive_after,
  resume, catching, is_decryption_error,
}
use ddht.Session.Scheme.{SessionKeys}
use ddht.Session.State.{
  Services, State, Status, before, during, after, Action, continue, modify, trigger, draw, Effect,
  OutboundMessage, OutboundEnvelope, InboundEnvelope, ◌>>=◌, ◌>>◌,
}
use ddht.Wire.Error.{Error, Result, ok, raise}
use ddht.Wire.Packet.{Packet, AuthData, message, who_are_you, handshake}
use mathlib.Core.List.{append_assoc, append-nil}
use ddht.Prelude.{
  ℕ, ◌+◌, ◌≤◌, ◌≡◌, refl, sym, ◌∙◌, ap, Bool, Bool-cases, inl, inr, Option, none, List, [], ◌∷◌,
  ◌++◌, ltb, length, length-append, arith,
}

abbrev pub rank : Status → ℕ
rank before = 0
rank during = 1
rank after = 2

pub rank-le : (status : Status) → rank status ≤ 2
rank-le before = omega arith
rank-le during = omega arith
rank-le after = omega arith

-- a session past the handshake has keys
abbrev pub HasKeys : Status → Option SessionKeys → Type 0
HasKeys after none = ⊥
HasKeys _ _ = Unit

-- What happens to a session: a message to send, an envelope that arrives, and time that passes.
pub data Call (services : Services) : Type 0 where
  sends : OutboundMessage services → Call services
  receives : InboundEnvelope services → Call services
  waits : ℕ → Call services

module _ (services : Services) where
  pub record IsValid (s : State services) : Type 0 where
    pub has_keys : HasKeys s.status s.session_keys
    pub messages_fit : length s.outbound_message_buffer ≤ 256
    pub envelopes_fit : length s.inbound_envelope_buffer ≤ 256

  -- `s'` may follow `s`: the status, the nonce counter and the draws do not go back, and the trace
  -- has grown
  pub record Later (s s' : State services) : Type 0 where
    pub status_le : rank s.status ≤ rank s'.status
    pub counter_le : s.nonce_counter ≤ s'.nonce_counter
    pub draws_le : s.draws ≤ s'.draws
    pub same_start : s'.created_at ≡ s.created_at
    pub trace_grows : (more : List (Effect services)) × (s'.trace ≡ s.trace ++ more)

  abbrev pub Goes : State services → State services → Type 0
  Goes s s' = IsValid s → IsValid s' × Later s s'

  abbrev pub Advances : {A : Type 0} → Action services A → Type 0
  Advances m = (s : State services) → Goes s (m s).0

  pub Later-refl : (s : State services) → Later s s
  Later-refl s = record {
    status_le = omega arith;
    counter_le = omega arith;
    draws_le = omega arith;
    same_start = refl;
    trace_grows = ([], sym (append-nil s.trace));
  }

  pub Later-trans : (a b c : State services) → Later a b → Later b c → Later a c
  Later-trans a b c h k = record {
    status_le = omega (arith, h.status_le, k.status_le);
    counter_le = omega (arith, h.counter_le, k.counter_le);
    draws_le = omega (arith, h.draws_le, k.draws_le);
    same_start = k.same_start ∙ h.same_start;
    trace_grows = (
      h.trace_grows.0 ++ k.trace_grows.0,
      k.trace_grows.1
          ∙ ap (λ l. l ++ k.trace_grows.0) h.trace_grows.1
          ∙ append_assoc a.trace h.trace_grows.0 k.trace_grows.0,
    );
  }

  pub Goes-refl : (s : State services) → Goes s s
  Goes-refl s v = (v, Later-refl s)

  pub Goes-trans : (a b c : State services) → Goes a b → Goes b c → Goes a c
  Goes-trans a b c h k v = let (w, le) = h v in let (x, le') = k w in (x, Later-trans a b c le le')

  continue-Goes :
      {A B : Type 0} (s : State services) (x : State services × Result A)
      (f : A → Action services B)
      → Goes s x.0
      → ((a : A) → Advances (f a))
      → Goes s (continue x f).0
  unfolding continue
  continue-Goes s (s', ok a) f h k = Goes-trans s s' (f a s').0 h (k a s')
  continue-Goes s (s', raise e) f h k = h

  pub bind-Advances :
      {A B : Type 0} (m : Action services A) (f : A → Action services B)
      → Advances m
      → ((a : A) → Advances (f a))
      → Advances (m >>= f)
  unfolding ◌>>=◌
  bind-Advances m f h k s = continue-Goes s (m s) f (h s) k

  pub then-Advances :
      {B : Type 0} (m : Action services (Unit {0})) (k : Action services B)
      → Advances m
      → Advances k
      → Advances (m >> k)
  unfolding ◌>>◌
  then-Advances m k h g s = continue-Goes s (m s) (λ _. k) (h s) (λ _. g)

  resume-Goes :
      {A B : Type 0} (caught : Error → Bool) (handler : Action services B)
      (rest : A → Action services B) (s : State services) (x : State services × Result A)
      → Goes s x.0
      → Advances handler
      → ((a : A) → Advances (rest a))
      → Goes s (resume services caught handler rest x).0
  unfolding resume
  resume-Goes caught handler rest s (s', ok a) h g k = Goes-trans s s' (rest a s').0 h (k a s')
  resume-Goes caught handler rest s (s', raise e) h g k = elim (Bool-cases (caught e)) [
    | inl stops ↦ rw stops (Goes-trans s s' (handler s').0 h (g s'))
    | inr passes ↦ rw passes h
  ]

  pub catching-Advances :
      {A B : Type 0} (caught : Error → Bool) (m : Action services A) (handler : Action services B)
      (rest : A → Action services B)
      → Advances m
      → Advances handler
      → ((a : A) → Advances (rest a))
      → Advances (catching services caught m handler rest)
  unfolding catching
  catching-Advances caught m handler rest h g k s =
      resume-Goes caught handler rest s (m s) (h s) g k

  pub trigger-Advances : (e : Effect services) → Advances (trigger services e)
  trigger-Advances e s v = (
    record {
      has_keys = v.has_keys;
      messages_fit = v.messages_fit;
      envelopes_fit = v.envelopes_fit;
    },
    record {
      status_le = omega arith;
      counter_le = omega arith;
      draws_le = omega arith;
      same_start = refl;
      trace_grows = (e ∷ [], refl);
    },
  )

  pub draw-Advances : (n : ℕ) → Advances (draw services n)
  draw-Advances n s v = (
    record {
      has_keys = v.has_keys;
      messages_fit = v.messages_fit;
      envelopes_fit = v.envelopes_fit;
    },
    record {
      status_le = omega arith;
      counter_le = omega arith;
      draws_le = omega arith;
      same_start = refl;
      trace_grows = ([], sym (append-nil s.trace));
    },
  )

  -- a change of other fields, or of these in the right direction
  pub Goes-of :
      (s s' : State services)
      → (IsValid s → IsValid s')
      → rank s.status ≤ rank s'.status
      → s'.nonce_counter ≡ s.nonce_counter
      → s'.draws ≡ s.draws
      → s'.created_at ≡ s.created_at
      → s'.trace ≡ s.trace
      → Goes s s'
  Goes-of s s' keeps up counter draws start trace v = (
    keeps v,
    record {
      status_le = up;
      counter_le = omega (arith, counter);
      draws_le = omega (arith, draws);
      same_start = start;
      trace_grows = ([], trace ∙ sym (append-nil s.trace));
    },
  )

  pub kept :
      {s s' : State services}
      → s'.status ≡ s.status
      → s'.session_keys ≡ s.session_keys
      → s'.outbound_message_buffer ≡ s.outbound_message_buffer
      → s'.inbound_envelope_buffer ≡ s.inbound_envelope_buffer
      → IsValid s
      → IsValid s'
  kept e f g h v = record {
    has_keys = rw (e, f) v.has_keys;
    messages_fit = rw g v.messages_fit;
    envelopes_fit = rw h v.envelopes_fit;
  }

  -- what both classes share
  pub send_envelope-Advances : (e : OutboundEnvelope services) → Advances (send_envelope services e)
  send_envelope-Advances e = then-Advances _ _ (trigger-Advances _) (trigger-Advances _)

  pub remote_node_id-Advances : Advances (remote_node_id services)
  remote_node_id-Advances s = Goes-refl s

  pub local_enr-Advances : Advances (local_enr services)
  unfolding local_enr
  local_enr-Advances s = Goes-refl s

  pub handshake_scheme-Advances : Advances (handshake_scheme services)
  unfolding handshake_scheme
  handshake_scheme-Advances = bind-Advances _ _ local_enr-Advances (λ enr. Goes-refl)

  pub get_encryption_nonce-Advances : Advances (get_encryption_nonce services)
  unfolding get_encryption_nonce
  get_encryption_nonce-Advances = bind-Advances _ _ Goes-refl (λ counter. then-Advances _ _ counts (
      bind-Advances _ _ Goes-refl
        (λ prefix. bind-Advances _ _ (draw-Advances 8) (λ suffix. Goes-refl))))
    where
      counts : Advances (modify services (λ s. record s { nonce_counter = s.nonce_counter + 1 }))
      counts s v = (
        kept {s = s} refl refl refl refl v,
        record {
          status_le = omega arith;
          counter_le = omega arith;
          draws_le = omega arith;
          same_start = refl;
          trace_grows = ([], sym (append-nil s.trace));
        },
      )

  prepare_envelope-Advances :
      (m : OutboundMessage services) → Advances (prepare_envelope services m)
  unfolding prepare_envelope
  prepare_envelope-Advances m = bind-Advances _ _ Goes-refl (λ status. then-Advances _ _ Goes-refl (
      bind-Advances _ _ get_encryption_nonce-Advances (λ nonce.
        bind-Advances _ _ Goes-refl (λ local_node_id. bind-Advances _ _ Goes-refl (λ session_keys.
          bind-Advances _ _ remote_node_id-Advances (λ dest_node_id.
            bind-Advances _ _ (draw-Advances 16) (λ iv.
              bind-Advances _ _ Goes-refl
                (λ packet. bind-Advances _ _ Goes-refl (λ endpoint. Goes-refl)))))))))

  pub send_message-Advances : (m : OutboundMessage services) → Advances (send_message services m)
  unfolding send_message
  send_message-Advances m =
      bind-Advances _ _ (prepare_envelope-Advances m) (λ envelope. send_envelope-Advances envelope)

  pub buffer_message-Advances :
      (m : OutboundMessage services) → Advances (buffer_message services m)
  unfolding buffer_message
  buffer_message-Advances m s = elim (Bool-cases (ltb (length s.outbound_message_buffer) 256)) [
    | inl room ↦ rw room (
        Goes-of s _
          (λ v. record {
            has_keys = v.has_keys;
            messages_fit = ground (arith, room, length-append s.outbound_message_buffer (m ∷ []));
            envelopes_fit = v.envelopes_fit;
          })
          (omega arith) refl refl refl refl)
    | inr full ↦ rw full (Goes-refl s)
  ]

  pub discard-Advances : (e : InboundEnvelope services) → Advances (discard services e)
  unfolding discard
  discard-Advances e = then-Advances _ _ (trigger-Advances _) Goes-refl

  pub deliver-Advances : (m : services.Message) → Advances (deliver services m)
  unfolding deliver
  deliver-Advances m =
      bind-Advances _ _ Goes-refl
        (λ endpoint. bind-Advances _ _ remote_node_id-Advances (λ sender. trigger-Advances _))

  decode_inbound-Advances : (p : Packet services.codec.Enr) → Advances (decode_inbound services p)
  unfolding decode_inbound
  decode_inbound-Advances p = bind-Advances _ _ Goes-refl (λ session_keys. Goes-refl)

  pub receive_after-Advances :
      (e : InboundEnvelope services) (a : AuthData services.codec.Enr)
      → Advances (receive_after services e a)
  unfolding receive_after
  receive_after-Advances e (message _) =
      catching-Advances is_decryption_error _ _ _ (decode_inbound-Advances e.packet)
        (discard-Advances e)
        (λ m.
          then-Advances _ _
            (λ s. Goes-of s _ (kept refl refl refl refl) (omega arith) refl refl refl refl)
            (then-Advances _ _ (deliver-Advances m) Goes-refl))
  receive_after-Advances e (who_are_you _) = discard-Advances e
  receive_after-Advances e (handshake _) = discard-Advances e
