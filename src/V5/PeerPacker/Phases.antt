-- ===== src/V5/PeerPacker/Phases.antt =====
-- The three phases of `PeerPacker` of ddht/v5/packer.py.
use mathlib.Core.Path.{subst}
use ddht.Session.Scheme.{SessionKeys}
use ddht.V5.Handshake.{Packages, init_initiator, init_recipient}
use ddht.V5.PeerPacker.{
  Participant, Database, State, Envelope, present, start_handshake_as_initiator,
  start_handshake_as_recipient, handle_outbound_message, handle_outbound_message_pre_handshake,
  handle_outbound_message_during_handshake, handle_outbound_message_post_handshake, seal,
  send_backlog, Outcome,
}
use ddht.Wire.Error.{Result-cases}
use ddht.Prelude.{
  ◌≡◌, arith, false, ◌&&◌, Option, none, some, List, [], ◌∷◌, ◌+◌, inl, inr, ap, Option-cases, sym,
}
use ddht.Prelude.Bytes.{Bytes}

module _ (packages : Packages) (database : Database packages) where
  open packages use {formats}
  open formats use {Enr, Message}

  abbrev Phased :
      Option (Participant packages) → Option SessionKeys → List (Envelope Message) → Type 0
  Phased participant keys backlog =
      ((present packages database participant && present packages database keys) ≡ false)
      × (present packages database participant ≡ false → backlog ≡ [])

  -- there are no keys during a handshake, and messages only wait during one
  abbrev pub IsPhased : State packages database → Type 0
  IsPhased s = Phased s.handshake_participant s.session_keys s.outbound_message_backlog

  pub IsPhased-at :
      {outcome other : Outcome packages database}
      → outcome ≡ other
      → IsPhased other.0
      → IsPhased outcome.0
  IsPhased-at {outcome} {other} same phased =
      subst (λ (o : Outcome packages database). IsPhased o.0) (sym same) phased

  start_handshake_as_initiator-IsPhased :
      (s : State packages database) (local_enr remote_enr : Enr) (m : Message) (endpoint : Bytes)
      → IsPhased s
      → s.session_keys ≡ none
      → IsPhased
          (start_handshake_as_initiator packages database s local_enr remote_enr m endpoint).0
  unfolding start_handshake_as_initiator
  start_handshake_as_initiator-IsPhased s local_enr remote_enr m endpoint phased fresh =
      elim (Result-cases (
        init_initiator packages s.local_private_key local_enr remote_enr m (s.random s.drawn)
          (s.random (s.drawn + 1)))) [
            | inl (e, h) ↦ rw (start_handshake_as_initiator, h) phased
            | inr (i, h) ↦
                rw (start_handshake_as_initiator, h)
                  (ap (present packages database) fresh, λ started. cc)
          ]

  pub start_handshake_as_recipient-IsPhased :
      (s : State packages database) (nonce : Bytes) (local_enr : Enr) (remote_enr : Option Enr)
      (endpoint : Bytes)
      → IsPhased s
      → s.session_keys ≡ none
      → IsPhased
          (start_handshake_as_recipient packages database s nonce local_enr remote_enr endpoint).0
  unfolding start_handshake_as_recipient
  start_handshake_as_recipient-IsPhased s nonce local_enr remote_enr endpoint phased fresh =
      elim (Result-cases (
        init_recipient packages s.local_private_key local_enr (some s.remote_node_id) remote_enr
          nonce (s.random s.drawn))) [
            | inl (e, h) ↦ rw (start_handshake_as_recipient, h) phased
            | inr (r, h) ↦
                rw (start_handshake_as_recipient, h)
                  (ap (present packages database) fresh, λ started. cc)
          ]

  handle_outbound_message_pre_handshake-IsPhased :
      (s : State packages database) (m : Envelope Message)
      → IsPhased s
      → s.session_keys ≡ none
      → IsPhased (handle_outbound_message_pre_handshake packages database s m).0
  unfolding handle_outbound_message_pre_handshake
  handle_outbound_message_pre_handshake-IsPhased s m phased fresh =
      elim (Option-cases (database.get_enr s.enr_db s.local_node_id)) [
        | inl none_local ↦ rw (handle_outbound_message_pre_handshake, none_local) phased
        | inr (local_enr, found) ↦
            elim (Option-cases (database.get_enr s.enr_db s.remote_node_id)) [
              | inl none_remote ↦
                  rw (handle_outbound_message_pre_handshake, found, none_remote) phased
              | inr (remote_enr, known) ↦
                  rw (handle_outbound_message_pre_handshake, found, known)
                    (start_handshake_as_initiator-IsPhased s local_enr remote_enr m.content
                      m.endpoint phased fresh)
            ]
      ]

  handle_outbound_message_post_handshake-IsPhased :
      (s : State packages database) (keys : SessionKeys) (m : Envelope Message)
      → IsPhased s
      → IsPhased (handle_outbound_message_post_handshake packages database s keys m).0
  unfolding handle_outbound_message_post_handshake
  handle_outbound_message_post_handshake-IsPhased s keys m phased =
      elim (Result-cases (seal packages database s keys m.content (s.random s.drawn))) [
        | inl (e, h) ↦ rw (handle_outbound_message_post_handshake, h) phased
        | inr (packet, h) ↦ rw (handle_outbound_message_post_handshake, h) phased
      ]

  pub handle_outbound_message-IsPhased :
      (s : State packages database) (m : Envelope Message)
      → IsPhased s
      → IsPhased (handle_outbound_message packages database s m).0
  unfolding handle_outbound_message handle_outbound_message_during_handshake
  handle_outbound_message-IsPhased s m phased = elim (Option-cases s.handshake_participant) [
    | inr (p, e) ↦
        IsPhased-at {outcome = handle_outbound_message packages database s m}
          {other = handle_outbound_message_during_handshake packages database s m}
          (ground (arith, e)) (phased.0, λ idle. absurd (ground (arith, e, idle)))
    | inl idle ↦ elim (Option-cases s.session_keys) [
      | inl fresh ↦
          IsPhased-at {outcome = handle_outbound_message packages database s m}
            {other = handle_outbound_message_pre_handshake packages database s m}
            (ground (arith, idle, fresh))
            (handle_outbound_message_pre_handshake-IsPhased s m phased fresh)
      | inr (keys, e) ↦
          IsPhased-at {outcome = handle_outbound_message packages database s m}
            {other = handle_outbound_message_post_handshake packages database s keys m}
            (ground (arith, idle, e))
            (handle_outbound_message_post_handshake-IsPhased s keys m phased)
    ]
  ]

  pub send_backlog-IsPhased :
      (s : State packages database) (backlog : List (Envelope Message))
      → IsPhased s
      → IsPhased (send_backlog packages database s backlog).0
  unfolding send_backlog
  send_backlog-IsPhased s [] phased = phased
  send_backlog-IsPhased s (m ∷ backlog) phased =
      let after = handle_outbound_message-IsPhased s m phased in
      elim (Result-cases (handle_outbound_message packages database s m).1) [
        | inl (e, h) ↦ rw (send_backlog, h) after
        | inr (done, h) ↦
            rw (send_backlog, h)
              (send_backlog-IsPhased (handle_outbound_message packages database s m).0 backlog
                after)
      ]
