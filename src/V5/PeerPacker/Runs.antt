-- ===== src/V5/PeerPacker/Runs.antt =====
-- The phases of `PeerPacker` of ddht/v5/packer.py in a run of its service.
use ddht.Session.Scheme.{SessionKeys}
use ddht.V5.Handshake.{Packages, HandshakeResult}
use ddht.V5.PeerPacker.{
  Participant, Database, State, as_initiator, as_recipient, reset_handshake_state,
  handle_inbound_packet, handle_inbound_packet_pre_handshake,
  handle_inbound_packet_during_handshake, handle_inbound_packet_post_handshake, after_decryption,
  finish_handshake, complete_handshake, is_response_packet, set_enr_of, send_packet_of,
  receive_message_of, Arrival, inbound_packet, outbound_message, handle, run, init_peer_packer,
}
use ddht.V5.Packets.{Packet, AuthHeaderPacket, AuthTagPacket, auth_header, auth_tag, who_are_you}
use ddht.Wire.Error.{
  Result-cases, Result, ok, raise, decoding_error, decryption_error, validation_error,
  overflow_error, key_error, value_error, struct_error, type_error, index_error, attribute_error,
  handshake_failure, rlp_error, invalid_state, invariant_error,
}
use ddht.Prelude.{
  ℕ, ◌≡◌, refl, arith, true, false, Option, none, some, List, [], ◌∷◌, inl, inr, Option-cases,
  Bool-cases,
}
use ddht.Prelude.Bytes.{Bytes}
use ddht.V5.PeerPacker.Phases.{
  IsPhased, IsPhased-at, start_handshake_as_recipient-IsPhased, handle_outbound_message-IsPhased,
  send_backlog-IsPhased,
}

module _ (packages : Packages) (database : Database packages) where
  open packages use {formats}
  open formats use {Enr, Message}

  handle_inbound_packet_pre_handshake-IsPhased :
      (s : State packages database) (packet : Packet) (endpoint : Bytes)
      → IsPhased packages database s
      → s.session_keys ≡ none
      → IsPhased packages database
          (handle_inbound_packet_pre_handshake packages database s packet endpoint).0
  unfolding handle_inbound_packet_pre_handshake
  handle_inbound_packet_pre_handshake-IsPhased s (auth_tag p) endpoint phased fresh =
      elim (Option-cases (database.get_enr s.enr_db s.local_node_id)) [
        | inl none_local ↦ rw (handle_inbound_packet_pre_handshake, none_local) phased
        | inr (local_enr, found) ↦
            rw (handle_inbound_packet_pre_handshake, found)
              (start_handshake_as_recipient-IsPhased packages database s p.auth_tag local_enr _
                endpoint phased fresh)
      ]
  handle_inbound_packet_pre_handshake-IsPhased s (auth_header p) endpoint phased fresh = phased
  handle_inbound_packet_pre_handshake-IsPhased s (who_are_you p) endpoint phased fresh = phased

  set_enr_of-IsPhased :
      (s : State packages database) (enr : Option Enr)
      → IsPhased packages database s
      → IsPhased packages database (set_enr_of packages database s enr).0
  set_enr_of-IsPhased s none phased = phased
  set_enr_of-IsPhased s (some enr) phased = elim (Result-cases (database.set_enr s.enr_db enr)) [
    | inl (e, h) ↦ rw (set_enr_of, h) phased
    | inr (enr_db, h) ↦ rw (set_enr_of, h) phased
  ]

  send_packet_of-IsPhased :
      (s : State packages database) (packet : Option AuthHeaderPacket) (endpoint : Bytes)
      → IsPhased packages database s
      → IsPhased packages database (send_packet_of packages database s packet endpoint)
  send_packet_of-IsPhased s none endpoint phased = phased
  send_packet_of-IsPhased s (some packet) endpoint phased = phased

  receive_message_of-IsPhased :
      (s : State packages database) (m : Option Message) (endpoint : Bytes)
      → IsPhased packages database s
      → IsPhased packages database (receive_message_of packages database s m endpoint)
  receive_message_of-IsPhased s none endpoint phased = phased
  receive_message_of-IsPhased s (some m) endpoint phased = phased

  finish_handshake-IsPhased :
      (s : State packages database) (result : HandshakeResult packages) (endpoint : Bytes)
      → IsPhased packages database (finish_handshake packages database s result endpoint).0
  unfolding finish_handshake reset_handshake_state
  finish_handshake-IsPhased s result endpoint =
      let keyed = record (reset_handshake_state packages database s) {
        session_keys = some result.session_keys;
      } in
      let stored = set_enr_of-IsPhased keyed result.enr (refl, λ idle. refl) in
      elim (Result-cases (set_enr_of packages database keyed result.enr).1) [
        | inl (e, h) ↦ rw (finish_handshake, h) stored
        | inr (done, h) ↦
            rw (finish_handshake, h)
              (send_backlog-IsPhased packages database _ s.outbound_message_backlog (
                receive_message_of-IsPhased _ result.message endpoint
                  (send_packet_of-IsPhased _ result.auth_header_packet endpoint stored)))
      ]

  complete_handshake-IsPhased :
      (s : State packages database) (participant : Participant packages) (packet : Packet)
      → IsPhased packages database s
      → IsPhased packages database (complete_handshake packages database s participant packet).0
  unfolding complete_handshake
  complete_handshake-IsPhased s (as_initiator i) packet phased = phased
  complete_handshake-IsPhased s (as_recipient r) packet phased = phased

  handle_inbound_packet_during_handshake-IsPhased :
      (s : State packages database) (participant : Participant packages) (packet : Packet)
      (endpoint : Bytes)
      → IsPhased packages database s
      → IsPhased packages database
          (handle_inbound_packet_during_handshake packages database s participant packet endpoint).0
  unfolding handle_inbound_packet_during_handshake
  handle_inbound_packet_during_handshake-IsPhased s participant packet endpoint phased =
      elim (Result-cases (is_response_packet packages database participant packet)) [
        | inl (e, h) ↦ rw (handle_inbound_packet_during_handshake, h) phased
        | inr (true, h) ↦
            elim (Result-cases (complete_handshake packages database s participant packet).1) [
              | inl (e, c) ↦
                  rw (handle_inbound_packet_during_handshake, h, c)
                    (complete_handshake-IsPhased s participant packet phased)
              | inr (result, c) ↦
                  rw (handle_inbound_packet_during_handshake, h, c)
                    (finish_handshake-IsPhased _ result endpoint)
            ]
        | inr (false, h) ↦ rw (handle_inbound_packet_during_handshake, h) phased
      ]

  after_decryption-IsPhased :
      (s : State packages database) (packet : AuthTagPacket) (endpoint : Bytes)
      (outcome : Result Message)
      → IsPhased packages database s
      → IsPhased packages database (after_decryption packages database s packet endpoint outcome).0
  unfolding after_decryption reset_handshake_state
  after_decryption-IsPhased s packet endpoint (ok m) phased = phased
  after_decryption-IsPhased s packet endpoint (raise decryption_error) phased =
      handle_inbound_packet_pre_handshake-IsPhased (reset_handshake_state packages database s)
        (auth_tag packet) endpoint (refl, λ idle. refl) refl
  after_decryption-IsPhased s packet endpoint (raise decoding_error) phased = phased
  after_decryption-IsPhased s packet endpoint (raise validation_error) phased = phased
  after_decryption-IsPhased s packet endpoint (raise overflow_error) phased = phased
  after_decryption-IsPhased s packet endpoint (raise key_error) phased = phased
  after_decryption-IsPhased s packet endpoint (raise value_error) phased = phased
  after_decryption-IsPhased s packet endpoint (raise struct_error) phased = phased
  after_decryption-IsPhased s packet endpoint (raise type_error) phased = phased
  after_decryption-IsPhased s packet endpoint (raise index_error) phased = phased
  after_decryption-IsPhased s packet endpoint (raise attribute_error) phased = phased
  after_decryption-IsPhased s packet endpoint (raise handshake_failure) phased = phased
  after_decryption-IsPhased s packet endpoint (raise rlp_error) phased = phased
  after_decryption-IsPhased s packet endpoint (raise invalid_state) phased = phased
  after_decryption-IsPhased s packet endpoint (raise invariant_error) phased = phased

  handle_inbound_packet_post_handshake-IsPhased :
      (s : State packages database) (keys : SessionKeys) (packet : Packet) (endpoint : Bytes)
      → IsPhased packages database s
      → IsPhased packages database
          (handle_inbound_packet_post_handshake packages database s keys packet endpoint).0
  unfolding handle_inbound_packet_post_handshake
  handle_inbound_packet_post_handshake-IsPhased s keys (auth_tag packet) endpoint phased =
      after_decryption-IsPhased s packet endpoint _ phased
  handle_inbound_packet_post_handshake-IsPhased s keys (auth_header p) endpoint phased = phased
  handle_inbound_packet_post_handshake-IsPhased s keys (who_are_you p) endpoint phased = phased

  handle_inbound_packet-IsPhased :
      (s : State packages database) (packet : Packet) (endpoint : Bytes)
      → IsPhased packages database s
      → IsPhased packages database (handle_inbound_packet packages database s packet endpoint).0
  unfolding handle_inbound_packet
  handle_inbound_packet-IsPhased s packet endpoint phased =
      elim (Option-cases s.handshake_participant) [
        | inr (p, e) ↦
            IsPhased-at packages database
              {outcome = handle_inbound_packet packages database s packet endpoint}
              {other = handle_inbound_packet_during_handshake packages database s p packet endpoint}
              (ground (arith, e))
              (handle_inbound_packet_during_handshake-IsPhased s p packet endpoint phased)
        | inl idle ↦ elim (Option-cases s.session_keys) [
          | inl fresh ↦
              IsPhased-at packages database
                {outcome = handle_inbound_packet packages database s packet endpoint}
                {other = handle_inbound_packet_pre_handshake packages database s packet endpoint}
                (ground (arith, idle, fresh))
                (handle_inbound_packet_pre_handshake-IsPhased s packet endpoint phased fresh)
          | inr (keys, e) ↦
              IsPhased-at packages database
                {outcome = handle_inbound_packet packages database s packet endpoint}
                {other = handle_inbound_packet_post_handshake packages database s keys packet
                  endpoint}
                (ground (arith, idle, e))
                (handle_inbound_packet_post_handshake-IsPhased s keys packet endpoint phased)
        ]
      ]

  handle-IsPhased :
      (s : State packages database) (arrival : Arrival packages database)
      → IsPhased packages database s
      → IsPhased packages database (handle packages database s arrival).0
  unfolding handle
  handle-IsPhased s (inbound_packet packet endpoint) phased =
      handle_inbound_packet-IsPhased s packet endpoint phased
  handle-IsPhased s (outbound_message m) phased =
      handle_outbound_message-IsPhased packages database s m phased

  run_keeps_IsPhased :
      (s : State packages database) (arrivals : List (Arrival packages database))
      → IsPhased packages database s
      → IsPhased packages database (run packages database s arrivals).0
  unfolding run
  run_keeps_IsPhased s [] phased = phased
  run_keeps_IsPhased s (arrival ∷ arrivals) phased =
      let after = handle-IsPhased s arrival phased in
      elim (Result-cases (handle packages database s arrival).1) [
        | inl (e, h) ↦ rw (run, h) after
        | inr (done, h) ↦ elim (Bool-cases (handle packages database s arrival).0.is_cancelled) [
          | inl cancelled ↦ rw (run, h, cancelled) after
          | inr running ↦
              rw (run, h, running)
                (run_keeps_IsPhased (handle packages database s arrival).0 arrivals after)
        ]
      ]

  -- A service that has just been made handles any packets and messages, in any order, until it
  -- fails, is cancelled or has handled them all. At that point it does not have both a handshake in
  -- progress and the keys of a session, and a message waits in its backlog only if a handshake is
  -- in progress.
  pub run-IsPhased :
      (local_private_key local_node_id remote_node_id : Bytes) (enr_db : database.Db)
      (random : ℕ → Bytes) (arrivals : List (Arrival packages database))
      → IsPhased packages database
          (run packages database
            (init_peer_packer packages database local_private_key local_node_id remote_node_id
              enr_db random)
            arrivals).0
  unfolding init_peer_packer
  run-IsPhased local_private_key local_node_id remote_node_id enr_db random arrivals =
      run_keeps_IsPhased _ arrivals (refl, λ idle. refl)
