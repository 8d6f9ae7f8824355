-- ===== src/V5/PeerPacker.antt =====
-- `PeerPacker` of ddht/v5/packer.py: its handlers of packets and messages. A channel is the list of
-- what has been sent on it. `random` gives what `secrets` returns, one after the other; a handler that raises
-- counts all its draws. A handler's own test of the phase is left out, since its callers here have
-- made it, and so is the timeout of a handshake.

pub mod Phases
pub mod Runs
use ddht.Prelude.{
  ℕ, ◌+◌, ◌≡◌, Bool, true, false, not, ◌&&◌, Option, none, some, List, [], ◌∷◌, ◌++◌, if◌then◌else◌,
  ◌==◌,
}
use ddht.Prelude.Bytes.{Bytes, bytes_eq}
use ddht.Session.Scheme.{SessionKeys}
use ddht.V5.Handshake.{
  Packages, Initiator, Recipient, HandshakeResult, init_initiator, init_recipient,
  expected_who_are_you, expected_auth_header, complete_initiator, complete_recipient, as_bytes,
}
use ddht.V5.Packets.{Packet, AuthHeaderPacket, AuthTagPacket, auth_header, auth_tag, who_are_you}
use ddht.V5.Packets.Messages.{prepare_auth_tag, decrypt_auth_tag_message}
use ddht.V5.Tags.{compute_tag, recover_source_id_from_tag}
use ddht.Wire.Error.{
  Error, Result, ok, raise, validation_error, decryption_error, handshake_failure, value_error,
  ◌>>=◌,
}

pub data Participant (packages : Packages) : Type 0 where
  as_initiator : Initiator packages → Participant packages
  as_recipient : Recipient packages → Participant packages

-- with the endpoint that a message goes to, or has come from
pub record Envelope (A : Type 0) : Type 0 where
  pub content : A
  pub endpoint : Bytes

-- `ENRDatabaseAPI` of eth_enr: `none` is a KeyError; setting a record can raise
pub record Database (packages : Packages) : Type 1 where
  pub Db : Type 0
  pub get_enr : Db → Bytes → Option packages.formats.Enr
  pub set_enr : Db → packages.formats.Enr → Result Db

module _ (packages : Packages) (database : Database packages) where
  open database use {Db, get_enr, set_enr}
  open packages use {rlp, cipher, formats, crypto, node_id}
  open formats use {Enr, Message}

  pub record State : Type 0 where
    pub local_private_key : Bytes
    pub local_node_id : Bytes
    pub remote_node_id : Bytes
    pub enr_db : Db
    pub random : ℕ → Bytes
    pub drawn : ℕ
    pub handshake_participant : Option (Participant packages)
    pub session_keys : Option SessionKeys
    pub outbound_message_backlog : List (Envelope Message)
    pub packets_sent : List (Envelope Packet)
    pub messages_received : List (Envelope Message)
    pub is_cancelled : Bool

  unfoldable pub init_peer_packer : Bytes → Bytes → Bytes → Db → (ℕ → Bytes) → State
  init_peer_packer local_private_key local_node_id remote_node_id enr_db random = record {
    local_private_key = local_private_key;
    local_node_id = local_node_id;
    remote_node_id = remote_node_id;
    enr_db = enr_db;
    random = random;
    drawn = 0;
    handshake_participant = none;
    session_keys = none;
    outbound_message_backlog = [];
    packets_sent = [];
    messages_received = [];
    is_cancelled = false;
  }

  -- A handler returns the new state and a result or an exception; what it has done before an
  -- exception stays done.
  abbrev pub Outcome : Type 0
  Outcome = State × Result (Unit {0})

  abbrev pub present {ℓ} : {A : Type ℓ} → Option A → Bool
  present none = false
  present (some a) = true

  unfoldable pub is_pre_handshake : State → Bool
  is_pre_handshake s = not (present s.handshake_participant) && not (present s.session_keys)

  unfoldable pub is_during_handshake : State → Bool
  is_during_handshake s = present s.handshake_participant

  unfoldable pub reset_handshake_state : State → State
  reset_handshake_state s = record s {
    handshake_participant = none;
    session_keys = none;
    outbound_message_backlog = [];
  }

  abbrev pub send_packet : State → Packet → Bytes → State
  send_packet s packet endpoint = record s {
    packets_sent = s.packets_sent ++ (record { content = packet; endpoint = endpoint }) ∷ [];
  }

  abbrev pub receive_message : State → Message → Bytes → State
  receive_message s m endpoint = record s {
    messages_received = s.messages_received ++ (record { content = m; endpoint = endpoint }) ∷ [];
  }

  -- `start_handshake_as_initiator`, with two draws, and the sending of its first packet
  unfoldable pub start_handshake_as_initiator : State → Enr → Enr → Message → Bytes → Outcome
  start_handshake_as_initiator s local_enr remote_enr m endpoint =
      let drawn = record s { drawn = s.drawn + 2 } in
      elim (init_initiator packages s.local_private_key local_enr remote_enr m (s.random s.drawn)
        (s.random (s.drawn + 1))) [
          | raise e ↦ (drawn, raise e)
          | ok i ↦ (
            send_packet (record drawn { handshake_participant = some (as_initiator i) })
                (auth_tag i.initiating_packet) endpoint,
            ok tt,
          )
        ]

  unfoldable pub start_handshake_as_recipient : State → Bytes → Enr → Option Enr → Bytes → Outcome
  start_handshake_as_recipient s initiating_auth_tag local_enr remote_enr endpoint =
      let drawn = record s { drawn = s.drawn + 1 } in
      elim (init_recipient packages s.local_private_key local_enr (some s.remote_node_id) remote_enr
        initiating_auth_tag (s.random s.drawn)) [
          | raise e ↦ (drawn, raise e)
          | ok r ↦ (
            send_packet (record drawn { handshake_participant = some (as_recipient r) })
                (who_are_you r.who_are_you_packet) endpoint,
            ok tt,
          )
        ]

  -- the handlers of outbound messages
  unfoldable pub handle_outbound_message_pre_handshake : State → Envelope Message → Outcome
  handle_outbound_message_pre_handshake s m = elim (get_enr s.enr_db s.local_node_id) [
    | none ↦ (s, raise value_error)
    | some local_enr ↦ elim (get_enr s.enr_db s.remote_node_id) [
      | none ↦ (s, raise handshake_failure)
      | some remote_enr ↦ start_handshake_as_initiator s local_enr remote_enr m.content m.endpoint
    ]
  ]

  unfoldable pub handle_outbound_message_during_handshake : State → Envelope Message → Outcome
  handle_outbound_message_during_handshake s m =
      (record s { outbound_message_backlog = s.outbound_message_backlog ++ m ∷ [] }, ok tt)

  -- a message under the keys of the session, with one draw
  abbrev pub seal : State → SessionKeys → Message → Bytes → Result AuthTagPacket
  seal s keys m nonce = compute_tag crypto.sha256 s.local_node_id s.remote_node_id >>= λ tag.
      prepare_auth_tag rlp cipher formats tag nonce m keys.encryption_key

  unfoldable pub handle_outbound_message_post_handshake :
      State → SessionKeys → Envelope Message → Outcome
  handle_outbound_message_post_handshake s keys m =
      let drawn = record s { drawn = s.drawn + 1 } in
      elim (seal s keys m.content (s.random s.drawn)) [
        | raise e ↦ (drawn, raise e)
        | ok packet ↦ (send_packet drawn (auth_tag packet) m.endpoint, ok tt)
      ]

  unfoldable pub handle_outbound_message : State → Envelope Message → Outcome
  handle_outbound_message s m = elim s.handshake_participant [
    | some p ↦ handle_outbound_message_during_handshake s m
    | none ↦ elim s.session_keys [
      | none ↦ handle_outbound_message_pre_handshake s m
      | some keys ↦ handle_outbound_message_post_handshake s keys m
    ]
  ]

  -- the loop over the backlog, which ends at the first exception
  unfoldable pub send_backlog : State → List (Envelope Message) → Outcome
  send_backlog s [] = (s, ok tt)
  send_backlog s (m ∷ backlog) =
      let (after, outcome) = handle_outbound_message s m in
      let rest = send_backlog after backlog in
      elim outcome [ ok _ ↦ rest | raise e ↦ (after, raise e) ]

  -- the handlers of inbound packets
  unfoldable pub handle_inbound_packet_pre_handshake : State → Packet → Bytes → Outcome
  handle_inbound_packet_pre_handshake s (auth_tag p) endpoint =
      elim (get_enr s.enr_db s.local_node_id) [
        | none ↦ (s, raise value_error)
        | some local_enr ↦
            start_handshake_as_recipient s p.auth_tag local_enr (get_enr s.enr_db s.remote_node_id)
              endpoint
      ]
  handle_inbound_packet_pre_handshake s _ endpoint = (s, ok tt)

  -- `is_response_packet` of either participant
  unfoldable pub is_response_packet : Participant packages → Packet → Result Bool
  is_response_packet (as_initiator i) (who_are_you p) =
      as_bytes p.token >>= λ token. ok (token == i.initiating_packet.auth_tag)
  is_response_packet (as_initiator i) _ = ok false
  is_response_packet (as_recipient r) (auth_header p) =
      recover_source_id_from_tag crypto.sha256 p.tag (node_id r.local_enr) >>= λ source.
      ok (source == r.remote_node_id)
  is_response_packet (as_recipient r) _ = ok false

  -- `complete_handshake` of either, with two draws of the initiator
  unfoldable pub complete_handshake :
      State → Participant packages → Packet → State × Result (HandshakeResult packages)
  complete_handshake s (as_initiator i) packet = (
    record s { drawn = s.drawn + 2 },
    complete_initiator packages i packet (s.random s.drawn) (s.random (s.drawn + 1)),
  )
  complete_handshake s (as_recipient r) packet = (s, complete_recipient packages r packet)

  -- the parts of a result that are there
  abbrev pub set_enr_of : State → Option Enr → Outcome
  set_enr_of s none = (s, ok tt)
  set_enr_of s (some enr) = elim (set_enr s.enr_db enr) [
    | raise e ↦ (s, raise e)
    | ok enr_db ↦ (record s { enr_db = enr_db }, ok tt)
  ]

  abbrev pub send_packet_of : State → Option AuthHeaderPacket → Bytes → State
  send_packet_of s none endpoint = s
  send_packet_of s (some packet) endpoint = send_packet s (auth_header packet) endpoint

  abbrev pub receive_message_of : State → Option Message → Bytes → State
  receive_message_of s none endpoint = s
  receive_message_of s (some m) endpoint = receive_message s m endpoint

  -- what is done with the result of a handshake
  unfoldable pub finish_handshake : State → HandshakeResult packages → Bytes → Outcome
  finish_handshake s result endpoint =
      let keyed = record (reset_handshake_state s) { session_keys = some result.session_keys } in
      let (stored, outcome) = set_enr_of keyed result.enr in
      let answered = send_packet_of stored result.auth_header_packet endpoint in
      let received = receive_message_of answered result.message endpoint in
      let flushed = send_backlog received s.outbound_message_backlog in
      elim outcome [ raise e ↦ (stored, raise e) | ok _ ↦ flushed ]

  unfoldable pub handle_inbound_packet_during_handshake :
      State → Participant packages → Packet → Bytes → Outcome
  handle_inbound_packet_during_handshake s participant packet endpoint =
      elim (is_response_packet participant packet) [
        | raise e ↦ (s, raise e)
        | ok false ↦ (s, ok tt)
        | ok true ↦
            let (completed, outcome) = complete_handshake s participant packet in
            elim outcome [
              | raise e ↦ (completed, raise e)
              | ok result ↦ finish_handshake completed result endpoint
            ]
      ]

  -- what is done with a packet that decrypts or not under the keys of the session
  unfoldable pub after_decryption : State → AuthTagPacket → Bytes → Result Message → Outcome
  after_decryption s packet endpoint (ok m) = (receive_message s m endpoint, ok tt)
  after_decryption s packet endpoint (raise decryption_error) =
      handle_inbound_packet_pre_handshake (reset_handshake_state s) (auth_tag packet) endpoint
  after_decryption s packet endpoint (raise validation_error) =
      (record s { is_cancelled = true }, ok tt)
  after_decryption s packet endpoint (raise e) = (s, raise e)

  unfoldable pub handle_inbound_packet_post_handshake :
      State → SessionKeys → Packet → Bytes → Outcome
  handle_inbound_packet_post_handshake s keys (auth_tag packet) endpoint =
      after_decryption s packet endpoint
        (decrypt_auth_tag_message rlp cipher formats packet keys.decryption_key)
  handle_inbound_packet_post_handshake s keys _ endpoint = (s, ok tt)

  unfoldable pub handle_inbound_packet : State → Packet → Bytes → Outcome
  handle_inbound_packet s packet endpoint = elim s.handshake_participant [
    | some participant ↦ handle_inbound_packet_during_handshake s participant packet endpoint
    | none ↦ elim s.session_keys [
      | none ↦ handle_inbound_packet_pre_handshake s packet endpoint
      | some keys ↦ handle_inbound_packet_post_handshake s keys packet endpoint
    ]
  ]

  -- what arrives on the two channels; the lock lets one handler run at a time
  pub data Arrival : Type 0 where
    inbound_packet : Packet → Bytes → Arrival
    outbound_message : Envelope Message → Arrival

  unfoldable pub handle : State → Arrival → Outcome
  handle s (inbound_packet packet endpoint) = handle_inbound_packet s packet endpoint
  handle s (outbound_message m) = handle_outbound_message s m

  -- the service ends at the first exception, or when it is cancelled
  unfoldable pub run : State → List Arrival → Outcome
  run s [] = (s, ok tt)
  run s (arrival ∷ arrivals) =
      let (after, outcome) = handle s arrival in
      let rest = run after arrivals in
      elim outcome [
        | raise e ↦ (after, raise e)
        | ok _ ↦ if after.is_cancelled then (after, ok tt) else rest
      ]
