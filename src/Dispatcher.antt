-- ===== src/Dispatcher.antt =====
-- The choice of sessions in ddht/v5_1/dispatcher.py. The sessions of an endpoint are the tuple that
-- the pool returns for it; a session that the pool makes is an argument.
pub mod Choice
pub mod MessageEvents
use ddht.Wire.Packet.{Packet, AuthData, message, who_are_you, handshake}
use ddht.Session.State.{Status, before}
use ddht.Session.Base.{is_after}
use ddht.Prelude.Bytes.{Bytes, bytes_eq}
use ddht.Prelude.{
  ℕ, ◌≡◌, Bool, true, false, not, ◌&&◌, ◌||◌, List, [], ◌∷◌, nat_beq, ◌==◌, keep_if, if◌then◌else◌,
}

-- what the dispatcher reads of a session; the remote node id of a recipient before the handshake,
-- which is not known, is not read
pub record Session : Type 0 where
  pub id : ℕ
  pub is_initiator : Bool
  pub status : Status
  pub remote_node_id : Bytes

abbrev pub is_after_handshake : Session → Bool
is_after_handshake s = is_after s.status

abbrev pub is_before_handshake : Session → Bool
is_before_handshake s = at_start s.status
  where
    at_start : Status → Bool
    at_start before = true
    at_start _ = false

-- whether a packet names the session's remote node as its source
abbrev pub is_from : {Enr : Type 0} → AuthData Enr → Bytes → Bool
is_from (message p) node_id = node_id == p.source_node_id
is_from (handshake p) node_id = node_id == p.auth_data_head.source_node_id
is_from (who_are_you p) node_id = false

unfoldable pub takes_envelope : {Enr : Type 0} → Packet Enr → Session → Bool
takes_envelope packet s = not (is_after_handshake s) || is_from packet.auth_data s.remote_node_id

unfoldable pub takes_message : Bytes → Session → Bool
takes_message receiver_node_id s =
    (not (is_after_handshake s) || s.remote_node_id == receiver_node_id)
    && not (is_before_handshake s && not s.is_initiator)

-- the chosen sessions, or the new one
abbrev pub or_new : Session → List Session → List Session
or_new new [] = new ∷ []
or_new new (s ∷ ss) = s ∷ ss

unfoldable pub get_sessions_for_inbound_envelope :
    {Enr : Type 0} → Packet Enr → List Session → Session → List Session
get_sessions_for_inbound_envelope packet sessions received =
    or_new received (keep_if (takes_envelope packet) sessions)

unfoldable pub get_sessions_for_outbound_message : Bytes → List Session → Session → List Session
get_sessions_for_outbound_message receiver_node_id sessions initiated =
    or_new initiated (keep_if (takes_message receiver_node_id) sessions)

-- `remove_session` of the pool, at the endpoint
abbrev pub remove_session : ℕ → List Session → List Session
remove_session id sessions = keep_if (λ s. not (nat_beq s.id id)) sessions

-- the three tests that `_monitor_handshake_completions` makes of another session
unfoldable pub is_duplicate : Session → Session → Bool
is_duplicate session other =
    if not (is_after_handshake other)
    then false
    else if nat_beq other.id session.id
    then false
    else if not (other.remote_node_id == session.remote_node_id)
    then false
    else true

-- its loop over the sessions of the endpoint, and the sessions that are left there
unfoldable pub discard_others : Session → List Session → List Session → List Session
discard_others session [] pool = pool
discard_others session (other ∷ others) pool =
    let kept = discard_others session others pool in
    let removed = discard_others session others (remove_session other.id pool) in
    if is_duplicate session other then removed else kept

unfoldable pub monitor_handshake_completion : Session → List Session → List Session
monitor_handshake_completion session sessions = discard_others session sessions sessions
