-- ===== src/Tests/Dispatcher.antt =====
-- ddht/v5_1/dispatcher.py at three sessions of an endpoint.
use mathlib.Core.Path.{subst}
use ddht.Dispatcher.{Session, monitor_handshake_completion}
use ddht.Dispatcher.Choice.{IsIn, IsSuperseded, monitor_handshake_completion_lem}
use ddht.Session.State.{Status, during, after}
use ddht.Tests.Wire.{zeros}
use ddht.Prelude.{
  ℕ, ◌≡◌, ◌↔◌, inl, inr, refl, sym, ap, ◌∙◌, nat_beq, if◌then◌else◌, List, [], ◌∷◌, true,
}

abbrev session : ℕ → Status → Session
session id status = record {
  id = id;
  is_initiator = true;
  status = status;
  remote_node_id = zeros 32;
}

abbrev sessions : List Session
sessions = session 1 after ∷ session 2 during ∷ session 3 after ∷ []

-- the session of an id
abbrev session_of : ℕ → Session
session_of id = session id (if nat_beq id 2 then during else after)

session_of-id : (s : Session) → IsIn s sessions → s ≡ session_of s.id
session_of-id s i = elim i [
  | inl e ↦ subst (λ (x : Session). x ≡ session_of x.id) e refl
  | inr i ↦ elim i [
    | inl e ↦ subst (λ (x : Session). x ≡ session_of x.id) e refl
    | inr i ↦ elim i [
      | inl e ↦ subst (λ (x : Session). x ≡ session_of x.id) e refl
      | inr i ↦ absurd i
    ]
  ]
]

sessions_differ : (x y : Session) → IsIn x sessions → IsIn y sessions → x.id ≡ y.id → x ≡ y
sessions_differ x y i j same = session_of-id x i ∙ ap session_of same ∙ sym (session_of-id y j)

monitor_handshake_completion_lem_example :
    IsIn (session 1 after) (monitor_handshake_completion (session 3 after) sessions)
    ↔ (IsIn (session 1 after) sessions × (IsSuperseded (session 3 after) (session 1 after) → ⊥))
monitor_handshake_completion_lem_example =
    monitor_handshake_completion_lem (session 3 after) (session 1 after) sessions sessions_differ
