-- ===== src/Dispatcher/Choice.antt =====
-- Which sessions of an endpoint get an envelope, and which stay once a handshake is complete.
use mathlib.Core.Path.{subst}
use ddht.Dispatcher.{
  Session, is_duplicate, remove_session, discard_others, monitor_handshake_completion,
}
use ddht.Session.State.{Status, before, during, after}
use ddht.Session.Base.{is_after}
use ddht.Wire.Packet.{Packet, AuthData, message, who_are_you, handshake}
use ddht.Prelude.Bytes.{Bytes, bytes_eq}
use ddht.Prelude.{
  ◌≡◌, ◌≢◌, ◌↔◌, ◌⊎◌, refl, Bool, true, not, Bool-cases, inl, inr, List, [], ◌∷◌, nat_beq,
  nat_beq_iff, keep_if, arith, ap, sym, ◌∙◌,
}

module _ {A : Type 0} where
  abbrev pub IsIn : A → List A → Type 0
  IsIn s [] = ⊥
  IsIn s (x ∷ xs) = (x ≡ s) ⊎ IsIn s xs

  IsIn-keep_if :
      (p : A → Bool) (s : A) (xs : List A) → IsIn s (keep_if p xs) ↔ (IsIn s xs × (p s ≡ true))
  IsIn-keep_if p s [] = (λ h. absurd h, λ h. h.0)
  IsIn-keep_if p s (x ∷ xs) =
      let rest = IsIn-keep_if p s xs in
      elim (Bool-cases (p x)) [
        | inl kept ↦ rw kept (
          (λ h. elim h [
            | inl e ↦ (inl e, ap p (sym e) ∙ kept)
            | inr later ↦ (inr (rest.0 later).0, (rest.0 later).1)
          ]),
          λ h. elim h.0 [ inl e ↦ inl e | inr later ↦ inr (rest.1 (later, h.1)) ],
        )
        | inr dropped ↦ rw dropped (
          (λ h. (inr (rest.0 h).0, (rest.0 h).1)),
          λ h. elim h.0 [
            | inl e ↦ absurd (ground (arith, sym dropped ∙ ap p e ∙ h.1))
            | inr later ↦ rest.1 (later, h.1)
          ],
        )
      ]

is_after_iff : (status : Status) → (is_after status ≡ true) ↔ (status ≡ after)
is_after_iff before = ground arith
is_after_iff during = ground arith
is_after_iff after = (λ h. refl, λ h. refl)

-- the packet names the node as its source, which a WhoAreYou packet does not do
abbrev pub IsSource : {Enr : Type 0} → AuthData Enr → Bytes → Type 0
IsSource (message p) node_id = p.source_node_id ≡ node_id
IsSource (handshake p) node_id = p.auth_data_head.source_node_id ≡ node_id
IsSource (who_are_you p) node_id = ⊥

-- an envelope is for each session that is not past its handshake, and for one that is past it with
-- the node that the packet names as its source
abbrev pub IsFor : {Enr : Type 0} → Packet Enr → Session → Type 0
IsFor packet s = s.status ≡ after → IsSource packet.auth_data s.remote_node_id

-- the session is another one past the handshake, with the same remote node
abbrev pub IsSuperseded : Session → Session → Type 0
IsSuperseded session s =
    (s.status ≡ after) × (s.id ≢ session.id) × (s.remote_node_id ≡ session.remote_node_id)

is_duplicate-IsSuperseded :
    (session s : Session) → (is_duplicate session s ≡ true) ↔ IsSuperseded session s
unfolding is_duplicate
is_duplicate-IsSuperseded session s = ground (
  arith,
  is_after_iff s.status,
  nat_beq_iff s.id session.id,
  bytes_eq.beq_iff s.remote_node_id session.remote_node_id,
)

IsIn-remove_session :
    (s other : Session) (pool : List Session)
    → IsIn s (remove_session other.id pool) ↔ (IsIn s pool × (s.id ≢ other.id))
IsIn-remove_session s other pool =
    let kept = IsIn-keep_if (λ (x : Session). not (nat_beq x.id other.id)) s pool in
    let same = nat_beq_iff s.id other.id in
    (
      (λ h. ((kept.0 h).0, λ e. ground (arith, (kept.0 h).1, same.1 e))),
      λ h. kept.1 (
        h.0,
        elim (Bool-cases (nat_beq s.id other.id)) [
          | inl e ↦ absurd (h.1 (same.0 e))
          | inr e ↦ rw e refl
        ],
      ),
    )

IsIn-discard_others :
    (session s : Session) (others pool : List Session)
    → IsIn s (discard_others session others pool)
      ↔ (IsIn s pool × ((o : Session) → IsIn o others → IsSuperseded session o → s.id ≢ o.id))
unfolding discard_others
IsIn-discard_others session s [] pool = (λ h. (h, λ o i. absurd i), λ h. h.0)
IsIn-discard_others session s (other ∷ others) pool =
    let superseded = is_duplicate-IsSuperseded session other in
    elim (Bool-cases (is_duplicate session other)) [
      | inl d ↦
          let rest = IsIn-discard_others session s others (remove_session other.id pool) in
          let removed = IsIn-remove_session s other pool in
          rw (discard_others, d)
            (
              (λ h. (
                (removed.0 (rest.0 h).0).0,
                λ o i. elim i [
                  | inl e ↦ λ su same.
                      (removed.0 (rest.0 h).0).1 (same ∙ ap (λ (x : Session). x.id) (sym e))
                  | inr later ↦ (rest.0 h).1 o later
                ],
              )),
              λ h.
                  rest.1
                    (removed.1 (h.0, h.1 other (inl refl) (superseded.0 d)), λ o i. h.1 o (inr i)),
            )
      | inr keeps ↦
          let rest = IsIn-discard_others session s others pool in
          rw (discard_others, keeps)
            (
              (λ h. (
                (rest.0 h).0,
                λ o i. elim i [
                  | inl e ↦ λ su. absurd (
                      ground (
                        arith,
                        keeps,
                        superseded.1 (subst (λ (x : Session). IsSuperseded session x) (sym e) su),
                      ))
                  | inr later ↦ (rest.0 h).1 o later
                ],
              )),
              λ h. rest.1 (h.0, λ o i. h.1 o (inr i)),
            )
    ]

-- Once a session of an endpoint, whose sessions have different ids, has completed its handshake, the
-- endpoint keeps exactly those sessions that are not another one past the handshake with the same
-- remote node.
pub monitor_handshake_completion_lem :
    (session s : Session) (sessions : List Session)
    → ((x y : Session) → IsIn x sessions → IsIn y sessions → x.id ≡ y.id → x ≡ y)
    → IsIn s (monitor_handshake_completion session sessions)
      ↔ (IsIn s sessions × (IsSuperseded session s → ⊥))
unfolding monitor_handshake_completion
monitor_handshake_completion_lem session s sessions unique =
    let left = IsIn-discard_others session s sessions sessions in
    (
      (λ h. ((left.0 h).0, λ superseded. (left.0 h).1 s (left.0 h).0 superseded refl)),
      λ h. left.1 (
        h.0,
        λ o i superseded same. h.1 (
            subst (λ (x : Session). IsSuperseded session x) (unique o s i h.0 (sym same))
              superseded),
      ),
    )
