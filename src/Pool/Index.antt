-- ===== src/Pool/Index.antt =====
-- The index of ddht/v5_1/pool.py beside its dictionary.
use ddht.Pool.{
  Session, session_eq, session_not_found, evicts, Lru, Index, sessions_at, put_sessions, remove_at,
  add_at, evict_session, Pool, add_session, remove_session,
}
use ddht.Prelude.{
  ℕ, ◌+◌, ◌-◌, ◌≡◌, arith, Bool, true, false, ◌&&◌, Option, none, some, List, [], ◌∷◌, nat_beq,
  ◌==◌, if◌then◌else◌, elem, remove, count, refl, count-elem, ap, Option-cases, ◌⊎◌, ◌∙◌, inl,
  count-remove, elem-count, inr, count-cons, ==_refl, sym,
}
use ddht.Prelude.Tests.{nat_eq}
use ddht.Prelude.Bytes.{Bytes, bytes_eq}
use ddht.Prelude.Outcomes.{ok, raise}

-- how often a session stands at an endpoint
abbrev pub times : Index → Bytes → Session → ℕ
times index endpoint s = count s (sessions_at index endpoint)

sessions_at-put_sessions :
    (index : Index) (endpoint other : Bytes) (sessions : List Session)
    → sessions_at (put_sessions index endpoint sessions) other
      ≡ (if endpoint == other then sessions else sessions_at index other)
unfolding sessions_at put_sessions
sessions_at-put_sessions [] endpoint other sessions = refl
sessions_at-put_sessions ((e, old) ∷ index) endpoint other sessions = ground (
  arith,
  sessions_at-put_sessions index endpoint other sessions,
  bytes_eq.beq_iff e endpoint,
  bytes_eq.beq_iff e other,
  bytes_eq.beq_iff endpoint other,
)

-- whether a session is the one with its id
abbrev pub is_same : Option Session → Session → Bool
is_same none s = false
is_same (some t) s = t == s

-- what each endpoint should list
abbrev pub expected : Option Session → Bytes → Session → ℕ
expected found endpoint s = if (endpoint == s.remote_endpoint && is_same found s) then 1 else 0

times-remove_at :
    (index : Index) (v : Session)
    → times index v.remote_endpoint v ≡ 1
    → (after : Index) × (remove_at index v ≡ ok after)
      × ((endpoint : Bytes) (s : Session)
          → times after endpoint s
            ≡ times index endpoint s - (if (v.remote_endpoint == endpoint && v == s) then 1 else 0))
unfolding remove_at
times-remove_at index v h =
    let sessions = sessions_at index v.remote_endpoint in
    let there : elem v sessions ≡ true = ground (arith, h, count-elem v sessions) in
    (
      put_sessions index v.remote_endpoint (remove v sessions),
      ground (arith, there),
      λ endpoint s.
          ap (count s)
            (sessions_at-put_sessions index v.remote_endpoint endpoint (remove v sessions))
          ∙ ground (arith, count-remove v s sessions, bytes_eq.beq_iff v.remote_endpoint endpoint),
    )

times-add_at :
    (index : Index) (v : Session)
    → times index v.remote_endpoint v ≡ 0
    → (endpoint : Bytes) (s : Session)
    → times (add_at index v) endpoint s
      ≡ times index endpoint s + (if (v.remote_endpoint == endpoint && v == s) then 1 else 0)
unfolding add_at
times-add_at index v h endpoint s =
    let sessions = sessions_at index v.remote_endpoint in
    ap (count s) (sessions_at-put_sessions index v.remote_endpoint endpoint _)
    ∙ ground (
      arith,
      h,
      elem-count v sessions,
      count-cons s v sessions,
      bytes_eq.beq_iff v.remote_endpoint endpoint,
    )

expected-remove :
    (found : Option Session) (endpoint : Bytes) (s v : Session)
    → (v.id ≡ s.id → found ≡ some v)
    → expected found endpoint s - (if (v.remote_endpoint == endpoint && v == s) then 1 else 0)
      ≡ (if nat_beq v.id s.id then 0 else expected found endpoint s)
expected-remove found endpoint s v h = ground (
  arith,
  h,
  bytes_eq.beq_iff v.remote_endpoint s.remote_endpoint,
  bytes_eq.beq_iff v.remote_endpoint endpoint,
  bytes_eq.beq_iff endpoint s.remote_endpoint,
)

expected-add :
    (found : Option Session) (endpoint : Bytes) (s v : Session)
    → (v.id ≡ s.id → found ≡ none)
    → expected found endpoint s + (if (v.remote_endpoint == endpoint && v == s) then 1 else 0)
      ≡ expected (if nat_beq v.id s.id then some v else found) endpoint s
expected-add found endpoint s v h = ground (
  arith,
  h,
  bytes_eq.beq_iff v.remote_endpoint s.remote_endpoint,
  bytes_eq.beq_iff v.remote_endpoint endpoint,
  bytes_eq.beq_iff endpoint s.remote_endpoint,
)

expected_if :
    (gone : Bool) (found : Option Session) (endpoint : Bytes) (s : Session)
    → expected (if gone then none else found) endpoint s
      ≡ (if gone then 0 else expected found endpoint s)
expected_if true found endpoint s = ground arith
expected_if false found endpoint s = refl

module _ (lru : Lru) where
  open lru use {Cache, empty, lookup, set_item, delete_item}

  -- each session of the dictionary stands once, at its endpoint, and nothing else does
  pub record Agrees (p : Pool lru) : Type 0 where
    pub agrees :
        (endpoint : Bytes) (s : Session)
        → times p.by_endpoint endpoint s ≡ expected (lookup p.sessions s.id) endpoint s

  -- the index after the callback
  evict_session-expected :
      (p : Pool lru) (new : Session)
      → Agrees p
      → (index : Index) × (evict_session p.by_endpoint (set_item p.sessions new).1 ≡ ok index)
        × ((endpoint : Bytes) (s : Session)
            → times index endpoint s ≡ (
                if evicts (set_item p.sessions new).1 s.id
                then 0
                else expected (lookup p.sessions s.id) endpoint s))
  evict_session-expected p new a = elim (Option-cases (set_item p.sessions new).1) [
    | inl none_left ↦ rw none_left (p.by_endpoint, refl, λ endpoint s. a.agrees endpoint s)
    | inr (v, evicted) ↦
        let (found, other) = lru.evicted-lookup p.sessions new v evicted in
        let once : times p.by_endpoint v.remote_endpoint v ≡ 1 =
          a.agrees v.remote_endpoint v
          ∙ ground (arith, found, ==_refl v, ==_refl v.remote_endpoint) in
        let (index, removed, reads) = times-remove_at p.by_endpoint v once in
        rw evicted (
          index,
          removed,
          λ endpoint s.
              reads endpoint s
              ∙ ap (λ (n : ℕ). n - (if (v.remote_endpoint == endpoint && v == s) then 1 else 0))
                  (a.agrees endpoint s)
              ∙ expected-remove (lookup p.sessions s.id) endpoint s v
                  (λ e. ap (lookup p.sessions) (sym e) ∙ found),
        )
  ]

  -- A pool whose index agrees with its dictionary takes a session with a new id without an exception, whatever is evicted for it; the index agrees again, and the session is found.
  pub add_session-Agrees :
      (p : Pool lru) (new : Session)
      → Agrees p
      → lookup p.sessions new.id ≡ none
      → (after : Pool lru) × (add_session lru p new ≡ ok after)
        × Agrees after
        × (lookup after.sessions new.id ≡ some new)
  unfolding add_session
  add_session-Agrees p new a fresh =
      let (index, evicted, reads) = evict_session-expected p new a in
      let left : Session → Option Session =
        λ s. if evicts (set_item p.sessions new).1 s.id then none else lookup p.sessions s.id in
      let free : times index new.remote_endpoint new ≡ 0 =
        reads new.remote_endpoint new ∙ ground (arith, fresh) in
      let after : Pool lru = record {
        sessions = (set_item p.sessions new).0;
        by_endpoint = add_at index new;
      } in
      (
        after,
        rw evicted refl,
        record {
          agrees = λ endpoint s.
              times-add_at index new free endpoint s
              ∙ ap (λ (n : ℕ). n + (if (new.remote_endpoint == endpoint && new == s) then 1 else 0))
                  (reads endpoint s
                    ∙ sym (
                        expected_if (evicts (set_item p.sessions new).1 s.id)
                          (lookup p.sessions s.id) endpoint s))
              ∙ expected-add (left s) endpoint s new (λ e.
                ap
                  (λ (i : ℕ).
                    if evicts (set_item p.sessions new).1 i then none else lookup p.sessions i)
                  (sym e)
                ∙ ground (arith, fresh))
              ∙ ap (λ (found : Option Session). expected found endpoint s)
                  (sym (lru.lookup-set_item p.sessions new s.id));
        },
        lru.lookup-set_item p.sessions new new.id ∙ ground arith,
      )

  -- Removing a session from such a pool raises SessionNotFound if its id is unknown. Otherwise the session is returned, its id is unknown afterwards, and the index agrees again.
  pub remove_session-Agrees :
      (p : Pool lru) (session_id : ℕ)
      → Agrees p
      → ((lookup p.sessions session_id ≡ none)
          × (remove_session lru p session_id ≡ raise session_not_found))
        ⊎ ((after : Pool lru) × (s : Session) × (lookup p.sessions session_id ≡ some s)
            × (remove_session lru p session_id ≡ ok (after, s))
            × Agrees after
            × (lookup after.sessions session_id ≡ none))
  unfolding remove_session
  remove_session-Agrees p session_id a = elim (Option-cases (lookup p.sessions session_id)) [
    | inl absent ↦ inl (absent, ground (arith, absent))
    | inr (v, found) ↦
        let same = lru.lookup-id p.sessions session_id v found in
        let found_v : lookup p.sessions v.id ≡ some v = ap (lookup p.sessions) same ∙ found in
        let once : times p.by_endpoint v.remote_endpoint v ≡ 1 =
          a.agrees v.remote_endpoint v
          ∙ ground (arith, found_v, ==_refl v, ==_refl v.remote_endpoint) in
        let (index, removed, reads) = times-remove_at p.by_endpoint v once in
        let after : Pool lru = record {
          sessions = delete_item p.sessions session_id;
          by_endpoint = index;
        } in
        inr (
          after,
          v,
          found,
          ground (arith, found, removed),
          record {
            agrees = λ endpoint s.
                reads endpoint s
                ∙ ap (λ (n : ℕ). n - (if (v.remote_endpoint == endpoint && v == s) then 1 else 0))
                    (a.agrees endpoint s)
                ∙ expected-remove (lookup p.sessions s.id) endpoint s v
                    (λ e. ap (lookup p.sessions) (sym e) ∙ found_v)
                ∙ ap
                    (λ (i : ℕ).
                      if nat_beq i s.id then 0 else expected (lookup p.sessions s.id) endpoint s)
                    same
                ∙ sym (
                    ap (λ (o : Option Session). expected o endpoint s)
                      (lru.lookup-delete_item p.sessions session_id s.id)
                    ∙ expected_if (nat_beq session_id s.id) (lookup p.sessions s.id) endpoint s);
          },
          lru.lookup-delete_item p.sessions session_id session_id ∙ ground arith,
        )
  ]
