-- ===== src/Tests/Pool.antt =====
-- ddht/v5_1/pool.py over a dictionary with room for one session.
use ddht.Pool.{
  Session, Lru, Pool, evicts, add_session, remove_session, session_not_found, sessions_at,
}
use ddht.Pool.Index.{Agrees, add_session-Agrees, remove_session-Agrees}
use ddht.Prelude.{
  ℕ, ◌≡◌, ◌⊎◌, refl, false, Option, some, none, [], ◌∷◌, count, arith, nat_beq, if◌then◌else◌,
}
use ddht.Prelude.Bytes.{bytes_eq}
use ddht.Prelude.Outcomes.{ok, raise}

abbrev lookup_one : Option Session → ℕ → Option Session
lookup_one none id = none
lookup_one (some s) id = if nat_beq s.id id then some s else none

abbrev set_one : Option Session → Session → Option Session × Option Session
set_one none s = (some s, none)
set_one (some old) s = (some s, (if nat_beq s.id old.id then none else some old))

abbrev delete_one : Option Session → ℕ → Option Session
delete_one none id = none
delete_one (some s) id = if nat_beq s.id id then none else some s

lookup-set_one :
    (c : Option Session) (s : Session) (id : ℕ)
    → lookup_one (set_one c s).0 id ≡ (
        if nat_beq s.id id
        then some s
        else if evicts (set_one c s).1 id
        then none
        else lookup_one c id)
lookup-set_one none s id = ground arith
lookup-set_one (some old) s id = ground arith

evicted-set_one :
    (c : Option Session) (s v : Session)
    → (set_one c s).1 ≡ some v
    → (lookup_one c v.id ≡ some v) × (nat_beq s.id v.id ≡ false)
evicted-set_one none s v h = cc
evicted-set_one (some old) s v h = (ground (arith, h), ground (arith, h))

lookup-delete_one :
    (c : Option Session) (id j : ℕ)
    → lookup_one (delete_one c id) j ≡ (if nat_beq id j then none else lookup_one c j)
lookup-delete_one none id j = ground arith
lookup-delete_one (some s) id j = ground arith

lookup_one-id : (c : Option Session) (id : ℕ) (s : Session) → lookup_one c id ≡ some s → s.id ≡ id
lookup_one-id none id s h = cc
lookup_one-id (some t) id s h = ground (arith, h)

abbrev one : Lru
one = record {
  Cache = Option Session;
  empty = none;
  lookup = lookup_one;
  set_item = set_one;
  delete_item = delete_one;
  lookup-empty = λ id. refl;
  lookup-set_item = lookup-set_one;
  evicted-lookup = evicted-set_one;
  lookup-delete_item = lookup-delete_one;
  lookup-id = lookup_one-id;
}

abbrev first : Session
first = record { id = 1; remote_endpoint = 9 ∷ [] }

abbrev second : Session
second = record { id = 2; remote_endpoint = 9 ∷ [] }

abbrev pool : Pool one
pool = record { sessions = some first; by_endpoint = (9 ∷ [], first ∷ []) ∷ [] }

pool-Agrees : Agrees one pool
unfolding sessions_at count
pool-Agrees = record {
  agrees = λ endpoint s. ground (
    arith,
    bytes_eq.beq_iff (9 ∷ []) endpoint,
    bytes_eq.beq_iff endpoint s.remote_endpoint,
    bytes_eq.beq_iff (9 ∷ []) s.remote_endpoint,
  );
}

-- the first session is evicted for the second
add_session-Agrees_example :
    (after : Pool one) × (add_session one pool second ≡ ok after)
    × Agrees one after
    × (one.lookup after.sessions 2 ≡ some second)
add_session-Agrees_example = add_session-Agrees one pool second pool-Agrees refl

remove_session-Agrees_example :
    ((one.lookup pool.sessions 1 ≡ none) × (remove_session one pool 1 ≡ raise session_not_found))
    ⊎ ((after : Pool one) × (s : Session) × (one.lookup pool.sessions 1 ≡ some s)
        × (remove_session one pool 1 ≡ ok (after, s))
        × Agrees one after
        × (one.lookup after.sessions 1 ≡ none))
remove_session-Agrees_example = remove_session-Agrees one pool 1 pool-Agrees
