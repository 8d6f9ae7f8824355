-- ===== src/Pool.antt =====
-- `Pool` of ddht/v5_1/pool.py. The dictionary of the package lru is the parameter `Lru`. A new session
-- is an argument, with its id; what a session is otherwise, Session models.
pub mod Index
use ddht.Prelude.{
  ℕ, ◌+◌, ◌≡◌, ◌↔◌, arith, Bool, true, false, not, ◌&&◌, Option, none, some, List, [], ◌∷◌, nat_beq,
  ◌==◌, if◌then◌else◌, elem, remove,
}
use ddht.Prelude.Tests.{Eq, nat_eq}
use ddht.Prelude.Bytes.{Bytes, bytes_eq}
use ddht.Prelude.Outcomes.{Result, ok, raise, ◌>>=◌}

pub data Error : Type 0 where
  session_not_found key_error : Error

-- a session, by its id and `remote_endpoint`
pub record Session : Type 0 where
  pub id : ℕ
  pub remote_endpoint : Bytes

abbrev pub session_beq : Session → Session → Bool
session_beq a b = nat_beq a.id b.id && a.remote_endpoint == b.remote_endpoint

pub session_beq_iff : (a b : Session) → (session_beq a b ≡ true) ↔ (a ≡ b)
session_beq_iff a b = ground (arith, bytes_eq.beq_iff a.remote_endpoint b.remote_endpoint)

instance abbrev pub session_eq : Eq Session
session_eq = record { beq = session_beq; beq_iff = session_beq_iff }

-- whether an assignment evicted the entry of a key
abbrev pub evicts : Option Session → ℕ → Bool
evicts none id = false
evicts (some s) id = nat_beq s.id id

-- A dictionary of bounded size from ids to sessions with these ids. An assignment sets the entry of
-- its key, and may evict one entry of another key, which is what the callback gets; `del` takes an
-- entry without the callback.
pub record Lru : Type 1 where
  pub Cache : Type 0
  pub empty : Cache
  pub lookup : Cache → ℕ → Option Session
  pub set_item : Cache → Session → Cache × Option Session
  pub delete_item : Cache → ℕ → Cache
  pub lookup-empty : (id : ℕ) → lookup empty id ≡ none
  pub lookup-set_item :
      (c : Cache) (s : Session) (id : ℕ)
      → lookup (set_item c s).0 id ≡ (
          if nat_beq s.id id
          then some s
          else if evicts (set_item c s).1 id
          then none
          else lookup c id)
  pub evicted-lookup :
      (c : Cache) (s v : Session)
      → (set_item c s).1 ≡ some v
      → (lookup c v.id ≡ some v) × (nat_beq s.id v.id ≡ false)
  pub lookup-delete_item :
      (c : Cache) (id j : ℕ)
      → lookup (delete_item c id) j ≡ (if nat_beq id j then none else lookup c j)
  pub lookup-id : (c : Cache) (id : ℕ) (s : Session) → lookup c id ≡ some s → s.id ≡ id

-- `_sessions_by_endpoint`: the set of each endpoint that has been asked for
abbrev pub Index : Type 0
Index = List (Bytes × List Session)

unfoldable pub sessions_at : Index → Bytes → List Session
sessions_at [] endpoint = []
sessions_at ((e, sessions) ∷ index) endpoint =
    if e == endpoint then sessions else sessions_at index endpoint

unfoldable pub put_sessions : Index → Bytes → List Session → Index
put_sessions [] endpoint sessions = (endpoint, sessions) ∷ []
put_sessions ((e, old) ∷ index) endpoint sessions =
    if e == endpoint then (e, sessions) ∷ index else (e, old) ∷ put_sessions index endpoint sessions

-- `self._sessions_by_endpoint[session.remote_endpoint].remove(session)`
unfoldable pub remove_at : Index → Session → Result Error Index
remove_at index s =
    let sessions = sessions_at index s.remote_endpoint in
    if elem s sessions
    then ok (put_sessions index s.remote_endpoint (remove s sessions))
    else raise key_error

-- `.add(session)`
unfoldable pub add_at : Index → Session → Index
add_at index s =
    let sessions = sessions_at index s.remote_endpoint in
    put_sessions index s.remote_endpoint (if elem s sessions then sessions else s ∷ sessions)

-- the callback `_evict_session`, for what an assignment evicts
abbrev pub evict_session : Index → Option Session → Result Error Index
evict_session index none = ok index
evict_session index (some value) = remove_at index value

module _ (lru : Lru) where
  open lru use {Cache, empty, lookup, set_item, delete_item}

  pub record Pool : Type 0 where
    pub sessions : Cache
    pub by_endpoint : Index

  unfoldable pub init : Pool
  init = record { sessions = empty; by_endpoint = [] }

  abbrev pub has_session : Pool → ℕ → Bool
  has_session p session_id = elim (lookup p.sessions session_id) [ none ↦ false | some s ↦ true ]

  -- what `initiate_session` and `receive_session` do with the session that they make
  unfoldable pub add_session : Pool → Session → Result Error Pool
  add_session p session = do
    by_endpoint ← evict_session p.by_endpoint (set_item p.sessions session).1
    ok (record {
      sessions = (set_item p.sessions session).0;
      by_endpoint = add_at by_endpoint session;
    })

  unfoldable pub remove_session : Pool → ℕ → Result Error (Pool × Session)
  remove_session p session_id = elim (lookup p.sessions session_id) [
    | none ↦ raise session_not_found
    | some session ↦ do
      by_endpoint ← remove_at p.by_endpoint session
      ok (
        record { sessions = delete_item p.sessions session_id; by_endpoint = by_endpoint },
        session,
      )
  ]

  unfoldable pub get_sessions_for_endpoint : Pool → Bytes → List Session
  get_sessions_for_endpoint p remote_endpoint = sessions_at p.by_endpoint remote_endpoint
