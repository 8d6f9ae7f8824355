-- ===== src/RequestTracker.antt =====
-- `RequestTracker` of ddht/request_tracker.py. The bytes that `secrets.token_bytes(4)` returns are
-- arguments, one for each attempt.
pub mod Blocks
use ddht.Prelude.{
  ◌≡◌, arith, Bool, true, false, List, [], ◌∷◌, ◌==◌, if◌then◌else◌, elem, remove, ◌⊎◌, inl, inr,
  ◌&&◌, ◌↔◌, Bool-cases, refl, ◌≢◌, sym, ap, ◌∙◌, count_self, ==_ne, count, count-remove,
  count-elem, elem-count, ◌+◌,
}
use ddht.Prelude.Tests.{Eq, ==_refl, list_eq, nat_eq}
use ddht.Prelude.Bytes.{Bytes, bytes_eq}
use ddht.Prelude.Outcomes.{Result, ok, raise, ◌>>=◌, Result-cases}

pub data Error : Type 0 where
  value_error key_error : Error

-- a node id and a request id
pub record Key : Type 0 where
  pub node_id : Bytes
  pub request_id : Bytes

abbrev pub key_beq : Key → Key → Bool
key_beq a b = a.node_id == b.node_id && a.request_id == b.request_id

pub key_beq_iff : (a b : Key) → (key_beq a b ≡ true) ↔ (a ≡ b)
key_beq_iff a b =
    ground (arith, bytes_eq.beq_iff a.node_id b.node_id, bytes_eq.beq_iff a.request_id b.request_id)

instance abbrev pub key_eq : Eq Key
key_eq = record { beq = key_beq; beq_iff = key_beq_iff }

-- the set `_reserved_request_ids`
abbrev pub Reserved : Type 0
Reserved = List Key

unfoldable pub is_request_id_active : Reserved → Bytes → Bytes → Bool
is_request_id_active s node_id request_id =
    elem (record { node_id = node_id; request_id = request_id }) s

-- the loop, over what its attempts draw, and its `else`
unfoldable pub first_free : Reserved → Bytes → List Bytes → Result Error Bytes
first_free s node_id [] = raise value_error
first_free s node_id (request_id ∷ draws) =
    if is_request_id_active s node_id request_id then first_free s node_id draws else ok request_id

unfoldable pub get_free_request_id : Reserved → Bytes → Bytes → Bytes → Bytes → Result Error Bytes
get_free_request_id s node_id first second third =
    first_free s node_id (first ∷ second ∷ third ∷ [])

-- `reserve_request_id`: the `add` on entering the block, and the `remove` on leaving it
unfoldable pub enter : Reserved → Bytes → Bytes → Reserved
enter s node_id request_id =
    let key : Key = record { node_id = node_id; request_id = request_id } in
    if elem key s then s else key ∷ s

unfoldable pub leave : Reserved → Bytes → Bytes → Result Error Reserved
leave s node_id request_id =
    let key : Key = record { node_id = node_id; request_id = request_id } in
    if elem key s then ok (remove key s) else raise key_error

-- a block of some request is entered or left; an exception ends the run
pub data Step : Type 0 where
  enters leaves : Key → Step

unfoldable pub step : Reserved → Step → Result Error Reserved
step s (enters key) = ok (enter s key.node_id key.request_id)
step s (leaves key) = leave s key.node_id key.request_id

unfoldable pub run : Reserved → List Step → Result Error Reserved
run s [] = ok s
run s (x ∷ xs) = step s x >>= λ t. run t xs
