-- ===== src/Kademlia/Table.antt =====
-- `KademliaRoutingTable` of ddht/kademlia.py: 256 buckets of at most `bucket_size` nodes, a
-- replacement cache beside each, and the order in which the buckets were updated. A deque is the
-- list of its elements from left to right. A method returns the new table, or raises.
pub mod Deques
pub mod Invariant
pub mod Update
pub mod Queries
pub mod Runs
use native.Mathlib.Nat.{le_refl}
use ddht.Prelude.{
  ℕ, ◌+◌, ◌-◌, Bool, true, false, not, ◌&&◌, ◌||◌, Option, none, some, List, [], ◌∷◌, ◌++◌, nat_beq,
  leb, ltb, ◌==◌, nat_eq, if◌then◌else◌, length, get_elem?, set, replicate, take, drop, get_last?,
  elem, remove, all,
}
use Deques.{appendleft, take_out, is_nil}
use ddht.Prelude.Bytes.{bytes_eq}
use ddht.Kademlia.Distance.{
  NodeId, Result, ok, raise, value_error, index_error, unreachable, ◌>>=◌, compute_log_distance,
}

abbrev pub num_routing_table_buckets : ℕ
num_routing_table_buckets = 256

pub record Table : Type 0 where
  pub center_node_id : NodeId
  pub bucket_size : ℕ
  pub buckets : List (List NodeId)
  pub replacement_caches : List (List NodeId)
  pub bucket_update_order : List ℕ

unfoldable pub init : NodeId → ℕ → Table
init center_node_id bucket_size = record {
  center_node_id = center_node_id;
  bucket_size = bucket_size;
  buckets = replicate num_routing_table_buckets [];
  replacement_caches = replicate num_routing_table_buckets [];
  bucket_update_order = [];
}

-- `l[i]` for an index that is not negative
abbrev pub index {ℓ} : {A : Type ℓ} → List A → ℕ → Result A
index l i = elim (get_elem? l i) [ none ↦ raise index_error | some a ↦ ok a ]

-- `l[-1]`
abbrev pub last {ℓ} : {A : Type ℓ} → List A → Result A
last l = elim (get_last? l) [ none ↦ raise index_error | some a ↦ ok a ]

-- the deques at `index` and the update order as they are after a mutation
abbrev pub write : Table → ℕ → List NodeId → List NodeId → List ℕ → Table
write t index bucket replacement_cache order = record t {
  buckets = set t.buckets index bucket;
  replacement_caches = set t.replacement_caches index replacement_cache;
  bucket_update_order = order;
}

pub record Slot : Type 0 where
  pub index : ℕ
  pub bucket : List NodeId
  pub replacement_cache : List NodeId

-- Two different node ids are at a log distance of at least 1, so that the index is not negative.
unfoldable pub get_index_bucket_and_replacement_cache : Table → NodeId → Result Slot
get_index_bucket_and_replacement_cache t node_id = do
  distance ← compute_log_distance t.center_node_id node_id
  let i = distance - 1
  bucket ← index t.buckets i
  replacement_cache ← index t.replacement_caches i
  ok (record { index = i; bucket = bucket; replacement_cache = replacement_cache })

unfoldable pub contains : Table → NodeId → Bool → Result Bool
contains t node_id include_replacement_cache = do
  slot ← get_index_bucket_and_replacement_cache t node_id
  ok (
      if include_replacement_cache
      then elem node_id slot.bucket || elem node_id slot.replacement_cache
      else elem node_id slot.bucket)

-- the mutation of `update_bucket_unchecked`, once the deques are found
unfoldable pub move_to_top : Table → NodeId → Slot → Table
move_to_top t node_id slot =
    write t slot.index (appendleft t.bucket_size node_id (remove node_id slot.bucket))
      (remove node_id slot.replacement_cache) (slot.index ∷ remove slot.index t.bucket_update_order)

unfoldable pub update_bucket_unchecked : Table → NodeId → Result Table
update_bucket_unchecked t node_id = do
  slot ← get_index_bucket_and_replacement_cache t node_id
  ok (move_to_top t node_id slot)

-- the branch of `update` for a full bucket without the node
unfoldable pub add_replacement : Table → NodeId → Slot → Table
add_replacement t node_id slot =
    write t slot.index slot.bucket
      (node_id
        ∷ (if not (elem node_id slot.replacement_cache)
            then slot.replacement_cache
            else remove node_id slot.replacement_cache))
      t.bucket_update_order

-- `update` from the place where the deques are found
unfoldable pub update_slot : Table → NodeId → Slot → Result (Table × Option NodeId)
update_slot t node_id slot =
    let is_bucket_full = leb t.bucket_size (length slot.bucket) in
    let is_node_in_bucket = elem node_id slot.bucket in
    if not is_node_in_bucket && not is_bucket_full
    then (do t' ← update_bucket_unchecked t node_id; ok (t', none))
    else if is_node_in_bucket
    then (do t' ← update_bucket_unchecked t node_id; ok (t', none))
    else if not is_node_in_bucket && is_bucket_full
    then (do candidate ← last slot.bucket; ok (add_replacement t node_id slot, some candidate))
    else raise unreachable

unfoldable pub update : Table → NodeId → Result (Table × Option NodeId)
update t node_id =
    if node_id == t.center_node_id
    then raise value_error
    else do slot ← get_index_bucket_and_replacement_cache t node_id; update_slot t node_id slot

-- the mutation of `remove`, once the deques are found
unfoldable pub remove_from : Table → NodeId → Slot → Table
remove_from t node_id slot =
    let (bucket, cache) = take_out t.bucket_size node_id slot.bucket slot.replacement_cache in
    write t slot.index bucket cache
      (if is_nil bucket then remove slot.index t.bucket_update_order else t.bucket_update_order)

unfoldable pub remove_node : Table → NodeId → Result Table
remove_node t node_id = do
  slot ← get_index_bucket_and_replacement_cache t node_id
  ok (remove_from t node_id slot)

unfoldable pub get_nodes_at_log_distance : Table → ℕ → Result (List NodeId)
get_nodes_at_log_distance t log_distance =
    if leb log_distance 0
    then raise value_error
    else if ltb (length t.buckets) log_distance
    then raise value_error
    else index t.buckets (log_distance - 1)

unfoldable pub is_empty : Table → Bool
is_empty t = all (λ bucket. nat_beq (length bucket) 0) t.buckets

unfoldable pub get_least_recently_updated_log_distance : Table → Result ℕ
get_least_recently_updated_log_distance t = elim (get_last? t.bucket_update_order) [
  | none ↦ raise value_error
  | some bucket_index ↦ ok (bucket_index + 1)
]
