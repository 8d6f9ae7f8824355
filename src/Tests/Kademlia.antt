-- ===== src/Tests/Kademlia.antt =====
-- ddht/kademlia.py at concrete nodes: a table of buckets of two nodes around the node 0.
use ddht.Kademlia.Distance.{
  NodeId, IsNodeId, ok, raise, value_error, compute_distance, compute_log_distance, at_log_distance,
}
use ddht.Kademlia.Distance.Metric.{compute_log_distance_bounds}
use ddht.Kademlia.Distance.Target.{compute_log_distance-at_log_distance}
use ddht.Kademlia.Table.{
  Table, Slot, init, update, remove_node, get_index_bucket_and_replacement_cache,
  get_nodes_at_log_distance, get_least_recently_updated_log_distance, is_empty, update_slot,
  update_bucket_unchecked, move_to_top, add_replacement,
}
use ddht.Kademlia.Table.Invariant.{IsValid}
use ddht.Kademlia.Table.Update.{update-IsValid, remove_node-IsValid, Updated}
use ddht.Kademlia.Table.Queries.{get_nodes-at_distance, least_recently-raises_iff}
use ddht.Kademlia.Table.Runs.{Call, updates, run, AllNodeIds, run-IsValid, step}
use ddht.Kademlia.Closest.{chain, iter_closest_nodes}
use ddht.Kademlia.Closest.Order.{Ascending, iter_closest_nodes-Ascending}
use ddht.Prelude.Bytes.{
  bytes_eq, to_bytes, length-to_bytes, to_bytes-AllBytes, from_bytes, from_bytes-to_bytes,
}
use ddht.Kademlia.Table.Runs.{IsSound, new-IsSound}
use ddht.Kademlia.Table.Deques.{is_nil}
use ddht.Prelude.Bits.Shift.{bit_length}
use ddht.Prelude.{
  take, remove, get_last?, ℕ, ◌≡◌, refl, List, [], ◌∷◌, arith, ◌≢◌, ap, sym, Option, count, length,
  ◌↔◌, ◌≤◌, ◌∙◌, ◌+◌, ◌⊎◌, true, if◌then◌else◌, ◌==◌, elem, ◌&&◌, ◌||◌, ◌-◌,
}

-- the node id of the number `k`
abbrev node : ℕ → NodeId
node k = to_bytes 32 k

node-IsNodeId : (k : ℕ) → IsNodeId (node k)
node-IsNodeId k = record { size = length-to_bytes 32 k; bytes = to_bytes-AllBytes 32 k }

zero≢two : node 0 ≢ node 2
zero≢two h = omega (
  arith,
  ap from_bytes h,
  from_bytes-to_bytes 32 0 (omega arith),
  from_bytes-to_bytes 32 2 (omega arith),
)

zero≢seven : node 0 ≢ node 7
zero≢seven h = omega (
  arith,
  ap from_bytes h,
  from_bytes-to_bytes 32 0 (omega arith),
  from_bytes-to_bytes 32 7 (omega arith),
)

-- the nodes 2 and 3 are at log distance 2; of those at log distance 3, 6 is one too many
abbrev calls : List Call
calls =
    updates (node 2)
    ∷ updates (node 3)
    ∷ updates (node 4)
    ∷ updates (node 5)
    ∷ updates (node 6)
    ∷ []

abbrev table : Table
table = run (init (node 0) 2) calls

calls-AllNodeIds : AllNodeIds calls
calls-AllNodeIds = (
  node-IsNodeId 2,
  (node-IsNodeId 3, (node-IsNodeId 4, (node-IsNodeId 5, (node-IsNodeId 6, tt)))),
)

run-IsValid_example : IsValid table
run-IsValid_example = run-IsValid (node 0) 2 (node-IsNodeId 0) (omega arith) calls calls-AllNodeIds

table-IsSound : IsSound (node 0) 2 table
table-IsSound = new-IsSound (node 0) 2 (node-IsNodeId 0) (omega arith) calls calls-AllNodeIds

center : table.center_node_id ≡ node 0
center = table-IsSound.1

center-IsNodeId : IsNodeId table.center_node_id
center-IsNodeId = rw center (node-IsNodeId 0)

other_center : table.center_node_id ≢ node 7
other_center h = zero≢seven (sym center ∙ h)

update-IsValid_example :
    (slot : Slot) × (t' : Table) × (candidate : Option NodeId)
    × (get_index_bucket_and_replacement_cache table (node 7) ≡ ok slot)
    × (update table (node 7) ≡ ok (t', candidate))
    × Updated table
        (node 7)
        table-IsSound.0
        center-IsNodeId
        (node-IsNodeId 7)
        other_center
        slot
        t'
        candidate
update-IsValid_example =
    update-IsValid table (node 7) table-IsSound.0 center-IsNodeId (node-IsNodeId 7) other_center
      (omega (arith, table-IsSound.2))

remove_node-IsValid_example :
    (slot after : Slot) × (t' : Table) × (get_index_bucket_and_replacement_cache table (node 7)
      ≡ ok slot)
    × (remove_node table (node 7) ≡ ok t')
    × IsValid t'
    × (get_index_bucket_and_replacement_cache t' (node 7) ≡ ok after)
    × ((m : NodeId)
        → count m after.bucket + count m after.replacement_cache
          ≡ (if node 7 == m then 0 else count m slot.bucket + count m slot.replacement_cache))
    × (length after.bucket ≡ (
        if elem (node 7) slot.bucket && is_nil slot.replacement_cache
        then length slot.bucket - 1
        else length slot.bucket))
remove_node-IsValid_example =
    remove_node-IsValid table (node 7) table-IsSound.0 center-IsNodeId (node-IsNodeId 7)
      other_center

get_nodes-at_distance_example :
    (nodes : List NodeId) × (get_nodes_at_log_distance table 3 ≡ ok nodes)
    × (length nodes ≤ table.bucket_size)
    × ((n : NodeId) → count n nodes ≤ 1)
    × ((n : NodeId) → (compute_log_distance table.center_node_id n ≡ ok 3) ⊎ (count n nodes ≡ 0))
get_nodes-at_distance_example =
    get_nodes-at_distance table table-IsSound.0 3 (omega arith) (omega arith)

abbrev too_far : ℕ
too_far = 257

least_recently-raises_iff_example :
    (get_least_recently_updated_log_distance table ≡ raise value_error) ↔ (is_empty table ≡ true)
least_recently-raises_iff_example = least_recently-raises_iff table table-IsSound.0

compute_log_distance_bounds_example :
    (d : ℕ) × (compute_log_distance (node 0) (node 2) ≡ ok d)
    × (compute_log_distance (node 2) (node 0) ≡ ok d)
    × (1 ≤ d)
    × (d ≤ 256)
compute_log_distance_bounds_example =
    compute_log_distance_bounds (node 0) (node 2) (node-IsNodeId 0) (node-IsNodeId 2) zero≢two

compute_log_distance-at_log_distance_example :
    (n : NodeId) × (at_log_distance (node 0) 10 77 ≡ ok n)
    × IsNodeId n
    × (compute_log_distance (node 0) n ≡ ok 10)
compute_log_distance-at_log_distance_example =
    compute_log_distance-at_log_distance (node 0) (node-IsNodeId 0) 10 77 (omega arith)
      (omega arith) (omega arith)

iter_closest_nodes-Ascending_example :
    Ascending
      (compute_distance (node 9))
      0
      (iter_closest_nodes (node 9) table (node 4 ∷ node 8 ∷ []))
    × ((n : NodeId)
        → count n (iter_closest_nodes (node 9) table (node 4 ∷ node 8 ∷ []))
          ≡ (if elem n (chain table.buckets) || elem n (node 4 ∷ node 8 ∷ []) then 1 else 0))
iter_closest_nodes-Ascending_example =
    iter_closest_nodes-Ascending (node 9) table (node 4 ∷ node 8 ∷ [])

bucket_test : get_nodes_at_log_distance table 3 ≡ ok (node 5 ∷ node 4 ∷ [])
unfolding get_nodes_at_log_distance run step init update update_slot
    get_index_bucket_and_replacement_cache update_bucket_unchecked compute_log_distance move_to_top
    add_replacement compute_distance bit_length from_bytes to_bytes elem take remove get_last?
bucket_test = refl

oldest : get_least_recently_updated_log_distance table ≡ ok 2
unfolding get_least_recently_updated_log_distance run step init update update_slot
    get_index_bucket_and_replacement_cache update_bucket_unchecked compute_log_distance move_to_top
    add_replacement compute_distance bit_length from_bytes to_bytes elem take remove get_last?
oldest = refl
