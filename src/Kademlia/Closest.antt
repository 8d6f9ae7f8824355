-- ===== src/Kademlia/Closest.antt =====
-- `iter_closest`, `iter_nodes_around` and `iter_closest_nodes` of ddht/kademlia.py. An iterator is
-- the list of what it yields. `sorted` with a key is a stable insertion sort.
pub mod Order
use ddht.Prelude.{ℕ, ◌≡◌, Bool, true, false, not, List, [], ◌∷◌, ◌++◌, ltb, if◌then◌else◌, elem}
use ddht.Prelude.Bytes.{bytes_eq}
use ddht.Kademlia.Distance.{NodeId, compute_distance}
use ddht.Kademlia.Table.{Table}

-- an element goes behind those with the same key that stand before it
unfoldable pub insert_by {ℓ} : {A : Type ℓ} → (A → ℕ) → A → List A → List A
insert_by key a [] = a ∷ []
insert_by key a (x ∷ xs) = if ltb (key x) (key a) then x ∷ insert_by key a xs else a ∷ x ∷ xs

unfoldable pub sorted {ℓ} : {A : Type ℓ} → (A → ℕ) → List A → List A
sorted key [] = []
sorted key (x ∷ xs) = insert_by key x (sorted key xs)

-- `itertools.chain(*lists)`
unfoldable pub chain {ℓ} : {A : Type ℓ} → List (List A) → List A
chain [] = []
chain (l ∷ ls) = l ++ chain ls

unfoldable pub iter_closest : NodeId → List NodeId → List NodeId
iter_closest target nodes = sorted (λ node_id. compute_distance target node_id) nodes

unfoldable pub iter_nodes_around : Table → NodeId → List NodeId
iter_nodes_around t reference_node_id = iter_closest reference_node_id (chain t.buckets)

-- The loop of `iter_closest_nodes`: the first of each list is `closest_routing` or
-- `closest_seen`, and an empty list is `None`, whose distance is infinite.
unfoldable pub merge_closest : (NodeId → ℕ) → List NodeId → List NodeId → List NodeId → List NodeId
merge_closest dist [] [] yielded_nodes = []
merge_closest dist (r ∷ routing) [] yielded_nodes =
    let skip = merge_closest dist routing [] yielded_nodes in
    let take = r ∷ merge_closest dist routing [] (r ∷ yielded_nodes) in
    if not (elem r yielded_nodes) then take else skip
merge_closest dist [] (s ∷ seen) yielded_nodes =
    let skip = merge_closest dist [] seen yielded_nodes in
    let take = s ∷ merge_closest dist [] seen (s ∷ yielded_nodes) in
    if not (elem s yielded_nodes) then take else skip
merge_closest dist (r ∷ routing) (s ∷ seen) yielded_nodes =
    let skip_r = merge_closest dist routing (s ∷ seen) yielded_nodes in
    let take_r = r ∷ merge_closest dist routing (s ∷ seen) (r ∷ yielded_nodes) in
    let skip_s = merge_closest dist (r ∷ routing) seen yielded_nodes in
    let take_s = s ∷ merge_closest dist (r ∷ routing) seen (s ∷ yielded_nodes) in
    if ltb (dist r) (dist s)
    then (if not (elem r yielded_nodes) then take_r else skip_r)
    else (if not (elem s yielded_nodes) then take_s else skip_s)

unfoldable pub iter_closest_nodes : NodeId → Table → List NodeId → List NodeId
iter_closest_nodes target routing_table seen_nodes =
    merge_closest (compute_distance target) (iter_nodes_around routing_table target)
      (sorted (compute_distance target) seen_nodes) []
