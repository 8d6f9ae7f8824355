-- ===== src/Kademlia/Table/Invariant.antt =====
-- What a routing table keeps true, and the slot that a node id has in it.
use mathlib.Core.Path.{subst, subst₂}
use native.Mathlib.Decide.{ℕ_discrete}
use ddht.Prelude.{
  ℕ, suc, ◌-◌, ◌≤◌, ◌<◌, ◌≡◌, refl, sym, ◌∙◌, ◌≢◌, some, List, [], arith, nat_eq, length, get_elem?,
  set, count, count-nil, length-set, length-replicate, get_elem?-set_self, get_elem?-set_ne,
  get_elem?-of_lt, get_elem?-replicate,
}
use ddht.Prelude.Bytes.{bytes_eq}
use ddht.Kademlia.Distance.{NodeId, IsNodeId, ok, compute_log_distance}
use ddht.Kademlia.Distance.Metric.{compute_log_distance_bounds}
use ddht.Kademlia.Table.Deques.{IsSlot}
use ddht.Kademlia.Table.{
  Table, Slot, init, write, num_routing_table_buckets, get_index_bucket_and_replacement_cache,
  index,
}

-- the nodes that bucket `i` is for
abbrev pub BelongsAt : NodeId → ℕ → NodeId → Type 0
BelongsAt center i n = compute_log_distance center n ≡ ok (suc i)

pub record IsValid (t : Table) : Type 0 where
  pub num_buckets : length t.buckets ≡ num_routing_table_buckets
  pub num_caches : length t.replacement_caches ≡ num_routing_table_buckets
  pub slots :
      (i : ℕ) (bucket cache : List NodeId)
      → get_elem? t.buckets i ≡ some bucket
      → get_elem? t.replacement_caches i ≡ some cache
      → IsSlot
          (BelongsAt t.center_node_id i)
          t.bucket_size
          bucket
          cache
          (count i t.bucket_update_order)
  pub order_bounds : (i : ℕ) → num_routing_table_buckets ≤ i → count i t.bucket_update_order ≡ 0

some-eq {ℓ} : {A : Type ℓ} {a b : A} → some a ≡ some b → a ≡ b
some-eq h = cc

module _ (t : Table) (i : ℕ) (bucket cache : List NodeId) (order : List ℕ) where
  -- A mutation of one slot keeps the table valid if it keeps that slot, and the others' places in
  -- the update order.
  pub write-IsValid :
      IsValid t
      → i < num_routing_table_buckets
      → IsSlot (BelongsAt t.center_node_id i) t.bucket_size bucket cache (count i order)
      → ((j : ℕ) → i ≢ j → count j order ≡ count j t.bucket_update_order)
      → IsValid (write t i bucket cache order)
  write-IsValid v h s others = record {
    num_buckets = omega (arith, length-set t.buckets i bucket, v.num_buckets);
    num_caches = omega (arith, length-set t.replacement_caches i cache, v.num_caches);
    slots = λ j b c hb hc. elim (ℕ_discrete i j) [
      | yes e ↦ here j b c e hb hc
      | no ne ↦
          subst (λ k. IsSlot (BelongsAt t.center_node_id j) t.bucket_size b c k) (sym (others j ne))
            (v.slots j b c (sym (get_elem?-set_ne t.buckets i j bucket ne) ∙ hb)
              (sym (get_elem?-set_ne t.replacement_caches i j cache ne) ∙ hc))
    ];
    order_bounds = λ j far. others j (omega arith) ∙ v.order_bounds j far;
  }
    where
      at : (j : ℕ) → List NodeId → List NodeId → Type 0
      at j b c = IsSlot (BelongsAt t.center_node_id j) t.bucket_size b c (count j order)

      here :
          (j : ℕ) (b c : List NodeId)
          → i ≡ j
          → get_elem? (set t.buckets i bucket) j ≡ some b
          → get_elem? (set t.replacement_caches i cache) j ≡ some c
          → at j b c
      here j b c e hb hc =
          subst (λ k. at k b c) e
            (subst₂ (at i)
              (some-eq (
                sym (get_elem?-set_self t.buckets i bucket (omega (arith, v.num_buckets)))
                ∙ rw (← e) at hb))
              (some-eq (
                sym (get_elem?-set_self t.replacement_caches i cache (omega (arith, v.num_caches)))
                ∙ rw (← e) at hc))
              s)

-- A new table is valid.
pub init-IsValid : (center : NodeId) (size : ℕ) → IsValid (init center size)
unfolding init
init-IsValid center size = record {
  num_buckets = length-replicate {A = List NodeId} num_routing_table_buckets [];
  num_caches = length-replicate {A = List NodeId} num_routing_table_buckets [];
  slots = λ i b c hb hc.
      rw
        (
          get_elem?-replicate num_routing_table_buckets i [] b hb,
          get_elem?-replicate num_routing_table_buckets i [] c hc,
        )
        (empty-IsSlot i);
  order_bounds = λ i h. count-nil i;
}
  where
    empty-IsSlot : (i : ℕ) → IsSlot (BelongsAt center i) size [] [] (count i [])
    empty-IsSlot i = record {
      fits = omega arith;
      distinct = λ n. omega (arith, count-nil n);
      placed = λ n h. absurd (omega (arith, count-nil n));
      standby = λ h. absurd (omega arith);
      in_order = count-nil i;
    }

get_index-eq :
    (t : Table) (n : NodeId) (d i : ℕ) (bucket cache : List NodeId)
    → compute_log_distance t.center_node_id n ≡ ok d
    → d - 1 ≡ i
    → get_elem? t.buckets i ≡ some bucket
    → get_elem? t.replacement_caches i ≡ some cache
    → get_index_bucket_and_replacement_cache t n
      ≡ ok (record { index = i; bucket = bucket; replacement_cache = cache })
unfolding get_index_bucket_and_replacement_cache
get_index-eq t n d i bucket cache away e hb hc = rw (away, e, hb, index, hc)

-- where a node id has its place in a table
pub record Found (t : Table) (n : NodeId) (slot : Slot) : Type 0 where
  pub belongs : BelongsAt t.center_node_id slot.index n
  pub in_range : slot.index < num_routing_table_buckets
  pub bucket_at : get_elem? t.buckets slot.index ≡ some slot.bucket
  pub cache_at : get_elem? t.replacement_caches slot.index ≡ some slot.replacement_cache

module _ (t : Table) (n : NodeId) (v : IsValid t) (c : IsNodeId t.center_node_id) (p : IsNodeId n)
    (ne : t.center_node_id ≢ n) where
  pub get_index_Found :
      (slot : Slot) × (get_index_bucket_and_replacement_cache t n ≡ ok slot) × Found t n slot
  get_index_Found =
      let (d, away, _, low, high) = compute_log_distance_bounds t.center_node_id n c p ne in
      let (bucket, hb) = get_elem?-of_lt t.buckets (d - 1) (omega (arith, v.num_buckets)) in
      let (cache, hc) =
        get_elem?-of_lt t.replacement_caches (d - 1) (omega (arith, v.num_caches)) in
      (
        record { index = d - 1; bucket = bucket; replacement_cache = cache },
        get_index-eq t n d (d - 1) bucket cache away refl hb hc,
        record {
          belongs = let e : suc (d - 1) ≡ d = omega arith in rw e away;
          in_range = omega arith;
          bucket_at = hb;
          cache_at = hc;
        },
      )

-- a node id finds in a table what was written to its slot
pub get_index-write :
    (t : Table) (n : NodeId) (slot : Slot) (bucket cache : List NodeId) (order : List ℕ)
    → IsValid t
    → Found t n slot
    → get_index_bucket_and_replacement_cache (write t slot.index bucket cache order) n
      ≡ ok (record { index = slot.index; bucket = bucket; replacement_cache = cache })
get_index-write t n slot bucket cache order v f =
    get_index-eq (write t slot.index bucket cache order) n (suc slot.index) slot.index bucket cache
      f.belongs (omega arith)
      (get_elem?-set_self t.buckets slot.index bucket (omega (arith, v.num_buckets, f.in_range)))
      (get_elem?-set_self t.replacement_caches slot.index cache
        (omega (arith, v.num_caches, f.in_range)))
