-- ===== src/Kademlia/Table/Queries.antt =====
-- The read-only methods of `KademliaRoutingTable`, ddht/kademlia.py.
use native.Mathlib.Decide.{ℕ_discrete}
use ddht.Prelude.{
  ◌&&◌, ap, if◌then◌else◌, nat_eq, ℕ, suc, zero, ◌+◌, ◌-◌, ◌≤◌, ◌<◌, ◌≡◌, refl, ◌↔◌, ◌⊎◌, inl, inr,
  Bool, true, false, Bool-cases, Option-cases, none, some, List, [], ◌∷◌, arith, nat_beq, length,
  get_elem?, get_last?, all, count, get_elem?-of_lt, lt_of_get_elem?, count-get_last?, count-nil,
}
use ddht.Prelude.Bytes.{bytes_eq}
use ddht.Kademlia.Distance.{NodeId, ok, raise, value_error, compute_log_distance}
use ddht.Kademlia.Table.{
  Table, get_nodes_at_log_distance, is_empty, get_least_recently_updated_log_distance, leb, is_nil,
}
use ddht.Kademlia.Table.Invariant.{IsValid}

all-of_each :
    {A : Type 0} (p : A → Bool) (l : List A)
    → ((i : ℕ) (a : A) → get_elem? l i ≡ some a → p a ≡ true)
    → all p l ≡ true
all-of_each p [] h = refl
all-of_each p (x ∷ l) h = rw (h 0 x refl) (all-of_each p l (λ i. h (suc i)))

each-of_all :
    {A : Type 0} (p : A → Bool) (l : List A) (i : ℕ) (a : A)
    → all p l ≡ true
    → get_elem? l i ≡ some a
    → p a ≡ true
each-of_all p [] i a h e = cc
each-of_all p (x ∷ l) zero a h e = ground (arith, h, e)
each-of_all p (x ∷ l) (suc i) a h e = each-of_all p l i a (ground (arith, h)) e

get_last?-none : (l : List ℕ) → get_last? l ≡ none → l ≡ []
unfolding get_last?
get_last?-none [] h = refl
get_last?-none (x ∷ []) h = cc
get_last?-none (x ∷ y ∷ r) h = cc (get_last?-none (y ∷ r) h)

returned :
    (t : Table) (i d : ℕ)
    → get_last? t.bucket_update_order ≡ some i
    → get_least_recently_updated_log_distance t ≡ ok d
    → d ≡ i + 1
unfolding get_least_recently_updated_log_distance
returned t i d e h = ground (arith, e, h)

nodes_at :
    (t : Table) (i : ℕ) (n : NodeId) (rest : List NodeId)
    → get_elem? t.buckets i ≡ some (n ∷ rest)
    → get_nodes_at_log_distance t (i + 1) ≡ ok (n ∷ rest)
unfolding get_nodes_at_log_distance
nodes_at t i n rest h =
    let e : i + 1 - 1 ≡ i = omega arith in
    rw e (ground (arith, e, lt_of_get_elem? t.buckets i (n ∷ rest) h, h))

module _ (t : Table) (v : IsValid t) where
  -- In a valid table, for a log distance from 1 to 256, `get_nodes_at_log_distance` returns at
  -- most `bucket_size` nodes, none twice, and each is at that log distance from the center.
  pub get_nodes-at_distance :
      (d : ℕ)
      → 1 ≤ d
      → d ≤ 256
      → (nodes : List NodeId) × (get_nodes_at_log_distance t d ≡ ok nodes)
        × (length nodes ≤ t.bucket_size)
        × ((n : NodeId) → count n nodes ≤ 1)
        × ((n : NodeId) → (compute_log_distance t.center_node_id n ≡ ok d) ⊎ (count n nodes ≡ 0))
  unfolding get_nodes_at_log_distance
  get_nodes-at_distance d low high =
      let (bucket, hb) = get_elem?-of_lt t.buckets (d - 1) (omega (arith, v.num_buckets)) in
      let (cache, hc) =
        get_elem?-of_lt t.replacement_caches (d - 1) (omega (arith, v.num_caches)) in
      let s = v.slots (d - 1) bucket cache hb hc in
      (
        bucket,
        ground (arith, hb, v.num_buckets),
        s.fits,
        λ n. omega (arith, s.distinct n),
        λ n. elim (ℕ_discrete (count n bucket) 0) [
          | yes out ↦ inr out
          | no there ↦
              let e : suc (d - 1) ≡ d = omega arith in
              inl (rw (← e) (s.placed n (omega (arith, there))))
        ],
      )

  raises-far : (d : ℕ) → get_nodes_at_log_distance t d ≡ raise value_error → (d ≡ 0) ⊎ (256 < d)
  raises-far d h = elim (Bool-cases (leb 1 d && leb d 256)) [
    | inl near ↦
        let (nodes, found, _, _, _) =
          get_nodes-at_distance d (ground (arith, near)) (ground (arith, near)) in
        cc (h, found)
    | inr far ↦ ground (arith, far)
  ]

  -- In a valid table `get_nodes_at_log_distance` raises a ValueError exactly for the log
  -- distance 0 and those above 256.
  pub get_nodes-raises_iff :
      (d : ℕ) → (get_nodes_at_log_distance t d ≡ raise value_error) ↔ ((d ≡ 0) ⊎ (256 < d))
  unfolding get_nodes_at_log_distance
  get_nodes-raises_iff d = (raises-far d, λ h. ground (arith, h, v.num_buckets))

  -- the update order lists a bucket exactly if it holds a node
  occupied-listed :
      (i : ℕ) (bucket : List NodeId)
      → get_elem? t.buckets i ≡ some bucket
      → count i t.bucket_update_order ≡ (if is_nil bucket then 0 else 1)
  occupied-listed i bucket hb =
      let low = lt_of_get_elem? t.buckets i bucket hb in
      let (cache, hc) =
        get_elem?-of_lt t.replacement_caches i (omega (arith, low, v.num_caches, v.num_buckets)) in
      (v.slots i bucket cache hb hc).in_order

  -- the last bucket of the update order is there and holds a node
  last-occupied :
      (i : ℕ)
      → get_last? t.bucket_update_order ≡ some i
      → (n : NodeId) × (rest : List NodeId) × (get_elem? t.buckets i ≡ some (n ∷ rest))
  last-occupied i h = let (bucket, hb) = get_elem?-of_lt t.buckets i in_range in occupied bucket hb
    where
      listed : 0 < count i t.bucket_update_order
      listed = count-get_last? i t.bucket_update_order h

      in_range : i < length t.buckets
      in_range = grind (arith, listed, v.num_buckets, v.order_bounds i)

      occupied :
          (bucket : List NodeId)
          → get_elem? t.buckets i ≡ some bucket
          → (n : NodeId) × (rest : List NodeId) × (get_elem? t.buckets i ≡ some (n ∷ rest))
      occupied [] hb = absurd (omega (arith, listed, occupied-listed i [] hb))
      occupied (n ∷ rest) hb = (n, rest, hb)

  occupied-not_empty :
      (i : ℕ) (n : NodeId) (rest : List NodeId)
      → get_elem? t.buckets i ≡ some (n ∷ rest)
      → is_empty t ≡ false
  unfolding is_empty
  occupied-not_empty i n rest hb = elim (Bool-cases (is_empty t)) [
    | inl empty ↦
        ground (arith, each-of_all (λ b. nat_beq (length b) 0) t.buckets i (n ∷ rest) empty hb)
    | inr occupied ↦ occupied
  ]

  unlisted-empty : get_last? t.bucket_update_order ≡ none → is_empty t ≡ true
  unfolding is_empty
  unlisted-empty h = all-of_each _ t.buckets (λ i b hb. nil i b (occupied-listed i b hb))
    where
      nil :
          (i : ℕ) (b : List NodeId)
          → count i t.bucket_update_order ≡ (if is_nil b then 0 else 1)
          → nat_beq (length b) 0 ≡ true
      nil i [] e = refl
      nil i (n ∷ rest) e =
          absurd
            (omega (arith, e, ap (count i) (get_last?-none t.bucket_update_order h), count-nil i))

  -- In a valid table, `get_least_recently_updated_log_distance` raises a ValueError exactly if
  -- the table is empty.
  pub least_recently-raises_iff :
      (get_least_recently_updated_log_distance t ≡ raise value_error) ↔ (is_empty t ≡ true)
  unfolding get_least_recently_updated_log_distance
  least_recently-raises_iff = elim (Option-cases (get_last? t.bucket_update_order)) [
    | inl e ↦ rw (e, get_least_recently_updated_log_distance) ((λ h. unlisted-empty e), (λ h. refl))
    | inr (i, e) ↦
        let (n, rest, hb) = last-occupied i e in
        rw (e, get_least_recently_updated_log_distance)
          ((λ h. cc), (λ h. cc (h, occupied-not_empty i n rest hb)))
  ]

  -- In a valid table, the log distance that `get_least_recently_updated_log_distance` returns is
  -- one at which `get_nodes_at_log_distance` returns a node.
  pub least_recently-occupied :
      (d : ℕ)
      → get_least_recently_updated_log_distance t ≡ ok d
      → (n : NodeId) × (rest : List NodeId) × (get_nodes_at_log_distance t d ≡ ok (n ∷ rest))
  unfolding get_least_recently_updated_log_distance
  least_recently-occupied d h = elim (Option-cases (get_last? t.bucket_update_order)) [
    | inl e ↦ cc (h, returned-none e)
    | inr (i, e) ↦
        let (n, rest, hb) = last-occupied i e in
        (n, rest, rw (returned t i d e h) (nodes_at t i n rest hb))
  ]
    where
      returned-none :
          get_last? t.bucket_update_order ≡ none
          → get_least_recently_updated_log_distance t ≡ raise value_error
      returned-none e = rw (e, get_least_recently_updated_log_distance)
