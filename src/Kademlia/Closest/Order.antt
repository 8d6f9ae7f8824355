-- ===== src/Kademlia/Closest/Order.antt =====
-- The order and the elements of the iterators of ddht/kademlia.py.
use ddht.Prelude.{
  refl, ◌∙◌, not, nat_eq, ℕ, ◌+◌, ◌≤◌, ◌≡◌, Bool, true, false, Bool-cases, inl, inr, ◌||◌, List, [],
  ◌∷◌, arith, ltb, if◌then◌else◌, Eq, ◌==◌, elem, count, elem-cons, elem-nil, count-nil, ap,
  count-cons, ◌∙◌,
}
use ddht.Prelude.Bytes.{bytes_eq}
use ddht.Kademlia.Distance.{NodeId, compute_distance}
use ddht.Kademlia.Table.{Table}
use ddht.Kademlia.Closest.{
  insert_by, sorted, chain, iter_closest, iter_nodes_around, merge_closest, iter_closest_nodes,
}

-- ascending keys, from `low` on
abbrev pub Ascending {ℓ} : {A : Type ℓ} → (A → ℕ) → ℕ → List A → Type 0
Ascending key low [] = Unit
Ascending key low (x ∷ xs) = (low ≤ key x) × Ascending key (key x) xs

pub Ascending-weaken {ℓ} :
    {A : Type ℓ} (key : A → ℕ) (low high : ℕ) (xs : List A)
    → low ≤ high
    → Ascending key high xs
    → Ascending key low xs
Ascending-weaken key low high [] le h = tt
Ascending-weaken key low high (x ∷ xs) le h = (omega (arith, h.0), h.1)

module _ {A : Type 0} (key : A → ℕ) where
  insert_by-Ascending :
      (low : ℕ) (a : A) (xs : List A)
      → low ≤ key a
      → Ascending key low xs
      → Ascending key low (insert_by key a xs)
  unfolding insert_by
  insert_by-Ascending low a [] le h = (le, tt)
  insert_by-Ascending low a (x ∷ xs) le h = elim (Bool-cases (ltb (key x) (key a))) [
    | inl after ↦ rw after (h.0, insert_by-Ascending (key x) a xs (ground (arith, after)) h.1)
    | inr before ↦ rw before (le, (ground (arith, before), h.1))
  ]

  pub sorted-Ascending : (xs : List A) → Ascending key 0 (sorted key xs)
  unfolding sorted
  sorted-Ascending [] = tt
  sorted-Ascending (x ∷ xs) =
      insert_by-Ascending 0 x (sorted key xs) (omega arith) (sorted-Ascending xs)

  module _ ⦃e : Eq A⦄ where
    elem-insert_by : (n a : A) (xs : List A) → elem n (insert_by key a xs) ≡ (a == n || elem n xs)
    unfolding insert_by elem
    elem-insert_by n a [] = refl
    elem-insert_by n a (x ∷ xs) = ground (arith, elem-insert_by n a xs)

    pub elem-sorted : (n : A) (xs : List A) → elem n (sorted key xs) ≡ elem n xs
    unfolding sorted elem
    elem-sorted n [] = refl
    elem-sorted n (x ∷ xs) = elem-insert_by n x (sorted key xs) ∙ rw (elem-sorted n xs)

    count-insert_by :
        (n a : A) (xs : List A)
        → count n (insert_by key a xs) ≡ (if a == n then 1 else 0) + count n xs
    unfolding insert_by count
    count-insert_by n a [] = refl
    count-insert_by n a (x ∷ xs) = ground (arith, count-insert_by n a xs)

    pub count-sorted : (n : A) (xs : List A) → count n (sorted key xs) ≡ count n xs
    unfolding sorted count
    count-sorted n [] = refl
    count-sorted n (x ∷ xs) = count-insert_by n x (sorted key xs) ∙ rw (count-sorted n xs)

module _ {A : Type 0} ⦃e : Eq A⦄ where
  -- one more node at the head of one of the lists
  count-yield :
      (n a : A) (yielded taken skipped : List A) (there : Bool)
      → count n taken ≡ (if elem n (a ∷ yielded) then 0 else if there then 1 else 0)
      → count n skipped ≡ (if elem n yielded then 0 else if there then 1 else 0)
      → count n (if not (elem a yielded) then a ∷ taken else skipped)
        ≡ (if elem n yielded then 0 else if a == n || there then 1 else 0)
  count-yield n a yielded taken skipped there p q = ground (
    arith,
    p,
    q,
    count-cons n a taken,
    elem-cons n a yielded,
    λ (h : (a == n) ≡ true). ap (λ x. elem x yielded) ((e.beq_iff a n).0 h),
  )

module _ (dist : NodeId → ℕ) where
  yield-Ascending :
      (low : ℕ) (b : Bool) (a : NodeId) (taken skipped : List NodeId)
      → low ≤ dist a
      → Ascending dist (dist a) taken
      → Ascending dist (dist a) skipped
      → Ascending dist low (if b then a ∷ taken else skipped)
  yield-Ascending low true a taken skipped le p q = (le, p)
  yield-Ascending low false a taken skipped le p q = Ascending-weaken dist low (dist a) skipped le q

  merge_closest-Ascending :
      (low : ℕ) (routing seen yielded : List NodeId)
      → Ascending dist low routing
      → Ascending dist low seen
      → Ascending dist low (merge_closest dist routing seen yielded)
  unfolding merge_closest
  merge_closest-Ascending low [] [] y p q = tt
  merge_closest-Ascending low (r ∷ rs) [] y p q =
      yield-Ascending low (not (elem r y)) r _ _ p.0
        (merge_closest-Ascending (dist r) rs [] (r ∷ y) p.1 tt)
        (merge_closest-Ascending (dist r) rs [] y p.1 tt)
  merge_closest-Ascending low [] (s ∷ ss) y p q =
      yield-Ascending low (not (elem s y)) s _ _ q.0
        (merge_closest-Ascending (dist s) [] ss (s ∷ y) tt q.1)
        (merge_closest-Ascending (dist s) [] ss y tt q.1)
  merge_closest-Ascending low (r ∷ rs) (s ∷ ss) y p q = elim (Bool-cases (ltb (dist r) (dist s))) [
    | inl nearer ↦
        let later : Ascending dist (dist r) (s ∷ ss) = (ground (arith, nearer), q.1) in
        rw nearer (
          yield-Ascending low (not (elem r y)) r _ _ p.0
            (merge_closest-Ascending (dist r) rs (s ∷ ss) (r ∷ y) p.1 later)
            (merge_closest-Ascending (dist r) rs (s ∷ ss) y p.1 later))
    | inr farther ↦
        let later : Ascending dist (dist s) (r ∷ rs) = (ground (arith, farther), p.1) in
        rw farther (
          yield-Ascending low (not (elem s y)) s _ _ q.0
            (merge_closest-Ascending (dist s) (r ∷ rs) ss (s ∷ y) later q.1)
            (merge_closest-Ascending (dist s) (r ∷ rs) ss y later q.1))
  ]

  -- how often a node is yielded
  abbrev once : NodeId → List NodeId → List NodeId → List NodeId → ℕ
  once n routing seen yielded =
      if elem n yielded then 0 else if elem n routing || elem n seen then 1 else 0

  count-merge_closest :
      (n : NodeId) (routing seen yielded : List NodeId)
      → count n (merge_closest dist routing seen yielded) ≡ once n routing seen yielded
  unfolding merge_closest
  count-merge_closest n [] [] y = ground (arith, count-nil n, elem-nil n)
  count-merge_closest n (r ∷ rs) [] y = ground (
    arith,
    count-yield n r y _ _ (elem n rs || elem n []) (count-merge_closest n rs [] (r ∷ y))
        (count-merge_closest n rs [] y),
    elem-cons n r rs,
  )
  count-merge_closest n [] (s ∷ ss) y = ground (
    arith,
    count-yield n s y _ _ (elem n [] || elem n ss) (count-merge_closest n [] ss (s ∷ y))
        (count-merge_closest n [] ss y),
    elem-cons n s ss,
    elem-nil n,
  )
  count-merge_closest n (r ∷ rs) (s ∷ ss) y = elim (Bool-cases (ltb (dist r) (dist s))) [
    | inl nearer ↦ rw nearer (
        ground (
          arith,
          count-yield n r y _ _ (elem n rs || elem n (s ∷ ss))
              (count-merge_closest n rs (s ∷ ss) (r ∷ y)) (count-merge_closest n rs (s ∷ ss) y),
          elem-cons n r rs,
        ))
    | inr farther ↦ rw farther (
        ground (
          arith,
          count-yield n s y _ _ (elem n (r ∷ rs) || elem n ss)
              (count-merge_closest n (r ∷ rs) ss (s ∷ y)) (count-merge_closest n (r ∷ rs) ss y),
          elem-cons n s ss,
        ))
  ]

-- `iter_nodes_around` yields by ascending distance, and every node exactly as often as the
-- buckets hold it.
pub iter_nodes_around-Ascending :
    (t : Table) (reference : NodeId)
    → Ascending (compute_distance reference) 0 (iter_nodes_around t reference)
      × ((n : NodeId) → count n (iter_nodes_around t reference) ≡ count n (chain t.buckets))
unfolding iter_nodes_around iter_closest
iter_nodes_around-Ascending t reference = (
  sorted-Ascending (compute_distance reference) (chain t.buckets),
  λ n. count-sorted (compute_distance reference) n (chain t.buckets),
)

-- `iter_closest_nodes` yields by ascending distance from the target, no node twice, and exactly
-- the nodes of the table's buckets and the nodes given as seen.
pub iter_closest_nodes-Ascending :
    (target : NodeId) (t : Table) (seen : List NodeId)
    → Ascending (compute_distance target) 0 (iter_closest_nodes target t seen)
      × ((n : NodeId)
          → count n (iter_closest_nodes target t seen)
            ≡ (if elem n (chain t.buckets) || elem n seen then 1 else 0))
unfolding iter_closest_nodes iter_nodes_around iter_closest
iter_closest_nodes-Ascending target t seen = (
  merge_closest-Ascending dist 0 around given [] (sorted-Ascending dist (chain t.buckets))
      (sorted-Ascending dist seen),
  λ n. ground (
    arith,
    count-merge_closest dist n around given [],
    elem-nil n,
    elem-sorted dist n (chain t.buckets),
    elem-sorted dist n seen,
  ),
)
  where
    dist : NodeId → ℕ
    dist = compute_distance target

    around : List NodeId
    around = sorted dist (chain t.buckets)

    given : List NodeId
    given = sorted dist seen
