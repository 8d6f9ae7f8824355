-- ===== src/FlatTable/Entries.antt =====
-- What a flat routing table holds.
use ddht.FlatTable.{ok, add, remove_entry, add_or_update}
use ddht.Kademlia.Distance.{NodeId}
use ddht.Prelude.Bytes.{bytes_eq}
use ddht.Prelude.{
  ◌≤◌, ◌≡◌, refl, Bool-cases, inl, inr, List, [], ◌∷◌, ◌==◌, elem, remove, count, keep_if, not,
  Bool, elem-count, arith, false, Eq,
}

-- no entry twice
abbrev pub IsDistinct : List NodeId → Type 0
IsDistinct entries = (n : NodeId) → count n entries ≤ 1

absent-count : (n : NodeId) (entries : List NodeId) → elem n entries ≡ false → count n entries ≡ 0
unfolding elem count
absent-count n [] h = refl
absent-count n (x ∷ xs) h = ground (arith, h, absent-count n xs)

count-absent : (n : NodeId) (entries : List NodeId) → count n entries ≡ 0 → elem n entries ≡ false
count-absent n entries h = ground (arith, h, elem-count n entries)

module _ {A : Type 0} ⦃e : Eq A⦄ where
  keep_if-others : (n : A) (xs : List A) → elem n xs ≡ false → keep_if (λ m. not (n == m)) xs ≡ xs
  unfolding elem
  keep_if-others n [] h = refl
  keep_if-others n (x ∷ xs) h = ground (arith, h, keep_if-others n xs, e.beq_iff n x, e.beq_iff x n)

  elem-keep_if_others : (n : A) (xs : List A) → elem n (keep_if (λ m. not (n == m)) xs) ≡ false
  unfolding elem
  elem-keep_if_others n [] = refl
  elem-keep_if_others n (x ∷ xs) =
      ground (arith, elem-keep_if_others n xs, e.beq_iff n x, e.beq_iff x n)

  count-keep_if : (p : A → Bool) (m : A) (xs : List A) → count m (keep_if p xs) ≤ count m xs
  unfolding count
  count-keep_if p m [] = omega arith
  count-keep_if p m (x ∷ xs) = ground (arith, count-keep_if p m xs)

  remove-keep_if :
      (n : A) (xs : List A) → count n xs ≤ 1 → remove n xs ≡ keep_if (λ m. not (n == m)) xs
  unfolding remove count
  remove-keep_if n [] d = refl
  remove-keep_if n (x ∷ xs) d = elim (Bool-cases (x == n)) [
    | inl here ↦
        let gone : elem n xs ≡ false = ground (arith, d, here, elem-count n xs) in
        ground (arith, here, keep_if-others n xs gone, e.beq_iff n x, e.beq_iff x n)
    | inr on ↦ ground (arith, on, d, remove-keep_if n xs, e.beq_iff n x, e.beq_iff x n)
  ]

-- Where no entry is there twice, `add_or_update` returns the node, and after it all other entries in
-- the order in which they were, so that no entry is there twice.
pub add_or_update-IsDistinct :
    (entries : List NodeId) (n : NodeId)
    → IsDistinct entries
    → (add_or_update entries n ≡ ok (n ∷ keep_if (λ m. not (n == m)) entries))
      × IsDistinct (n ∷ keep_if (λ m. not (n == m)) entries)
unfolding add_or_update remove_entry add count
add_or_update-IsDistinct entries n d =
    let others = keep_if (λ m. not (n == m)) entries in
    let absent : elem n others ≡ false = elem-keep_if_others n entries in
    (
      elim (Bool-cases (elem n entries)) [
        | inl there ↦ rw (there, remove-keep_if n entries (d n), absent) refl
        | inr new ↦ rw (new, new, keep_if-others n entries new) refl
      ],
      λ m. ground (
        arith,
        d m,
        count-keep_if (λ x. not (n == x)) m entries,
        absent-count n others absent,
        bytes_eq.beq_iff n m,
      ),
    )
