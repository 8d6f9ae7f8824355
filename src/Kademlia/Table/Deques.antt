-- ===== src/Kademlia/Table/Deques.antt =====
-- One bucket with its replacement cache, and what its three mutations keep true. `Belongs` says
-- which nodes the bucket is for.
use mathlib.Core.Logic.{◌⊎◌}
use mathlib.Core.Path.{subst}
use ddht.Prelude.{
  Bool-cases, inl, inr, not, ℕ, ◌+◌, ◌-◌, ◌≤◌, ◌<◌, ◌≡◌, refl, Bool, true, false, List, [], ◌∷◌,
  ◌++◌, arith, ◌&&◌, if◌then◌else◌, ◌==◌, length, take, drop, elem, remove, count,
  take_of_length-le, length-append, count-append, count-remove, count-cons, count-nil,
  length-remove, elem-length, elem-count, count-elem, Eq,
}

abbrev pub is_nil {ℓ} : {A : Type ℓ} → List A → Bool
is_nil [] = true
is_nil (x ∷ xs) = false

-- `appendleft` and `append` on a deque with a `maxlen` drop from the other end
abbrev pub appendleft {ℓ} : {A : Type ℓ} → ℕ → A → List A → List A
appendleft maxlen a l = take maxlen (a ∷ l)

abbrev pub append {ℓ} : {A : Type ℓ} → ℕ → A → List A → List A
append maxlen a l = drop (length l + 1 - maxlen) (l ++ a ∷ [])

-- `bucket.remove(n)`, and the newest replacement in its place
unfoldable pub replace {ℓ} : {A : Type ℓ} ⦃e : Eq A⦄ → ℕ → A → List A → List A → List A × List A
replace maxlen n bucket [] = (remove n bucket, [])
replace maxlen n bucket (newest ∷ cache) = (append maxlen newest (remove n bucket), cache)

-- the bucket and the cache without the node
unfoldable pub take_out {ℓ} : {A : Type ℓ} ⦃e : Eq A⦄ → ℕ → A → List A → List A → List A × List A
take_out maxlen n bucket cache =
    let in_replacement_cache = elem n cache in
    let (b, c) = if elem n bucket then replace maxlen n bucket cache else (bucket, cache) in
    (b, if in_replacement_cache then remove n c else c)

-- a bucket, its replacement cache, and how often the update order lists the bucket
pub record IsSlot {A : Type 0} ⦃e : Eq A⦄ (Belongs : A → Type 0) (size : ℕ) (bucket cache : List A)
    (listed : ℕ) : Type 0 where
  pub fits : length bucket ≤ size
  -- no node is there twice, nor in the bucket and in the cache
  pub distinct : (n : A) → count n bucket + count n cache ≤ 1
  pub placed : (n : A) → 0 < count n bucket + count n cache → Belongs n
  -- only a full bucket has replacements
  pub standby : 0 < length cache → length bucket ≡ size
  pub in_order : listed ≡ (if is_nil bucket then 0 else 1)

pub appendleft-room :
    {A : Type 0} (maxlen : ℕ) (a : A) (l : List A)
    → length l < maxlen
    → appendleft maxlen a l ≡ a ∷ l
appendleft-room maxlen a l h = take_of_length-le maxlen (a ∷ l) h

pub append-room :
    {A : Type 0} (maxlen : ℕ) (a : A) (l : List A)
    → length l < maxlen
    → append maxlen a l ≡ l ++ a ∷ []
unfolding drop
append-room maxlen a l h = let e : length l + 1 - maxlen ≡ 0 = omega arith in rw e

module _ {A : Type 0} ⦃e : Eq A⦄ (size : ℕ) (n : A) where
  -- the three ways in which the node leaves: it is not in the bucket, it is in a bucket with no
  -- replacement, the newest replacement takes its place
  take_out-absent :
      (bucket cache : List A)
      → elem n bucket ≡ false
      → take_out size n bucket cache ≡ (bucket, if elem n cache then remove n cache else cache)
  unfolding take_out
  take_out-absent bucket cache h = rw h

  pub take_out-nil :
      (bucket cache : List A)
      → is_nil bucket ≡ true
      → is_nil (take_out size n bucket cache).0 ≡ true
  unfolding take_out elem
  take_out-nil [] cache h = refl
  take_out-nil (x ∷ bucket) cache h = cc

  take_out-last :
      (bucket : List A) → elem n bucket ≡ true → take_out size n bucket [] ≡ (remove n bucket, [])
  unfolding take_out replace elem
  take_out-last bucket h = rw h

module _ {A : Type 0} ⦃e : Eq A⦄ {Belongs : A → Type 0} {size listed : ℕ} (n : A) where
  pub move_to_top-room :
      (bucket cache : List A)
      → IsSlot Belongs size bucket cache listed
      → (length bucket < size) ⊎ (elem n bucket ≡ true)
      → length (remove n bucket) < size
  move_to_top-room bucket cache s room =
      ground (arith, length-remove n bucket, elem-length n bucket, s.fits, room)

  -- the node leaves the bucket and the cache, and joins the top of the bucket
  pub move_to_top-IsSlot :
      (bucket cache : List A)
      → IsSlot Belongs size bucket cache listed
      → Belongs n
      → (length bucket < size) ⊎ (elem n bucket ≡ true)
      → IsSlot Belongs size (appendleft size n (remove n bucket)) (remove n cache) 1
  move_to_top-IsSlot bucket cache s p room =
      rw (appendleft-room size n (remove n bucket) fits) (record {
        fits = fits;
        distinct = λ m. ground (
          arith,
          count-cons m n (remove n bucket),
          count-remove n m bucket,
          count-remove n m cache,
          s.distinct m,
        );
        placed = λ m h. elim (Bool-cases (n == m)) [
          | inl same ↦ subst Belongs ((e.beq_iff n m).0 same) p
          | inr other ↦ s.placed m (ground (arith, h, counts m))
        ];
        standby = λ h.
            ground (
              arith,
              length-remove n bucket,
              length-remove n cache,
              elem-length n bucket,
              s.standby,
            );
        in_order = refl;
      })
    where
      fits : length (remove n bucket) < size
      fits = move_to_top-room bucket cache s room

      counts :
          (m : A)
          → count m (n ∷ remove n bucket) + count m (remove n cache)
            ≡ (if n == m then 1 else 0)
              + (count m bucket - (if n == m then 1 else 0))
              + (count m cache - (if n == m then 1 else 0))
      counts m =
          omega (
            arith,
            count-cons m n (remove n bucket),
            count-remove n m bucket,
            count-remove n m cache,
          )

  -- the node goes to the front of the cache of a full bucket
  pub add_replacement-IsSlot :
      (bucket cache : List A)
      → IsSlot Belongs size bucket cache listed
      → Belongs n
      → length bucket ≡ size
      → elem n bucket ≡ false
      → IsSlot Belongs size bucket
          (n ∷ (if not (elem n cache) then cache else remove n cache))
          listed
  add_replacement-IsSlot bucket cache s p full absent = record {
    fits = s.fits;
    distinct = λ m. elim (Bool-cases (n == m)) [
      | inl same ↦ ground (arith, counts m, s.distinct m, e.beq_iff n m, count-elem n bucket)
      | inr other ↦ ground (arith, counts m, s.distinct m)
    ];
    placed = λ m h. elim (Bool-cases (n == m)) [
      | inl same ↦ subst Belongs ((e.beq_iff n m).0 same) p
      | inr other ↦ s.placed m (ground (arith, h, counts m))
    ];
    standby = λ h. full;
    in_order = s.in_order;
  }
    where
      rest : List A
      rest = if not (elem n cache) then cache else remove n cache

      counts :
          (m : A)
          → count m (n ∷ rest)
            ≡ (if n == m then 1 else 0) + (count m cache - (if n == m then 1 else 0))
      counts m =
          ground
            (arith, count-cons m n rest, count-remove n m cache, count-elem n cache, e.beq_iff n m)

  take_out-swap :
      (bucket cache : List A) (newest : A)
      → IsSlot Belongs size bucket (newest ∷ cache) listed
      → elem n bucket ≡ true
      → take_out size n bucket (newest ∷ cache) ≡ (remove n bucket ++ newest ∷ [], cache)
  unfolding take_out replace
  take_out-swap bucket cache newest s h =
      rw (h, not_in_cache, append-room size newest (remove n bucket) room)
    where
      not_in_cache : elem n (newest ∷ cache) ≡ false
      not_in_cache = elim (Bool-cases (elem n (newest ∷ cache))) [
        | inl there ↦ absurd (
            omega (arith, elem-count n bucket h, elem-count n (newest ∷ cache) there, s.distinct n))
        | inr absent ↦ absent
      ]

      room : length (remove n bucket) < size
      room = ground (arith, length-remove n bucket, elem-length n bucket, s.fits, h)

  -- the other nodes stay where they were, in the bucket or in the cache, and `n` is gone
  pub count-take_out :
      (bucket cache : List A)
      → IsSlot Belongs size bucket cache listed
      → (m : A)
      → count m (take_out size n bucket cache).0 + count m (take_out size n bucket cache).1
        ≡ (if n == m then 0 else count m bucket + count m cache)
  count-take_out bucket cache s m = elim (Bool-cases (elem n bucket)) [
    | inl there ↦ in_bucket cache s there
    | inr absent ↦ rw (take_out-absent size n bucket cache absent) (
        ground (
          arith,
          count-remove n m cache,
          count-elem n cache,
          count-elem n bucket absent,
          e.beq_iff n m,
          s.distinct m,
        ))
  ]
    where
      in_bucket :
          (c : List A)
          → IsSlot Belongs size bucket c listed
          → elem n bucket ≡ true
          → count m (take_out size n bucket c).0 + count m (take_out size n bucket c).1
            ≡ (if n == m then 0 else count m bucket + count m c)
      in_bucket [] s h =
          rw (take_out-last size n bucket h)
            (ground (arith, count-remove n m bucket, count-nil m, e.beq_iff n m, s.distinct m))
      in_bucket (newest ∷ c) s h = rw (take_out-swap bucket c newest s h) (
          ground (
            arith,
            count-append m (remove n bucket) (newest ∷ []),
            count-cons m newest [],
            count-cons m newest c,
            count-nil m,
            count-remove n m bucket,
            elem-count n bucket h,
            e.beq_iff n m,
            s.distinct m,
          ))

  length-take_out :
      (bucket cache : List A)
      → IsSlot Belongs size bucket cache listed
      → (length (take_out size n bucket cache).0 ≤ size)
        × (0 < length (take_out size n bucket cache).1
            → length (take_out size n bucket cache).0 ≡ size)
  length-take_out bucket cache s = elim (Bool-cases (elem n bucket)) [
    | inl there ↦ in_bucket cache s there
    | inr absent ↦
        rw (take_out-absent size n bucket cache absent)
          (s.fits, λ h. ground (arith, h, length-remove n cache, s.standby))
  ]
    where
      in_bucket :
          (c : List A)
          → IsSlot Belongs size bucket c listed
          → elem n bucket ≡ true
          → (length (take_out size n bucket c).0 ≤ size)
            × (0 < length (take_out size n bucket c).1 → length (take_out size n bucket c).0 ≡ size)
      in_bucket [] s h =
          rw (take_out-last size n bucket h)
            (ground (arith, length-remove n bucket, s.fits), λ p. elim p [ ])
      in_bucket (newest ∷ c) s h = rw (take_out-swap bucket c newest s h) (
          let whole : length (remove n bucket ++ newest ∷ []) ≡ size = ground (
            arith,
            length-append (remove n bucket) (newest ∷ []),
            length-remove n bucket,
            elem-length n bucket h,
            h,
            s.standby (omega arith),
          ) in
          (omega arith, λ p. whole))

  -- the bucket shrinks only if it had the node and there is no replacement
  pub length-take_out-bucket :
      (bucket cache : List A)
      → IsSlot Belongs size bucket cache listed
      → length (take_out size n bucket cache).0
        ≡ (if elem n bucket && is_nil cache then length bucket - 1 else length bucket)
  length-take_out-bucket bucket cache s = elim (Bool-cases (elem n bucket)) [
    | inl there ↦ in_bucket cache s there
    | inr absent ↦ rw (take_out-absent size n bucket cache absent, absent)
  ]
    where
      in_bucket :
          (c : List A)
          → IsSlot Belongs size bucket c listed
          → elem n bucket ≡ true
          → length (take_out size n bucket c).0
            ≡ (if elem n bucket && is_nil c then length bucket - 1 else length bucket)
      in_bucket [] s h =
          rw (take_out-last size n bucket h) (ground (arith, length-remove n bucket, h))
      in_bucket (newest ∷ c) s h = rw (take_out-swap bucket c newest s h) (
          ground (
            arith,
            length-append (remove n bucket) (newest ∷ []),
            length-remove n bucket,
            elem-length n bucket h,
            h,
          ))

  -- the node leaves the slot
  pub take_out-IsSlot :
      (bucket cache : List A) (listed' : ℕ)
      → IsSlot Belongs size bucket cache listed
      → listed' ≡ (if is_nil (take_out size n bucket cache).0 then 0 else 1)
      → IsSlot Belongs size
          (take_out size n bucket cache).0
          (take_out size n bucket cache).1
          listed'
  take_out-IsSlot bucket cache listed' s order = record {
    fits = (length-take_out bucket cache s).0;
    distinct = λ m. ground (arith, count-take_out bucket cache s m, s.distinct m);
    placed = λ m h. s.placed m (ground (arith, count-take_out bucket cache s m, h));
    standby = (length-take_out bucket cache s).1;
    in_order = order;
  }
