-- ===== src/ResourceQueue/Reserve.antt =====
-- The loop of `reserve` of ddht/resource_queue.py.
use ddht.ResourceQueue.{State, take_last, reserve}
use ddht.Prelude.{
  ℕ, ◌+◌, ◌≤◌, ◌<◌, arith, zero, suc, ◌≡◌, true, false, Option, none, some, List, [], ◌∷◌,
  if◌then◌else◌, elem, get_last?, drop_last, count, length, ◌==◌, ◌-◌, refl, get_last?-of_pos,
  Option-cases, Bool-cases, inl, inr, count-get_last?, ap,
}
use ddht.Prelude.Tests.{Eq}

module _ {Resource : Type 0} ⦃e : Eq Resource⦄ where
  count-length : (x : Resource) (xs : List Resource) → count x xs ≤ length xs
  unfolding count
  count-length x [] = omega arith
  count-length x (y ∷ ys) = ground (arith, count-length x ys)

  length-drop_last : (xs : List Resource) → length (drop_last xs) ≡ length xs - 1
  unfolding drop_last
  length-drop_last [] = refl
  length-drop_last (x ∷ []) = refl
  length-drop_last (x ∷ y ∷ r) = omega (arith, length-drop_last (y ∷ r))

  pub count-drop_last :
      (x last : Resource) (xs : List Resource)
      → get_last? xs ≡ some last
      → count x xs ≡ count x (drop_last xs) + (if last == x then 1 else 0)
  unfolding drop_last get_last? count
  count-drop_last x last [] h = cc
  count-drop_last x last (y ∷ []) h = ground arith
  count-drop_last x last (y ∷ z ∷ r) h = omega (arith, count-drop_last x last (z ∷ r) h)

  pub take_last-tracked :
      (s : State Resource) (r : Resource)
      → get_last? s.queue ≡ some r
      → elem r s.resources ≡ true
      → take_last s ≡ (some r, record s { queue = drop_last s.queue; held = r ∷ s.held })
  unfolding take_last
  take_last-tracked s r h t = ground (arith, h, t)

  pub take_last-stale :
      (s : State Resource) (r : Resource)
      → get_last? s.queue ≡ some r
      → elem r s.resources ≡ false
      → take_last s ≡ (none, record s { queue = drop_last s.queue })
  unfolding take_last
  take_last-stale s r h t = ground (arith, h, t)

  pub take_last-empty : (s : State Resource) → get_last? s.queue ≡ none → take_last s ≡ (none, s)
  unfolding take_last
  take_last-empty s h = ground (arith, h)

  reserve-continue :
      (rounds : ℕ) (s after : State Resource)
      → take_last s ≡ (none, after)
      → reserve (suc rounds) s ≡ reserve rounds after
  unfolding reserve
  reserve-continue rounds s after h =
      rw (reserve, h) (ap (λ (p : Option Resource × State Resource). reserve rounds p.1) h)

  reserve-break :
      (rounds : ℕ) (s after : State Resource) (r : Resource)
      → take_last s ≡ (some r, after)
      → reserve (suc rounds) s ≡ (some r, after)
  unfolding reserve
  reserve-break rounds s after r h =
      rw (reserve, h) (ap (λ (p : Option Resource × State Resource). (some r, p.1)) h)

  -- what a loop that ends leaves
  pub record Reserved (s after : State Resource) (resource : Resource) : Type 0 where
    pub tracked : elem resource s.resources ≡ true
    pub same_resources : after.resources ≡ s.resources
    pub held_now : after.held ≡ resource ∷ s.held
    pub taken :
        (x : Resource) → count x after.queue + (if resource == x then 1 else 0) ≤ count x s.queue

  abbrev pub Ends : State Resource → Option Resource × State Resource → Type 0
  Ends s outcome = (r : Resource) × (outcome.0 ≡ some r) × Reserved s outcome.1 r

  -- With a tracked resource in the queue, the loop of `reserve` ends after at most as many rounds as the queue is long: it yields a tracked resource, which leaves the queue, and adds nothing to it.
  pub reserve-Ends :
      (rounds : ℕ) (s : State Resource) (good : Resource)
      → elem good s.resources ≡ true
      → 0 < count good s.queue
      → length s.queue ≤ rounds
      → Ends s (reserve rounds s)
  reserve-Ends zero s good tracked here enough = absurd (ground (arith, count-length good s.queue))
  reserve-Ends (suc rounds) s good tracked here enough =
      let (r, last) = get_last?-of_pos s.queue (omega (arith, count-length good s.queue)) in
      elim (Bool-cases (elem r s.resources)) [
        | inl is ↦ rw (reserve-break rounds s _ r (take_last-tracked s r last is)) (
          r,
          refl,
          record {
            tracked = is;
            same_resources = refl;
            held_now = refl;
            taken = λ x. omega (arith, count-drop_last x r s.queue last);
          },
        )
        | inr stale ↦
            let after = record s { queue = drop_last s.queue } in
            let (q, got, rest) =
              reserve-Ends rounds after good tracked
                (ground (arith, count-drop_last good r s.queue last, e.beq_iff r good))
                (omega (arith, length-drop_last s.queue)) in
            rw (reserve-continue rounds s after (take_last-stale s r last stale)) (
              q,
              got,
              record {
                tracked = rest.tracked;
                same_resources = rest.same_resources;
                held_now = rest.held_now;
                taken = λ x. ground (arith, count-drop_last x r s.queue last, rest.taken x);
              },
            )
      ]

  -- While no resource of the queue is tracked, the loop of `reserve` goes on, however many rounds it makes.
  reserve-waits :
      (rounds : ℕ) (s : State Resource)
      → ((x : Resource) → elem x s.resources ≡ true → count x s.queue ≡ 0)
      → (reserve rounds s).0 ≡ none
  unfolding reserve
  reserve-waits zero s none_there = refl
  reserve-waits (suc rounds) s none_there = elim (Option-cases (get_last? s.queue)) [
    | inl empty ↦
        rw (reserve-continue rounds s s (take_last-empty s empty))
          (reserve-waits rounds s none_there)
    | inr (r, last) ↦
        let stale : elem r s.resources ≡ false =
          ground (arith, none_there r, count-get_last? r s.queue last) in
        let after = record s { queue = drop_last s.queue } in
        rw (reserve-continue rounds s after (take_last-stale s r last stale)) (
          reserve-waits rounds after
            (λ x t. ground (arith, none_there x t, count-drop_last x r s.queue last)))
  ]
