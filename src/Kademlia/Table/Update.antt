-- ===== src/Kademlia/Table/Update.antt =====
-- `update` and `remove` of `KademliaRoutingTable`, ddht/kademlia.py.
use mathlib.Core.Logic.{◌⊎◌}
use ddht.Prelude.{
  ℕ, ◌+◌, ◌<◌, ◌≡◌, refl, sym, ◌≢◌, inl, inr, Bool-cases, true, false, ◌||◌, ◌&&◌, ◌-◌, Bool,
  Option, none, some, List, ◌∷◌, arith, ltb, if◌then◌else◌, ◌==◌, nat_eq, ==_ne, ==_refl, length,
  get_last?, elem, remove, count, count-cons, count-remove, count_self, elem-cons, ◌∙◌, ap,
  get_last?-of_pos,
}
use ddht.Prelude.Bytes.{bytes_eq}
use ddht.Kademlia.Distance.{NodeId, IsNodeId, ok}
use ddht.Kademlia.Table.Deques.{
  IsSlot, is_nil, take_out, move_to_top-IsSlot, add_replacement-IsSlot, take_out-IsSlot,
  count-take_out, take_out-nil, length-take_out-bucket, appendleft-room, move_to_top-room,
}
use ddht.Kademlia.Table.Invariant.{
  IsValid, Found, BelongsAt, write-IsValid, get_index_Found, get_index-write,
}
use ddht.Kademlia.Table.{
  Table, Slot, get_index_bucket_and_replacement_cache, move_to_top, add_replacement, remove_from,
  update, update_slot, update_bucket_unchecked, remove_node, contains, appendleft, not,
}

module _ (t : Table) (n : NodeId) (slot : Slot) (v : IsValid t) (f : Found t n slot) where
  here :
      IsSlot
        (BelongsAt t.center_node_id slot.index)
        t.bucket_size
        slot.bucket
        slot.replacement_cache
        (count slot.index t.bucket_update_order)
  here = v.slots slot.index slot.bucket slot.replacement_cache f.bucket_at f.cache_at

  move_to_top-IsValid :
      (length slot.bucket < t.bucket_size) ⊎ (elem n slot.bucket ≡ true)
      → IsValid (move_to_top t n slot)
  unfolding move_to_top
  move_to_top-IsValid room =
      write-IsValid t slot.index _ _ (slot.index ∷ remove slot.index t.bucket_update_order) v
        f.in_range
        (rw listed (move_to_top-IsSlot n slot.bucket slot.replacement_cache here f.belongs room))
        (λ j ne. ground (
          arith,
          count-cons j slot.index (remove slot.index t.bucket_update_order),
          count-remove slot.index j t.bucket_update_order,
          ==_ne slot.index j ne,
        ))
    where
      listed : count slot.index (slot.index ∷ remove slot.index t.bucket_update_order) ≡ 1
      listed = ground (
        arith,
        count_self slot.index (remove slot.index t.bucket_update_order),
        count-remove slot.index slot.index t.bucket_update_order,
        here.in_order,
        ==_refl slot.index,
      )

  add_replacement-IsValid :
      length slot.bucket ≡ t.bucket_size
      → elem n slot.bucket ≡ false
      → IsValid (add_replacement t n slot)
  unfolding add_replacement
  add_replacement-IsValid full absent =
      write-IsValid t slot.index _ _ t.bucket_update_order v f.in_range
        (add_replacement-IsSlot n slot.bucket slot.replacement_cache here f.belongs full absent)
        (λ j ne. refl)

  remove_from-IsValid : IsValid (remove_from t n slot)
  unfolding remove_from
  remove_from-IsValid =
      write-IsValid t slot.index out.0 out.1 order v f.in_range
        (take_out-IsSlot n slot.bucket slot.replacement_cache (count slot.index order) here (
          ground (
            arith,
            count-remove slot.index slot.index t.bucket_update_order,
            here.in_order,
            ==_refl slot.index,
            take_out-nil t.bucket_size n slot.bucket slot.replacement_cache,
          )))
        (λ j ne.
          ground (arith, count-remove slot.index j t.bucket_update_order, ==_ne slot.index j ne))
    where
      out : List NodeId × List NodeId
      out = take_out t.bucket_size n slot.bucket slot.replacement_cache

      order : List ℕ
      order =
          if is_nil out.0 then remove slot.index t.bucket_update_order else t.bucket_update_order

module _ (t : Table) (n : NodeId) (v : IsValid t) (c : IsNodeId t.center_node_id) (p : IsNodeId n)
    (ne : t.center_node_id ≢ n) where
  -- In a valid table `remove` returns a valid table, for every node id but the center. In the
  -- slot of the node, the node is then neither in the bucket nor in the replacement cache, every
  -- other node is there as often as before, and the bucket has shrunk by one only if it held the
  -- node and there was no replacement.
  pub remove_node-IsValid :
      (slot after : Slot) × (t' : Table) × (get_index_bucket_and_replacement_cache t n ≡ ok slot)
      × (remove_node t n ≡ ok t')
      × IsValid t'
      × (get_index_bucket_and_replacement_cache t' n ≡ ok after)
      × ((m : NodeId)
          → count m after.bucket + count m after.replacement_cache
            ≡ (if n == m then 0 else count m slot.bucket + count m slot.replacement_cache))
      × (length after.bucket ≡ (
          if elem n slot.bucket && is_nil slot.replacement_cache
          then length slot.bucket - 1
          else length slot.bucket))
  unfolding remove_node remove_from
  remove_node-IsValid =
      let (slot, e, f) = get_index_Found t n v c p ne in
      let s = here t n slot v f in
      (
        slot,
        _,
        remove_from t n slot,
        e,
        rw e,
        remove_from-IsValid t n slot v f,
        get_index-write t n slot _ _ _ v f,
        count-take_out n slot.bucket slot.replacement_cache s,
        length-take_out-bucket n slot.bucket slot.replacement_cache s,
      )

  abbrev pub stays : Slot → Bool
  stays slot = elem n slot.bucket || ltb (length slot.bucket) t.bucket_size

  update-eq :
      (slot : Slot)
      → get_index_bucket_and_replacement_cache t n ≡ ok slot
      → update t n ≡ update_slot t n slot
  unfolding update
  update-eq slot e = rw (==_ne n t.center_node_id (λ h. ne (sym h)), e)

  update_slot-stays :
      (slot : Slot)
      → get_index_bucket_and_replacement_cache t n ≡ ok slot
      → stays slot ≡ true
      → update_slot t n slot ≡ ok (move_to_top t n slot, none)
  unfolding update_slot update_bucket_unchecked
  update_slot-stays slot e h = ground (arith, e, h)

  update_slot-full :
      (slot : Slot) (candidate : NodeId)
      → stays slot ≡ false
      → get_last? slot.bucket ≡ some candidate
      → update_slot t n slot ≡ ok (add_replacement t n slot, some candidate)
  unfolding update_slot
  update_slot-full slot candidate h last = ground (arith, h, last)

  contains-of_slot :
      (t' : Table) (after : Slot) (caches : Bool)
      → get_index_bucket_and_replacement_cache t' n ≡ ok after
      → contains t' n caches
        ≡ ok (
            if caches
            then elem n after.bucket || elem n after.replacement_cache
            else elem n after.bucket)
  unfolding contains
  contains-of_slot t' after caches e = rw e

  -- what `update` leaves: the node is in the table, and in the bucket exactly if it was there or
  -- there was room
  abbrev pub Updated : Slot → Table → Option NodeId → Type 0
  Updated slot t' candidate =
      IsValid t'
      × (contains t' n true ≡ ok true)
      × (contains t' n false ≡ ok (stays slot))
      × (candidate ≡ (if stays slot then none else get_last? slot.bucket))

  room-cases :
      (slot : Slot)
      → stays slot ≡ true
      → (length slot.bucket < t.bucket_size) ⊎ (elem n slot.bucket ≡ true)
  room-cases slot h = elim (Bool-cases (elem n slot.bucket)) [
    | inl there ↦ inr there
    | inr absent ↦ inl (ground (arith, h, absent))
  ]

  Updated-stays :
      (slot : Slot) → Found t n slot → stays slot ≡ true → Updated slot (move_to_top t n slot) none
  Updated-stays slot f h = (
    move_to_top-IsValid t n slot v f (room-cases slot h),
    contains-of_slot (move_to_top t n slot) after true found ∙ ap ok (rw on_top),
    contains-of_slot (move_to_top t n slot) after false found ∙ ap ok (on_top ∙ sym h),
    rw h,
  )
    where
      after : Slot
      after = record {
        index = slot.index;
        bucket = appendleft t.bucket_size n (remove n slot.bucket);
        replacement_cache = remove n slot.replacement_cache;
      }

      found : get_index_bucket_and_replacement_cache (move_to_top t n slot) n ≡ ok after
      found = unfold move_to_top in get_index-write t n slot _ _ _ v f

      on_top : elem n after.bucket ≡ true
      on_top =
          rw
            (appendleft-room t.bucket_size n (remove n slot.bucket) (
              move_to_top-room n slot.bucket slot.replacement_cache (here t n slot v f)
                (room-cases slot h)))
            (elem-cons n n (remove n slot.bucket) ∙ rw (==_refl n))

  Updated-full :
      (slot : Slot) (candidate : NodeId)
      → Found t n slot
      → stays slot ≡ false
      → get_last? slot.bucket ≡ some candidate
      → Updated slot (add_replacement t n slot) (some candidate)
  Updated-full slot candidate f h last = (
    add_replacement-IsValid t n slot v f (ground (arith, h, (here t n slot v f).fits)) absent,
    contains-of_slot (add_replacement t n slot) after true found
        ∙ ap ok (rw (absent, elem-cons, ==_refl n)),
    contains-of_slot (add_replacement t n slot) after false found ∙ ap ok (absent ∙ sym h),
    rw h (sym last),
  )
    where
      cache : List NodeId
      cache =
          if not (elem n slot.replacement_cache)
          then slot.replacement_cache
          else remove n slot.replacement_cache

      after : Slot
      after = record { index = slot.index; bucket = slot.bucket; replacement_cache = n ∷ cache }

      absent : elem n slot.bucket ≡ false
      absent = ground (arith, h)

      found : get_index_bucket_and_replacement_cache (add_replacement t n slot) n ≡ ok after
      found = unfold add_replacement in get_index-write t n slot _ _ _ v f

  -- In a valid table with a positive bucket size, `update` of a node id other than the center
  -- returns a valid table that contains the node. The node is in its bucket exactly if it was
  -- there before or there was room, and no eviction candidate is returned then; otherwise it is
  -- in the replacement cache, and the candidate is the oldest node of the bucket.
  pub update-IsValid :
      0 < t.bucket_size
      → (slot : Slot) × (t' : Table) × (candidate : Option NodeId)
        × (get_index_bucket_and_replacement_cache t n ≡ ok slot)
        × (update t n ≡ ok (t', candidate))
        × Updated slot t' candidate
  update-IsValid positive =
      let (slot, e, f) = get_index_Found t n v c p ne in
      elim (Bool-cases (stays slot)) [
        | inl room ↦ (
          slot,
          move_to_top t n slot,
          none,
          e,
          update-eq slot e ∙ update_slot-stays slot e room,
          Updated-stays slot f room,
        )
        | inr full ↦
            let (candidate, last) = get_last?-of_pos slot.bucket (ground (arith, full)) in
            (
              slot,
              add_replacement t n slot,
              some candidate,
              e,
              update-eq slot e ∙ update_slot-full slot candidate full last,
              Updated-full slot candidate f full last,
            )
      ]
