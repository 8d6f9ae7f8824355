-- ===== src/RequestTracker/Blocks.antt =====
-- The blocks of `reserve_request_id` of ddht/request_tracker.py.
use ddht.Prelude.{◌≡◌, arith, false, List, [], ◌∷◌, elem, remove, ◌≢◌}
use ddht.Prelude.Tests.{==_refl, list_eq, nat_eq}
use ddht.Prelude.Bytes.{Bytes}
use ddht.Prelude.Outcomes.{ok, raise}
use ddht.RequestTracker.{
  key_error, Key, key_eq, Reserved, is_request_id_active, enter, leave, Step, enters, leaves,
}

-- the steps are those of other requests
abbrev pub AllOther : Key → List Step → Type 0
AllOther key [] = Unit
AllOther key (enters other ∷ xs) = (other ≢ key) × AllOther key xs
AllOther key (leaves other ∷ xs) = (other ≢ key) × AllOther key xs

-- A caller's own id can be reserved a second time. The first block that is left takes it from the set, so that it is inactive within the other; leaving that block raises a KeyError.
leave-twice :
    (s : Reserved) (node_id request_id : Bytes)
    → is_request_id_active s node_id request_id ≡ false
    → (left : Reserved) × (leave
          (enter (enter s node_id request_id) node_id request_id)
          node_id
          request_id
        ≡ ok left)
      × (is_request_id_active left node_id request_id ≡ false)
      × (leave left node_id request_id ≡ raise key_error)
unfolding enter leave is_request_id_active remove elem
leave-twice s node_id request_id h =
    (s, ground (arith, h, ==_refl request_id, ==_refl node_id), h, ground (arith, h))
