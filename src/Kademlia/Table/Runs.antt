-- ===== src/Kademlia/Table/Runs.antt =====
-- Runs of the mutating methods, over all branches and exceptions.
use mathlib.Core.Path.{subst}
use ddht.Prelude.{
  ℕ, ◌<◌, ◌≡◌, sym, Bool-cases, inl, inr, ◌==◌, Option, List, [], ◌∷◌, arith, ◌∙◌, refl,
}
use ddht.Prelude.Bytes.{bytes_eq}
use ddht.Kademlia.Distance.{NodeId, IsNodeId, ok, raise, compute_log_distance}
use ddht.Kademlia.Table.{
  Table, init, update, update_slot, update_bucket_unchecked, move_to_top, add_replacement,
  remove_node, remove_from, get_index_bucket_and_replacement_cache,
}
use ddht.Kademlia.Table.Invariant.{IsValid, init-IsValid}
use ddht.Kademlia.Table.Update.{update-IsValid, remove_node-IsValid}

-- a run of the mutating methods; an exception ends its own call
pub data Call : Type 0 where
  updates removes : NodeId → Call

abbrev pub node : Call → NodeId
node (updates n) = n
node (removes n) = n

unfoldable pub step : Table → Call → Table
step t (updates n) = elim (update t n) [ ok (t', _) ↦ t' | raise _ ↦ t ]
step t (removes n) = elim (remove_node t n) [ ok t' ↦ t' | raise _ ↦ t ]

unfoldable pub run : Table → List Call → Table
run t [] = t
run t (c ∷ cs) = run (step t c) cs

abbrev pub AllNodeIds : List Call → Type 0
AllNodeIds [] = Unit
AllNodeIds (c ∷ cs) = IsNodeId (node c) × AllNodeIds cs

abbrev SameShape : Table → Table → Type 0
SameShape t t' = (t'.center_node_id ≡ t.center_node_id) × (t'.bucket_size ≡ t.bucket_size)

update-SameShape :
    (t t' : Table) (n : NodeId) (c : Option NodeId) → update t n ≡ ok (t', c) → SameShape t t'
unfolding update update_slot update_bucket_unchecked move_to_top add_replacement
update-SameShape t t' n c h = ground arith

remove-SameShape : (t t' : Table) (n : NodeId) → remove_node t n ≡ ok t' → SameShape t t'
unfolding remove_node remove_from
remove-SameShape t t' n h = ground arith

abbrev pub IsSound : NodeId → ℕ → Table → Type 0
IsSound center size t = IsValid t × (t.center_node_id ≡ center) × (t.bucket_size ≡ size)

center-raises : (t : Table) (n : NodeId) → t.center_node_id ≡ n → step t (updates n) ≡ t
unfolding step update
center-raises t n h = ground (arith, (bytes_eq.beq_iff n t.center_node_id).1 (sym h))

center-raises_remove : (t : Table) (n : NodeId) → t.center_node_id ≡ n → step t (removes n) ≡ t
unfolding step remove_node get_index_bucket_and_replacement_cache compute_log_distance
center-raises_remove t n h = ground (arith, (bytes_eq.beq_iff t.center_node_id n).1 h)

module _ (center : NodeId) (size : ℕ) (p : IsNodeId center) (positive : 0 < size) where
  keep :
      (t t' : Table) → SameShape t t' → IsSound center size t → IsValid t' → IsSound center size t'
  keep t t' same s v = (v, same.0 ∙ s.1, same.1 ∙ s.2)

  step-IsSound :
      (t : Table) (c : Call)
      → IsNodeId (node c)
      → IsSound center size t
      → IsSound center size (step t c)
  unfolding step
  step-IsSound t (updates n) q s = elim (Bool-cases (t.center_node_id == n)) [
    | inl same ↦
        subst (IsSound center size)
          (sym (center-raises t n ((bytes_eq.beq_iff t.center_node_id n).0 same))) s
    | inr other ↦
        let (slot, t', c, found, e, u) =
          update-IsValid t n s.0 (rw (s.1) p) q
            (λ h. cc (other, (bytes_eq.beq_iff t.center_node_id n).1 h)) (omega (arith, s.2)) in
        rw (e, step) (keep t t' (update-SameShape t t' n c e) s u.0)
  ]
  step-IsSound t (removes n) q s = elim (Bool-cases (t.center_node_id == n)) [
    | inl same ↦
        subst (IsSound center size)
          (sym (center-raises_remove t n ((bytes_eq.beq_iff t.center_node_id n).0 same))) s
    | inr other ↦
        let (slot, after, t', found, e, v, _, _, _) =
          remove_node-IsValid t n s.0 (rw (s.1) p) q
            (λ h. cc (other, (bytes_eq.beq_iff t.center_node_id n).1 h)) in
        rw (e, step) (keep t t' (remove-SameShape t t' n e) s v)
  ]

  run-IsSound :
      (t : Table) (cs : List Call)
      → AllNodeIds cs
      → IsSound center size t
      → IsSound center size (run t cs)
  unfolding run
  run-IsSound t [] q s = s
  run-IsSound t (c ∷ cs) q s = run-IsSound (step t c) cs q.1 (step-IsSound t c q.0 s)

  pub new-IsSound :
      (cs : List Call) → AllNodeIds cs → IsSound center size (run (init center size) cs)
  unfolding init
  new-IsSound cs q = run-IsSound (init center size) cs q (init-IsValid center size, refl, refl)

  -- From a new table with a positive bucket size, any calls of `update` and `remove` with node ids,
  -- those that raise included, leave a valid table.
  pub run-IsValid : (cs : List Call) → AllNodeIds cs → IsValid (run (init center size) cs)
  run-IsValid cs q = (new-IsSound cs q).0
