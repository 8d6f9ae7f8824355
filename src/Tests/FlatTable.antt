-- ===== src/Tests/FlatTable.antt =====
-- ddht/v5/routing_table.py with two entries.
use ddht.FlatTable.{ok, add_or_update}
use ddht.FlatTable.Entries.{IsDistinct, add_or_update-IsDistinct}
use ddht.Kademlia.Distance.{NodeId}
use ddht.Prelude.Bytes.{bytes_eq}
use ddht.Prelude.{ℕ, ◌≡◌, List, [], ◌∷◌, ◌==◌, count, arith, keep_if, not}

abbrev node : ℕ → NodeId
node k = k ∷ []

abbrev entries : List NodeId
entries = node 1 ∷ node 2 ∷ []

entries-IsDistinct : IsDistinct entries
unfolding count
entries-IsDistinct n = ground (arith, bytes_eq.beq_iff (node 1) n, bytes_eq.beq_iff (node 2) n)

add_or_update-IsDistinct_example :
    (add_or_update entries (node 2) ≡ ok (node 2 ∷ keep_if (λ m. not (node 2 == m)) entries))
    × IsDistinct (node 2 ∷ keep_if (λ m. not (node 2 == m)) entries)
add_or_update-IsDistinct_example = add_or_update-IsDistinct entries (node 2) entries-IsDistinct
