-- ===== src/FlatTable.antt =====
-- `FlatRoutingTable` of ddht/v5/routing_table.py: the entries from the newest to the oldest. The
-- index that `get_random_entry` draws is an argument.
pub mod Entries
use ddht.Kademlia.Distance.{NodeId}
use ddht.Prelude.Bytes.{bytes_eq}
use ddht.Prelude.{
  ℕ, Bool, Option, none, some, List, [], ◌∷◌, ◌==◌, if◌then◌else◌, elem, get_elem?, get_last?,
  length, remove,
}

pub data Error : Type 0 where
  value_error key_error index_error : Error

pub data Result {ℓ} (A : Type ℓ) : Type ℓ where
  ok : A → Result A
  raise : Error → Result A

unfoldable pub init : List NodeId
init = []

unfoldable pub add : List NodeId → NodeId → Result (List NodeId)
add entries node_id = if elem node_id entries then raise value_error else ok (node_id ∷ entries)

unfoldable pub remove_entry : List NodeId → NodeId → Result (List NodeId)
remove_entry entries node_id =
    if elem node_id entries then ok (remove node_id entries) else raise key_error

abbrev pub add_after : Result (List NodeId) → NodeId → Result (List NodeId)
add_after (ok entries) node_id = add entries node_id
add_after (raise e) node_id = raise e

unfoldable pub update_entry : List NodeId → NodeId → Result (List NodeId)
update_entry entries node_id = add_after (remove_entry entries node_id) node_id

-- the entries after the `try`: a KeyError is dropped
abbrev pub without : List NodeId → Result (List NodeId) → List NodeId
without entries (ok left) = left
without entries (raise e) = entries

unfoldable pub add_or_update : List NodeId → NodeId → Result (List NodeId)
add_or_update entries node_id = add (without entries (remove_entry entries node_id)) node_id

abbrev pub found : Option NodeId → Result NodeId
found none = raise index_error
found (some node_id) = ok node_id

unfoldable pub get_random_entry : List NodeId → ℕ → Result NodeId
get_random_entry entries drawn = found (get_elem? entries drawn)

unfoldable pub get_oldest_entry : List NodeId → Result NodeId
get_oldest_entry entries = found (get_last? entries)
