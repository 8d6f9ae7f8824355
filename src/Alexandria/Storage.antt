-- ===== src/Alexandria/Storage.antt =====
-- `ContentStorage` of ddht/v5_1/alexandria/content_storage.py. The table `storage` of its sqlite
-- database is the list of its rows, in the order of their insertion; the queries are functions on
-- it. `hashlib.sha256` is the parameter `sha256`.
pub mod Calls
pub mod Keys
pub mod Rows
use Prim.Native.Nat.{bit_and, bit_or, bit_xor}
use ddht.Prelude.{
  ℕ, ◌+◌, ◌-◌, ◌/◌, ◌^◌, Bool, true, false, not, ◌&&◌, Option, none, some, List, [], ◌∷◌, ◌++◌, map,
  ltb, leb, nat_beq, ◌==◌, if◌then◌else◌, length, keep_if,
}
use ddht.Prelude.Bytes.{Bytes, from_bytes, bytes_eq}
use ddht.Prelude.Outcomes.{Result, ok, raise}
use ddht.Prelude.Bits.Shift.{bit_length}
use ddht.Kademlia.Closest.{sorted}

-- `IntegrityError` is sqlite's: a row breaks a constraint of the table
pub data Error : Type 0 where
  content_not_found content_already_exists batch_decommissioned integrity_error : Error

-- a row of `STORAGE_CREATE_STATEMENT`
pub record Row : Type 0 where
  pub content_key : Bytes
  pub short_content_id : ℕ
  pub content : Bytes

-- What a call leaves in the table, and what it returns or raises: a statement that is done stays
-- done.
abbrev pub Outcome : Type 0 → Type 0
Outcome A = List Row × Result Error A

-- the order of blobs, and of `bytes`
unfoldable pub bytes_lt : Bytes → Bytes → Bool
bytes_lt [] [] = false
bytes_lt [] (y ∷ ys) = true
bytes_lt (x ∷ xs) [] = false
bytes_lt (x ∷ xs) (y ∷ ys) = if nat_beq x y then bytes_lt xs ys else ltb x y

unfoldable pub insert_key : Bytes → List Bytes → List Bytes
insert_key k [] = k ∷ []
insert_key k (j ∷ js) = if bytes_lt j k then j ∷ insert_key k js else k ∷ j ∷ js

-- `sorted`, and `ORDER BY storage.content_key`
unfoldable pub sort_keys : List Bytes → List Bytes
sort_keys [] = []
sort_keys (k ∷ ks) = insert_key k (sort_keys ks)

unfoldable pub check_content_exists : List Row → Bytes → Bool
check_content_exists [] content_key = false
check_content_exists (r ∷ rs) content_key =
    if r.content_key == content_key then true else check_content_exists rs content_key

-- the content of the row with a key, of which there is at most one
unfoldable pub select_content : List Row → Bytes → Option Bytes
select_content [] content_key = none
select_content (r ∷ rs) content_key =
    if r.content_key == content_key then some r.content else select_content rs content_key

unfoldable pub retrieve_content : List Row → Bytes → Result Error Bytes
retrieve_content rows content_key = elim (select_content rows content_key) [
  | none ↦ raise content_not_found
  | some content ↦ ok content
]

-- `DELETE_CONTENT_QUERY` and whether it deleted a row
unfoldable pub delete_rows : List Row → Bytes → List Row
delete_rows [] content_key = []
delete_rows (r ∷ rs) content_key =
    if r.content_key == content_key
    then delete_rows rs content_key
    else r ∷ delete_rows rs content_key

-- the bounds of `enumerate_content_keys`, of which each may be left out
abbrev pub within_left : Option Bytes → Bytes → Bool
within_left none key = true
within_left (some left_bound) key = not (bytes_lt key left_bound)

abbrev pub within_right : Option Bytes → Bytes → Bool
within_right none key = true
within_right (some right_bound) key = not (bytes_lt right_bound key)

unfoldable pub content_keys : List Row → List Bytes
content_keys [] = []
content_keys (r ∷ rs) = r.content_key ∷ content_keys rs

unfoldable pub enumerate_content_keys : List Row → Option Bytes → Option Bytes → List Bytes
enumerate_content_keys rows left_bound right_bound = sort_keys (
    keep_if (λ key. within_left left_bound key && within_right right_bound key) (content_keys rows))

unfoldable pub get_row_count : List Row → ℕ
get_row_count rows = length rows

-- `sum(length(storage.content))`, or 0 where there is no row
unfoldable pub get_total_storage_size : List Row → ℕ
get_total_storage_size [] = 0
get_total_storage_size (r ∷ rs) = length r.content + get_total_storage_size rs

-- the expression by which `CONTENT_PROXIMATE_QUERY` orders
abbrev pub proximity : ℕ → Row → ℕ
proximity short_node_id r =
    bit_or short_node_id r.short_content_id - bit_and short_node_id r.short_content_id

unfoldable pub short_id : Bytes → ℕ
short_id id = from_bytes id / 2 ^ 193

-- `ORDER BY … DESC`: each row goes before those with a smaller key. How sqlite orders the rows of
-- one key is not specified; here the order of insertion is kept.
unfoldable pub insert_descending : (Row → ℕ) → Row → List Row → List Row
insert_descending key r [] = r ∷ []
insert_descending key r (s ∷ rows) =
    if ltb (key r) (key s) then s ∷ insert_descending key r rows else r ∷ s ∷ rows

unfoldable pub sorted_descending : (Row → ℕ) → List Row → List Row
sorted_descending key [] = []
sorted_descending key (r ∷ rows) = insert_descending key r (sorted_descending key rows)

unfoldable pub get_proximate_content_keys : List Row → Bytes → Bool → List Bytes
get_proximate_content_keys rows node_id reverse =
    let short_node_id = short_id node_id in
    content_keys (
      if reverse
      then sorted_descending (proximity short_node_id) rows
      else sorted (proximity short_node_id) rows)

-- `compute_content_distance` and `compute_content_log_distance` of content.py
unfoldable pub compute_content_distance : Bytes → Bytes → ℕ
compute_content_distance node_id content_id = bit_xor (from_bytes node_id) (from_bytes content_id)

unfoldable pub compute_content_log_distance : Bytes → Bytes → ℕ
compute_content_log_distance node_id content_id =
    bit_length (compute_content_distance node_id content_id)

-- the methods of `ContentStorage`
abbrev pub has_content : List Row → Bytes → Bool
has_content rows content_key = check_content_exists rows content_key

abbrev pub get_content : List Row → Bytes → Result Error Bytes
get_content rows content_key = retrieve_content rows content_key

unfoldable pub delete_content : List Row → Bytes → Outcome (Unit {0})
delete_content rows content_key =
    let was_deleted = check_content_exists rows content_key in
    (delete_rows rows content_key, (if not was_deleted then raise content_not_found else ok tt))

abbrev pub iter_furthest : List Row → Bytes → List Bytes
iter_furthest rows target = get_proximate_content_keys rows target true

abbrev pub iter_closest : List Row → Bytes → List Bytes
iter_closest rows target = get_proximate_content_keys rows target false

module _ (sha256 : Bytes → Bytes) where
  -- `content_key_to_content_id` of content.py, and its high bits
  abbrev pub content_key_to_content_id : Bytes → Bytes
  content_key_to_content_id key = sha256 key

  -- the primary key and the constraint `_content_not_empty`
  unfoldable pub insert_content : List Row → Bytes → Bytes → Outcome (Unit {0})
  insert_content rows content_key content =
      if check_content_exists rows content_key
      then (rows, raise integrity_error)
      else if nat_beq (length content) 0
      then (rows, raise integrity_error)
      else (
        rows
            ++ (record {
              content_key = content_key;
              short_content_id = short_id (content_key_to_content_id content_key);
              content = content;
            })
              ∷ [],
        ok tt,
      )

  -- the rest of `set_content`, after the deletion of what was there
  abbrev pub then_insert : Outcome (Unit {0}) → Bytes → Bytes → Outcome (Unit {0})
  then_insert (rows, ok _) content_key content = insert_content rows content_key content
  then_insert (rows, raise e) content_key content = (rows, raise e)

  unfoldable pub set_content : List Row → Bytes → Bytes → Bool → Outcome (Unit {0})
  set_content rows content_key content exists_ok =
      if has_content rows content_key
      then (if exists_ok
          then then_insert (delete_content rows content_key) content_key content
          else (rows, raise content_already_exists))
      else insert_content rows content_key content
