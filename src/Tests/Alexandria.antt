-- ===== src/Tests/Alexandria.antt =====
-- ddht/v5_1/alexandria/content_storage.py with a few keys.
use ddht.Alexandria.Storage.{
  Row, select_content, enumerate_content_keys, within_left, within_right, set_content,
  delete_content, check_content_exists,
}
use ddht.Alexandria.Storage.Rows.{is_some}
use ddht.Alexandria.Storage.Keys.{AllValid, Ascending, enumerate_content_keys_lem}
use ddht.Alexandria.Storage.Calls.{Follows, set_any, delete_entry, set_content-delete_content}
use ddht.Alexandria.Batch.{init, commit}
use ddht.Alexandria.Batch.Refines.{
  Call, has, get, delete, set, run_storage, run_batch, commit-refines,
}
use ddht.Kademlia.Closest.Order
use ddht.Prelude.{
  ◌≡◌, refl, true, false, ◌&&◌, some, none, List, [], ◌∷◌, length, replicate, elem, arith,
}
use ddht.Prelude.Bytes.{Bytes, bytes_eq}
use ddht.Prelude.Outcomes.{ok}

abbrev hash : Bytes → Bytes
hash bs = replicate 32 (length bs)

abbrev row : Bytes → Bytes → Row
row key content = record { content_key = key; short_content_id = 0; content = content }

abbrev rows : List Row
rows = row (2 ∷ []) (20 ∷ []) ∷ row (1 ∷ 5 ∷ []) (10 ∷ []) ∷ []

rows-AllValid : AllValid rows
unfolding check_content_exists
rows-AllValid = (refl, omega arith, (refl, omega arith, tt))

-- a key is replaced, a key deleted twice, a key added, and each read
abbrev calls : List Call
calls =
    set (2 ∷ []) (21 ∷ []) true
    ∷ delete (1 ∷ 5 ∷ [])
    ∷ delete (1 ∷ 5 ∷ [])
    ∷ set (3 ∷ []) (30 ∷ []) false
    ∷ set (3 ∷ []) (31 ∷ []) false
    ∷ get (2 ∷ [])
    ∷ has (1 ∷ 5 ∷ [])
    ∷ []

commit-refines_example :
    ((run_batch hash (init rows) calls).1 ≡ (run_storage hash rows calls).1)
    × ((run_batch hash (init rows) calls).0.storage ≡ rows)
    × ((commit hash (run_batch hash (init rows) calls).0).1 ≡ ok tt)
    × ((j : Bytes)
        → select_content (commit hash (run_batch hash (init rows) calls).0).0 j
          ≡ select_content (run_storage hash rows calls).0 j)
commit-refines_example =
    commit-refines hash rows calls
      (omega arith, (tt, (tt, (omega arith, (omega arith, (tt, (tt, tt)))))))

enumerate_content_keys_lem_example :
    Ascending (enumerate_content_keys rows (some (1 ∷ [])) none)
    × ((j : Bytes)
        → elem j (enumerate_content_keys rows (some (1 ∷ [])) none) ≡ (
            is_some (select_content rows j)
            && (within_left (some (1 ∷ [])) j && within_right none j)))
enumerate_content_keys_lem_example =
    enumerate_content_keys_lem rows (some (1 ∷ [])) none rows-AllValid

-- content under a key that is there, without `exists_ok`
set_content-delete_content_example :
    Follows
      (set_content hash rows (2 ∷ []) (22 ∷ []) false)
      (set_any (select_content rows) (2 ∷ []) (22 ∷ []) false)
    × Follows (delete_content rows (2 ∷ [])) (delete_entry (select_content rows) (2 ∷ []))
set_content-delete_content_example = set_content-delete_content hash rows (2 ∷ []) (22 ∷ []) false
