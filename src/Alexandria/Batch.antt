-- ===== src/Alexandria/Batch.antt =====
-- `_AtomicBatch` and `ContentStorage.atomic` of ddht/v5_1/alexandria/content_storage.py.
pub mod Commit
pub mod Refines
pub mod Views
use ddht.Alexandria.Storage
use ddht.Alexandria.Storage.{
  Row, Error, Outcome, content_not_found, content_already_exists, batch_decommissioned,
  enumerate_content_keys, sort_keys,
}
use ddht.Prelude.{
  Bool, true, false, not, ◌&&◌, Option, none, some, List, [], ◌∷◌, ◌++◌, keep_if, elem,
  if◌then◌else◌, ◌==◌,
}
use ddht.Prelude.Bytes.{Bytes, bytes_eq}
use ddht.Prelude.Outcomes.{Result, ok, raise, ◌>>=◌, ◌>>◌, require}

-- the storage that a batch stands on, the storage in memory with what was set, and the set of the
-- keys that were deleted
pub record Batch : Type 0 where
  pub storage : List Row
  pub batch : List Row
  pub deleted : List Bytes
  pub is_decommissioned : Bool

unfoldable pub init : List Row → Batch
init storage = record { storage = storage; batch = []; deleted = []; is_decommissioned = false }

-- `set.add` and `set.discard`
abbrev pub add : Bytes → List Bytes → List Bytes
add k ks = if elem k ks then ks else k ∷ ks

abbrev pub discard : Bytes → List Bytes → List Bytes
discard k ks = keep_if (λ j. not (j == k)) ks

-- `has_content` once the batch is known to be in use
unfoldable pub holds : Batch → Bytes → Bool
holds b content_key =
    if elem content_key b.deleted
    then false
    else if Storage.has_content b.batch content_key
    then true
    else Storage.has_content b.storage content_key

unfoldable pub has_content : Batch → Bytes → Result Error Bool
has_content b content_key =
    if b.is_decommissioned then raise batch_decommissioned else ok (holds b content_key)

-- the `except ContentNotFound`; no other exception occurs
abbrev pub or_from : Result Error Bytes → Result Error Bytes → Result Error Bytes
or_from (ok content) other = ok content
or_from (raise e) other = other

unfoldable pub get_content : Batch → Bytes → Result Error Bytes
get_content b content_key =
    if b.is_decommissioned
    then raise batch_decommissioned
    else if elem content_key b.deleted
    then raise content_not_found
    else or_from (Storage.get_content b.batch content_key)
        (Storage.get_content b.storage content_key)

abbrev pub Step : Type 0
Step = Batch × Result Error (Unit {0})

-- after `self._batch.set_content`: the key is no longer deleted, unless that has raised
abbrev pub after_set : Batch → Bytes → Outcome (Unit {0}) → Step
after_set b content_key (batch, ok _) =
    (record b { batch = batch; deleted = discard content_key b.deleted }, ok tt)
after_set b content_key (batch, raise e) = (record b { batch = batch }, raise e)

-- the last statement of `delete_content`, unless the deletion in the batch has raised
abbrev pub after_delete : Batch → Bytes → Outcome (Unit {0}) → Step
after_delete b content_key (batch, ok _) = (
  record b {
    batch = batch;
    deleted =
        if Storage.has_content b.storage content_key then add content_key b.deleted else b.deleted;
  },
  ok tt,
)
after_delete b content_key (batch, raise e) = (record b { batch = batch }, raise e)

unfoldable pub delete_content : Batch → Bytes → Step
delete_content b content_key =
    if b.is_decommissioned
    then (b, raise batch_decommissioned)
    else if not (holds b content_key)
    then (b, raise content_not_found)
    else after_delete b content_key (
        if Storage.has_content b.batch content_key
        then Storage.delete_content b.batch content_key
        else (b.batch, ok tt))

unfoldable pub enumerate_keys : Batch → Option Bytes → Option Bytes → Result Error (List Bytes)
enumerate_keys b start_key end_key =
    if b.is_decommissioned
    then raise batch_decommissioned
    else let base_keys =
        keep_if (λ k. not (elem k b.deleted))
          (enumerate_content_keys b.storage start_key end_key) in
      let batch_keys = enumerate_content_keys b.batch start_key end_key in
      ok (sort_keys (base_keys ++ keep_if (λ k. not (elem k base_keys)) batch_keys))

-- the contents of some keys of the batch, with their keys
unfoldable pub contents : List Row → List Bytes → Result Error (List (Bytes × Bytes))
contents rows [] = ok []
contents rows (k ∷ ks) = do
  content ← Storage.get_content rows k
  rest ← contents rows ks
  ok ((k, content) ∷ rest)

unfoldable pub finalize : Batch → Batch × Result Error (List Bytes × List (Bytes × Bytes))
finalize b = if b.is_decommissioned then (b, raise batch_decommissioned) else (
  record b { is_decommissioned = true },
  do
    to_write ← contents b.batch (enumerate_content_keys b.batch none none)
    ok (b.deleted, to_write),
)

-- the first loop of `atomic`, which ends at the first exception
unfoldable pub delete_all : List Row → List Bytes → Outcome (Unit {0})
delete_all rows [] = (rows, ok tt)
delete_all rows (k ∷ ks) =
    let (rest, outcome) = Storage.delete_content rows k in
    let continued = delete_all rest ks in
    elim outcome [ ok _ ↦ continued | raise e ↦ (rest, raise e) ]

module _ (sha256 : Bytes → Bytes) where
  unfoldable pub set_content : Batch → Bytes → Bytes → Bool → Step
  set_content b content_key content exists_ok =
      if b.is_decommissioned
      then (b, raise batch_decommissioned)
      else if holds b content_key && not exists_ok
      then (b, raise content_already_exists)
      else after_set b content_key
          (Storage.set_content sha256 b.batch content_key content exists_ok)

  -- the second loop
  unfoldable pub write_all : List Row → List (Bytes × Bytes) → Outcome (Unit {0})
  write_all rows [] = (rows, ok tt)
  write_all rows ((content_key, content) ∷ items) =
      let (rest, outcome) = Storage.set_content sha256 rows content_key content true in
      let continued = write_all rest items in
      elim outcome [ ok _ ↦ continued | raise e ↦ (rest, raise e) ]

  -- `atomic` after its `yield`: what becomes of the table of `self`
  unfoldable pub commit : Batch → Outcome (Unit {0})
  commit b = elim ((finalize b).1) [
    | raise e ↦ (b.storage, raise e)
    | ok (to_delete, to_write) ↦
        let (rows, outcome) = delete_all b.storage to_delete in
        elim outcome [ ok _ ↦ write_all rows to_write | raise e ↦ (rows, raise e) ]
  ]
