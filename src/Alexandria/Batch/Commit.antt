-- ===== src/Alexandria/Batch/Commit.antt =====
-- The end of `ContentStorage.atomic` (ddht/v5_1/alexandria/content_storage.py): the deletions and the
-- writes of a batch, as operations on a map.
use ddht.Alexandria.Batch.{Batch, contents, finalize, delete_all, write_all, commit}
use ddht.Alexandria.Batch.Views.{view, InUse, delete_entry_present, set_entry_new}
use ddht.Alexandria.Storage
use ddht.Alexandria.Storage.{
  Row, Error, Outcome, content_not_found, check_content_exists, select_content, retrieve_content,
  content_keys, sort_keys, insert_key, enumerate_content_keys,
}
use ddht.Alexandria.Storage.Keys.{elem-enumerate_content_keys}
use ddht.Alexandria.Storage.Rows.{View, is_some, update, Distinct}
use ddht.Alexandria.Storage.Calls.{Follows, Called, set_content-Follows, delete_content-Follows}
use ddht.Prelude.{
  ◌<◌, arith, true, false, none, some, List, [], ◌∷◌, length, if◌then◌else◌, elem, ◌≡◌, refl,
  ==_refl, ◌∙◌, ap, Option-cases, inl, inr,
}
use ddht.Prelude.Bytes.{Bytes, bytes_eq}
use ddht.Prelude.Outcomes.{ok}

deletes :
    (rows : List Row) (k : Bytes)
    → is_some (select_content rows k) ≡ true
    → Follows (Storage.delete_content rows k) (update (select_content rows) k none, ok tt)
deletes rows k present =
    let (result, reads) = delete_content-Follows rows k in
    let entry = delete_entry_present (select_content rows) k present in
    (result ∙ ap (λ (r : Called). r.1) entry, λ j. reads j ∙ ap (λ (r : Called). r.0 j) entry)

-- Distinct keys that are all in the table are deleted without an exception.
delete_all-Follows :
    (rows : List Row) (ks : List Bytes)
    → Distinct ks
    → ((k : Bytes) → elem k ks ≡ true → is_some (select_content rows k) ≡ true)
    → Follows (delete_all rows ks) (λ j. if elem j ks then none else select_content rows j, ok tt)
unfolding delete_all elem
delete_all-Follows rows [] d present = (refl, λ j. refl)
delete_all-Follows rows (k ∷ ks) d present =
    let here : is_some (select_content rows k) ≡ true = present k (ground (arith, ==_refl k)) in
    let (done, reads) = deletes rows k here in
    let later : (j : Bytes)
        → elem j ks ≡ true
        → is_some (select_content (Storage.delete_content rows k).0 j) ≡ true =
      λ j p. ap is_some (reads j) ∙ ground (arith, d.0, present j, bytes_eq.beq_iff k j) in
    let (result, rest) = delete_all-Follows (Storage.delete_content rows k).0 ks d.1 later in
    rw (delete_all, done) (result, λ j. rest j ∙ ground (arith, reads j))

-- every item is what a map has for its key, and no content is empty
abbrev pub AllFrom : View → List (Bytes × Bytes) → Type 0
AllFrom v [] = Unit
AllFrom v ((k, c) ∷ items) = (v k ≡ some c) × (0 < length c) × AllFrom v items

abbrev pub first_of : List (Bytes × Bytes) → List Bytes
first_of [] = []
first_of ((k, c) ∷ items) = k ∷ first_of items

module _ (sha256 : Bytes → Bytes) where
  writes :
      (rows : List Row) (k c : Bytes)
      → 0 < length c
      → Follows
          (Storage.set_content sha256 rows k c true)
          (update (select_content rows) k (some c), ok tt)
  writes rows k c pos =
      let (result, reads) = set_content-Follows sha256 rows k c true pos in
      let entry = set_entry_new (select_content rows) k c true (ground arith) in
      (result ∙ ap (λ (r : Called). r.1) entry, λ j. reads j ∙ ap (λ (r : Called). r.0 j) entry)

  -- Writing items of a map, each of its keys is set to what the map has, without an exception.
  write_all-Follows :
      (v : View) (rows : List Row) (items : List (Bytes × Bytes))
      → AllFrom v items
      → Follows
          (write_all sha256 rows items)
          (λ j. if elem j (first_of items) then v j else select_content rows j, ok tt)
  unfolding write_all elem
  write_all-Follows v rows [] from = (refl, λ j. refl)
  write_all-Follows v rows ((k, c) ∷ items) from =
      let (done, reads) = writes rows k c from.1 in
      let (result, rest) =
        write_all-Follows v (Storage.set_content sha256 rows k c true).0 items from.2 in
      rw (write_all, done)
        (result, λ j. rest j ∙ ground (arith, reads j, from.0, bytes_eq.beq_iff k j))

contents-cons :
    (rows : List Row) (k c : Bytes) (ks : List Bytes) (items : List (Bytes × Bytes))
    → select_content rows k ≡ some c
    → contents rows ks ≡ ok items
    → contents rows (k ∷ ks) ≡ ok ((k, c) ∷ items)
unfolding contents retrieve_content
contents-cons rows k c ks items e read = ground (arith, e, read)

-- what `finalize` reads
contents_of :
    (rows : List Row) (ks : List Bytes)
    → ((k c : Bytes) → select_content rows k ≡ some c → 0 < length c)
    → ((k : Bytes) → elem k ks ≡ true → is_some (select_content rows k) ≡ true)
    → (items : List (Bytes × Bytes)) × (contents rows ks ≡ ok items)
      × (first_of items ≡ ks)
      × AllFrom (select_content rows) items
unfolding contents elem retrieve_content
contents_of rows [] filled present = ([], refl, refl, tt)
contents_of rows (k ∷ ks) filled present =
    let (items, read, keys, from) =
      contents_of rows ks filled (λ j p. present j (ground (arith))) in
    elim (Option-cases (select_content rows k)) [
      | inl absent ↦ absurd (ground (arith, present k (ground (arith, ==_refl k))))
      | inr (c, e) ↦ (
        (k, c) ∷ items,
        contents-cons rows k c ks items e read,
        ap (◌∷◌ k) keys,
        (e, filled k c e, from),
      )
    ]

module _ (sha256 : Bytes → Bytes) where
  commit_of :
      (b : Batch) (items : List (Bytes × Bytes))
      → b.is_decommissioned ≡ false
      → contents b.batch (enumerate_content_keys b.batch none none) ≡ ok items
      → (delete_all b.storage b.deleted).1 ≡ ok tt
      → commit sha256 b ≡ write_all sha256 (delete_all b.storage b.deleted).0 items
  unfolding commit finalize
  commit_of b items in_use read deleted = ground (arith, in_use, read, deleted)

  -- A batch that is in use is committed without an exception, and the table then has for each key what the batch read.
  pub commit-Follows : (b : Batch) → InUse b → Follows (commit sha256 b) (view b, ok tt)
  unfolding view
  commit-Follows b inv =
      let of_batch = elem-enumerate_content_keys b.batch none none in
      let (items, read, keys, from) =
        contents_of b.batch (enumerate_content_keys b.batch none none) inv.filled
          (λ k p. ground (arith, of_batch k)) in
      let (deleted, removed) = delete_all-Follows b.storage b.deleted inv.distinct inv.stored in
      let (written, reads) =
        write_all-Follows sha256 (select_content b.batch) (delete_all b.storage b.deleted).0 items
          from in
      let is = commit_of b items inv.in_use read deleted in
      (
        ap (λ (o : Outcome (Unit {0})). o.1) is ∙ written,
        λ j.
            ap (λ (o : Outcome (Unit {0})). select_content o.0 j) is
            ∙ reads j
            ∙ ap
                (λ (ks : List Bytes).
                  if elem j ks
                  then select_content b.batch j
                  else select_content (delete_all b.storage b.deleted).0 j)
                keys
            ∙ ground (arith, of_batch j, removed j, inv.unset j),
      )
