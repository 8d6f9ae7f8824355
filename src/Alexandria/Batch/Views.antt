-- ===== src/Alexandria/Batch/Views.antt =====
-- `_AtomicBatch` of ddht/v5_1/alexandria/content_storage.py as a map from keys to contents: what it
-- reads, and what holds of its fields.
use ddht.Alexandria.Batch.{
  Batch, Step, add, discard, holds, after_set, after_delete, delete_content, set_content,
}
use ddht.Alexandria.Storage
use ddht.Alexandria.Storage.{
  Row, Error, Outcome, content_not_found, content_already_exists, batch_decommissioned,
  check_content_exists, select_content,
}
use ddht.Alexandria.Storage.Rows.{
  Distinct, View, is_some, or_else, update, check_content_exists-select_content,
}
use ddht.Alexandria.Storage.Calls.{
  Follows, Called, set_entry, delete_entry, set_content-Follows, delete_content-Follows,
}
use ddht.Prelude.{
  ◌<◌, arith, Bool, true, false, not, ◌&&◌, none, some, List, [], ◌∷◌, length, if◌then◌else◌, elem,
  ◌≡◌, Bool-cases, ◌==◌, inl, inr, ◌||◌, ◌∙◌, refl, ap, Option-cases,
}
use ddht.Prelude.Bytes.{Bytes, bytes_eq}
use ddht.Prelude.Outcomes.{ok, raise}

-- what the batch reads for each key
unfoldable pub view : Batch → View
view b k =
    if elem k b.deleted
    then none
    else or_else (select_content b.batch k) (select_content b.storage k)

pub record InUse (b : Batch) : Type 0 where
  pub in_use : b.is_decommissioned ≡ false
  pub distinct : Distinct b.deleted
  pub stored : (k : Bytes) → elem k b.deleted ≡ true → is_some (select_content b.storage k) ≡ true
  pub unset : (k : Bytes) → elem k b.deleted ≡ true → select_content b.batch k ≡ none
  pub filled : (k c : Bytes) → select_content b.batch k ≡ some c → 0 < length c

pub elem-discard :
    (j k : Bytes) (ks : List Bytes) → elem j (discard k ks) ≡ (elem j ks && not (k == j))
unfolding elem
elem-discard j k [] = ground arith
elem-discard j k (i ∷ ks) =
    ground
      (arith, elem-discard j k ks, bytes_eq.beq_iff i k, bytes_eq.beq_iff i j, bytes_eq.beq_iff k j)

Distinct-discard : (k : Bytes) (ks : List Bytes) → Distinct ks → Distinct (discard k ks)
Distinct-discard k [] d = tt
Distinct-discard k (i ∷ ks) d = elim (Bool-cases (i == k)) [
  | inl same ↦ rw same (Distinct-discard k ks d.1)
  | inr other ↦ rw other ((elem-discard i k ks ∙ ground (arith, d.0)), Distinct-discard k ks d.1)
]

pub elem-add : (j k : Bytes) (ks : List Bytes) → elem j (add k ks) ≡ (k == j || elem j ks)
unfolding elem
elem-add j k ks = ground (arith, bytes_eq.beq_iff k j)

Distinct-add : (k : Bytes) (ks : List Bytes) → Distinct ks → Distinct (add k ks)
Distinct-add k ks d = elim (Bool-cases (elem k ks)) [
  | inl old ↦ rw old d
  | inr fresh ↦ rw fresh (fresh, d)
]

elem-add_if :
    (s : Bool) (j k : Bytes) (ks : List Bytes)
    → elem j (if s then add k ks else ks) ≡ (s && k == j || elem j ks)
elem-add_if true j k ks = elem-add j k ks
elem-add_if false j k ks = refl

Distinct-add_if :
    (s : Bool) (k : Bytes) (ks : List Bytes) → Distinct ks → Distinct (if s then add k ks else ks)
Distinct-add_if true k ks d = Distinct-add k ks d
Distinct-add_if false k ks d = d

pub holds-view : (b : Batch) (k : Bytes) → holds b k ≡ is_some (view b k)
unfolding holds view
holds-view b k = ground (
  arith,
  check_content_exists-select_content b.batch k,
  check_content_exists-select_content b.storage k,
)

-- A step of the batch is that of a call on its map: the same result, what the batch reads is the
-- map, it can still be used, and its storage is as it was.
pub record Steps (b : Batch) (step : Step) (called : Called) : Type 0 where
  pub result : step.1 ≡ called.1
  pub reads : (j : Bytes) → view step.0 j ≡ called.0 j
  pub usable : InUse step.0
  pub untouched : step.0.storage ≡ b.storage

unchanged-Steps : (b : Batch) (e : Error) → InUse b → Steps b (b, raise e) (view b, raise e)
unchanged-Steps b e inv = record {
  result = refl;
  reads = λ j. refl;
  usable = inv;
  untouched = refl;
}

set_in-Steps :
    (b : Batch) (k c : Bytes) (rows : List Row)
    → 0 < length c
    → InUse b
    → ((j : Bytes) → select_content rows j ≡ update (select_content b.batch) k (some c) j)
    → Steps b
        (record b { batch = rows; deleted = discard k b.deleted }, ok tt)
        (update (view b) k (some c), ok tt)
unfolding view
set_in-Steps b k c rows pos inv set = record {
  result = refl;
  reads = λ j. ground (arith, set j, elem-discard j k b.deleted, bytes_eq.beq_iff k j, inv.unset j);
  usable = record {
    in_use = inv.in_use;
    distinct = Distinct-discard k b.deleted inv.distinct;
    stored = λ j p. inv.stored j (ground (arith, elem-discard j k b.deleted));
    unset = λ j p. set j ∙ ground (arith, elem-discard j k b.deleted, inv.unset j);
    filled = λ j d p. ground (arith, set j, inv.filled j d);
  };
  untouched = refl;
}

deleted_in-Steps :
    (b : Batch) (k c : Bytes) (rows : List Row)
    → InUse b
    → view b k ≡ some c
    → ((j : Bytes) → select_content rows j ≡ update (select_content b.batch) k none j)
    → Steps b
        (
          record b {
            batch = rows;
            deleted = if Storage.has_content b.storage k then add k b.deleted else b.deleted;
          },
          ok tt,
        )
        (update (view b) k none, ok tt)
unfolding view
deleted_in-Steps b k c rows inv present set =
    let s = check_content_exists b.storage k in
    let deleted : (j : Bytes)
        → elem j (if s then add k b.deleted else b.deleted) ≡ (s && k == j || elem j b.deleted) =
      λ j. elem-add_if s j k b.deleted in
    let exists = check_content_exists-select_content b.storage k in
    record {
      result = refl;
      reads = λ j. ground (arith, set j, deleted j, exists, bytes_eq.beq_iff k j);
      usable = record {
        in_use = inv.in_use;
        distinct = Distinct-add_if s k b.deleted inv.distinct;
        stored = λ j p. ground (arith, inv.stored j, deleted j, exists, bytes_eq.beq_iff k j);
        unset = λ j p. set j ∙ ground (arith, deleted j, inv.unset j, bytes_eq.beq_iff k j);
        filled = λ j d p. ground (arith, set j, inv.filled j d);
      };
      untouched = refl;
    }

after_set-ok :
    (b : Batch) (k : Bytes) (outcome : Outcome (Unit {0}))
    → outcome.1 ≡ ok tt
    → after_set b k outcome ≡ (record b { batch = outcome.0; deleted = discard k b.deleted }, ok tt)
after_set-ok b k (rows, ok _) h = refl
after_set-ok b k (rows, raise e) h = cc

Steps_of :
    (b : Batch) (step other : Step) (called call : Called)
    → step ≡ other
    → called ≡ call
    → Steps b other call
    → Steps b step called
Steps_of b step other called call p q steps = rw (p, q) steps

-- a key that the batch reads nothing for is not in its own storage
batch_part :
    (b : Batch) (k : Bytes) (refuses : Bool)
    → InUse b
    → (holds b k && refuses) ≡ false
    → (is_some (select_content b.batch k) && refuses) ≡ false
unfolding holds
batch_part b k refuses inv goes =
    ground (arith, inv.unset k, check_content_exists-select_content b.batch k)

pub set_entry_new :
    (v : View) (k c : Bytes) (exists_ok : Bool)
    → (is_some (v k) && not exists_ok) ≡ false
    → set_entry v k c exists_ok ≡ (update v k (some c), ok tt)
unfolding set_entry
set_entry_new v k c exists_ok h = rw h refl

module _ (sha256 : Bytes → Bytes) where
  pub set_content-Steps :
      (b : Batch) (k c : Bytes) (exists_ok : Bool)
      → 0 < length c
      → InUse b
      → Steps b (set_content sha256 b k c exists_ok) (set_entry (view b) k c exists_ok)
  unfolding set_content set_entry
  set_content-Steps b k c exists_ok pos inv =
      let (result, reads) = set_content-Follows sha256 b.batch k c exists_ok pos in
      let entry = set_entry_new (select_content b.batch) k c exists_ok in
      let outcome = Storage.set_content sha256 b.batch k c exists_ok in
      elim (Bool-cases (holds b k && not exists_ok)) [
        | inl refused ↦
            Steps_of b _ _ _ _ (ground (arith, inv.in_use)) (ground (arith, holds-view b k))
              (unchanged-Steps b content_already_exists inv)
        | inr goes ↦
            Steps_of b _ _ _ _
              (ground (arith, inv.in_use)
                ∙ after_set-ok b k outcome (
                    result
                    ∙ ap (λ (r : Called). r.1) (entry (batch_part b k (not exists_ok) inv goes))))
              (ground (arith, holds-view b k))
              (set_in-Steps b k c outcome.0 pos inv (λ j.
                reads j
                ∙ ap (λ (r : Called). r.0 j) (entry (batch_part b k (not exists_ok) inv goes))))
      ]

after_delete-ok :
    (b : Batch) (k : Bytes) (outcome : Outcome (Unit {0}))
    → outcome.1 ≡ ok tt
    → after_delete b k outcome ≡ (
      record b {
        batch = outcome.0;
        deleted = if Storage.has_content b.storage k then add k b.deleted else b.deleted;
      },
      ok tt,
    )
after_delete-ok b k (rows, ok _) h = refl
after_delete-ok b k (rows, raise e) h = cc

pub delete_entry_present :
    (v : View) (k : Bytes) → is_some (v k) ≡ true → delete_entry v k ≡ (update v k none, ok tt)
unfolding delete_entry
delete_entry_present v k h = rw h refl

-- the deletion from the own storage of the batch, where the key is in it
batch_deletion :
    (rows : List Row) (k : Bytes)
    → Follows
        (if Storage.has_content rows k then Storage.delete_content rows k else (rows, ok tt))
        (update (select_content rows) k none, ok tt)
batch_deletion rows k = elim (Option-cases (select_content rows k)) [
  | inl absent ↦
      rw (check_content_exists-select_content rows k, absent)
        (refl, λ j. ground (arith, bytes_eq.beq_iff k j))
  | inr (c, present) ↦
      let (result, reads) = delete_content-Follows rows k in
      let entry = delete_entry_present (select_content rows) k (ap is_some present) in
      rw (check_content_exists-select_content rows k, present)
        (result ∙ ap (λ (r : Called). r.1) entry, λ j. reads j ∙ ap (λ (r : Called). r.0 j) entry)
]

pub delete_content-Steps :
    (b : Batch) (k : Bytes) → InUse b → Steps b (delete_content b k) (delete_entry (view b) k)
unfolding delete_content delete_entry
delete_content-Steps b k inv =
    let (result, reads) = batch_deletion b.batch k in
    elim (Option-cases (view b k)) [
      | inl absent ↦
          Steps_of b _ _ _ _ (ground (arith, inv.in_use, holds-view b k)) (ground (arith, absent))
            (unchanged-Steps b content_not_found inv)
      | inr (c, present) ↦
          Steps_of b _ _ _ _
            (ground (arith, inv.in_use, holds-view b k) ∙ after_delete-ok b k _ result)
            (ground (arith, present)) (deleted_in-Steps b k c _ inv present reads)
    ]
