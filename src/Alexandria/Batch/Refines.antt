-- ===== src/Alexandria/Batch/Refines.antt =====
-- `_AtomicBatch` (ddht/v5_1/alexandria/content_storage.py) beside the `ContentStorage` it stands on:
-- the same calls of `ContentStorageAPI` on each.
use mathlib.Core.Path.{ap₂}
use ddht.Alexandria.Batch
use ddht.Alexandria.Batch.{Batch, init, holds, commit, or_from}
use ddht.Alexandria.Batch.Views.{
  view, InUse, Steps, set_content-Steps, delete_content-Steps, holds-view,
}
use ddht.Alexandria.Batch.Commit.{commit-Follows}
use ddht.Alexandria.Storage
use ddht.Alexandria.Storage.{
  Row, Error, Outcome, content_not_found, check_content_exists, select_content, retrieve_content,
}
use ddht.Alexandria.Storage.Rows.{View, check_content_exists-select_content}
use ddht.Alexandria.Storage.Calls.{
  Follows, Called, set_entry, delete_entry, set_content-Follows, delete_content-Follows,
}
use ddht.Prelude.{◌<◌, arith, Bool, List, [], ◌∷◌, length, elem, ◌≡◌, refl, ap, ◌∙◌, sym}
use ddht.Prelude.Bytes.{Bytes, bytes_eq}
use ddht.Prelude.Outcomes.{Result, ok}

-- the calls that a user of a `ContentStorageAPI` makes
pub data Call : Type 0 where
  has get delete : (content_key : Bytes) → Call
  set : (content_key content : Bytes) (exists_ok : Bool) → Call

pub data Reply : Type 0 where
  had : Result Error Bool → Reply
  got : Result Error Bytes → Reply
  done : Result Error (Unit {0}) → Reply

-- what is set is not empty
abbrev pub IsFilled : Call → Type 0
IsFilled (set k c exists_ok) = 0 < length c
IsFilled _ = Unit

abbrev pub AllFilled : List Call → Type 0
AllFilled [] = Unit
AllFilled (call ∷ calls) = IsFilled call × AllFilled calls

module _ (sha256 : Bytes → Bytes) where
  unfoldable pub on_storage : List Row → Call → List Row × Reply
  on_storage rows (has k) = (rows, had (ok (Storage.has_content rows k)))
  on_storage rows (get k) = (rows, got (Storage.get_content rows k))
  on_storage rows (delete k) =
      let (after, result) = Storage.delete_content rows k in (after, done result)
  on_storage rows (set k c exists_ok) =
      let (after, result) = Storage.set_content sha256 rows k c exists_ok in (after, done result)

  unfoldable pub on_batch : Batch → Call → Batch × Reply
  on_batch b (has k) = (b, had (Batch.has_content b k))
  on_batch b (get k) = (b, got (Batch.get_content b k))
  on_batch b (delete k) = let (after, result) = Batch.delete_content b k in (after, done result)
  on_batch b (set k c exists_ok) =
      let (after, result) = Batch.set_content sha256 b k c exists_ok in (after, done result)

  unfoldable pub run_storage : List Row → List Call → List Row × List Reply
  run_storage rows [] = (rows, [])
  run_storage rows (call ∷ calls) =
      let (after, reply) = on_storage rows call in
      let (last, replies) = run_storage after calls in (last, reply ∷ replies)

  unfoldable pub run_batch : Batch → List Call → Batch × List Reply
  run_batch b [] = (b, [])
  run_batch b (call ∷ calls) =
      let (after, reply) = on_batch b call in
      let (last, replies) = run_batch after calls in (last, reply ∷ replies)

set_entry_same :
    (v w : View) (k c : Bytes) (exists_ok : Bool)
    → ((j : Bytes) → v j ≡ w j)
    → ((set_entry v k c exists_ok).1 ≡ (set_entry w k c exists_ok).1)
      × ((j : Bytes) → (set_entry v k c exists_ok).0 j ≡ (set_entry w k c exists_ok).0 j)
unfolding set_entry
set_entry_same v w k c exists_ok h = (ground (arith, h k), λ j. ground (arith, h k, h j))

delete_entry_same :
    (v w : View) (k : Bytes)
    → ((j : Bytes) → v j ≡ w j)
    → ((delete_entry v k).1 ≡ (delete_entry w k).1)
      × ((j : Bytes) → (delete_entry v k).0 j ≡ (delete_entry w k).0 j)
unfolding delete_entry
delete_entry_same v w k h = (ground (arith, h k), λ j. ground (arith, h k, h j))

-- the batch can be used, and reads what a table has
pub record Agree (b : Batch) (rows : List Row) : Type 0 where
  pub usable : InUse b
  pub same : (j : Bytes) → view b j ≡ select_content rows j

init-Agree : (rows : List Row) → Agree (init rows) rows
unfolding init view elem select_content
init-Agree rows = record {
  usable = record {
    in_use = refl;
    distinct = tt;
    stored = λ j p. cc;
    unset = λ j p. refl;
    filled = λ j c p. cc;
  };
  same = λ j. refl;
}

get_content-view :
    (b : Batch) (rows : List Row) (k : Bytes)
    → Agree b rows
    → Batch.get_content b k ≡ Storage.get_content rows k
unfolding Batch.get_content retrieve_content view
get_content-view b rows k agree = ground (arith, agree.usable.in_use, agree.same k)

has_content-view :
    (b : Batch) (rows : List Row) (k : Bytes)
    → Agree b rows
    → Batch.has_content b k ≡ ok (Storage.has_content rows k)
unfolding Batch.has_content
has_content-view b rows k agree = ground (
  arith,
  agree.usable.in_use,
  holds-view b k,
  agree.same k,
  check_content_exists-select_content rows k,
)

-- One call: the replies are equal, the batch still reads as the table, and its storage is left as
-- it was.
record Matches (b : Batch) (batched : Batch × Reply) (direct : List Row × Reply) : Type 0 where
  reply : batched.1 ≡ direct.1
  agree : Agree batched.0 direct.0
  untouched : batched.0.storage ≡ b.storage

called_alike-Matches :
    (b : Batch) (step : Batch × Result Error (Unit {0})) (outcome : Outcome (Unit {0}))
    (called call : Called)
    → Steps b step called
    → Follows outcome call
    → (called.1 ≡ call.1) × ((j : Bytes) → called.0 j ≡ call.0 j)
    → Matches b (step.0, done step.1) (outcome.0, done outcome.1)
called_alike-Matches b step outcome called call steps follows alike = record {
  reply = ap done (steps.result ∙ alike.0 ∙ sym follows.0);
  agree = record {
    usable = steps.usable;
    same = λ j. steps.reads j ∙ alike.1 j ∙ sym (follows.1 j);
  };
  untouched = steps.untouched;
}

module _ (sha256 : Bytes → Bytes) where
  on_batch-Matches :
      (b : Batch) (rows : List Row) (call : Call)
      → IsFilled call
      → Agree b rows
      → Matches b (on_batch sha256 b call) (on_storage sha256 rows call)
  unfolding on_batch on_storage
  on_batch-Matches b rows (has k) filled agree = record {
    reply = ap had (has_content-view b rows k agree);
    agree = agree;
    untouched = refl;
  }
  on_batch-Matches b rows (get k) filled agree = record {
    reply = ap got (get_content-view b rows k agree);
    agree = agree;
    untouched = refl;
  }
  on_batch-Matches b rows (delete k) filled agree =
      called_alike-Matches b (Batch.delete_content b k) (Storage.delete_content rows k) _ _
        (delete_content-Steps b k agree.usable) (delete_content-Follows rows k)
        (delete_entry_same (view b) (select_content rows) k agree.same)
  on_batch-Matches b rows (set k c exists_ok) filled agree =
      called_alike-Matches b (Batch.set_content sha256 b k c exists_ok)
        (Storage.set_content sha256 rows k c exists_ok) _ _
        (set_content-Steps sha256 b k c exists_ok filled agree.usable)
        (set_content-Follows sha256 rows k c exists_ok filled)
        (set_entry_same (view b) (select_content rows) k c exists_ok agree.same)

  record RunsMatch (b : Batch) (rows : List Row) (calls : List Call) : Type 0 where
    replies : (run_batch sha256 b calls).1 ≡ (run_storage sha256 rows calls).1
    agree : Agree (run_batch sha256 b calls).0 (run_storage sha256 rows calls).0
    untouched : (run_batch sha256 b calls).0.storage ≡ b.storage

  run_batch-RunsMatch :
      (b : Batch) (rows : List Row) (calls : List Call)
      → AllFilled calls
      → Agree b rows
      → RunsMatch b rows calls
  unfolding run_batch run_storage
  run_batch-RunsMatch b rows [] filled agree = record {
    replies = refl;
    agree = agree;
    untouched = refl;
  }
  run_batch-RunsMatch b rows (call ∷ calls) filled agree =
      let first = on_batch-Matches b rows call filled.0 agree in
      let rest =
        run_batch-RunsMatch (on_batch sha256 b call).0 (on_storage sha256 rows call).0 calls
          filled.1 first.agree in
      record {
        replies = ap₂ ◌∷◌ first.reply rest.replies;
        agree = rest.agree;
        untouched = rest.untouched ∙ first.untouched;
      }

  -- A sequence of calls on a new batch, in which what is set is not empty, gets the replies that the same calls get on the storage itself. Until it is committed, the storage is as it was; the commit raises no exception, and the storage then has for each key what the same calls on the storage itself leave.
  pub commit-refines :
      (rows : List Row) (calls : List Call)
      → AllFilled calls
      → ((run_batch sha256 (init rows) calls).1 ≡ (run_storage sha256 rows calls).1)
        × ((run_batch sha256 (init rows) calls).0.storage ≡ rows)
        × ((commit sha256 (run_batch sha256 (init rows) calls).0).1 ≡ ok tt)
        × ((j : Bytes)
            → select_content (commit sha256 (run_batch sha256 (init rows) calls).0).0 j
              ≡ select_content (run_storage sha256 rows calls).0 j)
  unfolding init
  commit-refines rows calls filled =
      let runs = run_batch-RunsMatch (init rows) rows calls filled (init-Agree rows) in
      let (result, reads) =
        commit-Follows sha256 (run_batch sha256 (init rows) calls).0 runs.agree.usable in
      (runs.replies, runs.untouched, result, λ j. reads j ∙ runs.agree.same j)
