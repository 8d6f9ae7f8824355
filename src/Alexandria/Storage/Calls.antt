-- ===== src/Alexandria/Storage/Calls.antt =====
-- The methods of `ContentStorage` (ddht/v5_1/alexandria/content_storage.py) as operations on a map.
use mathlib.Core.Path.{subst}
use ddht.Alexandria.Storage.{
  Row, Error, Outcome, content_not_found, content_already_exists, integrity_error, select_content,
  delete_rows, delete_content, insert_content, set_content, nat_beq,
}
use ddht.Alexandria.Storage.Rows.{
  View, is_some, update, check_content_exists-select_content, select_content-delete_rows,
  select_content-append,
}
use ddht.Prelude.{
  ◌<◌, arith, Bool, true, false, not, ◌&&◌, none, some, List, length, if◌then◌else◌, ◌≡◌,
  Option-cases, inl, inr, ◌∙◌, refl, ==_refl, ltb, Bool-cases,
}
use ddht.Prelude.Bytes.{Bytes, bytes_eq}
use ddht.Prelude.Outcomes.{Result, ok, raise}

-- what a map is after a call, and the result of the call
abbrev pub Called : Type 0
Called = View × Result Error (Unit {0})

unfoldable pub set_entry : View → Bytes → Bytes → Bool → Called
set_entry view k content exists_ok =
    if is_some (view k) && not exists_ok
    then (view, raise content_already_exists)
    else (update view k (some content), ok tt)

unfoldable pub delete_entry : View → Bytes → Called
delete_entry view k =
    if is_some (view k) then (update view k none, ok tt) else (view, raise content_not_found)

-- An outcome is that of a call on a map: the same result, and a table that reads as the map.
abbrev pub Follows : Outcome (Unit {0}) → Called → Type 0
Follows (rows, result) (view, expected) =
    (result ≡ expected) × ((j : Bytes) → select_content rows j ≡ view j)

pub delete_content-Follows :
    (rows : List Row) (k : Bytes)
    → Follows (delete_content rows k) (delete_entry (select_content rows) k)
unfolding delete_content delete_entry
delete_content-Follows rows k = (
  ground (arith, check_content_exists-select_content rows k),
  λ j. ground (
    arith,
    check_content_exists-select_content rows k,
    select_content-delete_rows rows k j,
    bytes_eq.beq_iff k j,
  ),
)

length_pos : (c : Bytes) → 0 < length c → nat_beq (length c) 0 ≡ false
length_pos c h = ground arith

-- `set_entry` for any content: one that is not empty is set, and an empty one raises with nothing
-- left under the key
abbrev pub set_any : View → Bytes → Bytes → Bool → Called
set_any view k content exists_ok =
    if is_some (view k) && not exists_ok
    then (view, raise content_already_exists)
    else if ltb 0 (length content)
    then (update view k (some content), ok tt)
    else (update view k none, raise integrity_error)

set_entry-set_any :
    (view : View) (k c : Bytes) (exists_ok : Bool)
    → ltb 0 (length c) ≡ true
    → set_entry view k c exists_ok ≡ set_any view k c exists_ok
unfolding set_entry
set_entry-set_any view k c exists_ok filled = rw filled refl

module _ (sha256 : Bytes → Bytes) where
  insert_content-Follows :
      (rows : List Row) (k c : Bytes)
      → 0 < length c
      → select_content rows k ≡ none
      → Follows (insert_content sha256 rows k c) (update (select_content rows) k (some c), ok tt)
  unfolding insert_content
  insert_content-Follows rows k c pos absent =
      rw (check_content_exists-select_content rows k, absent, length_pos c pos)
        (refl, λ j. select_content-append rows _ j ∙ ground (arith, bytes_eq.beq_iff k j))

  replace_content-Follows :
      (rows : List Row) (k c : Bytes)
      → 0 < length c
      → Follows
          (insert_content sha256 (delete_rows rows k) k c)
          (update (select_content rows) k (some c), ok tt)
  replace_content-Follows rows k c pos =
      let absent : select_content (delete_rows rows k) k ≡ none =
        select_content-delete_rows rows k k ∙ ground (arith, ==_refl k) in
      let (result, reads) = insert_content-Follows (delete_rows rows k) k c pos absent in
      (result, λ j. reads j ∙ ground (arith, select_content-delete_rows rows k j))

  pub set_content-Follows :
      (rows : List Row) (k c : Bytes) (exists_ok : Bool)
      → 0 < length c
      → Follows
          (set_content sha256 rows k c exists_ok)
          (set_entry (select_content rows) k c exists_ok)
  unfolding set_content set_entry delete_content
  set_content-Follows rows k c true pos = elim (Option-cases (select_content rows k)) [
    | inl absent ↦
        rw (check_content_exists-select_content rows k, absent)
          (insert_content-Follows rows k c pos absent)
    | inr (old, present) ↦
        rw (check_content_exists-select_content rows k, present)
          (replace_content-Follows rows k c pos)
  ]
  set_content-Follows rows k c false pos = elim (Option-cases (select_content rows k)) [
    | inl absent ↦
        rw (check_content_exists-select_content rows k, absent)
          (insert_content-Follows rows k c pos absent)
    | inr (old, present) ↦
        rw (check_content_exists-select_content rows k, present) (refl, λ j. refl)
  ]

  insert_empty-Follows :
      (rows : List Row) (k c : Bytes)
      → length c ≡ 0
      → select_content rows k ≡ none
      → Follows
          (insert_content sha256 rows k c)
          (update (select_content rows) k none, raise integrity_error)
  unfolding insert_content
  insert_empty-Follows rows k c empty absent =
      let is_empty : nat_beq (length c) 0 ≡ true = ground (arith, empty) in
      rw (check_content_exists-select_content rows k, absent, is_empty)
        (refl, λ j. ground (arith, absent, bytes_eq.beq_iff k j))

  set_empty-Follows :
      (rows : List Row) (k c : Bytes) (exists_ok : Bool)
      → length c ≡ 0
      → Follows
          (set_content sha256 rows k c exists_ok)
          (set_any (select_content rows) k c exists_ok)
  unfolding set_content delete_content
  set_empty-Follows rows k c exists_ok empty =
      let deleted = select_content-delete_rows rows k in
      let is_empty : ltb 0 (length c) ≡ false = ground (arith, empty) in
      elim (Option-cases (select_content rows k)) [
        | inl absent ↦
            rw (check_content_exists-select_content rows k, absent, is_empty)
              (insert_empty-Follows rows k c empty absent)
        | inr (old, present) ↦ elim (Bool-cases exists_ok) [
          | inl replaces ↦
              let gone : select_content (delete_rows rows k) k ≡ none =
                deleted k ∙ ground (arith, ==_refl k) in
              let (result, reads) = insert_empty-Follows (delete_rows rows k) k c empty gone in
              rw (check_content_exists-select_content rows k, present, replaces, is_empty)
                (result, λ j. reads j ∙ ground (arith, deleted j))
          | inr refuses ↦
              rw (check_content_exists-select_content rows k, present, refuses) (refl, λ j. refl)
        ]
      ]

  -- `set_content` under a key that is there raises without `exists_ok` and changes nothing.
  -- Otherwise, content that is not empty is from then on what is read under the key; empty content
  -- raises, and nothing is read under the key any more. `delete_content` leaves nothing under the
  -- key, and raises where there was nothing. What is read under other keys never changes.
  pub set_content-delete_content :
      (rows : List Row) (k c : Bytes) (exists_ok : Bool)
      → Follows
          (set_content sha256 rows k c exists_ok)
          (set_any (select_content rows) k c exists_ok)
        × Follows (delete_content rows k) (delete_entry (select_content rows) k)
  set_content-delete_content rows k c exists_ok = (
    elim (Bool-cases (ltb 0 (length c))) [
      | inl filled ↦
          subst (λ (called : Called). Follows (set_content sha256 rows k c exists_ok) called)
            (set_entry-set_any (select_content rows) k c exists_ok filled)
            (set_content-Follows rows k c exists_ok (ground (arith, filled)))
      | inr empty ↦ set_empty-Follows rows k c exists_ok (ground (arith, empty))
    ],
    delete_content-Follows rows k,
  )
