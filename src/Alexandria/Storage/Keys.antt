-- ===== src/Alexandria/Storage/Keys.antt =====
-- `enumerate_content_keys` of ddht/v5_1/alexandria/content_storage.py: which keys, in which order.
use ddht.Alexandria.Storage.{
  Row, bytes_lt, insert_key, sort_keys, within_left, within_right, content_keys,
  enumerate_content_keys, check_content_exists, select_content, delete_rows, insert_content,
  set_content, nat_beq, delete_content,
}
use ddht.Alexandria.Storage.Rows.{Distinct, is_some, check_content_exists-select_content}
use ddht.Prelude.{
  ◌<◌, arith, Bool, true, false, ◌&&◌, Option, List, [], ◌∷◌, ◌++◌, length, elem, keep_if, ◌≡◌,
  Bool-cases, ◌==◌, ◌∙◌, refl, inl, ◌||◌, ap, inr, ==_refl, sym,
}
use ddht.Prelude.Bytes.{Bytes, bytes_eq}

elem-keep_if :
    (p : Bytes → Bool) (j : Bytes) (ks : List Bytes) → elem j (keep_if p ks) ≡ (elem j ks && p j)
unfolding elem
elem-keep_if p j [] = ground arith
elem-keep_if p j (k ∷ ks) = elim (Bool-cases (k == j)) [
  | inl same ↦
      let e : k ≡ j = (bytes_eq.beq_iff k j).0 same in
      rw e (ground (arith, elem-keep_if p j ks, ==_refl j))
  | inr other ↦ ground (arith, elem-keep_if p j ks)
]

elem-insert_key : (j k : Bytes) (ks : List Bytes) → elem j (insert_key k ks) ≡ (k == j || elem j ks)
unfolding elem insert_key
elem-insert_key j k [] = refl
elem-insert_key j k (i ∷ ks) = ground (arith, elem-insert_key j k ks)

elem-sort_keys : (j : Bytes) (ks : List Bytes) → elem j (sort_keys ks) ≡ elem j ks
unfolding sort_keys elem
elem-sort_keys j [] = refl
elem-sort_keys j (k ∷ ks) =
    elem-insert_key j k (sort_keys ks) ∙ ap (λ b. k == j || b) (elem-sort_keys j ks)

elem-content_keys :
    (j : Bytes) (rows : List Row) → elem j (content_keys rows) ≡ check_content_exists rows j
unfolding content_keys check_content_exists elem
elem-content_keys j [] = refl
elem-content_keys j (r ∷ rows) = ground (arith, elem-content_keys j rows)

-- A key is enumerated exactly if it is in the table and within the bounds.
pub elem-enumerate_content_keys :
    (rows : List Row) (left right : Option Bytes) (j : Bytes)
    → elem j (enumerate_content_keys rows left right)
      ≡ (is_some (select_content rows j) && (within_left left j && within_right right j))
unfolding enumerate_content_keys
elem-enumerate_content_keys rows left right j =
    elem-sort_keys j _
    ∙ elem-keep_if (λ key. within_left left key && within_right right key) j (content_keys rows)
    ∙ ap (λ b. b && (within_left left j && within_right right j))
        (elem-content_keys j rows ∙ check_content_exists-select_content rows j)

-- a key goes before the first of a list
abbrev pub Before : Bytes → List Bytes → Type 0
Before k [] = Unit
Before k (j ∷ js) = bytes_lt k j ≡ true

-- each key goes before the next, and differs from it
abbrev pub Ascending : List Bytes → Type 0
Ascending [] = Unit
Ascending (k ∷ ks) = Before k ks × Ascending ks

bytes_lt_total : (j k : Bytes) → bytes_lt j k ≡ false → (k == j) ≡ false → bytes_lt k j ≡ true
unfolding bytes_lt
bytes_lt_total [] [] p q = sym q
bytes_lt_total [] (y ∷ ys) p q = cc
bytes_lt_total (x ∷ xs) [] p q = refl
bytes_lt_total (x ∷ xs) (y ∷ ys) p q = ground (arith, bytes_lt_total xs ys)

Before-insert_key :
    (j k : Bytes) (ks : List Bytes) → bytes_lt j k ≡ true → Before j ks → Before j (insert_key k ks)
unfolding insert_key
Before-insert_key j k [] h b = h
Before-insert_key j k (i ∷ ks) h b = elim (Bool-cases (bytes_lt i k)) [
  | inl after ↦ rw after b
  | inr here ↦ rw here h
]

insert_key-Ascending :
    (k : Bytes) (ks : List Bytes) → elem k ks ≡ false → Ascending ks → Ascending (insert_key k ks)
unfolding insert_key elem
insert_key-Ascending k [] fresh asc = (tt, tt)
insert_key-Ascending k (j ∷ ks) fresh asc = elim (Bool-cases (bytes_lt j k)) [
  | inl after ↦
      rw after
        (Before-insert_key j k ks after asc.0, insert_key-Ascending k ks (ground arith) asc.1)
  | inr here ↦
      rw here
        (bytes_lt_total j k here (ground (arith, bytes_eq.beq_iff j k, bytes_eq.beq_iff k j)), asc)
]

sort_keys-Ascending : (ks : List Bytes) → Distinct ks → Ascending (sort_keys ks)
unfolding sort_keys
sort_keys-Ascending [] d = tt
sort_keys-Ascending (k ∷ ks) d =
    insert_key-Ascending k (sort_keys ks) (elem-sort_keys k ks ∙ d.0) (sort_keys-Ascending ks d.1)

keep_if-Distinct : (p : Bytes → Bool) (ks : List Bytes) → Distinct ks → Distinct (keep_if p ks)
keep_if-Distinct p [] d = tt
keep_if-Distinct p (k ∷ ks) d = elim (Bool-cases (p k)) [
  | inl kept ↦ rw kept ((elem-keep_if p k ks ∙ ground (arith, d.0)), keep_if-Distinct p ks d.1)
  | inr dropped ↦ rw dropped (keep_if-Distinct p ks d.1)
]

-- the rows of the table have distinct keys and contents that are not empty
abbrev pub AllValid : List Row → Type 0
AllValid [] = Unit
AllValid (r ∷ rows) =
    (check_content_exists rows r.content_key ≡ false) × (0 < length r.content) × AllValid rows

AllValid-Distinct : (rows : List Row) → AllValid rows → Distinct (content_keys rows)
unfolding content_keys
AllValid-Distinct [] v = tt
AllValid-Distinct (r ∷ rows) v =
    (elem-content_keys r.content_key rows ∙ v.0, AllValid-Distinct rows v.2)

-- The keys of the table that are within the bounds are enumerated, each once, in ascending order, and no others.
pub enumerate_content_keys_lem :
    (rows : List Row) (left right : Option Bytes)
    → AllValid rows
    → Ascending (enumerate_content_keys rows left right)
      × ((j : Bytes)
          → elem j (enumerate_content_keys rows left right)
            ≡ (is_some (select_content rows j) && (within_left left j && within_right right j)))
unfolding enumerate_content_keys
enumerate_content_keys_lem rows left right v = (
  sort_keys-Ascending _ (keep_if-Distinct _ (content_keys rows) (AllValid-Distinct rows v)),
  elem-enumerate_content_keys rows left right,
)

check_content_exists-delete_rows :
    (rows : List Row) (k j : Bytes)
    → check_content_exists rows j ≡ false
    → check_content_exists (delete_rows rows k) j ≡ false
unfolding check_content_exists delete_rows
check_content_exists-delete_rows [] k j h = refl
check_content_exists-delete_rows (r ∷ rows) k j h =
    ground (arith, check_content_exists-delete_rows rows k j)

delete_rows-AllValid : (rows : List Row) (k : Bytes) → AllValid rows → AllValid (delete_rows rows k)
unfolding delete_rows
delete_rows-AllValid [] k v = tt
delete_rows-AllValid (r ∷ rows) k v = elim (Bool-cases (r.content_key == k)) [
  | inl same ↦ rw same (delete_rows-AllValid rows k v.2)
  | inr other ↦ rw other (
    check_content_exists-delete_rows rows k r.content_key v.0,
    v.1,
    delete_rows-AllValid rows k v.2,
  )
]

check_content_exists-append :
    (rows : List Row) (r : Row) (j : Bytes)
    → check_content_exists (rows ++ r ∷ []) j ≡ (check_content_exists rows j || r.content_key == j)
unfolding check_content_exists
check_content_exists-append [] r j = ground arith
check_content_exists-append (s ∷ rows) r j = ground (arith, check_content_exists-append rows r j)

append-AllValid :
    (rows : List Row) (r : Row)
    → check_content_exists rows r.content_key ≡ false
    → 0 < length r.content
    → AllValid rows
    → AllValid (rows ++ r ∷ [])
unfolding check_content_exists
append-AllValid [] r fresh pos v = (refl, pos, tt)
append-AllValid (s ∷ rows) r fresh pos v = (
  check_content_exists-append rows r s.content_key
      ∙ ground (
        arith,
        v.0,
        bytes_eq.beq_iff s.content_key r.content_key,
        bytes_eq.beq_iff r.content_key s.content_key,
      ),
  v.1,
  append-AllValid rows r (ground arith) pos v.2,
)

module _ (sha256 : Bytes → Bytes) where
  insert_content-AllValid :
      (rows : List Row) (k c : Bytes) → AllValid rows → AllValid (insert_content sha256 rows k c).0
  unfolding insert_content
  insert_content-AllValid rows k c v = elim (Bool-cases (check_content_exists rows k)) [
    | inl present ↦ rw present v
    | inr fresh ↦ rw fresh (elim (Bool-cases (nat_beq (length c) 0)) [
      | inl empty ↦ rw empty v
      | inr filled ↦ rw filled (append-AllValid rows _ fresh (ground arith) v)
    ])
  ]

  -- what `enumerate_content_keys_lem` asks of the table holds after any call
  set_content-AllValid :
      (rows : List Row) (k c : Bytes) (exists_ok : Bool)
      → AllValid rows
      → AllValid (set_content sha256 rows k c exists_ok).0 × AllValid (delete_content rows k).0
  unfolding set_content delete_content
  set_content-AllValid rows k c exists_ok v = (
    elim (Bool-cases (check_content_exists rows k)) [
      | inl present ↦ rw present (elim (Bool-cases exists_ok) [
        | inl replaces ↦
            rw replaces
              (insert_content-AllValid (delete_rows rows k) k c (delete_rows-AllValid rows k v))
        | inr refuses ↦ rw refuses v
      ])
      | inr fresh ↦ rw fresh (insert_content-AllValid rows k c v)
    ],
    delete_rows-AllValid rows k v,
  )
