-- ===== src/Alexandria/Storage/Rows.antt =====
-- The table of ddht/v5_1/alexandria/content_storage.py as a map from keys to contents.
use ddht.Alexandria.Storage.{Row, check_content_exists, select_content, delete_rows}
use ddht.Prelude.{
  arith, Bool, true, false, elem, Option, none, some, List, [], ◌∷◌, ◌++◌, if◌then◌else◌, ◌==◌, ◌≡◌,
  refl,
}
use ddht.Prelude.Bytes.{Bytes, bytes_eq}

-- a map from keys to contents
abbrev pub View : Type 0
View = Bytes → Option Bytes

abbrev pub is_some {ℓ} : {A : Type ℓ} → Option A → Bool
is_some none = false
is_some (some a) = true

-- the first of two values, or the second where there is none
abbrev pub or_else {ℓ} : {A : Type ℓ} → Option A → Option A → Option A
or_else none other = other
or_else (some a) other = some a

abbrev pub update : View → Bytes → Option Bytes → View
update view key value j = if key == j then value else view j

-- no key occurs twice
abbrev pub Distinct : List Bytes → Type 0
Distinct [] = Unit
Distinct (k ∷ ks) = (elem k ks ≡ false) × Distinct ks

pub check_content_exists-select_content :
    (rows : List Row) (k : Bytes) → check_content_exists rows k ≡ is_some (select_content rows k)
unfolding check_content_exists select_content
check_content_exists-select_content [] k = refl
check_content_exists-select_content (r ∷ rows) k =
    ground (arith, check_content_exists-select_content rows k)

pub select_content-delete_rows :
    (rows : List Row) (k j : Bytes)
    → select_content (delete_rows rows k) j ≡ update (select_content rows) k none j
unfolding select_content delete_rows
select_content-delete_rows [] k j = ground arith
select_content-delete_rows (r ∷ rows) k j = ground (
  arith,
  select_content-delete_rows rows k j,
  bytes_eq.beq_iff r.content_key k,
  bytes_eq.beq_iff k j,
  bytes_eq.beq_iff r.content_key j,
)

pub select_content-append :
    (rows : List Row) (r : Row) (j : Bytes)
    → select_content (rows ++ r ∷ []) j
      ≡ or_else (select_content rows j) (if r.content_key == j then some r.content else none)
unfolding select_content
select_content-append [] r j = ground arith
select_content-append (s ∷ rows) r j = ground (arith, select_content-append rows r j)
