-- ===== src/Tests/ShortRlp.antt =====
-- The codec that ddht/v5/packets.py takes from the package rlp, for payloads of at most 55 bytes.
use mathlib.Core.List.{append_assoc}
use ddht.Prelude.{
  ℕ, zero, suc, ◌+◌, ◌-◌, ◌≡◌, refl, ap, ◌∙◌, Option, none, some, [], ◌∷◌, ◌++◌, ltb, if◌then◌else◌,
  length, take, drop, drop-append,
}
use ddht.Prelude.Bytes.{Bytes}
use ddht.Wire.Error.{Result, ok, raise, rlp_error, type_error}
use ddht.V5.Rlp.{Rlp, Item, Items, bytes_item, list_item, end, item}

-- one byte below 128 stands for itself
abbrev encode_bytes : Bytes → Bytes
encode_bytes (b ∷ []) = if ltb b 128 then b ∷ [] else 129 ∷ b ∷ []
encode_bytes bs = (128 + length bs) ∷ bs

abbrev mutual
  pub encode : Item → Bytes
  encode (bytes_item bs) = encode_bytes bs
  encode (list_item xs) = (192 + length (encode_items xs)) ∷ encode_items xs

  pub encode_items : Items → Bytes
  encode_items end = []
  encode_items (item x xs) = encode x ++ encode_items xs

abbrev first_item : Option (Item × ℕ) → Option Item
first_item none = none
first_item (some (x, used)) = some x

-- the item that some bytes start with, and how many they are; the number bounds the depth of calls
abbrev mutual
  pub parse : ℕ → Bytes → Option (Item × ℕ)
  parse zero bs = none
  parse (suc n) [] = none
  parse (suc n) (b ∷ bs) =
      let inner = parse_items n (take (b - 192) bs) in
      if ltb b 128
      then some (bytes_item (b ∷ []), 1)
      else if ltb b 192
      then some (bytes_item (take (b - 128) bs), 1 + (b - 128))
      else elim inner [ none ↦ none | some xs ↦ some (list_item xs, 1 + (b - 192)) ]

  pub parse_items : ℕ → Bytes → Option Items
  parse_items zero bs = none
  parse_items (suc n) [] = some end
  parse_items (suc n) (b ∷ bs) = elim (parse n (b ∷ bs)) [
    | none ↦ none
    | some (x, used) ↦ elim (parse_items n (drop used (b ∷ bs))) [
      | none ↦ none
      | some xs ↦ some (item x xs)
    ]
  ]

-- enough for the tests
abbrev depth : ℕ
depth = 20

abbrev read_at : Bytes → Option (Item × ℕ)
read_at bs = parse depth bs

abbrev shifted : ℕ → Option (Item × ℕ) → Option (Item × ℕ)
shifted start none = none
shifted start (some (x, used)) = some (x, start + used)

-- `consume_length_prefix` of an item that starts with these bytes
abbrev size_at : Bytes → Option ℕ
size_at [] = none
size_at (b ∷ bs) =
    if ltb b 128 then some 1 else if ltb b 192 then some (b - 128) else some (b - 192)

abbrev deserialize : Item → Result ℕ
deserialize (bytes_item []) = ok 0
deserialize (bytes_item (b ∷ [])) = ok b
deserialize (bytes_item (a ∷ b ∷ bs)) = raise rlp_error
deserialize (list_item end) = ok 0
deserialize (list_item (item x xs)) = raise type_error

unfoldable pub consume_item : Bytes → ℕ → Option (Item × ℕ)
consume_item bs start = shifted start (read_at (drop start bs))

unfoldable pub consume_length_prefix : Bytes → ℕ → Option ℕ
consume_length_prefix bs start = size_at (drop start bs)

abbrev pub short_rlp : Rlp
short_rlp = record {
  encode = encode;
  decode = λ bs. first_item (read_at bs);
  consume_item = consume_item;
  consume_length_prefix = consume_length_prefix;
  serialize_int = λ n. if ltb 0 n then n ∷ [] else [];
  deserialize_int = deserialize;
}

drop-before :
    (before middle after : Bytes)
    → drop (length before) (before ++ middle ++ after) ≡ middle ++ after
drop-before before middle after =
    ap (drop (length before)) (append_assoc before middle after)
    ∙ drop-append before (middle ++ after) (length before) refl

-- What starts at an index is read there.
pub consume_item-at :
    (before middle after : Bytes) (x : Item) (used : ℕ)
    → read_at (middle ++ after) ≡ some (x, used)
    → consume_item (before ++ middle ++ after) (length before) ≡ some (x, length before + used)
unfolding consume_item
consume_item-at before middle after x used h =
    ap (λ (bs : Bytes). shifted (length before) (read_at bs)) (drop-before before middle after)
    ∙ ap (shifted (length before)) h

pub consume_length_prefix-at :
    (before middle after : Bytes) (size : ℕ)
    → size_at (middle ++ after) ≡ some size
    → consume_length_prefix (before ++ middle ++ after) (length before) ≡ some size
unfolding consume_length_prefix
consume_length_prefix-at before middle after size h =
    ap size_at (drop-before before middle after) ∙ h
