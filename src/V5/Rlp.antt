-- ===== src/V5/Rlp.antt =====
-- What ddht/v5/packets.py uses of the package rlp: the values of its codec, and the codec as a
-- parameter.
use ddht.Prelude.{ℕ, ◌+◌, ◌≤◌, ◌<◌, ◌≡◌, ◌++◌, ◌⊎◌, Option, some, length}
use ddht.Prelude.Bytes.{Bytes}
use ddht.Wire.Error.{Result}

-- what is encoded: byte strings, and lists of what is encoded
mutual
  pub data Item : Type 0 where
    bytes_item : Bytes → Item
    list_item : Items → Item

  pub data Items : Type 0 where
    end : Items
    item : Item → Items → Items

abbrev pub items_length : Items → ℕ
items_length end = 0
items_length (item x xs) = 1 + items_length xs

-- `len`
abbrev pub len : Item → ℕ
len (bytes_item bs) = length bs
len (list_item xs) = items_length xs

-- `rlp.encode`, `rlp.decode`, `rlp.codec.consume_item` with the index after the item,
-- `consume_length_prefix` with the size alone, and `big_endian_int`. `none` is a DecodingError;
-- `deserialize_int` raises for an item that is no integer.
pub record Rlp : Type 0 where
  pub encode : Item → Bytes
  pub decode : Bytes → Option Item
  pub consume_item : Bytes → ℕ → Option (Item × ℕ)
  pub consume_length_prefix : Bytes → ℕ → Option ℕ
  pub serialize_int : ℕ → Bytes
  pub deserialize_int : Item → Result ℕ

-- Documented behaviour of the codec at an item: it is read back, alone or between other bytes. Its
-- size counts the bytes after the prefix; the prefix of a payload of at most 55 bytes is one byte,
-- and that of a longer one is longer.
pub record IsReadBack (rlp : Rlp) (x : Item) : Type 0 where
  pub decode-encode : rlp.decode (rlp.encode x) ≡ some x
  pub consume_item-encode :
      (before after : Bytes)
      → rlp.consume_item (before ++ rlp.encode x ++ after) (length before)
        ≡ some (x, length before + length (rlp.encode x))
  pub size : ℕ
  pub consume_length_prefix-encode :
      (before after : Bytes)
      → rlp.consume_length_prefix (before ++ rlp.encode x ++ after) (length before) ≡ some size
  pub length-encode :
      ((length (rlp.encode x) ≤ 56) × (length (rlp.encode x) ≡ 1 + size))
      ⊎ ((56 < length (rlp.encode x)) × (1 + size < length (rlp.encode x)))
