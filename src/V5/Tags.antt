-- ===== src/V5/Tags.antt =====
-- ddht/v5/tags.py, and `sxor` of ddht/_utils.py. `hashlib.sha256` is a parameter.
use Prim.Native.Nat.{bit_xor, suc}
use ddht.Prelude.Bits.{xor_comm, xor_cancel}
use ddht.Prelude.Bytes.{Bytes}
use mathlib.Core.Path.{ap₂}
use ddht.Prelude.{◌≡◌, refl, [], ◌∷◌, nat_beq, length, arith, ap, ◌∙◌, sym}
use ddht.Wire.Error.{Result, ok, value_error, ◌>>◌, require}

-- `bytes(x ^ y for x, y in zip(s1, s2))`
abbrev pub xor_bytes : Bytes → Bytes → Bytes
xor_bytes [] ys = []
xor_bytes (x ∷ xs) [] = []
xor_bytes (x ∷ xs) (y ∷ ys) = bit_xor x y ∷ xor_bytes xs ys

unfoldable pub sxor : Bytes → Bytes → Result Bytes
sxor s1 s2 = do require (nat_beq (length s1) (length s2)) value_error; ok (xor_bytes s1 s2)

module _ (sha256 : Bytes → Bytes) where
  unfoldable pub compute_tag : Bytes → Bytes → Result Bytes
  compute_tag source_node_id destination_node_id = sxor (sha256 destination_node_id) source_node_id

  unfoldable pub recover_source_id_from_tag : Bytes → Bytes → Result Bytes
  recover_source_id_from_tag tag destination_node_id = sxor tag (sha256 destination_node_id)

length-xor_bytes : (xs ys : Bytes) → length xs ≡ length ys → length (xor_bytes xs ys) ≡ length ys
length-xor_bytes [] ys h = h
length-xor_bytes (x ∷ xs) [] h = absurd (omega arith)
length-xor_bytes (x ∷ xs) (y ∷ ys) h = ap suc (length-xor_bytes xs ys (omega arith))

xor_bytes_cancel : (xs ys : Bytes) → length xs ≡ length ys → xor_bytes (xor_bytes xs ys) xs ≡ ys
xor_bytes_cancel [] [] h = refl
xor_bytes_cancel [] (y ∷ ys) h = absurd (omega arith)
xor_bytes_cancel (x ∷ xs) [] h = absurd (omega arith)
xor_bytes_cancel (x ∷ xs) (y ∷ ys) h =
    ap₂ ◌∷◌ (xor_comm (bit_xor x y) x ∙ xor_cancel x y) (xor_bytes_cancel xs ys (omega arith))

-- The recipient of a packet recovers the node id of its source from the tag. The hash of its own node id has as many bytes as a node id.
pub recover_source_id_from_tag-compute_tag :
    (sha256 : Bytes → Bytes) (source destination : Bytes)
    → length (sha256 destination) ≡ 32
    → length source ≡ 32
    → (tag : Bytes) × (compute_tag sha256 source destination ≡ ok tag)
      × (length tag ≡ 32)
      × (recover_source_id_from_tag sha256 tag destination ≡ ok source)
unfolding compute_tag recover_source_id_from_tag sxor
recover_source_id_from_tag-compute_tag sha256 source destination h s =
    let hash = sha256 destination in
    let size : length hash ≡ length source = h ∙ sym s in
    let tag_size = length-xor_bytes hash source size in
    (
      xor_bytes hash source,
      ground (arith, size),
      tag_size ∙ s,
      ground (arith, tag_size, size, xor_bytes_cancel hash source size),
    )
