-- ===== src/Tests/V5.antt =====
-- ddht/v5/packets.py and ddht/v5/tags.py with a packet of each kind of data.
use ddht.Tests.ShortRlp.{short_rlp, consume_item-at, consume_length_prefix-at}
use ddht.V5.Rlp.{Item, IsReadBack, bytes_item}
use ddht.V5.Tags.{compute_tag, recover_source_id_from_tag, recover_source_id_from_tag-compute_tag}
use ddht.V5.Packets.{AuthTagPacket, auth_tag, to_wire_bytes, decode_packet}
use ddht.V5.Packets.RoundTrip.{IsMessage, decode_packet-to_wire_bytes}
use ddht.Prelude.{◌≡◌, refl, [], ◌∷◌, length, replicate, inl, arith, take}
use ddht.Prelude.Bytes.{Bytes}
use ddht.Wire.Error.{ok}

abbrev hash : Bytes → Bytes
hash bs = replicate 32 (length bs)

abbrev source : Bytes
source = replicate 32 9

recover_source_id_from_tag-compute_tag_example :
    (tag : Bytes) × (compute_tag hash source (7 ∷ []) ≡ ok tag)
    × (length tag ≡ 32)
    × (recover_source_id_from_tag hash tag (7 ∷ []) ≡ ok source)
recover_source_id_from_tag-compute_tag_example =
    recover_source_id_from_tag-compute_tag hash source (7 ∷ []) refl refl

abbrev nonce_item : Item
nonce_item = bytes_item (replicate 12 3)

nonce_item-IsReadBack : IsReadBack short_rlp nonce_item
unfolding take
nonce_item-IsReadBack = record {
  decode-encode = refl;
  consume_item-encode =
      λ before after. consume_item-at before (short_rlp.encode nonce_item) after nonce_item 13 refl;
  size = 12;
  consume_length_prefix-encode =
      λ before after. consume_length_prefix-at before (short_rlp.encode nonce_item) after 12 refl;
  length-encode = inl (omega arith, refl);
}

abbrev packet : AuthTagPacket
packet = record { tag = source; auth_tag = replicate 12 3; encrypted_message = 5 ∷ 6 ∷ [] }

packet-IsMessage : IsMessage short_rlp source nonce_item (5 ∷ 6 ∷ [])
packet-IsMessage = record {
  tag_fits = refl;
  some_left = omega arith;
  read_back = nonce_item-IsReadBack;
  fits = omega arith;
}

decode_packet-to_wire_bytes_example :
    (bytes : Bytes) × (to_wire_bytes short_rlp (auth_tag packet) ≡ ok bytes)
    × (decode_packet short_rlp bytes ≡ ok (auth_tag packet))
decode_packet-to_wire_bytes_example =
    decode_packet-to_wire_bytes short_rlp (auth_tag packet) (packet-IsMessage, refl)
