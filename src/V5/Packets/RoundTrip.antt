-- ===== src/V5/Packets/RoundTrip.antt =====
-- What `decode_packet` of ddht/v5/packets.py makes of the bytes that the packets are written to.
use mathlib.Core.Path.{ap₂}
use mathlib.Core.List.{append-nil, append_assoc}
use ddht.Prelude.{
  ℕ, ◌+◌, ◌≡◌, ◌≤◌, ◌<◌, some, [], ◌++◌, length, take, drop, arith, length-append, take-append,
  drop-append, refl, ap, ◌∙◌, sym,
}
use ddht.Prelude.Bytes.{Bytes, bytes_eq}
use ddht.V5.Packets.{
  AuthHeader, WhoAreYouPacket, Packet, Auth, nonce, header, auth_header, auth_tag, who_are_you,
  auth_scheme_name, auth_of, auth_header_item, who_are_you_item, decode_packet, to_wire_bytes,
  decode_message_packet, decode_auth, message_packet_of, validate_max_packet_size,
  validate_tag_prefix, validate_message_packet_size, validate_who_are_you_packet_size,
  auth_header_to_wire_bytes, auth_tag_to_wire_bytes, who_are_you_to_wire_bytes,
  decode_who_are_you_packet, decode_who_are_you_payload, validate_auth_header,
}
use ddht.V5.Rlp.{Rlp, Item, IsReadBack, bytes_item, len}
use ddht.Wire.Error.{ok}
use ddht.Wire.Packet.{validate_length}

auth_of-nonce : (n : Bytes) → length n ≡ 12 → auth_of (bytes_item n) ≡ ok (nonce n)
unfolding auth_of validate_length
auth_of-nonce n h = ground (arith, h)

auth_of-header :
    (h : AuthHeader)
    → length h.auth_tag ≡ 12
    → length h.id_nonce ≡ 32
    → h.scheme_name ≡ auth_scheme_name
    → auth_of (auth_header_item h) ≡ ok (header h)
unfolding auth_of validate_length validate_auth_header
auth_of-header h a i n = ground (arith, a, i, (bytes_eq.beq_iff h.scheme_name auth_scheme_name).1 n)

module _ (rlp : Rlp) where
  open rlp use {encode, decode, consume_item, consume_length_prefix, serialize_int, deserialize_int}

  -- bytes that start with a tag of 32 bytes and an item, and end with some more
  pub record IsMessage (tag : Bytes) (x : Item) (encrypted : Bytes) : Type 0 where
    pub tag_fits : length tag ≡ 32
    pub some_left : 0 < length encrypted
    pub read_back : IsReadBack rlp x
    pub fits : length (tag ++ encode x ++ encrypted) ≤ 1280

  length-message :
      (tag middle encrypted : Bytes)
      → length (tag ++ middle ++ encrypted) ≡ length tag + length middle + length encrypted
  length-message tag middle encrypted =
      omega (arith, length-append (tag ++ middle) encrypted, length-append tag middle)

  decode_auth-message :
      (tag : Bytes) (x : Item) (encrypted : Bytes) (a : Auth)
      → IsMessage tag x encrypted
      → auth_of x ≡ ok a
      → decode_auth rlp (tag ++ encode x ++ encrypted) ≡ ok (a, 32 + length (encode x))
  unfolding decode_auth
  decode_auth-message tag x encrypted a m h =
      let consumed = m.read_back.consume_item-encode tag encrypted in
      let at : consume_item (tag ++ encode x ++ encrypted) 32 ≡ some (x, 32 + length (encode x)) =
        ap (consume_item (tag ++ encode x ++ encrypted)) (sym m.tag_fits)
        ∙ consumed
        ∙ ap (λ (n : ℕ). some (x, n + length (encode x))) m.tag_fits in
      rw (at, h) refl

  rest-message :
      (tag middle encrypted : Bytes)
      → length tag ≡ 32
      → drop (32 + length middle) (tag ++ middle ++ encrypted) ≡ encrypted
  rest-message tag middle encrypted h =
      drop-append (tag ++ middle) encrypted (32 + length middle)
        (omega (arith, length-append tag middle))

  first-message :
      (tag middle encrypted : Bytes) → length tag ≡ 32 → take 32 (tag ++ middle ++ encrypted) ≡ tag
  first-message tag middle encrypted h =
      ap (take 32) (append_assoc tag middle encrypted) ∙ take-append tag (middle ++ encrypted) 32 h

  decode_message_packet-message :
      (tag : Bytes) (x : Item) (encrypted : Bytes) (a : Auth)
      → IsMessage tag x encrypted
      → auth_of x ≡ ok a
      → decode_message_packet rlp (tag ++ encode x ++ encrypted)
        ≡ ok (message_packet_of tag a encrypted)
  unfolding decode_message_packet validate_message_packet_size validate_max_packet_size
      validate_tag_prefix
  decode_message_packet-message tag x encrypted a m h = ground (
    arith,
    length-message tag (encode x) encrypted,
    decode_auth-message tag x encrypted a m h,
    first-message tag (encode x) encrypted m.tag_fits,
    rest-message tag (encode x) encrypted m.tag_fits,
  )

  decode_packet-message :
      (tag : Bytes) (x : Item) (encrypted : Bytes) (a : Auth)
      → IsMessage tag x encrypted
      → auth_of x ≡ ok a
      → decode_packet rlp (tag ++ encode x ++ encrypted) ≡ ok (message_packet_of tag a encrypted)
  unfolding decode_packet
  decode_packet-message tag x encrypted a m h =
      let bytes = tag ++ encode x ++ encrypted in
      let prefix : consume_length_prefix bytes 32 ≡ some m.read_back.size =
        ap (consume_length_prefix bytes) (sym m.tag_fits)
        ∙ m.read_back.consume_length_prefix-encode tag encrypted in
      ground (
        arith,
        prefix,
        length-message tag (encode x) encrypted,
        decode_message_packet-message tag x encrypted a m h,
      )

  pub record IsWhoAreYou (p : WhoAreYouPacket) : Type 0 where
    pub magic_fits : length p.magic ≡ 32
    pub token_fits : len p.token ≡ 12
    pub read_back : IsReadBack rlp (who_are_you_item rlp p)
    pub int_read_back :
        deserialize_int (bytes_item (serialize_int p.enr_sequence_number))
        ≡ ok p.enr_sequence_number
    pub not_empty : 0 < length (encode (who_are_you_item rlp p))
    pub fits : length (encode (who_are_you_item rlp p)) ≤ 56

  decode_who_are_you_packet-encode :
      (p : WhoAreYouPacket)
      → IsWhoAreYou p
      → decode_who_are_you_packet rlp (p.magic ++ encode (who_are_you_item rlp p)) ≡ ok p
  unfolding decode_who_are_you_packet decode_who_are_you_payload validate_who_are_you_packet_size
      validate_max_packet_size
  decode_who_are_you_packet-encode p v =
      let encoded = encode (who_are_you_item rlp p) in
      let bytes = p.magic ++ encoded in
      let size : length bytes ≡ 32 + length encoded =
        omega (arith, length-append p.magic encoded, v.magic_fits) in
      let payload : decode (drop 32 bytes) ≡ some (who_are_you_item rlp p) =
        ap decode (drop-append p.magic encoded 32 v.magic_fits) ∙ v.read_back.decode-encode in
      let magic : take 32 bytes ≡ p.magic = take-append p.magic encoded 32 v.magic_fits in
      ground (arith, size, payload, v.int_read_back, v.token_fits, magic)

  decode_packet-who_are_you :
      (p : WhoAreYouPacket)
      → IsWhoAreYou p
      → decode_packet rlp (p.magic ++ encode (who_are_you_item rlp p)) ≡ ok (who_are_you p)
  unfolding decode_packet
  decode_packet-who_are_you p v =
      let encoded = encode (who_are_you_item rlp p) in
      let bytes = p.magic ++ encoded in
      let size : length bytes ≡ 32 + length encoded =
        omega (arith, length-append p.magic encoded, v.magic_fits) in
      let prefix : consume_length_prefix bytes 32 ≡ some v.read_back.size =
        ap₂ consume_length_prefix (sym (append-nil bytes)) (sym v.magic_fits)
        ∙ v.read_back.consume_length_prefix-encode p.magic [] in
      ground (arith, prefix, size, decode_who_are_you_packet-encode p v)

  -- A packet that its method `to_wire_bytes` can write and that `decode_packet` takes for one of its
  -- kind.
  abbrev pub IsPacket : Packet → Type 0
  IsPacket (auth_tag p) =
      IsMessage p.tag (bytes_item p.auth_tag) p.encrypted_message × (length p.auth_tag ≡ 12)
  IsPacket (auth_header p) =
      IsMessage p.tag (auth_header_item p.auth_header) p.encrypted_message
      × (length p.auth_header.auth_tag ≡ 12)
      × (length p.auth_header.id_nonce ≡ 32)
      × (p.auth_header.scheme_name ≡ auth_scheme_name)
  IsPacket (who_are_you p) = IsWhoAreYou p

  -- A packet of each kind is written, and what is written is decoded to the packet.
  pub decode_packet-to_wire_bytes :
      (p : Packet)
      → IsPacket p
      → (bytes : Bytes) × (to_wire_bytes rlp p ≡ ok bytes) × (decode_packet rlp bytes ≡ ok p)
  unfolding to_wire_bytes auth_header_to_wire_bytes auth_tag_to_wire_bytes who_are_you_to_wire_bytes
      validate_max_packet_size validate_who_are_you_packet_size
  decode_packet-to_wire_bytes (auth_tag p) v = (
    p.tag ++ encode (bytes_item p.auth_tag) ++ p.encrypted_message,
    ground (arith, v.0.fits),
    decode_packet-message p.tag (bytes_item p.auth_tag) p.encrypted_message (nonce p.auth_tag) v.0
        (auth_of-nonce p.auth_tag v.1),
  )
  decode_packet-to_wire_bytes (auth_header p) v = (
    p.tag ++ encode (auth_header_item p.auth_header) ++ p.encrypted_message,
    ground (arith, v.0.fits),
    decode_packet-message p.tag (auth_header_item p.auth_header) p.encrypted_message
        (header p.auth_header) v.0 (auth_of-header p.auth_header v.1 v.2 v.3),
  )
  decode_packet-to_wire_bytes (who_are_you p) v = (
    p.magic ++ encode (who_are_you_item rlp p),
    ground (
      arith,
      v.magic_fits,
      v.not_empty,
      v.fits,
      length-append p.magic (encode (who_are_you_item rlp p)),
    ),
    decode_packet-who_are_you p v,
  )
