-- ===== src/Wire/Header/RoundTrip.antt =====
-- Encoding and decoding of the header, ddht/v5_1/packets.py.
use mathlib.Core.Path.{ap₂}
use ddht.Prelude.{
  ℕ, ◌^◌, ◌<◌, ◌≡◌, refl, sym, ◌∙◌, ap, ◌++◌, arith, length, take, drop, take-append, length-take,
  length-drop, take-append-drop, take_of_length-le, nat_beq_iff, drop-append, length-append,
}
use ddht.Prelude.Bytes.{
  Bytes, AllBytes, from_bytes, to_bytes, from_bytes-to_bytes, to_bytes-from_bytes, from_bytes-lt,
  AllBytes-take, AllBytes-drop, length-to_bytes, bytes_eq,
}
use ddht.Wire.Error.{ok}
use ddht.Wire.Header.{
  Header, protocol_id_v5, packet_version_1, to_wire_bytes, from_wire_bytes, header_packet_size,
}

-- the headers that the protocol can send
pub record IsHeader (h : Header) : Type 0 where
  pub protocol : h.protocol_id ≡ protocol_id_v5
  pub version_1 : h.version ≡ packet_version_1
  pub uint8_flag : h.flag < 256
  pub uint96_nonce : length h.aes_gcm_nonce ≡ 12
  pub uint16_size : h.auth_data_size < 2 ^ 16

-- the 23 bytes
abbrev pub wire : Header → Bytes
wire h =
    protocol_id_v5
    ++ (packet_version_1 ++ (to_bytes 1 h.flag ++ (h.aes_gcm_nonce ++ to_bytes 2 h.auth_data_size)))

-- the decoder on the fields of a header
module _ (flag nonce size : Bytes) (one : length flag ≡ 1) (twelve : length nonce ≡ 12)
    (two : length size ≡ 2) where
  abbrev after_version : Bytes
  after_version = flag ++ (nonce ++ size)

  whole : length (protocol_id_v5 ++ (packet_version_1 ++ after_version)) ≡ header_packet_size
  whole =
      omega (arith, length-append flag (nonce ++ size), length-append nonce size, one, twelve, two)

  from_wire_bytes-fields :
      from_wire_bytes (protocol_id_v5 ++ (packet_version_1 ++ after_version))
      ≡ ok (record {
        protocol_id = protocol_id_v5;
        version = packet_version_1;
        flag = from_bytes flag;
        aes_gcm_nonce = nonce;
        auth_data_size = from_bytes size;
      })
  unfolding from_wire_bytes take drop
  from_wire_bytes-fields =
      rw
        (
          (nat_beq_iff _ header_packet_size).1 whole,
          take-append flag (nonce ++ size) 1 one,
          drop-append flag (nonce ++ size) 1 one,
          take-append nonce size 12 twelve,
          drop-append nonce size 12 twelve,
          take_of_length-le 2 size (omega arith),
        )
        refl

module _ (h : Header) (v : IsHeader h) where
  pub to_wire_bytes-wire : to_wire_bytes h ≡ ok (wire h)
  unfolding to_wire_bytes
  to_wire_bytes-wire = rw (v.protocol, v.version_1) (ground (arith, v.uint8_flag, v.uint16_size))

  pub length-wire : length (wire h) ≡ header_packet_size
  length-wire = omega (
    arith,
    length-append (to_bytes 1 h.flag) (h.aes_gcm_nonce ++ to_bytes 2 h.auth_data_size),
    length-append h.aes_gcm_nonce (to_bytes 2 h.auth_data_size),
    length-to_bytes 1 h.flag,
    length-to_bytes 2 h.auth_data_size,
    v.uint96_nonce,
  )

  pub from_wire_bytes-wire : from_wire_bytes (wire h) ≡ ok h
  from_wire_bytes-wire =
      from_wire_bytes-fields (to_bytes 1 h.flag) h.aes_gcm_nonce (to_bytes 2 h.auth_data_size)
        (length-to_bytes 1 h.flag) v.uint96_nonce (length-to_bytes 2 h.auth_data_size)
      ∙ rw
          (
            from_bytes-to_bytes 1 h.flag (omega (arith, v.uint8_flag)),
            from_bytes-to_bytes 2 h.auth_data_size (omega (arith, v.uint16_size)),
            ← v.protocol,
            ← v.version_1,
          )
          refl

-- the converse: a header that decodes has the bytes that it decodes from
module _ (b : Bytes) (h : Header) (bytes : AllBytes b) (e : from_wire_bytes b ≡ ok h) where
  abbrev rest : Bytes
  rest = drop 2 (drop 6 b)

  checks : (length b ≡ 23) × (take 6 b ≡ protocol_id_v5) × (take 2 (drop 6 b) ≡ packet_version_1)
  unfolding from_wire_bytes
  checks = ground (
    arith,
    e,
    bytes_eq.beq_iff (take 6 b) protocol_id_v5,
    bytes_eq.beq_iff (take 2 (drop 6 b)) packet_version_1,
  )

  fields : h ≡ (record {
    protocol_id = take 6 b;
    version = take 2 (drop 6 b);
    flag = from_bytes (take 1 rest);
    aes_gcm_nonce = take 12 (drop 1 rest);
    auth_data_size = from_bytes (take 2 (drop 12 (drop 1 rest)));
  })
  unfolding from_wire_bytes
  fields = ground (
    arith,
    e,
    bytes_eq.beq_iff (take 6 b) protocol_id_v5,
    bytes_eq.beq_iff (take 2 (drop 6 b)) packet_version_1,
  )

  lengths :
      (length (take 1 rest) ≡ 1)
      × (length (take 12 (drop 1 rest)) ≡ 12)
      × (length (drop 12 (drop 1 rest)) ≡ 2)
  lengths = omega (
    arith,
    checks.0,
    length-take 1 rest,
    length-drop 1 rest,
    length-drop 2 (drop 6 b),
    length-drop 6 b,
    length-take 12 (drop 1 rest),
    length-drop 12 (drop 1 rest),
  )

  bytes_of_rest : AllBytes rest
  bytes_of_rest = AllBytes-drop 2 (drop 6 b) (AllBytes-drop 6 b bytes)

  bytes_of_nonce : AllBytes (drop 1 rest)
  bytes_of_nonce = AllBytes-drop 1 rest bytes_of_rest

  last_two : take 2 (drop 12 (drop 1 rest)) ≡ drop 12 (drop 1 rest)
  last_two = take_of_length-le 2 (drop 12 (drop 1 rest)) (omega (arith, lengths.2))

  pub from_wire_bytes-IsHeader : IsHeader h
  from_wire_bytes-IsHeader = record {
    protocol = ap (λ x. x.protocol_id) fields ∙ checks.1;
    version_1 = ap (λ x. x.version) fields ∙ checks.2;
    uint8_flag = omega (
      arith,
      ap (λ (x : Header). x.flag) fields,
      from_bytes-lt (take 1 rest) (AllBytes-take 1 rest bytes_of_rest),
      ap (λ (n : ℕ). 256 ^ n) lengths.0,
    );
    uint96_nonce = ap (λ x. length x.aes_gcm_nonce) fields ∙ lengths.1;
    uint16_size = omega (
      arith,
      ap (λ (x : Header). x.auth_data_size) fields,
      ap from_bytes last_two,
      from_bytes-lt (drop 12 (drop 1 rest)) (AllBytes-drop 12 (drop 1 rest) bytes_of_nonce),
      ap (λ (n : ℕ). 256 ^ n) lengths.2,
    );
  }

  -- the bytes, cut into the fields and put together again
  wire-fields : wire h ≡ b
  wire-fields =
      rw
        (
          fields,
          last_two,
          to_bytes-from_bytes 1 (take 1 rest) (AllBytes-take 1 rest bytes_of_rest) lengths.0,
          to_bytes-from_bytes 2 (drop 12 (drop 1 rest))
              (AllBytes-drop 12 (drop 1 rest) bytes_of_nonce) lengths.2,
          take-append-drop 12 (drop 1 rest),
          take-append-drop 1 rest,
        )
        (ap₂ (λ x y. x ++ (y ++ rest)) (sym checks.1) (sym checks.2)
          ∙ ap (λ x. take 6 b ++ x) (take-append-drop 2 (drop 6 b))
          ∙ take-append-drop 6 b)

-- A header with the protocol's id and version, a flag below 256, a nonce of 12 bytes and a size
-- below 65536 is encoded in 23 bytes, from which it is decoded again.
pub header_round_trip :
    (h : Header)
    → IsHeader h
    → (b : Bytes) × (to_wire_bytes h ≡ ok b)
      × (length b ≡ header_packet_size)
      × (from_wire_bytes b ≡ ok h)
header_round_trip h v = (wire h, to_wire_bytes-wire h v, length-wire h v, from_wire_bytes-wire h v)

-- Bytes that decode to a header are its encoding, and the header is one that can be sent: no two
-- byte strings decode to the same header.
pub header_canonical :
    (b : Bytes) (h : Header)
    → AllBytes b
    → from_wire_bytes b ≡ ok h
    → IsHeader h × (to_wire_bytes h ≡ ok b)
header_canonical b h bytes e =
    let v = from_wire_bytes-IsHeader b h bytes e in
    (v, to_wire_bytes-wire h v ∙ ap ok (wire-fields b h bytes e))
