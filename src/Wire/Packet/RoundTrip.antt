-- ===== src/Wire/Packet/RoundTrip.antt =====
-- Encoding and decoding of whole packets, ddht/v5_1/packets.py.
use mathlib.Core.Path.{subst}
use mathlib.Core.List.{append_assoc}
use ddht.Prelude.{
  ℕ, ◌+◌, ◌≤◌, ◌<◌, ◌≡◌, refl, sym, ◌∙◌, ap, ◌++◌, List, nat_beq_iff, length, take, drop,
  take-append, drop-append, take-append-drop, length-append, length-take, arith, ◌^◌,
}
use ddht.Prelude.Bytes.{Bytes}
use ddht.Wire.Error.{ok, ok_inj, bind-ok, ◌>>=◌}
use ddht.Wire.Header
use ddht.Wire.Header.{Header, header_packet_size, protocol_id_v5, packet_version_1}
use ddht.Wire.Header.RoundTrip.{
  IsHeader, wire, to_wire_bytes-wire, length-wire, from_wire_bytes-wire,
}
use ddht.Wire.Message
use ddht.Wire.Message.{IsMessagePacket}
use ddht.Wire.WhoAreYou
use ddht.Wire.WhoAreYou.{IsWhoAreYouPacket}
use ddht.Wire.Handshake.RoundTrip
use ddht.Wire.Handshake.RoundTrip.{IsHandshakePacket}
use ddht.Wire.Handshake.{EnrCodec}
use ddht.Wire.Packet.{
  encrypt_message, Cipher, AuthData, message, who_are_you, handshake, flag_of, Packet, PlainText,
  prepare, to_wire_bytes, decode_packet, decode_auth_data, auth_data_to_wire_bytes, aesctr_encrypt,
  aesctr_decrypt_stream,
}

-- what a list holds where a prefix of it is known
module _ {A : Type 0} (s x y : List A) (m n : ℕ) (lx : length x ≡ m) (ly : length y ≡ n) where
  prefix-split : take (length (x ++ y)) s ≡ x ++ y → (take m s ≡ x) × (take n (drop m s) ≡ y)
  prefix-split h = (
    ap (take m) whole ∙ take-append x (y ++ rest) m lx,
    ap (λ l. take n (drop m l)) whole
        ∙ ap (take n) (drop-append x (y ++ rest) m lx)
        ∙ take-append y rest n ly,
  )
    where
      rest : List A
      rest = drop (length (x ++ y)) s

      whole : s ≡ x ++ (y ++ rest)
      whole =
          sym (take-append-drop (length (x ++ y)) s) ∙ ap (λ l. l ++ rest) h ∙ append_assoc x y rest

module _ (cipher : Cipher) (c : EnrCodec) where
  open cipher use {length-ctr_encrypt, ctr_decrypt-append, ctr_encrypt}
  open c use {Enr}

  abbrev pub IsAuthData : AuthData Enr → Type 0
  IsAuthData (message p) = IsMessagePacket p
  IsAuthData (who_are_you p) = IsWhoAreYouPacket p
  IsAuthData (handshake p) = IsHandshakePacket c p

  auth_data_round_trip :
      (a : AuthData Enr)
      → IsAuthData a
      → (b : Bytes) × (auth_data_to_wire_bytes cipher c a ≡ ok b)
        × (decode_auth_data cipher c (flag_of a) b ≡ ok a)
  unfolding auth_data_to_wire_bytes decode_auth_data
  auth_data_round_trip (message p) v =
      let (b, e, d) = Message.message_round_trip p v in (b, e, rw d)
  auth_data_round_trip (who_are_you p) v =
      let (b, e, d) = WhoAreYou.who_are_you_round_trip p v in (b, e, rw d)
  auth_data_round_trip (handshake p) v =
      let (b, e, d) = RoundTrip.handshake_round_trip c p v in (b, e, rw d)

  -- the packets that a node sends: the header describes the auth data
  pub record IsPacket (p : Packet Enr) : Type 0 where
    pub block_iv : length p.iv ≡ 16
    pub long_id : 16 ≤ length p.dest_node_id
    pub header_ok : IsHeader p.header
    pub same_flag : p.header.flag ≡ flag_of p.auth_data
    pub auth_data_ok : IsAuthData p.auth_data
    pub same_size :
        auth_data_to_wire_bytes cipher c p.auth_data >>= (λ b. ok (length b))
        ≡ ok p.header.auth_data_size

  module _ (p : Packet Enr) (v : IsPacket p) (auth_bytes : Bytes)
      (e : auth_data_to_wire_bytes cipher c p.auth_data ≡ ok auth_bytes) where
    abbrev key : Bytes
    key = take 16 p.dest_node_id

    length-key : length key ≡ 16
    length-key = omega (arith, length-take 16 p.dest_node_id, v.long_id)

    abbrev plain : Bytes
    plain = wire p.header ++ auth_bytes

    abbrev masked : Bytes
    masked = ctr_encrypt key p.iv plain

    abbrev datagram : Bytes
    datagram = p.iv ++ (masked ++ p.message_cipher_text)

    to_wire_bytes-datagram : to_wire_bytes cipher c p ≡ ok datagram
    unfolding to_wire_bytes aesctr_encrypt
    to_wire_bytes-datagram =
        rw
          (
            e,
            to_wire_bytes-wire p.header v.header_ok,
            (nat_beq_iff (length key) 16).1 length-key,
            (nat_beq_iff (length p.iv) 16).1 v.block_iv,
          )
          refl

    open v use {same_flag, header_ok, block_iv, same_size}

    size : p.header.auth_data_size ≡ length auth_bytes
    size = sym (ok_inj (sym (ap (λ r. r >>= λ b. ok (length b)) e) ∙ same_size))

    -- the auth data, by its own round trip
    auth_data-decodes : decode_auth_data cipher c p.header.flag auth_bytes ≡ ok p.auth_data
    auth_data-decodes =
        let (b, w, d) = auth_data_round_trip p.auth_data v.auth_data_ok in
        rw (same_flag, ok_inj (sym e ∙ w)) d

    abbrev stream : Bytes
    stream = cipher.ctr_decrypt key p.iv (masked ++ p.message_cipher_text)

    -- the stream starts with the header and the auth data
    stream-split :
        (take header_packet_size stream ≡ wire p.header)
        × (take p.header.auth_data_size (drop header_packet_size stream) ≡ auth_bytes)
    stream-split =
        prefix-split stream (wire p.header) auth_bytes header_packet_size p.header.auth_data_size
          (length-wire p.header header_ok) (sym size)
          (ctr_decrypt-append key p.iv plain p.message_cipher_text)

    iv-datagram : take 16 datagram ≡ p.iv
    iv-datagram = take-append p.iv (masked ++ p.message_cipher_text) 16 block_iv

    rest-datagram : drop 16 datagram ≡ masked ++ p.message_cipher_text
    rest-datagram = drop-append p.iv (masked ++ p.message_cipher_text) 16 block_iv

    length-sent : length (p.iv ++ masked) ≡ 16 + header_packet_size + p.header.auth_data_size
    length-sent = omega (
      arith,
      length-append p.iv masked,
      length-ctr_encrypt key p.iv plain,
      length-append (wire p.header) auth_bytes,
      length-wire p.header header_ok,
      size,
      block_iv,
    )

    message-datagram :
        drop (16 + header_packet_size + p.header.auth_data_size) datagram ≡ p.message_cipher_text
    message-datagram =
        ap (drop (16 + header_packet_size + p.header.auth_data_size))
          (sym (append_assoc p.iv masked p.message_cipher_text))
        ∙ drop-append (p.iv ++ masked) p.message_cipher_text
            (16 + header_packet_size + p.header.auth_data_size) length-sent

    decode_packet-datagram : decode_packet cipher c datagram p.dest_node_id ≡ ok p
    unfolding decode_packet aesctr_decrypt_stream
    decode_packet-datagram =
        rw
          (
            iv-datagram,
            rest-datagram,
            (nat_beq_iff (length key) 16).1 length-key,
            (nat_beq_iff (length p.iv) 16).1 block_iv,
            stream-split.0,
            from_wire_bytes-wire p.header header_ok,
            stream-split.1,
            auth_data-decodes,
            message-datagram,
          )
          refl

-- A packet with an iv of 16 bytes and a receiver's id of 16 bytes or more, whose header describes
-- its auth data, is encoded without an error, and the receiver decodes the packet from the bytes.
pub packet_round_trip :
    (cipher : Cipher) (c : EnrCodec) (p : Packet c.Enr)
    → IsPacket cipher c p
    → (b : Bytes) × (to_wire_bytes cipher c p ≡ ok b)
      × (decode_packet cipher c b p.dest_node_id ≡ ok p)
packet_round_trip cipher c p v =
    let (b, e, d) = auth_data_round_trip cipher c p.auth_data v.auth_data_ok in
    (
      datagram cipher c p v b e,
      to_wire_bytes-datagram cipher c p v b e,
      decode_packet-datagram cipher c p v b e,
    )

flag_of-lt : {Enr : Type 0} (a : AuthData Enr) → flag_of a < 256
flag_of-lt (message p) = omega arith
flag_of-lt (who_are_you p) = omega arith
flag_of-lt (handshake p) = omega arith

-- the header that `prepare` makes
abbrev described : {Enr : Type 0} → Bytes → AuthData Enr → Bytes → Header
described nonce auth_data auth_bytes = record {
  protocol_id = protocol_id_v5;
  version = packet_version_1;
  flag = flag_of auth_data;
  aes_gcm_nonce = nonce;
  auth_data_size = length auth_bytes;
}

encoded_size : (h : Header) (b : Bytes) → Header.to_wire_bytes h ≡ ok b → h.auth_data_size < 2 ^ 16
unfolding Header.to_wire_bytes
encoded_size h b e = ground (arith, e)

-- Where a nonce has 12 bytes, an iv 16, a receiver's id at least 16, and auth data can be sent,
-- whatever `prepare` returns is a packet that the round trip applies to.
pub prepare-IsPacket :
    (cipher : Cipher) (c : EnrCodec) (nonce key : Bytes) (plain_text : PlainText)
    (auth_data : AuthData c.Enr) (dest_node_id iv : Bytes) (p : Packet c.Enr)
    → length nonce ≡ 12
    → length iv ≡ 16
    → 16 ≤ length dest_node_id
    → IsAuthData cipher c auth_data
    → prepare cipher c nonce key plain_text auth_data dest_node_id protocol_id_v5 iv ≡ ok p
    → IsPacket cipher c p
unfolding prepare
prepare-IsPacket cipher c nonce key plain_text auth_data dest iv p twelve sixteen long v h =
    let (auth_bytes, e0, h1) = bind-ok (auth_data_to_wire_bytes cipher c auth_data) _ p h in
    let (header_bytes, e1, h2) =
      bind-ok (Header.to_wire_bytes (described nonce auth_data auth_bytes)) _ p h1 in
    let (cipher_text, e2, h3) =
      bind-ok (encrypt_message cipher c key nonce plain_text (iv ++ (header_bytes ++ auth_bytes))) _
        p h2 in
    subst (IsPacket cipher c) (ok_inj h3) (record {
      block_iv = sixteen;
      long_id = long;
      header_ok = record {
        protocol = refl;
        version_1 = refl;
        uint8_flag = flag_of-lt auth_data;
        uint96_nonce = twelve;
        uint16_size = encoded_size (described nonce auth_data auth_bytes) header_bytes e1;
      };
      same_flag = refl;
      auth_data_ok = v;
      same_size = ap (λ r. r >>= λ b. ok (length b)) e0;
    })
