-- ===== src/V5/Packets.antt =====
-- ddht/v5/packets.py. The package rlp, `hashlib.sha256`, the records (eth_enr) and the messages are
-- parameters; AES-GCM is that of Wire/Packet.
pub mod Messages
pub mod RoundTrip
pub mod Secrets
use ddht.Prelude.{
  ℕ, ◌+◌, ◌≡◌, Bool, true, false, Option, none, some, List, [], ◌∷◌, ◌++◌, nat_beq, ltb, leb, not,
  ◌==◌, length, take, drop, replicate, if◌then◌else◌, ◌-◌,
}
use ddht.Prelude.Bytes.{Bytes, bytes_eq, from_bytes}
use ddht.V5.Rlp.{Rlp, Item, Items, bytes_item, list_item, end, item, len, items_length}
use ddht.Wire.Error.{Error, Result, ok, raise, validation_error, rlp_error, ◌>>=◌, ◌>>◌, require}
use ddht.Wire.Packet.{Cipher, aesgcm_encrypt, aesgcm_decrypt, validate_length, nonce_size}

-- ddht/v5/constants.py and ddht/constants.py
abbrev pub tag_size : ℕ
tag_size = 32

abbrev pub magic_size : ℕ
magic_size = 32

abbrev pub id_nonce_size : ℕ
id_nonce_size = 32

abbrev pub discovery_max_packet_size : ℕ
discovery_max_packet_size = 1280

abbrev pub auth_response_version : ℕ
auth_response_version = 5

-- `b"gcm"`
abbrev pub auth_scheme_name : Bytes
auth_scheme_name = 103 ∷ 99 ∷ 109 ∷ []

-- `b"WHOAREYOU"`
abbrev pub who_are_you_magic_suffix : Bytes
who_are_you_magic_suffix = 87 ∷ 72 ∷ 79 ∷ 65 ∷ 82 ∷ 69 ∷ 89 ∷ 79 ∷ 85 ∷ []

abbrev pub zero_nonce : Bytes
zero_nonce = replicate nonce_size 0

pub record AuthHeader : Type 0 where
  pub auth_tag : Bytes
  pub id_nonce : Bytes
  pub scheme_name : Bytes
  pub ephemeral_public_key : Bytes
  pub encrypted_auth_response : Bytes

pub record AuthHeaderPacket : Type 0 where
  pub tag : Bytes
  pub auth_header : AuthHeader
  pub encrypted_message : Bytes

pub record AuthTagPacket : Type 0 where
  pub tag : Bytes
  pub auth_tag : Bytes
  pub encrypted_message : Bytes

-- `token` and `id_nonce` are byte strings where a packet is made; where one is decoded, nothing
-- says that they are
pub record WhoAreYouPacket : Type 0 where
  pub magic : Bytes
  pub token : Item
  pub id_nonce : Item
  pub enr_sequence_number : ℕ

pub data Packet : Type 0 where
  who_are_you : WhoAreYouPacket → Packet
  auth_header : AuthHeaderPacket → Packet
  auth_tag : AuthTagPacket → Packet

-- what a call of a package returns, or the exception that the code raises for its own
abbrev pub or_raise {ℓ} : {A : Type ℓ} → Error → Option A → Result A
or_raise e none = raise e
or_raise e (some a) = ok a

unfoldable pub validate_max_packet_size : Bytes → Result (Unit {0})
validate_max_packet_size encoded_packet =
    require (leb (length encoded_packet) discovery_max_packet_size) validation_error

unfoldable pub validate_tag_prefix : Bytes → Result (Unit {0})
validate_tag_prefix encoded_packet = require (leb tag_size (length encoded_packet)) validation_error

-- where there are fewer bytes than the prefix, the difference is negative in Python and 0 here, and
-- the packet has been refused
unfoldable pub validate_who_are_you_packet_size : Bytes → Result (Unit {0})
validate_who_are_you_packet_size encoded_packet = do
  validate_max_packet_size encoded_packet
  require (leb magic_size (length encoded_packet)) validation_error
  require (leb 1 (length encoded_packet - magic_size)) validation_error

unfoldable pub validate_message_packet_size : Bytes → Result (Unit {0})
validate_message_packet_size encoded_packet = do
  validate_max_packet_size encoded_packet
  validate_tag_prefix encoded_packet
  require (leb 1 (length encoded_packet - tag_size)) validation_error

unfoldable pub validate_auth_header : AuthHeader → Result (Unit {0})
validate_auth_header h = do
  validate_length h.auth_tag nonce_size
  require (h.scheme_name == auth_scheme_name) validation_error
  validate_length h.id_nonce id_nonce_size

-- the elements of the list, once each is known to be bytes; the first that is not is refused
abbrev pub all_bytes : Items → Result (List Bytes)
all_bytes end = ok []
all_bytes (item (bytes_item bs) xs) = all_bytes xs >>= λ rest. ok (bs ∷ rest)
all_bytes (item (list_item ys) xs) = raise validation_error

abbrev pub auth_header_of : List Bytes → Result AuthHeader
auth_header_of (a ∷ b ∷ c ∷ d ∷ e ∷ []) = ok (record {
  auth_tag = a;
  id_nonce = b;
  scheme_name = c;
  ephemeral_public_key = d;
  encrypted_auth_response = e;
})
auth_header_of _ = raise validation_error

-- the sequence that rlp makes of the named tuple
abbrev pub auth_header_item : AuthHeader → Item
auth_header_item h = list_item (
    item (bytes_item h.auth_tag) (
      item (bytes_item h.id_nonce) (
        item (bytes_item h.scheme_name) (
          item (bytes_item h.ephemeral_public_key)
            (item (bytes_item h.encrypted_auth_response) end)))))

-- what `_decode_auth` returns: a nonce or a header
pub data Auth : Type 0 where
  nonce : Bytes → Auth
  header : AuthHeader → Auth

abbrev pub is_list : Item → Result Items
is_list (bytes_item bs) = raise validation_error
is_list (list_item xs) = ok xs

abbrev pub is_bytes : Item → Result Bytes
is_bytes (bytes_item bs) = ok bs
is_bytes (list_item xs) = raise validation_error

-- a list of three elements
abbrev pub three_of : Items → Result (Item × Item × Item)
three_of (item a (item b (item c end))) = ok (a, b, c)
three_of _ = raise validation_error

abbrev pub auth_of : Item → Result Auth
unfolding validate_length validate_auth_header
auth_of (bytes_item bs) = do validate_length bs nonce_size; ok (nonce bs)
auth_of (list_item xs) = do
  require (nat_beq (items_length xs) 5) validation_error
  elements ← all_bytes xs
  h ← auth_header_of elements
  validate_auth_header h
  ok (header h)

abbrev pub message_packet_of : Bytes → Auth → Bytes → Packet
message_packet_of tag (nonce n) encrypted_message =
    auth_tag (record { tag = tag; auth_tag = n; encrypted_message = encrypted_message })
message_packet_of tag (header h) encrypted_message =
    auth_header (record { tag = tag; auth_header = h; encrypted_message = encrypted_message })

module _ (rlp : Rlp) where
  open rlp use {encode, decode, consume_item, consume_length_prefix, serialize_int, deserialize_int}

  -- the methods `to_wire_bytes`
  unfoldable pub auth_header_to_wire_bytes : AuthHeaderPacket → Result Bytes
  auth_header_to_wire_bytes p =
      let encoded_packet =
        p.tag ++ encode (auth_header_item p.auth_header) ++ p.encrypted_message in
      validate_max_packet_size encoded_packet >> ok encoded_packet

  unfoldable pub auth_tag_to_wire_bytes : AuthTagPacket → Result Bytes
  auth_tag_to_wire_bytes p =
      let encoded_packet = p.tag ++ encode (bytes_item p.auth_tag) ++ p.encrypted_message in
      validate_max_packet_size encoded_packet >> ok encoded_packet

  abbrev pub who_are_you_item : WhoAreYouPacket → Item
  who_are_you_item p =
      list_item (
        item p.token
          (item p.id_nonce (item (bytes_item (serialize_int p.enr_sequence_number)) end)))

  unfoldable pub who_are_you_to_wire_bytes : WhoAreYouPacket → Result Bytes
  who_are_you_to_wire_bytes p =
      let encoded_packet = p.magic ++ encode (who_are_you_item p) in
      validate_who_are_you_packet_size encoded_packet >> ok encoded_packet

  unfoldable pub to_wire_bytes : Packet → Result Bytes
  to_wire_bytes (who_are_you p) = who_are_you_to_wire_bytes p
  to_wire_bytes (auth_header p) = auth_header_to_wire_bytes p
  to_wire_bytes (auth_tag p) = auth_tag_to_wire_bytes p

  unfoldable pub decode_who_are_you_payload : Bytes → Result (Item × Item × ℕ)
  decode_who_are_you_payload encoded_packet = do
    payload ← or_raise validation_error (decode (drop magic_size encoded_packet))
    elements ← is_list payload
    fields ← three_of elements
    enr_seq ← deserialize_int fields.2
    require (nat_beq (len fields.0) nonce_size) validation_error
    ok (fields.0, fields.1, enr_seq)

  unfoldable pub decode_who_are_you_packet : Bytes → Result WhoAreYouPacket
  decode_who_are_you_packet encoded_packet = do
    validate_who_are_you_packet_size encoded_packet
    payload ← decode_who_are_you_payload encoded_packet
    ok (record {
      magic = take magic_size encoded_packet;
      token = payload.0;
      id_nonce = payload.1;
      enr_sequence_number = payload.2;
    })

  unfoldable pub decode_auth : Bytes → Result (Auth × ℕ)
  decode_auth encoded_packet = do
    consumed ← or_raise validation_error (consume_item encoded_packet tag_size)
    auth ← auth_of consumed.0
    ok (auth, consumed.1)

  unfoldable pub decode_message_packet : Bytes → Result Packet
  decode_message_packet encoded_packet = do
    validate_message_packet_size encoded_packet
    auth ← decode_auth encoded_packet
    ok (message_packet_of (take tag_size encoded_packet) auth.0 (drop auth.1 encoded_packet))

  -- `get_packet_decoder` and the call of what it returns
  unfoldable pub decode_packet : Bytes → Result Packet
  decode_packet encoded_packet = do
    require (leb (magic_size + 1) (length encoded_packet)) validation_error
    rlp_size ← or_raise validation_error (consume_length_prefix encoded_packet magic_size)
    let expected_who_are_you_size = magic_size + 1 + rlp_size in
        if ltb expected_who_are_you_size (length encoded_packet)
        then decode_message_packet encoded_packet
        else if nat_beq (length encoded_packet) expected_who_are_you_size
        then decode_who_are_you_packet encoded_packet >>= (λ p. ok (who_are_you p))
        else raise validation_error
