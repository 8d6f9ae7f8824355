-- ===== src/Tests/V5Secrets.antt =====
-- ddht/v5/packets.py with a handshake packet and a message.
use ddht.Tests.ShortRlp.{short_rlp}
use ddht.V5.Rlp.{Items, bytes_item, end, item}
use ddht.V5.Packets.{AuthHeaderPacket, AuthTagPacket}
use ddht.V5.Packets.Messages.{
  Formats, prepare_auth_header, prepare_auth_tag, decrypt_auth_response,
  decrypt_auth_header_message, decrypt_auth_tag_message,
}
use ddht.V5.Packets.Secrets.{IsReadable, IsResponse, prepare_auth_header-decrypt}
use ddht.Prelude.{◌≡◌, refl, [], ◌∷◌, Option, some, none, replicate, arith, true, take, drop}
use ddht.Prelude.Bytes.{Bytes, from_bytes}
use ddht.Wire.Error.{ok}
use ddht.Tests.Wire.{clear}

-- a record is its bytes, and a message is the bytes after its type
abbrev pub enr_bytes : Items → Option Bytes
enr_bytes (item (bytes_item bs) end) = some bs
enr_bytes _ = none

abbrev pub formats : Formats
formats = record {
  Enr = Bytes;
  enr_items = λ bs. item (bytes_item bs) end;
  deserialize_enr = enr_bytes;
  Message = Bytes;
  message_bytes = λ m. 1 ∷ m;
  is_registered = λ n. true;
  rlp_decode = λ n bs. some bs;
}

abbrev key : Bytes
key = replicate 16 1

abbrev pub auth_tag : Bytes
auth_tag = replicate 12 2

ping-IsReadable : IsReadable short_rlp clear formats (8 ∷ 9 ∷ [])
ping-IsReadable = record {
  message_type = 1;
  encoded = 8 ∷ 9 ∷ [];
  bytes = refl;
  registered = refl;
  read_back = refl;
}

signed-IsResponse : IsResponse short_rlp clear formats (4 ∷ 4 ∷ []) (some (6 ∷ 7 ∷ []))
unfolding take drop
signed-IsResponse = record {
  version_read_back = unfold from_bytes in refl;
  read_back = refl;
  enr_read_back = (omega arith, refl);
}

prepare_auth_header-decrypt_example :
    (p : AuthHeaderPacket) × (q : AuthTagPacket) × (prepare_auth_header short_rlp clear formats
        (0 ∷ [])
        auth_tag
        (5 ∷ [])
        (8 ∷ 9 ∷ [])
        key
        (4 ∷ 4 ∷ [])
        key
        (some (6 ∷ 7 ∷ []))
        (3 ∷ [])
      ≡ ok p)
    × (decrypt_auth_response short_rlp clear formats p key ≡ ok (4 ∷ 4 ∷ [], some (6 ∷ 7 ∷ [])))
    × (decrypt_auth_header_message short_rlp clear formats p key ≡ ok (8 ∷ 9 ∷ []))
    × (prepare_auth_tag short_rlp clear formats (0 ∷ []) auth_tag (8 ∷ 9 ∷ []) key ≡ ok q)
    × (decrypt_auth_tag_message short_rlp clear formats q key ≡ ok (8 ∷ 9 ∷ []))
prepare_auth_header-decrypt_example =
    prepare_auth_header-decrypt short_rlp clear formats (0 ∷ []) auth_tag (5 ∷ []) (8 ∷ 9 ∷ []) key
      (4 ∷ 4 ∷ []) key (some (6 ∷ 7 ∷ [])) (3 ∷ []) refl refl refl ping-IsReadable signed-IsResponse
