-- ===== src/Wire/Header.antt =====
-- `Header` of ddht/v5_1/packets.py: 23 bytes that say what follows.
pub mod RoundTrip
use ddht.Prelude.{
  ℕ, ◌^◌, List, [], ◌∷◌, ◌++◌, nat_beq, ltb, ◌==◌, if◌then◌else◌, length, take, drop,
}
use ddht.Prelude.Bytes.{Bytes, from_bytes, to_bytes, bytes_eq}
use ddht.Wire.Error.{
  Result, ok, raise, decoding_error, overflow_error, ◌>>=◌, ◌>>◌, require, uint8_to_bytes,
}

abbrev pub header_packet_size : ℕ
header_packet_size = 23

-- b"discv5"
abbrev pub protocol_id_v5 : Bytes
protocol_id_v5 = b'd' ∷ b'i' ∷ b's' ∷ b'c' ∷ b'v' ∷ b'5' ∷ []

-- b"\x00\x01"
abbrev pub packet_version_1 : Bytes
packet_version_1 = 0 ∷ 1 ∷ []

pub record Header : Type 0 where
  pub protocol_id : Bytes
  pub version : Bytes
  pub flag : ℕ
  pub aes_gcm_nonce : Bytes
  pub auth_data_size : ℕ

unfoldable pub to_wire_bytes : Header → Result Bytes
to_wire_bytes h = do
  flag ← uint8_to_bytes h.flag
  require (ltb h.auth_data_size (2 ^ 16)) overflow_error
  ok (h.protocol_id ++ (h.version ++ (flag ++ (h.aes_gcm_nonce ++ to_bytes 2 h.auth_data_size))))

-- `stream.read(n)` takes `n` bytes and moves on; `stream.read(1)[0]` is there, since the length has
-- been checked.
unfoldable pub from_wire_bytes : Bytes → Result Header
from_wire_bytes data_bytes = do
  require (nat_beq (length data_bytes) header_packet_size) decoding_error
  let protocol_id = take 6 data_bytes
  let after_protocol = drop 6 data_bytes
  require (protocol_id == protocol_id_v5) decoding_error
  let version = take 2 after_protocol
  let after_version = drop 2 after_protocol
  require (version == packet_version_1) decoding_error
  let flag = from_bytes (take 1 after_version)
  let after_flag = drop 1 after_version
  let aes_gcm_nonce = take 12 after_flag
  let auth_data_size = from_bytes (take 2 (drop 12 after_flag))
  ok (record {
    protocol_id = protocol_id;
    version = version;
    flag = flag;
    aes_gcm_nonce = aes_gcm_nonce;
    auth_data_size = auth_data_size;
  })
