-- ===== src/Wire/WhoAreYou.antt =====
-- `WhoAreYouPacket` of ddht/v5_1/packets.py: the challenge that answers an unknown sender.
use ddht.Prelude.{
  ℕ, ◌^◌, ◌<◌, ◌≡◌, ◌++◌, nat_beq, ltb, length, take, drop, take-append, drop-append, length-append,
  arith, nat_beq_iff, take_of_length-le, refl,
}
use ddht.Prelude.Bytes.{Bytes, from_bytes, to_bytes, length-to_bytes, from_bytes-to_bytes}
use ddht.Wire.Error.{Result, ok, decoding_error, struct_error, ◌>>◌, require}

abbrev pub who_are_you_packet_size : ℕ
who_are_you_packet_size = 24

pub record WhoAreYouPacket : Type 0 where
  pub id_nonce : Bytes
  pub enr_sequence_number : ℕ

-- `struct.pack(">Q", n)` takes what fits 8 bytes
unfoldable pub to_wire_bytes : WhoAreYouPacket → Result Bytes
to_wire_bytes p = do
  require (ltb p.enr_sequence_number (2 ^ 64)) struct_error
  ok (p.id_nonce ++ to_bytes 8 p.enr_sequence_number)

unfoldable pub from_wire_bytes : Bytes → Result WhoAreYouPacket
from_wire_bytes data_bytes = do
  require (nat_beq (length data_bytes) who_are_you_packet_size) decoding_error
  let id_nonce = take 16 data_bytes
  let enr_sequence_number = from_bytes (take 8 (drop 16 data_bytes))
  ok (record { id_nonce = id_nonce; enr_sequence_number = enr_sequence_number })

pub record IsWhoAreYouPacket (p : WhoAreYouPacket) : Type 0 where
  pub uint128_nonce : length p.id_nonce ≡ 16
  pub uint64_number : p.enr_sequence_number < 2 ^ 64

pub who_are_you_round_trip :
    (p : WhoAreYouPacket)
    → IsWhoAreYouPacket p
    → (b : Bytes) × (to_wire_bytes p ≡ ok b) × (from_wire_bytes b ≡ ok p)
unfolding to_wire_bytes from_wire_bytes
who_are_you_round_trip p v = (
  p.id_nonce ++ number,
  ground (arith, v.uint64_number),
  rw
      (
        (nat_beq_iff _ who_are_you_packet_size).1 whole,
        take-append p.id_nonce number 16 v.uint128_nonce,
        drop-append p.id_nonce number 16 v.uint128_nonce,
        take_of_length-le 8 number (omega (arith, length-to_bytes 8 p.enr_sequence_number)),
        from_bytes-to_bytes 8 p.enr_sequence_number (omega (arith, v.uint64_number)),
      )
      refl,
)
  where
    number : Bytes
    number = to_bytes 8 p.enr_sequence_number

    whole : length (p.id_nonce ++ number) ≡ who_are_you_packet_size
    whole = omega (
      arith,
      length-append p.id_nonce number,
      length-to_bytes 8 p.enr_sequence_number,
      v.uint128_nonce,
    )
