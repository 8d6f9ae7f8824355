-- ===== src/Kademlia/Distance.antt =====
-- The XOR metric of ddht/kademlia.py: `compute_distance`, `compute_log_distance` and
-- `at_log_distance`. A node id is its 32 bytes. The random low bits that `at_log_distance` draws
-- are an argument.
pub mod Metric
pub mod Target
use Prim.Native.Nat.{bit_and, bit_or, bit_xor}
use ddht.Prelude.{
  ℕ, ◌+◌, ◌-◌, ◌*◌, ◌^◌, ◌≡◌, Bool, true, false, ◌||◌, nat_beq, ltb, leb, ◌==◌, if◌then◌else◌,
  length,
}
use ddht.Prelude.Bytes.{Bytes, AllBytes, from_bytes, to_bytes, bytes_eq}
use ddht.Prelude.Bits.Shift.{bit_length}

pub data Error : Type 0 where
  value_error type_error overflow_error index_error unreachable : Error

pub data Result {ℓ} (A : Type ℓ) : Type ℓ where
  ok : A → Result A
  raise : Error → Result A

infixl 5 ◌>>=◌
abbrev pub ◌>>=◌ {ℓ κ} : {A : Type ℓ} {B : Type κ} → Result A → (A → Result B) → Result B
ok a >>= f = f a
raise e >>= f = raise e

abbrev pub NodeId : Type 0
NodeId = Bytes

pub record IsNodeId (n : NodeId) : Type 0 where
  pub size : length n ≡ 32
  pub bytes : AllBytes n

unfoldable pub compute_distance : NodeId → NodeId → ℕ
compute_distance left_node_id right_node_id =
    let left_int = from_bytes left_node_id in
    let right_int = from_bytes right_node_id in bit_xor left_int right_int

unfoldable pub compute_log_distance : NodeId → NodeId → Result ℕ
compute_log_distance left_node_id right_node_id =
    if left_node_id == right_node_id
    then raise value_error
    else ok (bit_length (compute_distance left_node_id right_node_id))

-- `~node & mask` for a mask that is not negative: the digits of the mask that `node` lacks.
abbrev pub and_not : ℕ → ℕ → ℕ
and_not node mask = mask - bit_and node mask

-- `n.to_bytes(32, "big")`
abbrev pub to_node_id : ℕ → Result NodeId
to_node_id n = if ltb n (2 ^ 256) then ok (to_bytes 32 n) else raise overflow_error

-- The node id as a number, for a distance of at least 1.
unfoldable pub node_at_distance : ℕ → ℕ → ℕ → ℕ
node_at_distance node_as_int distance low_mask =
    let bits_in_common = 256 - (distance - 1) in
    let high_mask = (2 ^ bits_in_common - 1) * 2 ^ distance in
    let differential_bit = and_not node_as_int (2 ^ (distance - 1)) in
    bit_or (bit_or (bit_and node_as_int high_mask) differential_bit) low_mask

-- Python's `2 ** n` is a float for a negative `n`: `&` (at distance 0) and `<<` (above 257) then
-- raise a TypeError.
unfoldable pub at_log_distance : NodeId → ℕ → ℕ → Result NodeId
at_log_distance target distance low_mask =
    if nat_beq distance 0 || ltb 257 distance
    then raise type_error
    else to_node_id (node_at_distance (from_bytes target) distance low_mask)
