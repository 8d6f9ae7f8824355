-- ===== src/Kademlia/Distance/Metric.antt =====
-- `compute_distance` and `compute_log_distance` of ddht/kademlia.py.
use ddht.Prelude.{ℕ, ◌^◌, ◌≤◌, ◌<◌, ◌≡◌, sym, ap, ◌≢◌, ◌↔◌, arith, ==_ne}
use ddht.Prelude.Bytes.{bytes_eq, from_bytes, from_bytes-injective, from_bytes-lt}
use ddht.Prelude.Bits.{xor_comm, xor_self, xor_injective, eq_of_xor-zero, xor-lt-pow}
use ddht.Prelude.Bits.Shift.{bit_length, bit_length-half, bit_length-le}
use ddht.Kademlia.Distance.{
  NodeId, IsNodeId, ok, raise, value_error, compute_distance, compute_log_distance,
}

pub from_node_id-injective :
    (a b : NodeId) → IsNodeId a → IsNodeId b → from_bytes a ≡ from_bytes b → a ≡ b
from_node_id-injective a b p q h =
    from_bytes-injective a b p.bytes q.bytes (omega (arith, p.size, q.size)) h

pub from_node_id-lt : (a : NodeId) → IsNodeId a → from_bytes a < 2 ^ 256
from_node_id-lt a p = omega (arith, from_bytes-lt a p.bytes, ap (λ (n : ℕ). 256 ^ n) p.size)

-- The distance is the same both ways.
pub compute_distance_comm : (a b : NodeId) → compute_distance a b ≡ compute_distance b a
unfolding compute_distance
compute_distance_comm a b = xor_comm (from_bytes a) (from_bytes b)

-- Two nodes at the same distance from a target are the same node.
pub compute_distance-injective :
    (target a b : NodeId)
    → IsNodeId a
    → IsNodeId b
    → compute_distance target a ≡ compute_distance target b
    → a ≡ b
unfolding compute_distance
compute_distance-injective target a b p q h =
    from_node_id-injective a b p q
      (xor_injective (from_bytes target) (from_bytes a) (from_bytes b) h)

-- The distance is 0 exactly from a node to itself.
pub compute_distance-zero_iff :
    (a b : NodeId) → IsNodeId a → IsNodeId b → (compute_distance a b ≡ 0) ↔ (a ≡ b)
unfolding compute_distance
compute_distance-zero_iff a b p q = (
  λ h. from_node_id-injective a b p q (eq_of_xor-zero (from_bytes a) (from_bytes b) h),
  λ e. rw e (xor_self (from_bytes b)),
)

pub compute_distance-lt : (a b : NodeId) → IsNodeId a → IsNodeId b → compute_distance a b < 2 ^ 256
unfolding compute_distance
compute_distance-lt a b p q =
    xor-lt-pow 256 (from_bytes a) (from_bytes b) (from_node_id-lt a p) (from_node_id-lt b q)

-- Between two different node ids the log distance is there, is the same both ways, and lies in
-- 1..256.
pub compute_log_distance_bounds :
    (a b : NodeId)
    → IsNodeId a
    → IsNodeId b
    → a ≢ b
    → (d : ℕ) × (compute_log_distance a b ≡ ok d)
      × (compute_log_distance b a ≡ ok d)
      × (1 ≤ d)
      × (d ≤ 256)
unfolding compute_log_distance
compute_log_distance_bounds a b p q ne = (
  bit_length (compute_distance a b),
  rw (==_ne a b ne),
  rw (==_ne b a (λ e. ne (sym e)), compute_distance_comm b a),
  omega (arith, bit_length-half (compute_distance a b) positive),
  bit_length-le 256 (compute_distance a b) (compute_distance-lt a b p q),
)
  where
    positive : 0 < compute_distance a b
    positive = ground (arith, (compute_distance-zero_iff a b p q).0)

-- The log distance raises exactly from a node to itself.
pub compute_log_distance-raises_iff :
    (a b : NodeId) → (compute_log_distance a b ≡ raise value_error) ↔ (a ≡ b)
unfolding compute_log_distance
compute_log_distance-raises_iff a b = ground (arith, bytes_eq.beq_iff a b)
