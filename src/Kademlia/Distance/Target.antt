-- ===== src/Kademlia/Distance/Target.antt =====
-- `at_log_distance` of ddht/kademlia.py.
use Prim.Native.Nat.{bit_and, bit_xor}
use native.Mathlib.Nat.{
  pow-suc, one-le-pow, add-mul-div_right, div-eq_of_lt, div-div-eq-div-mul, div-lt_iff_lt-mul,
}
use ddht.Prelude.{
  ℕ, zero, suc, ◌+◌, ◌-◌, ◌*◌, ◌/◌, ◌%◌, ◌^◌, ◌≤◌, ◌<◌, ◌≡◌, refl, sym, ap, ◌∙◌, arith, length,
  false, ==_ne, ◌==◌,
}
use ddht.Prelude.Bytes.{
  bytes_eq, from_bytes, to_bytes, length-to_bytes, to_bytes-AllBytes, from_bytes-to_bytes,
}
use ddht.Prelude.Bits.{xor_digit, xor_self}
use ddht.Prelude.Bits.Shift.{
  and-mul-pow, and-low_mask, and-pow, or-mul-pow, xor-div-pow, bit_length, bit_length-zero,
  bit_length-top, pow_add,
}
use ddht.Kademlia.Distance.{
  NodeId, IsNodeId, ok, compute_distance, compute_log_distance, node_at_distance, at_log_distance,
}
use ddht.Kademlia.Distance.Metric.{from_node_id-lt}

one_of_two : (b p : ℕ) → b < 2 → p - b * p ≡ (1 - b) * p
one_of_two zero p h = omega arith
one_of_two (suc zero) p h = omega arith
one_of_two (suc (suc b)) p h = absurd (omega arith)

-- `high * 2 ^ (k + 1)`, the other digit at position `k` and the drawn digits below it.
module _ (x k r : ℕ) (fits : x < 2 ^ 256) (near : k < 256) (drawn : r < 2 ^ k) where
  abbrev high : ℕ
  high = x / 2 ^ suc k

  abbrev flipped : ℕ
  flipped = 1 - x / 2 ^ k % 2

  high-lt : high < 2 ^ (255 - k)
  high-lt =
      (div-lt_iff_lt-mul (one-le-pow (suc k) 2 (omega arith))).1
        (omega (arith, pow_add (255 - k) (suc k), ap (λ (n : ℕ). 2 ^ n) total))
    where
      total : 255 - k + suc k ≡ 256
      total = omega arith

  next_power : 2 ^ (256 - k) ≡ 2 ^ (255 - k) * 2
  next_power =
      ap (λ (n : ℕ). 2 ^ n) (let e : 256 - k ≡ suc (255 - k) = omega arith in e)
      ∙ pow-suc 2 (255 - k)

  high_digits : bit_and x ((2 ^ (256 - k) - 1) * 2 ^ suc k) ≡ high * 2 ^ suc k
  high_digits = rw (and-mul-pow, and-low_mask (256 - k) high (omega (arith, high-lt, next_power)))

  flipped_digit : 2 ^ k - bit_and x (2 ^ k) ≡ flipped * 2 ^ k
  flipped_digit = rw and-pow (one_of_two (x / 2 ^ k % 2) (2 ^ k) (omega arith))

  flipped-le : flipped * 2 ^ k ≤ 2 ^ k
  flipped-le = let le : flipped ≤ 1 = omega arith in grind arith

  node_at_distance-sum : node_at_distance x (suc k) r ≡ (high * 2 + flipped) * 2 ^ k + r
  unfolding node_at_distance
  node_at_distance-sum =
      let pred : suc k - 1 ≡ k = omega arith in
      rw
        (
          pred,
          high_digits,
          flipped_digit,
          or-mul-pow (suc k) high (flipped * 2 ^ k)
              (omega (arith, flipped-le, pow-suc 2 k, one-le-pow k 2 (omega arith))),
          regroup,
          or-mul-pow k (high * 2 + flipped) r drawn,
        )
        refl
    where
      regroup : high * 2 ^ suc k + flipped * 2 ^ k ≡ (high * 2 + flipped) * 2 ^ k
      regroup = omega (arith, ap (λ (t : ℕ). high * t) (pow-suc 2 k))

  -- below position `k` the digits are drawn, from `k` on they are those of `high` and `flipped`
  node_at_distance-div : node_at_distance x (suc k) r / 2 ^ k ≡ high * 2 + flipped
  node_at_distance-div = rw node_at_distance-sum (
      ap (λ (t : ℕ). t / 2 ^ k)
        (let e : (high * 2 + flipped) * 2 ^ k + r ≡ r + (high * 2 + flipped) * 2 ^ k =
            omega arith in
          e)
      ∙ add-mul-div_right r (high * 2 + flipped) (one-le-pow k 2 (omega arith))
      ∙ omega (arith, div-eq_of_lt drawn))

  top_digit : bit_xor (x / 2 ^ k) (high * 2 + flipped) ≡ 1
  top_digit = omega (
    arith,
    xor_digit (x / 2 ^ k) (high * 2 + flipped),
    ap (λ (t : ℕ). bit_xor t ((high * 2 + flipped) / 2)) half,
    ap (bit_xor high) (let e : (high * 2 + flipped) / 2 ≡ high = omega arith in e),
    xor_self high,
  )
    where
      half : x / 2 ^ k / 2 ≡ high
      half = div-div-eq-div-mul x (2 ^ k) 2 ∙ ap (λ (t : ℕ). x / t) (sym (pow-suc 2 k))

  xor-node_at_distance : bit_length (bit_xor x (node_at_distance x (suc k) r)) ≡ suc k
  xor-node_at_distance = bit_length-top k (bit_xor x (node_at_distance x (suc k) r)) (
      xor-div-pow k x (node_at_distance x (suc k) r)
      ∙ ap (bit_xor (x / 2 ^ k)) node_at_distance-div
      ∙ top_digit)

  node_at_distance-lt : node_at_distance x (suc k) r < 2 ^ 256
  node_at_distance-lt =
      let total : 256 - k + k ≡ 256 = omega arith in
      let below : node_at_distance x (suc k) r / 2 ^ k < 2 ^ (256 - k) =
        omega (arith, node_at_distance-div, high-lt, next_power) in
      omega (
        arith,
        (div-lt_iff_lt-mul (one-le-pow k 2 (omega arith))).0 below,
        pow_add (256 - k) k,
        ap (λ (n : ℕ). 2 ^ n) total,
      )

module _ (target : NodeId) (p : IsNodeId target) where
  other_node :
      (k n : ℕ)
      → n < 2 ^ 256
      → bit_length (bit_xor (from_bytes target) n) ≡ suc k
      → compute_log_distance target (to_bytes 32 n) ≡ ok (suc k)
  unfolding compute_log_distance compute_distance
  other_node k n fits length = rw (differs, read, length)
    where
      read : from_bytes (to_bytes 32 n) ≡ n
      read = from_bytes-to_bytes 32 n fits

      differs : (target == to_bytes 32 n) ≡ false
      differs = ==_ne target (to_bytes 32 n) (λ same.
          let number : from_bytes target ≡ n = ap from_bytes same ∙ read in
          omega (
            arith,
            length,
            ap (λ (m : ℕ). bit_length (bit_xor m n)) number,
            ap bit_length (xor_self n),
            bit_length-zero,
          ))

  to_bytes-IsNodeId : (n : ℕ) → IsNodeId (to_bytes 32 n)
  to_bytes-IsNodeId n = record { size = length-to_bytes 32 n; bytes = to_bytes-AllBytes 32 n }

  -- For a distance from 1 to 256 and low bits below `2 ** (distance - 1)`, `at_log_distance`
  -- returns a node id, and its log distance from the target is the distance asked for.
  pub compute_log_distance-at_log_distance :
      (distance low_mask : ℕ)
      → 1 ≤ distance
      → distance ≤ 256
      → low_mask < 2 ^ (distance - 1)
      → (n : NodeId) × (at_log_distance target distance low_mask ≡ ok n)
        × IsNodeId n
        × (compute_log_distance target n ≡ ok distance)
  unfolding at_log_distance
  compute_log_distance-at_log_distance zero r low near drawn = absurd (omega arith)
  compute_log_distance-at_log_distance (suc k) r low near drawn = (
    to_bytes 32 (node_at_distance x (suc k) r),
    ground (arith, in_range),
    to_bytes-IsNodeId (node_at_distance x (suc k) r),
    other_node k (node_at_distance x (suc k) r) in_range
        (xor-node_at_distance x k r fits (omega arith) drawn'),
  )
    where
      x : ℕ
      x = from_bytes target

      drawn' : r < 2 ^ k
      drawn' = let e : suc k - 1 ≡ k = omega arith in rw e at drawn

      fits : x < 2 ^ 256
      fits = from_node_id-lt target p

      in_range : node_at_distance x (suc k) r < 2 ^ 256
      in_range = node_at_distance-lt x k r fits (omega arith) drawn'
