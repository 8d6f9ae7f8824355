-- ===== src/Prelude/Bits/Shift.antt =====
-- Shifts, masks and `int.bit_length`: how they act on the digits above and below a position.
use Prim.Native.Nat.{ℕ, zero, suc, ◌+◌, ◌-◌, ◌*◌, ◌/◌, ◌%◌, ◌^◌, ◌≤◌, ◌<◌, bit_and, bit_or, bit_xor}
use mathlib.Core.Path.{◌≡◌, refl, sym, ap, ◌∙◌}
use native.Mathlib.Nat.{pow-suc, pow-succ', div-div-eq-div-mul, one-le-pow}
use native.Mathlib.Omega.{arith}
use ddht.Prelude.Bits.{and_digit, or_digit, xor-half}

-- A shift by one more digit.
pub div-pow-suc : (a k : ℕ) → a / 2 ^ suc k ≡ a / 2 / 2 ^ k
div-pow-suc a k = rw (pow-succ' 2 k) (sym (div-div-eq-div-mul a 2 (2 ^ k)))

pub pow_add : (a b : ℕ) → 2 ^ (a + b) ≡ 2 ^ a * 2 ^ b
pow_add zero b = let e : 0 + b ≡ b = omega arith in omega (arith, ap (λ (t : ℕ). 2 ^ t) e)
pow_add (suc a) b = omega (
  arith,
  ap (λ (t : ℕ). 2 ^ t) (let e : suc a + b ≡ suc (a + b) = omega arith in e),
  pow-suc 2 (a + b),
  pow_add a b,
  ap (λ (t : ℕ). t * 2 ^ b) (pow-suc 2 a),
)

-- `(a ^ b) >> k` is `(a >> k) ^ (b >> k)`.
pub xor-div-pow : (k a b : ℕ) → bit_xor a b / 2 ^ k ≡ bit_xor (a / 2 ^ k) (b / 2 ^ k)
xor-div-pow zero a b =
    let p : (x : ℕ) → x / 2 ^ 0 ≡ x = λ x. omega arith in rw (p (bit_xor a b), p a, p b)
xor-div-pow (suc k) a b =
    rw (div-pow-suc (bit_xor a b) k, div-pow-suc a k, div-pow-suc b k, xor-half a b)
      (xor-div-pow k (a / 2) (b / 2))

-- A mask shifted left keeps the high digits.
pub and-mul-pow : (k a m : ℕ) → bit_and a (m * 2 ^ k) ≡ bit_and (a / 2 ^ k) m * 2 ^ k
and-mul-pow zero a m =
    let p : a / 2 ^ 0 ≡ a = omega arith in
    let q : m * 2 ^ 0 ≡ m = omega arith in rw (p, q) (omega arith)
and-mul-pow (suc k) a m = omega (
  arith,
  and_digit a (m * 2 ^ suc k),
  ap (λ (t : ℕ). m * t) (pow-suc 2 k),
  ap (bit_and (a / 2)) (
      let e : m * 2 ^ suc k / 2 ≡ m * 2 ^ k = omega (arith, ap (λ (t : ℕ). m * t) (pow-suc 2 k)) in
      e),
  and-mul-pow k (a / 2) m,
  ap (λ (t : ℕ). bit_and t m * 2 ^ suc k) (div-pow-suc a k),
  ap (λ (t : ℕ). bit_and (a / 2 / 2 ^ k) m * t) (pow-suc 2 k),
)

bit_and-zero : (a : ℕ) → bit_and a 0 ≡ 0
bit_and-zero a = go a a (omega arith)
  where
    go : (n a : ℕ) → a ≤ n → bit_and a 0 ≡ 0
    go n zero h = refl
    go zero (suc a) h = absurd (omega arith)
    go (suc n) (suc a) h = omega (arith, and_digit (suc a) 0, go n (suc a / 2) (omega arith))

pub bit_and-one : (a : ℕ) → bit_and a 1 ≡ a % 2
bit_and-one a = omega (arith, and_digit a 1, bit_and-zero (a / 2))

-- A mask of `k` ones keeps a number below `2 ^ k`.
pub and-low_mask : (k a : ℕ) → a < 2 ^ k → bit_and a (2 ^ k - 1) ≡ a
and-low_mask zero a h = let e : a ≡ 0 = omega arith in rw e refl
and-low_mask (suc k) a h = omega (
  arith,
  and_digit a (2 ^ suc k - 1),
  pow-suc 2 k,
  one-le-pow k 2 (omega arith),
  ap (bit_and (a / 2)) (let e : (2 ^ suc k - 1) / 2 ≡ 2 ^ k - 1 = omega (arith, pow-suc 2 k) in e),
  and-low_mask k (a / 2) (omega (arith, pow-suc 2 k)),
)

-- One bit of a number, in place.
pub and-pow : (k a : ℕ) → bit_and a (2 ^ k) ≡ a / 2 ^ k % 2 * 2 ^ k
and-pow k a = omega (
  arith,
  ap (bit_and a) (let e : 1 * 2 ^ k ≡ 2 ^ k = omega arith in e),
  and-mul-pow k a 1,
  ap (λ (t : ℕ). t * 2 ^ k) (bit_and-one (a / 2 ^ k)),
)

bit_or-zero : (a : ℕ) → bit_or a 0 ≡ a
bit_or-zero a = go a a (omega arith)
  where
    go : (n a : ℕ) → a ≤ n → bit_or a 0 ≡ a
    go n zero h = refl
    go zero (suc a) h = absurd (omega arith)
    go (suc n) (suc a) h = omega (arith, or_digit (suc a) 0, go n (suc a / 2) (omega arith))

-- `|` of disjoint digits is a sum.
pub or-mul-pow : (k q r : ℕ) → r < 2 ^ k → bit_or (q * 2 ^ k) r ≡ q * 2 ^ k + r
or-mul-pow zero q r h = let e : r ≡ 0 = omega arith in rw (e, bit_or-zero) (omega arith)
or-mul-pow (suc k) q r h = omega (
  arith,
  or_digit (q * 2 ^ suc k) r,
  pow-suc 2 k,
  ap (λ (t : ℕ). q * t) (pow-suc 2 k),
  ap (λ (t : ℕ). bit_or t (r / 2))
      (let e : q * 2 ^ suc k / 2 ≡ q * 2 ^ k = omega (arith, ap (λ (t : ℕ). q * t) (pow-suc 2 k)) in
        e),
  or-mul-pow k q (r / 2) (omega (arith, pow-suc 2 k)),
)

-- `int.bit_length`, counting halvings; the number itself is enough fuel.
abbrev halvings : ℕ → ℕ → ℕ
halvings zero n = 0
halvings (suc fuel) n = elim n [ zero ↦ 0 | suc m ↦ suc (halvings fuel (suc m / 2)) ]

unfoldable pub bit_length : ℕ → ℕ
bit_length n = halvings n n

halvings-enough : (f g n : ℕ) → n ≤ f → n ≤ g → halvings f n ≡ halvings g n
halvings-enough zero zero zero p q = refl
halvings-enough zero (suc g) zero p q = refl
halvings-enough (suc f) zero zero p q = refl
halvings-enough (suc f) (suc g) zero p q = refl
halvings-enough zero g (suc n) p q = absurd (omega arith)
halvings-enough (suc f) zero (suc n) p q = absurd (omega arith)
halvings-enough (suc f) (suc g) (suc n) p q =
    ap suc (halvings-enough f g (suc n / 2) (omega arith) (omega arith))

pub bit_length-half : (n : ℕ) → 0 < n → bit_length n ≡ suc (bit_length (n / 2))
unfolding bit_length
bit_length-half zero h = elim h [ ]
bit_length-half (suc n) h =
    ap suc (halvings-enough n (suc n / 2) (suc n / 2) (omega arith) (omega arith))

pub bit_length-zero : bit_length 0 ≡ 0
unfolding bit_length
bit_length-zero = refl

-- A number below `2 ^ k` has at most `k` digits.
pub bit_length-le : (k n : ℕ) → n < 2 ^ k → bit_length n ≤ k
bit_length-le k zero h = omega (arith, bit_length-zero)
bit_length-le zero (suc n) h = absurd (omega arith)
bit_length-le (suc k) (suc n) h = omega (
  arith,
  bit_length-half (suc n) (omega arith),
  bit_length-le k (suc n / 2) (omega (arith, pow-suc 2 k)),
)

-- A number whose digits end at position `k` has `k + 1` of them.
pub bit_length-top : (k n : ℕ) → n / 2 ^ k ≡ 1 → bit_length n ≡ suc k
bit_length-top zero n h = let e : n ≡ 1 = omega arith in rw e (unfold bit_length in refl)
bit_length-top (suc k) zero h = absurd (omega (arith, div-pow-suc 0 k, div-zero k))
  where
    div-zero : (k : ℕ) → 0 / 2 ^ k ≡ 0
    div-zero k = omega arith
bit_length-top (suc k) (suc n) h = omega (
  arith,
  bit_length-half (suc n) (omega arith),
  bit_length-top k (suc n / 2) (sym (div-pow-suc (suc n) k) ∙ h),
)
