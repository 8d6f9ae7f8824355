-- ===== src/Prelude/Bytes.antt =====
-- Bytes as lists of numbers below 256, and their reading as big-endian integers:
-- `int.from_bytes(b, "big")` (also `big_endian_to_int`), `int.to_bytes(n, "big")`.
use Prim.Native.Nat.{ℕ, zero, suc, ◌+◌, ◌*◌, ◌/◌, ◌%◌, ◌^◌, ◌≤◌, ◌<◌}
use mathlib.Core.Path.{◌≡◌, refl, ap, ap₂, sym, ◌∙◌}
use mathlib.Core.List.{List, [], ◌∷◌, ◌++◌}
use native.Mathlib.Nat.{pow-suc}
use native.Mathlib.Omega.{arith}
use ddht.Prelude.Tests.{Eq, list_eq, nat_eq}
use ddht.Prelude.Lists.{length, length-append, take, drop}

abbrev pub Bytes : Type 0
Bytes = List ℕ

instance abbrev pub bytes_eq : Eq Bytes
bytes_eq = list_eq ⦃e = nat_eq⦄

-- every element is a byte
abbrev pub AllBytes : Bytes → Type 0
AllBytes [] = Unit
AllBytes (b ∷ bs) = (b < 256) × AllBytes bs

abbrev from_bytes_from : ℕ → Bytes → ℕ
from_bytes_from n [] = n
from_bytes_from n (b ∷ bs) = from_bytes_from (n * 256 + b) bs

unfoldable pub from_bytes : Bytes → ℕ
from_bytes bs = from_bytes_from 0 bs

-- the low `w` bytes; the caller checks that the number fits
unfoldable pub to_bytes : ℕ → ℕ → Bytes
to_bytes zero v = []
to_bytes (suc w) v = to_bytes w (v / 256) ++ v % 256 ∷ []

from_bytes-snoc :
    (n : ℕ) (bs : Bytes) (b : ℕ) → from_bytes_from n (bs ++ b ∷ []) ≡ from_bytes_from n bs * 256 + b
from_bytes-snoc n [] b = refl
from_bytes-snoc n (c ∷ bs) b = from_bytes-snoc (n * 256 + c) bs b

pub length-to_bytes : (w v : ℕ) → length (to_bytes w v) ≡ w
unfolding to_bytes
length-to_bytes zero v = refl
length-to_bytes (suc w) v =
    omega (arith, length-append (to_bytes w (v / 256)) (v % 256 ∷ []), length-to_bytes w (v / 256))

AllBytes-snoc : (bs : Bytes) (b : ℕ) → AllBytes bs → b < 256 → AllBytes (bs ++ b ∷ [])
AllBytes-snoc [] b h p = (p, tt)
AllBytes-snoc (c ∷ bs) b h p = (h.0, AllBytes-snoc bs b h.1 p)

pub to_bytes-AllBytes : (w v : ℕ) → AllBytes (to_bytes w v)
unfolding to_bytes
to_bytes-AllBytes zero v = tt
to_bytes-AllBytes (suc w) v =
    AllBytes-snoc (to_bytes w (v / 256)) (v % 256) (to_bytes-AllBytes w (v / 256)) (omega arith)

-- Reading back what was written.
pub from_bytes-to_bytes : (w v : ℕ) → v < 256 ^ w → from_bytes (to_bytes w v) ≡ v
unfolding from_bytes to_bytes
from_bytes-to_bytes zero v h = omega arith
from_bytes-to_bytes (suc w) v h = omega (
  arith,
  from_bytes-snoc 0 (to_bytes w (v / 256)) (v % 256),
  pow-suc 256 w,
  from_bytes-to_bytes w (v / 256) (omega (arith, pow-suc 256 w)),
)

abbrev Both : ℕ → ℕ → Bytes → Bytes → Type 0
Both m n xs ys = (m ≡ n) × (xs ≡ ys)

from_bytes_from-injective :
    (m n : ℕ) (xs ys : Bytes)
    → AllBytes xs
    → AllBytes ys
    → length xs ≡ length ys
    → from_bytes_from m xs ≡ from_bytes_from n ys
    → Both m n xs ys
from_bytes_from-injective m n [] [] p q l h = (h, refl)
from_bytes_from-injective m n [] (y ∷ ys) p q l h = absurd (omega arith)
from_bytes_from-injective m n (x ∷ xs) [] p q l h = absurd (omega arith)
from_bytes_from-injective m n (x ∷ xs) (y ∷ ys) p q l h =
    let (head, rest) =
      from_bytes_from-injective (m * 256 + x) (n * 256 + y) xs ys p.1 q.1 (omega arith) h in
    (omega (arith, p.0, q.0), ap₂ ◌∷◌ (let e : x ≡ y = omega (arith, p.0, q.0) in e) rest)

-- Byte strings of one length that read as the same number are the same.
pub from_bytes-injective :
    (xs ys : Bytes)
    → AllBytes xs
    → AllBytes ys
    → length xs ≡ length ys
    → from_bytes xs ≡ from_bytes ys
    → xs ≡ ys
unfolding from_bytes
from_bytes-injective xs ys p q l h = (from_bytes_from-injective 0 0 xs ys p q l h).1

one_more_byte : (n b p q : ℕ) → b < 256 → q ≡ p * 256 → (n * 256 + b + 1) * p ≤ (n + 1) * q
one_more_byte n b p q h e = let le : (b + 1) * p ≤ 256 * p = grind arith in rw e (omega (arith, le))

from_bytes_from-lt :
    (n : ℕ) (bs : Bytes) → AllBytes bs → from_bytes_from n bs + 1 ≤ (n + 1) * 256 ^ length bs
from_bytes_from-lt n [] h = omega arith
from_bytes_from-lt n (b ∷ bs) h = omega (
  arith,
  from_bytes_from-lt (n * 256 + b) bs h.1,
  one_more_byte n b (256 ^ length bs) (256 ^ suc (length bs)) h.0 (pow-suc 256 (length bs)),
)

-- A byte string reads as a number below 256 to its length.
pub from_bytes-lt : (bs : Bytes) → AllBytes bs → from_bytes bs < 256 ^ length bs
unfolding from_bytes
from_bytes-lt bs h = omega (arith, from_bytes_from-lt 0 bs h)

-- Writing what was read.
pub to_bytes-from_bytes :
    (w : ℕ) (bs : Bytes) → AllBytes bs → length bs ≡ w → to_bytes w (from_bytes bs) ≡ bs
to_bytes-from_bytes w bs h e =
    from_bytes-injective (to_bytes w (from_bytes bs)) bs (to_bytes-AllBytes w (from_bytes bs)) h
      (length-to_bytes w (from_bytes bs) ∙ sym e)
      (from_bytes-to_bytes w (from_bytes bs)
        (omega (arith, from_bytes-lt bs h, ap (λ (n : ℕ). 256 ^ n) e)))

pub AllBytes-take : (n : ℕ) (bs : Bytes) → AllBytes bs → AllBytes (take n bs)
unfolding take
AllBytes-take zero bs h = tt
AllBytes-take (suc n) [] h = tt
AllBytes-take (suc n) (b ∷ bs) h = (h.0, AllBytes-take n bs h.1)

pub AllBytes-drop : (n : ℕ) (bs : Bytes) → AllBytes bs → AllBytes (drop n bs)
unfolding drop
AllBytes-drop zero bs h = h
AllBytes-drop (suc n) [] h = tt
AllBytes-drop (suc n) (b ∷ bs) h = AllBytes-drop n bs h.1

pub AllBytes-append : (xs ys : Bytes) → AllBytes xs → AllBytes ys → AllBytes (xs ++ ys)
AllBytes-append [] ys p q = q
AllBytes-append (x ∷ xs) ys p q = (p.0, AllBytes-append xs ys p.1 q)
