-- ===== src/Prelude/Bits.antt =====
-- Facts about single bits under `bit_and` and `bit_or`, at variables.
use Prim.Native.Nat.{
  ℕ, zero, suc, ◌+◌, ◌-◌, ◌*◌, ◌/◌, ◌%◌, ◌^◌, ◌≤◌, ◌<◌, min, max, bit_and, bit_or, digits,
  bit_and-bitwise, bit_or-bitwise,
}
use mathlib.Core.Path.{◌≡◌, refl, sym, ◌∙◌}
use native.Mathlib.Omega.{arith}
use native.Mathlib.Nat.{pow-suc}
use react_fs.Prelude.Tests.{◌==◌, if◌then◌else◌}

-- The digit of weight 2 ^ k.
abbrev pub bit : ℕ → ℕ → ℕ
bit w zero = w % 2
bit w (suc k) = bit (w / 2) k

-- The digits of a number need no more fuel than the number.
module _ (z : ℕ → ℕ) (f : ℕ → ℕ → ℕ) where
  digits-zero : (n y : ℕ) → digits z f n 0 y ≡ z y
  digits-zero zero y = refl
  digits-zero (suc n) y = refl

  enough_digits : (x y m n : ℕ) → x ≤ n → x ≤ m → digits z f n x y ≡ digits z f m x y
  enough_digits zero y m n h k = digits-zero n y ∙ sym (digits-zero m y)
  enough_digits (suc x) y m zero h k = absurd (omega arith)
  enough_digits (suc x) y zero (suc n) h k = absurd (omega arith)
  enough_digits (suc x) y (suc m) (suc n) h k =
      let half = enough_digits (suc x / 2) (y / 2) m n (omega arith) (omega arith) in
      omega (arith, half)

zero-bit_or : (v : ℕ) → bit_or 0 v ≡ v
zero-bit_or v = bit_or-bitwise 0 v

zero-bit_and : (v : ℕ) → bit_and 0 v ≡ 0
zero-bit_and v = bit_and-bitwise 0 v

bit_or_step : (w v : ℕ) → bit_or w v ≡ bit_or (w / 2) (v / 2) * 2 + max (w % 2) (v % 2)
bit_or_step zero v = omega (arith, zero-bit_or (v / 2), zero-bit_or v)
bit_or_step (suc w) v =
    let h = suc w / 2 in
    let less = enough_digits (λ y. y) max h (v / 2) h w (omega arith) (omega arith) in
    omega (arith, less, bit_or-bitwise h (v / 2), bit_or-bitwise (suc w) v)

bit_and_step : (w v : ℕ) → bit_and w v ≡ bit_and (w / 2) (v / 2) * 2 + min (w % 2) (v % 2)
bit_and_step zero v = omega (arith, zero-bit_and (v / 2), zero-bit_and v)
bit_and_step (suc w) v =
    let h = suc w / 2 in
    let less = enough_digits (λ y. zero) min h (v / 2) h w (omega arith) (omega arith) in
    omega (arith, less, bit_and-bitwise h (v / 2), bit_and-bitwise (suc w) v)

cleared_within : (k w : ℕ) → w ≤ k → bit_and w 0 ≡ 0
cleared_within zero w l = let e : w ≡ 0 = omega arith in rw e (zero-bit_and 0)
cleared_within (suc k) w l = omega (arith, cleared_within k (w / 2) (omega arith), bit_and_step w 0)

bit_and-zero : (w : ℕ) → bit_and w 0 ≡ 0
bit_and-zero w = cleared_within w w (omega arith)

bit_and-halves : (a b : ℕ) → bit_and a b / 2 ≡ bit_and (a / 2) (b / 2)
bit_and-halves a b = omega (arith, bit_and_step a b)

bit_or-halves : (a b : ℕ) → bit_or a b / 2 ≡ bit_or (a / 2) (b / 2)
bit_or-halves a b = omega (arith, bit_or_step a b)

pub bit-lt : (w k : ℕ) → bit w k < 2
bit-lt w zero = omega arith
bit-lt w (suc k) = bit-lt (w / 2) k

pub bit-bit_and : (a b k : ℕ) → bit (bit_and a b) k ≡ min (bit a k) (bit b k)
bit-bit_and a b zero = omega (arith, bit_and_step a b)
bit-bit_and a b (suc k) = rw (bit_and-halves a b) (bit-bit_and (a / 2) (b / 2) k)

pub bit-bit_or : (a b k : ℕ) → bit (bit_or a b) k ≡ max (bit a k) (bit b k)
bit-bit_or a b zero = omega (arith, bit_or_step a b)
bit-bit_or a b (suc k) = rw (bit_or-halves a b) (bit-bit_or (a / 2) (b / 2) k)

pow-half : (p : ℕ) → 2 ^ suc p / 2 ≡ 2 ^ p
pow-half p = omega (arith, pow-suc 2 p)

pub bit-zero : (k : ℕ) → bit 0 k ≡ 0
bit-zero zero = refl
bit-zero (suc k) = bit-zero k

-- A power of two has one bit.
pub bit-pow : (p k : ℕ) → bit (2 ^ p) k ≡ (if p == k then 1 else 0)
bit-pow zero zero = refl
bit-pow zero (suc k) = ground (arith, bit-zero k)
bit-pow (suc p) zero = grind (arith, pow-suc 2 p)
bit-pow (suc p) (suc k) = rw (pow-half p) (ground (arith, bit-pow p k))

-- The test of the source, `w & (1 << p)`, sees the bit.
pub bit_and-pow : (w p : ℕ) → bit_and w (2 ^ p) ≡ bit w p * 2 ^ p
bit_and-pow w zero = omega (arith, bit_and_step w 1, bit_and-zero (w / 2))
bit_and-pow w (suc p) =
    rw (bit_and_step w (2 ^ suc p), pow-half p, bit_and-pow (w / 2) p) (grind (arith, pow-suc 2 p))

-- The complement within n bits.
pub bit-complement : (n x k : ℕ) → x < 2 ^ n → k < n → bit (2 ^ n - 1 - x) k ≡ 1 - bit x k
bit-complement zero x k h l = absurd (omega arith)
bit-complement (suc n) x zero h l = omega (arith, pow-suc 2 n)
bit-complement (suc n) x (suc k) h l =
    let half : (2 ^ suc n - 1 - x) / 2 ≡ 2 ^ n - 1 - x / 2 = omega (arith, pow-suc 2 n) in
    rw half (bit-complement n (x / 2) k (omega (arith, pow-suc 2 n)) (omega arith))

pub bit_or-lt : (n a b : ℕ) → a < 2 ^ n → b < 2 ^ n → bit_or a b < 2 ^ n
bit_or-lt zero a b p q = let z : a ≡ 0 = omega arith in rw (z, zero-bit_or b) q
bit_or-lt (suc n) a b p q = omega (
  arith,
  pow-suc 2 n,
  bit_or_step a b,
  bit_or-lt n (a / 2) (b / 2) (omega (arith, pow-suc 2 n)) (omega (arith, pow-suc 2 n)),
)

pub bit_and-lt : (n a b : ℕ) → a < 2 ^ n → bit_and a b < 2 ^ n
bit_and-lt zero a b p = let z : a ≡ 0 = omega arith in rw (z, zero-bit_and b) (omega arith)
bit_and-lt (suc n) a b p = omega (
  arith,
  pow-suc 2 n,
  bit_and_step a b,
  bit_and-lt n (a / 2) (b / 2) (omega (arith, pow-suc 2 n)),
)

-- A word with no bit is zero.
pub eq-zero-of_bits : (n w : ℕ) → w < 2 ^ n → ((k : ℕ) → k < n → bit w k ≡ 0) → w ≡ 0
eq-zero-of_bits zero w h z = omega arith
eq-zero-of_bits (suc n) w h z = omega (
  arith,
  z 0 (omega arith),
  eq-zero-of_bits n (w / 2) (omega (arith, pow-suc 2 n)) (λ k l. z (suc k) (omega arith)),
)
