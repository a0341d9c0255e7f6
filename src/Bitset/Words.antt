-- ===== src/Bitset/Words.antt =====
-- __bitset.h seen bit by bit: what `check` reads, and the state that the operations keep.
use Prim.Native.Nat.{bit_and, bit_or}
use react_fs.Prelude.{
  ℕ, ◌-◌, ◌*◌, ◌/◌, ◌%◌, ◌^◌, ◌≤◌, ◌<◌, ◌≡◌, ok, err, precondition, arith, ltb, ◌==◌, if◌then◌else◌,
  length, get_or, set, All, length-set, All-set, All-get_or, get_elem?-eq-get_or, get_or-set,
}
use native.Mathlib.Nat.{one-le-pow, pow-le-pow_right}
use react_fs.Prelude.Bits.{
  bit, bit-lt, bit-bit_and, bit-bit_or, bit-pow, bit_and-pow, bit-complement, bit_or-lt, bit_and-lt,
}
use react_fs.Bitset.{Bitset, check_bit, check}

-- The bit at an offset, 0 beyond the words.
abbrev pub bit_at : Bitset → ℕ → ℕ
bit_at b o = bit (get_or b.words (o / 32) 0) (o % 32)

pub record IsValid (b : Bitset) : Type 0 where
  pub narrow : All (λ w. w < 2 ^ 32) b.words
  pub covered : b.max_offset ≤ 32 * length b.words
  pub short : b.max_offset < 2 ^ 16
  pub sized : b.size / 4 ≡ length b.words
  pub few : length b.words < 2 ^ 16

pow-pos : (p : ℕ) → 0 < 2 ^ p
pow-pos p = one-le-pow p 2 (omega arith)

pub check_bit_lem : (w p : ℕ) → check_bit w p ≡ (bit w p == 1)
check_bit_lem w p = ground (arith, bit_and-pow w p, bit-lt w p, pow-pos p)

pub word_at : {b : Bitset} (o : ℕ) → IsValid b → o < b.max_offset → o / 32 < length b.words
word_at o v h = omega arith

pub narrow_at : {b : Bitset} (o : ℕ) → IsValid b → get_or b.words (o / 32) 0 < 2 ^ 32
narrow_at {b} o v = All-get_or (λ w. w < 2 ^ 32) b.words (o / 32) 0 (omega arith) v.narrow

-- `check` answers the bit below `max_offset`, and refuses any other offset.
pub check_lem :
    {b : Bitset} (o : ℕ)
    → IsValid b
    → check b o ≡ (if ltb o b.max_offset then ok (bit_at b o == 1) else err precondition)
unfolding check
check_lem {b} o v = ground (
  arith,
  word_at o v,
  get_elem?-eq-get_or b.words (o / 32) 0,
  check_bit_lem (get_or b.words (o / 32) 0) (o % 32),
)

-- The words after one is replaced, bit by bit.
module _ (b : Bitset) (o w : ℕ) where
  abbrev pub put : Bitset
  put = record b { words = set b.words (o / 32) w }

  pub put-IsValid : IsValid b → w < 2 ^ 32 → IsValid put
  put-IsValid v h = record {
    narrow = All-set (λ w. w < 2 ^ 32) b.words (o / 32) w h v.narrow;
    covered = omega (arith, v.covered, length-set b.words (o / 32) w);
    short = v.short;
    sized = omega (arith, v.sized, length-set b.words (o / 32) w);
    few = omega (arith, v.few, length-set b.words (o / 32) w);
  }

  pub bit_at-put :
      (j : ℕ)
      → o / 32 < length b.words
      → bit_at put j ≡ (if o / 32 == j / 32 then bit w (j % 32) else bit_at b j)
  bit_at-put j h = ground (arith, get_or-set b.words (o / 32) (j / 32) w 0 h)

-- Two offsets with the same word and the same place in it are one.
same_offset : (o j : ℕ) → o / 32 ≡ j / 32 → o % 32 ≡ j % 32 → o ≡ j
same_offset o j d m = omega arith

mask_lt : (p : ℕ) → p < 32 → 2 ^ p < 2 ^ 32
mask_lt p h = omega (arith, pow-le-pow_right {n = 2} (omega arith) {i = p} {j = 31} (omega arith))

-- The word with the bit of `o` set, or cleared.
abbrev pub with_bit : Bitset → ℕ → ℕ
with_bit b o = bit_or (get_or b.words (o / 32) 0) (2 ^ (o % 32))

abbrev pub without_bit : Bitset → ℕ → ℕ
without_bit b o = bit_and (get_or b.words (o / 32) 0) (2 ^ 32 - 1 - 2 ^ (o % 32))

module _ {b : Bitset} (o : ℕ) (v : IsValid b) where
  pub with_bit-lt : with_bit b o < 2 ^ 32
  with_bit-lt = bit_or-lt 32 _ _ (narrow_at o v) (mask_lt (o % 32) (omega arith))

  pub without_bit-lt : without_bit b o < 2 ^ 32
  without_bit-lt = bit_and-lt 32 _ _ (narrow_at o v)

  bit-with_bit :
      (k : ℕ)
      → bit (with_bit b o) k ≡ (if o % 32 == k then 1 else bit (get_or b.words (o / 32) 0) k)
  bit-with_bit k = ground (
    arith,
    bit-bit_or (get_or b.words (o / 32) 0) (2 ^ (o % 32)) k,
    bit-pow (o % 32) k,
    bit-lt (get_or b.words (o / 32) 0) k,
  )

  bit-without_bit :
      (k : ℕ)
      → k < 32
      → bit (without_bit b o) k ≡ (if o % 32 == k then 0 else bit (get_or b.words (o / 32) 0) k)
  bit-without_bit k h = ground (
    arith,
    bit-bit_and (get_or b.words (o / 32) 0) (2 ^ 32 - 1 - 2 ^ (o % 32)) k,
    bit-complement 32 (2 ^ (o % 32)) k (mask_lt (o % 32) (omega arith)) h,
    bit-pow (o % 32) k,
    bit-lt (get_or b.words (o / 32) 0) k,
  )

  pub bit_at-with :
      (j : ℕ)
      → o < b.max_offset
      → bit_at (put b o (with_bit b o)) j ≡ (if o == j then 1 else bit_at b j)
  bit_at-with j h = ground (
    arith,
    bit_at-put b o (with_bit b o) j (word_at o v h),
    bit-with_bit (j % 32),
    same_offset o j,
  )

  pub bit_at-without :
      (j : ℕ)
      → o < b.max_offset
      → bit_at (put b o (without_bit b o)) j ≡ (if o == j then 0 else bit_at b j)
  bit_at-without j h = ground (
    arith,
    bit_at-put b o (without_bit b o) j (word_at o v h),
    bit-without_bit (j % 32),
    same_offset o j,
  )
