-- ===== src/Bitset/Scan.antt =====
-- __bitset.h: `any`, `none` and `all`.
use react_fs.Prelude.{
  ℕ, zero, suc, ◌+◌, ◌*◌, ◌/◌, ◌%◌, ◌^◌, ◌<◌, ◌≡◌, ◌↔◌, refl, ◌∙◌, All-get_or, true, false, not,
  List, [], ◌∷◌, ok, arith, ltb, ◌==◌, length, get_or, Bool-cases, inl, inr,
}
use native.Mathlib.Nat.{pow-suc}
use react_fs.Prelude.Bits.{bit, bit-zero}
use react_fs.Bitset.{Bitset, check, some_word, each_word, any, none_set, all}
use react_fs.Bitset.Words.{IsValid, bit_at, check_lem}

-- The lowest one of the low n bits that is set.
set_bit_of : (n w : ℕ) → w < 2 ^ n → 0 < w → (k : ℕ) × (k < n) × (bit w k ≡ 1)
set_bit_of zero w h p = absurd (omega arith)
set_bit_of (suc n) w h p = elim (Bool-cases (w % 2 == 1)) [
  | inl odd ↦ (0, omega arith, ground arith)
  | inr even ↦
      (let (k, l, e) = set_bit_of n (w / 2) (omega (arith, pow-suc 2 n)) (ground arith) in
        (suc k, omega arith, e))
]

some_word-false : (n : ℕ) (ws : List ℕ) (i : ℕ) → some_word n ws ≡ false → i < n → get_or ws i 0 ≡ 0
unfolding some_word
some_word-false zero ws i h l = absurd (omega arith)
some_word-false (suc n) [] i h l = refl
some_word-false (suc n) (w ∷ ws) zero h l = ground arith
some_word-false (suc n) (w ∷ ws) (suc i) h l = some_word-false n ws i (ground arith) (omega arith)

some_word-true :
    (n : ℕ) (ws : List ℕ) → some_word n ws ≡ true → (i : ℕ) × (i < length ws) × (0 < get_or ws i 0)
unfolding some_word
some_word-true zero ws h = cc
some_word-true (suc n) [] h = cc
some_word-true (suc n) (w ∷ ws) h = elim (Bool-cases (ltb 0 w)) [
  | inl p ↦ (0, omega arith, ground arith)
  | inr z ↦ (let (i, l, p) = some_word-true n ws (ground arith) in (suc i, omega arith, p))
]

each_word-true :
    (n : ℕ) (ws : List ℕ) → ((i : ℕ) → i < length ws → 0 < get_or ws i 0) → each_word n ws ≡ true
unfolding each_word
each_word-true zero ws h = refl
each_word-true (suc n) [] h = refl
each_word-true (suc n) (w ∷ ws) h =
    ground (arith, h 0 (omega arith), each_word-true n ws (λ i l. h (suc i) (omega arith)))

bit-of_zero : (w k : ℕ) → bit w k ≡ 1 → 0 < w
bit-of_zero zero k e = absurd (omega (arith, bit-zero k))
bit-of_zero (suc w) k e = omega arith

-- The offset of bit k of word i.
offset_of : (b : Bitset) (i k : ℕ) → k < 32 → bit_at b (32 * i + k) ≡ bit (get_or b.words i 0) k
offset_of b i k h =
    let d : (32 * i + k) / 32 ≡ i = omega arith in
    let m : (32 * i + k) % 32 ≡ k = omega arith in rw (d, m)

module _ {b : Bitset} (v : IsValid b) where
  some_bit : any b ≡ true → (o : ℕ) × (o < 32 * length b.words) × (bit_at b o ≡ 1)
  unfolding any
  some_bit h =
      let (i, l, p) = some_word-true _ b.words h in
      let (k, s, e) =
        set_bit_of 32 (get_or b.words i 0)
          (All-get_or (λ w. w < 2 ^ 32) b.words i 0 (omega arith) v.narrow) p in
      (32 * i + k, omega arith, offset_of b i k s ∙ e)

  no_bit : any b ≡ false → (o : ℕ) → o < 32 * length b.words → bit_at b o ≡ 0
  unfolding any
  no_bit h o l =
      let z = some_word-false _ b.words (o / 32) h (omega (arith, v.sized, v.few)) in
      rw z (bit-zero (o % 32))

  any_of_bit : (o : ℕ) → o < 32 * length b.words → bit_at b o ≡ 1 → any b ≡ true
  any_of_bit o l e = elim (Bool-cases (any b)) [
    | inl t ↦ t
    | inr f ↦ absurd (omega (arith, no_bit f o l))
  ]

  -- On a valid set `any` answers true exactly when some bit of the words is set, and `none` answers
  -- the opposite.
  pub any_iff :
      ((any b ≡ true) ↔ ((o : ℕ) × (o < 32 * length b.words) × (bit_at b o ≡ 1)))
      × (none_set b ≡ not (any b))
  unfolding any none_set
  any_iff = ((some_bit, λ (o, l, e). any_of_bit o l e), refl)

  all_of_sparse :
      ((i : ℕ) → i < length b.words → (k : ℕ) × (k < 32) × (bit_at b (32 * i + k) ≡ 1))
      → all b ≡ true
  unfolding all
  all_of_sparse h = each_word-true _ b.words λ i l.
      (let (k, s, e) = h i l in
        ground (arith, offset_of b i k s, bit-of_zero (get_or b.words i 0) k))

  -- The bug of `all`: it answers true as soon as each word of a valid set has one bit set, and so also
  -- where `check` answers false at an offset `o`.
  pub all_ignores_clear_bits :
      (o : ℕ)
      → ((i : ℕ) → i < length b.words → (k : ℕ) × (k < 32) × (bit_at b (32 * i + k) ≡ 1))
      → o < b.max_offset
      → bit_at b o ≡ 0
      → (all b ≡ true) × (check b o ≡ ok false)
  all_ignores_clear_bits o h l e = (all_of_sparse h, ground (arith, check_lem o v))
