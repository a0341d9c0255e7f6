-- ===== src/Bitset/Tests.antt =====
-- Runs of the bitset, and its theorems at concrete sets.
use react_fs.Prelude.{
  ℕ, zero, suc, ◌+◌, ◌*◌, ◌<◌, ◌≡◌, refl, true, false, some, [], ◌∷◌, ok, arith, length, Returns,
}
use react_fs.Bitset.{Bitset, get_free_bit, clear}
use react_fs.Bitset.Words.{IsValid, bit_at}
use react_fs.Bitset.Alloc.{Allocates, get_free_bit-Allocates}

-- The bits 0 and 2 of 40.
abbrev sparse : Bitset
sparse = record { size = 8; words = 5 ∷ 0 ∷ []; mapped = false; max_offset = 40 }

sparse-IsValid : IsValid sparse
sparse-IsValid = record {
  narrow = (omega arith, (omega arith, tt));
  covered = omega arith;
  short = omega arith;
  sized = refl;
  few = omega arith;
}

abbrev single : Bitset
single = record { size = 4; words = 1 ∷ []; mapped = true; max_offset = 32 }

single-IsValid : IsValid single
single-IsValid = record {
  narrow = (omega arith, tt);
  covered = omega arith;
  short = omega arith;
  sized = refl;
  few = omega arith;
}

single_words :
    (i : ℕ) → i < length single.words → (k : ℕ) × (k < 32) × (bit_at single (32 * i + k) ≡ 1)
single_words zero h = (0, omega arith, refl)
single_words (suc i) h = absurd (omega arith)

get_free_bit_run : get_free_bit sparse ≡ ok (some 1, record sparse { words = 7 ∷ 0 ∷ [] })
unfolding get_free_bit
get_free_bit_run = refl

clear_run : clear sparse ≡ record sparse { words = 0 ∷ 0 ∷ [] }
unfolding clear
clear_run = refl

get_free_bit-Allocates_example :
    Returns
      (get_free_bit sparse)
      λ (p, b'). IsValid b' × (b'.max_offset ≡ sparse.max_offset) × Allocates sparse (p, b')
get_free_bit-Allocates_example = get_free_bit-Allocates sparse-IsValid
