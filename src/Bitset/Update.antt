-- ===== src/Bitset/Update.antt =====
-- __bitset.h: `set`, `clear` and `check_and_set`, and the sizes of the storage.
use react_fs.Prelude.{
  ℕ, ◌+◌, ◌/◌, ◌^◌, ◌≤◌, ◌<◌, ◌≡◌, refl, true, false, ok, err, Result, Returns, ◌>>=◌, precondition,
  arith, ltb, ◌==◌, if◌then◌else◌, get_elem?-eq-get_or,
}
use react_fs.Bitset.{
  Bitset, u16, check, set_bit, clear_bit, check_and_set, get_byte_size, get_max_offset,
}
use react_fs.Bitset.Words.{
  IsValid, bit_at, put, put-IsValid, with_bit, without_bit, with_bit-lt, without_bit-lt,
  bit_at-with, bit_at-without, word_at, check_lem,
}

module _ {b : Bitset} (o : ℕ) (v : IsValid b) where
  pub set_bit_lem :
      set_bit b o ≡ (if ltb o b.max_offset then ok (put b o (with_bit b o)) else err precondition)
  unfolding set_bit
  set_bit_lem = ground (arith, word_at o v, get_elem?-eq-get_or b.words (o / 32) 0)

  pub clear_bit_lem :
      clear_bit b o
      ≡ (if ltb o b.max_offset then ok (put b o (without_bit b o)) else err precondition)
  unfolding clear_bit
  clear_bit_lem = ground (arith, word_at o v, get_elem?-eq-get_or b.words (o / 32) 0)

  pub with-IsValid : IsValid (put b o (with_bit b o))
  with-IsValid = put-IsValid b o (with_bit b o) v (with_bit-lt o v)

  pub without-IsValid : IsValid (put b o (without_bit b o))
  without-IsValid = put-IsValid b o (without_bit b o) v (without_bit-lt o v)

  -- On a valid set and an offset below `max_offset`, `check` after `set` answers true at that offset
  -- and what it answered before at any other, its refusals included.
  pub check-set_bit :
      (j : ℕ)
      → o < b.max_offset
      → (set_bit b o >>= λ b'. check b' j) ≡ (if o == j then ok true else check b j)
  check-set_bit j h = ground (
    arith,
    set_bit_lem,
    check_lem j v,
    check_lem {b = put b o (with_bit b o)} j with-IsValid,
    bit_at-with o v j h,
  )

  -- On a valid set and an offset below `max_offset`, `check` after `clear` answers false at that
  -- offset and what it answered before at any other, its refusals included.
  pub check-clear_bit :
      (j : ℕ)
      → o < b.max_offset
      → (clear_bit b o >>= λ b'. check b' j) ≡ (if o == j then ok false else check b j)
  check-clear_bit j h = ground (
    arith,
    clear_bit_lem,
    check_lem j v,
    check_lem {b = put b o (without_bit b o)} j without-IsValid,
    bit_at-without o v j h,
  )

  pub check_and_set_lem :
      o < b.max_offset
      → check_and_set b o
        ≡ (if bit_at b o == 1 then ok (false, b) else ok (true, put b o (with_bit b o)))
  unfolding check_and_set
  check_and_set_lem h =
      let e : u16 o ≡ o = omega arith in rw e (ground (arith, check_lem o v, set_bit_lem))

-- What an update of a valid set may end in: a valid set of the same extent, if the offset is below
-- `max_offset`, and the refusal of the precondition otherwise.
abbrev pub Updates : Bitset → ℕ → Result Bitset → Type 0
Updates b o r =
    (o < b.max_offset → Returns r (λ b'. IsValid b' × (b'.max_offset ≡ b.max_offset)))
    × (b.max_offset ≤ o → r ≡ err precondition)

-- `set` and `clear` never read or write outside the words of a valid set: below `max_offset` they
-- return a valid set of the same extent, and any other offset they refuse.
pub update-IsValid :
    {b : Bitset} (o : ℕ) → IsValid b → Updates b o (set_bit b o) × Updates b o (clear_bit b o)
update-IsValid {b} o v = (
  (
    λ h. (put b o (with_bit b o), ground (arith, set_bit_lem o v), (with-IsValid o v, refl)),
    λ h. ground (arith, set_bit_lem o v),
  ),
  (
    λ h.
        (put b o (without_bit b o), ground (arith, clear_bit_lem o v), (without-IsValid o v, refl)),
    λ h. ground (arith, clear_bit_lem o v),
  ),
)

-- The storage that `get_byte_size` computes for 1 to 65504 bits holds them, with fewer than 32 to
-- spare, when a set is mapped over it.
pub max_offset-byte_size :
    (count : ℕ)
    → 0 < count
    → count ≤ 65504
    → (count ≤ get_max_offset (get_byte_size count))
      × (get_max_offset (get_byte_size count) < count + 32)
unfolding get_max_offset get_byte_size
max_offset-byte_size count p h = ground arith

-- For the 16-bit counts above 65504 the extent of the mapped set wraps round to 0: the set has no
-- bit.
pub max_offset_wraps :
    (count : ℕ) → 65504 < count → count < 2 ^ 16 → get_max_offset (get_byte_size count) ≡ 0
unfolding get_max_offset get_byte_size
max_offset_wraps count p h = ground arith
