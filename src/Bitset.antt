-- ===== src/Bitset.antt =====
-- common/includes/__bitset.h: a bitset over an array of 32-bit words, which hands out free slots.
pub mod Words
pub mod Update
pub mod Scan
pub mod Alloc
mod Tests
use Prim.Native.Nat.{bit_and, bit_or}
use react_fs.Prelude.{
  ℕ, zero, suc, ◌+◌, ◌-◌, ◌*◌, ◌/◌, ◌%◌, ◌^◌, Bool, true, false, not, Option, none, some, List, [],
  ◌∷◌, Result, ok, err, Error, precondition, wild_access, ◌>>=◌, ◌>>◌, guard, or_fail, ltb, ◌==◌,
  if◌then◌else◌, get_elem?, set, replicate,
}

-- `uint16_t` and `uint32_t` keep these many values.
abbrev pub u16 : ℕ → ℕ
u16 n = n % 2 ^ 16

abbrev pub u32 : ℕ → ℕ
u32 n = n % 2 ^ 32

-- `_size` (in bytes), `_data`, `mapped` and `max_offset`. The pointer is never null while the set
-- lives: it is the list of the words that it points to.
pub record Bitset : Type 0 where
  pub size : ℕ
  pub words : List ℕ
  pub mapped : Bool
  pub max_offset : ℕ

-- BITSET_INDEX, BIT_INDEX and ARRAY_SIZE.
abbrev pub bitset_index : ℕ → ℕ
bitset_index o = o / 32

abbrev pub bit_index : ℕ → ℕ
bit_index o = o % 32

abbrev pub array_size : ℕ → ℕ
array_size s = s / 4

-- CHECK_BIT(var, pos) != 0
abbrev pub check_bit : ℕ → ℕ → Bool
check_bit var pos = not (bit_and var (2 ^ pos) == 0)

-- The bytes for `count` bits; `count` and the count of words are of 16 bits.
unfoldable pub get_byte_size : ℕ → ℕ
get_byte_size count =
    if ltb 0 count then u16 (count / 32 + (if ltb 0 (count % 32) then 1 else 0)) * 4 else 0

-- The bits in `size` bytes, cut to 16 bits by the return type.
unfoldable pub get_max_offset : ℕ → ℕ
get_max_offset size = if ltb 0 size then u16 (u32 (size / 4 * 32)) else 0

-- The constructor that allocates. What `malloc` leaves in the words is an argument: nothing clears
-- them.
unfoldable pub new : ℕ → List ℕ → Result Bitset
new count garbage = do
  guard (ltb 0 count) precondition
  ok (record { size = get_byte_size count; words = garbage; mapped = false; max_offset = count })

-- The constructor over an external segment of `size` bytes.
unfoldable pub new_mapped : List ℕ → ℕ → Result Bitset
new_mapped ptr size = do
  guard (ltb 0 size) precondition
  ok (record { size = size; words = ptr; mapped = true; max_offset = get_max_offset size })

unfoldable pub check : Bitset → ℕ → Result Bool
check b offset = do
  guard (ltb offset b.max_offset) precondition
  w ← or_fail (get_elem? b.words (bitset_index offset)) wild_access
  ok (check_bit w (bit_index offset))

-- `_data[index] |= (1 << part)`
unfoldable pub set_bit : Bitset → ℕ → Result Bitset
set_bit b offset = do
  guard (ltb offset b.max_offset) precondition
  w ← or_fail (get_elem? b.words (bitset_index offset)) wild_access
  ok (record b { words = set b.words (bitset_index offset) (bit_or w (2 ^ bit_index offset)) })

-- `_data[index] &= ~(1 << part)`
unfoldable pub clear_bit : Bitset → ℕ → Result Bitset
clear_bit b offset = do
  guard (ltb offset b.max_offset) precondition
  w ← or_fail (get_elem? b.words (bitset_index offset)) wild_access
  ok (record b {
    words = set b.words (bitset_index offset) (bit_and w (2 ^ 32 - 1 - 2 ^ bit_index offset));
  })

-- The offset is of 32 bits here and of 16 bits in the two calls.
unfoldable pub check_and_set : Bitset → ℕ → Result (Bool × Bitset)
unfolding check set_bit
check_and_set b offset = do
  found ← check b (u16 offset)
  if found then ok (false, b) else (set_bit b (u16 offset) >>= λ b'. ok (true, b'))

-- The three loops over the first `array_s` words.
some_word : ℕ → List ℕ → Bool
some_word zero ws = false
some_word (suc n) [] = false
some_word (suc n) (w ∷ ws) = let rest = some_word n ws in if ltb 0 w then true else rest

each_word : ℕ → List ℕ → Bool
each_word zero ws = true
each_word (suc n) [] = true
each_word (suc n) (w ∷ ws) = let rest = each_word n ws in if w == 0 then false else rest

unfoldable pub any : Bitset → Bool
unfolding some_word
any b = some_word (u16 (array_size b.size)) b.words

unfoldable pub none_set : Bitset → Bool
unfolding some_word
none_set b = not (some_word (u16 (array_size b.size)) b.words)

unfoldable pub all : Bitset → Bool
unfolding each_word
all b = each_word (u16 (array_size b.size)) b.words

-- The first loop of `get_free_bit`: 32 bits on for each leading word that is full.
skip_full : ℕ → List ℕ → ℕ → ℕ
skip_full zero ws index = index
skip_full (suc n) [] index = index
skip_full (suc n) (w ∷ ws) index =
    let rest = skip_full n ws (u16 (index + 32)) in if ltb w (2 ^ 32 - 1) then index else rest

-- The second loop: `check_and_set` from `index` on. Each round raises `index`, so `max_offset` rounds
-- are enough.
probe : ℕ → Bitset → ℕ → Result (Option ℕ × Bitset)
probe zero b index = ok (none, b)
probe (suc fuel) b index =
    let rest = probe fuel b (u16 (index + 1)) in
    if ltb index b.max_offset
    then check_and_set b index >>= (λ r. if r.0 then ok (some index, r.1) else rest)
    else ok (none, b)

-- `none` stands for -1.
unfoldable pub get_free_bit : Bitset → Result (Option ℕ × Bitset)
unfolding skip_full probe check_and_set
get_free_bit b = probe (suc b.max_offset) b (skip_full (u16 (array_size b.size)) b.words 0)

-- `memset(_data, 0, _size)`
zero_words : ℕ → List ℕ → List ℕ
zero_words zero ws = ws
zero_words (suc n) [] = []
zero_words (suc n) (w ∷ ws) = 0 ∷ zero_words n ws

unfoldable pub clear : Bitset → Bitset
unfolding zero_words
clear b = record b { words = zero_words (b.size / 4) b.words }
