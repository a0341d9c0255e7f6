-- ===== src/Bitset/Alloc.antt =====
-- __bitset.h: `get_free_bit`, the allocator of free slots.
use react_fs.Prelude.{
  ℕ, zero, suc, ◌+◌, ◌-◌, ◌*◌, ◌/◌, ◌%◌, ◌^◌, ◌≤◌, ◌<◌, ◌≡◌, ◌⊎◌, refl, ap, ◌∙◌, ==_iff, false,
  Option, none, some, List, [], ◌∷◌, Result, ok, ◌>>=◌, arith, ltb, ◌==◌, get_or, if◌then◌else◌,
  Returns, All, Bool-cases, inl, inr,
}
use react_fs.Prelude.Bits.{bit, bit-lt, bit-zero, bit-complement}
use react_fs.Bitset.{Bitset, u16, set_bit, skip_full, probe, get_free_bit}
use react_fs.Bitset.Words.{IsValid, bit_at, put, with_bit, bit_at-with}
use react_fs.Bitset.Update.{set_bit_lem, check_and_set_lem, with-IsValid}

-- Every bit below n is set.
abbrev pub FullBelow : Bitset → ℕ → Type 0
FullBelow b n = (j : ℕ) → j < n → bit_at b j ≡ 1

full_word : (k : ℕ) → k < 32 → bit (2 ^ 32 - 1) k ≡ 1
full_word k h = omega (arith, bit-complement 32 0 k (omega arith) h, bit-zero k)

FullBelow-next :
    (b : Bitset) (p : ℕ)
    → FullBelow b (32 * p)
    → get_or b.words p 0 ≡ 2 ^ 32 - 1
    → FullBelow b (32 * suc p)
FullBelow-next b p full e j h = elim (Bool-cases (ltb j (32 * p))) [
  | inl old ↦ full j (ground arith)
  | inr new ↦ (let d : j / 32 ≡ p = ground arith in rw (d, e) (full_word (j % 32) (omega arith)))
]

full_word_value : (w : ℕ) → w < 2 ^ 32 → ltb w (2 ^ 32 - 1) ≡ false → w ≡ 2 ^ 32 - 1
full_word_value w h t = ground arith

get_or_cong : (ws : List ℕ) (i j : ℕ) → i ≡ j → get_or ws i 0 ≡ get_or ws j 0
get_or_cong ws i j e = ap (λ m. get_or ws m 0) e

-- The first loop stops at an index below which every bit is set, also where the index wraps.
skip_full-FullBelow :
    (b : Bitset) (n : ℕ) (ws : List ℕ) (i p : ℕ)
    → i ≤ 32 * p
    → FullBelow b (32 * p)
    → ((k : ℕ) → get_or ws k 0 ≡ get_or b.words (p + k) 0)
    → All (λ w. w < 2 ^ 32) ws
    → FullBelow b (skip_full n ws i)
unfolding skip_full
skip_full-FullBelow b zero ws i p h full same a = λ j l. full j (omega arith)
skip_full-FullBelow b (suc n) [] i p h full same a = λ j l. full j (omega arith)
skip_full-FullBelow b (suc n) (w ∷ ws) i p h full same a = elim (Bool-cases (ltb w (2 ^ 32 - 1))) [
  | inl room ↦ rw room (λ j l. full j (omega arith))
  | inr taken ↦
      (let here : get_or b.words p 0 ≡ w = ground (arith, same 0, get_or_cong b.words (p + 0) p) in
        rw taken (
          skip_full-FullBelow b n ws (u16 (i + 32)) (suc p) (omega arith)
            (FullBelow-next b p full (here ∙ full_word_value w a.0 taken))
            (λ k. same (suc k) ∙ ap (λ m. get_or b.words m 0) (omega arith)) a.1))
]

-- The lowest offset below `max_offset` whose bit is clear.
pub record IsFirstFree (b : Bitset) (o : ℕ) : Type 0 where
  pub inside : o < b.max_offset
  pub free : bit_at b o ≡ 0
  pub least : FullBelow b o

-- How `get_free_bit` may end: with `set` of the first free offset, or with -1.
abbrev pub Probes : Bitset → Result (Option ℕ × Bitset) → Type 0
Probes b r =
    ((o : ℕ) × IsFirstFree b o × (r ≡ (set_bit b o >>= λ b'. ok (some o, b'))))
    ⊎ (FullBelow b b.max_offset × (r ≡ ok (none, b)))

module _ {b : Bitset} (v : IsValid b) where
  FullBelow-suc : (o : ℕ) → FullBelow b o → bit_at b o ≡ 1 → FullBelow b (suc o)
  FullBelow-suc o full e j l = elim (Bool-cases (j == o)) [
    | inl same ↦ rw ((==_iff j o).0 same) e
    | inr other ↦ full j (grind arith)
  ]

  probe-Probes : (fuel o : ℕ) → b.max_offset < fuel + o → FullBelow b o → Probes b (probe fuel b o)
  unfolding probe
  probe-Probes zero o h full = inr (λ j l. full j (omega arith), refl)
  probe-Probes (suc fuel) o h full = elim (Bool-cases (ltb o b.max_offset)) [
    | inr out ↦ inr (λ j l. full j (ground arith), ground arith)
    | inl inside ↦ (elim (Bool-cases (bit_at b o == 1)) [
      | inl taken ↦
          (let e : u16 (o + 1) ≡ suc o = ground (arith, v.short) in
            let step : probe (suc fuel) b o ≡ probe fuel b (suc o) =
              ground (arith, check_and_set_lem o v) in
            rw step (probe-Probes fuel (suc o) (omega arith) (FullBelow-suc o full (ground arith))))
      | inr free ↦ inl (
        o,
        record {
          inside = ground arith;
          free = ground (arith, bit-lt (get_or b.words (o / 32) 0) (o % 32));
          least = full;
        },
        ground (arith, check_and_set_lem o v, set_bit_lem o v),
      )
    ])
  ]

pub get_free_bit-Probes : {b : Bitset} → IsValid b → Probes b (get_free_bit b)
unfolding get_free_bit
get_free_bit-Probes {b} v = probe-Probes v (suc b.max_offset) _ (omega arith) (
    skip_full-FullBelow b _ b.words 0 0 (omega arith) (λ j l. absurd (omega arith))
      (λ k. ap (λ m. get_or b.words m 0) (omega arith)) v.narrow)

-- An answer and the set after it: a free offset, whose bit is now 1 and every other one as it was, or none and the set
-- as it was.
abbrev pub Allocates : Bitset → Option ℕ × Bitset → Type 0
Allocates b (p, b') =
    ((o : ℕ) × IsFirstFree b o
      × (p ≡ some o)
      × ((j : ℕ) → bit_at b' j ≡ (if o == j then 1 else bit_at b j)))
    ⊎ (FullBelow b b.max_offset × (p ≡ none) × (b' ≡ b))

-- On a valid set `get_free_bit` returns a valid set of the same extent. It answers the lowest clear bit below
-- `max_offset`, and then that bit is 1 and every other bit of the set is as it was; or it answers -1, and then every bit
-- below `max_offset` is 1 and the set is as it was.
pub get_free_bit-Allocates :
    {b : Bitset}
    → IsValid b
    → Returns
        (get_free_bit b)
        λ (p, b'). IsValid b' × (b'.max_offset ≡ b.max_offset) × Allocates b (p, b')
get_free_bit-Allocates {b} v = elim (get_free_bit-Probes v) [
  | inl (o, free, e) ↦
      (let b' : Bitset = put b o (with_bit b o) in
        let set_o : set_bit b o ≡ ok b' = ground (arith, set_bit_lem o v, free.inside) in
        let got_o : get_free_bit b ≡ ok (some o, b') = rw e (rw set_o refl) in
        (
          (some o, b'),
          got_o,
          (with-IsValid o v, refl, inl (o, free, refl, λ j. bit_at-with o v j free.inside)),
        ))
  | inr (full, e) ↦ ((none, b), e, (v, refl, inr (full, refl, refl)))
]
