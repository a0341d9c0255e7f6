-- ===== src/Block/Layout.antt =====
-- core/src/base_block.cpp: how the records of a block stand behind one another in its file.
use react_fs.Prelude.{
  ℕ, zero, suc, ◌+◌, ◌*◌, ◌^◌, ◌≤◌, ◌<◌, ◌≡◌, ◌≢◌, refl, sym, ◌∙◌, ap, some, List, [], ◌∷◌, ◌++◌,
  ok, arith, length, get_elem?,
}
use mathlib.Core.Path.{subst}
use react_fs.Block.{DataRecord, r_readable, extent, Area, write_at, mark_at}
use react_fs.Block.Records.{walk, commit_added}

-- The records stand in the bytes from `o` to `e`, one behind the other, with the indexes from `i`.
abbrev pub Laid : Area → ℕ → ℕ → List DataRecord → ℕ → Type 0
Laid area i o [] e = o ≡ e
Laid area i o (r ∷ rs) e =
    (area o ≡ some r) × (r.index ≡ i) × (r.offset ≡ o) × Laid area (suc i) (o + extent r) rs e

abbrev pub data_bytes : List DataRecord → ℕ
data_bytes [] = 0
data_bytes (r ∷ rs) = r.data_size + data_bytes rs

-- The length of the bytes.
pub Laid-extent :
    (area : Area) (i o : ℕ) (rs : List DataRecord) (e : ℕ)
    → Laid area i o rs e
    → e ≡ o + (48 * length rs + data_bytes rs)
Laid-extent area i o [] e l = omega (arith, l)
Laid-extent area i o (r ∷ rs) e l = omega (arith, Laid-extent area (suc i) (o + extent r) rs e l.3)

-- Bytes that hold the same hold the same records.
pub Laid-agree :
    (area area' : Area) (i o : ℕ) (rs : List DataRecord) (e : ℕ)
    → ((j : ℕ) → o ≤ j → j < e → area' j ≡ area j)
    → Laid area i o rs e
    → Laid area' i o rs e
Laid-agree area area' i o [] e same l = l
Laid-agree area area' i o (r ∷ rs) e same l = (
  same o (omega arith) (omega (arith, Laid-extent area (suc i) (o + extent r) rs e l.3)) ∙ l.0,
  l.1,
  l.2,
  Laid-agree area area' (suc i) (o + extent r) rs e (λ j h. same j (omega arith)) l.3,
)

-- A record that is written behind the others leaves them.
pub Laid-write_at :
    (area : Area) (i o : ℕ) (rs : List DataRecord) (e off : ℕ) (q : DataRecord)
    → e ≤ off
    → Laid area i o rs e
    → Laid (write_at area off q) i o rs e
unfolding write_at
Laid-write_at area i o [] e off q h l = l
Laid-write_at area i o (r ∷ rs) e off q h l =
    let b = Laid-extent area (suc i) (o + extent r) rs e l.3 in
    (ground (arith, b, l.0), l.1, l.2, Laid-write_at area (suc i) (o + extent r) rs e off q h l.3)

pub Laid-append :
    (area : Area) (i o : ℕ) (rs qs : List DataRecord) (k m e : ℕ)
    → k ≡ i + length rs
    → Laid area i o rs m
    → Laid area k m qs e
    → Laid area i o (rs ++ qs) e
Laid-append area i o [] qs k m e at l n =
    let z : k ≡ i = omega (arith, at) in
    subst (λ x. Laid area x o qs e) z (subst (λ x. Laid area k x qs e) (sym l) n)
Laid-append area i o (r ∷ rs) qs k m e at l n =
    (l.0, l.1, l.2, Laid-append area (suc i) (o + extent r) rs qs k m e (omega (arith, at)) l.3 n)

-- The loop of `__read_record` finds the record of the index.
pub walk-Laid :
    (area : Area) (i o : ℕ) (rs : List DataRecord) (e k : ℕ) (r : DataRecord)
    → Laid area i o rs e
    → get_elem? rs k ≡ some r
    → (o' : ℕ) × (walk area k i o ≡ ok o')
      × (area o' ≡ some r)
      × (r.index ≡ i + k)
      × (r.offset ≡ o')
unfolding walk
walk-Laid area i o [] e k r l g = absurd (ground (arith, g))
walk-Laid area i o (q ∷ rs) e zero r l g =
    (o, refl, ground (arith, l.0, g), ground (arith, l.1, g), ground (arith, l.2, g))
walk-Laid area i o (q ∷ rs) e (suc k) r l g =
    let n = walk-Laid area (suc i) (o + extent q) rs e k r l.3 g in
    (n.0, ground (arith, l.0, l.1, n.1), n.2, omega (arith, n.3), n.4)

-- What `commit` makes of a record that was written.
abbrev pub readable : DataRecord → DataRecord
readable r = record r { state = r_readable }

abbrev pub all_readable : List DataRecord → List DataRecord
all_readable [] = []
all_readable (r ∷ rs) = readable r ∷ all_readable rs

pub length-all_readable : (rs : List DataRecord) → length (all_readable rs) ≡ length rs
length-all_readable [] = refl
length-all_readable (r ∷ rs) = ap suc (length-all_readable rs)

pub data_bytes-all_readable : (rs : List DataRecord) → data_bytes (all_readable rs) ≡ data_bytes rs
data_bytes-all_readable [] = refl
data_bytes-all_readable (r ∷ rs) = ap (λ n. r.data_size + n) (data_bytes-all_readable rs)

pub data_bytes-append :
    (rs qs : List DataRecord) → data_bytes (rs ++ qs) ≡ data_bytes rs + data_bytes qs
data_bytes-append [] qs = omega arith
data_bytes-append (r ∷ rs) qs = omega (arith, data_bytes-append rs qs)

-- The loop of `commit` over new records makes them readable, counts them, and leaves what stands
-- before them; as many steps as there are bytes are enough.
pub commit_added-Laid :
    (fuel : ℕ) (area : Area) (i o : ℕ) (rs : List DataRecord) (e added : ℕ)
    → length rs ≤ fuel
    → added + length rs < 2 ^ 32
    → Laid area i o rs e
    → (area' : Area) × (commit_added fuel area o e added ≡ ok (area', added + length rs))
      × Laid area' i o (all_readable rs) e
      × ((j : ℕ) → j < o → area' j ≡ area j)
unfolding commit_added mark_at
commit_added-Laid zero area i o [] e added f w l = (area, ground (arith, l), l, λ j h. refl)
commit_added-Laid (suc fuel) area i o [] e added f w l = (area, ground (arith, l), l, λ j h. refl)
commit_added-Laid zero area i o (r ∷ rs) e added f w l = absurd (omega (arith, f))
commit_added-Laid (suc fuel) area i o (r ∷ rs) e added f w l =
    let b = Laid-extent area (suc i) (o + extent r) rs e l.3 in
    let m = mark_at area o r_readable in
    let kept : (j : ℕ) → j ≢ o → m j ≡ area j = λ j h. ground (arith, h) in
    let n =
      commit_added-Laid fuel m (suc i) (o + extent r) rs e (added + 1) (omega (arith, f))
        (omega (arith, w))
        (Laid-agree area m (suc i) (o + extent r) rs e (λ j h h'. kept j (λ q. omega (arith, q, h)))
          l.3) in
    (
      n.0,
      ground (arith, b, l.0, w, n.1),
      (n.3 o (omega arith) ∙ ground (arith, l.0), l.1, l.2, n.2),
      λ j h. n.3 j (omega (arith, h)) ∙ kept j (λ q. omega (arith, q, h)),
    )
