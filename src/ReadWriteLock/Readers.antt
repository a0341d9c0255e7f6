-- ===== src/ReadWriteLock/Readers.antt =====
-- common/includes/read_write_lock.h: the readers of a record, and how many of them are used.
use react_fs.Prelude.{
  ℕ, zero, suc, ◌+◌, ◌≤◌, ◌<◌, ◌≡◌, refl, sym, ap, ◌∙◌, true, false, Option, none, some, List, [],
  ◌∷◌, arith, if◌then◌else◌, length, get_elem?, set, length-set, Bool-cases, inl, inr,
}
use react_fs.Prelude.Texts.{Text}
use react_fs.ReadWriteLock.{Reader, first_free, used_at, reader_index, find_thread, RwSession}
use react_fs.ReadWriteLock.Acquire.{unused}

abbrev pub used_readers : List Reader → ℕ
used_readers [] = 0
used_readers (r ∷ rs) = (if r.used then 1 else 0) + used_readers rs

pub used_readers-length : (rs : List Reader) → used_readers rs ≤ length rs
used_readers-length [] = omega arith
used_readers-length (r ∷ rs) = ground (arith, used_readers-length rs)

-- A reader more, at a place that is free, and a reader less.
pub used_readers-set :
    (rs : List Reader) (k : ℕ) (r q : Reader)
    → get_elem? rs k ≡ some r
    → r.used ≡ false
    → q.used ≡ true
    → used_readers (set rs k q) ≡ suc (used_readers rs)
used_readers-set [] k r q g u v = absurd (ground (arith, g))
used_readers-set (p ∷ rs) zero r q g u v = ground (arith, g, u, v)
used_readers-set (p ∷ rs) (suc k) r q g u v = omega (arith, used_readers-set rs k r q g u v)

pub used_readers-clear :
    (rs : List Reader) (k : ℕ) (r : Reader)
    → get_elem? rs k ≡ some r
    → r.used ≡ true
    → suc (used_readers (set rs k (record r { used = false }))) ≡ used_readers rs
used_readers-clear [] k r g u = absurd (ground (arith, g))
used_readers-clear (p ∷ rs) zero r g u = ground (arith, g, u)
used_readers-clear (p ∷ rs) (suc k) r g u = omega (arith, used_readers-clear rs k r g u)

-- What `find_free_reader` finds.
pub first_free-free :
    (rs : List Reader) (ii i : ℕ)
    → first_free rs ii ≡ some i
    → (k : ℕ) × (r : Reader) × (i ≡ ii + k) × (get_elem? rs k ≡ some r) × (r.used ≡ false)
unfolding first_free
first_free-free [] ii i h = absurd (ground (arith, h))
first_free-free (r ∷ rs) ii i h = elim (Bool-cases r.used) [
  | inl u ↦
      (let n = first_free-free rs (suc ii) i (ground (arith, h, u)) in
        (suc n.0, n.1, omega (arith, n.2), n.3, n.4))
  | inr u ↦ (0, r, ground (arith, h, u), refl, u)
]

-- It finds one while there are fewer readers than places.
pub first_free-found :
    (rs : List Reader) (ii : ℕ)
    → used_readers rs < length rs
    → (i : ℕ) × (first_free rs ii ≡ some i)
unfolding first_free
first_free-found [] ii h = absurd (omega arith)
first_free-found (r ∷ rs) ii h = elim (Bool-cases r.used) [
  | inl u ↦
      (let n = first_free-found rs (suc ii) (ground (arith, u, h)) in (n.0, ground (arith, u, n.1)))
  | inr u ↦ (ii, ground (arith, u))
]

pub used_at-some :
    (rs : List Reader) (i : ℕ)
    → used_at rs i ≡ true
    → (r : Reader) × (get_elem? rs i ≡ some r) × (r.used ≡ true)
used_at-some [] i h = absurd (ground (arith, h))
used_at-some (r ∷ rs) zero h = (r, refl, h)
used_at-some (r ∷ rs) (suc i) h = used_at-some rs i h

pub reader_index-used :
    (s : RwSession) (id : Text) (i : ℕ)
    → reader_index s id ≡ some i
    → used_at s.slot.readers i ≡ true
unfolding reader_index
reader_index-used s id i h = used (find_thread id s.lock.reader_threads) h
  where
    used :
        (o : Option ℕ)
        → elim o [ none ↦ none | some k ↦ (if used_at s.slot.readers k then some k else none) ]
          ≡ some i
        → used_at s.slot.readers i ≡ true
    used none e = absurd (ground (arith, e))
    used (some k) e = elim (Bool-cases (used_at s.slot.readers k)) [
      | inl u ↦
          (let z : k ≡ i = ground (arith, e, u) in ap (λ j. used_at s.slot.readers j) (sym z) ∙ u)
      | inr u ↦ absurd (ground (arith, e, u))
    ]

pub unused-used :
    (rs : List Reader) (i : ℕ)
    → used_at rs i ≡ true
    → (suc (used_readers (unused rs i)) ≡ used_readers rs) × (length (unused rs i) ≡ length rs)
unused-used rs i h =
    let n = used_at-some rs i h in
    let q = record n.0 { used = false } in
    let e : unused rs i ≡ set rs i q = ground (arith, n.1) in
    (rw e (used_readers-clear rs i n.0 n.1 n.2), rw e (length-set rs i q))
