-- ===== src/LockTable/Scan.antt =====
-- The loops of write_lock.cpp over the records, and the state of the table that its operations keep.
use react_fs.Prelude.{
  ℕ, suc, ◌+◌, ◌^◌, ◌≤◌, ◌<◌, ◌≡◌, refl, ap, ◌∙◌, true, false, none, some, List, [], ◌∷◌, ◌++◌,
  arith, if◌then◌else◌, length, All, Bool-cases, inl, inr,
}
use react_fs.Prelude.Texts.{Text, same_text}
use react_fs.LockTable.{Table, LockRecord, is_named, scan, find_index, max_count}

-- The records in use.
abbrev pub used_in : List LockRecord → ℕ
used_in [] = 0
used_in (l ∷ ls) = (if l.used then 1 else 0) + used_in ls

pub record IsValid (t : Table) : Type 0 where
  pub counted : t.used_count ≡ used_in t.locks
  pub short : max_count t < 2 ^ 32

-- A record in use under another name.
abbrev pub IsBusy : Text → LockRecord → Type 0
IsBusy name l = (l.used ≡ true) × (same_text l.name name ≡ false)

-- A record that is not in use under the name.
abbrev pub IsOther : Text → LockRecord → Type 0
IsOther name l = is_named name l ≡ false

-- How a name and the records of a table may stand to one another.
pub data Standing (name : Text) (ls : List LockRecord) : Type 0 where
  full : All (IsBusy name) ls → Standing name ls
  reusable :
      (front : List LockRecord) (l : LockRecord) (back : List LockRecord)
      → ls ≡ front ++ l ∷ back
      → All (IsBusy name) front
      → is_named name l ≡ true
      → Standing name ls
  vacant :
      (front : List LockRecord) (u : LockRecord) (back : List LockRecord)
      → ls ≡ front ++ u ∷ back
      → All (IsBusy name) front
      → u.used ≡ false
      → All (IsOther name) back
      → Standing name ls
  shadowed :
      (front : List LockRecord) (u : LockRecord) (mid : List LockRecord) (l : LockRecord)
      (back : List LockRecord)
      → ls ≡ front ++ u ∷ (mid ++ l ∷ back)
      → All (IsBusy name) front
      → u.used ≡ false
      → All (IsOther name) mid
      → is_named name l ≡ true
      → Standing name ls

-- The first record under the name, if there is one.
pub data Presence (name : Text) (ls : List LockRecord) : Type 0 where
  absent : All (IsOther name) ls → Presence name ls
  present :
      (front : List LockRecord) (l : LockRecord) (back : List LockRecord)
      → ls ≡ front ++ l ∷ back
      → All (IsOther name) front
      → is_named name l ≡ true
      → Presence name ls

Presence-cons :
    (name : Text) (l : LockRecord) (ls : List LockRecord)
    → is_named name l ≡ false
    → Presence name ls
    → Presence name (l ∷ ls)
Presence-cons name l ls h (absent a) = absent (h, a)
Presence-cons name l ls h (present front m back e a n) =
    present (l ∷ front) m back (ap (λ r. l ∷ r) e) (h, a) n

pub presence : (name : Text) (ls : List LockRecord) → Presence name ls
presence name [] = absent tt
presence name (l ∷ ls) = elim (Bool-cases (is_named name l)) [
  | inl n ↦ present [] l ls refl tt n
  | inr o ↦ Presence-cons name l ls o (presence name ls)
]

Standing-cons :
    (name : Text) (l : LockRecord) (ls : List LockRecord)
    → IsBusy name l
    → Standing name ls
    → Standing name (l ∷ ls)
Standing-cons name l ls h (full a) = full (h, a)
Standing-cons name l ls h (reusable f m b e a n) = reusable (l ∷ f) m b (ap (λ r. l ∷ r) e) (h, a) n
Standing-cons name l ls h (vacant f u b e a n o) = vacant (l ∷ f) u b (ap (λ r. l ∷ r) e) (h, a) n o
Standing-cons name l ls h (shadowed f u m k b e a n o s) =
    shadowed (l ∷ f) u m k b (ap (λ r. l ∷ r) e) (h, a) n o s

Standing-vacant :
    (name : Text) (u : LockRecord) (ls : List LockRecord)
    → u.used ≡ false
    → Presence name ls
    → Standing name (u ∷ ls)
Standing-vacant name u ls h (absent a) = vacant [] u ls refl tt h a
Standing-vacant name u ls h (present f l b e a n) = shadowed [] u f l b (ap (λ r. u ∷ r) e) tt h a n

pub standing : (name : Text) (ls : List LockRecord) → Standing name ls
standing name [] = full tt
standing name (l ∷ ls) = elim (Bool-cases l.used) [
  | inr free ↦ Standing-vacant name l ls free (presence name ls)
  | inl used ↦ (elim (Bool-cases (same_text l.name name)) [
    | inl same ↦ reusable [] l ls refl tt (ground arith)
    | inr other ↦ Standing-cons name l ls (used, other) (standing name ls)
  ])
]

-- The loops pass over the records in front.
pub scan-busy :
    (name : Text) (front rest : List LockRecord) (ii : ℕ)
    → All (IsBusy name) front
    → scan name (front ++ rest) ii none ≡ scan name rest (length front + ii) none
unfolding scan
scan-busy name [] rest ii a = ap (λ k. scan name rest k none) (omega arith)
scan-busy name (l ∷ front) rest ii a =
    let e : length front + suc ii ≡ suc (length front) + ii = omega arith in
    rw (a.0.0, a.0.1) (scan-busy name front rest (suc ii) a.1 ∙ ap (λ k. scan name rest k none) e)

pub scan-other :
    (name : Text) (front rest : List LockRecord) (ii k : ℕ)
    → All (IsOther name) front
    → scan name (front ++ rest) ii (some k) ≡ scan name rest (length front + ii) (some k)
unfolding scan
scan-other name [] rest ii k a = ap (λ j. scan name rest j (some k)) (omega arith)
scan-other name (l ∷ front) rest ii k a =
    let e : length front + suc ii ≡ suc (length front) + ii = omega arith in
    rw a.0 (scan-other name front rest (suc ii) k a.1 ∙ ap (λ j. scan name rest j (some k)) e)

pub find_index-other :
    (name : Text) (front rest : List LockRecord) (ii : ℕ)
    → All (IsOther name) front
    → find_index name (front ++ rest) ii ≡ find_index name rest (length front + ii)
unfolding find_index
find_index-other name [] rest ii a = ap (find_index name rest) (omega arith)
find_index-other name (l ∷ front) rest ii a =
    let e : length front + suc ii ≡ suc (length front) + ii = omega arith in
    rw a.0 (find_index-other name front rest (suc ii) a.1 ∙ ap (find_index name rest) e)

pub used_in-append :
    (front back : List LockRecord) → used_in (front ++ back) ≡ used_in front + used_in back
used_in-append [] back = omega arith
used_in-append (l ∷ front) back = omega (arith, used_in-append front back)

pub used_in-busy :
    (name : Text) (ls : List LockRecord) → All (IsBusy name) ls → used_in ls ≡ length ls
used_in-busy name [] a = refl
used_in-busy name (l ∷ ls) a = ground (arith, used_in-busy name ls)

pub used_in-le : (ls : List LockRecord) → used_in ls ≤ length ls
used_in-le [] = omega arith
used_in-le (l ∷ ls) = ground (arith, used_in-le ls)
