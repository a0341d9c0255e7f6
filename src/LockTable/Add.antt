-- ===== src/LockTable/Add.antt =====
-- write_lock.cpp: `add_lock`.
use react_fs.Prelude.{
  ℕ, suc, ◌+◌, ◌%◌, ◌^◌, ◌≤◌, ◌<◌, ◌≡◌, ◌⊎◌, refl, sym, ap, ◌∙◌, Bool, true, false, Option, none,
  some, List, [], ◌∷◌, ◌++◌, arith, ok, err, Returns, precondition, lock_timeout, exhausted, ◌>>=◌,
  length, get_elem?, All, get_elem?-middle, set-middle, get_elem?-right, length-append,
}
use mathlib.Core.List.{append-nil}
use mathlib.Core.Path.{subst}
use native.Mathlib.Nat.{add-zero}
use react_fs.Prelude.Texts.{Text, is_empty, same_text_refl}
use react_fs.LockTable.{
  Table, LockRecord, max_count, size_lock_name, is_named, scan, fresh, take_found, take_free,
  add_lock,
}
use react_fs.LockTable.Scan.{
  IsValid, IsBusy, IsOther, Standing, full, reusable, vacant, shadowed, standing, scan-busy,
  scan-other, used_in-append, used_in-busy,
}

-- A name that the table takes: not empty, and shorter than 32 characters.
pub record IsName (name : Text) : Type 0 where
  pub filled : is_empty name ≡ false
  pub fits : length name < size_lock_name

pub is_named-used : (name : Text) (l : LockRecord) → is_named name l ≡ true → l.used ≡ true
is_named-used name l h = ground arith

module _ (t : Table) (name : Text) (n : IsName name) (room : t.used_count < max_count t) where
  add_lock_found : add_lock t name true ≡ (
      take_found t (scan name t.locks 0 none).0 >>= λ r.
      take_free t name r (scan name t.locks 0 none).1)
  unfolding add_lock
  add_lock_found = rw n.filled (ground arith)

abbrev pub table : ℕ → List LockRecord → Table
table c ls = record { locks = ls; used_count = c }

take_found_lem :
    (t : Table) (i : ℕ) (l : LockRecord)
    → get_elem? t.locks i ≡ some l
    → l.used ≡ true
    → take_found t (some i) ≡ ok (some i)
unfolding take_found
take_found_lem t i l e h = ground arith

take_free_middle :
    (name : Text) (front back : List LockRecord) (u : LockRecord) (c : ℕ) (found : Option ℕ)
    → u.used ≡ false
    → take_free (table c (front ++ u ∷ back)) name found (some (length front))
      ≡ ok (some (length front), table ((c + 1) % 2 ^ 32) (front ++ fresh name ∷ back))
unfolding take_free
take_free_middle name front back u c found h =
    rw (get_elem?-middle front back u, set-middle front back u (fresh name)) (rw h)

-- Both indices that the loop finds, for each way that a name may stand to the records.
module _ (name : Text) (front back : List LockRecord) (u : LockRecord)
    (a : All (IsBusy name) front) where
  scan-reusable :
      is_named name u ≡ true → scan name (front ++ u ∷ back) 0 none ≡ (some (length front), none)
  unfolding scan
  scan-reusable h = scan-busy name front (u ∷ back) 0 a ∙ rw h (rw add-zero)

  scan-free :
      u.used ≡ false
      → scan name (front ++ u ∷ back) 0 none
        ≡ scan name back (suc (length front)) (some (length front))
  unfolding scan
  scan-free h = scan-busy name front (u ∷ back) 0 a ∙ rw (h, add-zero)

  scan-vacant :
      u.used ≡ false
      → All (IsOther name) back
      → scan name (front ++ u ∷ back) 0 none ≡ (none, some (length front))
  unfolding scan
  scan-vacant h o =
      scan-free h
      ∙ ap (λ r. scan name r (suc (length front)) (some (length front))) (sym (append-nil back))
      ∙ scan-other name back [] (suc (length front)) (length front) o

scan-shadowed :
    (name : Text) (front mid back : List LockRecord) (u l : LockRecord)
    → All (IsBusy name) front
    → u.used ≡ false
    → All (IsOther name) mid
    → is_named name l ≡ true
    → scan name (front ++ u ∷ (mid ++ l ∷ back)) 0 none
      ≡ (some (length mid + suc (length front)), some (length front))
unfolding scan
scan-shadowed name front mid back u l a h o n =
    scan-free name front (mid ++ l ∷ back) u a h
    ∙ scan-other name mid (l ∷ back) (suc (length front)) (length front) o
    ∙ rw n

-- Where the name is not in the table and a record is free, `add_lock` clears the first free record,
-- puts the name on it, counts it, and returns it; every other record stays as it was.
pub add_lock-vacant :
    (name : Text) (front back : List LockRecord) (u : LockRecord) (c : ℕ)
    → IsName name
    → c < length (front ++ u ∷ back)
    → All (IsBusy name) front
    → u.used ≡ false
    → All (IsOther name) back
    → add_lock (table c (front ++ u ∷ back)) name true
      ≡ ok (some (length front), table ((c + 1) % 2 ^ 32) (front ++ fresh name ∷ back))
unfolding take_found
add_lock-vacant name front back u c n room a h o =
    add_lock_found (table c (front ++ u ∷ back)) name n room
    ∙ rw (scan-vacant name front back u a h o) (take_free_middle name front back u c none h)

-- Where every record before the first one under the name is in use, `add_lock` returns that record
-- and changes nothing.
pub add_lock-reusable :
    (name : Text) (front back : List LockRecord) (l : LockRecord) (c : ℕ)
    → IsName name
    → c < length (front ++ l ∷ back)
    → All (IsBusy name) front
    → is_named name l ≡ true
    → add_lock (table c (front ++ l ∷ back)) name true
      ≡ ok (some (length front), table c (front ++ l ∷ back))
unfolding take_free
add_lock-reusable name front back l c n room a h =
    add_lock_found (table c (front ++ l ∷ back)) name n room
    ∙ rw (
      scan-reusable name front back l a h,
      take_found_lem (table c (front ++ l ∷ back)) (length front) l (get_elem?-middle front back l)
          (is_named-used name l h),
    )

-- The bug of `add_lock`: where a free record stands before the first one under the name, the name is
-- put on the free record too, which is returned in place of the record that holds the lock. The table
-- then has two records under one name.
pub add_lock-shadowed :
    (name : Text) (front mid back : List LockRecord) (u l : LockRecord) (c : ℕ)
    → IsName name
    → c < length (front ++ u ∷ (mid ++ l ∷ back))
    → All (IsBusy name) front
    → u.used ≡ false
    → All (IsOther name) mid
    → is_named name l ≡ true
    → add_lock (table c (front ++ u ∷ (mid ++ l ∷ back))) name true
      ≡ ok (some (length front), table ((c + 1) % 2 ^ 32) (front ++ fresh name ∷ (mid ++ l ∷ back)))
add_lock-shadowed name front mid back u l c n room a h o m =
    add_lock_found t name n room
    ∙ rw
        (
          scan-shadowed name front mid back u l a h o m,
          take_found_lem t (length mid + suc (length front)) l (get_elem?-right front mid back u l)
              (is_named-used name l m),
        )
        (take_free_middle name front (mid ++ l ∷ back) u c _ h)
  where
    t : Table
    t = table c (front ++ u ∷ (mid ++ l ∷ back))

-- The pointer that `add_lock` returns leads to a record in use under the name, in a valid table.
abbrev pub Gives : Text → Option ℕ × Table → Type 0
Gives name (p, t) =
    IsValid t
    × ((i : ℕ) × (l : LockRecord) × (p ≡ some i)
        × (get_elem? t.locks i ≡ some l)
        × (is_named name l ≡ true))

fresh-is_named : (name : Text) → is_named name (fresh name) ≡ true
fresh-is_named name = same_text_refl name

claimed-IsValid :
    (name : Text) (front back : List LockRecord) (u : LockRecord) (c : ℕ)
    → IsValid (table c (front ++ u ∷ back))
    → c < length (front ++ u ∷ back)
    → u.used ≡ false
    → IsValid (table ((c + 1) % 2 ^ 32) (front ++ fresh name ∷ back))
claimed-IsValid name front back u c v room h = record {
  counted = ground (
    arith,
    v.counted,
    v.short,
    used_in-append front (u ∷ back),
    used_in-append front (fresh name ∷ back),
  );
  short =
      omega
        (arith, v.short, length-append front (u ∷ back), length-append front (fresh name ∷ back));
}

claimed-Gives :
    (name : Text) (front back : List LockRecord) (u : LockRecord) (c : ℕ)
    → IsValid (table c (front ++ u ∷ back))
    → c < length (front ++ u ∷ back)
    → u.used ≡ false
    → Gives name (some (length front), table ((c + 1) % 2 ^ 32) (front ++ fresh name ∷ back))
claimed-Gives name front back u c v room h = (
  claimed-IsValid name front back u c v room h,
  (length front, fresh name, refl, get_elem?-middle front back (fresh name), fresh-is_named name),
)

-- The count of records in use falls short of the records, so one is free.
not_full :
    (name : Text) (ls : List LockRecord) (c : ℕ)
    → IsValid (table c ls)
    → c < length ls
    → All (IsBusy name) ls
    → ⊥
not_full name ls c v room a = omega (arith, v.counted, used_in-busy name ls a)

add_lock-of_Standing :
    (name : Text) (ls : List LockRecord) (c : ℕ)
    → IsName name
    → IsValid (table c ls)
    → c < length ls
    → Standing name ls
    → Returns (add_lock (table c ls) name true) (Gives name)
add_lock-of_Standing name ls c n v room (full a) = absurd (not_full name ls c v room a)
add_lock-of_Standing name ls c n v room (reusable f l b e a h) =
    let v' = subst (λ r. IsValid (table c r)) e v in
    let room' = subst (λ r. c < length r) e room in
    rw e (
      (some (length f), table c (f ++ l ∷ b)),
      add_lock-reusable name f b l c n room' a h,
      (v', (length f, l, refl, get_elem?-middle f b l, h)),
    )
add_lock-of_Standing name ls c n v room (vacant f u b e a h o) =
    let v' = subst (λ r. IsValid (table c r)) e v in
    let room' = subst (λ r. c < length r) e room in
    rw e (_, add_lock-vacant name f b u c n room' a h o, claimed-Gives name f b u c v' room' h)
add_lock-of_Standing name ls c n v room (shadowed f u m l b e a h o s) =
    let v' = subst (λ r. IsValid (table c r)) e v in
    let room' = subst (λ r. c < length r) e room in
    rw e (
      _,
      add_lock-shadowed name f m b u l c n room' a h o s,
      claimed-Gives name f (m ++ l ∷ b) u c v' room' h,
    )

-- On a valid table with a free record, and with the semaphore got in time, `add_lock` of a proper name
-- returns no null pointer: the record that it returns is in use under the name. The table stays
-- valid.
pub add_lock-Gives :
    {t : Table} (name : Text)
    → IsValid t
    → IsName name
    → t.used_count < max_count t
    → Returns (add_lock t name true) (Gives name)
add_lock-Gives {t} name v n room =
    add_lock-of_Standing name t.locks t.used_count n v room (standing name t.locks)

-- `add_lock` refuses a name that is empty or has 32 characters or more; it gives up when the semaphore
-- is not got in time; and in a full table it fails, also for a name that is in the table.
pub add_lock-refuses :
    (t : Table) (name : Text) (acquired : Bool)
    → ((is_empty name ≡ true) ⊎ (size_lock_name ≤ length name)
        → add_lock t name acquired ≡ err precondition)
      × (IsName name → add_lock t name false ≡ err lock_timeout)
      × (IsName name → max_count t ≤ t.used_count → add_lock t name true ≡ err exhausted)
unfolding add_lock
add_lock-refuses t name acquired = (λ h. ground arith, λ n. ground arith, λ n h. ground arith)
