-- ===== src/LockTable/Remove.antt =====
-- write_lock.cpp: `remove_lock`, alone and after `add_lock`.
use mathlib.Core.List.{append-nil}
use mathlib.Core.Path.{subst}
use native.Mathlib.Nat.{add-zero}
use react_fs.Prelude.{
  ℕ, ◌+◌, ◌-◌, ◌%◌, ◌^◌, ◌<◌, ◌≡◌, refl, sym, ap, ◌∙◌, Bool, true, false, none, some, List, [], ◌∷◌,
  ◌++◌, arith, ok, Returns, ◌>>=◌, ltb, if◌then◌else◌, length, All, get_elem?-middle, set-middle,
  length-append, Bool-cases, inl, inr,
}
use react_fs.Prelude.Texts.{Text, same_text_refl}
use react_fs.LockTable.{
  Table, LockRecord, zero_record, is_named, fresh, find_index, release_at, add_lock, remove_lock,
}
use react_fs.LockTable.Scan.{
  IsValid, IsBusy, IsOther, Presence, absent, present, presence, find_index-other, used_in-append,
  used_in-le,
}
use react_fs.LockTable.Add.{IsName, table, add_lock-vacant, add_lock-reusable, is_named-used}

pub remove_lock_lem :
    (t : Table) (name : Text)
    → IsName name
    → remove_lock t name true ≡ release_at t (find_index name t.locks 0)
unfolding remove_lock
remove_lock_lem t name n = rw n.filled (ground arith)

find_index-absent :
    (name : Text) (ls : List LockRecord) → All (IsOther name) ls → find_index name ls 0 ≡ none
unfolding find_index
find_index-absent name ls a =
    ap (λ r. find_index name r 0) (sym (append-nil ls)) ∙ find_index-other name ls [] 0 a

find_index-present :
    (name : Text) (front back : List LockRecord) (l : LockRecord)
    → All (IsOther name) front
    → is_named name l ≡ true
    → find_index name (front ++ l ∷ back) 0 ≡ some (length front)
unfolding find_index
find_index-present name front back l a h =
    find_index-other name front (l ∷ back) 0 a ∙ rw h (rw add-zero)

-- What becomes of the table when the record between `front` and `back` loses a reference.
abbrev pub released : ℕ → List LockRecord → LockRecord → List LockRecord → Bool × Table
released c front l back =
    if ltb 1 l.ref_count
    then (false, table c (front ++ record l { ref_count = l.ref_count - 1 } ∷ back))
    else (true, table ((c + 2 ^ 32 - 1) % 2 ^ 32) (front ++ zero_record ∷ back))

release_at-middle :
    (c : ℕ) (front back : List LockRecord) (l : LockRecord)
    → l.used ≡ true
    → release_at (table c (front ++ l ∷ back)) (some (length front)) ≡ ok (released c front l back)
unfolding release_at
release_at-middle c front back l h = ground (
  arith,
  get_elem?-middle front back l,
  set-middle front back l zero_record,
  set-middle front back l (record l { ref_count = l.ref_count - 1 }),
)

-- `remove_lock` of a proper name takes a reference from the first record under the name: the record is
-- cleared, and the call answers true, if at most one was left; else the count falls by one and the
-- call answers false. Every other record stays.
pub remove_lock-present :
    (name : Text) (front back : List LockRecord) (l : LockRecord) (c : ℕ)
    → IsName name
    → All (IsOther name) front
    → is_named name l ≡ true
    → remove_lock (table c (front ++ l ∷ back)) name true ≡ ok (released c front l back)
remove_lock-present name front back l c n a h =
    remove_lock_lem (table c (front ++ l ∷ back)) name n
    ∙ rw (find_index-present name front back l a h)
        (release_at-middle c front back l (is_named-used name l h))

remove_lock-absent :
    (name : Text) (t : Table)
    → IsName name
    → All (IsOther name) t.locks
    → remove_lock t name true ≡ ok (false, t)
unfolding release_at
remove_lock-absent name t n a = remove_lock_lem t name n ∙ rw (find_index-absent name t.locks a)

released-IsValid :
    (c : ℕ) (front back : List LockRecord) (l : LockRecord)
    → l.used ≡ true
    → IsValid (table c (front ++ l ∷ back))
    → IsValid (released c front l back).1
released-IsValid c front back l h v = elim (Bool-cases (ltb 1 l.ref_count)) [
  | inl more ↦ rw more (record {
    counted = ground (
      arith,
      v.counted,
      used_in-append front (l ∷ back),
      used_in-append front (record l { ref_count = l.ref_count - 1 } ∷ back),
    );
    short = omega (
      arith,
      v.short,
      length-append front (l ∷ back),
      length-append front (record l { ref_count = l.ref_count - 1 } ∷ back),
    );
  })
  | inr last ↦ rw last (record {
    counted = ground (
      arith,
      v.counted,
      v.short,
      used_in-append front (l ∷ back),
      used_in-append front (zero_record ∷ back),
      used_in-le (front ++ l ∷ back),
    );
    short =
        omega (
          arith,
          v.short,
          length-append front (l ∷ back),
          length-append front (zero_record ∷ back),
        );
  })
]

remove_lock-of_Presence :
    (name : Text) (ls : List LockRecord) (c : ℕ)
    → IsName name
    → IsValid (table c ls)
    → Presence name ls
    → Returns (remove_lock (table c ls) name true) (λ r. IsValid r.1)
remove_lock-of_Presence name ls c n v (absent a) = (_, remove_lock-absent name (table c ls) n a, v)
remove_lock-of_Presence name ls c n v (present f l b e a h) =
    let v' = subst (λ r. IsValid (table c r)) e v in
    rw e (
      _,
      remove_lock-present name f b l c n a h,
      released-IsValid c f b l (is_named-used name l h) v',
    )

-- `remove_lock` of a proper name returns on every valid table, and keeps it valid: the count of records
-- in use stays right.
pub remove_lock-IsValid :
    {t : Table} (name : Text)
    → IsName name
    → IsValid t
    → Returns (remove_lock t name true) (λ r. IsValid r.1)
remove_lock-IsValid {t} name n v =
    remove_lock-of_Presence name t.locks t.used_count n v (presence name t.locks)

pub IsBusy-IsOther :
    (name : Text) (ls : List LockRecord) → All (IsBusy name) ls → All (IsOther name) ls
IsBusy-IsOther name [] a = tt
IsBusy-IsOther name (l ∷ ls) a = (ground arith, IsBusy-IsOther name ls a.1)

-- In a valid table with a cleared record and no record under the name, `remove_lock` after `add_lock`
-- gives the table back as it was.
pub remove_lock-add_lock :
    (name : Text) (front back : List LockRecord) (c : ℕ)
    → IsName name
    → IsValid (table c (front ++ zero_record ∷ back))
    → c < length (front ++ zero_record ∷ back)
    → All (IsBusy name) front
    → All (IsOther name) back
    → (add_lock (table c (front ++ zero_record ∷ back)) name true >>= λ r.
        remove_lock r.1 name true)
      ≡ ok (true, table c (front ++ zero_record ∷ back))
remove_lock-add_lock name front back c n v room a o =
    rw (add_lock-vacant name front back zero_record c n room a refl o) (
      remove_lock-present name front back (fresh name) ((c + 1) % 2 ^ 32) n
        (IsBusy-IsOther name front a) (same_text_refl name)
      ∙ ap (λ k. ok (true, table k (front ++ zero_record ∷ back))) back_again)
  where
    back_again : ((c + 1) % 2 ^ 32 + 2 ^ 32 - 1) % 2 ^ 32 ≡ c
    back_again = omega (arith, v.short)

-- The bug of the reference count, which `add_lock` never raises: where a record under the name is in
-- use with count 0, a second user's `add_lock` shares it, and that user's `remove_lock` clears it, also
-- if the first user holds the lock.
pub remove_lock-drops_shared :
    (name : Text) (front back : List LockRecord) (l : LockRecord) (c : ℕ)
    → IsName name
    → c < length (front ++ l ∷ back)
    → All (IsBusy name) front
    → is_named name l ≡ true
    → l.ref_count ≡ 0
    → (add_lock (table c (front ++ l ∷ back)) name true >>= λ r. remove_lock r.1 name true)
      ≡ ok (true, table ((c + 2 ^ 32 - 1) % 2 ^ 32) (front ++ zero_record ∷ back))
remove_lock-drops_shared name front back l c n room a h z =
    rw (add_lock-reusable name front back l c n room a h) (
      remove_lock-present name front back l c n (IsBusy-IsOther name front a) h ∙ ground (arith, z))
