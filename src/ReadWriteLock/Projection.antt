-- ===== src/ReadWriteLock/Projection.antt =====
-- common/src/read_write_lock.cpp beside common/src/write_lock.cpp: the table of read/write locks does with the
-- write-lock parts of its records what the table of write locks does with its records.
use react_fs.Prelude.{
  ℕ, zero, suc, ◌+◌, ◌-◌, ◌%◌, ◌^◌, ◌≡◌, refl, ap, Bool, true, false, not, Option, none, some, List,
  [], ◌∷◌, Result, ok, err, Error, precondition, postcondition, wild_access, lock_timeout,
  exhausted, ◌>>=◌, ◌>>◌, guard, or_fail, ltb, ◌==◌, if◌then◌else◌, length, get_elem?, set,
  Bool-cases, inl, inr,
}
use react_fs.Prelude.Texts.{Text, is_empty}
use react_fs.LockTable
use react_fs.LockTable.{LockRecord, Table, zero_record, is_named, fresh, less_reference}
use react_fs.ReadWriteLock.{RwRecord}
use react_fs.ReadWriteLock.Table.{
  RwTable, zero_rw_record, fresh_rw, max_count, scan, take_found, take_free, add_lock, find_index,
  release_at, remove_lock,
}

abbrev pub w_locks : List RwRecord → List LockRecord
w_locks [] = []
w_locks (l ∷ ls) = l.w_lock_struct ∷ w_locks ls

abbrev pub write_part : RwTable → Table
write_part t = record { locks = w_locks t.locks; used_count = t.used_count }

-- A call's table, seen as a table of write locks.
abbrev pub projected : {A : Type 0} → Result (A × RwTable) → Result (A × Table)
projected (err e) = err e
projected (ok (a, t)) = ok (a, write_part t)

-- The projection goes through the guards and the calls before it.
guard-projected :
    {A : Type 0} (b : Bool) (e : Error) (x : Result (A × Table)) (y : Result (A × RwTable))
    → x ≡ projected y
    → (guard b e >> x) ≡ projected (guard b e >> y)
guard-projected false e x y h = refl
guard-projected true e x y h = h

bind-projected :
    {A B : Type 0} (r : Result A) (f : A → Result (B × Table)) (g : A → Result (B × RwTable))
    → ((a : A) → f a ≡ projected (g a))
    → (r >>= f) ≡ projected (r >>= g)
bind-projected (err e) f g h = refl
bind-projected (ok a) f g h = h a

length-w_locks : (ls : List RwRecord) → length (w_locks ls) ≡ length ls
length-w_locks [] = refl
length-w_locks (l ∷ ls) = ap suc (length-w_locks ls)

w_locks-set :
    (ls : List RwRecord) (i : ℕ) (r : RwRecord)
    → w_locks (set ls i r) ≡ set (w_locks ls) i r.w_lock_struct
w_locks-set [] i r = refl
w_locks-set (l ∷ ls) zero r = refl
w_locks-set (l ∷ ls) (suc i) r = ap (λ ws. l.w_lock_struct ∷ ws) (w_locks-set ls i r)

abbrev w_lock : Option RwRecord → Option LockRecord
w_lock none = none
w_lock (some r) = some r.w_lock_struct

get_elem?-w_locks :
    (ls : List RwRecord) (i : ℕ) → get_elem? (w_locks ls) i ≡ w_lock (get_elem? ls i)
get_elem?-w_locks [] i = refl
get_elem?-w_locks (l ∷ ls) zero = refl
get_elem?-w_locks (l ∷ ls) (suc i) = get_elem?-w_locks ls i

scan-w_locks :
    (name : Text) (ls : List RwRecord) (ii : ℕ) (free : Option ℕ)
    → LockTable.scan name (w_locks ls) ii free ≡ scan name ls ii free
unfolding scan LockTable.scan
scan-w_locks name [] ii free = refl
scan-w_locks name (l ∷ ls) ii free =
    ap (λ x. if is_named name l.w_lock_struct then (some ii, free) else x)
      (scan-w_locks name ls (suc ii)
        (elim free [ some k ↦ some k | none ↦ if l.w_lock_struct.used then none else some ii ]))

find_index-w_locks :
    (name : Text) (ls : List RwRecord) (ii : ℕ)
    → LockTable.find_index name (w_locks ls) ii ≡ find_index name ls ii
unfolding find_index LockTable.find_index
find_index-w_locks name [] ii = refl
find_index-w_locks name (l ∷ ls) ii =
    ap (λ x. if is_named name l.w_lock_struct then some ii else x)
      (find_index-w_locks name ls (suc ii))

take_found-write_part :
    (t : RwTable) (i : Option ℕ) → LockTable.take_found (write_part t) i ≡ take_found t i
unfolding take_found LockTable.take_found
take_found-write_part t none = refl
take_found-write_part t (some i) = rw (get_elem?-w_locks t.locks i) (same (get_elem? t.locks i))
  where
    same :
        (o : Option RwRecord)
        → (or_fail (w_lock o) wild_access >>= λ l. (guard l.used postcondition >> ok (some i))) ≡ (
            or_fail o wild_access >>= λ l.
            (guard l.w_lock_struct.used postcondition >> ok (some i)))
    same none = refl
    same (some r) = refl

take_free-write_part :
    (t : RwTable) (name : Text) (found free : Option ℕ)
    → LockTable.take_free (write_part t) name found free ≡ projected (take_free t name found free)
unfolding take_free LockTable.take_free
take_free-write_part t name found none = refl
take_free-write_part t name found (some i) =
    rw (get_elem?-w_locks t.locks i) (same (get_elem? t.locks i))
  where
    same :
        (o : Option RwRecord)
        → (or_fail (w_lock o) wild_access >>= λ l.
            (guard (not l.used) postcondition
              >> ok (
                some i,
                record (write_part t) {
                  locks = set (w_locks t.locks) i (fresh name);
                  used_count = (t.used_count + 1) % 2 ^ 32;
                },
              )))
          ≡ projected (
              or_fail o wild_access >>= λ l.
              (guard (not l.w_lock_struct.used) postcondition
                >> ok (
                  some i,
                  record t {
                    locks = set t.locks i (fresh_rw name);
                    used_count = (t.used_count + 1) % 2 ^ 32;
                  },
                )))
    same none = refl
    same (some r) = elim (Bool-cases r.w_lock_struct.used) [
      | inl u ↦ rw u refl
      | inr u ↦ rw (u, w_locks-set t.locks i (fresh_rw name)) refl
    ]

release_at-write_part :
    (t : RwTable) (found : Option ℕ)
    → LockTable.release_at (write_part t) found ≡ projected (release_at t found)
unfolding release_at LockTable.release_at
release_at-write_part t none = refl
release_at-write_part t (some i) = rw (get_elem?-w_locks t.locks i) (same (get_elem? t.locks i))
  where
    ends :
        (r : RwRecord) (last : Bool)
        → (if last
            then ok (
              true,
              record (write_part t) {
                locks = set (w_locks t.locks) i zero_record;
                used_count = (t.used_count + 2 ^ 32 - 1) % 2 ^ 32;
              },
            )
            else ok (
              false,
              record (write_part t) {
                locks = set (w_locks t.locks) i (less_reference r.w_lock_struct);
              },
            ))
          ≡ projected (
              if last
              then ok (
                true,
                record t {
                  locks = set t.locks i zero_rw_record;
                  used_count = (t.used_count + 2 ^ 32 - 1) % 2 ^ 32;
                },
              )
              else ok (
                false,
                record t {
                  locks =
                      set t.locks i (record r { w_lock_struct = less_reference r.w_lock_struct });
                },
              ))
    ends r true = rw (w_locks-set t.locks i zero_rw_record) refl
    ends r false =
        rw (w_locks-set t.locks i (record r { w_lock_struct = less_reference r.w_lock_struct }))
          refl

    same :
        (o : Option RwRecord)
        → (or_fail (w_lock o) wild_access >>= λ l.
            (guard l.used postcondition
              >> (let l' = less_reference l in
                  if l'.ref_count == 0
                  then ok (
                    true,
                    record (write_part t) {
                      locks = set (w_locks t.locks) i zero_record;
                      used_count = (t.used_count + 2 ^ 32 - 1) % 2 ^ 32;
                    },
                  )
                  else ok (false, record (write_part t) { locks = set (w_locks t.locks) i l' }))))
          ≡ projected (
              or_fail o wild_access >>= λ l.
              (guard l.w_lock_struct.used postcondition
                >> (let w = less_reference l.w_lock_struct in
                    if w.ref_count == 0
                    then ok (
                      true,
                      record t {
                        locks = set t.locks i zero_rw_record;
                        used_count = (t.used_count + 2 ^ 32 - 1) % 2 ^ 32;
                      },
                    )
                    else ok (
                      false,
                      record t { locks = set t.locks i (record l { w_lock_struct = w }) },
                    ))))
    same none = refl
    same (some r) =
        guard-projected r.w_lock_struct.used postcondition _ _
          (ends r ((less_reference r.w_lock_struct).ref_count == 0))

-- `add_lock` of the read/write table does with the write-lock parts of its records, its count and its answer what
-- `add_lock` of the write-lock table does with that table, failures included.
pub add_lock-write_part :
    (t : RwTable) (name : Text) (acquired : Bool)
    → LockTable.add_lock (write_part t) name acquired ≡ projected (add_lock t name acquired)
unfolding add_lock LockTable.add_lock
add_lock-write_part t name acquired = guard-projected (not (is_empty name)) precondition _ _ (
    guard-projected (ltb (length name) LockTable.size_lock_name) precondition _ _ (
      guard-projected acquired lock_timeout _ _ (
        rw (length-w_locks t.locks, scan-w_locks name t.locks 0 none)
          (guard-projected (ltb t.used_count (max_count t)) exhausted _ _ (
            rw (take_found-write_part t (scan name t.locks 0 none).0) (
              bind-projected (take_found t (scan name t.locks 0 none).0) _ _
                (λ r. take_free-write_part t name r (scan name t.locks 0 none).1)))))))

-- `remove_lock` of the read/write table does with the write-lock parts of its records, its count and its answer
-- what `remove_lock` of the write-lock table does with that table, failures included.
pub remove_lock-write_part :
    (t : RwTable) (name : Text) (acquired : Bool)
    → LockTable.remove_lock (write_part t) name acquired ≡ projected (remove_lock t name acquired)
unfolding remove_lock LockTable.remove_lock
remove_lock-write_part t name acquired = guard-projected (not (is_empty name)) precondition _ _ (
    guard-projected (ltb (length name) LockTable.size_lock_name) precondition _ _ (
      guard-projected acquired lock_timeout _ _ (
        rw (find_index-w_locks name t.locks 0)
          (release_at-write_part t (find_index name t.locks 0)))))
