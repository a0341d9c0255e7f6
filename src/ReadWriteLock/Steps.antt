-- ===== src/ReadWriteLock/Steps.antt =====
-- common/includes/read_write_lock.h and common/src/read_write_lock_manager.cpp: the calls of all instances over one
-- record, and the passes of the manager, one after the other.
use react_fs.Prelude.{
  ℕ, zero, suc, ◌+◌, ◌-◌, ◌%◌, ◌^◌, ◌≤◌, ◌<◌, ◌≡◌, refl, sym, ap, ◌∙◌, Bool, true, false, not, ◌&&◌,
  ◌||◌, Option, some, List, [], ◌∷◌, arith, if◌then◌else◌, length, replicate, length-replicate,
  Bool-cases, inl, inr,
}
use react_fs.Prelude.Texts.{Text}
use react_fs.LockTable.{LockRecord}
use react_fs.WriteLock.{Caller}
use react_fs.LockManager.ReadWrite.{
  is_late, first_timestamp, expire_writer, expire_readers, expire_record, reset_writer,
  reset_readers, reset_record,
}
use react_fs.ReadWriteLock.{Reader, zero_reader, max_readers, RwRecord, RwLock, RwSession}
use react_fs.ReadWriteLock.Table.{fresh_rw}
use react_fs.ReadWriteLock.Acquire.{
  attempt_write, attempt_read, release_write_lock, release_read_lock, check_and_clear,
}
use react_fs.ReadWriteLock.Readers.{used_readers, used_readers-length}
use react_fs.ReadWriteLock.Consistent.{
  IsConsistent, attempt_write-IsConsistent, attempt_read-IsConsistent,
}
use react_fs.ReadWriteLock.Release.{
  release_write_lock-IsConsistent, release_read_lock-IsConsistent, check_and_clear-IsConsistent,
}

abbrev over : RwRecord → RwLock → RwSession
over r l = record { lock = l; slot = r }

-- A call of any instance by any caller, whether it fails or not, or what the manager does to the record.
pub data Step : RwRecord → RwRecord → Type 0 where
  writes :
      (r : RwRecord) (l : RwLock) (c : Caller) (owner uuid : Text)
      → Step r (attempt_write (over r l) c owner uuid).1.slot
  reads : (r : RwRecord) (l : RwLock) (c : Caller) → Step r (attempt_read (over r l) c).1.slot
  releases_write :
      (r : RwRecord) (l : RwLock) (c : Caller) (got : Bool)
      → Step r (release_write_lock (over r l) c got).1.slot
  releases_read :
      (r : RwRecord) (l : RwLock) (c : Caller) (got : Bool)
      → Step r (release_read_lock (over r l) c got).1.slot
  clears :
      (r : RwRecord) (l : RwLock) (c : Caller) (got : Bool)
      → Step r (check_and_clear (over r l) c got).1.slot
  expires : (r : RwRecord) (now : ℕ) → Step r (expire_record r now)
  resets : (r : RwRecord) (alive : Option ℕ → Bool) (now : ℕ) → Step r (reset_record alive r now)

-- A record as `add_lock` fills it, after any number of steps.
pub data Reachable : RwRecord → Type 0 where
  start : (name : Text) → Reachable (fresh_rw name)
  next : (r q : RwRecord) → Reachable r → Step r q → Reachable q

expire_readers-used :
    (rs : List Reader) (since now count m : ℕ)
    → count ≡ m + used_readers rs
    → count < 2 ^ 64
    → ((expire_readers rs since now count).1
        ≡ m + used_readers (expire_readers rs since now count).0)
      × (length (expire_readers rs since now count).0 ≡ length rs)
      × ((expire_readers rs since now count).1 ≤ count)
unfolding expire_readers
expire_readers-used [] since now count m e b = (e, refl, omega arith)
expire_readers-used (r ∷ rs) since now count m e b =
    elim (Bool-cases (r.used && is_late now since)) [
      | inl late ↦
          (let u : r.used ≡ true = ground (arith, late) in
            let e' : count ≡ m + suc (used_readers rs) = ground (arith, e, u) in
            let n =
              expire_readers-used rs since now ((count + 2 ^ 64 - 1) % 2 ^ 64) m
                (omega (arith, e', b)) (omega arith) in
            rw late (omega (arith, n.0), ap suc n.1, omega (arith, n.2, e', b)))
      | inr kept ↦
          (let n =
              expire_readers-used rs since now count (m + (if r.used then 1 else 0))
                (omega (arith, e)) b in
            rw kept (omega (arith, n.0), ap suc n.1, n.2))
    ]

expire_record-IsConsistent :
    (r : RwRecord) (now : ℕ) → IsConsistent r → IsConsistent (expire_record r now)
unfolding expire_record
expire_record-IsConsistent r now h =
    let n =
      expire_readers-used r.readers (first_timestamp r.readers) now r.reader_count 0
        (omega (arith, h.counted))
        (omega (arith, h.counted, h.sized, used_readers-length r.readers)) in
    record {
      sized = n.1 ∙ h.sized;
      counted = omega (arith, n.0);
      exclusive = λ w. omega (arith, n.2, h.exclusive (still (r.w_lock_struct) w));
    }
  where
    still : (w : LockRecord) → (expire_writer w now).write_locked ≡ true → w.write_locked ≡ true
    still w e = ground (arith, e)

reset_readers-used :
    (alive : Option ℕ → Bool) (rs : List Reader) (since now count : ℕ)
    → ((reset_readers alive rs since now count).1
        ≡ count + used_readers (reset_readers alive rs since now count).0)
      × (length (reset_readers alive rs since now count).0 ≡ length rs)
      × ((reset_readers alive rs since now count).1 ≤ count + used_readers rs)
unfolding reset_readers
reset_readers-used alive [] since now count = (omega arith, refl, omega arith)
reset_readers-used alive (r ∷ rs) since now count = elim (Bool-cases r.used) [
  | inr free ↦
      (let n = reset_readers-used alive rs since now count in
        (ground (arith, free, n.0), rw free (ap suc n.1), ground (arith, free, n.2)))
  | inl used ↦ elim (Bool-cases (not (alive (some r.process_id)) || is_late now since)) [
    | inl gone ↦
        (let n = reset_readers-used alive rs since now count in
          (
            ground (arith, used, gone, n.0),
            rw (used, gone) (ap suc n.1),
            ground (arith, used, gone, n.2),
          ))
    | inr stays ↦
        (let n = reset_readers-used alive rs since now (suc count) in
          (
            ground (arith, used, stays, n.0),
            rw (used, stays) (ap suc n.1),
            ground (arith, used, stays, n.2),
          ))
  ]
]

reset_record-IsConsistent :
    (alive : Option ℕ → Bool) (r : RwRecord) (now : ℕ)
    → IsConsistent r
    → IsConsistent (reset_record alive r now)
unfolding reset_record
reset_record-IsConsistent alive r now h = at r.w_lock_struct.used
  where
    still :
        (w : LockRecord) → (reset_writer alive w now).write_locked ≡ true → w.write_locked ≡ true
    still w e = ground (arith, e)

    left : List Reader × ℕ
    left = reset_readers alive r.readers (first_timestamp r.readers) now 0

    at :
        (used : Bool)
        → IsConsistent (
            if used
            then (record {
              w_lock_struct = reset_writer alive r.w_lock_struct now;
              reader_count = left.1;
              readers = left.0;
            })
            else r)
    at false = h
    at true =
        let n = reset_readers-used alive r.readers (first_timestamp r.readers) now 0 in
        record {
          sized = n.1 ∙ h.sized;
          counted = omega (arith, n.0);
          exclusive = λ w. omega (arith, n.2, h.counted, h.exclusive (still r.w_lock_struct w));
        }

used_readers-replicate : (n : ℕ) → used_readers (replicate n zero_reader) ≡ 0
used_readers-replicate zero = refl
used_readers-replicate (suc n) = omega (arith, used_readers-replicate n)

fresh_rw-IsConsistent : (name : Text) → IsConsistent (fresh_rw name)
fresh_rw-IsConsistent name = record {
  sized = length-replicate max_readers zero_reader;
  counted = sym (used_readers-replicate max_readers);
  exclusive = λ w. refl;
}

Step-IsConsistent : (r q : RwRecord) → Step r q → IsConsistent r → IsConsistent q
Step-IsConsistent r q (writes _ l c owner uuid) h =
    attempt_write-IsConsistent (over r l) c owner uuid h
Step-IsConsistent r q (reads _ l c) h = attempt_read-IsConsistent (over r l) c h
Step-IsConsistent r q (releases_write _ l c got) h =
    release_write_lock-IsConsistent (over r l) c got h
Step-IsConsistent r q (releases_read _ l c got) h =
    release_read_lock-IsConsistent (over r l) c got h
Step-IsConsistent r q (clears _ l c got) h = check_and_clear-IsConsistent (over r l) c got h
Step-IsConsistent r q (expires _ now) h = expire_record-IsConsistent r now h
Step-IsConsistent r q (resets _ alive now) h = reset_record-IsConsistent alive r now h

-- Whatever calls of whatever instances and passes of the manager follow one another from a new record on, its
-- count is that of its used readers, and no reader is used while a writer has the lock.
pub Reachable-IsConsistent : (r : RwRecord) → Reachable r → IsConsistent r
Reachable-IsConsistent r (start name) = fresh_rw-IsConsistent name
Reachable-IsConsistent r (next p _ h s) = Step-IsConsistent p r s (Reachable-IsConsistent p h)
