-- ===== src/LockManager.antt =====
-- common/src/write_lock_manager.cpp: what the manager of a table of write locks does to the records, in the pass
-- that its thread repeats and at its start.
pub mod ReadWrite
pub mod Pass
pub mod Expiry
mod Tests
use react_fs.Prelude.{
  ℕ, zero, suc, ◌+◌, ◌-◌, ◌%◌, ◌^◌, Bool, true, false, not, ◌&&◌, ◌||◌, Option, none, some, List,
  [], ◌∷◌, Result, ok, err, unavailable, ◌>>=◌, ◌>>◌, guard, ltb, leb, ◌==◌, if◌then◌else◌, set,
}
use react_fs.Prelude.Texts.{Text}
use react_fs.LockTable.{lock_expired, Owner, LockRecord, Table, max_count, get_at, remove_lock}
use react_fs.WriteLock.{elapsed, lock_expiry}

-- DEFAULT_WRITE_LOCK_TIMEOUT
abbrev pub write_timeout : ℕ
write_timeout = 300_000

-- The owner as the manager clears it: the thread id and the time of the last use stay.
abbrev pub disowned : Owner → Owner
disowned o = record o { lock_timestamp = 0; process_id = none; txn_id = []; owner = [] }

-- A lock whose owner has not used it for five minutes is taken away.
abbrev pub is_stale : LockRecord → ℕ → Bool
is_stale l now = l.write_locked && ltb write_timeout (elapsed now l.owner.last_updated)

abbrev pub expire : LockRecord → ℕ → LockRecord
expire l now =
    if is_stale l now
    then record l { owner = disowned l.owner; write_locked = false; state = lock_expired }
    else l

abbrev pub is_idle : LockRecord → ℕ → Bool
is_idle l now = l.ref_count == 0 && leb lock_expiry ((elapsed now l.last_used + 1) % 2 ^ 64)

-- The body of the loop of `check_lock_states`. The clock is read once for a pass; the flag is whether the
-- table's semaphore is got.
unfoldable pub check_at : Table → ℕ → ℕ → Bool → Result Table
check_at t ii now acquired = do
  found ← get_at t ii
  elim found [
    | none ↦ ok t
    | some l ↦ (do
      let t' : Table = record t { locks = set t.locks ii (expire l now) }
      if is_idle (expire l now) now
          then (remove_lock t' l.name acquired >>= λ r. ok r.1)
          else ok t')
  ]

unfoldable pub check_from : ℕ → ℕ → Table → ℕ → Bool → Result Table
unfolding check_at
check_from zero ii t now acquired = ok t
check_from (suc n) ii t now acquired = do
  t' ← check_at t ii now acquired
  check_from n (suc ii) t' now acquired

-- The flag `running` is whether the state of the manager is available.
unfoldable pub check_lock_states : Table → Bool → ℕ → Bool → Result Table
unfolding check_from
check_lock_states t running now acquired =
    if running then check_from (max_count t) 0 t now acquired else ok t

-- `reset` at the start takes a lock away whose process is gone, as `alive` tells, or that was taken
-- more than five minutes ago. The state of the record stays.
abbrev pub reset_record : (Option ℕ → Bool) → LockRecord → ℕ → LockRecord
reset_record alive l now =
    if l.used
      && (l.write_locked
          && (not (alive l.owner.process_id)
              || ltb write_timeout (elapsed now l.owner.lock_timestamp)))
    then record l { owner = disowned l.owner; write_locked = false }
    else l

pub reset_records : (Option ℕ → Bool) → List LockRecord → ℕ → List LockRecord
reset_records alive [] now = []
reset_records alive (l ∷ ls) now = reset_record alive l now ∷ reset_records alive ls now

unfoldable pub reset : (Option ℕ → Bool) → Table → Bool → ℕ → Result Table
unfolding reset_records
reset alive t running now = do
  guard running unavailable
  ok (record t { locks = reset_records alive t.locks now })
