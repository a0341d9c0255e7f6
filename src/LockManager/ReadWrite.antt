-- ===== src/LockManager/ReadWrite.antt =====
-- common/src/read_write_lock_manager.cpp: what the manager of a table of read/write locks does to a record.
use react_fs.Prelude.{
  ℕ, zero, suc, ◌+◌, ◌-◌, ◌%◌, ◌^◌, Bool, false, not, ◌&&◌, ◌||◌, Option, none, some, List, [], ◌∷◌,
  Result, ok, unavailable, ◌>>=◌, ◌>>◌, guard, ltb, leb, ◌==◌, if◌then◌else◌, set,
}
use react_fs.LockTable.{LockRecord}
use react_fs.WriteLock.{elapsed}
use react_fs.LockManager.{write_timeout, disowned}
use react_fs.ReadWriteLock.{Reader, RwRecord, lock_expiry}
use react_fs.ReadWriteLock.Table.{RwTable, max_count, get_at, remove_lock}

-- DEFAULT_READ_LOCK_TIMEOUT
abbrev pub read_timeout : ℕ
read_timeout = 300_000

abbrev pub expire_writer : LockRecord → ℕ → LockRecord
expire_writer w now =
    if w.write_locked && ltb write_timeout (elapsed now w.owner.lock_timestamp)
    then record w { owner = disowned w.owner; write_locked = false }
    else w

-- `r_ptr->lock_timestamp`: the time of the first reader of the record, which the loops read for every reader.
abbrev pub first_timestamp : List Reader → ℕ
first_timestamp [] = 0
first_timestamp (r ∷ rs) = r.lock_timestamp

abbrev pub is_late : ℕ → ℕ → Bool
is_late now since = ltb read_timeout (elapsed now since)

-- The loop over the readers, with the count of the record.
unfoldable pub expire_readers : List Reader → ℕ → ℕ → ℕ → List Reader × ℕ
expire_readers [] since now count = ([], count)
expire_readers (r ∷ rs) since now count =
    let late = r.used && is_late now since in
    let rest =
      expire_readers rs since now (if late then (count + 2 ^ 64 - 1) % 2 ^ 64 else count) in
    ((if late then record r { used = false } else r) ∷ rest.0, rest.1)

unfoldable pub expire_record : RwRecord → ℕ → RwRecord
unfolding expire_readers
expire_record r now =
    let left = expire_readers r.readers (first_timestamp r.readers) now r.reader_count in
    record {
      w_lock_struct = expire_writer r.w_lock_struct now;
      reader_count = left.1;
      readers = left.0;
    }

-- The body of the loop of `check_lock_states`, and the loop.
unfoldable pub check_at : RwTable → ℕ → ℕ → Bool → Result RwTable
unfolding expire_record
check_at t ii now acquired = do
  found ← get_at t ii
  elim found [
    | none ↦ ok t
    | some r ↦ (do
      let r' = expire_record r now
      let t' : RwTable = record t { locks = set t.locks ii r' }
      if r'.w_lock_struct.ref_count == 0 && leb lock_expiry (elapsed now r'.w_lock_struct.last_used)
          then (remove_lock t' r'.w_lock_struct.name acquired >>= λ x. ok x.1)
          else ok t')
  ]

unfoldable pub check_from : ℕ → ℕ → RwTable → ℕ → Bool → Result RwTable
unfolding check_at
check_from zero ii t now acquired = ok t
check_from (suc n) ii t now acquired = do
  t' ← check_at t ii now acquired
  check_from n (suc ii) t' now acquired

unfoldable pub check_lock_states : RwTable → Bool → ℕ → Bool → Result RwTable
unfolding check_from
check_lock_states t running now acquired =
    if running then check_from (max_count t) 0 t now acquired else ok t

-- `reset` at the start: `alive` is `process_utils::check_process`.
abbrev pub reset_writer : (Option ℕ → Bool) → LockRecord → ℕ → LockRecord
reset_writer alive w now =
    if w.write_locked
      && (not (alive w.owner.process_id) || ltb write_timeout (elapsed now w.owner.lock_timestamp))
    then record w { owner = disowned w.owner; write_locked = false }
    else w

unfoldable pub reset_readers : (Option ℕ → Bool) → List Reader → ℕ → ℕ → ℕ → List Reader × ℕ
reset_readers alive [] since now count = ([], count)
reset_readers alive (r ∷ rs) since now count =
    let gone = not (alive (some r.process_id)) || is_late now since in
    let rest = reset_readers alive rs since now (if r.used && not gone then suc count else count) in
    ((if r.used && gone then record r { used = false } else r) ∷ rest.0, rest.1)

unfoldable pub reset_record : (Option ℕ → Bool) → RwRecord → ℕ → RwRecord
unfolding reset_readers
reset_record alive r now =
    if r.w_lock_struct.used
    then (let left = reset_readers alive r.readers (first_timestamp r.readers) now 0 in
        record {
          w_lock_struct = reset_writer alive r.w_lock_struct now;
          reader_count = left.1;
          readers = left.0;
        })
    else r

pub reset_records : (Option ℕ → Bool) → List RwRecord → ℕ → List RwRecord
unfolding reset_record
reset_records alive [] now = []
reset_records alive (r ∷ rs) now = reset_record alive r now ∷ reset_records alive rs now

unfoldable pub reset : (Option ℕ → Bool) → RwTable → Bool → ℕ → Result RwTable
unfolding reset_records
reset alive t running now = do
  guard running unavailable
  ok (record t { locks = reset_records alive t.locks now })
