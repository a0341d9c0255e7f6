-- ===== src/ReadWriteLock/Table.antt =====
-- common/src/read_write_lock.cpp and common/includes/read_write_lock.h: the table of read/write locks in shared
-- memory, and an instance that is created over one of its records.
use react_fs.Prelude.{
  ℕ, suc, ◌+◌, ◌-◌, ◌%◌, ◌^◌, Bool, true, false, not, Option, none, some, List, [], ◌∷◌, Result, ok,
  precondition, postcondition, wild_access, lock_timeout, exhausted, ◌>>=◌, ◌>>◌, guard, or_fail,
  ltb, ◌==◌, if◌then◌else◌, length, get_elem?, set, replicate,
}
use react_fs.Prelude.Texts.{Text, is_empty}
use react_fs.Instance.{available}
use react_fs.LockTable.{zero_record, size_lock_name, is_named, fresh, less_reference}
use react_fs.ReadWriteLock.{zero_reader, max_readers, RwRecord, RwLock}

-- What `memset(p, 0, sizeof(__rw_lock_struct))` leaves.
abbrev pub zero_rw_record : RwRecord
zero_rw_record = record {
  w_lock_struct = zero_record;
  reader_count = 0;
  readers = replicate max_readers zero_reader;
}

pub record RwTable : Type 0 where
  pub locks : List RwRecord
  pub used_count : ℕ

-- `create` of a manager with `reset`.
unfoldable pub create_table : ℕ → RwTable
create_table count = record { locks = replicate count zero_rw_record; used_count = 0 }

abbrev pub max_count : RwTable → ℕ
max_count t = length t.locks

unfoldable pub get_at : RwTable → ℕ → Result (Option RwRecord)
get_at t index = do
  guard (ltb index (max_count t)) precondition
  l ← or_fail (get_elem? t.locks index) wild_access
  ok (if l.w_lock_struct.used then some l else none)

-- The loop of `add_lock` from index `ii` on: `found_index` and `free_index`, `none` for -1.
unfoldable pub scan : Text → List RwRecord → ℕ → Option ℕ → Option ℕ × Option ℕ
scan name [] ii free = (none, free)
scan name (l ∷ ls) ii free =
    let rest =
      scan name ls (suc ii)
        (elim free [ some k ↦ some k | none ↦ if l.w_lock_struct.used then none else some ii ]) in
    if is_named name l.w_lock_struct then (some ii, free) else rest

unfoldable pub take_found : RwTable → Option ℕ → Result (Option ℕ)
take_found t none = ok none
take_found t (some i) = do
  l ← or_fail (get_elem? t.locks i) wild_access
  guard l.w_lock_struct.used postcondition
  ok (some i)

abbrev pub fresh_rw : Text → RwRecord
fresh_rw name = record zero_rw_record { w_lock_struct = fresh name }

unfoldable pub take_free : RwTable → Text → Option ℕ → Option ℕ → Result (Option ℕ × RwTable)
take_free t name found none = ok (found, t)
take_free t name found (some i) = do
  l ← or_fail (get_elem? t.locks i) wild_access
  guard (not l.w_lock_struct.used) postcondition
  ok (
    some i,
    record t { locks = set t.locks i (fresh_rw name); used_count = (t.used_count + 1) % 2 ^ 32 },
  )

-- The flag is whether the table's semaphore was got within the timeout.
unfoldable pub add_lock : RwTable → Text → Bool → Result (Option ℕ × RwTable)
unfolding scan take_found take_free
add_lock t name acquired = do
  guard (not (is_empty name)) precondition
  guard (ltb (length name) size_lock_name) precondition
  guard acquired lock_timeout
  guard (ltb t.used_count (max_count t)) exhausted
  let found = scan name t.locks 0 none
  r ← take_found t found.0
  take_free t name r found.1

-- The loop of `remove_lock`.
unfoldable pub find_index : Text → List RwRecord → ℕ → Option ℕ
find_index name [] ii = none
find_index name (l ∷ ls) ii =
    let rest = find_index name ls (suc ii) in
    if is_named name l.w_lock_struct then some ii else rest

unfoldable pub release_at : RwTable → Option ℕ → Result (Bool × RwTable)
release_at t none = ok (false, t)
release_at t (some i) = do
  l ← or_fail (get_elem? t.locks i) wild_access
  guard l.w_lock_struct.used postcondition
  let w = less_reference l.w_lock_struct
  if w.ref_count == 0
      then ok (
        true,
        record t {
          locks = set t.locks i zero_rw_record;
          used_count = (t.used_count + 2 ^ 32 - 1) % 2 ^ 32;
        },
      )
      else ok (false, record t { locks = set t.locks i (record l { w_lock_struct = w }) })

unfoldable pub remove_lock : RwTable → Text → Bool → Result (Bool × RwTable)
unfolding find_index release_at
remove_lock t name acquired = do
  guard (not (is_empty name)) precondition
  guard (ltb (length name) size_lock_name) precondition
  guard acquired lock_timeout
  release_at t (find_index name t.locks 0)

-- `create` of a lock: the instance and the index of its record.
unfoldable pub create : RwLock → Text → RwTable → Bool → ℕ → Result ((RwLock × ℕ) × RwTable)
unfolding add_lock
create l name t acquired now = do
  guard (not (is_empty name)) precondition
  r ← add_lock t name acquired
  i ← or_fail r.0 postcondition
  s ← or_fail (get_elem? r.1.locks i) wild_access
  ok (
    (record l { state = available; name = name }, i),
    record r.1 {
      locks =
          set r.1.locks i (record s { w_lock_struct = record s.w_lock_struct { last_used = now } });
    },
  )

unfoldable pub increment_ref_count : RwLock → ℕ × RwLock
increment_ref_count l =
    let n = (l.reference_count + 1) % 2 ^ 32 in (n, record l { reference_count = n })

unfoldable pub decrement_ref_count : RwLock → ℕ × RwLock
decrement_ref_count l =
    let n = (if ltb 0 l.reference_count then l.reference_count - 1 else l.reference_count) in
    (n, record l { reference_count = n })
