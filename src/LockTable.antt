-- ===== src/LockTable.antt =====
-- common/src/write_lock.cpp and common/includes/lock_structs_v0.h: the table of write locks in
-- shared memory, which hands a named record to each lock.
pub mod Scan
pub mod Add
pub mod Remove
mod Tests
use react_fs.Prelude.{
  ℕ, zero, suc, ◌+◌, ◌-◌, ◌%◌, ◌^◌, Bool, true, false, not, ◌&&◌, Option, none, some, List, [], ◌∷◌,
  Result, ok, err, Error, precondition, postcondition, wild_access, lock_timeout, exhausted, ◌>>=◌,
  ◌>>◌, guard, or_fail, ltb, leb, ◌==◌, if◌then◌else◌, length, get_elem?, set, replicate,
}
use react_fs.Prelude.Texts.{Text, is_empty, same_text}

pub data LockState : Type 0 where
  lock_unknown lock_free lock_locked lock_expired lock_reset lock_error : LockState

-- `__owner_v0`; `none` stands for the process id -1.
pub record Owner : Type 0 where
  pub owner : Text
  pub txn_id : Text
  pub process_id : Option ℕ
  pub thread_id : Text
  pub lock_timestamp : ℕ
  pub last_updated : ℕ

-- `__w_lock_struct_v0`
pub record LockRecord : Type 0 where
  pub used : Bool
  pub name : Text
  pub last_used : ℕ
  pub write_locked : Bool
  pub state : LockState
  pub ref_count : ℕ
  pub owner : Owner

-- What `memset(p, 0, sizeof(__w_lock_struct))` leaves.
abbrev pub zero_owner : Owner
zero_owner = record {
  owner = [];
  txn_id = [];
  process_id = some 0;
  thread_id = [];
  lock_timestamp = 0;
  last_updated = 0;
}

abbrev pub zero_record : LockRecord
zero_record = record {
  used = false;
  name = [];
  last_used = 0;
  write_locked = false;
  state = lock_unknown;
  ref_count = 0;
  owner = zero_owner;
}

-- `__shared_lock_data` and the records behind it. There are `max_count` records.
pub record Table : Type 0 where
  pub locks : List LockRecord
  pub used_count : ℕ

abbrev pub max_count : Table → ℕ
max_count t = length t.locks

-- `create` of a manager with `reset`: the segment is cleared.
unfoldable pub create : ℕ → Table
create count = record { locks = replicate count zero_record; used_count = 0 }

-- SIZE_LOCK_NAME
abbrev pub size_lock_name : ℕ
size_lock_name = 32

abbrev pub is_named : Text → LockRecord → Bool
is_named name l = l.used && same_text l.name name

-- The loop of `add_lock` from index `ii` on: `found_index` and `free_index`, `none` for -1.
unfoldable pub scan : Text → List LockRecord → ℕ → Option ℕ → Option ℕ × Option ℕ
scan name [] ii free = (none, free)
scan name (l ∷ ls) ii free =
    let rest =
      scan name ls (suc ii)
        (elim free [ some k ↦ some k | none ↦ if l.used then none else some ii ]) in
    if is_named name l then (some ii, free) else rest

-- The record as `add_lock` fills it.
abbrev pub fresh : Text → LockRecord
fresh name = record zero_record { used = true; name = name }

unfoldable pub take_found : Table → Option ℕ → Result (Option ℕ)
take_found t none = ok none
take_found t (some i) = do
  l ← or_fail (get_elem? t.locks i) wild_access
  guard l.used postcondition
  ok (some i)

unfoldable pub take_free : Table → Text → Option ℕ → Option ℕ → Result (Option ℕ × Table)
take_free t name found none = ok (found, t)
take_free t name found (some i) = do
  l ← or_fail (get_elem? t.locks i) wild_access
  guard (not l.used) postcondition
  ok (
    some i,
    record t { locks = set t.locks i (fresh name); used_count = (t.used_count + 1) % 2 ^ 32 },
  )

-- The flag is whether the table's semaphore was got within the timeout. The pointer that is returned
-- is the index of a record, `none` if null.
unfoldable pub add_lock : Table → Text → Bool → Result (Option ℕ × Table)
unfolding scan take_found take_free
add_lock t name acquired = do
  guard (not (is_empty name)) precondition
  guard (ltb (length name) size_lock_name) precondition
  guard acquired lock_timeout
  guard (ltb t.used_count (max_count t)) exhausted
  let found = scan name t.locks 0 none
  r ← take_found t found.0
  take_free t name r found.1

-- The loop of `remove_lock`.
unfoldable pub find_index : Text → List LockRecord → ℕ → Option ℕ
find_index name [] ii = none
find_index name (l ∷ ls) ii =
    let rest = find_index name ls (suc ii) in if is_named name l then some ii else rest

-- One reference less; the record is cleared when none is left.
abbrev pub less_reference : LockRecord → LockRecord
less_reference l = if ltb 0 l.ref_count then record l { ref_count = l.ref_count - 1 } else l

unfoldable pub release_at : Table → Option ℕ → Result (Bool × Table)
release_at t none = ok (false, t)
release_at t (some i) = do
  l ← or_fail (get_elem? t.locks i) wild_access
  guard l.used postcondition
  let l' = less_reference l
  if l'.ref_count == 0
      then ok (
        true,
        record t {
          locks = set t.locks i zero_record;
          used_count = (t.used_count + 2 ^ 32 - 1) % 2 ^ 32;
        },
      )
      else ok (false, record t { locks = set t.locks i l' })

unfoldable pub remove_lock : Table → Text → Bool → Result (Bool × Table)
unfolding find_index release_at
remove_lock t name acquired = do
  guard (not (is_empty name)) precondition
  guard (ltb (length name) size_lock_name) precondition
  guard acquired lock_timeout
  release_at t (find_index name t.locks 0)

-- `get_at`: the record at an index, null if it is not in use.
unfoldable pub get_at : Table → ℕ → Result (Option LockRecord)
get_at t index = do
  guard (ltb index (max_count t)) precondition
  l ← or_fail (get_elem? t.locks index) wild_access
  ok (if l.used then some l else none)
