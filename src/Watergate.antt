-- ===== src/Watergate.antt =====
-- common/includes/lock_record_def.h, watergate/includes/lock_table.h and watergate/src/core/control/lock_table.cpp:
-- the table of the processes that take part in a lock of watergate.
pub mod Manager
pub mod Lease
pub mod Semaphore
pub mod Locks
pub mod Owner
pub mod Control
pub mod Held
pub mod Permits
pub mod Trying
pub mod Counted
pub mod Register
pub mod Expiry
pub mod Releasing
pub mod Overdue
pub mod Climbing
pub mod Asking
pub mod Leaving
pub mod Refill
pub mod Steps
mod Sample
mod Tests
use react_fs.Prelude.{
  ℕ, zero, suc, ◌+◌, ◌-◌, ◌%◌, ◌^◌, Bool, true, false, not, ◌&&◌, Option, none, some, List, [], ◌∷◌,
  Result, ok, err, Error, precondition, unavailable, null_pointer, wild_access, table_corrupted,
  ◌>>=◌, ◌>>◌, guard, or_fail, ltb, leb, if◌then◌else◌, length, get_elem?, set, replicate,
}
use react_fs.Prelude.Texts.{Text}
use react_fs.Instance.{InstanceState, is_available}
use react_fs.Bitset.{Bitset, check, clear_bit, get_free_bit, clear}

abbrev pub u64 : ℕ → ℕ
u64 n = n % 2 ^ 64

-- What the quotas use of `double`.
pub record Double (D : Type 0) : Type 0 where
  pub zero_quota : D
  pub plus : D → D → D
  pub minus : D → D → D
  pub less : D → D → Bool

-- `__lock_state`; `no_lock` stands for None and `failed` for Error.
pub data LeaseState : Type 0 where
  locked quota_reached force_released expired no_lock failed timed_out : LeaseState
  quota_available release retry : LeaseState

abbrev pub is_locked : LeaseState → Bool
is_locked locked = true
is_locked _ = false

-- `__priority_lock`
pub record PriorityLock : Type 0 where
  pub state : LeaseState
  pub acquired_time : ℕ

-- `__app_handle`
pub record AppHandle : Type 0 where
  pub app_name : Text
  pub app_id : Text
  pub proc_id : ℕ
  pub register_time : ℕ
  pub last_active_ts : ℕ

-- `__lock_handle`
pub record LockHandle (D : Type 0) : Type 0 where
  pub quota_used : D
  pub quota_total : D
  pub locks : List PriorityLock

-- `__lock_record`
pub record LockRecord (D : Type 0) : Type 0 where
  pub used : Bool
  pub index : ℕ
  pub app : AppHandle
  pub lock : LockHandle D

-- MAX_PRIORITY_ALLOWED and MAX_STRING_SIZE.
abbrev pub max_priority : ℕ
max_priority = 8

abbrev pub max_string : ℕ
max_string = 64

-- An instance of `lock_table` with what its pointers lead to: the members of `__lock_table_header`, the bits
-- and the records.
pub record Table (D : Type 0) : Type 0 where
  pub state : InstanceState
  pub lock_lease_time : ℕ
  pub quota : D
  pub used_record : ℕ
  pub max_records : ℕ
  pub bit_index : Bitset
  pub records : List (LockRecord D)

abbrev pub no_locks : List PriorityLock
no_locks = replicate max_priority (record { state = no_lock; acquired_time = 0 })

abbrev pub no_app : AppHandle
no_app = record { app_name = []; app_id = []; proc_id = 0; register_time = 0; last_active_ts = 0 }

-- The index of the record stays.
abbrev pub reset_record : {D : Type 0} ⦃f : Double D⦄ → LockRecord D → LockRecord D
reset_record ⦃f⦄ r = record {
  used = false;
  index = r.index;
  app = no_app;
  lock = record { quota_used = f.zero_quota; quota_total = f.zero_quota; locks = no_locks };
}

unfoldable pub get_record : {D : Type 0} → Table D → ℕ → Result (LockRecord D)
get_record t index = do
  guard (is_available t.state) unavailable
  guard (ltb index t.max_records) precondition
  or_fail (get_elem? t.records index) wild_access

unfoldable pub remove_record : {D : Type 0} ⦃f : Double D⦄ → Table D → ℕ → Result (Table D)
unfolding check clear_bit
remove_record t index = do
  guard (ltb index t.max_records) precondition
  taken ← check t.bit_index index
  guard taken precondition
  r ← or_fail (get_elem? t.records index) wild_access
  b ← clear_bit t.bit_index index
  ok (record t {
    records = set t.records index (reset_record r);
    used_record = (t.used_record + 2 ^ 16 - 1) % 2 ^ 16;
    bit_index = b;
  })

-- The record as `create_new_record` fills it. The time of the last activity stays 0.
abbrev pub registered :
    {D : Type 0} ⦃f : Double D⦄ → LockRecord D → ℕ → Text → Text → ℕ → ℕ → LockRecord D
registered r index name id pid now = record (reset_record r) {
  used = true;
  index = index;
  app = record {
    app_name = name;
    app_id = id;
    proc_id = pid;
    register_time = now;
    last_active_ts = 0;
  };
}

-- A record for the process at a free index. `sprintf` writes past the ends of longer names.
unfoldable pub fill_record :
    {D : Type 0} ⦃f : Double D⦄ → Table D → ℕ → Text → Text → ℕ → ℕ → Result (Option ℕ × Table D)
fill_record t i name id pid now = do
  r ← or_fail (get_elem? t.records i) wild_access
  guard (not r.used) table_corrupted
  guard (leb (length id) max_string) wild_access
  guard (leb (length name) max_string) wild_access
  ok (some i, record t { records = set t.records i (registered r i name id pid now) })

-- The pointer to the new record is its index, `none` if null.
unfoldable pub create_new_record :
    {D : Type 0} ⦃f : Double D⦄ → Table D → Text → Text → ℕ → ℕ → Result (Option ℕ × Table D)
unfolding get_free_bit fill_record
create_new_record t name id pid now = if leb t.max_records t.used_record then ok (none, t) else (do
  found ← get_free_bit t.bit_index
  elim found.0 [
    | none ↦ ok (none, record t { bit_index = found.1 })
    | some i ↦
        fill_record (record t { bit_index = found.1; used_record = (t.used_record + 1) % 2 ^ 16 }) i
          name id pid now
  ])

reset_from : {D : Type 0} ⦃f : Double D⦄ → List (LockRecord D) → List (LockRecord D)
reset_from [] = []
reset_from (r ∷ rs) = reset_record r ∷ reset_from rs

-- The loop of `reset_all_records` passes over all records.
unfoldable pub reset_all_records : {D : Type 0} ⦃f : Double D⦄ → Table D → Result (Table D)
unfolding reset_from
reset_all_records t = do
  guard (is_available t.state) unavailable
  ok (record t { records = reset_from t.records })

unfoldable pub reset : {D : Type 0} ⦃f : Double D⦄ → Table D → Result (Table D)
unfolding clear reset_all_records
reset t = do
  guard (is_available t.state) unavailable
  t' ← reset_all_records (record t { bit_index = clear t.bit_index })
  ok (record t' { used_record = 0 })
