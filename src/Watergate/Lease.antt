-- ===== src/Watergate/Lease.antt =====
-- watergate/includes/lock_table.h: `lock_table_client`, the leases of one process on the locks of its record.
use react_fs.Prelude.{
  ℕ, ◌+◌, Bool, true, false, ◌&&◌, Result, ok, unavailable, null_pointer, wild_access, ◌>>=◌, ◌>>◌,
  guard, or_fail, ltb, ◌==◌, if◌then◌else◌, get_elem?, set,
}
use react_fs.Prelude.Texts.{Text}
use react_fs.Instance.{InstanceState, disposed, is_available}
use react_fs.Watergate.{
  u64, Double, LeaseState, locked, quota_reached, force_released, expired, no_lock, quota_available,
  release, is_locked, PriorityLock, LockRecord, Table, remove_record, create_new_record,
}

-- RELEASE_LOCK_RECORD on one lock.
abbrev pub freed : PriorityLock
freed = record { state = no_lock; acquired_time = 0 }

abbrev pub is_base : ℕ → Bool
is_base priority = priority == 0

-- The members `locks[priority]` and `quota_used` of a record, changed.
abbrev pub with_lock : {D : Type 0} → LockRecord D → ℕ → PriorityLock → LockRecord D
with_lock r p l = record r { lock = record r.lock { locks = set r.lock.locks p l } }

abbrev pub with_used : {D : Type 0} → LockRecord D → D → LockRecord D
with_used r q = record r { lock = record r.lock { quota_used = q } }

-- The lock record of the client, and the lock of a priority in it.
abbrev pub own_record : {D : Type 0} → Table D → ℕ → Result (LockRecord D)
own_record t i = or_fail (get_elem? t.records i) wild_access

abbrev pub own_lock : {D : Type 0} → LockRecord D → ℕ → Result PriorityLock
own_lock r p = or_fail (get_elem? r.lock.locks p) wild_access

abbrev pub put_record : {D : Type 0} → Table D → ℕ → LockRecord D → Table D
put_record t i r = record t { records = set t.records i r }

abbrev pub is_lock_active : ℕ → ℕ → PriorityLock → Bool
is_lock_active lease now l = is_locked l.state && ltb now (u64 (l.acquired_time + lease))

-- The answer on a lock that the record holds.
abbrev pub held_answer :
    {D : Type 0} ⦃f : Double D⦄ → Table D → LockRecord D → PriorityLock → D → ℕ → LeaseState
held_answer ⦃f⦄ t r l quota now =
    if is_lock_active t.lock_lease_time now l
    then (if f.less f.zero_quota quota
          && (f.less f.zero_quota t.quota && f.less (f.minus t.quota r.lock.quota_used) quota)
        then release
        else locked)
    else expired

-- The branches of `has_valid_lock` on the state of the lock.
unfoldable pub lease_answer :
    {D : Type 0} ⦃f : Double D⦄
    → LeaseState
    → Table D
    → LockRecord D
    → ℕ
    → PriorityLock
    → D
    → ℕ
    → LeaseState × LockRecord D
lease_answer locked t r p l quota now = (held_answer t r l quota now, r)
lease_answer force_released t r p l quota now =
    (force_released, with_lock r p (record l { state = no_lock }))
lease_answer ⦃f⦄ quota_reached t r p l quota now =
    if ltb (u64 (l.acquired_time + t.lock_lease_time)) now
    then (no_lock, with_used (with_lock r p (record l { state = no_lock })) f.zero_quota)
    else (quota_reached, r)
lease_answer _ t r p l quota now = (no_lock, r)

-- The record is the client's also where its process id is another: the error is built and not thrown.
unfoldable pub has_valid_lock :
    {D : Type 0} ⦃f : Double D⦄ → Table D → ℕ → ℕ → D → ℕ → Result (LeaseState × Table D)
unfolding lease_answer
has_valid_lock t i p quota now = do
  guard (is_available t.state) unavailable
  r ← own_record t i
  l ← own_lock r p
  let a =
      lease_answer l.state t (record r { app = record r.app { last_active_ts = now } }) p l quota
        now
  ok (a.0, put_record t i a.1)

-- The lock of a priority after `release_lock`, by the state that the caller has seen.
unfoldable pub released_lock : LeaseState → PriorityLock → PriorityLock
released_lock expired l = if is_locked l.state then freed else l
released_lock locked l = if is_locked l.state then freed else l
released_lock release l = if is_locked l.state then record l { state = quota_reached } else l
released_lock _ l = l

-- The used quota of the record after it: RELEASE_LOCK_RECORD clears it with the lock of the base priority.
abbrev pub clears_quota : LeaseState → ℕ → PriorityLock → Bool
clears_quota expired p l = is_locked l.state && is_base p
clears_quota locked p l = is_locked l.state && is_base p
clears_quota _ p l = false

abbrev pub released_record :
    {D : Type 0} ⦃f : Double D⦄ → LeaseState → LockRecord D → ℕ → PriorityLock → LockRecord D
released_record ⦃f⦄ seen r p l =
    with_used (with_lock r p (released_lock seen l))
      (if clears_quota seen p l then f.zero_quota else r.lock.quota_used)

unfoldable pub release_lock :
    {D : Type 0} ⦃f : Double D⦄ → Table D → ℕ → LeaseState → ℕ → Result (Table D)
unfolding released_lock
release_lock t i seen p = do
  guard (is_available t.state) unavailable
  r ← own_record t i
  l ← own_lock r p
  ok (put_record t i (released_record seen r p l))

-- `update_quota`
unfoldable pub update_quota : {D : Type 0} ⦃f : Double D⦄ → Table D → ℕ → D → Result (Table D)
update_quota ⦃f⦄ t i quota = do
  guard (is_available t.state) unavailable
  r ← own_record t i
  ok (
      put_record t i (record r {
        lock = record r.lock {
          quota_used = f.plus r.lock.quota_used quota;
          quota_total = f.plus r.lock.quota_total quota;
        };
      }))

unfoldable pub reset_quota : {D : Type 0} ⦃f : Double D⦄ → Table D → ℕ → Result (Table D)
reset_quota ⦃f⦄ t i = do
  guard (is_available t.state) unavailable
  r ← own_record t i
  ok (put_record t i (with_used r f.zero_quota))

-- What `check_and_lock` does with the answer.
unfoldable pub settle :
    {D : Type 0} ⦃f : Double D⦄ → LeaseState → Table D → ℕ → D → Result (Table D)
unfolding release_lock update_quota
settle expired t i quota = release_lock t i expired 0
settle locked t i quota = update_quota t i quota
settle _ t i quota = ok t

unfoldable pub check_and_lock :
    {D : Type 0} ⦃f : Double D⦄ → Table D → ℕ → D → ℕ → Result (LeaseState × Table D)
unfolding has_valid_lock settle
check_and_lock t i quota now = do
  r ← has_valid_lock t i 0 quota now
  t' ← settle r.0 r.1 i quota
  ok (r.0, t')

unfoldable pub check_quota : {D : Type 0} ⦃f : Double D⦄ → Table D → ℕ → D → Result LeaseState
check_quota ⦃f⦄ t i quota = do
  guard (is_available t.state) unavailable
  r ← own_record t i
  if f.less f.zero_quota t.quota && f.less (f.minus t.quota r.lock.quota_used) quota
      then ok quota_reached
      else ok quota_available

unfoldable pub update_lock : {D : Type 0} → Table D → ℕ → ℕ → ℕ → Result (Table D)
update_lock t i p now = do
  guard (is_available t.state) unavailable
  r ← own_record t i
  l ← own_lock r p
  ok (put_record t i (with_lock r p (record { state = locked; acquired_time = now })))

-- `init` after `create`: the record of the process, or a null pointer.
unfoldable pub init_client :
    {D : Type 0} ⦃f : Double D⦄ → Table D → Text → Text → ℕ → ℕ → Result (ℕ × Table D)
unfolding create_new_record
init_client t name id pid now = do
  r ← create_new_record t name id pid now
  i ← or_fail r.0 null_pointer
  ok (i, r.1)

abbrev pub is_disposed : InstanceState → Bool
is_disposed disposed = true
is_disposed _ = false

-- The destructor: the process takes its record out of the table.
unfoldable pub destroy : {D : Type 0} ⦃f : Double D⦄ → Table D → ℕ → ℕ → Result (Table D)
unfolding remove_record
destroy t i pid = if is_disposed t.state then ok t else (do
  r ← own_record t i
  t' ← (if r.used && r.app.proc_id == pid then remove_record t r.index else ok t)
  ok (record t' { state = disposed }))
