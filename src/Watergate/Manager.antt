-- ===== src/Watergate/Manager.antt =====
-- watergate/includes/lock_table.h: `lock_table_manager`, its passes over leases and inactive processes.
use react_fs.Prelude.{
  ℕ, zero, suc, ◌+◌, ◌%◌, ◌^◌, Bool, ◌&&◌, Option, none, some, List, [], ◌∷◌, Result, ok,
  unavailable, ◌>>=◌, ◌>>◌, guard, leb, if◌then◌else◌,
}
use react_fs.Instance.{is_available}
use react_fs.Watergate.{
  Double, LockRecord, PriorityLock, Table, force_released, get_record, is_locked, remove_record,
  reset, u64,
}

-- A lock whose lease is over for the given time.
abbrev pub is_overdue : ℕ → ℕ → ℕ → PriorityLock → Bool
is_overdue lease expiry now l =
    is_locked l.state && leb (u64 (u64 (l.acquired_time + lease) + expiry)) now

abbrev pub force_release : ℕ → ℕ → ℕ → PriorityLock → PriorityLock
force_release lease expiry now l =
    if is_overdue lease expiry now l
    then record { state = force_released; acquired_time = 0 }
    else l

abbrev pub count_overdue : ℕ → ℕ → ℕ → PriorityLock → ℕ → ℕ
count_overdue lease expiry now l count =
    if is_overdue lease expiry now l then (count + 1) % 2 ^ 32 else count

-- The loop over the priorities of a record: the locks, and the counts of the released ones.
unfoldable pub force_locks : ℕ → ℕ → ℕ → List PriorityLock → List PriorityLock
force_locks lease expiry now [] = []
force_locks lease expiry now (l ∷ ls) =
    force_release lease expiry now l ∷ force_locks lease expiry now ls

unfoldable pub count_locks : ℕ → ℕ → ℕ → List PriorityLock → List ℕ → List ℕ
count_locks lease expiry now [] counts = counts
count_locks lease expiry now (l ∷ ls) [] = []
count_locks lease expiry now (l ∷ ls) (n ∷ counts) =
    count_overdue lease expiry now l n ∷ count_locks lease expiry now ls counts

unfoldable pub check_expired :
    {D : Type 0} → ℕ → ℕ → ℕ → LockRecord D → List ℕ → LockRecord D × List ℕ
unfolding force_locks count_locks
check_expired lease expiry now r counts =
    if r.used
    then (
      record r { lock = record r.lock { locks = force_locks lease expiry now r.lock.locks } },
      count_locks lease expiry now r.lock.locks counts,
    )
    else (r, counts)

-- The loop of the manager over the records, with the counts by priority.
unfoldable pub check_expired_from :
    {D : Type 0} → ℕ → ℕ → ℕ → List (LockRecord D) → List ℕ → List (LockRecord D) × List ℕ
unfolding check_expired
check_expired_from lease expiry now [] counts = ([], counts)
check_expired_from lease expiry now (r ∷ rs) counts =
    let here = check_expired lease expiry now r counts in
    let rest = check_expired_from lease expiry now rs here.1 in (here.0 ∷ rest.0, rest.1)

unfoldable pub check_expired_locks :
    {D : Type 0} → Table D → ℕ → List ℕ → ℕ → Result (Table D × List ℕ)
unfolding check_expired_from
check_expired_locks t expiry counts now = do
  guard (is_available t.state) unavailable
  let r = check_expired_from t.lock_lease_time expiry now t.records counts
  ok (record t { records = r.0 }, r.1)

-- A process that has not been active for the given time.
abbrev pub is_gone : {D : Type 0} → ℕ → ℕ → LockRecord D → Bool
is_gone expiry now r = r.used && leb (u64 (r.app.last_active_ts + expiry)) now

unfoldable pub reset_expired_from :
    {D : Type 0} ⦃f : Double D⦄ → ℕ → ℕ → Table D → ℕ → ℕ → Result (Table D)
unfolding get_record
reset_expired_from zero ii t expiry now = ok t
reset_expired_from (suc n) ii t expiry now = do
  r ← get_record t ii
  t' ← (if is_gone expiry now r then remove_record t ii else ok t)
  reset_expired_from n (suc ii) t' expiry now

unfoldable pub reset_expired_records :
    {D : Type 0} ⦃f : Double D⦄ → Table D → ℕ → ℕ → Result (Table D)
unfolding reset_expired_from remove_record
reset_expired_records t expiry now = do
  guard (is_available t.state) unavailable
  reset_expired_from t.max_records 0 t expiry now

-- DEFAULT_LEASE_TIME
abbrev pub default_lease : ℕ
default_lease = 1000

-- `init` of a manager after `create`. The lease time of the resource is `none` if it is not over 0, and
-- DEFAULT_QUOTA is an argument.
unfoldable pub init_manager :
    {D : Type 0} ⦃f : Double D⦄ → Table D → Bool → Option ℕ → D → D → Result (Table D)
unfolding reset
init_manager ⦃f⦄ t overwrite lease quota default_quota =
    if overwrite
    then (do
      t' ← reset t
      ok (record t' {
        lock_lease_time = elim lease [ some l ↦ l | none ↦ default_lease ];
        quota = if f.less f.zero_quota quota then quota else default_quota;
      }))
    else ok t
