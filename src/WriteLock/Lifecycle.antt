-- ===== src/WriteLock/Lifecycle.antt =====
-- common/includes/write_lock.h: the registration of an instance, and its end.
use react_fs.Prelude.{
  ℕ, ◌+◌, ◌-◌, ◌%◌, ◌^◌, Bool, not, ◌&&◌, ◌||◌, none, some, Result, ok, precondition, postcondition,
  wild_access, ◌>>=◌, ◌>>◌, guard, or_fail, ltb, if◌then◌else◌, get_elem?, set,
}
use react_fs.Prelude.Texts.{Text, is_empty}
use react_fs.LockTable.{lock_unknown, lock_free, Table, add_lock}
use react_fs.WriteLock.{
  WriteLock, Session, Caller, is_available, is_free_state, is_locked_state, is_reset_state, is_some,
  is_process,
}
use react_fs.WriteLock.Acquire.{release_lock}
use react_fs.WriteLock.Acquire.{release_lock}

unfoldable pub check_and_clear : Session → Caller → Bool → Result Session
unfolding release_lock
check_and_clear s c got =
    if is_some s.lock.lock_struct
      && (s.slot.used && (s.slot.write_locked && is_process s.slot.owner.process_id c.process_id))
    then (release_lock s c got >>= λ r. ok r.1)
    else ok s

-- The destructor.
unfoldable pub destroy : Session → Caller → Bool → Result Session
unfolding check_and_clear
destroy s c got = do
  s' ← check_and_clear (record s { lock = record s.lock { state = lock_unknown } }) c got
  ok (record s' { lock = record s'.lock { lock_struct = none } })

-- `register_lock`: a record of the table for the instance. The flag is whether the table's semaphore
-- was got.
pub register_lock : WriteLock → Table → Bool → ℕ → Result (WriteLock × Table)
register_lock w t got now = do
  r ← add_lock t w.name got
  i ← or_fail r.0 postcondition
  l ← or_fail (get_elem? r.1.locks i) wild_access
  ok (
    record w { lock_struct = some i },
    record r.1 { locks = set r.1.locks i (record l { last_used = now }) },
  )

-- `create`. An instance that fails is left in the error state, which its caller does not see.
unfoldable pub create : WriteLock → Text → Table → Bool → ℕ → Result (WriteLock × Table)
unfolding register_lock
create w name t got now = if is_available w.state then ok (w, t) else (do
  guard (not (is_empty name)) precondition
  r ← register_lock (record w { name = name }) t got now
  ok (record r.0 { state = lock_free }, r.1))

unfoldable pub check_and_register : WriteLock → Table → Bool → ℕ → Result (WriteLock × Table)
unfolding register_lock
check_and_register w t got now = do
  guard (is_available w.state) precondition
  if is_free_state w.state || is_locked_state w.state
      then ok (w, t)
      else (if is_reset_state w.state then register_lock w t got now else ok (w, t))

unfoldable pub increment_ref_count : WriteLock → ℕ × WriteLock
increment_ref_count w =
    let n = (w.reference_count + 1) % 2 ^ 32 in (n, record w { reference_count = n })

unfoldable pub decrement_ref_count : WriteLock → ℕ × WriteLock
decrement_ref_count w =
    let n = (if ltb 0 w.reference_count then w.reference_count - 1 else w.reference_count) in
    (n, record w { reference_count = n })
