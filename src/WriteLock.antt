-- ===== src/WriteLock.antt =====
-- common/includes/write_lock.h: an instance of an inter-process write lock over its record in the
-- table. The record that the instance points to stands beside it in a session.
pub mod Acquire
pub mod Lifecycle
pub mod Hold
pub mod Exclusion
pub mod Waiting
pub mod Faults
pub mod Again
mod Tests
use react_fs.Prelude.{
  ℕ, zero, suc, ◌+◌, ◌-◌, ◌%◌, ◌^◌, Bool, true, false, not, ◌&&◌, ◌||◌, Option, none, some, List,
  [], ◌∷◌, Result, ok, err, Error, precondition, postcondition, null_pointer, wild_access,
  lock_timeout, ◌>>=◌, ◌>>◌, guard, or_fail, ltb, leb, ◌==◌, if◌then◌else◌, get_elem?, set,
}
use react_fs.Prelude.Texts.{Text, is_empty, same_text, has_prefix}
use react_fs.LockTable.{
  LockState, lock_unknown, lock_free, lock_locked, lock_expired, lock_reset, lock_error, Owner,
  LockRecord, Table, add_lock,
}

-- The members of `write_lock` that its methods use. `lock_struct` is the index of the record, `none`
-- for a null pointer.
pub record WriteLock : Type 0 where
  pub state : LockState
  pub lock_struct : Option ℕ
  pub txn_id : Text
  pub name : Text
  pub reference_count : ℕ

-- An instance and the record behind its pointer; the record counts only while the pointer is set.
pub record Session : Type 0 where
  pub lock : WriteLock
  pub slot : LockRecord

-- Who calls, and what the clock reads during the call.
pub record Caller : Type 0 where
  pub process_id : ℕ
  pub thread_id : Text
  pub now : ℕ

-- CHECK_LOCK_AVAILABLE, CHECK_LOCK_FREE and CHECK_LOCK_LOCKED.
abbrev pub is_available : LockState → Bool
is_available lock_unknown = false
is_available lock_error = false
is_available _ = true

abbrev pub is_free_state : LockState → Bool
is_free_state lock_free = true
is_free_state _ = false

abbrev pub is_locked_state : LockState → Bool
is_locked_state lock_locked = true
is_locked_state _ = false

abbrev pub is_reset_state : LockState → Bool
is_reset_state lock_reset = true
is_reset_state _ = false

abbrev pub is_some : Option ℕ → Bool
is_some none = false
is_some (some i) = true

-- `uint64_t` subtraction of two clock readings.
abbrev pub elapsed : ℕ → ℕ → ℕ
elapsed now since = (now + 2 ^ 64 - since) % 2 ^ 64

-- DEFAULT_W_LOCK_EXPIRY
abbrev pub lock_expiry : ℕ
lock_expiry = 600_000

pub clear_lock_reset : Session → Session
clear_lock_reset s = record s { lock = record s.lock { state = lock_reset; lock_struct = none } }

-- The first part of `check_lock_valid`: the record may have been released or given away.
pub unregistered : Session → Bool × Session
unfolding clear_lock_reset
unregistered s =
    if not s.slot.used
    then (false, clear_lock_reset s)
    else (if not (has_prefix s.slot.name s.lock.name)
        then (false, clear_lock_reset s)
        else (true, s))

-- Both parts read the record through the pointer, which the first may have set to null.
unfoldable pub check_lock_valid : Session → ℕ → Result (Bool × Session)
unfolding unregistered
check_lock_valid s now = do
  guard (is_some s.lock.lock_struct) null_pointer
  let r = unregistered s
  guard (is_some r.1.lock.lock_struct) null_pointer
  if leb lock_expiry (elapsed now r.1.slot.last_used)
      then ok (false, record r.1 { lock = record r.1.lock { state = lock_expired } })
      else ok r

-- `owner.process_id == pid`
abbrev pub is_process : Option ℕ → ℕ → Bool
is_process none pid = false
is_process (some p) pid = p == pid

-- The tests of `has_write_lock` on the owner.
abbrev pub owns : Session → Caller → Bool
owns s c =
    s.slot.write_locked
    && (is_process s.slot.owner.process_id c.process_id
        && (has_prefix s.slot.owner.txn_id s.lock.txn_id
            && has_prefix s.slot.owner.thread_id c.thread_id))

unfoldable pub touch : Session → ℕ → Session
touch s now = record s { slot = record s.slot { last_used = now } }

unfoldable pub touch_owner : Session → ℕ → Session
touch_owner s now = record s {
  slot = record s.slot { owner = record s.slot.owner { last_updated = now } };
}

unfoldable pub has_write_lock : Session → Caller → Result (Bool × Session)
unfolding check_lock_valid touch touch_owner
has_write_lock s c = do
  guard (is_available s.lock.state) precondition
  r ← check_lock_valid s c.now
  if r.0
      then ok (
          let s' = touch r.1 c.now in
          if owns s' c then (true, touch_owner s' c.now) else (false, s'))
      else ok (false, r.1)
