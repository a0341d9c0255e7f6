-- ===== src/WriteLock/Faults.antt =====
-- write_lock.h: where the code does something else than it says.
use react_fs.Prelude.{
  ℕ, ◌≤◌, ◌<◌, ◌≡◌, ◌⊎◌, refl, Bool, true, false, some, [], ◌∷◌, ◌++◌, Returns, ok, err,
  precondition, null_pointer, arith,
}
use react_fs.Prelude.Texts.{Text, is_empty, has_prefix, has_prefix-append}
use react_fs.LockTable.{lock_expired}
use react_fs.WriteLock.{
  Session, Caller, is_available, is_some, is_process, elapsed, lock_expiry, owns, touch,
  touch_owner, has_write_lock,
}
use react_fs.WriteLock.Acquire.{
  Round, take, locked, attempt, round, get_lock, release_lock, at_time,
}
use react_fs.WriteLock.Lifecycle.{destroy}
use react_fs.WriteLock.Hold.{IsLive, has_write_lock_live}

-- Once the manager has released the record of an instance, or given it to a name that does not begin
-- with the instance's, `has_write_lock` reads through the pointer that it has just set to null,
-- where it means to answer false.
pub has_write_lock-null :
    (s : Session) (c : Caller)
    → is_available s.lock.state ≡ true
    → is_some s.lock.lock_struct ≡ true
    → (s.slot.used ≡ false) ⊎ (has_prefix s.slot.name s.lock.name ≡ false)
    → has_write_lock s c ≡ err null_pointer
unfolding has_write_lock
has_write_lock-null s c a p h = ground arith

-- An instance whose record has not been used for ten minutes.
pub record IsStale (s : Session) (now : ℕ) : Type 0 where
  pub available : is_available s.lock.state ≡ true
  pub attached : is_some s.lock.lock_struct ≡ true
  pub used : s.slot.used ≡ true
  pub named : has_prefix s.slot.name s.lock.name ≡ true
  pub old : lock_expiry ≤ elapsed now s.slot.last_used

expire : Session → Session
expire s = record s { lock = record s.lock { state = lock_expired } }

has_write_lock-stale :
    {s : Session} (c : Caller) → IsStale s c.now → has_write_lock s c ≡ ok (false, expire s)
unfolding has_write_lock expire
has_write_lock-stale c v = ground arith

taken-IsStale :
    {s : Session} (c : Caller) (owner tid uuid : Text)
    → IsStale s c.now
    → IsStale (take (expire s) c owner tid uuid) c.now
unfolding take expire
taken-IsStale c owner tid uuid v = ground arith

taken-txn_id :
    (s : Session) (c : Caller) (owner tid uuid : Text)
    → is_empty uuid ≡ false
    → is_empty (take s c owner tid uuid).lock.txn_id ≡ false
unfolding take
taken-txn_id s c owner tid uuid u = ground arith

release_lock-stale :
    {s : Session} (c : Caller)
    → IsStale s c.now
    → is_empty s.lock.txn_id ≡ false
    → s.slot.write_locked ≡ true
    → release_lock s c true ≡ ok (false, expire s)
unfolding release_lock
release_lock-stale c v t w = ground (arith, has_write_lock-stale c v)

-- A round of `get_lock` takes the record of such an instance if it is not locked, and yet
-- `has_write_lock` answers false to the new owner at once, and so does its `release_lock`, which leaves
-- the record locked. (A drawn uuid is not empty.)
pub attempt-stale :
    {s : Session} (c : Caller) (owner tid uuid : Text)
    → IsStale s c.now
    → s.slot.write_locked ≡ false
    → is_empty uuid ≡ false
    → Returns (attempt s c owner tid uuid) λ (a, s').
      (a ≡ locked)
      × (s'.slot.write_locked ≡ true)
      × Returns (has_write_lock s' c) (λ (b, _). b ≡ false)
      × Returns (release_lock s' c true) (λ (b, t). (b ≡ false) × (t.slot.write_locked ≡ true))
unfolding attempt expire
attempt-stale {s} c owner tid uuid v w u = (
  (locked, s'),
  ground (arith, has_write_lock-stale c v),
  (
    refl,
    refl,
    (_, has_write_lock-stale c old, refl),
    (_, release_lock-stale c old (taken-txn_id (expire s) c owner tid uuid u) refl, (refl, refl)),
  ),
)
  where
    s' : Session
    s' = take (expire s) c owner tid uuid

    old : IsStale s' c.now
    old = taken-IsStale c owner tid uuid v

-- The destructor of an instance whose process holds the write lock always fails: it has set the state
-- that the precondition of `release_lock` excludes. The record stays locked.
pub destroy-fails :
    (s : Session) (c : Caller) (got : Bool)
    → is_some s.lock.lock_struct ≡ true
    → s.slot.used ≡ true
    → s.slot.write_locked ≡ true
    → is_process s.slot.owner.process_id c.process_id ≡ true
    → destroy s c got ≡ err precondition
unfolding destroy
destroy-fails s c got p u w o = ground arith

-- `has_write_lock` answers true to a thread that does not hold the lock, if its id is the beginning of
-- the id of the thread of its process that does.
pub has_write_lock-other_thread :
    (s : Session) (c : Caller) (more : Text)
    → IsLive s c.now
    → s.slot.write_locked ≡ true
    → is_process s.slot.owner.process_id c.process_id ≡ true
    → has_prefix s.slot.owner.txn_id s.lock.txn_id ≡ true
    → s.slot.owner.thread_id ≡ c.thread_id ++ more
    → Returns (has_write_lock s c) (λ (b, _). b ≡ true)
has_write_lock-other_thread s c more v w p t e =
    ((true, touch_owner (touch s c.now) c.now), ground (arith, has_write_lock_live c v, mine), refl)
  where
    mine : has_prefix s.slot.owner.thread_id c.thread_id ≡ true
    mine = rw e (has_prefix-append c.thread_id more)

-- A thread that waits for the lock in vain is answered the transaction id of the thread of its process
-- that holds it: the answer is not empty, and the thread does not own the record.
pub get_lock-stale_id :
    (s : Session) (c : Caller) (owner tid : Text) (timeout : ℕ) (r : Round)
    → IsLive s r.now
    → s.slot.write_locked ≡ true
    → owns s c ≡ false
    → is_empty owner ≡ false
    → r.got ≡ true
    → r.others s.slot ≡ s.slot
    → timeout < elapsed r.now c.now
    → Returns
        (get_lock s c owner tid timeout (r ∷ []))
        λ o. (s' : Session) × (o ≡ some (s.lock.txn_id, s')) × (owns s' c ≡ false)
unfolding get_lock round attempt
get_lock-stale_id s c owner tid timeout r v w o n g id late = (
  some (s.lock.txn_id, touch s r.now),
  ground (arith, has_write_lock_live {s = s} (at_time c r.now) v),
  (touch s r.now, refl, o),
)
