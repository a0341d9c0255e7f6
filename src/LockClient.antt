-- ===== src/LockClient.antt =====
-- common/src/write_lock_client.cpp: the locks that the threads of a process share, each with a count of its
-- references, over the table that the processes share.
pub mod Shared
pub mod Clients
pub mod References
mod Tests
use react_fs.Prelude.{
  ℕ, Bool, true, false, Option, none, some, List, [], ◌∷◌, Result, ok, unavailable, wild_access,
  null_pointer, ◌>>=◌, ◌>>◌, guard, or_fail, ◌==◌, if◌then◌else◌, get_elem?, set,
}
use react_fs.Prelude.Maps.{lookup, assign, erase}
use react_fs.Prelude.Texts.{Text, same_text}
use react_fs.Instance.{InstanceState, disposed, is_available}
use react_fs.LockTable
use react_fs.LockTable.{lock_unknown, zero_record, Table}
use react_fs.WriteLock.{WriteLock, Session, Caller, has_write_lock}
use react_fs.WriteLock.Acquire.{release_lock}
use react_fs.WriteLock.Lifecycle.{create, destroy, increment_ref_count, decrement_ref_count}

-- The members of `write_lock_client` that its methods use. A pointer to an instance of `locks` is the name
-- under which it stands there.
pub record LockClient : Type 0 where
  pub state : InstanceState
  pub locks : List (Text × WriteLock)

-- What `new write_lock()` leaves; `create` sets the pointer to the record.
abbrev pub new_lock : WriteLock
new_lock = record {
  state = lock_unknown;
  lock_struct = none;
  txn_id = [];
  name = [];
  reference_count = 0;
}

-- The instance that is returned is the one under the name. The flag is whether the table's semaphore is got.
unfoldable pub add_lock : LockClient → Table → Text → Bool → ℕ → Result (LockClient × Table)
unfolding create increment_ref_count lookup assign
add_lock k t name acquired now = do
  guard (is_available k.state) unavailable
  elim (lookup name k.locks) [
    | some w ↦ ok (record k { locks = assign name (increment_ref_count w).1 k.locks }, t)
    | none ↦ (do
      r ← create new_lock name t acquired now
      ok (record k { locks = (name, (increment_ref_count r.0).1) ∷ k.locks }, r.1))
  ]

-- A method of the instance, which works on the record behind its pointer and tests itself for a null pointer.
unfoldable pub on_record :
    WriteLock → Table → (Session → Result Session) → Result (WriteLock × Table)
on_record w t method = elim w.lock_struct [
  | none ↦ (do s ← method (record { lock = w; slot = zero_record }); ok (s.lock, t))
  | some i ↦ (do
    l ← or_fail (get_elem? t.locks i) wild_access
    s ← method (record { lock = w; slot = l })
    ok (s.lock, record t { locks = set t.locks i s.slot }))
]

-- The lock is released if the calling thread holds it.
unfoldable pub release_held : Caller → Bool → Session → Result Session
unfolding has_write_lock release_lock
release_held c got s = do
  r ← has_write_lock s c
  if r.0 then (release_lock r.1 c got >>= λ x. ok x.1) else ok r.1

-- `delete lock`
pub delete_lock : WriteLock → Table → Caller → Bool → Result Table
unfolding on_record destroy
delete_lock w t c got = on_record w t (λ s. destroy s c got) >>= λ r. ok r.1

-- The last reference to the instance takes the record and the instance with it.
unfoldable pub remove_last :
    LockClient → WriteLock → Table → Caller → Bool → Bool → Result (Bool × LockClient × Table)
unfolding erase delete_lock LockTable.remove_lock
remove_last k w t c got acquired = do
  r ← LockTable.remove_lock t w.name acquired
  t' ← delete_lock w r.1 c got
  ok (r.0, record k { locks = erase w.name k.locks }, t')

-- The flags are whether the lock's own semaphore and the table's are got.
unfoldable pub remove_lock :
    LockClient → Table → Text → Caller → Bool → Bool → Result (Bool × LockClient × Table)
unfolding lookup assign on_record release_held decrement_ref_count remove_last
remove_lock k t name c got acquired = do
  guard (is_available k.state) unavailable
  elim (lookup name k.locks) [
    | none ↦ ok (false, k, t)
    | some w ↦ (do
      r ← on_record w t (release_held c got)
      let d = decrement_ref_count r.0
      if d.0 == 0
          then remove_last k d.1 r.1 c got acquired
          else ok (false, record k { locks = assign name d.1 k.locks }, r.1))
  ]

-- The loop of the destructor over the instances.
pub dispose_locks : List (Text × WriteLock) → Table → Caller → Bool → Bool → Result Table
unfolding delete_lock LockTable.remove_lock
dispose_locks [] t c got acquired = ok t
dispose_locks ((n, w) ∷ es) t c got acquired = do
  r ← LockTable.remove_lock t w.name acquired
  t' ← delete_lock w r.1 c got
  dispose_locks es t' c got acquired

unfoldable pub dispose : LockClient → Table → Caller → Bool → Bool → Result (LockClient × Table)
unfolding dispose_locks
dispose k t c got acquired = do
  t' ← dispose_locks k.locks t c got acquired
  ok (record k { state = disposed }, t')
