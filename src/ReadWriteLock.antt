-- ===== src/ReadWriteLock.antt =====
-- common/includes/read_write_lock.h and common/includes/lock_structs_v0.h: an instance of an inter-process
-- lock for many readers or one writer, over its record in the table. The record that the instance points to
-- stands beside it in a session.
pub mod Acquire
pub mod Readers
pub mod Table
pub mod Projection
pub mod Consistent
pub mod Release
pub mod Steps
pub mod Hold
pub mod Waiting
pub mod Faults
pub mod RoundTrip
mod Tests
use react_fs.Prelude.{
  ℕ, zero, suc, ◌+◌, ◌-◌, ◌*◌, ◌%◌, ◌^◌, Bool, true, false, not, ◌&&◌, ◌||◌, Option, none, some,
  List, [], ◌∷◌, ◌++◌, Result, ok, err, Error, precondition, unavailable, wild_access, lock_timeout,
  lock_failed, exhausted, ◌>>=◌, ◌>>◌, guard, or_fail, ltb, leb, ◌==◌, if◌then◌else◌, length,
  get_elem?, set, replicate,
}
use react_fs.Prelude.Texts.{Text, is_empty, same_text, has_prefix}
use react_fs.Instance.{InstanceState, available, disposed, exception, is_available}
use react_fs.LockTable.{LockRecord, zero_record}
use react_fs.WriteLock.{Caller, elapsed, is_process}

-- `__lock_readers_v0`
pub record Reader : Type 0 where
  pub used : Bool
  pub process_id : ℕ
  pub thread_id : Text
  pub lock_timestamp : ℕ

abbrev pub zero_reader : Reader
zero_reader = record { used = false; process_id = 0; thread_id = []; lock_timestamp = 0 }

-- MAX_READER_LOCKS
abbrev pub max_readers : ℕ
max_readers = 256

-- `__rw_lock_struct_v0`
pub record RwRecord : Type 0 where
  pub w_lock_struct : LockRecord
  pub reader_count : ℕ
  pub readers : List Reader

-- The members of `read_write_lock` that its methods use. `reader_threads` lists the keys of the map with their
-- values, none of which is negative.
pub record RwLock : Type 0 where
  pub state : InstanceState
  pub txn_id : Text
  pub reader_threads : List (Text × ℕ)
  pub name : Text
  pub reference_count : ℕ

pub record RwSession : Type 0 where
  pub lock : RwLock
  pub slot : RwRecord

abbrev pub with_w : RwSession → LockRecord → RwSession
with_w s w = record s { slot = record s.slot { w_lock_struct = w } }

-- The map: `find`, `[] =` and `erase`.
unfoldable pub find_thread : Text → List (Text × ℕ) → Option ℕ
find_thread id [] = none
find_thread id ((key, i) ∷ rest) = elim (same_text key id) [
  | true ↦ some i
  | false ↦ find_thread id rest
]

unfoldable pub erase_thread : Text → List (Text × ℕ) → List (Text × ℕ)
erase_thread id [] = []
erase_thread id ((key, i) ∷ rest) = elim (same_text key id) [
  | true ↦ erase_thread id rest
  | false ↦ (key, i) ∷ erase_thread id rest
]

abbrev pub put_thread : Text → ℕ → List (Text × ℕ) → List (Text × ℕ)
put_thread id i threads = (id, i) ∷ erase_thread id threads

-- `find_free_reader`: a reader that is found is marked as used.
unfoldable pub first_free : List Reader → ℕ → Option ℕ
first_free [] ii = none
first_free (r ∷ rs) ii = if not r.used then some ii else first_free rs (suc ii)

-- DEFAULT_RW_LOCK_EXPIRY
abbrev pub lock_expiry : ℕ
lock_expiry = 600_000

-- The tests of `check_lock_valid`: the record is the instance's own, and has not expired.
abbrev pub is_current : RwSession → ℕ → Bool
is_current s now =
    s.slot.w_lock_struct.used
    && (has_prefix s.slot.w_lock_struct.name s.lock.name
        && not (leb lock_expiry (elapsed now s.slot.w_lock_struct.last_used)))

-- Each of the three failures sets the state of the instance, which is all that its callers look at.
unfoldable pub check_lock_valid : RwSession → ℕ → RwSession
check_lock_valid s now =
    if is_current s now then s else record s { lock = record s.lock { state = exception } }

unfoldable pub touch : RwSession → ℕ → RwSession
touch s now = with_w s (record s.slot.w_lock_struct { last_used = now })

-- The tests of `has_write_lock` on the owner.
abbrev pub owns : RwSession → Caller → Bool
owns s c =
    let w = s.slot.w_lock_struct in
    w.write_locked
    && (is_process w.owner.process_id c.process_id
        && (has_prefix w.owner.txn_id s.lock.txn_id && has_prefix w.owner.thread_id c.thread_id))

-- A call leaves a session also where it fails: what it has written stays.
abbrev pub Call : Type 0 → Type 0
Call A = Result A × RwSession

-- The next call, after one that has returned.
abbrev pub after : {A B : Type 0} → Call A → (A → RwSession → Call B) → Call B
after (err e, s) next = (err e, s)
after (ok a, s) next = next a s

-- The common start of `has_write_lock` and `has_thread_lock`.
unfoldable pub enter : RwSession → ℕ → Call (Unit {0})
unfolding check_lock_valid touch
enter s now =
    let s' = check_lock_valid s now in
    if is_available s'.lock.state then (ok tt, touch s' now) else (err unavailable, s')

unfoldable pub has_write_lock : RwSession → Caller → Call Bool
unfolding enter
has_write_lock s c = after (enter s c.now) λ _ t. (ok (owns t c), t)

-- The indexes of the map are those of readers, so that none is out of range.
abbrev pub used_at : List Reader → ℕ → Bool
used_at rs i = elim (get_elem? rs i) [ none ↦ false | some r ↦ r.used ]

-- `get_reader_index` on an available instance: -1 is `none`.
unfoldable pub reader_index : RwSession → Text → Option ℕ
unfolding find_thread
reader_index s id = elim (find_thread id s.lock.reader_threads) [
  | none ↦ none
  | some i ↦ (if used_at s.slot.readers i then some i else none)
]

abbrev pub is_found : Option ℕ → Bool
is_found none = false
is_found (some i) = true

unfoldable pub has_thread_lock : RwSession → Text → ℕ → Call Bool
unfolding enter reader_index
has_thread_lock s id now = after (enter s now) λ _ t. (ok (is_found (reader_index t id)), t)
