-- ===== src/ReadWriteLock/Tests.antt =====
-- The theorems of the read/write lock at a concrete lock.
use react_fs.Prelude.{ℕ, ◌≡◌, refl, true, false, none, some, [], ◌∷◌, ok, arith, set}
use react_fs.Prelude.Texts.{Text, has_prefix}
use react_fs.Instance.{available, is_available}
use react_fs.LockTable
use react_fs.LockTable.{zero_owner}
use react_fs.WriteLock.{Caller}
use react_fs.WriteLock.Acquire.{at_time}
use react_fs.ReadWriteLock.{
  Reader, RwRecord, RwLock, RwSession, used_at, reader_index, find_thread, owns,
}
use react_fs.ReadWriteLock.Table.{fresh_rw, create_table, add_lock}
use react_fs.ReadWriteLock.Projection.{write_part, projected, add_lock-write_part}
use react_fs.ReadWriteLock.Acquire.{
  Round, attempt_read, attempt_write, release_read_lock, read_lock, write_lock,
}
use react_fs.ReadWriteLock.Consistent.{IsConsistent}
use react_fs.ReadWriteLock.Steps.{reads, start, next, Reachable-IsConsistent}
use react_fs.ReadWriteLock.Hold.{IsLive, ReturnsFalse, attempt_write-reading}
use react_fs.ReadWriteLock.Waiting.{HasEnded, write_lock-granted, waits-end}
use react_fs.ReadWriteLock.RoundTrip.{release_read_lock-attempt_read}

abbrev name : Text
name = 98 ∷ 107 ∷ []

abbrev caller : Caller
caller = record { process_id = 4; thread_id = 55 ∷ []; now = 1000 }

abbrev lock : RwLock
lock = record {
  state = available;
  txn_id = [];
  reader_threads = [];
  name = name;
  reference_count = 1;
}

abbrev slot : RwRecord
slot = record (fresh_rw name) { w_lock_struct = record (LockTable.fresh name) { last_used = 900 } }

abbrev session : RwSession
session = record { lock = lock; slot = slot }

abbrev reading : Reader
reading = record { used = true; process_id = 9; thread_id = 66 ∷ []; lock_timestamp = 800 }

-- Another process reads.
abbrev busy_slot : RwRecord
busy_slot = record slot { reader_count = 1; readers = set slot.readers 0 reading }

slot-IsConsistent : IsConsistent slot
slot-IsConsistent = record { sized = refl; counted = refl; exclusive = λ e. refl }

busy-IsConsistent : IsConsistent busy_slot
busy-IsConsistent = record { sized = refl; counted = refl; exclusive = λ e. absurd cc }

session-IsLive : IsLive session 1000
unfolding has_prefix
session-IsLive = record { available = refl; current = refl }

busy-IsLive : IsLive (record { lock = lock; slot = busy_slot }) 1000
unfolding has_prefix
busy-IsLive = record { available = refl; current = refl }

won-IsLive : IsLive session 1020
unfolding has_prefix
won-IsLive = record { available = refl; current = refl }

stale-IsLive :
    IsLive
      (record { lock = record lock { reader_threads = (55 ∷ [], 0) ∷ [] }; slot = busy_slot })
      1000
unfolding has_prefix
stale-IsLive = record { available = refl; current = refl }

Reachable-IsConsistent_example :
    IsConsistent (attempt_read (record { lock = lock; slot = fresh_rw name }) caller).1.slot
Reachable-IsConsistent_example =
    Reachable-IsConsistent _
      (next (fresh_rw name) _ (start name) (reads (fresh_rw name) lock caller))

attempt_write-reading_example :
    ReturnsFalse
      (attempt_write (record { lock = lock; slot = busy_slot }) caller (117 ∷ []) (120 ∷ []))
      busy_slot
attempt_write-reading_example =
    attempt_write-reading (record { lock = lock; slot = busy_slot }) caller (117 ∷ []) (120 ∷ [])
      busy-IsLive busy-IsConsistent (omega arith)

release_read_lock-attempt_read_example :
    (t u : RwSession) × (attempt_read session caller ≡ (ok true, t))
    × (release_read_lock t caller true ≡ (ok true, u))
    × (u.slot.reader_count ≡ 0)
    × ((j : ℕ) → used_at u.slot.readers j ≡ used_at slot.readers j)
    × (reader_index u (55 ∷ []) ≡ none)
unfolding reader_index find_thread
release_read_lock-attempt_read_example =
    release_read_lock-attempt_read session caller session-IsLive refl slot-IsConsistent
      (omega arith) refl

-- In the first round the semaphore is not got; in the second it is.
abbrev missed : Round
missed = record { got = false; now = 1010; uuid = 119 ∷ []; others = λ r. r }

abbrev won : Round
won = record { got = true; now = 1020; uuid = 120 ∷ []; others = λ r. r }

write_lock-granted_example :
    (t : RwSession) × (write_lock session caller (117 ∷ []) 500 (missed ∷ won ∷ [])
      ≡ (ok (some (120 ∷ [])), t))
    × (owns t (at_time caller 1020) ≡ true)
    × (t.lock.txn_id ≡ 120 ∷ [])
    × (is_available t.lock.state ≡ true)
write_lock-granted_example =
    write_lock-granted session caller (117 ∷ []) 500 (missed ∷ []) [] won refl refl refl
      ((refl, omega arith), tt) refl won-IsLive refl refl

abbrev late_round : Round
late_round = record { got = false; now = 1600; uuid = 121 ∷ []; others = λ r. r }

waits-end_example :
    HasEnded (read_lock session caller 500 (missed ∷ late_round ∷ []))
    × ((owner : Text) → HasEnded (write_lock session caller owner 500 (missed ∷ late_round ∷ [])))
waits-end_example = waits-end session caller 500 (missed ∷ []) late_round (omega arith)

add_lock-write_part_example :
    LockTable.add_lock (write_part (create_table 2)) name true
    ≡ projected (add_lock (create_table 2) name true)
add_lock-write_part_example = add_lock-write_part (create_table 2) name true

-- The first reader is ten minutes old, the second is new.
abbrev new_reader : Reader
new_reader = record reading { process_id = 8; lock_timestamp = 600_700 }

abbrev mixed : RwRecord
mixed = record slot { reader_count = 2; readers = set (set slot.readers 0 reading) 1 new_reader }

-- The place of the caller's thread has gone to process 9.
abbrev stale_session : RwSession
stale_session = record {
  lock = record lock { reader_threads = (55 ∷ [], 0) ∷ [] };
  slot = busy_slot;
}
