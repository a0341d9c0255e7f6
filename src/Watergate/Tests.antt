-- ===== src/Watergate/Tests.antt =====
-- Runs of the locks of watergate, and its theorems at a table of two records.
use react_fs.Prelude.{
  ℕ, zero, suc, ◌+◌, ◌≤◌, ◌<◌, ◌≡◌, refl, true, false, some, List, [], ◌∷◌, arith, ok, Returns,
  replicate, get_elem?, ap, ◌>>=◌,
}
use react_fs.Prelude.Texts.{same_text}
use react_fs.Instance.{available}
use react_fs.Watergate.{
  locked, PriorityLock, LockRecord, Table, reset_record, create_new_record, remove_record,
}
use react_fs.Watergate.Manager.{reset_expired_records}
use react_fs.Watergate.Lease.{freed}
use react_fs.Watergate.Semaphore.{Client, ThreadRecord, no_count, new_thread}
use react_fs.Watergate.Locks.{dispose, try_lock, try_lock_base, release_lock, release_lock_base}
use react_fs.Watergate.Owner.{Owner, check_leases, clear_locks}
use react_fs.Watergate.Held.{one, holds, held}
use react_fs.Watergate.Permits.{value_at, permits}
use react_fs.Watergate.Trying.{Tried, try_lock-Tried, try_lock_base-Tried}
use react_fs.Watergate.Releasing.{Released, release_lock-Released}
use react_fs.Watergate.Overdue.{owner_permits, IsServing, check_leases-balanced}
use react_fs.Watergate.Register.{IsRegistry, Registers, create_new_record-Registers}
use react_fs.Watergate.Expiry.{sweep, reset_expired_records-sweep, reset_expired_records-new}
use react_fs.Watergate.Leaving.{get_or-replicate, dispose-permits}
use react_fs.Watergate.Refill.{IsEager, at_least, clear_locks-values}
use react_fs.Watergate.Control.{Control, Request, Round, Climb, climb}
use react_fs.Watergate.Control.Lock.{as_timeout, Call, lock}
use react_fs.Watergate.Asking.{Grants, lock-Grants}
use react_fs.Watergate.Steps.{
  shared, Reachable, start, next, releases_base, removes, all_permits, Reachable-permits,
}
use react_fs.Watergate.Sample.{
  base_lock, client, client-Ready, client-Ready_upper, client-lookup, client-room, climbed_thread,
  climbing_thread, counter, counting, free_record, main, mine, name, natural, released_thread,
  table, table-IsRegistry, thread_record,
}

try_lock_run :
    Returns
      (try_lock client main 1 2 1 false 600)
      λ x. (x.0 ≡ locked) × (x.1.semaphores ≡ 1 ∷ 1 ∷ [])
unfolding try_lock same_text
try_lock_run = (_, refl, (refl, refl))

release_lock_run :
    Returns (release_lock_base client main 0 600) λ x. (x.0 ≡ true) × (x.1.semaphores ≡ 2 ∷ 2 ∷ [])
unfolding release_lock_base same_text
release_lock_run = (_, refl, (refl, refl))

try_lock-Tried_example : Returns (try_lock client main 1 2 1 false 600) (Tried counting client 1)
try_lock-Tried_example =
    try_lock-Tried counting {c = client} main thread_record 2 1 false 600 (omega arith)
      (omega arith) client-lookup client-Ready_upper (client-room 1)

try_lock_base-Tried_example :
    Returns (try_lock_base client main 2 1 false 600) (Tried counting client 0)
try_lock_base-Tried_example =
    try_lock_base-Tried counting {c = client} main thread_record 2 1 false 600 (omega arith)
      client-lookup client-Ready (client-room 0)

release_lock-Released_example :
    Returns (release_lock client main 0 1 600) (Released counting client 0)
release_lock-Released_example =
    release_lock-Released counting {c = client} main thread_record 1 600 (omega arith) (omega arith)
      client-lookup client-Ready (client-room 0)

abbrev server : Owner ℕ ℕ
server = record { priorities = 2; max_concurrent = 2; table = table; semaphores = 1 ∷ 2 ∷ [] }

none_beyond : (q : ℕ) → 2 ≤ q → held q table.records ≡ 0
none_beyond zero h = absurd (omega arith)
none_beyond (suc q) h = omega (
  arith,
  ap (λ (l : PriorityLock). one l.state) (get_or-replicate 7 q freed),
  ap (λ (l : PriorityLock). one l.state) (get_or-replicate 8 (suc q) freed),
)

server-IsServing : IsServing counting server
server-IsServing = record {
  available = refl;
  whole = (refl, (refl, tt));
  few = omega arith;
  served = refl;
  none_beyond = none_beyond;
  room = client-room;
}

check_leases_run : Returns (check_leases server 100 1600) λ o'. o'.semaphores ≡ 2 ∷ 2 ∷ []
unfolding check_leases
check_leases_run = (_, refl, refl)

check_leases-balanced_example :
    Returns
      (check_leases server 100 1600)
      λ o'. (q : ℕ) → owner_permits counting o' q ≡ owner_permits counting server q
check_leases-balanced_example =
    check_leases-balanced counting {o = server} 100 1600 server-IsServing (omega arith)

create_new_record-Registers_example :
    Returns (create_new_record table name main 5 600) (Registers table name main 5 600)
create_new_record-Registers_example =
    create_new_record-Registers name main 5 600 table-IsRegistry (omega arith) (omega arith)
      (omega arith)

reset_expired_records-sweep_example :
    Returns
      (reset_expired_records table 100 600)
      λ t'. IsRegistry t' × (t'.records ≡ sweep 100 600 table.records)
reset_expired_records-sweep_example = reset_expired_records-sweep 100 600 table-IsRegistry refl

reset_expired_records-new_example :
    Returns
      (create_new_record table name main 5 600 >>= λ x.
        (reset_expired_records x.1 100 601 >>= λ t'. ok (x.0, t')))
      λ (p, t').
        (i : ℕ) × (p ≡ some i)
        × ((r : LockRecord ℕ) × (get_elem? t'.records i ≡ some r) × (r.used ≡ false))
reset_expired_records-new_example =
    reset_expired_records-new name main 5 600 100 601 table-IsRegistry refl (omega arith)
      (omega arith) (omega arith) (omega arith)

dispose-permits_example : Returns (dispose (λ s. s) client 4) λ c'.
    (q : ℕ)
    → (value_at counting c'.semaphores q ≡ value_at counting client.semaphores q)
      × (permits counting c' q + holds q mine ≡ permits counting client q)
dispose-permits_example =
    dispose-permits counting client (λ s. s) 4 mine (λ s. refl) table-IsRegistry refl refl refl refl
      refl

-- The process gives its lock back, and another one takes the record out of the table.
abbrev after_release : Client ℕ ℕ
after_release = record client {
  counts = no_count ∷ no_count ∷ [];
  threads = (main, released_thread) ∷ [];
  table = record table {
    records =
        record mine {
          app = record mine.app { last_active_ts = 600 };
          lock = record { quota_used = 0; quota_total = 3; locks = replicate 8 freed };
        }
        ∷ free_record
        ∷ [];
  };
  semaphores = 2 ∷ 2 ∷ [];
}

abbrev after_removal : Table ℕ
after_removal = record table {
  used_record = 0;
  bit_index = record { size = 4; words = 0 ∷ []; mapped = true; max_offset = 32 };
  records = reset_record mine ∷ free_record ∷ [];
}

both_steps :
    Reachable counting (shared client) (record { table = after_removal; semaphores = 2 ∷ 2 ∷ [] })
unfolding release_lock_base remove_record same_text
both_steps =
    next
      (next start (
        releases_base client after_release 1 0 main thread_record 600 true refl refl (omega arith)
          client-lookup client-Ready refl))
      (removes after_removal 0 refl refl)

Reachable-permits_example :
    (all_permits counting (record { table = after_removal; semaphores = 2 ∷ 2 ∷ [] }) 0
      ≤ all_permits counting (shared client) 0)
    × (held 0 after_removal.records ≤ all_permits counting (shared client) 0)
Reachable-permits_example = Reachable-permits counting both_steps client-room 0

-- Process 4 holds the lock of the priority 1 since 500 and wants that of the base priority too.
abbrev climber : Client ℕ ℕ
climber = record client {
  counts = no_count ∷ record { count = 1; index = 0 } ∷ [];
  threads = (main, climbing_thread) ∷ [];
  table = record table {
    records =
        record mine {
          lock = record {
            quota_used = 0;
            quota_total = 3;
            locks = freed ∷ base_lock ∷ replicate 6 freed;
          };
        }
        ∷ free_record
        ∷ [];
  };
  semaphores = 2 ∷ 1 ∷ [];
}

abbrev climbed : Client ℕ ℕ
climbed = record climber {
  counts = record { count = 1; index = 0 } ∷ record { count = 1; index = 0 } ∷ [];
  threads = (main, climbed_thread) ∷ [];
  table = record table {
    records =
        record mine {
          app = record mine.app { last_active_ts = 600 };
          lock = record {
            quota_used = 2;
            quota_total = 5;
            locks = record { state = locked; acquired_time = 600 } ∷ base_lock ∷ replicate 6 freed;
          };
        }
        ∷ free_record
        ∷ [];
  };
  semaphores = 1 ∷ 1 ∷ [];
}

abbrev control : Client ℕ ℕ → Control ℕ ℕ
control c = record { state = available; semaphores = (name, c) ∷ [] }

abbrev request : Request ℕ
request = record { name = name; thread = main; priority = 1; quota = 2 }

-- A round in time, and one that is too late; nobody else does anything.
abbrev rounds : List (Round ℕ ℕ)
rounds =
    record { elapsed = 1; now = 600; others = λ c. c }
    ∷ record { elapsed = 31; now = 631; others = λ c. c }
    ∷ []

abbrev top : Climb ℕ ℕ
top = record { answer = locked; locked_priority = 0; control = control climbed }

climb_run : climb rounds 30 1 (control climber) request ≡ ok (some top)
unfolding climb same_text
climb_run = refl

-- The base lock is not to be had, and the second round is too late.
abbrev starved : Client ℕ ℕ
starved = record climber { semaphores = 0 ∷ 1 ∷ [] }

-- The process has the lock of the priority 1 once more, and that of the base.
abbrev granted_thread : ThreadRecord
granted_thread = record climbed_thread {
  p_counts = 1 ∷ 2 ∷ [];
  priority_lock_index =
      record { id = 0; acquired_time = 600 } ∷ record { id = 0; acquired_time = 600 } ∷ [];
  metrics = record { base_priority = some 1; total_wait_time = 5; max_wait_time = 5; tries = 1 };
}

abbrev granted : Client ℕ ℕ
granted = record climbed {
  counts = record { count = 1; index = 0 } ∷ record { count = 2; index = 0 } ∷ [];
  threads = (main, granted_thread) ∷ [];
}

abbrev calls : List (Call ℕ ℕ)
calls =
    record { rounds = rounds; elapsed = 0; now = 600; lock_time = 5; waited = 5; others = λ c. c }
    ∷ []

lock_run : lock calls 30 (control climber) request ≡ ok (some (locked, control granted))
unfolding lock same_text new_thread
lock_run = refl

lock-Grants_example :
    (i : ℕ) × (x : Call ℕ ℕ) × (d : Control ℕ ℕ) × (get_elem? calls i ≡ some x)
    × Grants (as_timeout 30) request x d (control granted)
lock-Grants_example = lock-Grants 30 request calls (control climber) (control granted) lock_run

counting-IsEager : IsEager counting
counting-IsEager zero h = absurd (omega arith)
counting-IsEager (suc n) h = refl

clear_locks-values_example :
    (ss' : List ℕ) × (clear_locks 10 2 (1 ∷ 2 ∷ []) ≡ some ss')
    × ((q : ℕ) → q < 2 → value_at counting ss' q ≡ at_least 2 (value_at counting (1 ∷ 2 ∷ []) q))
clear_locks-values_example =
    clear_locks-values counting counting-IsEager 10 2 (1 ∷ 2 ∷ [])
      ((omega arith, omega arith), ((omega arith, omega arith), tt)) (omega arith)
