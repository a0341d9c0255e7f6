-- ===== src/Watergate/Sample.antt =====
-- A table of two processes with its semaphores, for the tests.
use react_fs.Prelude.{
  ℕ, zero, suc, ◌+◌, ◌-◌, ◌^◌, ◌≤◌, ◌<◌, ◌≡◌, refl, true, false, some, List, [], ◌∷◌, arith, ltb,
  length, replicate, get_or,
}
use react_fs.Prelude.Texts.{Text, same_text}
use react_fs.Prelude.Maps.{lookup}
use react_fs.Instance.{available}
use react_fs.Bitset.Words.{bit_at}
use react_fs.Watergate.{Double, locked, PriorityLock, LockRecord, Table, no_app, no_locks}
use react_fs.Watergate.Lease.{freed}
use react_fs.Watergate.Semaphore.{
  Answer, done, again, broken, Semaphore, ThreadRecord, Client, no_count, new_thread,
}
use react_fs.Watergate.Held.{held}
use react_fs.Watergate.Permits.{Counting, got, value_at, permits, Ready}
use react_fs.Watergate.Counted.{one-le}
use react_fs.Watergate.Register.{use_at, IsRegistry}

instance abbrev pub natural : Double ℕ
natural = record { zero_quota = 0; plus = λ a b. a + b; minus = λ a b. a - b; less = ltb }

-- A semaphore that is its value; a wait that would block fails.
abbrev lowered : ℕ → Answer × ℕ
lowered zero = (again, 0)
lowered (suc n) = (done, n)

-- A wait that would block is interrupted.
abbrev interrupted : ℕ → Answer × ℕ
interrupted zero = (broken, 0)
interrupted (suc n) = (done, n)

instance abbrev pub counter : Semaphore ℕ
counter = record { trywait = lowered; wait = interrupted; post = λ n. (done, suc n) }

abbrev lowered-value : (n : ℕ) → (lowered n).1 + got (lowered n).0 ≡ n
lowered-value zero = refl
lowered-value (suc n) = omega arith

abbrev interrupted-value : (n : ℕ) → (interrupted n).1 + got (interrupted n).0 ≡ n
interrupted-value zero = refl
interrupted-value (suc n) = omega arith

abbrev pub counting : Counting counter
counting = record {
  value = λ n. n;
  limit = 2 ^ 31 - 1;
  trywait-value = lowered-value;
  wait-value = interrupted-value;
  post-value = λ n. omega arith;
  post-done = λ n h. refl;
}

abbrev pub name : Text
name = 98 ∷ 107 ∷ []

abbrev pub main : Text
main = 55 ∷ []

-- Process 4 holds the base lock since 500; the other record is free.
abbrev pub base_lock : PriorityLock
base_lock = record { state = locked; acquired_time = 500 }

abbrev pub mine : LockRecord ℕ
mine = record {
  used = true;
  index = 0;
  app = record no_app {
    app_name = name;
    app_id = name;
    proc_id = 4;
    register_time = 400;
    last_active_ts = 500;
  };
  lock = record { quota_used = 3; quota_total = 3; locks = base_lock ∷ replicate 7 freed };
}

abbrev pub free_record : LockRecord ℕ
free_record = record {
  used = false;
  index = 1;
  app = no_app;
  lock = record { quota_used = 0; quota_total = 0; locks = no_locks };
}

abbrev pub table : Table ℕ
table = record {
  state = available;
  lock_lease_time = 1000;
  quota = 10;
  used_record = 1;
  max_records = 2;
  bit_index = record { size = 4; words = 1 ∷ []; mapped = true; max_offset = 32 };
  records = mine ∷ free_record ∷ [];
}

table-agreed : (i : ℕ) → i < 2 → bit_at table.bit_index i ≡ use_at table.records i
table-agreed zero h = refl
table-agreed (suc zero) h = refl
table-agreed (suc (suc i)) h = absurd (omega arith)

pub table-IsRegistry : IsRegistry table
table-IsRegistry = record {
  bits = record {
    narrow = (omega arith, tt);
    covered = omega arith;
    short = omega arith;
    sized = refl;
    few = omega arith;
  };
  sized = refl;
  inside = omega arith;
  short = omega arith;
  agreed = table-agreed;
  counted = refl;
}

-- Two priorities with two permits each; the thread has taken one of the base priority.
abbrev pub thread_record : ThreadRecord
thread_record = record (new_thread 2) {
  p_counts = 1 ∷ 0 ∷ [];
  priority_lock_index =
      record { id = 0; acquired_time = 500 } ∷ record { id = 0; acquired_time = 0 } ∷ [];
}

abbrev pub released_thread : ThreadRecord
released_thread = record thread_record {
  p_counts = 0 ∷ 0 ∷ [];
  priority_lock_index =
      record { id = 2 ^ 64 - 1; acquired_time = 0 } ∷ record { id = 0; acquired_time = 0 } ∷ [];
}

abbrev pub climbing_thread : ThreadRecord
climbing_thread = record (new_thread 2) {
  p_counts = 0 ∷ 1 ∷ [];
  priority_lock_index =
      record { id = 0; acquired_time = 400 } ∷ record { id = 0; acquired_time = 500 } ∷ [];
}

abbrev pub climbed_thread : ThreadRecord
climbed_thread = record climbing_thread {
  p_counts = 1 ∷ 1 ∷ [];
  priority_lock_index =
      record { id = 0; acquired_time = 600 } ∷ record { id = 0; acquired_time = 500 } ∷ [];
}

abbrev pub client : Client ℕ ℕ
client = record {
  priorities = 2;
  counts = record { count = 1; index = 0 } ∷ no_count ∷ [];
  threads = (main, thread_record) ∷ [];
  lock_record = 0;
  table = table;
  semaphores = 1 ∷ 2 ∷ [];
}

pub client-lookup : lookup main client.threads ≡ some thread_record
unfolding lookup same_text
client-lookup = refl

pub client-Ready : Ready counting client 0 1
client-Ready = record {
  owns = record {
    available = refl;
    own = mine;
    found = refl;
    lock = base_lock;
    placed = refl;
    holding = refl;
  };
  semaphore = 1;
  there = refl;
}

pub client-Ready_upper : Ready counting client 1 0
client-Ready_upper = record {
  owns = record {
    available = refl;
    own = mine;
    found = refl;
    lock = freed;
    placed = refl;
    holding = refl;
  };
  semaphore = 2;
  there = refl;
}

held-le : (q : ℕ) (rs : List (LockRecord ℕ)) → held q rs ≤ length rs
held-le q [] = omega arith
held-le q (r ∷ rs) = omega (arith, one-le (get_or r.lock.locks q freed).state, held-le q rs)

value-le : (q : ℕ) → value_at counting (1 ∷ 2 ∷ []) q ≤ 2
value-le zero = omega arith
value-le (suc zero) = omega arith
value-le (suc (suc q)) = omega arith

pub client-room : (q : ℕ) → permits counting client q ≤ 2 ^ 31 - 1
client-room q = omega (arith, value-le q, held-le q table.records)
