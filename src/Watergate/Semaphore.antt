-- ===== src/Watergate/Semaphore.antt =====
-- watergate/includes/control.h and watergate/src/core/control/control.cpp: `__semaphore_client`, which takes and
-- gives back the semaphores of a lock, one for each priority, for the threads of a process.
use react_fs.Prelude.{
  ℕ, zero, suc, ◌+◌, ◌-◌, ◌%◌, ◌^◌, Bool, Option, none, some, List, [], ◌∷◌, Result, ok, err,
  lock_failed, ◌>>=◌, or_fail, ltb, ◌==◌, if◌then◌else◌, get_elem?, set, replicate, get_or,
}
use react_fs.Prelude.Texts.{Text}
use react_fs.Prelude.Maps.{lookup, assign, adjust}
use react_fs.Watergate.{u64, Double, LeaseState, locked, failed, timed_out, retry, Table}
use react_fs.Watergate.Lease.{
  has_valid_lock, check_and_lock, update_lock, update_quota, reset_quota,
}
use react_fs.Watergate.Lease

-- How a call of a POSIX semaphore ends: it returns 0, or it fails with EAGAIN or with another error.
pub data Answer : Type 0 where
  done again broken : Answer

-- The calls of `semaphore.h` on a semaphore of type S. `wait` is what a `sem_wait` that returns has done; one that blocks for
-- ever is not followed.
pub record Semaphore (S : Type 0) : Type 0 where
  pub trywait : S → Answer × S
  pub wait : S → Answer × S
  pub post : S → Answer × S

-- `__struct_priority_record`
pub record PriorityCount : Type 0 where
  pub count : ℕ
  pub index : ℕ

-- `__lock_id`
pub record LockId : Type 0 where
  pub id : ℕ
  pub acquired_time : ℕ

-- `__lock_metrics`; `base_priority` is `none` for -1.
pub record Metrics : Type 0 where
  pub base_priority : Option ℕ
  pub total_wait_time : ℕ
  pub max_wait_time : ℕ
  pub tries : ℕ

-- `thread_lock_record` with its `thread_lock_ptr`. The counts are of type `int`, as bit patterns.
pub record ThreadRecord : Type 0 where
  pub p_counts : List ℕ
  pub priority_lock_index : List LockId
  pub metrics : Metrics

-- The members of `__semaphore_client`; the lock record of its `lock_table_client` is an index of the table.
pub record Client (D S : Type 0) : Type 0 where
  pub priorities : ℕ
  pub counts : List PriorityCount
  pub threads : List (Text × ThreadRecord)
  pub lock_record : ℕ
  pub table : Table D
  pub semaphores : List S

-- An id of -1.
abbrev pub no_id : ℕ
no_id = 2 ^ 64 - 1

-- The entries of an array at one priority; the callers keep priorities within the arrays.
module _ {A : Type 0} where
  abbrev pub modify : List A → ℕ → (A → A) → List A
  modify [] i g = []
  modify (x ∷ xs) zero g = g x ∷ xs
  modify (x ∷ xs) (suc i) g = x ∷ modify xs i g

abbrev pub no_count : PriorityCount
no_count = record { count = 0; index = 0 }

abbrev pub no_lock_id : LockId
no_lock_id = record { id = no_id; acquired_time = 0 }

abbrev pub count_at : {D S : Type 0} → Client D S → ℕ → PriorityCount
count_at c p = get_or c.counts p no_count

-- `create_new_ptr` and the constructor of `thread_lock_record`.
unfoldable pub new_thread : ℕ → ThreadRecord
new_thread priorities = record {
  p_counts = replicate priorities 0;
  priority_lock_index = replicate priorities no_lock_id;
  metrics = record { base_priority = none; total_wait_time = 0; max_wait_time = 0; tries = 0 };
}

unfoldable pub register_thread : {D S : Type 0} → Client D S → Text → Client D S
unfolding lookup new_thread
register_thread c thread = elim (lookup thread c.threads) [
  | some t ↦ c
  | none ↦ record c { threads = (thread, new_thread c.priorities) ∷ c.threads }
]

-- `reset` of a thread record.
abbrev pub reset_thread : ℕ → ThreadRecord → ThreadRecord
reset_thread p t = record t {
  p_counts = set t.p_counts p 0;
  priority_lock_index = set t.priority_lock_index p no_lock_id;
}

unfoldable pub reset_threads : ℕ → List (Text × ThreadRecord) → List (Text × ThreadRecord)
reset_threads p [] = []
reset_threads p ((n, t) ∷ ts) = (n, reset_thread p t) ∷ reset_threads p ts

-- `counts[priority]->count = 0` and `reset_thread_locks`.
unfoldable pub forget_locks : {D S : Type 0} → Client D S → ℕ → Client D S
unfolding reset_threads
forget_locks c p = record c {
  counts = modify c.counts p (λ n. record n { count = 0 });
  threads = reset_threads p c.threads;
}

unfoldable pub update_wait : ThreadRecord → ℕ → ℕ → ThreadRecord
update_wait t p lock_time = record t {
  metrics = record {
    base_priority = elim t.metrics.base_priority [ none ↦ some p | some b ↦ some b ];
    total_wait_time = u64 (t.metrics.total_wait_time + lock_time);
    tries = u64 (t.metrics.tries + 1);
    max_wait_time =
        if ltb t.metrics.max_wait_time lock_time then lock_time else t.metrics.max_wait_time;
  };
}

unfoldable pub update_metrics : {D S : Type 0} → Client D S → Text → ℕ → ℕ → Client D S
unfolding lookup assign update_wait
update_metrics c thread p lock_time = elim (lookup thread c.threads) [
  | none ↦ c
  | some t ↦ record c { threads = assign thread (update_wait t p lock_time) c.threads }
]

-- The id of the thread for a priority, and whether it is the one of the process.
abbrev pub lock_id : ThreadRecord → ℕ → LockId
lock_id t p = get_or t.priority_lock_index p no_lock_id

abbrev pub in_sync : {D S : Type 0} → Client D S → ThreadRecord → ℕ → Bool
in_sync c t p = (lock_id t p).id == (count_at c p).index

-- The thread record as `try_lock` begins with it.
abbrev pub synced : {D S : Type 0} → Client D S → ThreadRecord → ℕ → ThreadRecord
synced c t p = if in_sync c t p then t else record t {
  priority_lock_index = modify t.priority_lock_index p (λ d. record d { id = no_id });
}

-- The record of a thread, changed in place.
unfoldable pub with_thread :
    {D S : Type 0} → Client D S → Text → (ThreadRecord → ThreadRecord) → Client D S
unfolding adjust
with_thread c thread g = record c { threads = adjust thread g c.threads }

-- One lock more for the thread: `increment` and the id of the lock.
abbrev pub thread_taken : ℕ → ℕ → ℕ → ThreadRecord → ThreadRecord
thread_taken p index now t = record t {
  p_counts = modify t.p_counts p (λ n. (n + 1) % 2 ^ 32);
  priority_lock_index = set t.priority_lock_index p (record { id = index; acquired_time = now });
}

unfoldable pub taken : {D S : Type 0} → Client D S → Text → ℕ → ℕ → Client D S
unfolding with_thread
taken c thread p now =
    with_thread
      (record c { counts = modify c.counts p (λ n. record n { count = u64 (n.count + 1) }) }) thread
      (thread_taken p (count_at c p).index now)

abbrev pub put_semaphore : {D S : Type 0} → Client D S → ℕ → S → Client D S
put_semaphore c p s = record c { semaphores = set c.semaphores p s }

-- `sem_post` on the semaphore of a priority; the client throws where it fails.
unfoldable pub post_at : {D S : Type 0} ⦃m : Semaphore S⦄ → Client D S → ℕ → Result (Client D S)
post_at ⦃m⦄ c p = do
  s ← or_fail (get_elem? c.semaphores p) lock_failed
  let r = m.post s
  elim r.0 [ done ↦ ok (put_semaphore c p r.1) | _ ↦ err lock_failed ]

unfoldable pub reset_locks :
    {D S : Type 0} ⦃f : Double D⦄ ⦃m : Semaphore S⦄
    → Client D S
    → ℕ
    → LeaseState
    → Result (Client D S)
unfolding forget_locks post_at Lease.release_lock
reset_locks c p seen = do
  t ← Lease.release_lock c.table c.lock_record seen p
  post_at (record (forget_locks c p) { table = t }) p

-- `sem_wait` or `sem_trywait` on the semaphore of a priority.
unfoldable pub wait_at :
    {D S : Type 0} ⦃m : Semaphore S⦄ → Client D S → ℕ → Bool → Result (Answer × Client D S)
wait_at ⦃m⦄ c p wait = do
  s ← or_fail (get_elem? c.semaphores p) lock_failed
  let r = (if wait then m.wait s else m.trywait s)
  ok (r.0, put_semaphore c p r.1)

-- The end of `try_lock`: the semaphore is taken, or not.
unfoldable pub take_lock :
    {D S : Type 0} ⦃m : Semaphore S⦄
    → Client D S
    → Text
    → ℕ
    → Bool
    → ℕ
    → Result (LeaseState × Client D S)
unfolding wait_at taken update_lock
take_lock c thread p wait now = do
  r ← wait_at c p wait
  elim r.0 [
    | done ↦ (do
      table ← update_lock r.1.table r.1.lock_record p now
      ok (locked, record (taken r.1 thread p now) { table = table }))
    | _ ↦ ok (if wait then failed else retry, r.1)
  ]

-- The end of `try_lock_base`, which starts a new quota.
unfoldable pub take_base :
    {D S : Type 0} ⦃f : Double D⦄ ⦃m : Semaphore S⦄
    → Client D S
    → Text
    → D
    → Bool
    → ℕ
    → Result (LeaseState × Client D S)
unfolding wait_at taken update_lock update_quota reset_quota
take_base c thread quota wait now = do
  r ← wait_at c 0 wait
  elim r.0 [
    | done ↦ (do
      a ← update_lock r.1.table r.1.lock_record 0 now
      b ← reset_quota a r.1.lock_record
      table ← update_quota b r.1.lock_record quota
      ok (locked, record (taken r.1 thread 0 now) { table = table }))
    | again ↦ ok (timed_out, r.1)
    | broken ↦ ok (if wait then failed else retry, r.1)
  ]
