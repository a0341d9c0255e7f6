-- ===== src/Watergate/Locks.antt =====
-- watergate/src/core/control/control.cpp: `try_lock` and `release_lock` of `__semaphore_client`, each with its version
-- for the base priority.
use react_fs.Prelude.{
  ℕ, ◌+◌, ◌-◌, ◌%◌, ◌^◌, Bool, true, false, List, [], ◌∷◌, Result, ok, precondition, lock_failed,
  ◌>>=◌, ◌>>◌, guard, or_fail, ltb, ◌==◌, if◌then◌else◌, set,
}
use react_fs.Prelude.Texts.{Text}
use react_fs.Prelude.Maps.{lookup}
use react_fs.Watergate.{
  u64, Double, LeaseState, locked, quota_reached, force_released, expired, release,
}
use react_fs.Watergate.Lease.{has_valid_lock, check_and_lock, reset_quota}
use react_fs.Watergate.Lease
use react_fs.Watergate.Semaphore.{
  Semaphore, Client, modify, no_lock_id, count_at, forget_locks, in_sync, synced, with_thread,
  taken, post_at, reset_locks, take_lock, take_base,
}

-- What `try_lock` does with the answer of `has_valid_lock`.
unfoldable pub try_answer :
    {D S : Type 0} ⦃f : Double D⦄ ⦃m : Semaphore S⦄
    → LeaseState
    → Client D S
    → Text
    → ℕ
    → Bool
    → ℕ
    → Result (LeaseState × Client D S)
unfolding taken reset_locks take_lock forget_locks
try_answer locked c thread p wait now = ok (locked, taken c thread p now)
try_answer expired c thread p wait now =
    reset_locks c p expired >>= λ c'. take_lock c' thread p wait now
try_answer release c thread p wait now = reset_locks c p release >>= λ c'. ok (quota_reached, c')
try_answer quota_reached c thread p wait now = ok (quota_reached, c)
try_answer force_released c thread p wait now = take_lock (forget_locks c p) thread p wait now
try_answer _ c thread p wait now = take_lock c thread p wait now

-- The semaphore is waited for, or only tried.
unfoldable pub try_lock :
    {D S : Type 0} ⦃f : Double D⦄ ⦃m : Semaphore S⦄
    → Client D S
    → Text
    → ℕ
    → D
    → ℕ
    → Bool
    → ℕ
    → Result (LeaseState × Client D S)
unfolding lookup with_thread has_valid_lock try_answer
try_lock c thread p quota base_priority wait now = do
  guard (ltb p c.priorities) precondition
  guard (ltb base_priority c.priorities) precondition
  t ← or_fail (lookup thread c.threads) lock_failed
  let c' = with_thread c thread (λ t. synced c t p)
  r ← has_valid_lock c'.table c'.lock_record p quota now
  try_answer r.0 (record c' { table = r.1 }) thread p wait now

-- The server has released the lock; the base priority has a quota to reset.
unfoldable pub forget_base : {D S : Type 0} ⦃f : Double D⦄ → Client D S → ℕ → Result (Client D S)
unfolding forget_locks reset_quota
forget_base c p = do
  t ← reset_quota c.table c.lock_record
  ok (record (forget_locks c p) { table = t })

unfoldable pub base_answer :
    {D S : Type 0} ⦃f : Double D⦄ ⦃m : Semaphore S⦄
    → LeaseState
    → Client D S
    → Text
    → D
    → Bool
    → ℕ
    → Result (LeaseState × Client D S)
unfolding taken reset_locks take_base forget_base
base_answer locked c thread quota wait now = ok (locked, taken c thread 0 now)
base_answer quota_reached c thread quota wait now = ok (quota_reached, c)
base_answer expired c thread quota wait now =
    reset_locks c 0 expired >>= λ c'. take_base c' thread quota wait now
base_answer release c thread quota wait now =
    reset_locks c 0 release >>= λ c'. ok (quota_reached, c')
base_answer force_released c thread quota wait now =
    forget_base c 0 >>= λ c'. take_base c' thread quota wait now
base_answer _ c thread quota wait now = take_base c thread quota wait now

unfoldable pub try_lock_base :
    {D S : Type 0} ⦃f : Double D⦄ ⦃m : Semaphore S⦄
    → Client D S
    → Text
    → D
    → ℕ
    → Bool
    → ℕ
    → Result (LeaseState × Client D S)
unfolding lookup with_thread check_and_lock base_answer
try_lock_base c thread quota base_priority wait now = do
  guard (ltb base_priority c.priorities) precondition
  t ← or_fail (lookup thread c.threads) lock_failed
  let c' = with_thread c thread (λ t. synced c t 0)
  r ← check_and_lock c'.table c'.lock_record quota now
  base_answer r.0 (record c' { table = r.1 }) thread quota wait now

-- One reference of the process and of the thread less.
unfoldable pub one_less : {D S : Type 0} → Client D S → Text → ℕ → Client D S
unfolding with_thread
one_less c thread p =
    with_thread
      (record c {
        counts = modify c.counts p (λ n. record n { count = u64 (n.count + 2 ^ 64 - 1) });
      })
      thread (λ t. record t { p_counts = modify t.p_counts p (λ n. (n + 2 ^ 32 - 1) % 2 ^ 32) })

-- The last reference gives the semaphore back.
unfoldable pub release_last :
    {D S : Type 0} ⦃f : Double D⦄ ⦃m : Semaphore S⦄
    → Client D S
    → Text
    → ℕ
    → Result (Bool × Client D S)
unfolding with_thread post_at Lease.release_lock
release_last c thread p = do
  let c' =
      with_thread c thread
        (λ t. record t { priority_lock_index = set t.priority_lock_index p no_lock_id })
  c'' ← post_at c' p
  t ← Lease.release_lock c''.table c''.lock_record locked p
  ok (true, record c'' { table = t })

unfoldable pub release_held :
    {D S : Type 0} ⦃f : Double D⦄ ⦃m : Semaphore S⦄
    → Client D S
    → Text
    → ℕ
    → Result (Bool × Client D S)
unfolding one_less release_last
release_held c thread p =
    if (count_at (one_less c thread p) p).count == 0
    then release_last (one_less c thread p) thread p
    else ok (false, one_less c thread p)

-- What both releases do with the answer of `has_valid_lock`; that of the base priority resets the quota.
unfoldable pub release_answer :
    {D S : Type 0} ⦃f : Double D⦄ ⦃m : Semaphore S⦄
    → LeaseState
    → Client D S
    → Text
    → ℕ
    → Bool
    → Result (Bool × Client D S)
unfolding release_held reset_locks forget_locks forget_base
release_answer locked c thread p base = release_held c thread p
release_answer expired c thread p base = reset_locks c p expired >>= λ c'. ok (true, c')
release_answer force_released c thread p base =
    if base then (forget_base c p >>= λ c'. ok (false, c')) else ok (false, forget_locks c p)
release_answer _ c thread p base = ok (false, c)

-- Both releases after their tests of the priorities.
unfoldable pub release_from :
    {D S : Type 0} ⦃f : Double D⦄ ⦃m : Semaphore S⦄
    → Client D S
    → Text
    → ℕ
    → Bool
    → ℕ
    → Result (Bool × Client D S)
unfolding lookup with_thread has_valid_lock release_answer
release_from ⦃f⦄ c thread p base now = do
  t ← or_fail (lookup thread c.threads) lock_failed
  if in_sync c t p
      then (has_valid_lock c.table c.lock_record p f.zero_quota now >>= λ r.
          release_answer r.0 (record c { table = r.1 }) thread p base)
      else ok (false, with_thread c thread (λ t. synced c t p))

unfoldable pub release_lock :
    {D S : Type 0} ⦃f : Double D⦄ ⦃m : Semaphore S⦄
    → Client D S
    → Text
    → ℕ
    → ℕ
    → ℕ
    → Result (Bool × Client D S)
unfolding release_from
release_lock c thread p base_priority now = do
  guard (ltb p c.priorities) precondition
  guard (ltb base_priority c.priorities) precondition
  release_from c thread p false now

unfoldable pub release_lock_base :
    {D S : Type 0} ⦃f : Double D⦄ ⦃m : Semaphore S⦄
    → Client D S
    → Text
    → ℕ
    → ℕ
    → Result (Bool × Client D S)
unfolding release_from
release_lock_base c thread base_priority now = do
  guard (ltb base_priority c.priorities) precondition
  release_from c thread 0 true now

-- The handles of the semaphores are closed; `close` says what `sem_close` does to a semaphore.
unfoldable pub close_all : {S : Type 0} → (S → S) → List S → List S
close_all close [] = []
close_all close (s ∷ ss) = close s ∷ close_all close ss

-- The destructors of the client and its base: the process gives up its handles and takes its record out of the table.
-- The semaphores are what it leaves to the others.
unfoldable pub dispose :
    {D S : Type 0} ⦃f : Double D⦄ → (S → S) → Client D S → ℕ → Result (Client D S)
unfolding close_all Lease.destroy
dispose close c pid = do
  t ← Lease.destroy c.table c.lock_record pid
  ok (record c { table = t; semaphores = close_all close c.semaphores; counts = []; threads = [] })
