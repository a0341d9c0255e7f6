-- ===== src/Watergate/Owner.antt =====
-- watergate/includes/control.h and watergate/src/core/control/control.cpp: `__semaphore_owner`, the side of the server, which takes
-- back locks whose lease is long over and fills the semaphores at its start.
use react_fs.Prelude.{
  ℕ, zero, suc, Bool, Option, none, some, List, [], ◌∷◌, Result, ok, precondition, ◌>>=◌, ◌>>◌,
  guard, or_fail, ltb, if◌then◌else◌, get_elem?, set, replicate,
}
use react_fs.Watergate.{Double, Table, max_priority}
use react_fs.Watergate.Manager.{check_expired_locks, reset_expired_records}
use react_fs.Watergate.Semaphore.{done, Semaphore}

-- The members of `__semaphore_owner` that its methods use.
pub record Owner (D S : Type 0) : Type 0 where
  pub priorities : ℕ
  pub max_concurrent : ℕ
  pub table : Table D
  pub semaphores : List S

-- `sem_post`, as often; its answer is not looked at.
unfoldable pub post_times : {S : Type 0} ⦃m : Semaphore S⦄ → ℕ → S → S
post_times zero s = s
post_times ⦃m⦄ (suc n) s = post_times n (m.post s).1

-- The posts for the locks of a priority that have been taken back.
unfoldable pub post_count : {S : Type 0} ⦃m : Semaphore S⦄ → ℕ → ℕ → ℕ → List S → Result (List S)
unfolding post_times
post_count priorities ii count ss =
    if ltb 0 count
    then (do
      guard (ltb ii priorities) precondition
      s ← or_fail (get_elem? ss ii) precondition
      ok (set ss ii (post_times count s)))
    else ok ss

-- The loop over the counts, from a priority on.
unfoldable pub post_counts :
    {S : Type 0} ⦃m : Semaphore S⦄ → ℕ → ℕ → List ℕ → List S → Result (List S)
unfolding post_count
post_counts priorities ii [] ss = ok ss
post_counts priorities ii (n ∷ ns) ss = do
  ss' ← post_count priorities ii n ss
  post_counts priorities (suc ii) ns ss'

unfoldable pub check_leases :
    {D S : Type 0} ⦃m : Semaphore S⦄ → Owner D S → ℕ → ℕ → Result (Owner D S)
unfolding check_expired_locks post_counts
check_leases o expiry now = do
  guard (ltb 0 expiry) precondition
  r ← check_expired_locks o.table expiry (replicate max_priority 0) now
  ss ← post_counts o.priorities 0 r.1 o.semaphores
  ok (record o { table = r.0; semaphores = ss })

unfoldable pub check_expired_records :
    {D S : Type 0} ⦃f : Double D⦄ → Owner D S → ℕ → ℕ → Result (Owner D S)
unfolding reset_expired_records
check_expired_records o expiry now = do
  guard (ltb 0 expiry) precondition
  t ← reset_expired_records o.table expiry now
  ok (record o { table = t })

-- `run_checkup` of the manager, for one lock.
unfoldable pub run_checkup :
    {D S : Type 0} ⦃f : Double D⦄ ⦃m : Semaphore S⦄
    → Owner D S
    → Bool
    → ℕ
    → ℕ
    → ℕ
    → Result (Owner D S)
unfolding check_leases check_expired_records
run_checkup o running lock_timeout record_timeout now =
    if running
    then (do o' ← check_leases o lock_timeout now; check_expired_records o' record_timeout now)
    else ok o

-- The first loop of `clear_locks`: the semaphore is tried until it fails. `none` means that the given tries
-- are over.
unfoldable pub drain : {S : Type 0} ⦃m : Semaphore S⦄ → ℕ → S → ℕ → Option (ℕ × S)
drain zero s count = none
drain ⦃m⦄ (suc fuel) s count =
    let r = m.trywait s in elim r.0 [ done ↦ drain fuel r.1 (suc count) | _ ↦ some (count, r.1) ]

-- What `clear_locks` does to one semaphore.
unfoldable pub refill : {S : Type 0} ⦃m : Semaphore S⦄ → ℕ → ℕ → S → Option S
unfolding drain post_times
refill fuel max_concurrent s = elim (drain fuel s 0) [
  | none ↦ none
  | some (count, s') ↦
      some (post_times (if ltb count max_concurrent then max_concurrent else count) s')
]

unfoldable pub clear_locks : {S : Type 0} ⦃m : Semaphore S⦄ → ℕ → ℕ → List S → Option (List S)
unfolding refill
clear_locks fuel max_concurrent [] = some []
clear_locks fuel max_concurrent (s ∷ ss) = elim (refill fuel max_concurrent s) [
  | none ↦ none
  | some s' ↦ elim (clear_locks fuel max_concurrent ss) [ none ↦ none | some ss' ↦ some (s' ∷ ss') ]
]
