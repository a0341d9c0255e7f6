-- ===== src/Watergate/Control.antt =====
-- watergate/includes/control_def.h and watergate/src/core/control/control_def.cpp: `control_client`, which takes the lock
-- of a priority together with those of all lower ones.
pub mod Lock
use react_fs.Prelude.{
  ℕ, zero, suc, ◌-◌, Bool, true, false, not, ◌&&◌, Option, none, some, List, [], ◌∷◌, Result, ok,
  err, unavailable, lock_failed, ◌>>=◌, ◌>>◌, guard, or_fail, ltb, if◌then◌else◌,
}
use react_fs.Prelude.Texts.{Text, is_empty}
use react_fs.Prelude.Maps.{lookup, assign}
use react_fs.Instance.{InstanceState, is_available}
use react_fs.Watergate.{
  Double, LeaseState, locked, quota_reached, failed, timed_out, retry, is_locked,
}
use react_fs.Watergate.Lease.{is_base}
use react_fs.Watergate.Lease
use react_fs.Watergate.Semaphore.{Semaphore, Client, register_thread, update_metrics}
use react_fs.Watergate.Locks

-- `control_def`: the state, and the clients by the names of their locks.
pub record Control (D S : Type 0) : Type 0 where
  pub state : InstanceState
  pub semaphores : List (Text × Client D S)

-- The arguments of a call, with the thread that makes it.
pub record Request (D : Type 0) : Type 0 where
  pub name : Text
  pub thread : Text
  pub priority : ℕ
  pub quota : D

unfoldable pub get_lock : {D S : Type 0} → Control D S → Text → Result (Option (Client D S))
unfolding lookup
get_lock c name = do
  guard (is_available c.state) unavailable
  ok (if is_empty name then none else lookup name c.semaphores)

-- The calls throw where there is no lock of the name.
unfoldable pub own_client : {D S : Type 0} → Control D S → Text → Result (Client D S)
unfolding get_lock
own_client c name = do found ← get_lock c name; or_fail found lock_failed

unfoldable pub put_client : {D S : Type 0} → Control D S → Text → Client D S → Control D S
unfolding assign
put_client c name k = record c { semaphores = assign name k c.semaphores }

module _ {D S : Type 0} ⦃f : Double D⦄ ⦃m : Semaphore S⦄ where
  -- `wait_lock` and `try_lock` at a priority; the priority of the request is the base priority of the call.
  unfoldable pub ask_lock :
      Bool → Control D S → Request D → ℕ → ℕ → Result (LeaseState × Control D S)
  unfolding own_client put_client Locks.try_lock Locks.try_lock_base
  ask_lock wait c q p now = do
    k ← own_client c q.name
    r ←
        (if is_base p
          then Locks.try_lock_base k q.thread q.quota q.priority wait now
          else Locks.try_lock k q.thread p q.quota q.priority wait now)
    ok (r.0, put_client c q.name r.1)

  abbrev pub try_lock : Control D S → Request D → ℕ → ℕ → Result (LeaseState × Control D S)
  try_lock c q p now = ask_lock false c q p now

  abbrev pub wait_lock : Control D S → Request D → ℕ → ℕ → Result (LeaseState × Control D S)
  wait_lock c q p now = ask_lock true c q p now

  unfoldable pub release_lock : Control D S → Request D → ℕ → ℕ → Result (Bool × Control D S)
  unfolding own_client put_client Locks.release_lock Locks.release_lock_base
  release_lock c q p now = do
    k ← own_client c q.name
    r ←
        (if is_base p
          then Locks.release_lock_base k q.thread q.priority now
          else Locks.release_lock k q.thread p q.priority now)
    ok (r.0, put_client c q.name r.1)

  unfoldable pub has_valid_lock : Control D S → Text → ℕ → ℕ → Result (Bool × Control D S)
  unfolding own_client put_client Lease.has_valid_lock
  has_valid_lock c name p now = do
    k ← own_client c name
    r ← Lease.has_valid_lock k.table k.lock_record p f.zero_quota now
    ok (is_locked r.0, put_client c name (record k { table = r.1 }))

  -- The loop that tests the priorities it has locked, as many, from one down; the first that is lost ends it.
  unfoldable pub all_valid : ℕ → ℕ → Control D S → Text → ℕ → Result (Bool × Control D S)
  unfolding has_valid_lock
  all_valid zero p c name now = ok (true, c)
  all_valid (suc n) p c name now = do
    r ← has_valid_lock c name p now
    if r.0 then all_valid n (p - 1) r.1 name now else ok (false, r.1)

  -- The loop of releases, as many, from a priority down; whether all have answered true.
  unfoldable pub release_all : ℕ → ℕ → Control D S → Request D → ℕ → Result (Bool × Control D S)
  unfolding release_lock
  release_all zero p c q now = ok (true, c)
  release_all (suc n) p c q now = do
    r ← release_lock c q p now
    s ← release_all n (p - 1) r.1 q now
    ok (r.0 && s.0, s.1)

  -- `release`
  unfoldable pub release_from : Control D S → Request D → ℕ → Result (Bool × Control D S)
  unfolding release_all
  release_from c q now = do
    guard (is_available c.state) unavailable
    release_all (suc q.priority) q.priority c q now

-- A round of the inner loop of `lock_get`: the time since its start, the clock, and what the other threads and processes
-- have made of the locks since the last round.
pub record Round (D S : Type 0) : Type 0 where
  pub elapsed : ℕ
  pub now : ℕ
  pub others : Control D S → Control D S

-- How the loops end: the answer, and the lowest priority that has been locked.
pub record Climb (D S : Type 0) : Type 0 where
  pub answer : LeaseState
  pub locked_priority : ℕ
  pub control : Control D S

module _ {D S : Type 0} ⦃f : Double D⦄ ⦃m : Semaphore S⦄ where
  -- What the inner loop does with the answer at a priority: it goes on to the next one, ends both loops, or asks again.
  unfoldable pub tried :
      LeaseState
      → ℕ
      → Control D S
      → Result (Option (Climb D S))
      → Result (Option (Climb D S))
      → Result (Option (Climb D S))
  tried locked ii c next again = next
  tried quota_reached ii c next again =
      ok (some (record { answer = quota_reached; locked_priority = suc ii; control = c }))
  tried failed ii c next again =
      ok (some (record { answer = failed; locked_priority = suc ii; control = c }))
  tried _ ii c next again = again

  -- Both loops of `lock_get`, with the lowest priority that has been locked. `none` means that the given rounds are
  -- over.
  unfoldable pub climb :
      List (Round D S) → ℕ → ℕ → Control D S → Request D → Result (Option (Climb D S))
  unfolding all_valid ask_lock tried
  climb rounds timeout zero c q =
      ok (some (record { answer = locked; locked_priority = 0; control = c }))
  climb [] timeout (suc ii) c q = ok none
  climb (r ∷ rs) timeout (suc ii) c q =
      let c' = r.others c in
      elim (ltb timeout r.elapsed) [
        | true ↦ ok (some (record { answer = timed_out; locked_priority = suc ii; control = c' }))
        | false ↦ (do
          v ← all_valid (suc q.priority - suc ii) q.priority c' q.name r.now
          elim v.0 [
            | false ↦ ok (some (record { answer = retry; locked_priority = suc ii; control = v.1 }))
            | true ↦ (do
              a ← try_lock v.1 q ii r.now
              tried a.0 ii a.1 (climb rs timeout ii a.1 q) (climb rs timeout (suc ii) a.1 q))
          ])
      ]

  -- What follows the loops: the locks are released unless all are there, and the thread's metrics are updated.
  unfoldable pub finish : Climb D S → Request D → ℕ → ℕ → Result (LeaseState × Control D S)
  unfolding release_all own_client put_client update_metrics
  finish e q now lock_time = do
    r ←
        (if is_locked e.answer
          then ok (true, e.control)
          else release_all (suc q.priority - e.locked_priority) q.priority e.control q now)
    k ← own_client r.1 q.name
    ok (e.answer, put_client r.1 q.name (update_metrics k q.thread q.priority lock_time))

  -- The lock of the priority is there; the time since the start of the call says whether that was too late.
  unfoldable pub after_wait :
      List (Round D S)
      → ℕ
      → ℕ
      → Control D S
      → Request D
      → ℕ
      → ℕ
      → Result (Option (LeaseState × Control D S))
  unfolding release_lock climb finish
  after_wait rounds timeout elapsed c q now lock_time =
      if ltb timeout elapsed && not (is_base q.priority)
      then (do r ← release_lock c q q.priority now; ok (some (timed_out, r.1)))
      else (do
        e ← climb rounds timeout q.priority c q
        elim e [ none ↦ ok none | some x ↦ finish x q now lock_time >>= λ y. ok (some y) ])

  -- What `lock_get` does with the answer of `wait_lock`.
  unfoldable pub answered :
      List (Round D S)
      → ℕ
      → ℕ
      → LeaseState
      → Control D S
      → Request D
      → ℕ
      → ℕ
      → Result (Option (LeaseState × Control D S))
  unfolding after_wait
  answered rounds timeout elapsed failed c q now lock_time = err lock_failed
  answered rounds timeout elapsed locked c q now lock_time =
      after_wait rounds timeout elapsed c q now lock_time
  answered rounds timeout elapsed a c q now lock_time = ok (some (a, c))

  -- `lock_get`; the timeout is 0 where the argument is negative.
  unfoldable pub lock_get :
      List (Round D S)
      → ℕ
      → ℕ
      → Control D S
      → Request D
      → ℕ
      → ℕ
      → Result (Option (LeaseState × Control D S))
  unfolding ask_lock answered
  lock_get rounds timeout elapsed c q now lock_time = do
    r ← wait_lock c q q.priority now
    answered rounds timeout elapsed r.0 r.1 q now lock_time
