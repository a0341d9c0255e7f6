-- ===== src/Watergate/Control/Lock.antt =====
-- watergate/includes/control_def.h: `lock`, which asks again, and the registration of threads.
use react_fs.Prelude.{
  ℕ, ◌^◌, Bool, true, false, not, ◌&&◌, Option, none, some, List, [], ◌∷◌, Result, ok, unavailable,
  ◌>>=◌, ◌>>◌, guard, ltb, if◌then◌else◌,
}
use react_fs.Prelude.Texts.{Text}
use react_fs.Instance.{is_available}
use react_fs.Watergate.{Double, LeaseState, quota_reached, timed_out, retry}
use react_fs.Watergate.Lease.{is_base}
use react_fs.Watergate.Semaphore.{Semaphore, register_thread}
use react_fs.Watergate.Control.{Control, Request, Round, lock_get, own_client, put_client}

-- A pass of the loop of `lock`: what its call of `lock_get` meets, and the time since the start of `lock` after it.
pub record Call (D S : Type 0) : Type 0 where
  pub rounds : List (Round D S)
  pub elapsed : ℕ
  pub now : ℕ
  pub lock_time : ℕ
  pub waited : ℕ
  pub others : Control D S → Control D S

-- The answers on which `lock` asks again.
abbrev pub asks_again : LeaseState → Bool
asks_again quota_reached = true
asks_again retry = true
asks_again _ = false

-- The `uint64_t` that `lock` hands to the `long` of `lock_get`, which takes a negative one for 0.
abbrev pub as_timeout : ℕ → ℕ
as_timeout n = if ltb n (2 ^ 63) then n else 0

module _ {D S : Type 0} ⦃f : Double D⦄ ⦃m : Semaphore S⦄ where
  -- The loop of `lock`; a call at the base priority has no timeout. `none` means that the given passes are over.
  unfoldable pub lock_loop :
      List (Call D S) → ℕ → Control D S → Request D → Result (Option (LeaseState × Control D S))
  unfolding lock_get
  lock_loop [] timeout c q = ok none
  lock_loop (x ∷ xs) timeout c q = do
    r ← lock_get x.rounds (as_timeout timeout) x.elapsed (x.others c) q x.now x.lock_time
    elim r [
      | none ↦ ok none
      | some a ↦
          if asks_again a.0
          then (if ltb timeout x.waited && not (is_base q.priority)
              then ok (some (timed_out, a.1))
              else lock_loop xs timeout a.1 q)
          else ok (some a)
    ]

  unfoldable pub lock :
      List (Call D S) → ℕ → Control D S → Request D → Result (Option (LeaseState × Control D S))
  unfolding lock_loop
  lock calls timeout c q = do guard (is_available c.state) unavailable; lock_loop calls timeout c q

unfoldable pub register : {D S : Type 0} → Control D S → Text → Text → Result (Control D S)
unfolding own_client put_client register_thread
register c name thread = do
  guard (is_available c.state) unavailable
  k ← own_client c name
  ok (put_client c name (register_thread k thread))
