-- ===== src/Block/Lock.antt =====
-- common/includes/write_lock.h: a write lock and its table, as a block uses them.
use mathlib.Core.Path.{subst}
use react_fs.Prelude.{
  ℕ, ◌≡◌, refl, Bool, true, false, Option, none, some, List, Result, ok, err, precondition,
  lock_timeout, null_pointer, wild_access, ◌>>=◌, ◌>>◌, guard, or_fail, get_elem?,
}
use react_fs.Prelude.Texts.{Text}
use react_fs.LockTable.{Table}
use react_fs.WriteLock.Lifecycle
use react_fs.WriteLock.{Session, Caller, is_available, is_reset_state, has_write_lock}
use react_fs.WriteLock.Acquire.{Round, get_lock, release_lock}
use react_fs.WriteLock.Again.{has_write_lock-again}
use react_fs.Block.Interface.{LockApi}

abbrev pub is_lock_reset : Session → Result Bool
is_lock_reset s = guard (is_available s.lock.state) precondition >> ok (is_reset_state s.lock.state)

-- An instance and its table, for which the table's semaphore is got in time.
pub record Attached : Type 0 where
  pub session : Session
  pub table : Table

abbrev pub with_session : Table → Result (Bool × Session) → Result (Bool × Attached)
with_session t r = r >>= λ (b, s). ok (b, record { session = s; table = t })

unfoldable pub attach : Attached → Caller → Result Attached
attach l c = do
  r ← Lifecycle.check_and_register l.session.lock l.table true c.now
  i ← or_fail r.0.lock_struct null_pointer
  x ← or_fail (get_elem? r.1.locks i) wild_access
  ok (record { session = record { lock = r.0; slot = x }; table = r.1 })

abbrev pub waited : Table → Option (Text × Session) → Result (Text × Attached)
waited t none = err lock_timeout
waited t (some (txn, s)) = ok (txn, record { session = s; table = t })

pub with_session-again :
    (l m : Attached) (c : Caller)
    → with_session l.table (has_write_lock l.session c) ≡ ok (true, m)
    → with_session m.table (has_write_lock m.session c) ≡ ok (true, m)
with_session-again l m c h = again (has_write_lock l.session c) refl h
  where
    again :
        (p : Result (Bool × Session))
        → has_write_lock l.session c ≡ p
        → with_session l.table p ≡ ok (true, m)
        → with_session m.table (has_write_lock m.session c) ≡ ok (true, m)
    again (err e) q k = absurd cc
    again (ok (false, s)) q k = absurd cc
    again (ok (true, s)) q k =
        let e : record { session = s; table = l.table } ≡ m = cc in
        subst (λ x. with_session x.table (has_write_lock x.session c) ≡ ok (true, x)) e
          (rw (has_write_lock-again l.session s c q) refl)

-- The write lock fills the interface that a block uses. `owner`, `timeout` and the rounds of the wait
-- are those of `get_lock`, of which the rounds are taken to last until it answers.
abbrev pub lock_api : Text → ℕ → List Round → LockApi
lock_api owner timeout rounds = record {
  Lock = Attached;
  has_write_lock = λ l c. with_session l.table (has_write_lock l.session c);
  is_lock_reset = λ l. is_lock_reset l.session;
  check_and_register = attach;
  get_lock = λ l c tid. get_lock l.session c owner tid timeout rounds >>= waited l.table;
  release_lock = λ l c. with_session l.table (release_lock l.session c true);
  held_again = with_session-again;
}
