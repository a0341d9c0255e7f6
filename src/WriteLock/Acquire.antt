-- ===== src/WriteLock/Acquire.antt =====
-- common/includes/write_lock.h: `get_lock` and `release_lock`.
use react_fs.Prelude.{
  ℕ, Bool, true, false, not, Option, none, some, List, [], ◌∷◌, Result, ok, precondition,
  null_pointer, lock_timeout, ◌>>=◌, ◌>>◌, guard, ltb, if◌then◌else◌,
}
use react_fs.Prelude.Texts.{Text, is_empty, same_text}
use react_fs.LockTable.{LockRecord}
use react_fs.WriteLock.{Session, Caller, is_available, is_some, elapsed, has_write_lock}

-- How a round of `get_lock` ends: the lock is held, the round is to be repeated, or the loop is left
-- since the thread holds the lock under another transaction id.
pub data Attempt : Type 0 where
  locked retry refused : Attempt

-- The record as the round takes it; `uuid` is what `common_utils::uuid` returns.
unfoldable pub take : Session → Caller → Text → Text → Text → Session
take s c owner tid uuid = record {
  lock = record s.lock { txn_id = txn };
  slot = record s.slot {
    write_locked = true;
    owner = record {
      owner = owner;
      txn_id = txn;
      process_id = some c.process_id;
      thread_id = c.thread_id;
      lock_timestamp = c.now;
      last_updated = c.now;
    };
  };
}
  where
    txn : Text
    txn = if is_empty tid then uuid else tid

-- One round of `get_lock` with the semaphore got.
unfoldable pub attempt : Session → Caller → Text → Text → Text → Result (Attempt × Session)
unfolding has_write_lock take
attempt s c owner tid uuid = do
  r ← has_write_lock s c
  if r.0
      then ok (
        (if is_empty tid
            then locked
            else (if same_text tid r.1.lock.txn_id then locked else refused)),
        r.1,
      )
      else (if not r.1.slot.write_locked
          then ok (locked, take r.1 c owner tid uuid)
          else ok (retry, r.1))

-- What a round meets: whether the semaphore was got, the clock, the next uuid, and what the other
-- processes and threads have made of the record since the last round.
pub record Round : Type 0 where
  pub got : Bool
  pub now : ℕ
  pub uuid : Text
  pub others : LockRecord → LockRecord

abbrev pub at_time : Caller → ℕ → Caller
at_time c now = record c { now = now }

unfoldable pub round : Session → Caller → Text → Text → Round → Result (Attempt × Session)
unfolding attempt
round s c owner tid r =
    let s' : Session = record s { slot = r.others s.slot } in
    if r.got then attempt s' (at_time c r.now) owner tid r.uuid else ok (retry, s')

-- The loop: `none` means that the given rounds are over and the caller is still waiting.
unfoldable pub get_loop :
    Session → Caller → Text → Text → ℕ → ℕ → List Round → Result (Option (Text × Session))
unfolding round
get_loop s c owner tid start timeout [] = ok none
get_loop s c owner tid start timeout (r ∷ rs) = round s c owner tid r >>= λ p. elim p.0 [
  | locked ↦ ok (some (p.1.lock.txn_id, p.1))
  | refused ↦ ok (some (p.1.lock.txn_id, p.1))
  | retry ↦
      (let rest = get_loop p.1 c owner tid start timeout rs in
        if ltb timeout (elapsed r.now start) then ok (some (p.1.lock.txn_id, p.1)) else rest)
]

-- The clock of the caller is the start of the wait.
unfoldable pub get_lock :
    Session → Caller → Text → Text → ℕ → List Round → Result (Option (Text × Session))
unfolding get_loop
get_lock s c owner tid timeout rounds = do
  guard (is_available s.lock.state) precondition
  guard (not (is_empty owner)) precondition
  get_loop s c owner tid c.now timeout rounds

unfoldable pub give_up : Session → Session
give_up s = record {
  lock = record s.lock { txn_id = [] };
  slot = record s.slot {
    write_locked = false;
    owner = record s.slot.owner {
      process_id = none;
      lock_timestamp = 0;
      txn_id = [];
      owner = [];
      thread_id = [];
    };
  };
}

-- The flag is whether the semaphore was got in time.
unfoldable pub release_lock : Session → Caller → Bool → Result (Bool × Session)
unfolding has_write_lock give_up
release_lock s c got = do
  guard (is_available s.lock.state) precondition
  guard (not (is_empty s.lock.txn_id)) precondition
  guard got lock_timeout
  guard (is_some s.lock.lock_struct) null_pointer
  if s.slot.write_locked
      then (has_write_lock s c >>= λ r. if r.0 then ok (true, give_up r.1) else ok (false, r.1))
      else ok (false, s)
