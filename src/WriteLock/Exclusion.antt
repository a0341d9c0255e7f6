-- ===== src/WriteLock/Exclusion.antt =====
-- write_lock.h: two processes over one record.
use react_fs.Prelude.{◌≡◌, ◌≢◌, refl, true, false, Returns, arith}
use react_fs.Prelude.Texts.{Text, is_empty}
use react_fs.WriteLock.{WriteLock, Session, Caller, owns, touch}
use react_fs.WriteLock.Acquire.{retry, attempt, release_lock}
use react_fs.WriteLock.Hold.{IsLive, IsHeld, has_write_lock_live}

-- The session of another instance over the record of `a`, and that of `a` once it sees the record as
-- `b` has left it.
abbrev pub beside : Session → WriteLock → Session
beside a w = record { lock = w; slot = a.slot }

abbrev pub seen_by : Session → Session → Session
seen_by a b = record a { slot = b.slot }

module _ {a : Session} (w : WriteLock) (ca cb : Caller) (h : IsHeld a ca)
    (v : IsLive (beside a w) cb.now) (ne : ca.process_id ≢ cb.process_id) where
  locked_out : owns (beside a w) cb ≡ false
  locked_out = ground (arith, h.held)

  still-IsHeld : IsHeld (seen_by a (touch (beside a w) cb.now)) (record ca { now = cb.now })
  unfolding touch
  still-IsHeld = record {
    live = record {
      available = h.live.available;
      attached = h.live.attached;
      used = h.live.used;
      named = h.live.named;
      recent = omega arith;
    };
    held = h.held;
  }

  is_locked : a.slot.write_locked ≡ true
  is_locked = ground (arith, h.held)

  -- While a caller of one process holds the lock, a round of `get_lock` of another process over the
  -- same record leaves the loop to be repeated, whatever ids it brings, and the holder still holds the
  -- lock after it.
  pub exclusion-attempt :
      (owner tid uuid : Text)
      → Returns
          (attempt (beside a w) cb owner tid uuid)
          λ (r, b). (r ≡ retry) × IsHeld (seen_by a b) (record ca { now = cb.now })
  unfolding attempt
  exclusion-attempt owner tid uuid = (
    (retry, touch (beside a w) cb.now),
    ground (arith, has_write_lock_live cb v, locked_out, is_locked),
    (refl, still-IsHeld),
  )

  -- While a caller of one process holds the lock, `release_lock` of an instance of another process over
  -- the same record, which has a transaction id, answers false, and the holder still holds the lock.
  pub exclusion-release_lock :
      is_empty w.txn_id ≡ false
      → Returns
          (release_lock (beside a w) cb true)
          λ (r, b). (r ≡ false) × IsHeld (seen_by a b) (record ca { now = cb.now })
  unfolding release_lock
  exclusion-release_lock t = (
    (false, touch (beside a w) cb.now),
    ground (arith, has_write_lock_live cb v, locked_out, is_locked),
    (refl, still-IsHeld),
  )
