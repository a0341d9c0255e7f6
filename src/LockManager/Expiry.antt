-- ===== src/LockManager/Expiry.antt =====
-- common/src/write_lock_manager.cpp: what a pass of the manager means to the holder of a lock.
use react_fs.Prelude.{ℕ, ◌≤◌, ◌<◌, ◌≡◌, refl, true, false, Returns, arith}
use mathlib.Core.Path.{subst}
use react_fs.Prelude.Texts.{Text}
use react_fs.WriteLock.{WriteLock, Session, Caller, elapsed, owns}
use react_fs.WriteLock.Hold.{IsLive, IsHeld, attempt-free}
use react_fs.WriteLock.Acquire.{locked, attempt}
use react_fs.LockManager.{write_timeout, is_stale, expire}

-- The record of a session after the manager has looked at it.
abbrev pub watched : Session → ℕ → Session
watched s now = record s { slot = expire s.slot now }

-- A pass of the manager leaves the lock with a holder who has used it in the last five minutes.
pub expire-IsHeld :
    {s : Session} (c : Caller) (now : ℕ)
    → IsHeld s c
    → elapsed now s.slot.owner.last_updated ≤ write_timeout
    → IsHeld (watched s now) c
expire-IsHeld {s} c now h fresh =
    let w : s.slot.write_locked ≡ true = ground (arith, h.held) in
    let e : is_stale s.slot now ≡ false = ground (arith, w, fresh) in
    let same : s ≡ watched s now = rw e refl in subst (λ t. IsHeld t c) same h

-- It takes the lock from a holder who has not: the record is no longer locked, no caller holds it, and a live instance that
-- asks for it next gets it.
pub expire-late :
    {s : Session} (c : Caller) (now : ℕ) (d : Caller) (owner tid uuid : Text)
    → IsHeld s c
    → write_timeout < elapsed now s.slot.owner.last_updated
    → (l : WriteLock) → IsLive (record { lock = l; slot = expire s.slot now }) d.now
    → (owns (watched s now) c ≡ false)
      × Returns
          (attempt (record { lock = l; slot = expire s.slot now }) d owner tid uuid)
          λ (a, t). a ≡ locked
expire-late {s} c now d owner tid uuid h late l v =
    let w : s.slot.write_locked ≡ true = ground (arith, h.held) in
    let e : is_stale s.slot now ≡ true = ground (arith, w, late) in
    let free : (expire s.slot now).write_locked ≡ false = rw e refl in
    let n = attempt-free d owner tid uuid v free in (ground (arith, free), (n.0, n.1, n.2.0))
