-- ===== src/WriteLock/Hold.antt =====
-- write_lock.h: what a caller that takes, holds or releases the lock can rely on.
use react_fs.Prelude.{
  ℕ, ◌<◌, ◌≡◌, refl, true, false, [], Returns, ok, arith, if◌then◌else◌, Bool-cases, inl, inr,
}
use react_fs.Prelude.Texts.{Text, is_empty, has_prefix, has_prefix_refl}
use react_fs.WriteLock.{
  Session, Caller, is_available, is_some, elapsed, lock_expiry, owns, touch, touch_owner,
  has_write_lock,
}
use react_fs.WriteLock.Acquire.{locked, attempt, take, give_up, release_lock}

-- The instance is usable, its record is still its own, and was used less than ten minutes ago.
pub record IsLive (s : Session) (now : ℕ) : Type 0 where
  pub available : is_available s.lock.state ≡ true
  pub attached : is_some s.lock.lock_struct ≡ true
  pub used : s.slot.used ≡ true
  pub named : has_prefix s.slot.name s.lock.name ≡ true
  pub recent : elapsed now s.slot.last_used < lock_expiry

pub has_write_lock_live :
    {s : Session} (c : Caller)
    → IsLive s c.now
    → has_write_lock s c ≡ (
        if owns s c
        then ok (true, touch_owner (touch s c.now) c.now)
        else ok (false, touch s c.now))
unfolding has_write_lock
has_write_lock_live {s} c v = ground arith

-- A session in which the caller holds the lock.
pub record IsHeld (s : Session) (c : Caller) : Type 0 where
  pub live : IsLive s c.now
  pub held : owns s c ≡ true

pub holds :
    {s : Session} (c : Caller)
    → IsHeld s c
    → has_write_lock s c ≡ ok (true, touch_owner (touch s c.now) c.now)
holds c h = ground (arith, has_write_lock_live c h.live, h.held)

pub taken-owns :
    (s : Session) (c : Caller) (owner tid uuid : Text) → owns (take s c owner tid uuid) c ≡ true
unfolding take
taken-owns s c owner tid uuid =
    ground (arith, has_prefix_refl tid, has_prefix_refl uuid, has_prefix_refl c.thread_id)

-- A round of `get_lock` on a live session whose record is not locked takes the lock: the transaction id
-- is the caller's, or the new uuid if the caller gave none, and from then on `has_write_lock` answers
-- true to that process and thread for ten minutes without use.
pub attempt-free :
    {s : Session} (c : Caller) (owner tid uuid : Text)
    → IsLive s c.now
    → s.slot.write_locked ≡ false
    → Returns (attempt s c owner tid uuid) λ (a, s').
      (a ≡ locked)
      × (s'.lock.txn_id ≡ (if is_empty tid then uuid else tid))
      × ((now : ℕ) → elapsed now c.now < lock_expiry → IsHeld s' (record c { now = now }))
unfolding attempt
attempt-free {s} c owner tid uuid v free = (
  (locked, take (touch s c.now) c owner tid uuid),
  ground (arith, has_write_lock_live c v),
  (
    refl,
    refl,
    λ now h. record {
      live = record {
        available = v.available;
        attached = v.attached;
        used = v.used;
        named = v.named;
        recent = h;
      };
      held = taken-owns (touch s c.now) c owner tid uuid;
    },
  ),
)

-- `release_lock` of a live session, with the semaphore got and a transaction id at hand: the owner
-- frees the record and loses its transaction id and its hold, and anybody else is answered false and
-- changes neither the owner nor the lock.
pub release_lock_lem :
    {s : Session} (c : Caller)
    → IsLive s c.now
    → is_empty s.lock.txn_id ≡ false
    → Returns (release_lock s c true) λ (done, s').
      (done ≡ owns s c)
      × (owns s c ≡ true
          → (s'.slot.write_locked ≡ false) × (s'.lock.txn_id ≡ []) × (owns s' c ≡ false))
      × (owns s c ≡ false
          → (s'.slot.owner ≡ s.slot.owner) × (s'.slot.write_locked ≡ s.slot.write_locked))
unfolding release_lock
release_lock_lem {s} c v t = elim (Bool-cases (owns s c)) [
  | inl mine ↦ (
    (true, give_up (touch_owner (touch s c.now) c.now)),
    ground (arith, has_write_lock_live c v),
    (ground arith, λ e. (refl, refl, refl), λ e. cc),
  )
  | inr other ↦ (
    (false, (if s.slot.write_locked then touch s c.now else s)),
    ground (arith, has_write_lock_live c v),
    (ground arith, λ e. cc, λ e. (ground arith, ground arith)),
  )
]
