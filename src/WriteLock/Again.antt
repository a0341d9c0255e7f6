-- ===== src/WriteLock/Again.antt =====
-- write_lock.h: a lock that is held, asked twice.
use mathlib.Core.Path.{subst}
use react_fs.Prelude.{
  ℕ, ◌≡◌, refl, ap, sym, ◌∙◌, Bool, true, false, Result, ok, err, arith, precondition, ◌>>=◌,
  if◌then◌else◌, Bool-cases, inl, inr,
}
use react_fs.WriteLock.{
  Session, Caller, is_available, owns, touch, touch_owner, has_write_lock, check_lock_valid,
}
use react_fs.WriteLock.Hold.{IsLive, IsHeld, holds}

valid-IsLive :
    (s m : Session) (now : ℕ)
    → check_lock_valid s now ≡ ok (true, m)
    → is_available s.lock.state ≡ true
    → IsLive s now
unfolding check_lock_valid
valid-IsLive s m now h a = record {
  available = a;
  attached = ground arith;
  used = ground arith;
  named = ground arith;
  recent = ground arith;
}

valid_same : (s m : Session) (now : ℕ) → check_lock_valid s now ≡ ok (true, m) → m ≡ s
unfolding check_lock_valid
valid_same s m now h = ground arith

-- `has_write_lock` behind its precondition.
tested : Session → Caller → Bool × Session → Result (Bool × Session)
unfolding touch touch_owner
tested s c r =
    if r.0
    then ok (
        let s' = touch r.1 c.now in if owns s' c then (true, touch_owner s' c.now) else (false, s'))
    else ok (false, r.1)

has_write_lock_tested :
    (s : Session) (c : Caller)
    → is_available s.lock.state ≡ true
    → has_write_lock s c ≡ (check_lock_valid s c.now >>= tested s c)
unfolding has_write_lock tested
has_write_lock_tested s c a = rw a refl

available_of :
    (s m : Session) (c : Caller)
    → has_write_lock s c ≡ ok (true, m)
    → is_available s.lock.state ≡ true
unfolding has_write_lock
available_of s m c h = elim (Bool-cases (is_available s.lock.state)) [
  | inl a ↦ a
  | inr n ↦ absurd (refused (sym h ∙ rw n refl))
]
  where
    refused : ◌≡◌ {A = Result (Bool × Session)} (ok (true, m)) (err precondition) → ⊥
    refused e = cc

IsHeld-of_check :
    (s m : Session) (c : Caller) (p : Result (Bool × Session))
    → check_lock_valid s c.now ≡ p
    → is_available s.lock.state ≡ true
    → (p >>= tested s c) ≡ ok (true, m)
    → IsHeld s c
unfolding tested
IsHeld-of_check s m c (err e) q a h = absurd cc
IsHeld-of_check s m c (ok (false, r)) q a h = absurd (ground arith)
IsHeld-of_check s m c (ok (true, r)) q a h = record {
  live = valid-IsLive s r c.now q a;
  held = elim (Bool-cases (owns s c)) [
    | inl o ↦ o
    | inr n ↦ absurd (ground (arith, valid_same s r c.now q))
  ];
}

IsHeld-of : (s m : Session) (c : Caller) → has_write_lock s c ≡ ok (true, m) → IsHeld s c
IsHeld-of s m c h =
    let a = available_of s m c h in
    IsHeld-of_check s m c (check_lock_valid s c.now) refl a (sym (has_write_lock_tested s c a) ∙ h)

touched : Session → Caller → Session
touched s c = touch_owner (touch s c.now) c.now

touched-IsHeld : {s : Session} (c : Caller) → IsHeld s c → IsHeld (touched s c) c
unfolding touched touch touch_owner
touched-IsHeld c h = record {
  live = record {
    available = h.live.available;
    attached = h.live.attached;
    used = h.live.used;
    named = h.live.named;
    recent = omega arith;
  };
  held = h.held;
}

touched_twice : (s : Session) (c : Caller) → touched (touched s c) c ≡ touched s c
unfolding touched touch touch_owner
touched_twice s c = refl

-- A call of `has_write_lock` that answers true leaves a session in which the same call, at the same
-- time, answers true again and changes nothing more.
pub has_write_lock-again :
    (s m : Session) (c : Caller)
    → has_write_lock s c ≡ ok (true, m)
    → has_write_lock m c ≡ ok (true, m)
unfolding touched
has_write_lock-again s m c h =
    let held = IsHeld-of s m c h in
    let same : ◌≡◌ {A = Result (Bool × Session)} (ok (true, touched s c)) (ok (true, m)) =
      sym (holds c held) ∙ h in
    let e : touched s c ≡ m = cc in
    subst (λ x. has_write_lock x c ≡ ok (true, x)) e
      (holds c (touched-IsHeld c held) ∙ ap (λ x. ok (true, x)) (touched_twice s c))
