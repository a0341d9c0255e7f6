-- ===== src/Watergate/Held/Leases.antt =====
-- lock_table.h: what the calls of `lock_table_client` do to the locks that are held.
use react_fs.Prelude.{
  ℕ, ◌+◌, ◌≡◌, refl, sym, ap, ◌∙◌, Bool, true, false, some, arith, Returns, ◌&&◌, ltb,
  if◌then◌else◌, get_elem?, set, Bool-cases, inl, inr,
}
use react_fs.Watergate.{
  Double, LeaseState, locked, quota_reached, force_released, expired, no_lock, failed, timed_out,
  quota_available, release, retry, is_locked, PriorityLock, LockRecord, Table, u64,
}
use react_fs.Watergate.Lease.{
  freed, with_lock, with_used, put_record, released_lock, released_record, has_valid_lock,
  held_answer, lease_answer,
}
use react_fs.Watergate.Lease
use react_fs.Watergate.Held.{
  Owns, Owns-changed, at, at_zero, held, held-changed, holds_after, one, released_lock-freed,
  set-same,
}

-- The answers of `has_valid_lock` are these.
pub data Leased : LeaseState → Type 0 where
  is_held : Leased locked
  is_expired : Leased expired
  is_exhausted : Leased release
  is_full : Leased quota_reached
  is_forced : Leased force_released
  is_free : Leased no_lock

-- Nothing is given back or taken: as many records hold the lock of every priority.
abbrev pub Same : {D : Type 0} → Table D → Table D → Type 0
Same t t' = (q : ℕ) → held q t'.records ≡ held q t.records

three-Leased :
    (active full : Bool)
    → Leased (if active then (if full then release else locked) else expired)
      × (holds_after (if active then (if full then release else locked) else expired) ≡ 1)
three-Leased true true = (is_exhausted, refl)
three-Leased true false = (is_held, refl)
three-Leased false full = (is_expired, refl)

module _ {D : Type 0} ⦃f : Double D⦄ where
  held_answer-Leased :
      (t : Table D) (r : LockRecord D) (l : PriorityLock) (quota : D) (now : ℕ)
      → is_locked l.state ≡ true
      → Leased (held_answer t r l quota now) × (holds_after (held_answer t r l quota now) ≡ 1)
  held_answer-Leased t r l quota now h = rw h (
      three-Leased (ltb now (u64 (l.acquired_time + t.lock_lease_time))) (
        f.less f.zero_quota quota
        && (f.less f.zero_quota t.quota && f.less (f.minus t.quota r.lock.quota_used) quota)))

  -- The record of an answer has its lock of the priority replaced, and as much held as before.
  abbrev Answers : LockRecord D → ℕ → PriorityLock → LeaseState × LockRecord D → Type 0
  Answers r p l (a, r') =
      Leased a
      × ((l' : PriorityLock) × (r'.lock.locks ≡ set r.lock.locks p l')
          × (one l'.state ≡ holds_after a)
          × (one l.state ≡ one l'.state))

  lease_answer-Answers :
      (s : LeaseState) (t : Table D) (r : LockRecord D) (p : ℕ) (l : PriorityLock) (quota : D)
      (now : ℕ)
      → get_elem? r.lock.locks p ≡ some l
      → l.state ≡ s
      → Answers r p l (lease_answer s t r p l quota now)
  unfolding lease_answer
  lease_answer-Answers locked t r p l quota now e h =
      let x = held_answer-Leased t r l quota now (ap is_locked h) in
      (x.0, (l, set-same r.lock.locks p l e, ap one h ∙ sym x.1, refl))
  lease_answer-Answers quota_reached t r p l quota now e h =
      elim (Bool-cases (ltb (u64 (l.acquired_time + t.lock_lease_time)) now)) [
        | inl past ↦ rw past (is_free, (record l { state = no_lock }, refl, refl, ap one h))
        | inr within ↦ rw within (is_full, (l, set-same r.lock.locks p l e, ap one h, refl))
      ]
  lease_answer-Answers force_released t r p l quota now e h =
      (is_forced, (record l { state = no_lock }, refl, refl, ap one h))
  lease_answer-Answers expired t r p l quota now e h =
      (is_free, (l, set-same r.lock.locks p l e, ap one h, refl))
  lease_answer-Answers no_lock t r p l quota now e h =
      (is_free, (l, set-same r.lock.locks p l e, ap one h, refl))
  lease_answer-Answers failed t r p l quota now e h =
      (is_free, (l, set-same r.lock.locks p l e, ap one h, refl))
  lease_answer-Answers timed_out t r p l quota now e h =
      (is_free, (l, set-same r.lock.locks p l e, ap one h, refl))
  lease_answer-Answers quota_available t r p l quota now e h =
      (is_free, (l, set-same r.lock.locks p l e, ap one h, refl))
  lease_answer-Answers release t r p l quota now e h =
      (is_free, (l, set-same r.lock.locks p l e, ap one h, refl))
  lease_answer-Answers retry t r p l quota now e h =
      (is_free, (l, set-same r.lock.locks p l e, ap one h, refl))

  pub has_valid_lock-Leased :
      {t : Table D} {i p h : ℕ} (quota : D) (now : ℕ)
      → Owns t i p h
      → Returns
          (has_valid_lock t i p quota now)
          λ (a, t'). Leased a × Owns t' i p (holds_after a) × Same t t'
  unfolding has_valid_lock lease_answer
  has_valid_lock-Leased {t} {i} {p} quota now o =
      let r : LockRecord D = record o.own { app = record o.own.app { last_active_ts = now } } in
      let answers = lease_answer-Answers o.lock.state t r p o.lock quota now o.placed refl in
      let a = lease_answer o.lock.state t r p o.lock quota now in
      let (l', changed, after, same) = answers.1 in
      (
        (a.0, put_record t i a.1),
        rw (o.available, o.found, o.placed) refl,
        (
          answers.0,
          rw (← after)
              (Owns-changed t i p o.own a.1 o.lock l' o.available o.found o.placed changed),
          λ q.
              (let kept = ap (at p q) same in
                omega (
                  arith,
                  kept,
                  held-changed t i p o.own a.1 o.lock l' o.available o.found o.placed changed q,
                )),
        ),
      )

  pub release_lock-Owns :
      {t : Table D} {i p h : ℕ} (seen : LeaseState)
      → holds_after seen ≡ 1
      → Owns t i p h
      → Returns
          (Lease.release_lock t i seen p)
          λ t'. Owns t' i p 0 × ((q : ℕ) → held q t'.records + at p q h ≡ held q t.records)
  unfolding Lease.release_lock released_lock
  release_lock-Owns {t} {i} {p} seen e o =
      let l' = released_lock seen o.lock in
      let r' = released_record seen o.own p o.lock in
      (
        put_record t i r',
        rw (o.available, o.found, o.placed) refl,
        (
          rw (← released_lock-freed seen o.lock e)
              (Owns-changed t i p o.own r' o.lock l' o.available o.found o.placed refl),
          λ q.
              (let now_free = ap (at p q) (released_lock-freed seen o.lock e) in
                let was = ap (at p q) o.holding in
                omega (
                  arith,
                  now_free,
                  was,
                  at_zero p q,
                  held-changed t i p o.own r' o.lock l' o.available o.found o.placed refl q,
                )),
        ),
      )

  pub update_lock-Owns :
      {t : Table D} {i p : ℕ} (now : ℕ)
      → Owns t i p 0
      → Returns
          (Lease.update_lock t i p now)
          λ t'. Owns t' i p 1 × ((q : ℕ) → held q t'.records ≡ held q t.records + at p q 1)
  unfolding Lease.update_lock
  update_lock-Owns {t} {i} {p} now o =
      let l' : PriorityLock = record { state = locked; acquired_time = now } in
      let r' = with_lock o.own p l' in
      (
        put_record t i r',
        rw (o.available, o.found, o.placed) refl,
        (
          Owns-changed t i p o.own r' o.lock l' o.available o.found o.placed refl,
          λ q.
              (let none_held = ap (at p q) o.holding in
                omega (
                  arith,
                  none_held,
                  at_zero p q,
                  held-changed t i p o.own r' o.lock l' o.available o.found o.placed refl q,
                )),
        ),
      )

  pub update_quota-Owns :
      {t : Table D} {i p h : ℕ} (quota : D)
      → Owns t i p h
      → Returns (Lease.update_quota t i quota) λ t'. Owns t' i p h × Same t t'
  unfolding Lease.update_quota
  update_quota-Owns {t} {i} {p} quota o =
      let r' : LockRecord D = record o.own {
        lock = record o.own.lock {
          quota_used = f.plus o.own.lock.quota_used quota;
          quota_total = f.plus o.own.lock.quota_total quota;
        };
      } in
      let changed = set-same o.own.lock.locks p o.lock o.placed in
      (
        put_record t i r',
        rw (o.available, o.found) refl,
        (
          rw (← o.holding)
              (Owns-changed t i p o.own r' o.lock o.lock o.available o.found o.placed changed),
          λ q. omega (
            arith,
            held-changed t i p o.own r' o.lock o.lock o.available o.found o.placed changed q,
          ),
        ),
      )

  pub reset_quota-Owns :
      {t : Table D} {i p h : ℕ}
      → Owns t i p h
      → Returns (Lease.reset_quota t i) λ t'. Owns t' i p h × Same t t'
  unfolding Lease.reset_quota
  reset_quota-Owns {t} {i} {p} o =
      let r' : LockRecord D = with_used o.own f.zero_quota in
      let changed = set-same o.own.lock.locks p o.lock o.placed in
      (
        put_record t i r',
        rw (o.available, o.found) refl,
        (
          rw (← o.holding)
              (Owns-changed t i p o.own r' o.lock o.lock o.available o.found o.placed changed),
          λ q. omega (
            arith,
            held-changed t i p o.own r' o.lock o.lock o.available o.found o.placed changed q,
          ),
        ),
      )
