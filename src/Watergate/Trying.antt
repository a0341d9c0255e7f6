-- ===== src/Watergate/Trying.antt =====
-- control.cpp: `try_lock` and `try_lock_base` keep the permits of every priority, and answer locked exactly when the record
-- of the process holds the lock.
use react_fs.Prelude.{
  ℕ, ◌+◌, ◌≤◌, ◌<◌, ◌≡◌, refl, ◌∙◌, Bool, true, false, some, arith, ok, Returns, Result, lt→ltb,
  if◌then◌else◌,
}
use react_fs.Prelude.Texts.{Text}
use react_fs.Prelude.Maps.{lookup}
use react_fs.Watergate.{
  Double, LeaseState, locked, quota_reached, force_released, expired, no_lock, release, failed,
  retry, timed_out, quota_available, Table,
}
use react_fs.Watergate.Lease.{check_and_lock, settle}
use react_fs.Watergate.Semaphore.{
  Answer, done, again, broken, Semaphore, ThreadRecord, Client, forget_locks, reset_locks,
  take_lock, take_base, taken, wait_at, synced, with_thread,
}
use react_fs.Watergate.Locks.{try_answer, try_lock, forget_base, base_answer, try_lock_base}
use react_fs.Watergate.Held.{one, held, at, at_self, at_zero, Owns, holds_after}
use react_fs.Watergate.Held.Leases.{
  has_valid_lock-Leased, release_lock-Owns, update_lock-Owns, update_quota-Owns, reset_quota-Owns,
}
use react_fs.Watergate.Permits.{
  Counting, got, value_at, permits, Ready, Balanced, post_at-Ready, wait_at-Ready,
}

-- What `check_and_lock` leaves of the lock of the base priority, and the permit that it has taken from the record.
abbrev settled : LeaseState → ℕ
settled locked = 1
settled release = 1
settled _ = 0

abbrev owed : LeaseState → ℕ
owed expired = 1
owed _ = 0

refused : (wait : Bool) → one (if wait then failed else retry) ≡ 0
refused true = refl
refused false = refl

module _ {D S : Type 0} ⦃f : Double D⦄ ⦃m : Semaphore S⦄ (k : Counting m) where
  -- What a call of `try_lock` may leave: balanced permits, and an answer that says what the record holds.
  abbrev pub Tried : Client D S → ℕ → LeaseState × Client D S → Type 0
  Tried c p (a, c') = Ready k c' p (one a) × Balanced k c c'

  pub reset_locks-Ready :
      {c : Client D S} {p h : ℕ} (seen : LeaseState)
      → holds_after seen ≡ 1
      → Ready k c p h
      → permits k c p < k.limit + h
      → Returns
          (reset_locks c p seen)
          λ c'. Ready k c' p 0 × ((q : ℕ) → permits k c' q + at p q h ≡ permits k c q + at p q 1)
  unfolding reset_locks forget_locks
  reset_locks-Ready {c} {p} {h} seen e r room =
      let (t, te, (o, lost)) = release_lock-Owns seen e r.owns in
      let c' : Client D S = record (forget_locks c p) { table = t } in
      let r' : Ready k c' p 0 = record { owns = o; semaphore = r.semaphore; there = r.there } in
      let room' : value_at k c.semaphores p < k.limit = omega (arith, room, lost p, at_self p h) in
      let (c'', pe, (r'', gained)) = post_at-Ready k r' room' in
      (c'', rw te pe, (r'', λ q. omega (arith, gained q, lost q)))

  -- The wait for the semaphore has given an answer.
  module _ (c : Client D S) {c' : Client D S} {p : ℕ} (thread : Text) (wait : Bool) (now : ℕ)
      (r : Ready k c' p 0) where
    take_lock-of_Answer :
        (a : Answer)
        → wait_at c p wait ≡ ok (a, c')
        → ((q : ℕ) → permits k c' q + at p q (got a) ≡ permits k c q)
        → Returns (take_lock c thread p wait now) (Tried c p)
    unfolding take_lock taken with_thread
    take_lock-of_Answer done e fell =
        let (t, te, (o, taken_too)) = update_lock-Owns now r.owns in
        (
          (locked, record (taken c' thread p now) { table = t }),
          rw (e, te) refl,
          (
            record { owns = o; semaphore = r.semaphore; there = r.there },
            λ q. omega (arith, fell q, taken_too q),
          ),
        )
    take_lock-of_Answer again e fell = (
      (if wait then failed else retry, c'),
      rw e refl,
      (rw (refused wait) r, λ q. omega (arith, fell q, at_zero p q)),
    )
    take_lock-of_Answer broken e fell = (
      (if wait then failed else retry, c'),
      rw e refl,
      (rw (refused wait) r, λ q. omega (arith, fell q, at_zero p q)),
    )

  take_lock-Tried :
      {c : Client D S} {p : ℕ} (thread : Text) (wait : Bool) (now : ℕ)
      → Ready k c p 0
      → Returns (take_lock c thread p wait now) (Tried c p)
  take_lock-Tried {c} {p} thread wait now r =
      let (w, we, (r', fell)) = wait_at-Ready k wait r in
      take_lock-of_Answer c thread wait now r' w.0 we fell

  module _ (c : Client D S) {c' : Client D S} (thread : Text) (quota : D) (wait : Bool) (now : ℕ)
      (r : Ready k c' 0 0) where
    take_base-of_Answer :
        (a : Answer)
        → wait_at c 0 wait ≡ ok (a, c')
        → ((q : ℕ) → permits k c' q + at 0 q (got a) ≡ permits k c q)
        → Returns (take_base c thread quota wait now) (Tried c 0)
    unfolding take_base taken with_thread
    take_base-of_Answer done e fell =
        let (t, te, (o, taken_too)) = update_lock-Owns now r.owns in
        let (t', te', (o', same')) = reset_quota-Owns o in
        let (t'', te'', (o'', same'')) = update_quota-Owns quota o' in
        (
          (locked, record (taken c' thread 0 now) { table = t'' }),
          rw (e, te, te', te'') refl,
          (
            record { owns = o''; semaphore = r.semaphore; there = r.there },
            λ q. omega (arith, fell q, taken_too q, same' q, same'' q),
          ),
        )
    take_base-of_Answer again e fell =
        ((timed_out, c'), rw e refl, (r, λ q. omega (arith, fell q, at_zero 0 q)))
    take_base-of_Answer broken e fell = (
      (if wait then failed else retry, c'),
      rw e refl,
      (rw (refused wait) r, λ q. omega (arith, fell q, at_zero 0 q)),
    )

  take_base-Tried :
      {c : Client D S} (thread : Text) (quota : D) (wait : Bool) (now : ℕ)
      → Ready k c 0 0
      → Returns (take_base c thread quota wait now) (Tried c 0)
  take_base-Tried {c} thread quota wait now r =
      let (w, we, (r', fell)) = wait_at-Ready k wait r in
      take_base-of_Answer c thread quota wait now r' w.0 we fell

  -- A step that keeps the permits, and then a try.
  after-Balanced :
      (c c' : Client D S) (p : ℕ) {action : Result (LeaseState × Client D S)}
      → Balanced k c c'
      → Returns action (Tried c' p)
      → Returns action (Tried c p)
  after-Balanced c c' p b (x, e, (r, b')) = (x, e, (r, λ q. b' q ∙ b q))

  pub reset-Balanced :
      (c c' : Client D S) (p : ℕ)
      → ((q : ℕ) → permits k c' q + at p q 1 ≡ permits k c q + at p q 1)
      → Balanced k c c'
  reset-Balanced c c' p e q = omega (arith, e q)

  try_answer-Tried :
      {c : Client D S} {p : ℕ} (a : LeaseState) (thread : Text) (wait : Bool) (now : ℕ)
      → Ready k c p (holds_after a)
      → permits k c p ≤ k.limit
      → Returns (try_answer a c thread p wait now) (Tried c p)
  unfolding try_answer taken with_thread forget_locks
  try_answer-Tried {c} {p} locked thread wait now r room = (
    (locked, taken c thread p now),
    refl,
    (record { owns = r.owns; semaphore = r.semaphore; there = r.there }, λ q. refl),
  )
  try_answer-Tried {c} {p} expired thread wait now r room =
      let (c', e, (r', b)) = reset_locks-Ready expired refl r (omega (arith, room)) in
      rw e (after-Balanced c c' p (reset-Balanced c c' p b) (take_lock-Tried thread wait now r'))
  try_answer-Tried {c} {p} release thread wait now r room =
      let (c', e, (r', b)) = reset_locks-Ready release refl r (omega (arith, room)) in
      ((quota_reached, c'), rw e refl, (r', reset-Balanced c c' p b))
  try_answer-Tried {c} quota_reached thread wait now r room =
      ((quota_reached, c), refl, (r, λ q. refl))
  try_answer-Tried {c} {p} force_released thread wait now r room =
      after-Balanced c (forget_locks c p) p (λ q. refl)
        (take_lock-Tried {c = forget_locks c p} thread wait now
          (record { owns = r.owns; semaphore = r.semaphore; there = r.there }))
  try_answer-Tried no_lock thread wait now r room = take_lock-Tried thread wait now r
  try_answer-Tried failed thread wait now r room = take_lock-Tried thread wait now r
  try_answer-Tried timed_out thread wait now r room = take_lock-Tried thread wait now r
  try_answer-Tried quota_available thread wait now r room = take_lock-Tried thread wait now r
  try_answer-Tried retry thread wait now r room = take_lock-Tried thread wait now r

  settle-Owns :
      {t : Table D} {i : ℕ} (a : LeaseState) (quota : D)
      → Owns t i 0 (holds_after a)
      → Returns (settle a t i quota) λ t'.
        Owns t' i 0 (settled a) × ((q : ℕ) → held q t'.records + at 0 q (owed a) ≡ held q t.records)
  unfolding settle
  settle-Owns locked quota o =
      let (t', e, (o', same)) = update_quota-Owns quota o in
      (t', e, (o', λ q. omega (arith, same q, at_zero 0 q)))
  settle-Owns expired quota o = release_lock-Owns expired refl o
  settle-Owns {t} release quota o = (t, refl, (o, λ q. omega (arith, at_zero 0 q)))
  settle-Owns {t} quota_reached quota o = (t, refl, (o, λ q. omega (arith, at_zero 0 q)))
  settle-Owns {t} force_released quota o = (t, refl, (o, λ q. omega (arith, at_zero 0 q)))
  settle-Owns {t} no_lock quota o = (t, refl, (o, λ q. omega (arith, at_zero 0 q)))
  settle-Owns {t} failed quota o = (t, refl, (o, λ q. omega (arith, at_zero 0 q)))
  settle-Owns {t} timed_out quota o = (t, refl, (o, λ q. omega (arith, at_zero 0 q)))
  settle-Owns {t} quota_available quota o = (t, refl, (o, λ q. omega (arith, at_zero 0 q)))
  settle-Owns {t} retry quota o = (t, refl, (o, λ q. omega (arith, at_zero 0 q)))

  -- The call pays back what `check_and_lock` has taken from a record and not yet given to the semaphore.
  abbrev Paid : Client D S → ℕ → LeaseState × Client D S → Type 0
  Paid c n (x, c') = Ready k c' 0 (one x) × ((q : ℕ) → permits k c' q ≡ permits k c q + at 0 q n)

  Paid-of_Tried :
      (c c' : Client D S) (n : ℕ) {action : Result (LeaseState × Client D S)}
      → ((q : ℕ) → permits k c' q ≡ permits k c q + at 0 q n)
      → Returns action (Tried c' 0)
      → Returns action (Paid c n)
  Paid-of_Tried c c' n b (x, e, (r, b')) = (x, e, (r, λ q. b' q ∙ b q))

  base_answer-Paid :
      {c : Client D S} (a : LeaseState) (thread : Text) (quota : D) (wait : Bool) (now : ℕ)
      → Ready k c 0 (settled a)
      → permits k c 0 + owed a ≤ k.limit
      → Returns (base_answer a c thread quota wait now) (Paid c (owed a))
  unfolding base_answer taken with_thread forget_locks forget_base
  base_answer-Paid {c} locked thread quota wait now r room = (
    (locked, taken c thread 0 now),
    refl,
    (
      record { owns = r.owns; semaphore = r.semaphore; there = r.there },
      λ q. omega (arith, at_zero 0 q),
    ),
  )
  base_answer-Paid {c} expired thread quota wait now r room =
      let (c', e, (r', b)) = reset_locks-Ready expired refl r (omega (arith, room)) in
      rw e (
        Paid-of_Tried c c' 1 (λ q. omega (arith, b q, at_zero 0 q))
          (take_base-Tried thread quota wait now r'))
  base_answer-Paid release thread quota wait now r room =
      let (c', e, (r', b)) = reset_locks-Ready release refl r (omega (arith, room)) in
      ((quota_reached, c'), rw e refl, (r', λ q. omega (arith, b q, at_zero 0 q)))
  base_answer-Paid {c} quota_reached thread quota wait now r room =
      ((quota_reached, c), refl, (r, λ q. omega (arith, at_zero 0 q)))
  base_answer-Paid {c} force_released thread quota wait now r room =
      let (t, e, (o, same)) = reset_quota-Owns r.owns in
      let c' : Client D S = record (forget_locks c 0) { table = t } in
      rw e (
        Paid-of_Tried c c' 0 (λ q. omega (arith, same q, at_zero 0 q))
          (take_base-Tried thread quota wait now
            (record { owns = o; semaphore = r.semaphore; there = r.there })))
  base_answer-Paid {c} no_lock thread quota wait now r room =
      Paid-of_Tried c c 0 (λ q. omega (arith, at_zero 0 q))
        (take_base-Tried thread quota wait now r)
  base_answer-Paid {c} failed thread quota wait now r room =
      Paid-of_Tried c c 0 (λ q. omega (arith, at_zero 0 q))
        (take_base-Tried thread quota wait now r)
  base_answer-Paid {c} timed_out thread quota wait now r room =
      Paid-of_Tried c c 0 (λ q. omega (arith, at_zero 0 q))
        (take_base-Tried thread quota wait now r)
  base_answer-Paid {c} quota_available thread quota wait now r room =
      Paid-of_Tried c c 0 (λ q. omega (arith, at_zero 0 q))
        (take_base-Tried thread quota wait now r)
  base_answer-Paid {c} retry thread quota wait now r room =
      Paid-of_Tried c c 0 (λ q. omega (arith, at_zero 0 q))
        (take_base-Tried thread quota wait now r)

  -- `try_lock` by a registered thread, of a process whose lock record and semaphore of the priority are there, with
  -- at most SEM_VALUE_MAX permits (the value of the semaphore and the records that hold the lock, together): it
  -- returns, the permits of every priority are as many as before, and the answer is Locked exactly when the record
  -- holds the lock afterwards. So it is on every branch: a new lock, one that the process has, an expired, exhausted
  -- or taken one, and a failed wait.
  pub try_lock-Tried :
      {c : Client D S} {p h : ℕ} (thread : Text) (t : ThreadRecord) (quota : D) (base : ℕ)
      (wait : Bool) (now : ℕ)
      → p < c.priorities
      → base < c.priorities
      → lookup thread c.threads ≡ some t
      → Ready k c p h
      → permits k c p ≤ k.limit
      → Returns (try_lock c thread p quota base wait now) (Tried c p)
  unfolding try_lock with_thread
  try_lock-Tried {c} {p} thread t quota base wait now hp hb ht r room =
      let ((a, table), e, (l, o, same)) = has_valid_lock-Leased quota now r.owns in
      let c' : Client D S = record (with_thread c thread (λ t. synced c t p)) { table = table } in
      let r' : Ready k c' p (holds_after a) = record {
        owns = o;
        semaphore = r.semaphore;
        there = r.there;
      } in
      let room' : permits k c' p ≤ k.limit = omega (arith, room, same p) in
      rw (lt→ltb p c.priorities hp, lt→ltb base c.priorities hb, ht, e)
        (after-Balanced c c' p (λ q. omega (arith, same q))
          (try_answer-Tried a thread wait now r' room'))

  -- The same of `try_lock_base`: by a registered thread, with the record and the semaphore of the base priority there
  -- and at most SEM_VALUE_MAX permits of it, it returns, keeps the permits of every priority, and answers Locked
  -- exactly when the record holds the base lock afterwards.
  pub try_lock_base-Tried :
      {c : Client D S} {h : ℕ} (thread : Text) (t : ThreadRecord) (quota : D) (base : ℕ)
      (wait : Bool) (now : ℕ)
      → base < c.priorities
      → lookup thread c.threads ≡ some t
      → Ready k c 0 h
      → permits k c 0 ≤ k.limit
      → Returns (try_lock_base c thread quota base wait now) (Tried c 0)
  unfolding try_lock_base with_thread check_and_lock
  try_lock_base-Tried {c} thread t quota base wait now hb ht r room =
      let ((a, table), e, (l, o, same)) = has_valid_lock-Leased quota now r.owns in
      let (table', e', (o', less)) = settle-Owns a quota o in
      let c' : Client D S = record (with_thread c thread (λ t. synced c t 0)) { table = table' } in
      let r' : Ready k c' 0 (settled a) = record {
        owns = o';
        semaphore = r.semaphore;
        there = r.there;
      } in
      let room' : permits k c' 0 + owed a ≤ k.limit =
        omega (arith, room, same 0, less 0, at_self 0 (owed a)) in
      let (x, e'', (r'', paid)) = base_answer-Paid a thread quota wait now r' room' in
      rw (lt→ltb base c.priorities hb, ht, e, e')
        (x, e'', (r'', λ q. omega (arith, paid q, same q, less q)))
