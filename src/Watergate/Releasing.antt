-- ===== src/Watergate/Releasing.antt =====
-- control.cpp: `release_lock` and `release_lock_base` keep the permits of every priority, and answer true only when the
-- record of the process no longer holds the lock.
use react_fs.Prelude.{
  ℕ, ◌≤◌, ◌<◌, ◌≡◌, refl, Bool, true, false, some, arith, Returns, lt→ltb, ◌==◌, Bool-cases, inl,
  inr, set,
}
use react_fs.Prelude.Texts.{Text}
use react_fs.Prelude.Maps.{lookup}
use react_fs.Watergate.{
  Double, LeaseState, locked, quota_reached, force_released, expired, no_lock, release, failed,
  retry, timed_out, quota_available,
}
use react_fs.Watergate.Semaphore.{
  Semaphore, ThreadRecord, Client, forget_locks, with_thread, no_lock_id, count_at, in_sync, synced,
}
use react_fs.Watergate.Locks.{
  forget_base, one_less, release_last, release_held, release_answer, release_from, release_lock,
  release_lock_base,
}
use react_fs.Watergate.Held.{Owns-le-held, holds_after}
use react_fs.Watergate.Held.Leases.{has_valid_lock-Leased, release_lock-Owns, reset_quota-Owns}
use react_fs.Watergate.Permits.{Counting, value_at, permits, Ready, Balanced, post_at-Ready}
use react_fs.Watergate.Trying.{reset_locks-Ready, reset-Balanced}

module _ {D S : Type 0} ⦃f : Double D⦄ ⦃m : Semaphore S⦄ (k : Counting m) where
  -- What a release may leave: balanced permits, and the lock given up where it answers true.
  abbrev pub Released : Client D S → ℕ → Bool × Client D S → Type 0
  Released c p (gone, c') = Balanced k c c' × ((h : ℕ) × Ready k c' p h × (gone ≡ true → h ≡ 0))

  release_last-Released :
      {c : Client D S} {p : ℕ} (thread : Text)
      → Ready k c p 1
      → permits k c p ≤ k.limit
      → Returns (release_last c thread p) (Released c p)
  unfolding release_last with_thread
  release_last-Released {c} {p} thread r room =
      let c1 : Client D S =
        with_thread c thread
          (λ t. record t { priority_lock_index = set t.priority_lock_index p no_lock_id }) in
      let r1 : Ready k c1 p 1 = record {
        owns = r.owns;
        semaphore = r.semaphore;
        there = r.there;
      } in
      let below : value_at k c.semaphores p < k.limit = omega (arith, room, Owns-le-held r.owns) in
      let (c2, e, (r2, gained)) = post_at-Ready k r1 below in
      let (t, te, (o, lost)) = release_lock-Owns locked refl r2.owns in
      (
        (true, record c2 { table = t }),
        rw (e, te) refl,
        (
          λ q. omega (arith, gained q, lost q),
          (0, record { owns = o; semaphore = r2.semaphore; there = r2.there }, λ _. refl),
        ),
      )

  release_held-Released :
      {c : Client D S} {p : ℕ} (thread : Text)
      → Ready k c p 1
      → permits k c p ≤ k.limit
      → Returns (release_held c thread p) (Released c p)
  unfolding release_held one_less with_thread
  release_held-Released {c} {p} thread r room =
      let r' : Ready k (one_less c thread p) p 1 = record {
        owns = r.owns;
        semaphore = r.semaphore;
        there = r.there;
      } in
      elim (Bool-cases ((count_at (one_less c thread p) p).count == 0)) [
        | inl last ↦ rw last (release_last-Released {c = one_less c thread p} thread r' room)
        | inr more ↦
            rw more ((false, one_less c thread p), refl, (λ q. refl, (1, r', λ e. absurd (cc))))
      ]

  release_answer-Released :
      {c : Client D S} {p : ℕ} (a : LeaseState) (thread : Text) (base : Bool)
      → Ready k c p (holds_after a)
      → permits k c p ≤ k.limit
      → Returns (release_answer a c thread p base) (Released c p)
  unfolding release_answer forget_locks forget_base
  release_answer-Released locked thread base r room = release_held-Released thread r room
  release_answer-Released {c} {p} expired thread base r room =
      let (c', e, (r', b)) = reset_locks-Ready k expired refl r (omega (arith, room)) in
      ((true, c'), rw e refl, (reset-Balanced k c c' p b, (0, r', λ _. refl)))
  release_answer-Released {c} {p} force_released thread true r room =
      let (t, e, (o, same)) = reset_quota-Owns r.owns in
      (
        (false, record (forget_locks c p) { table = t }),
        rw e refl,
        (
          λ q. omega (arith, same q),
          (0, record { owns = o; semaphore = r.semaphore; there = r.there }, λ _. refl),
        ),
      )
  release_answer-Released {c} {p} force_released thread false r room = (
    (false, forget_locks c p),
    refl,
    (λ q. refl, (0, record { owns = r.owns; semaphore = r.semaphore; there = r.there }, λ _. refl)),
  )
  release_answer-Released {c} release thread base r room =
      ((false, c), refl, (λ q. refl, (1, r, λ e. absurd (cc))))
  release_answer-Released {c} quota_reached thread base r room =
      ((false, c), refl, (λ q. refl, (0, r, λ e. absurd (cc))))
  release_answer-Released {c} no_lock thread base r room =
      ((false, c), refl, (λ q. refl, (0, r, λ e. absurd (cc))))
  release_answer-Released {c} failed thread base r room =
      ((false, c), refl, (λ q. refl, (0, r, λ e. absurd (cc))))
  release_answer-Released {c} timed_out thread base r room =
      ((false, c), refl, (λ q. refl, (0, r, λ e. absurd (cc))))
  release_answer-Released {c} quota_available thread base r room =
      ((false, c), refl, (λ q. refl, (0, r, λ e. absurd (cc))))
  release_answer-Released {c} retry thread base r room =
      ((false, c), refl, (λ q. refl, (0, r, λ e. absurd (cc))))

  release_from-Released :
      {c : Client D S} {p h : ℕ} (thread : Text) (t : ThreadRecord) (base : Bool) (now : ℕ)
      → lookup thread c.threads ≡ some t
      → Ready k c p h
      → permits k c p ≤ k.limit
      → Returns (release_from c thread p base now) (Released c p)
  unfolding release_from with_thread
  release_from-Released {c} {p} {h} thread t base now ht r room =
      let ((a, table), e, (l, o, same)) = has_valid_lock-Leased f.zero_quota now r.owns in
      let c' : Client D S = record c { table = table } in
      let r' : Ready k c' p (holds_after a) = record {
        owns = o;
        semaphore = r.semaphore;
        there = r.there;
      } in
      let room' : permits k c' p ≤ k.limit = omega (arith, room, same p) in
      let (x, e', (b, after)) = release_answer-Released a thread base r' room' in
      let apart : Client D S = with_thread c thread (λ t. synced c t p) in
      elim (Bool-cases (in_sync c t p)) [
        | inl s ↦ rw (ht, s, e) (x, e', (λ q. omega (arith, b q, same q), after))
        | inr s ↦
            rw (ht, s)
              (
                (false, apart),
                refl,
                (
                  λ q. refl,
                  (
                    h,
                    record { owns = r.owns; semaphore = r.semaphore; there = r.there },
                    λ e. absurd (cc),
                  ),
                ),
              )
      ]

  -- `release_lock` by a registered thread, of a process whose lock record and semaphore of the priority are there,
  -- with at most SEM_VALUE_MAX permits: it returns, the permits of every priority are as many as before, and where it
  -- answers true the record no longer holds the lock.
  pub release_lock-Released :
      {c : Client D S} {p h : ℕ} (thread : Text) (t : ThreadRecord) (base now : ℕ)
      → p < c.priorities
      → base < c.priorities
      → lookup thread c.threads ≡ some t
      → Ready k c p h
      → permits k c p ≤ k.limit
      → Returns (release_lock c thread p base now) (Released c p)
  unfolding release_lock
  release_lock-Released {c} {p} thread t base now hp hb ht r room =
      rw (lt→ltb p c.priorities hp, lt→ltb base c.priorities hb)
        (release_from-Released thread t false now ht r room)

  -- The same of `release_lock_base`.
  pub release_lock_base-Released :
      {c : Client D S} {h : ℕ} (thread : Text) (t : ThreadRecord) (base now : ℕ)
      → base < c.priorities
      → lookup thread c.threads ≡ some t
      → Ready k c 0 h
      → permits k c 0 ≤ k.limit
      → Returns (release_lock_base c thread base now) (Released c 0)
  unfolding release_lock_base
  release_lock_base-Released {c} thread t base now hb ht r room =
      rw (lt→ltb base c.priorities hb) (release_from-Released thread t true now ht r room)
