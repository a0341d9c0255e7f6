-- ===== src/Watergate/Asking.antt =====
-- control_def.h and control_def.cpp: what `lock_get` and `lock` have done where they answer.
use react_fs.Prelude.{
  ℕ, suc, ◌-◌, ◌≡◌, refl, sym, ap, ◌∙◌, Bool, true, false, not, ◌&&◌, Option, none, some, List, [],
  ◌∷◌, ok, Result, >>=-ok, guard-ok, ltb, ◌>>=◌, Bool-cases, inl, inr, get_elem?, if◌then◌else◌,
  unavailable,
}
use react_fs.Instance.{is_available}
use react_fs.Watergate.{
  Double, LeaseState, locked, quota_reached, force_released, expired, no_lock, failed, timed_out,
  quota_available, release, retry, is_locked,
}
use react_fs.Watergate.Lease.{is_base}
use react_fs.Watergate.Semaphore.{Semaphore, Client, update_metrics}
use react_fs.Watergate.Control.{
  Control, Request, Round, Climb, own_client, put_client, wait_lock, release_lock, release_all,
  climb, finish, after_wait, answered, lock_get,
}
use react_fs.Watergate.Control.Lock.{Call, as_timeout, asks_again, lock_loop, lock}
use react_fs.Watergate.Climbing.{Descent, climb-Descent}

module _ {D S : Type 0} ⦃f : Double D⦄ ⦃m : Semaphore S⦄ (timeout : ℕ) (q : Request D) where
  -- A call of `lock_get` in which `wait_lock` takes the lock of the priority and then the locks of all lower priorities
  -- are taken; after that only the metrics of the thread change.
  pub record Grants (x : Call D S) (c c' : Control D S) : Type 0 where
    pub first : Control D S
    pub last : Control D S
    pub client : Client D S
    pub waited : wait_lock (x.others c) q q.priority x.now ≡ ok (locked, first)
    pub descent : Descent timeout q x.rounds q.priority first last
    pub mine : own_client last q.name ≡ ok client
    pub measured :
        c' ≡ put_client last q.name (update_metrics client q.thread q.priority x.lock_time)

  -- The locks of all lower priorities are taken, and then the metrics change.
  Finishes : List (Round D S) → Control D S → ℕ → Control D S → Type 0
  Finishes rounds c lock_time c' =
      (last : Control D S) × (k : Client D S) × Descent timeout q rounds q.priority c last
      × (own_client last q.name ≡ ok k)
      × (c' ≡ put_client last q.name (update_metrics k q.thread q.priority lock_time))

  parts :
      (a a' : LeaseState) (d d' : Control D S)
      → ◌≡◌ {A = Result (LeaseState × Control D S)} (ok (a, d)) (ok (a', d'))
      → (a ≡ a') × (d ≡ d')
  parts a a' d d' e = (cc, cc)

  kept-of_locked :
      (y : Climb D S) (r : Bool × Control D S)
      → ◌≡◌ {A = Result (Bool × Control D S)} (ok (true, y.control)) (ok r)
      → r.1 ≡ y.control
  kept-of_locked y r e = let same : (true, y.control) ≡ r = cc in ap (λ x. x.1) (sym same)

  finish-Finishes :
      (rounds : List (Round D S)) (c : Control D S) (now lock_time : ℕ) (y : Climb D S)
      (c' : Control D S)
      → climb rounds timeout q.priority c q ≡ ok (some y)
      → finish y q now lock_time ≡ ok (locked, c')
      → Finishes rounds c lock_time c'
  unfolding finish Finishes
  finish-Finishes rounds c now lock_time y c' e e' =
      let (r, e1, e2) =
        >>=-ok
          (if is_locked y.answer
            then ok (true, y.control)
            else release_all (suc q.priority - y.locked_priority) q.priority y.control q now)
          _ (locked, c') e' in
      let (k, e3, e4) = >>=-ok (own_client r.1 q.name) _ (locked, c') e2 in
      let (l, measured) =
        parts y.answer locked
          (put_client r.1 q.name (update_metrics k q.thread q.priority lock_time)) c' e4 in
      let on : is_locked y.answer ≡ true = rw l refl in
      let kept = kept-of_locked y r (rw on at e1) in
      (
        y.control,
        k,
        climb-Descent timeout q rounds q.priority c y on e,
        rw (← kept) e3,
        sym measured
            ∙ ap (λ d. put_client d q.name (update_metrics k q.thread q.priority lock_time)) kept,
      )

  climbed-Finishes :
      (rounds : List (Round D S)) (c : Control D S) (now lock_time : ℕ) (x : Option (Climb D S))
      (c' : Control D S)
      → climb rounds timeout q.priority c q ≡ ok x
      → elim x [ none ↦ ok none | some y ↦ finish y q now lock_time >>= λ z. ok (some z) ]
        ≡ ok (some (locked, c'))
      → Finishes rounds c lock_time c'
  climbed-Finishes rounds c now lock_time none c' e e' = absurd cc
  climbed-Finishes rounds c now lock_time (some y) c' e e' =
      let (z, e1, e2) = >>=-ok (finish y q now lock_time) _ (some (locked, c')) e' in
      finish-Finishes rounds c now lock_time y c' e cc

  after_wait-Finishes :
      (rounds : List (Round D S)) (elapsed : ℕ) (c : Control D S) (now lock_time : ℕ)
      (c' : Control D S)
      → after_wait rounds timeout elapsed c q now lock_time ≡ ok (some (locked, c'))
      → Finishes rounds c lock_time c'
  unfolding after_wait
  after_wait-Finishes rounds elapsed c now lock_time c' e =
      elim (Bool-cases (ltb timeout elapsed && not (is_base q.priority))) [
        | inl h ↦
            (let (r, _, e') =
                >>=-ok (release_lock c q q.priority now) _ (some (locked, c'))
                  (rw (after_wait, h) at e) in
              absurd cc)
        | inr h ↦
            (let (x, e1, e2) =
                >>=-ok (climb rounds timeout q.priority c q) _ (some (locked, c'))
                  (rw (after_wait, h) at e) in
              climbed-Finishes rounds c now lock_time x c' e1 e2)
      ]

  answered-Finishes :
      (rounds : List (Round D S)) (elapsed : ℕ) (a : LeaseState) (c : Control D S)
      (now lock_time : ℕ) (c' : Control D S)
      → answered rounds timeout elapsed a c q now lock_time ≡ ok (some (locked, c'))
      → (a ≡ locked) × Finishes rounds c lock_time c'
  unfolding answered
  answered-Finishes rounds elapsed locked c now lock_time c' e =
      (refl, after_wait-Finishes rounds elapsed c now lock_time c' e)
  answered-Finishes rounds elapsed failed c now lock_time c' e = absurd cc
  answered-Finishes rounds elapsed quota_reached c now lock_time c' e = absurd cc
  answered-Finishes rounds elapsed force_released c now lock_time c' e = absurd cc
  answered-Finishes rounds elapsed expired c now lock_time c' e = absurd cc
  answered-Finishes rounds elapsed no_lock c now lock_time c' e = absurd cc
  answered-Finishes rounds elapsed timed_out c now lock_time c' e = absurd cc
  answered-Finishes rounds elapsed quota_available c now lock_time c' e = absurd cc
  answered-Finishes rounds elapsed release c now lock_time c' e = absurd cc
  answered-Finishes rounds elapsed retry c now lock_time c' e = absurd cc

  pub lock_get-Grants :
      (x : Call D S) (c c' : Control D S)
      → lock_get x.rounds timeout x.elapsed (x.others c) q x.now x.lock_time
        ≡ ok (some (locked, c'))
      → Grants x c c'
  unfolding lock_get Finishes
  lock_get-Grants x c c' e =
      let (r, e1, e2) =
        >>=-ok (wait_lock (x.others c) q q.priority x.now) _ (some (locked, c')) e in
      let (l, (last, k, descent, mine, measured)) =
        answered-Finishes x.rounds x.elapsed r.0 r.1 x.now x.lock_time c' e2 in
      record {
        first = r.1;
        last = last;
        client = k;
        waited = cc;
        descent = descent;
        mine = mine;
        measured = measured;
      }

module _ {D S : Type 0} ⦃f : Double D⦄ ⦃m : Semaphore S⦄ (timeout : ℕ) (q : Request D) where
  -- What `lock` may answer: nothing on which it asks again, and Locked only where one of its calls of `lock_get` has
  -- taken all the locks.
  pub record Answers (calls : List (Call D S)) (a : LeaseState) (c' : Control D S) : Type 0 where
    pub settled : asks_again a ≡ false
    pub granted :
        a ≡ locked
        → (i : ℕ) × (x : Call D S) × (c : Control D S) × (get_elem? calls i ≡ some x)
          × Grants (as_timeout timeout) q x c c'

  later :
      (x : Call D S) (xs : List (Call D S)) (a : LeaseState) (c' : Control D S)
      → Answers xs a c'
      → Answers (x ∷ xs) a c'
  later x xs a c' h = record {
    settled = h.settled;
    granted = λ l. let (i, y, c, e, g) = h.granted l in (suc i, y, c, e, g);
  }

  pass-Answers :
      (x : Call D S) (xs : List (Call D S)) (c : Control D S) (r : LeaseState × Control D S)
      (a : LeaseState) (c' : Control D S)
      → lock_get x.rounds (as_timeout timeout) x.elapsed (x.others c) q x.now x.lock_time
        ≡ ok (some r)
      → (if asks_again r.0
          then (if ltb timeout x.waited && not (is_base q.priority)
              then ok (some (timed_out, r.1))
              else lock_loop xs timeout r.1 q)
          else ok (some r))
        ≡ ok (some (a, c'))
      → (lock_loop xs timeout r.1 q ≡ ok (some (a, c')) → Answers xs a c')
      → Answers (x ∷ xs) a c'
  pass-Answers x xs c r a c' e e' rest = elim (Bool-cases (asks_again r.0)) [
    | inr h ↦
        (let out : ok (some r) ≡ ok (some (a, c')) = rw h at e' in
          let same : r ≡ (a, c') = cc in
          record {
            settled = cc;
            granted = λ l. (0, x, c, refl, lock_get-Grants (as_timeout timeout) q x c c' cc);
          })
    | inl h ↦ (elim (Bool-cases (ltb timeout x.waited && not (is_base q.priority))) [
      | inl over ↦
          (let out : ok (some (timed_out, r.1)) ≡ ok (some (a, c')) = rw (h, over) at e' in
            let same : a ≡ timed_out = cc in
            record { settled = rw same refl; granted = λ l. absurd cc })
      | inr within ↦ later x xs a c' (rest (rw (h, within) at e'))
    ])
  ]

  of_answer :
      (x : Call D S) (xs : List (Call D S)) (c : Control D S)
      (o : Option (LeaseState × Control D S)) (a : LeaseState) (c' : Control D S)
      → lock_get x.rounds (as_timeout timeout) x.elapsed (x.others c) q x.now x.lock_time ≡ ok o
      → elim o [
        | none ↦ ok none
        | some r ↦
            if asks_again r.0
            then (if ltb timeout x.waited && not (is_base q.priority)
                then ok (some (timed_out, r.1))
                else lock_loop xs timeout r.1 q)
            else ok (some r)
      ]
        ≡ ok (some (a, c'))
      → ((d : Control D S) → lock_loop xs timeout d q ≡ ok (some (a, c')) → Answers xs a c')
      → Answers (x ∷ xs) a c'
  of_answer x xs c none a c' e1 e2 rest = absurd cc
  of_answer x xs c (some r) a c' e1 e2 rest = pass-Answers x xs c r a c' e1 e2 (rest r.1)

  loop-Answers :
      (calls : List (Call D S)) (c : Control D S) (a : LeaseState) (c' : Control D S)
      → lock_loop calls timeout c q ≡ ok (some (a, c'))
      → Answers calls a c'
  unfolding lock_loop
  loop-Answers [] c a c' e = absurd cc
  loop-Answers (x ∷ xs) c a c' e =
      let (o, e1, e2) =
        >>=-ok (lock_get x.rounds (as_timeout timeout) x.elapsed (x.others c) q x.now x.lock_time) _
          (some (a, c')) e in
      of_answer x xs c o a c' e1 e2 (λ d. loop-Answers xs d a c')

  lock-Answers :
      (calls : List (Call D S)) (c : Control D S) (a : LeaseState) (c' : Control D S)
      → lock calls timeout c q ≡ ok (some (a, c'))
      → Answers calls a c'
  unfolding lock
  lock-Answers calls c a c' e =
      loop-Answers calls c a c' (guard-ok (is_available c.state) unavailable _ (some (a, c')) e).1

  -- Where `lock` answers Locked, then in one of its calls of `lock_get` `wait_lock` has answered Locked for the priority
  -- of the request, and after it `try_lock` has answered Locked for each lower priority, from the next one down to the
  -- base, in a round that is in time and has found the locks of all higher ones valid; the state that `lock` leaves
  -- is the one after the last of these but for the metrics of the thread. The other threads and processes may change
  -- anything between the rounds.
  pub lock-Grants :
      (calls : List (Call D S)) (c c' : Control D S)
      → lock calls timeout c q ≡ ok (some (locked, c'))
      → (i : ℕ) × (x : Call D S) × (d : Control D S) × (get_elem? calls i ≡ some x)
        × Grants (as_timeout timeout) q x d c'
  lock-Grants calls c c' e = (lock-Answers calls c locked c' e).granted refl
