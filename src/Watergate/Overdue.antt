-- ===== src/Watergate/Overdue.antt =====
-- control.cpp: the pass of the server over the leases keeps the permits: each lock that it takes back is posted once.
use react_fs.Prelude.{
  ℕ, zero, suc, ◌+◌, ◌^◌, ◌≤◌, ◌<◌, ◌≡◌, refl, ap, ◌∙◌, true, List, [], ◌∷◌, arith, Returns, ltb,
  lt→ltb, ltb→lt, length, All, get_elem?-in, set, length-set, replicate, get_or, Bool-cases, inl,
  inr,
}
use react_fs.Instance.{is_available}
use react_fs.Watergate.{max_priority}
use react_fs.Watergate.Manager.{check_expired_from, check_expired_locks}
use react_fs.Watergate.Semaphore.{Semaphore}
use react_fs.Watergate.Owner.{Owner, post_times, post_count, post_counts, check_leases}
use react_fs.Watergate.Held.{held, at, at_self}
use react_fs.Watergate.Permits.{Counting, got, at_add, value_at, value_at-set, value_at_self}
use react_fs.Watergate.Counted.{IsWhole, check_expired_from-counted}

get_or-zeros : (n q : ℕ) → get_or {A = ℕ} (replicate n 0) q 0 ≡ 0
get_or-zeros zero q = refl
get_or-zeros (suc n) zero = refl
get_or-zeros (suc n) (suc q) = get_or-zeros n q

-- Values that have risen by the counts from a priority on.
counted-cons :
    (v v' : ℕ → ℕ) (ii n : ℕ) (ns : List ℕ)
    → v' ii ≡ v ii + n
    → ((j : ℕ) → v' (suc ii + j) ≡ v (suc ii + j) + get_or ns j 0)
    → (j : ℕ) → v' (ii + j) ≡ v (ii + j) + get_or (n ∷ ns) j 0
counted-cons v v' ii n ns here later zero = let start : ii + 0 ≡ ii = omega arith in rw start here
counted-cons v v' ii n ns here later (suc j) =
    let shift : ii + suc j ≡ suc ii + j = omega arith in rw shift (later j)

at_below : (ii q n : ℕ) → q < ii → at ii q n ≡ 0
at_below ii q n h = ground arith

module _ {S : Type 0} ⦃m : Semaphore S⦄ (k : Counting m) where
  pub post_times-value :
      (n : ℕ) (s : S) → k.value s + n ≤ k.limit → k.value (post_times n s) ≡ k.value s + n
  unfolding post_times
  post_times-value zero s room = omega arith
  post_times-value (suc n) s room =
      let posted = ap got (k.post-done s (omega (arith, room))) in
      let raised = k.post-value s in
      omega (
        arith,
        posted,
        raised,
        post_times-value n (m.post s).1 (omega (arith, posted, raised, room)),
      )

  post_count-value :
      (priorities ii count : ℕ) (ss : List S)
      → length ss ≡ priorities
      → (priorities ≤ ii → count ≡ 0)
      → value_at k ss ii + count ≤ k.limit
      → Returns (post_count priorities ii count ss) λ ss'.
        (length ss' ≡ priorities) × ((q : ℕ) → value_at k ss' q ≡ value_at k ss q + at ii q count)
  unfolding post_count
  post_count-value priorities ii count ss e served room = elim (Bool-cases (ltb 0 count)) [
    | inl some_due ↦ post_some (served_before some_due) some_due
    | inr none_due ↦ rw none_due (ss, refl, (e, λ q. ground arith))
  ]
    where
      served_before : ltb 0 count ≡ true → ii < priorities
      served_before due = elim (Bool-cases (ltb ii priorities)) [
        | inl h ↦ ltb→lt ii priorities h
        | inr h ↦ absurd (ground (arith, served))
      ]

      post_some :
          ii < priorities
          → ltb 0 count ≡ true
          → Returns (post_count priorities ii count ss) λ ss'.
            (length ss' ≡ priorities)
            × ((q : ℕ) → value_at k ss' q ≡ value_at k ss q + at ii q count)
      post_some h due =
          let (s, there) = get_elem?-in ss ii (omega (arith, h, e)) in
          let mine = value_at_self k ss ii s there in
          let posted = post_times-value count s (omega (arith, mine, room)) in
          (
            set ss ii (post_times count s),
            rw (due, lt→ltb ii priorities h, there) refl,
            (
              length-set ss ii (post_times count s) ∙ e,
              λ q.
                  (let raised = ap (at ii q) posted in
                    omega (
                      arith,
                      raised,
                      at_add k ii q (k.value s) count,
                      value_at-set k ss ii q s (post_times count s) there,
                    )),
            ),
          )

  post_counts-value :
      (priorities ii : ℕ) (ns : List ℕ) (ss : List S)
      → length ss ≡ priorities
      → ((j : ℕ) → priorities ≤ ii + j → get_or ns j 0 ≡ 0)
      → ((j : ℕ) → value_at k ss (ii + j) + get_or ns j 0 ≤ k.limit)
      → Returns (post_counts priorities ii ns ss) λ ss'.
        (length ss' ≡ priorities)
        × ((j : ℕ) → value_at k ss' (ii + j) ≡ value_at k ss (ii + j) + get_or ns j 0)
        × ((q : ℕ) → q < ii → value_at k ss' q ≡ value_at k ss q)
  unfolding post_counts
  post_counts-value priorities ii [] ss e served room =
      (ss, refl, (e, λ j. omega arith, λ q h. refl))
  post_counts-value priorities ii (n ∷ ns) ss e served room =
      let none_served : priorities ≤ ii → n ≡ 0 =
        λ (h : priorities ≤ ii). served 0 (omega (arith, h)) in
      let start : ii + 0 ≡ ii = omega arith in
      let room0 : value_at k ss ii + n ≤ k.limit =
        omega (arith, room 0, ap (value_at k ss) start) in
      let (ss1, e1, (l1, here)) = post_count-value priorities ii n ss e none_served room0 in
      let shift : (j : ℕ) → suc ii + j ≡ ii + suc j = λ (j : ℕ). omega arith in
      let apart : (j : ℕ) → at ii (suc ii + j) n ≡ 0 = λ (j : ℕ). ground arith in
      let (ss2, e2, (l2, rest, before)) =
        post_counts-value priorities (suc ii) ns ss1 l1
          (λ j h. served (suc j) (omega (arith, h, shift j)))
          (λ j.
            omega
              (arith, here (suc ii + j), apart j, ap (value_at k ss) (shift j), room (suc j))) in
      (
        ss2,
        rw e1 e2,
        (
          l2,
          counted-cons (value_at k ss) (value_at k ss2) ii n ns
              (omega (arith, before ii (omega arith), here ii, at_self ii n))
              (λ j. omega (arith, rest j, here (suc ii + j), apart j)),
          λ q h. omega (arith, before q (omega (arith, h)), here q, at_below ii q n h),
        ),
      )

  -- The permits of a priority, on the side of the server.
  abbrev pub owner_permits : {D : Type 0} → Owner D S → ℕ → ℕ
  owner_permits o q = value_at k o.semaphores q + held q o.table.records

  -- A server whose records have a lock for each priority and hold none beyond its priorities, and whose permits are at
  -- most SEM_VALUE_MAX.
  pub record IsServing {D : Type 0} (o : Owner D S) : Type 0 where
    pub available : is_available o.table.state ≡ true
    pub whole : All IsWhole o.table.records
    pub few : length o.table.records < 2 ^ 16
    pub served : length o.semaphores ≡ o.priorities
    pub none_beyond : (q : ℕ) → o.priorities ≤ q → held q o.table.records ≡ 0
    pub room : (q : ℕ) → owner_permits o q ≤ k.limit

  -- A pass of a server over the leases returns where the grace time is over 0, every record has a lock for each
  -- priority, nothing is held beyond the priorities of the server and the permits are at most SEM_VALUE_MAX: each
  -- lock that it takes back is posted once, so that the permits of every priority are as many as before.
  pub check_leases-balanced :
      {D : Type 0} {o : Owner D S} (expiry now : ℕ)
      → IsServing o
      → 0 < expiry
      → Returns (check_leases o expiry now) λ o'. (q : ℕ) → owner_permits o' q ≡ owner_permits o q
  unfolding check_leases check_expired_locks
  check_leases-balanced {o} expiry now v h =
      let lease = o.table.lock_lease_time in
      let zeros : List ℕ = replicate max_priority 0 in
      let rs = (check_expired_from lease expiry now o.table.records zeros).0 in
      let counts = (check_expired_from lease expiry now o.table.records zeros).1 in
      let counted : (q : ℕ) → held q rs + get_or counts q 0 ≡ held q o.table.records = λ (q : ℕ).
        (let nothing = get_or-zeros max_priority q in
          omega (
            arith,
            nothing,
            check_expired_from-counted lease expiry now q o.table.records zeros v.whole refl
                (omega (arith, nothing, v.few)),
          )) in
      let left : (j : ℕ) → 0 + j ≡ j = λ (j : ℕ). omega arith in
      let (ss, e, (l, raised, before)) =
        post_counts-value o.priorities 0 counts o.semaphores v.served
          (λ j b. omega (arith, counted j, v.none_beyond j (omega (arith, b))))
          (λ j. omega (arith, counted j, v.room j, ap (value_at k o.semaphores) (left j))) in
      (
        record o { table = record o.table { records = rs }; semaphores = ss },
        rw (lt→ltb 0 expiry h, v.available) (rw e refl),
        λ q. omega (
          arith,
          counted q,
          raised q,
          ap (value_at k o.semaphores) (left q),
          ap (value_at k ss) (left q),
        ),
      )
