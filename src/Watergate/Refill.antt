-- ===== src/Watergate/Refill.antt =====
-- control.h: `clear_locks`, which a server runs at its start.
use react_fs.Prelude.{
  ℕ, zero, suc, ◌+◌, ◌≤◌, ◌<◌, ◌≡◌, ◌≢◌, ◌⊎◌, refl, ap, ◌∙◌, some, List, [], ◌∷◌, arith, ltb,
  ltb→lt, if◌then◌else◌, length, All, Bool-cases, inl, inr,
}
use react_fs.Watergate.Semaphore.{Answer, done, again, broken, Semaphore}
use react_fs.Watergate.Owner.{post_times, drain, refill, clear_locks}
use react_fs.Watergate.Permits.{Counting, got, value_at}
use react_fs.Watergate.Overdue.{post_times-value}

Answer-cases : (a : Answer) → (a ≡ done) ⊎ ((a ≡ again) ⊎ (a ≡ broken))
Answer-cases done = inl refl
Answer-cases again = inr (inl refl)
Answer-cases broken = inr (inr refl)

abbrev pub at_least : ℕ → ℕ → ℕ
at_least most n = if ltb n most then most else n

-- `sem_trywait` fails only where the value is 0.
abbrev pub IsEager : {S : Type 0} {m : Semaphore S} → Counting m → Type 0
IsEager {S} {m} k = (s : S) → 0 < k.value s → (m.trywait s).0 ≡ done

module _ {S : Type 0} ⦃m : Semaphore S⦄ (k : Counting m) (eager : IsEager k) where
  drain-done :
      (fuel count : ℕ) (s : S)
      → (m.trywait s).0 ≡ done
      → drain (suc fuel) s count ≡ drain fuel (m.trywait s).1 (suc count)
  unfolding drain
  drain-done fuel count s e = rw (drain, e) refl

  -- The first wait that fails ends the loop; the value is then 0.
  Emptied : ℕ → ℕ → S → Type 0
  Emptied fuel count s =
      (s' : S) × (drain fuel s count ≡ some (count + k.value s, s')) × (k.value s' ≡ 0)

  drain-failed :
      (fuel count : ℕ) (s : S)
      → (m.trywait s).0 ≢ done
      → got (m.trywait s).0 ≡ 0
      → drain (suc fuel) s count ≡ some (count, (m.trywait s).1)
      → Emptied (suc fuel) count s
  unfolding Emptied
  drain-failed fuel count s other none_got e = elim (Bool-cases (ltb 0 (k.value s))) [
    | inl h ↦ absurd (other (eager s (ltb→lt 0 (k.value s) h)))
    | inr h ↦
        (let nothing : k.value s ≡ 0 = ground arith in
          let total : count + k.value s ≡ count = omega (arith, nothing) in
          ((m.trywait s).1, rw total e, omega (arith, k.trywait-value s, none_got, nothing)))
  ]

  drain-value : (fuel count : ℕ) (s : S) → k.value s < fuel → Emptied fuel count s
  unfolding drain Emptied
  drain-value zero count s h = absurd (omega (arith, h))
  drain-value (suc fuel) count s h = elim (Answer-cases (m.trywait s).0) [
    | inl e ↦
        (let less = k.trywait-value s in
          let one_got = ap got e in
          let (s', e', empty) =
            drain-value fuel (suc count) (m.trywait s).1 (omega (arith, less, one_got, h)) in
          let total : suc count + k.value (m.trywait s).1 ≡ count + k.value s =
            omega (arith, less, one_got) in
          (s', drain-done fuel count s e ∙ e' ∙ ap (λ n. some (n, s')) total, empty))
    | inr (inl e) ↦ drain-failed fuel count s (λ d. absurd (cc)) (ap got e) (rw (drain, e) refl)
    | inr (inr e) ↦ drain-failed fuel count s (λ d. absurd (cc)) (ap got e) (rw (drain, e) refl)
  ]

  refill-value :
      (fuel most : ℕ) (s : S)
      → k.value s < fuel
      → k.value s ≤ k.limit
      → most ≤ k.limit
      → (s' : S) × (refill fuel most s ≡ some s') × (k.value s' ≡ at_least most (k.value s))
  unfolding refill Emptied
  refill-value fuel most s h room hm =
      let (s', e, empty) = drain-value fuel 0 s h in
      let none_more : 0 + k.value s ≡ k.value s = omega arith in
      let posts : ℕ = at_least most (k.value s) in
      let e' : drain fuel s 0 ≡ some (k.value s, s') = e ∙ ap (λ n. some (n, s')) none_more in
      let full : k.value s' + posts ≤ k.limit = ground (arith, empty, room, hm) in
      (
        post_times posts s',
        rw (refill, e') refl,
        omega (arith, post_times-value k posts s' full, empty),
      )

  value_at-refilled :
      (most : ℕ) (s s' : S) (ss ss' : List S)
      → k.value s' ≡ at_least most (k.value s)
      → ((q : ℕ) → q < length ss → value_at k ss' q ≡ at_least most (value_at k ss q))
      → (q : ℕ) → q < length (s ∷ ss)
      → value_at k (s' ∷ ss') q ≡ at_least most (value_at k (s ∷ ss) q)
  value_at-refilled most s s' ss ss' here rest zero h = here
  value_at-refilled most s s' ss ss' here rest (suc q) h = rest q (omega (arith, h))

  -- A run of `clear_locks` that may try each semaphore more often than its value ends, where the values and the limit
  -- of the lock are at most SEM_VALUE_MAX: every semaphore that was below the limit stands at it, and every other one
  -- is as it was, whatever locks the processes hold.
  pub clear_locks-values :
      (fuel most : ℕ) (ss : List S)
      → All (λ s. (k.value s < fuel) × (k.value s ≤ k.limit)) ss
      → most ≤ k.limit
      → (ss' : List S) × (clear_locks fuel most ss ≡ some ss')
        × ((q : ℕ) → q < length ss → value_at k ss' q ≡ at_least most (value_at k ss q))
  unfolding clear_locks
  clear_locks-values fuel most [] room hm = ([], refl, λ q h. absurd (omega (arith, h)))
  clear_locks-values fuel most (s ∷ ss) (here, rest) hm =
      let (s', e, v) = refill-value fuel most s here.0 here.1 hm in
      let (ss', e', vs) = clear_locks-values fuel most ss rest hm in
      (s' ∷ ss', rw (clear_locks, e) (rw e' refl), value_at-refilled most s s' ss ss' v vs)
