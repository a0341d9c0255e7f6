-- ===== src/Watergate/Climbing.antt =====
-- control_def.cpp: how the loops of `lock_get` end, and what they have done where they answer Locked.
use react_fs.Prelude.{
  ℕ, zero, suc, ◌-◌, ◌<◌, ◌≡◌, ◌⊎◌, Error, Result-cases, >>=-ok, if◌then◌else◌, refl, Bool, true,
  false, Option, some, List, [], ◌∷◌, ok, err, Result, ltb, Bool-cases, inl, inr,
}
use react_fs.Watergate.{
  Double, LeaseState, locked, quota_reached, force_released, expired, no_lock, failed, timed_out,
  quota_available, release, retry, is_locked,
}
use react_fs.Watergate.Semaphore.{Semaphore}
use react_fs.Watergate.Control.{
  Control, Request, Round, Climb, try_lock, has_valid_lock, all_valid, climb, tried,
}

-- Some round is later than the timeout.
abbrev pub IsLate : {D S : Type 0} → ℕ → List (Round D S) → Type 0
IsLate timeout [] = ⊥
IsLate timeout (r ∷ rs) = (timeout < r.elapsed) ⊎ IsLate timeout rs

-- The answers on which the inner loop of `lock_get` asks again for the same priority.
abbrev pub repeats : LeaseState → Bool
repeats locked = false
repeats quota_reached = false
repeats failed = false
repeats _ = true

module _ {D S : Type 0} ⦃f : Double D⦄ ⦃m : Semaphore S⦄ (timeout : ℕ) (q : Request D) where
  -- `has_valid_lock` answers true for as many priorities, from one down.
  pub data AllHeld (now : ℕ) : ℕ → ℕ → Control D S → Control D S → Type 0 where
    none_left : {p : ℕ} {c : Control D S} → AllHeld now 0 p c c
    one_held :
        {n p : ℕ} {c e : Control D S} (d : Control D S)
        → has_valid_lock c q.name p now ≡ ok (true, d)
        → AllHeld now n (p - 1) d e
        → AllHeld now (suc n) p c e

  held_next :
      (n p now : ℕ) (c e : Control D S) (b : Bool) (d : Control D S)
      → has_valid_lock c q.name p now ≡ ok (b, d)
      → (if b then all_valid n (p - 1) d q.name now else ok (false, d)) ≡ ok (true, e)
      → (all_valid n (p - 1) d q.name now ≡ ok (true, e) → AllHeld now n (p - 1) d e)
      → AllHeld now (suc n) p c e
  held_next n p now c e true d here rest further = one_held d here (further rest)
  held_next n p now c e false d here rest further = absurd cc

  all_valid-AllHeld :
      (n p now : ℕ) (c e : Control D S)
      → all_valid n p c q.name now ≡ ok (true, e)
      → AllHeld now n p c e
  unfolding all_valid
  all_valid-AllHeld zero p now c e h = let s : c ≡ e = cc in rw s none_left
  all_valid-AllHeld (suc n) p now c e h =
      let (r, here, rest) = >>=-ok (has_valid_lock c q.name p now) _ (true, e) h in
      held_next n p now c e r.0 r.1 here rest (all_valid-AllHeld n (p - 1) now r.1 e)

  -- A round in time, in which the locks of all higher priorities, up to that of the request, are found valid, and then
  -- `try_lock` of the priority answers.
  pub record Asks (r : Round D S) (ii : ℕ) (c : Control D S) (a : LeaseState) (d : Control D S)
      : Type 0 where
    pub in_time : ltb timeout r.elapsed ≡ false
    pub valid : Control D S
    pub higher : AllHeld r.now (suc q.priority - suc ii) q.priority (r.others c) valid
    pub asked : try_lock valid q ii r.now ≡ ok (a, d)

  -- The rounds in which the locks of all priorities below one are taken, from the highest to the base: each by a
  -- `try_lock` that answers Locked, after any number of answers on which the loop asks again.
  pub data Descent : List (Round D S) → ℕ → Control D S → Control D S → Type 0 where
    arrives : {rs : List (Round D S)} {c : Control D S} → Descent rs 0 c c
    polls :
        {r : Round D S} {rs : List (Round D S)} {ii : ℕ} {c c' : Control D S} (a : LeaseState)
        (d : Control D S)
        → Asks r ii c a d
        → repeats a ≡ true
        → Descent rs (suc ii) d c'
        → Descent (r ∷ rs) (suc ii) c c'
    takes :
        {r : Round D S} {rs : List (Round D S)} {ii : ℕ} {c c' : Control D S} (d : Control D S)
        → Asks r ii c locked d
        → Descent rs ii d c'
        → Descent (r ∷ rs) (suc ii) c c'

  -- How a round ends: in an exception, with both loops, or with the rounds that are left.
  data Ends (r : Round D S) (rs : List (Round D S)) (ii : ℕ) (c : Control D S)
      : Result (Option (Climb D S)) → Type 0 where
    throws : (x : Error) → Ends r rs ii c (err x)
    stops :
        (a : LeaseState) (d : Control D S)
        → is_locked a ≡ false
        → Ends r rs ii c (ok (some (record { answer = a; locked_priority = suc ii; control = d })))
    stays :
        (a : LeaseState) (d : Control D S)
        → Asks r ii c a d
        → repeats a ≡ true
        → Ends r rs ii c (climb rs timeout (suc ii) d q)
    goes_down : (d : Control D S) → Asks r ii c locked d → Ends r rs ii c (climb rs timeout ii d q)

  tried-Ends :
      (r : Round D S) (rs : List (Round D S)) (ii : ℕ) (c : Control D S) (a : LeaseState)
      (d : Control D S)
      → Asks r ii c a d
      → Ends r rs ii c (tried a ii d (climb rs timeout ii d q) (climb rs timeout (suc ii) d q))
  unfolding tried
  tried-Ends r rs ii c locked d h = goes_down d h
  tried-Ends r rs ii c quota_reached d h = stops quota_reached d refl
  tried-Ends r rs ii c failed d h = stops failed d refl
  tried-Ends r rs ii c force_released d h = stays force_released d h refl
  tried-Ends r rs ii c expired d h = stays expired d h refl
  tried-Ends r rs ii c no_lock d h = stays no_lock d h refl
  tried-Ends r rs ii c timed_out d h = stays timed_out d h refl
  tried-Ends r rs ii c quota_available d h = stays quota_available d h refl
  tried-Ends r rs ii c release d h = stays release d h refl
  tried-Ends r rs ii c retry d h = stays retry d h refl

  climb-Ends :
      (r : Round D S) (rs : List (Round D S)) (ii : ℕ) (c : Control D S)
      → Ends r rs ii c (climb (r ∷ rs) timeout (suc ii) c q)
  unfolding climb
  climb-Ends r rs ii c = elim (Bool-cases (ltb timeout r.elapsed)) [
    | inl h ↦ rw (climb, h) (stops timed_out (r.others c) refl)
    | inr h ↦
        rw (climb, h)
          (elim (Result-cases
            (all_valid (suc q.priority - suc ii) q.priority (r.others c) q.name r.now)) [
              | inr (x, e) ↦ rw e (throws x)
              | inl ((false, v), e) ↦ rw e (stops retry v refl)
              | inl ((true, v), e) ↦ rw e (elim (Result-cases (try_lock v q ii r.now)) [
                | inr (x, e') ↦ rw e' (throws x)
                | inl (a, e') ↦ rw e' (
                    tried-Ends r rs ii c a.0 a.1 (record {
                      in_time = h;
                      valid = v;
                      higher =
                          all_valid-AllHeld (suc q.priority - suc ii) q.priority r.now (r.others c)
                            v e;
                      asked = e';
                    }))
              ])
            ])
  ]

  Descent-of_Ends :
      (r : Round D S) (rs : List (Round D S)) (ii : ℕ) (c : Control D S)
      {x : Result (Option (Climb D S))} (y : Climb D S)
      → ((n : ℕ) (d : Control D S)
          → climb rs timeout n d q ≡ ok (some y)
          → Descent rs n d y.control)
      → is_locked y.answer ≡ true
      → Ends r rs ii c x
      → x ≡ ok (some y)
      → Descent (r ∷ rs) (suc ii) c y.control
  Descent-of_Ends r rs ii c y rest l (throws x) e = absurd cc
  Descent-of_Ends r rs ii c y rest l (stops a d h) e = let s : y.answer ≡ a = cc in absurd cc
  Descent-of_Ends r rs ii c y rest l (stays a d h p) e = polls a d h p (rest (suc ii) d e)
  Descent-of_Ends r rs ii c y rest l (goes_down d h) e = takes d h (rest ii d e)

  pub climb-Descent :
      (rounds : List (Round D S)) (n : ℕ) (c : Control D S) (y : Climb D S)
      → is_locked y.answer ≡ true
      → climb rounds timeout n c q ≡ ok (some y)
      → Descent rounds n c y.control
  unfolding climb
  climb-Descent rounds zero c y l e =
      let s : y ≡ record { answer = locked; locked_priority = 0; control = c } = cc in rw s arrives
  climb-Descent [] (suc ii) c y l e = absurd cc
  climb-Descent (r ∷ rs) (suc ii) c y l e =
      Descent-of_Ends r rs ii c y (λ n d. climb-Descent rs n d y l) l (climb-Ends r rs ii c) e
