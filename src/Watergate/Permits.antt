-- ===== src/Watergate/Permits.antt =====
-- control.cpp: the semaphore of a priority and the records that hold its lock, counted together.
use react_fs.Prelude.{
  ℕ, zero, suc, ◌+◌, ◌<◌, ◌≡◌, refl, ap, ◌∙◌, Bool, some, List, [], ◌∷◌, arith, Returns,
  if◌then◌else◌, get_elem?, set, get_elem?-set_self, get_elem?_lt, Bool-cases, inl, inr,
}
use react_fs.Watergate.Semaphore.{Answer, done, Semaphore, Client, put_semaphore, post_at, wait_at}
use react_fs.Watergate.Held.{held, at, Owns}

-- 1 for a call that returns 0.
abbrev pub got : Answer → ℕ
got done = 1
got _ = 0

-- What POSIX says of a semaphore: it has a value, which a successful wait lowers by one and a post raises by
-- one; a failed call leaves it; and a post succeeds below SEM_VALUE_MAX.
pub record Counting {S : Type 0} (m : Semaphore S) : Type 0 where
  pub value : S → ℕ
  pub limit : ℕ
  pub trywait-value : (s : S) → value (m.trywait s).1 + got (m.trywait s).0 ≡ value s
  pub wait-value : (s : S) → value (m.wait s).1 + got (m.wait s).0 ≡ value s
  pub post-value : (s : S) → value (m.post s).1 ≡ value s + got (m.post s).0
  pub post-done : (s : S) → value s < limit → (m.post s).0 ≡ done

module _ {S : Type 0} ⦃m : Semaphore S⦄ (k : Counting m) where
  abbrev pub value_at : List S → ℕ → ℕ
  value_at [] q = 0
  value_at (s ∷ ss) zero = k.value s
  value_at (s ∷ ss) (suc q) = value_at ss q

  pub value_at-set :
      (ss : List S) (p q : ℕ) (s s' : S)
      → get_elem? ss p ≡ some s
      → value_at (set ss p s') q + at p q (k.value s) ≡ value_at ss q + at p q (k.value s')
  value_at-set [] p q s s' e = absurd (cc)
  value_at-set (x ∷ ss) zero zero s s' e = let y : x ≡ s = cc in rw y (omega arith)
  value_at-set (x ∷ ss) zero (suc q) s s' e = ground arith
  value_at-set (x ∷ ss) (suc p) zero s s' e = ground arith
  value_at-set (x ∷ ss) (suc p) (suc q) s s' e = ground (arith, value_at-set ss p q s s' e)

  pub value_at_self :
      (ss : List S) (p : ℕ) (s : S) → get_elem? ss p ≡ some s → value_at ss p ≡ k.value s
  value_at_self [] p s e = absurd (cc)
  value_at_self (x ∷ ss) zero s e = let y : x ≡ s = cc in ap k.value y
  value_at_self (x ∷ ss) (suc p) s e = value_at_self ss p s e

  -- The value of the semaphore of a priority, and the records that hold the lock.
  abbrev pub permits : {D : Type 0} → Client D S → ℕ → ℕ
  permits c q = value_at c.semaphores q + held q c.table.records

  -- A client whose record and semaphore of the priority are there; the number says whether it holds the lock.
  pub record Ready {D : Type 0} (c : Client D S) (p h : ℕ) : Type 0 where
    pub owns : Owns c.table c.lock_record p h
    pub semaphore : S
    pub there : get_elem? c.semaphores p ≡ some semaphore

  -- The permits of every priority are as many as before.
  abbrev pub Balanced : {D : Type 0} → Client D S → Client D S → Type 0
  Balanced c c' = (q : ℕ) → permits c' q ≡ permits c q

  put-Ready :
      {D : Type 0} {c : Client D S} {p h : ℕ} (s' : S)
      → Ready c p h
      → Ready (put_semaphore c p s') p h
  put-Ready {c} {p} s' r = record {
    owns = r.owns;
    semaphore = s';
    there = get_elem?-set_self c.semaphores p s' (get_elem?_lt c.semaphores p r.semaphore r.there);
  }

  put-permits :
      {D : Type 0} (c : Client D S) (p q : ℕ) (s s' : S)
      → get_elem? c.semaphores p ≡ some s
      → permits (put_semaphore c p s') q + at p q (k.value s) ≡ permits c q + at p q (k.value s')
  put-permits c p q s s' e = omega (arith, value_at-set c.semaphores p q s s' e)

  pub at_add : (p q a b : ℕ) → at p q (a + b) ≡ at p q a + at p q b
  at_add p q a b = ground arith

  pub post_at-Ready :
      {D : Type 0} {c : Client D S} {p h : ℕ}
      → Ready c p h
      → value_at c.semaphores p < k.limit
      → Returns (post_at c p) λ c'. Ready c' p h × ((q : ℕ) → permits c' q ≡ permits c q + at p q 1)
  unfolding post_at
  post_at-Ready {c} {p} r room =
      let s = r.semaphore in
      let below : k.value s < k.limit =
        omega (arith, value_at_self c.semaphores p s r.there, room) in
      let posted = k.post-done s below in
      (
        put_semaphore c p (m.post s).1,
        rw (r.there, posted) refl,
        (
          put-Ready (m.post s).1 r,
          λ q.
              (let raised = ap (at p q) (k.post-value s ∙ ap (λ a. k.value s + got a) posted) in
                omega (
                  arith,
                  raised,
                  at_add p q (k.value s) 1,
                  put-permits c p q s (m.post s).1 r.there,
                )),
        ),
      )

  pub wait_at-Ready :
      {D : Type 0} {c : Client D S} {p h : ℕ} (wait : Bool)
      → Ready c p h
      → Returns
          (wait_at c p wait)
          λ (a, c'). Ready c' p h × ((q : ℕ) → permits c' q + at p q (got a) ≡ permits c q)
  unfolding wait_at
  wait_at-Ready {c} {p} wait r =
      let s = r.semaphore in
      let a = (if wait then m.wait s else m.trywait s) in
      let lowered : k.value a.1 + got a.0 ≡ k.value s = elim (Bool-cases wait) [
        | inl w ↦ rw w (k.wait-value s)
        | inr t ↦ rw t (k.trywait-value s)
      ] in
      (
        (a.0, put_semaphore c p a.1),
        rw r.there refl,
        (
          put-Ready a.1 r,
          λ q.
              (let fell = ap (at p q) lowered in
                omega (
                  arith,
                  fell,
                  at_add p q (k.value a.1) (got a.0),
                  put-permits c p q s a.1 r.there,
                )),
        ),
      )
