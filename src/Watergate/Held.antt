-- ===== src/Watergate/Held.antt =====
-- lock_table.h: how many records hold the lock of a priority, and what the calls of one process do to that number.
pub mod Leases
use react_fs.Prelude.{
  ℕ, zero, suc, ◌+◌, ◌≤◌, ◌≡◌, refl, sym, ap, ◌∙◌, Bool, true, false, some, List, [], ◌∷◌, arith,
  Returns, ◌&&◌, ltb, ◌==◌, ==_iff, if◌then◌else◌, get_elem?, set, get_or, get_or-set, get_elem?_lt,
  get_elem?-set_self, Bool-cases, inl, inr,
}
use react_fs.Instance.{is_available}
use react_fs.Watergate.{
  Double, LeaseState, locked, quota_reached, force_released, expired, no_lock, failed, timed_out,
  quota_available, release, retry, is_locked, PriorityLock, LockRecord, Table, u64,
}
use react_fs.Watergate.Lease.{
  freed, with_lock, with_used, put_record, released_lock, released_record, has_valid_lock,
  held_answer, lease_answer,
}
use react_fs.Watergate.Lease

-- 1 for a lock that is held, else 0.
abbrev pub one : LeaseState → ℕ
one s = if is_locked s then 1 else 0

abbrev pub holds : {D : Type 0} → ℕ → LockRecord D → ℕ
holds p r = one (get_or r.lock.locks p freed).state

-- How many records hold the lock of the priority.
abbrev pub held : {D : Type 0} → ℕ → List (LockRecord D) → ℕ
held p [] = 0
held p (r ∷ rs) = holds p r + held p rs

-- The number at one priority, and 0 at every other.
abbrev pub at : ℕ → ℕ → ℕ → ℕ
at p q n = if p == q then n else 0

pub held-set :
    {D : Type 0} (q : ℕ) (rs : List (LockRecord D)) (i : ℕ) (r r' : LockRecord D)
    → get_elem? rs i ≡ some r
    → held q (set rs i r') + holds q r ≡ held q rs + holds q r'
held-set q [] i r r' e = absurd (ground (arith, e))
held-set q (x ∷ rs) zero r r' e = let s : x ≡ r = cc in rw s (omega arith)
held-set q (x ∷ rs) (suc i) r r' e = omega (arith, held-set q rs i r r' e)

-- A record of the table, and its lock of the priority with the state.
pub record Owns {D : Type 0} (t : Table D) (i p : ℕ) (h : ℕ) : Type 0 where
  pub available : is_available t.state ≡ true
  pub own : LockRecord D
  pub found : get_elem? t.records i ≡ some own
  pub lock : PriorityLock
  pub placed : get_elem? own.lock.locks p ≡ some lock
  pub holding : one lock.state ≡ h

get_or-of_get_elem? :
    (ls : List PriorityLock) (p : ℕ) (l : PriorityLock)
    → get_elem? ls p ≡ some l
    → get_or ls p freed ≡ l
get_or-of_get_elem? [] p l e = absurd (ground (arith, e))
get_or-of_get_elem? (x ∷ ls) zero l e = cc
get_or-of_get_elem? (x ∷ ls) (suc p) l e = get_or-of_get_elem? ls p l e

-- The state of the lock after the answers of `has_valid_lock`: it is held at the first three.
abbrev pub holds_after : LeaseState → ℕ
holds_after locked = 1
holds_after expired = 1
holds_after release = 1
holds_after _ = 0

pub at_self : (p n : ℕ) → at p p n ≡ n
at_self p n = ground arith

pub at_zero : (p q : ℕ) → at p q 0 ≡ 0
at_zero p q = ground arith

pub released_lock-freed :
    (seen : LeaseState) (l : PriorityLock)
    → holds_after seen ≡ 1
    → one (released_lock seen l).state ≡ 0
unfolding released_lock
released_lock-freed locked l e = ground arith
released_lock-freed expired l e = ground arith
released_lock-freed release l e = ground arith
released_lock-freed quota_reached l e = absurd (ground (arith, e))
released_lock-freed force_released l e = absurd (ground (arith, e))
released_lock-freed no_lock l e = absurd (ground (arith, e))
released_lock-freed failed l e = absurd (ground (arith, e))
released_lock-freed timed_out l e = absurd (ground (arith, e))
released_lock-freed quota_available l e = absurd (ground (arith, e))
released_lock-freed retry l e = absurd (ground (arith, e))

pub set-same :
    (ls : List PriorityLock) (p : ℕ) (l : PriorityLock) → get_elem? ls p ≡ some l → ls ≡ set ls p l
set-same [] p l e = refl
set-same (x ∷ ls) zero l e = let s : x ≡ l = cc in rw s refl
set-same (x ∷ ls) (suc p) l e = ap (λ k. x ∷ k) (set-same ls p l e)

holds-le-held :
    {D : Type 0} (q : ℕ) (rs : List (LockRecord D)) (i : ℕ) (r : LockRecord D)
    → get_elem? rs i ≡ some r
    → holds q r ≤ held q rs
holds-le-held q [] i r e = absurd (cc)
holds-le-held q (x ∷ rs) zero r e = let s : x ≡ r = cc in rw s (omega arith)
holds-le-held q (x ∷ rs) (suc i) r e = omega (arith, holds-le-held q rs i r e)

-- A record that holds the lock is counted.
pub Owns-le-held : {D : Type 0} {t : Table D} {i p h : ℕ} → Owns t i p h → h ≤ held p t.records
Owns-le-held {t} {i} {p} o =
    let there = get_or-of_get_elem? o.own.lock.locks p o.lock o.placed in
    let mine : holds p o.own ≡ one o.lock.state = ap (λ (l : PriorityLock). one l.state) there in
    omega (arith, o.holding, mine, holds-le-held p t.records i o.own o.found)

-- The record is put back with another state of that lock.
module _ {D : Type 0} (t : Table D) (i p : ℕ) (r r' : LockRecord D) (l l' : PriorityLock)
    (a : is_available t.state ≡ true) (found : get_elem? t.records i ≡ some r)
    (placed : get_elem? r.lock.locks p ≡ some l)
    (changed : r'.lock.locks ≡ set r.lock.locks p l') where
  holds-changed : (q : ℕ) → holds q r' + at p q (one l.state) ≡ holds q r + at p q (one l'.state)
  holds-changed q =
      let inside = get_elem?_lt r.lock.locks p l placed in
      let there = get_or-of_get_elem? r.lock.locks p l placed in
      rw (changed, get_or-set r.lock.locks p q l' freed inside)
        (elim (Bool-cases (p == q)) [
          | inl e ↦ rw (e, ← (==_iff p q).0 e, there) (omega arith)
          | inr e ↦ rw e refl
        ])

  pub held-changed :
      (q : ℕ)
      → held q (set t.records i r') + at p q (one l.state)
        ≡ held q t.records + at p q (one l'.state)
  held-changed q = omega (arith, held-set q t.records i r r' found, holds-changed q)

  pub Owns-changed : Owns (put_record t i r') i p (one l'.state)
  Owns-changed = record {
    available = a;
    own = r';
    found = get_elem?-set_self t.records i r' (get_elem?_lt t.records i r found);
    lock = l';
    placed =
        rw changed (get_elem?-set_self r.lock.locks p l' (get_elem?_lt r.lock.locks p l placed));
    holding = refl;
  }
