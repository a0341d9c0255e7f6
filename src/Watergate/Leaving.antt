-- ===== src/Watergate/Leaving.antt =====
-- lock_table.cpp and lock_table.h: the locks of a record that leaves the table.
use react_fs.Prelude.{
  ℕ, zero, suc, ◌+◌, ◌≤◌, ◌≡◌, refl, ap, true, false, some, List, [], ◌∷◌, arith, ok, Returns,
  >>=-ok, guard-ok, or_fail-ok, or_fail, precondition, wild_access, get_elem?, set, ltb, get_or,
  replicate, ◌==◌, ==_iff,
}
use react_fs.Instance.{disposed}
use react_fs.Bitset.{check, clear_bit}
use react_fs.Watergate.{
  Double, PriorityLock, LockRecord, Table, max_priority, reset_record, remove_record,
}
use react_fs.Watergate.Lease.{freed, is_disposed, destroy}
use react_fs.Watergate.Semaphore.{Semaphore, Client}
use react_fs.Watergate.Locks.{close_all, dispose}
use react_fs.Watergate.Permits.{Counting, value_at, permits}
use react_fs.Watergate.Held.{one, holds, held, held-set}
use react_fs.Watergate.Register.{IsRegistry, remove_record-IsRegistry}

pub get_or-replicate : {A : Type 0} (n q : ℕ) (x : A) → get_or (replicate n x) q x ≡ x
get_or-replicate zero q x = refl
get_or-replicate (suc n) zero x = refl
get_or-replicate (suc n) (suc q) x = get_or-replicate n q x

holds-reset : {D : Type 0} ⦃f : Double D⦄ (q : ℕ) (r : LockRecord D) → holds q (reset_record r) ≡ 0
holds-reset q r = ap (λ (l : PriorityLock). one l.state) (get_or-replicate max_priority q freed)

module _ {D : Type 0} ⦃f : Double D⦄ where
  pub remove_record-held :
      (t t' : Table D) (i q : ℕ) → remove_record t i ≡ ok t' → held q t'.records ≤ held q t.records
  unfolding remove_record
  remove_record-held t t' i q e =
      let (h, e1) = guard-ok (ltb i t.max_records) precondition _ t' e in
      let (taken, e2, e3) = >>=-ok (check t.bit_index i) _ t' e1 in
      let (on, e4) = guard-ok taken precondition _ t' e3 in
      let (r, e5, e6) = >>=-ok (or_fail (get_elem? t.records i) wild_access) _ t' e4 in
      let (b, e7, e8) = >>=-ok (clear_bit t.bit_index i) _ t' e6 in
      let found = or_fail-ok (get_elem? t.records i) wild_access r e5 in
      let records : t'.records ≡ set t.records i (reset_record r) = cc in
      rw records (omega (arith, held-set q t.records i r (reset_record r) found, holds-reset q r))

  destroy-held :
      {t : Table D} (i pid : ℕ) (r : LockRecord D)
      → IsRegistry t
      → is_disposed t.state ≡ false
      → get_elem? t.records i ≡ some r
      → r.used ≡ true
      → r.index ≡ i
      → r.app.proc_id ≡ pid
      → Returns (destroy t i pid) λ t'. (q : ℕ) → held q t'.records + holds q r ≡ held q t.records
  unfolding destroy
  destroy-held {t} i pid r v alive found used index mine =
      let (t', e, (_, records, _, _)) = remove_record-IsRegistry i r v found used in
      let own : (r.app.proc_id == pid) ≡ true = (==_iff r.app.proc_id pid).1 mine in
      (
        record t' { state = disposed },
        rw (alive, found, used, own, index, e) refl,
        λ q.
            rw records
              (omega (arith, held-set q t.records i r (reset_record r) found, holds-reset q r)),
      )

value_at-close_all :
    {S : Type 0} ⦃m : Semaphore S⦄ (k : Counting m) (close : S → S) (ss : List S) (q : ℕ)
    → ((s : S) → k.value (close s) ≡ k.value s)
    → value_at k (close_all close ss) q ≡ value_at k ss q
unfolding close_all
value_at-close_all k close [] q same = refl
value_at-close_all k close (s ∷ ss) zero same = same s
value_at-close_all k close (s ∷ ss) (suc q) same = value_at-close_all k close ss q same

module _ {D S : Type 0} ⦃f : Double D⦄ ⦃m : Semaphore S⦄ (k : Counting m) where
  -- `sem_close` leaves the value of a semaphore. Then the destructor of a client whose table is in step, and whose
  -- record is in use, its process's and of its own index, returns; every semaphore has the value that it had, and the
  -- permits of a priority (that value and the records that hold the lock, together) are fewer by the lock of the
  -- record: where the record held it, a permit is lost.
  pub dispose-permits :
      (c : Client D S) (close : S → S) (pid : ℕ) (r : LockRecord D)
      → ((s : S) → k.value (close s) ≡ k.value s)
      → IsRegistry c.table
      → is_disposed c.table.state ≡ false
      → get_elem? c.table.records c.lock_record ≡ some r
      → r.used ≡ true
      → r.index ≡ c.lock_record
      → r.app.proc_id ≡ pid
      → Returns (dispose close c pid) λ c'.
        (q : ℕ)
        → (value_at k c'.semaphores q ≡ value_at k c.semaphores q)
          × (permits k c' q + holds q r ≡ permits k c q)
  unfolding dispose
  dispose-permits c close pid r same v alive found used index mine =
      let (t, e, less) = destroy-held c.lock_record pid r v alive found used index mine in
      let kept : (q : ℕ) → value_at k (close_all close c.semaphores) q ≡ value_at k c.semaphores q =
        λ (q : ℕ). value_at-close_all k close c.semaphores q same in
      (
        record c {
          table = t;
          semaphores = close_all close c.semaphores;
          counts = [];
          threads = [];
        },
        rw e refl,
        λ q. (kept q, omega (arith, kept q, less q)),
      )
