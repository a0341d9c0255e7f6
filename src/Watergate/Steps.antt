-- ===== src/Watergate/Steps.antt =====
-- control.cpp and lock_table.cpp: any sequence of calls of any number of processes and of the server, over one table and its
-- semaphores.
use react_fs.Prelude.{ℕ, ◌+◌, ◌≤◌, ◌<◌, ◌≡◌, ap, Bool, some, List, arith, ok, returned}
use react_fs.Prelude.Texts.{Text}
use react_fs.Prelude.Maps.{lookup}
use react_fs.Watergate.{Double, LeaseState, Table, remove_record}
use react_fs.Watergate.Semaphore.{Semaphore, ThreadRecord, Client}
use react_fs.Watergate.Locks.{try_lock, try_lock_base, release_lock, release_lock_base}
use react_fs.Watergate.Owner.{Owner, check_leases}
use react_fs.Watergate.Leaving.{remove_record-held}
use react_fs.Watergate.Held.{held}
use react_fs.Watergate.Permits.{Counting, value_at, permits, Ready}
use react_fs.Watergate.Trying.{try_lock-Tried, try_lock_base-Tried}
use react_fs.Watergate.Releasing.{release_lock-Released, release_lock_base-Released}
use react_fs.Watergate.Overdue.{IsServing, check_leases-balanced}

-- What the processes share.
pub record Shared (D S : Type 0) : Type 0 where
  pub table : Table D
  pub semaphores : List S

abbrev pub shared : {D S : Type 0} → Client D S → Shared D S
shared c = record { table = c.table; semaphores = c.semaphores }

module _ {D S : Type 0} ⦃f : Double D⦄ ⦃m : Semaphore S⦄ (k : Counting m) where
  -- A call by a registered thread of a process whose record and semaphore are there, a pass of the server over the
  -- leases, or the removal of a record.
  pub data Step : Shared D S → Shared D S → Type 0 where
    tries :
        {s s' : Shared D S} (c c' : Client D S) (p h base : ℕ) (thread : Text) (t : ThreadRecord)
        (quota : D) (wait : Bool) (now : ℕ) (a : LeaseState)
        → s ≡ shared c
        → s' ≡ shared c'
        → p < c.priorities
        → base < c.priorities
        → lookup thread c.threads ≡ some t
        → Ready k c p h
        → try_lock c thread p quota base wait now ≡ ok (a, c')
        → Step s s'
    tries_base :
        {s s' : Shared D S} (c c' : Client D S) (h base : ℕ) (thread : Text) (t : ThreadRecord)
        (quota : D) (wait : Bool) (now : ℕ) (a : LeaseState)
        → s ≡ shared c
        → s' ≡ shared c'
        → base < c.priorities
        → lookup thread c.threads ≡ some t
        → Ready k c 0 h
        → try_lock_base c thread quota base wait now ≡ ok (a, c')
        → Step s s'
    releases :
        {s s' : Shared D S} (c c' : Client D S) (p h base : ℕ) (thread : Text) (t : ThreadRecord)
        (now : ℕ) (gone : Bool)
        → s ≡ shared c
        → s' ≡ shared c'
        → p < c.priorities
        → base < c.priorities
        → lookup thread c.threads ≡ some t
        → Ready k c p h
        → release_lock c thread p base now ≡ ok (gone, c')
        → Step s s'
    releases_base :
        {s s' : Shared D S} (c c' : Client D S) (h base : ℕ) (thread : Text) (t : ThreadRecord)
        (now : ℕ) (gone : Bool)
        → s ≡ shared c
        → s' ≡ shared c'
        → base < c.priorities
        → lookup thread c.threads ≡ some t
        → Ready k c 0 h
        → release_lock_base c thread base now ≡ ok (gone, c')
        → Step s s'
    serves :
        {s s' : Shared D S} (o o' : Owner D S) (expiry now : ℕ)
        → s ≡ record { table = o.table; semaphores = o.semaphores }
        → s' ≡ record { table = o'.table; semaphores = o'.semaphores }
        → IsServing k o
        → 0 < expiry
        → check_leases o expiry now ≡ ok o'
        → Step s s'
    removes :
        {s s' : Shared D S} (t' : Table D) (i : ℕ)
        → s' ≡ record s { table = t' }
        → remove_record s.table i ≡ ok t'
        → Step s s'

  pub data Reachable (s : Shared D S) : Shared D S → Type 0 where
    start : Reachable s s
    next : {u v : Shared D S} → Reachable s u → Step u v → Reachable s v

  abbrev pub all_permits : Shared D S → ℕ → ℕ
  all_permits s q = value_at k s.semaphores q + held q s.table.records

  Step-permits :
      {s s' : Shared D S}
      → Step s s'
      → ((q : ℕ) → all_permits s q ≤ k.limit)
      → (q : ℕ) → all_permits s' q ≤ all_permits s q
  Step-permits {s} {s'} (tries c c' p h base thread t quota wait now a u u' hp hb ht r e) room q =
      let most : permits k c p ≤ k.limit =
        omega (arith, room p, ap (λ (x : Shared D S). all_permits x p) u) in
      let (_, b) =
        returned (a, c') (try_lock-Tried k thread t quota base wait now hp hb ht r most) e in
      rw (u, u') (omega (arith, b q))
  Step-permits (tries_base c c' h base thread t quota wait now a u u' hb ht r e) room q =
      let most : permits k c 0 ≤ k.limit =
        omega (arith, room 0, ap (λ (x : Shared D S). all_permits x 0) u) in
      let (_, b) =
        returned (a, c') (try_lock_base-Tried k thread t quota base wait now hb ht r most) e in
      rw (u, u') (omega (arith, b q))
  Step-permits (releases c c' p h base thread t now gone u u' hp hb ht r e) room q =
      let most : permits k c p ≤ k.limit =
        omega (arith, room p, ap (λ (x : Shared D S). all_permits x p) u) in
      let (b, _) =
        returned (gone, c') (release_lock-Released k thread t base now hp hb ht r most) e in
      rw (u, u') (omega (arith, b q))
  Step-permits (releases_base c c' h base thread t now gone u u' hb ht r e) room q =
      let most : permits k c 0 ≤ k.limit =
        omega (arith, room 0, ap (λ (x : Shared D S). all_permits x 0) u) in
      let (b, _) =
        returned (gone, c') (release_lock_base-Released k thread t base now hb ht r most) e in
      rw (u, u') (omega (arith, b q))
  Step-permits (serves o o' expiry now u u' v h e) room q =
      let b = returned o' (check_leases-balanced k expiry now v h) e in
      rw (u, u') (omega (arith, b q))
  Step-permits {s} (removes t' i u' e) room q =
      rw u' (omega (arith, remove_record-held s.table t' i q e))

  -- From permits of at most SEM_VALUE_MAX at every priority, any sequence of tries and releases of any processes, of
  -- passes of the server over the leases and of removals of records leaves at most as many permits of each priority;
  -- so the records that hold its lock at once are never more than the permits at the start.
  pub Reachable-permits :
      {s s' : Shared D S}
      → Reachable s s'
      → ((q : ℕ) → all_permits s q ≤ k.limit)
      → (q : ℕ) → (all_permits s' q ≤ all_permits s q) × (held q s'.table.records ≤ all_permits s q)
  Reachable-permits start room q = (omega arith, omega arith)
  Reachable-permits {s} {s'} (next {u} r step) room q =
      let before : (p : ℕ) → all_permits u p ≤ all_permits s p =
        λ (p : ℕ). (Reachable-permits r room p).0 in
      let here = Step-permits step (λ p. omega (arith, before p, room p)) q in
      (omega (arith, before q, here), omega (arith, before q, here))
