-- ===== src/Watergate/Counted.antt =====
-- lock_table.h: the locks that the pass over the leases takes back are those that it counts.
use react_fs.Prelude.{
  ℕ, zero, suc, ◌+◌, ◌^◌, ◌≤◌, ◌<◌, ◌≡◌, refl, sym, ap, ◌∙◌, List, [], ◌∷◌, arith, leb, length, All,
  get_or, Bool-cases, inl, inr,
}
use react_fs.Watergate.{LeaseState, PriorityLock, LockRecord, max_priority, is_locked, u64}
use react_fs.Watergate.Manager.{
  force_release, count_overdue, force_locks, count_locks, check_expired, check_expired_from,
}
use react_fs.Watergate.Lease.{freed}
use react_fs.Watergate.Held.{one, holds, held}

force_release-counted :
    (lease expiry now : ℕ) (l : PriorityLock) (n : ℕ)
    → n + 1 < 2 ^ 32
    → one (force_release lease expiry now l).state + count_overdue lease expiry now l n
      ≡ one l.state + n
force_release-counted lease expiry now l n room = elim (Bool-cases (is_locked l.state)) [
  | inr u ↦ rw u (rw u refl)
  | inl u ↦ (elim (Bool-cases (leb (u64 (u64 (l.acquired_time + lease) + expiry)) now)) [
    | inl late ↦ rw (u, late) (omega (arith, room))
    | inr timely ↦ rw (u, timely) (rw u refl)
  ])
]

pub one-le : (s : LeaseState) → one s ≤ 1
one-le s = ground arith

force_locks-counted :
    (lease expiry now q : ℕ) (ls : List PriorityLock) (counts : List ℕ)
    → length ls ≡ length counts
    → get_or counts q 0 + 1 < 2 ^ 32
    → one (get_or (force_locks lease expiry now ls) q freed).state
        + get_or (count_locks lease expiry now ls counts) q 0
      ≡ one (get_or ls q freed).state + get_or counts q 0
unfolding force_locks count_locks
force_locks-counted lease expiry now q [] [] e room = refl
force_locks-counted lease expiry now q [] (n ∷ counts) e room = absurd (omega (arith, e))
force_locks-counted lease expiry now q (l ∷ ls) [] e room = absurd (omega (arith, e))
force_locks-counted lease expiry now zero (l ∷ ls) (n ∷ counts) e room =
    force_release-counted lease expiry now l n room
force_locks-counted lease expiry now (suc q) (l ∷ ls) (n ∷ counts) e room =
    force_locks-counted lease expiry now q ls counts (omega (arith, e)) room

length-count_locks :
    (lease expiry now : ℕ) (ls : List PriorityLock) (counts : List ℕ)
    → length (count_locks lease expiry now ls counts) ≡ length counts
unfolding count_locks
length-count_locks lease expiry now [] counts = refl
length-count_locks lease expiry now (l ∷ ls) [] = refl
length-count_locks lease expiry now (l ∷ ls) (n ∷ counts) =
    ap suc (length-count_locks lease expiry now ls counts)

-- A record with a lock for each priority.
abbrev pub IsWhole : {D : Type 0} → LockRecord D → Type 0
IsWhole r = length r.lock.locks ≡ max_priority

module _ {D : Type 0} (lease expiry now : ℕ) where
  check_expired-counted :
      (q : ℕ) (r : LockRecord D) (counts : List ℕ)
      → IsWhole r
      → length counts ≡ max_priority
      → get_or counts q 0 + 1 < 2 ^ 32
      → (holds q (check_expired lease expiry now r counts).0
            + get_or (check_expired lease expiry now r counts).1 q 0
          ≡ holds q r + get_or counts q 0)
        × (length (check_expired lease expiry now r counts).1 ≡ max_priority)
  unfolding check_expired
  check_expired-counted q r counts w e room = elim (Bool-cases r.used) [
    | inl u ↦ rw u (
      force_locks-counted lease expiry now q r.lock.locks counts (w ∙ sym e) room,
      length-count_locks lease expiry now r.lock.locks counts ∙ e,
    )
    | inr u ↦ rw u (refl, e)
  ]

  pub check_expired_from-counted :
      (q : ℕ) (rs : List (LockRecord D)) (counts : List ℕ)
      → All IsWhole rs
      → length counts ≡ max_priority
      → get_or counts q 0 + length rs < 2 ^ 32
      → held q (check_expired_from lease expiry now rs counts).0
          + get_or (check_expired_from lease expiry now rs counts).1 q 0
        ≡ held q rs + get_or counts q 0
  unfolding check_expired_from
  check_expired_from-counted q [] counts w e room = refl
  check_expired_from-counted q (r ∷ rs) counts w e room =
      let (here, kept) = check_expired-counted q r counts w.0 e (omega (arith, room)) in
      let counts' : List ℕ = (check_expired lease expiry now r counts).1 in
      let room' : get_or counts' q 0 + length rs < 2 ^ 32 =
        omega (arith, room, here, one-le (get_or r.lock.locks q freed).state) in
      omega (arith, here, check_expired_from-counted q rs counts' w.1 kept room')
