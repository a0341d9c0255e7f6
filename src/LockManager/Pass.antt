-- ===== src/LockManager/Pass.antt =====
-- common/src/write_lock_manager.cpp: what a pass of the manager leaves of the locks.
use react_fs.Prelude.{
  ℕ, zero, suc, ◌+◌, ◌-◌, ◌%◌, ◌^◌, ◌≤◌, ◌<◌, ◌≡◌, refl, sym, ap, ◌∙◌, Bool, true, false, Option,
  none, some, List, [], ◌∷◌, Result, Returns, ok, err, ◌>>=◌, ◌>>◌, guard, or_fail, ltb, ◌==◌,
  if◌then◌else◌, set, get_elem?, length, length-set, All, All-set, All-get_elem?, get_elem?-in,
  postcondition, wild_access, arith, Bool-cases, inl, inr,
}
use mathlib.Core.Path.{subst}
use react_fs.Prelude.Texts.{Text}
use react_fs.LockTable.{
  LockRecord, Table, max_count, get_at, remove_lock, find_index, release_at, zero_record,
  less_reference,
}
use react_fs.LockTable.Scan.{IsValid, used_in}
use react_fs.LockTable.Add.{IsName}
use react_fs.LockTable.Remove.{remove_lock-IsValid, remove_lock_lem}
use react_fs.LockManager.{is_stale, expire, is_idle, check_at, check_from, check_lock_states}

-- Every record in use has a proper name.
abbrev pub IsNamed : LockRecord → Type 0
IsNamed l = l.used ≡ true → IsName l.name

abbrev pub AreNamed : List LockRecord → Type 0
AreNamed ls = All IsNamed ls

used_in-set :
    (ls : List LockRecord) (i : ℕ) (l q : LockRecord)
    → get_elem? ls i ≡ some l
    → q.used ≡ l.used
    → used_in (set ls i q) ≡ used_in ls
used_in-set [] i l q e u = refl
used_in-set (x ∷ ls) zero l q e u = ground (arith, e, u)
used_in-set (x ∷ ls) (suc i) l q e u =
    ap (λ n. (if x.used then 1 else 0) + n) (used_in-set ls i l q e u)

-- A table whose records in use have proper names, and as many records as before.
abbrev Keeps : ℕ → Table → Type 0
Keeps n t = AreNamed t.locks × (length t.locks ≡ n)

abbrev AllKeep : ℕ → Result (Bool × Table) → Type 0
AllKeep n (err e) = Unit {0}
AllKeep n (ok r) = Keeps n r.1

release_at-Keeps :
    (t : Table) (found : Option ℕ) (n : ℕ) → Keeps n t → AllKeep n (release_at t found)
unfolding release_at
release_at-Keeps t none n h = h
release_at-Keeps t (some i) n h = at (get_elem? t.locks i) refl
  where
    left :
        (l : LockRecord) (last : Bool)
        → IsNamed (less_reference l)
        → AllKeep n (
            if last
            then ok (
              true,
              record t {
                locks = set t.locks i zero_record;
                used_count = (t.used_count + 2 ^ 32 - 1) % 2 ^ 32;
              },
            )
            else ok (false, record t { locks = set t.locks i (less_reference l) }))
    left l true g = (
      All-set IsNamed t.locks i zero_record (λ u. absurd cc) h.0,
      length-set t.locks i zero_record ∙ h.1,
    )
    left l false g = (
      All-set IsNamed t.locks i (less_reference l) g h.0,
      length-set t.locks i (less_reference l) ∙ h.1,
    )

    freed :
        (l : LockRecord) (used : Bool)
        → IsNamed (less_reference l)
        → AllKeep n (
            guard used postcondition
            >> (if (less_reference l).ref_count == 0
                then ok (
                  true,
                  record t {
                    locks = set t.locks i zero_record;
                    used_count = (t.used_count + 2 ^ 32 - 1) % 2 ^ 32;
                  },
                )
                else ok (false, record t { locks = set t.locks i (less_reference l) })))
    freed l false g = tt
    freed l true g = left l ((less_reference l).ref_count == 0) g

    less_named : (l : LockRecord) → IsNamed l → IsNamed (less_reference l)
    less_named l g = elim (Bool-cases (ltb 0 l.ref_count)) [ inl e ↦ rw e g | inr e ↦ rw e g ]

    at :
        (o : Option LockRecord)
        → get_elem? t.locks i ≡ o
        → AllKeep n (
            or_fail o wild_access >>= λ l.
            (guard l.used postcondition
              >> (if (less_reference l).ref_count == 0
                  then ok (
                    true,
                    record t {
                      locks = set t.locks i zero_record;
                      used_count = (t.used_count + 2 ^ 32 - 1) % 2 ^ 32;
                    },
                  )
                  else ok (false, record t { locks = set t.locks i (less_reference l) }))))
    at none e = tt
    at (some l) e = freed l l.used (less_named l (All-get_elem? IsNamed t.locks i l e h.0))

-- What a step of the pass needs of the table, and leaves.
abbrev pub IsSound : ℕ → Table → Type 0
IsSound n t = IsValid t × (AreNamed t.locks × (length t.locks ≡ n))

remove_lock-IsSound :
    (t : Table) (name : Text) (n : ℕ)
    → IsName name
    → IsSound n t
    → Returns (remove_lock t name true) λ r. IsSound n r.1
remove_lock-IsSound t name n g h =
    let r = remove_lock-IsValid name g h.0 in
    let k : AllKeep n (ok r.0) =
      subst (AllKeep n) (sym (remove_lock_lem t name g) ∙ r.1)
        (release_at-Keeps t (find_index name t.locks 0) n h.1) in
    (r.0, r.1, (r.2, k))

expire-used : (l : LockRecord) (now : ℕ) → (expire l now).used ≡ l.used
expire-used l now = elim (Bool-cases (is_stale l now)) [ inl e ↦ rw e refl | inr e ↦ rw e refl ]

expire-name : (l : LockRecord) (now : ℕ) → (expire l now).name ≡ l.name
expire-name l now = elim (Bool-cases (is_stale l now)) [ inl e ↦ rw e refl | inr e ↦ rw e refl ]

expired-IsSound :
    (t : Table) (ii : ℕ) (l : LockRecord) (now n : ℕ)
    → get_elem? t.locks ii ≡ some l
    → IsSound n t
    → IsSound n (record t { locks = set t.locks ii (expire l now) })
expired-IsSound t ii l now n e h = (
  record {
    counted = h.0.counted ∙ sym (used_in-set t.locks ii l (expire l now) e (expire-used l now));
    short = omega (arith, h.0.short, length-set t.locks ii (expire l now));
  },
  (
    All-set IsNamed t.locks ii (expire l now)
        (λ u.
          subst IsName (sym (expire-name l now))
            (All-get_elem? IsNamed t.locks ii l e h.1.0 (sym (expire-used l now) ∙ u)))
        h.1.0,
    length-set t.locks ii (expire l now) ∙ h.1.1,
  ),
)

check_at-IsSound :
    (t : Table) (ii now n : ℕ)
    → ii < n
    → IsSound n t
    → Returns (check_at t ii now true) λ t'. IsSound n t'
unfolding check_at get_at
check_at-IsSound t ii now n short h =
    let found = get_elem?-in t.locks ii (omega (arith, h.1.1)) in
    let l = found.0 in
    let t' : Table = record t { locks = set t.locks ii (expire l now) } in
    let bound : ii < length t.locks = omega (arith, h.1.1) in
    let next = expired-IsSound t ii l now n found.1 h in
    elim (Bool-cases l.used) [
      | inr free ↦ (t, ground (arith, bound, found.1, free), h)
      | inl used ↦ elim (Bool-cases (is_idle (expire l now) now)) [
        | inr busy ↦ (t', ground (arith, bound, found.1, used, busy), next)
        | inl idle ↦
            (let r =
                remove_lock-IsSound t' l.name n
                  (All-get_elem? IsNamed t.locks ii l found.1 h.1.0 used) next in
              (r.0.1, rw (found.1, used) (ground (arith, bound, idle, r.1)), r.2))
      ]
    ]

check_from-IsSound :
    (k ii : ℕ) (t : Table) (now n : ℕ)
    → ii + k ≤ n
    → IsSound n t
    → Returns (check_from k ii t now true) λ t'. IsSound n t'
unfolding check_from
check_from-IsSound zero ii t now n b h = (t, refl, h)
check_from-IsSound (suc k) ii t now n b h =
    let s = check_at-IsSound t ii now n (omega arith) h in
    let r = check_from-IsSound k (suc ii) s.0 now n (omega arith) s.2 in (r.0, rw s.1 r.1, r.2)

-- A pass of the manager over a valid table whose names are proper, with the table's semaphore got whenever it
-- removes a record, ends, and leaves a valid table of as many records whose names are proper.
pub check_lock_states-IsValid :
    (t : Table) (running : Bool) (now : ℕ)
    → IsValid t
    → AreNamed t.locks
    → Returns
        (check_lock_states t running now true)
        λ t'. IsValid t' × (AreNamed t'.locks × (length t'.locks ≡ length t.locks))
unfolding check_lock_states
check_lock_states-IsValid t true now v a =
    check_from-IsSound (max_count t) 0 t now (max_count t) (omega arith) (v, (a, refl))
check_lock_states-IsValid t false now v a = (t, refl, (v, (a, refl)))
