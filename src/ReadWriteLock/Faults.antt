-- ===== src/ReadWriteLock/Faults.antt =====
-- common/includes/read_write_lock.h and common/src/read_write_lock_manager.cpp: where the code does not do what it
-- means to.
use react_fs.Prelude.{
  ℕ, ◌+◌, ◌-◌, ◌%◌, ◌^◌, ◌<◌, ◌≡◌, ◌≢◌, refl, ap, ◌∙◌, true, false, ◌&&◌, some, List, [], ◌∷◌, ◌++◌,
  ok, err, precondition, unavailable, arith, if◌then◌else◌, get_elem?, get_elem?_lt,
  get_elem?-set_self, All, Bool-cases, inl, inr,
}
use react_fs.Prelude.Texts.{Text, is_empty}
use react_fs.Instance.{is_available, disposed, exception}
use react_fs.WriteLock.{Caller, is_process}
use react_fs.LockManager.ReadWrite.{is_late, first_timestamp, expire_readers, expire_record}
use react_fs.ReadWriteLock.{
  Reader, RwRecord, RwLock, RwSession, touch, enter, is_current, check_lock_valid, find_thread,
  used_at, reader_index, has_thread_lock,
}
use react_fs.ReadWriteLock.Acquire.{
  Round, write_lock, stamped, give_up_read, release_read_lock, release_read_at, reading_threads,
  release_threads, destroy,
}
use react_fs.ReadWriteLock.Readers.{used_readers}
use react_fs.ReadWriteLock.Hold.{IsLive, has_thread_lock-live, reader_index-of}
use react_fs.ReadWriteLock.Waiting.{IsPatient, at_round, write_lock-granted}

-- A pass of the manager looks at the time of the first reader of the record alone: if that is more than five minutes
-- ago, whether or not that reader still has the lock, every reader loses its lock, however new it is.
pub expire_record-first :
    (r : RwRecord) (now : ℕ)
    → is_late now (first_timestamp r.readers) ≡ true
    → used_readers (expire_record r now).readers ≡ 0
unfolding expire_record
expire_record-first r now late = all_gone r.readers (first_timestamp r.readers) r.reader_count late
  where
    all_gone :
        (rs : List Reader) (since count : ℕ)
        → is_late now since ≡ true
        → used_readers (expire_readers rs since now count).0 ≡ 0
    all_gone [] since count e = refl
    all_gone (r ∷ rs) since count e =
        let n =
          all_gone rs since
            (if r.used && is_late now since then (count + 2 ^ 64 - 1) % 2 ^ 64 else count) e in
        let head : ◌≡◌ {A = ℕ}
            (if (if r.used && is_late now since then record r { used = false } else r).used
              then 1
              else 0)
            0 =
          ground (arith, e) in
        omega (arith, n, head)

-- And if it is not, every reader keeps its lock, however old it is.
pub expire_record-first_early :
    (r : RwRecord) (now : ℕ)
    → is_late now (first_timestamp r.readers) ≡ false
    → (expire_record r now).readers ≡ r.readers
unfolding expire_record
expire_record-first_early r now early =
    all_stay r.readers (first_timestamp r.readers) r.reader_count early
  where
    all_stay :
        (rs : List Reader) (since count : ℕ)
        → is_late now since ≡ false
        → (expire_readers rs since now count).0 ≡ rs
    all_stay [] since count e = refl
    all_stay (r ∷ rs) since count e =
        let z : r.used && is_late now since ≡ false = ground (arith, e) in
        rw z (ap (λ xs. r ∷ xs) (all_stay rs since count e))

-- A release looks up the place of the caller's thread in the instance, and not whose reader stands there: where the
-- place has been given to another process meanwhile, the other's lock is released.
pub release_read_lock-other :
    (s : RwSession) (c : Caller) (i : ℕ) (r : Reader)
    → IsLive s c.now
    → 0 < s.slot.reader_count
    → find_thread c.thread_id s.lock.reader_threads ≡ some i
    → get_elem? s.slot.readers i ≡ some r
    → r.used ≡ true
    → r.process_id ≢ c.process_id
    → (t : RwSession) × (release_read_lock s c true ≡ (ok true, t))
      × (used_at t.slot.readers i ≡ false)
unfolding release_read_lock release_read_at touch give_up_read
release_read_lock-other s c i r v some_read f g u other =
    let at : used_at s.slot.readers i ≡ true = ground (arith, g, u) in
    let index : reader_index s c.thread_id ≡ some i = reader_index-of s c.thread_id i f at in
    let index' : reader_index (touch s c.now) c.thread_id ≡ some i =
      reader_index-of (touch s c.now) c.thread_id i f at in
    let q = record r { used = false } in
    let self = get_elem?-set_self s.slot.readers i q (get_elem?_lt s.slot.readers i r g) in
    (
      stamped c.now (give_up_read (touch s c.now) c.thread_id i),
      ground (
        arith,
        v.available,
        has_thread_lock-live s c.thread_id c.now v,
        index,
        index',
        some_read,
      ),
      ground (arith, g, self),
    )

-- The lock is not given twice to the thread that has it, as the comment on `write_lock` has it: after a `write_lock`
-- that is granted, the next one of the same instance fails.
pub write_lock-again :
    (s : RwSession) (c : Caller) (owner : Text) (timeout : ℕ) (before rest : List Round) (r : Round)
    → is_available s.lock.state ≡ true
    → is_empty owner ≡ false
    → is_empty s.lock.txn_id ≡ true
    → is_empty r.uuid ≡ false
    → All (IsPatient c.now timeout) before
    → r.got ≡ true
    → IsLive (at_round s before r) r.now
    → (at_round s before r).slot.w_lock_struct.write_locked ≡ false
    → (at_round s before r).slot.reader_count ≡ 0
    → (t : RwSession) × (write_lock s c owner timeout (before ++ r ∷ rest) ≡ (ok (some r.uuid), t))
      × ((d : Caller) (rounds : List Round)
          → write_lock t d owner timeout rounds ≡ (err precondition, t))
unfolding write_lock
write_lock-again s c owner timeout before rest r a o e u p got v free none_reads =
    let n = write_lock-granted s c owner timeout before rest r a o e p got v free none_reads in
    let given : is_empty n.0.lock.txn_id ≡ false = ap (λ t. is_empty t) n.3 ∙ u in
    (n.0, n.1, λ d rounds. rw (n.4, o, given) refl)

enter-unavailable :
    (s : RwSession) (now : ℕ)
    → is_available s.lock.state ≡ false
    → (l : RwLock) × (enter s now ≡ (err unavailable, record s { lock = l }))
unfolding enter check_lock_valid
enter-unavailable s now a = elim (Bool-cases (is_current s now)) [
  | inl c ↦ (s.lock, ground (arith, c, a))
  | inr c ↦ (record s.lock { state = exception }, ground (arith, c))
]

release_threads-unavailable :
    (s : RwSession) (id : Text) (ids : List Text) (now : ℕ)
    → is_available s.lock.state ≡ false
    → (l : RwLock) × (release_threads s (id ∷ ids) now true
        ≡ (err unavailable, record s { lock = l }))
unfolding release_threads release_read_at has_thread_lock
release_threads-unavailable s id ids now a = let e = enter-unavailable s now a in (e.0, rw e.1 refl)

-- The destructor of an instance that holds the lock, for writing or for reading, throws, and the lock stays taken.
pub destroy_fails :
    (s : RwSession) (c : Caller)
    → s.slot.w_lock_struct.used ≡ true
    → (s.slot.w_lock_struct.write_locked
            && is_process s.slot.w_lock_struct.owner.process_id c.process_id
          ≡ true
        → (t : RwSession) × (destroy s c true ≡ (err unavailable, t)) × (t.slot ≡ s.slot))
      × ((id : Text) (ids : List Text)
          → s.slot.w_lock_struct.write_locked ≡ false
          → reading_threads s.slot.readers s.lock.reader_threads ≡ id ∷ ids
          → (t : RwSession) × (destroy s c true ≡ (err unavailable, t)) × (t.slot ≡ s.slot))
unfolding destroy
destroy_fails s c u = (
  λ w. (gone, ground (arith, u, w), refl),
  λ id ids w r.
      (let e = release_threads-unavailable gone id ids c.now refl in
        (record s { lock = e.0 }, ground (arith, u, w, r, e.1), refl)),
)
  where
    gone : RwSession
    gone = record s { lock = record s.lock { state = disposed } }
