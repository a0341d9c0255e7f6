-- ===== src/ReadWriteLock/RoundTrip.antt =====
-- common/includes/read_write_lock.h: a read lock that is taken and released.
use react_fs.Prelude.{
  ℕ, ◌<◌, ◌≡◌, sym, ap, ◌∙◌, true, false, none, some, List, ok, arith, ◌==◌, ==_iff, ==-ne,
  if◌then◌else◌, get_elem?_lt, get_elem?-set_self, get_elem?-set_ne, Bool-cases, inl, inr,
}
use react_fs.Prelude.Texts.{Text}
use react_fs.WriteLock.{Caller}
use react_fs.ReadWriteLock.{Reader, max_readers, RwSession, touch, used_at, reader_index}
use react_fs.ReadWriteLock.Acquire.{
  attempt_read, take_read, unused, stamped, give_up_read, release_read_lock, release_read_at,
}
use react_fs.ReadWriteLock.Readers.{used_at-some}
use react_fs.ReadWriteLock.Readers.{reader_index-used}
use react_fs.ReadWriteLock.Consistent.{IsConsistent}
use react_fs.ReadWriteLock.Hold.{
  IsLive, IsReading, has_thread_lock-live, attempt_read-new, find_thread-erase,
}

-- A session that is live is so at once after a call.
touched-IsLive :
    (s : RwSession) (c : Caller) (i : ℕ)
    → IsLive s c.now
    → IsLive (take_read (touch s c.now) c i) c.now
unfolding take_read touch
touched-IsLive s c i v = record { available = v.available; current = ground (arith, v.current) }

used_at-unused :
    (rs : List Reader) (i j : ℕ)
    → used_at rs i ≡ true
    → used_at (unused rs i) j ≡ (if i == j then false else used_at rs j)
used_at-unused rs i j u =
    let n = used_at-some rs i u in
    let q = record n.0 { used = false } in
    elim (Bool-cases (i == j)) [
      | inl e ↦
          ground
            (arith, e, n.1, (==_iff i j).0 e, get_elem?-set_self rs i q (get_elem?_lt rs i n.0 n.1))
      | inr e ↦ ground (arith, e, n.1, get_elem?-set_ne rs i j q (==-ne i j e))
    ]

released-unregistered :
    (t : RwSession) (id : Text) (i now : ℕ)
    → reader_index (stamped now (give_up_read t id i)) id ≡ none
unfolding reader_index give_up_read
released-unregistered t id i now = ground (arith, find_thread-erase id t.lock.reader_threads)

release_read_lock-registered :
    (t : RwSession) (c : Caller) (i : ℕ)
    → IsLive t c.now
    → reader_index t c.thread_id ≡ some i
    → 0 < t.slot.reader_count
    → release_read_lock t c true
      ≡ (ok true, stamped c.now (give_up_read (touch t c.now) c.thread_id i))
unfolding release_read_lock release_read_at touch
release_read_lock-registered t c i v r some_read =
    ground (arith, v.available, has_thread_lock-live t c.thread_id c.now v, r, some_read)

-- On a live session over a consistent record with no writer and a place for a reader, a read lock that is taken and
-- released by a thread which does not have it already leaves the count and the readers in use as they were, and the
-- thread unregistered.
pub release_read_lock-attempt_read :
    (s : RwSession) (c : Caller)
    → IsLive s c.now
    → s.slot.w_lock_struct.write_locked ≡ false
    → IsConsistent s.slot
    → s.slot.reader_count < max_readers
    → reader_index s c.thread_id ≡ none
    → (t u : RwSession) × (attempt_read s c ≡ (ok true, t))
      × (release_read_lock t c true ≡ (ok true, u))
      × (u.slot.reader_count ≡ s.slot.reader_count)
      × ((j : ℕ) → used_at u.slot.readers j ≡ used_at s.slot.readers j)
      × (reader_index u c.thread_id ≡ none)
unfolding give_up_read touch
release_read_lock-attempt_read s c v w h room new =
    let n = attempt_read-new s c v w h room new in
    let i = n.0 in
    let t = take_read (touch s c.now) c i in
    let used : used_at t.slot.readers i ≡ true = reader_index-used t c.thread_id i n.2.registered in
    let r =
      release_read_lock-registered t c i (touched-IsLive s c i v) n.2.registered
        (omega (arith, n.2.more)) in
    (
      t,
      stamped c.now (give_up_read (touch t c.now) c.thread_id i),
      n.1,
      r,
      omega (arith, n.2.more),
      λ j. used_at-unused t.slot.readers i j used ∙ same_use s t i j n.2,
      released-unregistered (touch t c.now) c.thread_id i c.now,
    )
  where
    same_use :
        (s t : RwSession) (i j : ℕ)
        → IsReading s t c.thread_id i
        → (if i == j then false else used_at t.slot.readers j) ≡ used_at s.slot.readers j
    same_use s t i j r = elim (Bool-cases (i == j)) [
      | inl e ↦ rw (e, ← (==_iff i j).0 e) (sym r.new)
      | inr e ↦ rw e (
          ap (λ o. elim o [ none ↦ false | some q ↦ q.used ])
            (r.others j (λ z. ==-ne i j e (sym z))))
    ]
