-- ===== src/ReadWriteLock/Release.antt =====
-- common/includes/read_write_lock.h: a release keeps the record consistent, as does the clearing of an instance.
use react_fs.Prelude.{
  ℕ, ◌≡◌, refl, ◌∙◌, Bool, true, false, not, ◌&&◌, Option, none, some, List, [], ◌∷◌, ok, err,
  arith, ltb, Bool-cases, inl, inr,
}
use react_fs.Prelude.Texts.{Text, is_empty}
use react_fs.Instance.{is_available}
use react_fs.WriteLock.{Caller, is_process}
use react_fs.ReadWriteLock.{RwSession, touch, reader_index, used_at, Call, after}
use react_fs.ReadWriteLock.Acquire.{
  own_write, clear_reads, check_and_clear, release_threads, reading_threads, write_released,
  released_at, read_released, give_up_write, give_up_read, release_write_lock, release_read_lock,
  release_read_at,
}
use react_fs.ReadWriteLock.Readers.{reader_index-used, unused-used}
use react_fs.ReadWriteLock.Consistent.{
  IsConsistent, Keeps, if-Keeps, same-IsConsistent, touch-IsConsistent, after_write_held,
  after_thread_held,
}

give_up_write-IsConsistent :
    (t : RwSession) → IsConsistent t.slot → IsConsistent (give_up_write t).slot
unfolding give_up_write
give_up_write-IsConsistent t h = record {
  sized = h.sized;
  counted = h.counted;
  exclusive = λ e. absurd cc;
}

write_released-IsConsistent :
    (held : Bool) (t : RwSession) → IsConsistent t.slot → Keeps (write_released held t)
write_released-IsConsistent true t h = give_up_write-IsConsistent t h
write_released-IsConsistent false t h = h

pub release_write_lock-IsConsistent :
    (s : RwSession) (c : Caller) (got : Bool)
    → IsConsistent s.slot
    → Keeps (release_write_lock s c got)
unfolding release_write_lock
release_write_lock-IsConsistent s c got h =
    if-Keeps (not (is_available s.lock.state)) _ _ (λ e. h)
      (λ e.
        if-Keeps (is_empty s.lock.txn_id) _ _ (λ e. h)
          (λ e.
            if-Keeps (not got) _ _ (λ e. h)
              (λ e.
                if-Keeps s.slot.w_lock_struct.write_locked _ _
                  (λ e. after_write_held s c write_released h (λ held.
                    write_released-IsConsistent held (touch s c.now)
                      (touch-IsConsistent s c.now h)))
                  (λ e. h))))

give_up_read-IsConsistent :
    (t : RwSession) (id : Text) (i : ℕ)
    → used_at t.slot.readers i ≡ true
    → IsConsistent t.slot
    → IsConsistent (give_up_read t id i).slot
unfolding give_up_read
give_up_read-IsConsistent t id i u h =
    let n = unused-used t.slot.readers i u in
    record {
      sized = n.1 ∙ h.sized;
      counted = omega (arith, h.counted, n.0);
      exclusive = λ e. omega (arith, h.exclusive e);
    }

read_released-IsConsistent :
    (t : RwSession) (id : Text) (now : ℕ) (held : Bool)
    → IsConsistent t.slot
    → Keeps (read_released id now held t)
read_released-IsConsistent t id now false h = same-IsConsistent refl refl refl h
read_released-IsConsistent t id now true h = elim (Bool-cases (ltb 0 t.slot.reader_count)) [
  | inl some_reader ↦ rw some_reader (at (reader_index t id) refl)
  | inr no_reader ↦ rw no_reader h
]
  where
    at : (found : Option ℕ) → reader_index t id ≡ found → Keeps (released_at id now t found)
    at none e = same-IsConsistent refl refl refl h
    at (some i) e =
        same-IsConsistent refl refl refl
          (give_up_read-IsConsistent t id i (reader_index-used t id i e) h)

pub release_read_at-IsConsistent :
    (s : RwSession) (id : Text) (now : ℕ) (got : Bool)
    → IsConsistent s.slot
    → Keeps (release_read_at s id now got)
unfolding release_read_at
release_read_at-IsConsistent s id now false h = h
release_read_at-IsConsistent s id now true h =
    after_thread_held s id now (read_released id now) h
      (λ held. read_released-IsConsistent (touch s now) id now held (touch-IsConsistent s now h))

pub release_read_lock-IsConsistent :
    (s : RwSession) (c : Caller) (got : Bool)
    → IsConsistent s.slot
    → Keeps (release_read_lock s c got)
unfolding release_read_lock
release_read_lock-IsConsistent s c got h =
    if-Keeps (not (is_available s.lock.state)) _ _ (λ e. h)
      (λ e. release_read_at-IsConsistent s c.thread_id c.now got h)

after-Keeps :
    {A B : Type 0} (x : Call A) (next : A → RwSession → Call B)
    → Keeps x
    → ((a : A) (t : RwSession) → IsConsistent t.slot → Keeps (next a t))
    → Keeps (after x next)
after-Keeps (err e, t) next h k = h
after-Keeps (ok a, t) next h k = k a t h

release_threads-IsConsistent :
    (s : RwSession) (ids : List Text) (now : ℕ) (got : Bool)
    → IsConsistent s.slot
    → Keeps (release_threads s ids now got)
unfolding release_threads
release_threads-IsConsistent s [] now got h = h
release_threads-IsConsistent s (id ∷ ids) now got h =
    after-Keeps (release_read_at s id now got) (λ _ t. release_threads t ids now got)
      (release_read_at-IsConsistent s id now got h)
      (λ _ t k. release_threads-IsConsistent t ids now got k)

own_write-IsConsistent :
    (s : RwSession) (c : Caller) (got : Bool) → IsConsistent s.slot → Keeps (own_write s c got)
unfolding own_write
own_write-IsConsistent s c got h =
    if-Keeps
      (s.slot.w_lock_struct.write_locked
        && is_process s.slot.w_lock_struct.owner.process_id c.process_id)
      _ _ (λ e. release_write_lock-IsConsistent s c got h) (λ e. h)

pub check_and_clear-IsConsistent :
    (s : RwSession) (c : Caller) (got : Bool)
    → IsConsistent s.slot
    → Keeps (check_and_clear s c got)
unfolding check_and_clear
check_and_clear-IsConsistent s c got h =
    if-Keeps s.slot.w_lock_struct.used _ _
      (λ u.
        after-Keeps (own_write s c got) (clear_reads c got) (own_write-IsConsistent s c got h)
          (λ _ t k.
            release_threads-IsConsistent t (reading_threads t.slot.readers t.lock.reader_threads)
              c.now got k))
      (λ u. h)
