-- ===== src/ReadWriteLock/Hold.antt =====
-- common/includes/read_write_lock.h: what a caller that takes or releases the lock for reading or for writing can
-- rely on.
use react_fs.Prelude.{
  ℕ, suc, ◌<◌, ◌≡◌, ◌≢◌, refl, sym, ap, ◌∙◌, Bool, true, false, none, some, List, [], ◌∷◌, ok,
  arith, get_elem?, get_elem?_lt, set, get_elem?-set_self, get_elem?-set_ne, Bool-cases, inl, inr,
}
use react_fs.Prelude.Texts.{Text, has_prefix_refl, same_text, same_text_refl}
use react_fs.Instance.{is_available}
use react_fs.WriteLock.{Caller}
use react_fs.ReadWriteLock.{
  Reader, max_readers, RwRecord, RwSession, is_current, check_lock_valid, touch, enter, owns,
  find_thread, erase_thread, put_thread, first_free, used_at, reader_index, is_found, Call,
  has_write_lock, has_thread_lock,
}
use react_fs.ReadWriteLock.Acquire.{
  attempt_write, attempt_read, write_held, read_held, take_write, take_read,
}
use react_fs.ReadWriteLock.Readers.{first_free-free, first_free-found}
use react_fs.ReadWriteLock.Consistent.{IsConsistent}

-- The call answers false, and leaves the readers, the count and the owner of the record.
abbrev pub ReturnsFalse : Call Bool → RwRecord → Type 0
ReturnsFalse x r =
    (t : RwSession) × (x ≡ (ok false, t))
    × (t.slot.readers ≡ r.readers)
    × (t.slot.reader_count ≡ r.reader_count)
    × (t.slot.w_lock_struct.owner ≡ r.w_lock_struct.owner)

-- The instance is usable, its record is still its own, and was used less than ten minutes ago.
pub record IsLive (s : RwSession) (now : ℕ) : Type 0 where
  pub available : is_available s.lock.state ≡ true
  pub current : is_current s now ≡ true

pub enter-live : (s : RwSession) (now : ℕ) → IsLive s now → enter s now ≡ (ok tt, touch s now)
unfolding enter check_lock_valid
enter-live s now v = ground (arith, v.available, v.current)

pub has_write_lock-live :
    (s : RwSession) (c : Caller)
    → IsLive s c.now
    → has_write_lock s c ≡ (ok (owns s c), touch s c.now)
unfolding has_write_lock touch
has_write_lock-live s c v = rw (enter-live s c.now v) refl

pub has_thread_lock-live :
    (s : RwSession) (id : Text) (now : ℕ)
    → IsLive s now
    → has_thread_lock s id now ≡ (ok (is_found (reader_index s id)), touch s now)
unfolding has_thread_lock touch reader_index
has_thread_lock-live s id now v = rw (enter-live s now v) refl

taken-owns :
    (s : RwSession) (c : Caller) (owner uuid : Text) → owns (take_write s c owner uuid) c ≡ true
unfolding take_write
taken-owns s c owner uuid = ground (arith, has_prefix_refl uuid, has_prefix_refl c.thread_id)

-- A round of `write_lock` on a live session whose record has neither a writer nor readers takes the lock: the
-- new transaction id is the instance's, and its caller is the owner.
pub attempt_write-free :
    (s : RwSession) (c : Caller) (owner uuid : Text)
    → IsLive s c.now
    → s.slot.w_lock_struct.write_locked ≡ false
    → s.slot.reader_count ≡ 0
    → (attempt_write s c owner uuid ≡ (ok true, take_write (touch s c.now) c owner uuid))
      × (owns (take_write (touch s c.now) c owner uuid) c ≡ true)
unfolding attempt_write write_held touch
attempt_write-free s c owner uuid v free none_reads = (
  rw (has_write_lock-live s c v) (ground (arith, free, none_reads)),
  taken-owns (touch s c.now) c owner uuid,
)

-- While there are readers on a consistent record, a round of `write_lock` of any live instance, by any caller, is to be
-- repeated, and leaves the readers, the count and the owner.
pub attempt_write-reading :
    (s : RwSession) (c : Caller) (owner uuid : Text)
    → IsLive s c.now
    → IsConsistent s.slot
    → 0 < s.slot.reader_count
    → ReturnsFalse (attempt_write s c owner uuid) s.slot
unfolding attempt_write write_held touch
attempt_write-reading s c owner uuid v h some_read =
    let free : s.slot.w_lock_struct.write_locked ≡ false =
      no_writer s.slot.w_lock_struct.write_locked h.exclusive some_read in
    (
      touch s c.now,
      rw (has_write_lock-live s c v) (ground (arith, free, some_read)),
      refl,
      refl,
      refl,
    )
  where
    no_writer : {n : ℕ} (w : Bool) → (w ≡ true → n ≡ 0) → 0 < n → w ≡ false
    no_writer true h l = absurd (omega (arith, h refl, l))
    no_writer false h l = refl

find_thread-put :
    (id : Text) (i : ℕ) (threads : List (Text × ℕ))
    → find_thread id (put_thread id i threads) ≡ some i
unfolding find_thread
find_thread-put id i threads = ground (arith, same_text_refl id)

pub find_thread-erase :
    (id : Text) (threads : List (Text × ℕ)) → find_thread id (erase_thread id threads) ≡ none
unfolding find_thread erase_thread
find_thread-erase id [] = refl
find_thread-erase id ((key, i) ∷ rest) = elim (Bool-cases (same_text key id)) [
  | inl same ↦ ground (arith, same, find_thread-erase id rest)
  | inr other ↦ ground (arith, other, find_thread-erase id rest)
]

used_at-of :
    (rs : List Reader) (i : ℕ) (r : Reader) → get_elem? rs i ≡ some r → used_at rs i ≡ r.used
used_at-of rs i r e = ground (arith, e)

pub reader_index-of :
    (s : RwSession) (id : Text) (i : ℕ)
    → find_thread id s.lock.reader_threads ≡ some i
    → used_at s.slot.readers i ≡ true
    → reader_index s id ≡ some i
unfolding reader_index
reader_index-of s id i f u = ground (arith, f, u)

-- The record of a session with the reader of an index added.
pub record IsReading (s t : RwSession) (id : Text) (i : ℕ) : Type 0 where
  pub registered : reader_index t id ≡ some i
  pub more : t.slot.reader_count ≡ suc s.slot.reader_count
  pub new : used_at s.slot.readers i ≡ false
  pub others : (j : ℕ) → j ≢ i → get_elem? t.slot.readers j ≡ get_elem? s.slot.readers j

take_read-IsReading :
    (s : RwSession) (c : Caller) (i : ℕ)
    → IsConsistent s.slot
    → s.slot.reader_count < max_readers
    → first_free s.slot.readers 0 ≡ some i
    → IsReading s (take_read (touch s c.now) c i) c.thread_id i
unfolding take_read touch
take_read-IsReading s c i h room f =
    let n = first_free-free s.slot.readers 0 i f in
    let at : i ≡ n.0 = omega (arith, n.2) in
    let there : get_elem? s.slot.readers i ≡ some n.1 =
      ap (λ k. get_elem? s.slot.readers k) at ∙ n.3 in
    let q : Reader = record {
      used = true;
      process_id = c.process_id;
      thread_id = c.thread_id;
      lock_timestamp = c.now;
    } in
    let self = get_elem?-set_self s.slot.readers i q (get_elem?_lt s.slot.readers i n.1 there) in
    record {
      registered =
          reader_index-of (take_read (touch s c.now) c i) c.thread_id i
            (find_thread-put c.thread_id i s.lock.reader_threads)
            (used_at-of (set s.slot.readers i q) i q self);
      more = omega (arith, room);
      new = used_at-of s.slot.readers i n.1 there ∙ n.4;
      others = λ j ne. get_elem?-set_ne s.slot.readers i j q (λ e. ne (sym e));
    }

-- A round of `read_lock` on a live session over a consistent record with no writer and with a place for a reader gives
-- a thread that is not reading yet a place of its own, counts it, and leaves the other readers.
pub attempt_read-new :
    (s : RwSession) (c : Caller)
    → IsLive s c.now
    → s.slot.w_lock_struct.write_locked ≡ false
    → IsConsistent s.slot
    → s.slot.reader_count < max_readers
    → reader_index s c.thread_id ≡ none
    → (i : ℕ) × (attempt_read s c ≡ (ok true, take_read (touch s c.now) c i))
      × IsReading s (take_read (touch s c.now) c i) c.thread_id i
unfolding attempt_read read_held touch
attempt_read-new s c v w h room new =
    let f = first_free-found s.slot.readers 0 (omega (arith, h.counted, h.sized, room)) in
    (
      f.0,
      ground (arith, w, has_thread_lock-live s c.thread_id c.now v, new, room, f.1),
      take_read-IsReading s c f.0 h room f.1,
    )

-- A thread that is reading already gets the lock again, and is not counted twice.
pub attempt_read-again :
    (s : RwSession) (c : Caller) (i : ℕ)
    → IsLive s c.now
    → s.slot.w_lock_struct.write_locked ≡ false
    → reader_index s c.thread_id ≡ some i
    → attempt_read s c ≡ (ok true, touch s c.now)
unfolding attempt_read read_held touch
attempt_read-again s c i v w old =
    ground (arith, w, has_thread_lock-live s c.thread_id c.now v, old)
