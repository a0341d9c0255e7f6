-- ===== src/ReadWriteLock/Consistent.antt =====
-- common/includes/read_write_lock.h: the state of a record that every call keeps, whoever makes it.
use react_fs.Prelude.{
  ℕ, ◌≡◌, refl, sym, ap, ◌∙◌, ◌⊎◌, Bool, true, false, not, ◌&&◌, Option, none, some, ok, err,
  unavailable, arith, ltb, ◌==◌, if◌then◌else◌, length, get_elem?, length-set, Bool-cases, inl, inr,
}
use react_fs.Prelude.Texts.{Text}
use react_fs.Instance.{is_available}
use react_fs.WriteLock.{Caller}
use react_fs.ReadWriteLock.{
  max_readers, RwRecord, RwLock, RwSession, is_current, check_lock_valid, touch, enter, first_free,
  Call, after, has_write_lock, has_thread_lock,
}
use react_fs.ReadWriteLock.Acquire.{
  attempt_write, attempt_read, write_held, read_held, placed, take_write, take_read,
}
use react_fs.ReadWriteLock.Readers.{
  used_readers, used_readers-length, used_readers-set, first_free-free,
}

-- The count is that of the used readers, of which there are none while a writer has the lock.
pub record IsConsistent (r : RwRecord) : Type 0 where
  pub sized : length r.readers ≡ max_readers
  pub counted : r.reader_count ≡ used_readers r.readers
  pub exclusive : r.w_lock_struct.write_locked ≡ true → r.reader_count ≡ 0

-- A call leaves a consistent record, also where it fails.
abbrev pub Keeps : {A : Type 0} → Call A → Type 0
Keeps x = IsConsistent x.1.slot

pub if-Keeps :
    {A : Type 0} (b : Bool) (x y : Call A)
    → (b ≡ true → Keeps x)
    → (b ≡ false → Keeps y)
    → Keeps (if b then x else y)
if-Keeps true x y h k = h refl
if-Keeps false x y h k = k refl

-- A record with the same readers, that a writer has or has not as before, is as consistent.
pub same-IsConsistent :
    {r q : RwRecord}
    → q.readers ≡ r.readers
    → q.reader_count ≡ r.reader_count
    → q.w_lock_struct.write_locked ≡ r.w_lock_struct.write_locked
    → IsConsistent r
    → IsConsistent q
same-IsConsistent e n w h = record {
  sized = ap (λ x. length x) e ∙ h.sized;
  counted = n ∙ h.counted ∙ ap (λ x. used_readers x) (sym e);
  exclusive = λ z. n ∙ h.exclusive (sym w ∙ z);
}

pub touch-IsConsistent :
    (s : RwSession) (now : ℕ) → IsConsistent s.slot → IsConsistent (touch s now).slot
unfolding touch
touch-IsConsistent s now h = same-IsConsistent refl refl refl h

-- A call that fails at once leaves the record, and one that goes on has stamped it.
pub enter-cases :
    (s : RwSession) (now : ℕ)
    → (enter s now ≡ (ok tt, touch s now))
      ⊎ ((l : RwLock) × (enter s now ≡ (err unavailable, record s { lock = l })))
unfolding enter touch check_lock_valid
enter-cases s now = elim (Bool-cases (is_current s now)) [
  | inl c ↦ elim (Bool-cases (is_available s.lock.state)) [
    | inl a ↦ inl (ground (arith, c, a))
    | inr a ↦ inr (s.lock, ground (arith, c, a))
  ]
  | inr c ↦ inr (record s.lock { state = react_fs.Instance.exception }, ground (arith, c))
]

-- What goes on after the start keeps the record consistent, if it does so from the stamped record.
pub after_write_held :
    {B : Type 0} (s : RwSession) (c : Caller) (next : Bool → RwSession → Call B)
    → IsConsistent s.slot
    → ((held : Bool) → Keeps (next held (touch s c.now)))
    → Keeps (after (has_write_lock s c) next)
unfolding has_write_lock
after_write_held s c next h k = elim (enter-cases s c.now) [
  | inl e ↦ rw e (k _)
  | inr (l, e) ↦ rw e (same-IsConsistent refl refl refl h)
]

pub after_thread_held :
    {B : Type 0} (s : RwSession) (id : Text) (now : ℕ) (next : Bool → RwSession → Call B)
    → IsConsistent s.slot
    → ((held : Bool) → Keeps (next held (touch s now)))
    → Keeps (after (has_thread_lock s id now) next)
unfolding has_thread_lock
after_thread_held s id now next h k = elim (enter-cases s now) [
  | inl e ↦ rw e (k _)
  | inr (l, e) ↦ rw e (same-IsConsistent refl refl refl h)
]

take_write-IsConsistent :
    (s : RwSession) (c : Caller) (owner uuid : Text)
    → s.slot.reader_count ≡ 0
    → IsConsistent s.slot
    → IsConsistent (take_write s c owner uuid).slot
unfolding take_write
take_write-IsConsistent s c owner uuid z h = record {
  sized = h.sized;
  counted = h.counted;
  exclusive = λ w. z;
}

write_held-IsConsistent :
    (t : RwSession) (c : Caller) (owner uuid : Text) (held : Bool)
    → IsConsistent t.slot
    → Keeps (write_held c owner uuid held t)
unfolding write_held
write_held-IsConsistent t c owner uuid true h = h
write_held-IsConsistent t c owner uuid false h =
    elim (Bool-cases (not t.slot.w_lock_struct.write_locked && t.slot.reader_count == 0)) [
      | inl free ↦ rw free (take_write-IsConsistent t c owner uuid (ground (arith, free)) h)
      | inr busy ↦ rw busy h
    ]

pub attempt_write-IsConsistent :
    (s : RwSession) (c : Caller) (owner uuid : Text)
    → IsConsistent s.slot
    → Keeps (attempt_write s c owner uuid)
unfolding attempt_write
attempt_write-IsConsistent s c owner uuid h =
    after_write_held s c (write_held c owner uuid) h (λ held.
      write_held-IsConsistent (touch s c.now) c owner uuid held (touch-IsConsistent s c.now h))

take_read-IsConsistent :
    (s : RwSession) (c : Caller) (i : ℕ)
    → s.slot.w_lock_struct.write_locked ≡ false
    → first_free s.slot.readers 0 ≡ some i
    → IsConsistent s.slot
    → IsConsistent (take_read s c i).slot
unfolding take_read
take_read-IsConsistent s c i w f h =
    let n = first_free-free s.slot.readers 0 i f in
    let at : i ≡ n.0 = omega (arith, n.2) in
    let there : get_elem? s.slot.readers i ≡ some n.1 =
      ap (λ k. get_elem? s.slot.readers k) at ∙ n.3 in
    record {
      sized = length-set s.slot.readers i _ ∙ h.sized;
      counted = omega (
        arith,
        h.counted,
        h.sized,
        used_readers-length s.slot.readers,
        used_readers-set s.slot.readers i n.1 _ there n.4 refl,
      );
      exclusive = λ z. absurd (ground (arith, z, w));
    }

read_held-IsConsistent :
    (t : RwSession) (c : Caller) (held : Bool)
    → t.slot.w_lock_struct.write_locked ≡ false
    → IsConsistent t.slot
    → Keeps (read_held c held t)
unfolding read_held
read_held-IsConsistent t c true w h = h
read_held-IsConsistent t c false w h = elim (Bool-cases (ltb t.slot.reader_count max_readers)) [
  | inl room ↦ rw room (at (first_free t.slot.readers 0) refl)
  | inr full ↦ rw full h
]
  where
    at : (found : Option ℕ) → first_free t.slot.readers 0 ≡ found → Keeps (placed t c found)
    at none e = h
    at (some i) e = take_read-IsConsistent t c i w e h

pub attempt_read-IsConsistent :
    (s : RwSession) (c : Caller) → IsConsistent s.slot → Keeps (attempt_read s c)
unfolding attempt_read touch
attempt_read-IsConsistent s c h =
    if-Keeps s.slot.w_lock_struct.write_locked _ _ (λ w. h)
      (λ w.
        after_thread_held s c.thread_id c.now (read_held c) h
          (λ held. read_held-IsConsistent (touch s c.now) c held w (touch-IsConsistent s c.now h)))
