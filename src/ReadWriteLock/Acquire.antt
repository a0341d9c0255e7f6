-- ===== src/ReadWriteLock/Acquire.antt =====
-- common/includes/read_write_lock.h: how the lock is taken and released.
use react_fs.Prelude.{
  ℕ, ◌+◌, ◌-◌, ◌%◌, ◌^◌, Bool, true, false, not, ◌&&◌, ◌||◌, Option, none, some, List, [], ◌∷◌, ok,
  err, precondition, unavailable, lock_timeout, lock_failed, exhausted, ltb, ◌==◌, if◌then◌else◌,
  get_elem?, set,
}
use react_fs.Prelude.Texts.{Text, is_empty}
use react_fs.Instance.{disposed, is_available}
use react_fs.WriteLock.{Caller, elapsed, is_process}
use react_fs.WriteLock.Acquire.{at_time}
use react_fs.ReadWriteLock.{
  Reader, max_readers, RwRecord, RwSession, with_w, put_thread, erase_thread, first_free, Call,
  after, has_write_lock, has_thread_lock, reader_index,
}

-- The record as a round of `write_lock` takes it; `uuid` is what `common_utils::uuid` returns.
unfoldable pub take_write : RwSession → Caller → Text → Text → RwSession
take_write s c owner uuid =
    let w = s.slot.w_lock_struct in
    record {
      lock = record s.lock { txn_id = uuid };
      slot = record s.slot {
        w_lock_struct = record w {
          write_locked = true;
          owner = record w.owner {
            owner = owner;
            txn_id = uuid;
            process_id = some c.process_id;
            thread_id = c.thread_id;
            lock_timestamp = c.now;
          };
        };
      };
    }

-- One round of `write_lock` with the semaphore got, from the answer of `has_write_lock` on; the answer of the
-- round is `locked`.
unfoldable pub write_held : Caller → Text → Text → Bool → RwSession → Call Bool
unfolding take_write
write_held c owner uuid held t =
    if held
    then (ok true, t)
    else (if not t.slot.w_lock_struct.write_locked && t.slot.reader_count == 0
        then (ok true, take_write t c owner uuid)
        else (ok false, t))

unfoldable pub attempt_write : RwSession → Caller → Text → Text → Call Bool
unfolding has_write_lock write_held
attempt_write s c owner uuid = after (has_write_lock s c) (write_held c owner uuid)

-- The record with the reader at a free place.
unfoldable pub take_read : RwSession → Caller → ℕ → RwSession
take_read s c i = record {
  lock = record s.lock { reader_threads = put_thread c.thread_id i s.lock.reader_threads };
  slot = record s.slot {
    reader_count = (s.slot.reader_count + 1) % 2 ^ 64;
    readers = set s.slot.readers i (record {
      used = true;
      process_id = c.process_id;
      thread_id = c.thread_id;
      lock_timestamp = c.now;
    });
  };
}

-- One round of `read_lock` with the semaphore got.
abbrev pub placed : RwSession → Caller → Option ℕ → Call Bool
placed t c none = (err exhausted, t)
placed t c (some i) = (ok true, take_read t c i)

unfoldable pub read_held : Caller → Bool → RwSession → Call Bool
unfolding first_free
read_held c held t =
    if held
    then (ok true, t)
    else (if ltb t.slot.reader_count max_readers
        then placed t c (first_free t.slot.readers 0)
        else (ok false, t))

unfoldable pub attempt_read : RwSession → Caller → Call Bool
unfolding has_thread_lock read_held
attempt_read s c =
    if s.slot.w_lock_struct.write_locked
    then (ok false, s)
    else after (has_thread_lock s c.thread_id c.now) (read_held c)

-- What a round meets: whether the semaphore was got, the clock, the next uuid, and what the other
-- processes and threads have made of the record since the last round.
pub record Round : Type 0 where
  pub got : Bool
  pub now : ℕ
  pub uuid : Text
  pub others : RwRecord → RwRecord

-- The loop that both calls have, over the rounds of `attempt`: `none` says that the given rounds are over and
-- the caller is still waiting.
unfoldable pub wait_loop :
    (RwSession → Round → Call Bool) → RwSession → ℕ → ℕ → List Round → Call (Option Bool)
wait_loop attempt s start timeout [] = (ok none, s)
wait_loop attempt s start timeout (r ∷ rs) =
    let s' : RwSession = record s { slot = r.others s.slot } in
    after (if r.got then attempt s' r else (ok false, s')) λ locked t.
      let rest = wait_loop attempt t start timeout rs in
      if locked
      then (ok (some true), t)
      else (if ltb timeout (elapsed r.now start) then (ok (some false), t) else rest)

-- `write_lock`, whose clock is the start of the wait, answers the transaction id.
unfoldable pub write_lock : RwSession → Caller → Text → ℕ → List Round → Call (Option Text)
unfolding attempt_write wait_loop
write_lock s c owner timeout rounds =
    if not (is_available s.lock.state)
    then (err unavailable, s)
    else (if is_empty owner || not (is_empty s.lock.txn_id)
        then (err precondition, s)
        else after
            (wait_loop (λ t r. attempt_write t (at_time c r.now) owner r.uuid) s c.now timeout
              rounds)
            λ done t. (ok (elim done [ none ↦ none | some b ↦ some t.lock.txn_id ]), t))

unfoldable pub read_lock : RwSession → Caller → ℕ → List Round → Call (Option Bool)
unfolding attempt_read wait_loop
read_lock s c timeout rounds =
    if not (is_available s.lock.state)
    then (err unavailable, s)
    else wait_loop (λ t r. attempt_read t (at_time c r.now)) s c.now timeout rounds

unfoldable pub give_up_write : RwSession → RwSession
give_up_write s =
    let w = s.slot.w_lock_struct in
    record {
      lock = record s.lock { txn_id = [] };
      slot = record s.slot {
        w_lock_struct = record w {
          write_locked = false;
          owner = record w.owner {
            process_id = none;
            lock_timestamp = 0;
            txn_id = [];
            owner = [];
            thread_id = [];
          };
        };
      };
    }

abbrev pub write_released : Bool → RwSession → Call Bool
write_released held t = if held then (ok true, give_up_write t) else (ok false, t)

-- The flag is whether the semaphore was got in time.
unfoldable pub release_write_lock : RwSession → Caller → Bool → Call Bool
unfolding has_write_lock give_up_write
release_write_lock s c got =
    if not (is_available s.lock.state)
    then (err unavailable, s)
    else (if is_empty s.lock.txn_id
        then (err precondition, s)
        else (if not got
            then (err lock_timeout, s)
            else (if s.slot.w_lock_struct.write_locked
                then after (has_write_lock s c) write_released
                else (ok false, s))))

-- A reader is not used: its other members stay.
abbrev pub unused : List Reader → ℕ → List Reader
unused rs i = elim (get_elem? rs i) [ none ↦ rs | some r ↦ set rs i (record r { used = false }) ]

unfoldable pub give_up_read : RwSession → Text → ℕ → RwSession
give_up_read s id i = record {
  lock = record s.lock { reader_threads = erase_thread id s.lock.reader_threads };
  slot = record s.slot {
    reader_count = s.slot.reader_count - 1;
    readers = unused s.slot.readers i;
  };
}

abbrev pub stamped : ℕ → RwSession → RwSession
stamped now s = with_w s (record s.slot.w_lock_struct { last_used = now })

abbrev pub released_at : Text → ℕ → RwSession → Option ℕ → Call Bool
released_at id now t none = (ok false, stamped now t)
released_at id now t (some i) = (ok true, stamped now (give_up_read t id i))

abbrev pub read_released : Text → ℕ → Bool → RwSession → Call Bool
read_released id now held t =
    if not held
    then (ok false, stamped now t)
    else (if ltb 0 t.slot.reader_count
        then released_at id now t (reader_index t id)
        else (err lock_failed, t))

-- `release_read_lock(thread_id, timeout)`
unfoldable pub release_read_at : RwSession → Text → ℕ → Bool → Call Bool
unfolding has_thread_lock reader_index give_up_read
release_read_at s id now got =
    if not got
    then (err lock_timeout, s)
    else after (has_thread_lock s id now) (read_released id now)

unfoldable pub release_read_lock : RwSession → Caller → Bool → Call Bool
unfolding release_read_at
release_read_lock s c got =
    if not (is_available s.lock.state)
    then (err unavailable, s)
    else release_read_at s c.thread_id c.now got

-- The threads of the readers that are used, in the order of the map.
unfoldable pub reading_threads : List Reader → List (Text × ℕ) → List Text
reading_threads rs [] = []
reading_threads rs ((key, i) ∷ rest) = elim (get_elem? rs i) [
  | none ↦ reading_threads rs rest
  | some r ↦ (if r.used then r.thread_id ∷ reading_threads rs rest else reading_threads rs rest)
]

unfoldable pub release_threads : RwSession → List Text → ℕ → Bool → Call (Unit {0})
unfolding release_read_at
release_threads s [] now got = (ok tt, s)
release_threads s (id ∷ ids) now got =
    after (release_read_at s id now got) λ _ t. release_threads t ids now got

-- The two parts of `check_and_clear`: the write lock of the process, and the read locks of the instance.
unfoldable pub own_write : RwSession → Caller → Bool → Call Bool
unfolding release_write_lock
own_write s c got =
    if s.slot.w_lock_struct.write_locked
      && is_process s.slot.w_lock_struct.owner.process_id c.process_id
    then release_write_lock s c got
    else (ok false, s)

abbrev pub clear_reads : Caller → Bool → Bool → RwSession → Call (Unit {0})
clear_reads c got done t =
    release_threads t (reading_threads t.slot.readers t.lock.reader_threads) c.now got

unfoldable pub check_and_clear : RwSession → Caller → Bool → Call (Unit {0})
unfolding own_write reading_threads release_threads
check_and_clear s c got =
    if s.slot.w_lock_struct.used then after (own_write s c got) (clear_reads c got) else (ok tt, s)

-- The destructor.
unfoldable pub destroy : RwSession → Caller → Bool → Call (Unit {0})
unfolding check_and_clear
destroy s c got = check_and_clear (record s { lock = record s.lock { state = disposed } }) c got
