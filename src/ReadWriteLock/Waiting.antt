-- ===== src/ReadWriteLock/Waiting.antt =====
-- common/includes/read_write_lock.h: how long `write_lock` and `read_lock` wait, and what they answer.
use react_fs.Prelude.{
  ℕ, ◌≤◌, ◌<◌, ◌≡◌, refl, ap, ◌∙◌, Bool, true, false, not, ◌||◌, Option, none, some, List, [], ◌∷◌,
  ◌++◌, Error, ok, err, arith, ltb, if◌then◌else◌, All,
}
use react_fs.Prelude.Texts.{Text, is_empty}
use react_fs.Instance.{is_available}
use react_fs.WriteLock.{Caller, elapsed}
use react_fs.WriteLock.Acquire.{at_time}
use react_fs.ReadWriteLock.{RwRecord, RwSession, touch, owns, Call, after}
use react_fs.ReadWriteLock.Acquire.{
  Round, wait_loop, attempt_write, attempt_read, take_write, write_lock, read_lock,
}
use react_fs.ReadWriteLock.Hold.{IsLive, attempt_write-free}

-- A round in which the semaphore is not got, before the wait is over.
abbrev pub IsPatient : ℕ → ℕ → Round → Type 0
IsPatient start timeout r = (r.got ≡ false) × (elapsed r.now start ≤ timeout)

-- What the others make of the record meanwhile.
abbrev pub meanwhile : List Round → RwRecord → RwRecord
meanwhile [] slot = slot
meanwhile (r ∷ rs) slot = meanwhile rs (r.others slot)

wait_loop-patient :
    (attempt : RwSession → Round → Call Bool) (s : RwSession) (start timeout : ℕ)
    (before rest : List Round)
    → All (IsPatient start timeout) before
    → wait_loop attempt s start timeout (before ++ rest)
      ≡ wait_loop attempt (record s { slot = meanwhile before s.slot }) start timeout rest
unfolding wait_loop
wait_loop-patient attempt s start timeout [] rest p = refl
wait_loop-patient attempt s start timeout (r ∷ before) rest p =
    let late : ltb timeout (elapsed r.now start) ≡ false = ground (arith, p.0.1) in
    rw (p.0.0, late)
      (wait_loop-patient attempt (record s { slot = r.others s.slot }) start timeout before rest
        p.1)

-- The session at a round.
abbrev pub at_round : RwSession → List Round → Round → RwSession
at_round s before r = record s { slot = r.others (meanwhile before s.slot) }

wait_loop-granted :
    (attempt : RwSession → Round → Call Bool) (s t : RwSession) (start timeout : ℕ)
    (before rest : List Round) (r : Round)
    → All (IsPatient start timeout) before
    → r.got ≡ true
    → attempt (at_round s before r) r ≡ (ok true, t)
    → wait_loop attempt s start timeout (before ++ r ∷ rest) ≡ (ok (some true), t)
unfolding wait_loop
wait_loop-granted attempt s t start timeout before rest r p got a =
    wait_loop-patient attempt s start timeout before (r ∷ rest) p ∙ rw (round_got ∙ a) refl
  where
    round_got :
        (if r.got then attempt (at_round s before r) r else (ok false, at_round s before r))
        ≡ attempt (at_round s before r) r
    round_got =
        ap (λ b. if b then attempt (at_round s before r) r else (ok false, at_round s before r)) got

-- What `write_lock` makes of the end of its loop.
write_lock-ended :
    (s t : RwSession) (c : Caller) (owner : Text) (timeout : ℕ) (rounds : List Round)
    (locked : Bool)
    → is_available s.lock.state ≡ true
    → is_empty owner ≡ false
    → is_empty s.lock.txn_id ≡ true
    → wait_loop (λ t r. attempt_write t (at_time c r.now) owner r.uuid) s c.now timeout rounds
      ≡ (ok (some locked), t)
    → write_lock s c owner timeout rounds ≡ (ok (some t.lock.txn_id), t)
unfolding write_lock
write_lock-ended s t c owner timeout rounds locked a o e w = rw (a, o, e) (rw w refl)

-- A waiting `write_lock` is granted by the first round that gets the semaphore, if the session is live then and the
-- record has neither a writer nor readers: the answer is the new transaction id, the caller is the owner,
-- and the instance stays usable.
pub write_lock-granted :
    (s : RwSession) (c : Caller) (owner : Text) (timeout : ℕ) (before rest : List Round) (r : Round)
    → is_available s.lock.state ≡ true
    → is_empty owner ≡ false
    → is_empty s.lock.txn_id ≡ true
    → All (IsPatient c.now timeout) before
    → r.got ≡ true
    → IsLive (at_round s before r) r.now
    → (at_round s before r).slot.w_lock_struct.write_locked ≡ false
    → (at_round s before r).slot.reader_count ≡ 0
    → (t : RwSession) × (write_lock s c owner timeout (before ++ r ∷ rest) ≡ (ok (some r.uuid), t))
      × (owns t (at_time c r.now) ≡ true)
      × (t.lock.txn_id ≡ r.uuid)
      × (is_available t.lock.state ≡ true)
unfolding take_write touch
write_lock-granted s c owner timeout before rest r a o e p got v free none_reads =
    let there = at_round s before r in
    let at = at_time c r.now in
    let won = attempt_write-free there at owner r.uuid v free none_reads in
    let t = take_write (touch there r.now) at owner r.uuid in
    (
      t,
      write_lock-ended s t c owner timeout (before ++ r ∷ rest) true a o e (
          wait_loop-granted (λ t r. attempt_write t (at_time c r.now) owner r.uuid) s t c.now
            timeout before rest r p got won.0),
      won.1,
      refl,
      a,
    )

-- A call has ended when it has failed or answered.
abbrev pub HasEnded : {A : Type 0} → Call (Option A) → Type 0
HasEnded (err e, t) = Unit {0}
HasEnded (ok none, t) = ⊥
HasEnded (ok (some a), t) = Unit {0}

after-HasEnded :
    {A : Type 0} (x : Call Bool) (next : Bool → RwSession → Call (Option A))
    → ((b : Bool) (t : RwSession) → HasEnded (next b t))
    → HasEnded (after x next)
after-HasEnded (err e, t) next h = tt
after-HasEnded (ok b, t) next h = h b t

-- A round that is not the last, of which the rest ends; and the last, after the timeout.
going_on :
    (locked late : Bool) (t : RwSession) (rest : Call (Option Bool))
    → HasEnded rest
    → HasEnded
        (if locked then (ok (some true), t) else (if late then (ok (some false), t) else rest))
going_on true late t rest h = tt
going_on false true t rest h = tt
going_on false false t rest h = h

at_last :
    (locked late : Bool) (t : RwSession) (rest : Call (Option Bool))
    → late ≡ true
    → HasEnded
        (if locked then (ok (some true), t) else (if late then (ok (some false), t) else rest))
at_last true late t rest h = tt
at_last false late t rest h = rw h tt

wait_loop-ends :
    (attempt : RwSession → Round → Call Bool) (s : RwSession) (start timeout : ℕ)
    (before : List Round) (last : Round)
    → timeout < elapsed last.now start
    → HasEnded (wait_loop attempt s start timeout (before ++ last ∷ []))
unfolding wait_loop
wait_loop-ends attempt s start timeout [] last late =
    after-HasEnded
      (if last.got then attempt (at_round s [] last) last else (ok false, at_round s [] last)) _
      (λ locked t.
        at_last locked (ltb timeout (elapsed last.now start)) t (ok none, t) (ground (arith, late)))
wait_loop-ends attempt s start timeout (r ∷ before) last late =
    after-HasEnded (if r.got then attempt (at_round s [] r) r else (ok false, at_round s [] r)) _
      (λ locked t.
        going_on locked (ltb timeout (elapsed r.now start)) t
          (wait_loop attempt t start timeout (before ++ last ∷ []))
          (wait_loop-ends attempt t start timeout before last late))

write_answer-HasEnded :
    (x : Call (Option Bool))
    → HasEnded x
    → HasEnded
        (after x (λ done t. (ok (elim done [ none ↦ none | some b ↦ some t.lock.txn_id ]), t)))
write_answer-HasEnded (err e, t) h = tt
write_answer-HasEnded (ok none, t) h = h
write_answer-HasEnded (ok (some b), t) h = tt

-- Neither call waits for ever: it has failed or answered at the latest in the first round after the timeout, however
-- the record stands then and whether or not the semaphore is got.
pub waits-end :
    (s : RwSession) (c : Caller) (timeout : ℕ) (before : List Round) (last : Round)
    → timeout < elapsed last.now c.now
    → HasEnded (read_lock s c timeout (before ++ last ∷ []))
      × ((owner : Text) → HasEnded (write_lock s c owner timeout (before ++ last ∷ [])))
unfolding read_lock write_lock
waits-end s c timeout before last late = (
  first_guard _ _ (not (is_available s.lock.state)) _
      (wait_loop-ends (λ t r. attempt_read t (at_time c r.now)) s c.now timeout before last late),
  λ owner. first_guard _ _ (not (is_available s.lock.state)) _ (
      first_guard _ _ (is_empty owner || not (is_empty s.lock.txn_id)) _ (
        write_answer-HasEnded _ (
          wait_loop-ends (λ t r. attempt_write t (at_time c r.now) owner r.uuid) s c.now timeout
            before last late))),
)
  where
    first_guard :
        {A : Type 0} (e : Error) (t : RwSession) (b : Bool) (x : Call (Option A))
        → HasEnded x
        → HasEnded (if b then (err e, t) else x)
    first_guard e t true x h = tt
    first_guard e t false x h = h
