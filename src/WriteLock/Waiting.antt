-- ===== src/WriteLock/Waiting.antt =====
-- write_lock.h: the loop of `get_lock`, against whatever the other processes do meanwhile.
use react_fs.Prelude.{
  ℕ, ◌≤◌, ◌<◌, ◌≡◌, ◌≢◌, ◌⊎◌, refl, ◌∙◌, Bool, true, false, Option, none, some, List, [], ◌∷◌,
  Result, ok, err, Error, arith, ltb, Bool-cases, inl, inr,
}
use react_fs.Prelude.Texts.{Text}
use react_fs.WriteLock.Hold.{taken-owns}
use mathlib.Core.Path.{subst}
use react_fs.WriteLock.{Session, Caller, elapsed, owns, check_lock_valid, has_write_lock}
use react_fs.WriteLock.Acquire.{
  Round, Attempt, locked, retry, refused, attempt, round, get_loop, get_lock, at_time,
}

-- Some round comes after the deadline.
abbrev pub SomeLate : ℕ → ℕ → List Round → Type 0
SomeLate start timeout [] = ⊥
SomeLate start timeout (r ∷ rs) = (timeout < elapsed r.now start) ⊎ SomeLate start timeout rs

-- The answer of the loop when it is left with a session.
abbrev answer : Session → Result (Option (Text × Session))
answer s = ok (some (s.lock.txn_id, s))

-- What holds of each way to leave the loop in its first round, and of the rest of it, holds of it.
module _ {ℓ} (P : Result (Option (Text × Session)) → Type ℓ) (s : Session) (c : Caller)
    (owner tid : Text) (start timeout : ℕ) (r : Round) (rs : List Round) where
  get_loop_round :
      (p : Result (Attempt × Session))
      → round s c owner tid r ≡ p
      → ((e : Error) → P (err e))
      → ((s' : Session) → p ≡ ok (locked, s') → P (answer s'))
      → ((s' : Session) → p ≡ ok (refused, s') → P (answer s'))
      → ((s' : Session) → p ≡ ok (retry, s') → timeout < elapsed r.now start → P (answer s'))
      → ((s' : Session)
          → p ≡ ok (retry, s')
          → elapsed r.now start ≤ timeout
          → P (get_loop s' c owner tid start timeout rs))
      → P (get_loop s c owner tid start timeout (r ∷ rs))
  unfolding get_loop
  get_loop_round (err e) q f l d t n = rw (q, get_loop) (f e)
  get_loop_round (ok (locked, s')) q f l d t n = rw (q, get_loop) (l s' refl)
  get_loop_round (ok (refused, s')) q f l d t n = rw (q, get_loop) (d s' refl)
  get_loop_round (ok (retry, s')) q f l d t n =
      elim (Bool-cases (ltb timeout (elapsed r.now start))) [
        | inl late ↦ rw (q, get_loop, late) (t s' refl (ground arith))
        | inr early ↦ rw (q, get_loop, early) (n s' refl (ground arith))
      ]

get_loop-ends :
    (s : Session) (c : Caller) (owner tid : Text) (start timeout : ℕ) (rs : List Round)
    → SomeLate start timeout rs
    → get_loop s c owner tid start timeout rs ≢ ok none
unfolding get_loop
get_loop-ends s c owner tid start timeout [] late = absurd late
get_loop-ends s c owner tid start timeout (r ∷ rs) late =
    get_loop_round (λ x. x ≢ ok none) s c owner tid start timeout r rs _ refl (λ e h. cc)
      (λ s' q h. cc) (λ s' q h. cc) (λ s' q l h. cc)
      (λ s' q l. get_loop-ends s' c owner tid start timeout rs (later_round late l))
  where
    later_round :
        (timeout < elapsed r.now start) ⊎ SomeLate start timeout rs
        → elapsed r.now start ≤ timeout
        → SomeLate start timeout rs
    later_round (inl h) l = absurd (omega arith)
    later_round (inr h) l = h

-- `get_lock` does not wait for ever: if some round of its loop comes after the deadline, it ends, with
-- an answer or an error, whatever the other processes do to the record between the rounds.
pub get_lock-ends :
    (s : Session) (c : Caller) (owner tid : Text) (timeout : ℕ) (rs : List Round)
    → SomeLate c.now timeout rs
    → get_lock s c owner tid timeout rs ≢ ok none
unfolding get_lock
get_lock-ends s c owner tid timeout rs late =
    ground (arith, get_loop-ends s c owner tid c.now timeout rs late)

-- What an answer of `get_lock` tells to an instance that had no transaction id: either the answer is
-- empty, or the caller owns the record.
abbrev pub Granted : Caller → Result (Option (Text × Session)) → Type 0
Granted c (err e) = Unit {0}
Granted c (ok none) = Unit {0}
Granted c (ok (some (txn, s))) = (txn ≡ s.lock.txn_id) × ((txn ≡ []) ⊎ (owns s c ≡ true))

-- What a round does to an instance that has no transaction id.
abbrev RoundGrants : Caller → Result (Attempt × Session) → Type 0
RoundGrants c (err e) = Unit {0}
RoundGrants c (ok (locked, s)) = (s.lock.txn_id ≡ []) ⊎ (owns s c ≡ true)
RoundGrants c (ok (refused, s)) = s.lock.txn_id ≡ []
RoundGrants c (ok (retry, s)) = s.lock.txn_id ≡ []

-- `has_write_lock` leaves the transaction id alone.
abbrev KeepsTxn : Session → Result (Bool × Session) → Type 0
KeepsTxn s (err e) = Unit {0}
KeepsTxn s (ok (b, s')) = s'.lock.txn_id ≡ s.lock.txn_id

check_lock_valid-KeepsTxn : (s : Session) (now : ℕ) → KeepsTxn s (check_lock_valid s now)
unfolding check_lock_valid
check_lock_valid-KeepsTxn s now = ground arith

has_write_lock-KeepsTxn : (s : Session) (c : Caller) → KeepsTxn s (has_write_lock s c)
unfolding has_write_lock
has_write_lock-KeepsTxn s c = ground (arith, check_lock_valid-KeepsTxn s c.now)

no_txn : (c : Caller) (a : Attempt) (s : Session) → s.lock.txn_id ≡ [] → RoundGrants c (ok (a, s))
no_txn c locked s e = inl e
no_txn c retry s e = e
no_txn c refused s e = e

attempt-RoundGrants :
    (s : Session) (c : Caller) (owner tid uuid : Text)
    → s.lock.txn_id ≡ []
    → RoundGrants c (attempt s c owner tid uuid)
unfolding attempt
attempt-RoundGrants s c owner tid uuid e =
    go (has_write_lock s c) refl (has_write_lock-KeepsTxn s c)
  where
    go :
        (p : Result (Bool × Session))
        → has_write_lock s c ≡ p
        → KeepsTxn s p
        → RoundGrants c (attempt s c owner tid uuid)
    go (err x) q k = rw (q, attempt) tt
    go (ok (true, s')) q k = rw (q, attempt) (no_txn c _ s' (k ∙ e))
    go (ok (false, s')) q k = elim (Bool-cases s'.slot.write_locked) [
      | inl busy ↦ rw (q, attempt, busy) (k ∙ e)
      | inr free ↦ rw (q, attempt, free) (inr (taken-owns s' c owner tid uuid))
    ]

round-RoundGrants :
    (s : Session) (c : Caller) (owner tid : Text) (r : Round)
    → s.lock.txn_id ≡ []
    → RoundGrants (at_time c r.now) (round s c owner tid r)
unfolding round
round-RoundGrants s c owner tid r e = elim (Bool-cases r.got) [
  | inl got ↦ rw got (
      attempt-RoundGrants (record s { slot = r.others s.slot }) (at_time c r.now) owner tid r.uuid
        e)
  | inr missed ↦ rw missed e
]

get_loop-Granted :
    (s : Session) (c : Caller) (owner tid : Text) (start timeout : ℕ) (rs : List Round)
    → s.lock.txn_id ≡ []
    → Granted c (get_loop s c owner tid start timeout rs)
unfolding get_loop
get_loop-Granted s c owner tid start timeout [] e = tt
get_loop-Granted s c owner tid start timeout (r ∷ rs) e =
    get_loop_round (Granted c) s c owner tid start timeout r rs _ refl (λ x. tt)
      (λ s' q. (refl, subst (RoundGrants (at_time c r.now)) q one))
      (λ s' q. (refl, inl (subst (RoundGrants (at_time c r.now)) q one)))
      (λ s' q l. (refl, inl (subst (RoundGrants (at_time c r.now)) q one)))
      (λ s' q l.
        get_loop-Granted s' c owner tid start timeout rs
          (subst (RoundGrants (at_time c r.now)) q one))
  where
    one : RoundGrants (at_time c r.now) (round s c owner tid r)
    one = round-RoundGrants s c owner tid r e

-- For an instance that has no transaction id at the start, an answer of `get_lock` that is not empty
-- is the instance's new transaction id, and the calling process and thread then own the record; the
-- other processes may do anything to the record between the rounds.
pub get_lock-Granted :
    (s : Session) (c : Caller) (owner tid : Text) (timeout : ℕ) (rs : List Round)
    → s.lock.txn_id ≡ []
    → Granted c (get_lock s c owner tid timeout rs)
unfolding get_lock
get_lock-Granted s c owner tid timeout rs e =
    ground (arith, get_loop-Granted s c owner tid c.now timeout rs e)
