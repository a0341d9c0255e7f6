-- ===== src/WriteLock/Tests.antt =====
-- Runs of the write lock, and its theorems at concrete sessions.
use react_fs.Prelude.{
  ℕ, ◌≡◌, ◌≢◌, inl, inr, refl, true, false, none, some, [], ◌∷◌, Returns, ok, arith,
}
use react_fs.Prelude.Texts.{Text, has_prefix}
use react_fs.LockTable.{lock_free, zero_owner, zero_record, fresh}
use react_fs.WriteLock.{WriteLock, Session, Caller, has_write_lock}
use react_fs.WriteLock.Acquire.{Round, attempt, retry, get_lock, release_lock}
use react_fs.WriteLock.Hold.{IsLive, IsHeld}
use react_fs.WriteLock.Exclusion.{beside, seen_by, exclusion-attempt, exclusion-release_lock}
use react_fs.WriteLock.Waiting.{get_lock-ends}
use react_fs.WriteLock.Faults.{IsStale}

abbrev blocks : Text
blocks = 98 ∷ 107 ∷ []

abbrev uuid : Text
uuid = 117 ∷ []

-- The thread 71 of process 4, and the thread 7 of process 5.
abbrev first : Caller
first = record { process_id = 4; thread_id = 55 ∷ 49 ∷ []; now = 1000 }

abbrev second : Caller
second = record { process_id = 5; thread_id = 55 ∷ []; now = 2000 }

abbrev instance_of : Text → WriteLock
instance_of txn = record {
  state = lock_free;
  lock_struct = some 0;
  txn_id = txn;
  name = blocks;
  reference_count = 1;
}

-- Nobody holds the lock; the first caller does.
abbrev idle : Session
idle = record { lock = instance_of []; slot = record (fresh blocks) { last_used = 900 } }

abbrev busy : Session
busy = record {
  lock = instance_of uuid;
  slot = record (fresh blocks) {
    last_used = 900;
    write_locked = true;
    owner = record zero_owner { process_id = some 4; thread_id = 55 ∷ 49 ∷ []; txn_id = uuid };
  };
}

idle-IsLive : IsLive idle 1000
unfolding has_prefix
idle-IsLive = record {
  available = refl;
  attached = refl;
  used = refl;
  named = refl;
  recent = omega arith;
}

busy-IsLive : IsLive busy 1000
unfolding has_prefix
busy-IsLive = record {
  available = refl;
  attached = refl;
  used = refl;
  named = refl;
  recent = omega arith;
}

busy-IsHeld : IsHeld busy first
unfolding has_prefix
busy-IsHeld = record { live = busy-IsLive; held = refl }

beside-IsLive : IsLive (beside busy (instance_of (118 ∷ []))) 2000
unfolding has_prefix
beside-IsLive = record {
  available = refl;
  attached = refl;
  used = refl;
  named = refl;
  recent = omega arith;
}

idle-IsStale : IsStale idle 700_000
unfolding has_prefix
idle-IsStale = record {
  available = refl;
  attached = refl;
  used = refl;
  named = refl;
  old = omega arith;
}

-- A round that nobody disturbs.
abbrev quiet : ℕ → Round
quiet now = record { got = true; now = now; uuid = uuid; others = λ l. l }

has_write_lock_run : Returns (has_write_lock busy first) λ (b, s). b ≡ true
unfolding has_write_lock has_prefix
has_write_lock_run = (_, refl, refl)

exclusion-attempt_example :
    Returns
      (attempt (beside busy (instance_of (118 ∷ []))) second blocks [] uuid)
      λ (r, b). (r ≡ retry) × IsHeld (seen_by busy b) (record first { now = 2000 })
exclusion-attempt_example =
    exclusion-attempt (instance_of (118 ∷ [])) first second busy-IsHeld beside-IsLive (omega arith)
      blocks [] uuid

exclusion-release_lock_example :
    Returns
      (release_lock (beside busy (instance_of (118 ∷ []))) second true)
      λ (r, b). (r ≡ false) × IsHeld (seen_by busy b) (record first { now = 2000 })
exclusion-release_lock_example =
    exclusion-release_lock (instance_of (118 ∷ [])) first second busy-IsHeld beside-IsLive
      (omega arith) refl

get_lock-ends_example : get_lock busy second blocks [] 500 (quiet 2100 ∷ quiet 2600 ∷ []) ≢ ok none
get_lock-ends_example =
    get_lock-ends busy second blocks [] 500 (quiet 2100 ∷ quiet 2600 ∷ []) (inr (inl (omega arith)))

-- The manager has cleared the record.
abbrev cleared : Session
cleared = record { lock = instance_of uuid; slot = zero_record }

-- The thread 7 of process 4.
abbrev sibling : Caller
sibling = record { process_id = 4; thread_id = 55 ∷ []; now = 1000 }

-- The thread 8 of process 4.
abbrev stranger : Caller
stranger = record { process_id = 4; thread_id = 56 ∷ []; now = 300 }

abbrev busy_again : Session
busy_again = record busy {
  slot = record busy.slot {
    last_used = 1000;
    owner = record busy.slot.owner { last_updated = 1000 };
  };
}
