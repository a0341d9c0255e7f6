-- ===== src/LockManager/Tests.antt =====
-- The theorems of the manager at a concrete table of write locks.
use react_fs.Prelude.{◌≡◌, refl, true, some, [], ◌∷◌, Returns, arith, length}
use react_fs.Prelude.Texts.{Text, has_prefix}
use react_fs.LockTable.{LockRecord, Table, lock_free, zero_owner, zero_record, fresh}
use react_fs.LockTable.Scan.{IsValid}
use react_fs.WriteLock.{Session, Caller, WriteLock}
use react_fs.WriteLock.Hold.{IsHeld}
use react_fs.LockManager.{check_lock_states}
use react_fs.LockManager.Pass.{AreNamed, check_lock_states-IsValid}

abbrev name : Text
name = 98 ∷ 107 ∷ []

abbrev caller : Caller
caller = record { process_id = 4; thread_id = 55 ∷ []; now = 1000 }

abbrev slot : LockRecord
slot = record (fresh name) {
  last_used = 1000;
  write_locked = true;
  owner = record zero_owner {
    process_id = some 4;
    thread_id = 55 ∷ [];
    txn_id = 117 ∷ [];
    last_updated = 1000;
  };
}

abbrev held_lock : WriteLock
held_lock = record {
  state = lock_free;
  lock_struct = some 0;
  txn_id = 117 ∷ [];
  name = name;
  reference_count = 1;
}

abbrev session : Session
session = record { lock = held_lock; slot = slot }

session-IsHeld : IsHeld session caller
unfolding has_prefix
session-IsHeld = record {
  live = record {
    available = refl;
    attached = refl;
    used = refl;
    named = refl;
    recent = omega arith;
  };
  held = refl;
}

abbrev later : Caller
later = record { process_id = 5; thread_id = 56 ∷ []; now = 400_000 }

-- A record that is held and one that was last used ten minutes ago.
abbrev idle : LockRecord
idle = record (fresh (99 ∷ [])) { last_used = 10 }

abbrev table : Table
table = record { locks = slot ∷ idle ∷ zero_record ∷ []; used_count = 2 }

table-AreNamed : AreNamed table.locks
table-AreNamed = (
  λ u. record { filled = refl; fits = omega arith },
  (λ u. record { filled = refl; fits = omega arith }, (λ u. absurd cc, tt)),
)

check_lock_states-IsValid_example :
    Returns
      (check_lock_states table true 600_500 true)
      λ t. IsValid t × (AreNamed t.locks × (length t.locks ≡ 3))
check_lock_states-IsValid_example =
    check_lock_states-IsValid table true 600_500 (record { counted = refl; short = omega arith })
      table-AreNamed
