-- ===== src/Block/Sample.antt =====
-- A block for the tests: it has one committed record, and one pending in the transaction of its caller.
use react_fs.Prelude.{
  ℕ, ◌≡◌, refl, true, false, none, some, [], ◌∷◌, ok, arith, ◌==◌, if◌then◌else◌,
}
use react_fs.Prelude.Texts.{Text, same_text, has_prefix}
use react_fs.LockTable.{LockRecord, Table, lock_free, zero_owner, fresh}
use react_fs.WriteLock.{Session, Caller, has_write_lock}
use react_fs.WriteLock.Acquire.{release_lock}
use react_fs.Block.Interface.{LockApi}
use react_fs.Block.Lock.{Attached, lock_api}
use react_fs.Block.{
  available, writable, r_readable, r_dirty, DataRecord, Header, Rollback, Area, Block,
}
use react_fs.Block.Write.{IsValid, IsPending, IsWriter, HasRoom}

abbrev pub name : Text
name = 98 ∷ 107 ∷ []

abbrev pub txid : Text
txid = 117 ∷ []

abbrev pub caller : Caller
caller = record { process_id = 4; thread_id = 55 ∷ []; now = 1000 }

abbrev pub api : LockApi
api = lock_api name 500 []

-- The caller holds the lock, and has just been asked for it.
abbrev pub slot : LockRecord
slot = record (fresh name) {
  last_used = 1000;
  write_locked = true;
  owner = record zero_owner {
    process_id = some 4;
    thread_id = 55 ∷ [];
    txn_id = txid;
    last_updated = 1000;
  };
}

abbrev pub session : Session
session = record {
  lock = record {
    state = lock_free;
    lock_struct = some 0;
    txn_id = txid;
    name = name;
    reference_count = 1;
  };
  slot = slot;
}

abbrev pub table : Table
table = record { locks = slot ∷ []; used_count = 1 }

abbrev pub attached : Attached
attached = record { session = session; table = table }

-- What the release leaves.
abbrev pub freed : Attached
freed = record {
  session = record {
    lock = record session.lock { txn_id = [] };
    slot = record slot {
      write_locked = false;
      owner = record slot.owner {
        process_id = none;
        lock_timestamp = 0;
        txn_id = [];
        owner = [];
        thread_id = [];
      };
    };
  };
  table = table;
}

-- A committed record of 2 bytes, and one of 3 that is pending.
abbrev pub old : DataRecord
old = record {
  index = 10;
  offset = 0;
  state = r_readable;
  data_size = 2;
  uncompressed_size = 0;
  timestamp = 900;
  bytes = 1 ∷ 2 ∷ [];
}

abbrev pub young : DataRecord
young = record {
  index = 11;
  offset = 50;
  state = r_dirty;
  data_size = 3;
  uncompressed_size = 0;
  timestamp = 990;
  bytes = 3 ∷ 4 ∷ 5 ∷ [];
}

abbrev pub area : Area
area o = if o == 0 then some old else (if o == 50 then some young else none)

abbrev pub header_of : ℕ → Header
header_of size = record {
  block_id = 1;
  start_index = 10;
  last_index = 11;
  block_size = size;
  write_offset = 50;
  used_bytes = 2;
  commit_sequence = 1;
  total_records = 1;
  deleted_records = 0;
  write_state = writable;
  update_time = 900;
  compressed = false;
  encrypted = false;
}

abbrev pub info : Rollback
info = record {
  in_transaction = true;
  transaction_id = txid;
  start_offset = 50;
  write_offset = 101;
  used_bytes = 3;
  last_index = 12;
  start_time = 950;
}

abbrev pub block_of : ℕ → Block Attached
block_of size = record {
  state = available;
  header = header_of size;
  area = area;
  rollback = some info;
  deletes = [];
  for_update = true;
  lock = attached;
}

pub block-IsValid : IsValid (block_of 1000) (old ∷ [])
block-IsValid = record {
  laid = (refl, refl, refl, refl);
  last = refl;
  used = refl;
  counted = refl;
  fits = omega arith;
  small = omega arith;
  indexed = omega arith;
}

pub block-IsPending : IsPending (block_of 1000) info (young ∷ [])
block-IsPending = record {
  kept = refl;
  started = refl;
  laid = (refl, refl, refl, refl);
  last = refl;
  used = refl;
  fits = omega arith;
}

pub block-IsWriter : (size : ℕ) → IsWriter api (block_of size) caller txid info attached
unfolding has_write_lock same_text has_prefix
block-IsWriter size = record {
  available = refl;
  kept = refl;
  started = refl;
  given = refl;
  same = refl;
  held = refl;
}

pub block-HasRoom : HasRoom api (block_of 1000) info 1
block-HasRoom = record { block = omega arith; small = omega arith; file = omega arith }

pub released : api.release_lock attached caller ≡ ok (true, freed)
unfolding release_lock has_prefix
released = refl
