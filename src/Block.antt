-- ===== src/Block.antt =====
-- core/includes/base_block.h and core/src/base_block.cpp: a data block, its records behind one another
-- in a mapped file, and the transaction that writes to it.
pub mod Transaction
pub mod Interface
pub mod Records
pub mod Layout
pub mod Write
pub mod Commit
pub mod Lock
pub mod Scan
pub mod Pending
pub mod Deletes
pub mod Sample
mod Tests
use react_fs.Prelude.{
  ℕ, zero, suc, ◌+◌, ◌-◌, ◌*◌, ◌/◌, ◌%◌, ◌^◌, Bool, true, false, not, ◌&&◌, ◌||◌, Option, none,
  some, List, [], ◌∷◌, ◌++◌, Result, ok, err, Error, precondition, postcondition, unavailable,
  null_pointer, wild_access, lock_failed, transaction_invalid, sanity_failed, ◌>>=◌, ◌>>◌, guard,
  or_fail, ltb, leb, ◌==◌, if◌then◌else◌, length,
}
use react_fs.Prelude.Texts.{Text, is_empty, same_text}
pub use react_fs.Instance.{
  InstanceState, unknown, initialized, available, disposed, exception, is_available,
}
use react_fs.WriteLock.{Caller, elapsed}
use react_fs.Block.Interface.{LockApi}

-- `__write_state` and `__record_state`.
pub data WriteState : Type 0 where
  writable closed updateable : WriteState

pub data RecordState : Type 0 where
  r_free r_readable r_deleted r_dirty r_all : RecordState

abbrev pub is_writable_state : WriteState → Bool
is_writable_state writable = true
is_writable_state _ = false

abbrev pub is_updateable_state : WriteState → Bool
is_updateable_state updateable = true
is_updateable_state _ = false

abbrev pub same_state : RecordState → RecordState → Bool
same_state r_free r_free = true
same_state r_readable r_readable = true
same_state r_deleted r_deleted = true
same_state r_dirty r_dirty = true
same_state r_all r_all = true
same_state _ _ = false

-- `__record_header` with the bytes behind it.
pub record DataRecord : Type 0 where
  pub index : ℕ
  pub offset : ℕ
  pub state : RecordState
  pub data_size : ℕ
  pub uncompressed_size : ℕ
  pub timestamp : ℕ
  pub bytes : List ℕ

-- sizeof(__record_header), and the bytes that a record takes.
abbrev pub header_bytes : ℕ
header_bytes = 48

abbrev pub extent : DataRecord → ℕ
extent r = header_bytes + r.data_size

-- `__block_header`, less the ids, times and types that no operation below reads.
pub record Header : Type 0 where
  pub block_id : ℕ
  pub start_index : ℕ
  pub last_index : ℕ
  pub block_size : ℕ
  pub write_offset : ℕ
  pub used_bytes : ℕ
  pub commit_sequence : ℕ
  pub total_records : ℕ
  pub deleted_records : ℕ
  pub write_state : WriteState
  pub update_time : ℕ
  pub compressed : Bool
  pub encrypted : Bool

-- `__rollback_info`
pub record Rollback : Type 0 where
  pub in_transaction : Bool
  pub transaction_id : Text
  pub start_offset : ℕ
  pub write_offset : ℕ
  pub used_bytes : ℕ
  pub last_index : ℕ
  pub start_time : ℕ

-- The mapped bytes behind the block header: the record whose header stands at an offset. Where it is
-- `none`, the bytes are not those of a record that was written whole.
abbrev pub Area : Type 0
Area = ℕ → Option DataRecord

-- The instance. `rollback` is `none` for a null pointer; `rollback_info_deletes` is `deletes`, the
-- oldest first.
pub record Block (L : Type 0) : Type 0 where
  pub state : InstanceState
  pub header : Header
  pub area : Area
  pub rollback : Option Rollback
  pub deletes : List ℕ
  pub for_update : Bool
  pub lock : L

abbrev pub u64 : ℕ → ℕ
u64 n = n % 2 ^ 64

abbrev pub u32 : ℕ → ℕ
u32 n = n % 2 ^ 32

-- The bytes that `__create_block` maps behind the header.
abbrev pub capacity : ℕ → ℕ
capacity block_size = u64 (block_size * 110) / 100

-- Two stretches of bytes have one in common.
abbrev pub overlap : ℕ → ℕ → ℕ → ℕ → Bool
overlap a m b n = ltb a (b + n) && ltb b (a + m)

-- Writing a record at an offset destroys every record that it runs into.
unfoldable pub write_at : Area → ℕ → DataRecord → Area
write_at area off r o = if o == off then some r else elim (area o) [
  | none ↦ none
  | some q ↦ if overlap o (extent q) off (extent r) then none else some q
]

with_state : RecordState → Option DataRecord → Option DataRecord
with_state st none = none
with_state st (some r) = some (record r { state = st })

-- Writing the state into the header at an offset.
unfoldable pub mark_at : Area → ℕ → RecordState → Area
unfolding with_state
mark_at area off st o = if o == off then with_state st (area o) else area o

-- What `__create_block` leaves in a new file, whose other bytes are 0.
unfoldable pub create_block : ℕ → ℕ → ℕ → ℕ → Header
create_block block_id block_size start_index now = record {
  block_id = block_id;
  start_index = start_index;
  last_index = start_index;
  block_size = block_size;
  write_offset = 0;
  used_bytes = 0;
  commit_sequence = 0;
  total_records = 0;
  deleted_records = 0;
  write_state = writable;
  update_time = now;
  compressed = false;
  encrypted = false;
}
