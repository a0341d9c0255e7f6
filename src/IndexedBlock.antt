-- ===== src/IndexedBlock.antt =====
-- core/includes/base_indexed_block.h and core/src/base_indexed_block.cpp: a block with an index of its
-- records, which both write in one transaction.
pub mod Synced
pub mod Deletes
pub mod Commit
pub mod Read
mod Tests
use react_fs.Prelude.{
  ℕ, zero, suc, ◌+◌, ◌-◌, ◌*◌, ◌/◌, ◌%◌, ◌^◌, Bool, true, false, not, ◌&&◌, ◌||◌, Option, none,
  some, List, [], ◌∷◌, ◌++◌, Result, ok, err, precondition, postcondition, unavailable,
  null_pointer, wild_access, sanity_failed, index_corrupted, ◌>>=◌, ◌>>◌, guard, or_fail, ltb, leb,
  ◌==◌, if◌then◌else◌,
}
use react_fs.Prelude.Texts.{Text}
use react_fs.WriteLock.{Caller}
use react_fs.Block.{
  is_available, RecordState, r_free, r_readable, r_deleted, r_dirty, r_all, same_state, DataRecord,
  Header, Block, u32, mark_at,
}
use react_fs.Block.Interface.{LockApi, Compression}
use react_fs.Block.Transaction
use react_fs.Block.Transaction.{require_transaction, require_id, is_writeable, force_rollback}
use react_fs.Block.Records.{
  write_record, commit_added, publish, get_current_index, is_record_in_valid_state,
}
use react_fs.Block.Scan.{process_record_data, is_skipped, is_free_record}
use react_fs.BlockIndex
use react_fs.BlockIndex.{Index, Entry, is_readable, write_index, read_index, delete_index}

-- The instance: a `base_block` and `index_ptr`.
pub record IndexedBlock (L : Type 0) : Type 0 where
  pub block : Block L
  pub index : Option Index

-- `__read_record(index, offset, size)`
unfoldable pub read_record_at : {L : Type 0} → Block L → ℕ → ℕ → ℕ → Result DataRecord
read_record_at b index offset size = do
  guard (is_available b.state) unavailable
  guard (leb b.header.start_index index && leb index b.header.last_index) precondition
  r ← or_fail (b.area offset) wild_access
  guard (r.index == index) postcondition
  guard (r.offset == offset) postcondition
  guard (r.data_size == size) postcondition
  ok r

-- The states for which the entries that are not readable are read too.
abbrev pub reads_all : RecordState → Bool
reads_all r_deleted = true
reads_all r_dirty = true
reads_all r_all = true
reads_all _ = false

-- The loop of `read`, which gives no `writebuff`, over the `n` records from `current`, with `left` still to fetch.
unfoldable pub read_loop :
    {L : Type 0}
    → Block L
    → Index
    → Option Compression
    → RecordState
    → ℕ
    → ℕ
    → ℕ
    → Result (List (List ℕ))
unfolding read_record_at
read_loop b x compression r_state zero current left = ok []
read_loop b x compression r_state (suc n) current zero = ok []
read_loop b x compression r_state (suc n) current (suc left) = do
  found ← read_index x current (reads_all r_state)
  elim found [
    | none ↦ read_loop b x compression r_state n (suc current) (suc left)
    | some e ↦ (do
      r ← read_record_at b e.index e.offset e.size
      elim (is_skipped r_state r) [
        | true ↦ read_loop b x compression r_state n (suc current) (suc left)
        | false ↦ (do
          bytes ← process_record_data b.header compression false r
          rest ← read_loop b x compression r_state n (suc current) left
          ok (bytes ++ rest))
      ])
  ]

unfoldable pub read :
    {L : Type 0}
    → IndexedBlock L
    → Option Compression
    → ℕ
    → ℕ
    → RecordState
    → Result (List (List ℕ))
unfolding read_loop
read ib compression index count r_state = do
  guard (is_available ib.block.state) unavailable
  guard (not (is_free_record r_state)) precondition
  x ← or_fail ib.index null_pointer
  read_loop ib.block x compression r_state (ib.block.header.last_index - index) index count

-- The loop of `commit` over the deleted indexes.
unfoldable pub commit_deletes : {L : Type 0} → Block L → Index → List ℕ → Result (Block L)
unfolding read_record_at mark_at
commit_deletes b x [] = ok b
commit_deletes b x (index ∷ rest) = do
  found ← read_index x index true
  e ← or_fail found null_pointer
  r ← read_record_at b e.index e.offset e.size
  commit_deletes
      (record b {
        area = mark_at b.area e.offset r_deleted;
        header = record b.header { deleted_records = u32 (b.header.deleted_records + 1) };
      })
      x rest

-- The loop of `check_block_sanity` over `n` records from `ii`, which has 32 bits, as have the counts.
unfoldable pub count_records : {L : Type 0} → Block L → Index → ℕ → ℕ → ℕ → ℕ → Result (ℕ × ℕ)
unfolding read_record_at
count_records b x zero ii total deleted = ok (total, deleted)
count_records b x (suc n) ii total deleted = do
  found ← read_index x ii true
  e ← or_fail found sanity_failed
  elim (is_readable e.state) [
    | true ↦ (do
      _ ← read_record_at b e.index e.offset e.size
      count_records b x n (u32 (ii + 1)) (u32 (total + 1)) deleted)
    | false ↦ count_records b x n (u32 (ii + 1)) (u32 (total + 1)) (u32 (deleted + 1))
  ]

-- The header stands for the record of its figures that is returned.
unfoldable pub check_block_sanity : {L : Type 0} → IndexedBlock L → Result Header
unfolding count_records
check_block_sanity ib = do
  guard (is_available ib.block.state) unavailable
  x ← or_fail ib.index null_pointer
  let first = u32 ib.block.header.start_index
  r ← count_records ib.block x (ib.block.header.last_index - first) first 0 0
  guard (r.0 == ib.block.header.total_records) sanity_failed
  guard (r.1 == ib.block.header.deleted_records) sanity_failed
  ok ib.block.header

module _ (api : LockApi) where
  open api use {Lock}

  -- From `write_record` on, for a block that is not compressed.
  unfoldable pub write : IndexedBlock Lock → Caller → List ℕ → Text → Result (ℕ × IndexedBlock Lock)
  write ib c source txid = do
    guard (is_available ib.block.state) unavailable
    w ← write_record api ib.block c source txid 0
    x ← or_fail ib.index null_pointer
    r ← write_index x w.0.index w.0.offset w.0.data_size txid
    ok (w.0.index, record { block = w.1; index = some r.1 })

  unfoldable pub start_transaction :
      IndexedBlock Lock → Caller → Text → Result (Text × IndexedBlock Lock)
  start_transaction ib c tid = do
    r ← Transaction.start_transaction api ib.block c tid
    x ← or_fail ib.index null_pointer
    ok (r.0, record { block = r.1; index = some (BlockIndex.start_transaction x r.0 c.now) })

  unfoldable pub delete_record :
      IndexedBlock Lock → Caller → ℕ → Text → Result (Bool × IndexedBlock Lock)
  unfolding read_record_at
  delete_record ib c index txid = do
    guard (is_available ib.block.state) unavailable
    w ← is_writeable api ib.block
    guard w precondition
    b1 ← require_transaction api ib.block c
    require_id api b1 txid
    guard (leb b1.header.start_index index) precondition
    current ← get_current_index api b1 c
    guard (leb index current.0) precondition
    x ← or_fail ib.index null_pointer
    found ← read_index x index true
    e ← or_fail found index_corrupted
    r ← read_record_at current.1 index e.offset e.size
    guard (is_record_in_valid_state r) precondition
    d ← delete_index x index txid
    ok (
      d.0,
      record {
        block = record current.1 { header = record current.1.header { update_time = c.now } };
        index = some d.1;
      },
    )

  unfoldable pub commit : IndexedBlock Lock → Caller → Text → Result (IndexedBlock Lock)
  unfolding commit_deletes
  commit ib c txid = do
    guard (is_available ib.block.state) unavailable
    b1 ← require_transaction api ib.block c
    require_id api b1 txid
    x ← or_fail ib.index null_pointer
    b2 ← commit_deletes b1 x x.deletes
    x' ← BlockIndex.commit x txid
    info ← or_fail b2.rollback null_pointer
    added ←
        commit_added (info.write_offset - b2.header.write_offset) b2.area b2.header.write_offset
          info.write_offset 0
    b3 ←
        Transaction.end_transaction api
          (record b2 { area = added.0; header = publish b2.header info added.1 }) c
    ok (record { block = b3; index = some x' })

  unfoldable pub rollback : IndexedBlock Lock → Caller → Text → Result (IndexedBlock Lock)
  rollback ib c txid = do
    guard (is_available ib.block.state) unavailable
    b1 ← require_transaction api ib.block c
    require_id api b1 txid
    x ← or_fail ib.index null_pointer
    x' ← BlockIndex.rollback x txid
    b2 ← force_rollback api b1 c
    ok (record { block = b2; index = some x' })
