-- ===== src/Block/Records.antt =====
-- core/src/base_block.cpp and core/includes/base_block.h: the operations that write, find, delete and
-- commit the records of a block.
use react_fs.Prelude.{
  ℕ, zero, suc, ◌+◌, ◌-◌, Bool, true, false, ◌&&◌, ◌||◌, some, List, [], ◌∷◌, ◌++◌, Result, ok, err,
  precondition, postcondition, unavailable, null_pointer, wild_access, exhausted,
  transaction_invalid, ◌>>=◌, ◌>>◌, guard, or_fail, ltb, leb, ◌==◌, if◌then◌else◌, length,
}
use react_fs.Prelude.Texts.{Text}
use react_fs.WriteLock.{Caller}
use react_fs.Block.Interface.{LockApi}
use react_fs.Block.{
  is_available, r_readable, r_deleted, r_dirty, same_state, DataRecord, header_bytes, extent,
  Header, Rollback, Area, Block, u64, u32, capacity, write_at, mark_at,
}
use react_fs.Block.Transaction.{
  in_transaction, require_transaction, has_space, is_writeable, is_updateable, require_id,
  force_rollback, end_transaction,
}

-- The loop of `__read_record`: the offset at which the record stands, from index `ii` at offset `o` over
-- `n` records. Where the bytes are not those of a record, what is read there is not determined, which
-- counts as an error.
unfoldable pub walk : Area → ℕ → ℕ → ℕ → Result ℕ
walk area zero ii o = ok o
walk area (suc n) ii o = do
  r ← or_fail (area o) wild_access
  guard (r.index == ii) postcondition
  walk area n (suc ii) (o + extent r)

-- `__read_record(index)`, with the offset of the record.
unfoldable pub read_record : {L : Type 0} → Block L → ℕ → Result (ℕ × DataRecord)
unfolding walk
read_record b index = do
  guard (is_available b.state) unavailable
  guard (leb b.header.start_index index && leb index b.header.last_index) precondition
  o ← walk b.area (index - b.header.start_index) b.header.start_index 0
  r ← or_fail (b.area o) wild_access
  guard (r.index == index) postcondition
  ok (o, r)

abbrev pub is_record_in_valid_state : DataRecord → Bool
is_record_in_valid_state r = same_state r.state r_readable || same_state r.state r_dirty

-- The loop of `commit` over `rollback_info_deletes`.
unfoldable pub commit_deletes : {L : Type 0} → Block L → List ℕ → Result (Block L)
unfolding read_record mark_at
commit_deletes b [] = ok b
commit_deletes b (index ∷ rest) = do
  r ← read_record b index
  commit_deletes
      (record b {
        area = mark_at b.area r.0 r_deleted;
        header = record b.header { deleted_records = u32 (b.header.deleted_records + 1) };
      })
      rest

-- The loop of `commit` over the bytes from `o` to `e`, with `added` so far. A step moves on by the
-- bytes of a record, so `e - o` steps are enough.
unfoldable pub commit_added : ℕ → Area → ℕ → ℕ → ℕ → Result (Area × ℕ)
unfolding mark_at
commit_added zero area o e added = if ltb o e then err exhausted else ok (area, added)
commit_added (suc fuel) area o e added = elim (ltb o e) [
  | false ↦ ok (area, added)
  | true ↦ (do
    r ← or_fail (area o) wild_access
    commit_added fuel (mark_at area o r_readable) (o + extent r) e (u32 (added + 1)))
]

-- The header of a record that is written: its index and offset are those of the transaction.
abbrev pub new_record : Rollback → List ℕ → ℕ → ℕ → DataRecord
new_record info source uncompressed_size now = record {
  index = info.last_index;
  offset = info.write_offset;
  state = r_dirty;
  data_size = length source;
  uncompressed_size = uncompressed_size;
  timestamp = now;
  bytes = source;
}

-- The writes of `__write_record` to the mapped file and to the transaction. The file has `capacity`
-- bytes behind the header.
unfoldable pub put_record :
    {L : Type 0} → Block L → Caller → List ℕ → ℕ → Result (DataRecord × Block L)
unfolding write_at
put_record b c source uncompressed_size = do
  info ← or_fail b.rollback null_pointer
  guard (leb (info.write_offset + (header_bytes + length source)) (capacity b.header.block_size))
      wild_access
  let r = new_record info source uncompressed_size c.now
  ok (
    r,
    record b {
      area = write_at b.area info.write_offset r;
      header = record b.header { update_time = c.now };
      rollback = some (record info {
        last_index = u64 (info.last_index + 1);
        used_bytes = u64 (info.used_bytes + length source);
        write_offset = u64 (info.write_offset + (header_bytes + length source));
      });
    },
  )

-- What `commit` writes into the header of the block.
abbrev pub publish : Header → Rollback → ℕ → Header
publish h info added = record h {
  last_index = info.last_index;
  used_bytes = u64 (h.used_bytes + info.used_bytes);
  write_offset = info.write_offset;
  commit_sequence = u64 (h.commit_sequence + 1);
  total_records = u32 (h.total_records + added);
}

module _ (api : LockApi) where
  open api use {Lock}

  -- `__write_record`. `get_write_ptr`, `get_next_index` and `get_write_offset` each ask for the
  -- transaction again.
  unfoldable pub write_record :
      Block Lock → Caller → List ℕ → Text → ℕ → Result (DataRecord × Block Lock)
  unfolding is_writeable has_space require_id in_transaction force_rollback require_transaction
      put_record
  write_record b c source txid uncompressed_size = do
    guard (is_available b.state) unavailable
    w ← is_writeable api b
    guard w precondition
    s ← has_space api b c (length source)
    guard s.0 precondition
    require_id api s.1 txid
    t ← in_transaction api s.1 c
    if t.0
        then (do
          b1 ← require_transaction api t.1 c
          b2 ← require_transaction api b1 c
          b3 ← require_transaction api b2 c
          put_record b3 c source uncompressed_size)
        else (do _ ← force_rollback api t.1 c; err transaction_invalid)

  unfoldable pub get_current_index : Block Lock → Caller → Result (ℕ × Block Lock)
  get_current_index b c = do
    t ← in_transaction api b c
    if t.0
        then (do info ← or_fail t.1.rollback null_pointer; ok (info.last_index, t.1))
        else ok (b.header.last_index, t.1)

  unfoldable pub delete_record : Block Lock → Caller → ℕ → Text → Result (Block Lock)
  unfolding is_updateable require_transaction require_id get_current_index read_record
  delete_record b c index txid = do
    guard (is_available b.state) unavailable
    w ← is_updateable api b
    guard w precondition
    b1 ← require_transaction api b c
    require_id api b1 txid
    guard (leb b1.header.start_index index) precondition
    current ← get_current_index b1 c
    guard (leb index current.0) precondition
    r ← read_record current.1 index
    guard (is_record_in_valid_state r.1) precondition
    ok (record current.1 {
      deletes = current.1.deletes ++ (index ∷ []);
      header = record current.1.header { update_time = c.now };
    })

  unfoldable pub commit : Block Lock → Caller → Text → Result (Block Lock)
  unfolding require_transaction require_id commit_deletes commit_added end_transaction
  commit b c txid = do
    guard (is_available b.state) unavailable
    b1 ← require_transaction api b c
    require_id api b1 txid
    b2 ← commit_deletes b1 b1.deletes
    info ← or_fail b2.rollback null_pointer
    added ←
        commit_added (info.write_offset - b2.header.write_offset) b2.area b2.header.write_offset
          info.write_offset 0
    end_transaction api
        (record b2 { area = added.0; header = publish b2.header info added.1; deletes = [] }) c
