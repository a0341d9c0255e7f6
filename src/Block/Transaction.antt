-- ===== src/Block/Transaction.antt =====
-- core/includes/base_block.h and core/src/base_block.cpp: the transaction of a block, and the space that
-- it has.
use react_fs.Prelude.{
  ℕ, ◌+◌, ◌-◌, Bool, true, false, not, ◌&&◌, ◌||◌, Option, none, some, [], Result, ok, err,
  precondition, unavailable, null_pointer, lock_failed, ◌>>=◌, ◌>>◌, guard, or_fail, ltb, leb,
  if◌then◌else◌,
}
use react_fs.Prelude.Texts.{Text, is_empty, same_text}
use react_fs.WriteLock.{Caller}
use react_fs.Block.Interface.{LockApi}
use react_fs.Block.{
  is_available, is_writable_state, is_updateable_state, header_bytes, Header, Rollback, Block, u64,
}

module _ (api : LockApi) where
  open api use {Lock, has_write_lock, is_lock_reset, check_and_register, get_lock, release_lock}

  unfoldable pub lock_answers : Block Lock → Caller → Result (Bool × Block Lock)
  lock_answers b c = do
    r ← has_write_lock b.lock c
    if r.0 then ok (true, record b { lock = r.1 }) else (do
      lost ← is_lock_reset r.1
      if lost
          then (do
            l ← check_and_register r.1 c
            again ← has_write_lock l c
            ok (again.0, record b { lock = again.1 }))
          else ok (false, record b { lock = r.1 }))

  abbrev pub transaction_open : Option Rollback → Bool
  transaction_open none = false
  transaction_open (some r) = r.in_transaction

  unfoldable pub in_transaction : Block Lock → Caller → Result (Bool × Block Lock)
  unfolding lock_answers
  in_transaction b c = if transaction_open b.rollback then lock_answers b c else ok (false, b)

  -- PRECONDITION(in_transaction())
  unfoldable pub require_transaction : Block Lock → Caller → Result (Block Lock)
  unfolding in_transaction
  require_transaction b c = do r ← in_transaction b c; guard r.0 precondition; ok r.1

  abbrev pub free_within : Header → ℕ → ℕ
  free_within h used = if ltb used h.block_size then h.block_size - used else 0

  -- The call falls through to the second computation where the first finds no space.
  unfoldable pub get_free_space : Block Lock → Caller → Result (ℕ × Block Lock)
  unfolding in_transaction
  get_free_space b c = do
    guard (is_available b.state) unavailable
    r ← in_transaction b c
    if r.0
        then (do
          info ← or_fail r.1.rollback null_pointer
          let used = u64 (b.header.used_bytes + info.used_bytes + header_bytes)
          if ltb used b.header.block_size
              then ok (b.header.block_size - used, r.1)
              else ok (free_within b.header (u64 (b.header.used_bytes + header_bytes)), r.1))
        else ok (free_within b.header (u64 (b.header.used_bytes + header_bytes)), r.1)

  unfoldable pub has_space : Block Lock → Caller → ℕ → Result (Bool × Block Lock)
  unfolding get_free_space
  has_space b c size = do r ← get_free_space b c; ok (leb size r.0, r.1)

  unfoldable pub is_writeable : Block Lock → Result Bool
  is_writeable b = do
    guard (is_available b.state) unavailable
    ok (b.for_update && is_writable_state b.header.write_state)

  unfoldable pub is_updateable : Block Lock → Result Bool
  is_updateable b = do
    guard (is_available b.state) unavailable
    ok (
        is_writable_state b.header.write_state
        || (b.for_update && is_updateable_state b.header.write_state))

  -- PRECONDITION(!IS_EMPTY(transaction_id) && (*rollback_info->transaction_id == transaction_id))
  unfoldable pub require_id : Block Lock → Text → Result (Unit {0})
  require_id b txid = if is_empty txid then err precondition else (do
    info ← or_fail b.rollback null_pointer
    guard (same_text info.transaction_id txid) precondition)

  unfoldable pub setup_transaction : Block Lock → Caller → Text → Block Lock
  setup_transaction b c txid = record b {
    rollback = some (record {
      in_transaction = true;
      transaction_id = txid;
      start_offset = b.header.write_offset;
      write_offset = b.header.write_offset;
      used_bytes = 0;
      last_index = b.header.last_index;
      start_time = c.now;
    });
  }

  unfoldable pub start_transaction : Block Lock → Caller → Text → Result (Text × Block Lock)
  unfolding setup_transaction
  start_transaction b c tid = do
    guard (is_available b.state) unavailable
    r ← get_lock b.lock c tid
    guard (not (is_empty r.0)) lock_failed
    ok (r.0, setup_transaction (record b { lock = r.1 }) c r.0)

  abbrev pub cleared : Rollback → Rollback
  cleared info = record info {
    in_transaction = false;
    last_index = 0;
    start_time = 0;
    transaction_id = [];
    write_offset = 0;
    used_bytes = 0;
  }

  unfoldable pub end_transaction : Block Lock → Caller → Result (Block Lock)
  end_transaction b c = do
    r ← has_write_lock b.lock c
    guard r.0 precondition
    info ← or_fail b.rollback null_pointer
    done ← release_lock r.1 c
    ok (record b { rollback = some (cleared info); lock = done.1 })

  unfoldable pub force_rollback : Block Lock → Caller → Result (Block Lock)
  unfolding require_transaction end_transaction
  force_rollback b c = do
    guard (is_available b.state) unavailable
    b' ← require_transaction b c
    end_transaction (record b' { deletes = [] }) c

  unfoldable pub rollback : Block Lock → Caller → Text → Result (Block Lock)
  unfolding require_transaction require_id force_rollback
  rollback b c txid = do
    guard (is_available b.state) unavailable
    b' ← require_transaction b c
    require_id b' txid
    force_rollback b' c
