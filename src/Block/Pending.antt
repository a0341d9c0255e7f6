-- ===== src/Block/Pending.antt =====
-- core/src/base_block.cpp: the calls of a transaction before it is committed, and its rollback.
use react_fs.Prelude.{
  ℕ, ◌+◌, ◌-◌, ◌^◌, ◌≤◌, ◌<◌, ◌≡◌, refl, ◌∙◌, Bool, true, some, List, [], ◌∷◌, ◌++◌, Returns, ok,
  arith, length,
}
use react_fs.Prelude.Texts.{Text}
use react_fs.WriteLock.{Caller}
use react_fs.Block.Interface.{LockApi}
use react_fs.Block.{is_writable_state, DataRecord, Rollback, Block}
use react_fs.Block.Transaction.{get_free_space, cleared, rollback}
use react_fs.Block.Records.{new_record, write_record}
use react_fs.Block.Write.{
  IsValid, IsPending, IsWriter, HasRoom, in_transaction-writer, require_transaction-writer,
  write_record-put_record, put_record-IsPending,
}

module _ (api : LockApi) where
  open api use {Lock, has_write_lock, release_lock, held_again}

  -- A write by the transaction's own thread that has room returns the new record, with the bytes given,
  -- the transaction's next index and the place it is written at; the record is the last of those that
  -- the transaction has pending, and the committed records of the block and its first index
  -- are the same as before.
  pub write_record-IsPending :
      {b : Block Lock} (c : Caller) {recs pending : List DataRecord} {info : Rollback} {l : Lock}
      (txid : Text) (source : List ℕ) (u : ℕ)
      → IsValid b recs
      → IsPending b info pending
      → IsWriter api b c txid info l
      → b.for_update ≡ true
      → is_writable_state b.header.write_state ≡ true
      → HasRoom api b info (length source)
      → Returns (write_record api b c source txid u) λ (r, b').
        (r ≡ new_record info source u c.now)
        × IsValid b' recs
        × (b'.header.start_index ≡ b.header.start_index)
        × ((info' : Rollback) × (info'.transaction_id ≡ info.transaction_id)
            × IsPending b' info' (pending ++ (r ∷ [])))
  write_record-IsPending {b} c {recs} {pending} {info} {l} txid source u v p w opened writing room =
      let n =
        put_record-IsPending {b = record b { lock = l }} c {info = info} source u
          (record {
            laid = v.laid;
            last = v.last;
            used = v.used;
            counted = v.counted;
            fits = v.fits;
            small = v.small;
            indexed = v.indexed;
          })
          (record {
            kept = p.kept;
            started = p.started;
            laid = p.laid;
            last = p.last;
            used = p.used;
            fits = p.fits;
          })
          room.file in
      (
        n.0,
        write_record-put_record api {b = b} {c = c} txid source u w opened writing room ∙ n.1,
        n.2,
      )

  -- A rollback of the transaction's own thread, whose lock is then released, closes the transaction,
  -- and the committed records of the block are the same as before, whatever was written since.
  pub rollback-IsValid :
      {b : Block Lock} (c : Caller) {recs : List DataRecord} {info : Rollback} {l m : Lock}
      (txid : Text) (done : Bool)
      → IsValid b recs
      → IsWriter api b c txid info l
      → release_lock l c ≡ ok (done, m)
      → Returns (rollback api b c txid) λ b'.
        IsValid b' recs
        × (b'.header ≡ b.header)
        × (b'.rollback ≡ some (cleared api info))
        × (b'.deletes ≡ [])
        × (b'.lock ≡ m)
  unfolding rollback
  rollback-IsValid {b} c {recs} {info} {l} {m} txid done v w rel =
      let again = held_again b.lock l c w.held in
      (
        record b { rollback = some (cleared api info); deletes = []; lock = m },
        ground (
          arith,
          w.available,
          w.given,
          w.kept,
          w.same,
          again,
          rel,
          require_transaction-writer api {b = b} {c = c} w.kept w.started w.held,
          require_transaction-writer api {b = record b { lock = l }} {c = c} w.kept w.started again,
        ),
        (
          record {
            laid = v.laid;
            last = v.last;
            used = v.used;
            counted = v.counted;
            fits = v.fits;
            small = v.small;
            indexed = v.indexed;
          },
          refl,
          refl,
          refl,
          refl,
        ),
      )

  -- In a transaction whose records use up the block, the free space is what it was before the
  -- transaction began, so that more records fit than the block has space for.
  pub get_free_space-used_up :
      {b : Block Lock} {c : Caller} {info : Rollback} {l : Lock} (txid : Text)
      → IsWriter api b c txid info l
      → b.header.block_size < 2 ^ 31
      → b.header.used_bytes + info.used_bytes < 2 ^ 32
      → b.header.block_size ≤ b.header.used_bytes + info.used_bytes + 48
      → get_free_space api b c
        ≡ ok (b.header.block_size - (b.header.used_bytes + 48), record b { lock = l })
  unfolding get_free_space
  get_free_space-used_up {b} {c} txid w small few full = ground (
    arith,
    w.available,
    w.kept,
    in_transaction-writer api {b = b} {c = c} w.kept w.started w.held,
    small,
    few,
    full,
  )
