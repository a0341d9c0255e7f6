-- ===== src/Block/Commit.antt =====
-- core/src/base_block.cpp: how a record is found, and what a commit makes of the block.
use react_fs.Prelude.{
  ℕ, ◌+◌, ◌-◌, ◌*◌, ◌≤◌, ◌≡◌, refl, ◌∙◌, ap, Bool, true, Option, some, List, [], ◌++◌, Returns, ok,
  arith, length, get_elem?, get_elem?_lt, length-append,
}
use react_fs.Prelude.Texts.{Text}
use react_fs.WriteLock.{Caller}
use react_fs.Block.Interface.{LockApi}
use react_fs.Block.{is_available, DataRecord, Rollback, Area, Block}
use react_fs.Block.Transaction.{cleared}
use react_fs.Block.Records.{read_record, publish, commit_added, commit}
use react_fs.Block.Deletes.{
  AreCommitted, delete_all, commit_deletes-Laid, length-delete_all, data_bytes-delete_all,
}
use react_fs.Block.Layout.{
  data_bytes, Laid, Laid-extent, Laid-append, Laid-agree, walk-Laid, data_bytes-append,
  all_readable, length-all_readable, data_bytes-all_readable, commit_added-Laid,
}
use react_fs.Block.Write.{IsValid, IsPending, IsWriter, require_transaction-writer}

-- `__read_record` finds each record of a block by its index, in the file at the record's own offset.
pub read_record-get_elem? :
    {L : Type 0} (b : Block L) {recs : List DataRecord} (k : ℕ) (r : DataRecord)
    → IsValid b recs
    → is_available b.state ≡ true
    → get_elem? recs k ≡ some r
    → read_record b (b.header.start_index + k) ≡ ok (r.offset, r)
unfolding read_record
read_record-get_elem? b {recs} k r v a g =
    let w = walk-Laid b.area b.header.start_index 0 recs b.header.write_offset k r v.laid g in
    let e : b.header.start_index + k - b.header.start_index ≡ k = omega arith in
    ground (arith, a, e, w.1, w.2, w.3, w.4, get_elem?_lt recs k r g, v.last)

-- The block with the new figures of the header.
abbrev pub published :
    {L : Type 0} → Block L → Rollback → ℕ → Area → ℕ → Option Rollback → List ℕ → L → Block L
published b info added area deleted rollback deletes lock = record b {
  area = area;
  header = publish (record b.header { deleted_records = deleted }) info added;
  rollback = rollback;
  deletes = deletes;
  lock = lock;
}

-- The loop over the pending records and the new figures of the header, behind committed records of which
-- some may have been marked.
pub published-IsValid :
    {L : Type 0} {b : Block L} {recs pending : List DataRecord} {info : Rollback}
    (kept : List DataRecord) (area : Area)
    → IsValid b recs
    → IsPending b info pending
    → length kept ≡ length recs
    → data_bytes kept ≡ data_bytes recs
    → Laid area b.header.start_index 0 kept b.header.write_offset
    → ((j : ℕ) → b.header.write_offset ≤ j → area j ≡ b.area j)
    → (area' : Area) × (commit_added
          (info.write_offset - b.header.write_offset)
          area
          b.header.write_offset
          info.write_offset
          0
        ≡ ok (area', 0 + length pending))
      × ((deleted : ℕ) (rollback : Option Rollback) (deletes : List ℕ) (lock : L)
          → IsValid
              (published b info (0 + length pending) area' deleted rollback deletes lock)
              (kept ++ all_readable pending))
published-IsValid {L} {b} {recs} {pending} {info} kept area v p same_length same_data laid rest =
    let n =
      commit_added-Laid (info.write_offset - b.header.write_offset) area b.header.last_index
        b.header.write_offset pending info.write_offset 0 (omega (arith, behind))
        (omega (arith, behind, p.fits, v.small))
        (Laid-agree b.area area b.header.last_index b.header.write_offset pending info.write_offset
          (λ j h h'. rest j h) p.laid) in
    (
      n.0,
      n.1,
      λ deleted rollback deletes lock. record {
        laid =
            Laid-append n.0 b.header.start_index 0 kept (all_readable pending) b.header.last_index
              b.header.write_offset info.write_offset (omega (arith, v.last, same_length))
              (Laid-agree area n.0 b.header.start_index 0 kept b.header.write_offset
                (λ j h h'. n.3 j h') laid)
              n.2;
        last = omega (arith, p.last, v.last, same_length, longer);
        used = omega (arith, v.used, p.used, p.fits, v.small, behind, before, same_data, more_data);
        counted = omega (arith, v.counted, p.fits, v.small, behind, before, same_length, longer);
        fits = p.fits;
        small = v.small;
        indexed = v.indexed;
      },
    )
  where
    behind : info.write_offset ≡ b.header.write_offset + (48 * length pending + data_bytes pending)
    behind =
        Laid-extent b.area b.header.last_index b.header.write_offset pending info.write_offset
          p.laid

    before : b.header.write_offset ≡ 0 + (48 * length recs + data_bytes recs)
    before = Laid-extent b.area b.header.start_index 0 recs b.header.write_offset v.laid

    longer : length (kept ++ all_readable pending) ≡ length kept + length pending
    longer =
        length-append kept (all_readable pending)
        ∙ ap (λ x. length kept + x) (length-all_readable pending)

    more_data : data_bytes (kept ++ all_readable pending) ≡ data_bytes kept + data_bytes pending
    more_data =
        data_bytes-append kept (all_readable pending)
        ∙ ap (λ x. data_bytes kept + x) (data_bytes-all_readable pending)

module _ (api : LockApi) where
  open api use {Lock, has_write_lock, release_lock, held_again}

  -- A commit by the transaction's own thread, which has deleted only committed records, marks those as
  -- deleted, makes the pending records readable and adds them behind the committed ones, in the file
  -- and in the figures of the header; it closes the transaction and forgets the deletes.
  pub commit-IsValid :
      {b : Block Lock} (c : Caller) {recs pending : List DataRecord} {info : Rollback} {l m : Lock}
      (txid : Text) (done : Bool)
      → IsValid b recs
      → IsPending b info pending
      → IsWriter api b c txid info l
      → AreCommitted b.header.start_index b.header.last_index b.deletes
      → release_lock l c ≡ ok (done, m)
      → Returns (commit api b c txid) λ b'.
        IsValid b' (delete_all recs b.header.start_index b.deletes ++ all_readable pending)
        × (b'.rollback ≡ some (cleared api info))
        × (b'.deletes ≡ [])
        × (b'.lock ≡ m)
  unfolding commit
  commit-IsValid {b} c {recs} {pending} {info} {l} {m} txid done v p w committed rel =
      let again = held_again b.lock l c w.held in
      let d =
        commit_deletes-Laid (record b { lock = l }) recs b.deletes w.available v.laid v.last
          committed in
      let n =
        published-IsValid (delete_all recs b.header.start_index b.deletes) d.0 v p
          (length-delete_all recs b.header.start_index b.deletes)
          (data_bytes-delete_all recs b.header.start_index b.deletes) d.3 d.4 in
      (
        published b info (0 + length pending) n.0 d.1 (some (cleared api info)) [] m,
        ground (
          arith,
          w.available,
          w.given,
          w.kept,
          w.same,
          again,
          rel,
          d.2,
          n.1,
          require_transaction-writer api {b = b} {c = c} w.kept w.started w.held,
        ),
        (n.2 d.1 (some (cleared api info)) [] m, refl, refl, refl),
      )
