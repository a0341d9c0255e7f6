-- ===== src/IndexedBlock/Commit.antt =====
-- core/src/base_indexed_block.cpp: what a commit or a rollback makes of a block and of its index.
use react_fs.Prelude.{
  ℕ, ◌+◌, ◌-◌, ◌≤◌, ◌≡◌, refl, sym, ap, ◌∙◌, Bool, some, List, [], ◌∷◌, ◌++◌, Returns, ok, arith,
  length,
}
use mathlib.Core.Path.{subst}
use react_fs.Prelude.Texts.{Text}
use react_fs.WriteLock.{Caller}
use react_fs.Block.{DataRecord, Rollback, Area, Block}
use react_fs.Block.Interface.{LockApi}
use react_fs.Block.Transaction.{cleared, require_id, force_rollback, end_transaction}
use react_fs.Block.Deletes
use react_fs.Block.Deletes.{AreCommitted, length-delete_all, data_bytes-delete_all}
use react_fs.Block.Layout
use react_fs.Block.Records.{commit_added}
use react_fs.Block.Write
use react_fs.Block.Write.{require_transaction-writer}
use react_fs.Block.Commit.{published, published-IsValid}
use react_fs.BlockIndex
use react_fs.BlockIndex.{Index}
use react_fs.BlockIndex.Entries
use react_fs.BlockIndex.Commit
use react_fs.BlockIndex.Commit.{commit-all_readable, AreStored, rollback-cleared}
use react_fs.IndexedBlock.{commit_deletes, commit, rollback}
use react_fs.IndexedBlock.Synced.{
  entries_of, length-entries_of, entries_of-append, IsSynced, IsPending, IsWriter, block-IsWriter,
  index-IsWriter,
}
use react_fs.IndexedBlock.Deletes.{
  commit_deletes-Laid, entries_of-all_readable, entries_of-delete_all,
}

module _ (api : LockApi) where
  open api use {Lock, has_write_lock, release_lock, held_again}

  committed-AreStored :
      (start last n : ℕ) (ds : List ℕ)
      → last ≤ start + n
      → AreCommitted start last ds
      → AreStored start n ds
  committed-AreStored start last n [] h c = tt
  committed-AreStored start last n (d ∷ ds) h c =
      ((c.0.0, omega (arith, c.0.1, h)), committed-AreStored start last n ds h c.1)

  -- The entries that the index keeps are those of the records that the block keeps.
  same_entries :
      {L : Type 0} (b : Block L) (recs pending : List DataRecord) (x : Index)
      → AreCommitted b.header.start_index b.header.last_index x.deletes
      → IsSynced b x recs
      → BlockIndex.Commit.delete_all
          (entries_of recs ++ BlockIndex.Commit.all_readable (entries_of pending))
          x.header.start_index
          x.deletes
        ≡ entries_of
            (Deletes.delete_all recs b.header.start_index x.deletes ++ Layout.all_readable pending)
  same_entries b recs pending x c s =
      ap
        (λ i.
          BlockIndex.Commit.delete_all
            (entries_of recs ++ BlockIndex.Commit.all_readable (entries_of pending)) i x.deletes)
        s.start
      ∙ ap
          (λ es.
            BlockIndex.Commit.delete_all (entries_of recs ++ es) b.header.start_index x.deletes)
          (sym (entries_of-all_readable pending))
      ∙ ap (λ es. BlockIndex.Commit.delete_all es b.header.start_index x.deletes)
          (sym (entries_of-append recs (Layout.all_readable pending)))
      ∙ entries_of-delete_all recs (Layout.all_readable pending) b.header.start_index
          b.header.last_index x.deletes s.block.last c

  -- The call, once its parts have succeeded.
  commit-parts :
      {b : Block Lock} {c : Caller} {info : Rollback} {l m : Lock} {txid : Text} {done : Bool}
      (x : Index) (area area' : Area) (deleted added : ℕ) (y : Index)
      → Write.IsWriter api b c txid info l
      → release_lock l c ≡ ok (done, m)
      → commit_deletes (record b { lock = l }) x x.deletes
        ≡ ok (record b {
          lock = l;
          area = area;
          header = record b.header { deleted_records = deleted };
        })
      → BlockIndex.commit x txid ≡ ok y
      → commit_added
          (info.write_offset - b.header.write_offset)
          area
          b.header.write_offset
          info.write_offset
          0
        ≡ ok (area', added)
      → commit api (record { block = b; index = some x }) c txid
        ≡ ok (record {
          block = published b info added area' deleted (some (cleared api info)) b.deletes m;
          index = some y;
        })
  unfolding commit require_id end_transaction
  commit-parts {b} {c} {info} {l} {m} {txid} {done} x area area' deleted added y w rel d q n =
      let again = held_again b.lock l c w.held in
      let own = require_transaction-writer api {b = b} {c = c} w.kept w.started w.held in
      ground (arith, w.available, own, w.kept, w.given, w.same, d, q, n, again, rel)

  -- A commit by the transaction's own thread, which has deleted only committed records, marks those as deleted
  -- and makes the pending records readable behind them, in the block and in the index, whose entries are
  -- again those of the block's records; it closes both transactions and forgets the deletes of the index.
  pub commit-IsSynced :
      {b : Block Lock} {x : Index} (c : Caller) {recs pending : List DataRecord} {l m : Lock}
      (txid : Text) (done : Bool)
      → IsSynced b x recs
      → (p : IsPending b x txid recs pending) → IsWriter api b x c txid l
      → AreCommitted b.header.start_index b.header.last_index x.deletes
      → release_lock l c ≡ ok (done, m)
      → Returns (commit api (record { block = b; index = some x }) c txid) λ ib.
        (x' : Index) × (ib.index ≡ some x')
        × IsSynced ib.block x'
            (Deletes.delete_all recs b.header.start_index x.deletes ++ Layout.all_readable pending)
        × (ib.block.rollback ≡ some (cleared api p.info))
        × (x'.rollback ≡ some (BlockIndex.cleared p.index_info))
        × (x'.deletes ≡ [])
        × (ib.block.lock ≡ m)
  commit-IsSynced {b} {x} c {recs} {pending} {l} {m} txid done s p w committed rel =
      let start = b.header.start_index in
      let kept = Deletes.delete_all recs start x.deletes in
      let d =
        commit_deletes-Laid (record b { lock = l }) x recs recs x.deletes w.available
          w.index_available s.index s.start refl refl s.block.laid s.block.last committed in
      let n =
        published-IsValid kept d.0 s.block p.block (length-delete_all recs start x.deletes)
          (data_bytes-delete_all recs start x.deletes) d.3 d.4 in
      let y = commit-all_readable txid s.index p.index (index-IsWriter api p w) (
        subst (λ i. AreStored i (length (entries_of recs) + length (entries_of pending)) x.deletes)
          (sym s.start)
          (committed-AreStored start b.header.last_index _ x.deletes
            (omega (arith, s.block.last, length-entries_of recs)) committed)) in
      (
        record {
          block =
              published b p.info (0 + length pending) n.0 d.1 (some (cleared api p.info)) b.deletes
                m;
          index = some y.0;
        },
        commit-parts x d.0 n.0 d.1 (0 + length pending) y.0 (block-IsWriter api p w) rel d.2 y.1
            n.1,
        (
          y.0,
          refl,
          record {
            block = n.2 d.1 (some (cleared api p.info)) b.deletes m;
            index =
                subst (λ es. Entries.IsValid y.0 es) (same_entries b recs pending x committed s)
                  y.2.0;
            start = y.2.1 ∙ s.start;
          },
          refl,
          y.2.2,
          y.2.3,
          refl,
        ),
      )

  -- A rollback by the transaction's own thread leaves the committed records of the block and their entries as
  -- they were, closes both transactions and forgets the deletes of the index.
  pub rollback-IsSynced :
      {b : Block Lock} {x : Index} (c : Caller) {recs pending : List DataRecord} {l m : Lock}
      (txid : Text) (done : Bool)
      → IsSynced b x recs
      → (p : IsPending b x txid recs pending) → IsWriter api b x c txid l
      → release_lock l c ≡ ok (done, m)
      → Returns (rollback api (record { block = b; index = some x }) c txid) λ ib.
        (x' : Index) × (ib.index ≡ some x')
        × IsSynced ib.block x' recs
        × (ib.block.header ≡ b.header)
        × (ib.block.rollback ≡ some (cleared api p.info))
        × (x'.rollback ≡ some (BlockIndex.cleared p.index_info))
        × (x'.deletes ≡ [])
        × (ib.block.lock ≡ m)
  unfolding rollback require_id force_rollback
  rollback-IsSynced {b} {x} c {recs} {pending} {l} {m} txid done s p w rel =
      let again = held_again b.lock l c w.held in
      let own =
        require_transaction-writer api {b = b} {c = c} p.block.kept p.block.started w.held in
      let own' =
        require_transaction-writer api {b = record b { lock = l }} {c = c} p.block.kept
          p.block.started again in
      let y = rollback-cleared txid s.index p.index p.index_same in
      (
        record {
          block = record b { deletes = []; rollback = some (cleared api p.info); lock = m };
          index = some y.0;
        },
        ground (arith, w.available, own, own', p.block.kept, w.given, p.same, y.1, again, rel),
        (
          y.0,
          refl,
          record {
            block = record {
              laid = s.block.laid;
              last = s.block.last;
              used = s.block.used;
              counted = s.block.counted;
              fits = s.block.fits;
              small = s.block.small;
              indexed = s.block.indexed;
            };
            index = y.2.0;
            start = ap (λ h. h.start_index) y.2.1 ∙ s.start;
          },
          refl,
          refl,
          y.2.2,
          y.2.3,
          refl,
        ),
      )
