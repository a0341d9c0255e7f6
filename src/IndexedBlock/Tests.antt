-- ===== src/IndexedBlock/Tests.antt =====
-- The theorems of an indexed block at the block and the index of the samples.
use react_fs.Prelude.{ℕ, ◌≡◌, refl, true, none, some, List, [], ◌∷◌, Returns, ok, arith}
use react_fs.Prelude.Texts.{same_text, has_prefix}
use react_fs.WriteLock.{has_write_lock}
use react_fs.Block.{r_readable, r_deleted}
use react_fs.Block.Lock.{Attached}
use react_fs.Block.Transaction.{cleared}
use react_fs.Block.Records.{new_record}
use react_fs.Block.Scan
use react_fs.Block.Sample.{
  txid, caller, api, attached, freed, old, young, header_of, info, block_of, block-IsValid,
  block-IsPending, block-HasRoom, released,
}
use react_fs.BlockIndex
use react_fs.BlockIndex.{Index}
use react_fs.BlockIndex.Sample.{
  index_info, index_of, index-IsValid, index-IsPending, index_deleting-IsValid,
  index_deleting-IsPending,
}
use react_fs.IndexedBlock.{IndexedBlock, read, check_block_sanity, write, commit, rollback}
use react_fs.IndexedBlock.Synced.{IsSynced, IsPending, IsWriter, write-IsSynced}
use react_fs.IndexedBlock.Read.{read-readable_bytes, check_block_sanity-eq}
use react_fs.IndexedBlock.Commit.{commit-IsSynced, rollback-IsSynced}

abbrev both : List ℕ → IndexedBlock Attached
both deletes = record { block = block_of 1000; index = some (index_of 5 deletes) }

sample-IsSynced : IsSynced (block_of 1000) (index_of 5 []) (old ∷ [])
sample-IsSynced = record { block = block-IsValid; index = index-IsValid; start = refl }

sample-IsPending : IsPending (block_of 1000) (index_of 5 []) txid (old ∷ []) (young ∷ [])
unfolding same_text
sample-IsPending = record {
  info = info;
  index_info = index_info;
  block = block-IsPending;
  index = index-IsPending;
  same = refl;
  index_same = refl;
}

sample-IsWriter :
    (deletes : List ℕ) → IsWriter api (block_of 1000) (index_of 5 deletes) caller txid attached
unfolding has_write_lock same_text has_prefix
sample-IsWriter deletes = record {
  available = refl;
  opened = refl;
  writable = refl;
  given = refl;
  held = refl;
  index_available = refl;
  index_writable = refl;
  index_writing = refl;
}

-- The transaction has deleted the committed record.
deleting-IsSynced : IsSynced (block_of 1000) (index_of 5 (10 ∷ [])) (old ∷ [])
deleting-IsSynced = record { block = block-IsValid; index = index_deleting-IsValid; start = refl }

deleting-IsPending : IsPending (block_of 1000) (index_of 5 (10 ∷ [])) txid (old ∷ []) (young ∷ [])
unfolding same_text
deleting-IsPending = record {
  info = info;
  index_info = index_info;
  block = block-IsPending;
  index = index_deleting-IsPending;
  same = refl;
  index_same = refl;
}

write-IsSynced_example : Returns (write api (both []) caller (9 ∷ []) txid) λ (i, ib).
    (i ≡ 12)
    × ((x : Index) × (ib.index ≡ some x)
        × IsSynced ib.block x (old ∷ [])
        × IsPending ib.block x txid (old ∷ []) (young ∷ new_record info (9 ∷ []) 0 1000 ∷ []))
unfolding same_text sample-IsPending
write-IsSynced_example =
    write-IsSynced api caller txid (9 ∷ []) sample-IsSynced sample-IsPending (sample-IsWriter [])
      block-HasRoom (omega arith)

commit-IsSynced_example : Returns (commit api (both (10 ∷ [])) caller txid) λ ib.
    (x : Index) × (ib.index ≡ some x)
    × IsSynced ib.block x
        (record old { state = r_deleted } ∷ record young { state = r_readable } ∷ [])
    × (ib.block.rollback ≡ some (cleared api info))
    × (x.rollback ≡ some (BlockIndex.cleared index_info))
    × (x.deletes ≡ [])
    × (ib.block.lock ≡ freed)
unfolding deleting-IsPending
commit-IsSynced_example =
    commit-IsSynced api caller txid true deleting-IsSynced deleting-IsPending
      (sample-IsWriter (10 ∷ [])) ((omega arith, omega arith), tt) released

rollback-IsSynced_example : Returns (rollback api (both []) caller txid) λ ib.
    (x : Index) × (ib.index ≡ some x)
    × IsSynced ib.block x (old ∷ [])
    × (ib.block.header ≡ header_of 1000)
    × (ib.block.rollback ≡ some (cleared api info))
    × (x.rollback ≡ some (BlockIndex.cleared index_info))
    × (x.deletes ≡ [])
    × (ib.block.lock ≡ freed)
unfolding sample-IsPending
rollback-IsSynced_example =
    rollback-IsSynced api caller txid true sample-IsSynced sample-IsPending (sample-IsWriter [])
      released

read-readable_bytes_example : read (both []) none 10 5 r_readable ≡ ok ((1 ∷ 2 ∷ []) ∷ [])
read-readable_bytes_example = read-readable_bytes sample-IsSynced refl refl 0 5 refl refl

check_block_sanity-eq_example :
    check_block_sanity (both []) ≡ Scan.check_block_sanity (block_of 1000)
check_block_sanity-eq_example = check_block_sanity-eq sample-IsSynced refl refl (omega arith)
