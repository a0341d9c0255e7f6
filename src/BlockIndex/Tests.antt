-- ===== src/BlockIndex/Tests.antt =====
-- The theorems of a block index at a concrete index whose transaction has one entry.
use react_fs.Prelude.{◌≡◌, some, [], ◌∷◌, Returns, arith}
use react_fs.Block.{Rollback}
use react_fs.Block.Sample.{txid}
use react_fs.BlockIndex.{e_readable, e_deleted, cleared, write_index, commit}
use react_fs.BlockIndex.Entries.{IsValid, IsPending, new_entry, write_index-IsPending}
use react_fs.BlockIndex.Commit.{commit-all_readable}
use react_fs.BlockIndex.Sample.{
  old_entry, young_entry, index_info, index_of, index-IsValid, index-IsPending, index-IsWriter,
  index_deleting-IsValid, index_deleting-IsPending, index_deleting-IsWriter,
}

write_index-IsPending_example : Returns (write_index (index_of 5 []) 12 101 4 txid) λ (e, x).
    (e ≡ new_entry 12 101 4)
    × IsValid x (old_entry ∷ [])
    × (x.header.start_index ≡ 10)
    × ((info : Rollback) × (info.transaction_id ≡ txid)
        × IsPending x info (old_entry ∷ []) (young_entry ∷ e ∷ []))
write_index-IsPending_example =
    write_index-IsPending 101 4 txid index-IsValid index-IsPending index-IsWriter (omega arith)

commit-all_readable_example : Returns (commit (index_of 5 (10 ∷ [])) txid) λ x.
    IsValid x
      (record old_entry { state = e_deleted } ∷ record young_entry { state = e_readable } ∷ [])
    × (x.header.start_index ≡ 10)
    × (x.rollback ≡ some (cleared index_info))
    × (x.deletes ≡ [])
commit-all_readable_example =
    commit-all_readable txid index_deleting-IsValid index_deleting-IsPending index_deleting-IsWriter
      ((omega arith, omega arith), tt)
