-- ===== src/Block/Tests.antt =====
-- The theorems of a data block at a concrete block whose transaction has one record.
use react_fs.Prelude.{◌≡◌, refl, true, none, some, [], ◌∷◌, Returns, ok, arith}
use react_fs.Prelude.Texts.{same_text, has_prefix}
use react_fs.WriteLock.{has_write_lock}
use react_fs.Block.Lock.{Attached}
use react_fs.Block.{r_readable, r_deleted, Rollback, Block}
use react_fs.Block.Transaction.{cleared, rollback}
use react_fs.Block.Records.{read_record, new_record, write_record, commit}
use react_fs.Block.Scan.{read, read-first_bytes}
use react_fs.Block.Write.{IsValid, IsPending, IsWriter}
use react_fs.Block.Commit.{read_record-get_elem?, commit-IsValid}
use react_fs.Block.Pending.{write_record-IsPending, rollback-IsValid}
use react_fs.Block.Sample.{
  txid, caller, api, attached, freed, old, young, header_of, info, block_of, block-IsValid,
  block-IsPending, block-IsWriter, block-HasRoom, released,
}

read_record-get_elem?_example : read_record (block_of 1000) 10 ≡ ok (0, old)
read_record-get_elem?_example = read_record-get_elem? (block_of 1000) 0 old block-IsValid refl refl

write_record-IsPending_example :
    Returns (write_record api (block_of 1000) caller (9 ∷ []) txid 0) λ (r, b).
      (r ≡ new_record info (9 ∷ []) 0 1000)
      × IsValid b (old ∷ [])
      × (b.header.start_index ≡ 10)
      × ((info' : Rollback) × (info'.transaction_id ≡ txid) × IsPending b info' (young ∷ r ∷ []))
write_record-IsPending_example =
    write_record-IsPending api caller txid (9 ∷ []) 0 block-IsValid block-IsPending
      (block-IsWriter 1000) refl refl block-HasRoom

rollback-IsValid_example : Returns (rollback api (block_of 1000) caller txid) λ b.
    IsValid b (old ∷ [])
    × (b.header ≡ header_of 1000)
    × (b.rollback ≡ some (cleared api info))
    × (b.deletes ≡ [])
    × (b.lock ≡ freed)
rollback-IsValid_example =
    rollback-IsValid api caller txid true block-IsValid (block-IsWriter 1000) released

-- The transaction has deleted the committed record.
abbrev deleting : Block Attached
deleting = record (block_of 1000) { deletes = 10 ∷ [] }

deleting-IsValid : IsValid deleting (old ∷ [])
deleting-IsValid = record {
  laid = (refl, refl, refl, refl);
  last = refl;
  used = refl;
  counted = refl;
  fits = omega arith;
  small = omega arith;
  indexed = omega arith;
}

deleting-IsPending : IsPending deleting info (young ∷ [])
deleting-IsPending = record {
  kept = refl;
  started = refl;
  laid = (refl, refl, refl, refl);
  last = refl;
  used = refl;
  fits = omega arith;
}

deleting-IsWriter : IsWriter api deleting caller txid info attached
unfolding has_write_lock same_text has_prefix
deleting-IsWriter = record {
  available = refl;
  kept = refl;
  started = refl;
  given = refl;
  same = refl;
  held = refl;
}

commit-IsValid_example : Returns (commit api deleting caller txid) λ b.
    IsValid b (record old { state = r_deleted } ∷ record young { state = r_readable } ∷ [])
    × (b.rollback ≡ some (cleared api info))
    × (b.deletes ≡ [])
    × (b.lock ≡ freed)
commit-IsValid_example =
    commit-IsValid api caller txid true deleting-IsValid deleting-IsPending deleting-IsWriter
      ((omega arith, omega arith), tt) released

read-first_bytes_example : read (block_of 1000) none 10 5 r_readable ≡ ok ((1 ∷ 2 ∷ []) ∷ [])
read-first_bytes_example = read-first_bytes 0 5 block-IsValid refl refl refl
