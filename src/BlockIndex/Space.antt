-- ===== src/BlockIndex/Space.antt =====
-- core/src/base_block_index.cpp: the entries that fit into an index of a given size.
use react_fs.Prelude.{
  ℕ, ◌+◌, ◌*◌, ◌/◌, ◌^◌, ◌<◌, ◌≡◌, refl, true, none, some, List, [], ◌∷◌, Returns, err, arith,
  length, get_elem?, get_elem?-in, set, replicate, length-replicate, get_elem?-set_self,
  precondition, wild_access,
}
use react_fs.Prelude.Texts.{Text}
use react_fs.Block.{available, Rollback, u64}
use react_fs.BlockIndex.{Index, Entry, create_index, zero_entry, write_index}
use react_fs.BlockIndex.Entries.{IsValid, IsPending, IsWriter, new_entry}

-- The index that `open_index` gives for a new file.
abbrev pub opened : ℕ → ℕ → Index
opened estimated_records start_index = record {
  state = available;
  header = (create_index estimated_records start_index).0;
  entries = (create_index estimated_records start_index).1;
  writing = true;
  rollback = none;
  deletes = [];
}

-- A new index for fewer than 2 ^ 32 records is valid and empty, and its file has one place for each of the
-- estimated records: the factor of (15 / 10) is 1.
pub create_index-IsValid :
    (estimated_records start_index : ℕ)
    → estimated_records < 2 ^ 32
    → start_index < 2 ^ 63
    → IsValid (opened estimated_records start_index) []
      × (length (opened estimated_records start_index).entries ≡ estimated_records)
unfolding create_index
create_index-IsValid n start few low =
    let len : length (replicate (n * 1) zero_entry) ≡ n =
      omega (arith, length-replicate (n * 1) zero_entry) in
    (
      record {
        stored = tt;
        offset = omega arith;
        used = omega arith;
        last = omega arith;
        sized = omega (arith, len);
        fits = omega arith;
        small = omega (arith, len, few);
        indexed = low;
      },
      len,
    )

-- An index with four places left in its file refuses every write.
pub write_index-four_left :
    {x : Index} {cs ps : List Entry} {info : Rollback} (index offset size : ℕ) (txid : Text)
    → IsValid x cs
    → IsPending x info cs ps
    → IsWriter x info txid
    → length cs + length ps + 4 ≡ length x.entries
    → write_index x index offset size txid ≡ err precondition
unfolding write_index
write_index-four_left {x} {cs} {ps} {info} index offset size txid v p w few =
    ground
      (arith, w.available, w.writable, p.kept, p.started, p.used, v.used, v.sized, v.small, few)

-- The bug of `get_free_space`: an index of fewer than four places takes itself to have room for any entry,
-- and writes the one after the last place outside its file.
pub write_index-outside :
    {x : Index} {cs ps : List Entry} {info : Rollback} (offset size : ℕ) (txid : Text)
    → IsValid x cs
    → IsPending x info cs ps
    → IsWriter x info txid
    → length cs + length ps ≡ length x.entries
    → 0 < length x.entries
    → length x.entries < 4
    → write_index x (x.header.start_index + (length cs + length ps)) offset size txid
      ≡ err wild_access
unfolding write_index
write_index-outside {x} {cs} {ps} {info} offset size txid v p w full some_place few =
    let place : info.write_offset / 32 ≡ length x.entries = omega (arith, p.offset, full) in
    ground (
      arith,
      w.available,
      w.writable,
      p.kept,
      p.started,
      w.given,
      w.same,
      w.writing,
      p.last,
      p.used,
      v.used,
      v.sized,
      v.indexed,
      v.small,
      few,
      p.offset,
      place,
      beyond x.entries,
    )
  where
    beyond : (es : List Entry) → get_elem? es (length es) ≡ none
    beyond [] = refl
    beyond (e ∷ es) = beyond es

-- Apart from the next index, a write accepts the first index of the block whenever its transaction has an
-- entry or the index has one already: the entry of a second record then bears the index of the first.
pub write_index-start_again :
    {x : Index} {cs ps : List Entry} {info : Rollback} (offset size : ℕ) (txid : Text)
    → IsValid x cs
    → IsPending x info cs ps
    → IsWriter x info txid
    → 0 < length cs + length ps
    → length cs + length ps + 4 < length x.entries
    → Returns (write_index x x.header.start_index offset size txid) λ (e, x').
      (e.index ≡ x.header.start_index) × (get_elem? x'.entries (length cs + length ps) ≡ some e)
unfolding write_index
write_index-start_again {x} {cs} {ps} {info} offset size txid v p w again room =
    let k = length cs + length ps in
    let e = new_entry x.header.start_index offset size in
    let there = get_elem?-in x.entries k (omega arith) in
    let place : info.write_offset / 32 ≡ k = omega (arith, p.offset) in
    (
      (
        e,
        record x {
          entries = set x.entries k e;
          rollback = some (record info {
            last_index = x.header.start_index;
            used_bytes = u64 (info.used_bytes + 32);
            write_offset = u64 (info.write_offset + 32);
          });
        },
      ),
      ground (
        arith, w.available, w.writable, p.kept, p.started, w.given, w.same, w.writing, place,
        there.1, p.offset, p.used, p.last, v.used, v.sized, v.small, v.indexed, room,
      ),
      (refl, get_elem?-set_self x.entries k e (omega arith)),
    )
