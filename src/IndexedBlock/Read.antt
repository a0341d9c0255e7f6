-- ===== src/IndexedBlock/Read.antt =====
-- core/src/base_indexed_block.cpp: what is read through the index of a block.
use react_fs.Prelude.{
  ℕ, zero, suc, ◌+◌, ◌-◌, ◌^◌, ◌<◌, ◌≡◌, refl, sym, ap, ◌∙◌, Bool, true, false, none, some, List,
  [], ◌∷◌, ok, arith, length, get_elem?, Bool-cases, inl, inr,
}
use mathlib.Core.Path.{subst}
use react_fs.Block.{
  is_available, RecordState, r_free, r_readable, r_deleted, r_dirty, r_all, same_state, DataRecord,
  Header, Block, u32,
}
use react_fs.Block.Layout.{walk-Laid}
use react_fs.Block.Scan
use react_fs.Block.Scan.{
  records_from, records_from-cons, length-records_from, unreadable, check_block_sanity-unreadable,
}
use react_fs.BlockIndex.{Index, is_readable, read_index}
use react_fs.BlockIndex.Commit.{visible, read_index-visible}
use react_fs.IndexedBlock.{read_record_at, read_loop, read, count_records, check_block_sanity}
use react_fs.IndexedBlock.Synced.{state_of, entry_of, get_elem?-entries_of, IsSynced}

is_readable-state_of : (st : RecordState) → is_readable (state_of st) ≡ same_state st r_readable
is_readable-state_of r_free = refl
is_readable-state_of r_readable = refl
is_readable-state_of r_deleted = refl
is_readable-state_of r_dirty = refl
is_readable-state_of r_all = refl

-- The bytes of at most `count` readable records.
abbrev pub readable_bytes : List DataRecord → ℕ → List (List ℕ)
readable_bytes [] count = []
readable_bytes (r ∷ rs) zero = []
readable_bytes (r ∷ rs) (suc count) = elim (same_state r.state r_readable) [
  | true ↦ r.bytes ∷ readable_bytes rs count
  | false ↦ readable_bytes rs (suc count)
]

plain_bytes :
    (h : Header) (r : DataRecord)
    → h.compressed ≡ false
    → h.encrypted ≡ false
    → Scan.process_record_data h none false r ≡ ok (r.bytes ∷ [])
unfolding Scan.process_record_data
plain_bytes h r c y = ground (arith, c, y)

-- The calls at one index of a committed record.
module _ {L : Type 0} {b : Block L} {x : Index} {recs : List DataRecord} (s : IsSynced b x recs)
    (a : is_available b.state ≡ true) (i : is_available x.state ≡ true) (k : ℕ) (r : DataRecord)
    (g : get_elem? recs k ≡ some r) where
  index_there :
      (all : Bool) → read_index x (b.header.start_index + k) all ≡ ok (visible all (entry_of r))
  index_there all =
      subst (λ j. read_index x (j + k) all ≡ ok (visible all (entry_of r))) s.start
        (read_index-visible k (entry_of r) all s.index i (get_elem?-entries_of recs k r g))

  record_there : k < length recs → read_record_at b r.index r.offset r.data_size ≡ ok r
  unfolding read_record_at
  record_there short =
      let w =
        walk-Laid b.area b.header.start_index 0 recs b.header.write_offset k r s.block.laid g in
      let there : b.area r.offset ≡ some r = ap b.area w.4 ∙ w.2 in
      ground (arith, a, w.3, s.block.last, there, short)

module _ {L : Type 0} {b : Block L} {x : Index} {recs : List DataRecord} (s : IsSynced b x recs)
    (a : is_available b.state ≡ true) (i : is_available x.state ≡ true) where
  read_loop-readable_bytes :
      (rest : List DataRecord) (k left : ℕ)
      → records_from recs k ≡ rest
      → b.header.compressed ≡ false
      → b.header.encrypted ≡ false
      → read_loop b x none r_readable (length rest) (b.header.start_index + k) left
        ≡ ok (readable_bytes rest left)
  unfolding read_loop
  read_loop-readable_bytes [] k left e c y = refl
  read_loop-readable_bytes (r ∷ rest) k zero e c y = refl
  read_loop-readable_bytes (r ∷ rest) k (suc left) e c y =
      let here = records_from-cons recs k r rest e in
      let next : suc (b.header.start_index + k) ≡ b.header.start_index + suc k = omega arith in
      let n = length-records_from recs k in
      let short : k < length recs = omega (arith, n, ap (λ q. length q) e) in
      let there = record_there s a i k r here.0 short in
      let entry = index_there s a i k r here.0 false in
      let st = is_readable-state_of r.state in
      elim (Bool-cases (same_state r.state r_readable)) [
        | inl live ↦ ground (
          arith,
          entry,
          st,
          live,
          there,
          plain_bytes b.header r c y,
          next,
          read_loop-readable_bytes rest (suc k) left here.1 c y,
        )
        | inr dead ↦ ground (
          arith,
          entry,
          st,
          dead,
          next,
          read_loop-readable_bytes rest (suc k) (suc left) here.1 c y,
        )
      ]

  -- `read` for readable records through the index, on a block that is neither compressed nor encrypted, returns
  -- the bytes of the readable records among the committed ones from the index on, in their order, and no
  -- more of them than asked for.
  pub read-readable_bytes :
      (k count : ℕ)
      → b.header.compressed ≡ false
      → b.header.encrypted ≡ false
      → read (record { block = b; index = some x }) none (b.header.start_index + k) count r_readable
        ≡ ok (readable_bytes (records_from recs k) count)
  unfolding read
  read-readable_bytes k count c y =
      let n : b.header.last_index - (b.header.start_index + k) ≡ length (records_from recs k) =
        omega (arith, s.block.last, length-records_from recs k) in
      rw (a, n) (read_loop-readable_bytes (records_from recs k) k count refl c y)

  count_records-unreadable :
      (rest : List DataRecord) (k total deleted : ℕ)
      → records_from recs k ≡ rest
      → b.header.start_index + k + length rest < 2 ^ 32
      → total + length rest < 2 ^ 32
      → deleted + length rest < 2 ^ 32
      → count_records b x (length rest) (b.header.start_index + k) total deleted
        ≡ ok (total + length rest, deleted + unreadable rest)
  unfolding count_records
  count_records-unreadable [] k total deleted e p q t = ground arith
  count_records-unreadable (r ∷ rest) k total deleted e p q t =
      let here = records_from-cons recs k r rest e in
      let next : u32 (b.header.start_index + k + 1) ≡ b.header.start_index + suc k = omega arith in
      let more : u32 (total + 1) ≡ suc total = omega arith in
      let short : k < length recs =
        omega (arith, length-records_from recs k, ap (λ q. length q) e) in
      let there = record_there s a i k r here.0 short in
      let entry = index_there s a i k r here.0 true in
      let st = is_readable-state_of r.state in
      elim (Bool-cases (same_state r.state r_readable)) [
        | inl live ↦ ground (
          arith,
          entry,
          st,
          live,
          there,
          next,
          more,
          count_records-unreadable rest (suc k) (suc total) deleted here.1 (omega arith)
              (omega arith) (omega arith),
        )
        | inr dead ↦
            (let d : u32 (deleted + 1) ≡ suc deleted = omega arith in
              ground (
                arith,
                entry,
                st,
                dead,
                next,
                more,
                d,
                count_records-unreadable rest (suc k) (suc total) (suc deleted) here.1 (omega arith)
                    (omega arith) (omega arith),
              ))
      ]

  -- On a block in step with its index, whose indexes have 32 bits, the sanity check through the index ends as the
  -- sanity check of the block itself does.
  pub check_block_sanity-eq :
      b.header.last_index < 2 ^ 32
      → check_block_sanity (record { block = b; index = some x }) ≡ Scan.check_block_sanity b
  unfolding check_block_sanity
  check_block_sanity-eq low =
      let first : u32 b.header.start_index ≡ b.header.start_index =
        omega (arith, s.block.last, low) in
      let n : b.header.last_index - b.header.start_index ≡ length recs =
        omega (arith, s.block.last) in
      let at : b.header.start_index + 0 ≡ b.header.start_index = omega arith in
      let counts =
        count_records-unreadable recs 0 0 0 refl (omega (arith, s.block.last, low))
          (omega (arith, s.block.last, low)) (omega (arith, s.block.last, low)) in
      let counts' : count_records b x (length recs) b.header.start_index 0 0
          ≡ ok (0 + length recs, 0 + unreadable recs) =
        ap (λ i. count_records b x (length recs) i 0 0) (sym at) ∙ counts in
      rw (a, first, n, counts') (ground (arith, s.block.counted))
      ∙ sym (check_block_sanity-unreadable s.block a low)
