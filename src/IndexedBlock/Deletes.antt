-- ===== src/IndexedBlock/Deletes.antt =====
-- core/src/base_indexed_block.cpp: the loop of `commit` over the deleted indexes, and what it does to the entries.
use react_fs.Prelude.{
  ℕ, zero, suc, ◌+◌, ◌-◌, ◌≤◌, ◌<◌, ◌≡◌, refl, sym, ap, ◌∙◌, true, some, List, [], ◌∷◌, ◌++◌, ok,
  arith, length, get_elem?, get_elem?-in,
}
use react_fs.Block.{is_available, r_deleted, DataRecord, Area, Block, u32, mark_at}
use react_fs.Block.Deletes
use react_fs.Block.Deletes.{
  AreCommitted, mark-Laid, length-delete_nth, length-delete_all, data_bytes-delete_all,
}
use react_fs.Block.Layout
use react_fs.Block.Layout.{Laid}
use react_fs.BlockIndex
use react_fs.BlockIndex.{Index, Entry, e_deleted, e_readable, read_index}
use react_fs.BlockIndex.Entries
use react_fs.BlockIndex.Commit
use react_fs.BlockIndex.Commit.{read_index-visible, commit-all_readable, AreStored}
use react_fs.IndexedBlock.{read_record_at, commit_deletes}
use react_fs.IndexedBlock.Synced.{entry_of, entries_of, get_elem?-entries_of}

-- What the index keeps of a record, apart from the record's state.
record Place : Type 0 where
  index : ℕ
  offset : ℕ
  data_size : ℕ

abbrev place : DataRecord → Place
place r = record { index = r.index; offset = r.offset; data_size = r.data_size }

abbrev placed : List DataRecord → List Place
placed [] = []
placed (r ∷ rs) = place r ∷ placed rs

placed-delete_nth : (rs : List DataRecord) (k : ℕ) → placed (Deletes.delete_nth rs k) ≡ placed rs
placed-delete_nth [] k = refl
placed-delete_nth (r ∷ rs) zero = refl
placed-delete_nth (r ∷ rs) (suc k) = ap (λ ps. place r ∷ ps) (placed-delete_nth rs k)

get_elem?-placed :
    (rs : List DataRecord) (k : ℕ) (r : DataRecord)
    → get_elem? rs k ≡ some r
    → get_elem? (placed rs) k ≡ some (place r)
get_elem?-placed [] k r g = absurd (ground (arith, g))
get_elem?-placed (q ∷ rs) zero r g = ground (arith, g)
get_elem?-placed (q ∷ rs) (suc k) r g = get_elem?-placed rs k r g

same_place :
    (rs qs : List DataRecord) (k : ℕ) (r q : DataRecord)
    → placed rs ≡ placed qs
    → get_elem? rs k ≡ some r
    → get_elem? qs k ≡ some q
    → (q.index ≡ r.index) × (q.offset ≡ r.offset) × (q.data_size ≡ r.data_size)
same_place rs qs k r q e g h =
    let z : some (place q) ≡ some (place r) =
      sym (get_elem?-placed qs k q h)
      ∙ ap (λ ps. get_elem? ps k) (sym e)
      ∙ get_elem?-placed rs k r g in
    let w : place q ≡ place r = cc in
    (ap (λ x. x.index) w, ap (λ x. x.offset) w, ap (λ x. x.data_size) w)

-- A step of the loop over the deleted indexes.
commit_deletes-step :
    {L : Type 0} (b : Block L) (x : Index) (d : ℕ) (ds : List ℕ) (q r : DataRecord)
    → read_index x d true ≡ ok (some (entry_of q))
    → read_record_at b q.index q.offset q.data_size ≡ ok r
    → commit_deletes b x (d ∷ ds)
      ≡ commit_deletes
          (record b {
            area = mark_at b.area q.offset r_deleted;
            header = record b.header { deleted_records = u32 (b.header.deleted_records + 1) };
          })
          x
          ds
unfolding commit_deletes
commit_deletes-step b x d ds q r h g = rw h (rw g refl)

-- The loop finds the records through the index, which it does not change.
pub commit_deletes-Laid :
    {L : Type 0} (b : Block L) (x : Index) (recs rs : List DataRecord) (ds : List ℕ)
    → is_available b.state ≡ true
    → is_available x.state ≡ true
    → Entries.IsValid x (entries_of recs)
    → x.header.start_index ≡ b.header.start_index
    → placed rs ≡ placed recs
    → length rs ≡ length recs
    → Laid b.area b.header.start_index 0 rs b.header.write_offset
    → b.header.last_index ≡ b.header.start_index + length rs
    → AreCommitted b.header.start_index b.header.last_index ds
    → (area : Area) × (n : ℕ) × (commit_deletes b x ds
        ≡ ok (record b { area = area; header = record b.header { deleted_records = n } }))
      × Laid area b.header.start_index 0
          (Deletes.delete_all rs b.header.start_index ds)
          b.header.write_offset
      × ((j : ℕ) → b.header.write_offset ≤ j → area j ≡ b.area j)
unfolding commit_deletes read_record_at mark_at
commit_deletes-Laid b x recs rs [] a i v s p len l e c =
    (b.area, b.header.deleted_records, refl, l, λ j h. refl)
commit_deletes-Laid b x recs rs (d ∷ ds) a i v s p len l e c =
    let k = d - b.header.start_index in
    let m =
      mark-Laid b.area b.header.start_index 0 rs b.header.write_offset k l (omega (arith, e)) in
    let q = get_elem?-in recs k (omega (arith, e, len)) in
    let same = same_place rs recs k m.1 q.0 p m.8 q.1 in
    let at : x.header.start_index + k ≡ d = omega (arith, s, c.0.0) in
    let entry : read_index x d true ≡ ok (some (entry_of q.0)) =
      ap (λ j. read_index x j true) (sym at)
      ∙ read_index-visible k (entry_of q.0) true v i (get_elem?-entries_of recs k q.0 q.1) in
    let there : b.area q.0.offset ≡ some m.1 = ap b.area (same.1 ∙ m.9) ∙ m.3 in
    let read : read_record_at b q.0.index q.0.offset q.0.data_size ≡ ok m.1 =
      ground (arith, a, there, same.0, same.1, same.2, m.4, c.0.0, c.0.1) in
    let b' = record b {
      area = mark_at b.area m.0 r_deleted;
      header = record b.header { deleted_records = u32 (b.header.deleted_records + 1) };
    } in
    let n =
      commit_deletes-Laid b' x recs (Deletes.delete_nth rs k) ds a i v s
        (placed-delete_nth rs k ∙ p) (length-delete_nth rs k ∙ len) m.7
        (omega (arith, e, length-delete_nth rs k)) c.1 in
    let step =
      commit_deletes-step b x d ds q.0 m.1 entry read
      ∙ ap (λ o. commit_deletes (record b' { area = mark_at b.area o r_deleted }) x ds)
          (same.1 ∙ m.9) in
    (n.0, n.1, step ∙ n.2, n.3, λ j h. n.4 j h ∙ ground (arith, m.6))

-- What the index makes of its entries is what the block makes of its records.
pub entries_of-all_readable :
    (rs : List DataRecord)
    → entries_of (Layout.all_readable rs) ≡ BlockIndex.Commit.all_readable (entries_of rs)
entries_of-all_readable [] = refl
entries_of-all_readable (r ∷ rs) =
    ap (λ es. entry_of (Layout.readable r) ∷ es) (entries_of-all_readable rs)

entries_of-delete_nth :
    (rs qs : List DataRecord) (k : ℕ)
    → k < length rs
    → BlockIndex.Commit.delete_nth (entries_of (rs ++ qs)) k
      ≡ entries_of (Deletes.delete_nth rs k ++ qs)
entries_of-delete_nth [] qs k h = absurd (omega arith)
entries_of-delete_nth (r ∷ rs) qs zero h = refl
entries_of-delete_nth (r ∷ rs) qs (suc k) h =
    ap (λ es. entry_of r ∷ es) (entries_of-delete_nth rs qs k (omega arith))

pub entries_of-delete_all :
    (rs qs : List DataRecord) (start last : ℕ) (ds : List ℕ)
    → last ≡ start + length rs
    → AreCommitted start last ds
    → BlockIndex.Commit.delete_all (entries_of (rs ++ qs)) start ds
      ≡ entries_of (Deletes.delete_all rs start ds ++ qs)
entries_of-delete_all rs qs start last [] e c = refl
entries_of-delete_all rs qs start last (d ∷ ds) e c =
    ap (λ es. BlockIndex.Commit.delete_all es start ds)
      (entries_of-delete_nth rs qs (d - start) (omega (arith, e, c.0.0, c.0.1)))
    ∙ entries_of-delete_all (Deletes.delete_nth rs (d - start)) qs start last ds
        (omega (arith, e, length-delete_nth rs (d - start))) c.1
