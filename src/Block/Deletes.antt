-- ===== src/Block/Deletes.antt =====
-- core/src/base_block.cpp: the loop of `commit` over the records that the transaction has deleted.
use react_fs.Prelude.{
  ℕ, zero, suc, ◌+◌, ◌-◌, ◌≤◌, ◌<◌, ◌≡◌, refl, ◌∙◌, ap, true, some, List, [], ◌∷◌, ok, arith,
  length, get_elem?, All,
}
use react_fs.Block.{DataRecord, r_deleted, extent, Area, Block, u32, mark_at, is_available}
use react_fs.Block.Records.{walk, read_record, commit_deletes}
use react_fs.Block.Layout.{Laid, data_bytes, Laid-extent, Laid-agree}

-- The k-th record, marked as deleted; and the records of the given indexes, the first index being `start`.
abbrev pub delete_nth : List DataRecord → ℕ → List DataRecord
delete_nth [] k = []
delete_nth (r ∷ rs) zero = record r { state = r_deleted } ∷ rs
delete_nth (r ∷ rs) (suc k) = r ∷ delete_nth rs k

abbrev pub delete_all : List DataRecord → ℕ → List ℕ → List DataRecord
delete_all rs start [] = rs
delete_all rs start (d ∷ ds) = delete_all (delete_nth rs (d - start)) start ds

pub length-delete_nth : (rs : List DataRecord) (k : ℕ) → length (delete_nth rs k) ≡ length rs
length-delete_nth [] k = refl
length-delete_nth (r ∷ rs) zero = refl
length-delete_nth (r ∷ rs) (suc k) = ap suc (length-delete_nth rs k)

data_bytes-delete_nth :
    (rs : List DataRecord) (k : ℕ) → data_bytes (delete_nth rs k) ≡ data_bytes rs
data_bytes-delete_nth [] k = refl
data_bytes-delete_nth (r ∷ rs) zero = refl
data_bytes-delete_nth (r ∷ rs) (suc k) = ap (λ n. r.data_size + n) (data_bytes-delete_nth rs k)

pub length-delete_all :
    (rs : List DataRecord) (start : ℕ) (ds : List ℕ) → length (delete_all rs start ds) ≡ length rs
length-delete_all rs start [] = refl
length-delete_all rs start (d ∷ ds) =
    length-delete_all (delete_nth rs (d - start)) start ds ∙ length-delete_nth rs (d - start)

pub data_bytes-delete_all :
    (rs : List DataRecord) (start : ℕ) (ds : List ℕ)
    → data_bytes (delete_all rs start ds) ≡ data_bytes rs
data_bytes-delete_all rs start [] = refl
data_bytes-delete_all rs start (d ∷ ds) =
    data_bytes-delete_all (delete_nth rs (d - start)) start ds
    ∙ data_bytes-delete_nth rs (d - start)

-- The record of an index is found, and marking it leaves the others and what stands behind them.
pub mark-Laid :
    (area : Area) (i o : ℕ) (rs : List DataRecord) (e k : ℕ)
    → Laid area i o rs e
    → k < length rs
    → (o' : ℕ) × (r : DataRecord) × (walk area k i o ≡ ok o')
      × (area o' ≡ some r)
      × (r.index ≡ i + k)
      × (o ≤ o')
      × (o' < e)
      × Laid (mark_at area o' r_deleted) i o (delete_nth rs k) e
      × (get_elem? rs k ≡ some r)
      × (r.offset ≡ o')
unfolding walk mark_at
mark-Laid area i o [] e k l h = absurd (omega arith)
mark-Laid area i o (q ∷ rs) e zero l h = (
  o,
  q,
  refl,
  l.0,
  omega (arith, l.1),
  omega arith,
  omega (arith, Laid-extent area (suc i) (o + extent q) rs e l.3),
  (
    ground (arith, l.0),
    l.1,
    l.2,
    Laid-agree area (mark_at area o r_deleted) (suc i) (o + extent q) rs e (λ j p s. ground arith)
        l.3,
  ),
  refl,
  l.2,
)
mark-Laid area i o (q ∷ rs) e (suc k) l h =
    let n = mark-Laid area (suc i) (o + extent q) rs e k l.3 (omega arith) in
    (
      n.0,
      n.1,
      ground (arith, l.0, l.1, n.2),
      n.3,
      omega (arith, n.4),
      omega (arith, n.5),
      n.6,
      (ground (arith, l.0, n.5), l.1, l.2, n.7),
      n.8,
      n.9,
    )

-- Indexes of committed records.
abbrev pub AreCommitted : ℕ → ℕ → List ℕ → Type 0
AreCommitted start last ds = All (λ d. (start ≤ d) × (d < last)) ds

-- The loop marks the records of the indexes, counts each of them, and leaves what stands behind the
-- committed records.
pub commit_deletes-Laid :
    {L : Type 0} (b : Block L) (rs : List DataRecord) (ds : List ℕ)
    → is_available b.state ≡ true
    → Laid b.area b.header.start_index 0 rs b.header.write_offset
    → b.header.last_index ≡ b.header.start_index + length rs
    → AreCommitted b.header.start_index b.header.last_index ds
    → (area : Area) × (n : ℕ) × (commit_deletes b ds
        ≡ ok (record b { area = area; header = record b.header { deleted_records = n } }))
      × Laid area b.header.start_index 0
          (delete_all rs b.header.start_index ds)
          b.header.write_offset
      × ((j : ℕ) → b.header.write_offset ≤ j → area j ≡ b.area j)
unfolding commit_deletes read_record mark_at
commit_deletes-Laid b rs [] a l e c = (b.area, b.header.deleted_records, refl, l, λ j h. refl)
commit_deletes-Laid b rs (d ∷ ds) a l e c =
    let k = d - b.header.start_index in
    let m =
      mark-Laid b.area b.header.start_index 0 rs b.header.write_offset k l (omega (arith, e)) in
    let read : read_record b d ≡ ok (m.0, m.1) = ground (arith, a, c.0.0, c.0.1, m.2, m.3, m.4) in
    let b' = record b {
      area = mark_at b.area m.0 r_deleted;
      header = record b.header { deleted_records = u32 (b.header.deleted_records + 1) };
    } in
    let n =
      commit_deletes-Laid b' (delete_nth rs k) ds a m.7 (omega (arith, e, length-delete_nth rs k))
        c.1 in
    (n.0, n.1, rw read n.2, n.3, λ j h. n.4 j h ∙ ground (arith, m.6))
