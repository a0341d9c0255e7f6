-- ===== src/Block/Scan.antt =====
-- core/src/base_block.cpp: the calls that pass over the records of a block.
use react_fs.Prelude.{
  ℕ, zero, suc, ◌+◌, ◌-◌, ◌^◌, ◌<◌, ◌≡◌, refl, sym, ◌∙◌, Bool-cases, inl, inr, ap, Bool, true,
  false, not, ◌||◌, Option, none, some, List, [], ◌∷◌, ◌++◌, Result, ok, err, precondition,
  postcondition, unavailable, null_pointer, sanity_failed, ◌>>=◌, ◌>>◌, guard, or_fail, ◌==◌,
  if◌then◌else◌, length, get_elem?, arith,
}
use react_fs.Block.{
  is_available, RecordState, r_free, r_readable, r_deleted, r_dirty, same_state, DataRecord, Header,
  Block, u32,
}
use react_fs.Block.Interface.{Compression}
use react_fs.Block.Records.{read_record}
use react_fs.Block.Write.{IsValid}
use react_fs.Block.Commit.{read_record-get_elem?}

-- The buffers that `process_record_data` adds for a record. There is no handler of encryption: the bytes
-- of a record that is only encrypted are not read, and those of one that is also compressed are looked
-- for in a buffer that nothing fills. The flag is whether `writebuff` is not null, for which the call
-- tests.
unfoldable pub process_record_data :
    Header → Option Compression → Bool → DataRecord → Result (List (List ℕ))
process_record_data h compression writebuff r =
    if h.encrypted || h.compressed
    then guard writebuff null_pointer
      >> (if h.compressed
          then (do
            handler ← or_fail compression null_pointer
            guard (not h.encrypted) null_pointer
            bytes ← or_fail (handler.read_archive_data r.bytes r.uncompressed_size) postcondition
            ok (bytes ∷ []))
          else ok [])
    else ok (r.bytes ∷ [])

-- The records that a call for one of two states passes over.
abbrev pub is_skipped : RecordState → DataRecord → Bool
is_skipped r_deleted r = not (same_state r.state r_deleted)
is_skipped r_dirty r = not (same_state r.state r_dirty)
is_skipped _ r = false

abbrev pub is_free_record : RecordState → Bool
is_free_record r_free = true
is_free_record _ = false

-- The loop of `read` over the `n` records from `current`, with `left` still to fetch.
unfoldable pub read_loop :
    {L : Type 0} → Block L → Option Compression → RecordState → ℕ → ℕ → ℕ → Result (List (List ℕ))
unfolding read_record process_record_data
read_loop b compression r_state zero current left = ok []
read_loop b compression r_state (suc n) current zero = ok []
read_loop b compression r_state (suc n) current (suc left) = do
  r ← read_record b current
  elim (is_skipped r_state r.1) [
    | true ↦ read_loop b compression r_state n (suc current) (suc left)
    | false ↦ (do
      bytes ← process_record_data b.header compression true r.1
      rest ← read_loop b compression r_state n (suc current) left
      ok (bytes ++ rest))
  ]

unfoldable pub read :
    {L : Type 0} → Block L → Option Compression → ℕ → ℕ → RecordState → Result (List (List ℕ))
unfolding read_loop
read b compression index count r_state = do
  guard (is_available b.state) unavailable
  guard (not (is_free_record r_state)) precondition
  read_loop b compression r_state (b.header.last_index - index) index count

-- The loop of `check_block_sanity` over `n` records from `ii`, which has 32 bits, as have the counts.
unfoldable pub count_records : {L : Type 0} → Block L → ℕ → ℕ → ℕ → ℕ → Result (ℕ × ℕ)
unfolding read_record
count_records b zero ii total deleted = ok (total, deleted)
count_records b (suc n) ii total deleted = do
  r ← read_record b ii
  count_records b n (u32 (ii + 1)) (u32 (total + 1))
      (if same_state r.1.state r_readable then deleted else u32 (deleted + 1))

-- The record that is returned holds figures of the header; here it is the header. For a first index of
-- 32 bits and a last one above them, the loop of the source does not end; here it ends after as many
-- rounds as there are indexes.
unfoldable pub check_block_sanity : {L : Type 0} → Block L → Result Header
unfolding count_records
check_block_sanity b = do
  guard (is_available b.state) unavailable
  let first = u32 b.header.start_index
  r ← count_records b (b.header.last_index - first) first 0 0
  guard (r.0 == b.header.total_records) sanity_failed
  guard (r.1 == b.header.deleted_records) sanity_failed
  ok b.header

-- The bytes of at most `count` records.
abbrev pub first_bytes : List DataRecord → ℕ → List (List ℕ)
first_bytes [] count = []
first_bytes (r ∷ rs) zero = []
first_bytes (r ∷ rs) (suc count) = r.bytes ∷ first_bytes rs count

-- The records from the k-th on.
abbrev pub records_from : List DataRecord → ℕ → List DataRecord
records_from rs zero = rs
records_from [] (suc k) = []
records_from (r ∷ rs) (suc k) = records_from rs k

-- The records of any other state than readable.
abbrev pub unreadable : List DataRecord → ℕ
unreadable [] = 0
unreadable (r ∷ rs) = (if same_state r.state r_readable then 0 else 1) + unreadable rs

pub records_from-cons :
    (rs : List DataRecord) (k : ℕ) (r : DataRecord) (rest : List DataRecord)
    → records_from rs k ≡ r ∷ rest
    → (get_elem? rs k ≡ some r) × (records_from rs (suc k) ≡ rest)
records_from-cons [] zero r rest e = absurd cc
records_from-cons [] (suc k) r rest e = absurd cc
records_from-cons (q ∷ rs) zero r rest e = (cc, cc)
records_from-cons (q ∷ rs) (suc k) r rest e = records_from-cons rs k r rest e

module _ {L : Type 0} {b : Block L} {recs : List DataRecord} (v : IsValid b recs)
    (a : is_available b.state ≡ true) where
  read_loop-first_bytes :
      (rest : List DataRecord) (k left : ℕ)
      → records_from recs k ≡ rest
      → b.header.compressed ≡ false
      → b.header.encrypted ≡ false
      → read_loop b none r_readable (length rest) (b.header.start_index + k) left
        ≡ ok (first_bytes rest left)
  unfolding read_loop
  read_loop-first_bytes [] k left e c y = refl
  read_loop-first_bytes (r ∷ rest) k zero e c y = refl
  read_loop-first_bytes (r ∷ rest) k (suc left) e c y =
      let here = records_from-cons recs k r rest e in
      let next : suc (b.header.start_index + k) ≡ b.header.start_index + suc k = omega arith in
      rw
        (
          read_record-get_elem? b k r v a here.0,
          c,
          y,
          next,
          read_loop-first_bytes rest (suc k) left here.1 c y,
        )
        refl

  count_records-unreadable :
      (rest : List DataRecord) (k total deleted : ℕ)
      → records_from recs k ≡ rest
      → b.header.start_index + k + length rest < 2 ^ 32
      → total + length rest < 2 ^ 32
      → deleted + length rest < 2 ^ 32
      → count_records b (length rest) (b.header.start_index + k) total deleted
        ≡ ok (total + length rest, deleted + unreadable rest)
  unfolding count_records
  count_records-unreadable [] k total deleted e p q s = ground arith
  count_records-unreadable (r ∷ rest) k total deleted e p q s =
      let here = records_from-cons recs k r rest e in
      let next : u32 (b.header.start_index + k + 1) ≡ b.header.start_index + suc k = omega arith in
      let more : u32 (total + 1) ≡ suc total = omega arith in
      elim (Bool-cases (same_state r.state r_readable)) [
        | inl live ↦
            rw (read_record-get_elem? b k r v a here.0, next, more, live)
              (count_records-unreadable rest (suc k) (suc total) deleted here.1 (omega arith)
                  (omega arith) (omega arith)
                ∙ ground arith)
        | inr dead ↦
            (let d : u32 (deleted + 1) ≡ suc deleted = omega arith in
              rw (read_record-get_elem? b k r v a here.0, next, more, dead, d)
                (count_records-unreadable rest (suc k) (suc total) (suc deleted) here.1
                    (omega arith) (omega arith) (omega arith)
                  ∙ ground arith))
      ]

pub length-records_from :
    (rs : List DataRecord) (k : ℕ) → length (records_from rs k) ≡ length rs - k
length-records_from [] zero = refl
length-records_from [] (suc k) = omega arith
length-records_from (r ∷ rs) zero = omega arith
length-records_from (r ∷ rs) (suc k) = omega (arith, length-records_from rs k)

-- `read` for readable records, on a block that is neither compressed nor encrypted, returns the bytes of
-- the committed records from the index on, in their order, and no more of them than asked for; it
-- does not look at their states, so that the deleted ones are among them.
pub read-first_bytes :
    {L : Type 0} {b : Block L} {recs : List DataRecord} (k count : ℕ)
    → IsValid b recs
    → is_available b.state ≡ true
    → b.header.compressed ≡ false
    → b.header.encrypted ≡ false
    → read b none (b.header.start_index + k) count r_readable
      ≡ ok (first_bytes (records_from recs k) count)
unfolding read
read-first_bytes {L} {b} {recs} k count v a c y =
    let n : b.header.last_index - (b.header.start_index + k) ≡ length (records_from recs k) =
      omega (arith, v.last, length-records_from recs k) in
    rw (a, n) (read_loop-first_bytes v a (records_from recs k) k count refl c y)

-- On a valid block whose indexes have 32 bits, the sanity check answers exactly when the header's count
-- of deleted records is the count of the committed records that are not readable, and it fails
-- otherwise.
pub check_block_sanity-unreadable :
    {L : Type 0} {b : Block L} {recs : List DataRecord}
    → IsValid b recs
    → is_available b.state ≡ true
    → b.header.last_index < 2 ^ 32
    → check_block_sanity b
      ≡ (if unreadable recs == b.header.deleted_records then ok b.header else err sanity_failed)
unfolding check_block_sanity
check_block_sanity-unreadable {L} {b} {recs} v a low =
    let first : u32 b.header.start_index ≡ b.header.start_index = omega (arith, v.last, low) in
    let n : b.header.last_index - b.header.start_index ≡ length recs = omega (arith, v.last) in
    let at : b.header.start_index + 0 ≡ b.header.start_index = omega arith in
    let counts =
      count_records-unreadable v a recs 0 0 0 refl (omega (arith, v.last, low))
        (omega (arith, v.last, low)) (omega (arith, v.last, low)) in
    let counts' : count_records b (length recs) b.header.start_index 0 0
        ≡ ok (0 + length recs, 0 + unreadable recs) =
      ap (λ i. count_records b (length recs) i 0 0) (sym at) ∙ counts in
    rw (a, first, n, counts') (ground (arith, v.counted))
