-- ===== src/IndexedBlock/Synced.antt =====
-- core/src/base_indexed_block.cpp: a block whose index has an entry for each of its records, and the call
-- that writes to both.
use react_fs.Prelude.{
  ℕ, zero, suc, ◌+◌, ◌<◌, ◌≡◌, refl, sym, ap, ◌∙◌, true, false, some, List, [], ◌∷◌, ◌++◌, Returns,
  ok, arith, length, get_elem?,
}
use mathlib.Core.Path.{subst}
use react_fs.Prelude.Texts.{Text, is_empty, same_text}
use react_fs.WriteLock.{Caller}
use react_fs.Block.{
  is_available, is_writable_state, RecordState, r_free, r_readable, r_deleted, r_dirty, r_all,
  DataRecord, Rollback, Block,
}
use react_fs.Block.Interface.{LockApi}
use react_fs.Block.Records.{new_record, write_record}
use react_fs.Block.Write
use react_fs.Block.Write.{HasRoom}
use react_fs.Block.Pending.{write_record-IsPending}
use react_fs.BlockIndex.{
  Index, Entry, EntryState, e_free, e_used, e_readable, e_deleted, write_index,
}
use react_fs.BlockIndex.Entries
use react_fs.BlockIndex.Entries.{new_entry, write_index-IsPending}
use react_fs.IndexedBlock.{write}

-- The entry for a record.
abbrev pub state_of : RecordState → EntryState
state_of r_free = e_free
state_of r_readable = e_readable
state_of r_deleted = e_deleted
state_of r_dirty = e_used
state_of r_all = e_free

abbrev pub entry_of : DataRecord → Entry
entry_of r = record {
  index = r.index;
  state = state_of r.state;
  offset = r.offset;
  size = r.data_size;
}

abbrev pub entries_of : List DataRecord → List Entry
entries_of [] = []
entries_of (r ∷ rs) = entry_of r ∷ entries_of rs

pub length-entries_of : (rs : List DataRecord) → length (entries_of rs) ≡ length rs
length-entries_of [] = refl
length-entries_of (r ∷ rs) = ap suc (length-entries_of rs)

pub entries_of-append :
    (rs qs : List DataRecord) → entries_of (rs ++ qs) ≡ entries_of rs ++ entries_of qs
entries_of-append [] qs = refl
entries_of-append (r ∷ rs) qs = ap (λ es. entry_of r ∷ es) (entries_of-append rs qs)

pub get_elem?-entries_of :
    (rs : List DataRecord) (k : ℕ) (r : DataRecord)
    → get_elem? rs k ≡ some r
    → get_elem? (entries_of rs) k ≡ some (entry_of r)
get_elem?-entries_of [] k r g = absurd (ground (arith, g))
get_elem?-entries_of (q ∷ rs) zero r g = ground (arith, g)
get_elem?-entries_of (q ∷ rs) (suc k) r g = get_elem?-entries_of rs k r g

-- The block and its index are valid, and the entries of the index are those of the block's records.
pub record IsSynced {L : Type 0} (b : Block L) (x : Index) (recs : List DataRecord) : Type 0 where
  pub block : Write.IsValid b recs
  pub index : Entries.IsValid x (entries_of recs)
  pub start : x.header.start_index ≡ b.header.start_index

-- Their transactions have the same records pending, under one id.
pub record IsPending {L : Type 0} (b : Block L) (x : Index) (txid : Text)
    (recs pending : List DataRecord) : Type 0 where
  pub info : Rollback
  pub index_info : Rollback
  pub block : Write.IsPending b info pending
  pub index : Entries.IsPending x index_info (entries_of recs) (entries_of pending)
  pub same : same_text info.transaction_id txid ≡ true
  pub index_same : same_text index_info.transaction_id txid ≡ true

-- The transaction's own thread, with the lock held and both files open for writing.
pub record IsWriter (api : LockApi) (b : Block api.Lock) (x : Index) (c : Caller) (txid : Text)
    (l : api.Lock) : Type 0 where
  pub available : is_available b.state ≡ true
  pub opened : b.for_update ≡ true
  pub writable : is_writable_state b.header.write_state ≡ true
  pub given : is_empty txid ≡ false
  pub held : api.has_write_lock b.lock c ≡ ok (true, l)
  pub index_available : is_available x.state ≡ true
  pub index_writable : is_writable_state x.header.write_state ≡ true
  pub index_writing : x.writing ≡ true

module _ (api : LockApi) where
  open api use {Lock}

  pub block-IsWriter :
      {b : Block Lock} {x : Index} {c : Caller} {l : Lock} {txid : Text}
      {recs pending : List DataRecord}
      → (p : IsPending b x txid recs pending) → IsWriter api b x c txid l
      → Write.IsWriter api b c txid p.info l
  block-IsWriter p w = record {
    available = w.available;
    kept = p.block.kept;
    started = p.block.started;
    given = w.given;
    same = p.same;
    held = w.held;
  }

  pub index-IsWriter :
      {b : Block Lock} {x : Index} {c : Caller} {l : Lock} {txid : Text}
      {recs pending : List DataRecord}
      → (p : IsPending b x txid recs pending) → IsWriter api b x c txid l
      → Entries.IsWriter x p.index_info txid
  index-IsWriter p w = record {
    available = w.index_available;
    writable = w.index_writable;
    writing = w.index_writing;
    given = w.given;
    same = p.index_same;
  }

  -- A write by the transaction's own thread, with room in the block and in its file and with more than
  -- four places left in the index, answers the next index, and the new record with the bytes given and its
  -- entry are the last of the pending ones; the committed records and entries are the same as before.
  pub write-IsSynced :
      {b : Block Lock} {x : Index} (c : Caller) {recs pending : List DataRecord} {l : Lock}
      (txid : Text) (source : List ℕ)
      → IsSynced b x recs
      → (p : IsPending b x txid recs pending) → IsWriter api b x c txid l
      → HasRoom api b p.info (length source)
      → length recs + length pending + 4 < length x.entries
      → Returns (write api (record { block = b; index = some x }) c source txid) λ (i, ib).
        (i ≡ b.header.start_index + (length recs + length pending))
        × ((x' : Index) × (ib.index ≡ some x')
            × IsSynced ib.block x' recs
            × IsPending ib.block x' txid recs (pending ++ (new_record p.info source 0 c.now ∷ [])))
  unfolding write
  write-IsSynced {b} {x} c {recs} {pending} {l} txid source s p w room places =
      let n =
        write_record-IsPending api c txid source 0 s.block p.block (block-IsWriter p w) w.opened
          w.writable room in
      let r = new_record p.info source 0 c.now in
      let i = x.header.start_index + (length (entries_of recs) + length (entries_of pending)) in
      let m =
        write_index-IsPending r.offset r.data_size txid s.index p.index (index-IsWriter p w)
          (omega (arith, length-entries_of recs, length-entries_of pending)) in
      let at : i ≡ p.info.last_index = omega (
        arith,
        length-entries_of recs,
        length-entries_of pending,
        s.start,
        p.block.last,
        s.block.last,
      ) in
      (
        (p.info.last_index, record { block = n.0.1; index = some m.0.1 }),
        written n.0.0 n.2.0 m.0.0 m.0.1 n.1
            (subst (λ j. write_index x j r.offset r.data_size txid ≡ ok m.0) at m.1),
        (
          omega (arith, p.block.last, s.block.last),
          (
            m.0.1,
            refl,
            record { block = n.2.1; index = m.2.1; start = m.2.2 ∙ s.start ∙ sym n.2.2 },
            record {
              info = n.2.3.0;
              index_info = m.2.3.0;
              block =
                  subst (λ q. Write.IsPending n.0.1 n.2.3.0 (pending ++ (q ∷ []))) n.2.0 n.2.3.2;
              index =
                  subst (λ es. Entries.IsPending m.0.1 m.2.3.0 (entries_of recs) es)
                    (ap (λ e. entries_of pending ++ (e ∷ []))
                        (m.2.0 ∙ ap (λ j. new_entry j r.offset r.data_size) at)
                      ∙ sym (entries_of-append pending (r ∷ [])))
                    m.2.3.2;
              same = ap (λ t. same_text t txid) n.2.3.1 ∙ p.same;
              index_same = ap (λ t. same_text t txid) m.2.3.1 ∙ p.index_same;
            },
          ),
        ),
      )
    where
      written :
          {b' : Block Lock} (q : DataRecord)
          → q ≡ new_record p.info source 0 c.now
          → (e : Entry) (x' : Index) → write_record api b c source txid 0 ≡ ok (q, b')
          → write_index x p.info.last_index p.info.write_offset (length source) txid ≡ ok (e, x')
          → write api (record { block = b; index = some x }) c source txid
            ≡ ok (p.info.last_index, record { block = b'; index = some x' })
      written {b'} q same e x' h g =
          let h' : write_record api b c source txid 0 ≡ ok (new_record p.info source 0 c.now, b') =
            h ∙ ap (λ z. ok (z, b')) same in
          rw (w.available, h') (rw g refl)
