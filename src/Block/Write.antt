-- ===== src/Block/Write.antt =====
-- core/src/base_block.cpp: what a transaction writes, and what a rollback leaves.
use react_fs.Prelude.{
  ℕ, ◌+◌, ◌*◌, ◌^◌, ◌≤◌, ◌<◌, ◌≡◌, refl, true, false, some, List, [], ◌∷◌, ◌++◌, Returns, ok, arith,
  length, length-append,
}
use react_fs.Prelude.Texts.{Text, is_empty, same_text}
use react_fs.WriteLock.{Caller}
use react_fs.Block.Interface.{LockApi}
use react_fs.Block.{
  is_available, is_writable_state, DataRecord, header_bytes, Rollback, Area, Block, u64, capacity,
  write_at,
}
use react_fs.Block.Transaction.{
  lock_answers, in_transaction, require_transaction, get_free_space, has_space,
}
use react_fs.Block.Records.{new_record, put_record, write_record}
use react_fs.Block.Layout.{
  Laid, data_bytes, Laid-extent, Laid-write_at, Laid-append, data_bytes-append,
}

-- A block with its committed records: the header counts them, their data and their bytes, which lie
-- behind one another in the file.
pub record IsValid {L : Type 0} (b : Block L) (recs : List DataRecord) : Type 0 where
  pub laid : Laid b.area b.header.start_index 0 recs b.header.write_offset
  pub last : b.header.last_index ≡ b.header.start_index + length recs
  pub used : b.header.used_bytes ≡ data_bytes recs
  pub counted : b.header.total_records ≡ length recs
  pub fits : b.header.write_offset ≤ capacity b.header.block_size
  pub small : b.header.block_size < 2 ^ 31
  pub indexed : b.header.start_index < 2 ^ 63

-- The transaction's own figures: its records lie behind the committed ones.
pub record IsPending {L : Type 0} (b : Block L) (info : Rollback) (pending : List DataRecord)
    : Type 0 where
  pub kept : b.rollback ≡ some info
  pub started : info.in_transaction ≡ true
  pub laid : Laid b.area b.header.last_index b.header.write_offset pending info.write_offset
  pub last : info.last_index ≡ b.header.last_index + length pending
  pub used : info.used_bytes ≡ data_bytes pending
  pub fits : info.write_offset ≤ capacity b.header.block_size

-- The transaction's own thread, with the lock held, asks a usable block with the transaction's id.
pub record IsWriter (api : LockApi) (b : Block api.Lock) (c : Caller) (txid : Text)
    (info : Rollback) (l : api.Lock) : Type 0 where
  pub available : is_available b.state ≡ true
  pub kept : b.rollback ≡ some info
  pub started : info.in_transaction ≡ true
  pub given : is_empty txid ≡ false
  pub same : same_text info.transaction_id txid ≡ true
  pub held : api.has_write_lock b.lock c ≡ ok (true, l)

pub put_record-IsPending :
    {L : Type 0} {b : Block L} (c : Caller) {recs pending : List DataRecord} {info : Rollback}
    (source : List ℕ) (u : ℕ)
    → IsValid b recs
    → IsPending b info pending
    → info.write_offset + (48 + length source) ≤ capacity b.header.block_size
    → Returns (put_record b c source u) λ (r, b').
      (r ≡ new_record info source u c.now)
      × IsValid b' recs
      × (b'.header.start_index ≡ b.header.start_index)
      × ((info' : Rollback) × (info'.transaction_id ≡ info.transaction_id)
          × IsPending b' info' (pending ++ (r ∷ [])))
unfolding put_record write_at
put_record-IsPending {L} {b} c {recs} {pending} {info} source u v p f = (
  (
    r,
    record b {
      area = area';
      header = record b.header { update_time = c.now };
      rollback = some info';
    },
  ),
  ground (arith, p.kept, f),
  (
    refl,
    record {
      laid =
          Laid-write_at b.area b.header.start_index 0 recs b.header.write_offset info.write_offset r
            (omega (arith, behind)) v.laid;
      last = v.last;
      used = v.used;
      counted = v.counted;
      fits = v.fits;
      small = v.small;
      indexed = v.indexed;
    },
    refl,
    (
      info',
      refl,
      record {
        kept = refl;
        started = p.started;
        laid =
            Laid-append area' b.header.last_index b.header.write_offset pending (r ∷ [])
              info.last_index info.write_offset info'.write_offset p.last
              (Laid-write_at b.area b.header.last_index b.header.write_offset pending
                info.write_offset info.write_offset r (omega arith) p.laid)
              (ground arith, refl, refl, omega (arith, f));
        last =
            omega
              (arith, v.last, p.last, v.fits, f, behind, before, length-append pending (r ∷ []));
        used = omega (arith, p.used, f, behind, data_bytes-append pending (r ∷ []));
        fits = omega (arith, f);
      },
    ),
  ),
)
  where
    r : DataRecord
    r = new_record info source u c.now

    area' : Area
    area' = write_at b.area info.write_offset r

    info' : Rollback
    info' = record info {
      last_index = u64 (info.last_index + 1);
      used_bytes = u64 (info.used_bytes + length source);
      write_offset = u64 (info.write_offset + (header_bytes + length source));
    }

    behind : info.write_offset ≡ b.header.write_offset + (48 * length pending + data_bytes pending)
    behind =
        Laid-extent b.area b.header.last_index b.header.write_offset pending info.write_offset
          p.laid

    before : b.header.write_offset ≡ 0 + (48 * length recs + data_bytes recs)
    before = Laid-extent b.area b.header.start_index 0 recs b.header.write_offset v.laid

module _ (api : LockApi) where
  open api use {Lock, has_write_lock, release_lock, held_again}

  -- The call of a transaction's own thread finds it.
  pub in_transaction-writer :
      {b : Block Lock} {c : Caller} {info : Rollback} {l : Lock}
      → b.rollback ≡ some info
      → info.in_transaction ≡ true
      → has_write_lock b.lock c ≡ ok (true, l)
      → in_transaction api b c ≡ ok (true, record b { lock = l })
  unfolding in_transaction lock_answers
  in_transaction-writer {b} {c} {info} {l} k s h = rw (k, s, h) refl

  pub require_transaction-writer :
      {b : Block Lock} {c : Caller} {info : Rollback} {l : Lock}
      → b.rollback ≡ some info
      → info.in_transaction ≡ true
      → has_write_lock b.lock c ≡ ok (true, l)
      → require_transaction api b c ≡ ok (record b { lock = l })
  unfolding require_transaction
  require_transaction-writer {b} {c} k s h = rw (in_transaction-writer {b = b} {c = c} k s h) refl

  -- The figures under which a record of `size` bytes has space in the block and in its file.
  pub record HasRoom (b : Block Lock) (info : Rollback) (size : ℕ) : Type 0 where
    pub block : b.header.used_bytes + info.used_bytes + 48 + size ≤ b.header.block_size
    pub small : b.header.block_size < 2 ^ 31
    pub file : info.write_offset + (48 + size) ≤ capacity b.header.block_size

  has_space-room :
      {b : Block Lock} {c : Caller} {info : Rollback} {l : Lock} (txid : Text) (size : ℕ)
      → IsWriter api b c txid info l
      → HasRoom b info size
      → has_space api b c size ≡ ok (true, record b { lock = l })
  unfolding has_space get_free_space
  has_space-room {b} {c} {info} {l} txid size w h =
      rw (w.available, in_transaction-writer {b = b} {c = c} w.kept w.started w.held, w.kept)
        (ground (arith, h.block, h.small))

  -- A write that has room puts its record into the file.
  pub write_record-put_record :
      {b : Block Lock} {c : Caller} {info : Rollback} {l : Lock} (txid : Text) (source : List ℕ)
      (u : ℕ)
      → IsWriter api b c txid info l
      → b.for_update ≡ true
      → is_writable_state b.header.write_state ≡ true
      → HasRoom b info (length source)
      → write_record api b c source txid u ≡ put_record (record b { lock = l }) c source u
  unfolding write_record
  write_record-put_record {b} {c} {info} {l} txid source u w opened writing h =
      let again = held_again b.lock l c w.held in
      ground (
        arith,
        w.available,
        opened,
        writing,
        w.given,
        w.kept,
        w.same,
        h.block,
        h.small,
        in_transaction-writer {b = b} {c = c} w.kept w.started w.held,
        in_transaction-writer {b = record b { lock = l }} {c = c} w.kept w.started again,
        require_transaction-writer {b = record b { lock = l }} {c = c} w.kept w.started again,
      )
