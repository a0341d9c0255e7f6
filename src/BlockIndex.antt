-- ===== src/BlockIndex.antt =====
-- core/includes/base_block_index.h and core/src/base_block_index.cpp: the index of a block, a mapped file
-- with one entry for each record, and the transaction that writes to it.
pub mod Entries
pub mod Commit
pub mod Space
pub mod Sample
mod Tests
use react_fs.Prelude.{
  ℕ, zero, suc, ◌+◌, ◌-◌, ◌*◌, ◌/◌, ◌%◌, ◌^◌, Bool, true, false, not, ◌&&◌, ◌||◌, Option, none,
  some, List, [], ◌∷◌, ◌++◌, Result, ok, err, precondition, unavailable, null_pointer, wild_access,
  exhausted, index_corrupted, ◌>>=◌, ◌>>◌, guard, or_fail, ltb, leb, ◌==◌, if◌then◌else◌, length,
  get_elem?, set, replicate,
}
use react_fs.Prelude.Texts.{Text, is_empty, same_text}
use react_fs.Block.{
  InstanceState, is_available, WriteState, writable, closed, is_writable_state, Rollback, u64,
}

-- The BLOCK_RECORD_STATE of an entry.
pub data EntryState : Type 0 where
  e_free e_used e_readable e_deleted e_updated : EntryState

abbrev pub is_used : EntryState → Bool
is_used e_used = true
is_used _ = false

abbrev pub is_readable : EntryState → Bool
is_readable e_readable = true
is_readable _ = false

-- `__record_index_ptr`
pub record Entry : Type 0 where
  pub index : ℕ
  pub state : EntryState
  pub offset : ℕ
  pub size : ℕ

-- The bytes of a new file are 0.
abbrev pub zero_entry : Entry
zero_entry = record { index = 0; state = e_free; offset = 0; size = 0 }

-- sizeof(__record_index_ptr) and sizeof(__record_index_header).
abbrev pub entry_bytes : ℕ
entry_bytes = 32

abbrev pub index_header_bytes : ℕ
index_header_bytes = 120

-- `__record_index_header`, less the ids and times that no operation below reads.
pub record IndexHeader : Type 0 where
  pub start_index : ℕ
  pub last_index : ℕ
  pub write_state : WriteState
  pub total_size : ℕ
  pub used_size : ℕ
  pub write_offset : ℕ

-- The instance. `entries` are the mapped bytes behind the header, one entry after the other;
-- `writing` says that `write_ptr` is not null.
pub record Index : Type 0 where
  pub state : InstanceState
  pub header : IndexHeader
  pub entries : List Entry
  pub writing : Bool
  pub rollback : Option Rollback
  pub deletes : List ℕ

-- What `__create_index` leaves in the file. DEFAULT_BLOAT_FACTOR, (15 / 10), is 1.
unfoldable pub create_index : ℕ → ℕ → IndexHeader × List Entry
create_index estimated_records start_index = (
  record {
    start_index = start_index;
    last_index = start_index;
    write_state = writable;
    total_size = estimated_records * entry_bytes * (15 / 10);
    used_size = 0;
    write_offset = 0;
  },
  replicate (estimated_records * (15 / 10)) zero_entry,
)

-- The entry at an offset behind the header: `none` outside the file, and between two entries.
abbrev pub entry_at : List Entry → ℕ → Option Entry
entry_at es offset = if offset % entry_bytes == 0 then get_elem? es (offset / entry_bytes) else none

abbrev pub transaction_open : Option Rollback → Bool
transaction_open none = false
transaction_open (some r) = r.in_transaction

abbrev pub in_transaction : Index → Bool
in_transaction x = transaction_open x.rollback

setup_transaction : Index → Text → ℕ → Index
setup_transaction x txid now = record x {
  rollback = some (record {
    in_transaction = true;
    transaction_id = txid;
    start_offset = x.header.write_offset;
    write_offset = x.header.write_offset;
    used_bytes = 0;
    last_index = x.header.last_index;
    start_time = now;
  });
  deletes = [];
}

unfoldable pub start_transaction : Index → Text → ℕ → Index
unfolding setup_transaction
start_transaction x txid now = setup_transaction x txid now

abbrev pub cleared : Rollback → Rollback
cleared info = record info {
  in_transaction = false;
  last_index = 0;
  start_time = 0;
  transaction_id = [];
  write_offset = 0;
  start_offset = 0;
  used_bytes = 0;
}

unfoldable pub end_transaction : Index → Result Index
end_transaction x = do
  info ← or_fail x.rollback null_pointer
  ok (record x { rollback = some (cleared info); deletes = [] })

-- `rollback`, whose `force_rollback` is `end_transaction`.
unfoldable pub rollback : Index → Text → Result Index
unfolding end_transaction
rollback x txid = do
  guard (in_transaction x) precondition
  info ← or_fail x.rollback null_pointer
  guard (same_text info.transaction_id txid) precondition
  end_transaction x

-- The differences are of 64 bits, and wrap round below 0.
abbrev pub minus : ℕ → ℕ → ℕ
minus a b = (a + 2 ^ 64 - b % 2 ^ 64) % 2 ^ 64

unfoldable pub get_free_space : Index → Result ℕ
get_free_space x = do
  guard (is_available x.state) unavailable
  if in_transaction x
      then (do
        info ← or_fail x.rollback null_pointer
        ok (minus x.header.total_size (x.header.used_size + info.used_bytes + index_header_bytes)))
      else ok (minus x.header.total_size (x.header.used_size + index_header_bytes))

unfoldable pub has_space : Index → ℕ → Result Bool
unfolding get_free_space
has_space x size = do free ← get_free_space x; ok (leb size free)

-- PRECONDITION(!IS_EMPTY(transaction_id) && (*rollback_info->transaction_id == transaction_id))
abbrev pub require_id : Index → Text → Result Rollback
require_id x txid = do
  guard (not (is_empty txid)) precondition
  info ← or_fail x.rollback null_pointer
  guard (same_text info.transaction_id txid) precondition
  ok info

-- Writing an entry at an offset of `write_ptr`.
unfoldable pub put_entry : Index → ℕ → Entry → Result Index
put_entry x offset e = do
  guard x.writing null_pointer
  _ ← or_fail (entry_at x.entries offset) wild_access
  ok (record x { entries = set x.entries (offset / entry_bytes) e })

-- `__write_index`
unfoldable pub write_index : Index → ℕ → ℕ → ℕ → Text → Result (Entry × Index)
unfolding has_space put_entry
write_index x index offset size txid = do
  guard (is_available x.state) unavailable
  guard (is_writable_state x.header.write_state) precondition
  room ← has_space x entry_bytes
  guard room precondition
  guard (in_transaction x) precondition
  info ← require_id x txid
  guard (index == x.header.start_index || index == u64 (info.last_index + 1)) precondition
  let e : Entry = record { index = index; state = e_used; offset = offset; size = size }
  x' ← put_entry x info.write_offset e
  ok (
    e,
    record x' {
      rollback = some (record info {
        last_index = index;
        used_bytes = u64 (info.used_bytes + entry_bytes);
        write_offset = u64 (info.write_offset + entry_bytes);
      });
    },
  )

-- The entry at the place of an index, which must bear the index.
unfoldable pub find_entry : Index → ℕ → Result Entry
find_entry x index = do
  e ←
      or_fail (entry_at x.entries (u64 (minus index x.header.start_index * entry_bytes)))
        wild_access
  guard (e.index == index) index_corrupted
  ok e

-- `__read_index`; `none` is the null pointer.
unfoldable pub read_index : Index → ℕ → Bool → Result (Option Entry)
unfolding find_entry
read_index x index all = do
  guard (is_available x.state) unavailable
  guard (leb x.header.start_index index && leb index x.header.last_index) precondition
  e ← find_entry x index
  ok (if not all && not (is_readable e.state) then none else some e)

unfoldable pub delete_index : Index → ℕ → Text → Result (Bool × Index)
unfolding find_entry
delete_index x index txid = do
  guard (is_available x.state) unavailable
  guard (is_writable_state x.header.write_state) precondition
  guard (in_transaction x) precondition
  _ ← require_id x txid
  _ ← find_entry x index
  ok (true, record x { deletes = x.deletes ++ (index ∷ []) })

-- The first loop of `commit`, from the offset `o` to `e`. A step passes an entry.
unfoldable pub commit_entries : ℕ → List Entry → ℕ → ℕ → Result (List Entry)
commit_entries zero es o e = if ltb o e then err exhausted else ok es
commit_entries (suc fuel) es o e = elim (ltb o e) [
  | false ↦ ok es
  | true ↦ (do
    r ← or_fail (entry_at es o) wild_access
    guard (is_used r.state) index_corrupted
    commit_entries fuel (set es (o / entry_bytes) (record r { state = e_readable }))
        (o + entry_bytes) e)
]

-- The second loop, over `rollback_info_deletes`.
unfoldable pub commit_deletes : Index → List ℕ → Result Index
unfolding read_index
commit_deletes x [] = ok x
commit_deletes x (index ∷ rest) = do
  found ← read_index x index true
  e ← or_fail found index_corrupted
  commit_deletes
      (record x {
        entries = set x.entries (minus index x.header.start_index) (record e { state = e_deleted });
      })
      rest

unfoldable pub commit : Index → Text → Result Index
unfolding commit_entries commit_deletes end_transaction
commit x txid = do
  guard (in_transaction x) precondition
  info ← or_fail x.rollback null_pointer
  guard (same_text info.transaction_id txid) precondition
  guard (x.writing || not (ltb info.start_offset info.write_offset)) null_pointer
  es ←
      commit_entries (info.write_offset - info.start_offset) x.entries info.start_offset
        info.write_offset
  x' ←
      commit_deletes
        (record x {
          entries = es;
          header = record x.header {
            last_index = info.last_index;
            used_size = u64 (x.header.used_size + info.used_bytes);
            write_offset = info.write_offset;
          };
        })
        x.deletes
  end_transaction x'
