-- ===== src/BlockIndex/Entries.antt =====
-- core/src/base_block_index.cpp: the entries of an index in its file, and the state that its calls keep.
use react_fs.Prelude.{
  ℕ, zero, suc, ◌+◌, ◌-◌, ◌*◌, ◌/◌, ◌^◌, ◌≤◌, ◌<◌, ◌≡◌, refl, ◌∙◌, true, false, some, List, [], ◌∷◌,
  ◌++◌, Returns, arith, length, get_elem?, get_elem?-in, set, length-append, get_elem?-set_self,
  get_elem?-set_ne, length-set,
}
use mathlib.Core.Path.{subst}
use react_fs.Prelude.Texts.{Text, is_empty, same_text}
use react_fs.Block.{is_available, is_writable_state, Rollback, u64}
use react_fs.BlockIndex.{Index, Entry, e_used, is_used, write_index, start_transaction}

-- The entries stand in the file from the k-th place on, and bear the indexes of their places.
abbrev pub Stored : ℕ → List Entry → ℕ → List Entry → Type 0
Stored start es k [] = Unit {0}
Stored start es k (e ∷ rs) =
    (get_elem? es k ≡ some e) × (e.index ≡ start + k) × Stored start es (suc k) rs

pub Stored-agree :
    (start : ℕ) (es es' : List Entry) (k : ℕ) (rs : List Entry)
    → ((j : ℕ) → k ≤ j → j < k + length rs → get_elem? es' j ≡ get_elem? es j)
    → Stored start es k rs
    → Stored start es' k rs
Stored-agree start es es' k [] same h = tt
Stored-agree start es es' k (r ∷ rs) same h = (
  same k (omega arith) (omega arith) ∙ h.0,
  h.1,
  Stored-agree start es es' (suc k) rs (λ j p q. same j (omega arith) (omega arith)) h.2,
)

pub Stored-append :
    (start : ℕ) (es : List Entry) (k m : ℕ) (rs qs : List Entry)
    → m ≡ k + length rs
    → Stored start es k rs
    → Stored start es m qs
    → Stored start es k (rs ++ qs)
Stored-append start es k m [] qs e h g =
    let z : m ≡ k = omega (arith, e) in subst (λ x. Stored start es x qs) z g
Stored-append start es k m (r ∷ rs) qs e h g =
    (h.0, h.1, Stored-append start es (suc k) m rs qs (omega (arith, e)) h.2 g)

pub Stored-get_elem? :
    (start : ℕ) (es : List Entry) (k : ℕ) (rs : List Entry) (j : ℕ) (r : Entry)
    → Stored start es k rs
    → get_elem? rs j ≡ some r
    → (get_elem? es (k + j) ≡ some r) × (r.index ≡ start + (k + j))
Stored-get_elem? start es k [] j r h g = absurd (ground (arith, g))
Stored-get_elem? start es k (q ∷ rs) zero r h g =
    let z : k + 0 ≡ k = omega arith in (ground (arith, h.0, g, z), ground (arith, h.1, g))
Stored-get_elem? start es k (q ∷ rs) (suc j) r h g =
    let z : k + suc j ≡ suc k + j = omega arith in
    rw z (Stored-get_elem? start es (suc k) rs j r h.2 g)

-- An index with its committed entries: the header gives their count in bytes and the last index, and
-- the file has a whole number of places.
pub record IsValid (x : Index) (cs : List Entry) : Type 0 where
  pub stored : Stored x.header.start_index x.entries 0 cs
  pub offset : x.header.write_offset ≡ 32 * length cs
  pub used : x.header.used_size ≡ 32 * length cs
  pub last : x.header.last_index ≡ x.header.start_index + (length cs - 1)
  pub sized : x.header.total_size ≡ 32 * length x.entries
  pub fits : length cs ≤ length x.entries
  pub small : length x.entries < 2 ^ 32
  pub indexed : x.header.start_index < 2 ^ 63

-- The transaction's own figures: its entries stand behind the committed ones, and are not readable yet.
abbrev pub AllUsed : List Entry → Type 0
AllUsed [] = Unit {0}
AllUsed (e ∷ es) = (is_used e.state ≡ true) × AllUsed es

pub AllUsed-append : (es rs : List Entry) → AllUsed es → AllUsed rs → AllUsed (es ++ rs)
AllUsed-append [] rs h g = g
AllUsed-append (e ∷ es) rs h g = (h.0, AllUsed-append es rs h.1 g)

pub record IsPending (x : Index) (info : Rollback) (cs ps : List Entry) : Type 0 where
  pub kept : x.rollback ≡ some info
  pub started : info.in_transaction ≡ true
  pub stored : Stored x.header.start_index x.entries (length cs) ps
  pub states : AllUsed ps
  pub first : info.start_offset ≡ 32 * length cs
  pub offset : info.write_offset ≡ 32 * (length cs + length ps)
  pub used : info.used_bytes ≡ 32 * length ps
  pub last : info.last_index ≡ x.header.start_index + (length cs + length ps - 1)
  pub fits : length cs + length ps ≤ length x.entries

-- What a caller of a transaction brings.
pub record IsWriter (x : Index) (info : Rollback) (txid : Text) : Type 0 where
  pub available : is_available x.state ≡ true
  pub writable : is_writable_state x.header.write_state ≡ true
  pub writing : x.writing ≡ true
  pub given : is_empty txid ≡ false
  pub same : same_text info.transaction_id txid ≡ true

-- The new entry.
abbrev pub new_entry : ℕ → ℕ → ℕ → Entry
new_entry index offset size = record { index = index; state = e_used; offset = offset; size = size }

-- A transaction that is started on a valid index has nothing pending, and nothing to delete.
pub start_transaction-IsPending :
    {x : Index} {cs : List Entry} (txid : Text) (now : ℕ)
    → IsValid x cs
    → IsValid (start_transaction x txid now) cs
      × ((info : Rollback) × (info.transaction_id ≡ txid)
          × IsPending (start_transaction x txid now) info cs [])
      × ((start_transaction x txid now).deletes ≡ [])
unfolding start_transaction
start_transaction-IsPending {x} {cs} txid now v = (
  record {
    stored = v.stored;
    offset = v.offset;
    used = v.used;
    last = v.last;
    sized = v.sized;
    fits = v.fits;
    small = v.small;
    indexed = v.indexed;
  },
  (
    _,
    refl,
    record {
      kept = refl;
      started = refl;
      stored = tt;
      states = tt;
      first = v.offset;
      offset = omega (arith, v.offset);
      used = omega arith;
      last = omega (arith, v.last);
      fits = omega (arith, v.fits);
    },
  ),
  refl,
)

-- With more than four places left in the file, a write of the next index in a transaction returns the
-- entry with the offset and the size given; it is the last of the pending ones, and the committed entries and
-- the first index are the same as before.
pub write_index-IsPending :
    {x : Index} {cs ps : List Entry} {info : Rollback} (offset size : ℕ) (txid : Text)
    → IsValid x cs
    → IsPending x info cs ps
    → IsWriter x info txid
    → length cs + length ps + 4 < length x.entries
    → Returns
        (write_index x (x.header.start_index + (length cs + length ps)) offset size txid)
        λ (e, x').
          (e ≡ new_entry (x.header.start_index + (length cs + length ps)) offset size)
          × IsValid x' cs
          × (x'.header.start_index ≡ x.header.start_index)
          × ((info' : Rollback) × (info'.transaction_id ≡ info.transaction_id)
              × IsPending x' info' cs (ps ++ (e ∷ [])))
unfolding write_index
write_index-IsPending {x} {cs} {ps} {info} offset size txid v p w room =
    let k = length cs + length ps in
    let e = new_entry (x.header.start_index + k) offset size in
    let there = get_elem?-in x.entries k (omega arith) in
    let place : info.write_offset / 32 ≡ k = omega (arith, p.offset) in
    let info' : Rollback = record info {
      last_index = x.header.start_index + k;
      used_bytes = u64 (info.used_bytes + 32);
      write_offset = u64 (info.write_offset + 32);
    } in
    let x' : Index = record x { entries = set x.entries k e; rollback = some info' } in
    let len : length (set x.entries k e) ≡ length x.entries = length-set x.entries k e in
    (
      (e, x'),
      ground (
        arith, w.available, w.writable, p.kept, p.started, w.given, w.same, w.writing, place,
        there.1, p.offset, p.used, p.last, v.used, v.sized, v.small, v.indexed, room,
      ),
      (
        refl,
        record {
          stored =
              Stored-agree x.header.start_index x.entries (set x.entries k e) 0 cs
                (λ j a b. get_elem?-set_ne x.entries k j e (λ q. omega (arith, q, b))) v.stored;
          offset = v.offset;
          used = v.used;
          last = v.last;
          sized = omega (arith, v.sized, len);
          fits = omega (arith, v.fits, len);
          small = omega (arith, v.small, len);
          indexed = v.indexed;
        },
        refl,
        (
          info',
          refl,
          record {
            kept = refl;
            started = p.started;
            stored =
                Stored-append x.header.start_index (set x.entries k e) (length cs) k ps (e ∷ [])
                  refl
                  (Stored-agree x.header.start_index x.entries (set x.entries k e) (length cs) ps
                    (λ j a b. get_elem?-set_ne x.entries k j e (λ q. omega (arith, q, b))) p.stored)
                  (get_elem?-set_self x.entries k e (omega arith), refl, tt);
            states = AllUsed-append ps (e ∷ []) p.states (refl, tt);
            first = p.first;
            offset = omega (arith, p.offset, v.small, length-append ps (e ∷ []));
            used = omega (arith, p.used, v.small, length-append ps (e ∷ []));
            last = omega (arith, length-append ps (e ∷ []));
            fits = omega (arith, len, length-append ps (e ∷ []));
          },
        ),
      ),
    )
