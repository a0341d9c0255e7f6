-- ===== src/BlockIndex/Commit.antt =====
-- core/includes/base_block_index.h and core/src/base_block_index.cpp: how an entry is read, and what a
-- commit or a rollback makes of the index.
use react_fs.Prelude.{
  ℕ, zero, suc, ◌+◌, ◌-◌, ◌*◌, ◌/◌, ◌^◌, ◌≤◌, ◌<◌, ◌≡◌, refl, sym, ap, ◌∙◌, Bool, true, not, ◌&&◌,
  Option, none, some, List, [], ◌∷◌, ◌++◌, Returns, ok, arith, if◌then◌else◌, length, get_elem?,
  get_elem?_lt, get_elem?-in, set, length-append, All, get_elem?-set_self, get_elem?-set_ne,
  length-set,
}
use mathlib.Core.Path.{subst}
use react_fs.Prelude.Texts.{Text, same_text}
use react_fs.Block.{is_available, Rollback, u64}
use react_fs.BlockIndex.{
  Index, IndexHeader, Entry, e_readable, e_deleted, is_readable, minus, read_index, cleared,
  rollback, commit_entries, commit_deletes, commit,
}
use react_fs.BlockIndex.Entries.{
  Stored, Stored-agree, Stored-append, Stored-get_elem?, IsValid, AllUsed, IsPending, IsWriter,
}

-- What a reader is given of an entry.
abbrev pub visible : Bool → Entry → Option Entry
visible all e = if not all && not (is_readable e.state) then none else some e

read_at :
    (x : Index) (rs : List Entry) (k : ℕ) (e : Entry) (all : Bool)
    → is_available x.state ≡ true
    → Stored x.header.start_index x.entries 0 rs
    → x.header.last_index ≡ x.header.start_index + (length rs - 1)
    → length rs < 2 ^ 32
    → x.header.start_index < 2 ^ 63
    → get_elem? rs k ≡ some e
    → read_index x (x.header.start_index + k) all ≡ ok (visible all e)
unfolding read_index
read_at x rs k e all a h l m i g =
    let there = Stored-get_elem? x.header.start_index x.entries 0 rs k e h g in
    let short = get_elem?_lt rs k e g in
    let place : u64 (minus (x.header.start_index + k) x.header.start_index * 32) / 32 ≡ k =
      omega arith in
    ground (arith, a, l, i, m, there.0, there.1, short, place)

-- `read_index` answers the k-th committed entry for the k-th index, if it is readable or the caller asks for
-- all; for any other committed entry it answers null.
pub read_index-visible :
    {x : Index} {cs : List Entry} (k : ℕ) (e : Entry) (all : Bool)
    → IsValid x cs
    → is_available x.state ≡ true
    → get_elem? cs k ≡ some e
    → read_index x (x.header.start_index + k) all ≡ ok (visible all e)
read_index-visible {x} {cs} k e all v a g =
    read_at x cs k e all a v.stored v.last (omega (arith, v.fits, v.small)) v.indexed g

-- A commit makes the pending entries readable.
abbrev pub all_readable : List Entry → List Entry
all_readable [] = []
all_readable (e ∷ es) = record e { state = e_readable } ∷ all_readable es

pub length-all_readable : (es : List Entry) → length (all_readable es) ≡ length es
length-all_readable [] = refl
length-all_readable (e ∷ es) = ap suc (length-all_readable es)

commit_entries-Stored :
    (fuel start : ℕ) (es : List Entry) (k : ℕ) (ps : List Entry) (o e : ℕ)
    → o ≡ 32 * k
    → e ≡ 32 * (k + length ps)
    → length ps ≤ fuel
    → Stored start es k ps
    → AllUsed ps
    → (es' : List Entry) × (commit_entries fuel es o e ≡ ok es')
      × (length es' ≡ length es)
      × Stored start es' k (all_readable ps)
      × ((j : ℕ) → j < k → get_elem? es' j ≡ get_elem? es j)
unfolding commit_entries
commit_entries-Stored zero start es k [] o e p q f h a =
    (es, ground (arith, p, q), refl, tt, λ j l. refl)
commit_entries-Stored (suc fuel) start es k [] o e p q f h a =
    (es, ground (arith, p, q), refl, tt, λ j l. refl)
commit_entries-Stored zero start es k (r ∷ ps) o e p q f h a = absurd (omega (arith, f))
commit_entries-Stored (suc fuel) start es k (r ∷ ps) o e p q f h a =
    let place : o / 32 ≡ k = omega (arith, p) in
    let marked = set es k (record r { state = e_readable }) in
    let n =
      commit_entries-Stored fuel start marked (suc k) ps (o + 32) e (omega (arith, p))
        (omega (arith, q)) (omega (arith, f))
        (Stored-agree start es marked (suc k) ps
          (λ j b c.
            get_elem?-set_ne es k j (record r { state = e_readable }) (λ z. omega (arith, z, b)))
          h.2)
        a.1 in
    let short = get_elem?_lt es k r h.0 in
    (
      n.0,
      ground (arith, p, q, place, h.0, a.0, n.1),
      n.2 ∙ length-set es k (record r { state = e_readable }),
      (
        n.4 k (omega arith) ∙ get_elem?-set_self es k (record r { state = e_readable }) short,
        h.1,
        n.3,
      ),
      λ j l.
          n.4 j (omega (arith, l))
          ∙ get_elem?-set_ne es k j (record r { state = e_readable }) (λ z. omega (arith, z, l)),
    )

-- The entries of the given indexes, marked as deleted.
abbrev pub delete_nth : List Entry → ℕ → List Entry
delete_nth [] k = []
delete_nth (e ∷ es) zero = record e { state = e_deleted } ∷ es
delete_nth (e ∷ es) (suc k) = e ∷ delete_nth es k

abbrev pub delete_all : List Entry → ℕ → List ℕ → List Entry
delete_all es start [] = es
delete_all es start (d ∷ ds) = delete_all (delete_nth es (d - start)) start ds

length-delete_nth : (es : List Entry) (k : ℕ) → length (delete_nth es k) ≡ length es
length-delete_nth [] k = refl
length-delete_nth (e ∷ es) zero = refl
length-delete_nth (e ∷ es) (suc k) = ap suc (length-delete_nth es k)

pub length-delete_all :
    (es : List Entry) (start : ℕ) (ds : List ℕ) → length (delete_all es start ds) ≡ length es
length-delete_all es start [] = refl
length-delete_all es start (d ∷ ds) =
    length-delete_all (delete_nth es (d - start)) start ds ∙ length-delete_nth es (d - start)

Stored-delete_nth :
    (start : ℕ) (es : List Entry) (k : ℕ) (rs : List Entry) (j m : ℕ) (r : Entry)
    → m ≡ k + j
    → Stored start es k rs
    → get_elem? rs j ≡ some r
    → Stored start (set es m (record r { state = e_deleted })) k (delete_nth rs j)
Stored-delete_nth start es k [] j m r e h g = absurd (ground (arith, g))
Stored-delete_nth start es k (q ∷ rs) zero m r e h g =
    let z : k ≡ m = omega (arith, e) in
    let d = record r { state = e_deleted } in
    subst (λ y. Stored start (set es y d) k (delete_nth (q ∷ rs) 0)) z
      (
        get_elem?-set_self es k d (get_elem?_lt es k q h.0) ∙ ground (arith, g),
        h.1,
        Stored-agree start es (set es k d) (suc k) rs
            (λ i b c. get_elem?-set_ne es k i d (λ z. omega (arith, z, b))) h.2,
      )
Stored-delete_nth start es k (q ∷ rs) (suc j) m r e h g = (
  get_elem?-set_ne es m k (record r { state = e_deleted }) (λ z. omega (arith, z, e)) ∙ h.0,
  h.1,
  Stored-delete_nth start es (suc k) rs j m r (omega (arith, e)) h.2 g,
)

-- Indexes of stored entries.
abbrev pub AreStored : ℕ → ℕ → List ℕ → Type 0
AreStored start n ds = All (λ d. (start ≤ d) × (d < start + n)) ds

commit_deletes-step :
    (x : Index) (d : ℕ) (ds : List ℕ) (e : Entry)
    → read_index x d true ≡ ok (some e)
    → commit_deletes x (d ∷ ds)
      ≡ commit_deletes
          (record x {
            entries = set x.entries (minus d x.header.start_index) (record e { state = e_deleted });
          })
          ds
unfolding commit_deletes
commit_deletes-step x d ds e h = rw h refl

commit_deletes-Stored :
    (x : Index) (rs : List Entry) (n : ℕ) (ds : List ℕ)
    → is_available x.state ≡ true
    → Stored x.header.start_index x.entries 0 rs
    → length rs ≡ n
    → x.header.last_index ≡ x.header.start_index + (n - 1)
    → n < 2 ^ 32
    → x.header.start_index < 2 ^ 63
    → AreStored x.header.start_index n ds
    → (es : List Entry) × (commit_deletes x ds ≡ ok (record x { entries = es }))
      × (length es ≡ length x.entries)
      × Stored x.header.start_index es 0 (delete_all rs x.header.start_index ds)
unfolding commit_deletes
commit_deletes-Stored x rs n [] a h len l m i c = (x.entries, refl, refl, h)
commit_deletes-Stored x rs n (d ∷ ds) a h len l m i c =
    let k = d - x.header.start_index in
    let found = get_elem?-in rs k (omega (arith, c.0.0, c.0.1, len)) in
    let at : x.header.start_index + k ≡ d = omega (arith, c.0.0) in
    let read : read_index x d true ≡ ok (some found.0) =
      ap (λ j. read_index x j true) (sym at)
      ∙ read_at x rs k found.0 true a h (omega (arith, l, len)) (omega (arith, m, len)) i found.1 in
    let place : minus d x.header.start_index ≡ k = omega (arith, c.0.0, c.0.1, m, i) in
    let mark = record found.0 { state = e_deleted } in
    let marked = set x.entries k mark in
    let rest =
      commit_deletes-Stored (record x { entries = marked }) (delete_nth rs k) n ds a
        (Stored-delete_nth x.header.start_index x.entries 0 rs k k found.0 (omega arith) h found.1)
        (length-delete_nth rs k ∙ len) l m i c.1 in
    (
      rest.0,
      commit_deletes-step x d ds found.0 read
          ∙ ap (λ i. commit_deletes (record x { entries = set x.entries i mark }) ds) place
          ∙ rest.1,
      rest.2 ∙ length-set x.entries k mark,
      rest.3,
    )

-- A rollback in the transaction of the id leaves the committed entries as they were, closes the
-- transaction and forgets its deletes.
pub rollback-cleared :
    {x : Index} {cs ps : List Entry} {info : Rollback} (txid : Text)
    → IsValid x cs
    → IsPending x info cs ps
    → same_text info.transaction_id txid ≡ true
    → Returns (rollback x txid) λ x'.
      IsValid x' cs
      × (x'.header ≡ x.header)
      × (x'.rollback ≡ some (cleared info))
      × (x'.deletes ≡ [])
unfolding rollback
rollback-cleared {x} {cs} {ps} {info} txid v p s = (
  record x { rollback = some (cleared info); deletes = [] },
  ground (arith, p.kept, p.started, s),
  (
    record {
      stored = v.stored;
      offset = v.offset;
      used = v.used;
      last = v.last;
      sized = v.sized;
      fits = v.fits;
      small = v.small;
      indexed = v.indexed;
    },
    refl,
    refl,
    refl,
  ),
)

-- A commit in the transaction of the id makes its entries readable behind the committed ones and then
-- marks the deleted ones, which may be among the new, as deleted; the header counts the new entries and keeps
-- the first index, the transaction is closed and its deletes are forgotten.
pub commit-all_readable :
    {x : Index} {cs ps : List Entry} {info : Rollback} (txid : Text)
    → IsValid x cs
    → IsPending x info cs ps
    → IsWriter x info txid
    → AreStored x.header.start_index (length cs + length ps) x.deletes
    → Returns (commit x txid) λ x'.
      IsValid x' (delete_all (cs ++ all_readable ps) x.header.start_index x.deletes)
      × (x'.header.start_index ≡ x.header.start_index)
      × (x'.rollback ≡ some (cleared info))
      × (x'.deletes ≡ [])
unfolding commit
commit-all_readable {x} {cs} {ps} {info} txid v p w c =
    let rs = cs ++ all_readable ps in
    let start = x.header.start_index in
    let added =
      commit_entries-Stored (info.write_offset - info.start_offset) start x.entries (length cs) ps
        info.start_offset info.write_offset p.first p.offset (omega (arith, p.first, p.offset))
        p.stored p.states in
    let h : IndexHeader = record x.header {
      last_index = info.last_index;
      used_size = u64 (x.header.used_size + info.used_bytes);
      write_offset = info.write_offset;
    } in
    let len : length rs ≡ length cs + length ps =
      length-append cs (all_readable ps) ∙ ap (λ n. length cs + n) (length-all_readable ps) in
    let gone =
      commit_deletes-Stored (record x { entries = added.0; header = h }) rs (length cs + length ps)
        x.deletes w.available
        (Stored-append start added.0 0 (length cs) cs (all_readable ps) (omega arith)
          (Stored-agree start x.entries added.0 0 cs (λ j a b. added.4 j (omega (arith, b)))
            v.stored)
          added.3)
        len p.last (omega (arith, p.fits, v.small)) v.indexed c in
    let all = length-delete_all rs start x.deletes ∙ len in
    (
      record x { entries = gone.0; header = h; rollback = some (cleared info); deletes = [] },
      ground (arith, p.kept, p.started, w.same, w.writing, added.1, gone.1),
      (
        record {
          stored = gone.3;
          offset = omega (arith, p.offset, all);
          used = omega (arith, v.used, p.used, p.fits, v.small, all);
          last = omega (arith, p.last, all);
          sized = omega (arith, v.sized, gone.2, added.2);
          fits = omega (arith, p.fits, gone.2, added.2, all);
          small = omega (arith, v.small, gone.2, added.2);
          indexed = v.indexed;
        },
        refl,
        refl,
        refl,
      ),
    )
