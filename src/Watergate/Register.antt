-- ===== src/Watergate/Register.antt =====
-- lock_table.cpp: `create_new_record` and `remove_record` keep the bits, the records and their count in step.
use react_fs.Prelude.{
  ℕ, zero, suc, ◌+◌, ◌-◌, ◌%◌, ◌^◌, ◌≤◌, ◌<◌, ◌≡◌, ◌≢◌, refl, sym, ap, ◌∙◌, true, false, Option,
  some, List, [], ◌∷◌, arith, ok, Returns, ◌>>=◌, ltb, leb, lt→ltb, ◌==◌, if◌then◌else◌, length,
  get_elem?, get_elem?-in, get_elem?_lt, get_elem?-set_self, get_elem?-set_ne, set, length-set,
  Bool-cases, inl, inr,
}
use react_fs.Prelude.Texts.{Text}
use react_fs.Bitset
use react_fs.Bitset.{Bitset, check, set_bit, clear_bit, get_free_bit}
use react_fs.Bitset.Words.{
  bit_at, put, with_bit, without_bit, bit_at-with, bit_at-without, check_lem,
}
use react_fs.Bitset.Update.{set_bit_lem, clear_bit_lem, with-IsValid, without-IsValid}
use react_fs.Bitset.Alloc.{FullBelow, IsFirstFree, get_free_bit-Probes}
use react_fs.Watergate.{
  Double, LockRecord, Table, max_string, reset_record, registered, create_new_record, remove_record,
}

abbrev pub use_of : {D : Type 0} → LockRecord D → ℕ
use_of r = if r.used then 1 else 0

abbrev pub use_at : {D : Type 0} → List (LockRecord D) → ℕ → ℕ
use_at [] i = 0
use_at (r ∷ rs) zero = use_of r
use_at (r ∷ rs) (suc i) = use_at rs i

abbrev pub in_use : {D : Type 0} → List (LockRecord D) → ℕ
in_use [] = 0
in_use (r ∷ rs) = use_of r + in_use rs

-- A table whose bits say which records are in use, and whose count says how many.
pub record IsRegistry {D : Type 0} (t : Table D) : Type 0 where
  pub bits : Bitset.Words.IsValid t.bit_index
  pub sized : length t.records ≡ t.max_records
  pub inside : t.max_records ≤ t.bit_index.max_offset
  pub short : t.max_records < 2 ^ 16
  pub agreed : (i : ℕ) → i < t.max_records → bit_at t.bit_index i ≡ use_at t.records i
  pub counted : t.used_record ≡ in_use t.records

module _ {D : Type 0} where
  use_at-get :
      (rs : List (LockRecord D)) (i : ℕ) (r : LockRecord D)
      → get_elem? rs i ≡ some r
      → use_at rs i ≡ use_of r
  use_at-get [] i r e = absurd (cc)
  use_at-get (x ∷ rs) zero r e = let s : x ≡ r = cc in ap (λ (y : LockRecord D). use_of y) s
  use_at-get (x ∷ rs) (suc i) r e = use_at-get rs i r e

  use_at-set :
      (rs : List (LockRecord D)) (i j : ℕ) (r : LockRecord D)
      → i < length rs
      → use_at (set rs i r) j ≡ (if i == j then use_of r else use_at rs j)
  use_at-set [] i j r h = absurd (omega arith)
  use_at-set (x ∷ rs) zero zero r h = refl
  use_at-set (x ∷ rs) zero (suc j) r h = ground arith
  use_at-set (x ∷ rs) (suc i) zero r h = ground arith
  use_at-set (x ∷ rs) (suc i) (suc j) r h = ground (arith, use_at-set rs i j r)

  in_use-set :
      (rs : List (LockRecord D)) (i : ℕ) (r r' : LockRecord D)
      → get_elem? rs i ≡ some r
      → in_use (set rs i r') + use_of r ≡ in_use rs + use_of r'
  in_use-set [] i r r' e = absurd (cc)
  in_use-set (x ∷ rs) zero r r' e = let s : x ≡ r = cc in rw s (omega arith)
  in_use-set (x ∷ rs) (suc i) r r' e = omega (arith, in_use-set rs i r r' e)

  in_use-full :
      (rs : List (LockRecord D))
      → ((i : ℕ) → i < length rs → use_at rs i ≡ 1)
      → in_use rs ≡ length rs
  in_use-full [] h = refl
  in_use-full (r ∷ rs) h =
      omega (arith, h 0 (omega arith), in_use-full rs (λ i l. h (suc i) (omega (arith, l))))

  in_use-le : (rs : List (LockRecord D)) → in_use rs ≤ length rs
  in_use-le [] = omega arith
  in_use-le (r ∷ rs) = ground (arith, in_use-le rs)

  -- The record at an index and its bit are changed together.
  replaced : (t : Table D) (b : Bitset) (u i : ℕ) (r : LockRecord D) → Table D
  replaced t b u i r = record t { bit_index = b; used_record = u; records = set t.records i r }

  replaced-IsRegistry :
      {t : Table D} (b : Bitset) (u i : ℕ) (r r' : LockRecord D)
      → IsRegistry t
      → get_elem? t.records i ≡ some r
      → Bitset.Words.IsValid b
      → b.max_offset ≡ t.bit_index.max_offset
      → ((j : ℕ)
          → j < t.max_records
          → bit_at b j ≡ (if i == j then use_of r' else bit_at t.bit_index j))
      → u + use_of r ≡ t.used_record + use_of r'
      → IsRegistry (replaced t b u i r')
  unfolding replaced
  replaced-IsRegistry {t} b u i r r' v found bv same bits count =
      let h : i < length t.records = get_elem?_lt t.records i r found in
      record {
        bits = bv;
        sized = length-set t.records i r' ∙ v.sized;
        inside = omega (arith, v.inside, same);
        short = v.short;
        agreed = λ j l. ground (arith, bits j l, v.agreed j l, use_at-set t.records i j r' h);
        counted = omega (arith, count, v.counted, in_use-set t.records i r r' found);
      }

  -- Bits that are set up to the number of the records leave no record free.
  all_used :
      {t : Table D}
      → IsRegistry t
      → t.used_record < t.max_records
      → FullBelow t.bit_index t.max_records
      → ⊥
  all_used {t} v room below =
      let full : (i : ℕ) → i < length t.records → use_at t.records i ≡ 1 =
        λ (i : ℕ) (l : i < length t.records).
          sym (v.agreed i (omega (arith, l, v.sized))) ∙ below i (omega (arith, l, v.sized)) in
      omega (arith, in_use-full t.records full, v.counted, v.sized, room)

  free_index :
      {t : Table D} (o : ℕ)
      → IsRegistry t
      → t.used_record < t.max_records
      → IsFirstFree t.bit_index o
      → o < t.max_records
  free_index {t} o v room f = elim (Bool-cases (ltb o t.max_records)) [
    | inl h ↦ ground arith
    | inr h ↦ absurd (all_used v room (λ i l. f.least i (ground (arith, l))))
  ]

module _ {D : Type 0} ⦃f : Double D⦄ where
  -- What `create_new_record` leaves: the table as it was but for one record that was not in use and is the process's
  -- now.
  abbrev pub Registers : Table D → Text → Text → ℕ → ℕ → Option ℕ × Table D → Type 0
  Registers t name id pid now (p, t') =
      IsRegistry t'
      × (t'.state ≡ t.state)
      × ((i : ℕ) × (r : LockRecord D) × (p ≡ some i)
          × (get_elem? t.records i ≡ some r)
          × (r.used ≡ false)
          × (get_elem? t'.records i ≡ some (registered r i name id pid now))
          × ((j : ℕ) → i ≢ j → get_elem? t'.records j ≡ get_elem? t.records j))

  -- On a table in step that has room, with names of at most 64 characters, `create_new_record` returns the index of a
  -- record that was not in use; that record is the process's now, every other one is as it was, and the table stays
  -- in step: its bits say which records are in use, and its count how many.
  pub create_new_record-Registers :
      {t : Table D} (name id : Text) (pid now : ℕ)
      → IsRegistry t
      → t.used_record < t.max_records
      → length name ≤ max_string
      → length id ≤ max_string
      → Returns (create_new_record t name id pid now) (Registers t name id pid now)
  unfolding create_new_record replaced
  create_new_record-Registers {t} name id pid now v room hn hi = elim (get_free_bit-Probes v.bits) [
    | inl (o, free, e) ↦ registers_at o free e
    | inr (full, e) ↦ absurd (all_used v room (λ i l. full i (omega (arith, l, v.inside))))
  ]
    where
      registers_at :
          (o : ℕ)
          → IsFirstFree t.bit_index o
          → get_free_bit t.bit_index ≡ (set_bit t.bit_index o >>= λ b'. ok (some o, b'))
          → Returns (create_new_record t name id pid now) (Registers t name id pid now)
      registers_at o free e =
          let h = free_index o v room free in
          let (r, found) = get_elem?-in t.records o (omega (arith, h, v.sized)) in
          let unused : r.used ≡ false =
            ground (arith, free.free, v.agreed o h, use_at-get t.records o r found) in
          let b' : Bitset = put t.bit_index o (with_bit t.bit_index o) in
          let set_o : set_bit t.bit_index o ≡ ok b' =
            ground (arith, set_bit_lem o v.bits, free.inside) in
          let r' = registered r o name id pid now in
          let got_o : get_free_bit t.bit_index ≡ ok (some o, b') = rw e (rw set_o refl) in
          let below : leb t.max_records t.used_record ≡ false = ground (arith, room) in
          let fits_id : leb (length id) max_string ≡ true = ground (arith, hi) in
          let fits_name : leb (length name) max_string ≡ true = ground (arith, hn) in
          let count : (t.used_record + 1) % 2 ^ 16 + use_of r ≡ t.used_record + use_of r' =
            ground (arith, unused, v.short, room) in
          (
            (some o, replaced t b' ((t.used_record + 1) % 2 ^ 16) o r'),
            rw (below, got_o, found, unused, fits_id, fits_name) refl,
            (
              replaced-IsRegistry b' ((t.used_record + 1) % 2 ^ 16) o r r' v found
                  (with-IsValid o v.bits) refl (λ j l. bit_at-with o v.bits j free.inside) count,
              refl,
              (
                o,
                r,
                refl,
                found,
                unused,
                get_elem?-set_self t.records o r' (get_elem?_lt t.records o r found),
                λ j ne. get_elem?-set_ne t.records o j r' ne,
              ),
            ),
          )

  -- On a table in step, `remove_record` of a record in use clears that record and its bit, counts one less, and leaves
  -- every other record; the table stays in step.
  pub remove_record-IsRegistry :
      {t : Table D} (i : ℕ) (r : LockRecord D)
      → IsRegistry t
      → get_elem? t.records i ≡ some r
      → r.used ≡ true
      → Returns (remove_record t i) λ t'.
        IsRegistry t'
        × (t'.records ≡ set t.records i (reset_record r))
        × (t'.used_record + 1 ≡ t.used_record)
        × (t' ≡ record t {
          bit_index = t'.bit_index;
          used_record = t'.used_record;
          records = t'.records;
        })
  unfolding remove_record replaced
  remove_record-IsRegistry {t} i r v found used =
      let h : i < t.max_records = omega (arith, get_elem?_lt t.records i r found, v.sized) in
      let inside : i < t.bit_index.max_offset = omega (arith, h, v.inside) in
      let b' : Bitset = put t.bit_index i (without_bit t.bit_index i) in
      let bit_is : bit_at t.bit_index i ≡ 1 =
        ground (arith, v.agreed i h, use_at-get t.records i r found, used) in
      let checked : check t.bit_index i ≡ ok true =
        ground (arith, check_lem i v.bits, bit_is, inside) in
      let cleared : clear_bit t.bit_index i ≡ ok b' =
        ground (arith, clear_bit_lem i v.bits, inside) in
      let below : ltb i t.max_records ≡ true = lt→ltb i t.max_records h in
      let r' = reset_record r in
      let some_used = in_use-set t.records i r r' found in
      let u' : ℕ = (t.used_record + 2 ^ 16 - 1) % 2 ^ 16 in
      let least : (1 ≤ t.used_record) × (t.used_record < 2 ^ 16) =
        ground (arith, some_used, used, v.counted, in_use-le t.records, v.sized, v.short) in
      let count : u' + use_of r ≡ t.used_record + use_of r' = ground (arith, used, least) in
      (
        replaced t b' u' i r',
        rw (below, checked, found, cleared) refl,
        (
          replaced-IsRegistry b' u' i r r' v found (without-IsValid i v.bits) refl
              (λ j l. bit_at-without i v.bits j inside) count,
          refl,
          omega (arith, least),
          refl,
        ),
      )
