-- ===== src/Watergate/Expiry.antt =====
-- lock_table.h: the pass of the server over the processes that are no longer active.
use mathlib.Core.List.{append_assoc}
use react_fs.Prelude.{
  ℕ, zero, suc, ◌≤◌, ◌<◌, ◌≡◌, refl, sym, ap, ◌∙◌, true, false, some, List, [], ◌∷◌, ◌++◌, arith,
  ok, Returns, ◌>>=◌, ltb, lt→ltb, if◌then◌else◌, length, length-append, get_elem?,
  get_elem?-middle, set, set-middle, Bool-cases, inl, inr,
}
use react_fs.Prelude.Texts.{Text}
use react_fs.Instance.{is_available}
use react_fs.Watergate.{
  Double, LockRecord, Table, max_string, reset_record, registered, get_record, create_new_record,
  remove_record,
}
use react_fs.Watergate.Manager.{is_gone, reset_expired_from, reset_expired_records}
use react_fs.Watergate.Register.{IsRegistry, create_new_record-Registers, remove_record-IsRegistry}

module _ {D : Type 0} ⦃f : Double D⦄ (expiry now : ℕ) where
  abbrev pub swept : LockRecord D → LockRecord D
  swept r = if is_gone expiry now r then reset_record r else r

  abbrev pub sweep : List (LockRecord D) → List (LockRecord D)
  sweep [] = []
  sweep (r ∷ rs) = swept r ∷ sweep rs

  -- The table is as it was but for its records, bits and count.
  abbrev pub Keeps : Table D → Table D → Type 0
  Keeps t t' = (t'.state ≡ t.state) × (t'.max_records ≡ t.max_records)

  -- What the body of the loop does at a record.
  step-swept :
      {t : Table D} (front back : List (LockRecord D)) (r : LockRecord D)
      → IsRegistry t
      → t.records ≡ front ++ r ∷ back
      → Returns
          (if is_gone expiry now r then remove_record t (length front) else ok t)
          λ t'. IsRegistry t' × (t'.records ≡ front ++ swept r ∷ back) × Keeps t t'
  step-swept {t} front back r v e = elim (Bool-cases (is_gone expiry now r)) [
    | inr active ↦ rw active (t, refl, (v, e, (refl, refl)))
    | inl gone ↦
        (let found : get_elem? t.records (length front) ≡ some r =
            rw e (get_elem?-middle front back r) in
          let used : r.used ≡ true = ground (arith, gone) in
          let (t', te, (v', records, count, same)) =
            remove_record-IsRegistry (length front) r v found used in
          rw gone (
            t',
            te,
            (
              v',
              records
                  ∙ ap (λ rs. set rs (length front) (reset_record r)) e
                  ∙ set-middle front back r (reset_record r),
              (ap (λ (x : Table D). x.state) same, ap (λ (x : Table D). x.max_records) same),
            ),
          ))
  ]

  reset_expired_from-swept :
      (back front : List (LockRecord D)) (t : Table D)
      → IsRegistry t
      → is_available t.state ≡ true
      → t.records ≡ front ++ back
      → Returns
          (reset_expired_from (length back) (length front) t expiry now)
          λ t'. IsRegistry t' × (t'.records ≡ front ++ sweep back)
  unfolding reset_expired_from get_record
  reset_expired_from-swept [] front t v a e = (t, refl, (v, e))
  reset_expired_from-swept (r ∷ back) front t v a e =
      let found : get_elem? t.records (length front) ≡ some r =
        rw e (get_elem?-middle front back r) in
      let h : length front < t.max_records =
        omega (arith, ap length e, length-append front (r ∷ back), v.sized) in
      let below : ltb (length front) t.max_records ≡ true = lt→ltb (length front) t.max_records h in
      let (t', te, (v', e', (state, most))) = step-swept front back r v e in
      let front' : List (LockRecord D) = front ++ swept r ∷ [] in
      let moved : t'.records ≡ front' ++ back = e' ∙ sym (append_assoc front (swept r ∷ []) back) in
      let a' : is_available t'.state ≡ true = ap is_available state ∙ a in
      let next : length front' ≡ suc (length front) =
        omega (arith, length-append front (swept r ∷ [])) in
      let (t'', te', (v'', e'')) = reset_expired_from-swept back front' t' v' a' moved in
      (
        t'',
        rw (a, below, found, te)
            (ap (λ i. reset_expired_from (length back) i t' expiry now) (sym next) ∙ te'),
        (v'', e'' ∙ append_assoc front (swept r ∷ []) (sweep back)),
      )

  -- On an available table in step, `reset_expired_records`, which takes records out one by one with their bits,
  -- returns; the records are then those of one pass that clears each record in use whose last activity is over, and
  -- the table stays in step.
  pub reset_expired_records-sweep :
      {t : Table D}
      → IsRegistry t
      → is_available t.state ≡ true
      → Returns
          (reset_expired_records t expiry now)
          λ t'. IsRegistry t' × (t'.records ≡ sweep t.records)
  unfolding reset_expired_records
  reset_expired_records-sweep {t} v a =
      let (t', e, q) = reset_expired_from-swept t.records [] t v a refl in
      (t', rw a (ap (λ n. reset_expired_from n 0 t expiry now) (sym v.sized) ∙ e), q)

  get_elem?-sweep :
      (rs : List (LockRecord D)) (i : ℕ) (r : LockRecord D)
      → get_elem? rs i ≡ some r
      → get_elem? (sweep rs) i ≡ some (swept r)
  get_elem?-sweep [] i r e = absurd (cc)
  get_elem?-sweep (x ∷ rs) zero r e = let s : x ≡ r = cc in rw s refl
  get_elem?-sweep (x ∷ rs) (suc i) r e = get_elem?-sweep rs i r e

module _ {D : Type 0} ⦃f : Double D⦄ where
  -- A process registers on an available table in step with room, and the server looks for processes that have not
  -- been active for a time which the clock has passed: the new record is out of use again, whenever it was
  -- registered, since registration leaves the time of the last activity at 0.
  pub reset_expired_records-new :
      {t : Table D} (name id : Text) (pid start expiry now : ℕ)
      → IsRegistry t
      → is_available t.state ≡ true
      → t.used_record < t.max_records
      → length name ≤ max_string
      → length id ≤ max_string
      → expiry ≤ now
      → Returns
          (create_new_record t name id pid start >>= λ x.
            (reset_expired_records x.1 expiry now >>= λ t'. ok (x.0, t')))
          λ (p, t').
            (i : ℕ) × (p ≡ some i)
            × ((r : LockRecord D) × (get_elem? t'.records i ≡ some r) × (r.used ≡ false))
  reset_expired_records-new {t} name id pid start expiry now v a room hn hi h =
      let (x, e, (v', state, (i, r, pe, found, unused, there, others))) =
        create_new_record-Registers name id pid start v room hn hi in
      let (t', e', (v'', swept_all)) =
        reset_expired_records-sweep expiry now v' (ap is_available state ∙ a) in
      let r' = registered r i name id pid start in
      let gone : is_gone expiry now r' ≡ true = ground (arith, h) in
      (
        (x.0, t'),
        rw e (rw e' refl),
        (
          i,
          pe,
          (
            reset_record r',
            rw swept_all (get_elem?-sweep expiry now x.1.records i r' there ∙ rw gone refl),
            refl,
          ),
        ),
      )
