-- ===== src/LockClient/Shared.antt =====
-- write_lock_client.cpp: `add_lock` and `remove_lock` of one client, and of two clients over one table.
use react_fs.LockTable
use react_fs.Prelude.{
  ℕ, ◌+◌, ◌-◌, ◌%◌, ◌^◌, ◌≡◌, refl, ◌∙◌, Bool, true, false, none, some, List, [], ◌∷◌, ◌++◌, arith,
  Result, ok, err, null_pointer, length, All, get_elem?-middle, set-middle, Bool-cases, inl, inr,
  leb,
}
use react_fs.Prelude.Maps.{lookup, erase}
use react_fs.Prelude.Texts.{
  Text, is_empty, same_text_refl, has_prefix, has_prefix_refl, eq-of_same_text,
}
use react_fs.Instance.{is_available}
use react_fs.LockTable.{
  LockState, lock_free, lock_expired, LockRecord, zero_record, is_named, fresh,
}
use react_fs.LockTable.Scan.{IsOther}
use react_fs.LockTable.Add.{IsName, table, is_named-used}
use react_fs.LockTable.Remove.{remove_lock-present}
use react_fs.WriteLock.{WriteLock, Session, Caller, elapsed, lock_expiry, touch, has_write_lock}
use react_fs.WriteLock.Lifecycle.{create, destroy, decrement_ref_count}
use react_fs.LockClient.{
  LockClient, add_lock, on_record, release_held, delete_lock, remove_last, remove_lock,
}

-- The client with an instance of its own over the record at the index.
abbrev pub instance_at : Text → ℕ → ℕ → WriteLock
instance_at name i references = record {
  state = lock_free;
  lock_struct = some i;
  txn_id = [];
  name = name;
  reference_count = references;
}

abbrev pub joined : LockClient → Text → ℕ → LockClient
joined k name i = record k { locks = (name, instance_at name i 1) ∷ k.locks }

abbrev attached : WriteLock → ℕ → WriteLock
attached w i = record w { lock_struct = some i }

abbrev pub used_at : ℕ → LockRecord → LockRecord
used_at now l = record l { last_used = now }

module _ (c : ℕ) (front back : List LockRecord) (l : LockRecord) where
  pub add_lock-joined :
      (k : LockClient) (t : LockTable.Table) (name : Text) (now : ℕ)
      → is_available k.state ≡ true
      → lookup name k.locks ≡ none
      → is_empty name ≡ false
      → LockTable.add_lock t name true ≡ ok (some (length front), table c (front ++ l ∷ back))
      → add_lock k t name true now
        ≡ ok (joined k name (length front), table c (front ++ used_at now l ∷ back))
  unfolding add_lock create
  add_lock-joined k t name now v f n e =
      rw (v, f, n, e, get_elem?-middle front back l, set-middle front back l (used_at now l)) refl

  on_record-ok :
      (w : WriteLock) (method : Session → Result Session) (s : Session)
      → method (record { lock = attached w (length front); slot = l }) ≡ ok s
      → on_record (attached w (length front)) (table c (front ++ l ∷ back)) method
        ≡ ok (s.lock, table c (front ++ s.slot ∷ back))
  unfolding on_record
  on_record-ok w method s m =
      rw (get_elem?-middle front back l, m, set-middle front back l s.slot) refl

  pub on_record-null :
      (w : WriteLock) (method : Session → Result Session)
      → method (record { lock = attached w (length front); slot = l }) ≡ err null_pointer
      → on_record (attached w (length front)) (table c (front ++ l ∷ back)) method
        ≡ err null_pointer
  unfolding on_record
  on_record-null w method m = rw (get_elem?-middle front back l, m) refl

-- The deletion of an instance leaves a cleared record alone.
delete_lock-zero :
    (c : ℕ) (front back : List LockRecord) (w : WriteLock) (cl : Caller) (got : Bool)
    → delete_lock (attached w (length front)) (table c (front ++ zero_record ∷ back)) cl got
      ≡ ok (table c (front ++ zero_record ∷ back))
unfolding delete_lock destroy
delete_lock-zero c front back w cl got =
    rw (on_record-ok c front back zero_record w (λ s. destroy s cl got) _ refl) refl

has_prefix-of_is_named :
    (name : Text) (l : LockRecord) → is_named name l ≡ true → has_prefix l.name name ≡ true
has_prefix-of_is_named name l n =
    let e : l.name ≡ name = eq-of_same_text l.name name (ground arith) in
    rw e (has_prefix_refl name)

-- A look at a lock that nobody holds changes the time of the last use or the state of the instance.
release_held-unlocked :
    (name : Text) (i : ℕ) (l : LockRecord) (cl : Caller) (got : Bool)
    → is_named name l ≡ true
    → l.write_locked ≡ false
    → (v : LockState) × (u : ℕ) × (release_held cl got
          (record { lock = instance_at name i 1; slot = l })
        ≡ ok (record { lock = record (instance_at name i 1) { state = v }; slot = used_at u l }))
unfolding release_held has_write_lock touch
release_held-unlocked name i l cl got n u =
    let x : l.used ≡ true = is_named-used name l n in
    let y : has_prefix l.name name ≡ true = has_prefix-of_is_named name l n in
    elim (Bool-cases (leb lock_expiry (elapsed cl.now l.last_used))) [
      | inl late ↦ (lock_expired, l.last_used, rw (x, y, late) refl)
      | inr recent ↦ (lock_free, cl.now, rw (x, y, recent) (ground (arith, u)))
    ]

module _ (k : LockClient) (name : Text) (front back : List LockRecord) (c : ℕ) (cl : Caller)
    (got : Bool) where
  remove_last-joined :
      (v : LockState) (l : LockRecord)
      → IsName name
      → All (IsOther name) front
      → is_named name l ≡ true
      → l.ref_count ≡ 0
      → remove_last
          (joined k name (length front))
          (record (instance_at name (length front) 0) { state = v })
          (table c (front ++ l ∷ back))
          cl
          got
          true
        ≡ ok (true, k, table ((c + 2 ^ 32 - 1) % 2 ^ 32) (front ++ zero_record ∷ back))
  unfolding remove_last erase
  remove_last-joined v l n a h z =
      let c' : ℕ = (c + 2 ^ 32 - 1) % 2 ^ 32 in
      let cleared : LockTable.remove_lock (table c (front ++ l ∷ back)) name true
          ≡ ok (true, table c' (front ++ zero_record ∷ back)) =
        remove_lock-present name front back l c n a h ∙ ground (arith, z) in
      rw
        (
          cleared,
          delete_lock-zero c' front back (record (instance_at name (length front) 0) { state = v })
              cl got,
          same_text_refl name,
        )
        refl

  -- The only reference goes, and the record with it, where nobody holds the lock.
  pub remove_lock-joined :
      (l : LockRecord)
      → is_available k.state ≡ true
      → IsName name
      → All (IsOther name) front
      → is_named name l ≡ true
      → l.write_locked ≡ false
      → l.ref_count ≡ 0
      → remove_lock (joined k name (length front)) (table c (front ++ l ∷ back)) name cl got true
        ≡ ok (true, k, table ((c + 2 ^ 32 - 1) % 2 ^ 32) (front ++ zero_record ∷ back))
  unfolding remove_lock lookup decrement_ref_count
  remove_lock-joined l v n a h u z =
      let (x, y, e) = release_held-unlocked name (length front) l cl got h u in
      rw
        (
          v,
          same_text_refl name,
          on_record-ok c front back l (instance_at name (length front) 1) (release_held cl got) _ e,
        )
        (remove_last-joined x (used_at y l) n a h z)
