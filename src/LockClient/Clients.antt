-- ===== src/LockClient/Clients.antt =====
-- write_lock_client.cpp: a reference taken and given back, and two processes that share a lock.
use react_fs.Prelude.{
  ℕ, ◌+◌, ◌-◌, ◌%◌, ◌^◌, ◌<◌, ◌≡◌, refl, ap, ◌∙◌, Bool, true, none, List, ◌∷◌, ◌++◌, arith, ok, err,
  null_pointer, ◌>>=◌, length, length-append, All,
}
use react_fs.Prelude.Maps.{lookup}
use react_fs.Prelude.Texts.{Text, same_text_refl}
use react_fs.Instance.{is_available}
use react_fs.LockTable.{LockRecord, zero_record, fresh}
use react_fs.LockTable.Scan.{IsValid, IsBusy, IsOther}
use react_fs.LockTable.Add.{IsName, table, add_lock-vacant, add_lock-reusable}
use react_fs.LockTable.Remove.{IsBusy-IsOther}
use react_fs.WriteLock.{Caller}
use react_fs.LockClient.{LockClient, add_lock, release_held, remove_lock}
use react_fs.LockClient.Shared.{
  instance_at, used_at, joined, add_lock-joined, on_record-null, remove_lock-joined,
}

release_held-cleared :
    (name : Text) (cl : Caller) (got : Bool) (i : ℕ)
    → release_held cl got (record { lock = instance_at name i 1; slot = zero_record })
      ≡ err null_pointer
unfolding release_held
release_held-cleared name cl got i = refl

module _ (name : Text) (front back : List LockRecord) (c : ℕ) (n : IsName name)
    (busy : All (IsBusy name) front) (other : All (IsOther name) back) where
  add_lock-first :
      (k : LockClient) (now : ℕ)
      → is_available k.state ≡ true
      → lookup name k.locks ≡ none
      → c < length (front ++ zero_record ∷ back)
      → add_lock k (table c (front ++ zero_record ∷ back)) name true now
        ≡ ok (
          joined k name (length front),
          table ((c + 1) % 2 ^ 32) (front ++ used_at now (fresh name) ∷ back),
        )
  add_lock-first k now v f room =
      add_lock-joined ((c + 1) % 2 ^ 32) front back (fresh name) k
        (table c (front ++ zero_record ∷ back)) name now v f n.filled
        (add_lock-vacant name front back zero_record c n room busy refl other)

  add_lock-second :
      (k : LockClient) (before now : ℕ)
      → is_available k.state ≡ true
      → lookup name k.locks ≡ none
      → c < length (front ++ used_at before (fresh name) ∷ back)
      → add_lock k (table c (front ++ used_at before (fresh name) ∷ back)) name true now
        ≡ ok (joined k name (length front), table c (front ++ used_at now (fresh name) ∷ back))
  add_lock-second k before now v f room =
      add_lock-joined c front back (used_at before (fresh name)) k
        (table c (front ++ used_at before (fresh name) ∷ back)) name now v f n.filled
        (add_lock-reusable name front back (used_at before (fresh name)) c n room busy
          (same_text_refl name))

  remove_lock-only :
      (k : LockClient) (now : ℕ) (cl : Caller) (got : Bool)
      → is_available k.state ≡ true
      → remove_lock
          (joined k name (length front))
          (table c (front ++ used_at now (fresh name) ∷ back))
          name
          cl
          got
          true
        ≡ ok (true, k, table ((c + 2 ^ 32 - 1) % 2 ^ 32) (front ++ zero_record ∷ back))
  remove_lock-only k now cl got v =
      remove_lock-joined k name front back c cl got (used_at now (fresh name)) v n
        (IsBusy-IsOther name front busy) (same_text_refl name) refl refl

  -- An instance whose record has been cleared.
  remove_lock-cleared :
      (k : LockClient) (cl : Caller) (got : Bool)
      → is_available k.state ≡ true
      → remove_lock
          (joined k name (length front))
          (table c (front ++ zero_record ∷ back))
          name
          cl
          got
          true
        ≡ err null_pointer
  unfolding remove_lock lookup
  remove_lock-cleared k cl got v =
      let look = release_held-cleared name cl got (length front) in
      rw
        (
          v,
          same_text_refl name,
          on_record-null c front back zero_record (instance_at name (length front) 1)
              (release_held cl got) look,
        )
        refl

-- Where a client has no instance of a proper name, and a valid table has a cleared record and no record under
-- the name, `add_lock` and then `remove_lock` by any caller, at any times, answer true and give
-- back the client and the table as they were.
pub remove_lock-add_lock_client :
    (k : LockClient) (name : Text) (front back : List LockRecord) (c now : ℕ) (cl : Caller)
    (got : Bool)
    → is_available k.state ≡ true
    → lookup name k.locks ≡ none
    → IsName name
    → IsValid (table c (front ++ zero_record ∷ back))
    → c < length (front ++ zero_record ∷ back)
    → All (IsBusy name) front
    → All (IsOther name) back
    → (add_lock k (table c (front ++ zero_record ∷ back)) name true now >>= λ r.
        remove_lock r.0 r.1 name cl got true)
      ≡ ok (true, k, table c (front ++ zero_record ∷ back))
remove_lock-add_lock_client k name front back c now cl got v f n t room b o =
    rw (add_lock-first name front back c n b o k now v f room) (
      remove_lock-only name front back ((c + 1) % 2 ^ 32) n b o k now cl got v
      ∙ ap (λ j. ok (true, k, table j (front ++ zero_record ∷ back))) back_again)
  where
    back_again : ((c + 1) % 2 ^ 32 + 2 ^ 32 - 1) % 2 ^ 32 ≡ c
    back_again = omega (arith, t.short)

-- The bug of the record's reference count, seen from the clients: two clients take the same new name, from
-- a table with a cleared record, no record under the name and room for one more, and so share its record. When
-- one of them gives its reference back, the record is cleared, and the `remove_lock` of the other, at
-- any time and by any caller, reads through a null pointer.
pub remove_lock-shared_record :
    (k other : LockClient) (name : Text) (front back : List LockRecord) (c now later : ℕ)
    (cl cl' : Caller) (got got' : Bool)
    → is_available k.state ≡ true
    → is_available other.state ≡ true
    → lookup name k.locks ≡ none
    → lookup name other.locks ≡ none
    → IsName name
    → IsValid (table c (front ++ zero_record ∷ back))
    → c + 1 < length (front ++ zero_record ∷ back)
    → All (IsBusy name) front
    → All (IsOther name) back
    → (add_lock k (table c (front ++ zero_record ∷ back)) name true now >>= λ first.
        (add_lock other first.1 name true later >>= λ second.
        (remove_lock second.0 second.1 name cl' got' true >>= λ left.
        remove_lock first.0 left.2 name cl got true)))
      ≡ err null_pointer
remove_lock-shared_record k other name front back c now later cl cl' got got' v v' f f' n t room b
      o =
    rw
      (
        add_lock-first name front back c n b o k now v f (omega arith),
        add_lock-second name front back ((c + 1) % 2 ^ 32) n b o other now later v' f' room',
        remove_lock-only name front back ((c + 1) % 2 ^ 32) n b o other later cl' got' v',
      )
      (remove_lock-cleared name front back (((c + 1) % 2 ^ 32 + 2 ^ 32 - 1) % 2 ^ 32) n b o k cl got
        v)
  where
    room' : (c + 1) % 2 ^ 32 < length (front ++ used_at now (fresh name) ∷ back)
    room' = omega (
      arith,
      t.short,
      room,
      length-append front (zero_record ∷ back),
      length-append front (used_at now (fresh name) ∷ back),
    )
