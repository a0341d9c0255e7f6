-- ===== src/LockClient/References.antt =====
-- write_lock_client.cpp: the count of the references to an instance that stands in the client.
use react_fs.Prelude.{
  ℕ, ◌+◌, ◌-◌, ◌%◌, ◌^◌, ◌<◌, ◌≡◌, refl, Bool, true, false, some, arith, Returns, ok, if◌then◌else◌,
  ltb, ◌==◌,
}
use react_fs.Prelude.Maps.{lookup, assign, lookup-assign}
use react_fs.Prelude.Texts.{Text, same_text}
use react_fs.Instance.{is_available}
use react_fs.LockTable.{Table}
use react_fs.WriteLock.{WriteLock, Caller}
use react_fs.WriteLock.Lifecycle.{increment_ref_count, decrement_ref_count}
use react_fs.LockClient.{LockClient, on_record, release_held, add_lock, remove_lock}

-- The client with another count on its instance under a name.
abbrev counted : LockClient → Text → WriteLock → ℕ → LockClient
counted k name w references = record k {
  locks = assign name (record w { reference_count = references }) k.locks;
}

-- Where a client has an instance under the name, `add_lock` leaves the table as it is and gives the instance
-- one more reference; what stands under every other name stays.
pub add_lock-counts :
    (k : LockClient) (t : Table) (name : Text) (acquired : Bool) (now : ℕ) (w : WriteLock)
    → is_available k.state ≡ true
    → lookup name k.locks ≡ some w
    → w.reference_count + 1 < 2 ^ 32
    → Returns (add_lock k t name acquired now) λ (k', t').
      (t' ≡ t)
      × ((m : Text)
          → lookup m k'.locks ≡ (
              if same_text name m
              then some (record w { reference_count = w.reference_count + 1 })
              else lookup m k.locks))
unfolding add_lock increment_ref_count
add_lock-counts k t name acquired now w v f room =
    let e : (w.reference_count + 1) % 2 ^ 32 ≡ w.reference_count + 1 = omega (arith, room) in
    (
      (counted k name w (w.reference_count + 1), t),
      rw (v, f, e) refl,
      (refl, λ m. lookup-assign name m w _ k.locks f),
    )

-- Where a client has an instance under the name, and its record can be looked at and the lock released if
-- the caller holds it, which leaves the instance with more than one reference, `remove_lock` answers false, keeps
-- the table as the release left it, and keeps the instance with one reference less; what stands under
-- every other name stays.
pub remove_lock-counts :
    (k : LockClient) (t : Table) (name : Text) (cl : Caller) (got acquired : Bool) (w : WriteLock)
    (after : WriteLock × Table)
    → is_available k.state ≡ true
    → lookup name k.locks ≡ some w
    → on_record w t (release_held cl got) ≡ ok after
    → 1 < after.0.reference_count
    → Returns (remove_lock k t name cl got acquired) λ (gone, k', t').
      (gone ≡ false)
      × (t' ≡ after.1)
      × ((m : Text)
          → lookup m k'.locks ≡ (
              if same_text name m
              then some (record after.0 { reference_count = after.0.reference_count - 1 })
              else lookup m k.locks))
unfolding remove_lock decrement_ref_count
remove_lock-counts k t name cl got acquired w after v f e more =
    let less : ltb 0 after.0.reference_count ≡ true = ground (arith, more) in
    let left : (after.0.reference_count - 1 == 0) ≡ false = ground (arith, more) in
    (
      (false, counted k name after.0 (after.0.reference_count - 1), after.1),
      rw (v, f, e, less, left) refl,
      (refl, refl, λ m. lookup-assign name m w _ k.locks f),
    )
