-- ===== src/LockClient/Tests.antt =====
-- Runs of the clients of the table of write locks, and their theorems at concrete tables.
use react_fs.LockTable
use react_fs.Prelude.{ℕ, ◌≡◌, refl, true, some, [], ◌∷◌, ok, err, null_pointer, ◌>>=◌, arith}
use react_fs.Prelude.Maps.{lookup}
use react_fs.Prelude.Texts.{Text, same_text, has_prefix}
use react_fs.Instance.{available}
use react_fs.LockTable.{Table, zero_record, fresh}
use react_fs.LockTable.Scan.{IsValid}
use react_fs.LockTable.Add.{IsName, table}
use react_fs.WriteLock.{Caller}
use react_fs.LockClient.{LockClient, add_lock, remove_lock}
use react_fs.LockClient.Shared.{instance_at, used_at}
use react_fs.LockClient.Clients.{remove_lock-add_lock_client, remove_lock-shared_record}

abbrev blocks : Text
blocks = 98 ∷ 107 ∷ []

abbrev nodes : Text
nodes = 110 ∷ []

blocks-IsName : IsName blocks
blocks-IsName = record { filled = refl; fits = omega arith }

abbrev empty_client : LockClient
empty_client = record { state = available; locks = [] }

abbrev caller : Caller
caller = record { process_id = 4; thread_id = 55 ∷ []; now = 2000 }

abbrev other_caller : Caller
other_caller = record { process_id = 5; thread_id = 56 ∷ []; now = 3000 }

-- A record for `nodes`, and two free ones.
abbrev third : Table
third = table 1 (fresh nodes ∷ zero_record ∷ zero_record ∷ [])

third-IsValid : IsValid third
third-IsValid = record { counted = refl; short = omega arith }

-- A second reference to the instance, and what is left when it is given back.
twice_run :
    (add_lock empty_client third blocks true 1000 >>= λ r.
    (add_lock r.0 r.1 blocks true 1500 >>= λ x. ok (lookup blocks x.0.locks)))
    ≡ ok (some (instance_at blocks 1 2))
unfolding add_lock LockTable.add_lock same_text
twice_run = refl

less_run :
    (add_lock empty_client third blocks true 1000 >>= λ r.
    (add_lock r.0 r.1 blocks true 1500 >>= λ x.
    (remove_lock x.0 x.1 blocks caller true true >>= λ y. ok (lookup blocks y.1.locks))))
    ≡ ok (some (instance_at blocks 1 1))
unfolding add_lock LockTable.add_lock remove_lock same_text has_prefix
less_run = refl

remove_lock-add_lock_client_example :
    (add_lock empty_client third blocks true 1000 >>= λ r.
    remove_lock r.0 r.1 blocks caller true true)
    ≡ ok (true, empty_client, third)
unfolding lookup same_text
remove_lock-add_lock_client_example =
    remove_lock-add_lock_client empty_client blocks (fresh nodes ∷ []) (zero_record ∷ []) 1 1000
      caller true refl refl blocks-IsName third-IsValid (omega arith) ((refl, refl), tt) (refl, tt)

remove_lock-shared_record_example :
    (add_lock empty_client third blocks true 1000 >>= λ first.
    (add_lock empty_client first.1 blocks true 1500 >>= λ second.
    (remove_lock second.0 second.1 blocks other_caller true true >>= λ left.
    remove_lock first.0 left.2 blocks caller true true)))
    ≡ err null_pointer
unfolding lookup same_text
remove_lock-shared_record_example =
    remove_lock-shared_record empty_client empty_client blocks (fresh nodes ∷ []) (zero_record ∷ [])
      1 1000 1500 caller other_caller true true refl refl refl refl blocks-IsName third-IsValid
      (omega arith) ((refl, refl), tt) (refl, tt)

-- The first record, and an instance with two references over it.
abbrev single_at : ℕ → Table
single_at now = table 1 (used_at now (fresh blocks) ∷ [])

abbrev sharing : LockClient
sharing = record { state = available; locks = (blocks, instance_at blocks 0 2) ∷ [] }
