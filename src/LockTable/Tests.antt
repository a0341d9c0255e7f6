-- ===== src/LockTable/Tests.antt =====
-- Runs of the lock table, and its theorems at concrete tables.
use react_fs.Prelude.{◌≡◌, refl, true, some, [], ◌∷◌, Returns, ok, ◌>>=◌, arith}
use react_fs.Prelude.Texts.{Text, same_text}
use react_fs.LockTable.{Table, LockRecord, zero_record, fresh, add_lock, remove_lock}
use react_fs.LockTable.Scan.{IsValid}
use react_fs.LockTable.Add.{IsName, table, Gives, add_lock-shadowed, add_lock-Gives}
use react_fs.LockTable.Remove.{remove_lock-add_lock}

abbrev blocks : Text
blocks = 98 ∷ 107 ∷ []

abbrev nodes : Text
nodes = 110 ∷ []

blocks-IsName : IsName blocks
blocks-IsName = record { filled = refl; fits = omega arith }

-- A record for `nodes`, and a free one.
abbrev half : Table
half = table 1 (fresh nodes ∷ zero_record ∷ [])

half-IsValid : IsValid half
half-IsValid = record { counted = refl; short = omega arith }

-- A record for `blocks` behind a free one.
abbrev gap : Table
gap = table 1 (zero_record ∷ fresh blocks ∷ [])

gap-IsValid : IsValid gap
gap-IsValid = record { counted = refl; short = omega arith }

add_lock_run : add_lock half blocks true ≡ ok (some 1, table 2 (fresh nodes ∷ fresh blocks ∷ []))
unfolding add_lock same_text
add_lock_run = refl

add_lock-shadowed_example :
    add_lock gap blocks true ≡ ok (some 0, table 2 (fresh blocks ∷ fresh blocks ∷ []))
unfolding same_text
add_lock-shadowed_example =
    add_lock-shadowed blocks [] [] [] zero_record (fresh blocks) 1 blocks-IsName (omega arith) tt
      refl tt refl

add_lock-Gives_example : Returns (add_lock gap blocks true) (Gives blocks)
add_lock-Gives_example = add_lock-Gives blocks gap-IsValid blocks-IsName (omega arith)

remove_lock-add_lock_example :
    (add_lock half blocks true >>= λ r. remove_lock r.1 blocks true) ≡ ok (true, half)
unfolding same_text
remove_lock-add_lock_example =
    remove_lock-add_lock blocks (fresh nodes ∷ []) [] 1 blocks-IsName half-IsValid (omega arith)
      ((refl, refl), tt) tt

-- The shared record is locked by its first user.
abbrev locked_blocks : LockRecord
locked_blocks = record (fresh blocks) { write_locked = true }
