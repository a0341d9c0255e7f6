-- ===== src/Block/Interface.antt =====
-- What a block uses of its write lock, and of the handlers of core/includes/compression.h.
use react_fs.Prelude.{ℕ, Option, List, Bool, true, Result, ok, ◌≡◌}
use react_fs.Prelude.Texts.{Text}
use react_fs.WriteLock.{Caller}

-- The methods of `write_lock` that a block calls on its `block_lock`. `get_lock` stands for the call
-- with the user's name and the timeout of the transaction.
pub record LockApi : Type 1 where
  pub Lock : Type 0
  pub has_write_lock : Lock → Caller → Result (Bool × Lock)
  pub is_lock_reset : Lock → Result Bool
  pub check_and_register : Lock → Caller → Result Lock
  pub get_lock : Lock → Caller → Text → Result (Text × Lock)
  pub release_lock : Lock → Caller → Result (Bool × Lock)
  -- A lock that is held is held when it is asked again at the same time, and no longer changes.
  pub held_again :
      (l m : Lock) (c : Caller)
      → has_write_lock l c ≡ ok (true, m)
      → has_write_lock m c ≡ ok (true, m)

-- What an archive of which some bytes are given expands to, if the handler of compression_factory.h finds
-- anything in it.
pub record Compression : Type 0 where
  pub read_archive_data : List ℕ → ℕ → Option (List ℕ)
