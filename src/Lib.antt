-- ===== src/Lib.antt =====
-- ReactFS keeps data in blocks, which are files mapped into memory, and shares them between processes by
-- locks in shared memory.
--
-- The parts and how they interact. A bitset (common/includes/__bitset.h) hands out free slots. A table
-- of named write locks lies in shared memory (common/src/write_lock.cpp, lock_structs_v0.h); each write
-- lock (common/includes/write_lock.h) takes a record of it when it is created, and its calls read and
-- write that record under a semaphore. A data block (core/includes/base_block.h,
-- core/src/base_block.cpp) owns a write lock: a transaction of the block lasts while a thread holds it. An
-- indexed block (core/src/base_indexed_block.cpp) is a data block with an index (core/src/base_block_index.cpp), a
-- second mapped file that has an entry for each record; both write in one transaction. Read/write locks
-- (common/includes/read_write_lock.h) have a table of their own, in whose records many readers or one writer
-- stand. A manager (common/src/write_lock_manager.cpp, read_write_lock_manager.cpp) passes over each table and takes
-- locks away that nobody has used for some time. A client (common/src/write_lock_client.cpp) lets the threads of
-- a process share one instance of each write lock. Watergate limits how many processes use a resource at once: for each
-- lock there is a table of the processes (watergate/includes/lock_table.h) and a semaphore for each priority, which the
-- threads of a process take and give back (watergate/src/core/control/control.cpp); a server takes overdue locks
-- back, and a control client (control_def.cpp) takes the locks of a priority and of all lower ones.
--
-- Files.
--   Prelude              Booleans, lists, bits, texts and the results of calls that may fail.
--   Bitset               `__bitset`: the record `Bitset` for its fields, a function for each method.
--     Words, Update, Scan, Alloc
--                        the set bit by bit, its updates, its loops over words, and `get_free_bit`.
--   LockTable            `w_lock_table`: `Table` for the shared records, `add_lock`, `remove_lock`.
--     Scan, Add, Remove  the loops over the records, and the two operations.
--   WriteLock            `write_lock`: `Session` is an instance with the record that it points to;
--                        `has_write_lock` and what it tests.
--     Acquire            `get_lock` and `release_lock`; a `Round` says what a pass of the loop meets.
--     Lifecycle          `create`, `check_and_register`, the destructor, the reference counts.
--     Hold, Exclusion, Waiting, Again, Faults
--                        what a holder relies on, two processes, the loop of `get_lock`, a lock asked
--                        twice, and where the code does something else than it says.
--   ReadWriteLock        `read_write_lock`: `RwSession` is an instance with its record; `has_write_lock`,
--                        `has_thread_lock`, and the places of the readers.
--     Table              `rw_lock_table` and `create`.
--     Acquire            `write_lock`, `read_lock`, the releases, `check_and_clear` and the destructor.
--     Projection         the table beside that of the write locks.
--     Readers, Consistent, Release, Steps
--                        the count of the readers, the state that every call keeps, and any sequence of calls of
--                        all instances and of passes of the manager.
--     Hold, Waiting, RoundTrip, Faults
--                        what a caller relies on, the waits, a read lock taken and released, and where the code
--                        does something else than it says.
--   LockManager          `write_lock_manager`: `check_lock_states` and `reset`.
--     ReadWrite          `read_write_lock_manager`, likewise.
--     Pass, Expiry       what a pass leaves of the table, and what it means to the holder of a lock.
--   LockClient           `write_lock_client`: the instances that a process shares, with their references.
--     Shared, Clients    a reference taken and given back, and two clients over one table.
--     References         the count of an instance that has several references.
--   Watergate            `lock_table` and its records: registration and removal of processes.
--     Manager            `lock_table_manager`: its passes over leases and inactive processes, and its start.
--     Lease              `lock_table_client`: what a process holds, its leases and quotas.
--     Semaphore, Locks   `__semaphore_client`: threads, counts and semaphores; `try_lock` and `release_lock`.
--     Owner              `__semaphore_owner` and `run_checkup`.
--     Control, Control/Lock
--                        `control_client`: `lock_get` and `release`, and `lock`; a `Round` and a `Call` say what the
--                        passes of their loops meet.
--     Held, Held/Leases, Permits
--                        how many records hold a lock, what a client does to that number, and the same together with
--                        the value of the semaphore.
--     Trying, Releasing, Counted, Overdue, Steps
--                        the tries, the releases, the pass of the server over the leases, and any sequence of them.
--     Register, Expiry, Leaving
--                        processes that register, that are no longer active, and that leave.
--     Refill             what a server does to the semaphores when it starts.
--     Climbing, Asking   how the loops of `lock_get` end, and what it and `lock` have done where they answer Locked.
--     Sample             two processes with their table and semaphores, for the tests.
--   Instance             the state that instances keep of themselves, common/includes/__state__.h.
--   Block                the data of `base_block`: `Area` is the mapped file as the record that stands
--                        at each offset.
--     Interface, Lock    what a block uses of its write lock, as a record of operations with one law, and
--                        of a compression handler; the write lock that fills the first.
--     Transaction        `start_transaction` to `rollback`, and the figures of free space.
--     Records            `__write_record`, `__read_record`, `delete_record` and `commit`.
--     Scan               `read` and `check_block_sanity`.
--     Layout, Write, Pending, Deletes, Commit
--                        records behind one another, what a transaction writes, its calls and its
--                        rollback, its deletes, and its commit.
--     Sample             a block for the tests.
--   BlockIndex           `base_block_index`: `Index` is an instance, with the mapped entries as a list.
--     Entries, Commit, Space
--                        the entries of a transaction, reading and commit, and the entries that fit.
--     Sample             an index for the tests.
--   IndexedBlock         `base_indexed_block`: a `Block` and an `Index`, and the calls that use both.
--     Synced             a block and an index with the same records, and the call that writes.
--     Read               reading and the sanity check through the index.
--     Deletes, Commit    the deletes of a transaction, its commit and its rollback.
-- Each part has a module Tests with runs, and with the theorems at concrete inputs.
--
-- How the code is modelled. A call is a function from the state to a result: `err` for an exception or
-- for an access that has no meaning, and then the state is not followed further. Integers are natural
-- numbers with the wrap-around of their width written out. Character arrays are texts, lists of
-- character codes. The clock is read once in a call, and `now` of the caller is what it reads. A
-- semaphore is a flag that says whether it was got. A loop over records or words follows the list; the
-- loop of `get_free_bit` has one step more than the set has bits, and each step raises the offset; the
-- loop of `commit` has as many as there are bytes to pass, each step passes at least a record header, and
-- to run out of steps is an error; the loop of `clear_locks` has a step for each try, and needs one more than the value
-- of the semaphore. The loops of `get_lock`, `write_lock` and `read_lock` run over a list of
-- rounds; between two of them the other processes may change the record in any way. A call of a read/write lock
-- leaves its session also where it fails, since `check_lock_valid` sets the state of the instance before it throws.
-- A pass of a manager reads the clock once, and so does a call of watergate's locks; `lock_get` reads it in each round.
-- POSIX semaphores and the type `double` are parameters: of a semaphore it is assumed that a successful wait lowers its
-- value by one, a post raises it by one, a failed call leaves it, a post below SEM_VALUE_MAX succeeds, and, where a
-- theorem says so, that sem_trywait succeeds on a value above 0 and sem_close leaves the value. A sem_wait that blocks
-- for ever is not followed: `wait` is what one that returns has done, so nothing here says that `wait_lock`, and with it
-- `lock_get` and `lock`, ends. The records and semaphores that a process shares with others are part of its state, as
-- the call finds them.
--
-- Assumptions. A mapped file has the size that `__create_block` gives it, and a write beyond it is an
-- error. A record header takes 48 bytes, an entry of an index 32, and
-- the header of an index file 120. The places that an instance of a read/write lock remembers are below
-- 256. `write_record` is modelled from `__write_record` on, so without compression, and the usage figures and metrics are left out. A valid block, in what follows, has fewer than
-- 2 ^ 31 bytes and a first index below 2 ^ 63, which keeps its figures from wrapping round.
--
-- Not modelled: the client of the read/write locks, the semaphores, the threads of the managers, opening and
-- closing of files, typed blocks, the hash index, watergate's configuration and files, its metrics, the memory manager,
-- mounts, the configuration, types and parsers; vendored code, bindings, logging and trial programs.
pub mod Prelude
pub mod Bitset
pub mod LockTable
pub mod WriteLock
pub mod ReadWriteLock
pub mod LockManager
pub mod LockClient
pub mod Watergate
pub mod Instance
pub mod Block
pub mod BlockIndex
pub mod IndexedBlock
