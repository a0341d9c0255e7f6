-- ===== src/BlockIndex/Sample.antt =====
-- The index of the block of Block/Sample: one committed entry, one that is pending, and empty places.
use react_fs.Prelude.{ℕ, ◌+◌, ◌*◌, refl, true, some, List, [], ◌∷◌, arith, replicate}
use react_fs.Prelude.Texts.{same_text}
use react_fs.Block.{available, writable, Rollback}
use react_fs.Block.Sample.{txid}
use react_fs.BlockIndex.{Index, Entry, e_used, e_readable, zero_entry}
use react_fs.BlockIndex.Entries.{IsValid, IsPending, IsWriter}

abbrev pub old_entry : Entry
old_entry = record { index = 10; state = e_readable; offset = 0; size = 2 }

abbrev pub young_entry : Entry
young_entry = record { index = 11; state = e_used; offset = 50; size = 3 }

abbrev pub index_info : Rollback
index_info = record {
  in_transaction = true;
  transaction_id = txid;
  start_offset = 32;
  write_offset = 64;
  used_bytes = 32;
  last_index = 11;
  start_time = 950;
}

-- With so many empty places behind the entries.
abbrev pub index_of : ℕ → List ℕ → Index
index_of n deletes = record {
  state = available;
  header = record {
    start_index = 10;
    last_index = 10;
    write_state = writable;
    total_size = 32 * (2 + n);
    used_size = 32;
    write_offset = 32;
  };
  entries = old_entry ∷ young_entry ∷ replicate n zero_entry;
  writing = true;
  rollback = some index_info;
  deletes = deletes;
}

pub index-IsValid : IsValid (index_of 5 []) (old_entry ∷ [])
index-IsValid = record {
  stored = (refl, refl, tt);
  offset = refl;
  used = refl;
  last = refl;
  sized = refl;
  fits = omega arith;
  small = omega arith;
  indexed = omega arith;
}

pub index-IsPending : IsPending (index_of 5 []) index_info (old_entry ∷ []) (young_entry ∷ [])
index-IsPending = record {
  kept = refl;
  started = refl;
  stored = (refl, refl, tt);
  states = (refl, tt);
  first = refl;
  offset = refl;
  used = refl;
  last = refl;
  fits = omega arith;
}

pub index-IsWriter : IsWriter (index_of 5 []) index_info txid
unfolding same_text
index-IsWriter = record {
  available = refl;
  writable = refl;
  writing = refl;
  given = refl;
  same = refl;
}

pub index_deleting-IsValid : IsValid (index_of 5 (10 ∷ [])) (old_entry ∷ [])
index_deleting-IsValid = record {
  stored = (refl, refl, tt);
  offset = refl;
  used = refl;
  last = refl;
  sized = refl;
  fits = omega arith;
  small = omega arith;
  indexed = omega arith;
}

pub index_deleting-IsPending :
    IsPending (index_of 5 (10 ∷ [])) index_info (old_entry ∷ []) (young_entry ∷ [])
index_deleting-IsPending = record {
  kept = refl;
  started = refl;
  stored = (refl, refl, tt);
  states = (refl, tt);
  first = refl;
  offset = refl;
  used = refl;
  last = refl;
  fits = omega arith;
}

pub index_deleting-IsWriter : IsWriter (index_of 5 (10 ∷ [])) index_info txid
unfolding same_text
index_deleting-IsWriter = record {
  available = refl;
  writable = refl;
  writing = refl;
  given = refl;
  same = refl;
}

pub small-IsValid : IsValid (index_of 0 []) (old_entry ∷ [])
small-IsValid = record {
  stored = (refl, refl, tt);
  offset = refl;
  used = refl;
  last = refl;
  sized = refl;
  fits = omega arith;
  small = omega arith;
  indexed = omega arith;
}

pub small-IsPending : IsPending (index_of 0 []) index_info (old_entry ∷ []) (young_entry ∷ [])
small-IsPending = record {
  kept = refl;
  started = refl;
  stored = (refl, refl, tt);
  states = (refl, tt);
  first = refl;
  offset = refl;
  used = refl;
  last = refl;
  fits = omega arith;
}

pub small-IsWriter : IsWriter (index_of 0 []) index_info txid
unfolding same_text
small-IsWriter = record {
  available = refl;
  writable = refl;
  writing = refl;
  given = refl;
  same = refl;
}

pub four-IsValid : IsValid (index_of 4 []) (old_entry ∷ [])
four-IsValid = record {
  stored = (refl, refl, tt);
  offset = refl;
  used = refl;
  last = refl;
  sized = refl;
  fits = omega arith;
  small = omega arith;
  indexed = omega arith;
}

pub four-IsPending : IsPending (index_of 4 []) index_info (old_entry ∷ []) (young_entry ∷ [])
four-IsPending = record {
  kept = refl;
  started = refl;
  stored = (refl, refl, tt);
  states = (refl, tt);
  first = refl;
  offset = refl;
  used = refl;
  last = refl;
  fits = omega arith;
}

pub four-IsWriter : IsWriter (index_of 4 []) index_info txid
unfolding same_text
four-IsWriter = record {
  available = refl;
  writable = refl;
  writing = refl;
  given = refl;
  same = refl;
}
