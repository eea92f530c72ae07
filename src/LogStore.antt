-- ===== src/LogStore.antt =====
-- The in-memory log store of a Raft group (src/raft/in_memory_log_store.cpp).
-- An entry is NuRaft's: a type with its term and the size of its buffer. `make_clone` copies an
-- entry, so the clone is the value itself.
pub mod Dense
mod Tests
use craft_client.Prelude.{
  ℕ, zero, suc, ◌+◌, ◌-◌, ◌^◌, ◌%◌, Bool, true, false, ◌&&◌, not, Option, none, some, List, [], ◌∷◌,
  ◌==◌, ltb, leb, if◌then◌else◌, length, max,
}
use craft_client.Prelude.OrderedMap.{OrderedMap, find, assign, erase}

pub record LogEntries : Type 1 where
  pub LogEntry : Type 0
  pub get_term : LogEntry → ℕ
  pub buf_size : LogEntry → ℕ
  pub dummy : LogEntry

-- `ulong` arithmetic.
abbrev pub u64 : ℕ → ℕ
u64 n = n % 2 ^ 64

module _ (lib : LogEntries) where
  abbrev Entry : Type 0
  Entry = lib.LogEntry

  pub record InmemLogStore : Type 0 where
    pub logs : OrderedMap Entry
    pub start_idx : ℕ

  abbrev pub fresh_store : InmemLogStore
  fresh_store = record { logs = (0, lib.dummy) ∷ []; start_idx = 1 }

  unfoldable pub next_slot : InmemLogStore → ℕ
  next_slot s = u64 (s.start_idx + length s.logs - 1)

  abbrev first_some : Option Entry → Option Entry → Option Entry
  first_some (some e) other = some e
  first_some none other = other

  -- The entry, or that of index 0; `none` where the source follows the end iterator.
  unfoldable pub entry_at : InmemLogStore → ℕ → Option Entry
  entry_at s index = first_some (find index s.logs) (find 0 s.logs)

  unfoldable pub last_entry : InmemLogStore → Option Entry
  last_entry s = entry_at s (u64 (next_slot s + 2 ^ 64 - 1))

  unfoldable pub append : InmemLogStore → Entry → ℕ × InmemLogStore
  append s e =
      let idx = u64 (s.start_idx + length s.logs - 1) in
      (idx, record s { logs = assign idx e s.logs })

  -- The entries before `lower_bound(index)`.
  abbrev pub below : ℕ → OrderedMap Entry → OrderedMap Entry
  below index [] = []
  below index ((i, e) ∷ m) = let rest = below index m in if ltb i index then (i, e) ∷ rest else rest

  unfoldable pub write_at : InmemLogStore → ℕ → Entry → InmemLogStore
  write_at s index e = record s { logs = assign index e (below index s.logs) }

  unfoldable pub log_entries_from : InmemLogStore → ℕ → ℕ → List (Option Entry)
  log_entries_from s zero i = []
  log_entries_from s (suc n) i = entry_at s i ∷ log_entries_from s n (i + 1)

  unfoldable pub log_entries : InmemLogStore → ℕ → ℕ → List (Option Entry)
  log_entries s start last = log_entries_from s (last - start) start

  abbrev pub size_of_entry : Option Entry → ℕ
  size_of_entry none = 0
  size_of_entry (some e) = lib.buf_size e

  -- With `n` rounds left; a batch size of 0 is no limit.
  unfoldable pub batch_from : InmemLogStore → ℕ → ℕ → ℕ → ℕ → List (Option Entry)
  batch_from s hint zero i accum = []
  batch_from s hint (suc n) i accum =
      let grown = accum + size_of_entry (entry_at s i) in
      let rest = batch_from s hint n (i + 1) grown in
      entry_at s i ∷ (if not (hint == 0) && leb hint grown then [] else rest)

  -- `hint` is `none` where the source's is below zero.
  unfoldable pub log_entries_ext : InmemLogStore → ℕ → ℕ → Option ℕ → List (Option Entry)
  log_entries_ext s start last none = []
  log_entries_ext s start last (some hint) = batch_from s hint (last - start) start 0

  abbrev pub term_of : Option Entry → ℕ
  term_of none = 0
  term_of (some e) = lib.get_term e

  unfoldable pub term_at : InmemLogStore → ℕ → ℕ
  term_at s index = term_of (entry_at s index)

  -- `for (ii = start_idx_; ii <= last; ++ii)`, with `n` rounds left.
  unfoldable pub erase_rounds : ℕ → ℕ → OrderedMap Entry → OrderedMap Entry
  erase_rounds zero i m = m
  erase_rounds (suc n) i m = erase_rounds n (i + 1) (erase i m)

  unfoldable pub compact : InmemLogStore → ℕ → InmemLogStore
  compact s last_log_index = record {
    logs = erase_rounds (last_log_index + 1 - s.start_idx) s.start_idx s.logs;
    start_idx = if leb s.start_idx last_log_index then u64 (last_log_index + 1) else s.start_idx;
  }

  -- The entries of an unpacked buffer, set from `index` on.
  abbrev pub install_from : ℕ → List Entry → OrderedMap Entry → OrderedMap Entry
  install_from index [] m = m
  install_from index (e ∷ es) m = install_from (u64 (index + 1)) es (assign index e m)

  -- The first key above 0.
  abbrev pub first_above_zero : OrderedMap Entry → ℕ
  first_above_zero [] = 1
  first_above_zero ((i, e) ∷ m) = if i == 0 then first_above_zero m else i

  unfoldable pub install : InmemLogStore → ℕ → List Entry → InmemLogStore
  install s index es =
      let logs = install_from index es s.logs in
      record { logs = logs; start_idx = first_above_zero logs }
