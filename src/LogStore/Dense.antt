-- ===== src/LogStore/Dense.antt =====
-- The log is dense: the dummy at index 0, then one entry for each index from `start_idx` on.
use craft_client.Prelude.{
  ℕ, zero, suc, ◌+◌, ◌-◌, ◌^◌, ◌≤◌, ◌<◌, ◌≡◌, ◌≢◌, refl, ap, ◌∙◌, none, List, [], ◌∷◌, ◌++◌, length,
  take, drop, get_elem?, length-append, length-drop, length-take, arith, max,
}
use craft_client.Prelude.OrderedMap.{OrderedMap, find, assign, erase}
use craft_client.LogStore.{
  LogEntries, InmemLogStore, u64, next_slot, append, write_at, below, compact, erase_rounds,
  entry_at, fresh_store,
}

module _ (lib : LogEntries) where
  -- The entries of a log from index `i` on.
  abbrev pub run : ℕ → List lib.LogEntry → OrderedMap lib.LogEntry
  run i [] = []
  run i (e ∷ es) = (i, e) ∷ run (i + 1) es

  length-run : (i : ℕ) (es : List lib.LogEntry) → length (run i es) ≡ length es
  length-run i [] = refl
  length-run i (e ∷ es) = ap suc (length-run (i + 1) es)

  assign-run :
      (i k : ℕ) (e : lib.LogEntry) (es : List lib.LogEntry)
      → k ≡ i + length es
      → assign k e (run i es) ≡ run i (es ++ e ∷ [])
  assign-run i k e [] h = ground arith
  assign-run i k e (x ∷ es) h = ground (arith, assign-run (i + 1) k e es)

  below-none : (i k : ℕ) (es : List lib.LogEntry) → k ≤ i → below lib k (run i es) ≡ []
  below-none i k [] h = refl
  below-none i k (x ∷ es) h = ground (arith, below-none (i + 1) k es)

  below-run :
      (i k n : ℕ) (es : List lib.LogEntry) → k ≡ i + n → below lib k (run i es) ≡ run i (take n es)
  below-run i k zero [] h = refl
  below-run i k (suc n) [] h = refl
  below-run i k zero (x ∷ es) h = ground (arith, below-none (i + 1) k es)
  below-run i k (suc n) (x ∷ es) h = ground (arith, below-run (i + 1) k n es)

  erase-run : (i j : ℕ) (es : List lib.LogEntry) → j < i → erase j (run i es) ≡ run i es
  erase-run i j [] h = refl
  erase-run i j (x ∷ es) h = ground (arith, erase-run (i + 1) j es)

  find-run : (i k : ℕ) (es : List lib.LogEntry) → find (i + k) (run i es) ≡ get_elem? es k
  find-run i k [] = refl
  find-run i zero (x ∷ es) = ground arith
  find-run i (suc k) (x ∷ es) = ground (arith, find-run (i + 1) k es)

  run-drop_nil : (k n : ℕ) → run k (drop n []) ≡ []
  run-drop_nil k zero = refl
  run-drop_nil k (suc n) = refl

  erase_rounds-run :
      (n i k : ℕ) (d : lib.LogEntry) (es : List lib.LogEntry)
      → 0 < i
      → k ≡ i + n
      → erase_rounds lib n i ((0, d) ∷ run i es) ≡ (0, d) ∷ run k (drop n es)
  unfolding erase_rounds
  erase_rounds-run zero i k d es pos h = ground arith
  erase_rounds-run (suc n) i k d [] pos h =
      ap (erase_rounds lib n (i + 1)) (ground arith)
      ∙ erase_rounds-run n (i + 1) k d [] (omega arith) (omega arith)
      ∙ ap (λ m. (0, d) ∷ m) (run-drop_nil k n)
  erase_rounds-run (suc n) i k d (x ∷ es) pos h =
      ap (erase_rounds lib n (i + 1)) (ground (arith, erase-run (i + 1) i es))
      ∙ erase_rounds-run n (i + 1) k d es (omega arith) (omega arith)

  -- The log of the entries `es`, the first of which has index `start_idx`.
  pub record IsLog (s : InmemLogStore lib) (es : List lib.LogEntry) : Type 0 where
    pub start_pos : 0 < s.start_idx
    pub logs_run : s.logs ≡ (0, lib.dummy) ∷ run s.start_idx es
    pub bounded : s.start_idx + length es < 2 ^ 64

  fresh_store-IsLog : IsLog (fresh_store lib) []
  fresh_store-IsLog = record { start_pos = omega arith; logs_run = refl; bounded = omega arith }

  size_lem :
      (s : InmemLogStore lib) (es : List lib.LogEntry)
      → IsLog s es
      → length s.logs ≡ suc (length es)
  size_lem s es v = ap length v.logs_run ∙ ap suc (length-run s.start_idx es)

  next_index :
      (s : InmemLogStore lib) (es : List lib.LogEntry)
      → IsLog s es
      → u64 (s.start_idx + length s.logs - 1) ≡ s.start_idx + length es
  next_index s es v = ground (arith, size_lem s es v, v.bounded)

  find-log :
      (s : InmemLogStore lib) (es : List lib.LogEntry) (k : ℕ)
      → IsLog s es
      → find (s.start_idx + k) s.logs ≡ get_elem? es k
  find-log s es k v = rw v.logs_run (ground (arith, find-run s.start_idx k es, v.start_pos))

  present : (xs : List lib.LogEntry) (k : ℕ) → k < length xs → get_elem? xs k ≢ none
  present [] k h = absurd (omega arith)
  present (x ∷ xs) zero h = ground arith
  present (x ∷ xs) (suc k) h = present xs k (omega arith)

  -- `next_slot` is the index after the last entry, and the entry at an index of the log is the one
  -- that was put there.
  pub next_slot-entry_at :
      (s : InmemLogStore lib) (es : List lib.LogEntry) (k : ℕ)
      → IsLog s es
      → k < length es
      → (next_slot lib s ≡ s.start_idx + length es)
        × (entry_at lib s (s.start_idx + k) ≡ get_elem? es k)
  unfolding next_slot entry_at
  next_slot-entry_at s es k v lt =
      (next_index s es v, ground (arith, find-log s es k v, present es k lt))

  -- `append` puts the entry at the end of a log and returns its index, if there is one more to give.
  pub append-IsLog :
      (s : InmemLogStore lib) (es : List lib.LogEntry) (e : lib.LogEntry)
      → IsLog s es
      → s.start_idx + length es + 1 < 2 ^ 64
      → ((append lib s e).0 ≡ s.start_idx + length es) × IsLog (append lib s e).1 (es ++ e ∷ [])
  unfolding append
  append-IsLog s es e v room = (
    next_index s es v,
    record {
      start_pos = v.start_pos;
      logs_run =
          rw (next_index s es v, v.logs_run)
            (ground
              (arith, assign-run s.start_idx (s.start_idx + length es) e es refl, v.start_pos));
      bounded = omega (arith, length-append es (e ∷ []));
    },
  )

  -- `write_at` inside a log or at its end discards the entries from the index on, and puts the new
  -- one there as the last.
  pub write_at-IsLog :
      (s : InmemLogStore lib) (es : List lib.LogEntry) (e : lib.LogEntry) (k : ℕ)
      → IsLog s es
      → k ≤ length es
      → s.start_idx + k + 1 < 2 ^ 64
      → IsLog (write_at lib s (s.start_idx + k) e) (take k es ++ e ∷ [])
  unfolding write_at
  write_at-IsLog s es e k v le room = record {
    start_pos = v.start_pos;
    logs_run = rw v.logs_run (
        ground (
          arith,
          below-run s.start_idx (s.start_idx + k) k es refl,
          assign-run s.start_idx (s.start_idx + k) e (take k es),
          length-take k es,
          v.start_pos,
        ));
    bounded = omega (arith, length-append (take k es) (e ∷ []), length-take k es);
  }

  -- `compact` drops the entries up to the index, which need not be in the log, and the log starts
  -- after it from then on.
  pub compact-IsLog :
      (s : InmemLogStore lib) (es : List lib.LogEntry) (last : ℕ)
      → IsLog s es
      → last + 1 < 2 ^ 64
      → IsLog (compact lib s last) (drop (last + 1 - s.start_idx) es)
        × ((compact lib s last).start_idx ≡ max s.start_idx (last + 1))
  unfolding compact
  compact-IsLog s es last v room = (
    record {
      start_pos = ground (arith, v.start_pos);
      logs_run =
          ap (erase_rounds lib _ _) v.logs_run
          ∙ erase_rounds-run (last + 1 - s.start_idx) s.start_idx _ lib.dummy es v.start_pos
              (ground arith);
      bounded = ground (arith, length-drop (last + 1 - s.start_idx) es, v.bounded);
    },
    ground arith,
  )
