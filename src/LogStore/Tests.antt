-- ===== src/LogStore/Tests.antt =====
-- The log store's theorems at concrete inputs.
use craft_client.Prelude.{ℕ, refl, [], ◌∷◌, arith}
use craft_client.LogStore.{LogEntries, InmemLogStore, write_at}
use craft_client.LogStore.Dense.{IsLog, write_at-IsLog}

-- Entries that are their terms, of 8 bytes each.
abbrev terms : LogEntries
terms = record { LogEntry = ℕ; get_term = λ e. e; buf_size = λ e. 8; dummy = 0 }

abbrev three : InmemLogStore terms
three = record { logs = (0, 0) ∷ (4, 7) ∷ (5, 7) ∷ (6, 8) ∷ []; start_idx = 4 }

three-IsLog : IsLog terms three (7 ∷ 7 ∷ 8 ∷ [])
three-IsLog = record { start_pos = omega arith; logs_run = refl; bounded = omega arith }

write_at_example : IsLog terms (write_at terms three 5 9) (7 ∷ 9 ∷ [])
write_at_example =
    write_at-IsLog terms three (7 ∷ 7 ∷ 8 ∷ []) 9 1 three-IsLog (omega arith) (omega arith)
