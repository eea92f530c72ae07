-- ===== src/Tracker/Tests.antt =====
-- The dLSN tracker on concrete sessions, over the window of `Stream.Window`.
use craft_client.Prelude.{
  ◌*◌, ◌/◌, ◌≤◌, ◌<◌, ◌≡◌, ◌⊎◌, refl, subst, true, false, none, some, List, [], ◌∷◌, arith, length,
  get_or,
}
use craft_client.Types.{Lsn, no_lsn}
use craft_client.Stream.{StreamTracker}
use craft_client.Stream.Window.{Window, window, slot_at, empty_window}
use craft_client.Tracker.{binary_search, lower_bound}
use craft_client.Tracker.{
  DlsnSlot, DlsnTracker, SlotOutcome, is_resolved, dlsn_tracker, reset_at, reserve, resolve,
  advance_frontier, retire_upto, retire_rounds, stats, stats_rounds,
}
use craft_client.Tracker.Frontier.{Holds, IsValid, reset_at-IsValid, reserve-IsValid, resolved_at}
use craft_client.Tracker.Resolve.{resolve-IsValid, resolve-frontier}
use craft_client.Tracker.Retire.{retire_upto-clears, open_at}
use craft_client.Tracker.Plan.{
  compute, ReadSegment, note_gap, scan_gaps, split, winner_pass, visit, mark_blocks, cut, cut_all,
  overlaps, add64, sub64, fenced, one_segment, k_max_segments,
}
use craft_client.Tracker.Plan.Segments.{Tiles}
use craft_client.Tracker.Plan.Winner.{acked_on, is_on}
use craft_client.Tracker.Plan.Winner.Blocks.{Blocks}
use craft_client.Tracker.Plan.Horizons.{WholeBlocks, horizons, horizon-sees}
use craft_client.Tracker.Plan.Reads.{compute-safe}

abbrev st : StreamTracker DlsnSlot
st = window

abbrev Session : Type 0
Session = DlsnTracker (Window DlsnSlot)

-- Blocks of 8 bytes. The first write takes blocks 0 and 1 and fails, the second takes block 1 and
-- is acked; the third, on block 0, is in flight.
abbrev fresh_session : Session
fresh_session = reset_at st 0 8 (dlsn_tracker 4)

abbrev three_issued : Session
three_issued = (reserve st 0 8 (reserve st 8 8 (reserve st 0 16 fresh_session).1).1).1

abbrev one_failed : Session
one_failed = resolve st 1 SlotOutcome.failed three_issued

abbrev one_acked : Session
one_acked = resolve st 2 SlotOutcome.acked one_failed

abbrev window_of : Session → Window DlsnSlot
window_of t = elim t.tracker [ none ↦ empty_window | some w ↦ w ]

three_issued-IsValid : IsValid st three_issued
three_issued-IsValid = reserve-IsValid st 0 8 _ (
    reserve-IsValid st 8 8 _ (reserve-IsValid st 0 16 _ (reset_at-IsValid st 0 8 (dlsn_tracker 4))))

one_acked-IsValid : IsValid st one_acked
one_acked-IsValid =
    resolve-IsValid st 2 SlotOutcome.acked one_failed
      (resolve-IsValid st 1 SlotOutcome.failed three_issued three_issued-IsValid)

in_window : (w : Window DlsnSlot) (t : Session) → IsValid st t → t.tracker ≡ some w → Holds st w t
in_window w t (v, h) e = let same : v ≡ w = cc (h.0.session, e) in subst (λ x. Holds st x t) same h

one_acked_counts : stats st 8 one_acked ≡ record {
  frontier = 0;
  highest_acked = 2;
  issued = 3;
  unresolved_count = 2;
  unresolved_sample = 1 ∷ 3 ∷ [];
  winner_scans = 0;
}
unfolding stats stats_rounds resolve reserve reset_at dlsn_tracker advance_frontier is_resolved
one_acked_counts = refl

abbrev two_segments : List ReadSegment
two_segments =
    record { addr = 0; len = 8; horizon = 0 } ∷ record { addr = 8; len = 8; horizon = 2 } ∷ []

one_acked_plan : (compute st 0 16 one_acked).0.segs ≡ two_segments
unfolding compute scan_gaps note_gap split winner_pass visit mark_blocks cut cut_all overlaps add64
    sub64 fenced one_segment resolve reserve reset_at dlsn_tracker advance_frontier is_resolved
one_acked_plan = refl

one_acked_window : one_acked.tracker ≡ some (window_of one_acked)
unfolding resolve reserve reset_at dlsn_tracker advance_frontier is_resolved
one_acked_window = refl

one_acked-Holds : Holds st (window_of one_acked) one_acked
one_acked-Holds = in_window (window_of one_acked) one_acked one_acked-IsValid one_acked_window

slot_1 :
    slot_at (window_of one_acked) 1
    ≡ some (record { addr = 0; len = 16; outcome = SlotOutcome.failed })
unfolding resolve reserve reset_at dlsn_tracker advance_frontier is_resolved
slot_1 = refl

slot_2 :
    slot_at (window_of one_acked) 2
    ≡ some (record { addr = 8; len = 8; outcome = SlotOutcome.acked })
unfolding resolve reserve reset_at dlsn_tracker advance_frontier is_resolved
slot_2 = refl

one_acked-WholeBlocks : WholeBlocks 8 (slot_at (window_of one_acked))
unfolding resolve reserve reset_at dlsn_tracker advance_frontier is_resolved
one_acked-WholeBlocks j s e = (
  s.addr / 8,
  s.len / 8,
  record { starts = ground arith; spans = ground arith; fits = ground arith },
)

counters : (one_acked.frontier ≡ 0) × (one_acked.highest_acked ≡ 2) × (one_acked.lba_size ≡ 8)
unfolding resolve reserve reset_at dlsn_tracker advance_frontier is_resolved
counters = (refl, refl, refl)

resolve-IsValid_example : IsValid st one_failed
resolve-IsValid_example = resolve-IsValid st 1 SlotOutcome.failed three_issued three_issued-IsValid

resolved_2 : resolved_at (slot_at (window_of one_acked) 2) ≡ true
unfolding resolve reserve reset_at dlsn_tracker advance_frontier is_resolved
resolved_2 = refl

passes_1 : 1 ≤ (resolve st 1 SlotOutcome.empty one_acked).frontier
unfolding resolve reserve reset_at dlsn_tracker advance_frontier is_resolved
passes_1 = omega arith

resolve-frontier_example :
    (one_acked.frontier ≤ (resolve st 1 SlotOutcome.empty one_acked).frontier)
    × ((j : Lsn)
        → one_acked.frontier < j
        → j ≤ (resolve st 1 SlotOutcome.empty one_acked).frontier
        → (resolved_at (slot_at (window_of one_acked) j) ≡ true)
          ⊎ ((1 ≡ j) × (is_resolved SlotOutcome.empty ≡ true)))
resolve-frontier_example =
    resolve-frontier st 1 SlotOutcome.empty one_acked (window_of one_acked) one_acked-Holds

retire_upto-clears_example :
    (w : Window DlsnSlot) × Holds st w
      (retire_upto st 3 (1 ∷ []) (λ d (l : List Lsn). d ∷ l) one_acked []).0
    × ((j : Lsn)
        → (retire_upto st 3 (1 ∷ []) (λ d (l : List Lsn). d ∷ l) one_acked []).0.frontier < j
        → j ≤ 3
        → j < one_acked.next_dlsn
        → open_at (slot_at w j) ≡ false)
retire_upto-clears_example =
    retire_upto-clears st 3 (1 ∷ []) (λ d (l : List Lsn). d ∷ l) one_acked [] one_acked-IsValid

all_retired :
    (let p = retire_upto st 3 (1 ∷ []) (λ d (l : List Lsn). d ∷ l) one_acked [] in
      (p.0.frontier ≡ 3) × (p.1 ≡ 3 ∷ []))
unfolding retire_upto retire_rounds resolve reserve reset_at dlsn_tracker advance_frontier
    is_resolved binary_search lower_bound
all_retired = (refl, refl)

read_blocks : Blocks 8 0 2 0 16
read_blocks = record { starts = refl; spans = refl; fits = omega arith }

horizon-sees_example : 2 ≤ get_or (horizons st (window_of one_acked) 8 0 16 2 2 1) 1 no_lsn
unfolding is_on
horizon-sees_example =
    horizon-sees st (window_of one_acked) 8 0 16 0 2 2 1 1 2
      (record { addr = 8; len = 8; outcome = SlotOutcome.acked }) (omega arith) read_blocks
      (omega arith) one_acked-WholeBlocks (omega arith) (omega arith) slot_2 refl

compute-safe_example :
    (hs : List Lsn) × Tiles 0 8 0 two_segments hs
    × (length two_segments ≤ k_max_segments)
    × (length hs ≡ 2)
    × ((get_or hs 1 no_lsn < 1)
        ⊎ ((i : Lsn) × (u : DlsnSlot) × (slot_at (window_of one_acked) i ≡ some u)
            × (1 < i)
            × (i ≤ get_or hs 1 no_lsn)
            × (acked_on (1 * 8) u ≡ true)))
unfolding is_on resolve reserve reset_at dlsn_tracker advance_frontier is_resolved
compute-safe_example =
    compute-safe st (window_of one_acked) one_acked 0 16 0 2 1 1
      (record { addr = 0; len = 16; outcome = SlotOutcome.failed })
      (record { addr = 0; len = 8; horizon = 0 }) (record { addr = 8; len = 8; horizon = 2 } ∷ [])
      one_acked-Holds.0 (omega arith) read_blocks one_acked-WholeBlocks (omega arith) (omega arith)
      (omega arith) slot_1 refl one_acked_plan
