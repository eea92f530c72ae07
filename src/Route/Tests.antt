-- ===== src/Route/Tests.antt =====
-- The read router on a concrete session of three members.
use craft_client.Prelude.{ℕ, ◌≤◌, ◌<◌, ◌≡◌, ◌↔◌, refl, true, false, none, some, get_or, get_elem?}
use craft_client.Types.{Lsn}
use craft_client.Stream.{StreamTracker}
use craft_client.Stream.Window.{Window, window, slot_at, empty_window}
use craft_client.Stream.Intervals.{in_interval}
use craft_client.Stream.Intervals.Bytes.{Bytes, bytes, cell_at, no_bytes}
use craft_client.Tracker.Plan.{add64}
use craft_client.Route.{
  RouteSlot, ReadRouteMap, reset, create, record_completion, fold_to, fold_pending, eligible,
  holds_all, advance_synced, k_unsynced,
}
use craft_client.Route.Hint.{Hinted, SameButHint, hint_kept, fold_always, fold_to-fold_always}
use craft_client.Route.Eligible.{lacks, eligible_iff}

abbrev st : StreamTracker RouteSlot
st = window

abbrev Session : Type 0
Session = ReadRouteMap (Window RouteSlot) Bytes

-- Member 2 times out on the first write, which members 0 and 1 hold.
abbrev one_written : Session
one_written = record_completion st bytes 1 2 false (
    record_completion st bytes 1 1 true
      (record_completion st bytes 1 0 true (create st bytes 1 0 8 (reset st bytes 3 0))))

abbrev one_folded : Session
one_folded = fold_to st bytes 1 one_written

abbrev all_current : Session
all_current = advance_synced st bytes 0 1 (advance_synced st bytes 1 1 one_folded)

abbrev map_of : ℕ → Session → Bytes
map_of idx r = elim (get_elem? r.miss idx) [ none ↦ no_bytes | some m ↦ m ]

abbrev window_of : Session → Window RouteSlot
window_of r = elim r.overlay [ none ↦ empty_window | some w ↦ w ]

-- The member that missed the write serves other blocks only.
routes :
    (eligible st bytes 0 0 8 1 all_current ≡ true)
    × (eligible st bytes 2 0 8 1 all_current ≡ false)
    × (eligible st bytes 2 8 8 1 all_current ≡ true)
    × (all_current.all_committed ≡ 0)
unfolding eligible advance_synced fold_to fold_pending record_completion create reset holds_all
    add64
routes = (refl, refl, refl, refl)

overlay_there : all_current.overlay ≡ some (window_of all_current)
unfolding advance_synced fold_to fold_pending record_completion create reset
overlay_there = refl

map_there : get_elem? all_current.miss 2 ≡ some (map_of 2 all_current)
unfolding advance_synced fold_to fold_pending record_completion create reset
map_there = refl

eligible_iff_example : (eligible st bytes 2 8 8 1 all_current ≡ true) ↔ (
    (all_current.login_dlsn ≤ get_or all_current.synced 2 k_unsynced)
    × ((x : ℕ) → in_interval 8 (add64 8 8) x ≡ true → cell_at (map_of 2 all_current) x ≡ none)
    × ((d : Lsn) (s : RouteSlot)
        → all_current.folded < d
        → d ≤ 1
        → slot_at (window_of all_current) d ≡ some s
        → lacks all_current.quorum 2 8 8 s ≡ false))
eligible_iff_example =
    eligible_iff st bytes all_current (window_of all_current) (map_of 2 all_current) 2 8 8 1
      overlay_there map_there

fresh-Hinted : Hinted (create st bytes 1 0 8 (reset st bytes 3 0))
unfolding create reset
fresh-Hinted = tt

one_written-Hinted : Hinted one_written
one_written-Hinted =
    (hint_kept st bytes
      (record_completion st bytes 1 1 true
        (record_completion st bytes 1 0 true (create st bytes 1 0 8 (reset st bytes 3 0))))
      1 2 false 1
      (hint_kept st bytes
        (record_completion st bytes 1 0 true (create st bytes 1 0 8 (reset st bytes 3 0))) 1 1 true
        1
        (hint_kept st bytes (create st bytes 1 0 8 (reset st bytes 3 0)) 1 0 true 1
          fresh-Hinted).0).0).0

fold_to-fold_always_example :
    SameButHint st bytes (fold_to st bytes 1 one_written) (fold_always st bytes 1 one_written)
fold_to-fold_always_example = fold_to-fold_always st bytes 1 one_written one_written-Hinted

folded_map : get_elem? one_folded.miss 2 ≡ some (map_of 2 one_folded)
unfolding fold_to fold_pending record_completion create reset
folded_map = refl
