-- ===== src/Tracker.antt =====
-- The client's dLSN bookkeeping (src/dlsn_tracker.hpp, src/dlsn_tracker.cpp): the dLSN counter, the
-- resolved frontier, the highest acked dLSN and the want watermark of resolution rounds.
-- The window is `sisl::StreamTracker`, taken by its interface. Each atomic operation is one step,
-- and a compare-exchange loop succeeds at its first attempt. The counters are biased, as `Lsn` is.
-- An operation on a window that no login has made does nothing here; the code has no such call.
pub mod Frontier
pub mod Resolve
pub mod Retire
pub mod Plan
pub mod Tests
use craft_client.Prelude.{◌/◌, not, get_elem?, get_or, length}
use craft_client.Prelude.{
  ℕ, zero, suc, ◌+◌, ◌-◌, ◌*◌, ◌<◌, Bool, true, false, ◌&&◌, ◌||◌, Option, none, some, List, [],
  ◌∷◌, ◌++◌, leb, ltb, ◌==◌, if◌then◌else◌, min, max, length,
}
use craft_client.Prelude.OrderedMap.{OrderedMap}
use craft_client.Types.{Lsn, no_lsn}
use craft_client.Stream.{StreamTracker}

pub data SlotOutcome : Type 0 where
  in_flight acked failed empty : SlotOutcome

unfoldable pub is_resolved : SlotOutcome → Bool
is_resolved in_flight = false
is_resolved acked = true
is_resolved failed = false
is_resolved empty = true

abbrev pub is_acked : SlotOutcome → Bool
is_acked in_flight = false
is_acked acked = true
is_acked failed = false
is_acked empty = false

pub record DlsnSlot : Type 0 where
  pub addr : ℕ
  pub len : ℕ
  pub outcome : SlotOutcome

abbrev pub k_trunc_batch : ℕ
k_trunc_batch = 512

abbrev pub k_scan_cap_floor : ℕ
k_scan_cap_floor = 1024

abbrev pub k_scan_cap_per_inflight : ℕ
k_scan_cap_per_inflight = 8

pub record DlsnTracker (W : Type 0) : Type 0 where
  pub next_dlsn : Lsn
  pub frontier : Lsn
  pub highest_acked : Lsn
  pub last_trunc : Lsn
  pub winner_scans : ℕ
  pub resolve_want : Lsn
  pub tracker : Option W
  pub lba_size : ℕ
  pub scan_cap : ℕ

pub record TrackerStats : Type 0 where
  pub frontier : Lsn
  pub highest_acked : Lsn
  pub issued : Lsn
  pub unresolved_count : ℕ
  pub unresolved_sample : List Lsn
  pub winner_scans : ℕ

unfoldable pub dlsn_tracker : {W : Type 0} → ℕ → DlsnTracker W
dlsn_tracker max_inflight = record {
  next_dlsn = 1;
  frontier = no_lsn;
  highest_acked = no_lsn;
  last_trunc = no_lsn;
  winner_scans = 0;
  resolve_want = no_lsn;
  tracker = none;
  lba_size = 0;
  scan_cap = max k_scan_cap_floor (k_scan_cap_per_inflight * max_inflight);
}

unfoldable pub read_horizon : {W : Type 0} → DlsnTracker W → Lsn
read_horizon t = max t.frontier t.highest_acked

unfoldable pub note_resolution_want : {W : Type 0} → Lsn → DlsnTracker W → DlsnTracker W
note_resolution_want upto t =
    if ltb t.resolve_want upto then record t { resolve_want = upto } else t

unfoldable pub resolution_want : {W : Type 0} → DlsnTracker W → Option Lsn
resolution_want t = if t.resolve_want == no_lsn then none else some t.resolve_want

unfoldable pub clear_resolution_want : {W : Type 0} → Lsn → DlsnTracker W → DlsnTracker W
clear_resolution_want resolved_upto t =
    if ltb no_lsn t.resolve_want && leb t.resolve_want resolved_upto
    then record t { resolve_want = no_lsn }
    else t

-- The callback of `update` in `resolve`: it asks for the completion bit of what is resolved.
abbrev pub take_outcome : SlotOutcome → DlsnSlot → DlsnSlot × Bool
take_outcome oc s =
    if is_resolved s.outcome then (s, true) else (record s { outcome = oc }, is_resolved oc)

-- Whether that callback takes the outcome.
abbrev pub applies : Option DlsnSlot → Bool
applies none = false
applies (some s) = if is_resolved s.outcome then false else true

-- What `foreach_all_active` reports first, when it stands at the index itself.
abbrev pub first_at : Lsn → OrderedMap DlsnSlot → Option DlsnSlot
first_at u [] = none
first_at u ((idx, s) ∷ rest) = if idx == u then some s else none

-- `std::lower_bound`: the search halves the `count` elements from `first` on, and `fuel` rounds
-- with count ≤ fuel are enough.
unfoldable pub lower_bound : ℕ → List Lsn → Lsn → ℕ → ℕ → ℕ
lower_bound zero xs d first count = first
lower_bound (suc fuel) xs d first count =
    let half = count / 2 in
    let right = lower_bound fuel xs d (first + half + 1) (count - half - 1) in
    let left = lower_bound fuel xs d first half in
    if count == 0 then first else if ltb (get_or xs (first + half) 0) d then right else left

abbrev pub found_at : Option Lsn → Lsn → Bool
found_at none d = false
found_at (some e) d = not (ltb d e)

-- `std::binary_search`, on any list: it finds for certain only in an ascending one.
unfoldable pub binary_search : List Lsn → Lsn → Bool
binary_search xs d = found_at (get_elem? xs (lower_bound (length xs) xs d 0 (length xs))) d

module _ (st : StreamTracker DlsnSlot) where
  unfoldable pub reset_at : Lsn → ℕ → DlsnTracker st.Tracker → DlsnTracker st.Tracker
  reset_at login_dlsn lba_size t = record t {
    lba_size = lba_size;
    next_dlsn = login_dlsn + 1;
    last_trunc = login_dlsn;
    frontier = login_dlsn;
    highest_acked = login_dlsn;
    resolve_want = no_lsn;
    tracker = some (st.emplace login_dlsn);
  }

  unfoldable pub reserve : ℕ → ℕ → DlsnTracker st.Tracker → Lsn × DlsnTracker st.Tracker
  reserve addr len t =
      let slot : DlsnSlot = record { addr = addr; len = len; outcome = in_flight } in
      (
        t.next_dlsn,
        record t {
          next_dlsn = t.next_dlsn + 1;
          tracker = elim t.tracker [ none ↦ none | some w ↦ some (st.create t.next_dlsn slot w) ];
        },
      )

  abbrev pub truncate_past : Lsn → st.Tracker → DlsnTracker st.Tracker → DlsnTracker st.Tracker
  truncate_past nf w t =
      if leb k_trunc_batch (nf - t.last_trunc)
      then record t { last_trunc = nf; tracker = some (st.truncate nf w) }
      else t

  abbrev pub advance_in : st.Tracker → DlsnTracker st.Tracker → DlsnTracker st.Tracker
  advance_in w t =
      let nf = min (st.completed_upto w (t.frontier + 1)) (t.next_dlsn - 1) in
      if leb nf t.frontier then t else truncate_past nf w (record t { frontier = nf })

  unfoldable pub advance_frontier : DlsnTracker st.Tracker → DlsnTracker st.Tracker
  advance_frontier t = elim t.tracker [ none ↦ t | some w ↦ advance_in w t ]

  abbrev pub raise_acked : Lsn → SlotOutcome → DlsnTracker st.Tracker → DlsnTracker st.Tracker
  raise_acked dlsn oc t = record t {
    highest_acked = if is_acked oc && ltb t.highest_acked dlsn then dlsn else t.highest_acked;
  }

  abbrev pub after_settle : SlotOutcome → DlsnTracker st.Tracker → DlsnTracker st.Tracker
  after_settle oc t = if is_resolved oc then advance_frontier t else t

  abbrev pub resolve_in :
      Lsn → SlotOutcome → st.Tracker → DlsnTracker st.Tracker → DlsnTracker st.Tracker
  resolve_in dlsn oc w t =
      let t' = record t { tracker = some (st.update dlsn (take_outcome oc) w) } in
      if applies (st.slot w dlsn) then after_settle oc (raise_acked dlsn oc t') else t'

  unfoldable pub resolve : Lsn → SlotOutcome → DlsnTracker st.Tracker → DlsnTracker st.Tracker
  resolve dlsn oc t = elim t.tracker [ none ↦ t | some w ↦ resolve_in dlsn oc w t ]

  -- The slot past the completed run at or above `h`, within `hi`.
  abbrev pub next_gap : st.Tracker → Lsn → Lsn → Lsn
  next_gap w h hi = min (st.completed_upto w h) hi + 1

  abbrev pub retire_slot :
      {R : Type 0}
      → List Lsn
      → (Lsn → R → R)
      → Lsn
      → st.Tracker
      → DlsnTracker st.Tracker
      → R
      → DlsnTracker st.Tracker × R
  retire_slot empties on_filled u w t r = elim (first_at u (st.active_from w u)) [
    | none ↦ (t, r)
    | some s ↦
        if binary_search empties u
        then (resolve u empty t, r)
        else (resolve u acked t, on_filled u r)
  ]

  -- Each round moves past one slot, so `hi - frontier` rounds are enough.
  unfoldable pub retire_rounds :
      {R : Type 0}
      → ℕ
      → Lsn
      → List Lsn
      → (Lsn → R → R)
      → Lsn
      → DlsnTracker st.Tracker
      → R
      → DlsnTracker st.Tracker × R
  retire_rounds zero hi empties on_filled h t r = (t, r)
  retire_rounds (suc n) hi empties on_filled h t r = elim t.tracker [
    | none ↦ (t, r)
    | some w ↦
        let u = next_gap w h hi in
        elim (ltb hi h || ltb hi u) [
          | true ↦ (t, r)
          | false ↦
              let p = retire_slot empties on_filled u w t r in
              retire_rounds n hi empties on_filled (u + 1) p.0 p.1
        ]
  ]

  unfoldable pub retire_upto :
      {R : Type 0}
      → Lsn
      → List Lsn
      → (Lsn → R → R)
      → DlsnTracker st.Tracker
      → R
      → DlsnTracker st.Tracker × R
  retire_upto upto empties on_filled t r =
      let hi = min upto (t.next_dlsn - 1) in
      retire_rounds (hi - t.frontier) hi empties on_filled (t.frontier + 1) t r

  unfoldable pub stats_rounds : ℕ → st.Tracker → ℕ → Lsn → TrackerStats → TrackerStats
  stats_rounds zero w sample_limit h s = s
  stats_rounds (suc n) w sample_limit h s =
      let u = next_gap w h s.issued in
      elim (ltb s.issued h || ltb s.issued u) [
        | true ↦ s
        | false ↦ stats_rounds n w sample_limit (u + 1) (record s {
          unresolved_count = s.unresolved_count + 1;
          unresolved_sample =
              if ltb (length s.unresolved_sample) sample_limit
              then s.unresolved_sample ++ u ∷ []
              else s.unresolved_sample;
        })
      ]

  unfoldable pub stats : ℕ → DlsnTracker st.Tracker → TrackerStats
  stats sample_limit t =
      let s : TrackerStats = record {
        frontier = t.frontier;
        highest_acked = t.highest_acked;
        issued = no_lsn;
        unresolved_count = 0;
        unresolved_sample = [];
        winner_scans = t.winner_scans;
      } in
      elim t.tracker [
        | none ↦ s
        | some w ↦
            let issued = t.next_dlsn - 1 in
            stats_rounds (issued - t.frontier) w sample_limit (t.frontier + 1)
              (record s { issued = issued })
      ]
