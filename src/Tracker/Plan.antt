-- ===== src/Tracker/Plan.antt =====
-- How the client may read a range (`dlsn_tracker::compute`, `split` and `plan_read`): the horizon of
-- each block ducks under the lowest unresolved write above the last durable one.
-- `uint64_t` sums and differences wrap. The wait of a stalled plan is its caller's: `plan_read` here
-- returns `stalled`, and is run again after the next resolve.
pub mod Segments
pub mod Gaps
pub mod Winner
pub mod Horizons
pub mod Reads
use craft_client.Prelude.{
  ℕ, zero, suc, ◌+◌, ◌-◌, ◌*◌, ◌/◌, ◌%◌, ◌^◌, ◌<◌, Bool, true, false, not, ◌&&◌, ◌||◌, Option, none,
  some, List, [], ◌∷◌, ◌++◌, leb, ltb, ◌==◌, if◌then◌else◌, min, max, length, map, replicate,
}
use craft_client.Prelude.OrderedMap.{OrderedMap}
use craft_client.Types.{Lsn, no_lsn}
use craft_client.Stream.{StreamTracker}
use craft_client.Tracker.{DlsnSlot, DlsnTracker, SlotOutcome, is_acked, first_at}

abbrev pub k_max_blocks : ℕ
k_max_blocks = 4096

abbrev pub k_max_segments : ℕ
k_max_segments = 8

unfoldable pub add64 : ℕ → ℕ → ℕ
add64 a b = (a + b) % 2 ^ 64

unfoldable pub sub64 : ℕ → ℕ → ℕ
sub64 a b = (a + 2 ^ 64 - b) % 2 ^ 64

unfoldable pub overlaps : ℕ → ℕ → ℕ → ℕ → Bool
overlaps a_off a_len b_off b_len = ltb a_off (add64 b_off b_len) && ltb b_off (add64 a_off a_len)

pub record ReadSegment : Type 0 where
  pub addr : ℕ
  pub len : ℕ
  pub horizon : Lsn

pub record PlanOutcome : Type 0 where
  pub segs : List ReadSegment
  pub failed : Bool

abbrev pub is_empty {ℓ} : {A : Type ℓ} → List A → Bool
is_empty [] = true
is_empty (x ∷ xs) = false

unfoldable pub stall : PlanOutcome → Bool
stall p = is_empty p.segs && not p.failed

unfoldable pub degraded : PlanOutcome → Bool
degraded p = is_empty p.segs && p.failed

unfoldable pub fenced : Bool → PlanOutcome
fenced any_failed = record { segs = []; failed = any_failed }

unfoldable pub one_segment : ℕ → ℕ → Lsn → PlanOutcome
one_segment addr len h = record {
  segs = record { addr = addr; len = len; horizon = h } ∷ [];
  failed = false;
}

-- What the gap scan has found: `umin`, `any_failed` and `any_gap`.
pub record Scan : Type 0 where
  pub umin : Lsn
  pub any_failed : Bool
  pub any_gap : Bool

abbrev pub is_failed : SlotOutcome → Bool
is_failed SlotOutcome.failed = true
is_failed SlotOutcome.in_flight = false
is_failed SlotOutcome.acked = false
is_failed SlotOutcome.empty = false

-- One unresolved dLSN: the slot is none where its `create` is not visible yet.
unfoldable pub note_gap : ℕ → ℕ → Lsn → Option DlsnSlot → Scan → Scan
note_gap addr len u none s = record {
  umin = if s.umin == no_lsn then u else s.umin;
  any_failed = s.any_failed;
  any_gap = true;
}
note_gap addr len u (some sv) s =
    if overlaps addr len sv.addr sv.len
    then record {
      umin = if s.umin == no_lsn then u else s.umin;
      any_failed = is_failed sv.outcome || s.any_failed;
      any_gap = s.any_gap;
    }
    else s

-- The blocks `b` to `b + length us - 1`, of which the slot `idx` covers `b0` to `b1`.
unfoldable pub mark_blocks : Bool → Lsn → ℕ → ℕ → ℕ → List Lsn → List Lsn
mark_blocks acked idx b0 b1 b [] = []
mark_blocks acked idx b0 b1 b (u ∷ us) =
    (if leb b0 b && leb b b1
      then (if acked then no_lsn else (if u == no_lsn then idx else u))
      else u)
    ∷ mark_blocks acked idx b0 b1 (b + 1) us

abbrev pub is_empty_slot : SlotOutcome → Bool
is_empty_slot SlotOutcome.empty = true
is_empty_slot SlotOutcome.in_flight = false
is_empty_slot SlotOutcome.acked = false
is_empty_slot SlotOutcome.failed = false

-- The visit of one slot in the winner pass.
unfoldable pub visit : ℕ → ℕ → ℕ → Lsn → DlsnSlot → List Lsn → List Lsn
visit addr len lba_size idx sv ustar =
    if is_empty_slot sv.outcome || not (overlaps addr len sv.addr sv.len)
    then ustar
    else (let lo = max addr sv.addr in
        let hi = min (add64 addr len) (add64 sv.addr sv.len) in
        let b0 = sub64 lo addr / lba_size in
        let b1 = min (length ustar - 1) (sub64 (sub64 hi 1) addr / lba_size) in
        mark_blocks (is_acked sv.outcome) idx b0 b1 0 ustar)

-- `foreach_all_active` stops at the first slot past `ha`.
unfoldable pub winner_pass : ℕ → ℕ → ℕ → Lsn → OrderedMap DlsnSlot → List Lsn → List Lsn
winner_pass addr len lba_size ha [] ustar = ustar
winner_pass addr len lba_size ha ((idx, s) ∷ rest) ustar = elim (ltb ha idx) [
  | true ↦ ustar
  | false ↦ winner_pass addr len lba_size ha rest (visit addr len lba_size idx s ustar)
]

abbrev pub horizon_of : Lsn → Lsn → Lsn
horizon_of ha u = if u == no_lsn then ha else u - 1

-- The segment of the blocks from `seg_start` to `b`.
abbrev pub segment : ℕ → ℕ → ℕ → ℕ → Lsn → ReadSegment
segment addr lba_size seg_start b cur = record {
  addr = add64 addr (seg_start * lba_size);
  len = (b - seg_start) * lba_size;
  horizon = cur;
}

-- The loop over the horizons of the blocks from `b` on; none where the segments are too many.
unfoldable pub cut : ℕ → ℕ → ℕ → ℕ → Lsn → List Lsn → List ReadSegment → Option (List ReadSegment)
cut addr lba_size seg_start b cur [] segs =
    if length segs == k_max_segments
    then none
    else some (segs ++ segment addr lba_size seg_start b cur ∷ [])
cut addr lba_size seg_start b cur (h ∷ hs) segs = elim (h == cur) [
  | true ↦ cut addr lba_size seg_start (b + 1) cur hs segs
  | false ↦ elim (length segs == k_max_segments) [
    | true ↦ none
    | false ↦ cut addr lba_size b (b + 1) h hs (segs ++ segment addr lba_size seg_start b cur ∷ [])
  ]
]

unfoldable pub cut_all : ℕ → ℕ → List Lsn → Option (List ReadSegment)
cut_all addr lba_size [] = none
cut_all addr lba_size (h ∷ hs) = cut addr lba_size 0 1 h hs []

module _ (st : StreamTracker DlsnSlot) where
  -- Each round moves past one dLSN, so `ha - frontier` rounds are enough.
  unfoldable pub scan_gaps : ℕ → st.Tracker → ℕ → ℕ → Lsn → Lsn → Scan → Scan
  scan_gaps zero w addr len ha h s = s
  scan_gaps (suc n) w addr len ha h s =
      let u = st.completed_upto w h + 1 in
      elim (ltb ha h || ltb ha u || ltb u h) [
        | true ↦ s
        | false ↦
            scan_gaps n w addr len ha (u + 1)
              (note_gap addr len u (first_at u (st.active_from w u)) s)
      ]

  -- The plan that the winner pass leads to.
  abbrev pub split_blocks : st.Tracker → ℕ → ℕ → ℕ → Lsn → Lsn → Bool → ℕ → PlanOutcome
  split_blocks w lba_size addr len ha umin any_failed nblk =
      if nblk == 0 || ltb k_max_blocks nblk
      then fenced any_failed
      else (let ustar =
            winner_pass addr len lba_size ha (st.active_from w umin) (replicate nblk no_lsn) in
          elim (cut_all addr lba_size (map (horizon_of ha) ustar)) [
            | none ↦ fenced any_failed
            | some segs ↦ record { segs = segs; failed = false }
          ])

  unfoldable pub split : st.Tracker → ℕ → ℕ → ℕ → Lsn → Lsn → Bool → PlanOutcome
  split w lba_size addr len ha umin any_failed =
      split_blocks w lba_size addr len ha umin any_failed
        (if lba_size == 0 then 0 else len / lba_size)

  abbrev pub plan_scanned :
      st.Tracker → ℕ → ℕ → Scan → DlsnTracker st.Tracker → PlanOutcome × DlsnTracker st.Tracker
  plan_scanned w addr len s t =
      if s.umin == no_lsn
      then (one_segment addr len t.highest_acked, t)
      else (if s.any_gap || ltb t.scan_cap (t.highest_acked - s.umin)
          then (fenced s.any_failed, t)
          else (
            split w t.lba_size addr len t.highest_acked s.umin s.any_failed,
            record t { winner_scans = t.winner_scans + 1 },
          ))

  abbrev pub scan : st.Tracker → ℕ → ℕ → DlsnTracker st.Tracker → Scan
  scan w addr len t =
      scan_gaps (t.highest_acked - t.frontier) w addr len t.highest_acked (t.frontier + 1)
        (record { umin = no_lsn; any_failed = false; any_gap = false })

  abbrev pub compute_in :
      ℕ → ℕ → st.Tracker → DlsnTracker st.Tracker → PlanOutcome × DlsnTracker st.Tracker
  compute_in addr len w t =
      if leb t.highest_acked t.frontier
      then (one_segment addr len (max t.frontier t.highest_acked), t)
      else plan_scanned w addr len (scan w addr len t) t

  -- Before a login there is no window, and the two watermarks are equal.
  unfoldable pub compute : ℕ → ℕ → DlsnTracker st.Tracker → PlanOutcome × DlsnTracker st.Tracker
  compute addr len t = elim t.tracker [
    | none ↦ (one_segment addr len (max t.frontier t.highest_acked), t)
    | some w ↦ compute_in addr len w t
  ]

  -- `plan_read` up to its wait: a plan, the error of a degraded range, or a stall.
  pub data PlanRead : Type 0 where
    planned : List ReadSegment → PlanRead
    no_quorum stalled : PlanRead

  unfoldable pub plan_read : ℕ → ℕ → DlsnTracker st.Tracker → PlanRead × DlsnTracker st.Tracker
  plan_read addr len t =
      let p = compute addr len t in
      if stall p.0
      then (stalled, p.1)
      else (if degraded p.0 then (no_quorum, p.1) else (planned p.0.segs, p.1))
