-- ===== src/Route.antt =====
-- Which members may serve a read (src/read_route_map.hpp): above the folded frontier the holders of
-- each dLSN, below it the byte ranges that each member is known to miss.
-- A holder bitset is the list of its first `n` bits. Each operation is one step: the mutexes make
-- the fold and `advance_synced` so, and a compare-exchange loop succeeds at its first attempt. The
-- arrays of the code have 16 entries, of which it uses the first `n`. An operation on an overlay
-- that no login has made does nothing here; the code has no such call.
pub mod Hint
pub mod Eligible
pub mod Synced
pub mod Tests
use craft_client.Prelude.{
  ℕ, zero, suc, ◌+◌, ◌-◌, ◌/◌, ◌%◌, ◌^◌, ◌<◌, Bool, true, false, not, ◌&&◌, ◌||◌, Option, none,
  some, List, [], ◌∷◌, ◌++◌, leb, ltb, ◌==◌, if◌then◌else◌, min, max, length, set, get_or,
  get_elem?, replicate,
}
use craft_client.Prelude.OrderedMap.{OrderedMap}
use craft_client.Types.{Lsn, no_lsn}
use craft_client.Stream.{StreamTracker}
use craft_client.Stream.Intervals.{IntervalMap, Segment}
use craft_client.Tracker.{k_trunc_batch}
use craft_client.Tracker.Plan.{add64, overlaps}

pub record RouteSlot : Type 0 where
  pub dlsn : Lsn
  pub addr : ℕ
  pub len : ℕ
  pub holders : List Bool
  pub completed : List Bool
  pub verdict : Bool

pub record PendingMiss : Type 0 where
  pub dlsn : Lsn
  pub held : List Bool
  pub addr : ℕ
  pub len : ℕ

pub record ReadRouteMap (W M : Type 0) : Type 0 where
  pub overlay : Option W
  pub miss : List M
  pub synced : List Lsn
  pub ka_inflight : List Bool
  pub rr_inflight : List Bool
  pub pending : List PendingMiss
  pub pending_hint : Lsn
  pub n : ℕ
  pub quorum : ℕ
  pub login_dlsn : Lsn
  pub all_committed : Lsn
  pub folded : Lsn
  pub last_trunc : Lsn

-- The largest `int64_t`.
abbrev pub k_never : Lsn
k_never = 2 ^ 63

abbrev pub k_unsynced : Lsn
k_unsynced = no_lsn

abbrev pub popcount : List Bool → ℕ
popcount [] = 0
popcount (b ∷ bs) = if b then suc (popcount bs) else popcount bs

-- The bitset is the mask of all members.
abbrev pub is_all : List Bool → Bool
is_all [] = true
is_all (b ∷ bs) = b && is_all bs

abbrev pub with_leg : ℕ → Bool → RouteSlot → RouteSlot
with_leg idx acked s = record s {
  holders = if acked then set s.holders idx true else s.holders;
  completed = set s.completed idx true;
}

abbrev pub with_verdict : ℕ → RouteSlot → RouteSlot
with_verdict leader_idx s = record s { holders = set s.holders leader_idx true; verdict = true }

abbrev pub miss_of : RouteSlot → PendingMiss
miss_of s = record { dlsn = s.dlsn; held = s.holders; addr = s.addr; len = s.len }

-- What the last completer of a slot hands to the fold, and what a verdict does.
abbrev pub completed_miss : ℕ → ℕ → Bool → Option RouteSlot → Option PendingMiss
completed_miss quorum idx acked none = none
completed_miss quorum idx acked (some s) =
    let s' = with_leg idx acked s in
    if is_all s'.completed && (leb quorum (popcount s'.holders) && not (is_all s'.holders))
    then some (miss_of s')
    else none

abbrev pub filled_miss : ℕ → Option RouteSlot → Option PendingMiss
filled_miss leader_idx none = none
filled_miss leader_idx (some s) =
    let s' = with_verdict leader_idx s in if is_all s'.holders then none else some (miss_of s')

abbrev pub push_pending : {W M : Type 0} → Option PendingMiss → ReadRouteMap W M → ReadRouteMap W M
push_pending none r = r
push_pending (some e) r = record r {
  pending = r.pending ++ e ∷ [];
  pending_hint = min r.pending_hint e.dlsn;
}

abbrev pub due : Lsn → List PendingMiss → List PendingMiss
due target [] = []
due target (e ∷ es) = if leb e.dlsn target then e ∷ due target es else due target es

abbrev pub kept : Lsn → List PendingMiss → List PendingMiss
kept target [] = []
kept target (e ∷ es) = if leb e.dlsn target then kept target es else e ∷ kept target es

abbrev pub lowest : List PendingMiss → Lsn
lowest [] = k_never
lowest (e ∷ es) = min (lowest es) e.dlsn

-- `std::sort` by dLSN.
abbrev pub insert_sorted : PendingMiss → List PendingMiss → List PendingMiss
insert_sorted e [] = e ∷ []
insert_sorted e (x ∷ xs) = if leb e.dlsn x.dlsn then e ∷ x ∷ xs else x ∷ insert_sorted e xs

abbrev pub sort : List PendingMiss → List PendingMiss
sort [] = []
sort (e ∷ es) = insert_sorted e (sort es)

abbrev pub minimum : Lsn → List Lsn → Lsn
minimum m [] = m
minimum m (c ∷ cs) = minimum (min m c) cs

-- The least commit lsn of the members.
abbrev pub floor_of : List Lsn → Lsn
floor_of [] = k_unsynced
floor_of (c ∷ cs) = minimum c cs

module _ (st : StreamTracker RouteSlot) (im : IntervalMap) where
  abbrev pub Router : Type 0
  Router = ReadRouteMap st.Tracker im.Intervals

  unfoldable pub reset : ℕ → Lsn → Router
  reset n login_dlsn = record {
    overlay = some (st.emplace login_dlsn);
    miss = replicate n im.clear;
    synced = replicate n k_unsynced;
    ka_inflight = replicate n false;
    rr_inflight = replicate n false;
    pending = [];
    pending_hint = k_never;
    n = n;
    quorum = n / 2 + 1;
    login_dlsn = login_dlsn;
    all_committed = k_unsynced;
    folded = login_dlsn;
    last_trunc = login_dlsn;
  }

  unfoldable pub create : Lsn → ℕ → ℕ → Router → Router
  create d addr len r =
      let s : RouteSlot = record {
        dlsn = d;
        addr = addr;
        len = len;
        holders = replicate r.n false;
        completed = replicate r.n false;
        verdict = false;
      } in
      record r { overlay = elim r.overlay [ none ↦ none | some w ↦ some (st.create d s w) ] }

  abbrev pub complete_in : Lsn → ℕ → Bool → st.Tracker → Router → Router
  complete_in d idx acked w r =
      push_pending (completed_miss r.quorum idx acked (st.slot w d)) (record r {
        overlay =
            some (
              st.update d (λ s. (with_leg idx acked s, is_all (with_leg idx acked s).completed)) w);
      })

  unfoldable pub record_completion : Lsn → ℕ → Bool → Router → Router
  record_completion d idx acked r = elim r.overlay [
    | none ↦ r
    | some w ↦ complete_in d idx acked w r
  ]

  abbrev pub fill_in : Lsn → ℕ → st.Tracker → Router → Router
  fill_in d leader_idx w r =
      push_pending (filled_miss leader_idx (st.slot w d))
        (record r { overlay = some (st.update d (λ s. (with_verdict leader_idx s, false)) w) })

  unfoldable pub note_filled : Lsn → ℕ → Router → Router
  note_filled d leader_idx r = elim r.overlay [ none ↦ r | some w ↦ fill_in d leader_idx w r ]

  -- One write on the maps of the members, which its bits go along with.
  abbrev pub apply_miss : PendingMiss → List Bool → List im.Intervals → List im.Intervals
  apply_miss e hs [] = []
  apply_miss e [] (m ∷ ms) = im.insert e.addr (add64 e.addr e.len) e.dlsn m ∷ apply_miss e [] ms
  apply_miss e (h ∷ hs) (m ∷ ms) =
      (if h
        then im.erase e.addr (add64 e.addr e.len) m
        else im.insert e.addr (add64 e.addr e.len) e.dlsn m)
      ∷ apply_miss e hs ms

  abbrev pub apply_batch : List PendingMiss → List im.Intervals → List im.Intervals
  apply_batch [] ms = ms
  apply_batch (e ∷ es) ms = apply_batch es (apply_miss e e.held ms)

  abbrev pub advance_folded : Lsn → Router → Router
  advance_folded target r = record r { folded = max r.folded target }

  abbrev pub maybe_truncate : Lsn → st.Tracker → Router → Router
  maybe_truncate target w r =
      if leb k_trunc_batch (target - r.last_trunc)
      then record r { last_trunc = target; overlay = some (st.truncate target w) }
      else r

  -- The path with the misses at or below the target.
  unfoldable pub fold_pending : Lsn → st.Tracker → Router → Router
  fold_pending target w r = maybe_truncate target w (
      advance_folded target (record r {
        pending = kept target r.pending;
        pending_hint = lowest (kept target r.pending);
        miss = apply_batch (sort (due target r.pending)) r.miss;
      }))

  abbrev pub target_of : Lsn → st.Tracker → Router → Lsn
  target_of f w r = min f (st.completed_upto w (r.folded + 1))

  abbrev pub fold_in : Lsn → st.Tracker → Router → Router
  fold_in f w r =
      if leb f r.folded || leb (target_of f w r) r.folded
      then r
      else (if ltb (target_of f w r) r.pending_hint
          then maybe_truncate (target_of f w r) w (advance_folded (target_of f w r) r)
          else fold_pending (target_of f w r) w r)

  unfoldable pub fold_to : Lsn → Router → Router
  fold_to f r = elim r.overlay [ none ↦ r | some w ↦ fold_in f w r ]

  abbrev pub durable : ℕ → RouteSlot → Bool
  durable quorum s = leb quorum (popcount s.holders) || s.verdict

  -- The scan of the overlay, in ascending order.
  unfoldable pub holds_all : ℕ → ℕ → ℕ → ℕ → Lsn → OrderedMap RouteSlot → Bool
  holds_all quorum idx addr len hmax [] = true
  holds_all quorum idx addr len hmax ((d, s) ∷ rest) = elim (ltb hmax d) [
    | true ↦ true
    | false ↦
        elim (durable quorum s
          && (overlaps addr len s.addr s.len && not (get_or s.holders idx false))) [
            | true ↦ false
            | false ↦ holds_all quorum idx addr len hmax rest
          ]
  ]

  abbrev pub misses : ℕ → ℕ → Option im.Intervals → Bool
  misses addr len none = false
  misses addr len (some m) = im.intersects m addr (add64 addr len)

  abbrev pub holds_above : ℕ → ℕ → ℕ → ℕ → Lsn → Lsn → Option st.Tracker → Bool
  holds_above quorum idx addr len folded hmax none = true
  holds_above quorum idx addr len folded hmax (some w) =
      holds_all quorum idx addr len hmax (st.active_from w (folded + 1))

  unfoldable pub eligible : ℕ → ℕ → ℕ → Lsn → Router → Bool
  eligible idx addr len hmax r =
      if ltb (get_or r.synced idx k_unsynced) r.login_dlsn || misses addr len (get_elem? r.miss idx)
      then false
      else holds_above r.quorum idx addr len r.folded hmax r.overlay

  -- The segments whose value is at or below `c` go.
  abbrev pub drop_upto : Lsn → List Segment → im.Intervals → im.Intervals
  drop_upto c [] m = m
  drop_upto c (s ∷ segs) m = drop_upto c segs (if leb s.val c then im.erase s.lo s.hi m else m)

  abbrev pub drop_at : Lsn → ℕ → List im.Intervals → List im.Intervals
  drop_at c idx [] = []
  drop_at c zero (m ∷ ms) = drop_upto c (im.segments m) m ∷ ms
  drop_at c (suc idx) (m ∷ ms) = m ∷ drop_at c idx ms

  unfoldable pub advance_synced : ℕ → Lsn → Router → Router
  advance_synced idx c r = if leb c (get_or r.synced idx k_unsynced) then r else record r {
    synced = set r.synced idx c;
    all_committed = floor_of (set r.synced idx c);
    miss = drop_at c idx r.miss;
  }

  unfoldable pub try_begin_keepalive : ℕ → Router → Bool × Router
  try_begin_keepalive idx r =
      (not (get_or r.ka_inflight idx false), record r { ka_inflight = set r.ka_inflight idx true })

  unfoldable pub end_keepalive : ℕ → Router → Router
  end_keepalive idx r = record r { ka_inflight = set r.ka_inflight idx false }

  unfoldable pub try_begin_resolution : ℕ → Router → Bool × Router
  try_begin_resolution idx r =
      (not (get_or r.rr_inflight idx false), record r { rr_inflight = set r.rr_inflight idx true })

  unfoldable pub end_resolution : ℕ → Router → Router
  end_resolution idx r = record r { rr_inflight = set r.rr_inflight idx false }

  unfoldable pub caught_up : ℕ → Router → Bool
  caught_up idx r =
      if ltb (get_or r.synced idx k_unsynced) r.login_dlsn
      then false
      else elim (get_elem? r.miss idx) [
        | none ↦ true
        | some m ↦ elim (im.segments m) [ [] ↦ true | s ∷ segs ↦ false ]
      ]
