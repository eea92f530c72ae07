-- ===== src/Route/Eligible.antt =====
-- Which members may serve a read: `eligible` against its specification.
use craft_client.Prelude.{
  ℕ, ◌+◌, ◌≤◌, ◌<◌, ◌≡◌, ◌↔◌, refl, sym, ap, ◌∙◌, Bool, true, false, not, ◌&&◌, ◌||◌, none, some,
  [], ◌∷◌, leb, ltb, ◌==◌, if◌then◌else◌, arith, inl, inr, Bool-cases, get_or, get_elem?,
}
use craft_client.Prelude.OrderedMap.{OrderedMap, find, Above, find-Above}
use craft_client.Types.{Lsn}
use craft_client.Stream.{StreamTracker}
use craft_client.Stream.Intervals.{IntervalMap, in_interval}
use craft_client.Tracker.Plan.{add64, overlaps}
use craft_client.Route.{
  RouteSlot, Router, holds_all, misses, holds_above, popcount, eligible, k_unsynced,
}

-- A durable write in range that overlaps the read and that the member does not hold.
abbrev pub lacks : ℕ → ℕ → ℕ → ℕ → RouteSlot → Bool
lacks quorum idx addr len s =
    (leb quorum (popcount s.holders) || s.verdict)
    && (overlaps addr len s.addr s.len && not (get_or s.holders idx false))

three_parts :
    (a b c : Bool) → (if a || b then false else c) ≡ true → (a ≡ false) × (b ≡ false) × (c ≡ true)
three_parts true b c e = cc e
three_parts false true c e = cc e
three_parts false false c e = (refl, refl, e)

module _ (st : StreamTracker RouteSlot) (im : IntervalMap) where
  holds_all_yes :
      (quorum idx addr len : ℕ) (hmax lo : Lsn) (m : OrderedMap RouteSlot) (d : Lsn) (s : RouteSlot)
      → Above lo m
      → holds_all st im quorum idx addr len hmax m ≡ true
      → find d m ≡ some s
      → d ≤ hmax
      → lacks quorum idx addr len s ≡ false
  unfolding holds_all
  holds_all_yes quorum idx addr len hmax lo [] d s ab h e le = cc
  holds_all_yes quorum idx addr len hmax lo ((i, x) ∷ m) d s ab h e le =
      elim (Bool-cases (ltb hmax i)) [
        | inl past ↦ absurd (ground (arith, find-Above i d m))
        | inr in_range ↦ elim (Bool-cases (lacks quorum idx addr len x)) [
          | inl bad ↦ cc (in_range, bad, h)
          | inr good ↦ elim (Bool-cases (i == d)) [
            | inl here ↦
                (let same : x ≡ s = ground arith in
                  ap (lacks quorum idx addr len) (sym same) ∙ good)
            | inr there ↦
                holds_all_yes quorum idx addr len hmax i m d s ab.1
                  (rw (in_range, good, holds_all) at h) (ground arith) le
          ]
        ]
      ]

  holds_all_no :
      (quorum idx addr len : ℕ) (hmax lo : Lsn) (m : OrderedMap RouteSlot)
      → Above lo m
      → holds_all st im quorum idx addr len hmax m ≡ false
      → (d : Lsn) × (s : RouteSlot) × (find d m ≡ some s)
        × (d ≤ hmax)
        × (lacks quorum idx addr len s ≡ true)
  unfolding holds_all
  holds_all_no quorum idx addr len hmax lo [] ab h = cc
  holds_all_no quorum idx addr len hmax lo ((i, x) ∷ m) ab h = elim (Bool-cases (ltb hmax i)) [
    | inl past ↦ cc (past, h)
    | inr in_range ↦ elim (Bool-cases (lacks quorum idx addr len x)) [
      | inl bad ↦ (i, x, ground arith, ground arith, bad)
      | inr good ↦
          let r =
            holds_all_no quorum idx addr len hmax i m ab.1 (rw (in_range, good, holds_all) at h) in
          (r.0, r.1, ground (arith, r.2, find-Above i r.0 m), r.3, r.4)
    ]
  ]

  eligible_eq :
      (r : Router st im) (w : st.Tracker) (m : im.Intervals) (idx addr len : ℕ) (hmax : Lsn)
      → r.overlay ≡ some w
      → get_elem? r.miss idx ≡ some m
      → eligible st im idx addr len hmax r ≡ (
          if ltb (get_or r.synced idx k_unsynced) r.login_dlsn
            || im.intersects m addr (add64 addr len)
          then false
          else holds_all st im r.quorum idx addr len hmax (st.active_from w (r.folded + 1)))
  unfolding eligible
  eligible_eq r w m idx addr len hmax e em =
      let behind = ltb (get_or r.synced idx k_unsynced) r.login_dlsn in
      ap
        (λ o.
          if behind || misses st im addr len o
          then false
          else holds_above st im r.quorum idx addr len r.folded hmax r.overlay)
        em
      ∙ ap
          (λ o.
            if behind || im.intersects m addr (add64 addr len)
            then false
            else holds_above st im r.quorum idx addr len r.folded hmax o)
          e

  -- A member serves a read exactly when its commit lsn has reached the login's, it is known to miss
  -- no byte of the range, and it holds every durable write on the range above the folded frontier
  -- and up to the horizon. Durable is a write that a quorum holds or that a resolution round
  -- has filled.
  pub eligible_iff :
      (r : Router st im) (w : st.Tracker) (m : im.Intervals) (idx addr len : ℕ) (hmax : Lsn)
      → r.overlay ≡ some w
      → get_elem? r.miss idx ≡ some m
      → (eligible st im idx addr len hmax r ≡ true) ↔ (
          (r.login_dlsn ≤ get_or r.synced idx k_unsynced)
          × ((x : ℕ) → in_interval addr (add64 addr len) x ≡ true → im.at m x ≡ none)
          × ((d : Lsn) (s : RouteSlot)
              → r.folded < d
              → d ≤ hmax
              → st.slot w d ≡ some s
              → lacks r.quorum idx addr len s ≡ false))
  eligible_iff r w m idx addr len hmax e em =
      let at = eligible_eq r w m idx addr len hmax e em in
      let scan = st.active_from w (r.folded + 1) in
      let asc = st.active_Above w (r.folded + 1) r.folded (omega arith) in
      let behind = ltb (get_or r.synced idx k_unsynced) r.login_dlsn in
      let hit = im.intersects m addr (add64 addr len) in
      let kept = holds_all st im r.quorum idx addr len hmax scan in
      (
        λ yes_e.
            let parts : (behind ≡ false) × (hit ≡ false) × (kept ≡ true) =
              three_parts behind hit kept (sym at ∙ yes_e) in
            (
              ground (arith, parts.0),
              λ x in_range. im.intersects_none m addr (add64 addr len) x (parts.1) in_range,
              λ d s above le is.
                  holds_all_yes r.quorum idx addr len hmax r.folded scan d s asc (parts.2)
                    (st.active_find w (r.folded + 1) d ∙ ground arith) le,
            ),
        λ spec.
            let up : behind ≡ false = ground (arith, spec.0) in
            at ∙ elim (Bool-cases hit) [
              | inl touched ↦
                  let t = im.intersects_some m addr (add64 addr len) touched in
                  cc (t.3, spec.1 t.0 t.2)
              | inr clean ↦ elim (Bool-cases kept) [
                | inl all ↦ rw (up, clean, all) refl
                | inr bad ↦
                    let b = holds_all_no r.quorum idx addr len hmax r.folded scan asc bad in
                    let found = st.active_find w (r.folded + 1) b.0 in
                    let past : r.folded < b.0 = ground (arith, found, b.2) in
                    let is : st.slot w b.0 ≡ some b.1 = ground (arith, found, b.2) in
                    cc (b.4, spec.2 b.0 b.1 past b.3 is)
              ]
            ],
      )
