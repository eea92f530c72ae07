-- ===== src/Tracker/Retire.antt =====
-- `retire_upto` of the tracker: after a resolution round no visible slot up to its target is open.
use craft_client.Prelude.{
  ℕ, zero, suc, ◌+◌, ◌-◌, ◌≤◌, ◌<◌, ◌≡◌, refl, sym, ap, ◌∙◌, Bool, true, false, not, ◌||◌, Option,
  none, some, List, [], ◌∷◌, leb, ltb, ◌==◌, if◌then◌else◌, min, arith, inl, inr, Bool-cases,
  Option-cases,
}
use craft_client.Prelude.OrderedMap.{OrderedMap, find, Above, find-Above}
use craft_client.Types.{Lsn}
use craft_client.Stream.{StreamTracker}
use craft_client.Tracker.{
  DlsnSlot, SlotOutcome, is_resolved, take_outcome, applies, first_at, binary_search,
  advance_frontier, raise_acked, resolve, next_gap, retire_slot, retire_rounds, retire_upto,
}
use craft_client.Tracker.Frontier.{
  resolved_at, State, Loose, Holds, IsValid, resolve_eq, advance_frontier_eq,
  advance_frontier-grows, in_session,
}
use craft_client.Tracker.Resolve.{resolve-IsValid}

-- A slot that a scanner sees and that has no verdict.
abbrev pub open_at : Option DlsnSlot → Bool
open_at none = false
open_at (some s) = not (is_resolved s.outcome)

resolved_not-open : (o : Option DlsnSlot) → resolved_at o ≡ true → open_at o ≡ false
resolved_not-open none e = refl
resolved_not-open (some s) e = rw e refl

first_at-find :
    (u lo : Lsn) (m : OrderedMap DlsnSlot) → Above lo m → u ≤ lo + 1 → first_at u m ≡ find u m
first_at-find u lo [] a le = refl
first_at-find u lo ((i, s) ∷ m) a le = ground (arith, find-Above i u m)

module _ (st : StreamTracker DlsnSlot) where
  -- What the scan reads at `u` is the slot there.
  pub first_at-active :
      (w : st.Tracker) (u : Lsn) → 0 < u → first_at u (st.active_from w u) ≡ st.slot w u
  first_at-active w u pos =
      first_at-find u (u - 1) (st.active_from w u) (st.active_Above w u (u - 1) (omega arith))
        (omega arith)
      ∙ st.active_find w u u
      ∙ ground arith

  -- The window after `advance_frontier`: what lies above the frontier has not moved.
  advance-window :
      (w : st.Tracker) (t : State st)
      → t.tracker ≡ some w
      → (v : st.Tracker) × ((advance_frontier st t).tracker ≡ some v)
        × ((j : Lsn) → (advance_frontier st t).frontier < j → st.slot v j ≡ st.slot w j)
  advance-window w t e =
      let nf = min (st.completed_upto w (t.frontier + 1)) (t.next_dlsn - 1) in
      rw (advance_frontier_eq st w t e) (elim (Bool-cases (leb nf t.frontier)) [
        | inl still ↦ rw still (w, e, λ j lt. refl)
        | inr more ↦ elim (Bool-cases (leb 512 (nf - t.last_trunc))) [
          | inl full ↦ rw (more, full) (st.truncate nf w, refl, λ j lt. st.slot-truncate nf w j lt)
          | inr part ↦ rw (more, part) (w, e, λ j lt. refl)
        ]
      ])

  resolve-window :
      (d : Lsn) (oc : SlotOutcome) (w : st.Tracker) (t : State st)
      → t.tracker ≡ some w
      → (v : st.Tracker) × ((resolve st d oc t).tracker ≡ some v)
        × (t.frontier ≤ (resolve st d oc t).frontier)
        × ((j : Lsn)
            → (resolve st d oc t).frontier < j
            → st.slot v j ≡ st.slot (st.update d (take_outcome oc) w) j)
  resolve-window d oc w t e =
      let v = st.update d (take_outcome oc) w in
      let t'' = raise_acked st d oc (record t { tracker = some v }) in
      rw (resolve_eq st w t d oc e) (elim (Bool-cases (applies (st.slot w d))) [
        | inl on ↦ elim (Bool-cases (is_resolved oc)) [
          | inl is ↦
              rw (on, is)
                (let a = advance-window v t'' refl in
                  (a.0, a.1, advance_frontier-grows st v t'' refl, a.2))
          | inr isnt ↦ rw (on, isnt) (v, refl, omega arith, λ j lt. refl)
        ]
        | inr off ↦ rw off (v, refl, omega arith, λ j lt. refl)
      ])

  -- Resolving opens nothing, and closes its own slot.
  open-update :
      (d : Lsn) (oc : SlotOutcome) (w : st.Tracker) (j : Lsn)
      → is_resolved oc ≡ true
      → open_at (st.slot (st.update d (take_outcome oc) w) j)
        ≡ (if d == j then false else open_at (st.slot w j))
  open-update d oc w j is =
      let at = st.slot-update d (take_outcome oc) w j in
      elim (Option-cases (st.slot w j)) [
        | inl e ↦ ground (arith, at)
        | inr (s, e) ↦ ground (arith, at)
      ]

  -- Nothing that a scanner sees above the frontier and below `h` is open, as far as `hi`.
  abbrev Clear : Lsn → Lsn → st.Tracker → State st → Type 0
  Clear hi h w t = (j : Lsn) → t.frontier < j → j < h → j ≤ hi → open_at (st.slot w j) ≡ false

  abbrev Scanned : Lsn → Lsn → State st → Type 0
  Scanned hi h t = (w : st.Tracker) × Holds st w t × Clear hi h w t

  hop-Clear :
      (hi h : Lsn) (w : st.Tracker) (t : State st)
      → Loose st w t
      → 0 < h
      → Clear hi h w t
      → Clear hi (next_gap st w h hi) w t
  hop-Clear hi h w t l pos clear j lt below le = elim (Bool-cases (ltb j h)) [
    | inl before ↦ clear j lt (ground arith) le
    | inr past ↦
        resolved_not-open (st.slot w j)
          (sym (l.exact j lt) ∙ st.completed_run w h j pos (ground arith) (omega arith))
  ]

  resolve-Scanned :
      (hi u : Lsn) (oc : SlotOutcome) (w : st.Tracker) (t : State st)
      → is_resolved oc ≡ true
      → Holds st w t
      → Clear hi u w t
      → Scanned hi (u + 1) (resolve st u oc t)
  resolve-Scanned hi u oc w t is h clear =
      let r = resolve-window u oc w t h.0.session in
      let valid = resolve-IsValid st u oc t (w, h) in
      (
        valid.0,
        valid.1,
        λ j lt below le.
            let same : valid.0 ≡ r.0 = cc (valid.1.0.session, r.1) in
            ap (λ x. open_at (st.slot x j)) same
            ∙ ap open_at (r.3 j lt)
            ∙ open-update u oc w j is
            ∙ ground (arith, clear j, r.2),
      )

  at_end :
      {hi : Lsn} (u : Lsn) (w : st.Tracker) (t : State st)
      → Clear hi u w t
      → st.slot w u ≡ none
      → Clear hi (u + 1) w t
  at_end u w t clear e j lt below le = elim (Bool-cases (j == u)) [
    | inl here ↦
        let same : j ≡ u = ground arith in ap (λ i. open_at (st.slot w i)) same ∙ ap open_at e
    | inr before ↦ clear j lt (ground arith) le
  ]

  retire_slot-Scanned :
      {R : Type 0} (hi u : Lsn) (empties : List Lsn) (f : Lsn → R → R) (w : st.Tracker)
      (t : State st) (r : R)
      → 0 < u
      → Holds st w t
      → Clear hi u w t
      → Scanned hi (u + 1) (retire_slot st empties f u w t r).0
  unfolding is_resolved
  retire_slot-Scanned {R} hi u empties f w t r pos h clear =
      rw (first_at-active w u pos, retire_slot)
        (elim (Option-cases (st.slot w u)) [
          | inl e ↦ rw e (w, h, λ j lt below le. at_end u w t clear e j lt below le)
          | inr (s, e) ↦ rw e (elim (Bool-cases (binary_search empties u)) [
            | inl void ↦ rw void (resolve-Scanned hi u SlotOutcome.empty w t refl h clear)
            | inr filled ↦ rw filled (resolve-Scanned hi u SlotOutcome.acked w t refl h clear)
          ])
        ])

  retire_rounds_eq :
      {R : Type 0} (n : ℕ) (hi : Lsn) (empties : List Lsn) (f : Lsn → R → R) (h : Lsn)
      (w : st.Tracker) (t : State st) (r : R)
      → t.tracker ≡ some w
      → retire_rounds st (suc n) hi empties f h t r
        ≡ elim (ltb hi h || ltb hi (next_gap st w h hi)) [
          | true ↦ (t, r)
          | false ↦
              let p = retire_slot st empties f (next_gap st w h hi) w t r in
              retire_rounds st n hi empties f (next_gap st w h hi + 1) p.0 p.1
        ]
  unfolding retire_rounds
  retire_rounds_eq n hi empties f h w t r e =
      in_session st t.tracker w (t, r)
        (λ v. elim (ltb hi h || ltb hi (next_gap st v h hi)) [
          | true ↦ (t, r)
          | false ↦
              let p = retire_slot st empties f (next_gap st v h hi) v t r in
              retire_rounds st n hi empties f (next_gap st v h hi + 1) p.0 p.1
        ])
        e

  retire_rounds-Scanned :
      {R : Type 0} (n : ℕ) (hi : Lsn) (empties : List Lsn) (f : Lsn → R → R) (h : Lsn)
      (t : State st) (r : R)
      → 0 < h
      → hi < h + n
      → Scanned hi h t
      → Scanned hi (hi + 1) (retire_rounds st n hi empties f h t r).0
  unfolding retire_rounds
  retire_rounds-Scanned zero hi empties f h t r pos enough (w, v, clear) =
      (w, v, λ j lt below le. clear j lt (omega arith) le)
  retire_rounds-Scanned (suc n) hi empties f h t r pos enough (w, v, clear) =
      let u = next_gap st w h hi in
      let hop = hop-Clear hi h w t v.0 pos clear in
      let hint = st.completed_hint w h in
      rw (retire_rounds_eq n hi empties f h w t r v.0.session)
        (elim (Bool-cases (ltb hi h || ltb hi u)) [
          | inl stop ↦ rw stop (w, v, λ j lt below le. ground (arith, hop j lt, clear j lt, le))
          | inr go ↦
              let p = retire_slot st empties f u w t r in
              rw go (
                retire_rounds-Scanned n hi empties f (u + 1) p.0 p.1 (omega arith) (ground arith)
                  (retire_slot-Scanned hi u empties f w t r (omega arith) v hop))
        ])

  -- `retire_upto` ends with no open slot among those up to its target that are visible: each is
  -- behind the frontier, or resolved, or not made yet. The state stays valid.
  pub retire_upto-clears :
      {R : Type 0} (upto : Lsn) (empties : List Lsn) (f : Lsn → R → R) (t : State st) (r : R)
      → IsValid st t
      → (w : st.Tracker) × Holds st w (retire_upto st upto empties f t r).0
        × ((j : Lsn)
            → (retire_upto st upto empties f t r).0.frontier < j
            → j ≤ upto
            → j < t.next_dlsn
            → open_at (st.slot w j) ≡ false)
  unfolding retire_upto
  retire_upto-clears upto empties f t r (w, v) =
      let hi = min upto (t.next_dlsn - 1) in
      let s =
        retire_rounds-Scanned (hi - t.frontier) hi empties f (t.frontier + 1) t r (omega arith)
          (omega arith) (w, v, λ j lt below le. absurd (omega arith)) in
      (s.0, s.1, λ j lt le issued. s.2 j lt (omega arith) (omega arith))
