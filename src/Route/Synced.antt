-- ===== src/Route/Synced.antt =====
-- What a member's commit lsn tells the router: `advance_synced`.
use craft_client.Prelude.{
  ℕ, zero, suc, ◌≤◌, ◌<◌, ◌≡◌, refl, sym, ap, subst, ◌∙◌, Bool, true, false, ◌&&◌, ◌||◌, Option,
  none, some, List, [], ◌∷◌, leb, if◌then◌else◌, min, arith, inl, inr, Bool-cases, Option-cases,
  if_either, get_or, get_elem?, set, length, get_elem?-set_self, All,
}
use craft_client.Types.{Lsn}
use craft_client.Stream.{StreamTracker}
use craft_client.Stream.Intervals.{IntervalMap, Segment, in_interval, value_at}
use craft_client.Route.{
  RouteSlot, Router, minimum, floor_of, drop_upto, drop_at, advance_synced, k_unsynced,
}

minimum_le : (m : Lsn) (cs : List Lsn) → minimum m cs ≤ m
minimum_le m [] = omega arith
minimum_le m (c ∷ cs) = omega (arith, minimum_le (min m c) cs)

minimum_lower : (m : Lsn) (cs : List Lsn) → All (λ c. minimum m cs ≤ c) cs
minimum_lower m [] = tt
minimum_lower m (c ∷ cs) = (omega (arith, minimum_le (min m c) cs), minimum_lower (min m c) cs)

floor_of-lower : (cs : List Lsn) → All (λ c. floor_of cs ≤ c) cs
floor_of-lower [] = tt
floor_of-lower (c ∷ cs) = (minimum_le c cs, minimum_lower c cs)

-- Whether a segment at the offset has a value at or below `c`.
abbrev covered : Lsn → ℕ → List Segment → Bool
covered c x [] = false
covered c x (s ∷ segs) = (in_interval s.lo s.hi x && leb s.val c) || covered c x segs

-- What is left of an entry.
abbrev pub above : Lsn → Option Lsn → Option Lsn
above c none = none
above c (some d) = if leb d c then none else some d

covered-some :
    (c : Lsn) (x : ℕ) (segs : List Segment) (d : Lsn)
    → value_at x segs ≡ some d
    → d ≤ c
    → covered c x segs ≡ true
covered-some c x [] d e le = cc
covered-some c x (s ∷ segs) d e le = ground (arith, covered-some c x segs d)

covered-none :
    (c : Lsn) (x : ℕ) (segs : List Segment) (d : Lsn)
    → All (λ s. in_interval s.lo s.hi x ≡ true → some d ≡ some s.val) segs
    → c < d
    → covered c x segs ≡ false
covered-none c x [] d a lt = refl
covered-none c x (s ∷ segs) d a lt = elim (Bool-cases (in_interval s.lo s.hi x)) [
  | inl on ↦ ground (arith, a.0 on, covered-none c x segs d a.1 lt)
  | inr off ↦ rw off (covered-none c x segs d a.1 lt)
]

some_inj {ℓ} : {A : Type ℓ} {a b : A} → some a ≡ some b → a ≡ b
some_inj e = cc e

module _ (st : StreamTracker RouteSlot) (im : IntervalMap) where
  at-drop_upto :
      (c : Lsn) (segs : List Segment) (m : im.Intervals) (x : ℕ)
      → im.at (drop_upto st im c segs m) x ≡ (if covered c x segs then none else im.at m x)
  at-drop_upto c [] m x = refl
  at-drop_upto c (s ∷ segs) m x = elim (Bool-cases (leb s.val c)) [
    | inl low ↦
        let at = im.at-erase s.lo s.hi m x in
        rw low (at-drop_upto c segs (im.erase s.lo s.hi m) x ∙ ground (arith, at))
    | inr high ↦ rw high (at-drop_upto c segs m x ∙ ground arith)
  ]

  pub at-drop_all :
      (c : Lsn) (m : im.Intervals) (x : ℕ)
      → im.at (drop_upto st im c (im.segments m) m) x ≡ above c (im.at m x)
  at-drop_all c m x =
      let segs = im.segments m in
      at-drop_upto c segs m x ∙ elim (Option-cases (im.at m x)) [
        | inl gone ↦ rw gone (if_either (λ (o : Option Lsn). o ≡ none) (covered c x segs) refl refl)
        | inr (d, e) ↦ elim (Bool-cases (leb d c)) [
          | inl low ↦
              rw (covered-some c x segs d (sym (im.at-segments m x) ∙ e) (ground arith), e, low)
                refl
          | inr high ↦
              let none_low =
                covered-none c x segs d
                  (subst (λ o. All (λ s. in_interval s.lo s.hi x ≡ true → o ≡ some s.val) segs) e
                    (im.segments_all m x))
                  (ground arith) in
              rw (none_low, e, high) refl
        ]
      ]

  dropped-at :
      (c : Lsn) (idx : ℕ) (ms : List im.Intervals) (m : im.Intervals)
      → get_elem? ms idx ≡ some m
      → get_elem? (drop_at st im c idx ms) idx ≡ some (drop_upto st im c (im.segments m) m)
  dropped-at c idx [] m e = cc
  dropped-at c zero (x ∷ ms) m e = ap (λ o. some (drop_upto st im c (im.segments o) o)) (some_inj e)
  dropped-at c (suc idx) (x ∷ ms) m e = dropped-at c idx ms m e

  -- A member that reports a commit lsn above the one on record: the record is that lsn, the reclaim
  -- floor is at or below every member's, and of the member's missing ranges those at or below the
  -- lsn go and the others stay.
  pub advance_synced_lem :
      (r : Router st im) (idx : ℕ) (c : Lsn) (m : im.Intervals)
      → idx < length r.synced
      → get_or r.synced idx k_unsynced < c
      → get_elem? r.miss idx ≡ some m
      → (let r' = advance_synced st im idx c r in
          (get_elem? r'.synced idx ≡ some c)
          × All (λ e. r'.all_committed ≤ e) r'.synced
          × ((v : im.Intervals) × (get_elem? r'.miss idx ≡ some v)
              × ((x : ℕ) → im.at v x ≡ above c (im.at m x))))
  unfolding advance_synced
  advance_synced_lem r idx c m lt more e =
      let news : leb c (get_or r.synced idx k_unsynced) ≡ false = ground arith in
      rw news (
        get_elem?-set_self r.synced idx c lt,
        floor_of-lower (set r.synced idx c),
        (drop_upto st im c (im.segments m) m, dropped-at c idx r.miss m e, at-drop_all c m),
      )

  -- A report at or below the one on record changes nothing.
  advance_synced_stale :
      (r : Router st im) (idx : ℕ) (c : Lsn)
      → c ≤ get_or r.synced idx k_unsynced
      → advance_synced st im idx c r ≡ r
  unfolding advance_synced
  advance_synced_stale r idx c le = ground arith
