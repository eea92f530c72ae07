-- ===== src/Tracker/Plan/Segments.antt =====
-- The segments of a split read: they tile the range, block by block, with the horizons of the
-- blocks.
use craft_client.Prelude.{
  ℕ, zero, suc, ◌+◌, ◌-◌, ◌*◌, ◌≤◌, ◌≡◌, refl, sym, ap, subst, ◌∙◌, some, List, [], ◌∷◌, ◌++◌,
  append_assoc, ◌==◌, arith, inl, inr, Bool-cases, length, length-append, replicate,
}
use craft_client.Types.{Lsn}
use craft_client.Tracker.Plan.{ReadSegment, segment, add64, cut, cut_all, k_max_segments}

-- Each segment starts where the one before ends, covers at least one block, and has the horizon of
-- every block it covers; together they cover the blocks from `b` on, whose horizons are `hs`.
abbrev pub Tiles : ℕ → ℕ → ℕ → List ReadSegment → List Lsn → Type 0
Tiles addr lba_size b [] hs = hs ≡ []
Tiles addr lba_size b (s ∷ segs) hs =
    (n : ℕ) × (tail : List Lsn) × (s.addr ≡ add64 addr (b * lba_size))
    × (s.len ≡ suc n * lba_size)
    × (hs ≡ replicate (suc n) s.horizon ++ tail)
    × Tiles addr lba_size (b + suc n) segs tail

replicate_shift :
    (n : ℕ) (c : Lsn) (hs : List Lsn) → replicate n c ++ c ∷ hs ≡ replicate (suc n) c ++ hs
replicate_shift zero c hs = refl
replicate_shift (suc n) c hs = ap (λ l. c ∷ l) (replicate_shift n c hs)

-- A segment goes out.
push-Tiles :
    (addr lba_size start k : ℕ) (cur : Lsn) (hs : List Lsn) (more : List ReadSegment)
    → Tiles addr lba_size (start + suc k) more hs
    → Tiles addr lba_size start
        (segment addr lba_size start (start + suc k) cur ∷ more)
        (replicate (suc k) cur ++ hs)
push-Tiles addr lba_size start k cur hs more t =
    let e : start + suc k - start ≡ suc k = omega arith in
    (k, hs, refl, ap (λ n. n * lba_size) e, refl, t)

-- What the loop adds to its segments, where the run of `cur` has `suc k` blocks so far.
cut-Tiles :
    (addr lba_size start k b : ℕ) (cur : Lsn) (hs : List Lsn) (segs out : List ReadSegment)
    → b ≡ start + suc k
    → length segs ≤ k_max_segments
    → cut addr lba_size start b cur hs segs ≡ some out
    → (more : List ReadSegment) × (out ≡ segs ++ more)
      × Tiles addr lba_size start more (replicate (suc k) cur ++ hs)
      × (length out ≤ k_max_segments)
unfolding cut
cut-Tiles addr lba_size start k b cur [] segs out at le e = elim (Bool-cases (length segs == 8)) [
  | inl full ↦ cc (full, e)
  | inr room ↦
      let last = segment addr lba_size start b cur in
      let o : out ≡ segs ++ last ∷ [] = cc (room, e) in
      (
        last ∷ [],
        o,
        subst
            (λ x.
              Tiles addr lba_size start (segment addr lba_size start x cur ∷ [])
                (replicate (suc k) cur ++ []))
            (sym at) (push-Tiles addr lba_size start k cur [] [] refl),
        ground (arith, o, length-append segs (last ∷ [])),
      )
]
cut-Tiles addr lba_size start k b cur (h ∷ hs) segs out at le e = elim (Bool-cases (h == cur)) [
  | inl same ↦
      let eq : h ≡ cur = ground arith in
      let r =
        cut-Tiles addr lba_size start (suc k) (b + 1) cur hs segs out (omega arith) le
          (rw (same, cut) at e) in
      (
        r.0,
        r.1,
        subst (λ l. Tiles addr lba_size start r.0 l)
            (sym (ap (λ c. replicate (suc k) cur ++ c ∷ hs) eq ∙ replicate_shift (suc k) cur hs))
            (r.2),
        r.3,
      )
  | inr new ↦ elim (Bool-cases (length segs == 8)) [
    | inl full ↦ cc (full, new, e)
    | inr room ↦
        let this = segment addr lba_size start b cur in
        let r =
          cut-Tiles addr lba_size b 0 (b + 1) h hs (segs ++ this ∷ []) out (omega arith)
            (ground (arith, length-append segs (this ∷ []))) (rw (new, room, cut) at e) in
        (
          this ∷ r.0,
          r.1 ∙ append_assoc segs (this ∷ []) r.0,
          subst
              (λ x.
                Tiles addr lba_size start (segment addr lba_size start x cur ∷ r.0)
                  (replicate (suc k) cur ++ h ∷ hs))
              (sym at)
              (push-Tiles addr lba_size start k cur (h ∷ hs) r.0
                (subst (λ x. Tiles addr lba_size x r.0 (h ∷ hs)) at (r.2))),
          r.3,
        )
  ]
]

-- The segments of a plan are at most 8 and tile the blocks with their horizons.
pub cut_all-Tiles :
    (addr lba_size : ℕ) (hs : List Lsn) (segs : List ReadSegment)
    → cut_all addr lba_size hs ≡ some segs
    → Tiles addr lba_size 0 segs hs × (length segs ≤ k_max_segments)
unfolding cut_all
cut_all-Tiles addr lba_size [] segs e = cc
cut_all-Tiles addr lba_size (h ∷ hs) segs e =
    let r = cut-Tiles addr lba_size 0 0 1 h hs [] segs refl (omega arith) e in
    (subst (λ l. Tiles addr lba_size 0 l (h ∷ hs)) (sym (r.1)) (r.2), r.3)
