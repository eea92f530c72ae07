-- ===== src/Wire/Body/Scatter.antt =====
-- Where the packed data of a read reply goes.
use craft_client.Prelude.{
  ℕ, ◌+◌, ◌-◌, ◌%◌, ◌^◌, ◌≤◌, ◌<◌, ◌==◌, ◌≡◌, refl, sym, ◌∙◌, inl, inr, Bool, true, false, List, [],
  ◌∷◌, ◌++◌, append_assoc, append-nil, arith, if◌then◌else◌, Bool-cases,
}
use craft_client.Wire.Layout.Io.{ExtentDesc}
use craft_client.Wire.Body.{ScatterPlan, plan_scatter, scatter_from, place, out_of_range}

-- The extent's fields fit their words.
abbrev pub FitsExtent : ExtentDesc → Type 0
FitsExtent e = (e.addr < 2 ^ 64) × (e.len < 2 ^ 64)

abbrev pub AllFitExtent : List ExtentDesc → Type 0
AllFitExtent [] = Unit {0}
AllFitExtent (e ∷ es) = FitsExtent e × AllFitExtent es

-- Every extent lies within [lo, hi).
abbrev pub AllInside : ℕ → ℕ → List ExtentDesc → Type 0
AllInside lo hi [] = Unit {0}
AllInside lo hi (e ∷ es) = ((lo ≤ e.addr) × (e.addr + e.len ≤ hi)) × AllInside lo hi es

-- The placements of the extents that are holes, or that are not.
abbrev pub places : Bool → ℕ → List ExtentDesc → List (ℕ × ℕ)
places hole req_addr [] = []
places true req_addr (e ∷ es) =
    if e.hole == 0
    then places true req_addr es
    else (e.addr - req_addr, e.len) ∷ places true req_addr es
places false req_addr (e ∷ es) =
    if e.hole == 0
    then (e.addr - req_addr, e.len) ∷ places false req_addr es
    else places false req_addr es

abbrev planned : ScatterPlan → List ExtentDesc → ℕ → ScatterPlan
planned p es req_addr = record {
  runs = p.runs ++ places false req_addr es;
  holes = p.holes ++ places true req_addr es;
  placed = true;
}

in_range :
    (e : ExtentDesc) (lo hi : ℕ)
    → hi < 2 ^ 64
    → (lo ≤ e.addr) × (e.addr + e.len ≤ hi)
    → out_of_range e lo hi ≡ false
in_range e lo hi h a = ground (arith, whole)
  where
    whole : (e.addr + e.len) % 2 ^ 64 ≡ e.addr + e.len
    whole = omega (arith, a.1)

inside :
    (e : ExtentDesc) (lo hi : ℕ)
    → FitsExtent e
    → out_of_range e lo hi ≡ false
    → (lo ≤ e.addr) × (e.addr + e.len ≤ hi)
inside e lo hi f good = ground arith

placed-place : (p : ScatterPlan) (e : ExtentDesc) (lo : ℕ) → (place p e lo).placed ≡ p.placed
unfolding place
placed-place p e lo = ground arith

planned-place :
    (p : ScatterPlan) (e : ExtentDesc) (es : List ExtentDesc) (lo : ℕ)
    → planned (place p e lo) es lo ≡ planned p (e ∷ es) lo
unfolding place
planned-place p e es lo = elim (Bool-cases (e.hole == 0)) [
  | inl run ↦ rw run (rw append_assoc)
  | inr hole ↦ rw hole (rw append_assoc)
]

scatter_from-inside :
    (p : ScatterPlan) (es : List ExtentDesc) (lo hi : ℕ)
    → hi < 2 ^ 64
    → AllInside lo hi es
    → scatter_from p es lo hi ≡ planned p es lo
unfolding scatter_from
scatter_from-inside p [] lo hi h a = λ i. record {
  runs = sym (append-nil p.runs) i;
  holes = sym (append-nil p.holes) i;
  placed = true;
}
scatter_from-inside p (e ∷ es) lo hi h a =
    rw (in_range e lo hi h a.0)
      (scatter_from-inside (place p e lo) es lo hi h a.1 ∙ planned-place p e es lo)

-- A plan that is accepted has found every extent inside.
scatter_from-accepted :
    (p : ScatterPlan) (es : List ExtentDesc) (lo hi : ℕ)
    → AllFitExtent es
    → p.placed ≡ false
    → (scatter_from p es lo hi).placed ≡ true
    → AllInside lo hi es
unfolding scatter_from
scatter_from-accepted p [] lo hi f n ok = tt
scatter_from-accepted p (e ∷ es) lo hi f n ok = elim (Bool-cases (out_of_range e lo hi)) [
  | inl bad ↦ ground (arith, rw bad at ok)
  | inr good ↦ (
    inside e lo hi f.0 good,
    scatter_from-accepted (place p e lo) es lo hi f.1 (placed-place p e lo ∙ n) (rw good at ok),
  )
]

-- A read reply is accepted exactly when every extent lies within the request, and then each extent
-- stands in one list, data or hole, in wire order, at its offset from the request's start and with
-- its whole length; the request's end and the extents' fields fit 64 bits.
pub plan_scatter_lem :
    (es : List ExtentDesc) (req_addr req_len : ℕ)
    → req_addr + req_len < 2 ^ 64
    → AllFitExtent es
    → ((plan_scatter es req_addr req_len).placed ≡ true
        → AllInside req_addr (req_addr + req_len) es)
      × (AllInside req_addr (req_addr + req_len) es
          → plan_scatter es req_addr req_len ≡ record {
            runs = places false req_addr es;
            holes = places true req_addr es;
            placed = true;
          })
unfolding plan_scatter
plan_scatter_lem es req_addr req_len h f = rw whole (
  scatter_from-accepted _ es req_addr (req_addr + req_len) f refl,
  scatter_from-inside _ es req_addr (req_addr + req_len) h,
)
  where
    whole : (req_addr + req_len) % 2 ^ 64 ≡ req_addr + req_len
    whole = omega arith
