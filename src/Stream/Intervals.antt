-- ===== src/Stream/Intervals.antt =====
-- What the client asks of a `boost::icl::interval_map` from byte offsets to dLSNs. The library is
-- not part of the program; this is its interface.
pub mod Bytes
use craft_client.Prelude.{
  ℕ, ◌≤◌, ◌<◌, ◌≡◌, Bool, true, false, ◌&&◌, Option, none, some, List, [], ◌∷◌, leb, ltb,
  if◌then◌else◌,
}
use craft_client.Prelude.{All}
use craft_client.Types.{Lsn}

-- A segment: the offsets from `lo` up to, but not, `hi`, and their value.
pub record Segment : Type 0 where
  pub lo : ℕ
  pub hi : ℕ
  pub val : Lsn

abbrev pub in_interval : ℕ → ℕ → ℕ → Bool
in_interval lo hi x = leb lo x && ltb x hi

abbrev pub value_at : ℕ → List Segment → Option Lsn
value_at x [] = none
value_at x (s ∷ segs) = if in_interval s.lo s.hi x then some s.val else value_at x segs

-- `at` is the value of an offset, `insert` the call `set` of the library.
pub record IntervalMap : Type 1 where
  pub Intervals : Type 0
  pub clear : Intervals
  pub insert : ℕ → ℕ → Lsn → Intervals → Intervals
  pub erase : ℕ → ℕ → Intervals → Intervals
  pub intersects : Intervals → ℕ → ℕ → Bool
  pub segments : Intervals → List Segment
  pub at : Intervals → ℕ → Option Lsn
  pub at-clear : (x : ℕ) → at clear x ≡ none
  pub at-insert :
      (lo hi : ℕ) (d : Lsn) (m : Intervals) (x : ℕ)
      → at (insert lo hi d m) x ≡ (if in_interval lo hi x then some d else at m x)
  pub at-erase :
      (lo hi : ℕ) (m : Intervals) (x : ℕ)
      → at (erase lo hi m) x ≡ (if in_interval lo hi x then none else at m x)
  pub intersects_some :
      (m : Intervals) (lo hi : ℕ)
      → intersects m lo hi ≡ true
      → (x : ℕ) × (d : Lsn) × (in_interval lo hi x ≡ true) × (at m x ≡ some d)
  pub intersects_none :
      (m : Intervals) (lo hi x : ℕ)
      → intersects m lo hi ≡ false
      → in_interval lo hi x ≡ true
      → at m x ≡ none
  -- The segments are disjoint and hold the whole map.
  pub at-segments : (m : Intervals) (x : ℕ) → at m x ≡ value_at x (segments m)
  pub segments_all :
      (m : Intervals) (x : ℕ)
      → All (λ s. in_interval s.lo s.hi x ≡ true → at m x ≡ some s.val) (segments m)
