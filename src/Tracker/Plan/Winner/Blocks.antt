-- ===== src/Tracker/Plan/Winner/Blocks.antt =====
-- The winner pass over whole blocks: where every write and the read are made of whole blocks, the
-- entry of a block is what the pass leaves for the block's first byte.
use craft_client.Prelude.{
  ℕ, zero, suc, ◌+◌, ◌-◌, ◌*◌, ◌/◌, ◌^◌, ◌≤◌, ◌<◌, ◌≡◌, refl, ap, ◌∙◌, Bool, true, false, ◌&&◌,
  List, [], ◌∷◌, leb, ltb, ◌==◌, if◌then◌else◌, arith, inl, inr, Bool-cases, length, get_or, min,
  max,
}
use native.Mathlib.Nat.{
  mul-lt-mul_of_pos_right, mul-le-mul_right, mul-div_cancel, add-mul, div-eq_of_lt-le,
}
use craft_client.Types.{Lsn, no_lsn}
use craft_client.Tracker.{DlsnSlot, is_acked}
use craft_client.Tracker.Plan.{is_empty_slot, add64, sub64, overlaps, visit, mark_blocks}
use craft_client.Tracker.Plan.Winner.{is_on, visit_at}

pub length-mark_blocks :
    (acked : Bool) (idx : Lsn) (b0 b1 c : ℕ) (us : List Lsn)
    → length (mark_blocks acked idx b0 b1 c us) ≡ length us
unfolding mark_blocks
length-mark_blocks acked idx b0 b1 c [] = refl
length-mark_blocks acked idx b0 b1 c (u ∷ us) =
    ap suc (length-mark_blocks acked idx b0 b1 (c + 1) us)

get_or-mark_blocks :
    (acked : Bool) (idx : Lsn) (b0 b1 c : ℕ) (us : List Lsn) (b : ℕ)
    → b < length us
    → get_or (mark_blocks acked idx b0 b1 c us) b no_lsn ≡ (
        if leb b0 (c + b) && leb (c + b) b1
        then (if acked
            then no_lsn
            else (if get_or us b no_lsn == no_lsn then idx else get_or us b no_lsn))
        else get_or us b no_lsn)
unfolding mark_blocks
get_or-mark_blocks acked idx b0 b1 c [] b lt = absurd (omega arith)
get_or-mark_blocks acked idx b0 b1 c (u ∷ us) zero lt = let e : c + 0 ≡ c = omega arith in rw e refl
get_or-mark_blocks acked idx b0 b1 c (u ∷ us) (suc b) lt =
    let e : c + suc b ≡ c + 1 + b = omega arith in
    rw e (get_or-mark_blocks acked idx b0 b1 (c + 1) us b (omega arith))

-- A write or a read of `n` whole blocks of `k` bytes from block `i` on.
pub record Blocks (k i n addr len : ℕ) : Type 0 where
  pub starts : addr ≡ i * k
  pub spans : len ≡ n * k
  pub fits : (i + n) * k < 2 ^ 64

sub64_fits : (a b : ℕ) → b ≤ a → a < 2 ^ 64 → sub64 a b ≡ a - b
unfolding sub64
sub64_fits a b le lt = omega arith

module _ (k : ℕ) (pos : 0 < k) where
  ltb_mul : (a b : ℕ) → ltb (a * k) (b * k) ≡ ltb a b
  ltb_mul a b = elim (Bool-cases (ltb a b)) [
    | inl lt ↦ let up : a * k < b * k = mul-lt-mul_of_pos_right (ground arith) pos in ground arith
    | inr ge ↦ let up : b * k ≤ a * k = mul-le-mul_right k (ground arith) in ground arith
  ]

  leb_mul : (a b : ℕ) → leb (a * k) (b * k) ≡ leb a b
  leb_mul a b = ground (arith, ltb_mul b a)

  max_mul : (a b : ℕ) → max (a * k) (b * k) ≡ max a b * k
  max_mul a b = elim (Bool-cases (leb a b)) [
    | inl le ↦ let e : max a b ≡ b = ground arith in rw e (ground (arith, leb_mul a b))
    | inr gt ↦ let e : max a b ≡ a = ground arith in rw e (ground (arith, leb_mul a b))
  ]

  min_mul : (a b : ℕ) → min (a * k) (b * k) ≡ min a b * k
  min_mul a b = elim (Bool-cases (leb a b)) [
    | inl le ↦ let e : min a b ≡ a = ground arith in rw e (ground (arith, leb_mul a b))
    | inr gt ↦ let e : min a b ≡ b = ground arith in rw e (ground (arith, leb_mul a b))
  ]

  add64_mul : (a b : ℕ) → (a + b) * k < 2 ^ 64 → add64 (a * k) (b * k) ≡ (a + b) * k
  unfolding add64
  add64_mul a b lt = omega (arith, add-mul a b k)

  -- The bytes from block `a` to block `m`.
  gap_mul : (a m : ℕ) → a ≤ m → m * k ≡ a * k + (m - a) * k
  gap_mul a m le = let e : m ≡ a + (m - a) = omega arith in ap (λ x. x * k) e ∙ add-mul a (m - a) k

  first_block : (a m : ℕ) → a ≤ m → m * k < 2 ^ 64 → sub64 (m * k) (a * k) / k ≡ m - a
  first_block a m le lt =
      let e : sub64 (m * k) (a * k) ≡ (m - a) * k =
        sub64_fits (m * k) (a * k) (omega (arith, gap_mul a m le)) lt
        ∙ omega (arith, gap_mul a m le) in
      ap (λ x. x / k) e ∙ mul-div_cancel (m - a) pos

  last_block : (a m : ℕ) → a < m → m * k < 2 ^ 64 → sub64 (sub64 (m * k) 1) (a * k) / k ≡ m - a - 1
  last_block a m le lt =
      let g = gap_mul a m (omega arith) in
      let d = m - a - 1 in
      let e1 : (m - a) * k ≡ d * k + k =
        ap (λ x. x * k) (let e0 : m - a ≡ d + 1 = omega arith in e0)
        ∙ add-mul d 1 k
        ∙ omega arith in
      let e2 : sub64 (m * k) 1 ≡ m * k - 1 = sub64_fits (m * k) 1 (omega arith) lt in
      let e3 : sub64 (sub64 (m * k) 1) (a * k) ≡ m * k - 1 - a * k =
        ap (λ x. sub64 x (a * k)) e2 ∙ sub64_fits (m * k - 1) (a * k) (omega arith) (omega arith) in
      ap (λ x. x / k) e3 ∙ div-eq_of_lt-le k (omega arith) (omega (arith, add-mul d 1 k))

  ends : {i n addr len : ℕ} → Blocks k i n addr len → add64 addr len ≡ (i + n) * k
  ends {i} {n} w = rw (w.starts, w.spans) (add64_mul i n w.fits)

  pub overlaps_blocks :
      (p q i n addr len a l : ℕ)
      → Blocks k p q addr len
      → Blocks k i n a l
      → overlaps addr len a l ≡ (ltb p (i + n) && ltb i (p + q))
  unfolding overlaps
  overlaps_blocks p q i n addr len a l r w =
      rw (ends r, ends w, r.starts, w.starts, ltb_mul p (i + n), ltb_mul i (p + q)) refl

  pub is_on_blocks :
      (i n b : ℕ) (s : DlsnSlot)
      → Blocks k i n s.addr s.len
      → is_on (b * k) s ≡ (leb i b && ltb b (i + n))
  unfolding is_on
  is_on_blocks i n b s w =
      let e : s.addr + s.len ≡ (i + n) * k = omega (arith, w.starts, w.spans, add-mul i n k) in
      rw e (rw (w.starts, leb_mul i b, ltb_mul b (i + n)) refl)

  module _ (p q addr len : ℕ) (read : Blocks k p q addr len) (i n : ℕ) (s : DlsnSlot)
      (write : Blocks k i n s.addr s.len) where
    first_eq : sub64 (max addr s.addr) addr / k ≡ max p i - p
    first_eq =
        let e : max addr s.addr ≡ max p i * k =
          ap (λ x. max x s.addr) read.starts ∙ ap (λ x. max (p * k) x) write.starts ∙ max_mul p i in
        let below : max p i * k < 2 ^ 64 =
          omega (arith, max_mul p i, add-mul p q k, add-mul i n k, read.fits, write.fits) in
        ap (λ x. sub64 x addr / k) e
        ∙ ap (λ x. sub64 (max p i * k) x / k) read.starts
        ∙ first_block p (max p i) (omega arith) below

    last_eq :
        p < min (p + q) (i + n)
        → sub64 (sub64 (min (add64 addr len) (add64 s.addr s.len)) 1) addr / k
          ≡ min (p + q) (i + n) - p - 1
    last_eq lt =
        let m = min (p + q) (i + n) in
        let e : min (add64 addr len) (add64 s.addr s.len) ≡ m * k =
          ap (λ x. min x (add64 s.addr s.len)) (ends read)
          ∙ ap (λ x. min ((p + q) * k) x) (ends write)
          ∙ min_mul (p + q) (i + n) in
        let below : m * k < 2 ^ 64 = omega (arith, min_mul (p + q) (i + n), read.fits) in
        ap (λ x. sub64 (sub64 x 1) addr / k) e
        ∙ ap (λ x. sub64 (sub64 (m * k) 1) x / k) read.starts
        ∙ last_block p m lt below

    mid_eq :
        (us : List Lsn) (b : ℕ)
        → length us ≡ q
        → b < q
        → (ltb p (i + n) && ltb i (p + q)) ≡ true
        → (leb (sub64 (max addr s.addr) addr / k) (0 + b)
            && leb (0 + b) (
                min
                  (length us - 1)
                  (sub64 (sub64 (min (add64 addr len) (add64 s.addr s.len)) 1) addr / k)))
          ≡ is_on ((p + b) * k) s
    mid_eq us b el lt on =
        rw (is_on_blocks i n (p + b) s write, first_eq, last_eq (ground arith), el) (ground arith)

    pub get_or-visit :
        (idx : Lsn) (us : List Lsn) (b : ℕ)
        → length us ≡ q
        → b < q
        → get_or (visit addr len k idx s us) b no_lsn
          ≡ visit_at ((p + b) * k) idx s (get_or us b no_lsn)
    unfolding visit visit_at
    get_or-visit idx us b el lt =
        let over = overlaps_blocks p q i n addr len s.addr s.len read write in
        elim (Bool-cases (ltb p (i + n) && ltb i (p + q))) [
          | inl on ↦
              let b0 = sub64 (max addr s.addr) addr / k in
              let b1 =
                min (length us - 1)
                  (sub64 (sub64 (min (add64 addr len) (add64 s.addr s.len)) 1) addr / k) in
              let marked = get_or-mark_blocks (is_acked s.outcome) idx b0 b1 0 us b (omega arith) in
              rw (over, on)
                (elim (Bool-cases (is_empty_slot s.outcome)) [
                  | inl void ↦ rw void refl
                  | inr some_write ↦ rw some_write (
                      marked
                      ∙ rw (mid_eq us b el lt on) (elim (Bool-cases (is_on ((p + b) * k) s)) [
                        | inl c ↦ rw c refl
                        | inr c ↦ rw c refl
                      ]))
                ])
          | inr off ↦
              let out : is_on ((p + b) * k) s ≡ false =
                is_on_blocks i n (p + b) s write ∙ ground arith in
              rw (over, off, out)
                (elim (Bool-cases (is_empty_slot s.outcome)) [
                  | inl void ↦ rw void refl
                  | inr some_write ↦ rw some_write refl
                ])
        ]
