-- ===== src/Raft/Missing.antt =====
-- What `get_missing_slots` returns: the holes between the commit frontier and the watermark.
use craft_client.Prelude.{
  ℕ, zero, suc, ◌+◌, ◌-◌, ◌≤◌, ◌<◌, ◌≡◌, refl, ap, ap₂, sym, ◌∙◌, Bool, true, false, ◌&&◌, ◌||◌,
  Option, none, some, List, [], ◌∷◌, ◌++◌, ltb, leb, ◌==◌, inl, inr, Option-cases, Bool-cases,
  arith,
}
use craft_client.Prelude.OrderedMap.{OrderedMap, find, beyond, Above, find-Above}
use craft_client.Types.{Lsn}
use craft_client.Replica.{MemCraftReplica, MemJournalSlot}
use craft_client.Replica.Stats.{missing}
use craft_client.Raft.Catchup.{push_run, missing_from, get_missing_slots}

abbrev pub among : Lsn → List Lsn → Bool
among d [] = false
among d (x ∷ xs) = let rest = among d xs in x == d || rest

abbrev pub is_none {ℓ} : {A : Type ℓ} → Option A → Bool
is_none none = true
is_none (some a) = false

pub among-append : (d : Lsn) (xs ys : List Lsn) → among d (xs ++ ys) ≡ (among d xs || among d ys)
among-append d [] ys = refl
among-append d (x ∷ xs) ys = ground (arith, among-append d xs ys)

pub among-missing :
    (n : ℕ) (e d : Lsn) (m : OrderedMap MemJournalSlot)
    → among d (missing n e m) ≡ (leb e d && ltb d (e + n) && is_none (find d m))
among-missing zero e d m = ground arith
among-missing (suc n) e d m = elim (Option-cases (find e m)) [
  | inl gone ↦ rw (gone, missing) (ground (arith, among-missing n (e + 1) d m))
  | inr (s, held) ↦ rw (held, missing) (ground (arith, among-missing n (e + 1) d m))
]

missing-same :
    (n : ℕ) (e : Lsn) (m m' : OrderedMap MemJournalSlot)
    → ((j : Lsn) → e ≤ j → find j m' ≡ find j m)
    → missing n e m' ≡ missing n e m
missing-same zero e m m' same = refl
missing-same (suc n) e m m' same =
    let rest = missing-same n (e + 1) m m' (λ j le. same j (omega arith)) in
    elim (Option-cases (find e m)) [
      | inl gone ↦ rw (same e (omega arith), gone, missing) (ap (λ l. e ∷ l) rest)
      | inr (s, held) ↦ rw (same e (omega arith), held, missing) rest
    ]

push_run-missing :
    (n : ℕ) (e : Lsn) (m : OrderedMap MemJournalSlot)
    → ((j : Lsn) → e ≤ j → j < e + n → find j m ≡ none)
    → push_run n e ≡ missing n e m
unfolding push_run
push_run-missing zero e m gap = refl
push_run-missing (suc n) e m gap =
    rw (gap e (omega arith) (omega arith), missing)
      (ap (λ l. e ∷ l)
        (push_run-missing n (e + 1) m (λ j lo hi. gap j (omega arith) (omega arith))))

missing-split :
    (a b : ℕ) (e : Lsn) (m : OrderedMap MemJournalSlot)
    → missing (a + b) e m ≡ missing a e m ++ missing b (e + a) m
missing-split zero b e m = ap₂ (λ n k. missing n k m) (omega arith) (omega arith)
missing-split (suc a) b e m =
    let shifted =
      missing-split a b (e + 1) m
      ∙ ap (λ k. missing a (e + 1) m ++ missing b k m) {y = e + suc a} (omega arith) in
    ap (λ n. missing n e m) {y = suc (a + b)} (omega arith) ∙ elim (Option-cases (find e m)) [
      | inl gone ↦ rw (gone, missing) (ap (λ l. e ∷ l) shifted)
      | inr (s, held) ↦ rw (held, missing) shifted
    ]

-- The same, with the ends of the runs.
missing-split_at :
    (e d w : Lsn) (m : OrderedMap MemJournalSlot)
    → e ≤ d
    → d ≤ w
    → missing (w + 1 - e) e m ≡ missing (d - e) e m ++ missing (w + 1 - d) d m
missing-split_at e d w m le le' =
    ap (λ n. missing n e m) (lengths e d w le le')
    ∙ missing-split (d - e) (w + 1 - d) e m
    ∙ ap (λ k. missing (d - e) e m ++ missing (w + 1 - d) k m) (omega arith)
  where
    lengths : (e d w : ℕ) → e ≤ d → d ≤ w → w + 1 - e ≡ (d - e) + (w + 1 - d)
    lengths e d w le le' = omega arith

missing-held :
    (n : ℕ) (d : Lsn) (s : MemJournalSlot) (m : OrderedMap MemJournalSlot)
    → find d m ≡ some s
    → missing (suc n) d m ≡ missing n (d + 1) m
missing-held n d s m held = rw (held, missing) refl

missing_from-missing :
    (lo e : Lsn) (m : OrderedMap MemJournalSlot) (w : Lsn)
    → e ≤ lo + 1
    → Above lo m
    → missing_from e m w ≡ missing (w + 1 - e) e m
unfolding missing_from
missing_from-missing lo e [] w le a = push_run-missing (w + 1 - e) e [] (λ j lo hi. refl)
missing_from-missing lo e ((d, s) ∷ m) w le a = elim (Bool-cases (leb d w)) [
  | inl inside ↦ rw inside (
      ap₂ (λ xs ys. xs ++ ys) (push_run-missing (d - e) e _ (λ j from to. before j (omega arith)))
        (missing_from-missing d (d + 1) m w (omega arith) a.1 ∙ sym (held (ground arith)))
      ∙ sym (missing-split_at e d w ((d, s) ∷ m) (omega arith) (ground arith)))
  | inr past ↦ rw past (push_run-missing (w + 1 - e) e _ (λ j from to. before j (ground arith)))
]
  where
    before : (j : Lsn) → j < d → find j ((d, s) ∷ m) ≡ none
    before j lt = ground (arith, find-Above d j m)

    held : d ≤ w → missing (w + 1 - d) d ((d, s) ∷ m) ≡ missing (w + 1 - (d + 1)) (d + 1) m
    held le =
        ap (λ n. missing n d ((d, s) ∷ m)) {y = suc (w - d)} (omega arith)
        ∙ missing-held (w - d) d s ((d, s) ∷ m) (ground arith)
        ∙ missing-same (w - d) (d + 1) m _ (λ j from. ground arith)
        ∙ ap (λ n. missing n (d + 1) m) (omega arith)

find-beyond :
    (c : Lsn) (m : OrderedMap MemJournalSlot) (j : Lsn) → c < j → find j (beyond c m) ≡ find j m
find-beyond c [] j lt = refl
find-beyond c ((k, s) ∷ m) j lt = ground (arith, find-beyond c m j)

beyond-Above : (lo c : Lsn) (m : OrderedMap MemJournalSlot) → Above lo m → Above c (beyond c m)
beyond-Above lo c [] a = tt
beyond-Above lo c ((k, s) ∷ m) a = elim (Bool-cases (leb k c)) [
  | inl low ↦ rw low (beyond-Above k c m a.1)
  | inr high ↦ rw (high, beyond_all k c m (ground arith) a.1) (ground arith, a.1)
]
  where
    beyond_all : (k c : Lsn) (m : OrderedMap MemJournalSlot) → c < k → Above k m → beyond c m ≡ m
    beyond_all k c [] lt a = refl
    beyond_all k c ((j, v) ∷ m) lt a = ground (arith, beyond_all j c m)

-- The list of missing slots, made by a walk of the journal's entries, is that of a test of every
-- dLSN above the commit frontier and up to the watermark, in ascending order.
pub get_missing_slots_lem :
    (r : MemCraftReplica) (watermark : Lsn)
    → Above 0 r.journal
    → get_missing_slots r watermark
      ≡ missing (watermark - r.commit_lsn) (r.commit_lsn + 1) r.journal
unfolding get_missing_slots
get_missing_slots_lem r w a =
    missing_from-missing r.commit_lsn (r.commit_lsn + 1) _ w (omega arith)
      (beyond-Above 0 r.commit_lsn r.journal a)
    ∙ missing-same _ (r.commit_lsn + 1) r.journal _
        (λ j le. find-beyond r.commit_lsn r.journal j (omega arith))
    ∙ ap (λ n. missing n (r.commit_lsn + 1) r.journal) (omega arith)

pub among-get_missing_slots :
    (r : MemCraftReplica) (w d : Lsn)
    → Above 0 r.journal
    → among d (get_missing_slots r w)
      ≡ (ltb r.commit_lsn d && leb d w && is_none (find d r.journal))
among-get_missing_slots r w d a =
    ap (among d) (get_missing_slots_lem r w a)
    ∙ among-missing (w - r.commit_lsn) (r.commit_lsn + 1) d r.journal
    ∙ ap (λ b. b && is_none (find d r.journal)) (ground arith)
