-- ===== src/Watchdog/Count.antt =====
-- The heap's entries for one generation of one timer.
use craft_client.Prelude.{
  ℕ, ◌+◌, ◌≡◌, refl, Bool, false, ◌&&◌, List, [], ◌∷◌, ◌==◌, ltb, if◌then◌else◌, All, if_either,
  arith,
}
use craft_client.Watchdog.{HeapEntry, push}

abbrev pub is_entry : ℕ → ℕ → HeapEntry → Bool
is_entry id generation e = e.id == id && e.generation == generation

abbrev pub one_if : Bool → ℕ
one_if b = if b then 1 else 0

abbrev pub count : ℕ → ℕ → List HeapEntry → ℕ
count id generation [] = 0
count id generation (e ∷ heap) = one_if (is_entry id generation e) + count id generation heap

pub count-push :
    (id generation : ℕ) (e : HeapEntry) (heap : List HeapEntry)
    → count id generation (push e heap)
      ≡ one_if (is_entry id generation e) + count id generation heap
count-push id generation e [] = refl
count-push id generation e (f ∷ heap) = ground (arith, count-push id generation e heap)

module _ {ℓ} (P : HeapEntry → Type ℓ) where
  pub All-push : (e : HeapEntry) (heap : List HeapEntry) → P e → All P heap → All P (push e heap)
  All-push e [] p a = (p, tt)
  All-push e (f ∷ heap) p a =
      if_either (All P) (ltb e.deadline f.deadline) (p, a) (a.0, All-push e heap p a.1)

-- No entry of a generation that none of the entries has.
pub count-All :
    (id generation : ℕ) (heap : List HeapEntry)
    → All (λ e. is_entry id generation e ≡ false) heap
    → count id generation heap ≡ 0
count-All id generation [] a = refl
count-All id generation (e ∷ heap) a = ground (arith, count-All id generation heap a.1)

module _ {ℓ κ} {P : HeapEntry → Type ℓ} {Q : HeapEntry → Type κ} where
  pub All-weaken : (heap : List HeapEntry) → ((e : HeapEntry) → P e → Q e) → All P heap → All Q heap
  All-weaken [] h a = tt
  All-weaken (e ∷ heap) h a = (h e a.0, All-weaken heap h a.1)

-- Where there is none, each entry is of another timer or generation.
pub All-count :
    (id generation : ℕ) (heap : List HeapEntry)
    → count id generation heap ≡ 0
    → All (λ e. is_entry id generation e ≡ false) heap
All-count id generation [] e = tt
All-count id generation (f ∷ heap) e =
    (ground arith, All-count id generation heap (omega (arith, e)))
