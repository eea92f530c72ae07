-- ===== src/Replica/Stats.antt =====
-- The snapshot of a replica for observability (`stats`), without the address text.
use craft_client.Prelude.{
  ℕ, zero, suc, ◌+◌, ◌-◌, ◌*◌, ◌≤◌, ◌<◌, ◌≡◌, refl, not, ◌&&◌, Option, none, some, List, [], ◌∷◌,
  ◌++◌, if◌then◌else◌, arith, length, ltb, leb, Option-cases, inl, inr,
}
use craft_client.Prelude.OrderedMap.{OrderedMap, find, Above, find-Above}
use craft_client.Types.{Lsn, no_lsn}
use craft_client.Replica.{MemCraftReplica, MemJournalSlot}
use craft_client.Replica.Read.Spec.{IsValid}

pub record ReplicaStats : Type 0 where
  pub id : ℕ
  pub page_size : ℕ
  pub commit_lsn : Lsn
  pub last_append_lsn : Lsn
  pub term : ℕ
  pub client_token : ℕ
  pub journal_slots : ℕ
  pub journal_first_dlsn : Lsn
  pub journal_last_dlsn : Lsn
  pub zero_write_slots : ℕ
  pub empty_slots : ℕ
  pub journal_data_bytes : ℕ
  pub missing_count : ℕ
  pub missing_sample : List Lsn
  pub mapped_blocks : ℕ

abbrev pub k_missing_sample : ℕ
k_missing_sample = 16

abbrev pub first_key : OrderedMap MemJournalSlot → Lsn
first_key [] = no_lsn
first_key ((d, s) ∷ m) = d

abbrev pub last_key : OrderedMap MemJournalSlot → Lsn → Lsn
last_key [] last = last
last_key ((d, s) ∷ m) last = last_key m d

abbrev pub count_empty : OrderedMap MemJournalSlot → ℕ
count_empty [] = 0
count_empty ((d, s) ∷ m) = (if s.is_empty then 1 else 0) + count_empty m

abbrev pub count_zero : OrderedMap MemJournalSlot → ℕ
count_zero [] = 0
count_zero ((d, s) ∷ m) = (if not s.is_empty && s.all_zeros then 1 else 0) + count_zero m

-- `uint64_t` arithmetic, without its wrap-around.
abbrev pub data_bytes : ℕ → OrderedMap MemJournalSlot → ℕ
data_bytes page_size [] = 0
data_bytes page_size ((d, s) ∷ m) =
    (if not s.is_empty && not s.all_zeros then s.len * page_size else 0) + data_bytes page_size m

-- The entries from `lower_bound(lo)` to `upper_bound(hi)`.
abbrev pub within : Lsn → Lsn → OrderedMap MemJournalSlot → OrderedMap MemJournalSlot
within lo hi [] = []
within lo hi ((d, s) ∷ m) = if leb lo d && leb d hi then (d, s) ∷ within lo hi m else within lo hi m

-- `for (; expect < bound && size < k; ++expect)`, with bound - expect rounds left.
unfoldable pub fill_gap : ℕ → Lsn → List Lsn → List Lsn
fill_gap zero expect sample = sample
fill_gap (suc n) expect sample =
    if ltb (length sample) k_missing_sample
    then fill_gap n (expect + 1) (sample ++ expect ∷ [])
    else sample

unfoldable pub sample_gaps : OrderedMap MemJournalSlot → Lsn → Lsn → List Lsn → List Lsn
sample_gaps [] hi expect sample = fill_gap (hi + 1 - expect) expect sample
sample_gaps ((d, s) ∷ m) hi expect sample =
    if ltb (length sample) k_missing_sample
    then sample_gaps m hi (d + 1) (fill_gap (d - expect) expect sample)
    else sample

unfoldable pub stats : MemCraftReplica → ReplicaStats
stats r =
    let lo = r.commit_lsn + 1 in
    let hi = r.last_append_lsn in
    let range = within lo hi r.journal in
    record {
      id = r.id;
      page_size = r.page_size;
      commit_lsn = r.commit_lsn;
      last_append_lsn = r.last_append_lsn;
      term = r.term;
      client_token = r.client_token;
      journal_slots = length r.journal;
      journal_first_dlsn = first_key r.journal;
      journal_last_dlsn = last_key r.journal no_lsn;
      zero_write_slots = count_zero r.journal;
      empty_slots = count_empty r.journal;
      journal_data_bytes = data_bytes r.page_size r.journal;
      missing_count = if leb lo hi then hi - lo + 1 - length range else 0;
      missing_sample = if leb lo hi then sample_gaps range hi lo [] else [];
      mapped_blocks = length r.index;
    }

-- The missing ones among the `n` dLSNs from `d` on, by a walk of the range.
abbrev pub missing : ℕ → Lsn → OrderedMap MemJournalSlot → List Lsn
missing zero d m = []
missing (suc n) d m = elim (find d m) [
  | none ↦ d ∷ missing n (d + 1) m
  | some s ↦ missing n (d + 1) m
]

abbrev one_if : Option MemJournalSlot → ℕ
one_if none = 0
one_if (some s) = 1

within-Above :
    (lo d hi : Lsn) (m : OrderedMap MemJournalSlot)
    → Above lo m
    → d ≤ lo
    → within d hi m ≡ within (d + 1) hi m
within-Above lo d hi [] a h = refl
within-Above lo d hi ((k, v) ∷ m) a h = ground (arith, within-Above k d hi m)

within-suc :
    (lo d hi : Lsn) (m : OrderedMap MemJournalSlot)
    → Above lo m
    → d ≤ hi
    → length (within d hi m) ≡ one_if (find d m) + length (within (d + 1) hi m)
within-suc lo d hi [] a h = omega arith
within-suc lo d hi ((k, v) ∷ m) a h =
    ground (arith, within-suc k d hi m, find-Above k d m, within-Above k d hi m)

within-none : (d hi : Lsn) (m : OrderedMap MemJournalSlot) → hi < d → within d hi m ≡ []
within-none d hi [] h = refl
within-none d hi ((k, v) ∷ m) h = ground (arith, within-none d hi m)

missing-within :
    (n : ℕ) (d : Lsn) (hi : Lsn) (m : OrderedMap MemJournalSlot)
    → Above 0 m
    → hi + 1 ≡ d + n
    → length (missing n d m) + length (within d hi m) ≡ n
missing-within zero d hi m a h = rw (within-none d hi m (omega arith)) refl
missing-within (suc n) d hi m a h = elim (Option-cases (find d m)) [
  | inl gone ↦
      rw (gone, missing) (ground (arith, within-suc 0 d hi m, missing-within n (d + 1) hi m))
  | inr (s, e) ↦
      rw (e, missing) (ground (arith, within-suc 0 d hi m, missing-within n (d + 1) hi m))
]

-- The count of missing slots, which is had by a subtraction, is that of a walk of the dLSNs between
-- the commit frontier and the last append, on a valid replica.
pub stats-missing_count :
    (r : MemCraftReplica)
    → IsValid r
    → (stats r).missing_count
      ≡ length (missing (r.last_append_lsn - r.commit_lsn) (r.commit_lsn + 1) r.journal)
unfolding stats
stats-missing_count r v = ground (
  arith,
  missing-within (r.last_append_lsn - r.commit_lsn) (r.commit_lsn + 1) r.last_append_lsn r.journal,
  v.ordered,
)
