-- ===== src/Transport/Login.antt =====
-- What a login leaves behind on the live replicas, and when the cold path refuses.
use craft_client.Prelude.{
  ℕ, ◌+◌, ◌≤◌, ◌≡◌, refl, ap₂, true, false, ◌&&◌, List, [], ◌∷◌, map, length, arith, leb, ◌==◌, max,
  All, Bool-cases, inl, inr, ltb, if◌then◌else◌,
}
use craft_client.Prelude.Results.{ok}
use craft_client.Types.{Lsn, no_lsn, LoginResult}
use craft_client.Replica.{MemCraftReplica}
use craft_client.Prelude.OrderedMap.{find-up_to}
use craft_client.Replica.Ops.{cold_apply_login, cold_apply_sync, cold_truncate_above}
use craft_client.Transport.Agreement.{slot_of}
use craft_client.Transport.{
  Between, MemTransport, quorum, live_replicas, max_append, truncate_tail, login_phases, run_login,
}

max_append-le : (live : List MemCraftReplica) (rs : Lsn) → rs ≤ max_append live rs
max_append-le [] rs = omega arith
max_append-le (r ∷ live) rs = omega (arith, max_append-le live (max rs r.last_append_lsn))

max_append-bound :
    (live : List MemCraftReplica) (rs : Lsn)
    → All (λ r. r.last_append_lsn ≤ max_append live rs) live
max_append-bound [] rs = tt
max_append-bound (r ∷ live) rs = (
  omega (arith, max_append-le live (max rs r.last_append_lsn)),
  max_append-bound live (max rs r.last_append_lsn),
)

-- What login makes of one replica.
abbrev pub LoggedIn : ℕ → ℕ → Lsn → MemCraftReplica → Type 0
LoggedIn client_token nt rs q =
    (q.term ≡ nt) × (q.client_token ≡ client_token) × (q.last_append_lsn ≤ rs)

-- A replica just before it is fenced.
abbrev pub unfenced : Between → Lsn → MemCraftReplica → MemCraftReplica
unfenced between rs r = between 2 (cold_apply_sync (between 1 r) rs)

abbrev login_one : Between → ℕ → ℕ → Lsn → MemCraftReplica → MemCraftReplica
login_one between client_token nt rs r =
    truncate_tail between rs (between 3 (cold_apply_login (unfenced between rs r) client_token nt))

-- The requests after the fence are of other terms, and so refused.
module _ (between : Between) (client_token nt : ℕ)
    (fenced : (k : ℕ) (r : MemCraftReplica) → 3 ≤ k → r.term ≡ nt → between k r ≡ r) where
  fenced_once :
      (rs : Lsn) (u : MemCraftReplica)
      → let q = cold_apply_login u client_token nt in
        let t = if ltb rs q.last_append_lsn then cold_truncate_above q rs else q in
        LoggedIn client_token nt rs t × ((d : Lsn) → d ≤ rs → slot_of d t ≡ slot_of d u)
  unfolding cold_apply_login cold_truncate_above
  fenced_once rs u = elim (Bool-cases (ltb rs u.last_append_lsn)) [
    | inl tail ↦
        rw tail ((refl, refl, omega arith), (λ d le. ground (arith, find-up_to rs u.journal d)))
    | inr short ↦ rw short ((refl, refl, ground arith), (λ d le. refl))
  ]

  login_one_lem :
      (rs : Lsn) (r : MemCraftReplica)
      → LoggedIn client_token nt rs (login_one between client_token nt rs r)
        × ((d : Lsn)
            → d ≤ rs
            → slot_of d (login_one between client_token nt rs r)
              ≡ slot_of d (unfenced between rs r))
  login_one_lem rs r =
      let u = unfenced between rs r in
      let q = cold_apply_login u client_token nt in
      let term : q.term ≡ nt = unfold cold_apply_login in refl in
      let same : between 3 q ≡ q = fenced 3 q (omega arith) term in
      let again : between 4 q ≡ q = fenced 4 q (omega arith) term in
      rw (same, again) (fenced_once rs u)

  -- Let a login be granted, with any requests on the live replicas between its visits, but none
  -- that changes a replica once it has the new term. Then the commit point that it returns is no
  -- lower than the append watermark of any live replica as it was when it was asked, and each live
  -- replica ends with the new term, the client's token and an append watermark no higher than the
  -- commit point, also where a late write of the old session had raised it; its slots up to the
  -- commit point are those that it held when it was fenced.
  pub login_phases_lem :
      (live : List MemCraftReplica)
      → let (phased, rs) = login_phases between live client_token nt in
        All (λ r. r.last_append_lsn ≤ rs) live
        × All (LoggedIn client_token nt rs) phased
        × ((d : Lsn)
            → d ≤ rs
            → map (slot_of d) phased ≡ map (λ r. slot_of d (unfenced between rs r)) live)
  unfolding login_phases
  login_phases_lem live =
      let ends = each live (max_append live no_lsn) in
      (max_append-bound live no_lsn, ends.0, ends.1)
    where
      each :
          (xs : List MemCraftReplica) (rs : Lsn)
          → let synced = map (λ r. cold_apply_sync (between 1 r) rs) xs in
            let logged_in = map (λ r. cold_apply_login (between 2 r) client_token nt) synced in
            let phased = map (λ r. truncate_tail between rs (between 3 r)) logged_in in
            All (LoggedIn client_token nt rs) phased
            × ((d : Lsn)
                → d ≤ rs
                → map (slot_of d) phased ≡ map (λ r. slot_of d (unfenced between rs r)) xs)
      each [] rs = (tt, (λ d le. refl))
      each (x ∷ xs) rs =
          let one = login_one_lem rs x in
          let rest = each xs rs in
          ((one.0, rest.0), (λ d le. ap₂ (λ o os. o ∷ os) (one.1 d le) (rest.1 d le)))

-- A login is granted exactly when the caller is up, leads, and sees a quorum of the members; then
-- the term of the set grows by one and the reply carries it. Otherwise nothing changes.
pub run_login_term :
    (between : Between) (net : MemTransport) (caller : MemCraftReplica) (client_token : ℕ)
    → let (reply, after) = run_login between net caller client_token in
      let granted =
        caller.faults.up
        && (caller.id == net.leader)
        && leb (quorum (length net.members)) (length (live_replicas net)) in
      (granted ≡ false → after ≡ net)
      × (granted ≡ true
          → (after.term ≡ net.term + 1)
            × ((lr : LoginResult) → reply ≡ ok lr → lr.term ≡ net.term + 1))
unfolding run_login
run_login_term between net caller client_token = ground arith
