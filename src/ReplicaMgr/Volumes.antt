-- ===== src/ReplicaMgr/Volumes.antt =====
-- What a registered volume's lookup returns.
use craft_client.Prelude.{
  ℕ, ◌≡◌, inl, inr, refl, ap, ◌∙◌, true, false, some, List, [], ◌∷◌, map, arith, Option-cases,
  Bool-cases,
}
use craft_client.Prelude.OrderedMap.{OrderedMap, find, assign, find-assign}
use craft_client.Prelude.Results.{ok, unexpected}
use craft_client.Types.{craft, internal}
use craft_client.ReplicaMgr.{
  ReplicaInfo, ReplicaManager, all_known, register_volume, infos, get_volume, get,
}

-- The known members' entries, without a change of the map.
infos-all_known :
    (members : List ℕ) (m : OrderedMap ReplicaInfo)
    → all_known m members ≡ true
    → ((infos members m).1 ≡ m) × (map some (infos members m).0 ≡ map (λ i. find i m) members)
infos-all_known [] m h = (refl, refl)
infos-all_known (i ∷ members) m h = elim (Option-cases (find i m)) [
  | inl gone ↦ absurd (ground arith)
  | inr (r, e) ↦ rw e (
    (infos-all_known members m (rw (e, all_known) at h)).0,
    ap (λ l. some r ∷ l) (infos-all_known members m (rw (e, all_known) at h)).1,
  )
]

-- A volume is registered exactly when all its members are known, and a refused registration changes
-- nothing. Once it is registered, the lookup of the volume returns the entry of each member, in
-- order, and adds none.
pub get_volume-register_volume :
    (g : ReplicaManager) (vol : ℕ) (members : List ℕ)
    → let (reply, after) = register_volume g vol members in
      (all_known g.replicas members ≡ false → (reply ≡ unexpected (craft internal)) × (after ≡ g))
      × (all_known g.replicas members ≡ true
          → (reply ≡ ok tt)
            × ((get_volume after vol).1 ≡ after)
            × (map some (get_volume after vol).0 ≡ map (get after) members))
unfolding register_volume get_volume get
get_volume-register_volume g vol members = elim (Bool-cases (all_known g.replicas members)) [
  | inl known ↦ rw known (
    (λ h. ground arith),
    (λ h. (
      refl,
      rw (found, get_volume)
          (ap (λ m. record g { replicas = m; volumes = assign vol members g.volumes })
            (infos-all_known members g.replicas known).0),
      ap (map some) (rw (found, get_volume) refl) ∙ (infos-all_known members g.replicas known).1,
    )),
  )
  | inr unknown ↦ rw unknown ((λ h. (refl, refl)), (λ h. ground arith))
]
  where
    found : find vol (assign vol members g.volumes) ≡ some members
    found = find-assign vol members g.volumes vol ∙ ground arith
