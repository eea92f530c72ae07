-- ===== src/Raft/Service.antt =====
-- The Raft service of a server (src/raft/raft_service.hpp, src/raft/raft_service.cpp) and the
-- creation of a volume. NuRaft and its messaging are parameters: whether a group can be created and
-- a member added, and what a log's append returns. A state manager is known by its replication
-- context, which may be null.
use craft_client.Prelude.{
  ℕ, ◌≡◌, refl, ◌∙◌, ◌⊎◌, inl, inr, Bool, true, false, not, Option, none, some, List, [], ◌∷◌, ◌==◌,
  if◌then◌else◌, length, Bool-cases, Option-cases, arith,
}
use craft_client.Prelude.OrderedMap.{OrderedMap, find, assign, find-assign}
use craft_client.Prelude.Results.{ok, unexpected}
use craft_client.Types.{ErrorCondition, Result, craft, internal}
use craft_client.ReplicaMgr.{
  ReplicaInfo, ReplicaManager, lookup_peer, all_known, register_volume, get_volume,
}

-- `raft_leader_id` is empty where there is no leader.
pub record ReplContext : Type 0 where
  pub is_raft_leader : Bool
  pub raft_leader_id : Option ℕ

pub record RaftService : Type 0 where
  pub server_uuid : ℕ
  pub consensus : Bool
  pub state_mgrs : OrderedMap (Option ReplContext)

unfoldable pub is_raft_enabled : RaftService → Bool
is_raft_enabled s = s.consensus

unfoldable pub get_state_mgr : RaftService → ℕ → Result (Option ReplContext)
get_state_mgr s group = elim (find group s.state_mgrs) [
  | none ↦ unexpected (craft internal)
  | some mgr ↦ ok mgr
]

unfoldable pub add_state_mgr : ℕ → Option ReplContext → RaftService → RaftService
add_state_mgr group mgr s = record s { state_mgrs = assign group mgr s.state_mgrs }

-- A group keeps the manager that it has; a new one has no context yet.
unfoldable pub create_state_mgr : ℕ → RaftService → Option ReplContext × RaftService
create_state_mgr group s = elim (get_state_mgr s group) [
  | ok mgr ↦ (mgr, s)
  | unexpected e ↦ (none, add_state_mgr group none s)
]

abbrev pub leads : Result (Option ReplContext) → Bool
leads (ok (some ctx)) = ctx.is_raft_leader
leads (ok none) = false
leads (unexpected e) = false

unfoldable pub is_leader : RaftService → ℕ → Bool
is_leader s group = if not s.consensus then false else leads (get_state_mgr s group)

-- The nil id, 0, where none is known.
abbrev pub id_or_nil : Option ℕ → ℕ
id_or_nil none = 0
id_or_nil (some id) = id

abbrev pub leader_of : Result (Option ReplContext) → ℕ
leader_of (ok (some ctx)) = id_or_nil ctx.raft_leader_id
leader_of (ok none) = 0
leader_of (unexpected e) = 0

unfoldable pub leader_id : RaftService → ℕ → ℕ
leader_id s group = if not s.consensus then 0 else leader_of (get_state_mgr s group)

abbrev pub append_to : Result (Unit {0}) → Result (Option ReplContext) → Result (Unit {0})
append_to status (ok (some ctx)) = status
append_to status (ok none) = unexpected (craft internal)
append_to status (unexpected e) = unexpected (craft internal)

-- `status` is what the append to the log returns.
unfoldable pub propose : RaftService → ℕ → Result (Unit {0}) → Result (Unit {0})
propose s group status = append_to status (get_state_mgr s group)

unfoldable pub add_members : ReplicaManager → ℕ → (ℕ → Bool) → List ℕ → Result (Unit {0})
add_members g server_uuid add_member [] = ok tt
add_members g server_uuid add_member (m ∷ members) =
    let rest = add_members g server_uuid add_member members in
    if length (lookup_peer g m) == 0
    then unexpected (craft internal)
    else if m == server_uuid
    then rest
    else if not (add_member m)
    then unexpected (craft internal)
    else rest

unfoldable pub create_group :
    ReplicaManager → RaftService → Bool → (ℕ → Bool) → List ℕ → Result (Unit {0})
create_group g s created add_member members =
    if not s.consensus
    then unexpected (craft internal)
    else if not created
    then unexpected (craft internal)
    else add_members g s.server_uuid add_member members

abbrev pub register_after :
    Result (Unit {0}) → ℕ → List ℕ → ReplicaManager → Result (Unit {0}) × ReplicaManager
register_after (unexpected e) vol members g = (unexpected e, g)
register_after (ok u) vol members g = (ok u, (register_volume g vol members).1)

-- The whole of a replica's `srv_create_volume`. The result of the registration is not looked at.
unfoldable pub srv_create_volume :
    ReplicaManager
    → RaftService
    → Bool
    → (ℕ → Bool)
    → ℕ
    → List ℕ
    → Result (Unit {0}) × ReplicaManager
srv_create_volume g s created add_member vol members =
    let (infos, g') = get_volume g vol in
    if not (length infos == 0)
    then (ok tt, g')
    else register_after (create_group g' s created add_member members) vol members g'

-- A member with an address is known.
known_address :
    (g : ReplicaManager) (i : ℕ)
    → (length (lookup_peer g i) == 0) ≡ false
    → (r : ReplicaInfo) × (find i g.replicas ≡ some r)
unfolding lookup_peer
known_address g i h = elim (Option-cases (find i g.replicas)) [
  | inl gone ↦ absurd (cc (rw (gone, lookup_peer) at h))
  | inr (r, e) ↦ (r, e)
]

add_members-all_known :
    (g : ReplicaManager) (self : ℕ) (add_member : ℕ → Bool) (members : List ℕ) (u : Unit {0})
    → add_members g self add_member members ≡ ok u
    → all_known g.replicas members ≡ true
unfolding add_members
add_members-all_known g self add_member [] u e = refl
add_members-all_known g self add_member (m ∷ members) u e =
    elim (Bool-cases (length (lookup_peer g m) == 0)) [
      | inl unknown ↦ absurd (cc (rw unknown at e))
      | inr addressed ↦
          let (r, held) = known_address g m addressed in
          rw (held, all_known)
            (add_members-all_known g self add_member members u
              (after (m == self) (add_member m) (rw addressed at e)))
    ]
  where
    after :
        (own added : Bool) {rest : Result (Unit {0})}
        → (if own then rest else if not added then unexpected (craft internal) else rest) ≡ ok u
        → rest ≡ ok u
    after true added h = h
    after false true h = h
    after false false h = absurd (cc h)

create_group-all_known :
    (g : ReplicaManager) (s : RaftService) (created : Bool) (add_member : ℕ → Bool)
    (members : List ℕ) (u : Unit {0})
    → create_group g s created add_member members ≡ ok u
    → all_known g.replicas members ≡ true
unfolding create_group
create_group-all_known g s created add_member members u e = elim (Bool-cases s.consensus) [
  | inr off ↦ absurd (cc (rw off at e))
  | inl on ↦ elim (Bool-cases created) [
    | inr failed ↦ absurd (cc (rw (on, failed) at e))
    | inl done ↦ add_members-all_known g s.server_uuid add_member members u (rw (on, done) at e)
  ]
]

registered :
    (vol : ℕ) (members : List ℕ) (g : ReplicaManager)
    → all_known g.replicas members ≡ true
    → find vol (register_volume g vol members).1.volumes ≡ some members
unfolding register_volume
registered vol members g known = rw known (find-assign vol members g.volumes vol ∙ ground arith)

register_after_lem :
    (r : Result (Unit {0})) (vol : ℕ) (members : List ℕ) (g : ReplicaManager)
    → ((u : Unit {0}) → r ≡ ok u → all_known g.replicas members ≡ true)
    → let (reply, q) = register_after r vol members g in
      (((reply ≡ ok tt) × (find vol q.volumes ≡ some members))
        ⊎ ((e : ErrorCondition) × (reply ≡ unexpected e) × (q ≡ g)))
register_after_lem (ok u) vol members g h = inl (refl, registered vol members g (h u refl))
register_after_lem (unexpected e) vol members g h = inr (e, refl, refl)

-- For a volume that the replica manager does not know, the creation either succeeds, and then the
-- volume is registered with just these members, though the code ignores what the registration
-- returns; or it fails and leaves the manager as the lookup of the volume left it.
pub srv_create_volume_lem :
    (g : ReplicaManager) (s : RaftService) (created : Bool) (add_member : ℕ → Bool) (vol : ℕ)
    (members : List ℕ)
    → (length (get_volume g vol).0 == 0) ≡ true
    → let (reply, q) = srv_create_volume g s created add_member vol members in
      ((reply ≡ ok tt) × (find vol q.volumes ≡ some members))
      ⊎ ((e : ErrorCondition) × (reply ≡ unexpected e) × (q ≡ (get_volume g vol).1))
unfolding srv_create_volume
srv_create_volume_lem g s created add_member vol members new =
    let g' = (get_volume g vol).1 in
    rw new (
      register_after_lem (create_group g' s created add_member members) vol members g'
        (create_group-all_known g' s created add_member members))
