-- ===== src/ReplicaMgr.antt =====
-- The replica manager of a server (src/replica_mgr.hpp, src/replica_mgr.cpp): the peers that its
-- configuration names, and the volumes' members.
pub mod Volumes
use craft_client.Prelude.{
  ℕ, zero, suc, ◌+◌, ◌/◌, ◌%◌, ◌≡◌, ◌≢◌, refl, Bool, true, false, not, Option, none, some, List, [],
  ◌∷◌, ◌++◌, map, ltb, ◌==◌, if◌then◌else◌,
}
use craft_client.Prelude.OrderedMap.{OrderedMap, find, assign}
use craft_client.Prelude.Results.{Expected, ok, unexpected}
use craft_client.Types.{Result, craft, internal}

-- `peer_client` says whether there is one; a server has none for itself.
pub record ReplicaInfo : Type 0 where
  pub id : ℕ
  pub host : List ℕ
  pub raft_port : ℕ
  pub tcp_port : ℕ
  pub peer_client : Bool

abbrev pub no_info : ReplicaInfo
no_info = record { id = 0; host = []; raft_port = 0; tcp_port = 0; peer_client = false }

pub record ReplicaManager : Type 0 where
  pub id : ℕ
  pub replicas : OrderedMap ReplicaInfo
  pub volumes : OrderedMap (List ℕ)

-- One member of the configuration file.
pub record MemberConfig : Type 0 where
  pub uuid : ℕ
  pub host : List ℕ
  pub raft_port : ℕ
  pub tcp_port : ℕ

-- `emplace` keeps an entry that is there.
abbrev pub emplace_new :
    Option ReplicaInfo → ℕ → ReplicaInfo → OrderedMap ReplicaInfo → OrderedMap ReplicaInfo
emplace_new none k v m = assign k v m
emplace_new (some old) k v m = m

abbrev pub emplace : ℕ → ReplicaInfo → OrderedMap ReplicaInfo → OrderedMap ReplicaInfo
emplace k v m = emplace_new (find k m) k v m

abbrev pub load_members : ℕ → List MemberConfig → OrderedMap ReplicaInfo → OrderedMap ReplicaInfo
load_members my_uuid [] replicas = replicas
load_members my_uuid (c ∷ members) replicas = load_members my_uuid members (
    emplace c.uuid
      (record {
        id = c.uuid;
        host = c.host;
        raft_port = c.raft_port;
        tcp_port = c.tcp_port;
        peer_client = not (c.uuid == my_uuid);
      })
      replicas)

-- `config` is what the file at the path holds: `none` where it cannot be opened or parsed.
unfoldable pub start_replica_service :
    ReplicaManager → Option (List MemberConfig) → ℕ → ReplicaManager
start_replica_service g none my_uuid = record g { id = my_uuid }
start_replica_service g (some members) my_uuid = record g {
  id = my_uuid;
  replicas = load_members my_uuid members [];
}

-- `std::to_string`, with as many digits as the fuel allows.
abbrev pub digits : ℕ → ℕ → List ℕ
digits zero n = []
digits (suc fuel) n =
    let rest = digits fuel (n / 10) in
    if n / 10 == 0 then (48 + n % 10) ∷ [] else rest ++ (48 + n % 10) ∷ []

-- The address of a known peer; a port, a `uint16_t`, has at most five digits.
unfoldable pub lookup_peer : ReplicaManager → ℕ → List ℕ
lookup_peer g i = elim (find i g.replicas) [
  | none ↦ []
  | some r ↦ r.host ++ 58 ∷ digits 5 r.raft_port
]

unfoldable pub get : ReplicaManager → ℕ → Option ReplicaInfo
get g i = find i g.replicas

-- Whether every member is known.
abbrev pub all_known : OrderedMap ReplicaInfo → List ℕ → Bool
all_known replicas [] = true
all_known replicas (i ∷ members) =
    let rest = all_known replicas members in elim (find i replicas) [ none ↦ false | some r ↦ rest ]

unfoldable pub register_volume : ReplicaManager → ℕ → List ℕ → Result (Unit {0}) × ReplicaManager
register_volume g vol_uuid members =
    if all_known g.replicas members
    then (ok tt, record g { volumes = assign vol_uuid members g.volumes })
    else (unexpected (craft internal), g)

-- `replicas_[id]`, which puts an empty entry where there is none.
abbrev pub subscript :
    Option ReplicaInfo → ℕ → OrderedMap ReplicaInfo → ReplicaInfo × OrderedMap ReplicaInfo
subscript none i m = (no_info, assign i no_info m)
subscript (some r) i m = (r, m)

abbrev pub infos : List ℕ → OrderedMap ReplicaInfo → List ReplicaInfo × OrderedMap ReplicaInfo
infos [] m = ([], m)
infos (i ∷ members) m =
    let (r, m') = subscript (find i m) i m in let (rs, m'') = infos members m' in (r ∷ rs, m'')

unfoldable pub get_volume : ReplicaManager → ℕ → List ReplicaInfo × ReplicaManager
get_volume g volume_id = elim (find volume_id g.volumes) [
  | none ↦ ([], g)
  | some members ↦
      let (rs, replicas) = infos members g.replicas in (rs, record g { replicas = replicas })
]
