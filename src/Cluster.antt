-- ===== src/Cluster.antt =====
-- src/cluster/mod.rs: what an instance knows of its cluster, `ClusterState`. Each of its locks is
-- held by one call at a time, so a call is a function from the state to the state; the clock is an
-- argument. The warnings about peers that were not seen are logging.
pub mod Discovery
pub mod Invitations
pub mod Peers
use fuji.Base.{
  ℕ, ◌+◌, String, Bool, true, false, ◌||◌, Option, none, some, List, [], ◌∷◌, length, map, filter,
  ltb, Dict, get, insert, remove,
}
use fuji.Config.{ClusterConfig, PeerInfo, PeerStatus, connected, disconnected, suspended, leaving}

pub record ClusterState : Type 0 where
  pub config : Option ClusterConfig
  pub peers : Dict PeerInfo
  pub last_sync_initiation : Option ℕ
  pub last_peer_request : Option ℕ

abbrev pub new_state : ClusterState
new_state = record {
  config = none;
  peers = [];
  last_sync_initiation = none;
  last_peer_request = none;
}

abbrev pub is_connected : PeerStatus → Bool
is_connected connected = true
is_connected _ = false

abbrev pub is_disconnected : PeerStatus → Bool
is_disconnected disconnected = true
is_disconnected _ = false

abbrev pub is_suspended : PeerStatus → Bool
is_suspended suspended = true
is_suspended _ = false

unfoldable pub insert_peers : List PeerInfo → Dict PeerInfo → Dict PeerInfo
insert_peers [] m = m
insert_peers (p ∷ ps) m = insert_peers ps (insert p.id p m)

unfoldable pub initialize : ClusterConfig → ClusterState → ClusterState
unfolding insert_peers
initialize config s = record s { config = some config; peers = insert_peers config.peers [] }

abbrev pub is_enabled : ClusterState → Bool
is_enabled s = elim s.config [ some c ↦ c.enabled | none ↦ false ]

abbrev pub instance_id_of : ClusterState → Option String
instance_id_of s = elim s.config [ some c ↦ some c.instance_id | none ↦ none ]

unfoldable pub update_peer : PeerInfo → ClusterState → ClusterState
update_peer peer s = record s { peers = insert peer.id peer s.peers }

unfoldable pub remove_peer : String → ClusterState → ClusterState × Bool
remove_peer peer_id s = elim (get peer_id s.peers) [
  | some p ↦ (record s { peers = remove peer_id s.peers }, true)
  | none ↦ (s, false)
]

-- `HashMap::values`
abbrev pub values {ℓ} : {V : Type ℓ} → Dict V → List V
values [] = []
values ((k, v) ∷ m) = v ∷ values m

abbrev pub get_peers : ClusterState → List PeerInfo
get_peers s = values s.peers

unfoldable pub get_peer : String → ClusterState → Option PeerInfo
get_peer peer_id s = get peer_id s.peers

-- `get_mut` and a change of what is there.
unfoldable pub change_peer : (PeerInfo → PeerInfo) → String → ClusterState → ClusterState
change_peer f peer_id s = elim (get peer_id s.peers) [
  | some p ↦ record s { peers = insert peer_id (f p) s.peers }
  | none ↦ s
]

unfoldable pub update_peer_status : ℕ → String → PeerStatus → ClusterState → ClusterState
unfolding change_peer
update_peer_status now peer_id status =
    change_peer (λ peer. record peer { status = status; last_seen = now }) peer_id

abbrev pub seen_status : PeerStatus → PeerStatus
seen_status disconnected = connected
seen_status status = status

unfoldable pub mark_peer_seen : ℕ → String → ClusterState → ClusterState
unfolding change_peer
mark_peer_seen now =
    change_peer (λ peer. record peer { last_seen = now; status = seen_status peer.status })

-- `(now - last_seen) < timeout`, a signed comparison.
abbrev pub is_healthy : ℕ → ℕ → PeerInfo → Bool
is_healthy now timeout peer = is_connected peer.status || ltb now (peer.last_seen + timeout)

unfoldable pub get_healthy_peers : ℕ → ℕ → ClusterState → List PeerInfo
get_healthy_peers now timeout s = filter (is_healthy now timeout) (get_peers s)

abbrev pub get_sync_config : ClusterState → Option (ℕ × ℕ)
get_sync_config s = elim s.config [ some c ↦ some (c.sync_interval, c.sync_timeout) | none ↦ none ]

unfoldable pub mark_sync_initiated : ℕ → ClusterState → ClusterState
mark_sync_initiated now s = record s { last_sync_initiation = some now }

unfoldable pub mark_peer_request : ℕ → ClusterState → ClusterState
mark_peer_request now s = record s { last_peer_request = some now }

unfoldable pub should_initiate_sync : ℕ → ClusterState → Bool
should_initiate_sync now s = elim s.config [
  | some c ↦ elim s.last_peer_request [ some last ↦ ltb (last + c.sync_timeout) now | none ↦ true ]
  | none ↦ false
]

pub record ClusterStats : Type 0 where
  pub total_peers : ℕ
  pub connected_peers : ℕ
  pub disconnected_peers : ℕ
  pub suspended_peers : ℕ
  pub last_sync_initiation : Option ℕ
  pub last_peer_request : Option ℕ

unfoldable pub get_stats : ClusterState → ClusterStats
get_stats s = record {
  total_peers = length s.peers;
  connected_peers = length (filter (λ p. is_connected p.status) (get_peers s));
  disconnected_peers = length (filter (λ p. is_disconnected p.status) (get_peers s));
  suspended_peers = length (filter (λ p. is_suspended p.status) (get_peers s));
  last_sync_initiation = s.last_sync_initiation;
  last_peer_request = s.last_peer_request;
}
