-- ===== src/Tests/Coordinator.antt =====
-- Runs of the coordinator of src/sync/coordinator.rs on two instances.
use fuji.Base.{
  ℕ, ◌+◌, ◌≤◌, ◌<◌, String, Bool, true, false, Option, none, some, List, [], ◌∷◌, ◌++◌, Memᴰ, ◌≡◌,
  refl, arith, ◌⊎◌, inl, get, insert, UniqueKeys, ok, err,
}
use fuji.Mount.Config.{MountConfig}
use fuji.Config.{ClusterConfig, PeerInfo, connected, disconnected, new_cluster}
use fuji.Config.Operations.{is_cluster_enabled}
use fuji.Cluster.{
  ClusterState, initialize, insert_peers, new_state, get_peer, mark_peer_seen, mark_peer_request,
  get_healthy_peers,
}
use fuji.Cluster.Peers.{initialized, call, calls, mark_peer_seen-healthy}
use fuji.Cluster.Discovery.{invitation_expired, new_invitation, accept_invitation, hours}
use fuji.Cluster.Invitations.{invitation-accepted}
use fuji.Sync.Merge.Grouping.{AreMaps}
use fuji.Sync.Merge.Configs.{sync_version_of}
use fuji.Sync.Protocol.{
  SyncMessage, SyncRequest, SyncResponse, ConfigUpdate, sync_request, sync_response, config_update,
}
use fuji.Sync.Coordinator.{PendingSync, SyncCoordinator, new, ended, waits, Done, ends, not_enabled}
use fuji.Sync.Coordinator.Handle.{add_response, handle_sync_message}
use fuji.Sync.Coordinator.Initiate.{check_and_initiate_sync, force_sync}
use fuji.Sync.Coordinator.Run.{Event, message, tick, run}
use fuji.Sync.Coordinator.Steps.{content}
use fuji.Sync.Coordinator.Tasks.{Turn, whole, check, write, begin, turns}
use fuji.Sync.Coordinator.Tasks.Register.{All, act_all, register_of, turns-register}
use fuji.Sync.Coordinator.Tasks.Kept.{turns-version_kept}
use fuji.Sync.Coordinator.Tasks.Newest.{IsOlder, newest_is_kept}
use fuji.Sync.Coordinator.Lock.{last_response-waits}
use fuji.Sync.Coordinator.Pending.{IsValid}
use fuji.Sync.Coordinator.Pending.Runs.{run-IsValid}
use fuji.Sync.Coordinator.Requests.{sync_request-answered}
use fuji.Sync.Coordinator.Postpone.{sync_request-postpones}
use fuji.Sync.Coordinator.Force.{WasRefused, WasSent}
use fuji.Sync.Coordinator.Force.Ends.{force_sync-ends}
use fuji.Tests.Merge.{config_of}

-- No JSON value is looked at in these runs, and a text is its own signature.
abbrev to_value : MountConfig → Option String
to_value m = none

abbrev sign : String → String
sign text = text

abbrev peer : PeerInfo
peer = record { id = "b"; address = "b:1"; psk = "k"; last_seen = 1; status = disconnected }

abbrev settings : ClusterConfig
settings = record (new_cluster "a") { peers = peer ∷ [] }

abbrev cluster : ClusterState
cluster = record new_state { config = some settings; peers = ("b", peer) ∷ [] }

abbrev node : SyncCoordinator
node = new "a" cluster (config_of "a" "/mnt/a")

abbrev other : SyncCoordinator
other = new "c" new_state (config_of "c" "/mnt/c")

abbrev update : ℕ → String → ConfigUpdate
update version point = record {
  config = config_of "b" point;
  sync_version = version;
  updated_by = "b";
  updated_at = 2;
  affected_mounts = "m" ∷ [];
}

abbrev old_first : List (Event String)
old_first =
    message 5 "b" (config_update (update 3 "/old"))
    ∷ tick 6
    ∷ message 7 "b" (config_update (update 7 "/new"))
    ∷ []

abbrev new_first : List (Event String)
new_first =
    message 5 "b" (config_update (update 7 "/new"))
    ∷ message 7 "b" (config_update (update 3 "/old"))
    ∷ []

-- The newer update is checked and written while the older one is between its two steps.
abbrev crossed : List (Turn String)
crossed = check 5 "b" (update 3 "/old") ∷ check 6 "b" (update 7 "/new") ∷ write 8 0 ∷ write 9 0 ∷ []

-- The older update is written last, and the newer one is lost.
newer_lost :
    content (turns to_value "" sign crossed (begin node)).coordinator.config
    ≡ (3, (config_of "b" "/old").mounts)
unfolding turns
newer_lost = refl

turns-register_example :
    register_of (turns to_value "" sign crossed (begin node))
    ≡ act_all crossed (register_of (begin node))
turns-register_example = turns-register to_value "" sign crossed (begin node) (refl, (refl, tt)) tt

turns-version_kept_example :
    sync_version_of node.config
    ≤ sync_version_of (turns to_value "" sign crossed (begin node)).coordinator.config
turns-version_kept_example =
    turns-version_kept to_value "" sign crossed (begin node) (refl, (refl, tt)) refl

-- An older update before, and one that crosses other calls after the newest.
abbrev before : List (Turn String)
before = check 5 "b" (update 3 "/old") ∷ whole (tick 6) ∷ write 7 0 ∷ []

abbrev after : List (Turn String)
after = check 9 "b" (update 3 "/old") ∷ whole (tick 10) ∷ write 11 0 ∷ []

quiet_before : (turns to_value "" sign before (begin node)).checked ≡ []
unfolding turns
quiet_before = refl

only_three : All (IsOlder (update 7 "/new")) (update 3 "/old" ∷ [])
unfolding All
only_three = (inl (omega arith), tt)

newest_is_kept_example :
    content
      (turns to_value "" sign
        (before ++ whole (message 8 "b" (config_update (update 7 "/new"))) ∷ after)
        (begin node)).coordinator.config
    ≡ (7, (config_of "b" "/new").mounts)
newest_is_kept_example =
    newest_is_kept to_value "" sign before after node (update 7 "/new") 8 "b" (refl, (refl, tt))
      (refl, tt) only_three only_three (omega arith) quiet_before

run-IsValid_example : IsValid (run to_value "" sign old_first node)
run-IsValid_example = run-IsValid to_value "" sign "a" cluster (config_of "a" "/mnt/a") old_first

-- A sync that waits for the response of one peer.
abbrev entry : PendingSync
entry = record {
  request_id = "r";
  initiated_at = 3;
  responded_peers = [];
  peer_configs = [];
  total_peers = 1;
}

abbrev waiting : SyncCoordinator
waiting = record node { pending_syncs = ("r", entry) ∷ [] }

abbrev response : SyncResponse String
response = record {
  request_id = "r";
  config = config_of "b" "/mnt/b";
  sync_version = 2;
  conflicts = [];
}

abbrev blocked : Done String (SyncMessage String)
blocked = handle_sync_message to_value "" 4 "b" (sync_response response) waiting

entry_there : get "r" waiting.pending_syncs ≡ some entry
unfolding get
entry_there = refl

all-AreMaps : AreMaps (
    (add_response "b" response.config entry).peer_configs
    ++ (waiting.instance_id, waiting.config) ∷ [])
unfolding add_response get insert
all-AreMaps = ((refl, tt), ((refl, tt), tt))

last_response-waits_example :
    (blocked.outcome ≡ waits)
    × (blocked.state.config ≡ waiting.config)
    × ((run to_value "" sign old_first blocked.state).pending_held ≡ true)
    × (get "r" (run to_value "" sign old_first blocked.state).pending_syncs
        ≡ some (record (add_response "b" response.config entry) { peer_configs = [] }))
    × ((handle_sync_message to_value "" 9 "b"
          (sync_response response)
          (run to_value "" sign old_first blocked.state)).outcome
        ≡ waits)
last_response-waits_example =
    last_response-waits to_value "" sign 4 "b" response entry waiting old_first 9 "b" response refl
      entry_there refl all-AreMaps

abbrev request : SyncRequest
request = record { request_id = "q"; requester_id = "b"; known_version = 0; mount_filter = none }

abbrev asked : Done String (SyncMessage String)
asked = handle_sync_message to_value "" 4 "b" (sync_request request) node

mounts-UniqueKeys : UniqueKeys node.config.mounts
unfolding get
mounts-UniqueKeys = (refl, tt)

sync_request-answered_example :
    (answer : SyncResponse String) × (asked.outcome ≡ ended (ok (sync_response answer)))
    × (answer.request_id ≡ "q")
    × ((mount_id : String) → get mount_id answer.config.mounts ≡ get mount_id node.config.mounts)
    × (answer.conflicts ≡ [])
    × (sync_version_of node.config + 2 ≤ answer.sync_version)
    × (asked.state ≡ record node {
      cluster_state = mark_peer_request 4 (mark_peer_seen 4 "b" node.cluster_state);
    })
    × (asked.sent ≡ [])
sync_request-answered_example =
    sync_request-answered to_value "" 4 "b" request node mounts-UniqueKeys (omega arith)

-- An update, a check and another request come before the last check.
abbrev between : List (Event String)
between =
    message 5 "b" (config_update (update 7 "/new"))
    ∷ tick 30_000_000_000
    ∷ message 40_000_000_000 "b" (sync_request request)
    ∷ []

abbrev later_on : SyncCoordinator
later_on = run to_value "" sign (message 4 "b" (sync_request request) ∷ between) node

sync_request-postpones_example :
    check_and_initiate_sync {Value = String} 60_000_000_000 later_on ≡ ends later_on (ok tt)
sync_request-postpones_example =
    sync_request-postpones to_value "" sign 4 60_000_000_000 "b" request between node settings refl
      (omega arith) (omega arith, (omega arith, (omega arith, tt)))

peer_there : get_peer "b" (calls (initialized settings ∷ []) new_state) ≡ some peer
unfolding get_peer calls call initialize insert_peers get insert
peer_there = refl

mark_peer_seen-healthy_example :
    (peer.id ≡ "b")
    × (get_peer "b" (mark_peer_seen 8 "b" (calls (initialized settings ∷ []) new_state))
        ≡ some (record peer { last_seen = 8; status = connected }))
    × ((j : String)
        → (peer.id ≡ j)
          ⊎ (get_peer j (mark_peer_seen 8 "b" (calls (initialized settings ∷ []) new_state))
              ≡ get_peer j (calls (initialized settings ∷ []) new_state)))
    × Memᴰ
        (record peer { last_seen = 8; status = connected })
        (get_healthy_peers 9 5 (mark_peer_seen 8 "b" (calls (initialized settings ∷ []) new_state)))
mark_peer_seen-healthy_example =
    mark_peer_seen-healthy (initialized settings ∷ []) 8 9 5 "b" peer peer_there (omega arith)

abbrev accepts : String → Bool
accepts id = true

abbrev forced : Done String (Unit {0})
forced = force_sync accepts 9 "because" node

force_sync-ends_example :
    ((is_cluster_enabled node.config ≡ false) × (forced ≡ ends node (err not_enabled)))
    ⊎ ((is_cluster_enabled node.config ≡ true)
        × (WasRefused String 9 cluster [] forced
            ⊎ ((p : PeerInfo) × (ps : List PeerInfo) × WasSent String accepts 9 "because" 70 "a"
                  cluster
                  (p ∷ ps)
                  forced)))
force_sync-ends_example = force_sync-ends String accepts 9 "because" 70 node refl

invitation-accepted_example :
    ((30 ≤ 10 + hours 1)
      × (accept_invitation sign 30
            (record (new_invitation sign 10 "b" "b:1" "k" 1) { psk = "evil"; version = "1.0" })
          ≡ ok (record {
            id = "b";
            address = "b:1";
            psk = "evil";
            last_seen = 30;
            status = disconnected;
          })))
    ⊎ ((10 + hours 1 < 30)
        × (accept_invitation sign 30
              (record (new_invitation sign 10 "b" "b:1" "k" 1) { psk = "evil"; version = "1.0" })
            ≡ err invitation_expired))
invitation-accepted_example = invitation-accepted sign 10 30 "b" "b:1" "k" 1 "evil" "1.0"
