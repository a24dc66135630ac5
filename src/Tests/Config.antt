-- ===== src/Tests/Config.antt =====
-- Calls on a configuration of src/config/mod.rs.
use fuji.Base.{
  ◌||◌, ◌++◌, not, is_some, filter, ◌+◌, ◌%◌, ◌^◌, ◌≤◌, ◌<◌, ◌≡◌, refl, none, some, List, [], ◌∷◌,
  arith, if◌then◌else◌, str_eq,
}
use fuji.Mount.Config.{MountConfig}
use fuji.Config.{Config, PeerInfo, connected, default_config}
use fuji.Config.Operations.{
  initialize_cluster, add_mount, get_mount, remove_mount, update_mount, has_peer, add_cluster_peer,
  remove_cluster_peer,
}
use fuji.Config.Operations.Mounts.{updated, mounts_change}
use fuji.Config.Operations.Peers.{peers_of, UniqueIds, cluster_peers}
use fuji.Config.ForceSync.{initiate_force_sync}
use fuji.Config.ForceSync.Runs.{
  Call, initiate, complete, fail, run, begin, under_way, attempts, force_sync_run,
}
use fuji.Tests.Merge.{share}

abbrev clustered : Config
clustered = initialize_cluster "a" default_config

abbrev calls : List Call
calls =
    initiate 1 "manual" "cli" ∷ complete 2 1 0 ∷ fail 3 "late" 1 ∷ initiate 4 "manual" "cli" ∷ []

-- The failure after the end is refused.
one_ended : (run calls (begin clustered)).ended ≡ 1
unfolding run initialize_cluster initiate_force_sync
one_ended = refl

idle_cluster : under_way clustered ≡ 0
unfolding under_way initialize_cluster
idle_cluster = refl

no_attempts : attempts clustered < 2 ^ 32
unfolding attempts initialize_cluster
no_attempts = omega arith

force_sync_run_example :
    ((run calls (begin clustered)).ended + under_way (run calls (begin clustered)).config
      ≤ (run calls (begin clustered)).started)
    × (attempts (run calls (begin clustered)).config
        ≡ (attempts clustered + (run calls (begin clustered)).started) % 2 ^ 32)
force_sync_run_example = force_sync_run calls clustered idle_cluster no_attempts

abbrev mount : MountConfig
mount = (share "/mnt/a").config

mounts_change_example :
    (get_mount "m" (add_mount mount clustered)
      ≡ (if str_eq "m" "m" then some mount else get_mount "m" clustered))
    × ((remove_mount "m" clustered).1 ≡ get_mount "m" clustered)
    × (get_mount "m" (remove_mount "m" clustered).0
        ≡ (if str_eq "m" "m" then none else get_mount "m" clustered))
    × (get_mount "m" (update_mount 8 "m" mount clustered) ≡ (
        if str_eq "m" "m"
        then updated 8 mount (get_mount "m" clustered)
        else get_mount "m" clustered))
mounts_change_example = mounts_change 8 "m" mount clustered "m"

abbrev peer : PeerInfo
peer = record {
  id = "b";
  address = "10.0.0.2:10080";
  psk = "secret";
  last_seen = 3;
  status = connected;
}

abbrev third : PeerInfo
third = record peer { id = "c"; psk = "other" }

abbrev of_two : Config
of_two = add_cluster_peer third (add_cluster_peer peer clustered)

two_peers : UniqueIds (peers_of of_two)
unfolding peers_of add_cluster_peer initialize_cluster
two_peers = (refl, (refl, tt))

cluster_peers_example :
    UniqueIds (peers_of (add_cluster_peer peer of_two))
    × (peers_of (add_cluster_peer peer of_two) ≡ (
        if has_peer "b" (peers_of of_two) || not (is_some of_two.cluster)
        then peers_of of_two
        else peers_of of_two ++ peer ∷ []))
    × UniqueIds (peers_of (remove_cluster_peer "b" of_two).0)
    × ((remove_cluster_peer "b" of_two).1 ≡ has_peer "b" (peers_of of_two))
    × (peers_of (remove_cluster_peer "b" of_two).0
        ≡ filter (λ p. not (str_eq p.id "b")) (peers_of of_two))
cluster_peers_example = cluster_peers peer "b" of_two two_peers
