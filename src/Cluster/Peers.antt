-- ===== src/Cluster/Peers.antt =====
-- The peers of a `ClusterState` of src/cluster/mod.rs.
use fuji.Base.{
  ℕ, ◌+◌, ◌<◌, String, some, List, [], ◌∷◌, Memᴰ, ◌≡◌, refl, ap, ◌∙◌, arith, ◌⊎◌, inl, inr,
  Bool-cases, Option-cases, Dict, get, insert, get-insert, eq_iff, eq_refl, AllEntries,
  insert-AllEntries, remove-AllEntries, get-AllEntries, mem-filter, str_eq,
}
use fuji.Config.{ClusterConfig, PeerInfo, PeerStatus}
use fuji.Cluster.{
  ClusterState, new_state, insert_peers, initialize, update_peer, remove_peer, change_peer,
  update_peer_status, mark_peer_seen, mark_sync_initiated, mark_peer_request, seen_status, values,
  get_peers, get_peer, is_healthy, get_healthy_peers,
}

-- What other code calls on the state.
pub data Call : Type 0 where
  initialized : ClusterConfig → Call
  updated : PeerInfo → Call
  removed : String → Call
  status_updated : ℕ → String → PeerStatus → Call
  seen : ℕ → String → Call
  initiated : ℕ → Call
  requested : ℕ → Call

unfoldable pub call : Call → ClusterState → ClusterState
unfolding initialize update_peer remove_peer update_peer_status mark_peer_seen mark_sync_initiated
    mark_peer_request
call (initialized c) s = initialize c s
call (updated p) s = update_peer p s
call (removed id) s = (remove_peer id s).0
call (status_updated now id status) s = update_peer_status now id status s
call (seen now id) s = mark_peer_seen now id s
call (initiated now) s = mark_sync_initiated now s
call (requested now) s = mark_peer_request now s

unfoldable pub calls : List Call → ClusterState → ClusterState
unfolding call
calls [] s = s
calls (c ∷ cs) s = calls cs (call c s)

-- Each peer stands under its own identifier.
abbrev pub IsKeyed : String → PeerInfo → Type 0
IsKeyed id p = p.id ≡ id

insert_peers-IsKeyed :
    (ps : List PeerInfo) (m : Dict PeerInfo)
    → AllEntries IsKeyed m
    → AllEntries IsKeyed (insert_peers ps m)
unfolding insert_peers
insert_peers-IsKeyed [] m h = h
insert_peers-IsKeyed (p ∷ ps) m h =
    insert_peers-IsKeyed ps (insert p.id p m) (insert-AllEntries IsKeyed p.id p m refl h)

change_peer-IsKeyed :
    (f : PeerInfo → PeerInfo) (id : String) (s : ClusterState)
    → ((p : PeerInfo) → (f p).id ≡ p.id)
    → AllEntries IsKeyed s.peers
    → AllEntries IsKeyed (change_peer f id s).peers
unfolding change_peer
change_peer-IsKeyed f id s same h = elim (Option-cases (get id s.peers)) [
  | inl e ↦ rw (change_peer, e) h
  | inr (p, e) ↦
      rw (change_peer, e)
        (insert-AllEntries IsKeyed id (f p) s.peers
          (same p ∙ get-AllEntries IsKeyed id p s.peers e h) h)
]

call-IsKeyed :
    (c : Call) (s : ClusterState) → AllEntries IsKeyed s.peers → AllEntries IsKeyed (call c s).peers
unfolding call initialize update_peer remove_peer update_peer_status mark_peer_seen
    mark_sync_initiated mark_peer_request
call-IsKeyed (initialized c) s h = insert_peers-IsKeyed c.peers [] tt
call-IsKeyed (updated p) s h = insert-AllEntries IsKeyed p.id p s.peers refl h
call-IsKeyed (removed id) s h = elim (Option-cases (get id s.peers)) [
  | inl e ↦ rw (call, remove_peer, e) h
  | inr (p, e) ↦ rw (call, remove_peer, e) (remove-AllEntries IsKeyed id s.peers h)
]
call-IsKeyed (status_updated now id status) s h = change_peer-IsKeyed _ id s (λ p. refl) h
call-IsKeyed (seen now id) s h = change_peer-IsKeyed _ id s (λ p. refl) h
call-IsKeyed (initiated now) s h = h
call-IsKeyed (requested now) s h = h

calls-IsKeyed :
    (cs : List Call) (s : ClusterState)
    → AllEntries IsKeyed s.peers
    → AllEntries IsKeyed (calls cs s).peers
unfolding calls
calls-IsKeyed [] s h = h
calls-IsKeyed (c ∷ cs) s h = calls-IsKeyed cs (call c s) (call-IsKeyed c s h)

mem-values :
    (id : String) (p : PeerInfo) (m : Dict PeerInfo) → get id m ≡ some p → Memᴰ p (values m)
unfolding get
mem-values id p [] e = cc
mem-values id p ((j, w) ∷ m) e = elim (Bool-cases (str_eq j id)) [
  | inl q ↦ Memᴰ.head (ground (arith, e, q))
  | inr q ↦ Memᴰ.tail (mem-values id p m (rw (q, get) at e))
]

get_peer-mark_peer_seen :
    (now : ℕ) (id : String) (p : PeerInfo) (s : ClusterState)
    → get_peer id s ≡ some p
    → (mark_peer_seen now id s).peers
      ≡ insert id (record p { last_seen = now; status = seen_status p.status }) s.peers
unfolding get_peer mark_peer_seen change_peer
get_peer-mark_peer_seen now id p s e = ground (arith, e)

-- After any calls on a new state, when a peer that is known is seen: the peer stands under its own
-- identifier, is seen now and connected if it was disconnected, every other peer is as before, and
-- at any time before the timeout has passed since, the peer is among the healthy ones.
pub mark_peer_seen-healthy :
    (cs : List Call) (now later timeout : ℕ) (id : String) (p : PeerInfo)
    → get_peer id (calls cs new_state) ≡ some p
    → later < now + timeout
    → let before = calls cs new_state in
      let after = mark_peer_seen now id before in
      let q = record p { last_seen = now; status = seen_status p.status } in
      (q.id ≡ id)
      × (get_peer id after ≡ some q)
      × ((j : String) → (id ≡ j) ⊎ (get_peer j after ≡ get_peer j before))
      × Memᴰ q (get_healthy_peers later timeout after)
unfolding get_peer get_healthy_peers
mark_peer_seen-healthy cs now later timeout id p e soon =
    let before = calls cs new_state in
    let q : PeerInfo = record p { last_seen = now; status = seen_status p.status } in
    let changed = get_peer-mark_peer_seen now id p before e in
    let found : get id (mark_peer_seen now id before).peers ≡ some q =
      ap (get id) changed ∙ ground (arith, get-insert id id q before.peers, eq_refl id) in
    (
      get-AllEntries IsKeyed id p before.peers e (calls-IsKeyed cs new_state tt),
      found,
      λ j. elim (Bool-cases (str_eq id j)) [
        | inl same ↦ inl ((eq_iff id j).0 same)
        | inr other ↦
            inr (ap (get j) changed ∙ ground (arith, get-insert id j q before.peers, other))
      ],
      mem-filter (is_healthy later timeout) q (get_peers (mark_peer_seen now id before))
          (mem-values id q (mark_peer_seen now id before).peers found) (ground (arith, soon)),
    )
