-- ===== src/Config/Operations/Peers.antt =====
-- The peers of a cluster in src/config/mod.rs.
use fuji.Base.{
  ◌≡◌, refl, sym, ap, subst, not, filter, is_some, String, true, false, ◌||◌, none, some, List, [],
  ◌∷◌, ◌++◌, arith, eq_iff, str_eq, ◌⊎◌, inl, inr, Bool-cases, Option-cases, if◌then◌else◌,
}
use fuji.Config.{Config, PeerInfo, ClusterConfig}
use fuji.Config.Operations.{
  change_cluster, has_peer, add_cluster_peer, drop_peer, remove_cluster_peer,
}

-- The peers of a configuration; none outside a cluster.
unfoldable pub peers_of : Config → List PeerInfo
peers_of c = elim c.cluster [ some cluster ↦ cluster.peers | none ↦ [] ]

-- Each identifier stands once.
abbrev pub UniqueIds : List PeerInfo → Type 0
UniqueIds [] = Unit
UniqueIds (p ∷ ps) = (has_peer p.id ps ≡ false) × UniqueIds ps

has_peer-append :
    (id : String) (ps : List PeerInfo) (p : PeerInfo)
    → has_peer id (ps ++ p ∷ []) ≡ (has_peer id ps || str_eq p.id id)
unfolding has_peer
has_peer-append id [] p = ground arith
has_peer-append id (q ∷ ps) p = ground (arith, has_peer-append id ps p)

append-UniqueIds :
    (ps : List PeerInfo) (p : PeerInfo)
    → has_peer p.id ps ≡ false
    → UniqueIds ps
    → UniqueIds (ps ++ p ∷ [])
unfolding has_peer
append-UniqueIds [] p h u = (refl, tt)
append-UniqueIds (q ∷ ps) p h u = (
  ground (arith, has_peer-append q.id ps p, h, u.0, eq_iff q.id p.id, eq_iff p.id q.id),
  append-UniqueIds ps p (ground (arith, h)) u.1,
)

has_peer-drop_peer :
    (id j : String) (ps : List PeerInfo)
    → UniqueIds ps
    → has_peer j (drop_peer id ps) ≡ (if str_eq id j then false else has_peer j ps)
unfolding has_peer drop_peer
has_peer-drop_peer id j [] u = ground arith
has_peer-drop_peer id j (p ∷ ps) u =
    ground (arith, has_peer-drop_peer id j ps u.1, u.0, eq_iff p.id id, eq_iff p.id j, eq_iff id j)

drop_peer-UniqueIds :
    (id : String) (ps : List PeerInfo) → UniqueIds ps → UniqueIds (drop_peer id ps)
unfolding drop_peer
drop_peer-UniqueIds id [] u = tt
drop_peer-UniqueIds id (p ∷ ps) u = elim (Bool-cases (str_eq p.id id)) [
  | inl e ↦ rw e u.1
  | inr e ↦
      rw e (ground (arith, has_peer-drop_peer id p.id ps u.1, u.0), drop_peer-UniqueIds id ps u.1)
]

filter-absent :
    (id : String) (ps : List PeerInfo)
    → has_peer id ps ≡ false
    → filter (λ p. not (str_eq p.id id)) ps ≡ ps
unfolding has_peer
filter-absent id [] h = refl
filter-absent id (p ∷ ps) h =
    let e : str_eq p.id id ≡ false = ground (arith, h) in
    rw (filter, e) (ap (λ l. p ∷ l) (filter-absent id ps (rw (e) at h)))

-- Removing the first peer with an identifier that stands once keeps exactly the others.
drop_peer-filter :
    (id : String) (ps : List PeerInfo)
    → UniqueIds ps
    → drop_peer id ps ≡ filter (λ p. not (str_eq p.id id)) ps
unfolding drop_peer has_peer
drop_peer-filter id [] u = refl
drop_peer-filter id (p ∷ ps) u = elim (Bool-cases (str_eq p.id id)) [
  | inl e ↦ rw (drop_peer, filter, e) (sym (filter-absent id ps (absent e)))
  | inr e ↦ rw (drop_peer, filter, e) (ap (λ l. p ∷ l) (drop_peer-filter id ps u.1))
]
  where
    absent : str_eq p.id id ≡ true → has_peer id ps ≡ false
    absent e = subst (λ i. has_peer i ps ≡ false) ((eq_iff p.id id).0 e) u.0

abbrev with_peer : PeerInfo → ClusterConfig → ClusterConfig
with_peer peer cluster =
    if has_peer peer.id cluster.peers
    then cluster
    else record cluster { peers = cluster.peers ++ peer ∷ [] }

-- If the identifiers of the peers are distinct, adding or removing a peer keeps them distinct.
-- Adding one to a configuration with cluster settings puts it after the others, which stay as they
-- are, unless its identifier is there. Removing reports whether the peer was there, and leaves
-- exactly the other peers, as they were and in their order.
pub cluster_peers :
    (peer : PeerInfo) (id : String) (c : Config)
    → UniqueIds (peers_of c)
    → UniqueIds (peers_of (add_cluster_peer peer c))
      × (peers_of (add_cluster_peer peer c) ≡ (
          if has_peer peer.id (peers_of c) || not (is_some c.cluster)
          then peers_of c
          else peers_of c ++ peer ∷ []))
      × UniqueIds (peers_of (remove_cluster_peer id c).0)
      × ((remove_cluster_peer id c).1 ≡ has_peer id (peers_of c))
      × (peers_of (remove_cluster_peer id c).0 ≡ filter (λ p. not (str_eq p.id id)) (peers_of c))
unfolding peers_of add_cluster_peer remove_cluster_peer change_cluster
cluster_peers peer id c u = elim (Option-cases c.cluster) [
  | inl e ↦ rw e (tt, refl, tt, refl, refl)
  | inr (cluster, e) ↦
      let v : UniqueIds cluster.peers = rw e at u in
      let (distinct, order) = added cluster (Bool-cases (has_peer peer.id cluster.peers)) v in
      rw e (
        distinct,
        order,
        drop_peer-UniqueIds id cluster.peers v,
        refl,
        drop_peer-filter id cluster.peers v,
      )
]
  where
    added :
        (cluster : ClusterConfig)
        → (has_peer peer.id cluster.peers ≡ true) ⊎ (has_peer peer.id cluster.peers ≡ false)
        → UniqueIds cluster.peers
        → UniqueIds (with_peer peer cluster).peers
          × ((with_peer peer cluster).peers ≡ (
              if has_peer peer.id cluster.peers || false
              then cluster.peers
              else cluster.peers ++ peer ∷ []))
    added cluster (inl e) v = rw e (v, refl)
    added cluster (inr e) v = rw e (append-UniqueIds cluster.peers peer e v, refl)
