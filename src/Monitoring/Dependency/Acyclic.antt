-- ===== src/Monitoring/Dependency/Acyclic.antt =====
-- That the search of src/monitoring/dependency.rs ends, and reports no cycle where there is none.
use fuji.Base.{
  ℕ, zero, suc, ◌+◌, ◌≤◌, ◌<◌, String, false, Option, none, some, List, [], ◌∷◌, ◌++◌, ◌≡◌, refl,
  ap, subst, arith, inl, inr, Bool-cases, ltb, length, length-append, str_eq, eq_iff,
}
use fuji.Monitoring.Dependency.{Petgraph, ReverseIndex, get_id, DependencyGraph}
use fuji.Monitoring.Dependency.Cycles.{
  Search, is_visited, position, pop, cycle_at, Found, visit_all, leave, dfs_find_cycle, check_nodes,
  check_circular_dependencies,
}

-- What is on the stack stands below the mount.
abbrev AllBelow : (String → ℕ) → ℕ → List String → Type 0
AllBelow rank n [] = Unit
AllBelow rank n (id ∷ ids) = (rank id < n) × AllBelow rank n ids

below_lt :
    (rank : String → ℕ) (m n : ℕ) (ids : List String)
    → m < n
    → AllBelow rank m ids
    → AllBelow rank n ids
below_lt rank m n [] l h = tt
below_lt rank m n (id ∷ ids) l h = (omega (arith, h.0, l), below_lt rank m n ids l h.1)

below-append :
    (rank : String → ℕ) (n : ℕ) (ids : List String) (id : String)
    → AllBelow rank n ids
    → rank id < n
    → AllBelow rank n (ids ++ id ∷ [])
below-append rank n [] id h l = (l, tt)
below-append rank n (x ∷ ids) id h l = (h.0, below-append rank n ids id h.1 l)

pop-append : (ids : List String) (id : String) → pop (ids ++ id ∷ []) ≡ ids
pop-append [] id = refl
pop-append (x ∷ []) id = refl
pop-append (x ∷ y ∷ ids) id = ap (λ l. x ∷ l) (pop-append (y ∷ ids) id)

-- A mount is not below itself.
not_on_stack :
    (rank : String → ℕ) (id : String) (ids : List String)
    → AllBelow rank (rank id) ids
    → position id ids ≡ none
unfolding position
not_on_stack rank id [] h = refl
not_on_stack rank id (x ∷ ids) h = elim (Bool-cases (str_eq x id)) [
  | inl e ↦
      let l : rank id < rank id = subst (λ y. rank y < rank id) ((eq_iff x id).0 e) h.0 in
      absurd (omega (arith, l))
  | inr e ↦ ground (arith, e, not_on_stack rank id ids h.1)
]

-- The search found nothing and left the stack as it was.
abbrev Clean : Option Found → List String → Type 0
Clean r stack = (seen : List ℕ) × (r ≡ some (none, record { visited = seen; stack = stack }))

-- Every node stands for a mount.
abbrev pub AllKnown : ReverseIndex → List ℕ → Type 0
AllKnown r [] = Unit
AllKnown r (n ∷ ns) = ((id : String) × (get_id n r ≡ some id)) × AllKnown r ns

module _ (P : Petgraph) (graph : P.Graph) (r : ReverseIndex) (rank : String → ℕ) where
  -- A neighbor is a mount that stands above.
  abbrev pub AllAbove : ℕ → List ℕ → Type 0
  AllAbove n [] = Unit
  AllAbove n (m ∷ ms) = ((id : String) × (get_id m r ≡ some id) × (n < rank id)) × AllAbove n ms

  visit_all-Clean :
      (visit : ℕ → Search → Option Found) (n : ℕ) (ms seen : List ℕ) (stack : List String)
      → ((m : ℕ) (id : String) (visited : List ℕ)
          → get_id m r ≡ some id
          → n < rank id
          → Clean (visit m (record { visited = visited; stack = stack })) stack)
      → AllAbove n ms
      → Clean (visit_all P visit ms (record { visited = seen; stack = stack })) stack
  unfolding visit_all
  visit_all-Clean visit n [] seen stack clean h = (seen, refl)
  visit_all-Clean visit n (m ∷ ms) seen stack clean h =
      let ((id, at, above), rest) = h in
      let (seen', e) = clean m id seen at above in
      let (last, f) = visit_all-Clean visit n ms seen' stack clean rest in
      (last, ground (arith, e, f))

  check_nodes-none :
      (fuel : ℕ) (nodes seen : List ℕ)
      → ((n : ℕ) (id : String) (visited : List ℕ)
          → get_id n r ≡ some id
          → Clean (dfs_find_cycle P fuel graph r n (record { visited = visited; stack = [] })) [])
      → AllKnown r nodes
      → check_nodes P fuel graph r nodes (record { visited = seen; stack = [] }) ≡ some []
  unfolding check_nodes
  check_nodes-none fuel [] seen clean h = refl
  check_nodes-none fuel (n ∷ nodes) seen clean h = elim (Bool-cases (is_visited n seen)) [
    | inl old ↦ ground (arith, old, check_nodes-none fuel nodes seen clean h.1)
    | inr new ↦
        let ((id, at), rest) = h in
        let (last, e) = clean n id seen at in
        rw (check_nodes, new, e) (check_nodes-none fuel nodes last clean rest)
  ]

  module _
      (ranked : (n : ℕ) (id : String)
        → get_id n r ≡ some id
        → AllAbove (rank id) (P.neighbors n graph)) where
    -- Leaving a node whose neighbors gave no cycle.
    leaves :
        (fuel node : ℕ) (id : String) (seen last : List ℕ) (stack : List String)
        → ltb 1000 (length stack) ≡ false
        → is_visited node seen ≡ false
        → get_id node r ≡ some id
        → visit_all P
            (dfs_find_cycle P (suc fuel) graph r)
            (P.neighbors node graph)
            (record { visited = node ∷ seen; stack = stack ++ id ∷ [] })
          ≡ some (none, record { visited = last; stack = stack ++ id ∷ [] })
        → dfs_find_cycle P (suc (suc fuel)) graph r node (record { visited = seen; stack = stack })
          ≡ some (none, record { visited = last; stack = stack })
    unfolding leave dfs_find_cycle
    leaves fuel node id seen last stack room new at v =
        rw (dfs_find_cycle, room, new, at, v, leave) (rw (at, pop-append stack id) refl)

    dfs-Clean :
        (fuel node : ℕ) (id : String) (seen : List ℕ) (stack : List String)
        → 1001 ≤ fuel + length stack
        → get_id node r ≡ some id
        → AllBelow rank (rank id) stack
        → Clean
            (dfs_find_cycle P (suc fuel) graph r node (record { visited = seen; stack = stack }))
            stack
    unfolding dfs_find_cycle cycle_at leave
    dfs-Clean zero node id seen stack enough at below =
        elim (Bool-cases (ltb 1000 (length stack))) [
          | inl deep ↦ (seen, ground (arith, deep))
          | inr room ↦ ground (arith, room, enough)
        ]
    dfs-Clean (suc fuel) node id seen stack enough at below =
        elim (Bool-cases (ltb 1000 (length stack))) [
          | inl deep ↦ (seen, ground (arith, deep))
          | inr room ↦ elim (Bool-cases (is_visited node seen)) [
            | inl old ↦ (seen, ground (arith, room, old, at, not_on_stack rank id stack below))
            | inr new ↦
                let (last, v) =
                  visit_all-Clean (dfs_find_cycle P (suc fuel) graph r) (rank id)
                    (P.neighbors node graph) (node ∷ seen) (stack ++ id ∷ [])
                    (λ m other visited there above.
                      dfs-Clean fuel m other visited (stack ++ id ∷ [])
                        (omega (arith, enough, length-append stack (id ∷ []))) there
                        (below-append rank (rank other) stack id
                          (below_lt rank (rank id) (rank other) stack above below) above))
                    (ranked node id at) in
                (last, leaves fuel node id seen last stack room new at v)
          ]
        ]

-- If every node stands for a mount, and the mounts have ranks that grow along every edge, so that
-- there is no cycle, then 1002 levels of fuel are enough for the search, and it reports no cycle.
pub check_circular_dependencies-none :
    (P : Petgraph) (s : DependencyGraph P.Graph) (rank : String → ℕ)
    → ((n : ℕ) (id : String)
        → get_id n s.reverse_index ≡ some id
        → AllAbove P s.graph s.reverse_index rank (rank id) (P.neighbors n s.graph))
    → AllKnown s.reverse_index (P.node_indices s.graph)
    → check_circular_dependencies P 1002 s ≡ some []
unfolding check_circular_dependencies
check_circular_dependencies-none P s rank ranked known =
    check_nodes-none P s.graph s.reverse_index rank 1002 (P.node_indices s.graph) []
      (λ n id visited at.
        dfs-Clean P s.graph s.reverse_index rank ranked 1001 n id visited [] (omega arith) at tt)
      known
