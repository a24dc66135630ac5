-- ===== src/Monitoring/Dependency/Cycles.antt =====
-- The search for circular dependencies in src/monitoring/dependency.rs. The recursion has fuel;
-- `none` is that it ran out. The stack has its top at the end.
use fuji.Base.{
  ℕ, zero, suc, String, Bool, true, false, Option, none, some, List, [], ◌∷◌, ◌++◌, any, ltb,
  length, drop, ◌==◌, str_eq, if◌then◌else◌,
}
use fuji.Monitoring.Dependency.{Petgraph, ReverseIndex, get_id, DependencyGraph}

pub record Search : Type 0 where
  pub visited : List ℕ
  pub stack : List String

abbrev pub is_visited : ℕ → List ℕ → Bool
is_visited node visited = any (λ other. other == node) visited

unfoldable pub position : String → List String → Option ℕ
position id [] = none
position id (other ∷ ids) =
    let rest = position id ids in
    if str_eq other id then some 0 else elim rest [ some n ↦ some (suc n) | none ↦ none ]

-- `Vec::pop`
abbrev pub pop : List String → List String
pop [] = []
pop (x ∷ []) = []
pop (x ∷ y ∷ xs) = x ∷ pop (y ∷ xs)

-- The part of the stack from the mount on, if it is there.
unfoldable pub cycle_at : Option String → List String → Option (List String)
unfolding position
cycle_at none stack = none
cycle_at (some id) stack = elim (position id stack) [
  | some pos ↦ some (drop pos stack)
  | none ↦ none
]

abbrev pub push_id : Option String → List String → List String
push_id none stack = stack
push_id (some id) stack = stack ++ id ∷ []

abbrev pub pop_id : Option String → List String → List String
pop_id none stack = stack
pop_id (some id) stack = pop stack

-- A cycle that was found, and the sets that were changed.
abbrev pub Found : Type 0
Found = Option (List String) × Search

module _ (P : Petgraph) where
  -- The loop over the neighbors stops at the first cycle.
  unfoldable pub visit_all : (ℕ → Search → Option Found) → List ℕ → Search → Option Found
  visit_all visit [] s = some (none, s)
  visit_all visit (n ∷ ns) s = elim (visit n s) [
    | none ↦ none
    | some (some cycle, t) ↦ some (some cycle, t)
    | some (none, t) ↦ visit_all visit ns t
  ]

  -- The stack is popped only if no cycle was found.
  unfoldable pub leave : Option String → Option Found → Option Found
  leave id none = none
  leave id (some (some cycle, s)) = some (some cycle, s)
  leave id (some (none, s)) = some (none, record s { stack = pop_id id s.stack })

  unfoldable pub dfs_find_cycle : ℕ → P.Graph → ReverseIndex → ℕ → Search → Option Found
  unfolding cycle_at visit_all leave
  dfs_find_cycle zero graph reverse_index node s = none
  dfs_find_cycle (suc fuel) graph reverse_index node s =
      let id = get_id node reverse_index in
      elim (ltb 1000 (length s.stack)) [
        | true ↦ some (none, s)
        | false ↦ elim (is_visited node s.visited) [
          | true ↦ some (cycle_at id s.stack, s)
          | false ↦ leave id (
              visit_all (dfs_find_cycle fuel graph reverse_index) (P.neighbors node graph)
                (record { visited = node ∷ s.visited; stack = push_id id s.stack }))
        ]
      ]

  -- The loop over the nodes, with one set of visited nodes and one stack for all.
  unfoldable pub check_nodes :
      ℕ → P.Graph → ReverseIndex → List ℕ → Search → Option (List (List String))
  unfolding dfs_find_cycle
  check_nodes fuel graph reverse_index [] s = some []
  check_nodes fuel graph reverse_index (node ∷ nodes) s =
      if is_visited node s.visited
      then check_nodes fuel graph reverse_index nodes s
      else elim (dfs_find_cycle fuel graph reverse_index node s) [
        | none ↦ none
        | some (none, t) ↦ check_nodes fuel graph reverse_index nodes t
        | some (some cycle, t) ↦ elim (check_nodes fuel graph reverse_index nodes t) [
          | some cycles ↦ some (cycle ∷ cycles)
          | none ↦ none
        ]
      ]

  unfoldable pub check_circular_dependencies :
      ℕ → DependencyGraph P.Graph → Option (List (List String))
  unfolding check_nodes
  check_circular_dependencies fuel s =
      check_nodes fuel s.graph s.reverse_index (P.node_indices s.graph)
        (record { visited = []; stack = [] })
