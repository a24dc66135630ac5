-- ===== src/Tests/Dependency.antt =====
-- Runs on a small dependency graph of src/monitoring/dependency.rs, with a list of edges for
-- petgraph's graph.
use fuji.Base.{
  ℕ, zero, suc, String, Bool, true, not, ◌&&◌, ◌||◌, none, some, List, [], ◌∷◌, ◌++◌, map, filter,
  Memᴰ, ◌≡◌, refl, sym, subst, arith, ltb, ◌==◌, str_eq, if◌then◌else◌, get, ok,
}
use fuji.Monitoring.Dependency.{Petgraph, get_id, hard, DependencyEdge, Sequence, DependencyGraph}
use fuji.Monitoring.Dependency.Groups.{find_index, ids_of, get_startup_sequence}
use fuji.Monitoring.Dependency.Cycles.{check_circular_dependencies}
use fuji.Monitoring.Dependency.Order.{
  IsTopological, AreIndexed, IsStartup, get_startup_sequence-IsStartup,
}
use fuji.Monitoring.Dependency.Acyclic.{AllAbove, check_circular_dependencies-none}

record Net : Type 0 where
  nodes : ℕ
  edges : List (ℕ × ℕ × DependencyEdge)

abbrev range : ℕ → List ℕ
range zero = []
range (suc n) = range n ++ n ∷ []

abbrev upward : List (ℕ × ℕ × DependencyEdge) → Bool
upward [] = true
upward ((a, b, e) ∷ es) = ltb a b && upward es

abbrev sources : ℕ → List (ℕ × ℕ × DependencyEdge) → List ℕ
sources i [] = []
sources i ((a, b, e) ∷ es) = let rest = sources i es in if b == i then a ∷ rest else rest

abbrev targets : ℕ → List (ℕ × ℕ × DependencyEdge) → List ℕ
targets i [] = []
targets i ((a, b, e) ∷ es) = let rest = targets i es in if a == i then b ∷ rest else rest

abbrev indices : (ℕ × ℕ × DependencyEdge → Bool) → ℕ → List (ℕ × ℕ × DependencyEdge) → List ℕ
indices p n [] = []
indices p n (e ∷ es) = let rest = indices p (suc n) es in if p e then n ∷ rest else rest

abbrev without : ℕ → List (ℕ × ℕ × DependencyEdge) → List (ℕ × ℕ × DependencyEdge)
without n [] = []
without zero (e ∷ es) = es
without (suc n) (e ∷ es) = e ∷ without n es

abbrev net : Petgraph
net = record {
  Graph = Net;
  new = record { nodes = 0; edges = [] };
  add_node = λ g. (record g { nodes = suc g.nodes }, g.nodes);
  remove_node = λ i g.
      if suc i == g.nodes
      then some (record { nodes = i; edges = filter (λ x. not (x.0 == i || x.1 == i)) g.edges })
      else none;
  add_edge = λ a b e g. record g { edges = (a, b, e) ∷ g.edges };
  remove_edge = λ n g. record g { edges = without n g.edges };
  edges_connecting = λ a b g. indices (λ x. x.0 == a && x.1 == b) 0 g.edges;
  outgoing_edges = λ a g. indices (λ x. x.0 == a) 0 g.edges;
  incoming = λ i g. sources i g.edges;
  outgoing = λ i g. targets i g.edges;
  neighbors = λ i g. targets i g.edges;
  node_indices = λ g. range g.nodes;
  edge_references = λ g. g.edges;
  toposort = λ g. if upward g.edges then some (range g.nodes) else none;
}

abbrev needs : DependencyEdge
needs = record { dependency_type = hard; metadata = [] }

-- The second mount depends on the first.
abbrev two : DependencyGraph Net
two = record {
  graph = record { nodes = 2; edges = (0, 1, needs) ∷ [] };
  mounts = ("base", 0) ∷ ("top", 1) ∷ [];
  reverse_index = (0, "base") ∷ (1, "top") ∷ [];
}

two-AreIndexed : AreIndexed net two (0 ∷ 1 ∷ [])
unfolding get_id find_index get
two-AreIndexed = (("base", refl, refl, refl), (("top", refl, refl, refl), tt))

two_sorted : IsTopological net two.graph [] (0 ∷ 1 ∷ [])
two_sorted = (refl, tt, (refl, (Memᴰ.head refl, tt), tt))

get_startup_sequence-IsStartup_example :
    (startup : Sequence) × (get_startup_sequence net two ≡ ok startup)
    × (startup.mounts ≡ ids_of net two.reverse_index (0 ∷ 1 ∷ []))
    × IsStartup net two [] startup.mounts
    × (startup.parallel_groups ≡ map (λ id. id ∷ []) startup.mounts)
get_startup_sequence-IsStartup_example =
    get_startup_sequence-IsStartup net two (0 ∷ 1 ∷ []) refl two_sorted two-AreIndexed

abbrev height : String → ℕ
height id = if str_eq id "top" then 1 else 0

heights :
    (n : ℕ) (id : String)
    → get_id n two.reverse_index ≡ some id
    → AllAbove net two.graph two.reverse_index height (height id) (targets n two.graph.edges)
unfolding get_id
heights zero id e =
    let q : "base" ≡ id = ground (arith, e) in
    subst
      (λ i. AllAbove net two.graph two.reverse_index height (height i) (targets 0 two.graph.edges))
      q (("top", refl, omega arith), tt)
heights (suc n) id e =
    let none_there : targets (suc n) two.graph.edges ≡ [] = ground arith in
    subst (AllAbove net two.graph two.reverse_index height (height id)) (sym none_there) tt

check_circular_dependencies-none_example : check_circular_dependencies net 1002 two ≡ some []
unfolding get_id
check_circular_dependencies-none_example =
    check_circular_dependencies-none net two height heights (("base", refl), (("top", refl), tt))

-- A cycle of two mounts, and a third that only needs the first: the stack of the first search is
-- left behind, and a second cycle is reported, which is none.
abbrev three : DependencyGraph Net
three = record {
  graph = record { nodes = 3; edges = (0, 1, needs) ∷ (1, 0, needs) ∷ (2, 0, needs) ∷ [] };
  mounts = ("a", 0) ∷ ("b", 1) ∷ ("c", 2) ∷ [];
  reverse_index = (0, "a") ∷ (1, "b") ∷ (2, "c") ∷ [];
}

false_cycle :
    check_circular_dependencies net 9 three ≡ some (("a" ∷ "b" ∷ []) ∷ ("a" ∷ "b" ∷ "c" ∷ []) ∷ [])
unfolding check_circular_dependencies get_id
false_cycle = refl
