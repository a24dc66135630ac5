-- ===== src/Monitoring/Dependency/Dot.antt =====
-- The DOT text of the graph of src/monitoring/dependency.rs.
use Prim.Native.String.{◌++◌ as append}
use fuji.Base.{ℕ, String, none, some, List, [], ◌∷◌}
use fuji.Monitoring.Dependency.{
  Petgraph, ReverseIndex, get_id, or_unknown, DependencyType, hard, soft, order, DependencyEdge,
  DependencyGraph,
}

abbrev pub concat : List String → String
concat [] = ""
concat (s ∷ ss) = append s (concat ss)

abbrev pub edge_style : DependencyType → String
edge_style hard = "style=solid"
edge_style soft = "style=dashed"
edge_style order = "style=dotted"

unfoldable pub node_lines : ReverseIndex → List ℕ → String
node_lines r [] = ""
node_lines r (i ∷ is) = elim (get_id i r) [
  | some id ↦ concat ("  \"" ∷ id ∷ "\";\n" ∷ node_lines r is ∷ [])
  | none ↦ node_lines r is
]

unfoldable pub edge_lines : ReverseIndex → List (ℕ × ℕ × DependencyEdge) → String
edge_lines r [] = ""
edge_lines r ((source, target, edge) ∷ edges) = concat (
    "  \""
    ∷ or_unknown (get_id source r)
    ∷ "\" -> \""
    ∷ or_unknown (get_id target r)
    ∷ "\" ["
    ∷ edge_style edge.dependency_type
    ∷ "];\n"
    ∷ edge_lines r edges
    ∷ [])

unfoldable pub visualize_dot : (P : Petgraph) → DependencyGraph P.Graph → String
unfolding node_lines edge_lines
visualize_dot P s = concat (
    "digraph dependencies {\n"
    ∷ "  rankdir=LR;\n"
    ∷ node_lines s.reverse_index (P.node_indices s.graph)
    ∷ edge_lines s.reverse_index (P.edge_references s.graph)
    ∷ "}\n"
    ∷ [])
