-- ===== src/Monitoring/Dependency.antt =====
-- src/monitoring/dependency.rs: the graph of the dependencies between mounts. The directed graph is
-- petgraph's, so its type and operations are a parameter; an edge goes from a mount to one that
-- depends on it. A hash map from node indices is a list of entries, and a set is a list. Writing
-- the DOT text to a file is left out.
pub mod Groups
pub mod Cycles
pub mod Order
pub mod Dot
pub mod Acyclic
use Prim.Native.String.{◌++◌ as append}
use fuji.Base.{
  ℕ, String, Bool, true, false, not, ◌&&◌, Option, none, some, List, [], ◌∷◌, ◌++◌, map, any, ◌==◌,
  str_eq, if◌then◌else◌, Dict, get, insert, remove, contains_key, Result, ok, err,
}
use fuji.Mount.Config.{MountConfig}
use fuji.Mount.Options.Text.{trim, split_commas}

pub data DependencyType : Type 0 where
  hard soft order : DependencyType

pub record DependencyEdge : Type 0 where
  pub dependency_type : DependencyType
  pub metadata : Dict String

-- The operations of petgraph's `DiGraph` that the source calls: `incoming` and `outgoing` are the
-- other ends of the directed edges, `toposort` is `none` where it returns an error, and
-- `remove_node` is `none` where there is no such node.
pub record Petgraph : Type 1 where
  pub Graph : Type 0
  pub new : Graph
  pub add_node : Graph → Graph × ℕ
  pub remove_node : ℕ → Graph → Option Graph
  pub add_edge : ℕ → ℕ → DependencyEdge → Graph → Graph
  pub remove_edge : ℕ → Graph → Graph
  pub edges_connecting : ℕ → ℕ → Graph → List ℕ
  pub outgoing_edges : ℕ → Graph → List ℕ
  pub incoming : ℕ → Graph → List ℕ
  pub outgoing : ℕ → Graph → List ℕ
  pub neighbors : ℕ → Graph → List ℕ
  pub node_indices : Graph → List ℕ
  pub edge_references : Graph → List (ℕ × ℕ × DependencyEdge)
  pub toposort : Graph → Option (List ℕ)

-- `HashMap<NodeIndex, String>`
abbrev pub ReverseIndex : Type 0
ReverseIndex = List (ℕ × String)

unfoldable pub get_id : ℕ → ReverseIndex → Option String
get_id i [] = none
get_id i ((j, id) ∷ m) = let rest = get_id i m in if j == i then some id else rest

unfoldable pub insert_id : ℕ → String → ReverseIndex → ReverseIndex
insert_id i id [] = (i, id) ∷ []
insert_id i id ((j, old) ∷ m) =
    let rest = insert_id i id m in if j == i then (i, id) ∷ m else (j, old) ∷ rest

unfoldable pub remove_id : ℕ → ReverseIndex → ReverseIndex
remove_id i [] = []
remove_id i ((j, id) ∷ m) = let rest = remove_id i m in if j == i then rest else (j, id) ∷ rest

abbrev pub or_unknown : Option String → String
or_unknown (some id) = id
or_unknown none = "unknown"

pub data DependencyError : Type 0 where
  already_exists dependent_not_found dependency_not_found not_found cycle_detected : DependencyError

pub record DependencyValidation : Type 0 where
  pub valid : Bool
  pub errors : List String
  pub warnings : List String

pub record Sequence : Type 0 where
  pub mounts : List String
  pub parallel_groups : List (List String)

pub record DependencyGraph (G : Type 0) : Type 0 where
  pub graph : G
  pub mounts : Dict ℕ
  pub reverse_index : ReverseIndex

-- One error for each entry that names the mount itself.
unfoldable pub self_dependencies : String → List String → List String
self_dependencies mount_id [] = []
self_dependencies mount_id (dep_id ∷ deps) =
    let rest = self_dependencies mount_id deps in
    if str_eq (trim dep_id) mount_id
    then append (append "Mount " mount_id) " depends on itself" ∷ rest
    else rest

abbrev pub no_errors : List String → Bool
no_errors [] = true
no_errors (e ∷ es) = false

unfoldable pub validate_dependencies : MountConfig → DependencyValidation
unfolding self_dependencies split_commas
validate_dependencies mount =
    let errors : List String = elim (get "depends_on" mount.metadata) [
      | some dep_str ↦ self_dependencies mount.id (split_commas dep_str)
      | none ↦ []
    ] in
    record { valid = no_errors errors; errors = errors; warnings = [] }

module _ (P : Petgraph) where
  abbrev pub empty_graph : DependencyGraph P.Graph
  empty_graph = record { graph = P.new; mounts = []; reverse_index = [] }

  unfoldable pub add_mount :
      MountConfig → DependencyGraph P.Graph → Result DependencyError (DependencyGraph P.Graph)
  add_mount mount s =
      if contains_key mount.id s.mounts
      then err already_exists
      else let (graph, node_index) = P.add_node s.graph in
        ok (record {
          graph = graph;
          mounts = insert mount.id node_index s.mounts;
          reverse_index = insert_id node_index mount.id s.reverse_index;
        })

  unfoldable pub remove_edges : List ℕ → P.Graph → P.Graph
  remove_edges [] g = g
  remove_edges (e ∷ es) g = remove_edges es (P.remove_edge e g)

  -- The node is removed, if need be after its outgoing edges.
  unfoldable pub remove_node_index : ℕ → P.Graph → P.Graph
  unfolding remove_edges
  remove_node_index i g = elim (P.remove_node i g) [
    | some h ↦ h
    | none ↦
        let bare = remove_edges (P.outgoing_edges i g) g in
        elim (P.remove_node i bare) [ some h ↦ h | none ↦ bare ]
  ]

  unfoldable pub remove_mount : String → DependencyGraph P.Graph → DependencyGraph P.Graph
  unfolding remove_node_index
  remove_mount mount_id s = elim (get mount_id s.mounts) [
    | some i ↦ record {
      graph = remove_node_index i s.graph;
      mounts = remove mount_id s.mounts;
      reverse_index = remove_id i s.reverse_index;
    }
    | none ↦ s
  ]

  abbrev pub metadata_or_empty : Option (Dict String) → Dict String
  metadata_or_empty (some m) = m
  metadata_or_empty none = []

  unfoldable pub add_dependency :
      String
      → String
      → DependencyType
      → Option (Dict String)
      → DependencyGraph P.Graph
      → Result DependencyError (DependencyGraph P.Graph)
  add_dependency dependent_id dependency_id kind metadata s = elim (get dependent_id s.mounts) [
    | none ↦ err dependent_not_found
    | some dependent ↦ elim (get dependency_id s.mounts) [
      | none ↦ err dependency_not_found
      | some dependency ↦ ok (record s {
        graph =
            P.add_edge dependency dependent
              (record { dependency_type = kind; metadata = metadata_or_empty metadata }) s.graph;
      })
    ]
  ]

  unfoldable pub remove_dependency :
      String → String → DependencyGraph P.Graph → Result DependencyError (DependencyGraph P.Graph)
  unfolding remove_edges
  remove_dependency dependent_id dependency_id s = elim (get dependent_id s.mounts) [
    | none ↦ err dependent_not_found
    | some dependent ↦ elim (get dependency_id s.mounts) [
      | none ↦ err dependency_not_found
      | some dependency ↦ ok (record s {
        graph = remove_edges (P.edges_connecting dependency dependent s.graph) s.graph;
      })
    ]
  ]

  abbrev pub id_or_unknown : DependencyGraph P.Graph → ℕ → String
  id_or_unknown s i = or_unknown (get_id i s.reverse_index)

  unfoldable pub get_dependencies :
      String → DependencyGraph P.Graph → Result DependencyError (List String)
  get_dependencies mount_id s = elim (get mount_id s.mounts) [
    | some i ↦ ok (map (id_or_unknown s) (P.incoming i s.graph))
    | none ↦ err not_found
  ]

  unfoldable pub get_dependents :
      String → DependencyGraph P.Graph → Result DependencyError (List String)
  get_dependents mount_id s = elim (get mount_id s.mounts) [
    | some i ↦ ok (map (id_or_unknown s) (P.outgoing i s.graph))
    | none ↦ err not_found
  ]
