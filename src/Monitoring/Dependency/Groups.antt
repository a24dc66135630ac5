-- ===== src/Monitoring/Dependency/Groups.antt =====
-- The startup and shutdown sequences of src/monitoring/dependency.rs.
use fuji.Base.{
  ℕ, String, Bool, true, false, not, ◌&&◌, Option, none, some, List, [], ◌∷◌, ◌++◌, reverse, any,
  str_eq, if◌then◌else◌, Result, ok, err,
}
use fuji.Monitoring.Dependency.{
  Petgraph, ReverseIndex, get_id, or_unknown, DependencyError, cycle_detected, Sequence,
  DependencyGraph,
}

-- `HashSet::contains`
abbrev pub contains : String → List String → Bool
contains id ids = any (λ other. str_eq other id) ids

-- The first node with an identifier.
unfoldable pub find_index : String → ReverseIndex → Option ℕ
find_index id [] = none
find_index id ((i, other) ∷ m) =
    let rest = find_index id m in if str_eq other id then some i else rest

-- What the loops have built: the groups, the set of processed mounts, and of the mount that the
-- outer loop is at, its group and whether it can be added.
pub record Grouping : Type 0 where
  pub groups : List (List String)
  pub processed : List String

pub record Group : Type 0 where
  pub group : List String
  pub processed : List String
  pub can_add : Bool

abbrev pub is_empty_group : List String → Bool
is_empty_group [] = true
is_empty_group (x ∷ xs) = false

module _ (P : Petgraph) where
  unfoldable pub has_unprocessed : P.Graph → ReverseIndex → List String → ℕ → Bool
  has_unprocessed graph reverse_index processed node_index =
      any (λ source. not (contains (or_unknown (get_id source reverse_index)) processed))
        (P.incoming node_index graph)

  -- `while let Some(current_id) = to_check.pop()`: nothing is ever pushed.
  unfoldable pub check_all : P.Graph → ReverseIndex → List String → Group → Group
  unfolding find_index has_unprocessed
  check_all graph reverse_index [] g = g
  check_all graph reverse_index (current_id ∷ to_check) g = check_all graph reverse_index to_check (
      if contains current_id g.processed then g else elim (find_index current_id reverse_index) [
        | none ↦ g
        | some node_index ↦
            if has_unprocessed graph reverse_index g.processed node_index
            then record g { can_add = false }
            else record g {
              group = g.group ++ current_id ∷ [];
              processed = g.processed ++ current_id ∷ [];
            }
      ])

  unfoldable pub add_group : P.Graph → ReverseIndex → String → Grouping → Grouping
  unfolding check_all
  add_group graph reverse_index mount_id s =
      if contains mount_id s.processed
      then s
      else let g : Group =
          check_all graph reverse_index (mount_id ∷ [])
            (record { group = []; processed = s.processed; can_add = true }) in
        record {
          groups =
              if g.can_add && not (is_empty_group g.group)
              then s.groups ++ g.group ∷ []
              else s.groups;
          processed = g.processed;
        }

  unfoldable pub add_groups : P.Graph → ReverseIndex → List String → Grouping → Grouping
  unfolding add_group
  add_groups graph reverse_index [] s = s
  add_groups graph reverse_index (mount_id ∷ mount_ids) s =
      add_groups graph reverse_index mount_ids (add_group graph reverse_index mount_id s)

  unfoldable pub determine_parallel_groups :
      P.Graph → ReverseIndex → List String → List (List String)
  unfolding add_groups
  determine_parallel_groups graph reverse_index mount_ids =
      (add_groups graph reverse_index mount_ids (record { groups = []; processed = [] })).groups

  -- `filter_map(|index| reverse_index.get(index))`
  unfoldable pub ids_of : ReverseIndex → List ℕ → List String
  ids_of reverse_index [] = []
  ids_of reverse_index (i ∷ is) =
      let rest = ids_of reverse_index is in
      elim (get_id i reverse_index) [ some id ↦ id ∷ rest | none ↦ rest ]

  unfoldable pub get_startup_sequence : DependencyGraph P.Graph → Result DependencyError Sequence
  unfolding ids_of determine_parallel_groups
  get_startup_sequence s = elim (P.toposort s.graph) [
    | none ↦ err cycle_detected
    | some sorted ↦
        let mount_ids = ids_of s.reverse_index sorted in
        ok (record {
          mounts = mount_ids;
          parallel_groups = determine_parallel_groups s.graph s.reverse_index mount_ids;
        })
  ]

  unfoldable pub get_shutdown_sequence : DependencyGraph P.Graph → Result DependencyError Sequence
  unfolding get_startup_sequence
  get_shutdown_sequence s = elim (get_startup_sequence s) [
    | ok startup ↦ ok (record {
      mounts = reverse startup.mounts;
      parallel_groups = reverse startup.parallel_groups;
    })
    | err e ↦ err e
  ]
