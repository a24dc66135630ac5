-- ===== src/Monitoring/Dependency/Order.antt =====
-- The order of the startup sequence of src/monitoring/dependency.rs.
use fuji.Base.{
  ℕ, String, Bool, true, false, not, some, List, [], ◌∷◌, ◌++◌, map, any, Memᴰ, ◌≡◌, refl, sym, ap,
  subst, ◌∙◌, arith, inl, inr, Bool-cases, Option-cases, ◌==◌, ==_iff, str_eq, eq_iff, eq_refl, get,
  member_of_any, ok,
}
use mathlib.Core.List.{append-nil, append_assoc}
use fuji.Monitoring.Dependency.{
  Petgraph, ReverseIndex, get_id, or_unknown, Sequence, DependencyGraph, id_or_unknown,
  get_dependencies,
}
use fuji.Monitoring.Dependency.Groups.{
  contains, find_index, Grouping, has_unprocessed, check_all, add_group, add_groups,
  determine_parallel_groups, ids_of, get_startup_sequence,
}

abbrev pub AllIn {ℓ} : {A : Type ℓ} → List A → List A → Type ℓ
AllIn [] ys = Unit
AllIn (x ∷ xs) ys = Memᴰ x ys × AllIn xs ys

-- A member of a list stands in a longer one.
mem_append_left {ℓ} : {A : Type ℓ} (x : A) (xs ys : List A) → Memᴰ x xs → Memᴰ x (xs ++ ys)
mem_append_left x [] ys m = elim m [ ]
mem_append_left x (y ∷ xs) ys (Memᴰ.head e) = Memᴰ.head e
mem_append_left x (y ∷ xs) ys (Memᴰ.tail t) = Memᴰ.tail (mem_append_left x xs ys t)

mem_append_last {ℓ} : {A : Type ℓ} (x : A) (xs : List A) → Memᴰ x (xs ++ x ∷ [])
mem_append_last x [] = Memᴰ.head refl
mem_append_last x (y ∷ xs) = Memᴰ.tail (mem_append_last x xs)

any-mem {ℓ} :
    {A : Type ℓ} (p : A → Bool) (x : A) (xs : List A) → Memᴰ x xs → p x ≡ true → any p xs ≡ true
any-mem p x [] m h = elim m [ ]
any-mem p x (y ∷ xs) (Memᴰ.head e) h =
    let q : p y ≡ true = subst (λ z. p z ≡ true) e h in ground (arith, q)
any-mem p x (y ∷ xs) (Memᴰ.tail t) h = ground (arith, any-mem p x xs t h)

module _ (P : Petgraph) where
  -- What petgraph documents of `toposort`: no node comes twice, and every node comes after those
  -- that it has an edge from. The first list is what came before.
  abbrev pub IsTopological : P.Graph → List ℕ → List ℕ → Type 0
  IsTopological graph seen [] = Unit
  IsTopological graph seen (i ∷ is) =
      (any (λ j. j == i) seen ≡ false)
      × AllIn (P.incoming i graph) seen
      × IsTopological graph (seen ++ i ∷ []) is

  -- A node stands for one mount in both indexes.
  abbrev pub IsIndexed : DependencyGraph P.Graph → ℕ → Type 0
  IsIndexed s i =
      (id : String) × (get_id i s.reverse_index ≡ some id)
      × (find_index id s.reverse_index ≡ some i)
      × (get id s.mounts ≡ some i)

  abbrev pub AreIndexed : DependencyGraph P.Graph → List ℕ → Type 0
  AreIndexed s [] = Unit
  AreIndexed s (i ∷ is) = IsIndexed s i × AreIndexed s is

  -- Each mount comes after all that it depends on.
  abbrev pub IsStartup : DependencyGraph P.Graph → List String → List String → Type 0
  IsStartup s before [] = Unit
  IsStartup s before (id ∷ ids) =
      ((deps : List String) × (get_dependencies P id s ≡ ok deps) × AllIn deps before)
      × IsStartup s (before ++ id ∷ []) ids

  AreIndexed-mem :
      (s : DependencyGraph P.Graph) (i : ℕ) (is : List ℕ)
      → Memᴰ i is
      → AreIndexed s is
      → IsIndexed s i
  AreIndexed-mem s i [] m h = elim m [ ]
  AreIndexed-mem s i (j ∷ is) (Memᴰ.head e) h = subst (IsIndexed s) (sym e) h.0
  AreIndexed-mem s i (j ∷ is) (Memᴰ.tail t) h = AreIndexed-mem s i is t h.1

  AreIndexed-append :
      (s : DependencyGraph P.Graph) (is : List ℕ) (i : ℕ)
      → AreIndexed s is
      → IsIndexed s i
      → AreIndexed s (is ++ i ∷ [])
  AreIndexed-append s [] i h k = (k, tt)
  AreIndexed-append s (j ∷ is) i h k = (h.0, AreIndexed-append s is i h.1 k)

  ids_of-append :
      (r : ReverseIndex) (is : List ℕ) (i : ℕ) (id : String)
      → get_id i r ≡ some id
      → ids_of P r (is ++ i ∷ []) ≡ ids_of P r is ++ id ∷ []
  unfolding ids_of
  ids_of-append r [] i id e = ground (arith, e)
  ids_of-append r (j ∷ is) i id e = ground (arith, ids_of-append r is i id e)

  -- The identifier of a node that was seen is among those of the seen ones.
  mem-ids_of :
      (r : ReverseIndex) (i : ℕ) (id : String) (is : List ℕ)
      → Memᴰ i is
      → get_id i r ≡ some id
      → Memᴰ id (ids_of P r is)
  unfolding ids_of
  mem-ids_of r i id [] m e = elim m [ ]
  mem-ids_of r i id (j ∷ is) (Memᴰ.head q) e =
      let here : get_id j r ≡ some id = subst (λ k. get_id k r ≡ some id) q e in
      rw (ids_of, here) (Memᴰ.head refl)
  mem-ids_of r i id (j ∷ is) (Memᴰ.tail t) e =
      let rest = mem-ids_of r i id is t e in
      elim (Option-cases (get_id j r)) [
        | inl none_at ↦ rw (ids_of, none_at) rest
        | inr (other, at) ↦ rw (ids_of, at) (Memᴰ.tail rest)
      ]

  -- And nothing else is.
  node_of_mem :
      (s : DependencyGraph P.Graph) (id : String) (is : List ℕ)
      → AreIndexed s is
      → Memᴰ id (ids_of P s.reverse_index is)
      → (i : ℕ) × Memᴰ i is × (find_index id s.reverse_index ≡ some i)
  unfolding ids_of
  node_of_mem s id [] h m = elim m [ ]
  node_of_mem s id (j ∷ is) h m =
      let (other, at, found, entry) = h.0 in
      first other found (rw (ids_of, at) at m) (node_of_mem s id is h.1)
    where
      first :
          (other : String)
          → find_index other s.reverse_index ≡ some j
          → Memᴰ id (other ∷ ids_of P s.reverse_index is)
          → (Memᴰ id (ids_of P s.reverse_index is)
              → (i : ℕ) × Memᴰ i is × (find_index id s.reverse_index ≡ some i))
          → (i : ℕ) × Memᴰ i (j ∷ is) × (find_index id s.reverse_index ≡ some i)
      first other found (Memᴰ.head e) later =
          (j, Memᴰ.head refl, subst (λ x. find_index x s.reverse_index ≡ some j) (sym e) found)
      first other found (Memᴰ.tail t) later = let (i, m', f) = later t in (i, Memᴰ.tail m', f)

  -- A node that was not seen has an identifier that was not processed.
  fresh_id :
      (s : DependencyGraph P.Graph) (i : ℕ) (id : String) (seen : List ℕ)
      → AreIndexed s seen
      → any (λ j. j == i) seen ≡ false
      → find_index id s.reverse_index ≡ some i
      → contains id (ids_of P s.reverse_index seen) ≡ false
  fresh_id s i id seen h new found =
      elim (Bool-cases (contains id (ids_of P s.reverse_index seen))) [
        | inr no_mem ↦ no_mem
        | inl yes_mem ↦
            let (other, m, e) =
              member_of_any (λ x. str_eq x id) (ids_of P s.reverse_index seen) yes_mem in
            let (j, mj, f) = node_of_mem s other seen h m in
            let same : find_index id s.reverse_index ≡ some j =
              subst (λ x. find_index x s.reverse_index ≡ some j) ((eq_iff other id).0 e) f in
            let q : j ≡ i = ground (arith, found, same) in
            let seen_i = any-mem (λ k. k == i) j seen mj ((==_iff j i).1 q) in
            ground (arith, seen_i, new)
      ]

  all_processed :
      (s : DependencyGraph P.Graph) (seen is : List ℕ)
      → AreIndexed s seen
      → AllIn is seen
      → any (λ j. not (contains (id_or_unknown P s j) (ids_of P s.reverse_index seen))) is ≡ false
  all_processed s seen [] h a = refl
  all_processed s seen (j ∷ is) h a =
      let (id, at, found, entry) = AreIndexed-mem s j seen a.0 h in
      let m = mem-ids_of s.reverse_index j id seen a.0 at in
      let c : contains id (ids_of P s.reverse_index seen) ≡ true =
        any-mem (λ x. str_eq x id) id _ m (eq_refl id) in
      let d : contains (id_or_unknown P s j) (ids_of P s.reverse_index seen) ≡ true =
        subst (λ o. contains (or_unknown o) (ids_of P s.reverse_index seen) ≡ true) (sym at) c in
      ground (arith, d, all_processed s seen is h a.1)

  deps_in :
      (s : DependencyGraph P.Graph) (seen is : List ℕ)
      → AreIndexed s seen
      → AllIn is seen
      → AllIn (map (id_or_unknown P s) is) (ids_of P s.reverse_index seen)
  deps_in s seen [] h a = tt
  deps_in s seen (j ∷ is) h a =
      let (id, at, found, entry) = AreIndexed-mem s j seen a.0 h in
      (
        subst (λ o. Memᴰ (or_unknown o) (ids_of P s.reverse_index seen)) (sym at)
            (mem-ids_of s.reverse_index j id seen a.0 at),
        deps_in s seen is h a.1,
      )

  IsStartup-ids_of :
      (s : DependencyGraph P.Graph) (seen is : List ℕ)
      → AreIndexed s seen
      → AreIndexed s is
      → IsTopological s.graph seen is
      → IsStartup s (ids_of P s.reverse_index seen) (ids_of P s.reverse_index is)
  unfolding ids_of get_dependencies
  IsStartup-ids_of s seen [] h k t = tt
  IsStartup-ids_of s seen (i ∷ is) h k t =
      let (id, at, found, entry) = k.0 in
      let rest =
        IsStartup-ids_of s (seen ++ i ∷ []) is (AreIndexed-append s seen i h k.0) k.1 t.2 in
      let before = ids_of-append s.reverse_index seen i id at in
      rw (ids_of, at)
        (
          (
            map (id_or_unknown P s) (P.incoming i s.graph),
            ground (arith, entry),
            deps_in s seen _ h t.1,
          ),
          subst (λ ids. IsStartup s ids (ids_of P s.reverse_index is)) before rest,
        )

  -- The only groups are those of one mount.
  abbrev singles : List String → List (List String)
  singles ids = map (λ id. id ∷ []) ids

  add_group-single :
      (s : DependencyGraph P.Graph) (id : String) (i : ℕ) (g : Grouping)
      → contains id g.processed ≡ false
      → find_index id s.reverse_index ≡ some i
      → has_unprocessed P s.graph s.reverse_index g.processed i ≡ false
      → add_group P s.graph s.reverse_index id g
        ≡ record { groups = g.groups ++ (id ∷ []) ∷ []; processed = g.processed ++ id ∷ [] }
  unfolding add_group check_all
  add_group-single s id i g new found ready = ground (arith, new, found, ready)

  add_groups-singles :
      (s : DependencyGraph P.Graph) (seen is : List ℕ) (groups : List (List String))
      → AreIndexed s seen
      → AreIndexed s is
      → IsTopological s.graph seen is
      → (add_groups P s.graph s.reverse_index
          (ids_of P s.reverse_index is)
          (record { groups = groups; processed = ids_of P s.reverse_index seen })).groups
        ≡ groups ++ singles (ids_of P s.reverse_index is)
  unfolding add_groups ids_of has_unprocessed
  add_groups-singles s seen [] groups h k t = sym (append-nil groups)
  add_groups-singles s seen (i ∷ is) groups h k t =
      let (id, at, found, entry) = k.0 in
      let g : Grouping = record { groups = groups; processed = ids_of P s.reverse_index seen } in
      let one =
        add_group-single s id i g (fresh_id s i id seen h t.0 found) found
          (all_processed s seen (P.incoming i s.graph) h t.1) in
      let rest =
        add_groups-singles s (seen ++ i ∷ []) is (groups ++ (id ∷ []) ∷ [])
          (AreIndexed-append s seen i h k.0) k.1 t.2 in
      let before = sym (ids_of-append s.reverse_index seen i id at) in
      let following = ids_of P s.reverse_index is in
      let with_processed : List String → Grouping =
        λ ids. record { groups = groups ++ (id ∷ []) ∷ []; processed = ids } in
      rw (ids_of, at)
        (ap (λ (y : Grouping). (add_groups P s.graph s.reverse_index following y).groups)
            (one ∙ ap with_processed before)
          ∙ rest
          ∙ append_assoc groups ((id ∷ []) ∷ []) (singles following))

  -- If petgraph sorts the graph, and every node stands for one mount in both indexes, the startup
  -- sequence is found, holds the mounts in the order of the sorted nodes, and starts each mount
  -- after all that it depends on; each of its parallel groups is one mount, in the same order.
  pub get_startup_sequence-IsStartup :
      (s : DependencyGraph P.Graph) (sorted : List ℕ)
      → P.toposort s.graph ≡ some sorted
      → IsTopological s.graph [] sorted
      → AreIndexed s sorted
      → (startup : Sequence) × (get_startup_sequence P s ≡ ok startup)
        × (startup.mounts ≡ ids_of P s.reverse_index sorted)
        × IsStartup s [] startup.mounts
        × (startup.parallel_groups ≡ map (λ id. id ∷ []) startup.mounts)
  unfolding get_startup_sequence determine_parallel_groups ids_of
  get_startup_sequence-IsStartup s sorted e t k = (
    record {
      mounts = ids_of P s.reverse_index sorted;
      parallel_groups =
          determine_parallel_groups P s.graph s.reverse_index (ids_of P s.reverse_index sorted);
    },
    ground (arith, e),
    refl,
    IsStartup-ids_of s [] sorted tt k t,
    add_groups-singles s [] sorted [] tt k t,
  )
