-- ===== src/Paths/Yen.antt =====
-- yensAlgorithm of control-plane/routing/core-domain/k-shortest.go. `find` is findShortestPath to `end`, on
-- a graph, with forbidden nodes, from a node; `none` is its error. A candidate stands in the queue with its
-- hops, which the source joins by "->" and splits again: no node's name has that text. The loop for more
-- paths runs on fuel.
pub mod Grafts
pub mod Candidates
pub mod Enough
pub mod Sorted
use sky_accel.Base.{
  ℕ, zero, suc, ◌-◌, List, [], ◌∷◌, ◌++◌, Option, none, some, Bool, true, false, not, leb, ◌&&◌,
  ◌||◌, if◌then◌else◌, length, take, get_elem?, map,
}
use sky_accel.Base.Keys.{lookup, insert, same, string_eq}
use sky_accel.Base.Maps.{filter}
use sky_accel.Graph.{Edge}
use sky_accel.Paths.{
  is_in_path, has_duplicate_nodes, remove_consecutive_duplicates, paths_share_prefix,
}
use sky_accel.Paths.Heap.{push_item, pop_item}
use sky_accel.Paths.Search.{Numbers, Solver, edge_cost, edges_of}
use Prim.Native.String.{String}

-- Path, and an item of the queue of candidates; a rawRTT of `none` is infinity.
pub record FoundPath (F : Type 0) : Type 0 where
  pub hops : List String
  pub cost : F
  pub raw_rtt : Option F

-- graphCopy and B.
pub record Spurs (F : Type 0) : Type 0 where
  pub graph : List (String × List (Edge F))
  pub queue : List (FoundPath F)

pub data Top (F : Type 0) : Type 0 where
  no_first_path : Top F
  top_paths : List (FoundPath F) → Top F
  more_fuel : Top F

-- The comparison of two joined paths.
unfoldable pub same_hops : List String → List String → Bool
same_hops [] [] = true
same_hops [] (b ∷ q) = false
same_hops (a ∷ p) [] = false
same_hops (a ∷ p) (b ∷ q) = let rest = same_hops p q in same a b && rest

-- isPathInList, and isPathInQueue.
unfoldable pub is_path_in_list : {F : Type 0} → List String → List (FoundPath F) → Bool
unfolding same_hops
is_path_in_list hops [] = false
is_path_in_list hops (p ∷ ps) =
    let rest = is_path_in_list hops ps in if same_hops p.hops hops then true else rest

-- The edges of the spur node that stay: not into the root path, and not to the node that a path with this
-- prefix has next.
unfoldable pub ban_next :
    {F : Type 0} → ℕ → List String → List (FoundPath F) → List (Edge F) → List (Edge F)
unfolding paths_share_prefix
ban_next j root [] edges = edges
ban_next j root (p ∷ ps) edges = ban_next j root ps (elim (get_elem? p.hops (suc j)) [
  | none ↦ edges
  | some target ↦
      if paths_share_prefix p.hops root
      then filter (λ e. not (same e.destination_ip target)) edges
      else edges
])

unfoldable pub spur_edges :
    {F : Type 0} → ℕ → List String → List (FoundPath F) → List (Edge F) → List (Edge F)
unfolding ban_next
spur_edges j root ps edges =
    ban_next j root ps (filter (λ e. not (is_in_path e.destination_ip root)) edges)

unfoldable pub find_edge : {F : Type 0} → String → List (Edge F) → Option (Edge F)
find_edge dest [] = none
find_edge dest (e ∷ es) =
    let rest = find_edge dest es in if same e.destination_ip dest then some e else rest

-- The two loops of the sort on `i` and on `j`, by a test that says when two paths change places.
unfoldable pub exchange_pass {ℓ} : {A : Type ℓ} → (A → A → Bool) → A → List A → A × List A
exchange_pass less at [] = (at, [])
exchange_pass less at (p ∷ ps) =
    let swapped = exchange_pass less p ps in
    let kept = exchange_pass less at ps in
    if less p at then (swapped.0, at ∷ swapped.1) else (kept.0, p ∷ kept.1)

unfoldable pub exchange_sort {ℓ} : {A : Type ℓ} → (A → A → Bool) → ℕ → List A → List A
unfolding exchange_pass
exchange_sort less zero ps = ps
exchange_sort less (suc n) [] = []
exchange_sort less (suc n) (p ∷ ps) =
    let r = exchange_pass less p ps in r.0 ∷ exchange_sort less n r.1

module _ {F : Type 0} (num : Numbers F) (ks : Solver F)
    (find : List (String × List (Edge F)) → List String → String → Option (FoundPath F)) (k : ℕ)
    (start end : String) where
  abbrev pub less_cost : FoundPath F → FoundPath F → Bool
  less_cost a b = num.lt a.cost b.cost

  -- calculatePathCost and calculatePathRTT: the sum over the edges of `weight`, behind `sum`.
  unfoldable pub calculate_path : (Edge F → F) → List (String × List (Edge F)) → F → List String → F
  unfolding find_edge
  calculate_path weight graph sum [] = sum
  calculate_path weight graph sum (a ∷ []) = sum
  calculate_path weight graph sum (a ∷ b ∷ path) =
      calculate_path weight graph
        (elim (find_edge b (edges_of graph a)) [ none ↦ sum | some e ↦ num.plus sum (weight e) ])
        (b ∷ path)

  -- The root path without its last node, and the spur path.
  unfoldable pub complete_path :
      List (String × List (Edge F)) → ℕ → List String → FoundPath F → FoundPath F
  unfolding calculate_path edge_cost remove_consecutive_duplicates
  complete_path graph j hops spur =
      let root = take (suc j) hops in
      record {
        hops = remove_consecutive_duplicates (take j hops ++ spur.hops);
        cost = num.plus (calculate_path (λ e. edge_cost num ks e) graph num.zero_ root) spur.cost;
        raw_rtt = elim spur.raw_rtt [
          | none ↦ none
          | some rtt ↦ some (num.plus (calculate_path (λ e. e.latency) graph num.zero_ root) rtt)
        ];
      }

  unfoldable pub offer : List (FoundPath F) → FoundPath F → List (FoundPath F) → List (FoundPath F)
  unfolding has_duplicate_nodes is_path_in_list push_item
  offer a p queue =
      if has_duplicate_nodes p.hops || is_path_in_list p.hops a || is_path_in_list p.hops queue
      then queue
      else push_item less_cost p queue

  -- A turn of the loop on `j`, for the spur node and its edges. A spur path with a node twice leaves the
  -- edges of the spur node as they are.
  unfoldable pub spur_at :
      List (FoundPath F) → List String → ℕ → String → List (Edge F) → Spurs F → Spurs F
  unfolding spur_edges is_in_path has_duplicate_nodes offer complete_path
  spur_at a hops j node original s =
      let root = take (suc j) hops in
      let g = insert node (spur_edges j root a original) s.graph in
      let restored = insert node original g in
      if same node end || is_in_path end root
      then record s { graph = restored }
      else elim (find g (take j hops) node) [
        | none ↦ record s { graph = restored }
        | some spur ↦
            if has_duplicate_nodes spur.hops
            then record s { graph = g }
            else record { graph = restored; queue = offer a (complete_path g j hops spur) s.queue }
      ]

  unfoldable pub spur_step : List (FoundPath F) → List String → ℕ → Spurs F → Spurs F
  unfolding spur_at
  spur_step a hops j s = elim (get_elem? hops j) [
    | none ↦ s
    | some node ↦ elim (lookup node s.graph) [
      | none ↦ s
      | some original ↦ spur_at a hops j node original s
    ]
  ]

  -- The loop on `j`, with `n` turns left.
  unfoldable pub spur_loop : List (FoundPath F) → List String → ℕ → ℕ → Spurs F → Spurs F
  unfolding spur_step
  spur_loop a hops j zero s = s
  spur_loop a hops j (suc n) s = spur_loop a hops (suc j) n (spur_step a hops j s)

  unfoldable pub all_spurs : List (FoundPath F) → List (FoundPath F) → Spurs F → Spurs F
  unfolding spur_loop
  all_spurs a [] s = s
  all_spurs a (p ∷ ps) s = all_spurs a ps (spur_loop a p.hops 0 (length p.hops - 1) s)

  -- A candidate enters A, unless A has it.
  unfoldable pub enter : FoundPath F → List (FoundPath F) → List (FoundPath F)
  unfolding is_path_in_list remove_consecutive_duplicates
  enter p a =
      let hops = remove_consecutive_duplicates p.hops in
      if is_path_in_list hops a then a else a ++ record p { hops = hops } ∷ []

  unfoldable pub yen_loop : ℕ → List (FoundPath F) → Spurs F → Option (List (FoundPath F))
  unfolding all_spurs pop_item enter
  yen_loop zero a s = none
  yen_loop (suc fuel) a s =
      let t = all_spurs a a s in
      if leb k (length a) then some a else elim (pop_item less_cost t.queue) [
        | none ↦ some a
        | some r ↦ yen_loop fuel (enter r.0 a) (record t { queue = r.1 })
      ]

  abbrev pub dedup : FoundPath F → FoundPath F
  dedup p = record p { hops = remove_consecutive_duplicates p.hops }

  -- yensAlgorithm
  unfoldable pub yens_algorithm : ℕ → List (String × List (Edge F)) → Top F
  unfolding yen_loop exchange_sort remove_consecutive_duplicates
  yens_algorithm fuel graph = elim (find graph [] start) [
    | none ↦ no_first_path
    | some p ↦ elim (yen_loop fuel (dedup p ∷ []) (record { graph = graph; queue = [] })) [
      | none ↦ more_fuel
      | some a ↦ top_paths (map dedup (exchange_sort less_cost (length a) a))
    ]
  ]
