-- ===== src/Paths/Computing.antt =====
-- NewKShortestSolverWithLatency and Computing of control-plane/routing/core-domain/k-shortest.go. `find` is
-- findShortestPath, as for Yen's algorithm.
pub mod Routes
use sky_accel.Base.{
  ℕ, suc, List, [], ◌∷◌, ◌++◌, Option, Bool, true, false, not, ◌||◌, if◌then◌else◌, map, ◌==◌,
}
use sky_accel.Base.Keys.{lookup, insert, same, string_eq}
use sky_accel.Graph.{Edge}
use sky_accel.Paths.Search.{Numbers, Solver, edges_of}
use sky_accel.Paths.Yen.{FoundPath, Top, no_first_path, top_paths, more_fuel, yens_algorithm}
use Prim.Native.String.{String}

-- The number of paths of a solver; a `k` that is not positive is given as 0.
abbrev pub path_count : ℕ → ℕ
path_count k = if k == 0 then 5 else k

-- graph_: the edges of each source, in the order of the solver's edges.
unfoldable pub build_graph :
    {F : Type 0} → List (String × List (Edge F)) → List (Edge F) → List (String × List (Edge F))
build_graph graph [] = graph
build_graph graph (e ∷ es) =
    build_graph (insert e.source_ip (edges_of graph e.source_ip ++ e ∷ []) graph) es

-- `nodes[id]`
unfoldable pub is_node : {F : Type 0} → String → List (Edge F) → Bool
is_node id [] = false
is_node id (e ∷ es) =
    let rest = is_node id es in
    if same e.source_ip id || same e.destination_ip id then true else rest

-- routing.PathInfo, as Computing fills it.
pub record Route (F : Type 0) : Type 0 where
  pub hops : List String
  pub rtt : F

pub data Computed (F : Type 0) : Type 0 where
  start_not_found : Computed F
  end_not_found : Computed F
  no_route : Computed F
  computed : List (Route F) → Computed F
  fuel_ended : Computed F

abbrev pub route_of_path : {F : Type 0} → FoundPath F → Route F
route_of_path p = record { hops = p.hops; rtt = p.cost }

-- Computing
unfoldable pub computing :
    {F : Type 0}
    → Numbers F
    → Solver F
    → (List (String × List (Edge F)) → List String → String → Option (FoundPath F))
    → ℕ
    → List (Edge F)
    → String
    → String
    → Computed F
unfolding build_graph is_node yens_algorithm
computing num ks find k edges start end =
    let top =
      yens_algorithm num ks find (path_count k) start end (suc (path_count k))
        (build_graph [] edges) in
    if not (is_node start edges)
    then start_not_found
    else if not (is_node end edges)
    then end_not_found
    else elim top [
      | no_first_path ↦ no_route
      | top_paths ps ↦ computed (map route_of_path ps)
      | more_fuel ↦ fuel_ended
    ]
