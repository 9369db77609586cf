-- ===== src/Examples/Searches.antt =====
-- The search of the path solvers on a graph with a direct link and a cheaper way over a relay.
use sky_accel.Base.{
  ℕ, ◌+◌, ◌*◌, ◌≤◌, ◌≡◌, ◌≢◌, refl, ◌⊎◌, List, [], ◌∷◌, Option, none, some, Bool, All, length, true,
  false, arith, ltb, if◌then◌else◌,
}
use sky_accel.Graph.{Edge}
use sky_accel.Paths.{is_in_path}
use sky_accel.Paths.Search.{
  Numbers, Solver, found, no_path_found, find_shortest_path, edge_cost, edges_of,
}
use sky_accel.Paths.Search.Walk.{HasEdge, last_of}
use sky_accel.Paths.Search.Costs.{IsOrder, IsWeight}
use sky_accel.Paths.Search.Complete.{find_shortest_path-IsCut}
use sky_accel.Paths.Search.Shortest.{Ends, find_shortest_path-Ends}
use sky_accel.Paths.Yen.{FoundPath, no_first_path, top_paths, yens_algorithm}
use sky_accel.Paths.Yen.Candidates.{IsRoute}
use sky_accel.Paths.Yen.Sorted.{IsSorted, yens_algorithm-IsSorted}
use sky_accel.Paths.Computing.{
  Route, Computed, start_not_found, end_not_found, no_route, computed, is_node, build_graph,
  computing,
}
use sky_accel.Paths.Computing.Routes.{
  search, search-IsPath, IsAnswer, computing-IsAnswer, edges_of-build_graph,
}
use Prim.Native.String.{String}

-- Costs that are the same from 1000 on, so that they have finitely many ranks.
abbrev cap : ℕ → ℕ
cap c = if ltb c 1000 then c else 1000

abbrev numbers : Numbers ℕ
numbers = record {
  zero_ = 0;
  plus = λ a b. a + b;
  times = λ a b. a * b;
  lt = λ a b. ltb (cap a) (cap b);
}

numbers-IsOrder : IsOrder numbers
numbers-IsOrder = record {
  trans = λ a b c h k. ground (arith, h, k);
  rank = cap;
  top = 1001;
  rank-lt = λ a b h. ground (arith, h);
  rank_top = λ a. ground arith;
}

abbrev solver : Solver ℕ
solver = record { alpha = 1; use_latency = false }

abbrev link : String → String → ℕ → Edge ℕ
link a b w = record { source_ip = a; destination_ip = b; edge_weight = w; load = 0; latency = w }

abbrev links : List (String × List (Edge ℕ))
links = ("s", link "s" "t" 10 ∷ link "s" "a" 1 ∷ []) ∷ ("a", link "a" "t" 1 ∷ []) ∷ []

weights :
    (a : String) (e : Edge ℕ)
    → HasEdge links [] a e.destination_ip
    → IsWeight numbers (edge_cost numbers solver e)
weights a e h = λ c. ground arith

find_shortest_path-Ends_example :
    (bound : ℕ) × ((fuel : ℕ)
      → bound ≤ fuel
      → (enough : ℕ) × ((path_fuel : ℕ)
          → enough ≤ path_fuel
          → Ends numbers solver numbers-IsOrder links [] [] "s" "t" weights
              (find_shortest_path numbers solver links [] [] "s" "t" path_fuel fuel)))
find_shortest_path-Ends_example =
    find_shortest_path-Ends numbers solver numbers-IsOrder links [] [] "s" "t" weights

-- No link leads from the relay to the source.
cut_off : find_shortest_path numbers solver links [] [] "a" "s" 5 9 ≡ no_path_found
unfolding find_shortest_path sky_accel.Base.Keys.lookup sky_accel.Base.Keys.insert
cut_off = refl

relay_link : HasEdge links [] "a" "t"
unfolding sky_accel.Base.Keys.lookup is_in_path
relay_link = record {
  edge = link "a" "t" 1;
  before = [];
  behind = [];
  at = refl;
  ends = refl;
  allowed = refl;
}

find_shortest_path-IsCut_example : last_of "a" ("t" ∷ []) ≢ "s"
find_shortest_path-IsCut_example =
    find_shortest_path-IsCut numbers solver numbers-IsOrder links [] "a" "s" weights 5 9 cut_off
      ("t" ∷ []) (relay_link, tt)

-- The direct link is found, at cost 10, though the way over the relay costs 2.
misses_cheaper :
    find_shortest_path numbers solver links [] [] "s" "t" 5 9 ≡ found ("s" ∷ "t" ∷ []) 10 (some 10)
unfolding find_shortest_path sky_accel.Base.Keys.lookup sky_accel.Base.Keys.insert
misses_cheaper = refl

abbrev all_links : List (Edge ℕ)
all_links = link "s" "t" 10 ∷ link "s" "a" 1 ∷ link "a" "t" 1 ∷ []

all_weights : (e : Edge ℕ) → IsWeight numbers (edge_cost numbers solver e)
all_weights e = λ c. ground arith

abbrev search_t : List (String × List (Edge ℕ)) → List String → String → Option (FoundPath ℕ)
search_t = search numbers solver numbers-IsOrder all_weights "t"

abbrev answer : Computed ℕ
answer = computing numbers solver search_t 2 all_links "s" "t"

computing-IsAnswer_example :
    ((is_node "s" all_links ≡ false) × (answer ≡ start_not_found))
    ⊎ ((is_node "t" all_links ≡ false) × (answer ≡ end_not_found))
    ⊎ ((search_t (build_graph [] all_links) [] "s" ≡ none) × (answer ≡ no_route))
    ⊎ (rs : List (Route ℕ)) × (answer ≡ computed rs)
      × IsAnswer numbers solver numbers-IsOrder all_weights "t" 2 all_links "s" rs
computing-IsAnswer_example =
    computing-IsAnswer numbers solver numbers-IsOrder all_weights "t" 2 all_links "s"

yens_algorithm-IsSorted_example :
    ((search_t links [] "s" ≡ none)
      × (yens_algorithm numbers solver search_t 2 "s" "t" 3 links ≡ no_first_path))
    ⊎ (p : FoundPath ℕ) × (ps : List (FoundPath ℕ)) × (search_t links [] "s" ≡ some p)
      × (yens_algorithm numbers solver search_t 2 "s" "t" 3 links ≡ top_paths ps)
      × All (λ q. IsRoute links "s" "t" q.hops) ps
      × IsSorted (λ p q. numbers.lt p.cost q.cost) ps
      × (1 ≤ length ps)
      × (length ps ≤ 2)
yens_algorithm-IsSorted_example =
    yens_algorithm-IsSorted links "s" "t" numbers numbers-IsOrder solver search_t 2
      (search-IsPath numbers solver numbers-IsOrder all_weights "t") (omega arith)

edges_of-build_graph_example :
    edges_of (build_graph [] all_links) "s" ≡ link "s" "t" 10 ∷ link "s" "a" 1 ∷ []
edges_of-build_graph_example = edges_of-build_graph all_links "s"
