-- ===== src/Paths/Search.antt =====
-- findShortestPath of control-plane/routing/core-domain/k-shortest.go. `F` is float64 with its sum and order;
-- infinity is `none`, and a node that a map of costs does not have costs 0, as in Go. The maps of the
-- graph are lists, whose order no result depends on. The two loops run on fuel; a node is never "".
pub mod Walk
pub mod Costs
pub mod Relax
pub mod Shortest
pub mod Complete
pub mod Covers
pub mod Opened
use sky_accel.Base.{
  ℕ, zero, suc, List, [], ◌∷◌, ◌++◌, Option, none, some, Bool, true, false, not, ◌||◌, ◌&&◌,
  if◌then◌else◌,
}
use sky_accel.Base.Keys.{lookup, insert, same, string_eq}
use sky_accel.Graph.{Edge}
use sky_accel.Paths.{is_in_path, remove_consecutive_duplicates}
use sky_accel.Paths.Heap.{push_item, pop_item}
use Prim.Native.String.{String, ◌++◌ as str_append}

-- float64: 0, the sum, the product and `<`.
pub record Numbers (F : Type 0) : Type 0 where
  pub zero_ : F
  pub plus : F → F → F
  pub times : F → F → F
  pub lt : F → F → Bool

-- The fields of KShortestSolver that a search reads.
pub record Solver (F : Type 0) : Type 0 where
  pub alpha : F
  pub use_latency : Bool

pub record PqNode (F : Type 0) : Type 0 where
  pub node : String
  pub cost : F

-- The maps dist, rawRTT and prev, and the queue.
pub record Search (F : Type 0) : Type 0 where
  pub dist : List (String × Option F)
  pub raw_rtt : List (String × Option F)
  pub prev : List (String × String)
  pub queue : List (PqNode F)

-- A path as its hops, its cost and its rawRTT; the error; or a loop that ran out of fuel.
pub data Outcome (F : Type 0) : Type 0 where
  found : List String → F → Option F → Outcome F
  no_path_found : Outcome F
  out_of_fuel : Outcome F

-- The loop that builds the path, from its end to the node before.
unfoldable pub path_back : List (String × String) → ℕ → String → List String → Option (List String)
path_back prev zero node path = none
path_back prev (suc fuel) node path = elim (lookup node prev) [
  | none ↦ some (node ∷ path)
  | some before ↦ path_back prev fuel before (node ∷ path)
]

-- The loop that looks for a node that is the one before it.
unfoldable pub has_dup : List String → Bool
has_dup [] = false
has_dup (a ∷ []) = false
has_dup (a ∷ b ∷ path) = let rest = has_dup (b ∷ path) in if same a b then true else rest

-- `graph_[currNode]`
abbrev pub edges_of : {F : Type 0} → List (String × List (Edge F)) → String → List (Edge F)
edges_of graph node = elim (lookup node graph) [ none ↦ [] | some edges ↦ edges ]

module _ {F : Type 0} (num : Numbers F) (ks : Solver F) where
  unfoldable pub cost_of : String → List (String × Option F) → Option F
  cost_of node dist = elim (lookup node dist) [ none ↦ some num.zero_ | some d ↦ d ]

  -- `newCost < dist[nextNode]` and `currCost > dist[currNode]`
  unfoldable pub is_below : F → Option F → Bool
  is_below cost none = true
  is_below cost (some d) = num.lt cost d

  unfoldable pub is_above : F → Option F → Bool
  is_above cost none = false
  is_above cost (some d) = num.lt d cost

  unfoldable pub plus_cost : Option F → F → Option F
  plus_cost none w = none
  plus_cost (some d) w = some (num.plus d w)

  unfoldable pub edge_cost : Edge F → F
  edge_cost e = num.times (if ks.use_latency then e.latency else e.edge_weight) ks.alpha

  -- The body of the loop over the edges of a node, for an edge that is not forbidden.
  unfoldable pub relax : String → F → Edge F → Search F → Search F
  unfolding cost_of is_below plus_cost edge_cost push_item
  relax node cost e s =
      let next = e.destination_ip in
      let new_cost = num.plus cost (edge_cost e) in
      if is_below new_cost (cost_of next s.dist)
      then record {
        dist = insert next (some new_cost) s.dist;
        raw_rtt = insert next (plus_cost (cost_of node s.raw_rtt) e.latency) s.raw_rtt;
        prev = insert next node s.prev;
        queue =
            push_item (λ a b. num.lt a.cost b.cost) (record { node = next; cost = new_cost })
              s.queue;
      }
      else s

  unfoldable pub relax_all :
      List String → List String → String → F → List (Edge F) → Search F → Search F
  unfolding relax is_in_path
  relax_all nodes edges node cost [] s = s
  relax_all nodes edges node cost (e ∷ es) s =
      let key = str_append (str_append node "->") e.destination_ip in
      relax_all nodes edges node cost es (
        if is_in_path e.destination_ip nodes || is_in_path key edges
        then s
        else relax node cost e s)

  -- The costs before the search: infinity for each source of the graph and each end of an edge.
  unfoldable pub init_ends : List (Edge F) → List (String × Option F) → List (String × Option F)
  init_ends [] dist = dist
  init_ends (e ∷ es) dist = init_ends es (insert e.destination_ip none dist)

  unfoldable pub init_costs : List (String × List (Edge F)) → List (String × Option F)
  unfolding init_ends
  init_costs [] = []
  init_costs ((node, edges) ∷ graph) = insert node none (init_ends edges (init_costs graph))

  -- The path at the end of the search.
  unfoldable pub build_path : ℕ → Search F → String → F → Outcome F
  unfolding path_back has_dup remove_consecutive_duplicates cost_of
  build_path fuel s end cost = elim (path_back s.prev fuel end []) [
    | none ↦ out_of_fuel
    | some path ↦
        found (if has_dup path then remove_consecutive_duplicates path else path) cost
          (cost_of end s.raw_rtt)
  ]

  abbrev pub is_finite : Option F → Bool
  is_finite none = false
  is_finite (some d) = true

  module _ (graph : List (String × List (Edge F))) (nodes edges : List String)
      (start end : String) where
    -- The search behind a turn that does not end it, for the item `u` and the queue without it.
    unfoldable pub next_search : PqNode F → Search F → Search F
    unfolding relax_all is_above cost_of
    next_search u s =
        if is_above u.cost (cost_of u.node s.dist) || is_finite (cost_of end s.dist)
        then s
        else relax_all nodes edges u.node u.cost (edges_of graph u.node) s

    -- The loop on the queue; `path_fuel` is for the loop that builds the path.
    unfoldable pub search_loop : ℕ → ℕ → Search F → Outcome F
    unfolding next_search build_path pop_item is_above
    search_loop path_fuel zero s = out_of_fuel
    search_loop path_fuel (suc fuel) s = elim (pop_item (λ a b. num.lt a.cost b.cost) s.queue) [
      | none ↦ no_path_found
      | some r ↦
          let t = record s { queue = r.1 } in
          let rest = search_loop path_fuel fuel (next_search r.0 t) in
          if not (is_above r.0.cost (cost_of r.0.node t.dist)) && same r.0.node end
          then build_path path_fuel t end r.0.cost
          else rest
    ]

    unfoldable pub init_search : Search F
    unfolding init_costs push_item
    init_search = record {
      dist = insert start (some num.zero_) (init_costs graph);
      raw_rtt = insert start (some num.zero_) (init_costs graph);
      prev = [];
      queue =
          push_item (λ a b. num.lt a.cost b.cost) (record { node = start; cost = num.zero_ }) [];
    }

    -- findShortestPath
    unfoldable pub find_shortest_path : ℕ → ℕ → Outcome F
    unfolding search_loop init_search
    find_shortest_path path_fuel fuel = search_loop path_fuel fuel init_search
