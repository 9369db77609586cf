-- ===== src/Paths/Search/Shortest.antt =====
-- findShortestPath ends, and its path is a walk from the start to the end.
use sky_accel.Base.{
  ℕ, zero, suc, ◌≤◌, ◌<◌, ◌≡◌, ◌⊎◌, inl, inr, refl, sym, ◌∙◌, List, [], ◌∷◌, ◌++◌, Option, none,
  some, true, not, ◌||◌, ◌&&◌, arith, length, All, Bool-cases, Option-cases,
}
use sky_accel.Base.Keys.{lookup, insert, lookup-insert, same, same_refl, string_eq}
use sky_accel.Graph.{Edge}
use sky_accel.Paths.Heap.{pop_item, pop_item-All, pop_item-length, push_item-All}
use sky_accel.Paths.Search.{
  Numbers, Solver, PqNode, Search, Outcome, found, no_path_found, cost_of, is_above, is_finite,
  edge_cost, edges_of, next_search, build_path, search_loop, init_search, init_costs, init_ends,
  find_shortest_path, has_dup,
}
use sky_accel.Paths.Search.Walk.{HasEdge, Chain, root, IsPath, path_back-IsPath, same-eq}
use sky_accel.Paths.Search.Costs.{IsOrder, IsWeight, lt_irrefl, measure}
use sky_accel.Paths.Search.Relax.{IsSearch, AtMost, relax_all-Goes}
use sky_accel.Base.Maps.{All-insert, All-lookup}
use mathlib.Core.Path.{subst}
use Prim.Native.String.{String}

all_nodes : (l : List String) → All (λ x. Unit {0}) l
all_nodes [] = tt
all_nodes (x ∷ l) = (tt, all_nodes l)

-- The node is a key of the map.
abbrev Has : {F : Type 0} → String → List (String × Option F) → Type 0
Has {F} node dist = (d : Option F) × (lookup node dist ≡ some d)

module _ {F : Type 0} where
  Has-insert :
      (node key : String) (v : Option F) (dist : List (String × Option F))
      → Has node dist ⊎ (key ≡ node)
      → Has node (insert key v dist)
  Has-insert node key v dist h = elim (Bool-cases (same key node)) [
    | inl i ↦ (v, lookup-insert key node v dist ∙ rw i refl)
    | inr i ↦ elim h [
      | inl (d, e) ↦ (d, lookup-insert key node v dist ∙ rw i e)
      | inr e ↦ absurd (ground (arith, i, (string_eq.beq_iff key node).1 e))
    ]
  ]

module _ {F : Type 0} (num : Numbers F) (ks : Solver F) where
  init_ends-kept :
      (node : String) (es : List (Edge F)) (dist : List (String × Option F))
      → Has node dist
      → Has node (init_ends num ks es dist)
  unfolding init_ends
  init_ends-kept node [] dist h = h
  init_ends-kept node (e ∷ es) dist h =
      init_ends-kept node es (insert e.destination_ip none dist)
        (Has-insert node e.destination_ip none dist (inl h))

  init_ends-Has :
      (before behind : List (Edge F)) (e : Edge F) (dist : List (String × Option F))
      → Has e.destination_ip (init_ends num ks (before ++ e ∷ behind) dist)
  unfolding init_ends
  init_ends-Has [] behind e dist =
      init_ends-kept e.destination_ip behind (insert e.destination_ip none dist)
        (Has-insert e.destination_ip e.destination_ip none dist (inr refl))
  init_ends-Has (b ∷ before) behind e dist =
      init_ends-Has before behind e (insert b.destination_ip none dist)

  init_costs-Has :
      (graph : List (String × List (Edge F))) (a : String) (before behind : List (Edge F))
      (e : Edge F)
      → edges_of graph a ≡ before ++ e ∷ behind
      → Has e.destination_ip (init_costs num ks graph)
  unfolding init_costs lookup
  init_costs-Has [] a [] behind e at = absurd cc
  init_costs-Has [] a (b ∷ before) behind e at = absurd cc
  init_costs-Has ((node, es) ∷ graph) a before behind e at =
      Has-insert e.destination_ip node none (init_ends num ks es (init_costs num ks graph)) (
        inl (elim (Bool-cases (same node a)) [
          | inl i ↦
              let here : es ≡ before ++ e ∷ behind = rw (i, edges_of) at at in
              rw here (init_ends-Has before behind e (init_costs num ks graph))
          | inr i ↦
              init_ends-kept e.destination_ip es (init_costs num ks graph)
                (init_costs-Has graph a before behind e (rw (i, edges_of) at at))
        ]))

  abbrev IsInfinite : String × Option F → Type 0
  IsInfinite r = r.1 ≡ none

  init_ends-All :
      (es : List (Edge F)) (dist : List (String × Option F))
      → All IsInfinite dist
      → All IsInfinite (init_ends num ks es dist)
  unfolding init_ends
  init_ends-All [] dist h = h
  init_ends-All (e ∷ es) dist h =
      init_ends-All es (insert e.destination_ip none dist)
        (All-insert IsInfinite e.destination_ip none dist h refl)

  init_costs-All :
      (graph : List (String × List (Edge F))) → All IsInfinite (init_costs num ks graph)
  unfolding init_costs
  init_costs-All [] = tt
  init_costs-All ((node, es) ∷ graph) =
      All-insert IsInfinite node none (init_ends num ks es (init_costs num ks graph))
        (init_ends-All es (init_costs num ks graph) (init_costs-All graph)) refl

module _ {F : Type 0} (num : Numbers F) (ks : Solver F) (o : IsOrder num)
    (graph : List (String × List (Edge F))) (nodes edges : List String) (start end : String)
    (weights : (a : String) (e : Edge F)
      → HasEdge graph nodes a e.destination_ip
      → IsWeight num (edge_cost num ks e)) where
  abbrev pub IsRunning : Search F → Type 0
  IsRunning = IsSearch num ks o graph nodes start

  -- A search ends as it should: with the error, or with a path that is a walk.
  pub data Ends : Outcome F → Type 0 where
    with_path :
        (hops : List String) (cost : F) (rtt : Option F)
        → IsPath graph nodes start end hops
        → Ends (found hops cost rtt)
    with_error : Ends no_path_found

  pub next_search-IsSearch :
      (u : PqNode F) (s : Search F)
      → IsRunning s
      → AtMost num ks o graph nodes start s.dist u.cost u.node
      → IsRunning (next_search num ks graph nodes edges start end u s)
        × (measure num o (next_search num ks graph nodes edges start end u s) ≤ measure num o s)
  unfolding next_search
  next_search-IsSearch u s h (d, at, le) =
      elim (Bool-cases (
        is_above num ks u.cost (cost_of num ks u.node s.dist)
        || is_finite num ks (cost_of num ks end s.dist))) [
          | inl e ↦ rw e (h, omega arith)
          | inr e ↦
              let g =
                relax_all-Goes num ks o graph nodes start edges u.node u.cost d []
                  (edges_of graph u.node) s refl (weights u.node) h at le in
              rw e (g.kept, g.lower)
        ]

  -- The path for an end that the search has reached.
  build_path-Ends :
      (s : Search F) (u : PqNode F)
      → IsRunning s
      → AtMost num ks o graph nodes start s.dist u.cost u.node
      → same u.node end ≡ true
      → (enough : ℕ) × ((fuel : ℕ) → enough ≤ fuel → Ends (build_path num ks fuel s end u.cost))
  unfolding build_path has_dup
  build_path-Ends s u h (d, at, le) e =
      let here : u.node ≡ end = same-eq u.node end e in
      let (l, chain) = h.sound u.node d at in
      let at_end = subst (λ n. Chain graph nodes s.prev start n l) here chain in
      (
        suc (length l),
        λ fuel more.
            let (whole, built, is_path) =
              path_back-IsPath graph nodes s.prev start end l at_end [] tt refl (tt, tt)
                (all_nodes l) fuel (omega arith) in
            rw (built, build_path) (rw is_path.thin (with_path whole u.cost _ is_path)),
      )

  -- A search in a state of the invariant, with more fuel than its measure: some amount of fuel for the path
  -- is enough.
  search_loop-Ends :
      (fuel : ℕ) (s : Search F)
      → IsRunning s
      → measure num o s < fuel
      → (enough : ℕ) × ((path_fuel : ℕ)
          → enough ≤ path_fuel
          → Ends (search_loop num ks graph nodes edges start end path_fuel fuel s))
  unfolding search_loop
  search_loop-Ends zero s h less = absurd (omega arith)
  search_loop-Ends (suc fuel) s h less =
      elim (Option-cases (pop_item (λ (a b : PqNode F). num.lt a.cost b.cost) s.queue)) [
        | inl e ↦ (0, λ p _. rw (e, search_loop) with_error)
        | inr ((u, rest), e) ↦
            let (m, others) =
              pop_item-All (λ (a b : PqNode F). num.lt a.cost b.cost)
                (λ i. AtMost num ks o graph nodes start s.dist i.cost i.node) s.queue rest u
                h.queued e in
            let size =
              pop_item-length (λ (a b : PqNode F). num.lt a.cost b.cost) s.queue rest u e in
            let t = record s { queue = rest } in
            let ht : IsRunning t = record {
              sound = h.sound;
              ordered = h.ordered;
              queued = others;
              known = h.known;
            } in
            elim (Bool-cases
              (not (is_above num ks u.cost (cost_of num ks u.node s.dist)) && same u.node end)) [
                | inl g ↦
                    let (enough, f) = build_path-Ends t u ht m (ground (arith, g)) in
                    (enough, λ p more. rw (e, search_loop) (rw g (f p more)))
                | inr g ↦
                    let (next, lower) = next_search-IsSearch u t ht m in
                    let (enough, f) =
                      search_loop-Ends fuel (next_search num ks graph nodes edges start end u t)
                        next (omega (arith, size, lower)) in
                    (enough, λ p more. rw (e, search_loop) (rw g (f p more)))
              ]
      ]

  pub init_search-IsSearch : IsRunning (init_search num ks graph nodes edges start end)
  unfolding init_search lookup
  init_search-IsSearch = record {
    sound = λ node d e.
        let looked = lookup-insert start node (some num.zero_) (init_costs num ks graph) in
        elim (Bool-cases (same start node)) [
          | inl i ↦
              subst (λ n. (l : List String) × Chain graph nodes [] start n l) (same-eq start node i)
                ([], root refl)
          | inr i ↦
              let infinite =
                All-lookup (IsInfinite num ks) node (some d) (init_costs num ks graph)
                  (init_costs-All num ks graph) (rw i at (sym looked ∙ e)) in
              absurd cc
        ];
    ordered = λ node before e. absurd cc;
    queued =
        push_item-All (λ (a b : PqNode F). num.lt a.cost b.cost)
          (λ i.
            AtMost num ks o graph nodes start
              (insert start (some num.zero_) (init_costs num ks graph)) i.cost i.node)
          (record { node = start; cost = num.zero_ }) [] tt
          (
            num.zero_,
            lookup-insert start start (some num.zero_) (init_costs num ks graph)
                ∙ rw (same_refl start) refl,
            lt_irrefl num o num.zero_,
          );
    known = λ a b edge.
        let had = init_costs-Has num ks graph a edge.before edge.behind edge.edge edge.at in
        subst (λ n. Has n (insert start (some num.zero_) (init_costs num ks graph))) edge.ends
          (Has-insert edge.edge.destination_ip start (some num.zero_) (init_costs num ks graph)
            (inl had));
  }

  -- findShortestPath on a graph whose weights make no cost smaller, with an order of costs that has
  -- finitely many ranks: from some amount of fuel on both loops end. The result is the error, or a path
  -- that leads over edges of the graph from the start to the end, comes to no node twice, and has no
  -- forbidden node behind its first.
  pub find_shortest_path-Ends :
      (bound : ℕ) × ((fuel : ℕ)
        → bound ≤ fuel
        → (enough : ℕ) × ((path_fuel : ℕ)
            → enough ≤ path_fuel
            → Ends (find_shortest_path num ks graph nodes edges start end path_fuel fuel)))
  unfolding find_shortest_path
  find_shortest_path-Ends =
      let s = init_search num ks graph nodes edges start end in
      (
        suc (measure num o s),
        λ fuel more. search_loop-Ends fuel s init_search-IsSearch (omega arith),
      )
