-- ===== src/Paths/Computing/Routes.antt =====
-- Computing with findShortestPath itself, on enough fuel.
use sky_accel.Base.{
  ℕ, suc, ◌≤◌, ◌≡◌, ◌⊎◌, inl, inr, refl, sym, ap, ◌∙◌, List, [], ◌∷◌, ◌++◌, Option, none, some,
  false, arith, length, All, Bool-cases, Option-cases, map, if◌then◌else◌,
}
use sky_accel.Base.Keys.{lookup, insert, lookup-insert, same, string_eq}
use sky_accel.Base.Maps.{filter}
use mathlib.Core.List.{append-nil, append_assoc}
use sky_accel.Graph.{Edge}
use sky_accel.Paths.Search.{
  Numbers, Solver, Outcome, found, no_path_found, out_of_fuel, edge_cost, find_shortest_path,
  edges_of,
}
use sky_accel.Paths.Search.Walk.{HasEdge, IsPath}
use sky_accel.Paths.Search.Costs.{IsOrder, IsWeight}
use sky_accel.Paths.Search.Shortest.{Ends, with_path, with_error, find_shortest_path-Ends}
use sky_accel.Paths.Yen.{FoundPath}
use sky_accel.Paths.Yen.Candidates.{IsRoute}
use sky_accel.Paths.Yen.Sorted.{IsSorted, yens_algorithm-IsSorted}
use sky_accel.Paths.Computing.{
  path_count, build_graph, is_node, Route, Computed, start_not_found, end_not_found, no_route,
  computed, route_of_path, computing,
}
use Prim.Native.String.{String}

abbrev pub to_option : {F : Type 0} → Outcome F → Option (FoundPath F)
to_option (found hops cost rtt) = some (record { hops = hops; cost = cost; raw_rtt = rtt })
to_option no_path_found = none
to_option out_of_fuel = none

abbrev hops_or_none : {F : Type 0} → Option (FoundPath F) → List String
hops_or_none none = []
hops_or_none (some p) = p.hops

abbrev edges_or_none : {F : Type 0} → Option (List (Edge F)) → List (Edge F)
edges_or_none none = []
edges_or_none (some es) = es

module _ {F : Type 0} where
  edges_of-cases :
      (g : List (String × List (Edge F))) (a : String) → edges_of g a ≡ edges_or_none (lookup a g)
  edges_of-cases g a = elim (Option-cases (lookup a g)) [
    | inl e ↦ rw (e, edges_of) refl
    | inr (es, e) ↦ rw (e, edges_of) refl
  ]

  edges_of-insert :
      (g : List (String × List (Edge F))) (node a : String) (es : List (Edge F))
      → edges_of (insert node es g) a ≡ (if same node a then es else edges_of g a)
  edges_of-insert g node a es =
      let looked = lookup-insert node a es g in
      edges_of-cases (insert node es g) a
      ∙ ap edges_or_none looked
      ∙ elim (Bool-cases (same node a)) [
        | inl i ↦ rw i refl
        | inr i ↦ rw i (sym (edges_of-cases g a))
      ]

  edges_of-build_graph_from :
      (g : List (String × List (Edge F))) (edges : List (Edge F)) (a : String)
      → edges_of (build_graph g edges) a ≡ edges_of g a ++ filter (λ e. same e.source_ip a) edges
  unfolding build_graph
  edges_of-build_graph_from g [] a = sym (append-nil (edges_of g a))
  edges_of-build_graph_from g (e ∷ es) a =
      let longer = edges_of g e.source_ip ++ e ∷ [] in
      edges_of-build_graph_from (insert e.source_ip longer g) es a
      ∙ elim (Bool-cases (same e.source_ip a)) [
        | inl i ↦
            let here : edges_of g e.source_ip ≡ edges_of g a =
              ap (edges_of g) ((string_eq.beq_iff e.source_ip a).0 i) in
            rw (edges_of-insert g e.source_ip a longer) (
              rw (i, here)
                (append_assoc (edges_of g a) (e ∷ []) (filter (λ e. same e.source_ip a) es)))
        | inr i ↦ rw (edges_of-insert g e.source_ip a longer) (rw i refl)
      ]

  -- The graph that Computing builds has for each node exactly the solver's edges from that node, in their
  -- order.
  pub edges_of-build_graph :
      (edges : List (Edge F)) (a : String)
      → edges_of (build_graph [] edges) a ≡ filter (λ e. same e.source_ip a) edges
  unfolding lookup
  edges_of-build_graph edges a = edges_of-build_graph_from [] edges a

module _ {F : Type 0} (num : Numbers F) (ks : Solver F) (o : IsOrder num)
    (weights : (e : Edge F) → IsWeight num (edge_cost num ks e)) (end : String) where
  abbrev of_node :
      (g : List (String × List (Edge F))) (nodes : List String) (a : String) (e : Edge F)
      → HasEdge g nodes a e.destination_ip
      → IsWeight num (edge_cost num ks e)
  of_node g nodes a e h = weights e

  -- findShortestPath with the fuel that its theorem gives.
  abbrev pub search : List (String × List (Edge F)) → List String → String → Option (FoundPath F)
  search g nodes from =
      let (bound, run) = find_shortest_path-Ends num ks o g nodes [] from end (of_node g nodes) in
      to_option (find_shortest_path num ks g nodes [] from end (run bound (omega arith)).0 bound)

  Ends-IsPath :
      (g : List (String × List (Edge F))) (nodes : List String) (from : String) (out : Outcome F)
      (p : FoundPath F)
      → Ends num ks o g nodes [] from end (of_node g nodes) out
      → to_option out ≡ some p
      → IsPath g nodes from end p.hops
  Ends-IsPath g nodes from _ p (with_path hops cost rtt is_path) e =
      let same : hops ≡ p.hops = ap hops_or_none e in rw (← same) is_path
  Ends-IsPath g nodes from _ p with_error e = absurd cc

  pub search-IsPath :
      (g : List (String × List (Edge F))) (nodes : List String) (from : String) (p : FoundPath F)
      → search g nodes from ≡ some p
      → IsPath g nodes from end p.hops
  search-IsPath g nodes from p e =
      let (bound, run) = find_shortest_path-Ends num ks o g nodes [] from end (of_node g nodes) in
      let (enough, ends) = run bound (omega arith) in
      Ends-IsPath g nodes from _ p (ends enough (omega arith)) e

  -- What Computing gives, for a solver over `edges`.
  module _ (k : ℕ) (edges : List (Edge F)) (start : String) where
    abbrev pub result : Computed F
    result = computing num ks search k edges start end

    -- At least one route and at most as many as the solver is to find, sorted by cost.
    pub record IsAnswer (rs : List (Route F)) : Type 0 where
      pub routes : All (λ r. IsRoute (build_graph [] edges) start end r.hops) rs
      pub sorted : IsSorted (λ r q. num.lt r.rtt q.rtt) rs
      pub some_route : 1 ≤ length rs
      pub at_most : length rs ≤ path_count k

    behind :
        (p : FoundPath F) (ps : List (FoundPath F))
        → All (λ q. num.lt q.cost p.cost ≡ false) ps
        → All (λ q. num.lt q.rtt p.cost ≡ false) (map route_of_path ps)
    behind p [] h = tt
    behind p (q ∷ ps) h = (h.0, behind p ps h.1)

    answer_of :
        (ps : List (FoundPath F))
        → All (λ p. IsRoute (build_graph [] edges) start end p.hops) ps
        → IsSorted (λ p q. num.lt p.cost q.cost) ps
        → All (λ r. IsRoute (build_graph [] edges) start end r.hops) (map route_of_path ps)
          × IsSorted (λ r q. num.lt r.rtt q.rtt) (map route_of_path ps)
          × (length (map route_of_path ps) ≡ length ps)
    answer_of [] r s = (tt, tt, refl)
    answer_of (p ∷ ps) r s =
        let (r', s', l) = answer_of ps r.1 s.1 in ((r.0, r'), (behind p ps s.0, s'), ap suc l)

    path_count_positive : 1 ≤ path_count k
    path_count_positive = ground arith

    -- Computing on any edges, for weights that make no cost smaller and an order of costs, with the search of
    -- findShortestPath: it gives the error for a start or an end that no edge has, or the error of the
    -- search, or routes. These are at least one and at most k (5 for a k that is not positive), sorted by
    -- cost, and each is a walk over the solver's edges from the start to the end that comes to no node
    -- twice.
    pub computing-IsAnswer :
        ((is_node start edges ≡ false) × (result ≡ start_not_found))
        ⊎ ((is_node end edges ≡ false) × (result ≡ end_not_found))
        ⊎ ((search (build_graph [] edges) [] start ≡ none) × (result ≡ no_route))
        ⊎ (rs : List (Route F)) × (result ≡ computed rs) × IsAnswer rs
    unfolding computing
    computing-IsAnswer = elim (Bool-cases (is_node start edges)) [
      | inr e ↦ inl (e, rw (e, computing) refl)
      | inl e ↦ inr (elim (Bool-cases (is_node end edges)) [
        | inr f ↦ inl (f, rw (e, computing) (rw f refl))
        | inl f ↦
            inr
              (elim (yens_algorithm-IsSorted (build_graph [] edges) start end num o ks search
                (path_count k) search-IsPath path_count_positive) [
                  | inl (none_found, ran) ↦ inl (none_found, rw (e, computing) (rw f (rw ran refl)))
                  | inr (p, ps, at, ran, routes, sorted, some_path, most) ↦
                      let (routes', sorted', l) = answer_of ps routes sorted in
                      inr (
                        map route_of_path ps,
                        rw (e, computing) (rw f (rw ran refl)),
                        record {
                          routes = routes';
                          sorted = sorted';
                          some_route = omega (arith, l);
                          at_most = omega (arith, l);
                        },
                      )
                ])
      ])
    ]
