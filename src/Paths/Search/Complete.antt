-- ===== src/Paths/Search/Complete.antt =====
-- findShortestPath gives its error only if there is no walk from the start to the end.
use sky_accel.Base.{
  ℕ, zero, suc, ◌≡◌, ◌≢◌, inl, inr, refl, sym, ◌∙◌, List, [], ◌∷◌, Option, none, some, true, false,
  not, ◌&&◌, arith, Bool-cases, Option-cases,
}
use sky_accel.Base.Keys.{lookup, lookup-insert, same, same_refl, string_eq}
use sky_accel.Graph.{Edge}
use sky_accel.Paths.Heap.{pop_item, pop_item-some, pop_item-All}
use sky_accel.Paths.Heap.Sums.{sum_of, sum_of-push_item}
use sky_accel.Paths.Search.{
  Numbers, Solver, PqNode, Search, no_path_found, cost_of, is_above, edge_cost, next_search,
  build_path, search_loop, init_search, find_shortest_path, path_back, init_costs,
}
use sky_accel.Paths.Search.Walk.{HasEdge, IsWalk, Chain, root, link, last_of}
use sky_accel.Paths.Search.Costs.{IsOrder, IsWeight, lt_irrefl}
use sky_accel.Paths.Search.Relax.{AtMost}
use sky_accel.Paths.Search.Shortest.{next_search-IsSearch, init_search-IsSearch}
use mathlib.Core.Path.{subst}
use Prim.Native.String.{String}
use sky_accel.Paths.Search.Covers
use sky_accel.Paths.Search.Opened

module _ {F : Type 0} (num : Numbers F) (ks : Solver F) (o : IsOrder num)
    (graph : List (String × List (Edge F))) (nodes : List String) (start end : String)
    (weights : (a : String) (e : Edge F)
      → HasEdge graph nodes a e.destination_ip
      → IsWeight num (edge_cost num ks e)) where
  abbrev Running : Search F → Type 0
  Running = Covers.Running num ks o graph nodes start end weights

  abbrev Fin : String → Search F → Type 0
  Fin = Covers.Fin num ks o graph nodes start end weights

  abbrev marks : String → F → PqNode F → ℕ
  marks = Covers.marks num ks o graph nodes start end weights

  abbrev Pends : String → F → List (PqNode F) → Type 0
  Pends = Covers.Pends num ks o graph nodes start end weights

  abbrev Closed : String → Search F → Type 0
  Closed = Covers.Closed num ks o graph nodes start end weights

  abbrev HasKey : Search F → Type 0
  HasKey = Covers.HasKey num ks o graph nodes start end weights

  -- No walk leads from the start to the end.
  abbrev IsCut : Type 0
  IsCut = (path : List String) → IsWalk graph nodes (start ∷ path) → last_of start path ≢ end

  walk_Fin :
      (s : Search F)
      → ((n : String) (d : F) → lookup n s.dist ≡ some (some d) → (n ≢ end) × Closed n s)
      → (n : String) → Fin n s
      → (path : List String) → IsWalk graph nodes (n ∷ path)
      → last_of n path ≢ end
  walk_Fin s done n (d, i) [] w e = (done n d i).0 e
  walk_Fin s done n (d, i) (b ∷ path) w e = walk_Fin s done b ((done n d i).1 b w.0) path w.1 e

  empty_idle :
      (n : String) (d : F) (q : List (PqNode F))
      → pop_item (λ a b. num.lt a.cost b.cost) q ≡ none
      → Pends n d q
      → ⊥
  unfolding sum_of
  empty_idle n d [] f p = omega (arith, p)
  empty_idle n d (x ∷ q) f p =
      let (y, r, g, _) =
        pop_item-some (λ (a b : PqNode F). num.lt a.cost b.cost) (x ∷ q) (omega arith) in
      absurd (cc (f, g))

  empty_queue :
      (s : Search F)
      → Opened.IsOpen num ks o graph nodes start end weights s
      → pop_item (λ a b. num.lt a.cost b.cost) s.queue ≡ none
      → IsCut
  empty_queue s h f = λ path w.
      let idle : (n : String) (d : F) → Pends n d s.queue → ⊥ =
        λ n d p. empty_idle n d s.queue f p in
      walk_Fin s
        (λ n d i. elim h.covered [
          | inl covers ↦ elim (covers n d (λ b. b) i) [ inl p ↦ absurd (idle n d p) | inr c ↦ c ]
          | inr (d', _, p) ↦ absurd (idle end d' p)
        ])
        start h.started path w

  build_path-ne : (fuel : ℕ) (s : Search F) (c : F) → build_path num ks fuel s end c ≢ no_path_found
  unfolding build_path
  build_path-ne fuel s c e = elim (Option-cases (path_back s.prev fuel end [])) [
    | inl f ↦ absurd (cc (rw (f, build_path) at e))
    | inr (path, f) ↦ absurd (cc (rw (f, build_path) at e))
  ]

  module _ (path_fuel fuel : ℕ) (s : Search F) (u : PqNode F) (rest : List (PqNode F))
      (popped : pop_item (λ a b. num.lt a.cost b.cost) s.queue ≡ some (u, rest)) where
    search_loop-built :
        not (is_above num ks u.cost (cost_of num ks u.node s.dist)) && same u.node end ≡ true
        → search_loop num ks graph nodes [] start end path_fuel (suc fuel) s
          ≡ build_path num ks path_fuel (record s { queue = rest }) end u.cost
    unfolding search_loop
    search_loop-built g = rw (popped, search_loop) (rw g refl)

    search_loop-next :
        not (is_above num ks u.cost (cost_of num ks u.node s.dist)) && same u.node end ≡ false
        → search_loop num ks graph nodes [] start end path_fuel (suc fuel) s
          ≡ search_loop num ks graph nodes [] start end path_fuel fuel
              (next_search num ks graph nodes [] start end u (record s { queue = rest }))
    unfolding search_loop
    search_loop-next g = rw (popped, search_loop) (rw g refl)

  search_loop-IsCut :
      (path_fuel fuel : ℕ) (s : Search F)
      → Running s
      → Opened.IsOpen num ks o graph nodes start end weights s
      → search_loop num ks graph nodes [] start end path_fuel fuel s ≡ no_path_found
      → IsCut
  unfolding search_loop
  search_loop-IsCut path_fuel zero s h opened e = absurd cc
  search_loop-IsCut path_fuel (suc fuel) s h opened e =
      elim (Option-cases (pop_item (λ (a b : PqNode F). num.lt a.cost b.cost) s.queue)) [
        | inl f ↦ empty_queue s opened f
        | inr ((u, rest), f) ↦
            let ((du, at, le), others) =
              pop_item-All (λ (a b : PqNode F). num.lt a.cost b.cost)
                (λ i. AtMost num ks o graph nodes start s.dist i.cost i.node) s.queue rest u
                h.queued f in
            let t = record s { queue = rest } in
            let ht : Running t = record {
              sound = h.sound;
              ordered = h.ordered;
              queued = others;
              known = h.known;
            } in
            elim (Bool-cases
              (not (is_above num ks u.cost (cost_of num ks u.node s.dist)) && same u.node end)) [
                | inl g ↦ absurd (
                    build_path-ne path_fuel t u.cost
                      (sym (search_loop-built path_fuel fuel s u rest f g) ∙ e))
                | inr g ↦
                    let (next, _) =
                      next_search-IsSearch num ks o graph nodes [] start end weights u t ht
                        (du, at, le) in
                    search_loop-IsCut path_fuel fuel
                      (next_search num ks graph nodes [] start end u t) next
                      (Opened.next_search-IsOpen num ks o graph nodes start end weights u s rest du
                        f at le ht opened g)
                      (sym (search_loop-next path_fuel fuel s u rest f g) ∙ e)
              ]
      ]

  abbrev s0 : Search F
  s0 = init_search num ks graph nodes [] start end

  only_start : (n : String) (l : List String) → Chain graph nodes [] start n l → start ≡ n
  unfolding lookup
  only_start _ _ (root e) = refl
  only_start _ _ (link node before l e ne edge chain) = absurd cc

  started_at : lookup start s0.dist ≡ some (some num.zero_)
  unfolding init_search
  started_at =
      lookup-insert start start (some num.zero_) (init_costs num ks graph)
      ∙ rw (same_refl start) refl

  first_Pends : Pends start num.zero_ s0.queue
  unfolding init_search sum_of
  first_Pends =
      let sum =
        sum_of-push_item (marks start num.zero_) (λ (a b : PqNode F). num.lt a.cost b.cost)
          (record { node = start; cost = num.zero_ }) [] in
      ground (arith, sum, same_refl start, lt_irrefl num o num.zero_)

  init_search-IsOpen : HasKey s0 → Opened.IsOpen num ks o graph nodes start end weights s0
  unfolding init_search
  init_search-IsOpen key = record {
    started = (num.zero_, started_at);
    key = key;
    covered = inl (λ n d out i.
        let (l, chain) =
          (init_search-IsSearch num ks o graph nodes [] start end weights).sound n d i in
        let here : start ≡ n = only_start n l chain in
        let at_n : lookup n s0.dist ≡ some (some num.zero_) =
          subst (λ m. lookup m s0.dist ≡ some (some num.zero_)) here started_at in
        let cost : num.zero_ ≡ d = ground (arith, at_n, i) in
        inl (
          subst (λ m. Pends m d s0.queue) here
            (subst (λ x. Pends start x s0.queue) cost first_Pends)));
  }

  walk-HasKey :
      (n : String) (d : Option F)
      → lookup n s0.dist ≡ some d
      → (path : List String) → IsWalk graph nodes (n ∷ path)
      → (d : Option F) × (lookup (last_of n path) s0.dist ≡ some d)
  walk-HasKey n d i [] w = (d, i)
  walk-HasKey n d i (b ∷ path) w =
      let (d', i') =
        (init_search-IsSearch num ks o graph nodes [] start end weights).known n b w.0 in
      walk-HasKey b d' i' path w.1

  -- When findShortestPath without forbidden edges gives its error, no walk over the graph's edges to
  -- nodes that are not forbidden leads from the start to the end, for weights that make no cost
  -- smaller.
  pub find_shortest_path-IsCut :
      (path_fuel fuel : ℕ)
      → find_shortest_path num ks graph nodes [] start end path_fuel fuel ≡ no_path_found
      → (path : List String) → IsWalk graph nodes (start ∷ path)
      → last_of start path ≢ end
  unfolding find_shortest_path
  find_shortest_path-IsCut path_fuel fuel e path w at_end =
      let key : HasKey s0 =
        subst (λ m. (d : Option F) × (lookup m s0.dist ≡ some d)) at_end
          (walk-HasKey start (some num.zero_) started_at path w) in
      search_loop-IsCut path_fuel fuel s0
        (init_search-IsSearch num ks o graph nodes [] start end weights) (init_search-IsOpen key) e
        path w at_end
