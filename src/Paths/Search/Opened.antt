-- ===== src/Paths/Search/Opened.antt =====
-- What a turn of findShortestPath keeps while no path is found.
use sky_accel.Base.{
  ℕ, ◌≡◌, ◌⊎◌, inl, inr, refl, sym, ap, ◌∙◌, List, [], ◌∷◌, ◌++◌, Option, none, some, true, false,
  not, ◌||◌, ◌&&◌, arith, All, Bool-cases, if◌then◌else◌,
}
use sky_accel.Base.Keys.{lookup, same, string_eq}
use sky_accel.Graph.{Edge}
use sky_accel.Paths.{is_in_path}
use sky_accel.Paths.Heap.{pop_item}
use sky_accel.Paths.Heap.Sums.{sum_of-pop_item}
use sky_accel.Paths.Search.{
  Numbers, Solver, PqNode, Search, cost_of, is_above, is_finite, edge_cost, relax_all, edges_of,
  next_search,
}
use sky_accel.Paths.Search.Walk.{HasEdge, same-eq}
use sky_accel.Paths.Search.Costs.{IsOrder, IsWeight}
use sky_accel.Paths.Search.Relax.{cost_of-some}
use mathlib.Core.Path.{subst, ap₂}
use Prim.Native.String.{String}
use sky_accel.Paths.Search.Covers

module _ {F : Type 0} (num : Numbers F) (ks : Solver F) (o : IsOrder num)
    (graph : List (String × List (Edge F))) (nodes : List String) (start end : String)
    (weights : (a : String) (e : Edge F)
      → HasEdge graph nodes a e.destination_ip
      → IsWeight num (edge_cost num ks e)) where
  abbrev Running : Search F → Type 0
  Running = Covers.Running num ks o graph nodes start end weights

  abbrev Fin : String → Search F → Type 0
  Fin = Covers.Fin num ks o graph nodes start end weights

  abbrev marks : String → F → PqNode F → ℕ
  marks = Covers.marks num ks o graph nodes start end weights

  abbrev Pends : String → F → List (PqNode F) → Type 0
  Pends = Covers.Pends num ks o graph nodes start end weights

  abbrev CoversBut : (String → Type 0) → Search F → Type 0
  CoversBut = Covers.CoversBut num ks o graph nodes start end weights

  abbrev HasKey : Search F → Type 0
  HasKey = Covers.HasKey num ks o graph nodes start end weights

  -- The start has a cost, and either every node with a cost is covered, or the end waits in the queue.
  pub record IsOpen (s : Search F) : Type 0 where
    pub started : Fin start s
    pub key : HasKey s
    pub covered :
        CoversBut (λ n. ⊥) s ⊎ (d : F) × (lookup end s.dist ≡ some (some d)) × Pends end d s.queue

  module _ (u : PqNode F) (s : Search F) (rest : List (PqNode F)) (du : F)
      (popped : pop_item (λ a b. num.lt a.cost b.cost) s.queue ≡ some (u, rest))
      (at : lookup u.node s.dist ≡ some (some du)) (le : num.lt u.cost du ≡ false)
      (h : Running (record s { queue = rest })) (opened : IsOpen s) where
    abbrev left : Search F
    left = record s { queue = rest }

    Pends-rest :
        (n : String) (d : F)
        → Pends n d s.queue
        → Pends n d rest ⊎ (same u.node n ≡ true) × (num.lt d u.cost ≡ false)
    Pends-rest n d p =
        let sum =
          sum_of-pop_item (marks n d) (λ (a b : PqNode F). num.lt a.cost b.cost) s.queue rest u
            popped in
        elim (Bool-cases (same u.node n)) [
          | inr i ↦ inl (ground (arith, sum, i, p))
          | inl i ↦ elim (Bool-cases (num.lt d u.cost)) [
            | inl j ↦ inl (ground (arith, sum, i, j, p))
            | inr j ↦ inr (i, j)
          ]
        ]

    -- A stale item covers nothing.
    stale : num.lt du u.cost ≡ true → IsOpen left
    stale above =
        let gone : (n : String) (d : F)
            → lookup n s.dist ≡ some (some d)
            → Pends n d s.queue
            → Pends n d rest =
          λ n d i p. elim (Pends-rest n d p) [
            | inl q ↦ q
            | inr (j, k) ↦
                let same_cost : du ≡ d =
                  ground (arith, at, i, ap (λ m. lookup m s.dist) (same-eq u.node n j)) in
                absurd (cc (above, k, same_cost))
          ] in
        record {
          started = opened.started;
          key = opened.key;
          covered = elim opened.covered [
            | inl covers ↦ inl (λ n d out i. elim (covers n d out i) [
              | inl p ↦ inl (gone n d i p)
              | inr c ↦ inr c
            ])
            | inr (d, i, p) ↦ inr (d, i, gone end d i p)
          ];
        }

    -- Another item while the end waits.
    waits : same u.node end ≡ false → (d : F) → lookup end s.dist ≡ some (some d) → IsOpen left
    waits other d i =
        let pends : Pends end d s.queue = elim opened.covered [
          | inl covers ↦ elim (covers end d (λ b. b) i) [
            | inl p ↦ p
            | inr (ne, _) ↦ absurd (ne refl)
          ]
          | inr (d', i', p) ↦
              let same_cost : d' ≡ d = ground (arith, i, i') in
              subst (λ x. Pends end x s.queue) same_cost p
        ] in
        record {
          started = opened.started;
          key = opened.key;
          covered = inr (
            d,
            i,
            elim (Pends-rest end d pends) [ inl q ↦ q | inr (j, _) ↦ absurd (cc (j, other)) ],
          );
        }

    cc_ne : (n : String) → same u.node n ≡ false → n ≡ u.node → ⊥
    cc_ne n j e = absurd (ground (arith, j, (string_eq.beq_iff u.node n).1 (sym e)))

    at_edge :
        (t : Search F) (before behind : List (Edge F)) (e : Edge F)
        → All
            (λ e. is_in_path e.destination_ip nodes ≡ false → Fin e.destination_ip t)
            (before ++ e ∷ behind)
        → is_in_path e.destination_ip nodes ≡ false
        → Fin e.destination_ip t
    at_edge t [] behind e all free = all.0 free
    at_edge t (b ∷ before) behind e all free = at_edge t before behind e all.1 free

    reached :
        (t : Search F) (b : String)
        → HasEdge graph nodes u.node b
        → All
            (λ e. is_in_path e.destination_ip nodes ≡ false → Fin e.destination_ip t)
            (edges_of graph u.node)
        → Fin b t
    reached t b edge all =
        let free : is_in_path edge.edge.destination_ip nodes ≡ false =
          ap (λ n. is_in_path n nodes) edge.ends ∙ edge.allowed in
        subst (λ n. Fin n t) edge.ends
          (at_edge t edge.before edge.behind edge.edge
            (subst (All (λ e. is_in_path e.destination_ip nodes ≡ false → Fin e.destination_ip t))
              edge.at all)
            free)

    -- An item that is searched.
    searched :
        same u.node end ≡ false
        → lookup end s.dist ≡ some none
        → IsOpen (relax_all num ks nodes [] u.node u.cost (edges_of graph u.node) left)
    searched other infinite =
        let covers : CoversBut (λ n. n ≡ u.node) left = elim opened.covered [
          | inr (d, i, _) ↦ absurd (cc (i, infinite))
          | inl covers ↦ λ n d out i. elim (covers n d (λ b. b) i) [
            | inr c ↦ inr c
            | inl p ↦ elim (Pends-rest n d p) [
              | inl q ↦ inl q
              | inr (j, _) ↦ absurd (out (sym (same-eq u.node n j)))
            ]
          ]
        ] in
        let (covers', kept, done) =
          Covers.relax_all_covers num ks o graph nodes start end weights u.node u.cost du []
            (edges_of graph u.node) left refl h at le covers in
        let t = relax_all num ks nodes [] u.node u.cost (edges_of graph u.node) left in
        record {
          started = kept start opened.started;
          key =
              Covers.relax_all-HasKey num ks o graph nodes start end weights u.node u.cost
                (edges_of graph u.node) left opened.key;
          covered = inl (λ n d out i. elim (Bool-cases (same u.node n)) [
            | inr j ↦ covers' n d (λ e. cc_ne n j e) i
            | inl j ↦
                let here : u.node ≡ n = same-eq u.node n j in
                inr (
                  λ e. absurd (ground (arith, other, (string_eq.beq_iff u.node end).1 (here ∙ e))),
                  λ b edge. reached t b (subst (λ m. HasEdge graph nodes m b) (sym here) edge) done,
                )
          ]);
        }

    searched_or_not :
        (d : Option F)
        → lookup end s.dist ≡ some d
        → same u.node end ≡ false
        → IsOpen (
            if is_finite num ks d
            then left
            else relax_all num ks nodes [] u.node u.cost (edges_of graph u.node) left)
    searched_or_not none i other = searched other i
    searched_or_not (some d) i other = waits other d i

    pub next_search-IsOpen :
        not (is_above num ks u.cost (cost_of num ks u.node s.dist)) && same u.node end ≡ false
        → IsOpen (next_search num ks graph nodes [] start end u left)
    unfolding next_search is_above
    next_search-IsOpen goes_on =
        let cost : cost_of num ks u.node s.dist ≡ some du =
          cost_of-some num ks o graph nodes start u.node s.dist (some du) at in
        let (d, i) = opened.key in
        let end_cost : cost_of num ks end s.dist ≡ d =
          cost_of-some num ks o graph nodes start end s.dist d i in
        let chosen =
          ap₂
            (λ x y.
              if◌then◌else◌ {A = Search F} (is_above num ks u.cost x || is_finite num ks y) left
                (relax_all num ks nodes [] u.node u.cost (edges_of graph u.node) left))
            cost end_cost in
        let fresh : not (num.lt du u.cost) && same u.node end ≡ false =
          ap (λ x. not (is_above num ks u.cost x) && same u.node end) (sym cost) ∙ goes_on in
        subst IsOpen (sym chosen) (elim (Bool-cases (num.lt du u.cost)) [
          | inl above ↦ rw above (stale above)
          | inr below ↦ rw below (searched_or_not d i (ground (arith, fresh, below)))
        ])
