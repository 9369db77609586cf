-- ===== src/Paths/Search/Covers.antt =====
-- What the edges of a node in findShortestPath leave covered: a node with a cost is still in the queue,
-- or its neighbours have costs.
use sky_accel.Base.{
  ℕ, ◌≤◌, ◌≡◌, ◌≢◌, ◌⊎◌, inl, inr, refl, sym, ap, ◌∙◌, List, [], ◌∷◌, ◌++◌, Option, none, some,
  true, false, not, ◌&&◌, arith, All, Bool-cases, if◌then◌else◌,
}
use sky_accel.Base.Keys.{lookup, insert, lookup-insert, same, same_refl, string_eq}
use sky_accel.Graph.{Edge}
use sky_accel.Paths.{is_in_path}
use sky_accel.Paths.Heap.Sums.{sum_of, sum_of-push_item}
use sky_accel.Paths.Search.{
  Numbers, Solver, PqNode, Search, cost_of, is_below, edge_cost, relax, relax_all, edges_of,
}
use sky_accel.Paths.Search.Walk.{HasEdge}
use sky_accel.Paths.Search.Costs.{IsOrder, IsWeight, lt_irrefl}
use sky_accel.Paths.Search.Relax.{IsSearch, relax-cost, relax-Goes}
use mathlib.Core.List.{append_assoc}
use mathlib.Core.Path.{subst}
use Prim.Native.String.{String}

module _ {F : Type 0} (num : Numbers F) (ks : Solver F) (o : IsOrder num)
    (graph : List (String × List (Edge F))) (nodes : List String) (start end : String)
    (weights : (a : String) (e : Edge F)
      → HasEdge graph nodes a e.destination_ip
      → IsWeight num (edge_cost num ks e)) where
  abbrev pub Running : Search F → Type 0
  Running = IsSearch num ks o graph nodes start

  -- The node has a cost.
  abbrev pub Fin : String → Search F → Type 0
  Fin n s = (d : F) × (lookup n s.dist ≡ some (some d))

  -- 1 for an item of the node that a cost of `d` does not make stale.
  abbrev pub marks : String → F → PqNode F → ℕ
  marks n d i = if same i.node n && not (num.lt d i.cost) then 1 else 0

  abbrev pub Pends : String → F → List (PqNode F) → Type 0
  Pends n d q = 1 ≤ sum_of (marks n d) q

  -- The neighbours of the node have costs.
  abbrev pub Closed : String → Search F → Type 0
  Closed n s = (b : String) → HasEdge graph nodes n b → Fin b s

  -- A node with a cost is still to be searched, or is done; the end is never done.
  abbrev pub IsCovered : Search F → String → F → Type 0
  IsCovered s n d = Pends n d s.queue ⊎ (n ≢ end) × Closed n s

  abbrev pub CoversBut : (String → Type 0) → Search F → Type 0
  CoversBut Out s =
      (n : String) (d : F) → (Out n → ⊥) → lookup n s.dist ≡ some (some d) → IsCovered s n d

  not_below :
      (cost : F) (old : Option F) → is_below num ks cost old ≡ false → (d : F) × (old ≡ some d)
  unfolding is_below
  not_below cost none e = absurd cc
  not_below cost (some d) e = (d, refl)

  module _ (u : String) (c du : F) (e : Edge F) (s : Search F)
      (edge : HasEdge graph nodes u e.destination_ip) (h : Running s)
      (at : lookup u s.dist ≡ some (some du)) where
    -- What a turn for an edge keeps, and that its end has a cost.
    relax_covers :
        CoversBut (λ n. n ≡ u) s
        → let t = relax num ks u c e s in
          CoversBut (λ n. n ≡ u) t × ((b : String) → Fin b s → Fin b t) × Fin e.destination_ip t
    relax_covers covers =
        let v = e.destination_ip in
        let new = num.plus c (edge_cost num ks e) in
        let (old, had) = h.known u v edge in
        let looked = λ (n : String). lookup-insert v n (some new) s.dist in
        let kept : (b : String)
            → Fin b s
            → (d : F) × (lookup b (insert v (some new) s.dist) ≡ some (some d)) =
          λ b (d, i). elim (Bool-cases (same v b)) [
            | inl j ↦ (new, looked b ∙ rw j refl)
            | inr j ↦ (d, looked b ∙ rw j i)
          ] in
        subst (λ t. CoversBut (λ n. n ≡ u) t × ((b : String) → Fin b s → Fin b t) × Fin v t)
          (sym (relax-cost num ks o graph nodes start u c e s old had))
          (elim (Bool-cases (is_below num ks new old)) [
            | inr f ↦
                let (d, i) = not_below new old f in rw f (covers, λ b i. i, (d, had ∙ ap some i))
            | inl f ↦ rw f (
              λ n d out i.
                  let sum =
                    sum_of-push_item (marks n d) (λ (a b : PqNode F). num.lt a.cost b.cost)
                      (record { node = v; cost = new }) s.queue in
                  elim (Bool-cases (same v n)) [
                    | inl j ↦
                        let cost : new ≡ d = ground (arith, rw j at (sym (looked n) ∙ i)) in
                        let fresh : num.lt d new ≡ false = rw cost (lt_irrefl num o d) in
                        inl (ground (arith, sum, j, fresh))
                    | inr j ↦ elim (covers n d out (rw j at (sym (looked n) ∙ i))) [
                      | inl p ↦ inl (omega (arith, sum, p))
                      | inr (ne, closed) ↦ inr (ne, λ b edge'. kept b (closed b edge'))
                    ]
                  ],
              kept,
              (new, looked v ∙ rw (same_refl v) refl),
            )
          ])

  relax_all-skip :
      (u : String) (c : F) (e : Edge F) (es : List (Edge F)) (s : Search F)
      → is_in_path e.destination_ip nodes ≡ true
      → relax_all num ks nodes [] u c (e ∷ es) s ≡ relax_all num ks nodes [] u c es s
  unfolding relax_all is_in_path
  relax_all-skip u c e es s i = rw (i, relax_all) refl

  relax_all-relax :
      (u : String) (c : F) (e : Edge F) (es : List (Edge F)) (s : Search F)
      → is_in_path e.destination_ip nodes ≡ false
      → relax_all num ks nodes [] u c (e ∷ es) s
        ≡ relax_all num ks nodes [] u c es (relax num ks u c e s)
  unfolding relax_all is_in_path
  relax_all-relax u c e es s i = rw (i, relax_all) refl

  -- The turns for the edges of a node that are not seen yet.
  pub relax_all_covers :
      (u : String) (c du : F) (before es : List (Edge F)) (s : Search F)
      → edges_of graph u ≡ before ++ es
      → Running s
      → lookup u s.dist ≡ some (some du)
      → num.lt c du ≡ false
      → CoversBut (λ n. n ≡ u) s
      → let t = relax_all num ks nodes [] u c es s in
        CoversBut (λ n. n ≡ u) t
        × ((b : String) → Fin b s → Fin b t)
        × All (λ e. is_in_path e.destination_ip nodes ≡ false → Fin e.destination_ip t) es
  unfolding relax_all
  relax_all_covers u c du before [] s whole h at le covers = (covers, λ b i. i, tt)
  relax_all_covers u c du before (e ∷ es) s whole h at le covers =
      let rest : edges_of graph u ≡ (before ++ e ∷ []) ++ es =
        whole ∙ sym (append_assoc before (e ∷ []) es) in
      let done_with = λ (t : Search F).
        CoversBut (λ n. n ≡ u) t
        × ((b : String) → Fin b s → Fin b t)
        × All (λ e. is_in_path e.destination_ip nodes ≡ false → Fin e.destination_ip t) (e ∷ es) in
      elim (Bool-cases (is_in_path e.destination_ip nodes)) [
        | inl skip ↦
            let (covers', kept, done) =
              relax_all_covers u c du (before ++ e ∷ []) es s rest h at le covers in
            subst done_with (sym (relax_all-skip u c e es s skip))
              (covers', kept, (λ free. absurd (cc (skip, free)), done))
        | inr use_it ↦
            let edge : HasEdge graph nodes u e.destination_ip = record {
              edge = e;
              before = before;
              behind = es;
              at = whole;
              ends = refl;
              allowed = use_it;
            } in
            let g =
              relax-Goes num ks o graph nodes start u c du e s edge h at le (weights u e edge) in
            let (covers1, kept1, fin) = relax_covers u c du e s edge h at covers in
            let (covers', kept, done) =
              relax_all_covers u c du (before ++ e ∷ []) es (relax num ks u c e s) rest g.kept g.at
                le covers1 in
            subst done_with (sym (relax_all-relax u c e es s use_it))
              (covers', λ b i. kept b (kept1 b i), (λ free. kept e.destination_ip fin, done))
      ]

  -- The end has an entry in the map of costs.
  abbrev pub HasKey : Search F → Type 0
  HasKey s = (d : Option F) × (lookup end s.dist ≡ some d)

  relax-HasKey :
      (u : String) (c : F) (e : Edge F) (s : Search F) → HasKey s → HasKey (relax num ks u c e s)
  unfolding relax
  relax-HasKey u c e s (d, i) =
      let v = e.destination_ip in
      let new = num.plus c (edge_cost num ks e) in
      let looked = lookup-insert v end (some new) s.dist in
      elim (Bool-cases (is_below num ks new (cost_of num ks v s.dist))) [
        | inr f ↦ rw (f, relax) (d, i)
        | inl f ↦
            rw (f, relax)
              (elim (Bool-cases (same v end)) [
                | inl j ↦ (some new, looked ∙ rw j refl)
                | inr j ↦ (d, looked ∙ rw j i)
              ])
      ]

  pub relax_all-HasKey :
      (u : String) (c : F) (es : List (Edge F)) (s : Search F)
      → HasKey s
      → HasKey (relax_all num ks nodes [] u c es s)
  unfolding relax_all
  relax_all-HasKey u c [] s h = h
  relax_all-HasKey u c (e ∷ es) s h = elim (Bool-cases (is_in_path e.destination_ip nodes)) [
    | inl i ↦ subst HasKey (sym (relax_all-skip u c e es s i)) (relax_all-HasKey u c es s h)
    | inr i ↦
        subst HasKey (sym (relax_all-relax u c e es s i))
          (relax_all-HasKey u c es (relax num ks u c e s) (relax-HasKey u c e s h))
  ]
