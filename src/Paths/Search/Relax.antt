-- ===== src/Paths/Search/Relax.antt =====
-- The body of the search keeps its invariant: every node with a cost has a chain back to the start.
use sky_accel.Base.{
  ◌≤◌, ◌≡◌, ◌≢◌, inl, inr, refl, sym, ap, ◌∙◌, List, [], ◌∷◌, ◌++◌, Option, some, true, false, ◌||◌,
  if◌then◌else◌, arith, All, All-imp, Bool-cases,
}
use sky_accel.Base.Keys.{lookup, insert, lookup-insert, same, same_ne, same_refl, string_eq}
use mathlib.Core.Path.{subst}
use mathlib.Core.List.{append_assoc}
use sky_accel.Graph.{Edge}
use sky_accel.Paths.{is_in_path}
use sky_accel.Paths.Heap.{push_item, push_item-All, length-push_item}
use sky_accel.Paths.Search.{
  Numbers, Solver, PqNode, Search, cost_of, is_below, edge_cost, plus_cost, relax, relax_all,
  edges_of,
}
use sky_accel.Paths.Search.Walk.{HasEdge, Chain, root, link, Chain-insert, Chain-moved, same-eq}
use sky_accel.Paths.Search.Costs.{
  IsOrder, IsWeight, lt_asym, lt_irrefl, rank_of-lt, total-insert, measure,
}
use Prim.Native.String.{String, ◌++◌ as str_append}

module _ {F : Type 0} (num : Numbers F) (ks : Solver F) (o : IsOrder num)
    (graph : List (String × List (Edge F))) (nodes : List String) (start : String) where
  -- The node has a cost, which is at most `c`.
  abbrev pub AtMost : List (String × Option F) → F → String → Type 0
  AtMost dist c node = (d : F) × (lookup node dist ≡ some (some d)) × (num.lt c d ≡ false)

  abbrev pub Known : List (String × Option F) → Type 0
  Known dist = (a b : String) → HasEdge graph nodes a b → (d : Option F) × (lookup b dist ≡ some d)

  pub record IsSearch (s : Search F) : Type 0 where
    pub sound :
        (node : String) (d : F)
        → lookup node s.dist ≡ some (some d)
        → (l : List String) × Chain graph nodes s.prev start node l
    pub ordered :
        (node before : String)
        → lookup node s.prev ≡ some before
        → (d : F) × (lookup node s.dist ≡ some (some d)) × AtMost s.dist d before
    pub queued : All (λ i. AtMost s.dist i.cost i.node) s.queue
    pub known : Known s.dist

  -- Every node of a chain costs at most what its end costs.
  Chain-AtMost :
      (s : Search F)
      → IsSearch s
      → (node : String) (l : List String) → Chain graph nodes s.prev start node l
      → (c : F) → AtMost s.dist c node
      → All (AtMost s.dist c) (node ∷ l)
  Chain-AtMost s h _ _ (root e) c m = (m, tt)
  Chain-AtMost s h _ _ (link node before l e ne edge chain) c (d, at, le) =
      let (d', at', (d2, at2, le2)) = h.ordered node before e in
      let same_cost : d' ≡ d = ground (arith, at, at') in
      (
        (d, at, le),
        Chain-AtMost s h before l chain c (d2, at2, o.trans c d d2 le (rw same_cost at le2)),
      )

  module _ (u v : String) (c du new : F) (old : Option F) (s : Search F) (h : IsSearch s)
      (at : lookup u s.dist ≡ some (some du)) (le : num.lt new du ≡ false)
      (had : lookup v s.dist ≡ some old) (below : is_below num ks new old ≡ true)
      (edge : HasEdge graph nodes u v) where
    -- A node that costs at most `new` is not `v`.
    not_at : (x : String) → AtMost s.dist new x → x ≢ v
    unfolding is_below
    not_at x (d, e, le') i =
        let same_cost : old ≡ some d = ground (arith, had, ap (λ n. lookup n s.dist) i, e) in
        absurd (ground (arith, le', rw same_cost at below))

    -- Behind the change a node that had at most a cost has.
    abbrev dist' : List (String × Option F)
    dist' = insert v (some new) s.dist

    lowered : (x : String) (cx : F) → AtMost s.dist cx x → AtMost dist' cx x
    unfolding is_below
    lowered x cx (d, e, le') = elim (Bool-cases (same v x)) [
      | inl i ↦
          let same_cost : old ≡ some d =
            ground (arith, had, ap (λ n. lookup n s.dist) (same-eq v x i), e) in
          let less = lt_asym num o new d (rw same_cost at below) in
          (new, lookup-insert v x (some new) s.dist ∙ rw i refl, o.trans cx d new le' less)
      | inr i ↦ (d, lookup-insert v x (some new) s.dist ∙ rw i e, le')
    ]

    abbrev relaxed : List (String × Option F) → Search F
    relaxed rtt = record {
      dist = dist';
      raw_rtt = rtt;
      prev = insert v u s.prev;
      queue = push_item (λ a b. num.lt a.cost b.cost) (record { node = v; cost = new }) s.queue;
    }

    chain_of_v : (l : List String) × Chain graph nodes (insert v u s.prev) start v l
    chain_of_v =
        let (l, c) = h.sound u du at in
        let out = All-imp (u ∷ l) not_at (Chain-AtMost s h u l c new (du, at, le)) in
        (
          u ∷ l,
          link v u l (lookup-insert v v u s.prev ∙ rw (same_refl v) refl) (not_at u (du, at, le))
              edge (Chain-insert graph nodes s.prev start v u u l c out),
        )

    Chain-at :
        (lv : List String)
        → Chain graph nodes (insert v u s.prev) start v lv
        → (node : String) → v ≡ node
        → (l : List String) × Chain graph nodes (insert v u s.prev) start node l
    Chain-at lv cv node i =
        subst (λ n. (l : List String) × Chain graph nodes (insert v u s.prev) start n l) i (lv, cv)

    relaxed-IsSearch : (rtt : List (String × Option F)) → IsSearch (relaxed rtt)
    relaxed-IsSearch rtt = record {
      sound = λ node d e.
          let (lv, cv) = chain_of_v in
          let looked = lookup-insert v node (some new) s.dist in
          elim (Bool-cases (same v node)) [
            | inl i ↦ Chain-at lv cv node (same-eq v node i)
            | inr i ↦
                let (l, chain) = h.sound node d (rw i at (sym looked ∙ e)) in
                Chain-moved graph nodes s.prev start v u lv cv node l chain
          ];
      ordered = λ node before e.
          let looked = lookup-insert v node u s.prev in
          let at_dist = lookup-insert v node (some new) s.dist in
          elim (Bool-cases (same v node)) [
            | inl i ↦
                let here : u ≡ before = ground (arith, rw i at (sym looked ∙ e)) in
                (new, at_dist ∙ rw i refl, rw (← here) (lowered u new (du, at, le)))
            | inr i ↦
                let (d, f, m) = h.ordered node before (rw i at (sym looked ∙ e)) in
                (d, at_dist ∙ rw i f, lowered before d m)
          ];
      queued =
          push_item-All (λ a b. num.lt a.cost b.cost) (λ i. AtMost dist' i.cost i.node)
            (record { node = v; cost = new }) s.queue
            (All-imp s.queue (λ i m. lowered i.node i.cost m) h.queued)
            (new, lookup-insert v v (some new) s.dist ∙ rw (same_refl v) refl, lt_irrefl num o new);
      known = λ a b e.
          let (d, f) = h.known a b e in
          let looked = lookup-insert v b (some new) s.dist in
          elim (Bool-cases (same v b)) [
            | inl i ↦ (some new, looked ∙ rw i refl)
            | inr i ↦ (d, looked ∙ rw i f)
          ];
    }

    relaxed-kept : lookup u dist' ≡ some (some du)
    relaxed-kept =
        lookup-insert v u (some new) s.dist
        ∙ rw (same_ne v u (λ i. not_at u (du, at, le) (sym i))) at

    relaxed-measure :
        (rtt : List (String × Option F)) → measure num o (relaxed rtt) ≤ measure num o s
    relaxed-measure rtt = omega (
      arith,
      total-insert num o v new old s.dist had,
      rank_of-lt num o ks new old below,
      length-push_item (λ (a b : PqNode F). num.lt a.cost b.cost) (record { node = v; cost = new })
          s.queue,
    )

  -- A turn of the search for a node `u` of cost `du` keeps the invariant and the node's cost, and does not
  -- raise the measure.
  pub record Goes (u : String) (du : F) (s t : Search F) : Type 0 where
    pub kept : IsSearch t
    pub at : lookup u t.dist ≡ some (some du)
    pub lower : measure num o t ≤ measure num o s

  pub cost_of-some :
      (v : String) (dist : List (String × Option F)) (d : Option F)
      → lookup v dist ≡ some d
      → cost_of num ks v dist ≡ d
  unfolding cost_of
  cost_of-some v dist d e = rw (e, cost_of) refl

  -- The turn for an edge to a node of cost `old`.
  pub relax-cost :
      (u : String) (c : F) (e : Edge F) (s : Search F) (old : Option F)
      → lookup e.destination_ip s.dist ≡ some old
      → relax num ks u c e s ≡ (
          let new = num.plus c (edge_cost num ks e) in
          if is_below num ks new old
          then record {
            dist = insert e.destination_ip (some new) s.dist;
            raw_rtt =
                insert e.destination_ip
                  (plus_cost num ks (cost_of num ks u s.raw_rtt) e.latency)
                  s.raw_rtt;
            prev = insert e.destination_ip u s.prev;
            queue =
                push_item
                  (λ a b. num.lt a.cost b.cost)
                  (record { node = e.destination_ip; cost = new })
                  s.queue;
          }
          else s)
  unfolding relax
  relax-cost u c e s old had =
      let new = num.plus c (edge_cost num ks e) in
      ap
        (λ d.
          if◌then◌else◌ {A = Search F} (is_below num ks new d)
            (record {
              dist = insert e.destination_ip (some new) s.dist;
              raw_rtt =
                  insert e.destination_ip (plus_cost num ks (cost_of num ks u s.raw_rtt) e.latency)
                    s.raw_rtt;
              prev = insert e.destination_ip u s.prev;
              queue =
                  push_item (λ a b. num.lt a.cost b.cost)
                    (record { node = e.destination_ip; cost = new }) s.queue;
            })
            s)
        (cost_of-some e.destination_ip s.dist old had)

  pub relax-Goes :
      (u : String) (c du : F) (e : Edge F) (s : Search F)
      → HasEdge graph nodes u e.destination_ip
      → IsSearch s
      → lookup u s.dist ≡ some (some du)
      → num.lt c du ≡ false
      → IsWeight num (edge_cost num ks e)
      → Goes u du s (relax num ks u c e s)
  relax-Goes u c du e s edge h at le weight =
      let v = e.destination_ip in
      let new = num.plus c (edge_cost num ks e) in
      let (old, had) = h.known u v edge in
      let above = o.trans new c du (weight c) le in
      let rtt = insert v (plus_cost num ks (cost_of num ks u s.raw_rtt) e.latency) s.raw_rtt in
      subst (Goes u du s) (sym (relax-cost u c e s old had))
        (elim (Bool-cases (is_below num ks new old)) [
          | inl below ↦ rw below (record {
            kept = relaxed-IsSearch u v c du new old s h at above had below edge rtt;
            at = relaxed-kept u v c du new old s h at above had below edge;
            lower = relaxed-measure u v c du new old s h at above had below edge rtt;
          })
          | inr f ↦ rw f (record { kept = h; at = at; lower = omega arith })
        ])

  -- The edges that the search has seen, and those that it has not.
  pub relax_all-Goes :
      (edges : List String) (u : String) (c du : F) (before es : List (Edge F)) (s : Search F)
      → edges_of graph u ≡ before ++ es
      → ((e : Edge F) → HasEdge graph nodes u e.destination_ip → IsWeight num (edge_cost num ks e))
      → IsSearch s
      → lookup u s.dist ≡ some (some du)
      → num.lt c du ≡ false
      → Goes u du s (relax_all num ks nodes edges u c es s)
  unfolding relax_all
  relax_all-Goes edges u c du before [] s whole weights h at le = record {
    kept = h;
    at = at;
    lower = omega arith;
  }
  relax_all-Goes edges u c du before (e ∷ es) s whole weights h at le =
      let key = str_append (str_append u "->") e.destination_ip in
      let rest : edges_of graph u ≡ (before ++ e ∷ []) ++ es =
        whole ∙ sym (append_assoc before (e ∷ []) es) in
      elim (Bool-cases (is_in_path e.destination_ip nodes || is_in_path key edges)) [
        | inl skip ↦
            rw skip (relax_all-Goes edges u c du (before ++ e ∷ []) es s rest weights h at le)
        | inr use_it ↦
            let edge : HasEdge graph nodes u e.destination_ip = record {
              edge = e;
              before = before;
              behind = es;
              at = whole;
              ends = refl;
              allowed = ground (arith, use_it);
            } in
            let g = relax-Goes u c du e s edge h at le (weights e edge) in
            let more =
              relax_all-Goes edges u c du (before ++ e ∷ []) es (relax num ks u c e s) rest weights
                g.kept g.at le in
            rw use_it (record {
              kept = more.kept;
              at = more.at;
              lower = omega (arith, g.lower, more.lower);
            })
      ]
