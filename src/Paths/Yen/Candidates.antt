-- ===== src/Paths/Yen/Candidates.antt =====
-- The candidates of Yen's algorithm are routes: simple walks of the graph from the start to the end.
use sky_accel.Base.{
  ℕ, zero, suc, ◌-◌, ◌≡◌, inl, inr, sym, ap, ◌∙◌, List, [], ◌∷◌, ◌++◌, Option, some, false, ◌||◌,
  arith, length, take, get_elem?, All, Bool-cases, Option-cases,
}
use sky_accel.Base.Keys.{lookup, insert, same, string_eq}
use sky_accel.Graph.{Edge}
use sky_accel.Paths.{is_in_path, has_duplicate_nodes, remove_after, remove_consecutive_duplicates}
use sky_accel.Paths.Hops.{AllDistinct, has_duplicate_nodes-false}
use sky_accel.Paths.Heap.{push_item, push_item-All}
use sky_accel.Paths.Search.{Numbers, Solver}
use sky_accel.Paths.Search.Walk.{IsPath, IsWalk, last_of}
use sky_accel.Paths.Yen.{
  FoundPath, Spurs, is_path_in_list, spur_edges, less_cost, complete_path, offer, spur_at,
  spur_step, spur_loop, all_spurs,
}
use sky_accel.Paths.Yen.Grafts.{
  Within, From-lookup, Within-insert, spur_edges-Sub, IsWalk-free, IsWalk-Within, graft,
  remove_after-IsWalk,
}
use mathlib.Core.Path.{subst}
use Prim.Native.String.{String}

module _ {F : Type 0} (g0 : List (String × List (Edge F))) (start end : String) where
  -- A walk of the graph from the start to the end.
  pub record IsWay (hops : List String) : Type 0 where
    pub tail : List String
    pub begins : hops ≡ start ∷ tail
    pub ends : last_of start tail ≡ end
    pub walks : IsWalk g0 [] (start ∷ tail)

  -- One that comes to no node twice.
  pub record IsRoute (hops : List String) : Type 0 where
    pub way : IsWay hops
    pub distinct : AllDistinct hops

  pub remove_consecutive_duplicates-IsWay :
      (hops : List String) → IsWay hops → IsWay (remove_consecutive_duplicates hops)
  unfolding remove_consecutive_duplicates
  remove_consecutive_duplicates-IsWay hops w =
      let (v, l) = remove_after-IsWalk g0 start w.tail w.walks in
      record {
        tail = remove_after start w.tail;
        begins = ap remove_consecutive_duplicates w.begins;
        ends = l ∙ w.ends;
        walks = v;
      }

  -- A route up to one of its nodes, and a walk from there to the end.
  IsWay-graft :
      (j : ℕ) (node : String) (hops spur : List String) (g : List (String × List (Edge F)))
      → IsWay hops
      → get_elem? hops j ≡ some node
      → Within g g0
      → IsPath g (take j hops) node end spur
      → IsWay (take j hops ++ spur)
  IsWay-graft j node hops spur g w at h p =
      let spur_walk : IsWalk g0 [] (node ∷ p.tail) = IsWalk-Within g0 g (node ∷ p.tail) h (
        IsWalk-free g (take j hops) (node ∷ p.tail)
          (subst (IsWalk g (take j hops)) p.begins p.walks)) in
      let (tail', e, v, l) =
        graft g0 j start node w.tail p.tail w.walks (ap (λ q. get_elem? q j) (sym w.begins) ∙ at)
          spur_walk in
      record {
        tail = tail';
        begins =
            ap (λ q. take j hops ++ q) p.begins ∙ ap (λ q. take j q ++ node ∷ p.tail) w.begins ∙ e;
        ends = l ∙ p.ends;
        walks = v;
      }

  module _ (num : Numbers F) (ks : Solver F)
      (find : List (String × List (Edge F)) → List String → String → Option (FoundPath F)) (k : ℕ)
      (law : (g : List (String × List (Edge F))) (nodes : List String) (from : String)
          (p : FoundPath F)
        → find g nodes from ≡ some p
        → IsPath g nodes from end p.hops)
      (a : List (FoundPath F)) where
    -- What a step may assume of the graph and the queue, and keeps. `P` is what an offer of a path that is
    -- neither in A nor in the queue keeps of the queue.
    pub record IsSound (P : List (FoundPath F) → Type 0) (s : Spurs F) : Type 0 where
      pub within : Within s.graph g0
      pub routes : All (λ p. IsRoute p.hops) s.queue
      pub more : P s.queue

    module _ (P : List (FoundPath F) → Type 0)
        (grows : (p : FoundPath F) (q : List (FoundPath F))
          → is_path_in_list p.hops a ≡ false
          → is_path_in_list p.hops q ≡ false
          → P q
          → P (push_item (less_cost num ks find k start end) p q)) where
      offer-kept :
          (p : FoundPath F) (q : List (FoundPath F))
          → IsWay p.hops
          → All (λ p. IsRoute p.hops) q
          → P q
          → All (λ p. IsRoute p.hops) (offer num ks find k start end a p q)
            × P (offer num ks find k start end a p q)
      unfolding offer
      offer-kept p q w r h =
          elim (Bool-cases
            (has_duplicate_nodes p.hops || is_path_in_list p.hops a || is_path_in_list p.hops q)) [
              | inl e ↦ rw (e, offer) (r, h)
              | inr e ↦
                  let distinct = (has_duplicate_nodes-false p.hops).0 (ground (arith, e)) in
                  rw (e, offer)
                    (
                      push_item-All (less_cost num ks find k start end) (λ p. IsRoute p.hops) p q r
                          (record { way = w; distinct = distinct }),
                      grows p q (ground (arith, e)) (ground (arith, e)) h,
                    )
            ]

      spur_at-IsSound :
          (hops : List String) (j : ℕ) (node : String) (original : List (Edge F)) (s : Spurs F)
          → IsWay hops
          → get_elem? hops j ≡ some node
          → lookup node s.graph ≡ some original
          → IsSound P s
          → IsSound P (spur_at num ks find k start end a hops j node original s)
      unfolding spur_at complete_path
      spur_at-IsSound hops j node original s w at e h =
          let root = take (suc j) hops in
          let fewer = spur_edges j root a original in
          let from = From-lookup s.graph g0 node original h.within e in
          let g = insert node fewer s.graph in
          let within = Within-insert s.graph g0 node fewer h.within (λ before behind d i.
            let (b, t, i') = spur_edges-Sub j root a original before behind d i in from b t d i') in
          let restored = Within-insert g g0 node original within from in
          elim (Bool-cases (same node end || is_in_path end root)) [
            | inl skip ↦
                rw (skip, spur_at) (record { within = restored; routes = h.routes; more = h.more })
            | inr go ↦ elim (Option-cases (find g (take j hops) node)) [
              | inl f ↦
                  rw (go, spur_at)
                    (rw f (record { within = restored; routes = h.routes; more = h.more }))
              | inr (spur, f) ↦ elim (Bool-cases (has_duplicate_nodes spur.hops)) [
                | inl twice ↦
                    rw (go, spur_at)
                      (rw f
                        (rw twice (record { within = within; routes = h.routes; more = h.more })))
                | inr once ↦
                    let p = complete_path num ks find k start end g j hops spur in
                    let way = remove_consecutive_duplicates-IsWay (take j hops ++ spur.hops) (
                      IsWay-graft j node hops spur.hops g w at within
                        (law g (take j hops) node spur f)) in
                    let (routes, more) = offer-kept p s.queue way h.routes h.more in
                    rw (go, spur_at)
                      (rw f (rw once (record { within = restored; routes = routes; more = more })))
              ]
            ]
          ]

      spur_loop-IsSound :
          (hops : List String) (j n : ℕ) (s : Spurs F)
          → IsWay hops
          → IsSound P s
          → IsSound P (spur_loop num ks find k start end a hops j n s)
      unfolding spur_loop spur_step
      spur_loop-IsSound hops j zero s w h = h
      spur_loop-IsSound hops j (suc n) s w h =
          spur_loop-IsSound hops (suc j) n (spur_step num ks find k start end a hops j s) w
            (elim (Option-cases (get_elem? hops j)) [
              | inl e ↦ rw (e, spur_step) h
              | inr (node, e) ↦ elim (Option-cases (lookup node s.graph)) [
                | inl f ↦ rw (e, spur_step) (rw f h)
                | inr (original, f) ↦
                    rw (e, spur_step) (rw f (spur_at-IsSound hops j node original s w e f h))
              ]
            ])

      pub all_spurs-IsSound :
          (ps : List (FoundPath F)) (s : Spurs F)
          → All (λ p. IsRoute p.hops) ps
          → IsSound P s
          → IsSound P (all_spurs num ks find k start end a ps s)
      unfolding all_spurs
      all_spurs-IsSound [] s r h = h
      all_spurs-IsSound (p ∷ ps) s r h =
          all_spurs-IsSound ps (spur_loop num ks find k start end a p.hops 0 (length p.hops - 1) s)
            r.1 (spur_loop-IsSound p.hops 0 (length p.hops - 1) s r.0.way h)
