-- ===== src/Paths/Yen/Sorted.antt =====
-- The sort of Yen's algorithm, and what the whole algorithm gives.
use sky_accel.Base.{
  ℕ, zero, suc, ◌≤◌, ◌≡◌, ◌⊎◌, inl, inr, refl, sym, ap, ◌∙◌, List, [], ◌∷◌, Option, none, some,
  Bool, true, false, arith, length, All, Bool-cases, Option-cases, map,
}
use sky_accel.Graph.{Edge}
use sky_accel.Paths.{remove_consecutive_duplicates}
use sky_accel.Paths.Search.{Numbers, Solver}
use sky_accel.Paths.Search.Walk.{IsPath, IsWalk}
use sky_accel.Paths.Search.Costs.{IsOrder, lt_asym, lt_irrefl}
use sky_accel.Paths.Yen.{
  FoundPath, no_first_path, top_paths, exchange_pass, exchange_sort, less_cost, dedup,
  yens_algorithm,
}
use sky_accel.Paths.Yen.Candidates.{IsRoute}
use sky_accel.Paths.Yen.Enough.{yen_loop-ends, remove_consecutive_duplicates-distinct}
use mathlib.Core.Path.{subst}
use Prim.Native.String.{String}

module _ {A : Type 0} (less : A → A → Bool) where
  -- No item is less than one before it.
  abbrev pub IsSorted : List A → Type 0
  IsSorted [] = Unit
  IsSorted (p ∷ ps) = All (λ q. less q p ≡ false) ps × IsSorted ps

  exchange_pass-All :
      (P : A → Type 0) (at : A) (ps : List A)
      → P at
      → All P ps
      → P (exchange_pass less at ps).0 × All P (exchange_pass less at ps).1
  unfolding exchange_pass
  exchange_pass-All P at [] p h = (p, tt)
  exchange_pass-All P at (q ∷ ps) p h = elim (Bool-cases (less q at)) [
    | inl e ↦ let (x, xs) = exchange_pass-All P q ps h.0 h.1 in rw e (x, (p, xs))
    | inr e ↦ let (x, xs) = exchange_pass-All P at ps p h.1 in rw e (x, (h.0, xs))
  ]

  pub exchange_sort-All :
      (P : A → Type 0) (n : ℕ) (ps : List A) → All P ps → All P (exchange_sort less n ps)
  unfolding exchange_sort
  exchange_sort-All P zero ps h = h
  exchange_sort-All P (suc n) [] h = tt
  exchange_sort-All P (suc n) (p ∷ ps) h =
      let (x, xs) = exchange_pass-All P p ps h.0 h.1 in
      (x, exchange_sort-All P n (exchange_pass less p ps).1 xs)

  length-exchange_pass : (at : A) (ps : List A) → length (exchange_pass less at ps).1 ≡ length ps
  unfolding exchange_pass
  length-exchange_pass at [] = refl
  length-exchange_pass at (p ∷ ps) = elim (Bool-cases (less p at)) [
    | inl e ↦ rw e (ap suc (length-exchange_pass p ps))
    | inr e ↦ rw e (ap suc (length-exchange_pass at ps))
  ]

  pub length-exchange_sort : (n : ℕ) (ps : List A) → length (exchange_sort less n ps) ≡ length ps
  unfolding exchange_sort
  length-exchange_sort zero ps = refl
  length-exchange_sort (suc n) [] = refl
  length-exchange_sort (suc n) (p ∷ ps) =
      ap suc (length-exchange_sort n (exchange_pass less p ps).1 ∙ length-exchange_pass p ps)

  module _ (trans : (a b c : A) → less a b ≡ false → less b c ≡ false → less a c ≡ false)
      (asym : (a b : A) → less a b ≡ true → less b a ≡ false)
      (irrefl : (a : A) → less a a ≡ false) where
    -- The first item behind a pass is a least one.
    exchange_pass-least :
        (at : A) (ps : List A)
        → (less at (exchange_pass less at ps).0 ≡ false)
          × All (λ q. less q (exchange_pass less at ps).0 ≡ false) (exchange_pass less at ps).1
    unfolding exchange_pass
    exchange_pass-least at [] = (irrefl at, tt)
    exchange_pass-least at (p ∷ ps) = elim (Bool-cases (less p at)) [
      | inl e ↦
          let (first, rest) = exchange_pass-least p ps in
          let least = trans at p (exchange_pass less p ps).0 (asym p at e) first in
          rw e (least, (least, rest))
      | inr e ↦
          let (first, rest) = exchange_pass-least at ps in
          rw e (first, (trans p at (exchange_pass less at ps).0 e first, rest))
    ]

    pub exchange_sort-IsSorted :
        (n : ℕ) (ps : List A) → length ps ≤ n → IsSorted (exchange_sort less n ps)
    unfolding exchange_sort
    exchange_sort-IsSorted zero [] h = tt
    exchange_sort-IsSorted zero (p ∷ ps) h = absurd (omega arith)
    exchange_sort-IsSorted (suc n) [] h = tt
    exchange_sort-IsSorted (suc n) (p ∷ ps) h =
        let r = exchange_pass less p ps in
        let (first, rest) = exchange_pass-least p ps in
        (
          exchange_sort-All (λ q. less q r.0 ≡ false) n r.1 rest,
          exchange_sort-IsSorted n r.1 (omega (arith, length-exchange_pass p ps)),
        )

module _ {F : Type 0} (g0 : List (String × List (Edge F))) (start end : String) (num : Numbers F)
    (o : IsOrder num) (ks : Solver F)
    (find : List (String × List (Edge F)) → List String → String → Option (FoundPath F)) (k : ℕ)
    (law : (g : List (String × List (Edge F))) (nodes : List String) (from : String)
        (p : FoundPath F)
      → find g nodes from ≡ some p
      → IsPath g nodes from end p.hops) where
  abbrev less : FoundPath F → FoundPath F → Bool
  less = less_cost num ks find k start end

  dedup-IsRoute :
      (p : FoundPath F)
      → IsRoute g0 start end p.hops
      → IsRoute g0 start end (dedup num ks find k start end p).hops
  dedup-IsRoute p r =
      subst (IsRoute g0 start end) (sym (remove_consecutive_duplicates-distinct p.hops r.distinct))
        r

  map-All :
      (P Q : FoundPath F → Type 0) (ps : List (FoundPath F))
      → ((p : FoundPath F) → P p → Q (dedup num ks find k start end p))
      → All P ps
      → All Q (map (dedup num ks find k start end) ps)
  map-All P Q [] f h = tt
  map-All P Q (p ∷ ps) f h = (f p h.0, map-All P Q ps f h.1)

  map-IsSorted :
      (ps : List (FoundPath F))
      → IsSorted less ps
      → IsSorted less (map (dedup num ks find k start end) ps)
  map-IsSorted [] h = tt
  map-IsSorted (p ∷ ps) h = (
    map-All (λ q. less q p ≡ false) (λ q. less q p ≡ false) ps (λ q e. e) h.0,
    map-IsSorted ps h.1,
  )

  length-map :
      (ps : List (FoundPath F)) → length (map (dedup num ks find k start end) ps) ≡ length ps
  length-map [] = refl
  length-map (p ∷ ps) = ap suc (length-map ps)

  first-IsRoute : (p : FoundPath F) → find g0 [] start ≡ some p → IsRoute g0 start end p.hops
  first-IsRoute p e =
      let h = law g0 [] start p e in
      record {
        way = record {
          tail = h.tail;
          begins = h.begins;
          ends = h.ends;
          walks = subst (IsWalk g0 []) h.begins h.walks;
        };
        distinct = h.distinct;
      }

  -- yensAlgorithm with a search whose paths are walks, for a positive k and an order of costs: it ends, with
  -- the error exactly if the search has none from the start to the end. Otherwise it gives at least one
  -- path and at most k, sorted by cost, each a walk of the graph from the start to the end that comes to
  -- no node twice.
  pub yens_algorithm-IsSorted :
      1 ≤ k
      → (((find g0 [] start ≡ none)
            × (yens_algorithm num ks find k start end (suc k) g0 ≡ no_first_path))
          ⊎ (p : FoundPath F) × (ps : List (FoundPath F)) × (find g0 [] start ≡ some p)
            × (yens_algorithm num ks find k start end (suc k) g0 ≡ top_paths ps)
            × All (λ q. IsRoute g0 start end q.hops) ps
            × IsSorted (less_cost num ks find k start end) ps
            × (1 ≤ length ps)
            × (length ps ≤ k))
  unfolding yens_algorithm sky_accel.Paths.Heap.Sums.sum_of
  yens_algorithm-IsSorted positive = elim (Option-cases (find g0 [] start)) [
    | inl e ↦ inl (e, rw (e, yens_algorithm) refl)
    | inr (p, e) ↦
        let first = dedup num ks find k start end p in
        let route = dedup-IsRoute p (first-IsRoute p e) in
        let (a, ran, routes, some_paths, most) =
          yen_loop-ends g0 start end num ks find k law (suc k) (first ∷ [])
            (record { graph = g0; queue = [] }) (route, tt)
            (record {
              within = λ x y h. h;
              routes = tt;
              more = record { new = tt; single = λ hops. omega arith };
            })
            positive (omega arith) in
        let sorted = exchange_sort less (length a) a in
        inr (
          p,
          map (dedup num ks find k start end) sorted,
          e,
          rw (e, yens_algorithm) (rw ran refl),
          map-All (λ q. IsRoute g0 start end q.hops) (λ q. IsRoute g0 start end q.hops) sorted
              dedup-IsRoute
              (exchange_sort-All less (λ q. IsRoute g0 start end q.hops) (length a) a routes),
          map-IsSorted sorted (
              exchange_sort-IsSorted less (λ x y z. o.trans x.cost y.cost z.cost)
                (λ x y. lt_asym num o x.cost y.cost) (λ x. lt_irrefl num o x.cost) (length a) a
                (omega arith)),
          omega (arith, length-map sorted, length-exchange_sort less (length a) a),
          omega (arith, length-map sorted, length-exchange_sort less (length a) a),
        )
  ]
