-- ===== src/Paths/Yen/Enough.antt =====
-- Each turn of Yen's algorithm adds a path, so that it ends; and the order of its result.
use sky_accel.Base.{
  ℕ, zero, suc, ◌+◌, ◌≤◌, ◌<◌, ◌≡◌, inl, inr, refl, sym, ap, ◌∙◌, List, [], ◌∷◌, ◌++◌, Option, some,
  Bool, true, false, leb, arith, length, All, All-both, All-concat, Bool-cases, Option-cases,
  length-append, if◌then◌else◌,
}
use sky_accel.Base.Keys.{same, same_ne, same_refl, string_eq}
use sky_accel.Graph.{Edge}
use sky_accel.Paths.{remove_after, remove_consecutive_duplicates}
use sky_accel.Paths.Hops.{AllDistinct}
use sky_accel.Paths.Heap.{push_item, pop_item, push_item-All, pop_item-All}
use sky_accel.Paths.Heap.Sums.{sum_of, sum_of-push_item, sum_of-pop_item}
use sky_accel.Paths.Search.{Numbers, Solver}
use sky_accel.Paths.Search.Walk.{IsPath, same-eq}
use sky_accel.Paths.Yen.{
  FoundPath, Spurs, same_hops, is_path_in_list, less_cost, all_spurs, enter, yen_loop,
}
use sky_accel.Paths.Yen.Candidates.{IsRoute, IsSound, all_spurs-IsSound}
use mathlib.Core.Path.{subst}
use Prim.Native.String.{String}

same_hops-eq : (p q : List String) → same_hops p q ≡ true → p ≡ q
unfolding same_hops
same_hops-eq [] [] e = refl
same_hops-eq [] (b ∷ q) e = absurd cc
same_hops-eq (a ∷ p) [] e = absurd cc
same_hops-eq (a ∷ p) (b ∷ q) e = elim (Bool-cases (same a b)) [
  | inl i ↦ let rest : p ≡ q = same_hops-eq p q (rw i at e) in rw (same-eq a b i, rest) refl
  | inr i ↦ absurd (cc (rw i at e))
]

same_hops_refl : (p : List String) → same_hops p p ≡ true
unfolding same_hops
same_hops_refl [] = refl
same_hops_refl (a ∷ p) = rw (same_refl a, same_hops_refl p) refl

same_hops-sym : (p q : List String) → same_hops p q ≡ false → same_hops q p ≡ false
same_hops-sym p q e = elim (Bool-cases (same_hops q p)) [
  | inr f ↦ f
  | inl f ↦ absurd (cc (sym e ∙ ap (same_hops p) (same_hops-eq q p f) ∙ same_hops_refl p))
]

-- A path without a node twice has no consecutive duplicates to remove.
remove_after-distinct :
    (a : String) (tail : List String) → AllDistinct (a ∷ tail) → remove_after a tail ≡ tail
unfolding remove_after
remove_after-distinct a [] d = refl
remove_after-distinct a (b ∷ tail) d =
    let differ = same_ne b a (λ i. d.0.0 (sym i)) in
    rw differ (ap (λ l. b ∷ l) (remove_after-distinct b tail d.1))

pub remove_consecutive_duplicates-distinct :
    (hops : List String) → AllDistinct hops → remove_consecutive_duplicates hops ≡ hops
unfolding remove_consecutive_duplicates
remove_consecutive_duplicates-distinct [] d = refl
remove_consecutive_duplicates-distinct (a ∷ tail) d =
    ap (λ l. a ∷ l) (remove_after-distinct a tail d)

module _ {F : Type 0} where
  -- 1 for a path with these hops.
  abbrev counts : List String → FoundPath F → ℕ
  counts hops p = if same_hops p.hops hops then 1 else 0

  absent :
      (hops : List String) (q : List (FoundPath F))
      → is_path_in_list hops q ≡ false
      → sum_of (counts hops) q ≡ 0
  unfolding is_path_in_list sum_of
  absent hops [] e = refl
  absent hops (p ∷ q) e = elim (Bool-cases (same_hops p.hops hops)) [
    | inl i ↦ absurd (cc (rw i at e))
    | inr i ↦ rw i (omega (arith, absent hops q (rw i at e)))
  ]

  none_of :
      (hops : List String) (q : List (FoundPath F))
      → sum_of (counts hops) q ≡ 0
      → All (λ p. same_hops p.hops hops ≡ false) q
  unfolding sum_of
  none_of hops [] e = tt
  none_of hops (p ∷ q) e = elim (Bool-cases (same_hops p.hops hops)) [
    | inl i ↦ absurd (ground (arith, e, i))
    | inr i ↦ (i, none_of hops q (ground (arith, e)))
  ]

  is_path_in_list-append :
      (hops : List String) (a : List (FoundPath F)) (p : FoundPath F)
      → is_path_in_list hops a ≡ false
      → same_hops p.hops hops ≡ false
      → is_path_in_list hops (a ++ p ∷ []) ≡ false
  unfolding is_path_in_list
  is_path_in_list-append hops [] p e f = rw f refl
  is_path_in_list-append hops (b ∷ a) p e f = elim (Bool-cases (same_hops b.hops hops)) [
    | inl i ↦ absurd (cc (rw i at e))
    | inr i ↦ rw i (is_path_in_list-append hops a p (rw i at e) f)
  ]

  -- The candidates are not in A, and no two of them are the same.
  pub record IsFresh (a q : List (FoundPath F)) : Type 0 where
    pub new : All (λ p. is_path_in_list p.hops a ≡ false) q
    pub single : (hops : List String) → sum_of (counts hops) q ≤ 1

module _ {F : Type 0} (g0 : List (String × List (Edge F))) (start end : String) (num : Numbers F)
    (ks : Solver F)
    (find : List (String × List (Edge F)) → List String → String → Option (FoundPath F)) (k : ℕ)
    (law : (g : List (String × List (Edge F))) (nodes : List String) (from : String)
        (p : FoundPath F)
      → find g nodes from ≡ some p
      → IsPath g nodes from end p.hops) where
  abbrev less : FoundPath F → FoundPath F → Bool
  less = less_cost num ks find k start end

  IsFresh-push_item :
      (a : List (FoundPath F)) (p : FoundPath F) (q : List (FoundPath F))
      → is_path_in_list p.hops a ≡ false
      → is_path_in_list p.hops q ≡ false
      → IsFresh a q
      → IsFresh a (push_item less p q)
  IsFresh-push_item a p q e f h = record {
    new = push_item-All less (λ p. is_path_in_list p.hops a ≡ false) p q h.new e;
    single = λ hops.
        let sum = sum_of-push_item (counts hops) less p q in
        elim (Bool-cases (same_hops p.hops hops)) [
          | inl i ↦
              let none_yet : sum_of (counts hops) q ≡ 0 =
                subst (λ h. sum_of (counts h) q ≡ 0) (same_hops-eq p.hops hops i)
                  (absent p.hops q f) in
              ground (arith, sum, none_yet)
          | inr i ↦ ground (arith, sum, i, h.single hops)
        ];
  }

  -- A candidate that is taken from the queue enters A, and the others stay fresh.
  enter-IsFresh :
      (a q rest : List (FoundPath F)) (x : FoundPath F)
      → IsFresh a q
      → AllDistinct x.hops
      → pop_item less q ≡ some (x, rest)
      → (enter num ks find k start end x a ≡ a ++ x ∷ []) × IsFresh (a ++ x ∷ []) rest
  unfolding enter
  enter-IsFresh a q rest x h d e =
      let (here, others) =
        pop_item-All less (λ p. is_path_in_list p.hops a ≡ false) q rest x h.new e in
      let clean = remove_consecutive_duplicates-distinct x.hops d in
      let sum = sum_of-pop_item (counts x.hops) less q rest x e in
      let self = same_hops_refl x.hops in
      let gone : sum_of (counts x.hops) rest ≡ 0 = ground (arith, sum, self, h.single x.hops) in
      (
        rw (clean, enter) (rw here refl),
        record {
          new =
              All-both rest
                (λ p (i : is_path_in_list p.hops a ≡ false) (j : same_hops p.hops x.hops ≡ false).
                  is_path_in_list-append p.hops a x i (same_hops-sym p.hops x.hops j))
                others (none_of x.hops rest gone);
          single =
              λ hops. omega (arith, h.single hops, sum_of-pop_item (counts hops) less q rest x e);
        },
      )

  -- The loop ends before its fuel, with routes, at most k of them.
  pub yen_loop-ends :
      (fuel : ℕ) (a : List (FoundPath F)) (s : Spurs F)
      → All (λ p. IsRoute g0 start end p.hops) a
      → IsSound g0 start end num ks find k law a (IsFresh a) s
      → length a ≤ k
      → k < length a + fuel
      → (a' : List (FoundPath F)) × (yen_loop num ks find k start end fuel a s ≡ some a')
        × All (λ p. IsRoute g0 start end p.hops) a'
        × (length a ≤ length a')
        × (length a' ≤ k)
  unfolding yen_loop
  yen_loop-ends zero a s r h l m = absurd (omega arith)
  yen_loop-ends (suc fuel) a s r h l m =
      let t = all_spurs num ks find k start end a a s in
      let sound =
        all_spurs-IsSound g0 start end num ks find k law a (IsFresh a) (IsFresh-push_item a) a s r
          h in
      elim (Bool-cases (leb k (length a))) [
        | inl e ↦ (a, rw (e, yen_loop) refl, r, omega arith, l)
        | inr e ↦ elim (Option-cases (pop_item less t.queue)) [
          | inl f ↦ (a, rw (e, yen_loop) (rw f refl), r, omega arith, l)
          | inr ((x, rest), f) ↦
              let (route, routes) =
                pop_item-All less (λ p. IsRoute g0 start end p.hops) t.queue rest x sound.routes
                  f in
              let (entered, fresh) = enter-IsFresh a t.queue rest x sound.more route.distinct f in
              let (a', ran, r', longer, most) =
                yen_loop-ends fuel (a ++ x ∷ []) (record t { queue = rest })
                  (All-concat (λ p. IsRoute g0 start end p.hops) a x r route)
                  (record { within = sound.within; routes = routes; more = fresh })
                  (ground (arith, e, length-append a (x ∷ [])))
                  (omega (arith, length-append a (x ∷ []))) in
              (
                a',
                rw (e, yen_loop) (rw f (rw entered ran)),
                r',
                omega (arith, longer, length-append a (x ∷ [])),
                most,
              )
        ]
      ]
