-- ===== src/Paths/Select.antt =====
-- selectTopPaths chooses the asked number of paths.
use sky_accel.Base.{
  ℕ, zero, suc, ◌+◌, ◌-◌, ◌≤◌, ◌≡◌, inl, inr, refl, ◌∙◌, List, [], ◌∷◌, ◌++◌, Bool, not, arith, leb,
  if◌then◌else◌, length, take, length-append, All, Bool-cases,
}
use sky_accel.Base.Maps.{filter, All-filter}
use sky_accel.Paths.{SolverPath, sort_pass, sort_loop, sort_paths, select_top_paths}

length-filter-not :
    {A : Type 0} (p : A → Bool) (xs : List A)
    → length (filter p xs) + length (filter (λ x. not (p x)) xs) ≡ length xs
length-filter-not p [] = refl
length-filter-not p (x ∷ xs) = elim (Bool-cases (p x)) [
  | inl kept ↦ rw kept (omega (arith, length-filter-not p xs))
  | inr left ↦ rw left (omega (arith, length-filter-not p xs))
]

module _ {F : Type 0} (lt : F → F → Bool) where
  length-sort_pass :
      (at : SolverPath F) (ps : List (SolverPath F)) → length (sort_pass lt at ps).1 ≡ length ps
  unfolding sort_pass
  length-sort_pass at [] = refl
  length-sort_pass at (p ∷ ps) = elim (Bool-cases (lt p.raw_rtt at.raw_rtt)) [
    | inl less ↦ rw less (omega (arith, length-sort_pass p ps))
    | inr kept ↦ rw kept (omega (arith, length-sort_pass at ps))
  ]

  length-sort_loop : (n : ℕ) (ps : List (SolverPath F)) → length (sort_loop lt n ps) ≡ length ps
  unfolding sort_loop
  length-sort_loop zero ps = refl
  length-sort_loop (suc n) [] = refl
  length-sort_loop (suc n) (p ∷ ps) =
      omega (arith, length-sort_loop n (sort_pass lt p ps).1, length-sort_pass p ps)

  module _ (P : SolverPath F → Type 0) where
    sort_pass-All :
        (at : SolverPath F) (ps : List (SolverPath F))
        → P at
        → All P ps
        → P (sort_pass lt at ps).0 × All P (sort_pass lt at ps).1
    unfolding sort_pass
    sort_pass-All at [] a h = (a, tt)
    sort_pass-All at (p ∷ ps) a (h, hs) = elim (Bool-cases (lt p.raw_rtt at.raw_rtt)) [
      | inl less ↦ rw less ((sort_pass-All p ps h hs).0, (a, (sort_pass-All p ps h hs).1))
      | inr kept ↦ rw kept ((sort_pass-All at ps a hs).0, (h, (sort_pass-All at ps a hs).1))
    ]

    sort_loop-All : (n : ℕ) (ps : List (SolverPath F)) → All P ps → All P (sort_loop lt n ps)
    unfolding sort_loop
    sort_loop-All zero ps h = h
    sort_loop-All (suc n) [] h = tt
    sort_loop-All (suc n) (p ∷ ps) (h, hs) =
        let (first, rest) = sort_pass-All p ps h hs in
        (first, sort_loop-All n (sort_pass lt p ps).1 rest)

    All-take : (n : ℕ) (ps : List (SolverPath F)) → All P ps → All P (take n ps)
    All-take zero ps h = tt
    All-take (suc n) [] h = tt
    All-take (suc n) (p ∷ ps) (h, hs) = (h, All-take n ps hs)

    All-append : (ps qs : List (SolverPath F)) → All P ps → All P qs → All P (ps ++ qs)
    All-append [] qs h k = k
    All-append (p ∷ ps) qs (h, hs) k = (h, All-append ps qs hs k)

    chosen :
        (n : ℕ) (keep : SolverPath F → Bool) (ps : List (SolverPath F))
        → All P ps
        → All P (take n (sort_paths lt (filter keep ps)))
    unfolding sort_paths
    chosen n keep ps h = All-take n _ (sort_loop-All _ (filter keep ps) (All-filter P keep ps h))

    -- selectTopPaths chooses only paths that it is given: what holds for all of them holds for the chosen.
    pub select_top_paths-All :
        (paths : List (SolverPath F)) (count : ℕ)
        → All P paths
        → All P (select_top_paths lt paths count)
    unfolding select_top_paths
    select_top_paths-All paths count h = elim (Bool-cases (leb (length paths) count)) [
      | inl few ↦ rw (few, select_top_paths) h
      | inr many ↦
          rw (many, select_top_paths) (All-append _ _ (chosen count _ paths h) (chosen _ _ paths h))
    ]

  length-take_min :
      (n : ℕ) (ps : List (SolverPath F))
      → length (take n ps) ≡ (if leb n (length ps) then n else length ps)
  length-take_min zero ps = ground arith
  length-take_min (suc n) [] = ground arith
  length-take_min (suc n) (p ∷ ps) = ground (arith, length-take_min n ps)

  take_two :
      (n : ℕ) (ps qs : List (SolverPath F))
      → n ≤ length ps + length qs
      → length (take n ps) + length (take (n - length (take n ps)) qs) ≡ n
  take_two n ps qs h =
      ground (arith, length-take_min n ps, length-take_min (n - length (take n ps)) qs)

  -- selectTopPaths chooses `count` paths, and all of them if there are no more.
  pub length-select_top_paths :
      (paths : List (SolverPath F)) (count : ℕ)
      → length (select_top_paths lt paths count)
        ≡ (if leb (length paths) count then length paths else count)
  unfolding select_top_paths sort_paths
  length-select_top_paths paths count = elim (Bool-cases (leb (length paths) count)) [
    | inl few ↦ rw (few, select_top_paths) refl
    | inr many ↦
        let is_short : SolverPath F → Bool = λ p. leb (length p.hops) 4 in
        let short_paths = sort_paths lt (filter is_short paths) in
        let long_paths = sort_paths lt (filter (λ p. not (is_short p)) paths) in
        let shorts : length short_paths ≡ length (filter is_short paths) =
          length-sort_loop _ (filter is_short paths) in
        let longs : length long_paths ≡ length (filter (λ p. not (is_short p)) paths) =
          length-sort_loop _ (filter (λ p. not (is_short p)) paths) in
        let all = length-filter-not is_short paths in
        rw (many, select_top_paths)
          (length-append (take count short_paths)
              (take (count - length (take count short_paths)) long_paths)
            ∙ take_two count short_paths long_paths (ground (arith, shorts, longs, all, many)))
  ]
