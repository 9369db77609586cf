-- ===== src/Paths/Heap/Sums.antt =====
-- The queue's operations only move items: what is summed over the items is what it was.
use sky_accel.Base.{
  ℕ, zero, suc, ◌+◌, ◌-◌, ◌*◌, ◌/◌, ◌≡◌, inl, inr, refl, sym, ap, ◌∙◌, List, [], ◌∷◌, ◌++◌, some,
  Bool, not, leb, ◌==◌, ◌||◌, length, get_elem?, set, take, arith, Option-cases, Bool-cases,
  get_elem?-set_self, get_elem?-set_ne, get_elem?-lt,
}
use sky_accel.Paths.Heap.{
  less_at, swap, up, child, down, push_item, pop_item, length-down, length-swap,
}

module _ {A : Type 0} (m : A → ℕ) where
  unfoldable pub sum_of : List A → ℕ
  sum_of [] = 0
  sum_of (x ∷ q) = m x + sum_of q

  sum_of-append : (q r : List A) → sum_of (q ++ r) ≡ sum_of q + sum_of r
  unfolding sum_of
  sum_of-append [] r = omega arith
  sum_of-append (x ∷ q) r = omega (arith, sum_of-append q r)

  sum_of-set :
      (q : List A) (i : ℕ) (a b : A)
      → get_elem? q i ≡ some a
      → sum_of (set q i b) + m a ≡ sum_of q + m b
  unfolding sum_of
  sum_of-set [] i a b e = absurd cc
  sum_of-set (x ∷ q) zero a b e = let same : x ≡ a = ground (arith, e) in rw same (omega arith)
  sum_of-set (x ∷ q) (suc i) a b e = omega (arith, sum_of-set q i a b e)

  sum_of-take :
      (q : List A) (n : ℕ) (x : A)
      → get_elem? q n ≡ some x
      → suc n ≡ length q
      → sum_of (take n q) + m x ≡ sum_of q
  unfolding sum_of
  sum_of-take [] n x e h = absurd cc
  sum_of-take (y ∷ []) zero x e h = let same : y ≡ x = ground (arith, e) in rw same (omega arith)
  sum_of-take (y ∷ z ∷ q) zero x e h = absurd (omega arith)
  sum_of-take (y ∷ q) (suc n) x e h = omega (arith, sum_of-take q n x e (omega arith))

  sum_of-swap : (less : A → A → Bool) (i j : ℕ) (q : List A) → sum_of (swap less i j q) ≡ sum_of q
  unfolding swap
  sum_of-swap less i j q = elim (Option-cases (get_elem? q i)) [
    | inl e ↦ rw (e, swap) refl
    | inr (a, e) ↦ elim (Option-cases (get_elem? q j)) [
      | inl f ↦ rw (e, swap) (rw f refl)
      | inr (b, f) ↦
          let there : get_elem? (set q i b) j ≡ some b = elim (Bool-cases (i == j)) [
            | inl same ↦
                let at : i ≡ j = ground (arith, same) in rw (← at) (get_elem?-set_self q i b a e)
            | inr other ↦ get_elem?-set_ne q i j b (ground (arith, other)) ∙ f
          ] in
          rw (e, swap)
            (rw f (omega (arith, sum_of-set q i a b e, sum_of-set (set q i b) j b a there)))
    ]
  ]

  module _ (less : A → A → Bool) where
    sum_of-up : (fuel j : ℕ) (q : List A) → sum_of (up less fuel j q) ≡ sum_of q
    unfolding up
    sum_of-up zero j q = refl
    sum_of-up (suc fuel) j q =
        let i = (j - 1) / 2 in
        elim (Bool-cases (i == j || not (less_at less j i q))) [
          | inl e ↦ rw e refl
          | inr e ↦ rw e (sum_of-up fuel i (swap less i j q) ∙ sum_of-swap less i j q)
        ]

    sum_of-down : (fuel i n : ℕ) (q : List A) → sum_of (down less fuel i n q) ≡ sum_of q
    unfolding down
    sum_of-down zero i n q = refl
    sum_of-down (suc fuel) i n q =
        let j = child less i n q in
        elim (Bool-cases (leb n (2 * i + 1) || not (less_at less j i q))) [
          | inl e ↦ rw e refl
          | inr e ↦ rw e (sum_of-down fuel j n (swap less i j q) ∙ sum_of-swap less i j q)
        ]

    pub sum_of-push_item : (x : A) (q : List A) → sum_of (push_item less x q) ≡ sum_of q + m x
    unfolding push_item sum_of
    sum_of-push_item x q =
        omega (arith, sum_of-up (suc (length q)) (length q) (q ++ x ∷ []), sum_of-append q (x ∷ []))

    pub sum_of-pop_item :
        (q rest : List A) (x : A) → pop_item less q ≡ some (x, rest) → sum_of rest + m x ≡ sum_of q
    unfolding pop_item
    sum_of-pop_item q rest x e =
        let n = length q - 1 in
        let moved = down less (length q) 0 n (swap less 0 n q) in
        elim (Option-cases (get_elem? moved n)) [
          | inl f ↦ cc (rw (f, pop_item) at e)
          | inr (y, f) ↦
              let same : ◌≡◌ {A = A × List A} (y, take n moved) (x, rest) =
                ground (arith, rw (f, pop_item) at e) in
              let size =
                length-down less (length q) 0 n (swap less 0 n q) ∙ length-swap less 0 n q in
              let kept = sum_of-down (length q) 0 n (swap less 0 n q) ∙ sum_of-swap less 0 n q in
              ap (λ p. sum_of p.1 + m p.0) (sym same)
              ∙ (sum_of-take moved n y f (omega (arith, size, get_elem?-lt moved n y f)) ∙ kept)
        ]
