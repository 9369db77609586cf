-- ===== src/Paths/Heap.antt =====
-- The queue of control-plane/routing/core-domain/k-shortest.go: PriorityQueue with heap.Push and heap.Pop of
-- container/heap, on a list in place of the slice. `less` compares two items.
pub mod Sums
use sky_accel.Base.{
  ℕ, zero, suc, ◌+◌, ◌-◌, ◌*◌, ◌/◌, ◌<◌, ◌≡◌, inl, inr, refl, sym, ap, ◌∙◌, List, [], ◌∷◌, ◌++◌,
  Option, none, some, Bool, false, not, ltb, leb, ◌==◌, ◌&&◌, ◌||◌, if◌then◌else◌, length,
  get_elem?, set, take, All, All-concat, arith, Option-cases, Bool-cases, get_elem?-All,
  get_elem?-lt, get_elem?-some, length-set, length-append, length-take_le,
}
use mathlib.Core.Path.{subst}

module _ {A : Type 0} (less : A → A → Bool) where
  unfoldable pub less_at : ℕ → ℕ → List A → Bool
  less_at i j q = elim (get_elem? q i) [
    | none ↦ false
    | some a ↦ elim (get_elem? q j) [ none ↦ false | some b ↦ less a b ]
  ]

  unfoldable pub swap : ℕ → ℕ → List A → List A
  swap i j q = elim (get_elem? q i) [
    | none ↦ q
    | some a ↦ elim (get_elem? q j) [ none ↦ q | some b ↦ set (set q i b) j a ]
  ]

  unfoldable pub up : ℕ → ℕ → List A → List A
  unfolding less_at swap
  up zero j q = q
  up (suc fuel) j q =
      let i = (j - 1) / 2 in
      let rest = up fuel i (swap i j q) in if i == j || not (less_at j i q) then q else rest

  -- The smaller child of `i` among the first `n` items.
  unfoldable pub child : ℕ → ℕ → List A → ℕ
  unfolding less_at
  child i n q =
      let j1 = 2 * i + 1 in let j2 = j1 + 1 in if ltb j2 n && less_at j2 j1 q then j2 else j1

  unfoldable pub down : ℕ → ℕ → ℕ → List A → List A
  unfolding less_at swap child
  down zero i n q = q
  down (suc fuel) i n q =
      let j = child i n q in
      let rest = down fuel j n (swap i j q) in
      if leb n (2 * i + 1) || not (less_at j i q) then q else rest

  -- heap.Push: the new item is the last, and moves up.
  unfoldable pub push_item : A → List A → List A
  unfolding up
  push_item x q = up (suc (length q)) (length q) (q ++ x ∷ [])

  -- heap.Pop: the first item and the last change places, and the last is taken off.
  unfoldable pub pop_item : List A → Option (A × List A)
  unfolding down swap
  pop_item q =
      let n = length q - 1 in
      let moved = down (length q) 0 n (swap 0 n q) in
      elim (get_elem? moved n) [ none ↦ none | some x ↦ some (x, take n moved) ]

  All-set : (P : A → Type 0) (q : List A) (i : ℕ) (a : A) → All P q → P a → All P (set q i a)
  All-set P [] i a h p = tt
  All-set P (x ∷ q) zero a h p = (p, h.1)
  All-set P (x ∷ q) (suc i) a h p = (h.0, All-set P q i a h.1 p)

  All-get : (P : A → Type 0) (q : List A) (i : ℕ) (a : A) → All P q → get_elem? q i ≡ some a → P a
  All-get P q i a h e =
      let (b, f, p) = get_elem?-All P q i h (get_elem?-lt q i a e) in
      let same : b ≡ a = ground (arith, f, e) in subst P same p

  module _ (P : A → Type 0) where
    swap-All : (i j : ℕ) (q : List A) → All P q → All P (swap i j q)
    unfolding swap
    swap-All i j q h = elim (Option-cases (get_elem? q i)) [
      | inl e ↦ rw (e, swap) h
      | inr (a, e) ↦ elim (Option-cases (get_elem? q j)) [
        | inl f ↦ rw (e, swap) (rw f h)
        | inr (b, f) ↦
            rw (e, swap)
              (rw f (
                All-set P (set q i b) j a (All-set P q i b h (All-get P q j b h f))
                  (All-get P q i a h e)))
      ]
    ]

    up-All : (fuel j : ℕ) (q : List A) → All P q → All P (up fuel j q)
    unfolding up
    up-All zero j q h = h
    up-All (suc fuel) j q h =
        let i = (j - 1) / 2 in
        elim (Bool-cases (i == j || not (less_at j i q))) [
          | inl e ↦ rw e h
          | inr e ↦ rw e (up-All fuel i (swap i j q) (swap-All i j q h))
        ]

    down-All : (fuel i n : ℕ) (q : List A) → All P q → All P (down fuel i n q)
    unfolding down
    down-All zero i n q h = h
    down-All (suc fuel) i n q h =
        let j = child i n q in
        elim (Bool-cases (leb n (2 * i + 1) || not (less_at j i q))) [
          | inl e ↦ rw e h
          | inr e ↦ rw e (down-All fuel j n (swap i j q) (swap-All i j q h))
        ]

    take-All : (n : ℕ) (q : List A) → All P q → All P (take n q)
    take-All zero q h = tt
    take-All (suc n) [] h = tt
    take-All (suc n) (x ∷ q) h = (h.0, take-All n q h.1)

    -- What every item has, the items behind a push have, and those behind a pop.
    pub push_item-All : (x : A) (q : List A) → All P q → P x → All P (push_item x q)
    unfolding push_item
    push_item-All x q h p = up-All (suc (length q)) (length q) (q ++ x ∷ []) (All-concat P q x h p)

    pub pop_item-All :
        (q rest : List A) (x : A) → All P q → pop_item q ≡ some (x, rest) → P x × All P rest
    unfolding pop_item
    pop_item-All q rest x h e =
        let n = length q - 1 in
        let moved = down (length q) 0 n (swap 0 n q) in
        let all = down-All (length q) 0 n (swap 0 n q) (swap-All 0 n q h) in
        elim (Option-cases (get_elem? moved n)) [
          | inl f ↦ cc (rw (f, pop_item) at e)
          | inr (y, f) ↦
              let same : ◌≡◌ {A = A × List A} (y, take n moved) (x, rest) =
                ground (arith, rw (f, pop_item) at e) in
              subst (λ r. P r.0 × All P r.1) same (All-get P moved n y all f, take-All n moved all)
        ]

  pub length-swap : (i j : ℕ) (q : List A) → length (swap i j q) ≡ length q
  unfolding swap
  length-swap i j q = elim (Option-cases (get_elem? q i)) [
    | inl e ↦ rw (e, swap) refl
    | inr (a, e) ↦ elim (Option-cases (get_elem? q j)) [
      | inl f ↦ rw (e, swap) (rw f refl)
      | inr (b, f) ↦ rw (e, swap) (rw f (length-set (set q i b) j a ∙ length-set q i b))
    ]
  ]

  length-up : (fuel j : ℕ) (q : List A) → length (up fuel j q) ≡ length q
  unfolding up
  length-up zero j q = refl
  length-up (suc fuel) j q =
      let i = (j - 1) / 2 in
      elim (Bool-cases (i == j || not (less_at j i q))) [
        | inl e ↦ rw e refl
        | inr e ↦ rw e (length-up fuel i (swap i j q) ∙ length-swap i j q)
      ]

  pub length-down : (fuel i n : ℕ) (q : List A) → length (down fuel i n q) ≡ length q
  unfolding down
  length-down zero i n q = refl
  length-down (suc fuel) i n q =
      let j = child i n q in
      elim (Bool-cases (leb n (2 * i + 1) || not (less_at j i q))) [
        | inl e ↦ rw e refl
        | inr e ↦ rw e (length-down fuel j n (swap i j q) ∙ length-swap i j q)
      ]

  pub length-push_item : (x : A) (q : List A) → length (push_item x q) ≡ suc (length q)
  unfolding push_item
  length-push_item x q =
      omega (arith, length-up (suc (length q)) (length q) (q ++ x ∷ []), length-append q (x ∷ []))

  -- A queue that is not empty gives an item, and has one less behind it.
  pub pop_item-some :
      (q : List A)
      → 0 < length q
      → (x : A) × (rest : List A) × (pop_item q ≡ some (x, rest)) × (suc (length rest) ≡ length q)
  unfolding pop_item
  pop_item-some q h =
      let n = length q - 1 in
      let moved = down (length q) 0 n (swap 0 n q) in
      let size = length-down (length q) 0 n (swap 0 n q) ∙ length-swap 0 n q in
      let (x, e) = get_elem?-some moved n (omega (arith, size)) in
      (
        x,
        take n moved,
        rw (e, pop_item) refl,
        omega (arith, length-take_le n moved (omega (arith, size))),
      )

  pub pop_item-empty : pop_item [] ≡ none
  unfolding pop_item
  pop_item-empty = refl

  pub pop_item-length :
      (q rest : List A) (x : A) → pop_item q ≡ some (x, rest) → suc (length rest) ≡ length q
  pop_item-length [] rest x e = absurd (cc (pop_item-empty, e))
  pop_item-length (y ∷ q) rest x e =
      let (z, r, f, size) = pop_item-some (y ∷ q) (omega arith) in
      let same : ◌≡◌ {A = A × List A} (z, r) (x, rest) = ground (arith, sym f ∙ e) in
      ap (λ p. suc (length p.1)) (sym same) ∙ size
