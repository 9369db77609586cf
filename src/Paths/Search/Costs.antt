-- ===== src/Paths/Search/Costs.antt =====
-- What the search needs of float64 without NaN and of the weights, and the measure by which it ends: the
-- values are finitely many, so a cost has a rank among them.
use sky_accel.Base.{
  ℕ, ◌+◌, ◌*◌, ◌<◌, ◌≡◌, List, [], ◌∷◌, Option, none, some, true, false, arith, length, Bool-cases,
  inl, inr,
}
use sky_accel.Base.Keys.{lookup, insert, same, string_eq}
use sky_accel.Paths.Search.{Numbers, Solver, is_below, Search}
use Prim.Native.String.{String}

-- `<` orders the values: it is transitive where it is false, and each value has one of `top` ranks.
pub record IsOrder {F : Type 0} (num : Numbers F) : Type 0 where
  pub trans : (a b c : F) → num.lt a b ≡ false → num.lt b c ≡ false → num.lt a c ≡ false
  pub rank : F → ℕ
  pub top : ℕ
  pub rank-lt : (a b : F) → num.lt a b ≡ true → rank a < rank b
  pub rank_top : (a : F) → rank a < top

-- A weight that no cost gets smaller by.
abbrev pub IsWeight : {F : Type 0} → Numbers F → F → Type 0
IsWeight {F} num w = (c : F) → num.lt (num.plus c w) c ≡ false

module _ {F : Type 0} (num : Numbers F) (o : IsOrder num) where
  pub lt_asym : (a b : F) → num.lt a b ≡ true → num.lt b a ≡ false
  lt_asym a b e = elim (Bool-cases (num.lt b a)) [
    | inl f ↦ absurd (omega (arith, o.rank-lt a b e, o.rank-lt b a f))
    | inr f ↦ f
  ]

  pub lt_irrefl : (a : F) → num.lt a a ≡ false
  lt_irrefl a = elim (Bool-cases (num.lt a a)) [
    | inl f ↦ absurd (omega (arith, o.rank-lt a a f))
    | inr f ↦ f
  ]

  -- The rank of a cost, that of infinity above all.
  abbrev pub rank_of : Option F → ℕ
  rank_of none = o.top
  rank_of (some d) = o.rank d

  pub rank_of-lt :
      (ks : Solver F) (c : F) (d : Option F) → is_below num ks c d ≡ true → o.rank c < rank_of d
  unfolding is_below
  rank_of-lt ks c none e = o.rank_top c
  rank_of-lt ks c (some d) e = o.rank-lt c d e

  pub total : List (String × Option F) → ℕ
  total [] = 0
  total ((node, d) ∷ dist) = rank_of d + total dist

  pub total-insert :
      (node : String) (c : F) (d : Option F) (dist : List (String × Option F))
      → lookup node dist ≡ some d
      → total (insert node (some c) dist) + rank_of d ≡ total dist + o.rank c
  unfolding total lookup insert
  total-insert node c d [] e = absurd cc
  total-insert node c d ((n, d') ∷ dist) e = elim (Bool-cases (same n node)) [
    | inl i ↦ let at : d' ≡ d = ground (arith, rw i at e) in rw (i, at) (omega arith)
    | inr i ↦ rw i (omega (arith, total-insert node c d dist (rw i at e)))
  ]

  -- The measure of a search: each turn takes it down.
  abbrev pub measure : Search F → ℕ
  measure s = 2 * total s.dist + length s.queue
