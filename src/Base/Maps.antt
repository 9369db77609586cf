-- ===== src/Base/Maps.antt =====
-- Predicates on the entries of an association list.
use mathlib.Core.Path.{◌≡◌}
use mathlib.Core.Logic.{inl, inr}
use mathlib.Core.Bool.{Bool, true}
use mathlib.Core.Option.{some}
use mathlib.Core.List.{List, [], ◌∷◌}
use native.Mathlib.Omega.{arith}
use sky_accel.Base.Tests.{if◌then◌else◌, Bool-cases}
use sky_accel.Base.Lists.{All}
use sky_accel.Base.Keys.{Eq, same, lookup, insert, delete}

-- The entries that `p` keeps: `delete` in a loop over a map.
abbrev pub filter {ℓ} : {A : Type ℓ} → (A → Bool) → List A → List A
filter p [] = []
filter p (x ∷ xs) = let rest = filter p xs in if p x then x ∷ rest else rest

module _ {ℓ κ μ} {K : Type ℓ} {V : Type κ} ⦃e : Eq K⦄ (P : K × V → Type μ) where
  pub All-insert : (k : K) (v : V) (m : List (K × V)) → All P m → P (k, v) → All P (insert k v m)
  unfolding insert
  All-insert k v [] h p = (p, tt)
  All-insert k v ((j, w) ∷ m) (h, hs) p = elim (Bool-cases (same j k)) [
    | inl here ↦ rw here (p, hs)
    | inr there ↦ rw there (h, All-insert k v m hs p)
  ]

  pub All-delete : (k : K) (m : List (K × V)) → All P m → All P (delete k m)
  unfolding delete
  All-delete k [] h = tt
  All-delete k ((j, w) ∷ m) (h, hs) = elim (Bool-cases (same j k)) [
    | inl here ↦ rw here (All-delete k m hs)
    | inr there ↦ rw there (h, All-delete k m hs)
  ]

  pub All-lookup : (k : K) (v : V) (m : List (K × V)) → All P m → lookup k m ≡ some v → P (k, v)
  unfolding lookup
  All-lookup k v [] h at = cc
  All-lookup k v ((j, w) ∷ m) (h, hs) at = elim (Bool-cases (same j k)) [
    | inl here ↦
        let key : j ≡ k = (e.beq_iff j k).0 here in
        let value : w ≡ v = ground (arith, at, here) in rw (← key) (rw (← value) h)
    | inr there ↦ All-lookup k v m hs (ground (arith, at, there))
  ]

module _ {ℓ μ} {A : Type ℓ} (P : A → Type μ) (p : A → Bool) where
  pub All-filter : (xs : List A) → All P xs → All P (filter p xs)
  All-filter [] h = tt
  All-filter (x ∷ xs) (h, hs) = elim (Bool-cases (p x)) [
    | inl keep ↦ rw keep (h, All-filter xs hs)
    | inr drop ↦ rw drop (All-filter xs hs)
  ]

  -- What `filter` keeps passes its test.
  pub filter-All : ((x : A) → p x ≡ true → P x) → (xs : List A) → All P (filter p xs)
  filter-All f [] = tt
  filter-All f (x ∷ xs) = elim (Bool-cases (p x)) [
    | inl keep ↦ rw keep (f x keep, filter-All f xs)
    | inr drop ↦ rw drop (filter-All f xs)
  ]
