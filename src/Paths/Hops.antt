-- ===== src/Paths/Hops.antt =====
-- Paths without repeated nodes.
use sky_accel.Base.{
  ◌≡◌, ◌≢◌, ◌↔◌, inl, inr, refl, ap, List, [], ◌∷◌, false, arith, All, All-imp, All-both,
  Bool-cases,
}
use sky_accel.Base.Keys.{same, same_ne, string_eq}
use Prim.Native.String.{String}
use sky_accel.Paths.{
  is_in_path, duplicate_after, has_duplicate_nodes, remove_after, remove_consecutive_duplicates,
}

abbrev pub AllDistinct : List String → Type 0
AllDistinct [] = Unit
AllDistinct (hop ∷ hops) = All (λ h. hop ≢ h) hops × AllDistinct hops

is_in_path-false :
    (node : String) (path : List String) → (is_in_path node path ≡ false) ↔ All (λ n. n ≢ node) path
unfolding is_in_path
is_in_path-false node [] = (λ _. tt, λ _. refl)
is_in_path-false node (n ∷ path) =
    let (only_if, is_if) = is_in_path-false node path in
    elim (Bool-cases (same n node)) [
      | inl here ↦ (
        λ e. absurd (ground (arith, e, here)),
        λ (ne, _). absurd (ne ((string_eq.beq_iff n node).0 here)),
      )
      | inr there ↦ (
        λ e. (
          λ eq. ground (arith, there, (string_eq.beq_iff n node).1 eq),
          only_if (ground (arith, e, there)),
        ),
        λ (ne, h). rw (there, is_in_path) (is_if h),
      )
    ]

-- No hop of `hops` is in `seen`.
abbrev IsApart : List String → List String → Type 0
IsApart seen hops = All (λ h. All (λ n. n ≢ h) seen) hops

duplicate_after-false :
    (seen hops : List String)
    → (duplicate_after seen hops ≡ false) ↔ (IsApart seen hops × AllDistinct hops)
unfolding duplicate_after
duplicate_after-false seen [] = (λ _. (tt, tt), λ _. refl)
duplicate_after-false seen (hop ∷ hops) =
    let (only_if, is_if) = duplicate_after-false (hop ∷ seen) hops in
    let (in_only_if, in_if) = is_in_path-false hop seen in
    elim (Bool-cases (is_in_path hop seen)) [
      | inl here ↦ (
        λ e. absurd (ground (arith, e, here)),
        λ ((out, _), _). absurd (ground (arith, here, in_if out)),
      )
      | inr there ↦ (
        λ e.
            let (apart, distinct) = only_if (ground (arith, e, there)) in
            (
              (in_only_if there, All-imp hops (λ h p. p.1) apart),
              (All-imp hops (λ h p. p.0) apart, distinct),
            ),
        λ ((out, apart), (first, distinct)).
            rw (there, duplicate_after)
              (is_if (All-both hops (λ h p q. (p, q)) first apart, distinct)),
      )
    ]

All-trivial : (hops : List String) → IsApart [] hops
All-trivial [] = tt
All-trivial (h ∷ hops) = (tt, All-trivial hops)

-- hasDuplicateNodes says no exactly if all nodes of the path are different.
pub has_duplicate_nodes-false :
    (hops : List String) → (has_duplicate_nodes hops ≡ false) ↔ AllDistinct hops
unfolding has_duplicate_nodes
has_duplicate_nodes-false hops =
    let (only_if, is_if) = duplicate_after-false [] hops in
    (λ e. (only_if e).1, λ d. is_if (All-trivial hops, d))

-- No hop is the one before it.
abbrev pub IsThinAfter : String → List String → Type 0
IsThinAfter last [] = Unit
IsThinAfter last (hop ∷ hops) = (hop ≢ last) × IsThinAfter hop hops

abbrev pub IsThin : List String → Type 0
IsThin [] = Unit
IsThin (hop ∷ hops) = IsThinAfter hop hops

remove_after-IsThinAfter :
    (last : String) (hops : List String) → IsThinAfter last (remove_after last hops)
unfolding remove_after
remove_after-IsThinAfter last [] = tt
remove_after-IsThinAfter last (hop ∷ hops) = elim (Bool-cases (same hop last)) [
  | inl here ↦
      let eq : hop ≡ last = (string_eq.beq_iff hop last).0 here in
      rw (here, remove_after) (rw (← eq) (remove_after-IsThinAfter hop hops))
  | inr there ↦
      rw (there, remove_after)
        (
          λ eq. ground (arith, there, (string_eq.beq_iff hop last).1 eq),
          remove_after-IsThinAfter hop hops,
        )
]

remove_after_thin :
    (last : String) (hops : List String) → IsThinAfter last hops → remove_after last hops ≡ hops
unfolding remove_after
remove_after_thin last [] h = refl
remove_after_thin last (hop ∷ hops) (ne, h) =
    rw (same_ne hop last ne, remove_after) (ap (◌∷◌ hop) (remove_after_thin hop hops h))

-- removeConsecutiveDuplicates leaves no hop that is the one before it, and a second turn changes nothing.
pub remove_consecutive_duplicates-IsThin :
    (hops : List String)
    → IsThin (remove_consecutive_duplicates hops)
      × (remove_consecutive_duplicates (remove_consecutive_duplicates hops)
          ≡ remove_consecutive_duplicates hops)
unfolding remove_consecutive_duplicates
remove_consecutive_duplicates-IsThin [] = (tt, refl)
remove_consecutive_duplicates-IsThin (hop ∷ hops) =
    let thin = remove_after-IsThinAfter hop hops in
    (thin, ap (◌∷◌ hop) (remove_after_thin hop (remove_after hop hops) thin))
