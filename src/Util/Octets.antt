-- ===== src/Util/Octets.antt =====
-- The octets that ParseIP reads are bytes, four of them.
use sky_accel.Base.{
  ℕ, ◌-◌, ◌<◌, ◌≡◌, ◌⊎◌, inl, inr, refl, List, [], ◌∷◌, ◌++◌, Option, none, some, arith, leb, ◌==◌,
  ◌&&◌, length, All, Bool-cases, Option-cases, length-append,
}
use mathlib.Core.Path.{subst}
use sky_accel.Util.{octet_digit, octets, hop_ip_to_net}

octet_digit-lt : (cur : Option ℕ) (d v : ℕ) → d < 10 → octet_digit cur d ≡ some v → v < 256
unfolding octet_digit
octet_digit-lt none d v h e = ground arith
octet_digit-lt (some u) d v h e = ground arith

abbrev IsOctet : Option ℕ → Type 0
IsOctet none = Unit {0}
IsOctet (some v) = v < 256

abbrev pub IsByte : ℕ → Type 0
IsByte b = b < 256

All-concat : (xs : List ℕ) (v : ℕ) → All IsByte xs → v < 256 → All IsByte (xs ++ v ∷ [])
All-concat [] v a h = (h, tt)
All-concat (x ∷ xs) v a h = (a.0, All-concat xs v a.1 h)

octets-IsByte :
    (cur : Option ℕ) (done cs ip : List ℕ)
    → IsOctet cur
    → All IsByte done
    → octets cur done cs ≡ some ip
    → (length ip ≡ 4) × All IsByte ip
unfolding octets
octets-IsByte none done [] ip o a e = cc
octets-IsByte (some v) done [] ip o a e = elim (Bool-cases (length done == 3)) [
  | inl t ↦
      let whole : done ++ v ∷ [] ≡ ip = ground (arith, t) in
      subst (λ l. (length l ≡ 4) × All IsByte l) whole
        (ground (arith, length-append done (v ∷ [])), All-concat done v a o)
  | inr f ↦ cc (rw f at e)
]
octets-IsByte none done (c ∷ cs) ip o a e = elim (Bool-cases (leb 48 c && leb c 57)) [
  | inl digit ↦ octets-IsByte (some (c - 48)) done cs ip (ground arith) a (ground arith)
  | inr other ↦ ground (arith, other)
]
octets-IsByte (some u) done (c ∷ cs) ip o a e = elim (Bool-cases (leb 48 c && leb c 57)) [
  | inl digit ↦ elim (Option-cases (octet_digit (some u) (c - 48))) [
    | inl bad ↦ ground (arith, bad)
    | inr (v, good) ↦
        octets-IsByte (some v) done cs ip (octet_digit-lt (some u) (c - 48) v (ground arith) good) a
          (ground (arith, good))
  ]
  | inr other ↦
      octets-IsByte none (done ++ u ∷ []) cs ip tt (All-concat done u a o) (ground (arith, other))
]

abbrev pub FourBytes : List ℕ → Type 0
FourBytes ip =
    (a : ℕ) × (b : ℕ) × (c : ℕ) × (d : ℕ) × (ip ≡ a ∷ b ∷ c ∷ d ∷ [])
    × (a < 256)
    × (b < 256)
    × (c < 256)
    × (d < 256)

four_bytes : (ip : List ℕ) → length ip ≡ 4 → All IsByte ip → FourBytes ip
four_bytes (a ∷ b ∷ c ∷ d ∷ []) n (x, (y, (z, (w, _)))) = (a, b, c, d, refl, x, y, z, w)
four_bytes ip n h = absurd (omega arith)

-- The address of a hop is empty or four bytes.
pub hop_ip_to_net-FourBytes :
    (text : List ℕ) → (hop_ip_to_net text ≡ []) ⊎ FourBytes (hop_ip_to_net text)
unfolding hop_ip_to_net
hop_ip_to_net-FourBytes text = elim (Option-cases (octets none [] text)) [
  | inl e ↦ inl (rw (e, hop_ip_to_net))
  | inr (ip, e) ↦
      let (n, b) = octets-IsByte none [] text ip tt tt e in
      inr (rw (e, hop_ip_to_net) (four_bytes ip n b))
]
