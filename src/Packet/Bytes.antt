-- ===== src/Packet/Bytes.antt =====
-- Byte slices of data-proxy/tunnel-packet: big-endian words (`encoding/binary`), writes into a
-- slice with the bounds checks of Go, and the array [4]uint32 of hop addresses.
use sky_accel.Base.{
  ℕ, zero, suc, ◌+◌, ◌*◌, ◌/◌, ◌%◌, ◌^◌, ◌≤◌, ◌<◌, ◌≡◌, refl, ap, List, [], ◌∷◌, ◌++◌, Option, Bool,
  true, false, none, some, arith, leb, ◌==◌, ◌&&◌, if◌then◌else◌, length, take, drop, length-append,
}
use sky_accel.Base.Run.{Run, ok, panic}

abbrev pub be16 : ℕ → List ℕ
be16 v = (v / 256 % 256) ∷ (v % 256) ∷ []

abbrev pub be32 : ℕ → List ℕ
be32 v = (v / 2 ^ 24 % 256) ∷ (v / 2 ^ 16 % 256) ∷ (v / 2 ^ 8 % 256) ∷ (v % 256) ∷ []

abbrev pub uint16 : ℕ → ℕ → ℕ
uint16 a b = a * 256 + b

abbrev pub uint32 : ℕ → ℕ → ℕ → ℕ → ℕ
uint32 a b c d = a * 2 ^ 24 + b * 2 ^ 16 + c * 2 ^ 8 + d

pub uint16-be16 : (v : ℕ) → v < 2 ^ 16 → uint16 (v / 256 % 256) (v % 256) ≡ v
uint16-be16 v h = omega arith

pub uint32-be32 :
    (v : ℕ)
    → v < 2 ^ 32
    → uint32 (v / 2 ^ 24 % 256) (v / 2 ^ 16 % 256) (v / 2 ^ 8 % 256) (v % 256) ≡ v
uint32-be32 v h = omega arith

-- A read inside the bounds, which the callers check.
abbrev pub byte : List ℕ → ℕ → ℕ
byte [] i = 0
byte (x ∷ xs) zero = x
byte (x ∷ xs) (suc i) = byte xs i

abbrev pub uint16_at : List ℕ → ℕ → ℕ
uint16_at b i = uint16 (byte b i) (byte b (suc i))

abbrev pub uint32_at : List ℕ → ℕ → ℕ
uint32_at b i =
    uint32 (byte b i) (byte b (suc i)) (byte b (suc (suc i))) (byte b (suc (suc (suc i))))

pub byte-take : (n i : ℕ) (xs : List ℕ) → i < n → byte (take n xs) i ≡ byte xs i
byte-take zero i xs h = absurd (omega arith)
byte-take (suc n) i [] h = refl
byte-take (suc n) zero (x ∷ xs) h = refl
byte-take (suc n) (suc i) (x ∷ xs) h = byte-take n i xs (omega arith)

-- `copy(dst, src)` writes what fits.
unfoldable pub copy : List ℕ → List ℕ → List ℕ
copy [] src = []
copy (x ∷ dst) [] = x ∷ dst
copy (x ∷ dst) (b ∷ src) = b ∷ copy dst src

-- `copy(dst[i:], src)` for `i ≤ len(dst)`
unfoldable pub copy_from : ℕ → List ℕ → List ℕ → List ℕ
unfolding copy
copy_from zero dst src = copy dst src
copy_from (suc i) [] src = []
copy_from (suc i) (x ∷ dst) src = x ∷ copy_from i dst src

-- `copy(dst[i:], src)`; the slice expression panics past the end.
unfoldable pub copy_at : List ℕ → ℕ → List ℕ → Run (List ℕ)
copy_at dst i src = if leb i (length dst) then ok (copy_from i dst src) else panic

-- `binary.BigEndian.PutUint32(dst[i:], v)` and its kin panic where the word does not fit.
unfoldable pub put_at : List ℕ → ℕ → List ℕ → Run (List ℕ)
put_at dst i src = if leb (i + length src) (length dst) then ok (copy_from i dst src) else panic

pub copy-append_le :
    (xs ys bs : List ℕ) → length bs ≤ length xs → copy (xs ++ ys) bs ≡ copy xs bs ++ ys
unfolding copy
copy-append_le [] [] [] h = refl
copy-append_le [] (y ∷ ys) [] h = refl
copy-append_le [] ys (b ∷ bs) h = absurd (omega arith)
copy-append_le (x ∷ xs) ys [] h = refl
copy-append_le (x ∷ xs) ys (b ∷ bs) h = ap (◌∷◌ b) (copy-append_le xs ys bs (omega arith))

pub copy_le : (xs bs : List ℕ) → length bs ≤ length xs → copy xs bs ≡ bs ++ drop (length bs) xs
unfolding copy
copy_le [] [] h = refl
copy_le [] (b ∷ bs) h = absurd (omega arith)
copy_le (x ∷ xs) [] h = refl
copy_le (x ∷ xs) (b ∷ bs) h = ap (◌∷◌ b) (copy_le xs bs (omega arith))

pub copy_all : (xs bs : List ℕ) → length xs ≤ length bs → copy xs bs ≡ take (length xs) bs
unfolding copy
copy_all [] bs h = refl
copy_all (x ∷ xs) [] h = absurd (omega arith)
copy_all (x ∷ xs) (b ∷ bs) h = ap (◌∷◌ b) (copy_all xs bs (omega arith))

copy_from-append :
    (xs ys bs : List ℕ)
    → length bs ≤ length ys
    → copy_from (length xs) (xs ++ ys) bs ≡ xs ++ bs ++ drop (length bs) ys
unfolding copy_from
copy_from-append [] ys bs h = copy_le ys bs h
copy_from-append (x ∷ xs) ys bs h = ap (◌∷◌ x) (copy_from-append xs ys bs h)

-- Both writes behind a filled part `xs`, at its end `i`.
module _ (xs ys bs : List ℕ) (i : ℕ) (at_end : i ≡ length xs) (room : length bs ≤ length ys) where
  pub put_at-append : put_at (xs ++ ys) i bs ≡ ok (xs ++ bs ++ drop (length bs) ys)
  unfolding put_at
  put_at-append = ground (arith, length-append xs ys, copy_from-append xs ys bs room)

  pub copy_at-append : copy_at (xs ++ ys) i bs ≡ ok (xs ++ bs ++ drop (length bs) ys)
  unfolding copy_at
  copy_at-append = ground (arith, length-append xs ys, copy_from-append xs ys bs room)

-- [4]uint32
pub record Hops : Type 0 where
  pub hop0 : ℕ
  pub hop1 : ℕ
  pub hop2 : ℕ
  pub hop3 : ℕ

-- An index past the end panics.
abbrev pub hop_at : Hops → ℕ → Run ℕ
hop_at h i =
    if i == 0
    then ok h.hop0
    else if i == 1
    then ok h.hop1
    else if i == 2
    then ok h.hop2
    else if i == 3
    then ok h.hop3
    else panic

abbrev pub hop_set : Hops → ℕ → ℕ → Hops
hop_set h i v =
    if i == 0
    then record h { hop0 = v }
    else if i == 1
    then record h { hop1 = v }
    else if i == 2
    then record h { hop2 = v }
    else if i == 3
    then record h { hop3 = v }
    else h

abbrev all_zero : ℕ → List ℕ → Bool
all_zero zero b = true
all_zero (suc n) [] = false
all_zero (suc n) (x ∷ b) = let rest = all_zero n b in x == 0 && rest

-- `net.IP.To4` on the bytes of an address: 4 bytes, or 16 with the prefix ::ffff.
unfoldable pub to4 : List ℕ → Option (List ℕ)
to4 ip =
    if length ip == 4
    then some ip
    else if length ip == 16 && (all_zero 10 ip && (byte ip 10 == 255 && byte ip 11 == 255))
    then some (drop 12 ip)
    else none
