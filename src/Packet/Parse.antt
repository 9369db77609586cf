-- ===== src/Packet/Parse.antt =====
-- Parse: its loop against the encoding, and its outcome on any input.
use sky_accel.Base.{
  ℕ, zero, suc, ◌/◌, ◌%◌, ◌^◌, ◌<◌, ◌≡◌, refl, ap, ◌∙◌, List, [], ◌∷◌, ◌++◌, some, arith, leb,
  if◌then◌else◌, length, take, drop, replicate, All, length-append, length-drop, length-replicate,
  take-append_exact, drop-append_exact, Bool-cases, inl, inr,
}
use mathlib.Core.Option
use mathlib.Core.List.{append-nil}
use sky_accel.Packet.Bytes.{uint32-be32, uint16, uint32, copy, copy_all}
use sky_accel.Packet.{Packet, SubPacket, read_content, read_subs}
use sky_accel.Packet.Append.{encode_sub, encode}

-- A sub-packet that its fields can hold.
abbrev pub Fits : SubPacket → Type 0
Fits s = (s.user_id < 2 ^ 32) × (length s.content < 2 ^ 16)

-- What the reader returns: all sub-packets, but for a last one with no content.
abbrev pub received : List SubPacket → List SubPacket
received [] = []
received (s ∷ []) = if leb (length s.content) 0 then [] else s ∷ []
received (s ∷ t ∷ ss) = s ∷ received (t ∷ ss)

read_content-append :
    (xs ys : List ℕ) → 0 < length (xs ++ ys) → read_content (length xs) (xs ++ ys) ≡ some (xs, ys)
unfolding read_content copy
read_content-append [] [] h = absurd (omega arith)
read_content-append [] (y ∷ ys) h = refl
read_content-append (x ∷ xs) ys h =
    let filled =
      copy_all (replicate (suc (length xs)) 0) ((x ∷ xs) ++ ys)
        (omega (arith, length-replicate {A = ℕ} (length xs) 0, length-append xs ys)) in
    let front : copy (replicate (suc (length xs)) 0) ((x ∷ xs) ++ ys) ≡ x ∷ xs =
      filled
      ∙ ap (λ n. take n ((x ∷ xs) ++ ys)) (length-replicate {A = ℕ} (suc (length xs)) 0)
      ∙ take-append_exact (x ∷ xs) ys in
    rw (front, drop-append_exact xs ys)

-- One round on a sub-packet that is not at the end of the payload.
read_subs_round :
    (fuel : ℕ) (s : SubPacket) (rest : List ℕ)
    → Fits s
    → 0 < length (s.content ++ rest)
    → read_subs (suc fuel) (encode_sub s ++ rest) ≡ Option.map (◌∷◌ s) (read_subs fuel rest)
unfolding read_subs
read_subs_round fuel s rest f h =
    let size : uint16 (length s.content % 2 ^ 16 / 256 % 256) (length s.content % 2 ^ 16 % 256)
        ≡ length s.content =
      omega arith in
    let got = rw (← size) at (read_content-append s.content rest h) in
    rw (got, read_subs)
      (ap
        (λ u.
          Option.map (λ ss. record { user_id = u; content = s.content } ∷ ss) (read_subs fuel rest))
        (uint32-be32 s.user_id f.0))

-- A sub-packet without content at the end of the payload is not read.
read_subs_end :
    (fuel user_id : ℕ) (content : List ℕ)
    → length content ≡ 0
    → read_subs (suc fuel) (encode_sub (record { user_id = user_id; content = content })) ≡ some []
unfolding read_subs read_content
read_subs_end fuel user_id [] h = refl
read_subs_end fuel user_id (x ∷ xs) h = absurd (omega arith)

read_subs_nil : (fuel : ℕ) → 0 < fuel → read_subs fuel [] ≡ some []
unfolding read_subs
read_subs_nil zero h = absurd (omega arith)
read_subs_nil (suc fuel) h = refl

pub read_subs-encode :
    (ss : List SubPacket) (fuel : ℕ)
    → All Fits ss
    → length ss < fuel
    → read_subs fuel (encode ss) ≡ some (received ss)
read_subs-encode [] zero a h = absurd (omega arith)
read_subs-encode [] (suc fuel) a h = unfold read_subs in refl
read_subs-encode (s ∷ ss) zero a h = absurd (omega arith)
read_subs-encode (s ∷ []) (suc fuel) a h = elim (Bool-cases (leb (length s.content) 0)) [
  | inl bare ↦
      rw (bare, append-nil s.content) (read_subs_end fuel s.user_id s.content (ground arith))
  | inr full ↦ rw full (
      read_subs_round fuel s [] a.0 (ground (arith, length-append s.content []))
      ∙ rw (read_subs_nil fuel (omega arith)))
]
read_subs-encode (s ∷ t ∷ ss) (suc fuel) a h =
    read_subs_round fuel s (encode (t ∷ ss)) a.0
      (omega (arith, length-append s.content (encode (t ∷ ss))))
    ∙ rw (read_subs-encode (t ∷ ss) fuel a.1 (omega arith))

-- The fuel suffices on any payload.
pub read_subs_total :
    (fuel : ℕ) (r : List ℕ) → length r < fuel → (ss : List SubPacket) × (read_subs fuel r ≡ some ss)
unfolding read_subs read_content
read_subs_total zero r h = absurd (omega arith)
read_subs_total (suc fuel) (a ∷ b ∷ c ∷ d ∷ e ∷ f ∷ x ∷ r) h =
    let left = drop (uint16 e f) (x ∷ r) in
    let (ss, done) = read_subs_total fuel left (omega (arith, length-drop (uint16 e f) (x ∷ r))) in
    (
      record { user_id = uint32 a b c d; content = copy (replicate (uint16 e f) 0) (x ∷ r) } ∷ ss,
      rw done,
    )
read_subs_total (suc fuel) _ h = ([], refl)

-- The header that ParseHeader reads from a frame.
pub record SameFields (p q : Packet) : Type 0 where
  pub position : q.hop_pos ≡ p.hop_pos
  pub hops : q.hop_ip ≡ p.hop_ip
  pub payload_len : q.payload_len ≡ p.payload_len
  pub port : q.port ≡ p.port
  pub protocol : q.protocol ≡ p.protocol
