-- ===== src/Util/Address.antt =====
-- The text of an address is read back, and request ids of one client differ.
use sky_accel.Base.{
  ℕ, ◌+◌, ◌-◌, ◌*◌, ◌/◌, ◌%◌, ◌^◌, ◌<◌, ◌≡◌, ◌≢◌, refl, ap, ◌∙◌, List, [], ◌∷◌, ◌++◌, Option, none,
  some, ltb, length, arith, Bool-cases, inl, inr,
}
use sky_accel.Packet.{Packet, max_hops, set_hop_ip}
use sky_accel.Packet.Bytes.{hop_set, to4, uint32-be32}
use mathlib.Core.List.{append-nil}
use sky_accel.Util.{
  octet_digit, octets, hop_ip_to_net, uint32_to_ip, decimal, ip_string, gen_short_req_id,
}

octets_digit :
    (cur : Option ℕ) (done cs : List ℕ) (d v : ℕ)
    → d < 10
    → octet_digit cur d ≡ some v
    → octets cur done ((b'0' + d) ∷ cs) ≡ octets (some v) done cs
unfolding octets
octets_digit none done cs d v h e =
    let digit : (b'0' + d) - b'0' ≡ v = ground arith in rw digit (ground arith)
octets_digit (some u) done cs d v h e =
    let digit : (b'0' + d) - b'0' ≡ d = omega arith in rw digit (rw e (ground arith))

digit_first : (d : ℕ) → octet_digit none d ≡ some d
unfolding octet_digit
digit_first d = refl

digit_next : (u d : ℕ) → 0 < u → u * 10 + d < 256 → octet_digit (some u) d ≡ some (u * 10 + d)
unfolding octet_digit
digit_next u d h k = ground arith

-- Reading the decimal text of an octet.
octets-decimal :
    (done cs : List ℕ) (v : ℕ)
    → v < 256
    → octets none done (decimal v ++ cs) ≡ octets (some v) done cs
unfolding decimal
octets-decimal done cs v h = elim (Bool-cases (ltb v 10)) [
  | inl one ↦ rw one (octets_digit none done cs v v (ground arith) (digit_first v))
  | inr more ↦ elim (Bool-cases (ltb v 100)) [
    | inl two ↦
        rw (more, two)
          (octets_digit none done ((b'0' + v % 10) ∷ cs) (v / 10) (v / 10) (ground arith)
              (digit_first (v / 10))
            ∙ octets_digit (some (v / 10)) done cs (v % 10) v (omega arith)
                (digit_next (v / 10) (v % 10) (ground arith) (omega arith) ∙ ap some (omega arith)))
    | inr three ↦
        rw (more, three)
          (octets_digit none done ((b'0' + v / 10 % 10) ∷ (b'0' + v % 10) ∷ cs) (v / 100) (v / 100)
              (omega arith) (digit_first (v / 100))
            ∙ octets_digit (some (v / 100)) done ((b'0' + v % 10) ∷ cs) (v / 10 % 10) (v / 10)
                (omega arith)
                (digit_next (v / 100) (v / 10 % 10) (ground arith) (omega arith)
                  ∙ ap some (omega arith))
            ∙ octets_digit (some (v / 10)) done cs (v % 10) v (omega arith)
                (digit_next (v / 10) (v % 10) (ground arith) (omega arith) ∙ ap some (omega arith)))
  ]
]

octets_dot :
    (v : ℕ) (done cs : List ℕ)
    → length done < 3
    → octets (some v) done (b'.' ∷ cs) ≡ octets none (done ++ v ∷ []) cs
unfolding octets
octets_dot v done cs h = ground arith

octets_end : (a b c d : ℕ) → octets (some d) (a ∷ b ∷ c ∷ []) [] ≡ some (a ∷ b ∷ c ∷ d ∷ [])
unfolding octets
octets_end a b c d = refl

-- The text that a node writes for four octets is read back as these.
pub hop_ip_to_net-ip_string :
    (a b c d : ℕ)
    → a < 256
    → b < 256
    → c < 256
    → d < 256
    → hop_ip_to_net (ip_string (a ∷ b ∷ c ∷ d ∷ [])) ≡ a ∷ b ∷ c ∷ d ∷ []
unfolding hop_ip_to_net ip_string
hop_ip_to_net-ip_string a b c d ha hb hc hd =
    let last : octets (some d) (a ∷ b ∷ c ∷ []) [] ≡ some (a ∷ b ∷ c ∷ d ∷ []) =
      octets_end a b c d in
    let third = rw append-nil at (octets-decimal (a ∷ b ∷ c ∷ []) [] d hd) in
    let whole =
      octets-decimal [] (b'.' ∷ (decimal b ++ (b'.' ∷ (decimal c ++ (b'.' ∷ decimal d))))) a ha
      ∙ octets_dot a [] (decimal b ++ (b'.' ∷ (decimal c ++ (b'.' ∷ decimal d)))) (omega arith)
      ∙ octets-decimal (a ∷ []) (b'.' ∷ (decimal c ++ (b'.' ∷ decimal d))) b hb
      ∙ octets_dot b (a ∷ []) (decimal c ++ (b'.' ∷ decimal d)) (omega arith)
      ∙ octets-decimal (a ∷ b ∷ []) (b'.' ∷ decimal d) c hc
      ∙ octets_dot c (a ∷ b ∷ []) (decimal d) (omega arith)
      ∙ third
      ∙ last in
    rw (whole, hop_ip_to_net)

-- The text of an address that Uint32ToIP makes is read back as its bytes.
pub hop_ip_to_net-uint32_to_ip :
    (v : ℕ) → v < 2 ^ 32 → hop_ip_to_net (ip_string (uint32_to_ip v)) ≡ uint32_to_ip v
unfolding uint32_to_ip
hop_ip_to_net-uint32_to_ip v h =
    hop_ip_to_net-ip_string _ _ _ _ (omega arith) (omega arith) (omega arith) (omega arith)

-- The text of the address that Uint32ToIP makes of a 32-bit word, read by HopIPToNet and stored by
-- SetHopIP at one of the four hops of a packet, stores that word, and changes nothing else.
pub set_hop_ip-uint32_to_ip :
    (p : Packet) (i v : ℕ)
    → i < max_hops
    → v < 2 ^ 32
    → set_hop_ip p i (hop_ip_to_net (ip_string (uint32_to_ip v)))
      ≡ record p { hop_ip = hop_set p.hop_ip i v }
unfolding set_hop_ip to4 uint32_to_ip
set_hop_ip-uint32_to_ip p i v inside h =
    let bytes = hop_ip_to_net-uint32_to_ip v h in
    let word = uint32-be32 v h in rw bytes (ground (arith, word))

-- Two requests of one client, fewer than 2^24 requests of the process apart, have different ids.
pub gen_short_req_id_differ :
    (seq k : ℕ) (ip : List ℕ)
    → 0 < k
    → k < 2 ^ 24
    → (gen_short_req_id seq ip).1 ≢ (gen_short_req_id (seq + k) ip).1
unfolding gen_short_req_id
gen_short_req_id_differ seq k ip h l = ground arith
