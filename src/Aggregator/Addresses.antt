-- ===== src/Aggregator/Addresses.antt =====
-- The header that `start_packet` makes of a message: the addresses of its hops, and its protocol.
use sky_accel.Base.{
  ℕ, zero, suc, ◌≤◌, ◌<◌, ◌≡◌, inl, inr, refl, ap, ◌∙◌, List, [], ◌∷◌, arith, if◌then◌else◌,
  Bool-cases,
}
use sky_accel.Packet.{Packet, new_packet, set_hop_ip, set_port, set_protocol, set_hop_pos}
use sky_accel.Packet.Bytes.{Hops, hop_set, uint32_at, to4}
use sky_accel.Util.{hop_ip_to_net}
use sky_accel.Util.Octets.{hop_ip_to_net-FourBytes}
use sky_accel.Aggregator.{AggregatorMsg, start_packet, set_hops}
use text.Mathlib.Text.{◌==◌ as str_eq}

-- The word of an address's text, 0 for a text that is no address.
abbrev pub word : List ℕ → ℕ
word text = uint32_at (hop_ip_to_net text) 0

set_hop_ip-word :
    (p : Packet) (i : ℕ) (text : List ℕ)
    → i < 4
    → hop_set p.hop_ip i 0 ≡ p.hop_ip
    → set_hop_ip p i (hop_ip_to_net text) ≡ record p { hop_ip = hop_set p.hop_ip i (word text) }
unfolding set_hop_ip to4
set_hop_ip-word p i text h unset = elim (hop_ip_to_net-FourBytes text) [
  | inl e ↦ rw e (ground (arith, unset))
  | inr (a, b, c, d, e, _, _, _, _) ↦ rw e (ground arith)
]

-- The word of the hop with this index, 0 behind the last one.
abbrev pub address : List (List ℕ) → ℕ → ℕ
address [] i = 0
address (h ∷ hops) zero = word h
address (h ∷ hops) (suc i) = address hops i

abbrev pub addresses : List (List ℕ) → Hops
addresses hops = record {
  hop0 = address hops 0;
  hop1 = address hops 1;
  hop2 = address hops 2;
  hop3 = address hops 3;
}

-- A fifth hop and those behind it are left out.
set_hops_beyond :
    (p : Packet) (i : ℕ) (hops : List (List ℕ)) → 4 ≤ i → (set_hops p i hops).hop_ip ≡ p.hop_ip
unfolding set_hops set_hop_ip
set_hops_beyond p i [] h = refl
set_hops_beyond p i (x ∷ hops) h =
    set_hops_beyond (set_hop_ip p i (hop_ip_to_net x)) (suc i) hops (omega arith) ∙ ground arith

abbrev with_hops : ℕ → ℕ → ℕ → ℕ → ℕ → Packet
with_hops size a b c d = record (new_packet size) {
  hop_ip = record { hop0 = a; hop1 = b; hop2 = c; hop3 = d };
}

module _ (size : ℕ) where
  from_three :
      (a b c : ℕ) (hops : List (List ℕ))
      → (set_hops (with_hops size a b c 0) 3 hops).hop_ip
        ≡ record { hop0 = a; hop1 = b; hop2 = c; hop3 = address hops 0 }
  unfolding set_hops
  from_three a b c [] = refl
  from_three a b c (x ∷ hops) =
      ap (λ p. (set_hops p 4 hops).hop_ip)
        (set_hop_ip-word (with_hops size a b c 0) 3 x (omega arith) refl)
      ∙ set_hops_beyond (with_hops size a b c (word x)) 4 hops (omega arith)

  from_two :
      (a b : ℕ) (hops : List (List ℕ))
      → (set_hops (with_hops size a b 0 0) 2 hops).hop_ip
        ≡ record { hop0 = a; hop1 = b; hop2 = address hops 0; hop3 = address hops 1 }
  unfolding set_hops
  from_two a b [] = refl
  from_two a b (x ∷ hops) =
      ap (λ p. (set_hops p 3 hops).hop_ip)
        (set_hop_ip-word (with_hops size a b 0 0) 2 x (omega arith) refl)
      ∙ from_three a b (word x) hops

  from_one :
      (a : ℕ) (hops : List (List ℕ))
      → (set_hops (with_hops size a 0 0 0) 1 hops).hop_ip
        ≡ record { hop0 = a; hop1 = address hops 0; hop2 = address hops 1; hop3 = address hops 2 }
  unfolding set_hops
  from_one a [] = refl
  from_one a (x ∷ hops) =
      ap (λ p. (set_hops p 2 hops).hop_ip)
        (set_hop_ip-word (with_hops size a 0 0 0) 1 x (omega arith) refl)
      ∙ from_two a (word x) hops

  set_hops-addresses :
      (hops : List (List ℕ)) → (set_hops (new_packet size) 0 hops).hop_ip ≡ addresses hops
  unfolding set_hops new_packet
  set_hops-addresses [] = refl
  set_hops-addresses (x ∷ hops) =
      ap (λ p. (set_hops p 1 hops).hop_ip)
        (set_hop_ip-word (with_hops size 0 0 0 0) 0 x (omega arith) refl)
      ∙ from_one (word x) hops

  -- The first four hops of a message, in their order.
  pub start_packet-addresses : (m : AggregatorMsg) → (start_packet size m).hop_ip ≡ addresses m.hops
  unfolding start_packet set_port set_protocol set_hop_pos
  start_packet-addresses m = ground (arith, set_hops-addresses m.hops)

  pub start_packet-protocol :
      (m : AggregatorMsg)
      → (start_packet size m).protocol ≡ (if str_eq m.protocol "tcp" then 6 else 17)
  unfolding start_packet set_port set_protocol set_hop_pos
  start_packet-protocol m = elim (Bool-cases (str_eq m.protocol "tcp")) [
    | inl e ↦ rw (e, start_packet) refl
    | inr e ↦ rw (e, start_packet) refl
  ]
