-- ===== src/Aggregator/Store.antt =====
-- The packets of batches: what the header setters keep, and what a batch holds.
use sky_accel.Base.{ℕ, suc, ◌^◌, ◌≤◌, ◌<◌, ◌≡◌, ◌⊎◌, inl, inr, refl, ◌∙◌, List, [], ◌∷◌, arith}
use sky_accel.Packet.{
  Packet, SubPacket, header_size, new_packet, set_hop_ip, set_port, set_protocol, set_hop_pos,
}
use sky_accel.Packet.Append.{Carries, new_packet-Carries}
use sky_accel.Packet.RoundTrip.{InRange}
use sky_accel.Util.{hop_ip_to_net}
use sky_accel.Util.Octets.{FourBytes, hop_ip_to_net-FourBytes}
use sky_accel.Aggregator.{AggregatorMsg, set_hops, start_packet}

abbrev SameBuffer : Packet → Packet → Type 0
SameBuffer p q = (q.buf ≡ p.buf) × (q.wp ≡ p.wp) × (q.buff_size ≡ p.buff_size)

set_hop_ip-SameBuffer : (p : Packet) (i : ℕ) (ip : List ℕ) → SameBuffer p (set_hop_ip p i ip)
unfolding set_hop_ip
set_hop_ip-SameBuffer p i ip = ground arith

set_hops-SameBuffer : (p : Packet) (i : ℕ) (hs : List (List ℕ)) → SameBuffer p (set_hops p i hs)
unfolding set_hops
set_hops-SameBuffer p i [] = (refl, refl, refl)
set_hops-SameBuffer p i (h ∷ hs) =
    let a = set_hop_ip-SameBuffer p i (hop_ip_to_net h) in
    let b = set_hops-SameBuffer (set_hop_ip p i (hop_ip_to_net h)) (suc i) hs in
    (b.0 ∙ a.0, b.1 ∙ a.1, b.2 ∙ a.2)

start_packet-SameBuffer :
    (size : ℕ) (m : AggregatorMsg) → SameBuffer (new_packet size) (start_packet size m)
unfolding start_packet set_hop_pos set_port set_protocol
start_packet-SameBuffer size m = ground (arith, set_hops-SameBuffer (new_packet size) 0 m.hops)

Carries-SameBuffer :
    (p q : Packet) (subs : List SubPacket) → SameBuffer p q → Carries p subs → Carries q subs
Carries-SameBuffer p q subs (b, w, s) c = record {
  head = c.head;
  room = c.room;
  head_size = c.head_size;
  layout = b ∙ c.layout;
  written = w ∙ c.written;
  capacity = omega (arith, c.capacity);
}

pub start_packet-Carries :
    (size : ℕ) (m : AggregatorMsg) → header_size ≤ size → Carries (start_packet size m) []
start_packet-Carries size m h =
    Carries-SameBuffer (new_packet size) (start_packet size m) [] (start_packet-SameBuffer size m)
      (new_packet-Carries size h)

set_hop_ip-InRange :
    (p : Packet) (i : ℕ) (ip : List ℕ)
    → (ip ≡ []) ⊎ FourBytes ip
    → InRange p
    → InRange (set_hop_ip p i ip)
unfolding set_hop_ip
set_hop_ip-InRange p i ip (inl e) r = rw e (ground arith)
set_hop_ip-InRange p i ip (inr (a, b, c, d, e, x, y, z, w)) r = rw e (ground arith)

set_hops-InRange : (hs : List (List ℕ)) (p : Packet) (i : ℕ) → InRange p → InRange (set_hops p i hs)
unfolding set_hops
set_hops-InRange [] p i r = r
set_hops-InRange (h ∷ hs) p i r =
    set_hops-InRange hs (set_hop_ip p i (hop_ip_to_net h)) (suc i)
      (set_hop_ip-InRange p i (hop_ip_to_net h) (hop_ip_to_net-FourBytes h) r)

new_packet-InRange : (size : ℕ) → InRange (new_packet size)
unfolding new_packet
new_packet-InRange size = omega arith

-- The header of a start packet, for a port of 16 bits.
pub start_packet-InRange :
    (size : ℕ) (m : AggregatorMsg) → m.port < 2 ^ 16 → InRange (start_packet size m)
unfolding start_packet set_hop_pos set_port set_protocol
start_packet-InRange size m h =
    ground (arith, set_hops-InRange m.hops (new_packet size) 0 (new_packet-InRange size))

pub start_packet_header :
    (size : ℕ) (m : AggregatorMsg)
    → ((start_packet size m).hop_pos ≡ 1) × ((start_packet size m).port ≡ m.port)
unfolding start_packet set_hop_pos set_port set_protocol
start_packet_header size m = ground arith

pub start_packet_room :
    (size : ℕ) (m : AggregatorMsg)
    → ((start_packet size m).wp ≡ header_size) × ((start_packet size m).buff_size ≡ size)
unfolding new_packet
start_packet_room size m = let s = start_packet-SameBuffer size m in (s.1, s.2)
