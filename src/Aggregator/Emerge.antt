-- ===== src/Aggregator/Emerge.antt =====
-- handleMsg on a message that does not wait.
use sky_accel.Base.{
  ℕ, ◌+◌, ◌^◌, ◌≤◌, ◌<◌, ◌≡◌, ◌∙◌, List, [], ◌∷◌, true, false, arith, leb, if◌then◌else◌, length,
  length-append,
}
use sky_accel.Base.Run.{ok}
use sky_accel.Packet.{Packet, SubPacket, header_size, append_user_packet}
use sky_accel.Packet.Append.{Appended, append-Appended, append_no_room}
use sky_accel.Packet.RoundTrip.{InRange, IsFrame, frame-IsFrame}
use sky_accel.Aggregator.{
  AggregatorMsg, Config, Worker, start_packet, flush, emerge_message, handle_msg,
}
use sky_accel.Aggregator.Store.{
  start_packet-Carries, start_packet-InRange, start_packet_header, start_packet_room,
}
use sky_accel.Aggregator.Addresses.{addresses, start_packet-addresses, start_packet-protocol}
use text.Mathlib.Text.{◌==◌ as str_eq}

abbrev pub sub_of : AggregatorMsg → SubPacket
sub_of m = record { user_id = m.user_id; content = m.content }

-- The fields of a message are values of their Go types.
pub record IsMsg (m : AggregatorMsg) : Type 0 where
  pub user_id : m.user_id < 2 ^ 32
  pub port : m.port < 2 ^ 16

-- The header of a frame for the route of `m`: position 1, the port of `m`, the addresses of the first four
-- of its hops in their order, with 0 for a text that is no address and behind the last hop, and the number
-- of its protocol.
pub record RoutedAs (m : AggregatorMsg) (p : Packet) : Type 0 where
  pub position : p.hop_pos ≡ 1
  pub port : p.port ≡ m.port
  pub hops : p.hop_ip ≡ addresses m.hops
  pub protocol : p.protocol ≡ (if str_eq m.protocol "tcp" then 6 else 17)

pub start_packet-RoutedAs : (size : ℕ) (m : AggregatorMsg) → RoutedAs m (start_packet size m)
start_packet-RoutedAs size m =
    let (pos, port) = start_packet_header size m in
    record {
      position = pos;
      port = port;
      hops = start_packet-addresses size m;
      protocol = start_packet-protocol size m;
    }

pub RoutedAs-Appended :
    (m : AggregatorMsg) (p q : Packet) (subs : List SubPacket)
    → Appended p q subs
    → RoutedAs m p
    → RoutedAs m q
RoutedAs-Appended m p q subs a r = record {
  position = a.position ∙ r.position;
  port = a.port ∙ r.port;
  hops = a.hops ∙ r.hops;
  protocol = a.protocol ∙ r.protocol;
}

pub InRange-Appended :
    (p q : Packet) (subs : List SubPacket) → Appended p q subs → InRange p → InRange q
InRange-Appended p q subs a r = record {
  hop0 = rw a.hops r.hop0;
  hop1 = rw a.hops r.hop1;
  hop2 = rw a.hops r.hop2;
  hop3 = rw a.hops r.hop3;
  payload_len = omega (arith, a.announced);
  port = rw a.port r.port;
}

pub start-Appended :
    (size : ℕ) (m : AggregatorMsg)
    → header_size + (6 + length m.content) ≤ size
    → (q : Packet) × (append_user_packet (start_packet size m) m.user_id m.content ≡ ok (q, true))
      × Appended (start_packet size m) q (sub_of m ∷ [])
start-Appended size m h =
    let c = start_packet-Carries size m (omega arith) in
    append-Appended (start_packet size m) [] (sub_of m) c (omega (arith, start_packet_room size m))

-- A message with user id and port in range and at most 65529 bytes of content, which does not wait
-- and fits the buffer size, is sent at once to its next hop, in a frame of its own, whose header has hop
-- position 1 and the message's port, protocol and hops: the addresses of the first four, in their order.
pub emerge_message-IsFrame :
    (m : AggregatorMsg) (size : ℕ)
    → IsMsg m
    → length m.content < 65530
    → header_size + (6 + length m.content) ≤ size
    → (q : Packet) × (raw : List ℕ) × (emerge_message size m
        ≡ ok (record { p = raw; routing_key = m.routing_key; next = m.next_hop } ∷ []))
      × IsFrame q (sub_of m ∷ []) raw
      × RoutedAs m q
unfolding emerge_message flush
emerge_message-IsFrame m size v short fits =
    let (q, e, a) = start-Appended size m fits in
    let r = InRange-Appended _ q _ a (start_packet-InRange size m v.port) in
    let (raw, framed, f) =
      frame-IsFrame q (sub_of m ∷ []) a.carries r
        (omega (arith, a.announced, length-append m.content [])) ((v.user_id, omega arith), tt) in
    let nonempty : leb (length raw) 0 ≡ false = rw f.bytes (ground arith) in
    (
      q,
      raw,
      rw (e, emerge_message) (rw framed (rw nonempty)),
      f,
      RoutedAs-Appended m (start_packet size m) q (sub_of m ∷ []) a (start_packet-RoutedAs size m),
    )

-- One that does not fit the configured buffer is dropped, and nothing else changes.
pub emerge_message_dropped :
    (cfg : Config) (now : ℕ) (w : Worker) (m : AggregatorMsg)
    → m.emerge ≡ true
    → 128 ≤ length m.content
    → 20 < cfg.batch_timeout
    → cfg.buffer_size < header_size + (6 + length m.content)
    → handle_msg cfg now w m ≡ ok (w, [])
unfolding handle_msg emerge_message
emerge_message_dropped cfg now w m e long slow small = ground (
  arith,
  append_no_room (start_packet cfg.buffer_size m) m.user_id m.content,
  start_packet_room cfg.buffer_size m,
)
