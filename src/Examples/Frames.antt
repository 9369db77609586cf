-- ===== src/Examples/Frames.antt =====
-- data-proxy/tunnel-packet and tunnel-handler.go: a request and a response of one client over two relays.
use sky_accel.Base.{
  ℕ, ◌≤◌, ◌<◌, ◌≡◌, ◌↔◌, refl, List, [], ◌∷◌, ◌++◌, some, true, arith, length, replicate,
}
use sky_accel.Base.Run.{ok, panic}
use sky_accel.Packet.{
  Packet, SubPacket, header_size, set_hop_ip, frame, read_subs, append_user_packet,
}
use sky_accel.Packet.Append.{Carries, encode, Appended, append-Appended}
use sky_accel.Packet.Parse.{read_subs_total}
use sky_accel.Packet.RoundTrip.{InRange, IsFrame, frame_bytes, frame-ReadBack, ReadBack}
use sky_accel.Tunnel.{read_frame, handle_packet, submit, deliver, task}
use sky_accel.Tunnel.Route.{travel, request-reaches-origin, response-reaches-client, protocol_of}
use sky_accel.Tunnel.Handle.{handle_packet-panic, IsBeyond}
use sky_accel.Tunnel.Stream.{read_frame-frame}
use sky_accel.Packet.Bytes.{hop_set}
use sky_accel.Util.{hop_ip_to_net, ip_string, uint32_to_ip}
use sky_accel.Util.Address.{set_hop_ip-uint32_to_ip}

-- A frame with one sub-packet, for a request (a port) or a response (port 0).
abbrev pub one_sub : List SubPacket
one_sub = record { user_id = 7; content = 1 ∷ 2 ∷ 3 ∷ [] } ∷ []

abbrev pub sample : ℕ → Packet
sample port = record {
  buf = (replicate 24 0 ++ encode one_sub) ++ replicate 31 0;
  buff_size = 64;
  hop_pos = 1;
  hop_ip = record { hop0 = 10; hop1 = 20; hop2 = 30; hop3 = 0 };
  payload_len = 9;
  port = port;
  protocol = 0;
  wp = 33;
}

abbrev pub raw_of : ℕ → List ℕ
raw_of port = frame_bytes (sample port) 0 0 (encode one_sub)

pub sample-Carries : Carries (sample 80) one_sub
sample-Carries = record {
  head = replicate 24 0;
  room = replicate 31 0;
  head_size = refl;
  layout = refl;
  written = refl;
  capacity = refl;
}

pub sample-InRange : (port : ℕ) → port < 65536 → InRange (sample port)
sample-InRange port h = record {
  hop0 = omega arith;
  hop1 = omega arith;
  hop2 = omega arith;
  hop3 = omega arith;
  payload_len = omega arith;
  port = h;
}

pub sample-IsFrame : (port : ℕ) → port < 65536 → IsFrame (sample port) one_sub (raw_of port)
sample-IsFrame port h = record {
  pad0 = 0;
  pad1 = 0;
  bytes = refl;
  in_range = sample-InRange port h;
  announced = refl;
  fits = ((omega arith, omega arith), tt);
}

frame-ReadBack_example :
    (raw : List ℕ) × (frame (sample 80) ≡ ok raw) × ReadBack (sample 80) one_sub raw
frame-ReadBack_example =
    frame-ReadBack (sample 80) one_sub sample-Carries (sample-InRange 80 (omega arith)) refl
      ((omega arith, omega arith), tt)

read_frame-frame_example : read_frame (raw_of 80) ≡ some (raw_of 80)
read_frame-frame_example =
    read_frame-frame (sample 80) one_sub (raw_of 80) (sample-IsFrame 80 (omega arith))

request-reaches-origin_example :
    travel 2 (raw_of 80)
    ≡ ok (
      [],
      submit
          (protocol_of (sample 80))
          (task (sample 80).hop_ip 80 30 (record { user_id = 7; content = 1 ∷ 2 ∷ 3 ∷ [] }) ∷ []),
    )
request-reaches-origin_example =
    request-reaches-origin (sample 80) one_sub (raw_of 80)
      (record { user_id = 7; content = 1 ∷ 2 ∷ 3 ∷ [] }) [] (sample-IsFrame 80 (omega arith)) refl
      refl (omega arith) (omega arith)

response-reaches-client_example : travel 3 (raw_of 0) ≡ ok (30 ∷ [], deliver one_sub)
response-reaches-client_example =
    response-reaches-client (sample 0) one_sub (raw_of 0)
      (record { user_id = 7; content = 1 ∷ 2 ∷ 3 ∷ [] }) [] (sample-IsFrame 0 (omega arith)) refl
      refl refl

handle_packet-panic_example :
    (handle_packet (raw_of 80) ≡ panic) ↔ ((header_size ≤ length (raw_of 80)) × IsBeyond 80 1)
handle_packet-panic_example = handle_packet-panic (raw_of 80) (omega arith)

read_subs_total_example : (ss : List SubPacket) × (read_subs 10 (encode one_sub) ≡ some ss)
read_subs_total_example = read_subs_total 10 (encode one_sub) (omega arith)

append-Appended_example :
    (q : Packet) × (append_user_packet (sample 80) 8 (4 ∷ []) ≡ ok (q, true))
    × Appended (sample 80) q (one_sub ++ record { user_id = 8; content = 4 ∷ [] } ∷ [])
append-Appended_example =
    append-Appended (sample 80) one_sub (record { user_id = 8; content = 4 ∷ [] }) sample-Carries
      (omega arith)

set_hop_ip-uint32_to_ip_example :
    set_hop_ip (sample 80) 2 (hop_ip_to_net (ip_string (uint32_to_ip 16909060)))
    ≡ record (sample 80) { hop_ip = hop_set (sample 80).hop_ip 2 16909060 }
set_hop_ip-uint32_to_ip_example =
    set_hop_ip-uint32_to_ip (sample 80) 2 16909060 (omega arith) (omega arith)
