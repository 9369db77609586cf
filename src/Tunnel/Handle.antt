-- ===== src/Tunnel/Handle.antt =====
-- HandleQUICPacket on any bytes: when it panics.
use sky_accel.Base.{
  ℕ, ◌≤◌, ◌<◌, ◌≡◌, ◌≢◌, ◌⊎◌, ◌↔◌, inl, inr, List, [], ◌∷◌, some, arith, ltb, length, take,
  Bool-cases,
}
use mathlib.Core.Path.{ap₂}
use sky_accel.Base.Run.{panic, Run-cases}
use sky_accel.Packet.Bytes.{Hops, byte, byte-take, uint16, uint16_at}
use sky_accel.Packet.{
  Packet, Parsed, read_fields, new_packet, parse, parse_header, header_size, parsed, too_short,
  bad_length, out_of_fuel,
}
use sky_accel.Tunnel.{
  submit_parsed, request_last, response_last, forward_raw, handle_request, handle_response,
  handle_header, handle_packet,
}

-- The hop position runs past the addresses of the header.
abbrev pub IsBeyond : ℕ → ℕ → Type 0
IsBeyond port pos = (((port ≢ 0) × (3 ≤ pos)) ⊎ ((port ≡ 0) × (4 ≤ pos))) × (pos < 255)

parse-ne-panic : (pkt : List ℕ) → header_size ≤ length pkt → parse pkt (length pkt) ≢ panic
unfolding parse
parse-ne-panic pkt h = ground arith

submit-panic :
    (pos : ℕ) (hops : Hops) (port protocol : ℕ) (r : Parsed)
    → submit_parsed pos hops port protocol r ≡ panic
    → 3 ≤ pos
unfolding submit_parsed
submit-panic pos hops port protocol (parsed p []) h = ground arith
submit-panic pos hops port protocol (parsed p (s ∷ ss)) h = ground arith
submit-panic pos hops port protocol too_short h = ground arith
submit-panic pos hops port protocol bad_length h = ground arith
submit-panic pos hops port protocol out_of_fuel h = ground arith

module _ (pos : ℕ) (hops : Hops) (port protocol : ℕ) (pkt : List ℕ)
    (long : header_size ≤ length pkt) (small : pos < 256) where
  request-panic : handle_request pos hops port protocol pkt ≡ panic → (3 ≤ pos) × (pos < 255)
  unfolding handle_request request_last forward_raw
  request-panic h = elim (Run-cases (parse pkt (length pkt))) [
    | inl (r, e) ↦ ground (arith, e, submit-panic pos hops port protocol r)
    | inr e ↦ absurd (parse-ne-panic pkt long e)
  ]

  request_beyond : 3 ≤ pos → pos < 255 → handle_request pos hops port protocol pkt ≡ panic
  unfolding handle_request request_last forward_raw
  request_beyond h k = ground arith

  response-panic : handle_response pos hops pkt ≡ panic → (4 ≤ pos) × (pos < 255)
  unfolding handle_response response_last forward_raw
  response-panic h = elim (Run-cases (parse pkt (length pkt))) [
    | inl (r, e) ↦ ground (arith, e)
    | inr e ↦ absurd (parse-ne-panic pkt long e)
  ]

  response_beyond : 4 ≤ pos → pos < 255 → handle_response pos hops pkt ≡ panic
  unfolding handle_response response_last forward_raw
  response_beyond h k = ground arith

  header-panic : (handle_header pos hops port protocol pkt ≡ panic) ↔ IsBeyond port pos
  unfolding handle_header
  header-panic = (
    λ h. ground (arith, request-panic, response-panic),
    λ b. ground (arith, request_beyond, response_beyond),
  )

header_read :
    (pkt : List ℕ)
    → header_size ≤ length pkt
    → (h : Packet) × (parse_header pkt ≡ some h)
      × (h.hop_pos ≡ byte pkt 0)
      × (h.port ≡ uint16_at pkt 19)
unfolding parse_header
header_read pkt h = (
  read_fields (take header_size pkt) (record (new_packet 0) { buf = take header_size pkt; wp = 0 }),
  ground arith,
  byte-take header_size 0 pkt (omega arith),
  ap₂ uint16 (byte-take header_size 19 pkt (omega arith))
      (byte-take header_size 20 pkt (omega arith)),
)

-- A frame whose first byte is a byte makes HandleQUICPacket panic exactly if it is as long as a
-- header and its hop position, which any sender can set, runs past the four addresses: from 3 on
-- for a request (port not 0) and from 4 on for a response, up to 254.
pub handle_packet-panic :
    (pkt : List ℕ)
    → byte pkt 0 < 256
    → (handle_packet pkt ≡ panic)
      ↔ ((header_size ≤ length pkt) × IsBeyond (uint16_at pkt 19) (byte pkt 0))
unfolding handle_packet
handle_packet-panic pkt small = elim (Bool-cases (ltb (length pkt) header_size)) [
  | inl short ↦ (λ e. cc (rw (short, handle_packet) at e), λ (long, _). absurd (ground arith))
  | inr long ↦
      let full : header_size ≤ length pkt = ground arith in
      let (h, e, pos, port) = header_read pkt full in
      let at_header = header-panic h.hop_pos h.hop_ip h.port h.protocol pkt full (rw pos small) in
      rw (long, handle_packet)
        (rw e (rw (← pos, ← port) (λ p. (full, at_header.0 p), λ (_, b). at_header.1 b)))
]
