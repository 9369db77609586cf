-- ===== src/Tunnel/Route.antt =====
-- The way of a frame over the nodes: every node runs HandleQUICPacket, and a forwarded frame arrives
-- unchanged at the next one.
use sky_accel.Base.{
  ℕ, zero, suc, ◌+◌, ◌%◌, ◌<◌, ◌≡◌, ◌≢◌, ◌⊎◌, List, [], ◌∷◌, true, false, arith, ltb, ◌==◌,
  if◌then◌else◌, length, map, Bool-cases, inl, inr,
}
use sky_accel.Base.Run.{Run, ok, ◌>>=◌}
use sky_accel.Packet.Bytes.{Hops, hop_at}
use sky_accel.Packet.{Packet, SubPacket, header_size, parsed, parse, advance_raw_hop}
use sky_accel.Packet.Append.{encode, length-le-encode}
use sky_accel.Packet.Parse.{received, read_subs-encode}
use sky_accel.Packet.RoundTrip.{IsFrame, frame_bytes, parse_header-frame, parse-frame}
use sky_accel.Tunnel.{
  Action, dropped, submit, deliver, forward, Protocol, tcp, udp, task, handle_packet, handle_header,
  handle_request, handle_response, request_last, response_last, forward_raw, submit_parsed,
  deliver_parsed, response_hops, next_hop,
}

-- The addresses that a frame is forwarded to, and what the last node does with it.
pub travel : ℕ → List ℕ → Run (List ℕ × Action)
travel zero pkt = ok ([], dropped)
travel (suc n) pkt = do
  act ← handle_packet pkt
  elim act [
    | forward ip next ↦ (do r ← travel n next; ok (ip ∷ r.0, r.1))
    | dropped ↦ ok ([], dropped)
    | submit protocol tasks ↦ ok ([], submit protocol tasks)
    | deliver subs ↦ ok ([], deliver subs)
  ]

module _ (p : Packet) (subs : List SubPacket) (raw : List ℕ) (f : IsFrame p subs raw) where
  parse_returns : (q : Packet) × (parse raw (length raw) ≡ ok (parsed q (received subs)))
  parse_returns =
      let read =
        read_subs-encode subs (suc (length (encode subs))) f.fits
          (omega (arith, length-le-encode subs)) in
      let (q, e, _) =
        parse-frame p f.pad0 f.pad1 (encode subs) f.in_range f.announced
          (length (frame_bytes p f.pad0 f.pad1 (encode subs))) (received subs) (omega arith) read in
      (q, rw f.bytes e)

  handle-frame : handle_packet raw ≡ handle_header p.hop_pos p.hop_ip p.port p.protocol raw
  unfolding handle_packet
  handle-frame =
      let (q, e, s) = parse_header-frame p f.pad0 f.pad1 (encode subs) f.in_range f.announced in
      let at_raw = rw (← f.bytes) at e in
      let long : ltb (length raw) header_size ≡ false = rw f.bytes (ground arith) in
      rw (long, handle_packet) (rw at_raw (rw (s.position, s.hops, s.port, s.protocol)))

  -- A forwarded frame is the same one with the next hop position.
  advance-IsFrame :
      p.hop_pos < 3 → IsFrame (record p { hop_pos = p.hop_pos + 1 }) subs (advance_raw_hop raw)
  unfolding advance_raw_hop
  advance-IsFrame h = record {
    pad0 = f.pad0;
    pad1 = f.pad1;
    bytes = rw f.bytes (ground arith);
    in_range = record {
      hop0 = f.in_range.hop0;
      hop1 = f.in_range.hop1;
      hop2 = f.in_range.hop2;
      hop3 = f.in_range.hop3;
      payload_len = f.in_range.payload_len;
      port = f.in_range.port;
    };
    announced = f.announced;
    fits = f.fits;
  }

abbrev pub protocol_of : Packet → Protocol
protocol_of p = if p.protocol == 17 then udp else tcp

module _ (p : Packet) (subs : List SubPacket) (raw : List ℕ) (f : IsFrame p subs raw)
    (s : SubPacket) (ss : List SubPacket) (some_received : received subs ≡ s ∷ ss) where
  -- The last relay of a request.
  request_ends :
      (origin : ℕ)
      → p.port ≢ 0
      → request_last p.hop_pos p.hop_ip ≡ ok true
      → hop_at p.hop_ip (p.hop_pos + 1) ≡ ok origin
      → origin ≢ 0
      → handle_packet raw ≡ ok (submit (protocol_of p) (map (task p.hop_ip p.port origin) (s ∷ ss)))
  unfolding handle_header handle_request submit_parsed
  request_ends origin h last at nonzero =
      let (q, e) = parse_returns p subs raw f in
      rw (handle-frame p subs raw f) (ground (arith, last, e, at, some_received))

  response_ends :
      p.port ≡ 0
      → response_last p.hop_pos p.hop_ip ≡ ok true
      → handle_packet raw ≡ ok (deliver (s ∷ ss))
  unfolding handle_header handle_response deliver_parsed
  response_ends h last =
      let (q, e) = parse_returns p subs raw f in
      rw (handle-frame p subs raw f) (ground (arith, last, e, some_received))

  -- A relay that is not the last one.
  relays :
      (next : ℕ)
      → (p.port ≢ 0) × (request_last p.hop_pos p.hop_ip ≡ ok false)
        ⊎ (p.port ≡ 0) × (response_last p.hop_pos p.hop_ip ≡ ok false)
      → hop_at p.hop_ip ((p.hop_pos + 1) % 256) ≡ ok next
      → handle_packet raw ≡ ok (forward next (advance_raw_hop raw))
  unfolding handle_header handle_request handle_response forward_raw
  relays next h at = rw (handle-frame p subs raw f) (elim h [
    | inl (request, e) ↦ ground (arith, e, at)
    | inr (response, e) ↦ ground (arith, e, at)
  ])

-- A request frame with a port, hop position 1, a second address hop2 and at least one sub-packet
-- that the reader receives: over the relays hop1 and, if hop3 is set, hop2, its last relay submits
-- all received sub-packets for the origin, the last address, and no node panics.
pub request-reaches-origin :
    (p : Packet) (subs : List SubPacket) (raw : List ℕ) (s : SubPacket) (ss : List SubPacket)
    → IsFrame p subs raw
    → received subs ≡ s ∷ ss
    → p.hop_pos ≡ 1
    → p.port ≢ 0
    → p.hop_ip.hop2 ≢ 0
    → travel 2 raw ≡ (
        if p.hop_ip.hop3 == 0
        then ok ([], submit (protocol_of p) (map (task p.hop_ip p.port p.hop_ip.hop2) (s ∷ ss)))
        else ok (
          p.hop_ip.hop2 ∷ [],
          submit (protocol_of p) (map (task p.hop_ip p.port p.hop_ip.hop3) (s ∷ ss)),
        ))
unfolding travel request_last
request-reaches-origin p subs raw s ss f got pos port set = elim (Bool-cases (p.hop_ip.hop3 == 0)) [
  | inl e ↦
      let here =
        request_ends p subs raw f s ss got p.hop_ip.hop2 port (ground arith) (ground arith) set in
      rw (here, e)
  | inr e ↦
      let first =
        relays p subs raw f s ss got p.hop_ip.hop2 (inl (port, ground arith)) (ground arith) in
      let q = record p { hop_pos = p.hop_pos + 1 } in
      let second =
        request_ends q subs _ (advance-IsFrame p subs raw f (omega arith)) s ss got p.hop_ip.hop3
          port (ground arith) (ground arith) (ground arith) in
      rw (first, e) (rw second)
]

-- A response frame, with port 0, hop position 1 and at least one sub-packet that the reader
-- receives, goes on over hop2 and hop3 as far as these are set; its last relay hands all received
-- sub-packets to the waiting clients, and no node panics.
pub response-reaches-client :
    (p : Packet) (subs : List SubPacket) (raw : List ℕ) (s : SubPacket) (ss : List SubPacket)
    → IsFrame p subs raw
    → received subs ≡ s ∷ ss
    → p.hop_pos ≡ 1
    → p.port ≡ 0
    → travel 3 raw
      ≡ ok (
        (if p.hop_ip.hop2 == 0
            then []
            else if p.hop_ip.hop3 == 0
            then p.hop_ip.hop2 ∷ []
            else p.hop_ip.hop2 ∷ p.hop_ip.hop3 ∷ []),
        deliver (s ∷ ss),
      )
unfolding travel response_last
response-reaches-client p subs raw s ss f got pos port = elim (Bool-cases (p.hop_ip.hop2 == 0)) [
  | inl e ↦ rw (response_ends p subs raw f s ss got port (ground arith), e)
  | inr e ↦
      let first =
        relays p subs raw f s ss got p.hop_ip.hop2 (inr (port, ground arith)) (ground arith) in
      let q = record p { hop_pos = p.hop_pos + 1 } in
      let g = advance-IsFrame p subs raw f (omega arith) in
      rw (first, e)
        (elim (Bool-cases (p.hop_ip.hop3 == 0)) [
          | inl e' ↦ rw (response_ends q subs _ g s ss got port (ground arith), e')
          | inr e' ↦
              let second =
                relays q subs _ g s ss got p.hop_ip.hop3 (inr (port, ground arith))
                  (ground arith) in
              let third =
                response_ends (record q { hop_pos = q.hop_pos + 1 }) subs _
                  (advance-IsFrame q subs _ g (omega arith)) s ss got port (ground arith) in
              rw (second, e') (rw third)
        ])
]

-- For a request whose relays and origin are set, the way back is the relays in reverse, from the
-- last relay to the first, and its second address exists.
pub response_hops-reverse :
    (h : Hops)
    → h.hop0 ≢ 0
    → h.hop1 ≢ 0
    → h.hop2 ≢ 0
    → (response_hops h
        ≡ (if h.hop3 == 0 then h.hop1 ∷ h.hop0 ∷ [] else h.hop2 ∷ h.hop1 ∷ h.hop0 ∷ []))
      × (next_hop (response_hops h) ≡ ok (if h.hop3 == 0 then h.hop0 else h.hop1))
unfolding response_hops next_hop
response_hops-reverse h a b c = ground arith
