-- ===== src/Request/Journey.antt =====
-- A small request and its response between the nodes: handleConnection's message is framed by the
-- aggregator, the relays pass it on to the origin's, and the response's frame comes back to the waiter.
use sky_accel.Base.{
  ℕ, ◌+◌, ◌<◌, ◌≡◌, ◌≢◌, refl, ◌∙◌, List, [], ◌∷◌, arith, ◌==◌, length, if◌then◌else◌,
}
use sky_accel.Base.Run.{Run, ok}
use sky_accel.Packet.{Packet, header_size}
use sky_accel.Packet.Bytes.{Hops}
use sky_accel.Aggregator.{AggregatorMsg, Config, Worker, handle_msg}
use sky_accel.Aggregator.Addresses.{word, addresses}
use sky_accel.Aggregator.Emerge.{sub_of, IsMsg, RoutedAs, emerge_message-IsFrame}
use sky_accel.Tunnel.{Action, submit, deliver, task, tcp}
use sky_accel.Packet.RoundTrip.{IsFrame}
use sky_accel.Packet.Parse.{received}
use sky_accel.Tunnel.Route.{travel, request-reaches-origin, response-reaches-client}

-- The way of three or four hops, without its ports.
abbrev pub way_of : List ℕ → List ℕ → List ℕ → ℕ → Hops
way_of a b c last = record { hop0 = word a; hop1 = word b; hop2 = word c; hop3 = last }

-- The hops of a message from the node `a` over one relay, or two, to its origin, all of them addresses
-- but 0.0.0.0: the addresses of the header, the origin, the addresses that relays forward to on the
-- way, and the nodes of the way back.
pub data IsWay : List (List ℕ) → Hops → ℕ → List ℕ → List ℕ → Type 0 where
  one_relay :
      (a b c : List ℕ)
      → word a ≢ 0
      → word b ≢ 0
      → word c ≢ 0
      → IsWay (a ∷ b ∷ c ∷ []) (way_of a b c 0) (word c) [] (word a ∷ [])
  two_relays :
      (a b c d : List ℕ)
      → word a ≢ 0
      → word b ≢ 0
      → word c ≢ 0
      → word d ≢ 0
      → IsWay
          (a ∷ b ∷ c ∷ d ∷ [])
          (way_of a b c (word d))
          (word d)
          (word c ∷ [])
          (word b ∷ word a ∷ [])

IsWay-addresses :
    (hops : List (List ℕ)) (h : Hops) (origin : ℕ) (relays back : List ℕ)
    → IsWay hops h origin relays back
    → addresses hops ≡ h
IsWay-addresses hops h origin relays back (one_relay a b c _ _ _) = refl
IsWay-addresses hops h origin relays back (two_relays a b c d _ _ _ _) = refl

IsWay-set :
    (hops : List (List ℕ)) (h : Hops) (origin : ℕ) (relays back : List ℕ)
    → IsWay hops h origin relays back
    → h.hop2 ≢ 0
IsWay-set hops h origin relays back (one_relay a b c _ _ set) = set
IsWay-set hops h origin relays back (two_relays a b c d _ _ set _) = set

IsWay-end :
    (hops : List (List ℕ)) (h : Hops) (origin : ℕ) (relays back : List ℕ) (act : ℕ → Action)
    → IsWay hops h origin relays back
    → if◌then◌else◌ {A = Run (List ℕ × Action)}
        (h.hop3 == 0)
        (ok ([], act h.hop2))
        (ok (h.hop2 ∷ [], act h.hop3))
      ≡ ok (relays, act origin)
IsWay-end hops h origin relays back act (one_relay a b c _ _ _) = refl
IsWay-end hops h origin relays back act (two_relays a b c d _ _ _ set) = ground (arith, set)

-- The addresses that a response is forwarded to behind the first one.
abbrev pub forwards_of : Hops → List ℕ
forwards_of h =
    if h.hop2 == 0 then [] else if h.hop3 == 0 then h.hop2 ∷ [] else h.hop2 ∷ h.hop3 ∷ []

-- A small message: handleMsg sends it at once, whatever waits, in a frame of its own.
module _ (cfg : Config) (now : ℕ) (w : Worker) (m : AggregatorMsg) (v : IsMsg m)
    (some_content : 0 < length m.content) (small : length m.content < 128) where
  handle_msg_small :
      (q : Packet) × (raw : List ℕ) × (handle_msg cfg now w m
        ≡ ok (w, record { p = raw; routing_key = m.routing_key; next = m.next_hop } ∷ []))
      × IsFrame q (sub_of m ∷ []) raw
      × RoutedAs m q
  unfolding handle_msg
  handle_msg_small =
      let size = header_size + 4 + 2 + length m.content in
      let (q, raw, e, f, r) = emerge_message-IsFrame m size v (omega arith) (omega arith) in
      (q, raw, ground (arith, e), f, r)

  received_sub : received (sub_of m ∷ []) ≡ sub_of m ∷ []
  received_sub = ground arith

  -- A TCP message of fewer than 128 bytes with a port, for one or two relays before its origin, is sent
  -- at once in a frame that the relays pass on; the last relay, and no other node, submits exactly this
  -- request for the origin's address, under the message's user id and with its content.
  pub handle_msg-travel :
      (h : Hops) (origin : ℕ) (relays back : List ℕ)
      → IsWay m.hops h origin relays back
      → m.protocol ≡ "tcp"
      → m.port ≢ 0
      → (raw : List ℕ) × (handle_msg cfg now w m
          ≡ ok (w, record { p = raw; routing_key = m.routing_key; next = m.next_hop } ∷ []))
        × (travel 2 raw ≡ ok (relays, submit tcp (task h m.port origin (sub_of m) ∷ [])))
  handle_msg-travel h origin relays back way protocol port =
      let (q, raw, e, f, r) = handle_msg_small in
      let hops : q.hop_ip ≡ h = r.hops ∙ IsWay-addresses m.hops h origin relays back way in
      let is_tcp : q.protocol ≡ 6 = rw protocol at r.protocol in
      let set : q.hop_ip.hop2 ≢ 0 = rw hops (IsWay-set m.hops h origin relays back way) in
      let arrives =
        request-reaches-origin q (sub_of m ∷ []) raw (sub_of m) [] f received_sub r.position
          (rw r.port port) set in
      (
        raw,
        e,
        arrives
            ∙ rw (hops, r.port, is_tcp)
                (IsWay-end m.hops h origin relays back
                  (λ o. submit tcp (task h m.port o (sub_of m) ∷ [])) way),
      )

  -- A response of fewer than 128 bytes, with port 0, is sent at once in a frame that the relays pass on;
  -- the last one hands exactly this response to its waiting client.
  pub handle_msg-deliver :
      (h : Hops)
      → addresses m.hops ≡ h
      → m.port ≡ 0
      → (raw : List ℕ) × (handle_msg cfg now w m
          ≡ ok (w, record { p = raw; routing_key = m.routing_key; next = m.next_hop } ∷ []))
        × (travel 3 raw ≡ ok (forwards_of h, deliver (sub_of m ∷ [])))
  handle_msg-deliver h hops port =
      let (q, raw, e, f, r) = handle_msg_small in
      let same : q.hop_ip ≡ h = r.hops ∙ hops in
      let arrives =
        response-reaches-client q (sub_of m ∷ []) raw (sub_of m) [] f received_sub r.position
          (r.port ∙ port) in
      (raw, e, rw same at arrives)
