-- ===== src/BackSourcer/Reply.antt =====
-- The message of a response: its way is that of the request, backwards.
use sky_accel.Base.{
  ℕ, ◌^◌, ◌<◌, ◌≡◌, inl, inr, refl, ap, ◌∙◌, List, [], ◌∷◌, Option, some, false, arith, ◌==◌,
  length, map,
}
use sky_accel.Base.Run.{ok}
use Prim.Native.String.{String}
use sky_accel.Packet.Bytes.{Hops, uint32-be32, uint32_at}
use sky_accel.Util.{ip_string, uint32_to_ip, hop_ip_to_net}
use sky_accel.Util.Address.{hop_ip_to_net-uint32_to_ip}
use sky_accel.Util.Octets.{hop_ip_to_net-FourBytes}
use sky_accel.Tunnel.{BackSourceTask, response_hops, next_hop, deliver}
use sky_accel.Tunnel.Route.{travel, response_hops-reverse}
use sky_accel.Aggregator.{AggregatorMsg, Config, Worker, handle_msg}
use sky_accel.BackSourcer.{response_message, do_origin_request}
use sky_accel.Request.{join}
use sky_accel.Request.Journey.{
  way_of, IsWay, one_relay, two_relays, handle_msg-deliver, forwards_of,
}
use sky_accel.Aggregator.Addresses.{word, addresses}

word-lt : (text : List ℕ) → word text < 2 ^ 32
word-lt text = elim (hop_ip_to_net-FourBytes text) [
  | inl e ↦ rw e (omega arith)
  | inr (a, b, c, d, e, x, y, z, w) ↦ rw e (omega arith)
]

abbrev text_of : ℕ → List ℕ
text_of v = ip_string (uint32_to_ip v)

word-uint32_to_ip : (v : ℕ) → v < 2 ^ 32 → uint32_at (uint32_to_ip v) 0 ≡ v
unfolding uint32_to_ip
word-uint32_to_ip v h = uint32-be32 v h

word-text_of : (v : ℕ) → v < 2 ^ 32 → word (text_of v) ≡ v
word-text_of v h = ap (λ b. uint32_at b 0) (hop_ip_to_net-uint32_to_ip v h) ∙ word-uint32_to_ip v h

-- The way back of a request's header: the texts of its addresses, the next node, and the header that the
-- aggregator makes of them.
record Back (h : Hops) (back : List ℕ) : Type 0 where
  next : ℕ
  header : Hops
  at : next_hop (response_hops h) ≡ ok next
  words : addresses (map text_of (response_hops h)) ≡ header
  way : next ∷ forwards_of header ≡ back

IsWay-Back :
    (hops : List (List ℕ)) (h : Hops) (origin : ℕ) (relays back : List ℕ)
    → IsWay hops h origin relays back
    → Back h back
unfolding hop_ip_to_net
IsWay-Back hops h origin relays back (one_relay a b c x y z) =
    let (e, at) = response_hops-reverse (way_of a b c 0) x y z in
    record {
      next = word a;
      header = way_of (text_of (word b)) (text_of (word a)) [] 0;
      at = at;
      words = rw e refl;
      way = refl;
    }
IsWay-Back hops h origin relays back (two_relays a b c d x y z w) =
    let (e, at) = response_hops-reverse (way_of a b c (word d)) x y z in
    let far : (word d == 0) ≡ false = ground (arith, w) in
    let ends = word-text_of (word a) (word-lt a) in
    let near : (word a == 0) ≡ false = ground (arith, x) in
    record {
      next = word b;
      header = way_of (text_of (word c)) (text_of (word b)) (text_of (word a)) 0;
      at = at ∙ rw far refl;
      words = rw (e, far) refl;
      way = rw (ends, near) refl;
    }

-- The message of a response, whose next node is `next`.
abbrev pub reply_for : (List ℕ → String) → BackSourceTask → List ℕ → ℕ → AggregatorMsg
reply_for string_of t response next =
    let hop_strs = map text_of (response_hops t.hop_ip) in
    record {
      emerge = false;
      routing_key = string_of (join b',' hop_strs);
      protocol = "";
      port = 0;
      hops = hop_strs;
      next_hop = uint32_to_ip next;
      user_id = t.user_id;
      content = response;
    }

module _ (string_of : List ℕ → String) (t : BackSourceTask) (response : List ℕ)
    (some_content : 0 < length response) where
  do_origin_request-reply :
      (do_request : ℕ × ℕ → List ℕ → Option (List ℕ)) (next : ℕ)
      → do_request t.origin_addr t.req_data ≡ some response
      → next_hop (response_hops t.hop_ip) ≡ ok next
      → do_origin_request string_of do_request t ≡ ok (some (reply_for string_of t response next))
  unfolding do_origin_request response_message
  do_origin_request-reply do_request next answers at =
      let full : (length response == 0) ≡ false = ground arith in
      rw (answers, do_origin_request) (rw (full, response_message) (rw at refl))

  -- A response of fewer than 128 bytes to a task whose header is that of a way: it is sent at once, to the
  -- way's last relay, in a frame that goes back over the relays of the request; the first node, where the
  -- request came from, delivers it under the request's user id.
  pub do_origin_request-travel :
      (hops : List (List ℕ)) (origin : ℕ) (relays back : List ℕ)
      (do_request : ℕ × ℕ → List ℕ → Option (List ℕ)) (cfg : Config) (now : ℕ) (w : Worker)
      → IsWay hops t.hop_ip origin relays back
      → do_request t.origin_addr t.req_data ≡ some response
      → length response < 128
      → t.user_id < 2 ^ 32
      → (n : ℕ) × (forwards raw : List ℕ) × (do_origin_request string_of do_request t
          ≡ ok (some (reply_for string_of t response n)))
        × (handle_msg cfg now w (reply_for string_of t response n)
            ≡ ok (
              w,
              record {
                p = raw;
                routing_key = (reply_for string_of t response n).routing_key;
                next = uint32_to_ip n;
              }
                  ∷ [],
            ))
        × (travel 3 raw
            ≡ ok (forwards, deliver (record { user_id = t.user_id; content = response } ∷ [])))
        × (n ∷ forwards ≡ back)
  do_origin_request-travel hops origin relays back do_request cfg now w way answers small id =
      let b = IsWay-Back hops t.hop_ip origin relays back way in
      let reply = reply_for string_of t response b.next in
      let (raw, sent, arrives) =
        handle_msg-deliver cfg now w reply (record { user_id = id; port = omega arith })
          some_content small b.header b.words refl in
      (
        b.next,
        forwards_of b.header,
        raw,
        do_origin_request-reply do_request b.next answers b.at,
        sent,
        arrives,
        b.way,
      )
