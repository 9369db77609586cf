-- ===== src/Request/Answer.antt =====
-- handleConnection from the client's line to the response that is written, over the aggregator, the
-- relays and the disaggregator.
use sky_accel.Base.{
  ℕ, ◌%◌, ◌^◌, ◌<◌, ◌≡◌, ◌≢◌, refl, ap, ◌∙◌, List, [], ◌∷◌, ◌++◌, Option, none, some, Bool, true,
  false, arith, length, All,
}
use sky_accel.Base.Keys.{lookup, nat_eq}
use sky_accel.Base.Run.{ok, ◌>>=◌}
use Prim.Native.String.{String}
use sky_accel.Packet.Bytes.{Hops}
use sky_accel.Util.{hop_ip_to_net}
use sky_accel.Disaggregator.{register}
use sky_accel.Aggregator.{AggregatorMsg, Config, Worker, handle_msg}
use sky_accel.Aggregator.Emerge.{sub_of, IsMsg}
use sky_accel.BackSourcer.{do_origin_request}
use sky_accel.BackSourcer.Reply.{reply_for, do_origin_request-travel}
use sky_accel.Util.{uint32_to_ip}
use sky_accel.Tunnel.{task, submit, deliver, tcp}
use sky_accel.Tunnel.Route.{travel}
use sky_accel.Request.{PathInfo, choose_path, message_for, parse_port, join}
use sky_accel.Request.Choice.{Free, strip_hops-origin, parse_port-le}
use sky_accel.Request.Connection.{
  Proxy, Client, Turn, waits, route_of, submit_request, begin_tcp, log_access, serve_tcp,
}
use sky_accel.Aggregator.Addresses.{word}
use sky_accel.Request.Journey.{IsWay, handle_msg-travel}
use sky_accel.Request.Arrival.{
  hand_over, last_address, last_address-back, log_access-kept, route_of-log_access, serve_tcp-got,
}

-- A path over `a`, `b` and the relays of `rest` to the origin, whose port is the text.
abbrev pub origin_path : List ℕ → List ℕ → List (List ℕ) → List ℕ → List ℕ → PathInfo
origin_path a b rest origin text = record { hops = (a ∷ b ∷ rest) ++ (origin ++ b':' ∷ text) ∷ [] }

-- The message that a request for this path becomes.
abbrev pub request_for :
    (List ℕ → String)
    → Bool
    → String
    → List ℕ
    → List ℕ
    → List (List ℕ)
    → List ℕ
    → List ℕ
    → ℕ
    → List ℕ
    → AggregatorMsg
request_for string_of emerge protocol a b rest origin text user_id content = record {
  emerge = emerge;
  routing_key = string_of (join b',' ((a ∷ b ∷ rest) ++ origin ∷ []));
  protocol = protocol;
  port = parse_port text;
  hops = (a ∷ b ∷ rest) ++ origin ∷ [];
  next_hop = hop_ip_to_net b;
  user_id = user_id;
  content = content;
}

module _ (string_of : List ℕ → String) (a b : List ℕ) (rest : List (List ℕ)) (origin text : List ℕ)
    (plain : All (Free b':') (a ∷ b ∷ rest)) (host : Free b':' origin)
    (digits : Free b':' text) where
  message_for-origin_path :
      (emerge : Bool) (protocol : String) (user_id : ℕ) (content : List ℕ)
      → message_for string_of emerge protocol (origin_path a b rest origin text) user_id content
        ≡ ok (request_for string_of emerge protocol a b rest origin text user_id content)
  unfolding message_for
  message_for-origin_path emerge protocol user_id content =
      let stripped = strip_hops-origin (a ∷ b ∷ rest) [] origin text plain host digits in
      let port : parse_port text % 2 ^ 16 ≡ parse_port text = omega (arith, parse_port-le text) in
      ap
        (λ r. ok (record {
          emerge = emerge;
          routing_key = string_of (join b',' r.0);
          protocol = protocol;
          port = parse_port r.1 % 2 ^ 16;
          hops = r.0;
          next_hop = hop_ip_to_net b;
          user_id = user_id;
          content = content;
        }))
        stripped
      ∙ ap
          (λ p.
            ok
              (record (request_for string_of emerge protocol a b rest origin text user_id content) {
                port = p;
              }))
          port

  module _ (fetch : ℕ → List PathInfo) (now port user_id : ℕ) (content : List ℕ) (s : Proxy)
      (chosen : choose_path (route_of string_of fetch now port s).1
        ≡ some (origin_path a b rest origin text)) where
    -- The proxy behind the start of the request.
    abbrev pub begun : Proxy
    begun = record (route_of string_of fetch now port s).0 {
      waiting = (register user_id s.waiting).0;
      batched =
          s.batched ++ request_for string_of false "tcp" a b rest origin text user_id content ∷ [];
    }

    submitted :
        submit_request string_of fetch now port false "tcp"
          (origin_path a b rest origin text)
          user_id
          content
          (route_of string_of fetch now port s).0
        ≡ ok (begun, waits (register user_id s.waiting).1)
    unfolding submit_request route_of
    submitted =
        let r = (route_of string_of fetch now port s).0 in
        let registered = register user_id s.waiting in
        ap
          (λ found. found >>= (λ m. ok (
            record r { waiting = registered.0; batched = s.batched ++ m ∷ [] },
            waits registered.1,
          )))
          (message_for-origin_path false "tcp" user_id content)

    begin_tcp-waits :
        begin_tcp string_of fetch now port user_id content s
        ≡ ok (begun, waits (register user_id s.waiting).1)
    unfolding begin_tcp
    begin_tcp-waits = rw (chosen, begin_tcp) submitted

module _ (string_of : List ℕ → String) (a b : List ℕ) (rest : List (List ℕ)) (origin text : List ℕ)
    (plain : All (Free b':') (a ∷ b ∷ rest)) (host : Free b':' origin) (digits : Free b':' text)
    (h : Hops) (o : ℕ) (relays back : List ℕ)
    (way : IsWay ((a ∷ b ∷ rest) ++ origin ∷ []) h o relays back) (set : parse_port text ≢ 0) where
  -- A TCP request of fewer than 128 bytes on a connection whose path leads over one or two relays to an
  -- origin with a port, and whose origin answers with a response of fewer than 128 bytes, not empty. The
  -- handler registers the request and batches one message; the aggregator sends it at once; the relays
  -- pass the frame on, and the last one submits the request for the origin. The response's message is
  -- sent at once, and its frame goes back over the same relays to the proxy's address, where it delivers
  -- the response under the request's user id. With that frame arriving during its wait, and with any state
  -- of the aggregators, the handler writes exactly the origin's response and removes its waiter, without a
  -- panic.
  pub serve_tcp_answers :
      (fetch : ℕ → List PathInfo) (port : ℕ) (client : Client) (now end : ℕ) (has_rtt : Bool)
      (user_id : ℕ) (content response : List ℕ) (s : Proxy) (cfg : Config) (sent_at : ℕ)
      (w : Worker) (do_request : ℕ × ℕ → List ℕ → Option (List ℕ))
      → choose_path (route_of string_of fetch now port s).1
        ≡ some (origin_path a b rest origin text)
      → user_id < 2 ^ 32
      → 0 < length content
      → length content < 128
      → do_request (o, parse_port text) content ≡ some response
      → 0 < length response
      → length response < 128
      → let m = request_for string_of false "tcp" a b rest origin text user_id content in
        let t = task h (parse_port text) o (sub_of m) in
        (raw reply_raw forwards : List ℕ) × (n : ℕ) × (s' : Proxy) × (handle_msg cfg sent_at w m
          ≡ ok (w, record { p = raw; routing_key = m.routing_key; next = m.next_hop } ∷ []))
        × (travel 2 raw ≡ ok (relays, submit tcp (t ∷ [])))
        × (do_origin_request string_of do_request t ≡ ok (some (reply_for string_of t response n)))
        × (handle_msg cfg sent_at w (reply_for string_of t response n)
            ≡ ok (
              w,
              record {
                p = reply_raw;
                routing_key = (reply_for string_of t response n).routing_key;
                next = uint32_to_ip n;
              }
                  ∷ [],
            ))
        × (travel 3 reply_raw
            ≡ ok (forwards, deliver (record { user_id = user_id; content = response } ∷ [])))
        × (n ∷ forwards ≡ back)
        × (last_address (n ∷ forwards) ≡ word a)
        × (serve_tcp string_of fetch port client
              (record {
                now = now;
                has_rtt = has_rtt;
                meanwhile = hand_over (word a) n reply_raw;
                end = end;
              })
              user_id
              content
              s
            ≡ ok (s', some response, true))
        × (lookup user_id s'.waiting.waiters ≡ none)
        × (s'.batched ≡ s.batched ++ m ∷ [])
  serve_tcp_answers fetch port client now end has_rtt user_id content response s cfg sent_at w
        do_request chosen id full small answers full' small' =
      let m = request_for string_of false "tcp" a b rest origin text user_id content in
      let v : IsMsg m = record { user_id = id; port = omega (arith, parse_port-le text) } in
      let (raw, sent, arrives) =
        handle_msg-travel cfg sent_at w m v full small h o relays back way refl set in
      let t = task h (parse_port text) o (sub_of m) in
      let (n, forwards, reply_raw, asked, replied, returns, is_back) =
        do_origin_request-travel string_of t response full' ((a ∷ b ∷ rest) ++ origin ∷ []) o relays
          back do_request cfg sent_at w way answers small' id in
      let turn : Turn = record {
        now = now;
        has_rtt = has_rtt;
        meanwhile = hand_over (word a) n reply_raw;
        end = end;
      } in
      let s1 = log_access client turn s in
      let kept = log_access-kept string_of fetch port client s turn in
      let chosen' : choose_path (route_of string_of fetch now port s1).1
          ≡ some (origin_path a b rest origin text) =
        ap choose_path (route_of-log_access string_of fetch port client s turn) ∙ chosen in
      let started =
        begin_tcp-waits string_of a b rest origin text plain host digits fetch now port user_id
          content s1 chosen' in
      let start =
        begun string_of a b rest origin text plain host digits fetch now port user_id content s1
          chosen' in
      let ends : last_address (n ∷ forwards) ≡ word a =
        ap last_address is_back
        ∙ last_address-back ((a ∷ b ∷ rest) ++ origin ∷ []) h o relays back way in
      let (s', served, gone, batched) =
        serve_tcp-got string_of fetch port client s turn user_id (word a) n content response
          reply_raw forwards start started refl refl returns ends in
      (
        raw,
        reply_raw,
        forwards,
        n,
        s',
        sent,
        arrives,
        asked,
        replied,
        returns,
        is_back,
        ends,
        served,
        gone,
        batched ∙ ap (λ l. l ++ m ∷ []) kept.2,
      )
