-- ===== src/Examples/Requests.antt =====
-- A proxy at 10.0.0.1 with a request over the relay 10.0.0.2 to the origin 10.0.0.3:80.
use sky_accel.Base.{ℕ, ◌≤◌, ◌≡◌, ◌≢◌, ◌⊎◌, refl, List, [], ◌∷◌, none, some, true, false, arith, All}
use sky_accel.Base.Keys.{lookup, nat_eq, string_eq}
use sky_accel.Base.Run.{ok}
use Prim.Native.String.{String}
use sky_accel.Util.{octet_digit, uint32_to_ip, hop_ip_to_net, octets}
use sky_accel.Aggregator.{Config, Worker, handle_msg}
use sky_accel.Tunnel.{BackSourceTask, submit, deliver, task, tcp}
use sky_accel.Tunnel.Route.{travel}
use sky_accel.BackSourcer.{do_origin_request}
use sky_accel.BackSourcer.Reply.{reply_for}
use sky_accel.Request.{
  parse_digits, PathInfo, choose_path, find_path, parse_port, store_route, choose_route,
}
use sky_accel.Request.Choice.{IsShort, IsFirstLong, choose_path-first}
use sky_accel.Request.Cache.{choose_route-store_route}
use sky_accel.Request.Connection.{Proxy, Client, Turn, route_of, serve_tcp, read_line}
use sky_accel.Request.Lines.{read_line_loses}
use sky_accel.Request.Journey.{one_relay, way_of}
use sky_accel.Aggregator.Addresses.{word}
use sky_accel.Request.Arrival.{hand_over, last_address}
use sky_accel.Request.Answer.{origin_path, request_for, serve_tcp_answers}
use sky_accel.Request.Admission.{
  Conns, TcpServer, admit, accepts, here, step, IsBounded, places, Reaches-IsBounded,
}

abbrev proxy_text : List ℕ
proxy_text = b'1' ∷ b'0' ∷ b'.' ∷ b'0' ∷ b'.' ∷ b'0' ∷ b'.' ∷ b'1' ∷ []

abbrev relay_text : List ℕ
relay_text = b'1' ∷ b'0' ∷ b'.' ∷ b'0' ∷ b'.' ∷ b'0' ∷ b'.' ∷ b'2' ∷ []

abbrev origin_text : List ℕ
origin_text = b'1' ∷ b'0' ∷ b'.' ∷ b'0' ∷ b'.' ∷ b'0' ∷ b'.' ∷ b'3' ∷ []

abbrev port_text : List ℕ
port_text = b'8' ∷ b'0' ∷ []

abbrev key_of : List ℕ → String
key_of text = "10.0.0.1,10.0.0.2,10.0.0.3"

abbrev fetch : ℕ → List PathInfo
fetch port = origin_path proxy_text relay_text [] origin_text port_text ∷ []

abbrev proxy : Proxy
proxy = record {
  routes = [];
  waiting = record { waiters = []; channels = [] };
  req_seq = 0;
  access_log = [];
  batched = [];
}

abbrev client : Client
client = record { ip = "192.0.2.7"; ip_bytes = 192 ∷ 0 ∷ 2 ∷ 7 ∷ [] }

abbrev cfg : Config
cfg = record { buffer_size = 4096; batch_timeout = 50; batch_num = λ port. none }

abbrev worker : Worker
worker = record { batches = []; heap = []; store = [] }

abbrev asked : List ℕ
asked = 104 ∷ 105 ∷ 10 ∷ []

abbrev answered : List ℕ
answered = 111 ∷ 107 ∷ 10 ∷ []

abbrev asked_task : BackSourceTask
asked_task =
    task (way_of proxy_text relay_text origin_text 0) 80 (word origin_text)
      (record { user_id = 7; content = asked })

serve_tcp_answers_example :
    let m = request_for key_of false "tcp" proxy_text relay_text [] origin_text port_text 7 asked in
    (raw reply_raw forwards : List ℕ) × (n : ℕ) × (s' : Proxy) × (handle_msg cfg 0 worker m
      ≡ ok (worker, record { p = raw; routing_key = m.routing_key; next = m.next_hop } ∷ []))
    × (travel 2 raw ≡ ok ([], submit tcp (asked_task ∷ [])))
    × (do_origin_request key_of (λ addr content. some answered) asked_task
        ≡ ok (some (reply_for key_of asked_task answered n)))
    × (handle_msg cfg 0 worker (reply_for key_of asked_task answered n)
        ≡ ok (
          worker,
          record {
            p = reply_raw;
            routing_key = (reply_for key_of asked_task answered n).routing_key;
            next = uint32_to_ip n;
          }
              ∷ [],
        ))
    × (travel 3 reply_raw
        ≡ ok (forwards, deliver (record { user_id = 7; content = answered } ∷ [])))
    × (n ∷ forwards ≡ word proxy_text ∷ [])
    × (last_address (n ∷ forwards) ≡ word proxy_text)
    × (serve_tcp key_of fetch 443 client
          (record {
            now = 5;
            has_rtt = true;
            meanwhile = hand_over (word proxy_text) n reply_raw;
            end = 9;
          })
          7
          asked
          proxy
        ≡ ok (s', some answered, true))
    × (lookup 7 s'.waiting.waiters ≡ none)
    × (s'.batched ≡ m ∷ [])
unfolding parse_port parse_digits hop_ip_to_net octets octet_digit choose_path find_path
    choose_route route_of lookup
serve_tcp_answers_example =
    serve_tcp_answers key_of proxy_text relay_text [] origin_text port_text (ground arith)
      (ground arith) (ground arith) (way_of proxy_text relay_text origin_text 0) (word origin_text)
      [] (word proxy_text ∷ [])
      (one_relay proxy_text relay_text origin_text (ground arith) (ground arith) (ground arith))
      (ground arith) fetch 443 client 5 9 true 7 asked answered proxy cfg 0 worker
      (λ addr content. some answered) refl (omega arith) (omega arith) (omega arith) refl
      (omega arith) (omega arith)

-- Two paths without a relay, and one with a relay.
abbrev direct_path : PathInfo
direct_path = record { hops = proxy_text ∷ origin_text ∷ [] }

abbrev relayed_path : PathInfo
relayed_path = record { hops = proxy_text ∷ relay_text ∷ origin_text ∷ [] }

choose_path-first_example :
    ((q : PathInfo) × (choose_path (direct_path ∷ relayed_path ∷ []) ≡ some q)
      × IsFirstLong (direct_path ∷ relayed_path ∷ []) q)
    ⊎ ((choose_path (direct_path ∷ relayed_path ∷ []) ≡ some direct_path)
        × All IsShort (direct_path ∷ relayed_path ∷ []))
choose_path-first_example = choose_path-first direct_path (relayed_path ∷ [])

choose_route-store_route_example :
    let stored = store_route fetch 5 443 [] in
    (choose_route (λ port. []) 2000 443 stored ≡ (stored, fetch 443, true))
    × ((other : ℕ) → 443 ≢ other → lookup other stored ≡ lookup other [])
choose_route-store_route_example = choose_route-store_route fetch (λ port. []) 5 2000 443 []

read_line_loses_example :
    read_line ((104 ∷ []) ∷ (105 ∷ 10 ∷ 106 ∷ 10 ∷ []) ∷ []) ≡ some (104 ∷ 105 ∷ 10 ∷ [], [])
read_line_loses_example =
    read_line_loses ((104 ∷ []) ∷ []) (105 ∷ []) (106 ∷ 10 ∷ []) [] (ground arith) (ground arith)

abbrev quiet : ℕ → Turn
quiet i = record { now = i; has_rtt = false; meanwhile = ok; end = i }

-- A server that has accepted one connection.
abbrev short_server : TcpServer
short_server = record { keep_alive = false; keep_alive_time = 30000 }

abbrev no_conns : Conns
no_conns = record { queue = []; working = []; long = []; refused = []; finished = [] }

Reaches-IsBounded_example :
    IsBounded 4 (admit short_server 1 no_conns)
    × ((c : ℕ) → places c no_conns ≤ places c (admit short_server 1 no_conns))
Reaches-IsBounded_example =
    Reaches-IsBounded 4 no_conns (admit short_server 1 no_conns)
      (step no_conns no_conns (admit short_server 1 no_conns) (here no_conns)
        (accepts short_server 1 no_conns))
      (record { queue = omega arith; working = omega arith; long = omega arith })
