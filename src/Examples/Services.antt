-- ===== src/Examples/Services.antt =====
-- The connection pool, the tunnels, the waiters and the rate limiters of the data proxy, and the graph
-- of the control plane.
use sky_accel.Base.{
  ℕ, ◌+◌, ◌<◌, ◌≡◌, ◌≢◌, refl, [], ◌∷◌, Option, none, some, true, false, arith, length, get_elem?,
  All,
}
use sky_accel.Base.Keys.{lookup, nat_eq, string_eq}
use sky_accel.Base.Run.{ok}
use sky_accel.Pool.{TcpConnPool, get, put}
use sky_accel.Pool.Reuse.{get-put, IsTaken, take_conn-IsTaken}
use sky_accel.Pool.Bound.{IsBounded, got, start, next, Reachable-IsBounded}
use sky_accel.TunnelManager.{Net, TunnelManager, send_packet}
use sky_accel.TunnelManager.Send.{IsSettled, send_packet-IsSettled}
use sky_accel.Disaggregator.{Disaggregator, register, cleanup, deliver}
use sky_accel.Disaggregator.Waiters.{deliver-register, cleanup_takes_newer}
use sky_accel.RateLimiter.{GlobalRateLimiter}
use sky_accel.Graph.{NodeTelemetry, GraphManager, get_node, add_node, remove_node}
use sky_accel.Graph.Links.{IsGraph, add_node-IsGraph, remove_node-IsGraph}
use Prim.Native.String.{String}

abbrev pool : TcpConnPool
pool = record { pools = ("10.0.0.5:80", []) ∷ []; max_idle = 2; max_lifetime = 100 }

abbrev dial : String → Option ℕ
dial addr = some 9

get-put_example :
    (q : TcpConnPool) × (put 10 11 "10.0.0.5:80" (some 4) true pool ≡ (q, []))
    × (r : TcpConnPool) × (get dial (λ i. 60 + i) "10.0.0.5:80" q ≡ (r, some 4, []))
    × (lookup "10.0.0.5:80" r.pools ≡ some [])
unfolding lookup
get-put_example =
    get-put dial 10 11 (λ i. 60 + i) "10.0.0.5:80" 4 [] pool refl (omega arith) (omega arith)

take_conn-IsTaken_example :
    IsTaken 100
      (λ i. 150 + i)
      (record { conn = 1; created = 10; last_used = 10 }
        ∷ record { conn = 2; created = 90; last_used = 90 }
        ∷ [])
take_conn-IsTaken_example =
    take_conn-IsTaken 100 (λ i. 150 + i)
      (record { conn = 1; created = 10; last_used = 10 }
        ∷ record { conn = 2; created = 90; last_used = 90 }
        ∷ [])

abbrev unused : TcpConnPool
unused = record { pools = []; max_idle = 2; max_lifetime = 100 }

Reachable-IsBounded_example : IsBounded 2 100 (get dial (λ i. 5 + i) "10.0.0.5:80" unused).0
Reachable-IsBounded_example =
    Reachable-IsBounded 2 100 (get dial (λ i. 5 + i) "10.0.0.5:80" unused).0
      (next start (got dial (λ i. 5 + i) "10.0.0.5:80"))

-- A network on which a stream opens and the first write fails.
abbrev net : Net
net = record {
  join_host_port = λ ip. "10.0.0.2:4433";
  dial = λ addr. some 3;
  open_uni_stream = λ conn. true;
  write = λ conn packet. false;
}

abbrev manager : TunnelManager
manager = record { tunnels = ("10.0.0.2:4433", 3) ∷ []; dialled = []; closed = []; written = [] }

send_packet-IsSettled_example :
    IsSettled "10.0.0.2:4433"
      (1 ∷ [])
      (send_packet net (some (10 ∷ 0 ∷ 0 ∷ 2 ∷ [])) (1 ∷ []) manager)
send_packet-IsSettled_example = send_packet-IsSettled net (10 ∷ 0 ∷ 0 ∷ 2 ∷ []) (1 ∷ []) manager

abbrev waiters : Disaggregator
waiters = record { waiters = []; channels = [] }

deliver-register_example :
    (q : Disaggregator) × (deliver 7 (1 ∷ 2 ∷ []) (register 7 waiters).0 ≡ ok (some q))
    × (get_elem? q.channels (register 7 waiters).1
        ≡ some (record { buffer = some (1 ∷ 2 ∷ []); is_closed = false }))
    × ((ch : ℕ)
        → ch < length waiters.channels
        → get_elem? q.channels ch ≡ get_elem? waiters.channels ch)
deliver-register_example = deliver-register 7 (1 ∷ 2 ∷ []) waiters

cleanup_takes_newer_example :
    let first = register 7 waiters in
    let second = register 7 first.0 in
    (q : Disaggregator) × (cleanup 7 first.1 second.0 ≡ ok q)
    × (lookup 7 q.waiters ≡ none)
    × (deliver 7 (1 ∷ []) q ≡ ok (some q))
cleanup_takes_newer_example = cleanup_takes_newer 7 (1 ∷ []) waiters

abbrev limiters : GlobalRateLimiter ℕ
limiters = record { port_limiters = [] }

-- A node with a link to itself and one to an origin, in a graph that has no other.
abbrev node : NodeTelemetry ℕ
node = record {
  public_ip = "10.0.0.2";
  cpu_pressure = 40;
  links_congestion =
      record {
        target_type = "source";
        target_ip = "10.0.0.5";
        target_port = "80";
        packet_loss = 0;
        average_latency = 30;
      }
      ∷ record {
        target_type = "node";
        target_ip = "10.0.0.2";
        target_port = "0";
        packet_loss = 0;
        average_latency = 1;
      }
      ∷ [];
}

abbrev graph : GraphManager ℕ
graph = record { edges = []; nodes = [] }

abbrev risk : ℕ → ℕ → ℕ → ℕ
risk cpu loss latency = cpu + latency

add_node-IsGraph_example : IsGraph (add_node risk 0 node graph)
add_node-IsGraph_example = add_node-IsGraph risk 0 node graph tt

remove_node-IsGraph_example :
    IsGraph (remove_node "10.0.0.2" (add_node risk 0 node graph))
    × (get_node "10.0.0.2" (remove_node "10.0.0.2" (add_node risk 0 node graph)) ≡ none)
    × All
        (λ r. (r.1.source_ip ≢ "10.0.0.2") × (r.1.destination_ip ≢ "10.0.0.2"))
        (remove_node "10.0.0.2" (add_node risk 0 node graph)).edges
remove_node-IsGraph_example =
    remove_node-IsGraph "10.0.0.2" (add_node risk 0 node graph)
      (add_node-IsGraph risk 0 node graph tt)
