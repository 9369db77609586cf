-- ===== src/Servers.antt =====
-- data-proxy/server/server-manager.go with StartServerWithMgr and StopServer of tcp-server.go and
-- udp-server.go: the ports on which the proxy listens. `listen` is net.Listen and net.ListenUDP, `close_ok`
-- whether a Close succeeds; a listener is a number. The port of a request is read by strconv.Atoi:
-- `none` stands for a text that is not a number. StartServerRun, the accept loop, is left out.
pub mod Ports
use sky_accel.Base.{ℕ, List, [], ◌∷◌, Option, none, some, Bool, true, false, if◌then◌else◌, map}
use sky_accel.Base.Keys.{lookup, insert, delete, nat_eq}
use sky_accel.Base.Run.{Run, ok, panic}

pub data Protocol : Type 0 where
  tcp : Protocol
  udp : Protocol
  other : Protocol

-- A net.Listener or a *net.UDPConn.
pub data Listener : Type 0 where
  tcp_listener : ℕ → Listener
  udp_conn : ℕ → Listener

pub record Servers : Type 0 where
  pub port_map : List (ℕ × Bool)
  pub listener_map : List (ℕ × Listener)

-- The answers of the handlers.
pub data Answer : Type 0 where
  done : Answer
  port_required : Answer
  invalid_port : Answer
  invalid_protocol : Answer
  already_started : Answer
  failed : Answer

-- `portMap[port]`
unfoldable pub is_started : ℕ → Servers → Bool
is_started port s = elim (lookup port s.port_map) [ none ↦ false | some b ↦ b ]

unfoldable pub start_server :
    (Protocol → ℕ → Option Listener) → Protocol → ℕ → Servers → Servers × Answer
start_server listen protocol port s = elim (listen protocol port) [
  | none ↦ (s, failed)
  | some listener ↦ (
    record {
      port_map = insert port true s.port_map;
      listener_map = insert port listener s.listener_map;
    },
    done,
  )
]

unfoldable pub remove_server : (Listener → Bool) → ℕ → Listener → Servers → Servers × Answer
remove_server close_ok port listener s = (
  record { port_map = delete port s.port_map; listener_map = delete port s.listener_map },
  if close_ok listener then done else failed,
)

-- StopServer of the TCP server: the assertion on a UDP connection panics.
unfoldable pub stop_tcp : (Listener → Bool) → ℕ → Servers → Run (Servers × Answer)
unfolding remove_server
stop_tcp close_ok port s = elim (lookup port s.listener_map) [
  | none ↦ ok (s, done)
  | some listener ↦ elim listener [
    | tcp_listener n ↦ ok (remove_server close_ok port (tcp_listener n) s)
    | udp_conn n ↦ panic
  ]
]

-- StopServer of the UDP server: a TCP listener is passed over.
unfoldable pub stop_udp : (Listener → Bool) → ℕ → Servers → Run (Servers × Answer)
unfolding remove_server
stop_udp close_ok port s = elim (lookup port s.listener_map) [
  | none ↦ ok (s, done)
  | some listener ↦ elim listener [
    | tcp_listener n ↦ ok (s, done)
    | udp_conn n ↦ ok (remove_server close_ok port (udp_conn n) s)
  ]
]

-- POST /tcp/start: `has_port` says that the query has a port.
unfoldable pub start :
    (Protocol → ℕ → Option Listener) → Bool → Option ℕ → Protocol → Servers → Servers × Answer
unfolding start_server is_started
start listen false port protocol s = (s, port_required)
start listen true none protocol s = (s, invalid_port)
start listen true (some port) other s = (s, invalid_protocol)
start listen true (some port) tcp s =
    if is_started port s then (s, already_started) else start_server listen tcp port s
start listen true (some port) udp s =
    if is_started port s then (s, already_started) else start_server listen udp port s

-- DELETE /tcp/stop
unfoldable pub stop :
    (Listener → Bool) → Bool → Option ℕ → Protocol → Servers → Run (Servers × Answer)
unfolding stop_tcp stop_udp
stop close_ok false port protocol s = ok (s, port_required)
stop close_ok true none protocol s = ok (s, invalid_port)
stop close_ok true (some port) other s = ok (s, invalid_protocol)
stop close_ok true (some port) tcp s = stop_tcp close_ok port s
stop close_ok true (some port) udp s = stop_udp close_ok port s

-- GET /tcp/list
unfoldable pub list_ports : Servers → List ℕ
list_ports s = map (λ r. r.0) s.port_map
