-- ===== src/Examples/Routes.antt =====
-- The servers of the data proxy.
use sky_accel.Base.{ℕ, ◌≡◌, refl, [], Option, none, some, true, false}
use sky_accel.Base.Keys.{lookup, insert, nat_eq, string_eq}
use sky_accel.Base.Run.{ok}
use sky_accel.Servers.{
  Protocol, tcp, udp, other, Listener, tcp_listener, udp_conn, Servers, Answer, is_started,
  start_server, start, stop,
}
use sky_accel.Servers.Ports.{IsAgreed, start-IsAgreed, stop-IsAgreed}

-- A proxy with a TCP server on port 443 and a UDP server on port 53.
abbrev listen : Protocol → ℕ → Option Listener
listen tcp port = some (tcp_listener 1)
listen udp port = some (udp_conn 2)
listen other port = none

abbrev stopped : Servers
stopped = record { port_map = []; listener_map = [] }

abbrev servers : Servers
servers = (start listen true (some 53) udp (start listen true (some 443) tcp stopped).0).0

stopped-IsAgreed : IsAgreed stopped
unfolding is_started lookup
stopped-IsAgreed = λ port. refl

servers-IsAgreed : IsAgreed servers
servers-IsAgreed =
    start-IsAgreed (start listen true (some 443) tcp stopped).0
      (start-IsAgreed stopped stopped-IsAgreed listen true (some 443) tcp) listen true (some 53) udp

start-IsAgreed_example : IsAgreed (start listen true (some 443) tcp stopped).0
start-IsAgreed_example = start-IsAgreed stopped stopped-IsAgreed listen true (some 443) tcp

stop-IsAgreed_example :
    (is_started 53 servers ≡ true)
    × (t : Servers) × (a : Answer) × (stop (λ l. true) true (some 53) udp servers ≡ ok (t, a))
    × IsAgreed t
    × (is_started 53 t ≡ false)
unfolding start start_server is_started lookup insert
stop-IsAgreed_example = stop-IsAgreed servers servers-IsAgreed (λ l. true) 53 (udp_conn 2) refl
