-- ===== src/TunnelManager.antt =====
-- data-proxy/tunnel-manager/tunnel-manager.go: one QUIC connection for each address. `Net` is what the
-- manager uses of net and quic-go: the text of an address with the port, the dial with the resolving
-- and the socket before it, and the streams of a connection. A connection is a number; the manager's
-- record lists also the addresses dialled, the connections closed and the data written, newest first.
pub mod Send
use sky_accel.Base.{ℕ, List, ◌∷◌, Option, none, some, Bool, if◌then◌else◌}
use sky_accel.Base.Keys.{lookup, insert, delete, string_eq}
use Prim.Native.String.{String}

pub record Net : Type 0 where
  pub join_host_port : List ℕ → String
  pub dial : String → Option ℕ
  pub open_uni_stream : ℕ → Bool
  pub write : ℕ → List ℕ → Bool

pub record TunnelManager : Type 0 where
  pub tunnels : List (String × ℕ)
  pub dialled : List String
  pub closed : List ℕ
  pub written : List (ℕ × List ℕ)

pub data SendResult : Type 0 where
  sent : SendResult
  nil_ip : SendResult
  no_tunnel : SendResult
  no_stream : SendResult
  no_write : SendResult

unfoldable pub get_or_create_tunnel : Net → String → TunnelManager → TunnelManager × Option ℕ
get_or_create_tunnel net addr m = elim (lookup addr m.tunnels) [
  | some conn ↦ (m, some conn)
  | none ↦
      let dialled = addr ∷ m.dialled in
      elim (net.dial addr) [
        | none ↦ (record m { dialled = dialled }, none)
        | some conn ↦
            (record m { tunnels = insert addr conn m.tunnels; dialled = dialled }, some conn)
      ]
]

unfoldable pub close_tunnel : String → TunnelManager → TunnelManager
close_tunnel addr m = elim (lookup addr m.tunnels) [
  | none ↦ m
  | some conn ↦ record m { tunnels = delete addr m.tunnels; closed = conn ∷ m.closed }
]

-- SendPacket behind GetOrCreateTunnel.
unfoldable pub send_on :
    Net → String → List ℕ → TunnelManager → Option ℕ → TunnelManager × SendResult
send_on net addr packet m none = (m, no_tunnel)
send_on net addr packet m (some conn) =
    if net.open_uni_stream conn
    then if net.write conn packet
      then (record m { written = (conn, packet) ∷ m.written }, sent)
      else (close_tunnel addr m, no_write)
    else (close_tunnel addr m, no_stream)

-- SendPacket: `none` is a nil address.
unfoldable pub send_packet :
    Net → Option (List ℕ) → List ℕ → TunnelManager → TunnelManager × SendResult
unfolding send_on get_or_create_tunnel
send_packet net none packet m = (m, nil_ip)
send_packet net (some ip) packet m =
    let addr = net.join_host_port ip in
    let r = get_or_create_tunnel net addr m in send_on net addr packet r.0 r.1
