-- ===== src/TunnelManager/Send.antt =====
-- What SendPacket leaves in the manager.
use sky_accel.Base.{
  ℕ, ◌≡◌, ◌≢◌, ◌⊎◌, inl, inr, refl, List, ◌∷◌, Option, none, some, arith, Bool-cases, Option-cases,
}
use sky_accel.Base.Keys.{lookup, lookup-insert, lookup-delete, same_refl, string_eq}
use Prim.Native.String.{String}
use sky_accel.TunnelManager.{
  Net, TunnelManager, SendResult, sent, get_or_create_tunnel, close_tunnel, send_on, send_packet,
}

closed_gone : (addr : String) (m : TunnelManager) → lookup addr (close_tunnel addr m).tunnels ≡ none
unfolding close_tunnel
closed_gone addr m = elim (Option-cases (lookup addr m.tunnels)) [
  | inl e ↦ rw (e, close_tunnel) e
  | inr (c, e) ↦ rw (e, close_tunnel) (rw (lookup-delete addr addr m.tunnels, same_refl addr) refl)
]

-- After GetOrCreateTunnel the address has the connection that it gives.
pub get_or_create_tunnel_kept :
    (net : Net) (addr : String) (m : TunnelManager)
    → lookup addr (get_or_create_tunnel net addr m).0.tunnels ≡ (get_or_create_tunnel net addr m).1
unfolding get_or_create_tunnel
get_or_create_tunnel_kept net addr m = elim (Option-cases (lookup addr m.tunnels)) [
  | inr (c, e) ↦ rw (e, get_or_create_tunnel) e
  | inl e ↦ elim (Option-cases (net.dial addr)) [
    | inl f ↦ rw (e, get_or_create_tunnel) (rw f e)
    | inr (c, f) ↦
        rw (e, get_or_create_tunnel)
          (rw f (rw (lookup-insert addr addr c m.tunnels, same_refl addr) refl))
  ]
]

-- What SendPacket leaves: data that was sent was written to the connection of the address, and after any error
-- the address has no connection.
abbrev pub IsSettled : String → List ℕ → TunnelManager × SendResult → Type 0
IsSettled addr packet r =
    ((r.1 ≡ sent)
      × (conn : ℕ) × (lookup addr r.0.tunnels ≡ some conn)
      × (older : List (ℕ × List ℕ)) × (r.0.written ≡ (conn, packet) ∷ older))
    ⊎ ((r.1 ≢ sent) × (lookup addr r.0.tunnels ≡ none))

send_on-IsSettled :
    (net : Net) (addr : String) (packet : List ℕ) (m : TunnelManager) (conn : Option ℕ)
    → lookup addr m.tunnels ≡ conn
    → IsSettled addr packet (send_on net addr packet m conn)
unfolding send_on
send_on-IsSettled net addr packet m none at = inr (λ e. cc, at)
send_on-IsSettled net addr packet m (some c) at = elim (Bool-cases (net.open_uni_stream c)) [
  | inr bad ↦ rw (bad, send_on) (inr (λ e. cc, closed_gone addr m))
  | inl good ↦ elim (Bool-cases (net.write c packet)) [
    | inr bad ↦ rw (good, send_on) (rw bad (inr (λ e. cc, closed_gone addr m)))
    | inl wrote ↦ rw (good, send_on) (rw wrote (inl (refl, c, at, m.written, refl)))
  ]
]

-- SendPacket for an address either writes the data to the connection that the address has behind it,
-- or fails, and then the address has no connection behind it: a broken one is never kept.
pub send_packet-IsSettled :
    (net : Net) (ip packet : List ℕ) (m : TunnelManager)
    → IsSettled (net.join_host_port ip) packet (send_packet net (some ip) packet m)
unfolding send_packet
send_packet-IsSettled net ip packet m =
    let addr = net.join_host_port ip in
    send_on-IsSettled net addr packet _ _ (get_or_create_tunnel_kept net addr m)

-- An address with a connection is not dialled.
pub send_packet_reuses :
    (net : Net) (ip packet : List ℕ) (m : TunnelManager) (conn : ℕ)
    → lookup (net.join_host_port ip) m.tunnels ≡ some conn
    → (send_packet net (some ip) packet m).0.dialled ≡ m.dialled
unfolding send_packet send_on get_or_create_tunnel close_tunnel
send_packet_reuses net ip packet m conn at = ground (arith, at)
