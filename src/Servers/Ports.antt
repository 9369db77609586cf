-- ===== src/Servers/Ports.antt =====
-- The map of ports and the map of listeners, behind the handlers that start and stop a server.
use sky_accel.Base.{
  ℕ, ◌≡◌, inl, inr, refl, ◌∙◌, Option, none, some, Bool, true, false, Bool-cases, Option-cases,
}
use sky_accel.Base.Keys.{lookup, lookup-insert, lookup-delete, same_refl, same, nat_eq}
use sky_accel.Base.Run.{ok}
use sky_accel.Servers.{
  Protocol, tcp, udp, other, Listener, tcp_listener, udp_conn, Servers, Answer, is_started,
  start_server, remove_server, stop_tcp, stop_udp, start, stop,
}

-- The started ports are those with a listener.
abbrev pub IsAgreed : Servers → Type 0
IsAgreed s =
    (port : ℕ)
    → is_started port s ≡ elim (lookup port s.listener_map) [ none ↦ false | some l ↦ true ]

-- The protocol by which a listener is started.
abbrev pub protocol_of : Listener → Protocol
protocol_of (tcp_listener n) = tcp
protocol_of (udp_conn n) = udp

module _ (s : Servers) (h : IsAgreed s) where
  start_server-IsAgreed :
      (listen : Protocol → ℕ → Option Listener) (protocol : Protocol) (port : ℕ)
      → IsAgreed (start_server listen protocol port s).0
  unfolding start_server is_started
  start_server-IsAgreed listen protocol port = elim (Option-cases (listen protocol port)) [
    | inl e ↦ rw (e, start_server) h
    | inr (l, e) ↦
        rw (e, start_server)
          (λ p.
            rw
              (
                is_started,
                lookup-insert port p true s.port_map,
                lookup-insert port p l s.listener_map,
              )
              (elim (Bool-cases (same port p)) [
                | inl here ↦ rw here refl
                | inr there ↦ rw there (unfold is_started in h p)
              ]))
  ]

  remove_server-IsAgreed :
      (close_ok : Listener → Bool) (port : ℕ) (listener : Listener)
      → IsAgreed (remove_server close_ok port listener s).0
  unfolding remove_server is_started
  remove_server-IsAgreed close_ok port listener = λ p.
      rw
        (
          is_started,
          remove_server,
          lookup-delete port p s.port_map,
          lookup-delete port p s.listener_map,
        )
        (elim (Bool-cases (same port p)) [
          | inl here ↦ rw here refl
          | inr there ↦ rw there (unfold is_started in h p)
        ])

  -- The handler that starts a server keeps the maps agreed, on every request.
  pub start-IsAgreed :
      (listen : Protocol → ℕ → Option Listener) (has_port : Bool) (port : Option ℕ)
      (protocol : Protocol)
      → IsAgreed (start listen has_port port protocol s).0
  unfolding start
  start-IsAgreed listen false port protocol = h
  start-IsAgreed listen true none protocol = h
  start-IsAgreed listen true (some port) other = h
  start-IsAgreed listen true (some port) tcp = elim (Bool-cases (is_started port s)) [
    | inl old ↦ rw (old, start) h
    | inr free ↦ rw (free, start) (start_server-IsAgreed listen tcp port)
  ]
  start-IsAgreed listen true (some port) udp = elim (Bool-cases (is_started port s)) [
    | inl old ↦ rw (old, start) h
    | inr free ↦ rw (free, start) (start_server-IsAgreed listen udp port)
  ]

  stop-removes :
      (close_ok : Listener → Bool) (port : ℕ) (listener : Listener)
      → lookup port s.listener_map ≡ some listener
      → stop close_ok true (some port) (protocol_of listener) s
        ≡ ok (remove_server close_ok port listener s)
  unfolding stop stop_tcp stop_udp
  stop-removes close_ok port (tcp_listener n) at = rw (at, stop, stop_tcp)
  stop-removes close_ok port (udp_conn n) at = rw (at, stop, stop_udp)

  -- While the maps agree, a port that has a listener is started, stopping it by the listener's protocol
  -- keeps the maps agreed, and behind that the port is not started.
  pub stop-IsAgreed :
      (close_ok : Listener → Bool) (port : ℕ) (listener : Listener)
      → lookup port s.listener_map ≡ some listener
      → (is_started port s ≡ true)
        × (t : Servers) × (a : Answer) × (stop close_ok true (some port) (protocol_of listener) s
            ≡ ok (t, a))
        × IsAgreed t
        × (is_started port t ≡ false)
  unfolding stop is_started
  stop-IsAgreed close_ok port listener at =
      let r = remove_server close_ok port listener s in
      let agreed = remove_server-IsAgreed close_ok port listener in
      (
        h port ∙ rw at refl,
        r.0,
        r.1,
        stop-removes close_ok port listener at,
        agreed,
        rw (is_started, remove_server, lookup-delete port port s.port_map, same_refl port) refl,
      )
