-- ===== src/Request/Connection.antt =====
-- handleConnection and handleConnectionKeepAlive of data-proxy/server/tcp-server.go, handleUDPConnection
-- of udp-server.go. A handler is two parts, up to the wait and behind it; `meanwhile` is what other
-- goroutines do to the proxy during the wait, which ends without a response at its timeout. A connection
-- is the list of the chunks that its Read calls give; each request is read with a new bufio.Reader.
use sky_accel.Base.{
  ℕ, zero, suc, ◌-◌, List, [], ◌∷◌, ◌++◌, Option, none, some, Bool, true, false, ltb, leb, ◌==◌,
  if◌then◌else◌, length, get_elem?, set,
}
use sky_accel.Base.Keys.{lookup, insert, nat_eq, string_eq}
use sky_accel.Base.Run.{Run, ok, panic, ◌>>=◌}
use sky_accel.Util.{gen_short_req_id}
use sky_accel.Aggregator.{AggregatorMsg}
use sky_accel.Disaggregator.{Disaggregator, register, cleanup}
use sky_accel.Request.{PathInfo, RouteEntry, choose_route, choose_path, message_for}
use Prim.Native.String.{String}

-- The state that the handlers share: the map of routes, the waiters, the counter of request ids, the
-- access log's times, and the messages that AddToBatch took.
pub record Proxy : Type 0 where
  pub routes : List (ℕ × RouteEntry)
  pub waiting : Disaggregator
  pub req_seq : ℕ
  pub access_log : List (String × ℕ)
  pub batched : List AggregatorMsg

-- A client: its address as text and as bytes.
pub record Client : Type 0 where
  pub ip : String
  pub ip_bytes : List ℕ

abbrev pub access_window : ℕ
access_window = 5000

-- shouldLogAccess
unfoldable pub should_log_access : String → ℕ → List (String × ℕ) → List (String × ℕ) × Bool
should_log_access ip now log = elim (lookup ip log) [
  | none ↦ (insert ip now log, true)
  | some last ↦ if leb access_window (now - last) then (insert ip now log, true) else (log, false)
]

-- What a handler does behind the wait.
pub data WaitResult : Type 0 where
  got : List ℕ → WaitResult
  wait_closed : WaitResult
  timed_out : WaitResult

-- The end of the wait on a channel.
unfoldable pub receive_response : ℕ → Disaggregator → Disaggregator × WaitResult
receive_response ch d = elim (get_elem? d.channels ch) [
  | none ↦ (d, timed_out)
  | some c ↦ elim c.buffer [
    | some response ↦
        (record d { channels = set d.channels ch (record c { buffer = none }) }, got response)
    | none ↦ (d, if c.is_closed then wait_closed else timed_out)
  ]
]

-- A request up to its wait: no path, or a path to the origin without relays (UDP only), or a channel to
-- wait on and the message that is batched.
pub data Begun : Type 0 where
  no_path : Begun
  direct_origin : List ℕ → Begun
  waits : ℕ → Begun

module _ (string_of : List ℕ → String) (fetch : ℕ → List PathInfo) (now port : ℕ) where
  -- The look for a route, and the start of a refresh, which runs on its own.
  unfoldable pub route_of : Proxy → Proxy × List PathInfo × Bool
  unfolding choose_route
  route_of s = let r = choose_route fetch now port s.routes in (record s { routes = r.0 }, r.1, r.2)

  -- Register, and then AddToBatch.
  unfoldable pub submit_request :
      Bool → String → PathInfo → ℕ → List ℕ → Proxy → Run (Proxy × Begun)
  unfolding message_for register
  submit_request emerge protocol path user_id content s = do
    m ← message_for string_of emerge protocol path user_id content
    (let r = register user_id s.waiting in
        ok (record s { waiting = r.0; batched = s.batched ++ m ∷ [] }, waits r.1))

  -- handleConnection, and a turn of handleConnectionKeepAlive, up to the wait.
  unfoldable pub begin_tcp : ℕ → List ℕ → Proxy → Run (Proxy × Begun)
  unfolding route_of choose_path submit_request
  begin_tcp user_id content s =
      let r = route_of s in
      elim (choose_path r.1) [
        | none ↦ ok (r.0, no_path)
        | some path ↦ submit_request false "tcp" path user_id content r.0
      ]

  -- `pathInfo.Hops[len(pathInfo.Hops)-1]`
  unfoldable pub last_hop : List (List ℕ) → Run (List ℕ)
  last_hop hops = elim (get_elem? hops (length hops - 1)) [ none ↦ panic | some h ↦ ok h ]

  -- handleUDPConnection up to the wait, behind the rate limiter and for one request id.
  unfoldable pub begin_udp : ℕ → List ℕ → Proxy → Run (Proxy × Begun)
  unfolding route_of last_hop submit_request
  begin_udp user_id content s =
      let r = route_of s in
      let direct_of = λ (path : PathInfo). (do h ← last_hop path.hops; ok (r.0, direct_origin h)) in
      elim r.1 [
        | [] ↦ ok (r.0, no_path)
        | path ∷ paths ↦
            if leb (length path.hops) 2
            then direct_of path
            else submit_request true "udp" path user_id content r.0
      ]

-- Behind the wait: the waiter is removed, and the response is written. On a closed channel the TCP
-- handlers write no bytes, and the UDP handler returns.
unfoldable pub finish : Bool → ℕ → ℕ → Proxy → Run (Proxy × Option (List ℕ))
unfolding receive_response cleanup
finish is_udp user_id ch s =
    let r = receive_response ch s.waiting in
    do
      d ← cleanup user_id ch r.0
      ok (
        record s { waiting = d },
        elim r.1 [
          | got response ↦ some response
          | wait_closed ↦ if is_udp then none else some []
          | timed_out ↦ none
        ],
      )

-- The line up to the byte '\n', none if there is no such byte.
unfoldable pub cut_line : List ℕ → Option (List ℕ)
cut_line [] = none
cut_line (c ∷ cs) =
    let rest = cut_line cs in
    if c == 10 then some (10 ∷ []) else elim rest [ none ↦ none | some line ↦ some (c ∷ line) ]

-- bufio.NewReader(conn).ReadBytes('\n'): the line, and the chunks that are not read yet. What the
-- reader has behind the line is lost with it. The end of the chunks is an error.
unfoldable pub read_line : List (List ℕ) → Option (List ℕ × List (List ℕ))
unfolding cut_line
read_line [] = none
read_line (chunk ∷ chunks) =
    let rest = read_line chunks in
    elim (cut_line chunk) [
      | some line ↦ some (line, chunks)
      | none ↦ elim rest [ none ↦ none | some r ↦ some (chunk ++ r.0, r.1) ]
    ]

-- What the world does during a turn of a connection.
pub record Turn : Type 0 where
  pub now : ℕ
  pub has_rtt : Bool
  pub meanwhile : Proxy → Run Proxy
  pub end : ℕ

-- The request id of a new request.
unfoldable pub next_req_id : Client → Proxy → Proxy × ℕ
unfolding gen_short_req_id
next_req_id client s =
    let r = gen_short_req_id s.req_seq client.ip_bytes in (record s { req_seq = r.0 }, r.1)

-- The line of the access log, written only if the kernel gives a round trip time.
unfoldable pub log_access : Client → Turn → Proxy → Proxy
unfolding should_log_access
log_access client t s =
    if t.has_rtt
    then record s { access_log = (should_log_access client.ip t.now s.access_log).0 }
    else s

module _ (string_of : List ℕ → String) (fetch : ℕ → List PathInfo) (port : ℕ)
    (client : Client) where
  -- A request behind its read: the response that is written, and false if the handler returns early.
  unfoldable pub serve_tcp : Turn → ℕ → List ℕ → Proxy → Run (Proxy × Option (List ℕ) × Bool)
  unfolding log_access begin_tcp finish
  serve_tcp t user_id content s = do
    b ← begin_tcp string_of fetch t.now port user_id content (log_access client t s)
    elim b.1 [
      | no_path ↦ ok (b.0, none, false)
      | direct_origin h ↦ ok (b.0, none, false)
      | waits ch ↦ (do s' ← t.meanwhile b.0; r ← finish false user_id ch s'; ok (r.0, r.1, true))
    ]

  -- handleConnection
  unfoldable pub handle_connection : Turn → List (List ℕ) → Proxy → Run (Proxy × Option (List ℕ))
  unfolding next_req_id read_line serve_tcp
  handle_connection t chunks s =
      let n = next_req_id client s in
      elim (read_line chunks) [
        | none ↦ ok (n.0, none)
        | some line ↦ (do r ← serve_tcp t n.1 line.0 n.0; ok (r.0, r.1))
      ]

  -- The loop of handleConnectionKeepAlive: `turn i` is what happens during the turn `i`, and `deadline`
  -- the connection's deadline. Responses are listed as they are written. A line is never empty.
  unfoldable pub keep_alive_loop :
      (ℕ → Turn) → ℕ → ℕ → ℕ → List (List ℕ) → ℕ → Proxy → Run (Proxy × List (Option (List ℕ)))
  unfolding read_line serve_tcp next_req_id
  keep_alive_loop turn deadline zero i chunks user_id s = ok (s, [])
  keep_alive_loop turn deadline (suc fuel) i chunks user_id s = elim (read_line chunks) [
    | none ↦ ok (s, [])
    | some line ↦ (do
      r ← serve_tcp (turn i) user_id line.0 s
      (let n = next_req_id client r.0 in
          let rest = keep_alive_loop turn deadline fuel (suc i) line.1 n.1 n.0 in
          let others = (do l ← rest; ok (l.0, r.1 ∷ l.1)) in
          if r.2
          then (if ltb deadline (turn i).end then ok (n.0, r.1 ∷ []) else others)
          else ok (r.0, [])))
  ]

  -- handleConnectionKeepAlive
  unfoldable pub handle_connection_keep_alive :
      (ℕ → Turn) → ℕ → List (List ℕ) → Proxy → Run (Proxy × List (Option (List ℕ)))
  unfolding next_req_id keep_alive_loop
  handle_connection_keep_alive turn deadline chunks s =
      let n = next_req_id client s in
      keep_alive_loop turn deadline (suc (length chunks)) 0 chunks n.1 n.0
