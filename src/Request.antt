-- ===== src/Request.antt =====
-- What the data proxy does with a request before it waits in a batch: data-proxy/server/routing.go, and
-- the parts that handleConnection, handleConnectionKeepAlive (tcp-server.go) and handleUDPConnection
-- (udp-server.go) share. A text is the list of its bytes, and times are milliseconds. `string_of` is the
-- string of these bytes, under which the aggregator keeps a route.
pub mod Choice
pub mod Connection
pub mod Cache
pub mod Waiting
pub mod Journey
pub mod Arrival
pub mod Answer
pub mod Lines
pub mod Admission
use sky_accel.Base.{
  ℕ, suc, ◌+◌, ◌-◌, ◌*◌, ◌%◌, ◌^◌, List, [], ◌∷◌, ◌++◌, Option, none, some, Bool, true, false, ltb,
  leb, ◌==◌, ◌&&◌, ◌||◌, if◌then◌else◌, length,
}
use sky_accel.Base.Keys.{lookup, insert, nat_eq}
use sky_accel.Base.Run.{Run, ok, panic}
use sky_accel.Util.{hop_ip_to_net}
use sky_accel.Aggregator.{AggregatorMsg}
use Prim.Native.String.{String}

-- util.PathInfo, without the times that only the control plane reads.
pub record PathInfo : Type 0 where
  pub hops : List (List ℕ)

-- routingInfo
pub record RouteEntry : Type 0 where
  pub info : List PathInfo
  pub deadline : ℕ

abbrev pub route_timeout : ℕ
route_timeout = 1000

-- strings.Split for a separator of one byte: the first part, and the parts behind it.
unfoldable pub split : ℕ → List ℕ → List ℕ × List (List ℕ)
split sep [] = ([], [])
split sep (c ∷ cs) = let r = split sep cs in if c == sep then ([], r.0 ∷ r.1) else (c ∷ r.0, r.1)

-- strings.Join for a separator of one byte
unfoldable pub join : ℕ → List (List ℕ) → List ℕ
join sep [] = []
join sep (a ∷ []) = a
join sep (a ∷ b ∷ rest) = a ++ (sep ∷ join sep (b ∷ rest))

unfoldable pub equal_text : List ℕ → List ℕ → Bool
equal_text [] [] = true
equal_text [] (b ∷ t) = false
equal_text (a ∷ s) [] = false
equal_text (a ∷ s) (b ∷ t) = let rest = equal_text s t in a == b && rest

-- config.Config_.Node.IP.Public and config.TestPathMap
pub record Settings : Type 0 where
  pub public_ip : List ℕ
  pub test_path_map : List (ℕ × List ℕ)

-- The answer of the control plane: its code and its paths, none for any failure on the way.
unfoldable pub ask_control_plane : (ℕ → Option (ℕ × List PathInfo)) → ℕ → List PathInfo
ask_control_plane answer port = elim (answer port) [
  | none ↦ []
  | some r ↦ if r.0 == 200 then r.1 else []
]

-- GetRoutingFromControlPlane
unfoldable pub get_routing : Settings → (ℕ → Option (ℕ × List PathInfo)) → ℕ → List PathInfo
unfolding ask_control_plane split equal_text
get_routing s answer port = elim (lookup port s.test_path_map) [
  | none ↦ ask_control_plane answer port
  | some path ↦
      let hops = split b',' path in
      if leb 2 (length (hops.0 ∷ hops.1)) && equal_text hops.0 s.public_ip
      then record { hops = hops.0 ∷ hops.1 } ∷ []
      else ask_control_plane answer port
]

-- The goroutine that stores new paths, and the store on a miss.
unfoldable pub store_route :
    (ℕ → List PathInfo) → ℕ → ℕ → List (ℕ × RouteEntry) → List (ℕ × RouteEntry)
store_route fetch now port routes =
    insert port (record { info = fetch port; deadline = now + route_timeout }) routes

-- The look into `routingMap`: the map behind it, the paths to use, and whether a refresh is started.
unfoldable pub choose_route :
    (ℕ → List PathInfo)
    → ℕ
    → ℕ
    → List (ℕ × RouteEntry)
    → List (ℕ × RouteEntry) × List PathInfo × Bool
unfolding store_route
choose_route fetch now port routes = elim (lookup port routes) [
  | none ↦ (store_route fetch now port routes, fetch port, false)
  | some ri ↦ (routes, ri.info, ltb ri.deadline now)
]

-- The loop for a path with more than two hops, and the first path if there is none.
unfoldable pub find_path : List PathInfo → Option PathInfo
find_path [] = none
find_path (p ∷ ps) = let rest = find_path ps in if ltb 2 (length p.hops) then some p else rest

unfoldable pub choose_path : List PathInfo → Option PathInfo
unfolding find_path
choose_path [] = none
choose_path (p ∷ ps) = elim (find_path (p ∷ ps)) [ none ↦ some p | some q ↦ some q ]

-- One turn of the loop over the hops: the hop without its port, and the port behind it, which is that
-- of the last hop that has one. `strings.Contains(h, ":")` says that there is a second part.
unfoldable pub strip_hop : List ℕ → List ℕ → List ℕ × List ℕ
unfolding split
strip_hop port h = let t = split b':' h in elim t.1 [ [] ↦ (h, port) | part ∷ parts ↦ (t.0, part) ]

unfoldable pub strip_hops : List ℕ → List (List ℕ) → List (List ℕ) × List ℕ
unfolding strip_hop
strip_hops port [] = ([], port)
strip_hops port (h ∷ hs) = let s = strip_hop port h in let r = strip_hops s.1 hs in (s.0 ∷ r.0, r.1)

-- The loop of strconv.ParseUint(text, 10, 16), whose error is not read: 0 for a text that is not a
-- number, and the greatest value for a number that is too large.
unfoldable pub parse_digits : ℕ → List ℕ → ℕ
parse_digits n [] = n
parse_digits n (c ∷ cs) =
    let next = n * 10 + (c - b'0') in
    let rest = parse_digits next cs in
    if ltb c b'0' || ltb b'9' c then 0 else if ltb 65535 next then 65535 else rest

unfoldable pub parse_port : List ℕ → ℕ
parse_port [] = 0
parse_port (c ∷ cs) = parse_digits 0 (c ∷ cs)

-- The arguments of AddToBatch for a path; `Hops[1]` panics if there is none.
unfoldable pub message_for :
    (List ℕ → String) → Bool → String → PathInfo → ℕ → List ℕ → Run AggregatorMsg
unfolding strip_hops join parse_port
message_for string_of emerge protocol path user_id content = elim path.hops [
  | [] ↦ panic
  | a ∷ others ↦ elim others [
    | [] ↦ panic
    | b ∷ behind ↦
        let r = strip_hops [] path.hops in
        ok (record {
          emerge = emerge;
          routing_key = string_of (join b',' r.0);
          protocol = protocol;
          port = parse_port r.1 % 2 ^ 16;
          hops = r.0;
          next_hop = hop_ip_to_net b;
          user_id = user_id;
          content = content;
        })
  ]
]
