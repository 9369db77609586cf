-- ===== src/Pool.antt =====
-- data-proxy/backsourcer/tcp_pool.go: idle TCP connections to origins, kept for each address. A
-- connection is a number, a time is in milliseconds. `dial` is net.DialTimeout, `write` and
-- `read_string` are what a connection does; each step lists the connections that it closes.
pub mod Reuse
pub mod Bound
use sky_accel.Base.{
  ℕ, suc, ◌+◌, ◌*◌, List, [], ◌∷◌, ◌++◌, Option, none, some, Bool, true, false, not, ltb, leb, ◌==◌,
  ◌||◌, if◌then◌else◌, length, map,
}
use sky_accel.Base.Keys.{lookup, insert, string_eq}
use Prim.Native.String.{String}

pub record PooledConn : Type 0 where
  pub conn : ℕ
  pub created : ℕ
  pub last_used : ℕ

pub record TcpConnPool : Type 0 where
  pub pools : List (String × List PooledConn)
  pub max_idle : ℕ
  pub max_lifetime : ℕ

-- A connection that was not used for longer than the lifetime.
unfoldable pub is_idle : ℕ → ℕ → PooledConn → Bool
is_idle life now pc = ltb (pc.last_used + life) now

unfoldable pub is_expired : ℕ → ℕ → PooledConn → Bool
unfolding is_idle
is_expired life now pc = is_idle life now pc || ltb (pc.created + life * 2) now

-- The loop of cleanup over one list: what stays, and what is closed.
unfoldable pub clean_list : ℕ → ℕ → List PooledConn → List PooledConn × List ℕ
unfolding is_expired
clean_list life now [] = ([], [])
clean_list life now (pc ∷ lst) =
    let rest = clean_list life now lst in
    if is_expired life now pc then (rest.0, pc.conn ∷ rest.1) else (pc ∷ rest.0, rest.1)

-- An address with no connection left is removed.
unfoldable pub clean_pools :
    ℕ → ℕ → List (String × List PooledConn) → List (String × List PooledConn) × List ℕ
unfolding clean_list
clean_pools life now [] = ([], [])
clean_pools life now ((addr, lst) ∷ pools) =
    let rest = clean_pools life now pools in
    let kept = clean_list life now lst in
    if length kept.0 == 0
    then (rest.0, kept.1 ++ rest.1)
    else ((addr, kept.0) ∷ rest.0, kept.1 ++ rest.1)

unfoldable pub cleanup : ℕ → TcpConnPool → TcpConnPool × List ℕ
cleanup now p = let r = clean_pools p.max_lifetime now p.pools in (record p { pools = r.0 }, r.1)

-- The loop of Get: the connection that is taken, what stays, and what is closed; `clock` is what
-- time.Now() gives in each turn.
unfoldable pub take_conn : ℕ → (ℕ → ℕ) → List PooledConn → Option ℕ × List PooledConn × List ℕ
take_conn life clock [] = (none, [], [])
take_conn life clock (pc ∷ lst) =
    let rest = take_conn life (λ i. clock (suc i)) lst in
    if is_idle life (clock 0) pc
    then (rest.0, rest.1, pc.conn ∷ rest.2)
    else (some pc.conn, lst, [])

unfoldable pub list_of : TcpConnPool → String → List PooledConn
list_of p addr = elim (lookup addr p.pools) [ none ↦ [] | some lst ↦ lst ]

-- Get: the connection is none if the dial fails.
unfoldable pub get :
    (String → Option ℕ) → (ℕ → ℕ) → String → TcpConnPool → TcpConnPool × Option ℕ × List ℕ
unfolding take_conn list_of
get dial clock addr p =
    let r = take_conn p.max_lifetime clock (list_of p addr) in
    (
      record p { pools = insert addr r.1 p.pools },
      elim r.0 [ some c ↦ some c | none ↦ dial addr ],
      r.2,
    )

-- Put: `none` is a nil connection; `created` and `used` are what its two calls of time.Now() give.
unfoldable pub put : ℕ → ℕ → String → Option ℕ → Bool → TcpConnPool → TcpConnPool × List ℕ
put created used addr none healthy p = (p, [])
put created used addr (some c) healthy p = elim (lookup addr p.pools) [
  | none ↦ (p, c ∷ [])
  | some lst ↦ if not healthy || leb p.max_idle (length lst) then (p, c ∷ []) else (
    record p {
      pools = insert addr (record { conn = c; created = created; last_used = used } ∷ lst) p.pools;
    },
    [],
  )
]

unfoldable pub conns_of : List (String × List PooledConn) → List ℕ
conns_of [] = []
conns_of ((addr, lst) ∷ pools) = map (λ pc. pc.conn) lst ++ conns_of pools

-- Close
unfoldable pub close : TcpConnPool → TcpConnPool × List ℕ
close p = (record p { pools = [] }, conns_of p.pools)

-- DoRequest: the line that the origin answers, none on an error; `before` has the times of Get,
-- `created` and `used` are those of Put.
unfoldable pub do_request :
    (String → Option ℕ)
    → (ℕ → List ℕ → Bool)
    → (ℕ → Option (List ℕ))
    → (ℕ → ℕ)
    → ℕ
    → ℕ
    → String
    → List ℕ
    → TcpConnPool
    → TcpConnPool × Option (List ℕ) × List ℕ
unfolding get
do_request dial write read_string before created used addr req_data p =
    let got = get dial before addr p in
    elim got.1 [
      | none ↦ (got.0, none, got.2)
      | some c ↦
          let failed = put created used addr (some c) false got.0 in
          let kept = put created used addr (some c) true got.0 in
          if not (write c req_data)
          then (failed.0, none, got.2 ++ failed.1)
          else elim (read_string c) [
            | none ↦ (failed.0, none, got.2 ++ failed.1)
            | some line ↦ (kept.0, some line, got.2 ++ kept.1)
          ]
    ]
