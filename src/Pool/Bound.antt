-- ===== src/Pool/Bound.antt =====
-- Invariants of the pool over any sequence of its operations.
use sky_accel.Base.{
  ℕ, suc, ◌+◌, ◌≤◌, ◌≡◌, inl, inr, refl, List, [], ◌∷◌, Option, none, some, Bool, arith, not, leb,
  ◌==◌, ◌||◌, length, Bool-cases, Option-cases, All,
}
use sky_accel.Base.Keys.{lookup, string_eq}
use sky_accel.Base.Maps.{All-insert, All-lookup}
use Prim.Native.String.{String}
use sky_accel.Pool.{
  PooledConn, TcpConnPool, is_idle, is_expired, clean_list, clean_pools, cleanup, take_conn,
  list_of, get, put, close,
}

-- One operation of the pool.
pub data Step : TcpConnPool → TcpConnPool → Type 0 where
  got :
      (dial : String → Option ℕ) (clock : ℕ → ℕ) (addr : String) {p : TcpConnPool}
      → Step p (get dial clock addr p).0
  put_back :
      (created used : ℕ) (addr : String) (c : Option ℕ) (healthy : Bool) {p : TcpConnPool}
      → Step p (put created used addr c healthy p).0
  cleaned : (now : ℕ) {p : TcpConnPool} → Step p (cleanup now p).0
  closed : {p : TcpConnPool} → Step p (close p).0

-- The pools that an empty one with these limits becomes.
pub data Reachable (max_idle max_lifetime : ℕ) : TcpConnPool → Type 0 where
  start :
      Reachable max_idle max_lifetime
        (record { pools = []; max_idle = max_idle; max_lifetime = max_lifetime })
  next :
      {p q : TcpConnPool}
      → Reachable max_idle max_lifetime p
      → Step p q
      → Reachable max_idle max_lifetime q

-- No address has more connections than the limit.
abbrev pub IsKept : ℕ → List PooledConn → Type 0
IsKept max_idle lst = length lst ≤ max_idle

pub record IsBounded (max_idle max_lifetime : ℕ) (p : TcpConnPool) : Type 0 where
  pub idle : p.max_idle ≡ max_idle
  pub lifetime : p.max_lifetime ≡ max_lifetime
  pub lists : All (λ r. IsKept max_idle r.1) p.pools

-- A step on a list of an address only removes connections.
clean_list_shrinks :
    (life now : ℕ) (lst : List PooledConn) → length (clean_list life now lst).0 ≤ length lst
unfolding clean_list
clean_list_shrinks life now [] = omega arith
clean_list_shrinks life now (pc ∷ lst) = ground (arith, clean_list_shrinks life now lst)

take_conn_shrinks :
    (life : ℕ) (clock : ℕ → ℕ) (lst : List PooledConn)
    → length (take_conn life clock lst).1 ≤ length lst
unfolding take_conn
take_conn_shrinks life clock [] = omega arith
take_conn_shrinks life clock (pc ∷ lst) =
    ground (arith, take_conn_shrinks life (λ i. clock (suc i)) lst)

clean_pools-IsKept :
    (n life now : ℕ) (pools : List (String × List PooledConn))
    → All (λ r. IsKept n r.1) pools
    → All (λ r. IsKept n r.1) (clean_pools life now pools).0
unfolding clean_pools
clean_pools-IsKept n life now [] h = tt
clean_pools-IsKept n life now ((addr, lst) ∷ pools) (len, hs) =
    let rest = clean_pools-IsKept n life now pools hs in
    let shorter = clean_list_shrinks life now lst in
    elim (Bool-cases (length (clean_list life now lst).0 == 0)) [
      | inl empty ↦ rw empty rest
      | inr full ↦ rw full (omega arith, rest)
    ]

module _ (n life : ℕ) (p : TcpConnPool) (b : IsBounded n life p) where
  list_of-IsKept : (addr : String) → IsKept n (list_of p addr)
  unfolding list_of
  list_of-IsKept addr = elim (Option-cases (lookup addr p.pools)) [
    | inl e ↦ rw (e, list_of) (omega arith)
    | inr (lst, e) ↦ rw (e, list_of) (All-lookup (λ r. IsKept n r.1) addr lst p.pools b.lists e)
  ]

  get-IsBounded :
      (dial : String → Option ℕ) (clock : ℕ → ℕ) (addr : String)
      → IsBounded n life (get dial clock addr p).0
  unfolding get
  get-IsBounded dial clock addr =
      let len = list_of-IsKept addr in
      let shorter = take_conn_shrinks p.max_lifetime clock (list_of p addr) in
      record {
        idle = b.idle;
        lifetime = b.lifetime;
        lists = All-insert (λ r. IsKept n r.1) addr _ p.pools b.lists (omega arith);
      }

  put-IsBounded :
      (created used : ℕ) (addr : String) (c : Option ℕ) (healthy : Bool)
      → IsBounded n life (put created used addr c healthy p).0
  unfolding put
  put-IsBounded created used addr none healthy = b
  put-IsBounded created used addr (some c) healthy = elim (Option-cases (lookup addr p.pools)) [
    | inl e ↦ rw (e, put) b
    | inr (lst, e) ↦
        let len = All-lookup (λ r. IsKept n r.1) addr lst p.pools b.lists e in
        elim (Bool-cases (not healthy || leb p.max_idle (length lst))) [
          | inl refused ↦ rw (e, put) (rw refused b)
          | inr taken ↦
              rw (e, put)
                (rw taken (record {
                  idle = b.idle;
                  lifetime = b.lifetime;
                  lists =
                      All-insert (λ r. IsKept n r.1) addr _ p.pools b.lists
                        (ground (arith, b.idle, taken, len));
                }))
        ]
  ]

  cleanup-IsBounded : (now : ℕ) → IsBounded n life (cleanup now p).0
  unfolding cleanup
  cleanup-IsBounded now = record {
    idle = b.idle;
    lifetime = b.lifetime;
    lists = clean_pools-IsKept n p.max_lifetime now p.pools b.lists;
  }

Step-IsBounded :
    (n life : ℕ) (p q : TcpConnPool) → Step p q → IsBounded n life p → IsBounded n life q
unfolding close
Step-IsBounded n life p q (got dial clock addr) b = get-IsBounded n life p b dial clock addr
Step-IsBounded n life p q (put_back created used addr c healthy) b =
    put-IsBounded n life p b created used addr c healthy
Step-IsBounded n life p q (cleaned now) b = cleanup-IsBounded n life p b now
Step-IsBounded n life p q closed b = record { idle = b.idle; lifetime = b.lifetime; lists = tt }

-- However Get, Put, cleanup and Close are called on a new pool, in any order and at any times, its limits
-- stay as they were given, and no address has more idle connections than the limit.
pub Reachable-IsBounded : (n life : ℕ) (p : TcpConnPool) → Reachable n life p → IsBounded n life p
Reachable-IsBounded n life p start = record { idle = refl; lifetime = refl; lists = tt }
Reachable-IsBounded n life q (next {p = p} r s) =
    Step-IsBounded n life p q s (Reachable-IsBounded n life p r)

-- A connection whose two times are at most a lifetime apart is expired for cleanup exactly if it is idle
-- for longer than the lifetime: the test on its age adds nothing.
pub is_expired-is_idle :
    (life now : ℕ) (pc : PooledConn)
    → pc.last_used ≤ pc.created + life
    → is_expired life now pc ≡ is_idle life now pc
unfolding is_expired is_idle
is_expired-is_idle life now pc e = ground (arith, e)
