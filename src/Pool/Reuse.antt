-- ===== src/Pool/Reuse.antt =====
-- What becomes of a connection that is put into the pool.
use sky_accel.Base.{
  ℕ, suc, ◌+◌, ◌≤◌, ◌<◌, ◌≡◌, ◌⊎◌, inl, inr, refl, ap, List, [], ◌∷◌, ◌++◌, Option, none, some,
  true, false, arith, ltb, leb, length, map, Bool-cases,
}
use sky_accel.Base.Keys.{lookup, insert, lookup-insert, same_refl, string_eq}
use Prim.Native.String.{String}
use sky_accel.Pool.{PooledConn, TcpConnPool, is_idle, take_conn, list_of, get, put}

-- A healthy connection that is put for an address with room for it is the one that the next Get for
-- the address gives, while it is not idle for longer than the lifetime: nothing is dialled or
-- closed, and the address has the connections that it had before.
pub get-put :
    (dial : String → Option ℕ) (created used : ℕ) (clock : ℕ → ℕ) (addr : String) (c : ℕ)
    (lst : List PooledConn) (p : TcpConnPool)
    → lookup addr p.pools ≡ some lst
    → length lst < p.max_idle
    → clock 0 ≤ used + p.max_lifetime
    → (q : TcpConnPool) × (put created used addr (some c) true p ≡ (q, []))
      × (r : TcpConnPool) × (get dial clock addr q ≡ (r, some c, []))
      × (lookup addr r.pools ≡ some lst)
unfolding put get list_of take_conn is_idle
get-put dial created used clock addr c lst p at room soon =
    let pc : PooledConn = record { conn = c; created = created; last_used = used } in
    let q : TcpConnPool = record p { pools = insert addr (pc ∷ lst) p.pools } in
    let full : leb p.max_idle (length lst) ≡ false = ground arith in
    let found : lookup addr q.pools ≡ some (pc ∷ lst) =
      rw (lookup-insert addr addr (pc ∷ lst) p.pools, same_refl addr) refl in
    let young : ltb (used + p.max_lifetime) (clock 0) ≡ false = ground arith in
    let took : take_conn p.max_lifetime clock (list_of q addr) ≡ (some c, lst, []) =
      rw (found, list_of) (rw young) in
    (
      q,
      rw (at, put) (rw full),
      record q { pools = insert addr lst q.pools },
      rw (took, get),
      rw (lookup-insert addr addr lst q.pools, same_refl addr) refl,
    )

-- Each connection is idle in its turn of the loop.
abbrev pub AllIdle : ℕ → (ℕ → ℕ) → List PooledConn → Type 0
AllIdle life clock [] = Unit
AllIdle life clock (pc ∷ lst) =
    (is_idle life (clock 0) pc ≡ true) × AllIdle life (λ i. clock (suc i)) lst

-- A list of connections, cut into `stale` and the rest, and what the loop of Get makes of it.
pub record IsTaken (life : ℕ) (clock : ℕ → ℕ) (lst : List PooledConn) : Type 0 where
  pub stale : List PooledConn
  pub expired : AllIdle life clock stale
  pub outcome :
      ((take_conn life clock lst ≡ (none, [], map (λ pc. pc.conn) stale)) × (lst ≡ stale))
      ⊎ ((pc : PooledConn) × (rest : List PooledConn) × (take_conn life clock lst
            ≡ (some pc.conn, rest, map (λ pc. pc.conn) stale))
          × (lst ≡ stale ++ pc ∷ rest)
          × (is_idle life (clock (length stale)) pc ≡ false))

-- The loop of Get closes, hands out or keeps each connection of the address, in their order: it closes
-- the first ones, as far as they are idle for longer than the lifetime at the time of their
-- turn, hands out the next one, if there is one, and keeps those behind it.
pub take_conn-IsTaken : (life : ℕ) (clock : ℕ → ℕ) (lst : List PooledConn) → IsTaken life clock lst
unfolding take_conn
take_conn-IsTaken life clock [] = record { stale = []; expired = tt; outcome = inl (refl, refl) }
take_conn-IsTaken life clock (pc ∷ lst) = elim (Bool-cases (is_idle life (clock 0) pc)) [
  | inr fresh ↦ record { stale = []; expired = tt; outcome = inr (pc, lst, rw fresh, refl, fresh) }
  | inl old ↦
      let t = take_conn-IsTaken life (λ i. clock (suc i)) lst in
      record {
        stale = pc ∷ t.stale;
        expired = (old, t.expired);
        outcome = elim t.outcome [
          | inl (e, all) ↦ inl (rw old (rw e), ap (◌∷◌ pc) all)
          | inr (q, rest, e, cut, fresh) ↦ inr (q, rest, rw old (rw e), ap (◌∷◌ pc) cut, fresh)
        ];
      }
]
