-- ===== src/RateLimiter/Limiters.antt =====
-- A client has one limiter for each port, as long as cleanupLoop does not remove it.
use sky_accel.Base.{
  ℕ, ◌+◌, ◌≤◌, ◌≡◌, ◌≢◌, refl, sym, ap, ◌∙◌, List, none, some, arith, not, ltb, All,
}
use sky_accel.Base.Keys.{lookup, insert, lookup-insert, same_refl, same_ne, nat_eq, string_eq}
use sky_accel.Base.Maps.{filter-All}
use Prim.Native.String.{String}
use sky_accel.RateLimiter.{
  IpLimiter, PortLimiters, GlobalRateLimiter, limiters_of, limiter_of, get_limiter, cleanup,
}

module _ {L : Type 0} where
  limiters_of-insert :
      (port : ℕ) (pl : PortLimiters L) (ports : List (ℕ × PortLimiters L))
      → limiters_of port (record { port_limiters = insert port pl ports }) ≡ pl
  unfolding limiters_of
  limiters_of-insert port pl ports =
      let found : lookup port (insert port pl ports) ≡ some pl =
        rw (lookup-insert port port pl ports, same_refl port) refl in
      rw (found, limiters_of)

  -- The limiters of the port behind GetLimiter.
  limiters_of-get_limiter :
      (fresh : L) (now port : ℕ) (ip : String) (g : GlobalRateLimiter L)
      → (limiters_of port (get_limiter fresh now port ip g).0).limiters
        ≡ insert ip
            (record { limiter = (get_limiter fresh now port ip g).1; last_seen = now })
            (limiters_of port g).limiters
  unfolding get_limiter
  limiters_of-get_limiter fresh now port ip g =
      ap (λ pl. pl.limiters) (limiters_of-insert port _ g.port_limiters)

  limiter_of_lem :
      (fresh : L) (now port : ℕ) (ip : String) (g : GlobalRateLimiter L)
      → (get_limiter fresh now port ip g).1
        ≡ elim (lookup ip (limiters_of port g).limiters) [ none ↦ fresh | some il ↦ il.limiter ]
  unfolding get_limiter limiter_of
  limiter_of_lem fresh now port ip g = refl

  -- A client who asks twice on a port gets the same limiter, whatever the times of the two requests are
  -- and whichever new limiter is at hand.
  pub get_limiter_twice :
      (fresh newer : L) (now later port : ℕ) (ip : String) (g : GlobalRateLimiter L)
      → (get_limiter newer later port ip (get_limiter fresh now port ip g).0).1
        ≡ (get_limiter fresh now port ip g).1
  get_limiter_twice fresh newer now later port ip g =
      let il : IpLimiter L = record {
        limiter = (get_limiter fresh now port ip g).1;
        last_seen = now;
      } in
      let found : lookup ip (insert ip il (limiters_of port g).limiters) ≡ some il =
        rw (lookup-insert ip ip il (limiters_of port g).limiters, same_refl ip) refl in
      limiter_of_lem newer later port ip (get_limiter fresh now port ip g).0
      ∙ ap (λ o. elim o [ none ↦ newer | some il ↦ il.limiter ])
          (ap (lookup ip) (limiters_of-get_limiter fresh now port ip g) ∙ found)

  -- Clients of one port have limiters of their own: a request of one does not change what another gets.
  pub get_limiter_apart :
      (fresh newer : L) (now later port : ℕ) (ip other : String) (g : GlobalRateLimiter L)
      → ip ≢ other
      → (get_limiter newer later port other (get_limiter fresh now port ip g).0).1
        ≡ (get_limiter newer later port other g).1
  get_limiter_apart fresh newer now later port ip other g ne =
      let il : IpLimiter L = record {
        limiter = (get_limiter fresh now port ip g).1;
        last_seen = now;
      } in
      let found : lookup other (insert ip il (limiters_of port g).limiters)
          ≡ lookup other (limiters_of port g).limiters =
        rw (lookup-insert ip other il (limiters_of port g).limiters, same_ne ip other ne) refl in
      limiter_of_lem newer later port other (get_limiter fresh now port ip g).0
      ∙ ap (λ o. elim o [ none ↦ newer | some il ↦ il.limiter ])
          (ap (lookup other) (limiters_of-get_limiter fresh now port ip g) ∙ found)
      ∙ sym (limiter_of_lem newer later port other g)

  -- A turn of cleanupLoop keeps only limiters of clients that were seen within the interval.
  cleanup_fresh :
      (interval now : ℕ) (pl : PortLimiters L)
      → All (λ r. now ≤ r.1.last_seen + interval) (cleanup interval now pl).limiters
  unfolding cleanup
  cleanup_fresh interval now pl =
      filter-All (λ r. now ≤ r.1.last_seen + interval)
        (λ r. not (ltb (r.1.last_seen + interval) now)) (λ r e. ground (arith, e)) pl.limiters
