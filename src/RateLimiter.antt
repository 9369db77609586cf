-- ===== src/RateLimiter.antt =====
-- data-proxy/server/rate-limiter.go: a limiter for each port and client address. `L` is rate.Limiter,
-- `fresh` is rate.NewLimiter on the configuration, and `allow` its Allow. Times are in minutes.
pub mod Limiters
use sky_accel.Base.{
  ℕ, ◌+◌, List, [], ◌∷◌, ◌++◌, Option, none, some, Bool, true, false, not, ltb, map,
}
use sky_accel.Base.Keys.{lookup, insert, nat_eq, string_eq}
use sky_accel.Base.Maps.{filter}
use Prim.Native.String.{String}

pub record IpLimiter (L : Type 0) : Type 0 where
  pub limiter : L
  pub last_seen : ℕ

-- `is_stopped` says that `stopCh` is closed.
pub record PortLimiters (L : Type 0) : Type 0 where
  pub limiters : List (String × IpLimiter L)
  pub is_stopped : Bool

pub record GlobalRateLimiter (L : Type 0) : Type 0 where
  pub port_limiters : List (ℕ × PortLimiters L)

module _ {L : Type 0} where
  unfoldable pub limiters_of : ℕ → GlobalRateLimiter L → PortLimiters L
  limiters_of port g = elim (lookup port g.port_limiters) [
    | none ↦ record { limiters = []; is_stopped = false }
    | some pl ↦ pl
  ]

  unfoldable pub limiter_of : L → String → PortLimiters L → L
  limiter_of fresh ip pl = elim (lookup ip pl.limiters) [ none ↦ fresh | some il ↦ il.limiter ]

  -- GetLimiter
  unfoldable pub get_limiter : L → ℕ → ℕ → String → GlobalRateLimiter L → GlobalRateLimiter L × L
  unfolding limiters_of limiter_of
  get_limiter fresh now port ip g =
      let pl = limiters_of port g in
      let limiter = limiter_of fresh ip pl in
      (
        record {
          port_limiters =
              insert port
                (record pl {
                  limiters = insert ip (record { limiter = limiter; last_seen = now }) pl.limiters;
                })
                g.port_limiters;
        },
        limiter,
      )

  -- One turn of cleanupLoop.
  unfoldable pub cleanup : ℕ → ℕ → PortLimiters L → PortLimiters L
  cleanup interval now pl = record pl {
    limiters = filter (λ r. not (ltb (r.1.last_seen + interval) now)) pl.limiters;
  }

  -- Allow: the limiter is an object, so its own state is not part of the maps.
  unfoldable pub allow :
      (L → Bool) → L → ℕ → ℕ → String → GlobalRateLimiter L → GlobalRateLimiter L × Bool
  unfolding get_limiter
  allow is_allowed fresh now port ip g =
      let r = get_limiter fresh now port ip g in (r.0, is_allowed r.1)

  -- Stop
  unfoldable pub stop : GlobalRateLimiter L → GlobalRateLimiter L
  stop g = record {
    port_limiters = map (λ r. (r.0, record r.1 { is_stopped = true })) g.port_limiters;
  }
