-- ===== src/Aggregator/V2/Shards.antt =====
-- The goroutines of the second aggregator take messages from one shared channel; each handles only
-- those of its own shard.
use sky_accel.Base.{ℕ, ◌≡◌, ◌≢◌, ◌⊎◌, inl, inr, refl, List, [], ◌∷◌, arith, ◌==◌, All, Bool-cases}
use Prim.Native.String.{String}
use sky_accel.Base.Run.{ok}
use sky_accel.Aggregator.{AggregatorMsg, Config}
use sky_accel.Aggregator.V2.{AggregatorV2, hash_routing_key, receive, receive_all}

module _ (hash : String → ℕ) (cfg : Config) (now : ℕ) (a : AggregatorV2) where
  lost_elsewhere :
      (i : ℕ) (m : AggregatorMsg)
      → hash_routing_key hash m.routing_key ≢ i
      → receive hash cfg now a i m ≡ ok (a, [])
  unfolding receive
  lost_elsewhere i m e = elim (Bool-cases (hash_routing_key hash m.routing_key == i)) [
    | inl here ↦ absurd (e (ground (arith, here)))
    | inr there ↦ rw (there, receive)
  ]

  -- Of two goroutines that may take a message, at least one loses it: no shard changes and nothing is
  -- sent.
  pub receive_loses :
      (i j : ℕ) (m : AggregatorMsg)
      → i ≢ j
      → (receive hash cfg now a i m ≡ ok (a, [])) ⊎ (receive hash cfg now a j m ≡ ok (a, []))
  receive_loses i j m ne = elim (Bool-cases (hash_routing_key hash m.routing_key == i)) [
    | inl here ↦ inr (lost_elsewhere j m (λ e. ne (ground (arith, here, e))))
    | inr there ↦ inl (lost_elsewhere i m (λ e. absurd (ground (arith, there, e))))
  ]

  -- Messages that are all taken by goroutines of other shards are all lost.
  pub receive_all_lost :
      (ms : List (ℕ × AggregatorMsg))
      → All (λ r. hash_routing_key hash r.1.routing_key ≢ r.0) ms
      → receive_all hash cfg now a ms ≡ ok (a, [])
  unfolding receive_all
  receive_all_lost [] h = refl
  receive_all_lost ((i, m) ∷ ms) (h, hs) =
      rw (lost_elsewhere i m h, receive_all) (rw (receive_all_lost ms hs))
