-- ===== src/Aggregator/Entry.antt =====
-- The batch that a message joins: its route, and its place in the queue.
use sky_accel.Base.{
  ℕ, ◌+◌, ◌≤◌, ◌≡◌, ◌⊎◌, inl, inr, refl, ap, List, [], ◌∷◌, ◌++◌, some, arith, ltb, length, ◌∙◌,
  Bool-cases, Option-cases, All, All-imp, get_elem?, set,
}
use mathlib.Core.List.{Mem, mem-cons_self, mem-cons_of_mem}
use Prim.Native.String.{String}
use sky_accel.Base.Keys.{lookup, insert, lookup-insert, same_refl, string_eq}
use sky_accel.Aggregator.{
  AggregatorMsg, Config, Batch, HeapItem, Worker, heap_push, new_batch, enqueue,
}
use sky_accel.Aggregator.Emerge.{RoutedAs, start_packet-RoutedAs}

-- `c` has the route of `b`: the routing key, the next hop, and the header but for its length.
pub record SameRoute (b c : Batch) : Type 0 where
  pub routing_key : c.routing_key ≡ b.routing_key
  pub next_hop : c.next_hop ≡ b.next_hop
  pub position : c.pkt.hop_pos ≡ b.pkt.hop_pos
  pub hops : c.pkt.hop_ip ≡ b.pkt.hop_ip
  pub port : c.pkt.port ≡ b.pkt.port
  pub protocol : c.pkt.protocol ≡ b.pkt.protocol

-- `c` has the route of the message.
pub record HasRoute (m : AggregatorMsg) (c : Batch) : Type 0 where
  pub routing_key : c.routing_key ≡ m.routing_key
  pub next_hop : c.next_hop ≡ m.next_hop
  pub header : RoutedAs m c.pkt

-- `c` stands under `id`, where an old batch of the worker stood, or is new, for the route of the message.
abbrev pub ComesFrom : Worker → AggregatorMsg → ℕ → Batch → Type 0
ComesFrom w m id c =
    ((b : Batch) × (get_elem? w.store id ≡ some b) × SameRoute b c)
    ⊎ ((length w.store ≤ id) × HasRoute m c)

-- `c` is in the queue: its item is pushed, with a deadline of the timeout from now, or it was in the queue,
-- which is as before.
abbrev pub IsQueuedAt : Config → ℕ → Worker → Worker → ℕ → Batch → Type 0
IsQueuedAt cfg now w w' id c =
    (d : ℕ) × (c.heap_item ≡ some d)
    × ((d ≡ now + cfg.batch_timeout) × Mem (record { batch = id; deadline = d }) w'.heap
        ⊎ (b : Batch) × (get_elem? w.store id ≡ some b)
          × (b.heap_item ≡ some d)
          × (w'.heap ≡ w.heap))

-- The routing key has the batch `id` in its list.
abbrev pub IsListed : Worker → String → ℕ → Type 0
IsListed w key id = (ids : List ℕ) × (lookup key w.batches ≡ some ids) × Mem id ids

pub all-Mem : (xs : List ℕ) → All (λ x. Mem x xs) xs
all-Mem [] = tt
all-Mem (x ∷ xs) = (mem-cons_self, All-imp xs (λ y h. mem-cons_of_mem x h) (all-Mem xs))

pub last-Mem : (xs : List ℕ) (x : ℕ) → Mem x (xs ++ x ∷ [])
last-Mem [] x = mem-cons_self
last-Mem (y ∷ xs) x = mem-cons_of_mem y (last-Mem xs x)

pub IsListed-kept :
    (w w' : Worker) (key : String) (id : ℕ)
    → w'.batches ≡ w.batches
    → IsListed w key id
    → IsListed w' key id
IsListed-kept w w' key id e (ids, at, within) = (ids, ap (lookup key) e ∙ at, within)

pub IsListed-entered :
    (w w' : Worker) (key : String) (ids : List ℕ) (id : ℕ)
    → w'.batches ≡ insert key (ids ++ id ∷ []) w.batches
    → IsListed w' key id
IsListed-entered w w' key ids id e = (
  ids ++ id ∷ [],
  ap (lookup key) e ∙ (lookup-insert key key (ids ++ id ∷ []) w.batches ∙ rw (same_refl key) refl),
  last-Mem ids id,
)

heap_push-Mem : (x : HeapItem) (xs : List HeapItem) → Mem x (heap_push x xs)
unfolding heap_push
heap_push-Mem x [] = mem-cons_self
heap_push-Mem x (y ∷ ys) = elim (Bool-cases (ltb x.deadline y.deadline)) [
  | inl less ↦ rw less mem-cons_self
  | inr more ↦ rw more (mem-cons_of_mem y (heap_push-Mem x ys))
]

-- Behind `enqueue`: the batch in the store, elsewhere as before, and its item in the queue.
pub enqueue-Mem :
    (cfg : Config) (now : ℕ) (w : Worker) (id : ℕ) (b : Batch)
    → (d : ℕ) × ((enqueue cfg now w id b).store ≡ set w.store id (record b { heap_item = some d }))
      × ((d ≡ now + cfg.batch_timeout)
            × Mem (record { batch = id; deadline = d }) (enqueue cfg now w id b).heap
          ⊎ (b.heap_item ≡ some d) × ((enqueue cfg now w id b).heap ≡ w.heap))
unfolding enqueue
enqueue-Mem cfg now w id b = elim (Option-cases b.heap_item) [
  | inl e ↦ (
    now + cfg.batch_timeout,
    ground (arith, e),
    inl (refl, rw (e, enqueue) (heap_push-Mem _ w.heap)),
  )
  | inr (d, e) ↦ (d, ground (arith, e), inr (e, rw (e, enqueue) refl))
]

pub new_batch-HasRoute : (size now : ℕ) (m : AggregatorMsg) → HasRoute m (new_batch size now m)
unfolding new_batch
new_batch-HasRoute size now m = record {
  routing_key = refl;
  next_hop = refl;
  header = start_packet-RoutedAs size m;
}

pub HasRoute-SameRoute :
    (m : AggregatorMsg) (b c : Batch) → HasRoute m b → SameRoute b c → HasRoute m c
HasRoute-SameRoute m b c h s = record {
  routing_key = s.routing_key ∙ h.routing_key;
  next_hop = s.next_hop ∙ h.next_hop;
  header = record {
    position = s.position ∙ h.header.position;
    port = s.port ∙ h.header.port;
    hops = s.hops ∙ h.header.hops;
    protocol = s.protocol ∙ h.header.protocol;
  };
}
