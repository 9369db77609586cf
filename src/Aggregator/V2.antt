-- ===== src/Aggregator/V2.antt =====
-- data-proxy/aggregator/aggregator_v2.go: the aggregator in 16 shards. A shard has the map and the queue of
-- one worker of the first aggregator, and the steps on a batch are the same code; what differs is
-- when a message is sent at once, the buffers of 64 KiB that frames are sent in, and the loops that
-- hand a message to a shard. `hash` is the 32-bit FNV-1a of hash/fnv.
pub mod Agree
pub mod Shards
use sky_accel.Base.{
  ℕ, suc, ◌+◌, ◌%◌, ◌≡◌, List, [], ◌∷◌, ◌++◌, Option, none, some, Bool, true, false, ltb, leb, ◌==◌,
  ◌||◌, if◌then◌else◌, length, get_elem?, set, map,
}
use sky_accel.Base.Run.{Run, ok, panic, ◌>>=◌}
use sky_accel.Packet.{
  Packet, header_size, append_user_packet, serialize_head, total_bytes, total_slice,
}
use sky_accel.Aggregator.{
  AggregatorMsg, Config, Worker, HeapItem, SendInfo, start_packet, batch_message, deref, expire,
  evict_stale_batches,
}
use Prim.Native.String.{String}

abbrev pub shard_count : ℕ
shard_count = 16

-- The capacity of the buffers of bufPool.
abbrev pub pool_size : ℕ
pool_size = 65536

pub record AggregatorV2 : Type 0 where
  pub shard_workers : List Worker

unfoldable pub hash_routing_key : (String → ℕ) → String → ℕ
hash_routing_key hash key = hash key % shard_count

-- `buf := bufPool.Get().([]byte)[:pkt.TotalBytes()]; copy(buf, pkt.Buf[:pkt.TotalBytes()])`
unfoldable pub pool_slice : Packet → Run (List ℕ)
pool_slice p = if ltb pool_size (total_bytes p) then panic else total_slice p

unfoldable pub emerge_message_v2 : ℕ → AggregatorMsg → Run (List SendInfo)
emerge_message_v2 size m = do
  r ← append_user_packet (start_packet size m) m.user_id m.content
  let sent = do
    q ← serialize_head r.0
    buf ← pool_slice q
    ok (record { p = buf; routing_key = m.routing_key; next = m.next_hop } ∷ [])
  if r.1 then sent else ok []

-- handleMsg
unfoldable pub handle_msg_v2 : Config → ℕ → Worker → AggregatorMsg → Run (Worker × List SendInfo)
handle_msg_v2 cfg now sw m =
    let big = leb 1024 (length m.content) in
    let size = if big then header_size + 4 + 2 + length m.content else cfg.buffer_size in
    if m.emerge || big
    then (do sent ← emerge_message_v2 size m; ok (sw, sent))
    else (do sw' ← batch_message cfg now sw m; ok (sw', []))

unfoldable pub drain_batch_v2 : ℕ → Worker → ℕ → Run (Worker × SendInfo)
drain_batch_v2 now sw id = do
  b ← deref sw id
  q ← serialize_head b.pkt
  buf ← pool_slice q
  ok (
    record sw {
      store =
          set sw.store id
            (record b { pkt = record q { wp = header_size }; create_time = now; heap_item = none });
    },
    record { p = buf; routing_key = b.routing_key; next = b.next_hop },
  )

unfoldable pub drain_all_v2 : ℕ → Worker → List HeapItem → Run (Worker × List SendInfo)
drain_all_v2 now sw [] = ok (sw, [])
drain_all_v2 now sw (x ∷ xs) = do
  r ← drain_batch_v2 now sw x.batch
  rest ← drain_all_v2 now r.0 xs
  ok (rest.0, r.1 ∷ rest.1)

-- checkTimeout
unfoldable pub check_timeout_v2 : ℕ → Worker → Run (Worker × List SendInfo)
unfolding expire
check_timeout_v2 now sw =
    let (expired, rest) = expire now sw.heap in drain_all_v2 now (record sw { heap = rest }) expired

-- A step of one shard.
unfoldable pub on_shard :
    AggregatorV2 → ℕ → (Worker → Run (Worker × List SendInfo)) → Run (AggregatorV2 × List SendInfo)
on_shard a i f = elim (get_elem? a.shard_workers i) [
  | none ↦ panic
  | some sw ↦ do r ← f sw; ok (record { shard_workers = set a.shard_workers i r.0 }, r.1)
]

-- One turn of the loop of goroutine `shard_idx` in Start, on a message that it took from inputChan, which
-- all the goroutines share.
unfoldable pub receive :
    (String → ℕ)
    → Config
    → ℕ
    → AggregatorV2
    → ℕ
    → AggregatorMsg
    → Run (AggregatorV2 × List SendInfo)
receive hash cfg now a shard_idx m =
    if hash_routing_key hash m.routing_key == shard_idx
    then on_shard a shard_idx (λ sw. handle_msg_v2 cfg now sw m)
    else ok (a, [])

-- The turns of the goroutines for the messages of inputChan, each with the goroutine that takes it.
unfoldable pub receive_all :
    (String → ℕ)
    → Config
    → ℕ
    → AggregatorV2
    → List (ℕ × AggregatorMsg)
    → Run (AggregatorV2 × List SendInfo)
receive_all hash cfg now a [] = ok (a, [])
receive_all hash cfg now a ((i, m) ∷ ms) = do
  r ← receive hash cfg now a i m
  rest ← receive_all hash cfg now r.0 ms
  ok (rest.0, r.1 ++ rest.1)

-- The dispatcher: the send worker that gets a task, a panic with no send worker.
unfoldable pub dispatch : (String → ℕ) → ℕ → SendInfo → Run ℕ
dispatch hash workers task =
    if workers == 0 then panic else ok (hash_routing_key hash task.routing_key % workers)

-- evictStaleBatches
unfoldable pub evict_stale_batches_v2 : ℕ → AggregatorV2 → AggregatorV2
evict_stale_batches_v2 now a = record {
  shard_workers = map (evict_stale_batches now) a.shard_workers;
}
