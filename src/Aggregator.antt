-- ===== src/Aggregator.antt =====
-- data-proxy/aggregator/aggregator.go: batches of sub-packets for each route, and the queue of their
-- deadlines. Times are milliseconds. A batch is an object that the map, the queue and a handler share: it
-- stands in `store`, under its number. The queue lists the items in the order in which
-- container/heap pops them, a least deadline first. Of equal deadlines the list has the one first that
-- was pushed first, where container/heap may pop another; no theorem depends on it. An
-- item's index is its place. A critical section is one step, and a handler is its sections in order.
pub mod V2
pub mod Addresses
pub mod Store
pub mod Emerge
pub mod Entry
pub mod Place
pub mod Locate
pub mod Sound
pub mod Drain
pub mod Timeout
pub mod Queue
pub mod Later
use sky_accel.Base.{
  ℕ, zero, suc, ◌+◌, ◌%◌, ◌≡◌, List, [], ◌∷◌, ◌++◌, Option, none, some, Bool, true, false, ltb, leb,
  ◌==◌, ◌&&◌, ◌||◌, not, if◌then◌else◌, length, get_elem?, set, replicate,
}
use sky_accel.Base.Keys.{lookup, insert, delete, string_eq}
use sky_accel.Base.Run.{Run, ok, panic, ◌>>=◌}
use sky_accel.Packet.{
  Packet, header_size, new_packet, set_hop_ip, set_port, set_protocol, set_hop_pos,
  append_user_packet, serialize_head, total_slice, frame,
}
use sky_accel.Util.{hop_ip_to_net}
use Prim.Native.String.{String}

pub record AggregatorMsg : Type 0 where
  pub emerge : Bool
  pub routing_key : String
  pub protocol : String
  pub port : ℕ
  pub hops : List (List ℕ)
  pub next_hop : List ℕ
  pub user_id : ℕ
  pub content : List ℕ

-- The entries of config.Config_ and config.BatchNumMap that the handlers read.
pub record Config : Type 0 where
  pub buffer_size : ℕ
  pub batch_timeout : ℕ
  pub batch_num : ℕ → Option ℕ

-- `heap_item` is the deadline of the batch's item in the queue.
pub record Batch : Type 0 where
  pub buff_size : ℕ
  pub routing_key : String
  pub next_hop : List ℕ
  pub pkt : Packet
  pub heap_item : Option ℕ
  pub create_time : ℕ

pub record HeapItem : Type 0 where
  pub batch : ℕ
  pub deadline : ℕ

pub record Worker : Type 0 where
  pub batches : List (String × List ℕ)
  pub heap : List HeapItem
  pub store : List Batch

pub record SendInfo : Type 0 where
  pub p : List ℕ
  pub routing_key : String
  pub next : List ℕ

abbrev pub batch_max_age : ℕ
batch_max_age = 60000

-- heap.Push, heap.Remove
unfoldable pub heap_push : HeapItem → List HeapItem → List HeapItem
heap_push x [] = x ∷ []
heap_push x (y ∷ ys) = if ltb x.deadline y.deadline then x ∷ y ∷ ys else y ∷ heap_push x ys

unfoldable pub heap_remove : ℕ → List HeapItem → List HeapItem
heap_remove id [] = []
heap_remove id (y ∷ ys) = if y.batch == id then ys else y ∷ heap_remove id ys

-- `for i, h := range msg.routingInfo.Hops { pkt.SetHopIP(i, util.HopIPToNet(h)) }`
unfoldable pub set_hops : Packet → ℕ → List (List ℕ) → Packet
set_hops p i [] = p
set_hops p i (h ∷ hs) = set_hops (set_hop_ip p i (hop_ip_to_net h)) (suc i) hs

-- The packet that every batch and every emerging message starts with.
unfoldable pub start_packet : ℕ → AggregatorMsg → Packet
start_packet size m =
    set_hop_pos (set_protocol (set_port (set_hops (new_packet size) 0 m.hops) m.port) m.protocol) 1

unfoldable pub new_batch : ℕ → ℕ → AggregatorMsg → Batch
new_batch size now m = record {
  buff_size = size;
  routing_key = m.routing_key;
  next_hop = m.next_hop;
  pkt = start_packet size m;
  heap_item = none;
  create_time = now;
}

-- `flush` hands a frame that is not empty to the tunnel.
unfoldable pub flush : SendInfo → List SendInfo
flush s = if leb (length s.p) 0 then [] else s ∷ []

-- An emerging message is a frame of its own; one that does not fit its buffer is dropped.
unfoldable pub emerge_message : ℕ → AggregatorMsg → Run (List SendInfo)
emerge_message size m = do
  r ← append_user_packet (start_packet size m) m.user_id m.content
  let sent = do
    buf ← frame r.0
    ok (flush (record { p = buf; routing_key = m.routing_key; next = m.next_hop }))
  if r.1 then sent else ok []

-- `bList[int(userID) % lList]`
unfoldable pub pick : ℕ → List ℕ → Option ℕ
pick user_id ids =
    if length ids == 0
    then none
    else if leb (length ids) 1
    then get_elem? ids 0
    else get_elem? ids (user_id % length ids)

unfoldable pub ids_of : Worker → String → List ℕ
ids_of w key = elim (lookup key w.batches) [ none ↦ [] | some ids ↦ ids ]

abbrev pub batch_count : Config → ℕ → ℕ
batch_count cfg port = elim (cfg.batch_num port) [ none ↦ 1 | some n ↦ if n == 0 then 1 else n ]

-- The numbers of `n` new batches behind `from`.
abbrev pub numbers : ℕ → ℕ → List ℕ
numbers from zero = []
numbers from (suc n) = from ∷ numbers (suc from) n

-- `num` new batches, which become the route's list if it has none.
unfoldable pub grow : Config → ℕ → Worker → AggregatorMsg → Worker
grow cfg now w m =
    let n = batch_count cfg m.port in
    let fresh = numbers (length w.store) n in
    record w {
      batches = elim (lookup m.routing_key w.batches) [
        | none ↦ insert m.routing_key fresh w.batches
        | some ids ↦ w.batches
      ];
      store = w.store ++ replicate n (new_batch cfg.buffer_size now m);
    }

-- The batch for a message: one that the map has, or one that it has behind `grow`.
unfoldable pub locate : Config → ℕ → Worker → AggregatorMsg → Worker × Option ℕ
locate cfg now w m = elim (pick m.user_id (ids_of w m.routing_key)) [
  | some id ↦ (w, some id)
  | none ↦ let w' = grow cfg now w m in (w', pick m.user_id (ids_of w' m.routing_key))
]

-- A pointer to a batch.
unfoldable pub deref : Worker → ℕ → Run Batch
deref w id = elim (get_elem? w.store id) [ none ↦ panic | some b ↦ ok b ]

-- `if b.heapItem == nil { … heap.Push … }`
unfoldable pub enqueue : Config → ℕ → Worker → ℕ → Batch → Worker
enqueue cfg now w id b = elim b.heap_item [
  | some d ↦ record w { store = set w.store id b }
  | none ↦ record w {
    store = set w.store id (record b { heap_item = some (now + cfg.batch_timeout) });
    heap = heap_push (record { batch = id; deadline = now + cfg.batch_timeout }) w.heap;
  }
]

-- A batch that cannot take the message is left, and a new one takes its place at the end of the
-- route's list; that the message goes into this one is not tested.
unfoldable pub replace : Config → ℕ → Worker → AggregatorMsg → Run Worker
replace cfg now w m =
    let id = length w.store in
    let b = new_batch cfg.buffer_size now m in
    let w' = record w {
      store = w.store ++ b ∷ [];
      batches = insert m.routing_key (ids_of w m.routing_key ++ id ∷ []) w.batches;
    } in
    do
      r ← append_user_packet b.pkt m.user_id m.content
      ok (enqueue cfg now w' id (record b { pkt = r.0 }))

abbrev pub is_none {ℓ} : {A : Type ℓ} → Option A → Bool
is_none none = true
is_none (some a) = false

unfoldable pub place : Config → ℕ → Worker → AggregatorMsg → ℕ → Run Worker
place cfg now w m id = do
  b ← deref w id
  let appended = do
    r ← append_user_packet b.pkt m.user_id m.content
    if r.1 then ok (enqueue cfg now w id (record b { pkt = r.0 })) else replace cfg now w m
  if is_none b.heap_item && ltb header_size b.pkt.wp then replace cfg now w m else appended

-- With no batch found the message is dropped.
unfoldable pub settle : Config → ℕ → AggregatorMsg → Worker × Option ℕ → Run Worker
settle cfg now m (w, none) = ok w
settle cfg now m (w, some id) = place cfg now w m id

-- The part of handleMsg for a message that may wait.
unfoldable pub batch_message : Config → ℕ → Worker → AggregatorMsg → Run Worker
unfolding settle
batch_message cfg now w m = settle cfg now m (locate cfg now w m)

-- handleMsg
unfoldable pub handle_msg : Config → ℕ → Worker → AggregatorMsg → Run (Worker × List SendInfo)
handle_msg cfg now w m =
    let small = ltb (length m.content) 128 || leb cfg.batch_timeout 20 in
    let size = if small then header_size + 4 + 2 + length m.content else cfg.buffer_size in
    if m.emerge || small
    then (do sent ← emerge_message size m; ok (w, sent))
    else (do w' ← batch_message cfg now w m; ok (w', []))

-- The first loop of checkTimeout: the items up to `now`, and the queue without them.
unfoldable pub expire : ℕ → List HeapItem → List HeapItem × List HeapItem
expire now [] = ([], [])
expire now (x ∷ xs) =
    let r = expire now xs in if ltb now x.deadline then ([], x ∷ xs) else (x ∷ r.0, r.1)

-- The second loop: the frame of one batch, which is empty again behind it.
unfoldable pub drain_batch : ℕ → Worker → ℕ → Run (Worker × SendInfo)
drain_batch now w id = do
  b ← deref w id
  q ← serialize_head b.pkt
  buf ← total_slice q
  ok (
    record w {
      store =
          set w.store id
            (record b { pkt = record q { wp = header_size }; create_time = now; heap_item = none });
    },
    record { p = buf; routing_key = b.routing_key; next = b.next_hop },
  )

unfoldable pub drain_all : ℕ → Worker → List HeapItem → Run (Worker × List SendInfo)
drain_all now w [] = ok (w, [])
drain_all now w (x ∷ xs) = do
  r ← drain_batch now w x.batch
  rest ← drain_all now r.0 xs
  ok (rest.0, flush r.1 ++ rest.1)

-- checkTimeout
unfoldable pub check_timeout : ℕ → Worker → Run (Worker × List SendInfo)
unfolding expire
check_timeout now w =
    let (expired, rest) = expire now w.heap in drain_all now (record w { heap = rest }) expired

-- evictStaleBatches: a route with a stale batch is removed, and the items of its batches.
abbrev pub is_stale : ℕ → Worker → ℕ → Bool
is_stale now w id = elim (get_elem? w.store id) [
  | none ↦ false
  | some b ↦ ltb (b.create_time + batch_max_age) now
]

abbrev pub any_stale : ℕ → Worker → List ℕ → Bool
any_stale now w [] = false
any_stale now w (id ∷ ids) = let rest = any_stale now w ids in is_stale now w id || rest

abbrev pub is_queued : Worker → ℕ → Bool
is_queued w id = elim (get_elem? w.store id) [ none ↦ false | some b ↦ not (is_none b.heap_item) ]

unfoldable pub remove_items : Worker → List ℕ → List HeapItem → List HeapItem
remove_items w [] heap = heap
remove_items w (id ∷ ids) heap =
    remove_items w ids (if is_queued w id then heap_remove id heap else heap)

unfoldable pub evict_routes : ℕ → Worker → List (String × List ℕ) → Worker
evict_routes now w [] = w
evict_routes now w ((key, ids) ∷ routes) =
    evict_routes now
      (if any_stale now w ids
        then record w { heap = remove_items w ids w.heap; batches = delete key w.batches }
        else w)
      routes

unfoldable pub evict_stale_batches : ℕ → Worker → Worker
evict_stale_batches now w = evict_routes now w w.batches
