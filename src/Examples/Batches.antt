-- ===== src/Examples/Batches.antt =====
-- data-proxy/aggregator: a message of 128 bytes on an empty worker, and a worker with one batch.
use sky_accel.Base.{
  length-replicate, ℕ, zero, suc, ◌+◌, ◌≡◌, ◌⊎◌, refl, List, [], ◌∷◌, some, Bool, true, false,
  arith, length, get_elem?, replicate,
}
use sky_accel.Base.Keys.{lookup, string_eq}
use sky_accel.Base.Run.{ok, panic}
use sky_accel.Packet.{Packet, SubPacket, header_size, total_bytes}
use sky_accel.Packet.RoundTrip.{IsFrame}
use sky_accel.Aggregator.{
  AggregatorMsg, Config, Batch, HeapItem, Worker, SendInfo, handle_msg, check_timeout,
  emerge_message,
}
use sky_accel.Aggregator.Emerge.{IsMsg, sub_of, RoutedAs, emerge_message-IsFrame}
use sky_accel.Aggregator.Place.{Holds, IsSound}
use sky_accel.Aggregator.Sound.{Waits, handle_msg-Waits}
use sky_accel.Aggregator.Drain.{AllSent, Drained}
use sky_accel.Aggregator.Timeout.{IsCut, IsQueue, check_timeout-AllSent}
use sky_accel.Aggregator.Queue.{handle_msg-IsQueue}
use sky_accel.Aggregator.V2.{emerge_message_v2, handle_msg_v2, check_timeout_v2, receive}
use sky_accel.Aggregator.V2.Agree.{
  check_timeout_v2-check_timeout, handle_msg_v2-handle_msg, emerge_message_v2-panic,
}
use sky_accel.Aggregator.V2.Shards.{receive_loses}
use sky_accel.Examples.Frames.{one_sub, sample, sample-Carries, sample-InRange}

abbrev msg : Bool → ℕ → AggregatorMsg
msg emerge size = record {
  emerge = emerge;
  routing_key = "10.0.0.2-80";
  protocol = "tcp";
  port = 80;
  hops = [];
  next_hop = 10 ∷ 0 ∷ 0 ∷ 2 ∷ [];
  user_id = 7;
  content = replicate size 1;
}

abbrev config : ℕ → Config
config size = record { buffer_size = size; batch_timeout = 50; batch_num = λ port. some 2 }

abbrev empty : Worker
empty = record { batches = []; heap = []; store = [] }

msg-IsMsg : (emerge : Bool) (size : ℕ) → IsMsg (msg emerge size)
msg-IsMsg emerge size = record { user_id = omega arith; port = omega arith }

empty-IsSound : IsSound empty
unfolding lookup
empty-IsSound = record { holds = λ i b e. cc; mapped = λ key ids e. cc }

-- A worker with one batch in its queue.
abbrev waiting : Batch
waiting = record {
  buff_size = 64;
  routing_key = "10.0.0.2-80";
  next_hop = 10 ∷ 0 ∷ 0 ∷ 2 ∷ [];
  pkt = sample 80;
  heap_item = some 50;
  create_time = 0;
}

abbrev busy : Worker
busy = record {
  batches = [];
  heap = record { batch = 0; deadline = 50 } ∷ [];
  store = waiting ∷ [];
}

waiting-Holds : Holds waiting one_sub
waiting-Holds = record {
  carries = sample-Carries;
  announced = λ _. refl;
  idle = λ e. cc;
  busy = λ d e. omega arith;
  in_range = sample-InRange 80 (omega arith);
  fits = ((omega arith, omega arith), tt);
  small = omega arith;
}

only_waiting :
    (i : ℕ) (b : Batch) → get_elem? busy.store i ≡ some b → (subs : List SubPacket) × Holds b subs
only_waiting zero b e =
    let same : waiting ≡ b = ground (arith, e) in (one_sub, rw (← same) waiting-Holds)
only_waiting (suc i) b e = cc

busy-IsSound : IsSound busy
unfolding lookup
busy-IsSound = record { holds = only_waiting; mapped = λ key ids e. cc }

busy-IsQueue : IsQueue busy
busy-IsQueue = record { ordered = (tt, tt); busy = ((waiting, refl, refl), tt); differ = (tt, tt) }

handle_msg-Waits_example :
    (w' : Worker) × (handle_msg (config 256) 0 empty (msg false 128) ≡ ok (w', []))
    × IsSound w'
    × (id : ℕ) × (subs : List SubPacket) × Waits (config 256) 0 empty w' (msg false 128) id subs
handle_msg-Waits_example =
    handle_msg-Waits (config 256) 0 empty (msg false 128) (msg-IsMsg false 128) empty-IsSound
      (omega arith) (omega arith) refl (omega arith) (omega arith)

check_timeout-AllSent_example :
    (due later : List HeapItem) × IsCut 60 busy.heap due later
    × (w' : Worker) × (sent : List SendInfo) × (check_timeout 60 busy ≡ ok (w', sent))
    × IsSound w'
    × AllSent busy.store due sent
    × Drained (record busy { heap = later }) w' due
check_timeout-AllSent_example = check_timeout-AllSent 60 busy busy-IsSound busy-IsQueue

emerge_message-IsFrame_example :
    (q : Packet) × (raw : List ℕ) × (emerge_message 35 (msg true 5)
      ≡ ok (record { p = raw; routing_key = "10.0.0.2-80"; next = 10 ∷ 0 ∷ 0 ∷ 2 ∷ [] } ∷ []))
    × IsFrame q (sub_of (msg true 5) ∷ []) raw
    × RoutedAs (msg true 5) q
emerge_message-IsFrame_example =
    emerge_message-IsFrame (msg true 5) 35 (msg-IsMsg true 5) (omega arith) (omega arith)

check_timeout_v2-check_timeout_example : check_timeout_v2 60 busy ≡ check_timeout 60 busy
check_timeout_v2-check_timeout_example =
    check_timeout_v2-check_timeout 60 busy (unfold total_bytes in omega arith, tt)

handle_msg_v2-handle_msg_example :
    handle_msg_v2 (config 256) 0 empty (msg false 128)
    ≡ handle_msg (config 256) 0 empty (msg false 128)
handle_msg_v2-handle_msg_example =
    handle_msg_v2-handle_msg (config 256) 0 empty (msg false 128) (omega arith) (omega arith)
      (omega arith)

emerge_message_v2-panic_example :
    emerge_message_v2 (header_size + 4 + 2 + length (msg true 65510).content) (msg true 65510)
    ≡ panic
emerge_message_v2-panic_example =
    emerge_message_v2-panic (msg true 65510) (omega (arith, length-replicate {A = ℕ} 65510 1))
      (omega (arith, length-replicate {A = ℕ} 65510 1))

receive_loses_example :
    (receive
        (λ key. 5)
        (config 256)
        0
        (record { shard_workers = replicate 16 empty })
        3
        (msg false 128)
      ≡ ok (record { shard_workers = replicate 16 empty }, []))
    ⊎ (receive
          (λ key. 5)
          (config 256)
          0
          (record { shard_workers = replicate 16 empty })
          5
          (msg false 128)
        ≡ ok (record { shard_workers = replicate 16 empty }, []))
receive_loses_example =
    receive_loses (λ key. 5) (config 256) 0 (record { shard_workers = replicate 16 empty }) 3 5
      (msg false 128) (omega arith)

-- The empty worker with one message added, and the worker with one batch once it is sent.
added :
    (w' : Worker) × (handle_msg (config 256) 0 empty (msg false 128) ≡ ok (w', []))
    × IsSound w'
    × (id : ℕ) × (subs : List SubPacket) × Waits (config 256) 0 empty w' (msg false 128) id subs
added =
    handle_msg-Waits (config 256) 0 empty (msg false 128) (msg-IsMsg false 128) empty-IsSound
      (omega arith) (omega arith) refl (omega arith) (omega arith)

flushed : (w' : Worker) × (sent : List SendInfo) × (check_timeout 60 busy ≡ ok (w', sent))
flushed = let r = check_timeout-AllSent 60 busy busy-IsSound busy-IsQueue in (r.3, r.4, r.5)

handle_msg-IsQueue_example : IsQueue added.0
handle_msg-IsQueue_example =
    handle_msg-IsQueue (config 256) 0 (msg false 128) empty added.0 [] added.1
      (record { ordered = tt; busy = tt; differ = tt })
