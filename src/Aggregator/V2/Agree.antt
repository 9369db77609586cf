-- ===== src/Aggregator/V2/Agree.antt =====
-- The second aggregator sends what the first one sends, as long as a frame fits a buffer of the pool.
use sky_accel.Base.{
  ℕ, zero, suc, ◌+◌, ◌-◌, ◌≤◌, ◌<◌, ◌≡◌, ◌⊎◌, refl, sym, ◌∙◌, List, [], ◌∷◌, none, true, false,
  arith, ltb, leb, length, length-take_le, length-append, take, All, Bool-cases, Option-cases, inl,
  inr, get_elem?, set, get_elem?-All, get_elem?-lt,
}
use sky_accel.Base.Run.{ok, panic, Run-cases}
use sky_accel.Packet.{
  Packet, header_size, append_user_packet, serialize_head, total_bytes, total_slice, frame,
}
use sky_accel.Aggregator.{
  AggregatorMsg, Config, Batch, Worker, HeapItem, SendInfo, start_packet, deref, flush,
  emerge_message, handle_msg, drain_batch, drain_all, check_timeout,
}
use sky_accel.Packet.Append.{serialize-Carries, append_no_room}
use sky_accel.Aggregator.Store.{start_packet_room}
use sky_accel.Aggregator.Emerge.{start-Appended, sub_of}
use sky_accel.Aggregator.V2.{
  pool_size, pool_slice, emerge_message_v2, handle_msg_v2, drain_batch_v2, drain_all_v2,
  check_timeout_v2,
}

-- SerializeHead keeps the fields of a packet.
serialize_head_total : (p q : Packet) → serialize_head p ≡ ok q → total_bytes q ≡ total_bytes p
unfolding serialize_head total_bytes
serialize_head_total p q e = ground arith

pub pool_slice_fits : (p : Packet) → total_bytes p ≤ pool_size → pool_slice p ≡ total_slice p
unfolding pool_slice
pool_slice_fits p h = ground arith

ok≢panic : {A : Type 0} (a : A) → ok a ≡ panic → ⊥
ok≢panic a e = cc

pool_slice_over : (p : Packet) → pool_size < total_bytes p → pool_slice p ≡ panic
unfolding pool_slice
pool_slice_over p h = ground arith

-- A frame that is cut from a buffer is not empty.
frame_full : (p : Packet) (raw : List ℕ) → total_slice p ≡ ok raw → 0 < length raw
unfolding total_slice total_bytes
frame_full p raw e = elim (Bool-cases (ltb (length p.buf) (total_bytes p))) [
  | inl short ↦ absurd (ok≢panic raw (sym e ∙ rw short))
  | inr long ↦
      let cut : take (total_bytes p) p.buf ≡ raw = ground (arith, e, long) in
      rw (← cut) (omega (arith, length-take_le (total_bytes p) p.buf (ground (arith, long))))
]

-- Every frame of the worker fits a buffer of the pool.
abbrev pub AllFit : List Batch → Type 0
AllFit store = All (λ b. total_bytes b.pkt ≤ pool_size) store

All-set :
    (P : Batch → Type 0) (xs : List Batch) (i : ℕ) (b : Batch) → All P xs → P b → All P (set xs i b)
All-set P [] i b h p = tt
All-set P (x ∷ xs) zero b (h, hs) p = (p, hs)
All-set P (x ∷ xs) (suc i) b (h, hs) p = (h, All-set P xs i b hs p)

-- What one batch sends in both aggregators: both panic, or both send the same frame.
Agrees : ℕ → Worker → ℕ → Type 0
Agrees now w id =
    ((drain_batch now w id ≡ panic) × (drain_batch_v2 now w id ≡ panic))
    ⊎ ((w' : Worker) × (s : SendInfo) × (drain_batch now w id ≡ ok (w', s))
        × (drain_batch_v2 now w id ≡ ok (w', s))
        × AllFit w'.store
        × (flush s ≡ s ∷ []))

module _ (now : ℕ) (w : Worker) (id : ℕ) (fit : AllFit w.store) where
  drain-cut :
      (b : Batch) (q : Packet)
      → deref w id ≡ ok b
      → serialize_head b.pkt ≡ ok q
      → total_bytes q ≤ pool_size
      → Agrees now w id
  unfolding Agrees drain_batch drain_batch_v2 flush
  drain-cut b q at e small = elim (Run-cases (total_slice q)) [
    | inl (raw, cut) ↦
        let full : leb (length raw) 0 ≡ false = ground (arith, frame_full q raw cut) in
        let kept : total_bytes (record q { wp = header_size }) ≤ pool_size =
          unfold total_bytes in small in
        inr (
          record w {
            store = set w.store id (record b {
              pkt = record q { wp = header_size };
              create_time = now;
              heap_item = none;
            });
          },
          record { p = raw; routing_key = b.routing_key; next = b.next_hop },
          rw (at, drain_batch) (rw e (rw cut)),
          rw (at, drain_batch_v2) (rw e (rw (pool_slice_fits q small) (rw cut))),
          All-set (λ b. total_bytes b.pkt ≤ pool_size) w.store id _ fit kept,
          rw full,
        )
    | inr bad ↦ inl (
      rw (at, drain_batch) (rw e (rw bad)),
      rw (at, drain_batch_v2) (rw e (rw (pool_slice_fits q small) (rw bad))),
    )
  ]

  deref_fit : (b : Batch) → deref w id ≡ ok b → total_bytes b.pkt ≤ pool_size
  unfolding deref
  deref_fit b at = elim (Option-cases (get_elem? w.store id)) [
    | inl e ↦ absurd (ok≢panic b (sym at ∙ rw (e, deref)))
    | inr (b', e) ↦
        let same : b' ≡ b = ground (arith, at, e) in
        let (a, found, fits) =
          get_elem?-All (λ b. total_bytes b.pkt ≤ pool_size) w.store id fit
            (get_elem?-lt w.store id b' e) in
        let same' : a ≡ b' = ground (arith, found, e) in rw (← same) (rw (← same') fits)
  ]

  drain_batch-Agrees : Agrees now w id
  unfolding Agrees drain_batch drain_batch_v2
  drain_batch-Agrees = elim (Run-cases (deref w id)) [
    | inr lost ↦ inl (rw (lost, drain_batch), rw (lost, drain_batch_v2))
    | inl (b, at) ↦ elim (Run-cases (serialize_head b.pkt)) [
      | inl (q, e) ↦ drain-cut b q at e (rw (serialize_head_total b.pkt q e) (deref_fit b at))
      | inr bad ↦ inl (rw (at, drain_batch) (rw bad), rw (at, drain_batch_v2) (rw bad))
    ]
  ]

drain_all_v2-drain_all :
    (now : ℕ) (w : Worker) (xs : List HeapItem)
    → AllFit w.store
    → drain_all_v2 now w xs ≡ drain_all now w xs
unfolding drain_all drain_all_v2 Agrees
drain_all_v2-drain_all now w [] fit = refl
drain_all_v2-drain_all now w (x ∷ xs) fit = elim (drain_batch-Agrees now w x.batch fit) [
  | inl (e, e') ↦ rw (e, drain_all) (rw (e', drain_all_v2))
  | inr (w', s, e, e', fit', full) ↦
      rw (e, drain_all)
        (rw (e', drain_all_v2) (rw full (rw (drain_all_v2-drain_all now w' xs fit'))))
]

-- While the frame of no batch is longer than 65536 bytes, the two versions of checkTimeout end in
-- the same worker and send the same frames, or both panic.
pub check_timeout_v2-check_timeout :
    (now : ℕ) (w : Worker) → AllFit w.store → check_timeout_v2 now w ≡ check_timeout now w
unfolding check_timeout_v2 check_timeout
check_timeout_v2-check_timeout now w fit = drain_all_v2-drain_all now _ _ fit

module _ (size : ℕ) (m : AggregatorMsg) where
  emerge-sent :
      (q : Packet)
      → append_user_packet (start_packet size m) m.user_id m.content ≡ ok (q, true)
      → total_bytes q ≤ pool_size
      → emerge_message_v2 size m ≡ emerge_message size m
  unfolding emerge_message_v2 emerge_message frame
  emerge-sent q e small = elim (Run-cases (serialize_head q)) [
    | inr bad ↦ rw (e, emerge_message_v2, emerge_message) (rw bad)
    | inl (h, head) ↦
        let fits : total_bytes h ≤ pool_size = rw (serialize_head_total q h head) small in
        elim (Run-cases (total_slice h)) [
          | inr bad ↦
              rw (e, emerge_message_v2, emerge_message)
                (rw head (rw (pool_slice_fits h fits) (rw bad)))
          | inl (raw, cut) ↦
              let full : leb (length raw) 0 ≡ false = ground (arith, frame_full h raw cut) in
              rw (e, emerge_message_v2, emerge_message)
                (rw head (rw (pool_slice_fits h fits) (rw cut (unfold flush in rw full))))
        ]
  ]

-- A message that is sent at once in a frame of at most 64 KiB is sent in the same way by both
-- aggregators, and one that does not fit its buffer is dropped by both.
pub emerge_message_v2-emerge_message :
    (size : ℕ) (m : AggregatorMsg)
    → length m.content ≤ pool_size - 30
    → emerge_message_v2 size m ≡ emerge_message size m
unfolding emerge_message_v2 emerge_message
emerge_message_v2-emerge_message size m short =
    elim (Bool-cases (leb (header_size + (6 + length m.content)) size)) [
      | inr no_room ↦
          let (wp, size_eq) = start_packet_room size m in
          let short_of : (start_packet size m).buff_size
              < (start_packet size m).wp + (6 + length m.content) =
            ground (arith, no_room, wp, size_eq) in
          rw (
            append_no_room (start_packet size m) m.user_id m.content short_of,
            emerge_message_v2,
            emerge_message,
          )
      | inl room ↦
          let (q, e, a) = start-Appended size m (ground (arith, room)) in
          emerge-sent size m q e
            (unfold total_bytes in omega (arith, a.announced, length-append m.content []))
    ]

-- One with 65507 to 65529 bytes of content makes the second aggregator panic: the frame is longer than
-- a buffer of the pool.
pub emerge_message_v2-panic :
    (m : AggregatorMsg)
    → 65506 < length m.content
    → length m.content < 65530
    → emerge_message_v2 (header_size + 4 + 2 + length m.content) m ≡ panic
unfolding emerge_message_v2 pool_slice total_bytes
emerge_message_v2-panic m long short =
    let size = header_size + 4 + 2 + length m.content in
    let (q, e, a) = start-Appended size m (omega arith) in
    let head = serialize-Carries q (sub_of m ∷ []) a.carries in
    let over : pool_size < total_bytes q = omega (arith, a.announced, length-append m.content []) in
    rw (e, emerge_message_v2) (rw head (rw (pool_slice_over (record q { buf = _ }) over)))

-- A message of 128 to 1023 bytes on a worker with a batch
-- timeout above 20 ms is handled by both versions of handleMsg in the same way.
pub handle_msg_v2-handle_msg :
    (cfg : Config) (now : ℕ) (w : Worker) (m : AggregatorMsg)
    → 128 ≤ length m.content
    → length m.content < 1024
    → 20 < cfg.batch_timeout
    → handle_msg_v2 cfg now w m ≡ handle_msg cfg now w m
unfolding handle_msg_v2 handle_msg
handle_msg_v2-handle_msg cfg now w m long short slow =
    let a : leb 1024 (length m.content) ≡ false = ground arith in
    let b : ltb (length m.content) 128 ≡ false = ground arith in
    let c : leb cfg.batch_timeout 20 ≡ false = ground arith in
    rw a (rw b (rw c (rw (emerge_message_v2-emerge_message cfg.buffer_size m (omega arith)))))
