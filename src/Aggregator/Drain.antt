-- ===== src/Aggregator/Drain.antt =====
-- The second loop of checkTimeout: the batch of each item is sent and is empty again.
use sky_accel.Base.{
  ℕ, ◌<◌, ◌≡◌, ◌≢◌, inl, inr, refl, sym, ap, ◌∙◌, List, [], ◌∷◌, ◌++◌, none, some, false, arith,
  leb, ◌==◌, length, All, Bool-cases, length-append, get_elem?, set, length-set, drop, length-drop,
  get_elem?-set_self, get_elem?-set_ne, All-both,
}
use mathlib.Core.List.{append_assoc, append-nil}
use sky_accel.Base.Run.{ok, ◌>>=◌}
use sky_accel.Packet.{
  Packet, SubPacket, header_size, header_bytes, serialize_head, total_slice, frame,
}
use sky_accel.Packet.Append.{encode, serialize-Carries}
use sky_accel.Packet.RoundTrip.{frame-IsFrame, ReadBack, IsFrame-ReadBack}
use sky_accel.Aggregator.{Batch, HeapItem, Worker, SendInfo, flush, drain_batch, drain_all}
use sky_accel.Aggregator.Place.{Holds, IsSound, deref-some}

-- The batch behind `serialize_head` and the reset.
abbrev reset : ℕ → Batch → List ℕ → Batch
reset now b buf = record b {
  pkt = record b.pkt { buf = buf; wp = header_size };
  create_time = now;
  heap_item = none;
}

reset-Holds :
    (now : ℕ) (b : Batch) (subs : List SubPacket) (h : Holds b subs)
    → Holds
        (reset now b
          (((header_bytes b.pkt ++ drop 22 h.carries.head) ++ encode subs) ++ h.carries.room))
        []
reset-Holds now b subs h =
    let c = h.carries in
    let head = header_bytes b.pkt ++ drop 22 c.head in
    record {
      carries = record {
        head = head;
        room = encode subs ++ c.room;
        head_size = omega (
          arith,
          length-append (header_bytes b.pkt) (drop 22 c.head),
          length-drop 22 c.head,
          c.head_size,
        );
        layout =
            rw (append_assoc head (encode subs) c.room)
              (ap (λ xs. xs ++ (encode subs ++ c.room)) (sym (append-nil head)));
        written = refl;
        capacity = omega (arith, c.capacity, c.written, length-append (encode subs) c.room);
      };
      announced = λ e. absurd (omega arith);
      idle = λ _. refl;
      busy = λ d e. cc;
      in_range = record {
        hop0 = h.in_range.hop0;
        hop1 = h.in_range.hop1;
        hop2 = h.in_range.hop2;
        hop3 = h.in_range.hop3;
        payload_len = h.in_range.payload_len;
        port = h.in_range.port;
      };
      fits = tt;
      small = h.small;
    }

-- A batch that is sent: its frame goes where the batch goes, and gives back the header and what the
-- batch held.
pub record IsSent (store : List Batch) (x : HeapItem) (s : SendInfo) : Type 0 where
  pub b : Batch
  pub subs : List SubPacket
  pub at : get_elem? store x.batch ≡ some b
  pub held : Holds b subs
  pub content : 0 < length subs
  pub read_back : ReadBack b.pkt subs s.p
  pub route : s.routing_key ≡ b.routing_key
  pub next : s.next ≡ b.next_hop

-- One frame for each item, in the order of the items.
pub data AllSent (store : List Batch) : List HeapItem → List SendInfo → Type 0 where
  nothing : AllSent store [] []
  also :
      {x : HeapItem} {xs : List HeapItem} {s : SendInfo} {ss : List SendInfo}
      → IsSent store x s
      → AllSent store xs ss
      → AllSent store (x ∷ xs) (s ∷ ss)

-- A batch in the queue.
abbrev pub IsBusy : Worker → HeapItem → Type 0
IsBusy w x = (b : Batch) × (get_elem? w.store x.batch ≡ some b) × (b.heap_item ≡ some x.deadline)

-- The items of a queue are of different batches.
abbrev pub AllDiffer : List HeapItem → Type 0
AllDiffer [] = Unit
AllDiffer (x ∷ xs) = All (λ y. y.batch ≢ x.batch) xs × AllDiffer xs

IsSent-kept :
    (w w' : Worker) (x : HeapItem) (s : SendInfo)
    → get_elem? w.store x.batch ≡ get_elem? w'.store x.batch
    → IsSent w'.store x s
    → IsSent w.store x s
IsSent-kept w w' x s k t = record {
  b = t.b;
  subs = t.subs;
  at = k ∙ t.at;
  held = t.held;
  content = t.content;
  read_back = t.read_back;
  route = t.route;
  next = t.next;
}

AllSent-kept :
    (w w' : Worker) (i : ℕ) (xs : List HeapItem) (ss : List SendInfo)
    → ((j : ℕ) → j ≢ i → get_elem? w'.store j ≡ get_elem? w.store j)
    → All (λ y. y.batch ≢ i) xs
    → AllSent w'.store xs ss
    → AllSent w.store xs ss
AllSent-kept w w' i [] [] k d nothing = nothing
AllSent-kept w w' i [] (s ∷ ss) k d t = elim t [ ]
AllSent-kept w w' i (x ∷ xs) [] k d t = elim t [ ]
AllSent-kept w w' i (x ∷ xs) (s ∷ ss) k (d, ds) (also t ts) =
    also (IsSent-kept w w' x s (sym (k x.batch d)) t) (AllSent-kept w w' i xs ss k ds ts)

frame_slice :
    (p q : Packet) (raw : List ℕ)
    → serialize_head p ≡ ok q
    → frame p ≡ ok raw
    → total_slice q ≡ ok raw
unfolding frame
frame_slice p q raw e f = sym (ap (λ r. r >>= total_slice) e) ∙ f

-- A batch in the queue is sent and is empty behind it.
drain_batch-IsSent :
    (now : ℕ) (w : Worker) (x : HeapItem)
    → IsSound w
    → IsBusy w x
    → (b : Batch) × (s : SendInfo) × (drain_batch now w x.batch
        ≡ ok (record w { store = set w.store x.batch b }, s))
      × IsSent w.store x s
      × Holds b []
      × (flush s ≡ s ∷ [])
unfolding drain_batch flush
drain_batch-IsSent now w x sound (b, at, queued) =
    let (subs, h) = sound.holds x.batch b at in
    let c = h.carries in
    let some_content = h.busy x.deadline queued in
    let buf = ((header_bytes b.pkt ++ drop 22 c.head) ++ encode subs) ++ c.room in
    let (raw, framed, f) =
      frame-IsFrame b.pkt subs c h.in_range
        (omega (arith, h.announced some_content, c.capacity, c.written, h.small)) h.fits in
    let head = serialize-Carries b.pkt subs c in
    let cut : total_slice (record b.pkt { buf = buf }) ≡ ok raw =
      frame_slice b.pkt (record b.pkt { buf = buf }) raw head framed in
    let nonempty : leb (length raw) 0 ≡ false = rw f.bytes (ground arith) in
    (
      reset now b buf,
      record { p = raw; routing_key = b.routing_key; next = b.next_hop },
      rw (deref-some w x.batch b at, drain_batch) (rw head (rw cut)),
      record {
        b = b;
        subs = subs;
        at = at;
        held = h;
        content = some_content;
        read_back = IsFrame-ReadBack b.pkt subs raw f;
        route = refl;
        next = refl;
      },
      reset-Holds now b subs h,
      rw nonempty,
    )

-- What sending the batches of `xs` leaves: those batches hold nothing and are out of the queue, all
-- else is as before.
pub record Drained (w w' : Worker) (xs : List HeapItem) : Type 0 where
  pub emptied : All (λ x. (b : Batch) × (get_elem? w'.store x.batch ≡ some b) × Holds b []) xs
  pub others : (j : ℕ) → All (λ y. y.batch ≢ j) xs → get_elem? w'.store j ≡ get_elem? w.store j
  pub queue : w'.heap ≡ w.heap
  pub routes : w'.batches ≡ w.batches

emptied-IsSound :
    (w : Worker) (id : ℕ) (b old : Batch)
    → IsSound w
    → get_elem? w.store id ≡ some old
    → Holds b []
    → IsSound (record w { store = set w.store id b })
emptied-IsSound w id b old s at h = record {
  holds = λ i b' e. elim (Bool-cases (i == id)) [
    | inl here ↦
        let is_id : i ≡ id = ground (arith, here) in
        let same : b ≡ b' = ground (
          arith,
          sym (get_elem?-set_self w.store id b old at)
              ∙ (ap (get_elem? (set w.store id b)) (sym is_id) ∙ e),
        ) in
        ([], rw (← same) h)
    | inr there ↦ s.holds i b' (sym (get_elem?-set_ne w.store id i b (ground (arith, there))) ∙ e)
  ];
  mapped = λ key ids e. rw (length-set w.store id b) (s.mapped key ids e);
}

pub drain_all-AllSent :
    (now : ℕ) (w : Worker) (xs : List HeapItem)
    → IsSound w
    → All (IsBusy w) xs
    → AllDiffer xs
    → (w' : Worker) × (sent : List SendInfo) × (drain_all now w xs ≡ ok (w', sent))
      × IsSound w'
      × AllSent w.store xs sent
      × Drained w w' xs
unfolding drain_all
drain_all-AllSent now w [] sound busy differ = (
  w,
  [],
  refl,
  sound,
  nothing,
  record { emptied = tt; others = λ j d. refl; queue = refl; routes = refl },
)
drain_all-AllSent now w (x ∷ xs) sound (bx, bs) (dx, ds) =
    let (b, s, ran, sent, h, full) = drain_batch-IsSent now w x sound bx in
    let w1 = record w { store = set w.store x.batch b } in
    let kept =
      λ (j : ℕ) (ne : j ≢ x.batch). get_elem?-set_ne w.store x.batch j b (λ e. ne (sym e)) in
    let sound1 = emptied-IsSound w x.batch b bx.0 sound bx.1 h in
    let busy1 : All (IsBusy w1) xs =
      All-both xs (λ y d (by, at, q). (by, kept y.batch d ∙ at, q)) dx bs in
    let (w', ss, rest, sound', sents, d) = drain_all-AllSent now w1 xs sound1 busy1 ds in
    (
      w',
      s ∷ ss,
      rw (ran, drain_all) (rw rest (rw full)),
      sound',
      also sent (AllSent-kept w w1 x.batch xs ss kept dx sents),
      record {
        emptied = (
          (b, d.others x.batch dx ∙ get_elem?-set_self w.store x.batch b bx.0 bx.1, h),
          d.emptied,
        );
        others = λ j (ne, nes). d.others j nes ∙ kept j (λ e. ne (sym e));
        queue = d.queue;
        routes = d.routes;
      },
    )
