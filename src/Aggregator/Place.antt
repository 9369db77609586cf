-- ===== src/Aggregator/Place.antt =====
-- handleMsg on a message that waits: it is added to exactly one batch, behind what that batch holds.
use sky_accel.Base.{
  ℕ, ◌+◌, ◌%◌, ◌^◌, ◌≤◌, ◌<◌, ◌≡◌, ◌≢◌, ◌⊎◌, inl, inr, refl, sym, ap, ◌∙◌, List, [], ◌∷◌, ◌++◌,
  none, some, false, arith, ltb, ◌&&◌, length, All, Bool-cases, Option-cases, length-append,
  get_elem?, get_elem?-set_self, get_elem?-set_ne, get_elem?-append_left, get_elem?-lt,
  get_elem?-concat, length-set, All-concat,
}
use Prim.Native.String.{String}
use sky_accel.Base.Run.{ok}
use sky_accel.Base.Keys.{lookup, insert, string_eq}
use sky_accel.Packet.{Packet, SubPacket, header_size}
use sky_accel.Packet.Append.{encode, Carries, Appended, append-Appended, append_no_room}
use sky_accel.Packet.Parse.{Fits}
use sky_accel.Packet.RoundTrip.{InRange}
use sky_accel.Aggregator.{
  AggregatorMsg, Config, Batch, Worker, new_batch, ids_of, is_none, deref, enqueue, replace, place,
}
use sky_accel.Aggregator.Store.{start_packet-Carries, start_packet-InRange, start_packet_room}
use sky_accel.Aggregator.Entry.{
  SameRoute, ComesFrom, IsQueuedAt, enqueue-Mem, new_batch-HasRoute, HasRoute-SameRoute,
}
use sky_accel.Aggregator.Emerge.{sub_of, IsMsg, InRange-Appended, start-Appended}

-- The capacity that a 16-bit payload length can announce.
abbrev pub max_size : ℕ
max_size = 65559

-- What a batch holds: the sub-packets that its packet carries, and announces once there is one. A
-- batch is in the queue exactly if it holds some.
pub record Holds (b : Batch) (subs : List SubPacket) : Type 0 where
  pub carries : Carries b.pkt subs
  pub announced : 0 < length subs → b.pkt.payload_len ≡ length (encode subs) % 2 ^ 16
  pub idle : b.heap_item ≡ none → subs ≡ []
  pub busy : (d : ℕ) → b.heap_item ≡ some d → 0 < length subs
  pub in_range : InRange b.pkt
  pub fits : All Fits subs
  pub small : b.pkt.buff_size ≤ max_size

-- Every batch of the store holds some sub-packets, and every number in the map is a batch.
pub record IsSound (w : Worker) : Type 0 where
  pub holds :
      (i : ℕ) (b : Batch) → get_elem? w.store i ≡ some b → (subs : List SubPacket) × Holds b subs
  pub mapped :
      (key : String) (ids : List ℕ)
      → lookup key w.batches ≡ some ids
      → (0 < length ids) × All (λ i. i < length w.store) ids

-- From `w` to `w'` the message goes to the batch `id`, behind `subs`, and no other batch changes.
pub record Placed (cfg : Config) (now : ℕ) (w w' : Worker) (m : AggregatorMsg) (id : ℕ)
    (subs : List SubPacket) : Type 0 where
  pub after :
      (b : Batch) × (get_elem? w'.store id ≡ some b)
      × Holds b (subs ++ sub_of m ∷ [])
      × ComesFrom w m id b
      × IsQueuedAt cfg now w w' id b
  pub grows : length w.store ≤ length w'.store
  pub extent : (i : ℕ) (b : Batch) → get_elem? w'.store i ≡ some b → (i < length w.store) ⊎ (i ≡ id)
  pub others : (j : ℕ) → j < length w.store → j ≢ id → get_elem? w'.store j ≡ get_elem? w.store j

Holds-Appended :
    (b : Batch) (q : Packet) (subs : List SubPacket) (s : SubPacket) (d : ℕ)
    → Holds b subs
    → Fits s
    → Appended b.pkt q (subs ++ s ∷ [])
    → Holds (record b { pkt = q; heap_item = some d }) (subs ++ s ∷ [])
Holds-Appended b q subs s d h f a = record {
  carries = a.carries;
  announced = λ _. a.announced;
  idle = λ e. cc;
  busy = λ _ _. omega (arith, length-append subs (s ∷ []));
  in_range = InRange-Appended b.pkt q _ a h.in_range;
  fits = All-concat Fits subs s h.fits f;
  small = omega (arith, h.small, a.capacity);
}

Appended-SameRoute :
    (b : Batch) (q : Packet) (subs : List SubPacket) (d : ℕ)
    → Appended b.pkt q subs
    → SameRoute b (record b { pkt = q; heap_item = some d })
Appended-SameRoute b q subs d a = record {
  routing_key = refl;
  next_hop = refl;
  position = a.position;
  hops = a.hops;
  port = a.port;
  protocol = a.protocol;
}

pub new_batch-Holds :
    (size now : ℕ) (m : AggregatorMsg)
    → header_size ≤ size
    → size ≤ max_size
    → m.port < 2 ^ 16
    → Holds (new_batch size now m) []
unfolding new_batch
new_batch-Holds size now m h k p = record {
  carries = start_packet-Carries size m h;
  announced = λ e. absurd (omega arith);
  idle = λ _. refl;
  busy = λ d e. cc;
  in_range = start_packet-InRange size m p;
  fits = tt;
  small = omega (arith, start_packet_room size m);
}

pub deref-some :
    (w : Worker) (id : ℕ) (b : Batch) → get_elem? w.store id ≡ some b → deref w id ≡ ok b
unfolding deref
deref-some w id b e = rw (e, deref)

last_index : (i n : ℕ) → i < n + 1 → (i < n) ⊎ (i ≡ n)
last_index i n h = ground arith

-- The test for a batch that left the queue with content never holds.
idle_guard :
    (b : Batch) (subs : List SubPacket)
    → Holds b subs
    → (is_none b.heap_item && ltb header_size b.pkt.wp) ≡ false
idle_guard b subs h = elim (Option-cases b.heap_item) [
  | inl e ↦
      let size = ap (λ ss. length (encode ss)) (h.idle e) in
      rw e (ground (arith, h.carries.written))
  | inr (d, e) ↦ rw e
]

enqueue_batches :
    (cfg : Config) (now : ℕ) (w : Worker) (id : ℕ) (b : Batch)
    → (enqueue cfg now w id b).batches ≡ w.batches
unfolding enqueue
enqueue_batches cfg now w id b = ground arith

module _ (cfg : Config) (now : ℕ) (w : Worker) (m : AggregatorMsg) (v : IsMsg m)
    (fits : header_size + (6 + length m.content) ≤ cfg.buffer_size)
    (small : cfg.buffer_size ≤ max_size) where
  -- A new batch always takes the message.
  replace-Placed :
      (w' : Worker) × (replace cfg now w m ≡ ok w')
      × Placed cfg now w w' m (length w.store) []
      × (w'.batches
          ≡ insert m.routing_key (ids_of w m.routing_key ++ length w.store ∷ []) w.batches)
  unfolding replace new_batch
  replace-Placed =
      let id = length w.store in
      let b = new_batch cfg.buffer_size now m in
      let (q, e, a) = start-Appended cfg.buffer_size m fits in
      let w1 = record w {
        store = w.store ++ b ∷ [];
        batches = insert m.routing_key (ids_of w m.routing_key ++ id ∷ []) w.batches;
      } in
      let h = new_batch-Holds cfg.buffer_size now m (omega arith) small v.port in
      let (d, st, queued) = enqueue-Mem cfg now w1 id (record b { pkt = q }) in
      let w2 = enqueue cfg now w1 id (record b { pkt = q }) in
      let at_end : get_elem? w1.store id ≡ some b = get_elem?-concat w.store b in
      (
        w2,
        rw e,
        record {
          grows = omega (
            arith,
            ap length st,
            length-set w1.store id (record b { pkt = q; heap_item = some d }),
            length-append w.store (b ∷ []),
          );
          after = (
            record b { pkt = q; heap_item = some d },
            rw st (get_elem?-set_self w1.store id _ b at_end),
            Holds-Appended b q [] (sub_of m) d h (v.user_id, omega arith) a,
            inr (
              omega arith,
              HasRoute-SameRoute m b (record b { pkt = q; heap_item = some d })
                  (new_batch-HasRoute cfg.buffer_size now m)
                  (Appended-SameRoute b q (sub_of m ∷ []) d a),
            ),
            (d, refl, elim queued [ inl pushed ↦ inl pushed | inr (idle, _) ↦ absurd cc ]),
          );
          extent = λ i c e'. last_index i id (
              omega (
                arith,
                get_elem?-lt w2.store i c e',
                ap length st,
                length-set w1.store id (record b { pkt = q; heap_item = some d }),
                length-append w.store (b ∷ []),
              ));
          others = λ j lt ne. rw st (
              get_elem?-set_ne w1.store id j _ (λ e'. ne (sym e'))
              ∙ get_elem?-append_left w.store (b ∷ []) j lt);
        },
        enqueue_batches cfg now w1 id (record b { pkt = q }),
      )

  -- A batch with room takes it; one without room is left as it is.
  pub place-Placed :
      (id : ℕ) (b : Batch) (subs : List SubPacket)
      → get_elem? w.store id ≡ some b
      → Holds b subs
      → (w' : Worker) × (place cfg now w m id ≡ ok w')
        × (id' : ℕ) × (subs' : List SubPacket) × Placed cfg now w w' m id' subs'
        × ((w'.batches ≡ w.batches) × (id' ≡ id) × (subs' ≡ subs)
            ⊎ (w'.batches
                ≡ insert m.routing_key (ids_of w m.routing_key ++ length w.store ∷ []) w.batches)
              × (id' ≡ length w.store)
              × (subs' ≡ []))
  unfolding place
  place-Placed id b subs at h =
      elim (Bool-cases (ltb b.pkt.buff_size (b.pkt.wp + (6 + length m.content)))) [
        | inl full ↦
            let none_left = append_no_room b.pkt m.user_id m.content (ground arith) in
            let (w', r, pl, bt) = replace-Placed in
            (
              w',
              rw (deref-some w id b at, place) (rw (idle_guard b subs h) (rw none_left r)),
              length w.store,
              [],
              pl,
              inr (bt, refl, refl),
            )
        | inr room ↦
            let (q, e, a) = append-Appended b.pkt subs (sub_of m) h.carries (ground arith) in
            let (d, st, queued) = enqueue-Mem cfg now w id (record b { pkt = q }) in
            (
              enqueue cfg now w id (record b { pkt = q }),
              rw (deref-some w id b at, place) (rw (idle_guard b subs h) (rw e)),
              id,
              subs,
              record {
                grows = omega (
                  arith,
                  ap length st,
                  length-set w.store id (record b { pkt = q; heap_item = some d }),
                );
                after = (
                  record b { pkt = q; heap_item = some d },
                  rw st (get_elem?-set_self w.store id _ b at),
                  Holds-Appended b q subs (sub_of m) d h (v.user_id, omega arith) a,
                  inl (b, at, Appended-SameRoute b q (subs ++ sub_of m ∷ []) d a),
                  (
                    d,
                    refl,
                    elim queued [
                      | inl pushed ↦ inl pushed
                      | inr (was, same) ↦ inr (b, at, was, same)
                    ],
                  ),
                );
                extent = λ i c e'. inl (
                    omega (
                      arith,
                      get_elem?-lt (enqueue cfg now w id (record b { pkt = q })).store i c e',
                      ap length st,
                      length-set w.store id (record b { pkt = q; heap_item = some d }),
                    ));
                others = λ j lt ne. rw st (get_elem?-set_ne w.store id j _ (λ e'. ne (sym e')));
              },
              inl (enqueue_batches cfg now w id (record b { pkt = q }), refl, refl),
            )
      ]
