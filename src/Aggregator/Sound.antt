-- ===== src/Aggregator/Sound.antt =====
-- handleMsg keeps the worker sound, and a message that waits joins one batch.
use sky_accel.Base.{
  ℕ, ◌+◌, ◌≤◌, ◌<◌, ◌≡◌, ◌≢◌, ◌⊎◌, inl, inr, sym, ap, ◌∙◌, List, [], ◌∷◌, ◌++◌, some, false, arith,
  ◌==◌, length, All, Bool-cases, Option-cases, length-append, get_elem?, get_elem?-lt, All-imp,
  All-concat,
}
use Prim.Native.String.{String}
use sky_accel.Base.Run.{ok}
use sky_accel.Base.Keys.{lookup, insert, lookup-insert, string_eq, same}
use sky_accel.Packet.{SubPacket, header_size}
use sky_accel.Aggregator.{
  AggregatorMsg, Config, Batch, Worker, new_batch, ids_of, locate, place, batch_message, handle_msg,
}
use sky_accel.Aggregator.Emerge.{sub_of, IsMsg}
use sky_accel.Aggregator.Place.{Holds, IsSound, max_size, Placed, place-Placed, new_batch-Holds}
use sky_accel.Aggregator.Entry.{
  ComesFrom, IsQueuedAt, IsListed, HasRoute, HasRoute-SameRoute, new_batch-HasRoute, IsListed-kept,
  IsListed-entered,
}
use mathlib.Core.Path.{subst}
use sky_accel.Aggregator.Locate.{Located, locate-Located, ids_of-some, ids_of-none}

module _ (cfg : Config) (now : ℕ) (w w' : Worker) (m : AggregatorMsg) (id : ℕ)
    (subs : List SubPacket) (s : IsSound w) (p : Placed cfg now w w' m id subs) where
  Placed-Holds :
      (i : ℕ) (b : Batch) → get_elem? w'.store i ≡ some b → (ss : List SubPacket) × Holds b ss
  Placed-Holds i b e = elim (Bool-cases (i == id)) [
    | inl here ↦
        let (b', at, h, _, _) = p.after in
        let same : b' ≡ b = ground (arith, e, at, here) in (subs ++ sub_of m ∷ [], rw (← same) h)
    | inr there ↦ elim (p.extent i b e) [
      | inl old ↦ s.holds i b (sym (p.others i old (ground arith)) ∙ e)
      | inr same ↦ absurd (ground arith)
    ]
  ]

  still :
      (key : String) (ids : List ℕ)
      → lookup key w.batches ≡ some ids
      → (0 < length ids) × All (λ i. i < length w'.store) ids
  still key ids e =
      let (full, below) = s.mapped key ids e in
      (full, All-imp ids (λ i h. omega (arith, p.grows)) below)

  Placed-kept : w'.batches ≡ w.batches → IsSound w'
  Placed-kept e = record {
    holds = Placed-Holds;
    mapped = λ key ids at. still key ids (sym (ap (λ b. lookup key b) e) ∙ at);
  }

  old_ids : All (λ i. i < length w'.store) (ids_of w m.routing_key)
  old_ids = elim (Option-cases (lookup m.routing_key w.batches)) [
    | inl e ↦ rw (ids_of-none w m.routing_key e) tt
    | inr (ids, e) ↦ rw (ids_of-some w m.routing_key ids e) (still m.routing_key ids e).1
  ]

  Placed-entered :
      w'.batches ≡ insert m.routing_key (ids_of w m.routing_key ++ id ∷ []) w.batches → IsSound w'
  Placed-entered e =
      let longer = ids_of w m.routing_key ++ id ∷ [] in
      let (b, after_at, _, _, _) = p.after in
      record {
        holds = Placed-Holds;
        mapped = λ key ids at.
            let found =
              sym (lookup-insert m.routing_key key longer w.batches)
              ∙ (sym (ap (λ b. lookup key b) e) ∙ at) in
            elim (Bool-cases (same m.routing_key key)) [
              | inl here ↦
                  let ids_here : longer ≡ ids = ground (arith, here, found) in
                  rw (← ids_here) (
                    omega (arith, length-append (ids_of w m.routing_key) (id ∷ [])),
                    All-concat (λ i. i < length w'.store) (ids_of w m.routing_key) id old_ids
                        (get_elem?-lt w'.store id b after_at),
                  )
              | inr other ↦ still key ids (ground (arith, other, found))
            ];
      }

-- What becomes of a message that waits: `id` is the batch that it joins, behind `subs`; `id` is an
-- old batch that holds `subs`, or a new one with nothing before. It is a batch of the message's routing
-- key, with the route that it had or, if it is new, the route of the message, and it is in the queue. Every
-- other old batch is as before, and every other new one is empty.
pub record Waits (cfg : Config) (now : ℕ) (w w' : Worker) (m : AggregatorMsg) (id : ℕ)
    (subs : List SubPacket) : Type 0 where
  pub before :
      ((b : Batch) × (get_elem? w.store id ≡ some b) × Holds b subs)
      ⊎ ((length w.store ≤ id) × (subs ≡ []))
  pub after :
      (b : Batch) × (get_elem? w'.store id ≡ some b)
      × Holds b (subs ++ sub_of m ∷ [])
      × ComesFrom w m id b
      × IsQueuedAt cfg now w w' id b
  pub listed : IsListed w' m.routing_key id
  pub fresh :
      (j : ℕ) (c : Batch) → length w.store ≤ j → j ≢ id → get_elem? w'.store j ≡ some c → Holds c []
  pub others : (j : ℕ) → j < length w.store → j ≢ id → get_elem? w'.store j ≡ get_elem? w.store j

module _ (cfg : Config) (now : ℕ) (w : Worker) (m : AggregatorMsg) (v : IsMsg m) (s : IsSound w)
    (fits : header_size + (6 + length m.content) ≤ cfg.buffer_size)
    (small : cfg.buffer_size ≤ max_size) where
  batch_run :
      (w1 w' : Worker) (id : ℕ)
      → locate cfg now w m ≡ (w1, some id)
      → place cfg now w1 m id ≡ ok w'
      → batch_message cfg now w m ≡ ok w'
  unfolding batch_message
  batch_run w1 w' id found placed = rw (found, batch_message) placed

  module _ (w1 : Worker) (id : ℕ) (l : Located cfg now w m v s (omega arith) small w1 id) where
    from_before : (i : ℕ) (c : Batch) → ComesFrom w1 m i c → ComesFrom w m i c
    from_before i c (inr (above, h)) = inr (omega (arith, l.grows), h)
    from_before i c (inl (b, at, h)) = elim (l.made i b at) [
      | inl old ↦ inl (b, old, h)
      | inr (above, new) ↦ inr (
        above,
        HasRoute-SameRoute m b c
            (subst (HasRoute m) (sym new) (new_batch-HasRoute cfg.buffer_size now m)) h,
      )
    ]

    queued_before :
        (w' : Worker) (i : ℕ) (c : Batch)
        → IsQueuedAt cfg now w1 w' i c
        → IsQueuedAt cfg now w w' i c
    unfolding new_batch
    queued_before w' i c (d, q, inl pushed) = (d, q, inl pushed)
    queued_before w' i c (d, q, inr (b, at, was, same)) = elim (l.made i b at) [
      | inl old ↦ (d, q, inr (b, old, was, same ∙ l.queue))
      | inr (above, new) ↦ absurd (cc (sym (ap (λ b. b.heap_item) new) ∙ was))
    ]

    new_empty :
        (j : ℕ) (c : Batch) → length w.store ≤ j → get_elem? w1.store j ≡ some c → Holds c []
    new_empty j c above at = elim (l.made j c at) [
      | inl old ↦ absurd (omega (arith, get_elem?-lt w.store j c old, above))
      | inr (_, new) ↦
          subst (λ b. Holds b []) (sym new)
            (new_batch-Holds cfg.buffer_size now m (omega arith) small v.port)
    ]

    module _ (w' : Worker) (i : ℕ) (subs : List SubPacket) (p : Placed cfg now w1 w' m i subs) where
      joined :
          (b : Batch) × (get_elem? w'.store i ≡ some b)
          × Holds b (subs ++ sub_of m ∷ [])
          × ComesFrom w m i b
          × IsQueuedAt cfg now w w' i b
      joined =
          let (c, at, holds, from, queued) = p.after in
          (c, at, holds, from_before i c from, queued_before w' i c queued)

      left_empty :
          (j : ℕ) (c : Batch)
          → length w.store ≤ j
          → j ≢ i
          → get_elem? w'.store j ≡ some c
          → Holds c []
      left_empty j c above ne at = elim (p.extent j c at) [
        | inr here ↦ absurd (ne here)
        | inl inside ↦ new_empty j c above (sym (p.others j inside ne) ∙ at)
      ]

      left_alone : (j : ℕ) → j < length w.store → j ≢ i → get_elem? w'.store j ≡ get_elem? w.store j
      left_alone j old ne = p.others j (omega (arith, l.grows)) ne ∙ l.kept j old

  batch_message-Waits :
      (w' : Worker) × (batch_message cfg now w m ≡ ok w')
      × IsSound w'
      × (id : ℕ) × (subs : List SubPacket) × Waits cfg now w w' m id subs
  batch_message-Waits =
      let (w1, id, found, l) = locate-Located cfg now w m v s (omega arith) small in
      let (b, subs, at, h, origin) = l.held in
      let (w', placed, id', subs', p, r) = place-Placed cfg now w1 m v fits small id b subs at h in
      let ran : batch_message cfg now w m ≡ ok w' = batch_run w1 w' id found placed in
      elim r [
        | inl (e, i, ss) ↦ (
          w',
          ran,
          Placed-kept cfg now w1 w' m id' subs' l.sound p e,
          id',
          subs',
          record {
            before = elim origin [
              | inl old ↦ inl (b, rw i old, rw ss h)
              | inr (above, empty) ↦ inr (omega arith, ss ∙ empty)
            ];
            after = joined w1 id l w' id' subs' p;
            listed = rw i (IsListed-kept w1 w' m.routing_key id e l.listed);
            fresh = left_empty w1 id l w' id' subs' p;
            others = left_alone w1 id l w' id' subs' p;
          },
        )
        | inr (e, i, ss) ↦ (
          w',
          ran,
          Placed-entered cfg now w1 w' m id' subs' l.sound p (rw i e),
          id',
          subs',
          record {
            before = inr (omega (arith, l.grows), ss);
            after = joined w1 id l w' id' subs' p;
            listed = rw i (
                IsListed-entered w1 w' m.routing_key (ids_of w1 m.routing_key) (length w1.store) e);
            fresh = left_empty w1 id l w' id' subs' p;
            others = left_alone w1 id l w' id' subs' p;
          },
        )
      ]

  -- On a sound worker with a buffer size of at most 65559 and a batch timeout above 20 ms, a
  -- message that need not be sent at once, with user id and port in range and a content of 128
  -- bytes or more that fits an empty buffer, is added to exactly one batch, behind what that batch
  -- holds. It is a batch of the message's routing key: an old one, which keeps its route, or a new one,
  -- with the next hop and the header of the message's route. Its item is pushed to the queue, with the
  -- batch timeout from now as its deadline, or it has one, and the queue stays as it is. Nothing is sent,
  -- every other old batch stays as it is, every other new one is empty, and the worker stays sound.
  pub handle_msg-Waits :
      m.emerge ≡ false
      → 128 ≤ length m.content
      → 20 < cfg.batch_timeout
      → (w' : Worker) × (handle_msg cfg now w m ≡ ok (w', []))
        × IsSound w'
        × (id : ℕ) × (subs : List SubPacket) × Waits cfg now w w' m id subs
  unfolding handle_msg
  handle_msg-Waits e long slow =
      let (w', ran, sound, id, subs, waits) = batch_message-Waits in
      (w', ground (arith, ran), sound, id, subs, waits)
