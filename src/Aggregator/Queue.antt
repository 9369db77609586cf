-- ===== src/Aggregator/Queue.antt =====
-- The queue of deadlines stays in order while messages are added.
use sky_accel.Base.{
  ℕ, ◌+◌, ◌≤◌, ◌≡◌, ◌≢◌, inl, inr, refl, sym, ap, ◌∙◌, List, [], ◌∷◌, ◌++◌, Option, none, some,
  arith, ltb, leb, ltb→lt, ◌==◌, ◌&&◌, ◌||◌, if◌then◌else◌, length, All, All-imp, All-both,
  Bool-cases, Option-cases, get_elem?, set, get_elem?-set_self, get_elem?-set_ne,
  get_elem?-append_left, get_elem?-concat, get_elem?-lt, replicate,
}
use sky_accel.Base.Run.{Run, ok, panic, Run-cases}
use sky_accel.Base.Keys.{insert, string_eq}
use sky_accel.Packet.{header_size, append_user_packet}
use sky_accel.Aggregator.{
  AggregatorMsg, Config, Batch, HeapItem, Worker, SendInfo, heap_push, new_batch, pick, ids_of,
  batch_count, grow, locate, deref, enqueue, replace, place, is_none, settle, emerge_message,
  batch_message, handle_msg,
}
use sky_accel.Aggregator.Drain.{IsBusy, AllDiffer}
use sky_accel.Aggregator.Timeout.{IsOrdered, IsQueue}

heap_push-All :
    (P : HeapItem → Type 0) (x : HeapItem) (xs : List HeapItem)
    → P x
    → All P xs
    → All P (heap_push x xs)
unfolding heap_push
heap_push-All P x [] p h = (p, tt)
heap_push-All P x (y ∷ ys) p (h, hs) = elim (Bool-cases (ltb x.deadline y.deadline)) [
  | inl less ↦ rw less (p, (h, hs))
  | inr more ↦ rw more (h, heap_push-All P x ys p hs)
]

heap_push-IsOrdered :
    (x : HeapItem) (xs : List HeapItem) → IsOrdered xs → IsOrdered (heap_push x xs)
unfolding heap_push
heap_push-IsOrdered x [] o = (tt, tt)
heap_push-IsOrdered x (y ∷ ys) (least, o) = elim (Bool-cases (ltb x.deadline y.deadline)) [
  | inl less ↦
      let lt = ltb→lt x.deadline y.deadline less in
      rw less ((omega arith, All-imp ys (λ z h. omega (arith, lt)) least), (least, o))
  | inr more ↦ rw more (
    heap_push-All (λ z. y.deadline ≤ z.deadline) x ys (ground (arith, more)) least,
    heap_push-IsOrdered x ys o,
  )
]

heap_push-AllDiffer :
    (x : HeapItem) (xs : List HeapItem)
    → All (λ y. y.batch ≢ x.batch) xs
    → AllDiffer xs
    → AllDiffer (heap_push x xs)
unfolding heap_push
heap_push-AllDiffer x [] n d = (tt, tt)
heap_push-AllDiffer x (y ∷ ys) (n, ns) (d, ds) = elim (Bool-cases (ltb x.deadline y.deadline)) [
  | inl less ↦ rw less ((n, ns), (d, ds))
  | inr more ↦ rw more (
    heap_push-All (λ z. z.batch ≢ y.batch) x ys (λ e. n (sym e)) d,
    heap_push-AllDiffer x ys ns ds,
  )
]

-- A new content for a batch that keeps its place in the queue.
set_busy :
    (store : List Batch) (id : ℕ) (b old : Batch) (x : HeapItem)
    → get_elem? store id ≡ some old
    → b.heap_item ≡ old.heap_item
    → (c : Batch) × (get_elem? store x.batch ≡ some c) × (c.heap_item ≡ some x.deadline)
    → (c : Batch) × (get_elem? (set store id b) x.batch ≡ some c) × (c.heap_item ≡ some x.deadline)
set_busy store id b old x at same (c, found, queued) = elim (Bool-cases (x.batch == id)) [
  | inl here ↦
      let is_id : x.batch ≡ id = ground (arith, here) in
      let is_old : c ≡ old = ground (arith, found, at, ap (get_elem? store) is_id) in
      (
        b,
        ap (get_elem? (set store id b)) is_id ∙ get_elem?-set_self store id b old at,
        same ∙ (ap (λ c. c.heap_item) (sym is_old) ∙ queued),
      )
  | inr there ↦
      (c, get_elem?-set_ne store id x.batch b (λ e. ground (arith, there, e)) ∙ found, queued)
]

unqueued :
    (w : Worker) (id : ℕ) (old : Batch) (x : HeapItem)
    → get_elem? w.store id ≡ some old
    → old.heap_item ≡ none
    → IsBusy w x
    → x.batch ≢ id
unqueued w id old x at e (c, found, queued) is_id =
    let is_old : c ≡ old = ground (arith, found, at, ap (get_elem? w.store) is_id) in
    let clash : none ≡ some x.deadline = sym e ∙ (ap (λ c. c.heap_item) (sym is_old) ∙ queued) in
    absurd (cc clash)

enqueue-IsQueue :
    (cfg : Config) (now : ℕ) (w : Worker) (id : ℕ) (b old : Batch)
    → get_elem? w.store id ≡ some old
    → b.heap_item ≡ old.heap_item
    → IsQueue w
    → IsQueue (enqueue cfg now w id b)
unfolding enqueue
enqueue-IsQueue cfg now w id b old at same q = elim (Option-cases b.heap_item) [
  | inr (d, e) ↦
      rw (e, enqueue)
        (record {
          ordered = q.ordered;
          busy = All-imp w.heap (λ x h. set_busy w.store id b old x at same h) q.busy;
          differ = q.differ;
        })
  | inl e ↦
      let x : HeapItem = record { batch = id; deadline = now + cfg.batch_timeout } in
      let b' : Batch = record b { heap_item = some (now + cfg.batch_timeout) } in
      let apart = All-imp w.heap (λ y h. unqueued w id old y at (sym same ∙ e) h) q.busy in
      let kept =
        All-both w.heap
          (λ y ne h. (h.0, get_elem?-set_ne w.store id y.batch b' (λ e. ne (sym e)) ∙ h.1, h.2))
          apart q.busy in
      rw (e, enqueue)
        (record {
          ordered = heap_push-IsOrdered x w.heap q.ordered;
          busy = heap_push-All _ x w.heap (b', get_elem?-set_self w.store id b' old at, refl) kept;
          differ = heap_push-AllDiffer x w.heap apart q.differ;
        })
]

-- New batches behind the old ones.
longer-IsQueue :
    (w w' : Worker) (fresh : List Batch)
    → w'.heap ≡ w.heap
    → w'.store ≡ w.store ++ fresh
    → IsQueue w
    → IsQueue w'
longer-IsQueue w w' fresh heap store q =
    let busy : All (IsBusy w') w.heap =
      All-imp w.heap
        (λ x (c, found, queued). (
          c,
          ap (λ s. get_elem? s x.batch) store
              ∙ (get_elem?-append_left w.store fresh x.batch (get_elem?-lt w.store x.batch c found)
                  ∙ found),
          queued,
        ))
        q.busy in
    record { ordered = rw heap q.ordered; busy = rw heap busy; differ = rw heap q.differ }

abbrev from_ok : {A : Type 0} → A → Run A → A
from_ok a (ok x) = x
from_ok a panic = a

ok_same : {A : Type 0} (a b : A) → ok a ≡ ok b → a ≡ b
ok_same a b e = ap (from_ok a) e

ok≢panic : {A : Type 0} (a : A) → panic ≡ ok a → ⊥
ok≢panic a e = cc

module _ (cfg : Config) (now : ℕ) (m : AggregatorMsg) where
  replace-IsQueue : (w w' : Worker) → replace cfg now w m ≡ ok w' → IsQueue w → IsQueue w'
  unfolding replace
  replace-IsQueue w w' ran q =
      let b = new_batch cfg.buffer_size now m in
      let id = length w.store in
      let w1 = record w {
        store = w.store ++ b ∷ [];
        batches = insert m.routing_key (ids_of w m.routing_key ++ id ∷ []) w.batches;
      } in
      elim (Run-cases (append_user_packet b.pkt m.user_id m.content)) [
        | inr bad ↦ absurd (ok≢panic w' (sym (rw (bad, replace)) ∙ ran))
        | inl (r, e) ↦
            let same =
              ok_same (enqueue cfg now w1 id (record b { pkt = r.0 })) w'
                (sym (rw (e, replace)) ∙ ran) in
            rw (← same) (
              enqueue-IsQueue cfg now w1 id (record b { pkt = r.0 }) b (get_elem?-concat w.store b)
                refl (longer-IsQueue w w1 (b ∷ []) refl refl q))
      ]

  place-IsQueue : (w w' : Worker) (id : ℕ) → place cfg now w m id ≡ ok w' → IsQueue w → IsQueue w'
  unfolding place deref
  place-IsQueue w w' id ran q = elim (Option-cases (get_elem? w.store id)) [
    | inl e ↦ absurd (ok≢panic w' (sym (rw (e, place, deref)) ∙ ran))
    | inr (b, at) ↦ elim (Bool-cases (is_none b.heap_item && ltb header_size b.pkt.wp)) [
      | inl left ↦ replace-IsQueue w w' (sym (rw (at, place, deref) (rw left)) ∙ ran) q
      | inr usable ↦ elim (Run-cases (append_user_packet b.pkt m.user_id m.content)) [
        | inr bad ↦ absurd (ok≢panic w' (sym (rw (at, place, deref) (rw usable (rw bad))) ∙ ran))
        | inl (r, e) ↦ elim (Bool-cases r.1) [
          | inl room ↦
              let same =
                ok_same (enqueue cfg now w id (record b { pkt = r.0 })) w'
                  (sym (rw (at, place, deref) (rw usable (rw e (rw room)))) ∙ ran) in
              rw (← same) (enqueue-IsQueue cfg now w id (record b { pkt = r.0 }) b at refl q)
          | inr full ↦
              replace-IsQueue w w' (sym (rw (at, place, deref) (rw usable (rw e (rw full)))) ∙ ran)
                q
        ]
      ]
    ]
  ]

  locate-IsQueue : (w : Worker) → IsQueue w → IsQueue (locate cfg now w m).0
  unfolding locate grow
  locate-IsQueue w q = elim (Option-cases (pick m.user_id (ids_of w m.routing_key))) [
    | inr (id, e) ↦ rw (e, locate) q
    | inl e ↦
        rw (e, locate)
          (longer-IsQueue w (grow cfg now w m)
            (replicate (batch_count cfg m.port) (new_batch cfg.buffer_size now m)) refl refl q)
  ]

  settle-IsQueue :
      (w w' : Worker) (found : Option ℕ)
      → settle cfg now m (w, found) ≡ ok w'
      → IsQueue w
      → IsQueue w'
  unfolding settle
  settle-IsQueue w w' none ran q = rw (← ok_same w w' ran) q
  settle-IsQueue w w' (some id) ran q = place-IsQueue w w' id ran q

  -- handleMsg keeps the queue in order, on every message: it lists batches that are in it, each once, the
  -- least deadline first.
  pub handle_msg-IsQueue :
      (w w' : Worker) (sent : List SendInfo)
      → handle_msg cfg now w m ≡ ok (w', sent)
      → IsQueue w
      → IsQueue w'
  unfolding handle_msg batch_message
  handle_msg-IsQueue w w' sent ran q =
      let small = ltb (length m.content) 128 || leb cfg.batch_timeout 20 in
      let size = if small then header_size + 4 + 2 + length m.content else cfg.buffer_size in
      elim (Bool-cases (m.emerge || small)) [
        | inl at_once ↦ elim (Run-cases (emerge_message size m)) [
          | inr bad ↦ absurd (ok≢panic (w', sent) (sym (rw (at_once, handle_msg) (rw bad)) ∙ ran))
          | inl (s, e) ↦
              let same = ok_same (w, s) (w', sent) (sym (rw (at_once, handle_msg) (rw e)) ∙ ran) in
              rw (← ap (λ r. r.0) same) q
        ]
        | inr waits ↦ elim (Run-cases (batch_message cfg now w m)) [
          | inr bad ↦ absurd (ok≢panic (w', sent) (sym (rw (waits, handle_msg) (rw bad)) ∙ ran))
          | inl (w1, e) ↦
              let same = ok_same (w1, []) (w', sent) (sym (rw (waits, handle_msg) (rw e)) ∙ ran) in
              let kept =
                settle-IsQueue (locate cfg now w m).0 w1 (locate cfg now w m).1 e
                  (locate-IsQueue w q) in
              rw (← ap (λ r. r.0) same) kept
        ]
      ]
