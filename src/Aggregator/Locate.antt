-- ===== src/Aggregator/Locate.antt =====
-- The batch that handleMsg finds or makes for a message.
use sky_accel.Base.{
  ℕ, zero, suc, ◌+◌, ◌-◌, ◌%◌, ◌≤◌, ◌<◌, ◌≡◌, ◌⊎◌, inl, inr, refl, sym, ap, ◌∙◌, List, [], ◌∷◌,
  ◌++◌, none, some, arith, ltb, length, All, Bool-cases, Option-cases, length-append, get_elem?,
  replicate, get_elem?-append_left, get_elem?-append_right, get_elem?-some, get_elem?-lt,
  get_elem?-replicate, length-replicate, get_elem?-All, All-imp, All-both,
}
use native.Mathlib.Nat.{mod-lt, le_refl}
use Prim.Native.String.{String}
use sky_accel.Base.Keys.{lookup, insert, lookup-insert, string_eq, same_refl, same}
use sky_accel.Packet.{SubPacket, header_size}
use sky_accel.Aggregator.{
  AggregatorMsg, Config, Batch, Worker, new_batch, pick, ids_of, batch_count, numbers, grow, locate,
}
use mathlib.Core.List.{Mem}
use sky_accel.Aggregator.Entry.{IsListed, all-Mem}
use sky_accel.Aggregator.Emerge.{IsMsg}
use sky_accel.Aggregator.Place.{Holds, IsSound, max_size, new_batch-Holds}

pick-All {κ} :
    (P : ℕ → Type κ) (user_id : ℕ) (ids : List ℕ)
    → 0 < length ids
    → All P ids
    → (id : ℕ) × (pick user_id ids ≡ some id) × P id
unfolding pick
pick-All P u [] h a = absurd (omega arith)
pick-All P u (x ∷ []) h a = (x, ground arith, a.0)
pick-All P u (x ∷ y ∷ ids) h a =
    let (id, e, p) =
      get_elem?-All P (x ∷ y ∷ ids) (u % length (x ∷ y ∷ ids)) a
        (mod-lt u {m = length (x ∷ y ∷ ids)} (omega arith)) in
    (id, ground (arith, e), p)

pick_nil : (user_id : ℕ) → pick user_id [] ≡ none
unfolding pick
pick_nil u = ground arith

numbers-All : (from n : ℕ) → All (λ i. (from ≤ i) × (i < from + n)) (numbers from n)
numbers-All from zero = tt
numbers-All from (suc n) =
    (omega arith, All-imp (numbers (suc from) n) (λ i h. omega arith) (numbers-All (suc from) n))

length-numbers : (from n : ℕ) → length (numbers from n) ≡ n
length-numbers from zero = refl
length-numbers from (suc n) = ap suc (length-numbers (suc from) n)

batch_count-pos : (cfg : Config) (port : ℕ) → 0 < batch_count cfg port
batch_count-pos cfg port = ground arith

-- The worker with `n` fresh batches for a route that has none.
abbrev grown : Config → ℕ → Worker → AggregatorMsg → Worker
grown cfg now w m =
    let n = batch_count cfg m.port in
    record w {
      batches = insert m.routing_key (numbers (length w.store) n) w.batches;
      store = w.store ++ replicate n (new_batch cfg.buffer_size now m);
    }

pub ids_of-some :
    (w : Worker) (key : String) (ids : List ℕ)
    → lookup key w.batches ≡ some ids
    → ids_of w key ≡ ids
unfolding ids_of
ids_of-some w key ids e = rw (e, ids_of)

pub ids_of-none : (w : Worker) (key : String) → lookup key w.batches ≡ none → ids_of w key ≡ []
unfolding ids_of
ids_of-none w key e = rw (e, ids_of)

grow-none :
    (cfg : Config) (now : ℕ) (w : Worker) (m : AggregatorMsg)
    → lookup m.routing_key w.batches ≡ none
    → grow cfg now w m ≡ grown cfg now w m
unfolding grow
grow-none cfg now w m e = rw (e, grow)

module _ (cfg : Config) (now : ℕ) (w : Worker) (m : AggregatorMsg) (v : IsMsg m) (s : IsSound w)
    (wide : header_size ≤ cfg.buffer_size) (small : cfg.buffer_size ≤ max_size) where
  fresh :
      (i : ℕ) (b : Batch)
      → length w.store ≤ i
      → get_elem? (grown cfg now w m).store i ≡ some b
      → b ≡ new_batch cfg.buffer_size now m
  fresh i b h e =
      let nb = new_batch cfg.buffer_size now m in
      let n = batch_count cfg m.port in
      let rep = replicate n nb in
      let k = i - length w.store in
      let at : i ≡ length w.store + k = omega arith in
      let inside : k < n = omega (
        arith,
        get_elem?-lt (w.store ++ rep) i b e,
        length-append w.store rep,
        length-replicate n nb,
      ) in
      let found : get_elem? (w.store ++ rep) i ≡ some nb =
        rw at (get_elem?-append_right w.store rep k ∙ get_elem?-replicate n k nb inside) in
      ground (arith, found, e)

  grown_size : length (grown cfg now w m).store ≡ length w.store + batch_count cfg m.port
  grown_size = omega (
    arith,
    length-append w.store (replicate (batch_count cfg m.port) (new_batch cfg.buffer_size now m)),
    length-replicate (batch_count cfg m.port) (new_batch cfg.buffer_size now m),
  )

  numbers_mapped :
      (0 < length (numbers (length w.store) (batch_count cfg m.port)))
      × All
          (λ i. i < length (grown cfg now w m).store)
          (numbers (length w.store) (batch_count cfg m.port))
  numbers_mapped = (
    omega (
      arith,
      length-numbers (length w.store) (batch_count cfg m.port),
      batch_count-pos cfg m.port,
    ),
    All-imp (numbers (length w.store) (batch_count cfg m.port)) (λ i h. omega (arith, grown_size))
        (numbers-All (length w.store) (batch_count cfg m.port)),
  )

  grown-IsSound : IsSound (grown cfg now w m)
  grown-IsSound = record {
    holds = λ i b e. elim (Bool-cases (ltb i (length w.store))) [
      | inl old ↦ s.holds i b (sym (get_elem?-append_left w.store _ i (ground arith)) ∙ e)
      | inr new ↦ (
        [],
        rw (fresh i b (ground arith) e) (new_batch-Holds cfg.buffer_size now m wide small v.port),
      )
    ];
    mapped = λ key ids e. elim (Bool-cases (same m.routing_key key)) [
      | inl here ↦
          let ids_here : numbers (length w.store) (batch_count cfg m.port) ≡ ids = ground (
            arith,
            here,
            e,
            lookup-insert m.routing_key key (numbers (length w.store) (batch_count cfg m.port))
                w.batches,
          ) in
          rw (← ids_here) numbers_mapped
      | inr other ↦
          let there : lookup key w.batches ≡ some ids = ground (
            arith,
            other,
            e,
            lookup-insert m.routing_key key (numbers (length w.store) (batch_count cfg m.port))
                w.batches,
          ) in
          let (full, below) = s.mapped key ids there in
          (full, All-imp ids (λ i h. omega (arith, grown_size)) below)
    ];
  }

  -- What `locate` returns: a sound worker that has all the batches of `w`, empty new ones at most besides,
  -- and the number of a batch of the route, an old one or a new one.
  pub record Located (w1 : Worker) (id : ℕ) : Type 0 where
    pub sound : IsSound w1
    pub grows : length w.store ≤ length w1.store
    pub kept : (j : ℕ) → j < length w.store → get_elem? w1.store j ≡ get_elem? w.store j
    pub queue : w1.heap ≡ w.heap
    pub listed : IsListed w1 m.routing_key id
    pub made :
        (j : ℕ) (c : Batch)
        → get_elem? w1.store j ≡ some c
        → (get_elem? w.store j ≡ some c)
          ⊎ ((length w.store ≤ j) × (c ≡ new_batch cfg.buffer_size now m))
    pub held :
        (b : Batch) × (subs : List SubPacket) × (get_elem? w1.store id ≡ some b)
        × Holds b subs
        × ((get_elem? w.store id ≡ some b) ⊎ ((length w.store ≤ id) × (subs ≡ [])))

  new_id :
      lookup m.routing_key w.batches ≡ none
      → (w1 : Worker) × (id : ℕ) × (locate cfg now w m ≡ (w1, some id)) × Located w1 id
  unfolding locate
  new_id absent =
      let w1 = grown cfg now w m in
      let fresh_ids = numbers (length w.store) (batch_count cfg m.port) in
      let entered : lookup m.routing_key w1.batches ≡ some fresh_ids =
        lookup-insert m.routing_key m.routing_key fresh_ids w.batches
        ∙ rw (same_refl m.routing_key) in
      let (id, picked, ((above, below), within)) =
        pick-All
          (λ i.
            ((length w.store ≤ i) × (i < length w.store + batch_count cfg m.port))
            × Mem i fresh_ids)
          m.user_id fresh_ids numbers_mapped.0
          (All-both fresh_ids (λ i h k. (h, k))
            (numbers-All (length w.store) (batch_count cfg m.port)) (all-Mem fresh_ids)) in
      let (b, at) = get_elem?-some w1.store id (omega (arith, grown_size)) in
      (
        w1,
        id,
        rw (ids_of-none w m.routing_key absent, locate)
            (rw (pick_nil m.user_id) (
              rw (grow-none cfg now w m absent)
                (rw (ids_of-some w1 m.routing_key fresh_ids entered) (rw picked)))),
        record {
          sound = grown-IsSound;
          grows = omega (arith, grown_size);
          kept = λ j h. get_elem?-append_left w.store _ j h;
          queue = refl;
          listed = (fresh_ids, entered, within);
          made = λ j c e. elim (Bool-cases (ltb j (length w.store))) [
            | inl old ↦ inl (sym (get_elem?-append_left w.store _ j (ground arith)) ∙ e)
            | inr new ↦ inr (ground arith, fresh j c (ground arith) e)
          ];
          held = (
            b,
            [],
            at,
            rw (fresh id b above at) (new_batch-Holds cfg.buffer_size now m wide small v.port),
            inr (above, refl),
          );
        },
      )

  old_id :
      (ids : List ℕ)
      → lookup m.routing_key w.batches ≡ some ids
      → (w1 : Worker) × (id : ℕ) × (locate cfg now w m ≡ (w1, some id)) × Located w1 id
  unfolding locate
  old_id ids e =
      let (full, below) = s.mapped m.routing_key ids e in
      let (id, picked, (lt, within)) =
        pick-All (λ i. (i < length w.store) × Mem i ids) m.user_id ids full
          (All-both ids (λ i h k. (h, k)) below (all-Mem ids)) in
      let (b, at) = get_elem?-some w.store id lt in
      let (subs, h) = s.holds id b at in
      (
        w,
        id,
        rw (ids_of-some w m.routing_key ids e, locate) (rw picked),
        record {
          sound = s;
          grows = le_refl (length w.store);
          kept = λ j h'. refl;
          queue = refl;
          listed = (ids, e, within);
          made = λ j c found. inl found;
          held = (b, subs, at, h, inl at);
        },
      )

  pub locate-Located :
      (w1 : Worker) × (id : ℕ) × (locate cfg now w m ≡ (w1, some id)) × Located w1 id
  locate-Located = elim (Option-cases (lookup m.routing_key w.batches)) [
    | inl absent ↦ new_id absent
    | inr (ids, e) ↦ old_id ids e
  ]
