-- ===== src/Aggregator/Timeout.antt =====
-- checkTimeout: the batches whose deadline has passed are sent and are empty again, no other is.
use sky_accel.Base.{
  ℕ, ◌≤◌, ◌<◌, ◌≡◌, ◌≢◌, inl, inr, refl, ap, List, [], ◌∷◌, ◌++◌, arith, ltb, ltb→lt, All,
  Bool-cases, All-imp,
}
use sky_accel.Base.Run.{ok}
use sky_accel.Aggregator.{HeapItem, Worker, SendInfo, expire, check_timeout}
use sky_accel.Aggregator.Place.{IsSound}
use sky_accel.Aggregator.Drain.{IsBusy, AllDiffer, AllSent, Drained, drain_all-AllSent}

-- The queue lists the deadlines in order.
abbrev pub IsOrdered : List HeapItem → Type 0
IsOrdered [] = Unit
IsOrdered (x ∷ xs) = All (λ y. x.deadline ≤ y.deadline) xs × IsOrdered xs

-- `expire` cuts an ordered queue into what is due and what is not.
pub record IsCut (now : ℕ) (xs due later : List HeapItem) : Type 0 where
  pub whole : xs ≡ due ++ later
  pub past : All (λ x. x.deadline ≤ now) due
  pub future : All (λ x. now < x.deadline) later

expire-IsCut :
    (now : ℕ) (xs : List HeapItem) → IsOrdered xs → IsCut now xs (expire now xs).0 (expire now xs).1
unfolding expire
expire-IsCut now [] o = record { whole = refl; past = tt; future = tt }
expire-IsCut now (x ∷ xs) (least, o) =
    let c = expire-IsCut now xs o in
    elim (Bool-cases (ltb now x.deadline)) [
      | inl later ↦ rw later (record {
        whole = refl;
        past = tt;
        future = (
          ltb→lt now x.deadline later,
          All-imp xs (λ y h. omega (arith, ltb→lt now x.deadline later)) least,
        );
      })
      | inr due ↦
          rw due (record {
            whole = ap (◌∷◌ x) c.whole;
            past = (ground arith, c.past);
            future = c.future;
          })
    ]

All-front : (P : HeapItem → Type 0) (xs ys : List HeapItem) → All P (xs ++ ys) → All P xs
All-front P [] ys h = tt
All-front P (x ∷ xs) ys (h, hs) = (h, All-front P xs ys hs)

AllDiffer-front : (xs ys : List HeapItem) → AllDiffer (xs ++ ys) → AllDiffer xs
AllDiffer-front [] ys d = tt
AllDiffer-front (x ∷ xs) ys (d, ds) =
    (All-front (λ y. y.batch ≢ x.batch) xs ys d, AllDiffer-front xs ys ds)

-- The queue lists batches that are in it, each once, the least deadline first.
pub record IsQueue (w : Worker) : Type 0 where
  pub ordered : IsOrdered w.heap
  pub busy : All (IsBusy w) w.heap
  pub differ : AllDiffer w.heap

-- On a sound worker with a queue in order, checkTimeout ends without a panic. It cuts the queue into
-- what is due and what is not, keeps what is not due as its queue, and sends one frame for each
-- due item, in the order of the deadlines; each frame gives the header and the whole content of its
-- batch back, a last sub-packet without content apart. A batch that is sent holds nothing
-- behind it, each other one is as before, and the worker stays sound.
pub check_timeout-AllSent :
    (now : ℕ) (w : Worker)
    → IsSound w
    → IsQueue w
    → (due later : List HeapItem) × IsCut now w.heap due later
      × (w' : Worker) × (sent : List SendInfo) × (check_timeout now w ≡ ok (w', sent))
      × IsSound w'
      × AllSent w.store due sent
      × Drained (record w { heap = later }) w' due
unfolding check_timeout
check_timeout-AllSent now w sound q =
    let due = (expire now w.heap).0 in
    let later = (expire now w.heap).1 in
    let cut = expire-IsCut now w.heap q.ordered in
    let w1 = record w { heap = later } in
    let sound1 : IsSound w1 = record { holds = sound.holds; mapped = sound.mapped } in
    let busy : All (IsBusy w) due = All-front (IsBusy w) due later (rw cut.whole at q.busy) in
    let differ = AllDiffer-front due later (rw cut.whole at q.differ) in
    let (w', sent, ran, sound', s, d) = drain_all-AllSent now w1 due sound1 busy differ in
    (due, later, cut, w', sent, ran, sound', s, d)
