-- ===== src/Aggregator/Later.antt =====
-- checkTimeout leaves a queue in order.
use sky_accel.Base.{ℕ, ◌≡◌, ◌≢◌, sym, ◌∙◌, List, [], ◌∷◌, ◌++◌, arith, All, All-both}
use sky_accel.Base.Run.{ok}
use sky_accel.Aggregator.{HeapItem, Worker, SendInfo, check_timeout}
use sky_accel.Aggregator.Place.{IsSound}
use sky_accel.Aggregator.Drain.{IsBusy, AllDiffer}
use sky_accel.Aggregator.Timeout.{IsOrdered, IsQueue, check_timeout-AllSent}

All-back : (P : HeapItem → Type 0) (xs ys : List HeapItem) → All P (xs ++ ys) → All P ys
All-back P [] ys h = h
All-back P (x ∷ xs) ys (h, hs) = All-back P xs ys hs

IsOrdered-back : (xs ys : List HeapItem) → IsOrdered (xs ++ ys) → IsOrdered ys
IsOrdered-back [] ys o = o
IsOrdered-back (x ∷ xs) ys (_, o) = IsOrdered-back xs ys o

AllDiffer-back : (xs ys : List HeapItem) → AllDiffer (xs ++ ys) → AllDiffer ys
AllDiffer-back [] ys d = d
AllDiffer-back (x ∷ xs) ys (_, d) = AllDiffer-back xs ys d

none_before :
    (ys : List HeapItem) → All (λ (y : HeapItem). All (λ (x : HeapItem). x.batch ≢ y.batch) []) ys
none_before [] = tt
none_before (y ∷ ys) = (tt, none_before ys)

AllDiffer-apart :
    (xs ys : List HeapItem) → AllDiffer (xs ++ ys) → All (λ y. All (λ x. x.batch ≢ y.batch) xs) ys
AllDiffer-apart [] ys d = none_before ys
AllDiffer-apart (x ∷ xs) ys (first, d) =
    All-both ys (λ y ne apart. (λ e. ne (sym e), apart))
      (All-back (λ y. y.batch ≢ x.batch) xs ys first) (AllDiffer-apart xs ys d)

-- On a sound worker with a queue in order, checkTimeout leaves a queue in order: it lists batches that are in
-- it, each once, the least deadline first.
pub check_timeout-IsQueue :
    (now : ℕ) (w w' : Worker) (sent : List SendInfo)
    → IsSound w
    → IsQueue w
    → check_timeout now w ≡ ok (w', sent)
    → IsQueue w'
check_timeout-IsQueue now w w' sent sound q ran =
    let (due, later, cut, w1, sent1, ran1, _, _, d) = check_timeout-AllSent now w sound q in
    let same : w1 ≡ w' = ground (arith, sym ran1 ∙ ran) in
    let ordered = IsOrdered-back due later (rw cut.whole at q.ordered) in
    let differ = rw cut.whole at q.differ in
    let busy = All-back (IsBusy w) due later (rw cut.whole at q.busy) in
    let kept : All (IsBusy w1) later =
      All-both later (λ y apart b. (b.0, d.others y.batch apart ∙ b.1, b.2))
        (AllDiffer-apart due later differ) busy in
    rw (← same) (record {
      ordered = rw d.queue ordered;
      busy = rw d.queue kept;
      differ = rw d.queue (AllDiffer-back due later differ);
    })
