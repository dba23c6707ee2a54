-- ===== src/Bench/Conservation.antt =====
-- Every item of `run_benchmark` is counted once, and the recorders hold no more than `measure` samples.
use cpp_concurrency_toolbox.Base.{
  ℕ, zero, suc, ◌+◌, ◌-◌, ◌≤◌, ◌<◌, ◌≡◌, inl, inr, refl, List, [], ◌∷◌, ◌++◌, length, arith, update,
  ◌==◌, leb, if◌then◌else◌, Bool-cases, length-snoc, sub_size, eq-nil_of_length, ap,
}
use cpp_concurrency_toolbox.Bench.{
  Item, Producer, Consumer, Harness, moved, Produce, make, full, push, Consume, go_on, finish,
  poll_nothing, poll, count_it, warm, measure, negative, Reach, begun, produce, consume,
}
use cpp_concurrency_toolbox.Bench.Count.{sum, sum-update}

abbrev pub in_hand : Consumer → ℕ
in_hand (Consumer.popped item) = 1
in_hand _ = 0

-- A sample that may still be recorded.
abbrev pub to_record : ℕ → Consumer → ℕ
to_record warmup (Consumer.counted n item) = if leb warmup n then 1 else 0
to_record warmup _ = 0

abbrev pub offered : Producer → ℕ
offered Producer.next = 0
offered (Producer.offering item) = 1

abbrev pub has_finished : Consumer → ℕ
has_finished Consumer.finished = 1
has_finished _ = 0

record Inv (n capacity warmup total : ℕ) (s : Harness) : Type 0 where
  conserved : s.consumed + sum (λ i. in_hand (s.consumers i)) n + length s.queue ≡ s.sent
  sent_at : s.sent + offered s.producer ≤ total
  fits : length s.queue ≤ capacity
  recorded :
      sum (λ i. length (s.recs i)) n + sum (λ i. to_record warmup (s.consumers i)) n
      ≤ s.consumed - warmup
  ended : (i : ℕ) → has_finished (s.consumers i) ≡ 1 → total ≤ s.consumed

module _ {n capacity warmup total : ℕ} {s : Harness} (inv : Inv n capacity warmup total s) where
  Produce-Inv : {t : Harness} → Produce capacity total s t → Inv n capacity warmup total t
  Produce-Inv (make now at_next more) = record {
    conserved = inv.conserved;
    sent_at = omega arith;
    fits = inv.fits;
    recorded = inv.recorded;
    ended = inv.ended;
  }
  Produce-Inv (full item at_item no_room) = inv
  Produce-Inv (push item at_item room) = record {
    conserved = omega (arith, inv.conserved, length-snoc s.queue item);
    sent_at = omega (arith, inv.sent_at, ap offered at_item);
    fits = omega (arith, length-snoc s.queue item);
    recorded = inv.recorded;
    ended = inv.ended;
  }

  -- Consumer `i` moves; what the others hold is as it was.
  module _ (i : ℕ) (below : i < n) (c : Consumer) (queue : List Item) (consumed : ℕ)
      (recs : ℕ → List ℕ)
      (same_items : consumed + in_hand c + length queue
        ≡ s.consumed + in_hand (s.consumers i) + length s.queue)
      (no_more : length queue ≤ length s.queue) (onward : s.consumed ≤ consumed)
      (samples : sum (λ j. length (recs j)) n + to_record warmup c + (s.consumed - warmup)
        ≤ sum (λ j. length (s.recs j)) n + to_record warmup (s.consumers i) + (consumed - warmup))
      (over : has_finished c ≡ 1 → total ≤ consumed) where
    moved-Inv :
        Inv n capacity warmup total
          (record (moved s i c) { queue = queue; consumed = consumed; recs = recs })
    moved-Inv = record {
      conserved = omega (arith, inv.conserved, sum-update in_hand s.consumers i n c below);
      sent_at = inv.sent_at;
      fits = omega (arith, inv.fits);
      recorded = omega (arith, inv.recorded, sum-update (to_record warmup) s.consumers i n c below);
      ended = λ j e. elim (Bool-cases (i == j)) [
        | inl here ↦ over (rw here at e)
        | inr there ↦ omega (arith, inv.ended j (rw there at e))
      ];
    }

  Consume-Inv :
      (i : ℕ) {t : Harness} → i < n → Consume warmup total s i t → Inv n capacity warmup total t
  Consume-Inv i below (go_on at_i more) =
      moved-Inv i below Consumer.polling s.queue s.consumed s.recs (omega (arith, ap in_hand at_i))
        (omega arith) (omega arith) (omega (arith, ap (to_record warmup) at_i))
        (λ e. absurd (omega arith))
  Consume-Inv i below (finish at_i all) =
      moved-Inv i below Consumer.finished s.queue s.consumed s.recs (omega (arith, ap in_hand at_i))
        (omega arith) (omega arith) (omega (arith, ap (to_record warmup) at_i)) (λ e. all)
  Consume-Inv i below (poll_nothing at_i bare) =
      moved-Inv i below Consumer.testing s.queue s.consumed s.recs (omega (arith, ap in_hand at_i))
        (omega arith) (omega arith) (omega (arith, ap (to_record warmup) at_i))
        (λ e. absurd (omega arith))
  Consume-Inv i below (poll item rest at_i front) =
      moved-Inv i below (Consumer.popped item) rest s.consumed s.recs
        (omega (arith, ap in_hand at_i, ap length front)) (omega (arith, ap length front))
        (omega arith) (omega (arith, ap (to_record warmup) at_i)) (λ e. absurd (omega arith))
  Consume-Inv i below (count_it item at_i) =
      moved-Inv i below (Consumer.counted s.consumed item) s.queue (suc s.consumed) s.recs
        (omega (arith, ap in_hand at_i)) (omega arith) (omega arith)
        (ground (arith, ap (to_record warmup) at_i)) (λ e. absurd (omega arith))
  Consume-Inv i below (warm k item at_i early) =
      moved-Inv i below Consumer.testing s.queue s.consumed s.recs (omega (arith, ap in_hand at_i))
        (omega arith) (omega arith) (omega (arith, ap (to_record warmup) at_i))
        (λ e. absurd (omega arith))
  Consume-Inv i below (measure k now item at_i late after) =
      moved-Inv i below Consumer.testing s.queue s.consumed
        (update s.recs i (s.recs i ++ (sub_size now item.enqueue_ns ∷ [])))
        (omega (arith, ap in_hand at_i)) (omega arith) (omega arith)
        (ground (
          arith,
          ap (to_record warmup) at_i,
          sum-update length s.recs i n (s.recs i ++ (sub_size now item.enqueue_ns ∷ [])) below,
          length-snoc (s.recs i) (sub_size now item.enqueue_ns),
        ))
        (λ e. absurd (omega arith))
  Consume-Inv i below (negative k now item at_i late before) =
      moved-Inv i below Consumer.testing s.queue s.consumed s.recs (omega (arith, ap in_hand at_i))
        (omega arith) (omega arith) (omega (arith, ap (to_record warmup) at_i))
        (λ e. absurd (omega arith))

sum-zero : (n : ℕ) → sum (λ i. 0) n ≡ 0
sum-zero zero = refl
sum-zero (suc n) = omega (arith, sum-zero n)

Reach-Inv :
    {n capacity warmup total : ℕ} {s : Harness}
    → Reach n capacity warmup total s
    → Inv n capacity warmup total s
Reach-Inv {n} begun = record {
  conserved = omega (arith, sum-zero n);
  sent_at = omega arith;
  fits = omega arith;
  recorded = omega (arith, sum-zero n);
  ended = λ i e. absurd (omega arith);
}
Reach-Inv (produce r st) = Produce-Inv (Reach-Inv r) st
Reach-Inv (consume i below r st) = Consume-Inv (Reach-Inv r) i below st

-- No item of a benchmark run is lost or counted twice: with `n` consumers, in every interleaving, what
-- was counted, what consumers have taken and not yet counted, and what is queued make up what was
-- sent, which is at most `total`; all recorders together hold at most as many samples as were
-- counted after the warm-up, so at most `total - warmup`; and once the loop of a consumer has ended,
-- all items have been sent and counted and none is queued.
pub harness-accounts :
    (n capacity warmup total : ℕ) {s : Harness}
    → Reach n capacity warmup total s
    → (s.consumed + sum (λ i. in_hand (s.consumers i)) n + length s.queue ≡ s.sent)
      × (s.sent ≤ total)
      × (sum (λ i. length (s.recs i)) n ≤ s.consumed - warmup)
      × (s.consumed - warmup ≤ total - warmup)
      × ((i : ℕ)
          → s.consumers i ≡ Consumer.finished
          → (s.consumed ≡ total) × (s.sent ≡ total) × (s.queue ≡ []))
harness-accounts n capacity warmup total {s} r = (
  inv.conserved,
  omega (arith, inv.sent_at),
  omega (arith, inv.recorded),
  omega (arith, inv.conserved, inv.sent_at),
  λ i e.
      let all : total ≤ s.consumed = inv.ended i (ap has_finished e) in
      (
        omega (arith, inv.conserved, inv.sent_at),
        omega (arith, inv.conserved, inv.sent_at),
        eq-nil_of_length s.queue (omega (arith, inv.conserved, inv.sent_at)),
      ),
)
  where
    inv : Inv n capacity warmup total s
    inv = Reach-Inv r
