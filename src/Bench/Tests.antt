-- ===== src/Bench/Tests.antt =====
-- `run_benchmark` at concrete inputs: one item, no warm-up, and one consumer.
use cpp_concurrency_toolbox.Base.{ℕ, ◌+◌, ◌-◌, ◌≤◌, ◌≡◌, refl, [], length, arith}
use cpp_concurrency_toolbox.Bench
use cpp_concurrency_toolbox.Bench.{Consumer, Harness, Reach, begun, produce, consume}
use cpp_concurrency_toolbox.Bench.Count.{sum}
use cpp_concurrency_toolbox.Bench.Conservation.{in_hand, harness-accounts}

-- The item is sent at 5 and taken at 8, and the loop ends.
abbrev over : (s : Harness) × Reach 1 4 0 1 s
over = (
  _,
  consume 0 (omega arith)
      (consume 0 (omega arith)
        (consume 0 (omega arith)
          (consume 0 (omega arith)
            (consume 0 (omega arith)
              (produce (produce begun (Bench.make 5 refl (omega arith)))
                (Bench.push _ refl (omega arith)))
              (Bench.go_on refl (omega arith)))
            (Bench.poll _ [] refl refl))
          (Bench.count_it _ refl))
        (Bench.measure 0 8 _ refl (omega arith) (omega arith)))
      (Bench.finish refl (omega arith)),
)

harness-accounts_example :
    (over.0.consumed + sum (λ i. in_hand (over.0.consumers i)) 1 + length over.0.queue
      ≡ over.0.sent)
    × (over.0.sent ≤ 1)
    × (sum (λ i. length (over.0.recs i)) 1 ≤ over.0.consumed - 0)
    × (over.0.consumed - 0 ≤ 1 - 0)
    × ((i : ℕ)
        → over.0.consumers i ≡ Consumer.finished
        → (over.0.consumed ≡ 1) × (over.0.sent ≡ 1) × (over.0.queue ≡ []))
harness-accounts_example = harness-accounts 1 4 0 1 over.1
