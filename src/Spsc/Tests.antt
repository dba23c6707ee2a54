-- ===== src/Spsc/Tests.antt =====
-- `SPSCQueue` at concrete inputs.
use native.Mathlib.Nat.{one-le-pow}
use cpp_concurrency_toolbox.Base.{
  ℕ, ◌+◌, ◌-◌, ◌^◌, ◌≤◌, ◌<◌, ◌≡◌, ◌≢◌, refl, List, [], ◌∷◌, some, true, false, length, take, arith,
  ok, err, capacity_not_power_of_two,
}
use cpp_concurrency_toolbox.Capacity.{has_single_bit}
use cpp_concurrency_toolbox.Fifo.{Op, Reply, replies}
use cpp_concurrency_toolbox.Fifo.Client.{run}
use cpp_concurrency_toolbox.Spsc.{Queue, new, try_emplace, try_pop}
use cpp_concurrency_toolbox.Spsc.Sequential.{empty, implementation, new-run_refines, new_rejects}
use cpp_concurrency_toolbox.Spsc.Steps
use cpp_concurrency_toolbox.Spsc.Steps.{
  Producer, Consumer, System, by_producer, by_consumer, Reach, begun, then_step,
}
use cpp_concurrency_toolbox.Spsc.Safety.{received-IsPrefix, no_data_race}

abbrev keep : ℕ → ℕ
keep a = a

-- Two fit into four cells with one to spare, and the third fills them up.
abbrev calls : List (Op ℕ)
calls =
    Op.emplace 5 ∷ Op.emplace 6 ∷ Op.emplace 7 ∷ Op.emplace 8 ∷ Op.pop ∷ Op.emplace 9 ∷ Op.pop ∷ []

calls_replies :
    run (implementation keep 2) (empty 0 2) calls
    ≡ Reply.emplaced true
      ∷ Reply.emplaced true
      ∷ Reply.emplaced true
      ∷ Reply.emplaced false
      ∷ Reply.popped (some 5)
      ∷ Reply.emplaced true
      ∷ Reply.popped (some 6)
      ∷ []
unfolding run try_emplace try_pop
calls_replies = refl

new-run_refines_example :
    (q : Queue ℕ) × (new 0 (2 ^ 2) ≡ ok q)
    × (run (implementation keep 2) q calls ≡ replies (2 ^ 2 - 1) [] calls)
new-run_refines_example = new-run_refines 0 keep 2 calls (omega arith)

zero_is_no_power : (k : ℕ) → 0 ≢ 2 ^ k
zero_is_no_power k = omega (arith, one-le-pow k 2)

new_rejects_example : new {A = ℕ} 0 0 ≡ err capacity_not_power_of_two
new_rejects_example = new_rejects 0 0 zero_is_no_power

made : new {A = ℕ} 0 (2 ^ 2) ≡ ok (empty 0 2)
unfolding new has_single_bit
made = refl

-- One element goes in and out; the producer is about to write the next one and the consumer is back
-- at the test of its next call.
abbrev after_one : (s : System ℕ) × Reach keep (empty 0 2) s
after_one = (
  _,
  then_step
      (then_step
        (then_step
          (then_step (then_step begun (by_producer (Steps.load_tail 7)))
            (by_producer Steps.load_head))
          (by_producer (Steps.write (omega arith))))
        (by_producer Steps.publish))
      (by_consumer Steps.load_head),
)

abbrev contending : (s : System ℕ) × Reach keep (empty 0 2) s
contending = (
  _,
  then_step
      (then_step (then_step after_one.1 (by_producer (Steps.load_tail 8)))
        (by_producer Steps.load_head))
      (by_consumer Steps.load_tail),
)

abbrev delivered : (s : System ℕ) × Reach keep (empty 0 2) s
delivered = (
  _,
  then_step (then_step contending.1 (by_consumer (Steps.take (omega arith))))
      (by_consumer Steps.release),
)

received-IsPrefix_example :
    (delivered.0.got ≡ take (length delivered.0.got) delivered.0.log)
    × (length delivered.0.got ≤ length delivered.0.log)
    × (length delivered.0.log ≤ length delivered.0.got + (2 ^ 2 - 1))
received-IsPrefix_example = received-IsPrefix {k = 2} 0 (omega arith) made delivered.1

no_data_race_example : (◌≢◌ {A = ℕ} 1 0) × (1 < 2 ^ 2) × (0 < 2 ^ 2)
no_data_race_example =
    no_data_race {k = 2} 0 (omega arith) made contending.1 1 0 0 1 8 refl (omega arith) refl
      (omega arith)
