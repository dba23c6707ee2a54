-- ===== src/Spmc/Tests.antt =====
-- `SPMCQueue` at concrete inputs.
use cpp_concurrency_toolbox.Base.{
  ℕ, zero, suc, ◌+◌, ◌-◌, ◌*◌, ◌^◌, ◌≤◌, ◌<◌, ◌≡◌, ◌↔◌, ◌⊎◌, refl, List, [], ◌∷◌, Bool, none, some,
  true, false, length, get_elem?, arith, wrap, ◌==◌, if◌then◌else◌, ok, err, capacity_below_two,
}
use cpp_concurrency_toolbox.Capacity.{check_and_round_spmc, bit_ceil}
use cpp_concurrency_toolbox.Fifo.{Op, Reply, poll, replies}
use cpp_concurrency_toolbox.Fifo.Client.{run}
use cpp_concurrency_toolbox.Spmc.{
  try_pop_expected, value, Queue, Slot, slot_of, QueueError, to_string, allocation_size, new,
  try_emplace, try_pop, size_approx, is_empty, number_slots, destructor,
}
use cpp_concurrency_toolbox.Spmc.Start.{fresh_queue}
use cpp_concurrency_toolbox.Spmc.Steps
use cpp_concurrency_toolbox.Spmc.Steps.{
  Producer, Consumer, System, by_producer, by_consumer, Reach, begun, then_step, Later, now, next,
}
use cpp_concurrency_toolbox.Spmc.Facts.{holds}
use cpp_concurrency_toolbox.Spmc.Sequential.{cell, Holds}
use cpp_concurrency_toolbox.Spmc.Pop.{implementation, try_pop_expected-try_pop}
use cpp_concurrency_toolbox.Spmc.Refine.{new-run-replies, size-length}
use cpp_concurrency_toolbox.Spmc.Destroy.{IsRaw, destructor-destroys}
use cpp_concurrency_toolbox.Spmc.SizeHint.{size_approx-bounds, size_approx-wraps}
use cpp_concurrency_toolbox.Spmc.Safety.{Settled, Waiting, exactly_once, no_dead_object}

made : new {A = ℕ} 2 ≡ ok (fresh_queue ℕ 1)
unfolding new check_and_round_spmc bit_ceil
made = refl

rejected : new {A = ℕ} 1 ≡ err capacity_below_two
unfolding new check_and_round_spmc
rejected = refl

-- 2 ^ 58 slots of 64 bytes: the size wraps to nothing.
allocation_wraps :
    (allocation_size 64 (2 ^ 58) ≡ 0)
    × (allocation_size 64 (2 ^ 57) ≡ 2 ^ 63)
    × (check_and_round_spmc (2 ^ 58) ≡ ok (2 ^ 58))
unfolding check_and_round_spmc bit_ceil
allocation_wraps = (refl, refl, refl)

names : (to_string QueueError.empty ≡ "Empty") × (to_string QueueError.full ≡ "Full")
unfolding to_string
names = (refl, refl)

abbrev calls : List (Op ℕ)
calls =
    Op.emplace 5
    ∷ Op.emplace 6
    ∷ Op.emplace 7
    ∷ Op.pop
    ∷ Op.emplace 8
    ∷ Op.pop
    ∷ Op.pop
    ∷ Op.pop
    ∷ []

-- Every exchange fails once without cause.
abbrev weak : List Bool
weak = true ∷ false ∷ []

calls_replies :
    run (implementation 1 weak tt) (fresh_queue ℕ 1) calls
    ≡ Reply.emplaced true
      ∷ Reply.emplaced true
      ∷ Reply.emplaced false
      ∷ Reply.popped (some 5)
      ∷ Reply.emplaced true
      ∷ Reply.popped (some 6)
      ∷ Reply.popped (some 8)
      ∷ Reply.popped none
      ∷ []
unfolding run try_emplace try_pop number_slots
calls_replies = refl

new-run-replies_example :
    (k : ℕ) × ((fresh_queue ℕ 1).capacity ≡ 2 ^ k)
    × (2 ≤ 2 ^ k)
    × (2 ^ k < 2 * 2)
    × (run (implementation k weak tt) (fresh_queue ℕ 1) calls ≡ replies (2 ^ k) [] calls)
new-run-replies_example = new-run-replies 2 weak tt calls made

-- One element, and the tail has wrapped at 2 ^ 64 while the head has not.
abbrev wrapped : Queue ℕ
wrapped = record {
  capacity = 2;
  mask = 1;
  slots = λ i. record { sequence = 0; storage = if i == 0 then none else some 9 };
  head = 2 ^ 64 - 1;
  tail = 0;
}

wrapped_taken :
    (i : ℕ)
    → i < 1
    → ((cell 1 wrapped (wrapped.head + i)).sequence ≡ wrap (wrapped.head + i + 1))
      × ((cell 1 wrapped (wrapped.head + i)).storage ≡ get_elem? (9 ∷ []) i)
wrapped_taken zero below = (refl, refl)
wrapped_taken (suc i) below = absurd (omega arith)

wrapped_free :
    (i : ℕ)
    → 1 ≤ i
    → i < 2
    → ((cell 1 wrapped (wrapped.head + i)).sequence ≡ wrap (wrapped.head + i))
      × ((cell 1 wrapped (wrapped.head + i)).storage ≡ none)
wrapped_free zero from to = absurd (omega arith)
wrapped_free (suc zero) from to = (refl, refl)
wrapped_free (suc (suc i)) from to = absurd (omega arith)

wrapped-Holds : Holds 1 wrapped (9 ∷ [])
wrapped-Holds = record {
  two = omega arith;
  small = omega arith;
  capacity = refl;
  mask = refl;
  head_in = omega arith;
  tail_at = refl;
  room = omega arith;
  taken = λ i below. (wrapped_taken i below).0;
  objects = λ i below. (wrapped_taken i below).1;
  free = λ i from to. (wrapped_free i from to).0;
  raw = λ i from to. (wrapped_free i from to).1;
}

try_pop_expected-try_pop_example :
    (q : Queue ℕ) × Holds 1 q []
    × (try_pop weak wrapped ≡ some (some 9, q))
    × (try_pop_expected weak wrapped ≡ some (value 9, q))
unfolding poll
try_pop_expected-try_pop_example = try_pop_expected-try_pop 1 weak wrapped (9 ∷ []) tt wrapped-Holds

size-length_example :
    (size_approx wrapped wrapped ≡ 1)
    × ((is_empty wrapped wrapped ≡ true) ↔ (◌≡◌ {A = List ℕ} (9 ∷ []) []))
size-length_example = size-length 1 wrapped (9 ∷ []) wrapped-Holds

destructor-destroys_example :
    (slots : ℕ → Slot ℕ) × (destructor wrapped ≡ some (some 9 ∷ [], slots)) × IsRaw 1 slots
destructor-destroys_example = destructor-destroys 1 wrapped (9 ∷ []) wrapped-Holds

-- The producer has published 7, and consumer 0 has claimed it.
abbrev claimed : (s : System ℕ) × Reach (fresh_queue ℕ 1) s
unfolding number_slots
claimed = (
  _,
  then_step
      (then_step
        (then_step
          (then_step
            (then_step
              (then_step
                (then_step (then_step begun (by_producer (Steps.load_tail 7)))
                  (by_producer Steps.load_seq))
                (by_producer (Steps.build refl)))
              (by_producer Steps.store_seq))
            (by_producer Steps.store_tail))
          (by_consumer 0 Steps.load_head))
        (by_consumer 0 Steps.load_seq))
      (by_consumer 0 (Steps.claim refl refl)),
)

-- Consumer 0 has handed it out.
abbrev handed_out : (s : System ℕ) × Reach (fresh_queue ℕ 1) s
unfolding number_slots
handed_out = (
  _,
  then_step (then_step claimed.1 (by_consumer 0 (Steps.move_out {a = 7} refl)))
      (by_consumer 0 Steps.release),
)

handed_out_seven : handed_out.0.handed 0 ≡ 7 ∷ []
unfolding number_slots
handed_out_seven = refl

exactly_once_example :
    let s = handed_out.0 in
    (s.mem.head ≤ length s.log)
    × ((p : ℕ) → p < s.mem.head → Settled s p)
    × ((p : ℕ) → s.mem.head ≤ p → Waiting s p)
    × ((i j p : ℕ) → holds (s.consumers i) ≡ some p → holds (s.consumers j) ≡ some p → i ≡ j)
unfolding number_slots
exactly_once_example = exactly_once 2 made (omega arith) handed_out.1

no_dead_object_example :
    let s = claimed.0 in
    ((i h : ℕ)
      → s.consumers i ≡ Consumer.claimed h
      → (a : ℕ) × ((s.mem.slots (slot_of s.mem h)).storage ≡ some a) × (get_elem? s.log h ≡ some a))
    × ((t seq a : ℕ)
        → s.producer ≡ Producer.loaded_seq t seq a
        → seq ≡ t
        → (s.mem.slots (slot_of s.mem t)).storage ≡ none)
unfolding number_slots
no_dead_object_example = no_dead_object 2 made (omega arith) claimed.1

-- The head is loaded before the consumer hands the element out, and the tail after.
claimed-Later : Later claimed.0 handed_out.0
unfolding number_slots
claimed-Later =
    next (next now (by_consumer 0 (Steps.move_out {a = 7} refl))) (by_consumer 0 Steps.release)

size_approx-bounds_example :
    let s = claimed.0 in
    let t = handed_out.0 in
    (length s.log ≤ s.mem.head + 2)
    × (s.producer ≡ Producer.idle → s.mem.head + size_approx s.mem s.mem ≡ length s.log)
    × (((s.mem.head + size_approx s.mem t.mem ≡ t.mem.tail)
          × (s.mem.head + size_approx s.mem t.mem ≤ t.mem.head + 2))
        ⊎ ((s.mem.head ≡ t.mem.tail + 1) × (size_approx s.mem t.mem ≡ 2 ^ 64 - 1)))
unfolding claimed number_slots
size_approx-bounds_example = size_approx-bounds 2 made (omega arith) claimed.1 claimed-Later

size_approx-wraps_example :
    (s : System ℕ) × Reach (fresh_queue ℕ 1) s
    × (s.log ≡ 7 ∷ [])
    × (holds (s.consumers 0) ≡ some 0)
    × (size_approx s.mem s.mem ≡ 2 ^ 64 - 1)
    × (is_empty s.mem s.mem ≡ false)
size_approx-wraps_example = size_approx-wraps 2 made 7
