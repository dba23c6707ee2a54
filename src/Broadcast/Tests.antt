-- ===== src/Broadcast/Tests.antt =====
-- `SPMCBroadcastQueue` at concrete inputs: two slots and two consumers.
use cpp_concurrency_toolbox.Base.{
  ℕ, ◌+◌, ◌-◌, ◌*◌, ◌≤◌, ◌≡◌, ◌≢◌, inl, refl, List, [], ◌∷◌, true, false, none, some, length, take,
  get_elem?, arith, ok,
}
use cpp_concurrency_toolbox.Capacity.{check_and_round_broadcast, bit_ceil}
use cpp_concurrency_toolbox.Broadcast.{
  Queue, slot_of, min_cursor, new, try_publish, try_copy, backlog_approx,
}
use cpp_concurrency_toolbox.Broadcast.Steps
use cpp_concurrency_toolbox.Broadcast.Steps.{
  Producer, Consumer, System, by_producer, by_consumer, Reach, begun, then_step,
}
use cpp_concurrency_toolbox.Broadcast.Facts.{shown}
use cpp_concurrency_toolbox.Broadcast.Gate.{Gate, Decided, try_publish-decides, backlog-slowest}
use cpp_concurrency_toolbox.Broadcast.Naive.{Call, Reply, replies, naive_publish, try_publish-naive}
use cpp_concurrency_toolbox.Broadcast.Safety.{fresh_queue, every_consumer_sees_all, reference_stays}

made : new {A = ℕ} 0 2 ≡ ok (fresh_queue 0 2)
unfolding new check_and_round_broadcast bit_ceil
made = refl

abbrev one : Queue ℕ
unfolding try_publish
one = (try_publish 1 (fresh_queue 0 2) 7).1

abbrev full : Queue ℕ
unfolding try_publish
full = (try_publish 1 one 8).1

refused : (try_publish 1 full 9).0 ≡ false
unfolding try_publish min_cursor one full
refused = refl

copied : (try_copy full 1).0 ≡ some 7
unfolding try_copy one full
copied = refl

nothing : (try_copy (fresh_queue {A = ℕ} 0 2) 1).0 ≡ none
unfolding try_copy
nothing = refl

-- Consumer 0 has read two items, and consumer 1 none.
abbrev uneven : Queue ℕ
uneven = record {
  capacity = 2;
  mask = 1;
  slots = λ i. 7;
  tail = 2;
  cached_min = 0;
  cursors = λ i. 2 - 2 * i;
}

uneven-Gate : Gate 1 uneven
uneven-Gate = record {
  some_slot = omega arith;
  behind = λ i le. omega arith;
  room = λ i le. omega arith;
  cached = λ i le. omega arith;
}

try_publish-decides_example :
    Decided 1 uneven 9 uneven-Gate
      (omega arith)
      (try_publish 1 uneven 9).0
      (try_publish 1 uneven 9).1
try_publish-decides_example = try_publish-decides 1 uneven 9 uneven-Gate (omega arith)

backlog-slowest_example :
    ((i : ℕ) × (i ≤ 1) × (uneven.cursors i + backlog_approx 1 uneven ≡ 2))
    × ((i : ℕ) → i ≤ 1 → 2 ≤ uneven.cursors i + backlog_approx 1 uneven)
backlog-slowest_example = backlog-slowest 1 uneven uneven-Gate.behind (omega arith)

-- One item is published, and consumer 1 is in the call with it and has looked once.
abbrev shown_item : (s : System ℕ) × Reach 2 (fresh_queue 0 2) s
shown_item = (
  _,
  then_step
      (then_step
        (then_step
          (then_step
            (then_step
              (then_step (then_step begun (by_producer (Steps.load_tail 7)))
                (by_producer (Steps.find_room refl)))
              (by_producer Steps.write))
            (by_producer Steps.store_tail))
          (by_consumer 1 (omega arith) Steps.load_pos))
        (by_consumer 1 (omega arith) (Steps.find_some (omega arith))))
      (by_consumer 1 (omega arith) Steps.look),
)

every_consumer_sees_all_example :
    (shown_item.0.got 1
      ≡ take (shown_item.0.mem.cursors 1 + shown (shown_item.0.consumers 1)) shown_item.0.log)
    × (shown_item.0.mem.cursors 1 + shown (shown_item.0.consumers 1) ≤ length shown_item.0.log)
    × (length shown_item.0.log ≤ shown_item.0.mem.cursors 1 + shown_item.0.mem.capacity)
every_consumer_sees_all_example =
    every_consumer_sees_all 0 2 2 (omega arith) made (omega arith) shown_item.1 1 (omega arith)

reference_stays_example :
    ((j a : ℕ) → get_elem? (7 ∷ []) j ≡ some a → get_elem? shown_item.0.log 0 ≡ some a)
    × (get_elem? shown_item.0.log 0 ≡ some (shown_item.0.mem.slots (slot_of shown_item.0.mem 0)))
    × ((t : ℕ) (a : ℕ)
        → shown_item.0.producer ≡ Producer.cleared t a
        → slot_of shown_item.0.mem t ≢ slot_of shown_item.0.mem 0)
reference_stays_example =
    reference_stays 0 2 2 (omega arith) made (omega arith) shown_item.1 1 0 (7 ∷ []) (omega arith)
      (inl refl)

-- The first call is refused, and the last one is not.
abbrev calls : List (Call ℕ)
calls = Call.publish 9 ∷ Call.copy 1 ∷ Call.publish 9 ∷ []

naive_calls :
    replies 1 (try_publish 1) uneven calls
    ≡ Reply.published false ∷ Reply.copied (some 7) ∷ Reply.published true ∷ []
unfolding try_publish try_copy min_cursor
naive_calls = refl

try_publish-naive_example :
    replies 1 (try_publish 1) uneven calls
    ≡ replies 1 (naive_publish 1) (record uneven { cached_min = 5 }) calls
try_publish-naive_example = try_publish-naive 1 uneven 5 calls uneven-Gate (omega arith)
