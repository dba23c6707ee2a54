-- ===== src/Spmc/Parking/Tests.antt =====
-- Sleeping threads of `SPMCQueue` in a queue of two slots.
use cpp_concurrency_toolbox.Base.{ℕ, ◌≡◌, refl, Bool, true, false, some, arith, ok}
use cpp_concurrency_toolbox.Capacity.{check_and_round_spmc, bit_ceil}
use cpp_concurrency_toolbox.Spmc.{new, number_slots}
use cpp_concurrency_toolbox.Spmc.Start.{fresh_queue}
use cpp_concurrency_toolbox.Spmc.Steps
use cpp_concurrency_toolbox.Spmc.Steps.{Producer, Consumer}
use cpp_concurrency_toolbox.Spmc.Parking.{
  Parking, seq_of, Step, run_producer, run_consumer, sleep_producer, sleep_consumer, notify_all,
  notify_nobody, Reach, begun, then_step, Later,
}
use cpp_concurrency_toolbox.Spmc.Parking.Wakeups.{Announcing, sleeping_consumer-announced}
use cpp_concurrency_toolbox.Spmc.Parking.TryPop.{sleeping_producer-announced}
use cpp_concurrency_toolbox.Spmc.Parking.Stranded.{notify_one-strands_producer}

made : new {A = ℕ} 2 ≡ ok (fresh_queue ℕ 1)
unfolding new check_and_round_spmc bit_ceil
made = refl

module _ (blocking : ℕ → Bool) where
  -- The element 7 is at position 0, and 8 at position 1.
  abbrev filled : (s : Parking ℕ) × Reach blocking (fresh_queue ℕ 1) s
  unfolding number_slots
  filled =
      let first : (s : Parking ℕ) × Reach blocking (fresh_queue ℕ 1) s = (
        _,
        then_step
            (then_step
              (then_step
                (then_step
                  (then_step (then_step begun (run_producer refl refl (Steps.load_tail 7) tt))
                    (run_producer refl refl Steps.load_seq tt))
                  (run_producer refl refl (Steps.build refl) tt))
                (run_producer refl refl Steps.store_seq tt))
              (run_producer refl refl Steps.store_tail tt))
            (notify_all 0 refl),
      ) in
      (
        _,
        then_step
            (then_step
              (then_step
                (then_step
                  (then_step (then_step first.1 (run_producer refl refl (Steps.load_tail 8) tt))
                    (run_producer refl refl Steps.load_seq tt))
                  (run_producer refl refl (Steps.build refl) tt))
                (run_producer refl refl Steps.store_seq tt))
              (run_producer refl refl Steps.store_tail tt))
            (notify_all 1 refl),
      )

  -- Consumer 0 has claimed position 0.
  abbrev claimed : (s : Parking ℕ) × Reach blocking (fresh_queue ℕ 1) s
  unfolding number_slots
  claimed = (
    _,
    then_step
        (then_step (then_step filled.1 (run_consumer 0 refl refl Steps.load_head tt))
          (run_consumer 0 refl refl Steps.load_seq tt))
        (run_consumer 0 refl refl (Steps.claim refl refl) tt),
  )

-- Consumers call `try_pop` only: the producer sleeps, and consumer 0 has given its slot back.
abbrev freed : (s : Parking ℕ) × Reach (λ _. false) (fresh_queue ℕ 1) s
unfolding number_slots claimed filled
freed = (
  _,
  then_step
      (then_step
        (then_step
          (then_step
            (then_step (claimed (λ _. false)).1 (run_producer refl refl (Steps.load_tail 9) tt))
            (run_producer refl refl Steps.load_seq tt))
          (sleep_producer 2 1 9 refl refl refl (λ e. absurd (cc)) refl))
        (run_consumer 0 refl refl (Steps.move_out refl) tt))
      (run_consumer 0 refl refl Steps.release tt),
)

-- Consumer 2 takes position 1 and gives it back, consumer 1 sleeps for position 2, as the producer
-- does, and consumer 0 gives slot 0 back.
abbrev stranded : (s : Parking ℕ) × Reach (λ _. true) (fresh_queue ℕ 1) s
unfolding number_slots claimed filled
stranded =
    let taken : (s : Parking ℕ) × Reach (λ _. true) (fresh_queue ℕ 1) s = (
      _,
      then_step
          (then_step
            (then_step
              (then_step
                (then_step
                  (then_step (claimed (λ _. true)).1 (run_consumer 2 refl refl Steps.load_head tt))
                  (run_consumer 2 refl refl Steps.load_seq tt))
                (run_consumer 2 refl refl (Steps.claim refl refl) tt))
              (run_consumer 2 refl refl (Steps.move_out refl) tt))
            (run_consumer 2 refl refl Steps.release tt))
          (notify_nobody 2 1 refl (λ z. refl) (λ j z. absurd (ground arith))),
    ) in
    let waiting : (s : Parking ℕ) × Reach (λ _. true) (fresh_queue ℕ 1) s = (
      _,
      then_step
          (then_step (then_step taken.1 (run_consumer 1 refl refl Steps.load_head tt))
            (run_consumer 1 refl refl Steps.load_seq tt))
          (sleep_consumer 1 2 1 refl refl refl refl (omega arith) refl),
    ) in
    (
      _,
      then_step
          (then_step
            (then_step
              (then_step (then_step waiting.1 (run_producer refl refl (Steps.load_tail 9) tt))
                (run_producer refl refl Steps.load_seq tt))
              (sleep_producer 2 1 9 refl refl refl (λ e. absurd (cc)) refl))
            (run_consumer 0 refl refl (Steps.move_out refl) tt))
          (run_consumer 0 refl refl Steps.release tt),
    )

-- Consumer 1 sleeps for position 0, and the producer has just published it.
abbrev announced_item : (s : Parking ℕ) × Reach (λ _. true) (fresh_queue ℕ 1) s
unfolding number_slots
announced_item = (
  _,
  then_step
      (then_step
        (then_step
          (then_step
            (then_step
              (then_step (then_step begun (run_consumer 1 refl refl Steps.load_head tt))
                (run_consumer 1 refl refl Steps.load_seq tt))
              (sleep_consumer 1 0 0 refl refl refl refl (omega arith) refl))
            (run_producer refl refl (Steps.load_tail 7) tt))
          (run_producer refl refl Steps.load_seq tt))
        (run_producer refl refl (Steps.build refl) tt))
      (run_producer refl refl Steps.store_seq tt),
)

sleeping_consumer-announced_example : Announcing announced_item.0 0
unfolding announced_item number_slots
sleeping_consumer-announced_example =
    sleeping_consumer-announced 2 made (omega arith) announced_item.1 1 0 0 refl refl refl

sleeping_producer-announced_example :
    ((i : ℕ) × (freed.0.dues i ≡ some 0)) × ((j : ℕ) → freed.0.sleepers j ≡ false)
unfolding freed claimed filled number_slots
sleeping_producer-announced_example =
    sleeping_producer-announced (λ i. refl) freed.1 2 1 9 refl refl refl

notify_one-strands_producer_example :
    (woken : Parking ℕ) × Step (λ _. true) stranded.0 woken
    × ((later : Parking ℕ)
        → Later (λ _. true) woken later
        → (later.asleep ≡ true)
          × (seq_of later.system.mem 2 ≡ 2)
          × (later.system.log ≡ stranded.0.system.log)
          × (later.system.handed ≡ stranded.0.system.handed))
unfolding stranded claimed filled number_slots
notify_one-strands_producer_example =
    notify_one-strands_producer 2 made (omega arith) stranded.1 2 1 0 1 9 refl refl refl refl
      (λ l. ground arith) refl refl (λ l other. ground arith) refl refl
