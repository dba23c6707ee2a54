-- ===== src/Overwrite/Tests.antt =====
-- `SPMCOverwriteQueue` at concrete inputs: two slots, and payloads of one byte.
use cpp_concurrency_toolbox.Base.{
  ℕ, ◌+◌, ◌-◌, ◌^◌, ◌≤◌, ◌<◌, ◌≡◌, refl, some, length, get_elem?, arith, ok,
}
use cpp_concurrency_toolbox.Capacity.{check_and_round_overwrite, bit_ceil}
use cpp_concurrency_toolbox.Overwrite.{Cursor, Verdict, verdict, lapped_to, new}
use cpp_concurrency_toolbox.Overwrite.Steps
use cpp_concurrency_toolbox.Overwrite.Steps.{
  Producer, Reader, System, by_producer, by_reader, Reach, begun, then_step, Later, now, next,
}
use cpp_concurrency_toolbox.Overwrite.Safety.{fresh_queue, read-Delivered, position-accounts}

made : new {B = ℕ} 0 2 ≡ ok (fresh_queue 0 2)
unfolding new check_and_round_overwrite bit_ceil
made = refl

verdicts :
    (verdict 3 5 ≡ Verdict.nothing_new)
    × (verdict 3 4 ≡ Verdict.nothing_new)
    × (verdict 3 6 ≡ Verdict.readable)
    × (verdict 3 10 ≡ Verdict.overtaken 5)
unfolding verdict
verdicts = (refl, refl, refl, refl)

-- The oldest of four slots after ten publications is position 7; with a count that lags, the
-- consumer falls back to the position that the slot showed.
laps :
    (lapped_to 4 10 9 (record { pos = 5; missed = 0 }) ≡ record { pos = 7; missed = 2 })
    × (lapped_to 4 8 9 (record { pos = 5; missed = 0 }) ≡ record { pos = 9; missed = 4 })
unfolding lapped_to
laps = (refl, refl)

abbrev subscribed : (s : System ℕ) × Reach 1 (fresh_queue 0 2) s
subscribed = (_, then_step begun (by_reader Steps.subscribe))

abbrev published : (s : System ℕ) × Reach 1 (fresh_queue 0 2) s
published = (
  _,
  then_step
      (then_step
        (then_step (then_step subscribed.1 (by_producer (Steps.mark (λ i. 7) 1 refl)))
          (by_producer (Steps.copy_in (omega arith))))
        (by_producer Steps.store_seq))
      (by_producer Steps.store_published),
)

abbrev given : (s : System ℕ) × Reach 1 (fresh_queue 0 2) s
unfolding verdict
given = (
  _,
  then_step
      (then_step
        (then_step (then_step published.1 (by_reader Steps.load_seq))
          (by_reader (Steps.begin_copy (λ i. 0) refl)))
        (by_reader (Steps.copy_out (omega arith))))
      (by_reader (Steps.accept refl)),
)

given_log : length given.0.log + 1 < 2 ^ 63
unfolding given
given_log = omega arith

read-Delivered_example :
    ((i pos : ℕ) (out : ℕ → ℕ)
      → get_elem? given.0.got i ≡ some (pos, out)
      → (item : ℕ → ℕ) × (get_elem? given.0.log (pos - 1) ≡ some item)
        × ((j : ℕ) → j < 1 → out j ≡ item j))
    × ((i j pos pos' : ℕ) (out out' : ℕ → ℕ)
        → i < j
        → get_elem? given.0.got i ≡ some (pos, out)
        → get_elem? given.0.got j ≡ some (pos', out')
        → pos < pos')
read-Delivered_example = read-Delivered 0 1 2 made given_log given.1

abbrev before : Cursor
before = record { pos = 1; missed = 0 }

abbrev after : Cursor
after = record { pos = 2; missed = 0 }

run : Later 1 subscribed.0 given.0
unfolding given verdict
run =
    next
      (next
        (next
          (next
            (next
              (next
                (next (next now (by_producer (Steps.mark (λ i. 7) 1 refl)))
                  (by_producer (Steps.copy_in (omega arith))))
                (by_producer Steps.store_seq))
              (by_producer Steps.store_published))
            (by_reader Steps.load_seq))
          (by_reader (Steps.begin_copy (λ i. 0) refl)))
        (by_reader (Steps.copy_out (omega arith))))
      (by_reader (Steps.accept refl))

given_cursor : given.0.reader ≡ Reader.between after
unfolding given
given_cursor = refl

position-accounts_example :
    (after.pos + length subscribed.0.got + before.missed
      ≡ before.pos + length given.0.got + after.missed)
    × (before.missed ≤ after.missed)
    × (after.pos ≤ length given.0.log + 1)
position-accounts_example =
    position-accounts 0 1 2 before after made given_log subscribed.1 run refl given_cursor
