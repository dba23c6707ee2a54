-- ===== src/Spsc.antt =====
-- include/SPSCLockFreeQueue.h: `SPSCQueue<T>`, a ring for one producer and one consumer.
-- Here are the constructor and the two operations as one caller sees them; the steps that the two
-- threads interleave are in `Spsc.Steps`.
pub mod Sequential
pub mod Steps
pub mod Facts
pub mod ByProducer
pub mod ByConsumer
pub mod Safety
mod Tests
use cpp_concurrency_toolbox.Base.{
  ℕ, ◌+◌, ◌-◌, ◌*◌, ◌^◌, Bool, true, false, Option, none, some, ◌==◌, bit_and, if◌then◌else◌, wrap,
  sub_size, update, Result, ok, err, capacity_not_power_of_two,
}
use cpp_concurrency_toolbox.Capacity.{has_single_bit}

-- `buffer` has `capacity_mask + 1` cells.
pub record Queue (A : Type 0) : Type 0 where
  pub capacity_mask : ℕ
  pub buffer : ℕ → A
  pub head : ℕ
  pub tail : ℕ

-- `(i + 1) & capacity_mask`.
abbrev pub next_index : ℕ → ℕ → ℕ
next_index mask i = bit_and (wrap (i + 1)) mask

module _ {A : Type 0} where
  -- The constructor; `make_unique<T[]>` fills the cells with the default value of `T`.
  pub new : A → ℕ → Result (Queue A)
  new default capacity =
      if has_single_bit capacity
      then ok (record {
        capacity_mask = sub_size capacity 1;
        buffer = λ _. default;
        head = 0;
        tail = 0;
      })
      else err capacity_not_power_of_two

  pub try_emplace : Queue A → A → Bool × Queue A
  try_emplace q a =
      let t = q.tail in
      let h = q.head in
      if next_index q.capacity_mask t == h
      then (false, q)
      else (true, record q { buffer = update q.buffer t a; tail = next_index q.capacity_mask t })

  -- `moved` is what a move leaves in the cell that it takes from.
  pub try_pop : (A → A) → Queue A → Option A × Queue A
  try_pop moved q =
      let h = q.head in
      let t = q.tail in
      if h == t then (none, q) else (
        some (q.buffer h),
        record q {
          buffer = update q.buffer h (moved (q.buffer h));
          head = next_index q.capacity_mask h;
        },
      )
