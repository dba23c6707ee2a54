-- ===== src/Broadcast.antt =====
-- include/SPMCBroadcastQueue.h: `SPMCBroadcastQueue<T, N>`, a ring that every one of `n` consumers
-- reads in full. Here is each operation as one caller sees it; the steps that the threads
-- interleave are in `Broadcast.Steps`.
mod Steps
mod Facts
mod Gate
mod Naive
mod ByProducer
mod ByConsumer
mod Safety
mod Tests
use cpp_concurrency_toolbox.Base.{
  ℕ, zero, suc, ◌+◌, ◌-◌, Bool, true, false, Option, none, some, ltb, leb, bit_and, if◌then◌else◌,
  wrap, sub_size, update, Result, ok, err, ◌>>=◌,
}
use cpp_concurrency_toolbox.Capacity.{check_and_round_broadcast}

-- `cached_min` is the producer's own.
pub record Queue (A : Type 0) : Type 0 where
  pub capacity : ℕ
  pub mask : ℕ
  pub slots : ℕ → A
  pub tail : ℕ
  pub cached_min : ℕ
  pub cursors : ℕ → ℕ

abbrev pub lesser : ℕ → ℕ → ℕ
lesser least c = if ltb c least then c else least

-- The loop over cursors 1 to `n`.
unfoldable pub min_cursor : (ℕ → ℕ) → ℕ → ℕ
min_cursor cursors zero = cursors 0
min_cursor cursors (suc n) = let rest = min_cursor cursors n in lesser rest (cursors (suc n))

module _ {A : Type 0} where
  abbrev pub slot_of : Queue A → ℕ → ℕ
  slot_of q pos = bit_and pos q.mask

  -- The ring looks full from the slowest position that is known.
  abbrev pub looks_full : Queue A → (tail slowest : ℕ) → Bool
  looks_full q tail slowest = leb q.capacity (sub_size tail slowest)

  unfoldable pub new : A → ℕ → Result (Queue A)
  new default capacity = check_and_round_broadcast capacity >>= λ c. ok (record {
    capacity = c;
    mask = c - 1;
    slots = λ i. default;
    tail = 0;
    cached_min = 0;
    cursors = λ i. 0;
  })

  abbrev pub put : Queue A → A → Queue A
  put q a = record q { slots = update q.slots (slot_of q q.tail) a; tail = wrap (q.tail + 1) }

  -- `last` is the index of the last consumer, N - 1.
  unfoldable pub try_publish : (last : ℕ) → Queue A → A → Bool × Queue A
  try_publish last q a =
      if looks_full q q.tail q.cached_min
      then (let seen = record q { cached_min = min_cursor q.cursors last } in
          if looks_full seen seen.tail seen.cached_min then (false, seen) else (true, put seen a))
      else (true, put q a)

  -- `try_copy`: `try_consume` with a function that copies the item.
  unfoldable pub try_copy : Queue A → ℕ → Option A × Queue A
  try_copy q i =
      let pos = q.cursors i in
      if leb q.tail pos then (none, q) else (
        some (q.slots (slot_of q pos)),
        record q { cursors = update q.cursors i (wrap (pos + 1)) },
      )

  unfoldable pub backlog_approx : (last : ℕ) → Queue A → ℕ
  backlog_approx last q = sub_size q.tail (min_cursor q.cursors last)
