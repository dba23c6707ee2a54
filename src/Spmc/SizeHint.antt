-- ===== src/Spmc/SizeHint.antt =====
-- `size_approx` and `empty` of `SPMCQueue` while the producer is between its two stores.
use native.Mathlib.Nat.{mod-eq_of_lt}
use cpp_concurrency_toolbox.Base.{
  ℕ, ◌+◌, ◌-◌, ◌^◌, ◌≤◌, ◌<◌, ◌≡◌, ◌⊎◌, refl, false, some, [], ◌∷◌, length, arith, ok, bit_and-mask,
  subst, ap, sym, ◌∙◌,
}
use cpp_concurrency_toolbox.Spmc.{Queue, slot_of, new, size_approx, is_empty}
use cpp_concurrency_toolbox.Spmc.Start.{fresh_queue, new-Made, capacity_pos, sequence-fresh}
use cpp_concurrency_toolbox.Spmc.Steps
use cpp_concurrency_toolbox.Spmc.Steps.{
  Producer, Consumer, System, by_producer, by_consumer, Reach, begun, then_step, Later, now, next,
}
use cpp_concurrency_toolbox.Spmc.Facts.{holds, lag}
use cpp_concurrency_toolbox.Spmc.Safety.{new-Inv, Produce-log, bounded_size}

module _ {A : Type 0} where
  lag-le : (p : Producer A) → lag p ≤ 1
  lag-le (Producer.published t) = omega arith
  lag-le Producer.idle = omega arith
  lag-le (Producer.loaded_tail t a) = omega arith
  lag-le (Producer.loaded_seq t seq a) = omega arith
  lag-le (Producer.constructed t a) = omega arith

  later-Reach :
      {m : Queue A} {s t : System A}
      → Reach m s
      → Later s t
      → Reach m t × (length s.log ≤ length t.log)
  later-Reach r now = (r, omega arith)
  later-Reach {s = s} r (next {t} l (by_producer st)) =
      let (reached, grown) = later-Reach r l in
      (then_step reached (by_producer st), omega (arith, grown, Produce-log st))
  later-Reach {s = s} r (next {t} l (by_consumer i st)) =
      let (reached, grown) = later-Reach r l in (then_step reached (by_consumer i st), grown)

  -- The queue is bounded, and what a call of `size_approx` returns that loads the head in `s` and the
  -- tail in `t`, the same state or a later one: with fewer than 2 ^ 63 - capacity elements published by
  -- then, the elements from the head on are at most as many as the slots; if both loads are made in one
  -- state while the producer is between calls the result is their number; and in general it is the
  -- distance from the one head to the other tail, which is at most the capacity and what was claimed
  -- between the two loads, or the head is one past the tail and it is 2 ^ 64 - 1.
  pub size_approx-bounds :
      (requested : ℕ) {m : Queue A} {s t : System A}
      → new requested ≡ ok m
      → length t.log + m.capacity < 2 ^ 63
      → Reach m s
      → Later s t
      → (length s.log ≤ s.mem.head + m.capacity)
        × (s.producer ≡ Producer.idle → s.mem.head + size_approx s.mem s.mem ≡ length s.log)
        × (((s.mem.head + size_approx s.mem t.mem ≡ t.mem.tail)
              × (s.mem.head + size_approx s.mem t.mem ≤ t.mem.head + m.capacity))
            ⊎ ((s.mem.head ≡ t.mem.tail + 1) × (size_approx s.mem t.mem ≡ 2 ^ 64 - 1)))
  unfolding size_approx
  size_approx-bounds requested {m} {s} {t} made few r l =
      let (reached, grown) = later-Reach r l in
      let (k, size, inv) = new-Inv requested made (omega arith) r in
      let (k', size', inv') = new-Inv requested made few reached in
      let (bounded, exact) = bounded_size requested made (omega arith) r in
      let (bounded', exact') = bounded_size requested made few reached in
      (
        bounded,
        exact,
        ground (arith, inv.slots.order, inv'.slots.order, inv'.tail_at, lag-le t.producer),
      )

module _ (A : Type 0) (k : ℕ) (two : 1 ≤ k) (small : k ≤ 63) where
  first_free : ((fresh_queue A k).slots (slot_of (fresh_queue A k) 0)).sequence ≡ 0
  first_free =
      ap (λ i. ((fresh_queue A k).slots i).sequence) (bit_and-mask k 0)
      ∙ sequence-fresh A k two small 0
      ∙ mod-eq_of_lt (capacity_pos A k two small)

  -- The producer has published `a` and not yet stored the tail, and consumer 0 has claimed it.
  early : A → (s : System A) × Reach (fresh_queue A k) s
  early a = (
    _,
    then_step
        (then_step
          (then_step
            (then_step
              (then_step
                (then_step (then_step begun (by_producer (Steps.load_tail a)))
                  (by_producer Steps.load_seq))
                (by_producer (Steps.build first_free)))
              (by_producer Steps.store_seq))
            (by_consumer 0 Steps.load_head))
          (by_consumer 0 Steps.load_seq))
        (by_consumer 0 (Steps.claim (ground arith) refl)),
  )

  early-wraps :
      (a : A)
      → (s : System A) × Reach (fresh_queue A k) s
        × (s.log ≡ a ∷ [])
        × (holds (s.consumers 0) ≡ some 0)
        × (size_approx s.mem s.mem ≡ 2 ^ 64 - 1)
        × (is_empty s.mem s.mem ≡ false)
  unfolding size_approx is_empty early
  early-wraps a = ((early a).0, (early a).1, refl, refl, refl, refl)

-- `size_approx` can return 2 ^ 64 - 1: for every request that the constructor accepts and every
-- element, the threads can reach a state in which only that element has been published, a consumer
-- has already claimed it, and, with both loads made there, `size_approx` returns 2 ^ 64 - 1 and `empty`
-- returns false.
pub size_approx-wraps :
    {A : Type 0} (requested : ℕ) {m : Queue A}
    → new requested ≡ ok m
    → (a : A)
    → (s : System A) × Reach m s
      × (s.log ≡ a ∷ [])
      × (holds (s.consumers 0) ≡ some 0)
      × (size_approx s.mem s.mem ≡ 2 ^ 64 - 1)
      × (is_empty s.mem s.mem ≡ false)
size_approx-wraps {A} requested {m} made a =
    let (k, two, small, reaches, least, e) = new-Made A requested made in
    subst
      (λ q.
        (s : System A) × Reach q s
        × (s.log ≡ a ∷ [])
        × (holds (s.consumers 0) ≡ some 0)
        × (size_approx s.mem s.mem ≡ 2 ^ 64 - 1)
        × (is_empty s.mem s.mem ≡ false))
      (sym e) (early-wraps A k two small a)
