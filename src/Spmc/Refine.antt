-- ===== src/Spmc/Refine.antt =====
-- A constructed `SPMCQueue` against the bounded queue, and its size.
use native.Mathlib.Nat.{mod-eq_of_lt, pow-le-pow_right}
use cpp_concurrency_toolbox.Base.{
  ℕ, ◌+◌, ◌*◌, ◌%◌, ◌^◌, ◌≤◌, ◌<◌, ◌≡◌, ◌↔◌, refl, Bool, true, List, [], length, arith, ap, ◌∙◌,
  sym, subst, ok, sub_size, eq-nil_of_length,
}
use cpp_concurrency_toolbox.Fifo.{Op, replies}
use cpp_concurrency_toolbox.Fifo.Client.{run, run_refines}
use cpp_concurrency_toolbox.Spmc.{Queue, new, size_approx, is_empty}
use cpp_concurrency_toolbox.Spmc.Start.{fresh_queue, new-Made, sequence-fresh, number_slots-storage}
use cpp_concurrency_toolbox.Spmc.Sequential.{Holds}
use cpp_concurrency_toolbox.Spmc.Pop.{Succeeds, implementation}

module _ {A : Type 0} where
  fresh-Holds : (k : ℕ) → 1 ≤ k → k ≤ 63 → Holds k (fresh_queue A k) []
  fresh-Holds k two small = record {
    two = two;
    small = small;
    capacity = refl;
    mask = refl;
    head_in = omega arith;
    tail_at = refl;
    room = omega arith;
    taken = λ i below. absurd (omega arith);
    objects = λ i below. absurd (omega arith);
    free = λ i from to.
        sequence-fresh A k two small (0 + i) ∙ mod-eq_of_lt (omega arith) ∙ omega (arith, bound);
    raw = λ i from to. number_slots-storage A (2 ^ k) ((0 + i) % 2 ^ k);
  }
    where
      bound : 2 ^ k ≤ 2 ^ 63
      bound = pow-le-pow_right {n = 2} (omega arith) small

  -- A constructed queue answers every sequence of `try_emplace` and `try_pop` of one thread as a
  -- first-in, first-out queue does whose bound is the request rounded up to a power of two, also when
  -- the positions have wrapped; each weak exchange may fail without cause as `weak` says, as long as
  -- one of them does not.
  pub new-run-replies :
      (requested : ℕ) {q : Queue A} (weak : List Bool) (ends : Succeeds weak) (ops : List (Op A))
      → new requested ≡ ok q
      → (k : ℕ) × (q.capacity ≡ 2 ^ k)
        × (requested ≤ 2 ^ k)
        × (2 ^ k < 2 * requested)
        × (run (implementation k weak ends) q ops ≡ replies (2 ^ k) [] ops)
  new-run-replies requested {q} weak ends ops made =
      let (k, two, small, reaches, least, e) = new-Made A requested made in
      (
        k,
        ap (λ r. r.capacity) e,
        reaches,
        least,
        run_refines (implementation k weak ends) ops q []
            (subst (λ r. Holds k r []) (sym e) (fresh-Holds k two small)),
      )

  -- For one thread `size_approx` is the number of elements, and `empty` says whether there are none,
  -- also when the tail has wrapped and the head has not.
  pub size-length :
      (k : ℕ) (q : Queue A) (xs : List A)
      → Holds k q xs
      → (size_approx q q ≡ length xs) × ((is_empty q q ≡ true) ↔ (xs ≡ []))
  unfolding size_approx is_empty
  size-length k q xs held = (
    size,
    (λ e. eq-nil_of_length xs (ground (arith, size)), λ e. ground (arith, size, ap length e)),
  )
    where
      size : sub_size q.tail q.head ≡ length xs
      size = omega (
        arith,
        held.tail_at,
        held.head_in,
        held.room,
        pow-le-pow_right {n = 2} (omega arith) held.small,
      )
