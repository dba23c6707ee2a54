-- ===== src/Spmc/Pop.antt =====
-- `try_pop` of `SPMCQueue`, called by one thread at a time: the loop ends, and it returns the oldest
-- element.
use native.Mathlib.Nat.{one-le-pow}
use native.Mathlib.Decide.{dec_lt}
use cpp_concurrency_toolbox.Base.{
  ℕ, suc, ◌+◌, ◌%◌, ◌^◌, ◌≤◌, ◌<◌, ◌≡◌, refl, Bool, true, false, Option, none, some, List, [], ◌∷◌,
  length, arith, wrap, mod_injective, mod_lap, update, ap, ◌∙◌, sub_size,
}
use cpp_concurrency_toolbox.Spmc.{
  Queue, slot_of, destroy, set_sequence, pop_round, pop_loop, try_emplace, try_pop, popped, nothing,
  retry, Expected, unexpected, value, empty, expect, try_pop_expected,
}
use cpp_concurrency_toolbox.Spmc.Sequential.{
  wrap_shift, cell, Holds, slot_of-mod, try_emplace-refines,
}
use cpp_concurrency_toolbox.Fifo.{Bounded, Returns, poll}

-- Some round's exchange does not fail without cause.
abbrev pub Succeeds : List Bool → Type 0
Succeeds [] = ⊥
Succeeds (true ∷ weak) = Succeeds weak
Succeeds (false ∷ weak) = Unit

module _ {A : Type 0} (k : ℕ) where
  module _ (q : Queue A) where
    -- In an empty queue the slot at the head waits for the producer.
    pub unwritten : Holds k q [] → (q.slots (slot_of q q.head)).sequence ≡ q.head
    unwritten held =
        ap (λ i. (q.slots i).sequence) (slot_of-mod k q [] held q.head)
        ∙ ap (λ n. (q.slots (n % 2 ^ k)).sequence) (omega arith)
        ∙ held.free 0 (omega arith) (one-le-pow k 2 (omega arith))
        ∙ omega (arith, held.head_in)

    pub pop_round-nothing : (weak : Bool) → Holds k q [] → pop_round q q.head weak ≡ nothing
    unfolding pop_round
    pop_round-nothing weak held = ground (arith, unwritten held, held.head_in)

  module _ (q : Queue A) (x : A) (xs : List A) (held : Holds k q (x ∷ xs)) where
    open held use {two, small, capacity, mask, head_in, tail_at, room, taken, objects, free, raw}

    abbrev at : ℕ
    at = slot_of q q.head

    -- The queue after the element at the head is gone.
    abbrev pub rest_queue : Queue A
    rest_queue = record q {
      slots = update q.slots at (set_sequence (destroy (q.slots at)) (wrap (q.head + q.capacity)));
      head = wrap (q.head + 1);
    }

    head_slot : at ≡ (q.head + 0) % 2 ^ k
    head_slot = slot_of-mod k q (x ∷ xs) held q.head ∙ ap (λ t. t % 2 ^ k) (omega arith)

    found : (q.slots at).sequence ≡ wrap (q.head + 1)
    found = ap (λ i. (q.slots i).sequence) head_slot ∙ taken 0 (omega arith) ∙ omega arith

    pub object : (q.slots at).storage ≡ some x
    object = ap (λ i. (q.slots i).storage) head_slot ∙ objects 0 (omega arith)

    pub diff-zero : sub_size (q.slots at).sequence (wrap (q.head + 1)) ≡ 0
    diff-zero = omega (arith, found)

    pub pop_round-popped : pop_round q q.head false ≡ popped (some x) rest_queue
    unfolding pop_round
    pop_round-popped = ground (arith, diff-zero, object)

    pub pop_round-retry : pop_round q q.head true ≡ retry q.head
    unfolding pop_round
    pop_round-retry = ground (arith, diff-zero)

    -- The other slots keep their places, counted from the new head.
    later :
        (i : ℕ)
        → suc i < 2 ^ k
        → cell k rest_queue (wrap (q.head + 1) + i) ≡ cell k q (q.head + suc i)
    later i within = ground (
      arith,
      wrap_shift k q.head i small,
      head_slot,
      mod_injective (2 ^ k) (q.head + 0) (q.head + suc i),
    )

    -- The slot of the old head is the last one of the next lap.
    last :
        (i : ℕ)
        → suc i ≡ 2 ^ k
        → cell k rest_queue (wrap (q.head + 1) + i)
          ≡ record { sequence = wrap (q.head + q.capacity); storage = none }
    last i e = ground (arith, wrap_shift k q.head i small, head_slot, around)
      where
        around : (q.head + suc i) % 2 ^ k ≡ (q.head + 0) % 2 ^ k
        around =
            ap (λ n. (q.head + n) % 2 ^ k) e
            ∙ mod_lap (2 ^ k) q.head
            ∙ ap (λ t. t % 2 ^ k) (omega arith)

    rest-free :
        (i : ℕ)
        → length xs ≤ i
        → i < 2 ^ k
        → ((cell k rest_queue (wrap (q.head + 1) + i)).sequence ≡ wrap (wrap (q.head + 1) + i))
          × ((cell k rest_queue (wrap (q.head + 1) + i)).storage ≡ none)
    rest-free i from to = elim (dec_lt (suc i) (2 ^ k)) [
      | yes within ↦
          rw (later i within)
            (omega (arith, free (suc i) (omega arith) within), raw (suc i) (omega arith) within)
      | no beyond ↦ rw (last i (omega arith)) (omega (arith, capacity), refl)
    ]

    pub rest-Holds : Holds k rest_queue xs
    rest-Holds = record {
      two = two;
      small = small;
      capacity = capacity;
      mask = mask;
      head_in = omega arith;
      tail_at = omega (arith, tail_at);
      room = omega arith;
      taken = λ i below.
          ap (λ s. s.sequence) (later i (omega arith)) ∙ omega (arith, taken (suc i) (omega arith));
      objects =
          λ i below. ap (λ s. s.storage) (later i (omega arith)) ∙ objects (suc i) (omega arith);
      free = λ i from to. (rest-free i from to).0;
      raw = λ i from to. (rest-free i from to).1;
    }

  pop_loop-Returns :
      (weak : List Bool) (q : Queue A) (xs : List A)
      → Succeeds weak
      → Holds k q xs
      → Returns (Holds k) (poll xs) (pop_loop weak q.head q)
  unfolding pop_loop poll
  pop_loop-Returns [] q xs ends held = absurd ends
  pop_loop-Returns (w ∷ weak) q [] ends held =
      rw (pop_round-nothing q w held, pop_loop) (refl, held)
  pop_loop-Returns (true ∷ weak) q (x ∷ xs) ends held =
      rw (pop_round-retry q x xs held, pop_loop) (pop_loop-Returns weak q (x ∷ xs) ends held)
  pop_loop-Returns (false ∷ weak) q (x ∷ xs) ends held =
      rw (pop_round-popped q x xs held, pop_loop) (refl, rest-Holds q x xs held)

  pub try_pop-Returns :
      (weak : List Bool) (q : Queue A) (xs : List A)
      → Succeeds weak
      → Holds k q xs
      → Returns (Holds k) (poll xs) (try_pop weak q)
  unfolding try_pop
  try_pop-Returns weak q xs ends held = pop_loop-Returns weak q xs ends held

  -- What `try_pop_expected` should answer: never `Full`.
  abbrev pub reported : List A → Expected A
  reported [] = unexpected empty
  reported (x ∷ xs) = value x

  from_answer :
      (xs : List A) (r : Option (Option A × Queue A))
      → Returns (Holds k) (poll xs) r
      → (q' : Queue A) × Holds k q' (poll xs).1 × (r ≡ some ((poll xs).0, q'))
  from_answer xs none answer = absurd answer
  from_answer xs (some (a, q')) answer = (q', answer.1, ap (λ b. some (b, q')) answer.0)

  expect-poll : (xs : List A) → expect (poll xs).0 ≡ reported xs
  unfolding poll expect
  expect-poll [] = refl
  expect-poll (x ∷ xs) = refl

  -- A pop ends and tells the truth: for one thread, once an exchange does not fail without cause,
  -- `try_pop` returns the oldest element and removes it, or nothing from an empty queue, and
  -- `try_pop_expected` leaves the same queue and returns that element, or the error `Empty`, and never
  -- `Full`. This holds across the wrap of the positions.
  pub try_pop_expected-try_pop :
      (weak : List Bool) (q : Queue A) (xs : List A)
      → Succeeds weak
      → Holds k q xs
      → (q' : Queue A) × Holds k q' (poll xs).1
        × (try_pop weak q ≡ some ((poll xs).0, q'))
        × (try_pop_expected weak q ≡ some (reported xs, q'))
  unfolding try_pop_expected
  try_pop_expected-try_pop weak q xs ends held =
      let (q', after, e) = from_answer xs (try_pop weak q) (try_pop-Returns weak q xs ends held) in
      (
        q',
        after,
        e,
        ap (λ r. elim r [ none ↦ none | some (a, p) ↦ some (expect a, p) ]) e
            ∙ ap (λ t. some (t, q')) (expect-poll xs),
      )

  abbrev pub implementation : (weak : List Bool) → Succeeds weak → Bounded A (Queue A) (2 ^ k)
  implementation weak ends = record {
    try_emplace = try_emplace;
    try_pop = try_pop weak;
    Holds = Holds k;
    emplace_refines = λ q xs a held. try_emplace-refines k q xs held a;
    pop_refines = λ q xs held. try_pop-Returns weak q xs ends held;
  }
