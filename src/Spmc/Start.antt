-- ===== src/Spmc/Start.antt =====
-- The constructor of `SPMCQueue`, and the invariant of the queue that it makes.
use native.Mathlib.Nat.{one-le-pow, pow-le-pow_right, mod-lt, mod-eq_of_lt}
use cpp_concurrency_toolbox.Base.{
  ℕ, zero, suc, ◌-◌, ◌*◌, ◌%◌, ◌^◌, ◌≤◌, ◌<◌, ◌≡◌, refl, none, [], arith, sub_size, ◌∙◌, inl, inr,
  Result, ok, err, ◌>>=◌, ◌==◌, Bool-cases,
}
use cpp_concurrency_toolbox.Capacity.{check_and_round_spmc}
use cpp_concurrency_toolbox.Capacity.Round.{Verdict, IsCapacity, capacity_checks}
use cpp_concurrency_toolbox.Spmc.{Queue, allocate_slots, number_slots, new}
use cpp_concurrency_toolbox.Spmc.Steps.{Producer, Consumer}
use cpp_concurrency_toolbox.Spmc.Facts.{Slots, Inv}

module _ (A : Type 0) where
  number_slots-sequence : (n i : ℕ) → i < n → (number_slots {A = A} n allocate_slots i).sequence ≡ i
  unfolding number_slots
  number_slots-sequence zero i below = absurd (omega arith)
  number_slots-sequence (suc n) i below = elim (Bool-cases (n == i)) [
    | inl last ↦ ground arith
    | inr other ↦ ground (arith, number_slots-sequence n i)
  ]

  pub number_slots-storage : (n i : ℕ) → (number_slots {A = A} n allocate_slots i).storage ≡ none
  unfolding number_slots
  number_slots-storage zero i = refl
  number_slots-storage (suc n) i =
      ground (arith, number_slots-storage n i, number_slots-storage n n)

  -- The queue with `2 ^ k` slots that the constructor makes.
  abbrev pub fresh_queue : ℕ → Queue A
  fresh_queue k = record {
    capacity = 2 ^ k;
    mask = 2 ^ k - 1;
    slots = number_slots (2 ^ k) allocate_slots;
    head = 0;
    tail = 0;
  }

  abbrev sized : ℕ → ℕ → Queue A
  sized c mask = record {
    capacity = c;
    mask = mask;
    slots = number_slots c allocate_slots;
    head = 0;
    tail = 0;
  }

  -- What the constructor makes for the request: a queue with `2 ^ k` slots, the least power of two
  -- that is no less than the request.
  abbrev pub Made : ℕ → Queue A → Type 0
  Made requested q =
      (k : ℕ) × (1 ≤ k)
      × (k ≤ 63)
      × (requested ≤ 2 ^ k)
      × (2 ^ k < 2 * requested)
      × (q ≡ fresh_queue k)

  sized-Made :
      (requested c : ℕ) (q : Queue A)
      → IsCapacity 63 requested c
      → ok (sized c (sub_size c 1)) ≡ ok q
      → Made requested q
  sized-Made requested c q fit made = (
    exponent,
    at_least_two,
    at_most,
    omega (arith, reaches, power),
    omega (arith, least, power),
    cc (power, all_ones),
  )
    where
      open fit use {exponent, power, at_least_two, at_most, reaches, least}

      all_ones : sub_size c 1 ≡ 2 ^ exponent - 1
      all_ones =
          omega
            (arith, power, pow-le-pow_right {n = 2} (omega arith) at_most, one-le-pow exponent 2)

  from_check :
      (requested : ℕ) (q : Queue A) (r : Result ℕ)
      → Verdict 63 requested r
      → (r >>= λ c. ok (sized c (sub_size c 1))) ≡ ok q
      → Made requested q
  from_check requested q (ok c) verdict made = sized-Made requested c q verdict.2 made
  from_check requested q (err e) verdict made = absurd (cc)

  pub new-Made : (requested : ℕ) {q : Queue A} → new requested ≡ ok q → Made requested q
  unfolding new
  new-Made requested {q} made =
      from_check requested q (check_and_round_spmc requested) (capacity_checks requested).0 made

  module _ (k : ℕ) (two : 1 ≤ k) (small : k ≤ 63) where
    pub capacity_pos : 0 < 2 ^ k
    capacity_pos = one-le-pow k 2 (omega arith)

    pub sequence-fresh : (p : ℕ) → ((fresh_queue k).slots (p % 2 ^ k)).sequence ≡ p % 2 ^ k
    sequence-fresh p = number_slots-sequence (2 ^ k) (p % 2 ^ k) (mod-lt p capacity_pos)

    fresh-Slots : Slots k (fresh_queue k) 0 []
    fresh-Slots = record {
      two = two;
      capacity = refl;
      mask = refl;
      order = omega arith;
      bounded = λ p. omega (arith, sequence-fresh p, mod-lt p capacity_pos);
      window = λ p from to. inl (sequence-fresh p ∙ mod-eq_of_lt (omega arith));
      available = λ q from to. absurd (omega arith);
      live = λ q from to. absurd (omega arith);
      vacant = λ p from to s. number_slots-storage (2 ^ k) (p % 2 ^ k);
    }

    pub fresh-Inv : Inv k (fresh_queue k) Producer.idle (λ _. Consumer.idle) [] (λ _. [])
    fresh-Inv = record {
      slots = fresh-Slots;
      ledger = record {
        unique = λ i j h x y. absurd (cc);
        unclaimed = λ p above. refl;
        in_hand = λ i h x. absurd (cc);
        once = λ p b bs f. absurd (cc);
        kept = λ p below bare. absurd (omega arith);
      };
      tail_at = omega arith;
      producer_fresh = tt;
      consumers_fresh = λ i. tt;
    }
