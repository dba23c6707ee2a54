-- ===== src/Spmc/Publish.antt =====
-- The producer builds an object in a free slot, and publishes it.
use native.Mathlib.Nat.{pow-le-pow_right}
use cpp_concurrency_toolbox.Base.{
  ℕ, suc, ◌+◌, ◌%◌, ◌^◌, ◌≤◌, ◌<◌, ◌≡◌, ◌≢◌, refl, some, List, [], ◌∷◌, ◌++◌, length, get_elem?,
  arith, ◌∙◌, ap, mod_injective, mod_lap, length-snoc, get_elem?-append, get_elem?-snoc,
  lt_of_get_elem?,
}
use cpp_concurrency_toolbox.Spmc.{Queue, construct, set_sequence}
use cpp_concurrency_toolbox.Spmc.Steps.{Producer, Consumer, with_slot}
use cpp_concurrency_toolbox.Spmc.Facts.{lead, lag, seq_at, object_at, Slots, Ledger, Inv}
use cpp_concurrency_toolbox.Spmc.Claim.{ConsumerFresh-transfer}

-- The next position is `t`, and its slot, of index `at`, is free.
module _ {A : Type 0} {k : ℕ} {m : Queue A} {p : Producer A} {consumers : ℕ → Consumer A}
    {log : List A} {handed : ℕ → List A} (inv : Inv k m p consumers log handed) (t at : ℕ) (a : A)
    (index : at ≡ t % 2 ^ k) (next : t ≡ length log) (free : seq_at k m t ≡ t) where
  open inv use {slots, ledger, tail_at, producer_fresh, consumers_fresh}

  two_slots : 2 ≤ 2 ^ k
  two_slots = pow-le-pow_right {n = 2} (omega arith) slots.two

  -- A slot that holds a published object is another one.
  not_taken : (q : ℕ) → q < length log → seq_at k m q ≡ q + 1 → at ≢ q % 2 ^ k
  not_taken q below s same = absurd (ground (arith, free, two_slots, mod_injective (2 ^ k) q t))

  -- So is the slot of a later position of this lap.
  not_later : (q : ℕ) → length log < q → q < length log + 2 ^ k → at ≢ q % 2 ^ k
  not_later q above within same = absurd (ground (arith, mod_injective (2 ^ k) t q))

  abbrev pub built : Queue A
  built = with_slot m at (construct (m.slots at) a)

  seq_at-built : (q : ℕ) → seq_at k built q ≡ seq_at k m q
  seq_at-built q = ground arith

  built-Slots : lead p ≡ 0 → Slots k built 1 log
  built-Slots no_lead = record {
    two = slots.two;
    capacity = slots.capacity;
    mask = slots.mask;
    order = slots.order;
    bounded = λ q. omega (arith, seq_at-built q, slots.bounded q);
    window = λ q from to. ground (arith, seq_at-built q, slots.window q from to);
    available = λ q from to. seq_at-built q ∙ slots.available q from to;
    live = λ q from to.
        ground (arith, slots.live q from to, slots.available q from to, not_taken q to);
    vacant = λ q from to s. ground (arith, slots.vacant q, seq_at-built q, not_later q);
  }

  pub built-Inv :
      lag p ≡ 0 → lead p ≡ 0 → Inv k built (Producer.constructed t a) consumers log handed
  built-Inv no_lag no_lead = record {
    slots = built-Slots no_lead;
    ledger = ledger;
    tail_at = omega arith;
    producer_fresh = (next, seq_at-built t ∙ free, ground arith);
    consumers_fresh = λ j.
        ConsumerFresh-transfer k m built log log (consumers j) (omega arith) (omega arith)
          (λ q held lt s. (seq_at-built q, ground (arith, not_taken q, slots.order), refl))
          (consumers_fresh j);
  }

  abbrev pub numbered : Queue A
  numbered = with_slot m at (set_sequence (m.slots at) (t + 1))

  object_at-numbered : (q : ℕ) → object_at k numbered q ≡ object_at k m q
  object_at-numbered q = ground arith

  more : length (log ++ (a ∷ [])) ≡ suc (length log)
  more = length-snoc log a

  older : (q : ℕ) → q < length log → get_elem? (log ++ (a ∷ [])) q ≡ get_elem? log q
  older q below = get_elem?-append log (a ∷ []) q below

  newest : get_elem? (log ++ (a ∷ [])) t ≡ some a
  newest = ap (get_elem? (log ++ (a ∷ []))) next ∙ get_elem?-snoc log a

  numbered-Slots : object_at k m t ≡ some a → lead p ≡ 1 → Slots k numbered 0 (log ++ (a ∷ []))
  numbered-Slots object led = record {
    two = slots.two;
    capacity = slots.capacity;
    mask = slots.mask;
    order = omega (arith, more, slots.order);
    bounded = λ q. ground (arith, more, slots.bounded q, two_slots);
    window = λ q from to.
        ground (arith, more, slots.window q, not_later q, mod_lap (2 ^ k) t, last_slot q);
    available = λ q from to. ground (arith, more, slots.available q, not_taken q, newest_slot q);
    live = λ q from to.
        ground (arith, more, object_at-numbered q, slots.live q, older q, newest, newest_slot q);
    vacant = λ q from to s. ground (
      arith,
      more,
      object_at-numbered q,
      slots.vacant q,
      not_later q,
      mod_lap (2 ^ k) t,
      last_slot q,
      two_slots,
    );
  }
    where
      last_slot : (q : ℕ) → q ≡ t + 2 ^ k → q % 2 ^ k ≡ (t + 2 ^ k) % 2 ^ k
      last_slot q e = ap (λ i. i % 2 ^ k) e

      newest_slot : (q : ℕ) → q ≡ t → q % 2 ^ k ≡ t % 2 ^ k
      newest_slot q e = ap (λ i. i % 2 ^ k) e

  numbered-Ledger : Ledger m.head consumers (log ++ (a ∷ [])) handed
  numbered-Ledger = record {
    unique = ledger.unique;
    unclaimed = ledger.unclaimed;
    in_hand = ledger.in_hand;
    once = λ q b bs f.
        let (lone, at_q) = ledger.once q b bs f in
        (lone, older q (lt_of_get_elem? log q at_q) ∙ at_q);
    kept = ledger.kept;
  }

  pub numbered-Inv :
      lag p ≡ 0
      → lead p ≡ 1
      → object_at k m t ≡ some a
      → Inv k numbered (Producer.published t) consumers (log ++ (a ∷ [])) handed
  numbered-Inv no_lag led object = record {
    slots = numbered-Slots object led;
    ledger = numbered-Ledger;
    tail_at = omega (arith, more);
    producer_fresh = omega (arith, more);
    consumers_fresh = λ j.
        ConsumerFresh-transfer k m numbered log (log ++ (a ∷ [])) (consumers j) (omega arith)
          (omega (arith, more))
          (λ q held lt s. (
            ground (arith, not_taken q, slots.order),
            object_at-numbered q,
            older q (omega (arith, slots.order)),
          ))
          (consumers_fresh j);
  }
