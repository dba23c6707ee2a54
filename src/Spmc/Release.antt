-- ===== src/Spmc/Release.antt =====
-- A consumer moves the object out of the slot that it has claimed, and gives the slot back.
use native.Mathlib.Nat.{pow-le-pow_right}
use cpp_concurrency_toolbox.Base.{
  ℕ, ◌+◌, ◌%◌, ◌^◌, ◌≤◌, ◌<◌, ◌≡◌, ◌≢◌, refl, none, some, List, ◌∷◌, length, get_elem?, arith,
  update, ◌==◌, Bool-cases, inl, inr, ◌∙◌, sym, mod_injective,
}
use cpp_concurrency_toolbox.Spmc.{Queue, destroy, set_sequence}
use cpp_concurrency_toolbox.Spmc.Steps.{Producer, Consumer, with_slot}
use cpp_concurrency_toolbox.Spmc.Facts.{holds, lead, seq_at, object_at, Slots, Ledger, Inv}
use cpp_concurrency_toolbox.Spmc.Claim.{same-Ledger, ConsumerFresh-transfer, ProducerFresh-transfer}

-- Consumer `i` holds position `h`, whose slot has index `at`.
module _ {A : Type 0} {k : ℕ} {m : Queue A} {p : Producer A} {consumers : ℕ → Consumer A}
    {log : List A} {handed : ℕ → List A} (inv : Inv k m p consumers log handed) (i h at : ℕ)
    (index : at ≡ h % 2 ^ k) (held : holds (consumers i) ≡ some h) (below : h < m.head)
    (taken : seq_at k m h ≡ h + 1) where
  open inv use {slots, ledger, tail_at, producer_fresh, consumers_fresh}

  -- Two slots at least: a capacity of one would take the next position for this one.
  two_slots : 2 ≤ 2 ^ k
  two_slots = pow-le-pow_right {n = 2} (omega arith) slots.two

  -- No other position is served by this slot now.
  other_slot : (q : ℕ) → seq_at k m q ≡ q + 1 → at ≡ q % 2 ^ k → h ≡ q
  other_slot q s same = ground (arith, taken)

  next_slot : (q : ℕ) → length log ≤ q → seq_at k m q ≡ q → at ≢ q % 2 ^ k
  next_slot q above s same =
      absurd (ground (arith, taken, two_slots, mod_injective (2 ^ k) h q, slots.order))

  abbrev pub emptied : Queue A
  emptied = with_slot m at (destroy (m.slots at))

  seq_at-emptied : (q : ℕ) → seq_at k emptied q ≡ seq_at k m q
  seq_at-emptied q = ground arith

  emptied-Slots : Slots k emptied (lead p) log
  emptied-Slots = record {
    two = slots.two;
    capacity = slots.capacity;
    mask = slots.mask;
    order = slots.order;
    bounded = λ q. omega (arith, seq_at-emptied q, slots.bounded q);
    window = λ q from to. ground (arith, seq_at-emptied q, slots.window q from to);
    available = λ q from to. seq_at-emptied q ∙ slots.available q from to;
    live =
        λ q from to. ground (arith, slots.live q from to, slots.available q from to, other_slot q);
    vacant = λ q from to s. ground (arith, slots.vacant q from to, seq_at-emptied q);
  }

  pub emptied-Inv :
      (a : A)
      → object_at k m h ≡ some a
      → object_at k m h ≡ get_elem? log h
      → Inv k emptied p (update consumers i (Consumer.moved h a)) log handed
  emptied-Inv a object published = record {
    slots = emptied-Slots;
    ledger = same-Ledger inv i (Consumer.moved h a) (sym held);
    tail_at = tail_at;
    producer_fresh =
        ProducerFresh-transfer k m emptied log log p refl
          (λ t e s. (seq_at-emptied t, ground (arith, next_slot t))) producer_fresh;
    consumers_fresh = λ j. elim (Bool-cases (i == j)) [
      | inl same ↦ rw same (below, seq_at-emptied h ∙ taken, ground arith, sym published ∙ object)
      | inr other ↦ rw other (
          ConsumerFresh-transfer k m emptied log log (consumers j) (omega arith) (omega arith)
            (λ q q_held lt s.
              (seq_at-emptied q, ground (arith, other_slot q s, ledger.unique i j h held), refl))
            (consumers_fresh j))
    ];
  }

  -- The slot goes to the next lap.
  abbrev pub freed : Queue A
  freed = with_slot m at (set_sequence (m.slots at) (h + 2 ^ k))

  object_at-freed : (q : ℕ) → object_at k freed q ≡ object_at k m q
  object_at-freed q = ground arith

  freed-Slots : object_at k m h ≡ none → Slots k freed (lead p) log
  freed-Slots raw = record {
    two = slots.two;
    capacity = slots.capacity;
    mask = slots.mask;
    order = slots.order;
    bounded = λ q. ground (arith, slots.bounded q, slots.order);
    window = λ q from to. ground (arith, slots.window q from to, next_slot q from, taken);
    available = λ q from to. ground (arith, slots.available q from to, other_slot q);
    live = λ q from to. object_at-freed q ∙ slots.live q from to;
    vacant = λ q from to s. ground (arith, slots.vacant q from to, object_at-freed q, raw);
  }

  freed-Ledger :
      (a : A)
      → get_elem? log h ≡ some a
      → Ledger m.head (update consumers i Consumer.idle) log (update handed h (a ∷ handed h))
  freed-Ledger a published = record {
    unique = λ x y q f g. ground (arith, ledger.unique x y q);
    unclaimed = λ q above. ground (arith, ledger.unclaimed q above);
    in_hand = λ x q f. ground (arith, ledger.in_hand x q, ledger.unique i x h held);
    once = λ q b bs f. ground (arith, ledger.once q b bs, ledger.in_hand i h held);
    kept = λ q under bare. elim (Bool-cases (h == q)) [
      | inl same ↦ absurd (ground arith)
      | inr other ↦ let (j, by) = ledger.kept q under (ground arith) in (j, ground arith)
    ];
  }

  pub freed-Inv :
      (a : A)
      → object_at k m h ≡ none
      → get_elem? log h ≡ some a
      → Inv k freed p (update consumers i Consumer.idle) log (update handed h (a ∷ handed h))
  freed-Inv a raw published = record {
    slots = freed-Slots raw;
    ledger = freed-Ledger a published;
    tail_at = tail_at;
    producer_fresh =
        ProducerFresh-transfer k m freed log log p refl
          (λ t e s. (ground (arith, next_slot t), object_at-freed t)) producer_fresh;
    consumers_fresh = λ j. elim (Bool-cases (i == j)) [
      | inl same ↦ rw same tt
      | inr other ↦ rw other (
          ConsumerFresh-transfer k m freed log log (consumers j) (omega arith) (omega arith)
            (λ q q_held lt s.
              (ground (arith, other_slot q s, ledger.unique i j h held), object_at-freed q, refl))
            (consumers_fresh j))
    ];
  }
