-- ===== src/Spmc/Claim.antt =====
-- The steps of a consumer that write no slot, and its claim of a position.
use native.Mathlib.Nat.{one-le-pow}
use cpp_concurrency_toolbox.Base.{
  ℕ, ◌+◌, ◌%◌, ◌^◌, ◌≤◌, ◌<◌, ◌≡◌, refl, none, some, List, length, get_elem?, arith, update, ◌==◌,
  Bool-cases, inl, inr, bit_and-mask, ◌∙◌, ap, bit_and, sym,
}
use cpp_concurrency_toolbox.Spmc.{Queue, slot_of}
use cpp_concurrency_toolbox.Spmc.Steps.{Producer, Consumer}
use cpp_concurrency_toolbox.Spmc.Facts.{
  holds, lead, seq_at, object_at, ProducerFresh, ConsumerFresh, Slots, Ledger, Inv,
}

module _ {A : Type 0} {k : ℕ} {m : Queue A} {p : Producer A} {consumers : ℕ → Consumer A}
    {log : List A} {handed : ℕ → List A} (inv : Inv k m p consumers log handed) where
  open inv use {slots, ledger, tail_at, producer_fresh, consumers_fresh}

  pub slot_of-mod : (position : ℕ) → slot_of m position ≡ position % 2 ^ k
  slot_of-mod position = ap (λ t. bit_and position t) slots.mask ∙ bit_and-mask k position

  -- A consumer that holds the same position before and after leaves the ledger as it is.
  pub same-Ledger :
      (i : ℕ) (c : Consumer A)
      → holds c ≡ holds (consumers i)
      → Ledger m.head (update consumers i c) log handed
  same-Ledger i c same = record {
    unique = λ a b h x y. ground (arith, ledger.unique a b h);
    unclaimed = ledger.unclaimed;
    in_hand = λ a h x. ground (arith, ledger.in_hand a h);
    once = ledger.once;
    kept = λ q below bare. let (j, held) = ledger.kept q below bare in (j, ground arith);
  }

  pub quiet-Inv :
      (i : ℕ) (c : Consumer A)
      → holds (consumers i) ≡ none
      → holds c ≡ none
      → ConsumerFresh k m log c
      → Inv k m p (update consumers i c) log handed
  quiet-Inv i c before after fresh = record {
    slots = slots;
    ledger = same-Ledger i c (after ∙ sym before);
    tail_at = tail_at;
    producer_fresh = producer_fresh;
    consumers_fresh = λ j. elim (Bool-cases (i == j)) [
      | inl same ↦ rw same fresh
      | inr other ↦ rw other (consumers_fresh j)
    ];
  }

  -- What a consumer learns of position `h` from the sequence in its slot.
  pub seen-fresh : (h : ℕ) → h ≤ m.head → ConsumerFresh k m log (Consumer.seen h (seq_at k m h))
  seen-fresh h le =
      (le, slots.bounded h, λ e. ground (arith, slots.order, slots.window h, one-le-pow k 2))

module _ {A : Type 0} (k : ℕ) (m m' : Queue A) (log log' : List A) where
  -- What a consumer knows stays true while the slot that it holds is left alone.
  pub ConsumerFresh-transfer :
      (c : Consumer A)
      → m.head ≤ m'.head
      → length log ≤ length log'
      → ((h : ℕ)
          → holds c ≡ some h
          → h < m.head
          → seq_at k m h ≡ h + 1
          → (seq_at k m' h ≡ seq_at k m h)
            × (object_at k m' h ≡ object_at k m h)
            × (get_elem? log' h ≡ get_elem? log h))
      → ConsumerFresh k m log c
      → ConsumerFresh k m' log' c
  ConsumerFresh-transfer Consumer.idle up more same fresh = tt
  ConsumerFresh-transfer (Consumer.at h) up more same fresh = omega arith
  ConsumerFresh-transfer (Consumer.seen h seq) up more same fresh =
      (omega arith, omega arith, λ e. omega (arith, fresh.2 e))
  ConsumerFresh-transfer (Consumer.claimed h) up more same fresh =
      ground (arith, same h refl fresh.0 fresh.1)
  ConsumerFresh-transfer (Consumer.moved h a) up more same fresh =
      ground (arith, same h refl fresh.0 fresh.1)

  -- What the producer knows stays true while the slot of the next position is left alone.
  pub ProducerFresh-transfer :
      (p : Producer A)
      → length log ≡ length log'
      → ((t : ℕ)
          → t ≡ length log
          → seq_at k m t ≡ t
          → (seq_at k m' t ≡ seq_at k m t) × (object_at k m' t ≡ object_at k m t))
      → ProducerFresh k m log p
      → ProducerFresh k m' log' p
  ProducerFresh-transfer Producer.idle e same fresh = tt
  ProducerFresh-transfer (Producer.loaded_tail t a) e same fresh = omega arith
  ProducerFresh-transfer (Producer.loaded_seq t seq a) e same fresh =
      (omega arith, λ f. omega (arith, fresh.1 f, same t fresh.0 (fresh.1 f)))
  ProducerFresh-transfer (Producer.constructed t a) e same fresh =
      ground (arith, same t fresh.0 fresh.1)
  ProducerFresh-transfer (Producer.published t) e same fresh = omega arith

module _ {A : Type 0} {k : ℕ} {m : Queue A} {p : Producer A} {consumers : ℕ → Consumer A}
    {log : List A} {handed : ℕ → List A} (inv : Inv k m p consumers log handed) where
  open inv use {slots, ledger, tail_at, producer_fresh, consumers_fresh}

  -- The exchange succeeds: position `h` goes from the queue to one consumer.
  module _ (i h : ℕ) (e : m.head ≡ h) (below : h < length log)
      (free_hand : holds (consumers i) ≡ none) where
    abbrev claimed_mem : Queue A
    claimed_mem = record m { head = h + 1 }

    holds-lt : (j q : ℕ) → holds (consumers j) ≡ some q → q < m.head
    holds-lt j q held = holder (consumers j) (consumers_fresh j) held
      where
        holder : (c : Consumer A) → ConsumerFresh k m log c → holds c ≡ some q → q < m.head
        holder (Consumer.claimed h') fresh f = ground arith
        holder (Consumer.moved h' a) fresh f = ground arith
        holder _ fresh f = absurd (cc)

    claim-Ledger : Ledger (h + 1) (update consumers i (Consumer.claimed h)) log handed
    claim-Ledger = record {
      unique = λ a b q x y. ground (arith, ledger.unique a b q, holds-lt a q, holds-lt b q);
      unclaimed = λ q above. ledger.unclaimed q (omega arith);
      in_hand = λ a q x. ground (arith, ledger.in_hand a q, ledger.unclaimed q);
      once = ledger.once;
      kept = λ q under bare. elim (Bool-cases (q == h)) [
        | inl new ↦ (i, ground arith)
        | inr old ↦ let (j, held) = ledger.kept q (ground arith) bare in (j, ground arith)
      ];
    }

    claim-Slots : Slots k claimed_mem (lead p) log
    claim-Slots = record {
      two = slots.two;
      capacity = slots.capacity;
      mask = slots.mask;
      order = omega arith;
      bounded = slots.bounded;
      window = slots.window;
      available = λ q from to. slots.available q (omega arith) to;
      live = λ q from to. slots.live q (omega arith) to;
      vacant = slots.vacant;
    }

    pub claim-Inv : Inv k claimed_mem p (update consumers i (Consumer.claimed h)) log handed
    claim-Inv = record {
      slots = claim-Slots;
      ledger = claim-Ledger;
      tail_at = tail_at;
      producer_fresh = producer_fresh;
      consumers_fresh = λ j. elim (Bool-cases (i == j)) [
        | inl same ↦
            rw same
              (omega arith, slots.available h (omega arith) below, slots.live h (omega arith) below)
        | inr other ↦ rw other (
            ConsumerFresh-transfer k m claimed_mem log log (consumers j) (omega arith) (omega arith)
              (λ q held lt s. (refl, refl, refl)) (consumers_fresh j))
      ];
    }
