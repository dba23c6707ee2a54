-- ===== src/Broadcast/ByConsumer.antt =====
-- A step of a consumer of `SPMCBroadcastQueue` keeps the invariant.
use cpp_concurrency_toolbox.Base.{
  ℕ, suc, ◌+◌, ◌^◌, ◌≤◌, ◌<◌, ◌≡◌, ◌≢◌, mod_injective, inl, inr, refl, false, some, List, [], ◌∷◌,
  ◌++◌, length, take, take-suc, get_elem?, snoc-cases, lt_of_get_elem?, arith, update, ◌==◌,
  Bool-cases, wrap, subst, ap, sym, ◌∙◌,
}
use cpp_concurrency_toolbox.Broadcast.{Queue, slot_of}
use cpp_concurrency_toolbox.Broadcast.Steps.{
  Producer, Consumer, Consume, load_pos, find_none, find_some, look, call, throw, store_pos,
}
use cpp_concurrency_toolbox.Broadcast.ByProducer.{slot_of-mod}
use cpp_concurrency_toolbox.Broadcast.Facts.{
  lead, shown, ProducerFresh, FoundItem, ConsumerFresh, Inv,
}

module _ {A : Type 0} {n k : ℕ} {m : Queue A} {p : Producer A} {consumers : ℕ → Consumer A}
    {log : List A} {got : ℕ → List A} (inv : Inv n k m p consumers log got) where
  -- The slot of a consumer's position is not being overwritten.
  lead-room : (i : ℕ) → i < n → length log + lead p ≤ m.cursors i + m.capacity
  lead-room i below = of p inv.producer_fresh
    where
      of :
          (r : Producer A)
          → ProducerFresh n m log r
          → length log + lead r ≤ m.cursors i + m.capacity
      of Producer.idle f = omega (arith, inv.room i below)
      of (Producer.loaded t a) f = omega (arith, inv.room i below)
      of (Producer.scanning t a next least) f = omega (arith, inv.room i below)
      of (Producer.cleared t a) f = omega (arith, inv.room i below)
      of (Producer.written t a) f = omega (arith, f.1 i below)

  -- While a consumer is in the call, its slot holds the item of its position.
  pub reading-slot :
      (i pos : ℕ)
      → i < n
      → pos ≡ m.cursors i
      → pos < length log
      → get_elem? log pos ≡ some (m.slots (slot_of m pos))
  reading-slot i pos below same there = inv.live pos there (omega (arith, lead-room i below))

  -- The slot that the producer is about to write is not a consumer's.
  pub cleared-apart :
      (i pos t : ℕ) (a : A)
      → i < n
      → pos ≡ m.cursors i
      → pos < length log
      → ProducerFresh n m log (Producer.cleared t a)
      → slot_of m t ≢ slot_of m pos
  cleared-apart i pos t a below same there (next, room) clash = absurd (
      omega (
        arith,
        mod_injective (2 ^ k) pos t (omega arith) (omega (arith, inv.capacity, room i below))
            (sym (slot_of-mod m k inv.mask pos) ∙ sym clash ∙ slot_of-mod m k inv.mask t),
      ))

module _ {A : Type 0} {n k : ℕ} {m : Queue A} {p : Producer A} {consumers : ℕ → Consumer A}
    {log : List A} {got : ℕ → List A} (few : length log + 1 < 2 ^ 63)
    (inv : Inv n k m p consumers log got) (i : ℕ) (below : i < n) where
  -- A consumer moves, and its cursor does not.
  look-Inv :
      (c : Consumer A) (seen : List A)
      → ConsumerFresh n m log i c
      → seen ≡ take (m.cursors i + shown c) log
      → Inv n k m p (update consumers i c) log (update got i seen)
  look-Inv c seen fresh prefix = record {
    some_consumer = inv.some_consumer;
    capacity = inv.capacity;
    mask = inv.mask;
    tail_at = inv.tail_at;
    behind = inv.behind;
    room = inv.room;
    cached = inv.cached;
    live = inv.live;
    producer_fresh = inv.producer_fresh;
    consumers_fresh = λ j under. elim (Bool-cases (i == j)) [
      | inl same ↦ rw same (subst (λ l. ConsumerFresh n m log l c) (ground arith) fresh)
      | inr other ↦ rw other (inv.consumers_fresh j under)
    ];
    prefix = λ j under. elim (Bool-cases (i == j)) [
      | inl same ↦
          rw same (subst (λ l. seen ≡ take (m.cursors l + shown c) log) (ground arith) prefix)
      | inr other ↦ rw other (inv.prefix j under)
    ];
  }

  module _ (pos : ℕ) (looks : List A) (at_i : consumers i ≡ Consumer.called pos looks) where
    abbrev passed_mem : Queue A
    passed_mem = record m { cursors = update m.cursors i (wrap (pos + 1)) }

    mine : (pos ≡ m.cursors i) × (pos < length log) × FoundItem n m log pos looks
    mine = subst (ConsumerFresh n m log i) at_i (inv.consumers_fresh i below)

    next : wrap (pos + 1) ≡ pos + 1
    next = omega (arith, mine.1)

    passed_producer : (r : Producer A) → ProducerFresh n m log r → ProducerFresh n passed_mem log r
    passed_producer Producer.idle f = tt
    passed_producer (Producer.loaded t a) f = f
    passed_producer (Producer.scanning t a index least) f =
        (f.0, λ j under. ground (arith, f.1 j, mine, next))
    passed_producer (Producer.cleared t a) f = (f.0, λ j under. ground (arith, f.1 j, mine, next))
    passed_producer (Producer.written t a) f =
        (f.0, λ j under. ground (arith, f.1 j, mine, next), f.2)

    passed_consumer :
        (j : ℕ) (c : Consumer A)
        → (i == j) ≡ false
        → ConsumerFresh n m log j c
        → ConsumerFresh n passed_mem log j c
    passed_consumer j Consumer.ready other f = tt
    passed_consumer j (Consumer.at q) other f = ground arith
    passed_consumer j (Consumer.reading q looks) other f = (ground arith, f.1, f.2)
    passed_consumer j (Consumer.called q looks) other f = (ground arith, f.1, f.2)

    passed-Inv : Inv n k passed_mem p (update consumers i Consumer.ready) log (update got i (got i))
    passed-Inv = record {
      some_consumer = inv.some_consumer;
      capacity = inv.capacity;
      mask = inv.mask;
      tail_at = inv.tail_at;
      behind = λ j under. ground (arith, inv.behind j, mine, next);
      room = λ j under. ground (arith, inv.room j, mine, next);
      cached = λ j under. ground (arith, inv.cached j, mine, next);
      live = inv.live;
      producer_fresh = passed_producer p inv.producer_fresh;
      consumers_fresh = λ j under. elim (Bool-cases (i == j)) [
        | inl same ↦ rw same tt
        | inr other ↦ rw other (passed_consumer j (consumers j) other (inv.consumers_fresh j under))
      ];
      prefix = λ j under. elim (Bool-cases (i == j)) [
        | inl same ↦
            rw same (
              inv.prefix i below
              ∙ ap (λ t. take t log) (omega (arith, ap shown at_i, mine.0, next)))
        | inr other ↦ rw other (inv.prefix j under)
      ];
    }

  -- One more look finds the same item.
  look-FoundItem :
      (pos : ℕ) (looks : List A)
      → pos ≡ m.cursors i
      → pos < length log
      → FoundItem n m log pos looks
      → FoundItem n m log pos (looks ++ (m.slots (slot_of m pos) ∷ []))
  look-FoundItem pos looks same there found j a e =
      elim (snoc-cases looks (m.slots (slot_of m pos)) j e) [
        | inl (earlier, old) ↦ found j a old
        | inr (last, new) ↦ reading-slot inv i pos below same there ∙ ap some new
      ]

  pub Consume-Inv :
      {m' : Queue A} {seen : List A} {c c' : Consumer A}
      → consumers i ≡ c
      → Consume i m (got i) c m' seen c'
      → Inv n k m' p (update consumers i c') log (update got i seen)
  Consume-Inv e load_pos =
      look-Inv (Consumer.at (m.cursors i)) (got i) refl
        (inv.prefix i below ∙ ap (λ c. take (m.cursors i + shown c) log) e)
  Consume-Inv e (find_none {pos} above) =
      look-Inv Consumer.ready (got i) tt
        (inv.prefix i below ∙ ap (λ c. take (m.cursors i + shown c) log) e)
  Consume-Inv e (find_some {pos} there) =
      look-Inv (Consumer.reading pos []) (got i)
        (
          subst (ConsumerFresh n m log i) e (inv.consumers_fresh i below),
          omega (arith, inv.tail_at),
          λ j a found. absurd (omega (arith, lt_of_get_elem? [] j found)),
        )
        (inv.prefix i below ∙ ap (λ c. take (m.cursors i + shown c) log) e)
  Consume-Inv e (look {pos} {looks}) =
      let (same, there, found) = subst (ConsumerFresh n m log i) e (inv.consumers_fresh i below) in
      look-Inv (Consumer.reading pos (looks ++ (m.slots (slot_of m pos) ∷ []))) (got i)
        (same, there, look-FoundItem pos looks same there found)
        (inv.prefix i below ∙ ap (λ c. take (m.cursors i + shown c) log) e)
  Consume-Inv e (call {pos} {looks}) =
      let (same, there, found) = subst (ConsumerFresh n m log i) e (inv.consumers_fresh i below) in
      look-Inv (Consumer.called pos (looks ++ (m.slots (slot_of m pos) ∷ [])))
        (got i ++ (m.slots (slot_of m pos) ∷ []))
        (same, there, look-FoundItem pos looks same there found)
        (ap (λ l. l ++ (m.slots (slot_of m pos) ∷ [])) (inv.prefix i below)
          ∙ ap (λ j. take j log ++ (m.slots (slot_of m pos) ∷ [])) (omega (arith, ap shown e, same))
          ∙ sym (take-suc pos log (reading-slot inv i pos below same there))
          ∙ ap (λ j. take j log) {x = suc pos} (omega (arith, same)))
  Consume-Inv e (throw {pos}) =
      look-Inv Consumer.ready (got i) tt
        (inv.prefix i below ∙ ap (λ c. take (m.cursors i + shown c) log) e)
  Consume-Inv e (store_pos {pos} {looks}) = passed-Inv pos looks e
