-- ===== src/Broadcast/ByProducer.antt =====
-- A step of the producer of `SPMCBroadcastQueue` keeps the invariant.
use cpp_concurrency_toolbox.Base.{
  ℕ, suc, ◌+◌, ◌-◌, ◌%◌, ◌^◌, ◌≤◌, ◌<◌, ◌≡◌, inl, inr, refl, false, some, List, [], ◌∷◌, ◌++◌,
  length, get_elem?, arith, update, ◌==◌, Bool-cases, wrap, ap, sym, ◌∙◌, length-snoc,
  get_elem?-append, get_elem?-snoc, take-append, bit_and, bit_and-mask, mod_injective,
}
use cpp_concurrency_toolbox.Broadcast.{Queue, lesser, slot_of, looks_full}
use cpp_concurrency_toolbox.Broadcast.Steps.{
  Producer, Consumer, Publish, load_tail, find_room, scan_first, scan_next, refuse, find_space,
  write, throw, store_tail,
}
use cpp_concurrency_toolbox.Broadcast.Facts.{lead, shown, ProducerFresh, ConsumerFresh, Inv}

pub slot_of-mod :
    {A : Type 0} (m : Queue A) (k : ℕ)
    → m.mask ≡ 2 ^ k - 1
    → (pos : ℕ) → slot_of m pos ≡ pos % 2 ^ k
slot_of-mod m k e pos = ap (λ t. bit_and pos t) e ∙ bit_and-mask k pos

module _ {A : Type 0} {n k : ℕ} {m : Queue A} {consumers : ℕ → Consumer A} {log : List A}
    {got : ℕ → List A} where
  module _ {p : Producer A} (inv : Inv n k m p consumers log got) where
    -- The producer writes its own fields only.
    local-Inv :
        (p' : Producer A) (slowest : ℕ)
        → lead p ≡ lead p'
        → ProducerFresh n m log p'
        → ((i : ℕ) → i < n → slowest ≤ m.cursors i)
        → Inv n k (record m { cached_min = slowest }) p' consumers log got
    local-Inv p' slowest same fresh cached = record {
      some_consumer = inv.some_consumer;
      capacity = inv.capacity;
      mask = inv.mask;
      tail_at = inv.tail_at;
      behind = inv.behind;
      room = inv.room;
      cached = cached;
      live = λ q below above. inv.live q below (omega arith);
      producer_fresh = moved p' fresh;
      consumers_fresh = λ i below. kept i (consumers i) (inv.consumers_fresh i below);
      prefix = inv.prefix;
    }
      where
        moved :
            (r : Producer A)
            → ProducerFresh n m log r
            → ProducerFresh n (record m { cached_min = slowest }) log r
        moved Producer.idle f = tt
        moved (Producer.loaded t a) f = f
        moved (Producer.scanning t a next least) f = f
        moved (Producer.cleared t a) f = f
        moved (Producer.written t a) f = f

        kept :
            (i : ℕ) (c : Consumer A)
            → ConsumerFresh n m log i c
            → ConsumerFresh n (record m { cached_min = slowest }) log i c
        kept i Consumer.ready f = tt
        kept i (Consumer.at pos) f = f
        kept i (Consumer.reading pos looks) f = f
        kept i (Consumer.called pos looks) f = f

    -- A position that is not a whole lap behind the slowest known one has room.
    has_room :
        (least : ℕ)
        → length log < 2 ^ 63
        → ((j : ℕ) → j < n → least ≤ m.cursors j)
        → looks_full m (length log) least ≡ false
        → (j : ℕ) → j < n
        → length log < m.cursors j + m.capacity
    has_room least small lower free j below =
        ground (arith, lower j below, lower 0 inv.some_consumer, inv.behind 0 inv.some_consumer)

  write-Inv :
      {t : ℕ} {a : A}
      → Inv n k m (Producer.cleared t a) consumers log got
      → Inv n k
          (record m { slots = update m.slots (slot_of m t) a })
          (Producer.written t a)
          consumers
          log
          got
  write-Inv {t} {a} inv = record {
    some_consumer = inv.some_consumer;
    capacity = inv.capacity;
    mask = inv.mask;
    tail_at = inv.tail_at;
    behind = inv.behind;
    room = inv.room;
    cached = inv.cached;
    live = λ q below above. elim (Bool-cases (slot_of m t == slot_of m q)) [
      | inl same ↦ absurd (omega (arith, apart q below above (ground arith)))
      | inr other ↦ rw other (inv.live q below (omega arith))
    ];
    producer_fresh = (inv.producer_fresh.0, inv.producer_fresh.1, ground arith);
    consumers_fresh = λ i below. kept i (consumers i) (inv.consumers_fresh i below);
    prefix = inv.prefix;
  }
    where
      -- Two positions of one lap have two slots.
      apart :
          (q : ℕ)
          → q < length log
          → length log + 1 ≤ q + m.capacity
          → slot_of m t ≡ slot_of m q
          → q ≡ length log
      apart q below above same =
          mod_injective (2 ^ k) q (length log) (omega arith) (omega (arith, inv.capacity)) (
            sym (slot_of-mod m k inv.mask q)
            ∙ sym same
            ∙ ap (slot_of m) inv.producer_fresh.0
            ∙ slot_of-mod m k inv.mask (length log))

      kept :
          (i : ℕ) (c : Consumer A)
          → ConsumerFresh n m log i c
          → ConsumerFresh n (record m { slots = update m.slots (slot_of m t) a }) log i c
      kept i Consumer.ready f = tt
      kept i (Consumer.at pos) f = f
      kept i (Consumer.reading pos looks) f = f
      kept i (Consumer.called pos looks) f = f

  -- A consumer has been shown no more than what is published.
  pub shown-le :
      {p : Producer A}
      → Inv n k m p consumers log got
      → (i : ℕ) → i < n
      → m.cursors i + shown (consumers i) ≤ length log
  shown-le inv i below = of (consumers i) (inv.consumers_fresh i below)
    where
      of : (c : Consumer A) → ConsumerFresh n m log i c → m.cursors i + shown c ≤ length log
      of Consumer.ready f = omega (arith, inv.behind i below)
      of (Consumer.at pos) f = omega (arith, inv.behind i below)
      of (Consumer.reading pos looks) f = omega (arith, inv.behind i below)
      of (Consumer.called pos looks) f = omega arith

  store_tail-Inv :
      {t : ℕ} {a : A}
      → length log + 1 < 2 ^ 63
      → Inv n k m (Producer.written t a) consumers log got
      → Inv n k (record m { tail = wrap (t + 1) }) Producer.idle consumers (log ++ (a ∷ [])) got
  store_tail-Inv {t} {a} few inv = record {
    some_consumer = inv.some_consumer;
    capacity = inv.capacity;
    mask = inv.mask;
    tail_at = omega (arith, inv.producer_fresh.0, longer);
    behind = λ i below. omega (arith, inv.behind i below, longer);
    room = λ i below. omega (arith, inv.producer_fresh.1 i below, longer);
    cached = inv.cached;
    live = λ q below above. elim (Bool-cases (q == length log)) [
      | inl new ↦ newest q (ground arith)
      | inr old ↦
          get_elem?-append log (a ∷ []) q (ground (arith, longer))
          ∙ inv.live q (ground (arith, longer)) (omega (arith, longer))
    ];
    producer_fresh = tt;
    consumers_fresh = λ i below. kept i (consumers i) (inv.consumers_fresh i below);
    prefix =
        λ i below. inv.prefix i below ∙ sym (take-append _ log (a ∷ []) (shown-le inv i below));
  }
    where
      longer : length (log ++ (a ∷ [])) ≡ suc (length log)
      longer = length-snoc log a

      newest :
          (q : ℕ) → q ≡ length log → get_elem? (log ++ (a ∷ [])) q ≡ some (m.slots (slot_of m q))
      newest q e =
          ap (get_elem? (log ++ (a ∷ []))) e
          ∙ get_elem?-snoc log a
          ∙ ap some (
              sym inv.producer_fresh.2
              ∙ ap (λ j. m.slots (slot_of m j)) (inv.producer_fresh.0 ∙ sym e))

      still :
          (pos : ℕ) (b : A)
          → pos < length log
          → get_elem? log pos ≡ some b
          → get_elem? (log ++ (a ∷ [])) pos ≡ some b
      still pos b there e = get_elem?-append log (a ∷ []) pos there ∙ e

      kept :
          (i : ℕ) (c : Consumer A)
          → ConsumerFresh n m log i c
          → ConsumerFresh n (record m { tail = wrap (t + 1) }) (log ++ (a ∷ [])) i c
      kept i Consumer.ready f = tt
      kept i (Consumer.at pos) f = f
      kept i (Consumer.reading pos looks) f =
          (f.0, omega (arith, f.1, longer), λ j b e. still pos b f.1 (f.2 j b e))
      kept i (Consumer.called pos looks) f =
          (f.0, omega (arith, f.1, longer), λ j b e. still pos b f.1 (f.2 j b e))

  pub Publish-Inv :
      {m' : Queue A} {log' : List A} {p p' : Producer A}
      → length log + 1 < 2 ^ 63
      → Publish n m log p m' log' p'
      → Inv n k m p consumers log got
      → Inv n k m' p' consumers log' got
  Publish-Inv few (load_tail a) inv =
      local-Inv inv (Producer.loaded m.tail a) m.cached_min refl inv.tail_at inv.cached
  Publish-Inv few (find_room {t} {a} free) inv =
      local-Inv inv (Producer.cleared t a) m.cached_min refl
        (
          inv.producer_fresh,
          has_room inv m.cached_min (omega arith) inv.cached
              (ap (λ j. looks_full m j m.cached_min) (sym inv.producer_fresh) ∙ free),
        )
        inv.cached
  Publish-Inv few (scan_first {t} {a} full) inv =
      local-Inv inv (Producer.scanning t a 1 (m.cursors 0)) m.cached_min refl
        (inv.producer_fresh, λ j below. omega (arith, ap m.cursors (first j below))) inv.cached
    where
      first : (j : ℕ) → j < 1 → j ≡ 0
      first j below = omega arith
  Publish-Inv few (scan_next {t} {next} {least} {a} more) inv =
      local-Inv inv (Producer.scanning t a (suc next) (lesser least (m.cursors next))) m.cached_min
        refl
        (
          inv.producer_fresh.0,
          λ j below. elim (Bool-cases (j == next)) [
            | inl same ↦ ground arith
            | inr other ↦ ground (arith, inv.producer_fresh.1 j)
          ],
        )
        inv.cached
  Publish-Inv few (refuse {t} {least} {a} full) inv =
      local-Inv inv Producer.idle least refl tt inv.producer_fresh.1
  Publish-Inv few (find_space {t} {least} {a} free) inv =
      local-Inv inv (Producer.cleared t a) least refl
        (
          inv.producer_fresh.0,
          has_room inv least (omega arith) inv.producer_fresh.1
              (ap (λ j. looks_full m j least) (sym inv.producer_fresh.0) ∙ free),
        )
        inv.producer_fresh.1
  Publish-Inv few write inv = write-Inv inv
  Publish-Inv few throw inv = local-Inv inv Producer.idle m.cached_min refl tt inv.cached
  Publish-Inv few store_tail inv = store_tail-Inv few inv
