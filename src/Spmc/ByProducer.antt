-- ===== src/Spmc/ByProducer.antt =====
-- A step of the producer keeps the invariant, as long as no position has reached `2 ^ 63`.
use cpp_concurrency_toolbox.Base.{
  ℕ, ◌+◌, ◌^◌, ◌<◌, ◌≡◌, refl, List, length, arith, wrap, sym, subst, length-snoc,
}
use cpp_concurrency_toolbox.Spmc.{Queue, slot_of}
use cpp_concurrency_toolbox.Spmc.Steps.{
  Producer, Consumer, Produce, load_tail, load_seq, refuse, wait, build, throw, store_seq,
  store_tail,
}
use cpp_concurrency_toolbox.Spmc.Facts.{lag, lead, seq_at, ProducerFresh, Slots, Inv}
use cpp_concurrency_toolbox.Spmc.Claim.{slot_of-mod, ConsumerFresh-transfer}
use cpp_concurrency_toolbox.Spmc.Publish.{built-Inv, numbered-Inv}

module _ {A : Type 0} {k : ℕ} {m : Queue A} {consumers : ℕ → Consumer A} {log : List A}
    {handed : ℕ → List A} where
  -- The producer learns something and touches nothing.
  keep-Inv :
      {p : Producer A} (p' : Producer A)
      → Inv k m p consumers log handed
      → lag p' ≡ lag p
      → lead p' ≡ lead p
      → ProducerFresh k m log p'
      → Inv k m p' consumers log handed
  keep-Inv p' inv same_lag same_lead fresh = record {
    slots = subst (λ n. Slots k m n log) (sym same_lead) inv.slots;
    ledger = inv.ledger;
    tail_at = omega (arith, inv.tail_at);
    producer_fresh = fresh;
    consumers_fresh = inv.consumers_fresh;
  }

  tail-Inv :
      (t : ℕ)
      → length log < 2 ^ 63
      → Inv k m (Producer.published t) consumers log handed
      → Inv k (record m { tail = wrap (t + 1) }) Producer.idle consumers log handed
  tail-Inv t few inv = record {
    slots = record {
      two = two;
      capacity = capacity;
      mask = mask;
      order = order;
      bounded = bounded;
      window = window;
      available = available;
      live = live;
      vacant = vacant;
    };
    ledger = inv.ledger;
    tail_at = omega (arith, inv.producer_fresh);
    producer_fresh = tt;
    consumers_fresh = λ i.
        ConsumerFresh-transfer k m (record m { tail = wrap (t + 1) }) log log (consumers i)
          (omega arith) (omega arith) (λ q held lt s. (refl, refl, refl)) (inv.consumers_fresh i);
  }
    where
      open inv.slots use {two, capacity, mask, order, bounded, window, available, live, vacant}

  pub Produce-Inv :
      {p p' : Producer A} {m' : Queue A} {log' : List A}
      → length log' + 2 ^ k < 2 ^ 63
      → Produce m log p m' log' p'
      → Inv k m p consumers log handed
      → Inv k m' p' consumers log' handed
  Produce-Inv few (load_tail a) inv =
      keep-Inv (Producer.loaded_tail m.tail a) inv refl refl (omega (arith, inv.tail_at))
  Produce-Inv few (load_seq {t} {a}) inv =
      rw (slot_of-mod inv t) (
        keep-Inv (Producer.loaded_seq t (seq_at k m t) a) inv refl refl
          (inv.producer_fresh, λ e. e))
  Produce-Inv few (refuse ne) inv = keep-Inv Producer.idle inv refl refl tt
  Produce-Inv few (wait {t} {a = a} ne) inv =
      keep-Inv (Producer.loaded_tail t a) inv refl refl inv.producer_fresh.0
  Produce-Inv few (build {t} {a = a} same) inv =
      built-Inv inv t (slot_of m t) a (slot_of-mod inv t) inv.producer_fresh.0
        (inv.producer_fresh.1 same) refl refl
  Produce-Inv few (throw same) inv = keep-Inv Producer.idle inv refl refl tt
  Produce-Inv few (store_seq {t} {a}) inv =
      let (next, free, object) = inv.producer_fresh in
      rw no_wrap (numbered-Inv inv t (slot_of m t) a (slot_of-mod inv t) next free refl refl object)
    where
      no_wrap : wrap (t + 1) ≡ t + 1
      no_wrap = omega (arith, inv.producer_fresh, length-snoc log a)
  Produce-Inv few (store_tail {t}) inv = tail-Inv t (omega arith) inv
