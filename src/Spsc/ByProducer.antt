-- ===== src/Spsc/ByProducer.antt =====
-- A step of the producer keeps the invariant.
use cpp_concurrency_toolbox.Base.{
  ℕ, suc, ◌+◌, ◌%◌, ◌^◌, ◌≤◌, ◌≡◌, ◌≢◌, refl, List, [], ◌∷◌, ◌++◌, length, arith, mod_injective,
  mod_lap, mod_next, length-snoc, take-append, lt_of_get_elem?, snoc-cases, sym, ◌∙◌, ap, inl, inr,
  update, get_elem?-append,
}
use cpp_concurrency_toolbox.Spsc.{Queue, next_index}
use cpp_concurrency_toolbox.Spsc.Sequential.{next_index-mod}
use cpp_concurrency_toolbox.Spsc.Steps.{
  Producer, Consumer, Produce, load_tail, load_head, refuse, write, throw, publish,
}
use cpp_concurrency_toolbox.Spsc.Facts.{ConsumerFresh, HasRoom, Shared, Inv}

module _ {A : Type 0} {k : ℕ} {m : Queue A} {hand : ℕ} {log got : List A}
    (held : Shared k m hand log got) where
  open held use {small, mask, head_at, tail_at, order, room, in_order, cells}

  next_tail : next_index m.capacity_mask m.tail ≡ suc (length log) % 2 ^ k
  next_tail =
      rw (mask, next_index-mod k m.tail small, tail_at)
        (mod_next (2 ^ k) (length log) ∙ ap (λ t. t % 2 ^ k) (omega arith))

  -- The test against the head that is read now fails only if there is a free cell.
  room_of_test : (t : ℕ) → t ≡ m.tail → next_index m.capacity_mask t ≢ m.head → HasRoom k m log got
  room_of_test t e ne = ground (arith, next_tail, head_at, mod_lap (2 ^ k) (length got), same)
    where
      same :
          suc (length log) ≡ length got + 2 ^ k
          → suc (length log) % 2 ^ k ≡ (length got + 2 ^ k) % 2 ^ k
      same h = ap (λ t. t % 2 ^ k) h

  -- The free cell that is written holds no element of the queue.
  write-Shared :
      (t : ℕ) (a : A)
      → t ≡ m.tail
      → HasRoom k m log got
      → Shared k (record m { buffer = update m.buffer t a }) hand log got
  write-Shared t a e free = record {
    small = small;
    mask = mask;
    head_at = head_at;
    tail_at = tail_at;
    order = order;
    room = room;
    in_order = in_order;
    cells = λ i b from at. ground (
      arith,
      cells i b from at,
      tail_at,
      lt_of_get_elem? log i at,
      mod_injective (2 ^ k) i (length log),
    );
  }

  publish-Shared :
      (t : ℕ) (a : A)
      → t ≡ m.tail
      → HasRoom k m log got
      → m.buffer t ≡ a
      → Shared k (record m { tail = next_index m.capacity_mask t }) hand (log ++ (a ∷ [])) got
  publish-Shared t a e free there = record {
    small = small;
    mask = mask;
    head_at = head_at;
    tail_at = rw (e, length-snoc log a) next_tail;
    order = omega (arith, length-snoc log a);
    room = omega (arith, length-snoc log a);
    in_order = in_order ∙ sym (take-append (length got) log (a ∷ []) (omega arith));
    cells = λ i b from at. elim (snoc-cases log a i at) [
      | inl (old, f) ↦ cells i b from f
      | inr (new, f) ↦ ground (arith, tail_at, ap (λ t. t % 2 ^ k) new)
    ];
  }

module _ {A : Type 0} (k : ℕ) (log got : List A) where
  -- The consumer's locals stay true when the producer writes or publishes.
  ConsumerFresh-write :
      (m : Queue A) (t : ℕ) (a : A) (c : Consumer A)
      → ConsumerFresh k m log got c
      → ConsumerFresh k (record m { buffer = update m.buffer t a }) log got c
  ConsumerFresh-write m t a Consumer.idle fresh = fresh
  ConsumerFresh-write m t a (Consumer.loaded_head h) fresh = fresh
  ConsumerFresh-write m t a (Consumer.loaded_tail h t') fresh = fresh
  ConsumerFresh-write m t a (Consumer.taken h b) fresh = fresh

  ConsumerFresh-publish :
      (m : Queue A) (t : ℕ) (a : A) (c : Consumer A)
      → length got ≤ length log
      → ConsumerFresh k m log got c
      → ConsumerFresh k (record m { tail = t }) (log ++ (a ∷ [])) got c
  ConsumerFresh-publish m t a Consumer.idle le fresh = fresh
  ConsumerFresh-publish m t a (Consumer.loaded_head h) le fresh = fresh
  ConsumerFresh-publish m t a (Consumer.loaded_tail h t') le fresh =
      (fresh.0, λ ne. omega (arith, length-snoc log a))
  ConsumerFresh-publish m t a (Consumer.taken h b) le fresh = (
    fresh.0,
    get_elem?-append log (a ∷ []) (length got) (lt_of_get_elem? log (length got) fresh.1) ∙ fresh.1,
  )

module _ {A : Type 0} {k : ℕ} {log got : List A} where
  pub Produce-Inv :
      {c : Consumer A} {m : Queue A} {p : Producer A} {m' : Queue A} {log' : List A}
      {p' : Producer A}
      → Produce m log p m' log' p'
      → Inv k m p c log got
      → Inv k m' p' c log' got
  Produce-Inv (load_tail a) inv = record {
    shared = inv.shared;
    producer_fresh = refl;
    consumer_fresh = inv.consumer_fresh;
  }
  Produce-Inv (load_head {t} {a}) inv = record {
    shared = inv.shared;
    producer_fresh = (inv.producer_fresh, λ ne. room_of_test inv.shared t inv.producer_fresh ne);
    consumer_fresh = inv.consumer_fresh;
  }
  Produce-Inv (refuse full) inv = record {
    shared = inv.shared;
    producer_fresh = tt;
    consumer_fresh = inv.consumer_fresh;
  }
  Produce-Inv {c} {m} (write {t} {h} {a} free) inv =
      let (e, test) = inv.producer_fresh in
      record {
        shared = write-Shared inv.shared t a e (test free);
        producer_fresh = (e, test free, ground arith);
        consumer_fresh = ConsumerFresh-write k log got m t a c inv.consumer_fresh;
      }
  Produce-Inv (throw free) inv = record {
    shared = inv.shared;
    producer_fresh = tt;
    consumer_fresh = inv.consumer_fresh;
  }
  Produce-Inv {c} {m} (publish {t} {a}) inv =
      let (e, free, there) = inv.producer_fresh in
      record {
        shared = publish-Shared inv.shared t a e free there;
        producer_fresh = tt;
        consumer_fresh =
            ConsumerFresh-publish k log got m (next_index m.capacity_mask t) a c
              (omega (arith, inv.shared.order)) inv.consumer_fresh;
      }
