-- ===== src/Spsc/ByConsumer.antt =====
-- A step of the consumer keeps the invariant.
use cpp_concurrency_toolbox.Base.{
  ℕ, ◌%◌, ◌^◌, ◌<◌, ◌≡◌, ◌≢◌, refl, List, [], ◌∷◌, ◌++◌, some, length, get_elem?, take, arith,
  mod_injective, mod_next, length-snoc, take-suc, get_elem?-some, lt_of_get_elem?, sym, ◌∙◌, ap,
  update,
}
use cpp_concurrency_toolbox.Spsc.{Queue, next_index}
use cpp_concurrency_toolbox.Spsc.Sequential.{next_index-mod}
use cpp_concurrency_toolbox.Spsc.Steps.{
  Producer, Consumer, Consume, load_head, load_tail, find_empty, release,
}
use cpp_concurrency_toolbox.Spsc.Steps
use cpp_concurrency_toolbox.Spsc.Facts.{ProducerFresh, Shared, Inv}

module _ {A : Type 0} {k : ℕ} {m : Queue A} {hand : ℕ} {log got : List A}
    (held : Shared k m hand log got) where
  open held use {small, mask, head_at, tail_at, order, room, in_order, cells}

  more_of_test : (h t : ℕ) → h ≡ m.head → h ≢ m.tail → length got < length log
  more_of_test h t e ne = ground (arith, head_at, tail_at, order, same)
    where
      same : length got ≡ length log → length got % 2 ^ k ≡ length log % 2 ^ k
      same f = ap (λ i. i % 2 ^ k) f

module _ {A : Type 0} {k : ℕ} {m : Queue A} {log got : List A} where
  -- The cell that is taken is the one of the oldest element.
  take-Shared :
      (h : ℕ) (b : A)
      → h ≡ m.head
      → length got < length log
      → Shared k m 0 log got
      → Shared k (record m { buffer = update m.buffer h b }) 1 log got
  take-Shared h b e more held = record {
    small = small;
    mask = mask;
    head_at = head_at;
    tail_at = tail_at;
    order = omega arith;
    room = room;
    in_order = in_order;
    cells = λ i a from at. ground (
      arith,
      cells i a (omega arith) at,
      head_at,
      lt_of_get_elem? log i at,
      mod_injective (2 ^ k) (length got) i,
    );
  }
    where
      open held use {small, mask, head_at, tail_at, order, room, in_order, cells}

  -- The cell at the head holds the oldest element.
  oldest :
      (h : ℕ)
      → h ≡ m.head
      → length got < length log
      → Shared k m 0 log got
      → get_elem? log (length got) ≡ some (m.buffer h)
  oldest h e more held =
      let (a, there) = get_elem?-some log (length got) more in
      ground (arith, there, held.head_at, held.cells (length got) a (omega arith) there)

  release-Shared :
      (h : ℕ) (a : A)
      → h ≡ m.head
      → get_elem? log (length got) ≡ some a
      → Shared k m 1 log got
      → Shared k (record m { head = next_index m.capacity_mask h }) 0 log (got ++ (a ∷ []))
  release-Shared h a e oldest held = record {
    small = small;
    mask = mask;
    head_at =
        rw (length-snoc got a, mask, e, next_index-mod k m.head small, head_at)
          (mod_next (2 ^ k) (length got) ∙ ap (λ t. t % 2 ^ k) (omega arith));
    tail_at = tail_at;
    order = omega (arith, length-snoc got a);
    room = omega (arith, length-snoc got a);
    in_order =
        ap (λ t. t ++ (a ∷ [])) in_order
        ∙ sym (take-suc (length got) log oldest)
        ∙ ap (λ n. take n log) (sym (length-snoc got a));
    cells = λ i b from at. cells i b (omega (arith, length-snoc got a)) at;
  }
    where
      open held use {small, mask, head_at, tail_at, order, room, in_order, cells}

module _ {A : Type 0} (k : ℕ) (log got : List A) where
  -- The cell that the producer has filled is not the one that the consumer takes.
  ProducerFresh-take :
      (m : Queue A) (h : ℕ) (b : A) (p : Producer A)
      → h ≡ m.head
      → length got < length log
      → Shared k m 0 log got
      → ProducerFresh k m log got p
      → ProducerFresh k (record m { buffer = update m.buffer h b }) log got p
  ProducerFresh-take m h b Producer.idle e more held fresh = fresh
  ProducerFresh-take m h b (Producer.loaded_tail t a) e more held fresh = fresh
  ProducerFresh-take m h b (Producer.loaded_head t h' a) e more held fresh = fresh
  ProducerFresh-take m h b (Producer.written t a) e more held fresh =
      let (at_tail, free, there) = fresh in
      (
        at_tail,
        free,
        ground (arith, held.head_at, held.tail_at, mod_injective (2 ^ k) (length got) (length log)),
      )

  ProducerFresh-release :
      (m : Queue A) (h : ℕ) (b : A) (p : Producer A)
      → ProducerFresh k m log got p
      → ProducerFresh k (record m { head = h }) log (got ++ (b ∷ [])) p
  ProducerFresh-release m h b Producer.idle fresh = fresh
  ProducerFresh-release m h b (Producer.loaded_tail t a) fresh = fresh
  ProducerFresh-release m h b (Producer.loaded_head t h' a) fresh =
      (fresh.0, λ ne. omega (arith, length-snoc got b, fresh.1 ne))
  ProducerFresh-release m h b (Producer.written t a) fresh =
      (fresh.0, omega (arith, length-snoc got b), fresh.2)

module _ {A : Type 0} {moved : A → A} {k : ℕ} {log got : List A} where
  pub Consume-Inv :
      {p : Producer A} {m : Queue A} {c : Consumer A} {m' : Queue A} {got' : List A}
      {c' : Consumer A}
      → Consume moved m got c m' got' c'
      → Inv k m p c log got
      → Inv k m' p c' log got'
  Consume-Inv load_head inv = record {
    shared = inv.shared;
    producer_fresh = inv.producer_fresh;
    consumer_fresh = refl;
  }
  Consume-Inv {m} (load_tail {h}) inv = record {
    shared = inv.shared;
    producer_fresh = inv.producer_fresh;
    consumer_fresh =
        (inv.consumer_fresh, λ ne. more_of_test inv.shared h m.tail inv.consumer_fresh ne);
  }
  Consume-Inv (find_empty same) inv = record {
    shared = inv.shared;
    producer_fresh = inv.producer_fresh;
    consumer_fresh = tt;
  }
  Consume-Inv {p} {m} (Steps.take {h} {t} ne) inv =
      let (e, test) = inv.consumer_fresh in
      record {
        shared = take-Shared h (moved (m.buffer h)) e (test ne) inv.shared;
        producer_fresh =
            ProducerFresh-take k log got m h (moved (m.buffer h)) p e (test ne) inv.shared
              inv.producer_fresh;
        consumer_fresh = (e, oldest h e (test ne) inv.shared);
      }
  Consume-Inv {p} {m} (release {h} {a}) inv =
      let (e, oldest) = inv.consumer_fresh in
      record {
        shared = release-Shared h a e oldest inv.shared;
        producer_fresh =
            ProducerFresh-release k log got m (next_index m.capacity_mask h) a p inv.producer_fresh;
        consumer_fresh = tt;
      }
