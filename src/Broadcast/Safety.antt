-- ===== src/Broadcast/Safety.antt =====
-- What holds of `SPMCBroadcastQueue` in every state that its producer and its consumers can reach,
-- while fewer than 2 ^ 63 - 1 items are published.
use cpp_concurrency_toolbox.Base.{
  ℕ, ◌+◌, ◌-◌, ◌^◌, ◌≤◌, ◌<◌, ◌≡◌, ◌≢◌, ◌⊎◌, inl, inr, refl, some, List, [], ◌∷◌, length, take,
  get_elem?, arith, Result, ok, err, ◌>>=◌, length-append, subst, sym,
}
use cpp_concurrency_toolbox.Capacity.{check_and_round_broadcast}
use cpp_concurrency_toolbox.Capacity.Round.{Verdict, capacity_checks}
use cpp_concurrency_toolbox.Broadcast.{Queue, slot_of, new}
use cpp_concurrency_toolbox.Broadcast.Steps.{
  Producer, Consumer, Publish, load_tail, find_room, scan_first, scan_next, refuse, find_space,
  write, throw, store_tail, System, by_producer, by_consumer, start, Reach, begun, then_step,
}
use cpp_concurrency_toolbox.Broadcast.Facts.{shown, ProducerFresh, FoundItem, ConsumerFresh, Inv}
use cpp_concurrency_toolbox.Broadcast.ByProducer.{Publish-Inv, shown-le}
use cpp_concurrency_toolbox.Broadcast.ByConsumer.{Consume-Inv, reading-slot, cleared-apart}

module _ {A : Type 0} where
  abbrev InvOf : ℕ → ℕ → System A → Type 0
  InvOf n k s = Inv n k s.mem s.producer s.consumers s.log s.got

  -- The history only grows.
  Publish-log :
      {n : ℕ} {m m' : Queue A} {log log' : List A} {p p' : Producer A}
      → Publish n m log p m' log' p'
      → length log ≤ length log'
  Publish-log {log} (store_tail {a = a}) = omega (arith, length-append log (a ∷ []))
  Publish-log (load_tail a) = omega arith
  Publish-log (find_room e) = omega arith
  Publish-log (scan_first e) = omega arith
  Publish-log (scan_next lt) = omega arith
  Publish-log (refuse e) = omega arith
  Publish-log (find_space e) = omega arith
  Publish-log write = omega arith
  Publish-log throw = omega arith

  less :
      {n : ℕ} {m m' : Queue A} {log log' : List A} {p p' : Producer A}
      → Publish n m log p m' log' p'
      → length log' + 1 < 2 ^ 63
      → length log + 1 < 2 ^ 63
  less st h = omega (arith, Publish-log st)

  Reach-Inv :
      {n k : ℕ} {m : Queue A} {s : System A}
      → InvOf n k (start m)
      → length s.log + 1 < 2 ^ 63
      → Reach n m s
      → InvOf n k s
  Reach-Inv first few begun = first
  Reach-Inv first few (then_step r (by_producer st)) =
      Publish-Inv (less st few) st (Reach-Inv first (less st few) r)
  Reach-Inv first few (then_step r (by_consumer i below st)) =
      Consume-Inv few (Reach-Inv first few r) i below refl st

module _ {A : Type 0} (default : A) where
  abbrev pub fresh_queue : ℕ → Queue A
  fresh_queue c = record {
    capacity = c;
    mask = c - 1;
    slots = λ i. default;
    tail = 0;
    cached_min = 0;
    cursors = λ i. 0;
  }

  fresh-Inv :
      (n k : ℕ)
      → 1 ≤ n
      → Inv n k (fresh_queue (2 ^ k)) Producer.idle (λ i. Consumer.ready) [] (λ i. [])
  fresh-Inv n k some_one = record {
    some_consumer = some_one;
    capacity = refl;
    mask = refl;
    tail_at = refl;
    behind = λ i below. omega arith;
    room = λ i below. omega arith;
    cached = λ i below. omega arith;
    live = λ q below above. absurd (omega arith);
    producer_fresh = tt;
    consumers_fresh = λ i below. tt;
    prefix = λ i below. refl;
  }

  new-fresh :
      (requested : ℕ) {m : Queue A}
      → new default requested ≡ ok m
      → (k : ℕ) × (m ≡ fresh_queue (2 ^ k))
  unfolding new
  new-fresh requested {m} made =
      from_check (check_and_round_broadcast requested) (capacity_checks requested).1 made
    where
      from_check :
          (r : Result ℕ)
          → Verdict 63 requested r
          → (r >>= λ c. ok (fresh_queue c)) ≡ ok m
          → (k : ℕ) × (m ≡ fresh_queue (2 ^ k))
      from_check (ok c) verdict e =
          (verdict.2.exponent, subst (λ t. m ≡ fresh_queue t) verdict.2.power (cc))
      from_check (err e') verdict e = absurd (cc)

  new-Inv :
      (n requested : ℕ) {m : Queue A} {s : System A}
      → 1 ≤ n
      → new default requested ≡ ok m
      → length s.log + 1 < 2 ^ 63
      → Reach n m s
      → (k : ℕ) × Inv n k s.mem s.producer s.consumers s.log s.got
  new-Inv n requested some_one made few r =
      let (k, e) = new-fresh requested made in
      (k, Reach-Inv (subst (λ q. InvOf n k (start q)) (sym e) (fresh-Inv n k some_one)) few r)

  -- Every consumer sees everything: in every interleaving of the producer and the `n` consumers of a
  -- queue, n at least 1 and fewer than 2 ^ 63 - 1 items published, what consumer `i` has been shown
  -- in calls of `fn` that returned is the first items that were published, in order, none skipped or
  -- repeated, and the slowest consumer is at most the capacity behind. An item whose call threw does
  -- not count as shown until a later call with it returns.
  pub every_consumer_sees_all :
      (n requested : ℕ) {m : Queue A} {s : System A}
      → 1 ≤ n
      → new default requested ≡ ok m
      → length s.log + 1 < 2 ^ 63
      → Reach n m s
      → (i : ℕ) → i < n
      → (s.got i ≡ take (s.mem.cursors i + shown (s.consumers i)) s.log)
        × (s.mem.cursors i + shown (s.consumers i) ≤ length s.log)
        × (length s.log ≤ s.mem.cursors i + s.mem.capacity)
  every_consumer_sees_all n requested some_one made few r i below =
      let (k, inv) = new-Inv n requested some_one made few r in
      (inv.prefix i below, shown-le inv i below, inv.room i below)

  in_call :
      {n k : ℕ} {s : System A}
      → Inv n k s.mem s.producer s.consumers s.log s.got
      → (i pos : ℕ) (looks : List A) → i < n
      → (s.consumers i ≡ Consumer.reading pos looks) ⊎ (s.consumers i ≡ Consumer.called pos looks)
      → (pos ≡ s.mem.cursors i) × (pos < length s.log) × FoundItem n s.mem s.log pos looks
  in_call {n} {s = s} inv i pos looks below (inl reading) =
      subst (ConsumerFresh n s.mem s.log i) reading (inv.consumers_fresh i below)
  in_call {n} {s = s} inv i pos looks below (inr called) =
      subst (ConsumerFresh n s.mem s.log i) called (inv.consumers_fresh i below)

  -- The reference that `fn` is given stays good for the whole call: in every interleaving of the
  -- producer and the `n` consumers of a queue, n at least 1 and fewer than 2 ^ 63 - 1 items published,
  -- from the moment that consumer `i` enters `fn` until it stores its cursor, whether `fn` is still
  -- running or has returned, every look of `fn` at its reference has found the item published at its
  -- position, the slot still holds that item, and the producer is not about to write that slot.
  pub reference_stays :
      (n requested : ℕ) {m : Queue A} {s : System A}
      → 1 ≤ n
      → new default requested ≡ ok m
      → length s.log + 1 < 2 ^ 63
      → Reach n m s
      → (i pos : ℕ) (looks : List A) → i < n
      → (s.consumers i ≡ Consumer.reading pos looks) ⊎ (s.consumers i ≡ Consumer.called pos looks)
      → ((j : ℕ) (a : A) → get_elem? looks j ≡ some a → get_elem? s.log pos ≡ some a)
        × (get_elem? s.log pos ≡ some (s.mem.slots (slot_of s.mem pos)))
        × ((t : ℕ) (a : A)
            → s.producer ≡ Producer.cleared t a
            → slot_of s.mem t ≢ slot_of s.mem pos)
  reference_stays n requested {s = s} some_one made few r i pos looks below at_i =
      let (k, inv) = new-Inv n requested some_one made few r in
      let (same, there, found) = in_call inv i pos looks below at_i in
      (
        found,
        reading-slot inv i pos below same there,
        λ t a at_write clash.
            cleared-apart inv i pos t a below same there
              (subst (ProducerFresh n s.mem s.log) at_write inv.producer_fresh) clash,
      )
