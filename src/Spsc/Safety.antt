-- ===== src/Spsc/Safety.antt =====
-- What holds of `SPSCQueue` in every state that its two threads can reach.
use native.Mathlib.Nat.{one-le-pow, mod-lt, mod-eq_of_lt}
use cpp_concurrency_toolbox.Base.{
  ℕ, suc, ◌+◌, ◌-◌, ◌%◌, ◌^◌, ◌≤◌, ◌<◌, ◌≡◌, ◌≢◌, refl, [], length, take, arith, sym, ◌∙◌,
  mod_injective, subst, ok,
}
use cpp_concurrency_toolbox.Spsc.{Queue, next_index, new}
use cpp_concurrency_toolbox.Spsc.Sequential.{empty, new-empty}
use cpp_concurrency_toolbox.Spsc.Steps.{
  Producer, Consumer, System, Step, by_producer, by_consumer, Reach, begun, then_step,
}
use cpp_concurrency_toolbox.Spsc.Facts.{ProducerFresh, ConsumerFresh, Inv}
use cpp_concurrency_toolbox.Spsc.ByProducer.{Produce-Inv}
use cpp_concurrency_toolbox.Spsc.ByConsumer.{Consume-Inv}

empty-Inv :
    {A : Type 0} (default : A) (k : ℕ)
    → k ≤ 63
    → Inv k (empty default k) Producer.idle Consumer.idle [] []
empty-Inv default k small = record {
  shared = record {
    small = small;
    mask = refl;
    head_at = sym (mod-eq_of_lt (one-le-pow k 2 (omega arith)));
    tail_at = sym (mod-eq_of_lt (one-le-pow k 2 (omega arith)));
    order = omega arith;
    room = omega (arith, one-le-pow k 2);
    in_order = refl;
    cells = λ i a from at. absurd (cc);
  };
  producer_fresh = tt;
  consumer_fresh = tt;
}

module _ {A : Type 0} {moved : A → A} {k : ℕ} where
  Step-Inv :
      {s t : System A}
      → Step moved s t
      → Inv k s.mem s.producer s.consumer s.log s.got
      → Inv k t.mem t.producer t.consumer t.log t.got
  Step-Inv (by_producer st) inv = Produce-Inv st inv
  Step-Inv (by_consumer st) inv = Consume-Inv st inv

  Reach-Inv :
      {m : Queue A} {s : System A}
      → Inv k m Producer.idle Consumer.idle [] []
      → Reach moved m s
      → Inv k s.mem s.producer s.consumer s.log s.got
  Reach-Inv first begun = first
  Reach-Inv first (then_step r st) = Step-Inv st (Reach-Inv first r)

  new-Inv :
      (default : A) {m : Queue A} {s : System A}
      → k ≤ 63
      → new default (2 ^ k) ≡ ok m
      → Reach moved m s
      → Inv k s.mem s.producer s.consumer s.log s.got
  new-Inv default {m} small made r = Reach-Inv first r
    where
      same : empty default k ≡ m
      same = cc (new-empty default k small)

      first : Inv k m Producer.idle Consumer.idle [] []
      first =
          subst (λ q. Inv k q Producer.idle Consumer.idle [] []) same (empty-Inv default k small)

  -- In every interleaving of the producer and the consumer of a queue with `2 ^ k` cells, k at most
  -- 63, the elements that the consumer has been given are the first ones that the producer
  -- published, in order: none is lost, repeated or changed. At most `2 ^ k - 1` are still to come.
  pub received-IsPrefix :
      (default : A) {m : Queue A} {s : System A}
      → k ≤ 63
      → new default (2 ^ k) ≡ ok m
      → Reach moved m s
      → (s.got ≡ take (length s.got) s.log)
        × (length s.got ≤ length s.log)
        × (length s.log ≤ length s.got + (2 ^ k - 1))
  received-IsPrefix default {s = s} small made r =
      (in_order, omega (arith, order), omega (arith, room))
    where
      open (new-Inv default small made r).shared use {in_order, order, room}

  -- No data race, and no access outside the array: while the producer is about to write cell `t` and
  -- the consumer about to move out of cell `h`, in a queue with `2 ^ k` cells, the two cells differ
  -- and both are cells of the array.
  pub no_data_race :
      (default : A) {m : Queue A} {s : System A}
      → k ≤ 63
      → new default (2 ^ k) ≡ ok m
      → Reach moved m s
      → (t seen_h h seen_t : ℕ) (a : A) → s.producer ≡ Producer.loaded_head t seen_h a
      → next_index s.mem.capacity_mask t ≢ seen_h
      → s.consumer ≡ Consumer.loaded_tail h seen_t
      → h ≢ seen_t
      → (t ≢ h) × (t < 2 ^ k) × (h < 2 ^ k)
  no_data_race default {s = s} small made r t seen_h h seen_t a at_write free at_take more = (
    λ e. absurd (omega (arith, ahead e, takes.1)),
    in_array (length s.log) writes.0,
    in_array (length s.got) takes.0,
  )
    where
      inv : Inv k s.mem s.producer s.consumer s.log s.got
      inv = new-Inv default small made r

      open inv.shared use {head_at, tail_at, room}

      writes : (t ≡ length s.log % 2 ^ k) × (suc (length s.log) < length s.got + 2 ^ k)
      writes =
          let (e, test) = subst (ProducerFresh k s.mem s.log s.got) at_write inv.producer_fresh in
          (e ∙ tail_at, test free)

      takes : (h ≡ length s.got % 2 ^ k) × (length s.got < length s.log)
      takes =
          let (e, test) = subst (ConsumerFresh k s.mem s.log s.got) at_take inv.consumer_fresh in
          (e ∙ head_at, test more)

      ahead : t ≡ h → length s.got ≡ length s.log
      ahead e =
          mod_injective (2 ^ k) (length s.got) (length s.log) (omega (arith, takes.1))
            (omega (arith, writes.1)) (sym takes.0 ∙ sym e ∙ writes.0)

      in_array : (n : ℕ) {i : ℕ} → i ≡ n % 2 ^ k → i < 2 ^ k
      in_array n e = rw e (mod-lt n (one-le-pow k 2 (omega arith)))
