-- ===== src/Bench.antt =====
-- benchmark/BenchmarkMain.cpp: `run_benchmark`, in which one producer sends `total` items through a
-- queue that competing consumers empty, and each consumer records latencies once the warm-up is
-- over. The queue is what a bounded queue promises; the clock's readings are arguments.
mod Count
mod Conservation
mod Tests
use cpp_concurrency_toolbox.Base.{
  ℕ, suc, ◌+◌, ◌-◌, ◌≤◌, ◌<◌, ◌≡◌, List, [], ◌∷◌, ◌++◌, length, ◌^◌, wrap, sub_size, update,
}

-- Both are signed and have 64 bits: they stand here in two's complement, as numbers below 2 ^ 64.
pub record Item : Type 0 where
  pub enqueue_ns : ℕ
  pub payload : ℕ

pub data Producer : Type 0 where
  next : Producer  -- before an item is made
  offering : Item → Producer  -- in the loop around `try_emplace`

pub data Consumer : Type 0 where
  testing : Consumer  -- before `consumed` is tested
  polling : Consumer
  popped : Item → Consumer  -- before `fetch_add`
  counted : (n : ℕ) → Item → Consumer
  finished : Consumer

-- `sent` is the producer's loop variable; `recs` are the recorders' samples.
pub record Harness : Type 0 where
  pub queue : List Item
  pub sent : ℕ
  pub producer : Producer
  pub consumed : ℕ
  pub consumers : ℕ → Consumer
  pub recs : ℕ → List ℕ

abbrev pub start : Harness
start = record {
  queue = [];
  sent = 0;
  producer = Producer.next;
  consumed = 0;
  consumers = λ i. Consumer.testing;
  recs = λ i. [];
}

-- A step of the producer; `total` is `warmup + measure`.
pub data Produce (capacity total : ℕ) (s : Harness) : Harness → Type 0 where
  make :
      (now : ℕ)
      → s.producer ≡ Producer.next
      → s.sent < total
      → Produce capacity total s (record s {
        producer = Producer.offering (record { enqueue_ns = now; payload = wrap s.sent });
      })
  full :
      (item : Item)
      → s.producer ≡ Producer.offering item
      → length s.queue ≡ capacity
      → Produce capacity total s s
  push :
      (item : Item)
      → s.producer ≡ Producer.offering item
      → length s.queue < capacity
      → Produce capacity total s
          (record s { producer = Producer.next; queue = s.queue ++ (item ∷ []); sent = suc s.sent })

abbrev pub moved : Harness → ℕ → Consumer → Harness
moved s i c = record s { consumers = update s.consumers i c }

-- A step of consumer `i`.
pub data Consume (warmup total : ℕ) (s : Harness) (i : ℕ) : Harness → Type 0 where
  go_on :
      s.consumers i ≡ Consumer.testing
      → s.consumed < total
      → Consume warmup total s i (moved s i Consumer.polling)
  finish :
      s.consumers i ≡ Consumer.testing
      → total ≤ s.consumed
      → Consume warmup total s i (moved s i Consumer.finished)
  poll_nothing :
      s.consumers i ≡ Consumer.polling
      → s.queue ≡ []
      → Consume warmup total s i (moved s i Consumer.testing)
  poll :
      (item : Item) (rest : List Item)
      → s.consumers i ≡ Consumer.polling
      → s.queue ≡ item ∷ rest
      → Consume warmup total s i (record (moved s i (Consumer.popped item)) { queue = rest })
  count_it :
      (item : Item)
      → s.consumers i ≡ Consumer.popped item
      → Consume warmup total s i
          (record (moved s i (Consumer.counted s.consumed item)) { consumed = suc s.consumed })
  warm :
      (n : ℕ) (item : Item)
      → s.consumers i ≡ Consumer.counted n item
      → n < warmup
      → Consume warmup total s i (moved s i Consumer.testing)
  -- The latency is recorded if it is not negative.
  measure :
      (n now : ℕ) (item : Item)
      → s.consumers i ≡ Consumer.counted n item
      → warmup ≤ n
      → sub_size now item.enqueue_ns < 2 ^ 63
      → Consume warmup total s i (record (moved s i Consumer.testing) {
        recs = update s.recs i (s.recs i ++ (sub_size now item.enqueue_ns ∷ []));
      })
  negative :
      (n now : ℕ) (item : Item)
      → s.consumers i ≡ Consumer.counted n item
      → warmup ≤ n
      → 2 ^ 63 ≤ sub_size now item.enqueue_ns
      → Consume warmup total s i (moved s i Consumer.testing)

-- The states that one producer and `n` consumers can reach.
pub data Reach (n capacity warmup total : ℕ) : Harness → Type 0 where
  begun : Reach n capacity warmup total start
  produce :
      {s t : Harness}
      → Reach n capacity warmup total s
      → Produce capacity total s t
      → Reach n capacity warmup total t
  consume :
      {s t : Harness} (i : ℕ)
      → i < n
      → Reach n capacity warmup total s
      → Consume warmup total s i t
      → Reach n capacity warmup total t
