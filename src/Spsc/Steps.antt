-- ===== src/Spsc/Steps.antt =====
-- The two threads of `SPSCQueue`, one access to shared memory at a time. The atomics are taken as
-- sequentially consistent: each index has one writer, and its release store is read by an acquire
-- load, so a thread that sees an index sees the cell writes before it.
use cpp_concurrency_toolbox.Base.{ℕ, ◌≡◌, ◌≢◌, List, [], ◌∷◌, ◌++◌, update}
use cpp_concurrency_toolbox.Spsc.{Queue, next_index}

-- Where the producer stands in `try_emplace a`.
pub data Producer (A : Type 0) : Type 0 where
  idle : Producer A
  loaded_tail : (t : ℕ) (a : A) → Producer A
  loaded_head : (t h : ℕ) (a : A) → Producer A
  written : (t : ℕ) (a : A) → Producer A  -- before the store to `tail`

-- Where the consumer stands in `try_pop`.
pub data Consumer (A : Type 0) : Type 0 where
  idle : Consumer A
  loaded_head : (h : ℕ) → Consumer A
  loaded_tail : (h t : ℕ) → Consumer A
  taken : (h : ℕ) (a : A) → Consumer A  -- before the store to `head`

-- `log` is the history of the elements that have been published.
pub data Produce {A : Type 0} (m : Queue A) (log : List A)
    : Producer A → Queue A → List A → Producer A → Type 0 where
  load_tail : (a : A) → Produce m log Producer.idle m log (Producer.loaded_tail m.tail a)
  load_head :
      {t : ℕ} {a : A}
      → Produce m log (Producer.loaded_tail t a) m log (Producer.loaded_head t m.head a)
  refuse :
      {t h : ℕ} {a : A}
      → next_index m.capacity_mask t ≡ h
      → Produce m log (Producer.loaded_head t h a) m log Producer.idle
  write :
      {t h : ℕ} {a : A}
      → next_index m.capacity_mask t ≢ h
      → Produce m log
          (Producer.loaded_head t h a)
          (record m { buffer = update m.buffer t a })
          log
          (Producer.written t a)
  -- The constructor of the element throws, and the exception leaves the call.
  throw :
      {t h : ℕ} {a : A}
      → next_index m.capacity_mask t ≢ h
      → Produce m log (Producer.loaded_head t h a) m log Producer.idle
  publish :
      {t : ℕ} {a : A}
      → Produce m log
          (Producer.written t a)
          (record m { tail = next_index m.capacity_mask t })
          (log ++ (a ∷ []))
          Producer.idle

-- `got` is the history of the elements that the consumer has been given.
pub data Consume {A : Type 0} (moved : A → A) (m : Queue A) (got : List A)
    : Consumer A → Queue A → List A → Consumer A → Type 0 where
  load_head : Consume moved m got Consumer.idle m got (Consumer.loaded_head m.head)
  load_tail :
      {h : ℕ} → Consume moved m got (Consumer.loaded_head h) m got (Consumer.loaded_tail h m.tail)
  find_empty :
      {h t : ℕ} → h ≡ t → Consume moved m got (Consumer.loaded_tail h t) m got Consumer.idle
  take :
      {h t : ℕ}
      → h ≢ t
      → Consume moved m got
          (Consumer.loaded_tail h t)
          (record m { buffer = update m.buffer h (moved (m.buffer h)) })
          got
          (Consumer.taken h (m.buffer h))
  release :
      {h : ℕ} {a : A}
      → Consume moved m got
          (Consumer.taken h a)
          (record m { head = next_index m.capacity_mask h })
          (got ++ (a ∷ []))
          Consumer.idle

pub record System (A : Type 0) : Type 0 where
  pub mem : Queue A
  pub producer : Producer A
  pub consumer : Consumer A
  pub log : List A
  pub got : List A

pub data Step {A : Type 0} (moved : A → A) (s : System A) : System A → Type 0 where
  by_producer :
      {m : Queue A} {log : List A} {p : Producer A}
      → Produce s.mem s.log s.producer m log p
      → Step moved s (record s { mem = m; producer = p; log = log })
  by_consumer :
      {m : Queue A} {got : List A} {c : Consumer A}
      → Consume moved s.mem s.got s.consumer m got c
      → Step moved s (record s { mem = m; consumer = c; got = got })

abbrev pub start : {A : Type 0} → Queue A → System A
start m = record { mem = m; producer = Producer.idle; consumer = Consumer.idle; log = []; got = [] }

-- The systems that the two threads can reach from a constructed queue, in any interleaving.
pub data Reach {A : Type 0} (moved : A → A) (m : Queue A) : System A → Type 0 where
  begun : Reach moved m (start m)
  then_step : {s t : System A} → Reach moved m s → Step moved s t → Reach moved m t
