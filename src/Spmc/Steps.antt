-- ===== src/Spmc/Steps.antt =====
-- The threads of `SPMCQueue`, one access to shared memory at a time: a producer in `try_emplace` or
-- `emplace_wait`, and consumers in `try_pop`, `try_pop_expected` or `pop_wait`. The atomics are taken
-- as sequentially consistent. `std::atomic::wait` may return at any time: the loops around it load
-- the sequence again and test it.
use cpp_concurrency_toolbox.Base.{
  ℕ, ◌+◌, ◌≤◌, ◌<◌, ◌≡◌, ◌≢◌, some, List, [], ◌∷◌, ◌++◌, wrap, sub_size, update,
}
use cpp_concurrency_toolbox.Spmc.{
  Slot, Queue, slot_of, half_range, construct, destroy, set_sequence,
}

-- Where the producer stands, with its locals.
pub data Producer (A : Type 0) : Type 0 where
  idle : Producer A
  loaded_tail : (t : ℕ) (a : A) → Producer A
  loaded_seq : (t seq : ℕ) (a : A) → Producer A
  constructed : (t : ℕ) (a : A) → Producer A  -- before the store to the sequence
  published : (t : ℕ) → Producer A  -- before the store to `tail_`

-- Where a consumer stands, with its locals.
pub data Consumer (A : Type 0) : Type 0 where
  idle : Consumer A
  at : (h : ℕ) → Consumer A  -- before the load of the sequence
  seen : (h seq : ℕ) → Consumer A
  claimed : (h : ℕ) → Consumer A  -- the exchange has succeeded
  moved : (h : ℕ) (a : A) → Consumer A  -- before the store to the sequence

module _ {A : Type 0} where
  abbrev pub with_slot : Queue A → ℕ → Slot A → Queue A
  with_slot m i s = record m { slots = update m.slots i s }

-- `log` is the history of the elements that have been published.
pub data Produce {A : Type 0} (m : Queue A) (log : List A)
    : Producer A → Queue A → List A → Producer A → Type 0 where
  load_tail : (a : A) → Produce m log Producer.idle m log (Producer.loaded_tail m.tail a)
  load_seq :
      {t : ℕ} {a : A}
      → Produce m log
          (Producer.loaded_tail t a)
          m
          log
          (Producer.loaded_seq t (m.slots (slot_of m t)).sequence a)
  -- `try_emplace` returns false.
  refuse :
      {t seq : ℕ} {a : A}
      → seq ≢ t
      → Produce m log (Producer.loaded_seq t seq a) m log Producer.idle
  -- `emplace_wait` waits, and loads the sequence again.
  wait :
      {t seq : ℕ} {a : A}
      → seq ≢ t
      → Produce m log (Producer.loaded_seq t seq a) m log (Producer.loaded_tail t a)
  build :
      {t seq : ℕ} {a : A}
      → seq ≡ t
      → Produce m log
          (Producer.loaded_seq t seq a)
          (with_slot m (slot_of m t) (construct (m.slots (slot_of m t)) a))
          log
          (Producer.constructed t a)
  -- The constructor of the element throws, and the exception leaves the call.
  throw :
      {t seq : ℕ} {a : A}
      → seq ≡ t
      → Produce m log (Producer.loaded_seq t seq a) m log Producer.idle
  store_seq :
      {t : ℕ} {a : A}
      → Produce m log
          (Producer.constructed t a)
          (with_slot m (slot_of m t) (set_sequence (m.slots (slot_of m t)) (wrap (t + 1))))
          (log ++ (a ∷ []))
          (Producer.published t)
  store_tail :
      {t : ℕ}
      → Produce m log (Producer.published t) (record m { tail = wrap (t + 1) }) log Producer.idle

-- `handed p` lists what has been handed out for position `p`, by whichever consumer.
pub data Consume {A : Type 0} (m : Queue A) (handed : ℕ → List A)
    : Consumer A → Queue A → (ℕ → List A) → Consumer A → Type 0 where
  load_head : Consume m handed Consumer.idle m handed (Consumer.at m.head)
  load_seq :
      {h : ℕ}
      → Consume m handed (Consumer.at h) m handed (Consumer.seen h (m.slots (slot_of m h)).sequence)
  claim :
      {h seq : ℕ}
      → sub_size seq (wrap (h + 1)) ≡ 0
      → m.head ≡ h
      → Consume m handed
          (Consumer.seen h seq)
          (record m { head = wrap (h + 1) })
          handed
          (Consumer.claimed h)
  -- Another consumer was first, or the weak exchange failed without cause.
  lose :
      {h seq : ℕ}
      → sub_size seq (wrap (h + 1)) ≡ 0
      → Consume m handed (Consumer.seen h seq) m handed (Consumer.at m.head)
  -- `try_pop` returns nothing.
  find_empty :
      {h seq : ℕ}
      → half_range < sub_size seq (wrap (h + 1))
      → Consume m handed (Consumer.seen h seq) m handed Consumer.idle
  -- `pop_wait` waits, and loads the sequence again.
  wait :
      {h seq : ℕ}
      → half_range < sub_size seq (wrap (h + 1))
      → Consume m handed (Consumer.seen h seq) m handed (Consumer.at h)
  reload :
      {h seq : ℕ}
      → sub_size seq (wrap (h + 1)) ≢ 0
      → sub_size seq (wrap (h + 1)) ≤ half_range
      → Consume m handed (Consumer.seen h seq) m handed (Consumer.at m.head)
  move_out :
      {h : ℕ} {a : A}
      → (m.slots (slot_of m h)).storage ≡ some a
      → Consume m handed
          (Consumer.claimed h)
          (with_slot m (slot_of m h) (destroy (m.slots (slot_of m h))))
          handed
          (Consumer.moved h a)
  release :
      {h : ℕ} {a : A}
      → Consume m handed
          (Consumer.moved h a)
          (with_slot m (slot_of m h) (set_sequence (m.slots (slot_of m h)) (wrap (h + m.capacity))))
          (update handed h (a ∷ handed h))
          Consumer.idle

pub record System (A : Type 0) : Type 0 where
  pub mem : Queue A
  pub producer : Producer A
  pub consumers : ℕ → Consumer A
  pub log : List A
  pub handed : ℕ → List A

-- Any number of consumers; one that never moves stays idle.
pub data Step {A : Type 0} (s : System A) : System A → Type 0 where
  by_producer :
      {m : Queue A} {log : List A} {p : Producer A}
      → Produce s.mem s.log s.producer m log p
      → Step s (record s { mem = m; producer = p; log = log })
  by_consumer :
      (i : ℕ) {m : Queue A} {handed : ℕ → List A} {c : Consumer A}
      → Consume s.mem s.handed (s.consumers i) m handed c
      → Step s (record s { mem = m; consumers = update s.consumers i c; handed = handed })

abbrev pub start : {A : Type 0} → Queue A → System A
start m = record {
  mem = m;
  producer = Producer.idle;
  consumers = λ _. Consumer.idle;
  log = [];
  handed = λ _. [];
}

-- The systems that come after one.
pub data Later {A : Type 0} (s : System A) : System A → Type 0 where
  now : Later s s
  next : {t u : System A} → Later s t → Step t u → Later s u

-- The systems that the threads can reach from a constructed queue, in any interleaving.
pub data Reach {A : Type 0} (m : Queue A) : System A → Type 0 where
  begun : Reach m (start m)
  then_step : {s t : System A} → Reach m s → Step s t → Reach m t
