-- ===== src/Broadcast/Steps.antt =====
-- The threads of `SPMCBroadcastQueue`, one access to shared memory at a time: the producer in
-- `try_publish`, and consumer `i` in `try_consume` or `try_copy`. The atomics are taken as
-- sequentially consistent.
use cpp_concurrency_toolbox.Base.{
  ℕ, suc, ◌+◌, ◌≤◌, ◌<◌, ◌≡◌, true, false, List, [], ◌∷◌, ◌++◌, wrap, update,
}
use cpp_concurrency_toolbox.Broadcast.{Queue, lesser, slot_of, looks_full}

-- Where the producer stands, with its locals.
pub data Producer (A : Type 0) : Type 0 where
  idle : Producer A
  loaded : (t : ℕ) (a : A) → Producer A
  scanning : (t : ℕ) (a : A) (next least : ℕ) → Producer A
  cleared : (t : ℕ) (a : A) → Producer A  -- before the write to the slot
  written : (t : ℕ) (a : A) → Producer A  -- before the store to `tail_`

-- Where a consumer stands, with its locals.
pub data Consumer (A : Type 0) : Type 0 where
  ready : Consumer A
  at : (pos : ℕ) → Consumer A
  -- In the call of `fn`, which has looked at its reference this far: `looks` is what it found there.
  reading : (pos : ℕ) (looks : List A) → Consumer A
  called : (pos : ℕ) (looks : List A) → Consumer A  -- before the store to its cursor

-- `log` is the history of the items that have been published; `n` is the number of consumers.
pub data Publish {A : Type 0} (n : ℕ) (m : Queue A) (log : List A)
    : Producer A → Queue A → List A → Producer A → Type 0 where
  load_tail : (a : A) → Publish n m log Producer.idle m log (Producer.loaded m.tail a)
  find_room :
      {t : ℕ} {a : A}
      → looks_full m t m.cached_min ≡ false
      → Publish n m log (Producer.loaded t a) m log (Producer.cleared t a)
  scan_first :
      {t : ℕ} {a : A}
      → looks_full m t m.cached_min ≡ true
      → Publish n m log (Producer.loaded t a) m log (Producer.scanning t a 1 (m.cursors 0))
  scan_next :
      {t next least : ℕ} {a : A}
      → next < n
      → Publish n m log
          (Producer.scanning t a next least)
          m
          log
          (Producer.scanning t a (suc next) (lesser least (m.cursors next)))
  refuse :
      {t least : ℕ} {a : A}
      → looks_full m t least ≡ true
      → Publish n m log
          (Producer.scanning t a n least)
          (record m { cached_min = least })
          log
          Producer.idle
  find_space :
      {t least : ℕ} {a : A}
      → looks_full m t least ≡ false
      → Publish n m log
          (Producer.scanning t a n least)
          (record m { cached_min = least })
          log
          (Producer.cleared t a)
  write :
      {t : ℕ} {a : A}
      → Publish n m log
          (Producer.cleared t a)
          (record m { slots = update m.slots (slot_of m t) a })
          log
          (Producer.written t a)
  -- The constructor of the item throws, and the exception leaves the call.
  throw : {t : ℕ} {a : A} → Publish n m log (Producer.cleared t a) m log Producer.idle
  store_tail :
      {t : ℕ} {a : A}
      → Publish n m log
          (Producer.written t a)
          (record m { tail = wrap (t + 1) })
          (log ++ (a ∷ []))
          Producer.idle

-- `got` is the history of the items that consumer `i` has been shown in calls of `fn` that returned.
pub data Consume {A : Type 0} (i : ℕ) (m : Queue A) (got : List A)
    : Consumer A → Queue A → List A → Consumer A → Type 0 where
  load_pos : Consume i m got Consumer.ready m got (Consumer.at (m.cursors i))
  -- `try_consume` returns false.
  find_none : {pos : ℕ} → m.tail ≤ pos → Consume i m got (Consumer.at pos) m got Consumer.ready
  find_some :
      {pos : ℕ} → pos < m.tail → Consume i m got (Consumer.at pos) m got (Consumer.reading pos [])
  -- `fn` looks at the item and goes on.
  look :
      {pos : ℕ} {looks : List A}
      → Consume i m got
          (Consumer.reading pos looks)
          m
          got
          (Consumer.reading pos (looks ++ (m.slots (slot_of m pos) ∷ [])))
  -- `fn` looks at the item for the last time and returns.
  call :
      {pos : ℕ} {looks : List A}
      → Consume i m got
          (Consumer.reading pos looks)
          m
          (got ++ (m.slots (slot_of m pos) ∷ []))
          (Consumer.called pos (looks ++ (m.slots (slot_of m pos) ∷ [])))
  -- `fn` throws, after any number of looks: the cursor stays, and the item is shown again.
  throw :
      {pos : ℕ} {looks : List A} → Consume i m got (Consumer.reading pos looks) m got Consumer.ready
  store_pos :
      {pos : ℕ} {looks : List A}
      → Consume i m got
          (Consumer.called pos looks)
          (record m { cursors = update m.cursors i (wrap (pos + 1)) })
          got
          Consumer.ready

pub record System (A : Type 0) : Type 0 where
  pub mem : Queue A
  pub producer : Producer A
  pub consumers : ℕ → Consumer A
  pub log : List A
  pub got : ℕ → List A

pub data Step {A : Type 0} (n : ℕ) (s : System A) : System A → Type 0 where
  by_producer :
      {m : Queue A} {log : List A} {p : Producer A}
      → Publish n s.mem s.log s.producer m log p
      → Step n s (record s { mem = m; producer = p; log = log })
  by_consumer :
      (i : ℕ) {m : Queue A} {got : List A} {c : Consumer A}
      → i < n
      → Consume i s.mem (s.got i) (s.consumers i) m got c
      → Step n s
          (record s { mem = m; consumers = update s.consumers i c; got = update s.got i got })

abbrev pub start : {A : Type 0} → Queue A → System A
start m = record {
  mem = m;
  producer = Producer.idle;
  consumers = λ i. Consumer.ready;
  log = [];
  got = λ i. [];
}

pub data Reach {A : Type 0} (n : ℕ) (m : Queue A) : System A → Type 0 where
  begun : Reach n m (start m)
  then_step : {s t : System A} → Reach n m s → Step n s t → Reach n m t
