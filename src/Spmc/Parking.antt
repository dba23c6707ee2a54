-- ===== src/Spmc/Parking.antt =====
-- `emplace_wait` and `pop_wait` of `SPMCQueue` with what `std::atomic::wait`, `notify_all` and
-- `notify_one` do: a thread that waits on a slot's sequence is asleep until a notification of that
-- slot picks it. The rest of each call is a step of `Spmc.Steps`.
mod Wakeups
mod TryPop
mod Stranded
mod Tests
use cpp_concurrency_toolbox.Base.{
  ℕ, ◌+◌, ◌<◌, ◌≡◌, ◌≢◌, Bool, true, false, Option, none, some, List, ◌==◌, if◌then◌else◌, wrap,
  sub_size, update,
}
use cpp_concurrency_toolbox.Spmc.{Queue, slot_of, half_range}
use cpp_concurrency_toolbox.Spmc.Steps
use cpp_concurrency_toolbox.Spmc.Steps.{Producer, Consumer, Produce, Consume, System, start}

-- `due` and `dues i` are the slots that the producer and consumer `i` are about to notify.
pub record Parking (A : Type 0) : Type 0 where
  pub system : System A
  pub asleep : Bool
  pub sleepers : ℕ → Bool
  pub due : Option ℕ
  pub dues : ℕ → Option ℕ

module _ {A : Type 0} where
  abbrev pub seq_of : Queue A → ℕ → ℕ
  seq_of m position = (m.slots (slot_of m position)).sequence

  -- A `wait` returns only if the sequence has changed.
  abbrev pub MayReturn : Queue A → Producer A → Producer A → Type 0
  MayReturn m (Producer.loaded_seq t seq a) (Producer.loaded_tail t' a') = seq_of m t ≢ seq
  MayReturn m _ _ = Unit

  abbrev pub MayReturnPop : Queue A → Consumer A → Consumer A → Type 0
  MayReturnPop m (Consumer.seen h seq) (Consumer.at h') =
      half_range < sub_size seq (wrap (h + 1)) → seq_of m h ≢ seq
  MayReturnPop m _ _ = Unit

  -- The slot that is notified after the next step of a thread.
  abbrev pub announced : Queue A → Producer A → Option ℕ
  announced m (Producer.published t) = some (slot_of m t)
  announced m _ = none

  abbrev pub announced_by : Queue A → Consumer A → Option ℕ
  announced_by m (Consumer.moved h a) = some (slot_of m h)
  announced_by m _ = none

  -- The slot that a thread would wait on.
  abbrev pub on_slot : Queue A → Producer A → ℕ → Bool
  on_slot m (Producer.loaded_seq t seq a) i = slot_of m t == i
  on_slot m _ i = false

  abbrev pub pops_on_slot : Queue A → Consumer A → ℕ → Bool
  pops_on_slot m (Consumer.seen h seq) i = slot_of m h == i
  pops_on_slot m _ i = false

-- `blocking i`: consumer `i` may call `pop_wait`; the others call `try_pop` only.
pub data Step {A : Type 0} (blocking : ℕ → Bool) (s : Parking A) : Parking A → Type 0 where
  run_producer :
      {m : Queue A} {log : List A} {p : Producer A}
      → s.asleep ≡ false
      → s.due ≡ none
      → Produce s.system.mem s.system.log s.system.producer m log p
      → MayReturn s.system.mem s.system.producer p
      → Step blocking s (record s {
        system = record (s.system) { mem = m; producer = p; log = log };
        due = announced s.system.mem s.system.producer;
      })
  run_consumer :
      (i : ℕ) {m : Queue A} {handed : ℕ → List A} {c : Consumer A}
      → s.sleepers i ≡ false
      → s.dues i ≡ none
      → Consume s.system.mem s.system.handed (s.system.consumers i) m handed c
      → MayReturnPop s.system.mem (s.system.consumers i) c
      → Step blocking s (record s {
        system = record (s.system) {
          mem = m;
          consumers = update s.system.consumers i c;
          handed = handed;
        };
        dues = update s.dues i (announced_by s.system.mem (s.system.consumers i));
      })
  -- `emplace_wait` waits: the sequence is still the one that it has loaded.
  sleep_producer :
      (t seq : ℕ) (a : A)
      → s.asleep ≡ false
      → s.due ≡ none
      → s.system.producer ≡ Producer.loaded_seq t seq a
      → seq ≢ t
      → seq_of s.system.mem t ≡ seq
      → Step blocking s (record s { asleep = true })
  -- `pop_wait` waits.
  sleep_consumer :
      (i h seq : ℕ)
      → blocking i ≡ true
      → s.sleepers i ≡ false
      → s.dues i ≡ none
      → s.system.consumers i ≡ Consumer.seen h seq
      → half_range < sub_size seq (wrap (h + 1))
      → seq_of s.system.mem h ≡ seq
      → Step blocking s (record s { sleepers = update s.sleepers i true })
  -- The producer's `notify_all` wakes every consumer that waits on the slot.
  notify_all :
      (slot : ℕ)
      → s.due ≡ some slot
      → Step blocking s (record s {
        due = none;
        sleepers = λ i.
            if pops_on_slot s.system.mem (s.system.consumers i) slot then false else s.sleepers i;
      })
  -- A consumer's `notify_one` wakes one thread that waits on the slot, whichever that is.
  notify_producer :
      (i slot : ℕ)
      → s.dues i ≡ some slot
      → s.asleep ≡ true
      → on_slot s.system.mem s.system.producer slot ≡ true
      → Step blocking s (record s { dues = update s.dues i none; asleep = false })
  notify_consumer :
      (i slot j : ℕ)
      → s.dues i ≡ some slot
      → s.sleepers j ≡ true
      → pops_on_slot s.system.mem (s.system.consumers j) slot ≡ true
      → Step blocking s
          (record s { dues = update s.dues i none; sleepers = update s.sleepers j false })
  notify_nobody :
      (i slot : ℕ)
      → s.dues i ≡ some slot
      → (s.asleep ≡ true → on_slot s.system.mem s.system.producer slot ≡ false)
      → ((j : ℕ)
          → s.sleepers j ≡ true
          → pops_on_slot s.system.mem (s.system.consumers j) slot ≡ false)
      → Step blocking s (record s { dues = update s.dues i none })

abbrev pub awake : {A : Type 0} → Queue A → Parking A
awake m = record {
  system = start m;
  asleep = false;
  sleepers = λ i. false;
  due = none;
  dues = λ i. none;
}

-- The states that the threads can reach, in any interleaving.
pub data Reach {A : Type 0} (blocking : ℕ → Bool) (m : Queue A) : Parking A → Type 0 where
  begun : Reach blocking m (awake m)
  then_step : {s t : Parking A} → Reach blocking m s → Step blocking s t → Reach blocking m t

-- The states that come after one.
pub data Later {A : Type 0} (blocking : ℕ → Bool) (s : Parking A) : Parking A → Type 0 where
  now : Later blocking s s
  next : {t u : Parking A} → Later blocking s t → Step blocking t u → Later blocking s u

-- Forgetting who sleeps gives a run of `Spmc.Steps`.
pub Reach-system :
    {A : Type 0} {blocking : ℕ → Bool} {m : Queue A} {s : Parking A}
    → Reach blocking m s
    → Steps.Reach m s.system
Reach-system begun = Steps.begun
Reach-system (then_step r (run_producer up free st may)) =
    Steps.then_step (Reach-system r) (Steps.by_producer st)
Reach-system (then_step r (run_consumer i up free st may)) =
    Steps.then_step (Reach-system r) (Steps.by_consumer i st)
Reach-system (then_step r (sleep_producer t seq a up free at_t taken same)) = Reach-system r
Reach-system (then_step r (sleep_consumer i h seq may up free at_h bare same)) = Reach-system r
Reach-system (then_step r (notify_all slot d)) = Reach-system r
Reach-system (then_step r (notify_producer i slot d z on)) = Reach-system r
Reach-system (then_step r (notify_consumer i slot j d z on)) = Reach-system r
Reach-system (then_step r (notify_nobody i slot d other none_of)) = Reach-system r
