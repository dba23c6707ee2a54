-- ===== src/Spmc/Parking/Stranded.antt =====
-- A producer of `SPMCQueue` that sleeps for ever: `notify_one` of a consumer picks another consumer,
-- which waits on the same slot in `pop_wait`.
use cpp_concurrency_toolbox.Base.{
  ℕ, ◌+◌, ◌^◌, ◌<◌, ◌≡◌, inl, inr, refl, Bool, true, false, none, some, List, length, arith, ok,
  ◌==◌, Bool-cases, update, subst, ap, ◌∙◌,
}
use cpp_concurrency_toolbox.Spmc.{Queue, slot_of, new}
use cpp_concurrency_toolbox.Spmc.Steps
use cpp_concurrency_toolbox.Spmc.Steps.{Producer, Consumer, Consume}
use cpp_concurrency_toolbox.Spmc.Facts.{holds, ConsumerFresh}
use cpp_concurrency_toolbox.Spmc.ByConsumer.{diff-zero}
use cpp_concurrency_toolbox.Spmc.Safety.{InvOf, new-Inv}
use cpp_concurrency_toolbox.Spmc.Parking.{
  Parking, seq_of, announced_by, pops_on_slot, Step, run_producer, run_consumer, sleep_producer,
  sleep_consumer, notify_all, notify_producer, notify_consumer, notify_nobody, Reach, then_step,
  Reach-system, Later, now, next,
}

module _ {A : Type 0} where
  -- The producer sleeps, every element has been taken, and nobody is about to notify.
  record Stuck (s : Parking A) : Type 0 where
    sleeps : s.asleep ≡ true
    drained : s.system.mem.head ≡ length s.system.log
    free_hands : (i : ℕ) → holds (s.system.consumers i) ≡ none
    not_due : s.due ≡ none
    none_due : (i : ℕ) → s.dues i ≡ none

  -- A consumer that meets an empty queue finds nothing.
  Consume-drained :
      {k i : ℕ} {s : Parking A} {m : Queue A} {handed : ℕ → List A} {c c' : Consumer A}
      → InvOf k s.system
      → length s.system.log + 2 ^ k < 2 ^ 63
      → Stuck s
      → s.system.consumers i ≡ c
      → Consume s.system.mem s.system.handed c m handed c'
      → (m ≡ s.system.mem)
        × (handed ≡ s.system.handed)
        × (holds c' ≡ none)
        × (announced_by s.system.mem c ≡ none)
  Consume-drained inv few stuck at_i Steps.load_head = (refl, refl, refl, refl)
  Consume-drained inv few stuck at_i Steps.load_seq = (refl, refl, refl, refl)
  Consume-drained {k} {i} {s} inv few stuck at_i (Steps.claim {h} {seq} z same) = absurd (
      omega (
        arith,
        same,
        stuck.drained,
        fresh.2 (
            diff-zero h seq (omega (arith, same, stuck.drained))
              (omega (arith, inv.slots.two, fresh.1)) z),
      ))
    where
      fresh : ConsumerFresh k s.system.mem s.system.log (Consumer.seen h seq)
      fresh = subst (ConsumerFresh k s.system.mem s.system.log) at_i (inv.consumers_fresh i)
  Consume-drained inv few stuck at_i (Steps.lose z) = (refl, refl, refl, refl)
  Consume-drained inv few stuck at_i (Steps.find_empty z) = (refl, refl, refl, refl)
  Consume-drained inv few stuck at_i (Steps.wait z) = (refl, refl, refl, refl)
  Consume-drained inv few stuck at_i (Steps.reload z small) = (refl, refl, refl, refl)
  Consume-drained {i = i} inv few stuck at_i (Steps.move_out {h} object) =
      absurd (cc (ap holds at_i, stuck.free_hands i))
  Consume-drained {i = i} inv few stuck at_i (Steps.release {h} {a}) =
      absurd (cc (ap holds at_i, stuck.free_hands i))

  -- Nothing is published or handed out, and the queue is left as it is.
  abbrev pub Unchanged : Parking A → Parking A → Type 0
  Unchanged s t =
      (t.system.mem ≡ s.system.mem)
      × (t.system.log ≡ s.system.log)
      × (t.system.handed ≡ s.system.handed)
      × (t.system.producer ≡ s.system.producer)

  Step-Stuck :
      {k : ℕ} {blocking : ℕ → Bool} {s t : Parking A}
      → InvOf k s.system
      → length s.system.log + 2 ^ k < 2 ^ 63
      → Stuck s
      → Step blocking s t
      → Stuck t × Unchanged s t
  Step-Stuck inv few stuck (run_producer up free st may) = absurd (cc (stuck.sleeps))
  Step-Stuck {s = s} inv few stuck (run_consumer i {c = c} up free st may) =
      let (mem, handed, hands, quiet) = Consume-drained {i = i} inv few stuck refl st in
      (
        record {
          sleeps = stuck.sleeps;
          drained = ap (λ (q : Queue A). q.head) mem ∙ stuck.drained;
          free_hands = λ j. ground (arith, stuck.free_hands j);
          not_due = stuck.not_due;
          none_due = λ j. ground (arith, stuck.none_due j);
        },
        (mem, refl, handed, refl),
      )
  Step-Stuck inv few stuck (sleep_producer t seq a up free at_t taken same) =
      absurd (cc (stuck.sleeps))
  Step-Stuck inv few stuck (sleep_consumer i h seq may up free at_i bare same) = (
    record {
      sleeps = stuck.sleeps;
      drained = stuck.drained;
      free_hands = stuck.free_hands;
      not_due = stuck.not_due;
      none_due = stuck.none_due;
    },
    (refl, refl, refl, refl),
  )
  Step-Stuck inv few stuck (notify_all slot d) = absurd (cc (stuck.not_due))
  Step-Stuck inv few stuck (notify_producer i slot d z on) = absurd (cc (stuck.none_due i))
  Step-Stuck inv few stuck (notify_consumer i slot j d z on) = absurd (cc (stuck.none_due i))
  Step-Stuck inv few stuck (notify_nobody i slot d other others) = absurd (cc (stuck.none_due i))

  Later-Stuck :
      {blocking : ℕ → Bool} (requested : ℕ) {m : Queue A} {s t : Parking A}
      → new requested ≡ ok m
      → length s.system.log + m.capacity < 2 ^ 63
      → Reach blocking m s
      → Stuck s
      → Later blocking s t
      → Reach blocking m t × Stuck t × Unchanged s t
  Later-Stuck requested made few r stuck now = (r, stuck, (refl, refl, refl, refl))
  Later-Stuck requested {m} {s} made few r stuck (next {t} {u} l st) =
      let (reached, still, same) = Later-Stuck requested made few r stuck l in
      let (k, size, inv) = new-Inv requested made (rw (same.1) few) (Reach-system reached) in
      let (yet, again) = Step-Stuck inv (rw (same.1) (omega (arith, size))) still st in
      (
        then_step reached st,
        yet,
        (again.0 ∙ same.0, again.1 ∙ same.1, again.2 ∙ same.2, again.3 ∙ same.3),
      )

  -- A producer can sleep for ever with every slot free. Take any state that the threads of a constructed
  -- queue can reach, with fewer than 2 ^ 63 - capacity elements published, in which the producer is
  -- asleep in `emplace_wait`, its slot is free, all that was published has been claimed and given back,
  -- consumer i is the only one that is about to call `notify_one`, on that slot, and consumer j is
  -- asleep on the same slot in `pop_wait`. Then `notify_one` may wake consumer j, and from there, as
  -- long as no wait ends without cause, the producer never wakes and nothing is published or handed
  -- out again.
  pub notify_one-strands_producer :
      {blocking : ℕ → Bool} (requested : ℕ) {m : Queue A} {s : Parking A}
      → new requested ≡ ok m
      → length s.system.log + m.capacity < 2 ^ 63
      → Reach blocking m s
      → (t seq i j : ℕ) (a : A) → s.asleep ≡ true
      → s.system.producer ≡ Producer.loaded_seq t seq a
      → seq_of s.system.mem t ≡ t
      → s.system.mem.head ≡ length s.system.log
      → ((l : ℕ) → holds (s.system.consumers l) ≡ none)
      → s.due ≡ none
      → s.dues i ≡ some (slot_of s.system.mem t)
      → ((l : ℕ) → (i == l) ≡ false → s.dues l ≡ none)
      → s.sleepers j ≡ true
      → pops_on_slot s.system.mem (s.system.consumers j) (slot_of s.system.mem t) ≡ true
      → (woken : Parking A) × Step blocking s woken
        × ((later : Parking A)
            → Later blocking woken later
            → (later.asleep ≡ true)
              × (seq_of later.system.mem t ≡ t)
              × (later.system.log ≡ s.system.log)
              × (later.system.handed ≡ s.system.handed))
  notify_one-strands_producer {blocking} requested {m} {s} made few r t seq i j a sleeps at_t free
        drained hands not_due due_i others up_j on_j =
      (
        woken,
        step,
        (λ later l.
            let (reached, still, same) =
              Later-Stuck requested made few (then_step r step) stuck l in
            (still.sleeps, ap (λ q. seq_of q t) same.0 ∙ free, same.1, same.2)),
      )
    where
      woken : Parking A
      woken = record s { dues = update s.dues i none; sleepers = update s.sleepers j false }

      step : Step blocking s woken
      step = notify_consumer i (slot_of s.system.mem t) j due_i up_j on_j

      stuck : Stuck woken
      stuck = record {
        sleeps = sleeps;
        drained = drained;
        free_hands = hands;
        not_due = not_due;
        none_due = λ l. elim (Bool-cases (i == l)) [
          | inl here ↦ rw here refl
          | inr there ↦ rw there (others l there)
        ];
      }
