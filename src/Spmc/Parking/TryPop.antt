-- ===== src/Spmc/Parking/TryPop.antt =====
-- The sleep of the producer of `SPMCQueue` where no consumer calls `pop_wait`.
use cpp_concurrency_toolbox.Base.{
  ℕ, List, ◌≡◌, ◌⊎◌, inl, inr, refl, Bool, true, false, some, arith, ◌==◌, Bool-cases,
}
use cpp_concurrency_toolbox.Spmc.{Queue, slot_of}
use cpp_concurrency_toolbox.Spmc.Steps
use cpp_concurrency_toolbox.Spmc.Steps.{Producer, Consumer, Consume}
use cpp_concurrency_toolbox.Spmc.Parking.{
  Parking, seq_of, announced_by, Step, run_producer, run_consumer, sleep_producer, sleep_consumer,
  notify_all, notify_producer, notify_consumer, notify_nobody, Reach, begun, then_step,
}

module _ {A : Type 0} where
  -- A step of a consumer that frees a position's slot announces it.
  Consume-frees :
      {m m' : Queue A} {handed handed' : ℕ → List A} {c c' : Consumer A}
      → Consume m handed c m' handed' c'
      → (t : ℕ)
      → (m'.mask ≡ m.mask)
        × (seq_of m' t ≡ t → (announced_by m c ≡ some (slot_of m t)) ⊎ (seq_of m t ≡ t))
  Consume-frees Steps.load_head t = (refl, λ e. inr e)
  Consume-frees Steps.load_seq t = (refl, λ e. inr e)
  Consume-frees (Steps.claim z same) t = (refl, λ e. inr e)
  Consume-frees (Steps.lose z) t = (refl, λ e. inr e)
  Consume-frees (Steps.find_empty z) t = (refl, λ e. inr e)
  Consume-frees (Steps.wait z) t = (refl, λ e. inr e)
  Consume-frees (Steps.reload z small) t = (refl, λ e. inr e)
  Consume-frees {m} (Steps.move_out {h} object) t = (
    refl,
    λ e. inr (elim (Bool-cases (slot_of m h == slot_of m t)) [
      | inl here ↦ ground arith
      | inr there ↦ ground arith
    ]),
  )
  Consume-frees {m} (Steps.release {h} {a}) t = (
    refl,
    λ e. elim (Bool-cases (slot_of m h == slot_of m t)) [
      | inl here ↦ inl (ground arith)
      | inr there ↦ inr (ground arith)
    ],
  )

  -- No consumer sleeps, and if the slot that the producer sleeps for is free, a consumer is about to
  -- notify it.
  record Guarded (s : Parking A) : Type 0 where
    up : (i : ℕ) → s.sleepers i ≡ false
    noted :
        (t seq : ℕ) (a : A)
        → s.asleep ≡ true
        → s.system.producer ≡ Producer.loaded_seq t seq a
        → seq_of s.system.mem t ≡ t
        → (i : ℕ) × (s.dues i ≡ some (slot_of s.system.mem t))

  Step-Guarded :
      {blocking : ℕ → Bool} {s t : Parking A}
      → ((i : ℕ) → blocking i ≡ false)
      → Guarded s
      → Step blocking s t
      → Guarded t
  Step-Guarded never old (run_producer awake free st may) = record {
    up = old.up;
    noted = λ t seq a z. absurd (ground arith);
  }
  Step-Guarded {s = s} never old (run_consumer j awake free st may) = record {
    up = old.up;
    noted = λ t seq a z at_t e.
        let (same, cases) = Consume-frees st t in
        elim (cases e) [
          | inl mine ↦ (j, ground arith)
          | inr before ↦ let (i, theirs) = old.noted t seq a z at_t before in (i, ground arith)
        ];
  }
  Step-Guarded never old (sleep_producer t seq a awake free at_t taken same) = record {
    up = old.up;
    noted = λ t' seq' a' z at_t' e. absurd (ground arith);
  }
  Step-Guarded never old (sleep_consumer i h seq may awake free at_i bare same) =
      absurd (ground (arith, never i))
  Step-Guarded never old (notify_all slot d) = record {
    up = λ i. ground (arith, old.up i);
    noted = old.noted;
  }
  Step-Guarded never old (notify_producer i slot d z on) = record {
    up = old.up;
    noted = λ t seq a z'. absurd (cc);
  }
  Step-Guarded never old (notify_consumer i slot j d z on) = absurd (ground (arith, old.up j))
  Step-Guarded never old (notify_nobody i slot d other others) = record {
    up = old.up;
    noted = λ t seq a z at_t e.
        let (j, theirs) = old.noted t seq a z at_t e in (j, ground (arith, other z));
  }

  Reach-Guarded :
      {blocking : ℕ → Bool} {m : Queue A} {s : Parking A}
      → ((i : ℕ) → blocking i ≡ false)
      → Reach blocking m s
      → Guarded s
  Reach-Guarded never begun = record { up = λ i. refl; noted = λ t seq a z. absurd (cc) }
  Reach-Guarded never (then_step r st) = Step-Guarded never (Reach-Guarded never r) st

  -- No wake-up of the producer is lost where the consumers call `try_pop` only: in every interleaving
  -- from any queue, if the producer is asleep in `emplace_wait` and the slot of its position is free, a
  -- consumer is about to call `notify_one` on that slot, on which no other thread waits.
  pub sleeping_producer-announced :
      {blocking : ℕ → Bool} {m : Queue A} {s : Parking A}
      → ((i : ℕ) → blocking i ≡ false)
      → Reach blocking m s
      → (t seq : ℕ) (a : A) → s.asleep ≡ true
      → s.system.producer ≡ Producer.loaded_seq t seq a
      → seq_of s.system.mem t ≡ t
      → ((i : ℕ) × (s.dues i ≡ some (slot_of s.system.mem t))) × ((j : ℕ) → s.sleepers j ≡ false)
  sleeping_producer-announced never r t seq a z at_t e =
      let guarded = Reach-Guarded never r in (guarded.noted t seq a z at_t e, guarded.up)
