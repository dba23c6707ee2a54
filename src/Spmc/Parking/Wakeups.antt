-- ===== src/Spmc/Parking/Wakeups.antt =====
-- Which sleeping threads of `SPMCQueue` are about to be woken.
use native.Mathlib.Nat.{pow-le-pow_right}
use cpp_concurrency_toolbox.Base.{
  ℕ, ◌+◌, ◌^◌, ◌≤◌, ◌<◌, ◌≡◌, ◌⊎◌, inl, inr, refl, Bool, true, false, some, List, length, arith, ok,
  ◌==◌, Bool-cases, wrap, sub_size, subst, ap, sym, ◌∙◌, mod_injective,
}
use cpp_concurrency_toolbox.Spmc.{Queue, slot_of, new, half_range}
use cpp_concurrency_toolbox.Spmc.Steps
use cpp_concurrency_toolbox.Spmc.Steps.{Producer, Consumer, Produce, Consume, System}
use cpp_concurrency_toolbox.Spmc.Facts.{ConsumerFresh}
use cpp_concurrency_toolbox.Spmc.Claim.{slot_of-mod}
use cpp_concurrency_toolbox.Spmc.Safety.{InvOf, new-Inv, Produce-log}
use cpp_concurrency_toolbox.Spmc.Parking.{
  Parking, seq_of, announced, Step, run_producer, run_consumer, sleep_producer, sleep_consumer,
  notify_all, notify_producer, notify_consumer, notify_nobody, Reach, begun, then_step,
  Reach-system,
}

not_negative : (h : ℕ) → half_range < sub_size (h + 1) (wrap (h + 1)) → ⊥
not_negative h negative = omega arith

module _ {A : Type 0} where
  -- The producer is about to notify the slot.
  abbrev pub Announcing : Parking A → ℕ → Type 0
  Announcing s slot = (announced s.system.mem s.system.producer ≡ some slot) ⊎ (s.due ≡ some slot)

  abbrev Watched : Parking A → Type 0
  Watched s =
      (i h seq : ℕ)
      → s.sleepers i ≡ true
      → s.system.consumers i ≡ Consumer.seen h seq
      → seq_of s.system.mem h ≡ h + 1
      → Announcing s (slot_of s.system.mem h)

  -- A step of the producer that makes a position available announces it.
  Produce-announced :
      {m m' : Queue A} {log log' : List A} {p p' : Producer A}
      → Produce m log p m' log' p'
      → (h : ℕ)
      → (slot_of m' h ≡ slot_of m h)
        × (seq_of m' h ≡ h + 1 → (announced m' p' ≡ some (slot_of m' h)) ⊎ (seq_of m h ≡ h + 1))
  Produce-announced (Steps.load_tail a) h = (refl, λ e. inr e)
  Produce-announced Steps.load_seq h = (refl, λ e. inr e)
  Produce-announced (Steps.refuse ne) h = (refl, λ e. inr e)
  Produce-announced (Steps.wait ne) h = (refl, λ e. inr e)
  Produce-announced {m} (Steps.build {t} same) h = (
    refl,
    λ e. elim (Bool-cases (slot_of m t == slot_of m h)) [
      | inl here ↦ inr (ground arith)
      | inr there ↦ inr (ground arith)
    ],
  )
  Produce-announced (Steps.throw same) h = (refl, λ e. inr e)
  Produce-announced {m} (Steps.store_seq {t}) h = (
    refl,
    λ e. elim (Bool-cases (slot_of m t == slot_of m h)) [
      | inl here ↦ inl (ground arith)
      | inr there ↦ inr (ground arith)
    ],
  )
  Produce-announced Steps.store_tail h = (refl, λ e. inr e)

  -- A consumer that gives a slot back makes no position available.
  Consume-available :
      {k : ℕ} (i : ℕ) {s : System A} {m : Queue A} {handed : ℕ → List A} {c c' : Consumer A}
      → InvOf k s
      → length s.log + 2 ^ k < 2 ^ 63
      → s.consumers i ≡ c
      → Consume s.mem s.handed c m handed c'
      → (h : ℕ) → (m.mask ≡ s.mem.mask) × (seq_of m h ≡ h + 1 → seq_of s.mem h ≡ h + 1)
  Consume-available i inv few at_i Steps.load_head h = (refl, λ e. e)
  Consume-available i inv few at_i Steps.load_seq h = (refl, λ e. e)
  Consume-available i inv few at_i (Steps.claim z same) h = (refl, λ e. e)
  Consume-available i inv few at_i (Steps.lose z) h = (refl, λ e. e)
  Consume-available i inv few at_i (Steps.find_empty z) h = (refl, λ e. e)
  Consume-available i inv few at_i (Steps.wait z) h = (refl, λ e. e)
  Consume-available i inv few at_i (Steps.reload z small) h = (refl, λ e. e)
  Consume-available i {s = s} inv few at_i (Steps.move_out {h = p} object) h = (
    refl,
    λ e. elim (Bool-cases (slot_of s.mem p == slot_of s.mem h)) [
      | inl here ↦ ground arith
      | inr there ↦ ground arith
    ],
  )
  Consume-available {k} i {s} inv few at_i (Steps.release {h = p} {a}) h = (
    refl,
    λ e. elim (Bool-cases (slot_of s.mem p == slot_of s.mem h)) [
      | inl here ↦ absurd (no_lap (ground arith) (ground arith))
      | inr there ↦ ground arith
    ],
  )
    where
      below : p < s.mem.head
      below = (subst (ConsumerFresh k s.mem s.log) at_i (inv.consumers_fresh i)).0

      two : 2 ≤ 2 ^ k
      two = pow-le-pow_right {n = 2} (omega arith) inv.slots.two

      no_lap : slot_of s.mem p ≡ slot_of s.mem h → wrap (p + s.mem.capacity) ≡ h + 1 → ⊥
      no_lap same e = omega (
        arith,
        two,
        no_wrap,
        mod_injective (2 ^ k) p h (omega (arith, two, no_wrap)) (omega (arith, two, no_wrap))
            (sym (slot_of-mod inv p) ∙ same ∙ slot_of-mod inv h),
      )
        where
          no_wrap : p + 2 ^ k ≡ h + 1
          no_wrap = omega (arith, below, inv.slots.order, inv.slots.capacity)

  Step-Watched :
      {k : ℕ} {blocking : ℕ → Bool} {s t : Parking A}
      → InvOf k s.system
      → length s.system.log + 2 ^ k < 2 ^ 63
      → Step blocking s t
      → Watched s
      → Watched t
  Step-Watched {s = s} inv few (run_producer {m} {p = p} up free st may) old i h seq z at_i e =
      let (same, cases) = Produce-announced st h in
      elim (cases e) [
        | inl fresh ↦ inl fresh
        | inr before ↦ elim (old i h seq z at_i before) [
          | inl there ↦ inr (there ∙ ap some (sym same))
          | inr d ↦ absurd (cc)
        ]
      ]
  Step-Watched {s = s} inv few (run_consumer j up free st may) old i h seq z at_i e =
      let (same, before) = Consume-available j inv few refl st h in
      let other : (j == i) ≡ false = ground arith in
      elim (old i h seq z (rw other at at_i) (before e)) [
        | inl there ↦ inl (ground arith)
        | inr d ↦ inr (ground arith)
      ]
  Step-Watched inv few (sleep_producer t seq' a up free at_t taken same) old i h seq z at_i e =
      old i h seq z at_i e
  Step-Watched {s = s} inv few (sleep_consumer j h' seq' may up free at_j bare same) old i h seq z
        at_i e =
      elim (Bool-cases (j == i)) [
        | inl here ↦ absurd (not_negative h (ground arith))
        | inr there ↦ old i h seq (rw there at z) at_i e
      ]
  Step-Watched {s = s} inv few (notify_all slot d) old i h seq z at_i e =
      elim (old i h seq (ground arith) at_i e) [
        | inl there ↦ inl there
        | inr d' ↦ absurd (ground arith)
      ]
  Step-Watched inv few (notify_producer j slot d y on) old i h seq z at_i e = old i h seq z at_i e
  Step-Watched inv few (notify_consumer j slot l d y on) old i h seq z at_i e =
      old i h seq (ground arith) at_i e
  Step-Watched inv few (notify_nobody j slot d y others) old i h seq z at_i e = old i h seq z at_i e

  Step-log :
      {blocking : ℕ → Bool} {s t : Parking A}
      → Step blocking s t
      → length s.system.log ≤ length t.system.log
  Step-log (run_producer up free st may) = Produce-log st
  Step-log (run_consumer i up free st may) = omega arith
  Step-log (sleep_producer t seq a up free at_t taken same) = omega arith
  Step-log (sleep_consumer i h seq may up free at_h bare same) = omega arith
  Step-log (notify_all slot d) = omega arith
  Step-log (notify_producer i slot d z on) = omega arith
  Step-log (notify_consumer i slot j d z on) = omega arith
  Step-log (notify_nobody i slot d other others) = omega arith

  Reach-Watched :
      {blocking : ℕ → Bool} {m : Queue A} {s : Parking A} (requested : ℕ)
      → new requested ≡ ok m
      → length s.system.log + m.capacity < 2 ^ 63
      → Reach blocking m s
      → Watched s
  Reach-Watched requested made few begun = λ i h seq z at_i e. absurd (cc)
  Reach-Watched {m} requested made few (then_step {s} {t} r st) =
      let (k, size, inv) = new-Inv requested made fewer (Reach-system r) in
      Step-Watched inv (omega (arith, fewer)) st (Reach-Watched requested made fewer r)
    where
      fewer : length s.system.log + m.capacity < 2 ^ 63
      fewer = omega (arith, Step-log st)

  -- No wake-up of a consumer is lost: in every interleaving of the producer and any number of consumers,
  -- with fewer than 2 ^ 63 - capacity elements published, if a consumer is asleep in `pop_wait` and the
  -- element that it waits for is in its slot, the producer is about to call `notify_all` on that
  -- slot.
  pub sleeping_consumer-announced :
      {blocking : ℕ → Bool} (requested : ℕ) {m : Queue A} {s : Parking A}
      → new requested ≡ ok m
      → length s.system.log + m.capacity < 2 ^ 63
      → Reach blocking m s
      → (i h seq : ℕ) → s.sleepers i ≡ true
      → s.system.consumers i ≡ Consumer.seen h seq
      → seq_of s.system.mem h ≡ h + 1
      → Announcing s (slot_of s.system.mem h)
  sleeping_consumer-announced requested made few r i h seq z at_i e =
      Reach-Watched requested made few r i h seq z at_i e
