-- ===== src/Spmc/Solo.antt =====
-- `try_emplace` and `try_pop` of `SPMCQueue` as one caller sees them are runs of the steps that the
-- threads interleave: a whole call of the producer, and one of a consumer, with no step of another
-- thread in between.
use cpp_concurrency_toolbox.Base.{
  ℕ, ◌+◌, Bool, true, false, Option, none, some, List, ◌∷◌, if◌then◌else◌, wrap, update,
}
use cpp_concurrency_toolbox.Spmc.{Queue, slot_of, construct, set_sequence}
use cpp_concurrency_toolbox.Spmc.Steps.{Producer, Consumer, with_slot, Produce, Consume}
use cpp_concurrency_toolbox.Spmc.Steps

module _ {A : Type 0} where
  -- Steps of the producer alone, and of one consumer alone.
  pub data Produced (m : Queue A) (log : List A) (p : Producer A)
      : Queue A → List A → Producer A → Type 0 where
    now : Produced m log p m log p
    next :
        {m' m'' : Queue A} {log' log'' : List A} {p' p'' : Producer A}
        → Produced m log p m' log' p'
        → Produce m' log' p' m'' log'' p''
        → Produced m log p m'' log'' p''

  pub data Consumed (m : Queue A) (handed : ℕ → List A) (c : Consumer A)
      : Queue A → (ℕ → List A) → Consumer A → Type 0 where
    now : Consumed m handed c m handed c
    next :
        {m' m'' : Queue A} {handed' handed'' : ℕ → List A} {c' c'' : Consumer A}
        → Consumed m handed c m' handed' c'
        → Consume m' handed' c' m'' handed'' c''
        → Consumed m handed c m'' handed'' c''

  module _ (q : Queue A) (log : List A) (a : A) where
    abbrev seq : ℕ
    seq = (q.slots (slot_of q q.tail)).sequence

    abbrev accepted : Queue A
    accepted = record q {
      slots =
          update q.slots (slot_of q q.tail)
            (set_sequence (construct (q.slots (slot_of q q.tail)) a) (wrap (q.tail + 1)));
      tail = wrap (q.tail + 1);
    }

    abbrev emplace_outcome : Bool → Bool × Queue A
    emplace_outcome b = if b then (true, accepted) else (false, q)

  -- What is recorded as handed out for the position `h`.
  abbrev pub given : (ℕ → List A) → ℕ → Option A → ℕ → List A
  given handed h none = handed
  given handed h (some a) = update handed h (a ∷ handed h)
