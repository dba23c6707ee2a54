-- ===== src/Spmc/Facts.antt =====
-- The invariant of the threads of `SPMCQueue`: which position each slot serves, who holds a position,
-- and what has been handed out. Positions do not wrap here: see `Spmc.Safety` for the bound.
use cpp_concurrency_toolbox.Base.{
  ℕ, suc, ◌+◌, ◌-◌, ◌%◌, ◌^◌, ◌≤◌, ◌<◌, ◌≡◌, ◌⊎◌, Option, none, some, List, [], ◌∷◌, length,
  get_elem?,
}
use cpp_concurrency_toolbox.Spmc.{Queue}
use cpp_concurrency_toolbox.Spmc.Steps.{Producer, Consumer}

-- The position that a consumer has claimed and not yet released.
abbrev pub holds : {A : Type 0} → Consumer A → Option ℕ
holds (Consumer.claimed h) = some h
holds (Consumer.moved h a) = some h
holds _ = none

-- The object that stands in a slot and is not yet published.
abbrev pub lead : {A : Type 0} → Producer A → ℕ
lead (Producer.constructed t a) = 1
lead _ = 0

-- The element that is published and not yet counted in `tail_`.
abbrev pub lag : {A : Type 0} → Producer A → ℕ
lag (Producer.published t) = 1
lag _ = 0

module _ {A : Type 0} (k : ℕ) (m : Queue A) where
  abbrev pub seq_at : ℕ → ℕ
  seq_at p = (m.slots (p % 2 ^ k)).sequence

  abbrev pub object_at : ℕ → Option A
  object_at p = (m.slots (p % 2 ^ k)).storage

  -- What the locals of the producer say about shared memory.
  abbrev pub ProducerFresh : List A → Producer A → Type 0
  ProducerFresh log Producer.idle = Unit
  ProducerFresh log (Producer.loaded_tail t a) = t ≡ length log
  ProducerFresh log (Producer.loaded_seq t seq a) = (t ≡ length log) × (seq ≡ t → seq_at t ≡ t)
  ProducerFresh log (Producer.constructed t a) =
      (t ≡ length log) × (seq_at t ≡ t) × (object_at t ≡ some a)
  ProducerFresh log (Producer.published t) = suc t ≡ length log

  -- What the locals of a consumer say about shared memory.
  abbrev pub ConsumerFresh : List A → Consumer A → Type 0
  ConsumerFresh log Consumer.idle = Unit
  ConsumerFresh log (Consumer.at h) = h ≤ m.head
  ConsumerFresh log (Consumer.seen h seq) =
      (h ≤ m.head) × (seq < length log + 2 ^ k) × (seq ≡ h + 1 → h < length log)
  ConsumerFresh log (Consumer.claimed h) =
      (h < m.head) × (seq_at h ≡ h + 1) × (object_at h ≡ get_elem? log h)
  ConsumerFresh log (Consumer.moved h a) =
      (h < m.head) × (seq_at h ≡ h + 1) × (object_at h ≡ none) × (get_elem? log h ≡ some a)

-- The slots. Position `p` of the next lap finds its slot free, with sequence `p`, or still taken by
-- position `p - 2 ^ k`; a position that is published and not claimed has its object in its slot.
pub record Slots {A : Type 0} (k : ℕ) (m : Queue A) (ahead : ℕ) (log : List A) : Type 0 where
  pub two : 1 ≤ k
  pub capacity : m.capacity ≡ 2 ^ k
  pub mask : m.mask ≡ 2 ^ k - 1
  pub order : m.head ≤ length log
  pub bounded : (p : ℕ) → seq_at k m p < length log + 2 ^ k
  pub window :
      (p : ℕ)
      → length log ≤ p
      → p < length log + 2 ^ k
      → (seq_at k m p ≡ p) ⊎ (seq_at k m p + 2 ^ k ≡ p + 1)
  pub available : (q : ℕ) → m.head ≤ q → q < length log → seq_at k m q ≡ q + 1
  pub live : (q : ℕ) → m.head ≤ q → q < length log → object_at k m q ≡ get_elem? log q
  pub vacant :
      (p : ℕ)
      → length log + ahead ≤ p
      → p < length log + 2 ^ k
      → seq_at k m p ≡ p
      → object_at k m p ≡ none

-- Who has what. A position below the head has been handed out once, or one consumer holds it.
pub record Ledger {A : Type 0} (head : ℕ) (consumers : ℕ → Consumer A) (log : List A)
    (handed : ℕ → List A) : Type 0 where
  pub unique : (i j h : ℕ) → holds (consumers i) ≡ some h → holds (consumers j) ≡ some h → i ≡ j
  pub unclaimed : (p : ℕ) → head ≤ p → handed p ≡ []
  pub in_hand : (i h : ℕ) → holds (consumers i) ≡ some h → handed h ≡ []
  pub once :
      (p : ℕ) (b : A) (bs : List A) → handed p ≡ b ∷ bs → (bs ≡ []) × (get_elem? log p ≡ some b)
  pub kept : (p : ℕ) → p < head → handed p ≡ [] → (i : ℕ) × (holds (consumers i) ≡ some p)

pub record Inv {A : Type 0} (k : ℕ) (m : Queue A) (p : Producer A) (consumers : ℕ → Consumer A)
    (log : List A) (handed : ℕ → List A) : Type 0 where
  pub slots : Slots k m (lead p) log
  pub ledger : Ledger m.head consumers log handed
  pub tail_at : m.tail + lag p ≡ length log
  pub producer_fresh : ProducerFresh k m log p
  pub consumers_fresh : (i : ℕ) → ConsumerFresh k m log (consumers i)
