-- ===== src/Broadcast/Facts.antt =====
-- The invariant of the threads of `SPMCBroadcastQueue`. Positions do not wrap here: see
-- `Broadcast.Safety` for the bound.
use cpp_concurrency_toolbox.Base.{
  ℕ, ◌+◌, ◌-◌, ◌^◌, ◌≤◌, ◌<◌, ◌≡◌, some, List, length, take, get_elem?,
}
use cpp_concurrency_toolbox.Broadcast.{Queue, slot_of}
use cpp_concurrency_toolbox.Broadcast.Steps.{Producer, Consumer}

-- The item that stands in its slot and is not yet published.
abbrev pub lead : {A : Type 0} → Producer A → ℕ
lead (Producer.written t a) = 1
lead _ = 0

-- The item that a consumer has been shown in a call that returned, and has not yet passed.
abbrev pub shown : {A : Type 0} → Consumer A → ℕ
shown (Consumer.called pos looks) = 1
shown _ = 0

module _ {A : Type 0} (n : ℕ) (m : Queue A) (log : List A) where
  abbrev pub ProducerFresh : Producer A → Type 0
  ProducerFresh Producer.idle = Unit
  ProducerFresh (Producer.loaded t a) = t ≡ length log
  ProducerFresh (Producer.scanning t a next least) =
      (t ≡ length log) × ((j : ℕ) → j < next → least ≤ m.cursors j)
  ProducerFresh (Producer.cleared t a) =
      (t ≡ length log) × ((j : ℕ) → j < n → length log < m.cursors j + m.capacity)
  ProducerFresh (Producer.written t a) =
      (t ≡ length log)
      × ((j : ℕ) → j < n → length log < m.cursors j + m.capacity)
      × (m.slots (slot_of m t) ≡ a)

  -- Each look found the item published at the position.
  abbrev pub FoundItem : ℕ → List A → Type 0
  FoundItem pos looks = (j : ℕ) (a : A) → get_elem? looks j ≡ some a → get_elem? log pos ≡ some a

  abbrev pub ConsumerFresh : ℕ → Consumer A → Type 0
  ConsumerFresh i Consumer.ready = Unit
  ConsumerFresh i (Consumer.at pos) = pos ≡ m.cursors i
  ConsumerFresh i (Consumer.reading pos looks) =
      (pos ≡ m.cursors i) × (pos < length log) × FoundItem pos looks
  ConsumerFresh i (Consumer.called pos looks) =
      (pos ≡ m.cursors i) × (pos < length log) × FoundItem pos looks

pub record Inv {A : Type 0} (n k : ℕ) (m : Queue A) (p : Producer A) (consumers : ℕ → Consumer A)
    (log : List A) (got : ℕ → List A) : Type 0 where
  pub some_consumer : 1 ≤ n
  pub capacity : m.capacity ≡ 2 ^ k
  pub mask : m.mask ≡ 2 ^ k - 1
  pub tail_at : m.tail ≡ length log
  pub behind : (i : ℕ) → i < n → m.cursors i ≤ length log
  pub room : (i : ℕ) → i < n → length log ≤ m.cursors i + m.capacity
  pub cached : (i : ℕ) → i < n → m.cached_min ≤ m.cursors i
  pub live :
      (q : ℕ)
      → q < length log
      → length log + lead p ≤ q + m.capacity
      → get_elem? log q ≡ some (m.slots (slot_of m q))
  pub producer_fresh : ProducerFresh n m log p
  pub consumers_fresh : (i : ℕ) → i < n → ConsumerFresh n m log i (consumers i)
  pub prefix : (i : ℕ) → i < n → got i ≡ take (m.cursors i + shown (consumers i)) log
