-- ===== src/Spsc/Facts.antt =====
-- The invariant of the two threads of `SPSCQueue`, in terms of the two histories.
use cpp_concurrency_toolbox.Base.{
  ℕ, suc, ◌+◌, ◌-◌, ◌%◌, ◌^◌, ◌≤◌, ◌<◌, ◌≡◌, ◌≢◌, List, some, length, get_elem?, take,
}
use cpp_concurrency_toolbox.Spsc.{Queue, next_index}
use cpp_concurrency_toolbox.Spsc.Steps.{Producer, Consumer}

-- The elements that the consumer has taken out of their cell and not yet released.
abbrev pub in_hand : {A : Type 0} → Consumer A → ℕ
in_hand (Consumer.taken h a) = 1
in_hand _ = 0

module _ {A : Type 0} (k : ℕ) (m : Queue A) (log got : List A) where
  abbrev pub HasRoom : Type 0
  HasRoom = suc (length log) < length got + 2 ^ k

  -- What the locals of the producer say about shared memory.
  abbrev pub ProducerFresh : Producer A → Type 0
  ProducerFresh Producer.idle = Unit
  ProducerFresh (Producer.loaded_tail t a) = t ≡ m.tail
  ProducerFresh (Producer.loaded_head t h a) =
      (t ≡ m.tail) × (next_index m.capacity_mask t ≢ h → HasRoom)
  ProducerFresh (Producer.written t a) = (t ≡ m.tail) × HasRoom × (m.buffer t ≡ a)

  -- What the locals of the consumer say about shared memory.
  abbrev pub ConsumerFresh : Consumer A → Type 0
  ConsumerFresh Consumer.idle = Unit
  ConsumerFresh (Consumer.loaded_head h) = h ≡ m.head
  ConsumerFresh (Consumer.loaded_tail h t) = (h ≡ m.head) × (h ≢ t → length got < length log)
  ConsumerFresh (Consumer.taken h a) = (h ≡ m.head) × (get_elem? log (length got) ≡ some a)

-- The indices are the numbers of elements that went in and out, and each cell from the first that is
-- not taken (`hand` is 1 while the consumer holds an element) holds its element.
pub record Shared {A : Type 0} (k : ℕ) (m : Queue A) (hand : ℕ) (log got : List A) : Type 0 where
  pub small : k ≤ 63
  pub mask : m.capacity_mask ≡ 2 ^ k - 1
  pub head_at : m.head ≡ length got % 2 ^ k
  pub tail_at : m.tail ≡ length log % 2 ^ k
  pub order : length got + hand ≤ length log
  pub room : length log < length got + 2 ^ k
  pub in_order : got ≡ take (length got) log
  pub cells :
      (i : ℕ) (a : A) → length got + hand ≤ i → get_elem? log i ≡ some a → m.buffer (i % 2 ^ k) ≡ a

pub record Inv {A : Type 0} (k : ℕ) (m : Queue A) (p : Producer A) (c : Consumer A)
    (log got : List A) : Type 0 where
  pub shared : Shared k m (in_hand c) log got
  pub producer_fresh : ProducerFresh k m log got p
  pub consumer_fresh : ConsumerFresh k m log got c
