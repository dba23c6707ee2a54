-- ===== src/Spmc.antt =====
-- include/SPMCLockFreeQueue.h: `SPMCQueue<T>`, one producer and competing consumers, with a sequence
-- number in each slot. Here are the constructor, the destructor and each operation as one caller sees
-- it; the steps that the threads interleave are in `Spmc.Steps`.
pub mod Steps
pub mod Sequential
pub mod Pop
pub mod Facts
pub mod Claim
pub mod Release
pub mod Publish
pub mod Start
pub mod Refine
pub mod Destroy
pub mod Safety
pub mod Parking
mod SizeHint
mod Solo
mod Tests
pub mod ByProducer
pub mod ByConsumer
use cpp_concurrency_toolbox.Base.{
  ℕ, zero, suc, ◌+◌, ◌-◌, ◌*◌, ◌^◌, Bool, true, false, Option, none, some, List, [], ◌∷◌, ◌==◌, ltb,
  bit_and, if◌then◌else◌, wrap, sub_size, update, Result, ok, err, ◌>>=◌,
}
use Prim.Native.String.{String}
use cpp_concurrency_toolbox.Capacity.{check_and_round_spmc}

-- `detail::Slot<T>`. The storage holds an object or is raw memory.
pub record Slot (A : Type 0) : Type 0 where
  pub sequence : ℕ
  pub storage : Option A

pub record Queue (A : Type 0) : Type 0 where
  pub capacity : ℕ
  pub mask : ℕ
  pub slots : ℕ → Slot A
  pub head : ℕ
  pub tail : ℕ

pub data QueueError : Type 0 where
  empty full : QueueError

-- `to_string(QueueError)`.
pub to_string : QueueError → String
to_string empty = "Empty"
to_string full = "Full"

-- `std::expected<T, QueueError>`.
pub data Expected (A : Type 0) : Type 0 where
  value : A → Expected A
  unexpected : QueueError → Expected A

-- `position & mask_`.
abbrev pub slot_of : {A : Type 0} → Queue A → ℕ → ℕ
slot_of q position = bit_and position q.mask

-- `size_t(-1) / 2`: a larger difference is a negative one that has wrapped.
abbrev pub half_range : ℕ
half_range = 2 ^ 63 - 1

-- What one round of the loop of `try_pop` comes to.
pub data Round (A : Type 0) : Type 0 where
  popped : Option A → Queue A → Round A
  nothing : Round A
  retry : ℕ → Round A

-- The bytes that `allocate_slots` asks `operator new` for; `slot_size` is `sizeof(Slot<T>)`.
abbrev pub allocation_size : (slot_size n : ℕ) → ℕ
allocation_size slot_size n = wrap (n * slot_size)

module _ {A : Type 0} where
  -- `Slot::construct`, `Slot::destroy` and `Slot::move_out`; there is nothing to move out of raw
  -- memory.
  abbrev pub construct : Slot A → A → Slot A
  construct s a = record s { storage = some a }

  abbrev pub destroy : Slot A → Slot A
  destroy s = record s { storage = none }

  abbrev pub set_sequence : Slot A → ℕ → Slot A
  set_sequence s n = record s { sequence = n }

  -- The loop of `allocate_slots`, where `operator new` gives room for all the slots.
  abbrev pub allocate_slots : ℕ → Slot A
  allocate_slots _ = record { sequence = 0; storage = none }

  -- The loop of the constructor, over the slots below `n`.
  pub number_slots : ℕ → (ℕ → Slot A) → ℕ → Slot A
  number_slots zero slots = slots
  number_slots (suc n) slots =
      let before = number_slots n slots in update before n (set_sequence (before n) n)

  -- The constructor.
  pub new : ℕ → Result (Queue A)
  unfolding number_slots
  new requested = do
    capacity ← check_and_round_spmc requested
    ok (record {
      capacity = capacity;
      mask = sub_size capacity 1;
      slots = number_slots capacity allocate_slots;
      head = 0;
      tail = 0;
    })

  pub try_emplace : Queue A → A → Bool × Queue A
  try_emplace q a =
      let t = q.tail in
      let i = slot_of q t in
      let seq = (q.slots i).sequence in
      if seq == t
      then (
        true,
        record q {
          slots = update q.slots i (set_sequence (construct (q.slots i) a) (wrap (t + 1)));
          tail = wrap (t + 1);
        },
      )
      else (false, q)

  -- One round with the local `h`. `spurious`: `compare_exchange_weak` fails without cause.
  pub pop_round : Queue A → ℕ → Bool → Round A
  pop_round q h spurious =
      let i = slot_of q h in
      let diff = sub_size (q.slots i).sequence (wrap (h + 1)) in
      if diff == 0
      then (if spurious
          then retry q.head
          else if q.head == h
          then popped (q.slots i).storage (record q {
            slots = update q.slots i (set_sequence (destroy (q.slots i)) (wrap (h + q.capacity)));
            head = wrap (h + 1);
          })
          else retry q.head)
      else if ltb half_range diff
      then nothing
      else retry q.head

  -- The loop, over what the weak exchange of each round does; `none` if the rounds run out.
  pub pop_loop : List Bool → ℕ → Queue A → Option (Option A × Queue A)
  pop_loop [] h q = none
  pop_loop (spurious ∷ weak) h q = elim (pop_round q h spurious) [
    | popped a q' ↦ some (a, q')
    | nothing ↦ some (none, q)
    | retry h' ↦ pop_loop weak h' q
  ]

  pub try_pop : List Bool → Queue A → Option (Option A × Queue A)
  unfolding pop_loop pop_round
  try_pop weak q = pop_loop weak q.head q

  pub expect : Option A → Expected A
  expect none = unexpected empty
  expect (some a) = value a

  pub try_pop_expected : List Bool → Queue A → Option (Expected A × Queue A)
  unfolding try_pop expect
  try_pop_expected weak q = elim (try_pop weak q) [
    | none ↦ none
    | some (a, q') ↦ some (expect a, q')
  ]

  -- `size_approx` loads `head_` and then `tail_`: the queue as it is at each of the two loads.
  pub size_approx : (at_head at_tail : Queue A) → ℕ
  size_approx at_head at_tail = sub_size at_tail.tail at_head.head

  pub is_empty : (at_head at_tail : Queue A) → Bool
  unfolding size_approx
  is_empty at_head at_tail = size_approx at_head at_tail == 0

  -- The walk of the destructor from `pos` to `t`, with the objects that it destroys; `none` if the
  -- rounds run out.
  pub destroy_from : ℕ → ℕ → ℕ → Queue A → Option (List (Option A) × (ℕ → Slot A))
  destroy_from zero pos t q = none
  destroy_from (suc rounds) pos t q =
      let i = slot_of q pos in
      let s = q.slots i in
      let skipped = destroy_from rounds (wrap (pos + 1)) t q in
      let rest =
        destroy_from rounds (wrap (pos + 1)) t
          (record q { slots = update q.slots i (destroy s) }) in
      if pos == t
      then some ([], q.slots)
      else if s.sequence == wrap (pos + 1)
      then elim rest [ none ↦ none | some (objects, slots) ↦ some (s.storage ∷ objects, slots) ]
      else skipped

  -- The destructor, up to the release of the memory.
  pub destructor : Queue A → Option (List (Option A) × (ℕ → Slot A))
  unfolding destroy_from
  destructor q = destroy_from (suc q.capacity) q.head q.tail q
