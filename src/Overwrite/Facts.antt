-- ===== src/Overwrite/Facts.antt =====
-- The invariant of the threads of `SPMCOverwriteQueue`. Positions do not wrap here: see
-- `Overwrite.Safety` for the bound.
use cpp_concurrency_toolbox.Base.{
  ℕ, ◌+◌, ◌-◌, ◌*◌, ◌%◌, ◌≤◌, ◌<◌, ◌≡◌, ◌⊎◌, Option, none, some, List, [], length, get_elem?,
}
use cpp_concurrency_toolbox.Overwrite.{Queue, Cursor, slot_of}
use cpp_concurrency_toolbox.Overwrite.Steps.{Producer, Reader}

-- A position whose sequence says that it is being written.
abbrev pub lead : {B : Type 0} → Producer B → ℕ
lead (Producer.writing pos tmp written) = 1
lead _ = 0

-- A position that is published and not yet counted in `published_`.
abbrev pub lag : {B : Type 0} → Producer B → ℕ
lag (Producer.stored pos) = 1
lag _ = 0

-- The first `k` bytes are those of the payload published at `pos`, which counts from 1.
abbrev pub Copied : {B : Type 0} → List (ℕ → B) → (pos k : ℕ) → (ℕ → B) → Type 0
Copied {B} log pos k bytes =
    (item : ℕ → B) × (get_elem? log (pos - 1) ≡ some item) × ((i : ℕ) → i < k → bytes i ≡ item i)

module _ {B : Type 0} (m : Queue B) where
  abbrev pub seq_at : ℕ → ℕ
  seq_at pos = (m.slots (slot_of m pos)).seq

  abbrev pub bytes_at : ℕ → ℕ → B
  bytes_at pos = (m.slots (slot_of m pos)).data_bytes

module _ {B : Type 0} (width : ℕ) (m : Queue B) (log : List (ℕ → B)) where
  -- What the locals of the producer say about shared memory.
  abbrev pub ProducerFresh : Producer B → Type 0
  ProducerFresh Producer.idle = Unit
  ProducerFresh (Producer.writing pos tmp written) =
      (pos ≡ length log + 1)
      × (seq_at m pos ≡ 2 * pos + 1)
      × ((i : ℕ) → i < written → bytes_at m pos i ≡ tmp i)
  ProducerFresh (Producer.stored pos) = pos ≡ length log

  abbrev pub CursorIn : Cursor → Type 0
  CursorIn c = (1 ≤ c.pos) × (c.pos ≤ length log + 1) × (c.missed < c.pos)

  -- What the locals of the consumer say. Once the sequence of its slot has changed it never comes
  -- back to what was loaded first.
  abbrev pub ReaderFresh : Reader B → Type 0
  ReaderFresh Reader.unborn = Unit
  ReaderFresh (Reader.between c) = CursorIn c
  ReaderFresh (Reader.loaded c s1) =
      CursorIn c
      × (s1 ≤ 2 * length log + 3)
      × (s1 ≡ 2 * c.pos → (c.pos ≤ length log) × (2 * c.pos ≤ seq_at m c.pos))
  ReaderFresh (Reader.copying c s1 out read) =
      CursorIn c
      × (s1 ≡ 2 * c.pos)
      × (c.pos ≤ length log)
      × (2 * c.pos ≤ seq_at m c.pos)
      × (seq_at m c.pos ≡ 2 * c.pos → Copied log c.pos read out)
  ReaderFresh (Reader.lapping c newest) = CursorIn c × (c.pos < newest) × (newest ≤ length log + 1)

-- The slots: a sequence that is even says whose payload is there.
pub record Slots {B : Type 0} (width : ℕ) (m : Queue B) (p : Producer B) (log : List (ℕ → B))
    : Type 0 where
  pub size : 1 ≤ m.capacity
  pub bounded :
      (pos : ℕ)
      → ((seq_at m pos ≤ 2 * length log) × (seq_at m pos % 2 ≡ 0))
        ⊎ ((lead p ≡ 1)
            × (seq_at m pos ≡ 2 * length log + 3)
            × (slot_of m pos ≡ slot_of m m.write_pos))
  pub stable : (pos : ℕ) → 1 ≤ pos → seq_at m pos ≡ 2 * pos → Copied log pos width (bytes_at m pos)
  pub write_at : m.write_pos ≡ length log + lead p
  pub published_at : m.published + lag p ≡ length log
  pub producer_fresh : ProducerFresh width m log p

-- What has been delivered: payloads that were published, at positions that increase.
pub record Delivered {B : Type 0} (width : ℕ) (log : List (ℕ → B)) (got : List (ℕ × (ℕ → B)))
    : Type 0 where
  pub intact : (i p : ℕ) (out : ℕ → B) → get_elem? got i ≡ some (p, out) → Copied log p width out
  pub ordered :
      (i j p q : ℕ) (out next : ℕ → B)
      → i < j
      → get_elem? got i ≡ some (p, out)
      → get_elem? got j ≡ some (q, next)
      → p < q

abbrev pub cursor : {B : Type 0} → Reader B → Option Cursor
cursor Reader.unborn = none
cursor (Reader.between c) = some c
cursor (Reader.loaded c s1) = some c
cursor (Reader.copying c s1 out read) = some c
cursor (Reader.lapping c newest) = some c

-- What has been delivered lies before the cursor.
abbrev pub Passed : {B : Type 0} → List (ℕ × (ℕ → B)) → Option Cursor → Type 0
Passed got none = got ≡ []
Passed {B} got (some c) = (i p : ℕ) (out : ℕ → B) → get_elem? got i ≡ some (p, out) → p < c.pos

-- Since a consumer stood at `c₀` with `n₀` deliveries, its cursor has moved by the deliveries and the
-- misses that it has counted.
abbrev pub Balanced : {B : Type 0} → Cursor → ℕ → List (ℕ × (ℕ → B)) → Option Cursor → Type 0
Balanced c₀ n₀ got none = ⊥
Balanced c₀ n₀ got (some c) =
    (c.pos + n₀ + c₀.missed ≡ c₀.pos + length got + c.missed) × (c₀.missed ≤ c.missed)
