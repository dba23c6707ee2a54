-- ===== src/Overwrite.antt =====
-- include/SPMCOverwriteQueue.h: `SPMCOverwriteQueue<T>`, a ring under a sequence lock. A payload is
-- `width` bytes, which `memcpy` moves one at a time; here are the data and what each operation
-- computes, and in `Overwrite.Steps` the accesses that the threads interleave.
mod Steps
mod Facts
mod ByProducer
mod Cursors
mod Alone
mod ByReader
mod Reading
mod Safety
mod Tests
use cpp_concurrency_toolbox.Base.{
  ℕ, ◌+◌, ◌-◌, ◌*◌, ◌/◌, ◌%◌, Bool, true, false, Option, none, some, ltb, leb, ◌==◌, bit_and,
  if◌then◌else◌, wrap, update, Result, ok, err, ◌>>=◌,
}
use cpp_concurrency_toolbox.Capacity.{check_and_round_overwrite}

-- `seq` is twice a position, plus one while that position is written.
pub record Slot (B : Type 0) : Type 0 where
  pub seq : ℕ
  pub data_bytes : ℕ → B

-- `write_pos` is the producer's own.
pub record Queue (B : Type 0) : Type 0 where
  pub capacity : ℕ
  pub mask : ℕ
  pub slots : ℕ → Slot B
  pub write_pos : ℕ
  pub published : ℕ

-- `Consumer`, the independent read cursor.
pub record Cursor : Type 0 where
  pub pos : ℕ
  pub missed : ℕ

pub data Status : Type 0 where
  ok_read empty lapped : Status

-- The sequence of a position that is being written, and of one that is there.
abbrev pub writing_seq : ℕ → ℕ
writing_seq pos = wrap (2 * pos) + 1

abbrev pub stable_seq : ℕ → ℕ
stable_seq pos = wrap (2 * pos)

-- The oldest position that the ring still holds, as far as `published` tells.
abbrev pub oldest : (capacity published : ℕ) → ℕ
oldest capacity published = if ltb capacity published then published - capacity + 1 else 1

abbrev pub move_to : Cursor → ℕ → Cursor
move_to c target =
    if ltb c.pos target
    then record { pos = target; missed = wrap (c.missed + (target - c.pos)) }
    else c

-- `Consumer::lapped_to`.
unfoldable pub lapped_to : (capacity published newest : ℕ) → Cursor → Cursor
lapped_to capacity published newest c =
    let target = oldest capacity published in
    move_to c (if leb target c.pos then newest else target)

-- What `try_read` decides from the sequence that it loads first.
pub data Verdict : Type 0 where
  nothing_new : Verdict
  overtaken : (newest : ℕ) → Verdict
  readable : Verdict

unfoldable pub verdict : (pos s1 : ℕ) → Verdict
verdict pos s1 =
    if s1 % 2 == 1
    then Verdict.nothing_new
    else if ltb (s1 / 2) pos
    then Verdict.nothing_new
    else if ltb pos (s1 / 2)
    then Verdict.overtaken (s1 / 2)
    else Verdict.readable

module _ {B : Type 0} where
  abbrev pub slot_of : Queue B → ℕ → ℕ
  slot_of q pos = bit_and pos q.mask

  unfoldable pub new : B → ℕ → Result (Queue B)
  new zero_byte capacity = check_and_round_overwrite capacity >>= λ c. ok (record {
    capacity = c;
    mask = c - 1;
    slots = λ i. record { seq = 0; data_bytes = λ j. zero_byte };
    write_pos = 0;
    published = 0;
  })

  -- `make_consumer`.
  abbrev pub make_consumer : Queue B → Cursor
  make_consumer q = record { pos = wrap (q.published + 1); missed = 0 }
