-- ===== src/Overwrite/Cursors.antt =====
-- What `try_read` decides from a sequence, and where `lapped_to` moves the cursor.
use cpp_concurrency_toolbox.Base.{ℕ, ◌+◌, ◌*◌, ◌/◌, ◌^◌, ◌≤◌, ◌<◌, ◌≡◌, ◌⊎◌, arith}
use cpp_concurrency_toolbox.Overwrite.{Cursor, lapped_to, Verdict, verdict}

pub readable-seq : (pos s1 : ℕ) → verdict pos s1 ≡ Verdict.readable → s1 ≡ 2 * pos
unfolding verdict
readable-seq pos s1 e = ground arith

pub overtaken-seq :
    (pos s1 newest : ℕ)
    → verdict pos s1 ≡ Verdict.overtaken newest
    → (newest ≡ s1 / 2) × (pos < s1 / 2)
unfolding verdict
overtaken-seq pos s1 newest e = ground arith

-- A consumer that is overtaken moves on: whatever `published_` tells, its cursor moves forward, to a
-- position that is at most the newest published one or the one that the slot showed, and `missed`
-- grows by exactly the positions that it skips. The position is below 2 ^ 64 and the count below the
-- position.
pub lapped_to-advances :
    (capacity published newest : ℕ) (c : Cursor)
    → 1 ≤ capacity
    → 1 ≤ c.pos
    → c.missed < c.pos
    → c.pos < newest
    → newest < 2 ^ 64
    → published < 2 ^ 64
    → let c' = lapped_to capacity published newest c in
      (c.pos < c'.pos)
      × ((c'.pos ≤ newest) ⊎ (c'.pos ≤ published))
      × (c'.missed + c.pos ≡ c.missed + c'.pos)
unfolding lapped_to
lapped_to-advances capacity published newest c size least few ahead small_newest small_published =
    ground arith
