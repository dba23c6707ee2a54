-- ===== src/Broadcast/Gate.antt =====
-- When `try_publish` of `SPMCBroadcastQueue` refuses: the scan of the cursors and the cached minimum.
use cpp_concurrency_toolbox.Base.{
  ℕ, zero, suc, ◌+◌, ◌^◌, ◌≤◌, ◌<◌, ◌≡◌, ◌↔◌, inl, inr, refl, Bool, true, false, arith, Bool-cases,
  ltb, ◌==◌, ap,
}
use cpp_concurrency_toolbox.Broadcast.{
  Queue, looks_full, slot_of, put, min_cursor, try_publish, backlog_approx,
}

pub min_cursor-lower :
    (cursors : ℕ → ℕ) (last i : ℕ) → i ≤ last → min_cursor cursors last ≤ cursors i
unfolding min_cursor
min_cursor-lower cursors zero i le = omega (arith, ap cursors (zero_of i le))
  where
    zero_of : (i : ℕ) → i ≤ 0 → i ≡ 0
    zero_of i le = omega arith
min_cursor-lower cursors (suc n) i le = elim (Bool-cases (i == suc n)) [
  | inl same ↦ ground arith
  | inr other ↦ ground (arith, min_cursor-lower cursors n i (ground arith))
]

pub min_cursor-attained :
    (cursors : ℕ → ℕ) (last : ℕ) → (i : ℕ) × (i ≤ last) × (min_cursor cursors last ≡ cursors i)
unfolding min_cursor
min_cursor-attained cursors zero = (0, omega arith, refl)
min_cursor-attained cursors (suc n) =
    let (i, le, e) = min_cursor-attained cursors n in
    elim (Bool-cases (ltb (cursors (suc n)) (min_cursor cursors n))) [
      | inl less ↦ (suc n, omega arith, ground arith)
      | inr more ↦ (i, omega arith, ground arith)
    ]

-- No consumer is ahead of the tail or more than the capacity behind it, and none is behind the cached
-- minimum.
pub record Gate {A : Type 0} (last : ℕ) (q : Queue A) : Type 0 where
  pub some_slot : 1 ≤ q.capacity
  pub behind : (i : ℕ) → i ≤ last → q.cursors i ≤ q.tail
  pub room : (i : ℕ) → i ≤ last → q.tail ≤ q.cursors i + q.capacity
  pub cached : (i : ℕ) → i ≤ last → q.cached_min ≤ q.cursors i

module _ {A : Type 0} (last : ℕ) (q : Queue A) (a : A) (gate : Gate last q)
    (small : q.tail < 2 ^ 63) where
  abbrev pub HasRoom : Type 0
  HasRoom = (i : ℕ) → i ≤ last → q.tail < q.cursors i + q.capacity

  abbrev seen : Queue A
  seen = record q { cached_min = min_cursor q.cursors last }

  -- A minimum that looks free gives every consumer's slot.
  pub free-HasRoom :
      (least : ℕ)
      → ((i : ℕ) → i ≤ last → least ≤ q.cursors i)
      → looks_full q q.tail least ≡ false
      → HasRoom
  free-HasRoom least lower free i le = ground (arith, lower i le, gate.behind i le)

  pub full-blocked : looks_full q q.tail (min_cursor q.cursors last) ≡ true → ¬ HasRoom
  full-blocked full has_room =
      let (i, le, e) = min_cursor-attained q.cursors last in
      absurd (ground (arith, has_room i le, gate.behind i le))

  -- What a call reports and leaves behind.
  abbrev pub Decided : Bool → Queue A → Type 0
  Decided b q' =
      ((b ≡ true) ↔ HasRoom)
      × (b ≡ true → (q'.tail ≡ q.tail + 1) × (q'.slots (slot_of q q.tail) ≡ a))
      × (b ≡ false → (q'.tail ≡ q.tail) × (q'.slots ≡ q.slots))
      × Gate last q'

  put-Decided :
      (least : ℕ)
      → ((i : ℕ) → i ≤ last → least ≤ q.cursors i)
      → HasRoom
      → Decided true (put (record q { cached_min = least }) a)
  put-Decided least lower has_room = (
    (λ e. has_room, λ h. refl),
    λ e. (omega arith, ground arith),
    λ e. absurd (cc),
    record {
      some_slot = gate.some_slot;
      behind = λ i le. omega (arith, gate.behind i le);
      room = λ i le. omega (arith, has_room i le);
      cached = lower;
    },
  )

  -- `try_publish` is exact: with no call running in another thread, in a queue in which no consumer is
  -- ahead of the tail, more than the capacity behind it, or behind the cached minimum, it returns
  -- true exactly if every consumer is less than the capacity behind; then the item is in the slot of
  -- the old tail and the tail is one further, and otherwise the tail and the slots are as they were;
  -- and the new state is such a queue again. The tail is below 2 ^ 63.
  pub try_publish-decides : Decided (try_publish last q a).0 (try_publish last q a).1
  unfolding try_publish
  try_publish-decides = elim (Bool-cases (looks_full q q.tail q.cached_min)) [
    | inr free ↦
        rw free (put-Decided q.cached_min gate.cached (free-HasRoom q.cached_min gate.cached free))
    | inl full ↦ rw full (elim (Bool-cases (looks_full q q.tail (min_cursor q.cursors last))) [
      | inr free ↦ rw free (
          put-Decided (min_cursor q.cursors last) (min_cursor-lower q.cursors last)
            (free-HasRoom (min_cursor q.cursors last) (min_cursor-lower q.cursors last) free))
      | inl still_full ↦ rw still_full (
        (λ e. absurd (cc), λ h. absurd (full-blocked still_full h)),
        λ e. absurd (cc),
        λ e. (refl, refl),
        record {
          some_slot = gate.some_slot;
          behind = gate.behind;
          room = gate.room;
          cached = min_cursor-lower q.cursors last;
        },
      )
    ])
  ]

-- `backlog_approx` is how far the slowest consumer is behind: some consumer is that far behind and
-- none further, in a queue in which no consumer is ahead of the tail and the tail is below 2 ^ 63,
-- with no call running in another thread.
pub backlog-slowest :
    {A : Type 0} (last : ℕ) (q : Queue A)
    → ((i : ℕ) → i ≤ last → q.cursors i ≤ q.tail)
    → q.tail < 2 ^ 63
    → ((i : ℕ) × (i ≤ last) × (q.cursors i + backlog_approx last q ≡ q.tail))
      × ((i : ℕ) → i ≤ last → q.tail ≤ q.cursors i + backlog_approx last q)
unfolding backlog_approx
backlog-slowest last q behind small =
    let (i, le, e) = min_cursor-attained q.cursors last in
    (
      (i, le, omega (arith, behind i le)),
      λ j le_j. omega (arith, min_cursor-lower q.cursors last j le_j, behind i le),
    )
