-- ===== src/Spsc/Sequential.antt =====
-- `SPSCQueue` with `2 ^ k` cells, called by one thread at a time, is the bounded queue of
-- `2 ^ k - 1` elements.
use native.Mathlib.Nat.{one-le-pow, pow-le-pow_right, mod-lt, mod-eq_of_lt}
use cpp_concurrency_toolbox.Base.{
  ℕ, suc, ◌+◌, ◌-◌, ◌%◌, ◌^◌, ◌≤◌, ◌<◌, ◌≡◌, ◌≢◌, refl, ap, ◌∙◌, arith, List, [], ◌∷◌, ◌++◌, some,
  length, get_elem?, length-snoc, snoc-cases, update, sub_size, ok, err, capacity_not_power_of_two,
  bit_and-mask, wrap-mod, mod_injective, mod_lap, mod_next, mod_shift, sym, lt_of_get_elem?, false,
  Bool-cases, ◌==◌, inl, inr,
}
use cpp_concurrency_toolbox.Capacity.{has_single_bit}
use cpp_concurrency_toolbox.Capacity.SingleBit.{has_single_bit-IsPower}
use cpp_concurrency_toolbox.Spsc.{Queue, next_index, new, try_emplace, try_pop}
use cpp_concurrency_toolbox.Fifo.{Op, offer, poll, replies, Bounded}
use cpp_concurrency_toolbox.Fifo.Client.{run, run_refines}

pub next_index-mod : (k i : ℕ) → k ≤ 63 → next_index (2 ^ k - 1) i ≡ (i + 1) % 2 ^ k
next_index-mod k i small = bit_and-mask k _ ∙ wrap-mod k (i + 1) (omega arith)

-- The slot after the tail is the head exactly when all cells but one are taken.
ring_full : (c h n : ℕ) → h < c → n < c → ((h + n + 1) % c == h) ≡ (n == c - 1)
ring_full c h n in_range fits = elim (Bool-cases (n == c - 1)) [
  | inl last ↦ rw last (ground (arith, mod_lap c h, mod-eq_of_lt in_range, around))
  | inr free ↦ rw free (ground (arith, mod-eq_of_lt in_range, mod_injective c h (h + n + 1)))
]
  where
    around : n ≡ c - 1 → (h + n + 1) % c ≡ (h + c) % c
    around e = ap (λ t. t % c) (omega arith)

-- The head is the tail exactly when no cell is taken.
ring_empty : (c h n : ℕ) → h < c → n < c → (h == (h + n) % c) ≡ (n == 0)
ring_empty c h n in_range fits = elim (Bool-cases (n == 0)) [
  | inl none_left ↦ rw none_left (ground (arith, mod-eq_of_lt in_range, start))
  | inr more ↦ rw more (ground (arith, mod-eq_of_lt in_range, mod_injective c h (h + n)))
]
  where
    start : n ≡ 0 → (h + n) % c ≡ h % c
    start e = ap (λ t. t % c) (omega arith)

module _ {A : Type 0} (k : ℕ) where
  -- The ring stands for the elements `xs`, oldest first: they lie in the cells from `head` on.
  pub record Holds (q : Queue A) (xs : List A) : Type 0 where
    pub small : k ≤ 63
    pub mask : q.capacity_mask ≡ 2 ^ k - 1
    pub head_in : q.head < 2 ^ k
    pub tail_at : q.tail ≡ (q.head + length xs) % 2 ^ k
    pub room : length xs < 2 ^ k
    pub cells : (i : ℕ) (a : A) → get_elem? xs i ≡ some a → q.buffer ((q.head + i) % 2 ^ k) ≡ a

  module _ (q : Queue A) (xs : List A) (held : Holds q xs) where
    open held use {small, mask, head_in, tail_at, room, cells}

    next_tail : next_index q.capacity_mask q.tail ≡ (q.head + length xs + 1) % 2 ^ k
    next_tail = rw (mask, next_index-mod k q.tail small, tail_at) (mod_next (2 ^ k) _)

    full_iff : (next_index q.capacity_mask q.tail == q.head) ≡ (length xs == 2 ^ k - 1)
    full_iff = rw next_tail (ring_full (2 ^ k) q.head (length xs) head_in room)

    empty_iff : (q.head == q.tail) ≡ (length xs == 0)
    empty_iff = rw tail_at (ring_empty (2 ^ k) q.head (length xs) head_in room)

    cells-emplace :
        (a : A) (i : ℕ) (b : A)
        → length xs < 2 ^ k - 1
        → get_elem? (xs ++ (a ∷ [])) i ≡ some b
        → (update q.buffer q.tail a) ((q.head + i) % 2 ^ k) ≡ b
    cells-emplace a i b free at = elim (snoc-cases xs a i at) [
      | inl (old, e) ↦
          ground (arith, cells i b e, mod_injective (2 ^ k) (q.head + i) (q.head + length xs))
      | inr (new, e) ↦ ground (arith, ap (λ t. (q.head + t) % 2 ^ k) new)
    ]

    -- The elements behind the first, seen from the next head.
    cells-pop :
        (moved : A → A) (y : A) (ys : List A) (i : ℕ) (b : A)
        → xs ≡ y ∷ ys
        → get_elem? ys i ≡ some b
        → (update q.buffer q.head (moved (q.buffer q.head)))
            ((next_index q.capacity_mask q.head + i) % 2 ^ k)
          ≡ b
    cells-pop moved y ys i b e at = ground (
      arith,
      slot,
      mod_shift (2 ^ k) q.head i,
      cells (suc i) b (rw e at),
      mod_injective (2 ^ k) q.head (q.head + suc i),
      mod-eq_of_lt head_in,
      lt_of_get_elem? ys i at,
      ap length e,
    )
      where
        slot : next_index q.capacity_mask q.head ≡ (q.head + 1) % 2 ^ k
        slot = rw (mask, next_index-mod k q.head small)

    pub try_emplace-refines :
        (a : A)
        → ((try_emplace q a).0 ≡ (offer (2 ^ k - 1) xs a).0)
          × Holds (try_emplace q a).1 (offer (2 ^ k - 1) xs a).1
    unfolding try_emplace offer
    try_emplace-refines a = elim (Bool-cases (length xs == 2 ^ k - 1)) [
      | inl full ↦ rw (full_iff, full) (refl, held)
      | inr free ↦
          rw (full_iff, free)
            (
              refl,
              record {
                small = small;
                mask = mask;
                head_in = head_in;
                tail_at = next_tail ∙ ap (λ t. t % 2 ^ k) (omega (arith, length-snoc xs a));
                room = ground (arith, length-snoc xs a);
                cells = λ i b at. cells-emplace a i b (ground arith) at;
              },
            )
    ]

  pub try_pop-refines :
      (moved : A → A) (q : Queue A) (xs : List A)
      → Holds q xs
      → ((try_pop moved q).0 ≡ (poll xs).0) × Holds (try_pop moved q).1 (poll xs).1
  unfolding try_pop poll
  try_pop-refines moved q [] held = rw (empty_iff q [] held) (refl, held)
  try_pop-refines moved q (y ∷ ys) held = rw busy (
    first,
    record {
      small = small;
      mask = mask;
      head_in = rw next_head (mod-lt _ (one-le-pow k 2 (omega arith)));
      tail_at = rw next_head (tail_at ∙ sym (mod_shift (2 ^ k) q.head (length ys)));
      room = omega arith;
      cells = λ i b at. cells-pop q (y ∷ ys) held moved y ys i b refl at;
    },
  )
    where
      open held use {small, mask, head_in, tail_at, room, cells}

      busy : (q.head == q.tail) ≡ false
      busy = empty_iff q (y ∷ ys) held ∙ ground arith

      next_head : next_index q.capacity_mask q.head ≡ (q.head + 1) % 2 ^ k
      next_head = rw (mask, next_index-mod k q.head small)

      first : some (q.buffer q.head) ≡ some y
      first = ground (arith, cells 0 y refl, mod-eq_of_lt head_in, ap (λ t. t % 2 ^ k) here)
        where
          here : q.head + 0 ≡ q.head
          here = omega arith

module _ {A : Type 0} where
  abbrev pub empty : A → ℕ → Queue A
  empty default k = record { capacity_mask = 2 ^ k - 1; buffer = λ _. default; head = 0; tail = 0 }

  pub new-empty : (default : A) (k : ℕ) → k ≤ 63 → new default (2 ^ k) ≡ ok (empty default k)
  unfolding new
  new-empty default k small =
      rw ((has_single_bit-IsPower (2 ^ k)).1 (k, refl))
        (ap (λ m. ok (record (empty default k) { capacity_mask = m })) no_wrap)
    where
      no_wrap : sub_size (2 ^ k) 1 ≡ 2 ^ k - 1
      no_wrap = omega (arith, one-le-pow k 2, pow-le-pow_right {n = 2} (omega arith) small)

  pub empty-Holds : (default : A) (k : ℕ) → k ≤ 63 → Holds k (empty default k) []
  empty-Holds default k small = record {
    small = small;
    mask = refl;
    head_in = one-le-pow k 2 (omega arith);
    tail_at = sym (mod-eq_of_lt (one-le-pow k 2 (omega arith)));
    room = one-le-pow k 2 (omega arith);
    cells = λ i b at. absurd (cc);
  }

  -- `SPSCQueue` as an implementation of the bounded queue.
  abbrev pub implementation : (A → A) → (k : ℕ) → Bounded A (Queue A) (2 ^ k - 1)
  implementation moved k = record {
    try_emplace = try_emplace;
    try_pop = λ q. some (try_pop moved q);
    Holds = Holds k;
    emplace_refines = λ q xs a held. try_emplace-refines k q xs held a;
    pop_refines = try_pop-refines k moved;
  }

  -- A queue constructed with a capacity of `2 ^ k`, k at most 63, answers every sequence of
  -- `try_emplace` and `try_pop` as a first-in, first-out queue of at most `2 ^ k - 1` elements does,
  -- whatever a move leaves behind in the cells.
  pub new-run_refines :
      (default : A) (moved : A → A) (k : ℕ) (ops : List (Op A))
      → k ≤ 63
      → (q : Queue A) × (new default (2 ^ k) ≡ ok q)
        × (run (implementation moved k) q ops ≡ replies (2 ^ k - 1) [] ops)
  new-run_refines default moved k ops small = (
    _,
    new-empty default k small,
    run_refines (implementation moved k) ops _ [] (empty-Holds default k small),
  )

  -- The constructor throws for every capacity that is no power of two, 0 included.
  pub new_rejects :
      (default : A) (capacity : ℕ)
      → ((k : ℕ) → capacity ≢ 2 ^ k)
      → new default capacity ≡ err capacity_not_power_of_two
  unfolding new
  new_rejects default capacity never = elim (Bool-cases (has_single_bit capacity)) [
    | inl power ↦ let (k, e) = (has_single_bit-IsPower capacity).0 power in absurd (never k e)
    | inr other ↦ rw other
  ]
