-- ===== src/Spmc/Sequential.antt =====
-- `SPMCQueue` with `2 ^ k` slots, called by one thread at a time, is the bounded queue of `2 ^ k`
-- elements. Positions wrap at `2 ^ 64` here: this holds for any number of calls.
use native.Mathlib.Nat.{one-le-pow, pow-le-pow_right, mod-add-mod}
use cpp_concurrency_toolbox.Base.{
  ℕ, suc, ◌+◌, ◌-◌, ◌%◌, ◌^◌, ◌≤◌, ◌<◌, ◌≡◌, ◌≢◌, refl, true, false, none, List, [], ◌∷◌, ◌++◌,
  length, get_elem?, arith, wrap, wrap-mod, size_mod, bit_and, bit_and-mask, mod_injective, mod_lap,
  length-snoc, get_elem?-append, get_elem?-snoc, update, ◌==◌, Bool-cases, inl, inr, ap, sym, ◌∙◌,
}
use cpp_concurrency_toolbox.Spmc.{Queue, Slot, slot_of, construct, set_sequence, try_emplace}
use cpp_concurrency_toolbox.Fifo.{offer}

-- A place counted from the position after `h`, whether or not it has wrapped.
pub wrap_shift : (k h i : ℕ) → k ≤ 63 → (wrap (h + 1) + i) % 2 ^ k ≡ (h + suc i) % 2 ^ k
wrap_shift k h i small =
    sym (mod-add-mod (wrap (h + 1)) (2 ^ k) i)
    ∙ ap (λ t. (t + i) % 2 ^ k) (wrap-mod k (h + 1) (omega arith))
    ∙ mod-add-mod (h + 1) (2 ^ k) i
    ∙ ap (λ t. t % 2 ^ k) (omega arith)

module _ {A : Type 0} (k : ℕ) where
  abbrev pub cell : Queue A → ℕ → Slot A
  cell q position = q.slots (position % 2 ^ k)

  -- The queue stands for the elements `xs`, oldest first.
  pub record Holds (q : Queue A) (xs : List A) : Type 0 where
    pub two : 1 ≤ k
    pub small : k ≤ 63
    pub capacity : q.capacity ≡ 2 ^ k
    pub mask : q.mask ≡ 2 ^ k - 1
    pub head_in : q.head < size_mod
    pub tail_at : q.tail ≡ wrap (q.head + length xs)
    pub room : length xs ≤ 2 ^ k
    pub taken : (i : ℕ) → i < length xs → (cell q (q.head + i)).sequence ≡ wrap (q.head + i + 1)
    pub objects : (i : ℕ) → i < length xs → (cell q (q.head + i)).storage ≡ get_elem? xs i
    pub free :
        (i : ℕ) → length xs ≤ i → i < 2 ^ k → (cell q (q.head + i)).sequence ≡ wrap (q.head + i)
    pub raw : (i : ℕ) → length xs ≤ i → i < 2 ^ k → (cell q (q.head + i)).storage ≡ none

  module _ (q : Queue A) (xs : List A) (held : Holds q xs) where
    open held use {two, small, capacity, mask, head_in, tail_at, room, taken, objects, free, raw}

    capacity_bounds : (2 ≤ 2 ^ k) × (2 ^ k ≤ 2 ^ 63)
    capacity_bounds =
        (pow-le-pow_right {n = 2} (omega arith) two, pow-le-pow_right {n = 2} (omega arith) small)

    pub slot_of-mod : (position : ℕ) → slot_of q position ≡ position % 2 ^ k
    slot_of-mod position = ap (λ t. bit_and position t) mask ∙ bit_and-mask k position

    tail_slot : slot_of q q.tail ≡ (q.head + length xs) % 2 ^ k
    tail_slot =
        slot_of-mod q.tail
        ∙ ap (λ t. t % 2 ^ k) tail_at
        ∙ wrap-mod k (q.head + length xs) (omega arith)

    tail_free : length xs < 2 ^ k → (q.slots (slot_of q q.tail)).sequence ≡ q.tail
    tail_free more =
        ap (λ i. (q.slots i).sequence) tail_slot ∙ free (length xs) (omega arith) more ∙ sym tail_at

    -- With all slots taken the one at the tail is that of the oldest element. A capacity of one would
    -- take it for a free one.
    tail_taken : length xs ≡ 2 ^ k → (q.slots (slot_of q q.tail)).sequence ≢ q.tail
    tail_taken all same = absurd (
        omega (
          arith,
          taken 0 (omega (arith, one-le-pow k 2)),
          ap (λ (i : ℕ). (q.slots i).sequence) (tail_slot ∙ around),
          tail_at,
          capacity_bounds,
        ))
      where
        around : (q.head + length xs) % 2 ^ k ≡ (q.head + 0) % 2 ^ k
        around =
            ap (λ n. (q.head + n) % 2 ^ k) all
            ∙ mod_lap (2 ^ k) q.head
            ∙ ap (λ t. t % 2 ^ k) (omega arith)

    emplaced : A → Queue A
    emplaced a = record q {
      slots =
          update q.slots (slot_of q q.tail)
            (set_sequence (construct (q.slots (slot_of q q.tail)) a) (wrap (q.tail + 1)));
      tail = wrap (q.tail + 1);
    }

    emplaced-Holds : (a : A) → length xs < 2 ^ k → Holds (emplaced a) (xs ++ (a ∷ []))
    unfolding emplaced
    emplaced-Holds a more = record {
      two = two;
      small = small;
      capacity = capacity;
      mask = mask;
      head_in = head_in;
      tail_at = omega (arith, tail_at, length-snoc xs a);
      room = omega (arith, length-snoc xs a);
      taken = λ i below.
          ground (arith, length-snoc xs a, tail_slot, tail_at, taken i, other_slot i, same_slot i);
      objects = λ i below. ground (
        arith,
        length-snoc xs a,
        tail_slot,
        objects i,
        other_slot i,
        same_slot i,
        get_elem?-append xs (a ∷ []) i,
        get_elem?-snoc xs a,
      );
      free = λ i from to. ground (arith, length-snoc xs a, tail_slot, free i, other_slot i);
      raw = λ i from to. ground (arith, length-snoc xs a, tail_slot, raw i, other_slot i);
    }
      where
        other_slot :
            (i : ℕ)
            → i < 2 ^ k
            → (q.head + length xs) % 2 ^ k ≡ (q.head + i) % 2 ^ k
            → i ≡ length xs
        other_slot i below e = ground (
          arith,
          mod_injective (2 ^ k) (q.head + i) (q.head + length xs),
          mod_injective (2 ^ k) (q.head + length xs) (q.head + i),
        )

        same_slot : (i : ℕ) → i ≡ length xs → (q.head + i) % 2 ^ k ≡ (q.head + length xs) % 2 ^ k
        same_slot i e = ap (λ n. (q.head + n) % 2 ^ k) e

    pub try_emplace-refines :
        (a : A)
        → ((try_emplace q a).0 ≡ (offer (2 ^ k) xs a).0)
          × Holds (try_emplace q a).1 (offer (2 ^ k) xs a).1
    unfolding try_emplace offer emplaced
    try_emplace-refines a = elim (Bool-cases (length xs == 2 ^ k)) [
      | inl all ↦ rw (all, refused (ground arith)) (refl, held)
      | inr more ↦ rw (more, accepted (ground arith)) (refl, emplaced-Holds a (ground arith))
    ]
      where
        refused : length xs ≡ 2 ^ k → ((q.slots (slot_of q q.tail)).sequence == q.tail) ≡ false
        refused all = ground (arith, tail_taken all)

        accepted : length xs < 2 ^ k → ((q.slots (slot_of q q.tail)).sequence == q.tail) ≡ true
        accepted more = ground (arith, tail_free more)
