-- ===== src/Spmc/Destroy.antt =====
-- The destructor of `SPMCQueue` destroys the elements that are left, each once, and nothing else.
use native.Mathlib.Nat.{one-le-pow, pow-le-pow_right, mod-lt}
use native.Mathlib.Decide.{dec_lt}
use cpp_concurrency_toolbox.Base.{
  ℕ, zero, suc, ◌+◌, ◌-◌, ◌%◌, ◌^◌, ◌≤◌, ◌<◌, ◌≡◌, ◌≢◌, none, some, List, [], ◌∷◌, map, length,
  get_elem?, arith, wrap, size_mod, mod_injective, mod_covers, mod_lap, bit_and, bit_and-mask,
  update, ap, sym, ◌∙◌,
}
use cpp_concurrency_toolbox.Spmc.{Queue, Slot, slot_of, destroy, destroy_from, destructor}
use cpp_concurrency_toolbox.Spmc.Sequential.{wrap_shift, cell, Holds}

module _ {A : Type 0} (k : ℕ) where
  -- The walk stands at `pos`, with the elements `xs` still to destroy; no other slot has an object.
  record Walk (q : Queue A) (pos : ℕ) (xs : List A) : Type 0 where
    two : 1 ≤ k
    small : k ≤ 63
    mask : q.mask ≡ 2 ^ k - 1
    pos_in : pos < size_mod
    room : length xs ≤ 2 ^ k
    taken : (i : ℕ) → i < length xs → (cell k q (pos + i)).sequence ≡ wrap (pos + i + 1)
    objects : (i : ℕ) → i < length xs → (cell k q (pos + i)).storage ≡ get_elem? xs i
    raw : (i : ℕ) → length xs ≤ i → i < 2 ^ k → (cell k q (pos + i)).storage ≡ none

  Holds-Walk : (q : Queue A) (xs : List A) → Holds k q xs → Walk q q.head xs
  Holds-Walk q xs held = record {
    two = held.two;
    small = held.small;
    mask = held.mask;
    pos_in = held.head_in;
    room = held.room;
    taken = held.taken;
    objects = held.objects;
    raw = held.raw;
  }

  module _ (q : Queue A) (pos : ℕ) (x : A) (xs : List A) (walk : Walk q pos (x ∷ xs)) where
    open walk use {two, small, mask, pos_in, room, taken, objects, raw}

    abbrev at : ℕ
    at = slot_of q pos

    abbrev destroyed : Queue A
    destroyed = record q { slots = update q.slots at (destroy (q.slots at)) }

    pos_slot : at ≡ (pos + 0) % 2 ^ k
    pos_slot = ap (λ t. bit_and pos t) mask ∙ bit_and-mask k pos ∙ ap (λ t. t % 2 ^ k) (omega arith)

    found : (q.slots at).sequence ≡ wrap (pos + 1)
    found = ap (λ i. (q.slots i).sequence) pos_slot ∙ taken 0 (omega arith) ∙ omega arith

    object : (q.slots at).storage ≡ some x
    object = ap (λ i. (q.slots i).storage) pos_slot ∙ objects 0 (omega arith)

    not_at_end : pos ≢ wrap (pos + length (x ∷ xs))
    not_at_end = omega (arith, pow-le-pow_right {n = 2} (omega arith) small)

    later : (i : ℕ) → suc i < 2 ^ k → cell k destroyed (wrap (pos + 1) + i) ≡ cell k q (pos + suc i)
    later i within =
        ground
          (arith, wrap_shift k pos i small, pos_slot, mod_injective (2 ^ k) (pos + 0) (pos + suc i))

    last : (i : ℕ) → suc i ≡ 2 ^ k → (cell k destroyed (wrap (pos + 1) + i)).storage ≡ none
    last i e = ground (arith, wrap_shift k pos i small, pos_slot, around)
      where
        around : (pos + suc i) % 2 ^ k ≡ (pos + 0) % 2 ^ k
        around =
            ap (λ n. (pos + n) % 2 ^ k) e ∙ mod_lap (2 ^ k) pos ∙ ap (λ t. t % 2 ^ k) (omega arith)

    destroyed-Walk : Walk destroyed (wrap (pos + 1)) xs
    destroyed-Walk = record {
      two = two;
      small = small;
      mask = mask;
      pos_in = omega arith;
      room = omega arith;
      taken = λ i below.
          ap (λ s. s.sequence) (later i (omega arith)) ∙ omega (arith, taken (suc i) (omega arith));
      objects =
          λ i below. ap (λ s. s.storage) (later i (omega arith)) ∙ objects (suc i) (omega arith);
      raw = λ i from to. elim (dec_lt (suc i) (2 ^ k)) [
        | yes within ↦ ap (λ s. s.storage) (later i within) ∙ raw (suc i) (omega arith) within
        | no beyond ↦ last i (omega arith)
      ];
    }

  -- What the walk leaves: no slot has an object.
  abbrev pub IsRaw : (ℕ → Slot A) → Type 0
  IsRaw slots = (i : ℕ) → i < 2 ^ k → (slots i).storage ≡ none

  -- Every slot is within a lap of the walk.
  IsRaw-of_Walk : (q : Queue A) (pos : ℕ) → Walk q pos [] → IsRaw q.slots
  IsRaw-of_Walk q pos walk i below =
      ap (λ j. (q.slots j).storage) (sym (mod_covers (2 ^ k) pos i below))
      ∙ walk.raw ((i + 2 ^ k - pos % 2 ^ k) % 2 ^ k) (omega arith)
          (mod-lt _ (one-le-pow k 2 (omega arith)))

  destroy_from-Walk :
      (rounds : ℕ) (q : Queue A) (pos t : ℕ) (xs : List A)
      → length xs < rounds
      → t ≡ wrap (pos + length xs)
      → Walk q pos xs
      → (slots : ℕ → Slot A) × (destroy_from rounds pos t q ≡ some (map some xs, slots))
        × IsRaw slots
  unfolding destroy_from
  destroy_from-Walk zero q pos t xs enough e walk = absurd (omega arith)
  destroy_from-Walk (suc rounds) q pos t [] enough e walk =
      (q.slots, ground (arith, walk.pos_in), IsRaw-of_Walk q pos walk)
  destroy_from-Walk (suc rounds) q pos t (x ∷ xs) enough e walk =
      let (slots, rest, clean) =
        destroy_from-Walk rounds (destroyed q pos x xs walk) (wrap (pos + 1)) t xs (omega arith)
          (omega arith) (destroyed-Walk q pos x xs walk) in
      (
        slots,
        ground (
          arith,
          rest,
          found q pos x xs walk,
          object q pos x xs walk,
          not_at_end q pos x xs walk,
        ),
        clean,
      )

  -- The destructor ends. Of a queue that stands for `xs`, wrapped or not, it destroys the objects of
  -- `xs` in order, each once and all of them live, and afterwards no slot has an object.
  pub destructor-destroys :
      (q : Queue A) (xs : List A)
      → Holds k q xs
      → (slots : ℕ → Slot A) × (destructor q ≡ some (map some xs, slots)) × IsRaw slots
  unfolding destructor
  destructor-destroys q xs held =
      destroy_from-Walk (suc q.capacity) q q.head q.tail xs
        (omega (arith, held.room, held.capacity)) held.tail_at (Holds-Walk q xs held)
