-- ===== src/Overwrite/Alone/Ring.antt =====
-- What the ring of `SPMCOverwriteQueue` holds after a sequence of calls of `publish`.
use cpp_concurrency_toolbox.Base.{
  ℕ, ◌+◌, ◌-◌, ◌*◌, ◌%◌, ◌^◌, ◌≤◌, ◌<◌, ◌≡◌, ◌≢◌, inl, inr, refl, true, false, Option, none, some,
  List, [], ◌∷◌, ◌++◌, length, get_elem?, arith, ◌==◌, Bool-cases, wrap, bit_and, bit_and-mask,
  mod_injective, mod_lap, snoc-cases, length-snoc, append_snoc, append_nil, ap, sym, subst, ◌∙◌,
}
use cpp_concurrency_toolbox.Overwrite.{Slot, Queue, slot_of}
use cpp_concurrency_toolbox.Overwrite.Alone.{mark_next, store_item, publish, publish_all}

module _ {B : Type 0} (width : ℕ) where
  -- A slot with the item of a position, or marked for ever since its constructor has thrown.
  abbrev pub Shows : Slot B → ℕ → Option (ℕ → B) → Type 0
  Shows s pos none = s.seq ≡ 2 * pos + 1
  Shows s pos (some item) = (s.seq ≡ 2 * pos) × ((i : ℕ) → i < width → s.data_bytes i ≡ item i)

  Shows-low :
      (s : Slot B) (pos : ℕ) (entry : Option (ℕ → B)) → Shows s pos entry → s.seq ≤ 2 * pos + 1
  Shows-low s pos none shows = omega arith
  Shows-low s pos (some item) (shows, bytes) = omega arith

  -- The ring has `2 ^ k` slots and `history` has been published, positions counting from 1.
  pub record Holds (k : ℕ) (q : Queue B) (history : List (Option (ℕ → B))) : Type 0 where
    pub two : 1 ≤ k
    pub capacity : q.capacity ≡ 2 ^ k
    pub mask : q.mask ≡ 2 ^ k - 1
    pub write_at : q.write_pos ≡ length history
    pub held :
        (pos : ℕ) (entry : Option (ℕ → B))
        → 1 ≤ pos
        → get_elem? history (pos - 1) ≡ some entry
        → length history < pos + 2 ^ k
        → Shows (q.slots (slot_of q pos)) pos entry
    pub ahead :
        (pos : ℕ)
        → length history < pos
        → pos ≤ length history + 2 ^ k
        → (q.slots (slot_of q pos)).seq < 2 * pos

  pub slot_of-mod :
      {k : ℕ} {q : Queue B} {history : List (Option (ℕ → B))}
      → Holds k q history
      → (pos : ℕ) → slot_of q pos ≡ pos % 2 ^ k
  slot_of-mod {k} holds pos = ap (λ t. bit_and pos t) holds.mask ∙ bit_and-mask k pos

  module _ {k : ℕ} {q : Queue B} {history : List (Option (ℕ → B))} (holds : Holds k q history)
      (entry : Option (ℕ → B)) (at published : ℕ) (slots : ℕ → Slot B) where
    abbrev written : Queue B
    written = record {
      capacity = q.capacity;
      mask = q.mask;
      slots = slots;
      write_pos = at;
      published = published;
    }

    -- A new entry takes one slot, that of the position a lap before.
    write-Holds :
        at ≡ length history + 1
        → ((j : ℕ) → (slot_of q at == j) ≡ false → slots j ≡ q.slots j)
        → Shows (slots (slot_of q at)) at entry
        → Holds k written (history ++ (entry ∷ []))
    write-Holds next others shows = record {
      two = holds.two;
      capacity = holds.capacity;
      mask = holds.mask;
      write_at = omega (arith, next, length-snoc history entry);
      held = λ pos e least there near. elim (Bool-cases (slot_of q at == slot_of q pos)) [
        | inl same ↦ held_new pos e least there near same
        | inr other ↦ held_old pos e least there near other
      ];
      ahead = λ pos after near. elim (Bool-cases (slot_of q at == slot_of q pos)) [
        | inl same ↦ omega (
          arith,
          ap (λ (t : Slot B). t.seq) (taken pos same),
          Shows-low (slots (slot_of q at)) at entry shows,
          next,
          length-snoc history entry,
        )
        | inr other ↦ omega (
          arith,
          ap (λ (t : Slot B). t.seq) (others (slot_of q pos) other),
          holds.ahead pos (omega (arith, length-snoc history entry)) (in_lap pos other near),
        )
      ];
    }
      where
        same_mod : (pos : ℕ) → (slot_of q at == slot_of q pos) ≡ true → at % 2 ^ k ≡ pos % 2 ^ k
        same_mod pos same = ground (arith, slot_of-mod holds at, slot_of-mod holds pos)

        taken :
            (pos : ℕ)
            → (slot_of q at == slot_of q pos) ≡ true
            → slots (slot_of q at) ≡ slots (slot_of q pos)
        taken pos same = ap slots (ground arith)

        false_of : (pos : ℕ) → (slot_of q at == slot_of q pos) ≡ false → pos ≢ at
        false_of pos other e = ground arith

        in_lap :
            (pos : ℕ)
            → (slot_of q at == slot_of q pos) ≡ false
            → pos ≤ length (history ++ (entry ∷ [])) + 2 ^ k
            → pos ≤ length history + 2 ^ k
        in_lap pos other near = ground (
          arith,
          length-snoc history entry,
          slot_of-mod holds at,
          slot_of-mod holds pos,
          mod_lap (2 ^ k) at,
          next,
        )

        held_new :
            (pos : ℕ) (e : Option (ℕ → B))
            → 1 ≤ pos
            → get_elem? (history ++ (entry ∷ [])) (pos - 1) ≡ some e
            → length (history ++ (entry ∷ [])) < pos + 2 ^ k
            → (slot_of q at == slot_of q pos) ≡ true
            → Shows (written.slots (slot_of q pos)) pos e
        held_new pos e least there near same = elim (snoc-cases history entry (pos - 1) there) [
          | inl (lt, old) ↦ absurd (
              omega (
                arith,
                next,
                mod_injective (2 ^ k) pos at (omega (arith, next))
                    (omega (arith, next, length-snoc history entry)) (sym (same_mod pos same)),
              ))
          | inr (at_end, is) ↦
              subst (λ t. Shows t pos e) (taken pos same)
                (subst (λ t. Shows (slots (slot_of q at)) t e) (omega (arith, next))
                  (subst (Shows (slots (slot_of q at)) at) is shows))
        ]

        held_old :
            (pos : ℕ) (e : Option (ℕ → B))
            → 1 ≤ pos
            → get_elem? (history ++ (entry ∷ [])) (pos - 1) ≡ some e
            → length (history ++ (entry ∷ [])) < pos + 2 ^ k
            → (slot_of q at == slot_of q pos) ≡ false
            → Shows (written.slots (slot_of q pos)) pos e
        held_old pos e least there near other = elim (snoc-cases history entry (pos - 1) there) [
          | inl (lt, old) ↦
              subst (λ t. Shows t pos e) (sym (others (slot_of q pos) other))
                (holds.held pos e least old (omega (arith, length-snoc history entry)))
          | inr (at_end, is) ↦ absurd (false_of pos other (omega (arith, next)))
        ]

  module _ {k : ℕ} {q : Queue B} {history : List (Option (ℕ → B))} (holds : Holds k q history)
      (few : length history < 2 ^ 63 - 1) where
    next : wrap (q.write_pos + 1) ≡ length history + 1
    next = omega (arith, holds.write_at)

    stored-Holds :
        (item : ℕ → B) (published : ℕ)
        → Holds k
            (record (store_item width q item) { published = published })
            (history ++ (some item ∷ []))
    stored-Holds item published =
        write-Holds holds (some item) (wrap (q.write_pos + 1)) published
          (store_item width q item).slots next (λ j other. rw other refl)
          (ground (arith, next), λ i below. ground arith)

    pub store_item-Holds :
        (item : ℕ → B) → Holds k (store_item width q item) (history ++ (some item ∷ []))
    store_item-Holds item = stored-Holds item q.published

    pub publish-Holds :
        (entry : Option (ℕ → B)) → Holds k (publish width q entry) (history ++ (entry ∷ []))
    unfolding publish
    publish-Holds none =
        write-Holds holds none (wrap (q.write_pos + 1)) q.published (mark_next width q).slots next
          (λ j other. rw other refl) (ground (arith, next))
    publish-Holds (some item) = stored-Holds item (wrap (q.write_pos + 1))

  pub publish_all-Holds :
      {k : ℕ} (q : Queue B) (history entries : List (Option (ℕ → B)))
      → length history + length entries < 2 ^ 63
      → Holds k q history
      → Holds k (publish_all width q entries) (history ++ entries)
  publish_all-Holds {k} q history [] few holds = subst (Holds k q) (sym (append_nil history)) holds
  publish_all-Holds {k} q history (entry ∷ entries) few holds =
      subst (Holds k (publish_all width q (entry ∷ entries))) (append_snoc history entries entry) (
        publish_all-Holds (publish width q entry) (history ++ (entry ∷ [])) entries
          (omega (arith, length-snoc history entry)) (publish-Holds holds (omega arith) entry))
