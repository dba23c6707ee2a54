-- ===== src/Overwrite/ByProducer.antt =====
-- A step of the producer of `SPMCOverwriteQueue` keeps the invariant.
use cpp_concurrency_toolbox.Base.{
  ℕ, suc, ◌+◌, ◌-◌, ◌*◌, ◌%◌, ◌^◌, ◌≤◌, ◌<◌, ◌≡◌, ◌⊎◌, inl, inr, refl, true, false, List, [], ◌∷◌,
  ◌++◌, length, get_elem?, arith, ◌==◌, Bool-cases, wrap, ap, sym, ◌∙◌, get_elem?-append,
  get_elem?-snoc, length-snoc, lt_of_get_elem?,
}
use cpp_concurrency_toolbox.Overwrite.{Queue, slot_of, writing_seq, stable_seq}
use cpp_concurrency_toolbox.Overwrite.Steps.{
  Producer, with_seq, with_byte, Publish, mark, copy_in, store_seq, store_published,
}
use cpp_concurrency_toolbox.Overwrite.Facts.{lead, Copied, seq_at, bytes_at, Slots}

module _ {B : Type 0} where
  -- What is published stays published.
  pub Copied-append :
      (log more : List (ℕ → B)) (pos k : ℕ) (bytes : ℕ → B)
      → Copied log pos k bytes
      → Copied (log ++ more) pos k bytes
  Copied-append log more pos k bytes (item, there, same) = (
    item,
    get_elem?-append log more (pos - 1) (lt_of_get_elem? log (pos - 1) there) ∙ there,
    same,
  )

module _ {B : Type 0} {width : ℕ} {m : Queue B} {log : List (ℕ → B)} where
  module _ (few : length log + 1 < 2 ^ 63) where
    mark-Slots :
        (tmp : ℕ → B) (pos : ℕ)
        → pos ≡ wrap (m.write_pos + 1)
        → Slots width m Producer.idle log
        → Slots width
            (record (with_seq m pos (writing_seq pos)) { write_pos = pos })
            (Producer.writing pos tmp 0)
            log
    mark-Slots tmp pos e inv = record {
      size = inv.size;
      bounded = λ p. elim (Bool-cases (slot_of m pos == slot_of m p)) [
        | inl same ↦ inr (refl, rw (same, seq_at) (omega (arith, next)), ground arith)
        | inr other ↦ rw (other, seq_at) (inl (ground (arith, inv.bounded p)))
      ];
      stable = λ p least at_p. elim (Bool-cases (slot_of m pos == slot_of m p)) [
        | inl same ↦ absurd (ground (arith, next))
        | inr other ↦ rw (other, bytes_at) (inv.stable p least (ground arith))
      ];
      write_at = next;
      published_at = inv.published_at;
      producer_fresh = (next, ground (arith, next), λ i none_below. absurd (omega arith));
    }
      where
        next : pos ≡ length log + 1
        next = omega (arith, inv.write_at)

    copy_in-Slots :
        (tmp : ℕ → B) (pos i : ℕ)
        → Slots width m (Producer.writing pos tmp i) log
        → Slots width (with_byte m pos i (tmp i)) (Producer.writing pos tmp (suc i)) log
    copy_in-Slots tmp pos i inv = record {
      size = inv.size;
      bounded = λ p. elim (Bool-cases (slot_of m pos == slot_of m p)) [
        | inl same ↦ rw (same, seq_at) (ground (arith, inv.bounded pos))
        | inr other ↦ rw (other, seq_at) (inv.bounded p)
      ];
      stable = λ p least at_p. elim (Bool-cases (slot_of m pos == slot_of m p)) [
        | inl same ↦ absurd (ground (arith, inv.producer_fresh.1))
        | inr other ↦ rw (other, bytes_at) (inv.stable p least (ground arith))
      ];
      write_at = inv.write_at;
      published_at = inv.published_at;
      producer_fresh = (
        inv.producer_fresh.0,
        ground (arith, inv.producer_fresh.1),
        λ j below. ground (arith, inv.producer_fresh.2 j),
      );
    }

    store_seq-Slots :
        (tmp : ℕ → B) (pos : ℕ)
        → Slots width m (Producer.writing pos tmp width) log
        → Slots width (with_seq m pos (stable_seq pos)) (Producer.stored pos) (log ++ (tmp ∷ []))
    store_seq-Slots tmp pos inv = record {
      size = inv.size;
      bounded = λ p. elim (Bool-cases (slot_of m pos == slot_of m p)) [
        | inl same ↦
            rw (same, seq_at)
              (inl (omega (arith, inv.producer_fresh.0, length-snoc log tmp), omega arith))
        | inr other ↦ rw (other, seq_at) (inl (others p other (inv.bounded p)))
      ];
      stable = λ p least at_p. elim (Bool-cases (slot_of m pos == slot_of m p)) [
        | inl same ↦
            rw (same, bytes_at)
              (
                tmp,
                ap (λ i. get_elem? (log ++ (tmp ∷ [])) i) (index p same at_p)
                    ∙ get_elem?-snoc log tmp,
                inv.producer_fresh.2,
              )
        | inr other ↦
            rw (other, bytes_at)
              (Copied-append log (tmp ∷ []) p width (bytes_at m p)
                (inv.stable p least (ground arith)))
      ];
      write_at = omega (arith, inv.write_at, length-snoc log tmp);
      published_at = omega (arith, inv.published_at, length-snoc log tmp);
      producer_fresh = omega (arith, inv.producer_fresh.0, length-snoc log tmp);
    }
      where
        index :
            (p : ℕ)
            → (slot_of m pos == slot_of m p) ≡ true
            → seq_at (with_seq m pos (stable_seq pos)) p ≡ 2 * p
            → p - 1 ≡ length log
        index p same at_p = ground (arith, inv.producer_fresh.0)

        others :
            (p : ℕ)
            → (slot_of m pos == slot_of m p) ≡ false
            → ((seq_at m p ≤ 2 * length log) × (seq_at m p % 2 ≡ 0))
              ⊎ ((lead (Producer.writing pos tmp width) ≡ 1)
                  × (seq_at m p ≡ 2 * length log + 3)
                  × (slot_of m p ≡ slot_of m m.write_pos))
            → (seq_at m p ≤ 2 * length (log ++ (tmp ∷ []))) × (seq_at m p % 2 ≡ 0)
        others p other (inl (le, even)) = (omega (arith, length-snoc log tmp), even)
        others p other (inr (one, odd, own)) = absurd (ground (arith, at_own))
          where
            at_own : slot_of m pos ≡ slot_of m m.write_pos
            at_own = ap (slot_of m) (inv.producer_fresh.0 ∙ sym inv.write_at)

  store_published-Slots :
      (pos : ℕ)
      → Slots width m (Producer.stored pos) log
      → Slots width (record m { published = pos }) Producer.idle log
  store_published-Slots pos inv = record {
    size = inv.size;
    bounded = λ p. ground (arith, inv.bounded p);
    stable = inv.stable;
    write_at = inv.write_at;
    published_at = omega (arith, inv.producer_fresh);
    producer_fresh = tt;
  }

  pub Publish-Slots :
      {m' : Queue B} {log' : List (ℕ → B)} {p p' : Producer B}
      → length log + 1 < 2 ^ 63
      → Publish width m log p m' log' p'
      → Slots width m p log
      → Slots width m' p' log'
  Publish-Slots few (mark tmp pos e) inv = mark-Slots few tmp pos e inv
  Publish-Slots few (copy_in {pos} {i} {tmp} below) inv = copy_in-Slots few tmp pos i inv
  Publish-Slots few (store_seq {pos} {tmp}) inv = store_seq-Slots few tmp pos inv
  Publish-Slots few (store_published {pos}) inv = store_published-Slots pos inv
