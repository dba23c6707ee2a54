-- ===== src/Overwrite/Alone/Answers.antt =====
-- What `try_read` of `SPMCOverwriteQueue` answers between calls of `publish`, and in between the last two
-- stores of one.
use native.Mathlib.Nat.{one-le-pow}
use cpp_concurrency_toolbox.Base.{
  ℕ, ◌+◌, ◌-◌, ◌*◌, ◌%◌, ◌^◌, ◌≤◌, ◌<◌, ◌≡◌, refl, Option, none, some, List, length, get_elem?,
  arith, ap, sym, ◌∙◌, mod_latest,
}
use cpp_concurrency_toolbox.Overwrite.{Queue, Cursor, Status, lapped_to, Verdict, verdict, slot_of}
use cpp_concurrency_toolbox.Overwrite.Alone.{copied, act_on, try_read}
use cpp_concurrency_toolbox.Overwrite.Alone.Ring.{Holds, slot_of-mod}

readable_now : (pos : ℕ) → verdict pos (2 * pos) ≡ Verdict.readable
unfolding verdict
readable_now pos = ground arith

nothing_now : (pos seq : ℕ) → seq < 2 * pos → verdict pos seq ≡ Verdict.nothing_new
unfolding verdict
nothing_now pos seq low = ground arith

marked_now : (pos at : ℕ) → verdict pos (2 * at + 1) ≡ Verdict.nothing_new
unfolding verdict
marked_now pos at = ground arith

overtaken_now : (pos at : ℕ) → pos < at → verdict pos (2 * at) ≡ Verdict.overtaken at
unfolding verdict
overtaken_now pos at before = ground arith

module _ {B : Type 0} (width : ℕ) where
  -- `try_read` returns `Ok`: the item is in `out`, byte for byte, the rest of `out` is as it was, and
  -- the cursor stands at the next position.
  abbrev pub Reads : Status × Cursor × (ℕ → B) → Cursor → (ℕ → B) → (ℕ → B) → Type 0
  Reads r c out item =
      (r.0 ≡ Status.ok_read)
      × (r.1 ≡ record c { pos = c.pos + 1 })
      × ((i : ℕ) → i < width → r.2 i ≡ item i)
      × ((i : ℕ) → width ≤ i → r.2 i ≡ out i)

  module _ (q : Queue B) (c : Cursor) (out : ℕ → B) where
    finds_nothing :
        verdict c.pos (q.slots (slot_of q c.pos)).seq ≡ Verdict.nothing_new
        → try_read width q c out ≡ (Status.empty, c, out)
    unfolding try_read
    finds_nothing e = ap (act_on width q c out (q.slots (slot_of q c.pos)).seq) e

    finds_lap :
        (newest : ℕ)
        → verdict c.pos (q.slots (slot_of q c.pos)).seq ≡ Verdict.overtaken newest
        → try_read width q c out ≡ (Status.lapped, lapped_to q.capacity q.published newest c, out)
    unfolding try_read
    finds_lap newest e = ap (act_on width q c out (q.slots (slot_of q c.pos)).seq) e

    finds_item :
        verdict c.pos (q.slots (slot_of q c.pos)).seq ≡ Verdict.readable
        → c.pos < 2 ^ 63
        → try_read width q c out ≡ (
          Status.ok_read,
          record c { pos = c.pos + 1 },
          copied width (q.slots (slot_of q c.pos)).data_bytes out,
        )
    unfolding try_read
    finds_item e small = ap (act_on width q c out (q.slots (slot_of q c.pos)).seq) e ∙ ground arith

    module _ {k : ℕ} {history : List (Option (ℕ → B))} (holds : Holds width k q history)
        (few : length history + 1 < 2 ^ 63) (least : 1 ≤ c.pos) where
      pub held-Reads :
          (item : ℕ → B)
          → get_elem? history (c.pos - 1) ≡ some (some item)
          → length history < c.pos + 2 ^ k
          → c.pos ≤ length history
          → Reads (try_read width q c out) c out item
      held-Reads item there near le =
          let (seq, bytes) = holds.held c.pos (some item) least there near in
          let found = finds_item (ap (verdict c.pos) seq ∙ readable_now c.pos) (omega arith) in
          rw found (refl, refl, λ i below. ground (arith, bytes i), λ i past. ground arith)

      pub broken-empty :
          get_elem? history (c.pos - 1) ≡ some none
          → length history < c.pos + 2 ^ k
          → try_read width q c out ≡ (Status.empty, c, out)
      broken-empty there near =
          finds_nothing
            (ap (verdict c.pos) (holds.held c.pos none least there near) ∙ marked_now c.pos c.pos)

      pub ahead-empty : c.pos ≡ length history + 1 → try_read width q c out ≡ (Status.empty, c, out)
      ahead-empty next = finds_nothing (
          nothing_now c.pos (q.slots (slot_of q c.pos)).seq
            (holds.ahead c.pos (omega arith) (omega (arith, one-le-pow k 2))))

      -- The slot of a position that is a lap or more behind holds a later one.
      pub behind-lapped :
          ((p : ℕ)
            → 1 ≤ p
            → p ≤ length history
            → (item : ℕ → B) × (get_elem? history (p - 1) ≡ some (some item)))
          → c.pos + 2 ^ k ≤ length history
          → (newest : ℕ) × (c.pos < newest)
            × (newest ≤ length history)
            × (length history < newest + 2 ^ k)
            × (newest % 2 ^ k ≡ c.pos % 2 ^ k)
            × (try_read width q c out
                ≡ (Status.lapped, lapped_to q.capacity q.published newest c, out))
      behind-lapped items far =
          let (p, after, le, near, same) =
            mod_latest (2 ^ k) c.pos (length history) (one-le-pow k 2 (omega arith))
              (omega arith) in
          let (item, there) = items p (omega arith) le in
          let (seq, bytes) = holds.held p (some item) (omega arith) there near in
          let one_slot : slot_of q p ≡ slot_of q c.pos =
            slot_of-mod width holds p ∙ same ∙ sym (slot_of-mod width holds c.pos) in
          (
            p,
            omega arith,
            le,
            near,
            same,
            finds_lap p (
                ap (λ i. verdict c.pos (q.slots i).seq) (sym one_slot)
                ∙ ap (verdict c.pos) seq
                ∙ overtaken_now c.pos p (omega arith)),
          )
