-- ===== src/Overwrite/Reading.antt =====
-- A step of the consumer of `SPMCOverwriteQueue` keeps the invariant.
use cpp_concurrency_toolbox.Base.{
  ℕ, suc, ◌+◌, ◌-◌, ◌*◌, ◌/◌, ◌^◌, ◌≤◌, ◌<◌, ◌≡◌, ◌≢◌, inl, inr, Option, some, List, [], ◌∷◌, ◌++◌,
  length, get_elem?, get_elem?-some, snoc-cases, get_elem?-append, arith, update, ◌==◌, Bool-cases,
  wrap, subst, ap, sym, ◌∙◌, length-snoc, lt_of_get_elem?,
}
use cpp_concurrency_toolbox.Overwrite.{Queue, Cursor, lapped_to, make_consumer}
use cpp_concurrency_toolbox.Overwrite.Steps.{
  Producer, Reader, Read, subscribe, load_seq, find_empty, find_lapped, begin_copy, copy_out,
  accept, find_torn, resume,
}
use cpp_concurrency_toolbox.Overwrite.Facts.{
  Copied, seq_at, bytes_at, CursorIn, ReaderFresh, Slots, Delivered, cursor, Passed, Balanced,
}
use cpp_concurrency_toolbox.Overwrite.Cursors.{readable-seq, overtaken-seq, lapped_to-advances}

module _ {B : Type 0} {width : ℕ} {m : Queue B} {log : List (ℕ → B)} {p : Producer B}
    (few : length log + 1 < 2 ^ 63) (inv : Slots width m p log) where
  subscribed-In : CursorIn width m log (make_consumer m)
  subscribed-In = (
    omega (arith, inv.published_at),
    omega (arith, inv.published_at),
    omega (arith, inv.published_at),
  )

  loaded-Fresh :
      (c : Cursor)
      → CursorIn width m log c
      → ReaderFresh width m log (Reader.loaded c (seq_at m c.pos))
  loaded-Fresh c at_c = (
    at_c,
    ground (arith, inv.bounded c.pos),
    λ e. (
      let (item, there, same) = inv.stable c.pos at_c.0 e in
          omega (arith, at_c.0, lt_of_get_elem? log (c.pos - 1) there),
      omega arith,
    ),
  )

  agree : {o : Option (ℕ → B)} (a b : ℕ → B) → o ≡ some a → o ≡ some b → a ≡ b
  agree a b x y = cc

  copy_out-Copied :
      (pos i : ℕ) (out : ℕ → B)
      → 1 ≤ pos
      → seq_at m pos ≡ 2 * pos
      → i < width
      → Copied log pos i out
      → Copied log pos (suc i) (update out i (bytes_at m pos i))
  copy_out-Copied pos i out least at_pos below (item, there, same) =
      let (stored, also_there, bytes) = inv.stable pos least at_pos in
      (
        item,
        there,
        λ j under. elim (Bool-cases (i == j)) [
          | inl here ↦
              ground
                (arith, bytes i below, ap (λ (f : ℕ → B). f i) (agree stored item also_there there))
          | inr other ↦ ground (arith, same j)
        ],
      )

  torn-ahead :
      (pos : ℕ)
      → pos ≤ length log
      → 2 * pos ≤ seq_at m pos
      → 2 * pos ≢ seq_at m pos
      → (pos < seq_at m pos / 2) × (seq_at m pos / 2 ≤ length log + 1)
  torn-ahead pos there newer differs = ground (arith, inv.bounded pos)

  resumed-In :
      (c : Cursor) (newest : ℕ)
      → CursorIn width m log c
      → c.pos < newest
      → newest ≤ length log + 1
      → CursorIn width m log (lapped_to m.capacity m.published newest c)
  resumed-In c newest (least, most, counted) ahead small =
      let (up, target, balance) =
        lapped_to-advances m.capacity m.published newest c inv.size least counted ahead
          (omega arith) (omega (arith, inv.published_at)) in
      (omega arith, ground (arith, inv.published_at), omega arith)

  pub Read-ReaderFresh :
      {got got' : List (ℕ × (ℕ → B))} {r r' : Reader B}
      → Read width m got r got' r'
      → ReaderFresh width m log r
      → ReaderFresh width m log r'
  Read-ReaderFresh subscribe fresh = subscribed-In
  Read-ReaderFresh (load_seq {c}) fresh = loaded-Fresh c fresh
  Read-ReaderFresh (find_empty e) fresh = fresh.0
  Read-ReaderFresh (find_lapped {c} {s1} {newest} e) (at_c, small, test) =
      let (half, ahead) = overtaken-seq c.pos s1 newest e in (at_c, omega arith, omega arith)
  Read-ReaderFresh (begin_copy {c} {s1} out e) (at_c, small, test) =
      let even = readable-seq c.pos s1 e in
      let (there, newer) = test even in
      let (item, found) = get_elem?-some log (c.pos - 1) (omega (arith, at_c.0)) in
      (at_c, even, there, newer, λ same. (item, found, λ i none_below. absurd (omega arith)))
  Read-ReaderFresh (copy_out {c} {s1} {i} {out} below) (at_c, even, there, newer, copied) = (
    at_c,
    even,
    there,
    newer,
    λ same. copy_out-Copied c.pos i out at_c.0 same below (copied same),
  )
  Read-ReaderFresh (accept {c} same) (at_c, even, there, newer, copied) =
      (omega (arith), omega (arith), omega (arith, at_c.2))
  Read-ReaderFresh (find_torn {c} differs) (at_c, even, there, newer, copied) =
      let (ahead, small) = torn-ahead c.pos there newer (λ e. differs (even ∙ e)) in
      (at_c, ahead, small)
  Read-ReaderFresh (resume {c} {newest}) (at_c, ahead, small) = resumed-In c newest at_c ahead small

  module _ {got : List (ℕ × (ℕ → B))} (old : Delivered width log got) where
    -- What is accepted is intact, and lies after all that was delivered before.
    accepted-Delivered :
        (c : Cursor) (out : ℕ → B)
        → Copied log c.pos width out
        → Passed got (some c)
        → Delivered width log (got ++ ((c.pos, out) ∷ []))
    accepted-Delivered c out copied passed = record {
      intact = λ i q next at_i. elim (snoc-cases got (c.pos, out) i at_i) [
        | inl (before, e) ↦ old.intact i q next e
        | inr (last, e) ↦ subst (λ (pair : ℕ × (ℕ → B)). Copied log pair.0 width pair.1) e copied
      ];
      ordered = λ i j q q' next next' lt at_i at_j. elim (snoc-cases got (c.pos, out) j at_j) [
        | inl (before, e) ↦ old.ordered i j q q' next next' lt (before_end i at_i (omega arith)) e
        | inr (last, e) ↦ omega (
          arith,
          passed i q next (before_end i at_i (omega arith)),
          ap (λ (pair : ℕ × (ℕ → B)). pair.0) e,
        )
      ];
    }
      where
        before_end :
            (i : ℕ) {b : ℕ × (ℕ → B)}
            → get_elem? (got ++ ((c.pos, out) ∷ [])) i ≡ some b
            → i < length got
            → get_elem? got i ≡ some b
        before_end i at_i lt = sym (get_elem?-append got ((c.pos, out) ∷ []) i lt) ∙ at_i

    accepted-Passed :
        (c : Cursor) (out : ℕ → B) (pos : ℕ)
        → c.pos < pos
        → Passed got (some c)
        → (i q : ℕ) (next : ℕ → B) → get_elem? (got ++ ((c.pos, out) ∷ [])) i ≡ some (q, next)
        → q < pos
    accepted-Passed c out pos up passed i q next at_i = elim (snoc-cases got (c.pos, out) i at_i) [
      | inl (before, e) ↦ omega (arith, passed i q next e)
      | inr (last, e) ↦ omega (arith, ap (λ (pair : ℕ × (ℕ → B)). pair.0) e)
    ]

  -- A cursor that has been overtaken has moved forward by what it counts as missed.
  resumed :
      (c : Cursor) (newest : ℕ)
      → CursorIn width m log c
      → c.pos < newest
      → newest ≤ length log + 1
      → let c' = lapped_to m.capacity m.published newest c in
        (c.pos < c'.pos) × (c'.missed + c.pos ≡ c.missed + c'.pos)
  resumed c newest (least, most, counted) ahead small =
      let (up, target, balance) =
        lapped_to-advances m.capacity m.published newest c inv.size least counted ahead
          (omega arith) (omega (arith, inv.published_at)) in
      (up, balance)

  pub Read-Delivered :
      {got got' : List (ℕ × (ℕ → B))} {r r' : Reader B}
      → Read width m got r got' r'
      → ReaderFresh width m log r
      → Passed got (cursor r)
      → Delivered width log got
      → Delivered width log got' × Passed got' (cursor r')
  Read-Delivered (subscribe) fresh passed old = (old, λ i q out e. absurd (ground (arith, passed)))
  Read-Delivered (load_seq) fresh passed old = (old, passed)
  Read-Delivered (find_empty e) fresh passed old = (old, passed)
  Read-Delivered (find_lapped e) fresh passed old = (old, passed)
  Read-Delivered (begin_copy out e) fresh passed old = (old, passed)
  Read-Delivered (copy_out below) fresh passed old = (old, passed)
  Read-Delivered (accept {c} {out} same) (at_c, even, there, newer, copied) passed old = (
    accepted-Delivered old c out (copied (sym same ∙ even)) passed,
    accepted-Passed old c out (wrap (c.pos + 1)) (omega arith) passed,
  )
  Read-Delivered (find_torn differs) fresh passed old = (old, passed)
  Read-Delivered (resume {c} {newest}) (at_c, ahead, small) passed old =
      (old, λ i q out e. omega (arith, (resumed c newest at_c ahead small).0, passed i q out e))

  pub Read-Balanced :
      {got got' : List (ℕ × (ℕ → B))} {r r' : Reader B} (c₀ : Cursor) (n₀ : ℕ)
      → Read width m got r got' r'
      → ReaderFresh width m log r
      → Balanced c₀ n₀ got (cursor r)
      → Balanced c₀ n₀ got' (cursor r')
  Read-Balanced c₀ n₀ subscribe fresh balance = absurd balance
  Read-Balanced c₀ n₀ (load_seq) fresh balance = balance
  Read-Balanced c₀ n₀ (find_empty e) fresh balance = balance
  Read-Balanced c₀ n₀ (find_lapped e) fresh balance = balance
  Read-Balanced c₀ n₀ (begin_copy out e) fresh balance = balance
  Read-Balanced c₀ n₀ (copy_out below) fresh balance = balance
  Read-Balanced {got} c₀ n₀ (accept {c} {out} same) (at_c, even, there, newer, copied) balance =
      (omega (arith, length-snoc got (c.pos, out)), balance.1)
  Read-Balanced c₀ n₀ (find_torn differs) fresh balance = balance
  Read-Balanced c₀ n₀ (resume {c} {newest}) (at_c, ahead, small) balance =
      let (up, moved) = resumed c newest at_c ahead small in (omega arith, omega arith)
