-- ===== src/Overwrite/Alone/Calls.antt =====
-- A call of `try_read` of `SPMCOverwriteQueue` as a run of the consumer's steps, with no step of the
-- producer in between.
use cpp_concurrency_toolbox.Base.{
  ℕ, zero, suc, ◌+◌, ◌-◌, ◌^◌, ◌≤◌, ◌<◌, ◌≡◌, inl, inr, refl, some, List, [], ◌∷◌, ◌++◌, map,
  length, get_elem?, arith, ok, wrap, update, ◌==◌, Bool-cases, ap, sym, subst, ◌∙◌,
}
use cpp_concurrency_toolbox.Overwrite.{
  Queue, Cursor, Status, slot_of, Verdict, verdict, lapped_to, new,
}
use cpp_concurrency_toolbox.Overwrite.Steps
use cpp_concurrency_toolbox.Overwrite.Steps.{Producer, Reader, Read}
use cpp_concurrency_toolbox.Overwrite.Alone.{copied, publish_all, act_on, try_read}
use cpp_concurrency_toolbox.Overwrite.Alone.Answers.{Reads}
use cpp_concurrency_toolbox.Overwrite.Alone.Feed.{publish_all-try_read}
use cpp_concurrency_toolbox.Overwrite.Alone.Solo.{
  Published, copied_next, copied_none, run_publish_all,
}

-- The consumer is in a call.
abbrev pub IsInside : {B : Type 0} → Reader B → Type 0
IsInside Reader.unborn = ⊥
IsInside (Reader.between c) = ⊥
IsInside (Reader.loaded c s1) = Unit
IsInside (Reader.copying c s1 out read) = Unit
IsInside (Reader.lapping c newest) = Unit

-- The steps of one call of `try_read` by the cursor `c`, up to its return.
pub data Called {B : Type 0} (width : ℕ) (m : Queue B) (got : List (ℕ × (ℕ → B))) (c : Cursor)
    : List (ℕ × (ℕ → B)) → Reader B → Type 0 where
  enter :
      {got' : List (ℕ × (ℕ → B))} {r : Reader B}
      → Read width m got (Reader.between c) got' r
      → Called width m got c got' r
  next :
      {got' got'' : List (ℕ × (ℕ → B))} {r r' : Reader B}
      → Called width m got c got' r
      → IsInside r
      → Read width m got' r got'' r'
      → Called width m got c got'' r'

module _ {B : Type 0} (width : ℕ) (q : Queue B) (c : Cursor) (got : List (ℕ × (ℕ → B))) where
  abbrev s1 : ℕ
  s1 = (q.slots (slot_of q c.pos)).seq

  abbrev bytes : ℕ → B
  bytes = (q.slots (slot_of q c.pos)).data_bytes

  -- How a call ends.
  abbrev Ended : List (ℕ × (ℕ → B)) → Cursor → Verdict → Type 0
  Ended got' c' Verdict.nothing_new = (c' ≡ c) × (got' ≡ got)
  Ended got' c' (Verdict.overtaken newest) =
      (c' ≡ lapped_to q.capacity q.published newest c) × (got' ≡ got)
  Ended got' c' Verdict.readable =
      (c' ≡ record c { pos = wrap (c.pos + 1) })
      × (out : ℕ → B) × (got' ≡ got ++ ((c.pos, out) ∷ []))
      × ((j : ℕ) → j < width → out j ≡ bytes j)

  -- How far it is.
  abbrev Underway : List (ℕ × (ℕ → B)) → Reader B → Type 0
  Underway got' Reader.unborn = ⊥
  Underway got' (Reader.between c') = Ended got' c' (verdict c.pos s1)
  Underway got' (Reader.loaded c' s) = (c' ≡ c) × (s ≡ s1) × (got' ≡ got)
  Underway got' (Reader.copying c' s out i) =
      (c' ≡ c)
      × (s ≡ s1)
      × (got' ≡ got)
      × (verdict c.pos s1 ≡ Verdict.readable)
      × ((j : ℕ) → j < i → out j ≡ bytes j)
  Underway got' (Reader.lapping c' newest) =
      (c' ≡ c) × (got' ≡ got) × (verdict c.pos s1 ≡ Verdict.overtaken newest)

  found :
      {c' : Cursor} {s : ℕ} {v : Verdict}
      → c' ≡ c
      → s ≡ s1
      → verdict c'.pos s ≡ v
      → verdict c.pos s1 ≡ v
  found {c'} {s} same seq e =
      ap (λ t. verdict c.pos t) (sym seq) ∙ ap (λ (d : Cursor). verdict d.pos s) (sym same) ∙ e

  copied_on :
      (i : ℕ) (out : ℕ → B) {b : B}
      → ((j : ℕ) → j < i → out j ≡ bytes j)
      → b ≡ bytes i
      → (j : ℕ) → j < suc i
      → update out i b j ≡ bytes j
  copied_on i out copy same j below = elim (Bool-cases (i == j)) [
    | inl here ↦ ground (arith, ap bytes {x = i} {y = j} (ground arith))
    | inr other ↦ ground (arith, copy j (ground arith))
  ]

  step-Underway :
      {got' got'' : List (ℕ × (ℕ → B))} {r r' : Reader B}
      → Read width q got' r got'' r'
      → IsInside r
      → Underway got' r
      → Underway got'' r'
  step-Underway Steps.subscribe inside under = absurd inside
  step-Underway Steps.load_seq inside under = absurd inside
  step-Underway {got'} (Steps.find_empty {c = c'} e) inside (same, seq, kept) =
      subst (Ended got' c') (sym (found same seq e)) (same, kept)
  step-Underway (Steps.find_lapped e) inside (same, seq, kept) = (same, kept, found same seq e)
  step-Underway (Steps.begin_copy out e) inside (same, seq, kept) =
      (same, seq, kept, found same seq e, λ j below. absurd (omega arith))
  step-Underway (Steps.copy_out {c = c'} {i = i} {out = out} more) inside
        (same, seq, kept, read, copy) =
      (
        same,
        seq,
        kept,
        read,
        copied_on i out copy (ap (λ (d : Cursor). (q.slots (slot_of q d.pos)).data_bytes i) same),
      )
  step-Underway {got'} (Steps.accept {c = c'} {out = out} unchanged) inside
        (same, seq, kept, read, copy) =
      subst (Ended (got' ++ ((c'.pos, out) ∷ [])) (record c' { pos = wrap (c'.pos + 1) }))
        (sym read)
        (
          ap (λ (d : Cursor). record d { pos = wrap (d.pos + 1) }) same,
          out,
          ap (λ g. g ++ ((c'.pos, out) ∷ [])) kept
              ∙ ap (λ (d : Cursor). got ++ ((d.pos, out) ∷ [])) same,
          copy,
        )
  step-Underway (Steps.find_torn {c = c'} changed) inside (same, seq, kept, read, copy) =
      absurd (changed (seq ∙ ap (λ (d : Cursor). (q.slots (slot_of q d.pos)).seq) (sym same)))
  step-Underway {got'} (Steps.resume {c = c'} {newest}) inside (same, kept, behind) =
      subst (Ended got' (lapped_to q.capacity q.published newest c')) (sym behind)
        (ap (lapped_to q.capacity q.published newest) same, kept)

  Called-Underway :
      {got' : List (ℕ × (ℕ → B))} {r : Reader B} → Called width q got c got' r → Underway got' r
  Called-Underway (enter Steps.load_seq) = (refl, refl, refl)
  Called-Underway (next run inside st) = step-Underway st inside (Called-Underway run)

  -- Every call comes to an end.
  entered : Called width q got c got (Reader.loaded c s1)
  entered = enter Steps.load_seq

  call_copies :
      (out : ℕ → B) (i : ℕ)
      → i ≤ width
      → verdict c.pos s1 ≡ Verdict.readable
      → Called width q got c got (Reader.copying c s1 (copied i bytes out) i)
  call_copies out zero le e =
      subst (λ o. Called width q got c got (Reader.copying c s1 o 0)) (sym (copied_none bytes out))
        (next entered tt (Steps.begin_copy out e))
  call_copies out (suc i) le e =
      subst (λ o. Called width q got c got (Reader.copying c s1 o (suc i)))
        (copied_next i bytes out)
        (next (call_copies out i (omega arith) e) tt (Steps.copy_out (omega arith)))

  abbrev Returns : Type 0
  Returns =
      (got' : List (ℕ × (ℕ → B))) × (c' : Cursor) × Called width q got c got' (Reader.between c')

  call-Returns : (ℕ → B) → (v : Verdict) → verdict c.pos s1 ≡ v → Returns
  call-Returns out Verdict.nothing_new e = (got, c, next entered tt (Steps.find_empty e))
  call-Returns out (Verdict.overtaken newest) e = (
    got,
    lapped_to q.capacity q.published newest c,
    next (next entered tt (Steps.find_lapped e)) tt Steps.resume,
  )
  call-Returns out Verdict.readable e =
      (_, _, next (call_copies out width (omega arith) e) tt (Steps.accept refl))

  -- What a call leaves, by what `try_read` answers.
  abbrev Left : List (ℕ × (ℕ → B)) → Cursor → Status × Cursor × (ℕ → B) → Type 0
  Left got' c' (Status.empty, d, out) = (c' ≡ d) × (got' ≡ got)
  Left got' c' (Status.lapped, d, out) = (c' ≡ d) × (got' ≡ got)
  Left got' c' (Status.ok_read, d, out) =
      (c' ≡ d)
      × (o : ℕ → B) × (got' ≡ got ++ ((c.pos, o) ∷ []))
      × ((j : ℕ) → j < width → o j ≡ out j)

  Ended-Left :
      (got' : List (ℕ × (ℕ → B))) (c' : Cursor) (out : ℕ → B) (v : Verdict)
      → Ended got' c' v
      → Left got' c' (act_on width q c out s1 v)
  Ended-Left got' c' out Verdict.nothing_new ended = ended
  Ended-Left got' c' out (Verdict.overtaken newest) ended = ended
  Ended-Left got' c' out Verdict.readable (moved, o, added, copy) =
      subst (Left got' c') (sym unchanged)
        (moved, o, added, λ j below. ground (arith, copy j below))
    where
      unchanged :
          act_on width q c out s1 Verdict.readable
          ≡ (Status.ok_read, record c { pos = wrap (c.pos + 1) }, copied width bytes out)
      unchanged = ground arith

  Called-Left :
      {got' : List (ℕ × (ℕ → B))} {c' : Cursor} (out : ℕ → B)
      → Called width q got c got' (Reader.between c')
      → Left got' c' (try_read width q c out)
  unfolding try_read
  Called-Left {got'} {c'} out run = Ended-Left got' c' out (verdict c.pos s1) (Called-Underway run)

  Left-Reads :
      {got' : List (ℕ × (ℕ → B))} {c' : Cursor} {out item : ℕ → B} (r : Status × Cursor × (ℕ → B))
      → Left got' c' r
      → Reads width r c out item
      → (c' ≡ record c { pos = c.pos + 1 })
        × (o : ℕ → B) × (got' ≡ got ++ ((c.pos, o) ∷ []))
        × ((j : ℕ) → j < width → o j ≡ item j)
  Left-Reads (Status.ok_read, d, out) (moved, o, added, copy) (answer, at, same, rest) =
      (moved ∙ at, o, added, λ j below. copy j below ∙ same j below)
  Left-Reads (Status.empty, d, out) left (answer, at, same, rest) = absurd (cc)
  Left-Reads (Status.lapped, d, out) left (answer, at, same, rest) = absurd (cc)

module _ {B : Type 0} (zero_byte : B) (width requested : ℕ) where
  -- Run alone, the interleaved steps hand a consumer its window of the feed: from a new queue the
  -- producer's steps alone publish any sequence of fewer than 2 ^ 63 - 1 items; and then, for a cursor
  -- at any position up to the next one that counts fewer missed items than its position, a call of
  -- `try_read` with no step of the producer in between can come to an end, and whenever it does, a
  -- cursor at the next position is left as it is and nothing is delivered; a cursor at an item that at
  -- most capacity - 1 items have come after is delivered that very item, byte for byte, and moves on by
  -- one; and any other is delivered nothing, and goes to the oldest of the last `capacity` items with
  -- `missed` grown by the items in between.
  pub call_alone-delivers :
      {m : Queue B}
      → new zero_byte requested ≡ ok m
      → (log : List (ℕ → B)) (c : Cursor) (got : List (ℕ × (ℕ → B))) → length log + 1 < 2 ^ 63
      → 1 ≤ c.pos
      → c.missed < c.pos
      → c.pos ≤ length log + 1
      → let q = publish_all width m (map some log) in
        Published width m [] Producer.idle q log Producer.idle
        × ((got' : List (ℕ × (ℕ → B))) × (c' : Cursor) × Called width q got c got'
              (Reader.between c'))
        × ((got' : List (ℕ × (ℕ → B))) (c' : Cursor)
            → Called width q got c got' (Reader.between c')
            → (c.pos ≡ length log + 1 → (c' ≡ c) × (got' ≡ got))
              × (c.pos ≤ length log
                  → length log < c.pos + m.capacity
                  → (item : ℕ → B) × (get_elem? log (c.pos - 1) ≡ some item)
                    × (c' ≡ record c { pos = c.pos + 1 })
                    × (out : ℕ → B) × (got' ≡ got ++ ((c.pos, out) ∷ []))
                    × ((j : ℕ) → j < width → out j ≡ item j))
              × (c.pos + m.capacity ≤ length log
                  → (c' ≡ record {
                    pos = length log - m.capacity + 1;
                    missed = c.missed + (length log - m.capacity + 1 - c.pos);
                  })
                    × (got' ≡ got)))
  call_alone-delivers {m} made log c got few least fewer le =
      let q = publish_all width m (map some log) in
      let blank : ℕ → B = λ i. zero_byte in
      let (new_end, near, far) =
        publish_all-try_read zero_byte width requested made log c blank few least fewer le in
      (
        run_publish_all width m [] log,
        call-Returns width q c got blank (verdict c.pos (s1 width q c got)) refl,
        λ got' c' run.
            let left = Called-Left width q c got blank run in
            (
              λ at_next. subst (Left width q c got got' c') (new_end at_next) left,
              λ old held.
                  let (item, there, reads) = near old held in
                  let (moved, out, added, same) =
                    Left-Reads width q c got (try_read width q c blank) left reads in
                  (item, there, moved, out, added, same),
              λ behind. subst (Left width q c got got' c') (far behind) left,
            ),
      )
