-- ===== src/Overwrite/Alone/Solo.antt =====
-- `publish` of `SPMCOverwriteQueue` as whole calls, as a run of the producer's steps with no step of a
-- consumer in between.
use mathlib.Core.Path.{fun_ext}
use cpp_concurrency_toolbox.Base.{
  ℕ, zero, suc, ◌+◌, ◌≤◌, ◌≡◌, inl, inr, refl, some, List, [], ◌∷◌, ◌++◌, arith, ◌==◌, Bool-cases,
  wrap, update, map, append_nil, append_snoc, ap, sym, subst, ◌∙◌,
}
use cpp_concurrency_toolbox.Overwrite.{Queue, slot_of, writing_seq, stable_seq}
use cpp_concurrency_toolbox.Overwrite.Steps
use cpp_concurrency_toolbox.Overwrite.Steps.{Producer, Reader, with_seq, with_byte, Publish, Read}
use cpp_concurrency_toolbox.Overwrite.Alone.{copied, mark_next, store_item, publish, publish_all}

module _ {B : Type 0} (width : ℕ) where
  -- Steps of the producer alone.
  pub data Published (m : Queue B) (log : List (ℕ → B)) (p : Producer B)
      : Queue B → List (ℕ → B) → Producer B → Type 0 where
    now : Published m log p m log p
    next :
        {m' m'' : Queue B} {log' log'' : List (ℕ → B)} {p' p'' : Producer B}
        → Published m log p m' log' p'
        → Publish width m' log' p' m'' log'' p''
        → Published m log p m'' log'' p''

module _ {B : Type 0} where
  pub copied_next :
      (i : ℕ) (source target : ℕ → B)
      → update (copied i source target) i (source i) ≡ copied (suc i) source target
  copied_next i source target =
      fun_ext
        (λ j. elim (Bool-cases (i == j)) [ inl same ↦ ground arith | inr other ↦ ground arith ])

  pub copied_none : (source target : ℕ → B) → copied 0 source target ≡ target
  copied_none source target = fun_ext (λ j. ground arith)

  module _ (q : Queue B) (pos : ℕ) where
    -- The queue while the slot of `pos` has these contents.
    abbrev holding : ℕ → (ℕ → B) → Queue B
    holding seq bytes = record q {
      slots = update q.slots (slot_of q pos) (record { seq = seq; data_bytes = bytes });
      write_pos = pos;
    }

    holding_byte :
        (seq : ℕ) (bytes : ℕ → B) (i : ℕ) (b : B)
        → with_byte (holding seq bytes) pos i b ≡ holding seq (update bytes i b)
    holding_byte seq bytes i b =
        ap (λ slots. record q { slots = slots; write_pos = pos })
          (fun_ext (λ j. elim (Bool-cases (slot_of q pos == j)) [
            | inl same ↦ ground arith
            | inr other ↦ ground arith
          ]))

    holding_seq :
        (seq seq' : ℕ) (bytes : ℕ → B) → with_seq (holding seq bytes) pos seq' ≡ holding seq' bytes
    holding_seq seq seq' bytes =
        ap (λ slots. record q { slots = slots; write_pos = pos })
          (fun_ext (λ j. elim (Bool-cases (slot_of q pos == j)) [
            | inl same ↦ ground arith
            | inr other ↦ ground arith
          ]))

  module _ (width : ℕ) (q : Queue B) (log : List (ℕ → B)) (tmp : ℕ → B) where
    abbrev pos : ℕ
    pos = wrap (q.write_pos + 1)

    abbrev old : ℕ → B
    old = (q.slots (slot_of q pos)).data_bytes

    run_copies :
        (i : ℕ)
        → i ≤ width
        → Published width q log Producer.idle
            (holding q pos (writing_seq pos) (copied i tmp old))
            log
            (Producer.writing pos tmp i)
    run_copies zero le =
        subst
          (λ bytes.
            Published width q log Producer.idle (holding q pos (writing_seq pos) bytes) log
              (Producer.writing pos tmp 0))
          (sym (copied_none tmp old)) (next now (Steps.mark tmp pos refl))
    run_copies (suc i) le =
        subst (λ m. Published width q log Producer.idle m log (Producer.writing pos tmp (suc i)))
          (holding_byte q pos (writing_seq pos) (copied i tmp old) i (tmp i)
            ∙ ap (holding q pos (writing_seq pos)) (copied_next i tmp old))
          (next (run_copies i (omega arith)) (Steps.copy_in (omega arith)))

    old_again : ((mark_next width q).slots (slot_of q pos)).data_bytes ≡ old
    old_again = ground arith

    stored_item :
        record (store_item width q tmp) { published = pos }
        ≡ record (holding q pos (stable_seq pos) (copied width tmp old)) { published = pos }
    stored_item =
        ap (λ slots. record q { slots = slots; write_pos = pos; published = pos })
          (fun_ext (λ j. elim (Bool-cases (slot_of q pos == j)) [
            | inl same ↦ ground (arith, ap (λ d. copied width tmp d) old_again)
            | inr other ↦ ground arith
          ]))

    run_publish :
        Published width q log Producer.idle
          (publish width q (some tmp))
          (log ++ (tmp ∷ []))
          Producer.idle
    unfolding publish
    run_publish =
        subst (λ m. Published width q log Producer.idle m (log ++ (tmp ∷ [])) Producer.idle)
          (ap (λ (m : Queue B). record m { published = pos })
              (holding_seq q pos (writing_seq pos) (stable_seq pos) (copied width tmp old))
            ∙ sym stored_item)
          (next (next (run_copies width (omega arith)) Steps.store_seq) Steps.store_published)

  Published-then :
      {width : ℕ} {m m' : Queue B} {log log' : List (ℕ → B)} {p p' : Producer B} {m'' : Queue B}
      {log'' : List (ℕ → B)} {p'' : Producer B}
      → Published width m log p m' log' p'
      → Published width m' log' p' m'' log'' p''
      → Published width m log p m'' log'' p''
  Published-then before now = before
  Published-then before (next run st) = next (Published-then before run) st

  -- The producer's steps alone publish any items.
  pub run_publish_all :
      (width : ℕ) (q : Queue B) (log items : List (ℕ → B))
      → Published width q log Producer.idle
          (publish_all width q (map some items))
          (log ++ items)
          Producer.idle
  run_publish_all width q log [] =
      subst (λ l. Published width q log Producer.idle q l Producer.idle) (sym (append_nil log)) now
  run_publish_all width q log (item ∷ items) =
      subst
        (λ l.
          Published width q log Producer.idle (publish_all width q (map some (item ∷ items))) l
            Producer.idle)
        (append_snoc log items item)
        (Published-then (run_publish width q log item)
          (run_publish_all width (publish width q (some item)) (log ++ (item ∷ [])) items))
