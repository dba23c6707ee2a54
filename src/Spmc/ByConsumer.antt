-- ===== src/Spmc/ByConsumer.antt =====
-- A step of a consumer keeps the invariant, as long as no position has reached `2 ^ 63`.
use cpp_concurrency_toolbox.Base.{
  ℕ, ◌+◌, ◌^◌, ◌<◌, ◌≡◌, refl, some, List, ◌∷◌, length, arith, update, sub_size, wrap, ap, sym, ◌∙◌,
  subst,
}
use cpp_concurrency_toolbox.Spmc.{Queue, slot_of, destroy, set_sequence}
use cpp_concurrency_toolbox.Spmc.Steps.{
  Producer, Consumer, with_slot, Consume, load_head, load_seq, claim, lose, find_empty, wait,
  reload, move_out, release,
}
use cpp_concurrency_toolbox.Spmc.Facts.{holds, seq_at, ConsumerFresh, Inv}
use cpp_concurrency_toolbox.Spmc.Claim.{slot_of-mod, quiet-Inv, seen-fresh, claim-Inv}
use cpp_concurrency_toolbox.Spmc.Release.{emptied-Inv, freed-Inv}

-- The difference of the unsigned numbers is 0 only if the sequence is one past the position.
pub diff-zero :
    (h seq : ℕ) → h < 2 ^ 63 → seq < 2 ^ 63 → sub_size seq (wrap (h + 1)) ≡ 0 → seq ≡ h + 1
diff-zero h seq small_h small_seq zero_diff = omega arith

module _ {A : Type 0} {k : ℕ} {p : Producer A} {log : List A} (few : length log + 2 ^ k < 2 ^ 63)
    {m : Queue A} {consumers : ℕ → Consumer A} {handed : ℕ → List A}
    (inv : Inv k m p consumers log handed) (i : ℕ) where
  open inv.slots use {order, capacity}

  load_seq-Inv :
      (h : ℕ)
      → consumers i ≡ Consumer.at h
      → Inv k m p (update consumers i (Consumer.seen h (m.slots (slot_of m h)).sequence)) log handed
  load_seq-Inv h e = rw (slot_of-mod inv h) (
      quiet-Inv inv i (Consumer.seen h (seq_at k m h)) (ap holds e) refl
        (seen-fresh inv h (subst (ConsumerFresh k m log) e (inv.consumers_fresh i))))

  claimed-Inv :
      (h seq : ℕ)
      → consumers i ≡ Consumer.seen h seq
      → sub_size seq (wrap (h + 1)) ≡ 0
      → m.head ≡ h
      → Inv k
          (record m { head = wrap (h + 1) })
          p
          (update consumers i (Consumer.claimed h))
          log
          handed
  claimed-Inv h seq e zero_diff same =
      rw no_wrap (claim-Inv inv i h same (fresh.2 found) (ap holds e))
    where
      fresh : ConsumerFresh k m log (Consumer.seen h seq)
      fresh = subst (ConsumerFresh k m log) e (inv.consumers_fresh i)

      found : seq ≡ h + 1
      found = diff-zero h seq (omega (arith, order)) (omega (arith, fresh.1)) zero_diff

      no_wrap : wrap (h + 1) ≡ h + 1
      no_wrap = omega (arith, order)

  moved-Inv :
      (h : ℕ) (a : A)
      → consumers i ≡ Consumer.claimed h
      → (m.slots (slot_of m h)).storage ≡ some a
      → Inv k
          (with_slot m (slot_of m h) (destroy (m.slots (slot_of m h))))
          p
          (update consumers i (Consumer.moved h a))
          log
          handed
  moved-Inv h a e object =
      let (below, taken, published) = subst (ConsumerFresh k m log) e (inv.consumers_fresh i) in
      emptied-Inv inv i h (slot_of m h) (slot_of-mod inv h) (ap holds e) below taken a
        (ap (λ j. (m.slots j).storage) (sym (slot_of-mod inv h)) ∙ object) published

  released-Inv :
      (h : ℕ) (a : A)
      → consumers i ≡ Consumer.moved h a
      → Inv k
          (with_slot m (slot_of m h) (set_sequence (m.slots (slot_of m h)) (wrap (h + m.capacity))))
          p
          (update consumers i Consumer.idle)
          log
          (update handed h (a ∷ handed h))
  released-Inv h a e =
      let (below, taken, raw, published) =
        subst (ConsumerFresh k m log) e (inv.consumers_fresh i) in
      rw (no_wrap below) (
        freed-Inv inv i h (slot_of m h) (slot_of-mod inv h) (ap holds e) below taken a raw
          published)
    where
      no_wrap : h < m.head → wrap (h + m.capacity) ≡ h + 2 ^ k
      no_wrap below = omega (arith, order, capacity)

  pub Consume-Inv :
      {c c' : Consumer A} {m' : Queue A} {handed' : ℕ → List A}
      → consumers i ≡ c
      → Consume m handed c m' handed' c'
      → Inv k m' p (update consumers i c') log handed'
  Consume-Inv e load_head = quiet-Inv inv i _ (ap holds e) refl (omega arith)
  Consume-Inv e (load_seq {h}) = load_seq-Inv h e
  Consume-Inv e (claim {h} {seq} zero_diff same) = claimed-Inv h seq e zero_diff same
  Consume-Inv e (lose zero_diff) = quiet-Inv inv i _ (ap holds e) refl (omega arith)
  Consume-Inv e (find_empty neg) = quiet-Inv inv i _ (ap holds e) refl tt
  Consume-Inv e (wait {h} neg) =
      quiet-Inv inv i _ (ap holds e) refl
        (subst (ConsumerFresh k m log) e (inv.consumers_fresh i)).0
  Consume-Inv e (reload nz pos) = quiet-Inv inv i _ (ap holds e) refl (omega arith)
  Consume-Inv e (move_out {h} {a} object) = moved-Inv h a e object
  Consume-Inv e (release {h} {a}) = released-Inv h a e
