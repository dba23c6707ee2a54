-- ===== src/Overwrite/ByReader.antt =====
-- What the consumer of `SPMCOverwriteQueue` knows stays true, whoever takes the next step.
use cpp_concurrency_toolbox.Base.{
  ℕ, ◌+◌, ◌*◌, ◌^◌, ◌≤◌, ◌<◌, ◌≡◌, inl, inr, List, [], ◌∷◌, ◌++◌, length, arith, ◌==◌, Bool-cases,
  length-snoc,
}
use cpp_concurrency_toolbox.Overwrite.{Queue, slot_of}
use cpp_concurrency_toolbox.Overwrite.Steps.{
  Producer, Reader, Publish, mark, copy_in, store_seq, store_published,
}
use cpp_concurrency_toolbox.Overwrite.Facts.{Copied, seq_at, ReaderFresh, Slots}
use cpp_concurrency_toolbox.Overwrite.ByProducer.{Copied-append}

module _ {B : Type 0} (width : ℕ) (m m' : Queue B) (log log' : List (ℕ → B))
    (grows : length log ≤ length log')
    (lifts : (pos k : ℕ) (bytes : ℕ → B) → Copied log pos k bytes → Copied log' pos k bytes)
    (keeps : (p : ℕ)
      → 1 ≤ p
      → p ≤ length log
      → 2 * p ≤ seq_at m p
      → (2 * p ≤ seq_at m' p) × (seq_at m' p ≡ 2 * p → seq_at m p ≡ 2 * p)) where
  ReaderFresh-transfer : (r : Reader B) → ReaderFresh width m log r → ReaderFresh width m' log' r
  ReaderFresh-transfer Reader.unborn fresh = tt
  ReaderFresh-transfer (Reader.between c) fresh = (fresh.0, omega (arith, grows, fresh.1), fresh.2)
  ReaderFresh-transfer (Reader.loaded c s1) ((least, most, few), small, test) = (
    (least, omega (arith, grows), few),
    omega (arith, grows),
    λ e. let (there, newer) = test e in (omega (arith, grows), (keeps c.pos least there newer).0),
  )
  ReaderFresh-transfer (Reader.copying c s1 out read)
        ((least, most, few), first, there, newer, test) =
      (
        (least, omega (arith, grows), few),
        first,
        omega (arith, grows),
        (keeps c.pos least there newer).0,
        λ e. lifts c.pos read out (test ((keeps c.pos least there newer).1 e)),
      )
  ReaderFresh-transfer (Reader.lapping c newest) ((least, most, few), ahead, small) =
      ((least, omega (arith, grows), few), ahead, omega (arith, grows))

module _ {B : Type 0} {width : ℕ} {m : Queue B} {log : List (ℕ → B)} where
  -- A step of the producer leaves alone what the consumer knows.
  pub Publish-ReaderFresh :
      {m' : Queue B} {log' : List (ℕ → B)} {p p' : Producer B} (r : Reader B)
      → length log + 1 < 2 ^ 63
      → Publish width m log p m' log' p'
      → Slots width m p log
      → ReaderFresh width m log r
      → ReaderFresh width m' log' r
  Publish-ReaderFresh {m'} r few (mark tmp pos e) inv fresh =
      ReaderFresh-transfer width m m' log log (omega arith) (λ p k bytes copied. copied)
        (λ p least there newer. elim (Bool-cases (slot_of m pos == slot_of m p)) [
          | inl same ↦ ground (arith, inv.write_at)
          | inr other ↦ ground arith
        ])
        r fresh
  Publish-ReaderFresh {m'} r few (copy_in {pos} {i} {tmp} below) inv fresh =
      ReaderFresh-transfer width m m' log log (omega arith) (λ p k bytes copied. copied)
        (λ p least there newer. elim (Bool-cases (slot_of m pos == slot_of m p)) [
          | inl same ↦ ground arith
          | inr other ↦ ground arith
        ])
        r fresh
  Publish-ReaderFresh {m'} r few (store_seq {pos} {tmp}) inv fresh =
      ReaderFresh-transfer width m m' log (log ++ (tmp ∷ [])) (omega (arith, length-snoc log tmp))
        (Copied-append log (tmp ∷ []))
        (λ p least there newer. elim (Bool-cases (slot_of m pos == slot_of m p)) [
          | inl same ↦ ground (arith, inv.producer_fresh.0)
          | inr other ↦ ground arith
        ])
        r fresh
  Publish-ReaderFresh {m'} r few (store_published {pos}) inv fresh =
      ReaderFresh-transfer width m m' log log (omega arith) (λ p k bytes copied. copied)
        (λ p least there newer. (newer, λ e. e)) r fresh
