-- ===== src/Overwrite/Safety.antt =====
-- What holds of `SPMCOverwriteQueue` in every state that its producer and a consumer can reach, while
-- fewer than 2 ^ 63 - 1 items are published.
use native.Mathlib.Nat.{one-le-pow}
use cpp_concurrency_toolbox.Base.{
  ℕ, ◌+◌, ◌-◌, ◌^◌, ◌≤◌, ◌<◌, ◌≡◌, inl, refl, some, List, [], ◌∷◌, length, get_elem?, arith, Result,
  ok, err, ◌>>=◌, length-append, subst, sym, ap,
}
use cpp_concurrency_toolbox.Capacity.{check_and_round_overwrite}
use cpp_concurrency_toolbox.Capacity.Round.{Verdict, IsCapacity, capacity_checks}
use cpp_concurrency_toolbox.Overwrite.{Queue, Cursor, new}
use cpp_concurrency_toolbox.Overwrite.Steps.{
  Producer, Reader, Publish, mark, copy_in, store_seq, store_published, System, Step, by_producer,
  by_reader, start, Reach, begun, then_step, Later, now, next,
}
use cpp_concurrency_toolbox.Overwrite.Facts.{
  ReaderFresh, Slots, Delivered, cursor, Passed, Balanced,
}
use cpp_concurrency_toolbox.Overwrite.ByProducer.{Copied-append, Publish-Slots}
use cpp_concurrency_toolbox.Overwrite.ByReader.{Publish-ReaderFresh}
use cpp_concurrency_toolbox.Overwrite.Reading.{Read-ReaderFresh, Read-Delivered, Read-Balanced}

record Inv {B : Type 0} (width : ℕ) (s : System B) : Type 0 where
  slots : Slots width s.mem s.producer s.log
  reader_fresh : ReaderFresh width s.mem s.log s.reader
  passed : Passed s.got (cursor s.reader)
  delivered : Delivered width s.log s.got

module _ {B : Type 0} {width : ℕ} where
  -- The history only grows, and what has been delivered stays intact.
  Publish-log :
      {m m' : Queue B} {log log' : List (ℕ → B)} {p p' : Producer B}
      → Publish width m log p m' log' p'
      → length log ≤ length log'
  Publish-log {log} (store_seq {tmp}) = omega (arith, length-append log (tmp ∷ []))
  Publish-log (mark tmp pos e) = omega arith
  Publish-log (copy_in below) = omega arith
  Publish-log store_published = omega arith

  Publish-Delivered :
      {m m' : Queue B} {log log' : List (ℕ → B)} {p p' : Producer B} {got : List (ℕ × (ℕ → B))}
      → Publish width m log p m' log' p'
      → Delivered width log got
      → Delivered width log' got
  Publish-Delivered {log} (store_seq {tmp}) old = record {
    intact = λ i q out e. Copied-append log (tmp ∷ []) q width out (old.intact i q out e);
    ordered = old.ordered;
  }
  Publish-Delivered (mark tmp pos e) old = old
  Publish-Delivered (copy_in below) old = old
  Publish-Delivered store_published old = old

  Step-Inv :
      {s t : System B}
      → length t.log + 1 < 2 ^ 63
      → Step width s t
      → (length s.log + 1 < 2 ^ 63 → Inv width s)
      → Inv width t
  Step-Inv {s} few (by_producer st) old = record {
    slots = Publish-Slots fewer st inv.slots;
    reader_fresh = Publish-ReaderFresh s.reader fewer st inv.slots inv.reader_fresh;
    passed = inv.passed;
    delivered = Publish-Delivered st inv.delivered;
  }
    where
      fewer : length s.log + 1 < 2 ^ 63
      fewer = omega (arith, Publish-log st)

      inv : Inv width s
      inv = old fewer
  Step-Inv few (by_reader st) old =
      let inv = old few in
      let (delivered, passed) =
        Read-Delivered few inv.slots st inv.reader_fresh inv.passed inv.delivered in
      record {
        slots = inv.slots;
        reader_fresh = Read-ReaderFresh few inv.slots st inv.reader_fresh;
        passed = passed;
        delivered = delivered;
      }

  Reach-Inv :
      {m : Queue B} {s : System B}
      → Inv width (start m)
      → length s.log + 1 < 2 ^ 63
      → Reach width m s
      → Inv width s
  Reach-Inv first few begun = first
  Reach-Inv first few (then_step r st) = Step-Inv few st (λ fewer. Reach-Inv first fewer r)

module _ {B : Type 0} (zero_byte : B) where
  abbrev pub fresh_queue : ℕ → Queue B
  fresh_queue c = record {
    capacity = c;
    mask = c - 1;
    slots = λ i. record { seq = 0; data_bytes = λ j. zero_byte };
    write_pos = 0;
    published = 0;
  }

  fresh-Inv : (width c : ℕ) → 1 ≤ c → Inv width (start (fresh_queue c))
  fresh-Inv width c some_slot = record {
    slots = record {
      size = some_slot;
      bounded = λ pos. inl (omega arith, refl);
      stable = λ pos least e. absurd (omega arith);
      write_at = refl;
      published_at = refl;
      producer_fresh = tt;
    };
    reader_fresh = tt;
    passed = refl;
    delivered = record {
      intact = λ i p out e. absurd (cc);
      ordered = λ i j p q out after lt e f. absurd (cc);
    };
  }

  pub new-fresh :
      (requested : ℕ) {m : Queue B}
      → new zero_byte requested ≡ ok m
      → (c : ℕ) × IsCapacity 62 requested c × (m ≡ fresh_queue c)
  unfolding new
  new-fresh requested {m} made =
      from_check (check_and_round_overwrite requested) (capacity_checks requested).2 made
    where
      from_check :
          (r : Result ℕ)
          → Verdict 62 requested r
          → (r >>= λ c. ok (fresh_queue c)) ≡ ok m
          → (c : ℕ) × IsCapacity 62 requested c × (m ≡ fresh_queue c)
      from_check (ok c) verdict e = (c, verdict.2, cc)
      from_check (err e') verdict e = absurd (cc)

  new-Inv :
      (width requested : ℕ) {m : Queue B} {s : System B}
      → new zero_byte requested ≡ ok m
      → length s.log + 1 < 2 ^ 63
      → Reach width m s
      → Inv width s
  new-Inv width requested made few r =
      let (c, fit, e) = new-fresh requested made in
      Reach-Inv
        (subst (λ q. Inv width (start q)) (sym e)
          (fresh-Inv width c (omega (arith, fit.power, one-le-pow fit.exponent 2))))
        few r

  -- What `try_read` returns with `Ok` is never torn, lost in order or repeated: in every interleaving
  -- of the producer and a consumer, with fewer than 2 ^ 63 - 1 items published, each payload that was
  -- returned is byte for byte the one that was published at its position, and the positions
  -- increase.
  pub read-Delivered :
      (width requested : ℕ) {m : Queue B} {s : System B}
      → new zero_byte requested ≡ ok m
      → length s.log + 1 < 2 ^ 63
      → Reach width m s
      → ((i pos : ℕ) (out : ℕ → B)
          → get_elem? s.got i ≡ some (pos, out)
          → (item : ℕ → B) × (get_elem? s.log (pos - 1) ≡ some item)
            × ((j : ℕ) → j < width → out j ≡ item j))
        × ((i j pos pos' : ℕ) (out out' : ℕ → B)
            → i < j
            → get_elem? s.got i ≡ some (pos, out)
            → get_elem? s.got j ≡ some (pos', out')
            → pos < pos')
  read-Delivered width requested {s} made few r =
      let inv : Inv width s = new-Inv width requested made few r in
      (inv.delivered.intact, inv.delivered.ordered)

  later-Balanced :
      (width requested : ℕ) {m : Queue B} {s t : System B} (c : Cursor)
      → new zero_byte requested ≡ ok m
      → length t.log + 1 < 2 ^ 63
      → Reach width m s
      → cursor s.reader ≡ some c
      → Later width s t
      → Reach width m t × Balanced c (length s.got) t.got (cursor t.reader)
  later-Balanced width requested {s} c made few r born now = (r, rw born (omega arith, omega arith))
  later-Balanced width requested c made few r born (next l (by_producer st)) =
      let (reached, balance) =
        later-Balanced width requested c made (omega (arith, Publish-log st)) r born l in
      (then_step reached (by_producer st), balance)
  later-Balanced width requested {s = s} c made few r born (next {t} l (by_reader st)) =
      let (reached, balance) = later-Balanced width requested c made few r born l in
      let inv : Inv width t = new-Inv width requested made few reached in
      (
        then_step reached (by_reader st),
        Read-Balanced few inv.slots c (length s.got) st inv.reader_fresh balance,
      )

  -- Nothing is skipped unseen: between any two states of a consumer, with fewer than 2 ^ 63 - 1 items
  -- published, its position has grown by exactly the number of items that it was given and of those
  -- that `missed` has counted since; `missed` does not decrease; and the position never passes the
  -- one after the newest published item.
  pub position-accounts :
      (width requested : ℕ) {m : Queue B} {s t : System B} (c c' : Cursor)
      → new zero_byte requested ≡ ok m
      → length t.log + 1 < 2 ^ 63
      → Reach width m s
      → Later width s t
      → s.reader ≡ Reader.between c
      → t.reader ≡ Reader.between c'
      → (c'.pos + length s.got + c.missed ≡ c.pos + length t.got + c'.missed)
        × (c.missed ≤ c'.missed)
        × (c'.pos ≤ length t.log + 1)
  position-accounts width requested {m} {s} {t} c c' made few r l at_s at_t =
      let (reached, balance) = later-Balanced width requested c made few r (ap cursor at_s) l in
      let inv : Inv width t = new-Inv width requested made few reached in
      let (sum, more) = subst (λ o. Balanced c (length s.got) t.got o) (ap cursor at_t) balance in
      (sum, more, (subst (ReaderFresh width t.mem t.log) at_t inv.reader_fresh).1)
