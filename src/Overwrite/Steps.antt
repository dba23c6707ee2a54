-- ===== src/Overwrite/Steps.antt =====
-- The threads of `SPMCOverwriteQueue`, one access to shared memory at a time: the producer in
-- `publish`, and one consumer in `make_consumer` and `try_read`. A consumer writes nothing that another
-- thread reads, so that any number of them behave as this one does. The atomics and the fences are
-- taken as sequentially consistent.
use cpp_concurrency_toolbox.Base.{
  ℕ, suc, ◌+◌, ◌/◌, ◌<◌, ◌≡◌, ◌≢◌, List, [], ◌∷◌, ◌++◌, wrap, update,
}
use cpp_concurrency_toolbox.Overwrite.{
  Slot, Queue, Cursor, writing_seq, stable_seq, lapped_to, Verdict, verdict, slot_of, make_consumer,
}

-- Where the producer stands. `written` bytes of the payload are in the slot.
pub data Producer (B : Type 0) : Type 0 where
  idle : Producer B
  writing : (pos : ℕ) (tmp : ℕ → B) (written : ℕ) → Producer B
  stored : (pos : ℕ) → Producer B  -- before the store to `published_`

-- Where the consumer stands. `read` bytes are in `out`.
pub data Reader (B : Type 0) : Type 0 where
  unborn : Reader B
  between : (c : Cursor) → Reader B
  loaded : (c : Cursor) (s1 : ℕ) → Reader B
  copying : (c : Cursor) (s1 : ℕ) (out : ℕ → B) (read : ℕ) → Reader B
  lapping : (c : Cursor) (newest : ℕ) → Reader B  -- before the load of `published_`

module _ {B : Type 0} where
  abbrev pub with_slot : Queue B → ℕ → Slot B → Queue B
  with_slot m i s = record m { slots = update m.slots i s }

  abbrev pub with_seq : Queue B → ℕ → ℕ → Queue B
  with_seq m pos seq = with_slot m (slot_of m pos) (record (m.slots (slot_of m pos)) { seq = seq })

  abbrev pub with_byte : Queue B → ℕ → ℕ → B → Queue B
  with_byte m pos i b = with_slot m (slot_of m pos) (record (m.slots (slot_of m pos)) {
    data_bytes = update (m.slots (slot_of m pos)).data_bytes i b;
  })

-- `log` is the history of the payloads that have been published.
pub data Publish {B : Type 0} (width : ℕ) (m : Queue B) (log : List (ℕ → B))
    : Producer B → Queue B → List (ℕ → B) → Producer B → Type 0 where
  mark :
      (tmp : ℕ → B) (pos : ℕ)
      → pos ≡ wrap (m.write_pos + 1)
      → Publish width m log Producer.idle
          (record (with_seq m pos (writing_seq pos)) { write_pos = pos })
          log
          (Producer.writing pos tmp 0)
  copy_in :
      {pos i : ℕ} {tmp : ℕ → B}
      → i < width
      → Publish width m log
          (Producer.writing pos tmp i)
          (with_byte m pos i (tmp i))
          log
          (Producer.writing pos tmp (suc i))
  store_seq :
      {pos : ℕ} {tmp : ℕ → B}
      → Publish width m log
          (Producer.writing pos tmp width)
          (with_seq m pos (stable_seq pos))
          (log ++ (tmp ∷ []))
          (Producer.stored pos)
  store_published :
      {pos : ℕ}
      → Publish width m log (Producer.stored pos) (record m { published = pos }) log Producer.idle

-- `got` is the history of what `try_read` has returned with `Ok`: the position and the payload.
pub data Read {B : Type 0} (width : ℕ) (m : Queue B) (got : List (ℕ × (ℕ → B)))
    : Reader B → List (ℕ × (ℕ → B)) → Reader B → Type 0 where
  subscribe : Read width m got Reader.unborn got (Reader.between (make_consumer m))
  load_seq :
      {c : Cursor}
      → Read width m got (Reader.between c) got (Reader.loaded c (m.slots (slot_of m c.pos)).seq)
  -- `Empty` is returned.
  find_empty :
      {c : Cursor} {s1 : ℕ}
      → verdict c.pos s1 ≡ Verdict.nothing_new
      → Read width m got (Reader.loaded c s1) got (Reader.between c)
  find_lapped :
      {c : Cursor} {s1 newest : ℕ}
      → verdict c.pos s1 ≡ Verdict.overtaken newest
      → Read width m got (Reader.loaded c s1) got (Reader.lapping c newest)
  -- `out` is the caller's, with any content.
  begin_copy :
      {c : Cursor} {s1 : ℕ} (out : ℕ → B)
      → verdict c.pos s1 ≡ Verdict.readable
      → Read width m got (Reader.loaded c s1) got (Reader.copying c s1 out 0)
  copy_out :
      {c : Cursor} {s1 i : ℕ} {out : ℕ → B}
      → i < width
      → Read width m got
          (Reader.copying c s1 out i)
          got
          (Reader.copying c s1 (update out i ((m.slots (slot_of m c.pos)).data_bytes i)) (suc i))
  -- `Ok` is returned.
  accept :
      {c : Cursor} {s1 : ℕ} {out : ℕ → B}
      → s1 ≡ (m.slots (slot_of m c.pos)).seq
      → Read width m got
          (Reader.copying c s1 out width)
          (got ++ ((c.pos, out) ∷ []))
          (Reader.between (record c { pos = wrap (c.pos + 1) }))
  find_torn :
      {c : Cursor} {s1 : ℕ} {out : ℕ → B}
      → s1 ≢ (m.slots (slot_of m c.pos)).seq
      → Read width m got
          (Reader.copying c s1 out width)
          got
          (Reader.lapping c ((m.slots (slot_of m c.pos)).seq / 2))
  -- `Lapped` is returned.
  resume :
      {c : Cursor} {newest : ℕ}
      → Read width m got
          (Reader.lapping c newest)
          got
          (Reader.between (lapped_to m.capacity m.published newest c))

pub record System (B : Type 0) : Type 0 where
  pub mem : Queue B
  pub producer : Producer B
  pub reader : Reader B
  pub log : List (ℕ → B)
  pub got : List (ℕ × (ℕ → B))

pub data Step {B : Type 0} (width : ℕ) (s : System B) : System B → Type 0 where
  by_producer :
      {m : Queue B} {log : List (ℕ → B)} {p : Producer B}
      → Publish width s.mem s.log s.producer m log p
      → Step width s (record s { mem = m; producer = p; log = log })
  by_reader :
      {got : List (ℕ × (ℕ → B))} {r : Reader B}
      → Read width s.mem s.got s.reader got r
      → Step width s (record s { reader = r; got = got })

abbrev pub start : {B : Type 0} → Queue B → System B
start m = record { mem = m; producer = Producer.idle; reader = Reader.unborn; log = []; got = [] }

pub data Reach {B : Type 0} (width : ℕ) (m : Queue B) : System B → Type 0 where
  begun : Reach width m (start m)
  then_step : {s t : System B} → Reach width m s → Step width s t → Reach width m t

pub data Later {B : Type 0} (width : ℕ) (s : System B) : System B → Type 0 where
  now : Later width s s
  next : {t u : System B} → Later width s t → Step width t u → Later width s u
