-- ===== src/Overwrite/Alone.antt =====
-- `publish` and `try_read` of `SPMCOverwriteQueue` as whole calls, while no other call runs.
mod Ring
mod Answers
mod Feed
mod Losses
mod Solo
mod Calls
mod Tests
use cpp_concurrency_toolbox.Base.{
  ℕ, ◌+◌, ◌/◌, Option, none, some, List, [], ◌∷◌, ltb, ◌==◌, if◌then◌else◌, wrap,
}
use cpp_concurrency_toolbox.Overwrite.{
  Queue, Cursor, Status, writing_seq, stable_seq, lapped_to, Verdict, verdict, slot_of,
}
use cpp_concurrency_toolbox.Overwrite.Steps.{with_slot, with_seq}

module _ {B : Type 0} (width : ℕ) where
  -- `memcpy`: what the target holds once the source's bytes are copied.
  abbrev pub copied : (source target : ℕ → B) → ℕ → B
  copied source target i = if ltb i width then source i else target i

  -- `publish` up to the fence: the position is taken and its slot marked.
  abbrev pub mark_next : Queue B → Queue B
  mark_next q =
      let pos = wrap (q.write_pos + 1) in
      record (with_seq q pos (writing_seq pos)) { write_pos = pos }

  -- `publish` up to the store to `published_`, which it does not do.
  abbrev pub store_item : Queue B → (ℕ → B) → Queue B
  store_item q item =
      let pos = wrap (q.write_pos + 1) in
      let m = mark_next q in
      with_slot m (slot_of m pos) (record {
        seq = stable_seq pos;
        data_bytes = copied item (m.slots (slot_of m pos)).data_bytes;
      })

  -- `publish` of the item that the constructor makes; `none` if the constructor throws, and then the
  -- exception leaves `publish`.
  unfoldable pub publish : Queue B → Option (ℕ → B) → Queue B
  publish q none = mark_next q
  publish q (some item) = record (store_item q item) { published = wrap (q.write_pos + 1) }

  abbrev pub publish_all : Queue B → List (Option (ℕ → B)) → Queue B
  publish_all q [] = q
  publish_all q (entry ∷ entries) = publish_all (publish q entry) entries

  -- `try_read` from its first decision on, with the cursor and the content of `out` that it leaves.
  abbrev pub act_on :
      Queue B → Cursor → (out : ℕ → B) → (s1 : ℕ) → Verdict → Status × Cursor × (ℕ → B)
  act_on q c out s1 Verdict.nothing_new = (Status.empty, c, out)
  act_on q c out s1 (Verdict.overtaken newest) =
      (Status.lapped, lapped_to q.capacity q.published newest c, out)
  act_on q c out s1 Verdict.readable =
      let s = q.slots (slot_of q c.pos) in
      if s1 == s.seq
      then (Status.ok_read, record c { pos = wrap (c.pos + 1) }, copied s.data_bytes out)
      else (Status.lapped, lapped_to q.capacity q.published (s.seq / 2) c, copied s.data_bytes out)

  unfoldable pub try_read : Queue B → Cursor → (ℕ → B) → Status × Cursor × (ℕ → B)
  try_read q c out =
      let s1 = (q.slots (slot_of q c.pos)).seq in act_on q c out s1 (verdict c.pos s1)
