-- ===== src/Overwrite/Alone/Feed.antt =====
-- What the calls of `SPMCOverwriteQueue` amount to for a consumer: a window of the feed.
use cpp_concurrency_toolbox.Base.{
  ℕ, ◌+◌, ◌-◌, ◌^◌, ◌≤◌, ◌<◌, ◌≡◌, refl, Option, none, some, List, [], ◌∷◌, ◌++◌, map, length,
  get_elem?, arith, ok, ap, sym, subst, ◌∙◌, length-map, get_elem?-map, get_elem?-some,
}
use cpp_concurrency_toolbox.Overwrite.{Queue, Cursor, Status, lapped_to, new}
use cpp_concurrency_toolbox.Overwrite.Safety.{fresh_queue, new-fresh}
use cpp_concurrency_toolbox.Overwrite.Alone.{publish, publish_all, try_read}
use cpp_concurrency_toolbox.Overwrite.Alone.Ring.{Holds, publish_all-Holds}
use cpp_concurrency_toolbox.Overwrite.Alone.Answers.{Reads, held-Reads, ahead-empty, behind-lapped}

lapped_to-oldest :
    (capacity published newest n : ℕ) (c : Cursor)
    → 1 ≤ c.pos
    → c.missed < c.pos
    → c.pos + capacity ≤ n
    → n < 2 ^ 63
    → published ≡ n
    → lapped_to capacity published newest c
      ≡ record { pos = n - capacity + 1; missed = c.missed + (n - capacity + 1 - c.pos) }
unfolding lapped_to
lapped_to-oldest capacity published newest n c least fewer far few all = ground arith

module _ {B : Type 0} where
  pub all_items :
      (log : List (ℕ → B)) (p : ℕ)
      → 1 ≤ p
      → p ≤ length log
      → (item : ℕ → B) × (get_elem? (map some log) (p - 1) ≡ some (some item))
  all_items log p first last =
      let (item, there) = get_elem?-some log (p - 1) (omega arith) in
      (item, get_elem?-map (λ t. some t) log (p - 1) there)

module _ {B : Type 0} (width : ℕ) where
  publish-write_pos :
      (q : Queue B) (entry : Option (ℕ → B))
      → q.write_pos + 1 < 2 ^ 63
      → (publish width q entry).write_pos ≡ q.write_pos + 1
  unfolding publish
  publish-write_pos q none few = omega arith
  publish-write_pos q (some item) few = omega arith

  publish-published :
      (q : Queue B) (item : ℕ → B)
      → q.write_pos + 1 < 2 ^ 63
      → (publish width q (some item)).published ≡ q.write_pos + 1
  unfolding publish
  publish-published q item few = omega arith

  -- The count is that of the last position once a call has gone through.
  pub publish_all-published :
      (q : Queue B) (entries : List (Option (ℕ → B))) (items : List (ℕ → B))
      → 1 ≤ length items
      → q.write_pos + length entries + length items < 2 ^ 63
      → (publish_all width q (entries ++ map some items)).published
        ≡ q.write_pos + length entries + length items
  publish_all-published q [] [] some_item few = absurd (omega arith)
  publish_all-published q [] (item ∷ []) some_item few =
      omega (arith, publish-published q item (omega arith))
  publish_all-published q [] (item ∷ next ∷ items) some_item few = omega (
    arith,
    publish-write_pos q (some item) (omega arith),
    publish_all-published (publish width q (some item)) [] (next ∷ items) (omega arith)
        (omega (arith, publish-write_pos q (some item) (omega arith))),
  )
  publish_all-published q (entry ∷ entries) items some_item few = omega (
    arith,
    publish-write_pos q entry (omega arith),
    publish_all-published (publish width q entry) entries items some_item
        (omega (arith, publish-write_pos q entry (omega arith))),
  )

module _ {B : Type 0} (zero_byte : B) (width requested : ℕ) where
  fresh-Holds : (k c : ℕ) → 1 ≤ k → c ≡ 2 ^ k → Holds width k (fresh_queue zero_byte c) []
  fresh-Holds k c two power = record {
    two = two;
    capacity = power;
    mask = omega (arith, power);
    write_at = refl;
    held = λ pos entry least there near. absurd (cc);
    ahead = λ pos after near. omega arith;
  }

  pub new-Holds :
      {m : Queue B}
      → new zero_byte requested ≡ ok m
      → (k : ℕ) × (m.capacity ≡ 2 ^ k) × Holds width k m [] × (m.write_pos ≡ 0)
  new-Holds {m} made =
      let (c, fit, e) = new-fresh zero_byte requested made in
      (
        fit.exponent,
        ap (λ q. q.capacity) e ∙ fit.power,
        subst (λ q. Holds width fit.exponent q []) (sym e)
            (fresh-Holds fit.exponent c fit.at_least_two fit.power),
        ap (λ q. q.write_pos) e,
      )

  module _ {m : Queue B} (made : new zero_byte requested ≡ ok m) where
    -- To a consumer the queue is a window of the feed: on a new queue, after any sequence of fewer than
    -- 2 ^ 63 - 1 publications, for a cursor at any position up to the next one that counts fewer
    -- missed items than its position, `try_read` returns `Empty` and changes nothing exactly at the
    -- next position; `Ok` with the very item of the position, byte for byte, if at most capacity - 1
    -- items have come after it; and `Lapped` otherwise, with the cursor at the oldest of the last
    -- `capacity` items and `missed` grown by the items in between.
    pub publish_all-try_read :
        (log : List (ℕ → B)) (c : Cursor) (out : ℕ → B)
        → length log + 1 < 2 ^ 63
        → 1 ≤ c.pos
        → c.missed < c.pos
        → c.pos ≤ length log + 1
        → let r = try_read width (publish_all width m (map some log)) c out in
          (c.pos ≡ length log + 1 → r ≡ (Status.empty, c, out))
          × (c.pos ≤ length log
              → length log < c.pos + m.capacity
              → (item : ℕ → B) × (get_elem? log (c.pos - 1) ≡ some item) × Reads width r c out item)
          × (c.pos + m.capacity ≤ length log
              → r ≡ (
                Status.lapped,
                record {
                  pos = length log - m.capacity + 1;
                  missed = c.missed + (length log - m.capacity + 1 - c.pos);
                },
                out,
              ))
    publish_all-try_read log c out few least fewer le =
        let (k, size, holds, at) = new-Holds made in
        let n : length (map some log) ≡ length log = length-map (λ t. some t) log in
        let after = publish_all-Holds width m [] (map some log) (omega arith) holds in
        let q = publish_all width m (map some log) in
        (
          λ next. ahead-empty width q c out after (omega arith) least (omega arith),
          λ old near.
              let (item, there) = get_elem?-some log (c.pos - 1) (omega arith) in
              (
                item,
                there,
                held-Reads width q c out after (omega arith) least item
                    (get_elem?-map (λ t. some t) log (c.pos - 1) there) (omega arith) (omega arith),
              ),
          λ far.
              let (newest, past, seen, near, same, e) =
                behind-lapped width q c out after (omega arith) least
                  (λ p first last. all_items log p first (omega arith)) (omega arith) in
              e
              ∙ ap (λ t. (Status.lapped, lapped_to t q.published newest c, out))
                  (after.capacity ∙ sym size)
              ∙ ap (λ t. (Status.lapped, t, out))
                  (lapped_to-oldest m.capacity q.published newest (length log) c least fewer far
                    (omega arith)
                    (publish_all-published width m [] log (omega arith) (omega arith)
                      ∙ omega (arith, at))),
        )
