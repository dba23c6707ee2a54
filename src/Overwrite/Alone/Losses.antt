-- ===== src/Overwrite/Alone/Losses.antt =====
-- Where a consumer of `SPMCOverwriteQueue` gets less than the ring holds: after an exception in `publish`,
-- and in between the last two stores of `publish`.
use native.Mathlib.Nat.{one-le-pow}
use cpp_concurrency_toolbox.Base.{
  ℕ, suc, ◌+◌, ◌-◌, ◌%◌, ◌^◌, ◌≤◌, ◌<◌, ◌≡◌, none, some, List, [], ◌∷◌, ◌++◌, map, length,
  get_elem?, arith, ok, ap, sym, subst, ◌∙◌, length-append, length-map, mod_injective, mod_lap,
  get_elem?-map, get_elem?-some, get_elem?-after, lt_of_get_elem?, append_snoc, length-snoc,
  map-append,
}
use cpp_concurrency_toolbox.Overwrite.{Queue, Cursor, Status, lapped_to, new}
use cpp_concurrency_toolbox.Overwrite.Alone.{store_item, publish_all, try_read}
use cpp_concurrency_toolbox.Overwrite.Alone.Ring.{Holds, store_item-Holds, publish_all-Holds}
use cpp_concurrency_toolbox.Overwrite.Alone.Answers.{Reads, held-Reads, broken-empty, behind-lapped}
use cpp_concurrency_toolbox.Overwrite.Alone.Feed.{new-Holds, publish_all-published, all_items}

-- A count that lags by one, for a consumer that is one lap behind: its own position is the oldest that
-- the count admits.
lapped_to-newest :
    (capacity published newest n : ℕ) (c : Cursor)
    → 1 ≤ c.pos
    → 1 ≤ capacity
    → c.missed < c.pos
    → c.pos + capacity ≡ n
    → n < 2 ^ 63
    → published + 1 ≡ n
    → newest ≡ n
    → lapped_to capacity published newest c ≡ record { pos = n; missed = c.missed + capacity }
unfolding lapped_to
lapped_to-newest capacity published newest n c least some_slot fewer lap few lags last =
    ground arith

module _ {B : Type 0} where
  entry_at :
      (log later : List (ℕ → B)) (p i : ℕ)
      → p ≡ length log + i
      → get_elem? (map some log ++ (none ∷ map some later)) p ≡ get_elem? (none ∷ map some later) i
  entry_at log later p i e =
      ap (get_elem? (map some log ++ (none ∷ map some later)))
        (omega (arith, length-map (λ t. some t) log))
      ∙ get_elem?-after (map some log) (none ∷ map some later) i

module _ {B : Type 0} (zero_byte : B) (width requested : ℕ) where
  module _ {m : Queue B} (made : new zero_byte requested ≡ ok m) where
    -- An exception in `publish` stalls the feed: once the constructor has thrown after `log` was
    -- published on a new queue, and while at most capacity - 1 more items are published, fewer than
    -- 2 ^ 63 - 2 in all, a consumer at the next position is told `Empty` by `try_read`, although
    -- `published_count` counts the later items and a consumer that stands at any of them reads it.
    pub throwing_publish-stalls :
        (log later : List (ℕ → B)) (c : Cursor) (out : ℕ → B)
        → length log + length later + 2 < 2 ^ 63
        → length later < m.capacity
        → c.pos ≡ length log + 1
        → let q = publish_all width m (map some log ++ (none ∷ map some later)) in
          (try_read width q c out ≡ (Status.empty, c, out))
          × (1 ≤ length later → q.published ≡ length log + 1 + length later)
          × ((i : ℕ) (item : ℕ → B) (d : Cursor)
              → get_elem? later i ≡ some item
              → d.pos ≡ c.pos + 1 + i
              → Reads width (try_read width q d out) d out item)
    throwing_publish-stalls log later c out few short next =
        let (k, size, holds, at) = new-Holds zero_byte width requested made in
        let n = length-map (λ t. some t) log in
        let n' = length-map (λ t. some t) later in
        let one_more : length (map some log ++ (none ∷ [])) ≡ length log + 1 =
          length-snoc (map some log) none ∙ omega arith in
        let all = length-append (map some log) (none ∷ map some later) in
        let after =
          publish_all-Holds width m [] (map some log ++ (none ∷ map some later)) (omega arith)
            holds in
        let q = publish_all width m (map some log ++ (none ∷ map some later)) in
        (
          broken-empty width q c out after (omega arith) (omega arith)
              (entry_at log later (c.pos - 1) 0 (omega arith)) (omega arith),
          λ some_item.
              ap (λ t. (publish_all width m t).published)
                (sym (append_snoc (map some log) (map some later) none))
              ∙ publish_all-published width m (map some log ++ (none ∷ [])) later some_item
                  (omega (arith, one_more))
              ∙ omega (arith, at, one_more),
          λ i item d there here.
              held-Reads width q d out after (omega arith) (omega arith) item
                (entry_at log later (d.pos - 1) (suc i) (omega arith)
                  ∙ get_elem?-map (λ t. some t) later i there)
                (omega arith) (omega (arith, lt_of_get_elem? later i there)),
        )

    -- A consumer loses a whole lap though one item was overwritten: in between the store of `publish`
    -- to the slot and that to `published_`, after fewer than 2 ^ 63 - 2 publications on a new queue, a
    -- consumer exactly a lap behind that counts fewer missed items than its position is moved by
    -- `try_read` to the newest item, with the capacity added to `missed`, although every one of the
    -- `capacity` items after its position is still there to be read.
    pub store_item-skips_lap :
        (log : List (ℕ → B)) (item : ℕ → B) (c : Cursor) (out : ℕ → B)
        → length log + 2 < 2 ^ 63
        → 1 ≤ c.pos
        → c.missed < c.pos
        → c.pos + m.capacity ≡ length log + 1
        → let q = store_item width (publish_all width m (map some log)) item in
          (try_read width q c out
            ≡ (Status.lapped, record { pos = length log + 1; missed = c.missed + m.capacity }, out))
          × ((d : Cursor)
              → c.pos < d.pos
              → d.pos ≤ length log + 1
              → (x : ℕ → B) × (get_elem? (log ++ (item ∷ [])) (d.pos - 1) ≡ some x)
                × Reads width (try_read width q d out) d out x)
    store_item-skips_lap log item c out few least fewer lap =
        let (k, size, holds, at) = new-Holds zero_byte width requested made in
        let n = length-map (λ t. some t) log in
        let n' = length-snoc (map some log) (some item) in
        let before = publish_all-Holds width m [] (map some log) (omega arith) holds in
        let q = store_item width (publish_all width m (map some log)) item in
        let after : Holds width k q (map some (log ++ (item ∷ []))) =
          subst (Holds width k q) (sym (map-append (λ t. some t) log (item ∷ [])))
            (store_item-Holds width before (omega arith) item) in
        let few' : length (map some (log ++ (item ∷ []))) ≡ length log + 1 =
          length-map (λ t. some t) (log ++ (item ∷ [])) ∙ length-snoc log item ∙ omega arith in
        (
          (let (newest, past, seen, near, same, e) =
                behind-lapped width q c out after (omega arith) least
                  (λ p first last.
                    all_items (log ++ (item ∷ [])) p first
                      (omega (arith, length-map (λ t. some t) (log ++ (item ∷ [])))))
                  (omega arith) in
              e
              ∙ ap (λ t. (Status.lapped, lapped_to t q.published newest c, out))
                  (after.capacity ∙ sym size)
              ∙ ap (λ t. (Status.lapped, t, out))
                  (lapped_to-newest m.capacity q.published newest (length log + 1) c least
                    (omega (arith, one-le-pow k 2)) fewer lap (omega arith)
                    (omega (
                      arith,
                      at,
                      publish_all-published width m [] log (omega (arith, one-le-pow k 2))
                          (omega arith),
                    ))
                    (mod_injective (2 ^ k) newest (length log + 1) (omega arith) (omega arith)
                      (same ∙ sym (mod_lap (2 ^ k) c.pos) ∙ ap (λ t. t % 2 ^ k) (omega arith))))),
          λ d past near.
              let (x, there) =
                get_elem?-some (log ++ (item ∷ [])) (d.pos - 1)
                  (omega (arith, length-snoc log item)) in
              (
                x,
                there,
                held-Reads width q d out after (omega arith) (omega arith) x
                    (get_elem?-map (λ t. some t) (log ++ (item ∷ [])) (d.pos - 1) there)
                    (omega arith) (omega arith),
              ),
        )
