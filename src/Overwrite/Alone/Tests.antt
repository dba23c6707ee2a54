-- ===== src/Overwrite/Alone/Tests.antt =====
-- Calls of one thread on a `SPMCOverwriteQueue` with two slots and payloads of one byte.
use cpp_concurrency_toolbox.Base.{
  ℕ, ◌+◌, ◌-◌, ◌≤◌, ◌<◌, ◌≡◌, refl, Option, none, some, List, [], ◌∷◌, map, length, get_elem?,
  arith, ok,
}
use cpp_concurrency_toolbox.Capacity.{check_and_round_overwrite, bit_ceil}
use cpp_concurrency_toolbox.Overwrite.{Queue, Cursor, Status, verdict, lapped_to, new}
use cpp_concurrency_toolbox.Overwrite.Safety.{fresh_queue}
use cpp_concurrency_toolbox.Overwrite.Alone.{publish, publish_all, store_item, try_read}
use cpp_concurrency_toolbox.Overwrite.Alone.Answers.{Reads}
use cpp_concurrency_toolbox.Overwrite.Alone.Feed.{publish_all-try_read}
use cpp_concurrency_toolbox.Overwrite.Steps.{Producer, Reader}
use cpp_concurrency_toolbox.Overwrite.Alone.Solo.{Published}
use cpp_concurrency_toolbox.Overwrite.Alone.Calls.{Called, call_alone-delivers}
use cpp_concurrency_toolbox.Overwrite.Alone.Losses.{throwing_publish-stalls, store_item-skips_lap}

two_slots : new {B = ℕ} 0 2 ≡ ok (fresh_queue 0 2)
unfolding new check_and_round_overwrite bit_ceil
two_slots = refl

abbrev items : List (ℕ → ℕ)
items = (λ i. 5) ∷ (λ i. 6) ∷ (λ i. 7) ∷ []

abbrev at : ℕ → Cursor
at p = record { pos = p; missed = 0 }

abbrev after : List (Option (ℕ → ℕ)) → Queue ℕ
after entries = publish_all 1 (fresh_queue 0 2) entries

answers :
    ((try_read 1 (after (map some items)) (at 1) (λ i. 0)).0 ≡ Status.lapped)
    × ((try_read 1 (after (map some items)) (at 1) (λ i. 0)).1 ≡ record { pos = 2; missed = 1 })
    × ((try_read 1 (after (map some items)) (at 2) (λ i. 0)).2 0 ≡ 6)
    × ((try_read 1 (after (map some items)) (at 3) (λ i. 0)).0 ≡ Status.ok_read)
    × ((try_read 1 (after (map some items)) (at 4) (λ i. 0)).0 ≡ Status.empty)
unfolding try_read publish verdict lapped_to
answers = (refl, refl, refl, refl, refl)

publish_all-try_read_example :
    let r = try_read 1 (after (map some items)) (at 1) (λ i. 0) in
    (1 ≡ length items + 1 → r ≡ (Status.empty, at 1, λ i. 0))
    × (1 ≤ length items
        → length items < 1 + 2
        → (item : ℕ → ℕ) × (get_elem? items 0 ≡ some item) × Reads 1 r (at 1) (λ i. 0) item)
    × (1 + 2 ≤ length items
        → r ≡ (
          Status.lapped,
          record { pos = length items - 2 + 1; missed = 0 + (length items - 2 + 1 - 1) },
          λ i. 0,
        ))
publish_all-try_read_example =
    publish_all-try_read 0 1 2 two_slots items (at 1) (λ i. 0) (omega arith) (omega arith)
      (omega arith) (omega arith)

-- The consumer has read item 1; item 2 throws and item 3 is published.
throwing_publish-stalls_example :
    let q = after (some (λ i. 5) ∷ none ∷ some (λ i. 7) ∷ []) in
    (try_read 1 q (at 2) (λ i. 0) ≡ (Status.empty, at 2, λ i. 0))
    × (1 ≤ 1 → q.published ≡ 3)
    × ((i : ℕ) (item : ℕ → ℕ) (d : Cursor)
        → get_elem? ((λ i. 7) ∷ []) i ≡ some item
        → d.pos ≡ 2 + 1 + i
        → Reads 1 (try_read 1 q d (λ i. 0)) d (λ i. 0) item)
throwing_publish-stalls_example =
    throwing_publish-stalls 0 1 2 two_slots ((λ i. 5) ∷ []) ((λ i. 7) ∷ []) (at 2) (λ i. 0)
      (omega arith) (omega arith) refl

-- Two items are published and the third is stored: item 2 is still there, and the consumer at 1 skips it.
store_item-skips_lap_example :
    let q = store_item 1 (after (some (λ i. 5) ∷ some (λ i. 6) ∷ [])) (λ i. 7) in
    (try_read 1 q (at 1) (λ i. 0) ≡ (Status.lapped, record { pos = 3; missed = 2 }, λ i. 0))
    × ((d : Cursor)
        → 1 < d.pos
        → d.pos ≤ 3
        → (x : ℕ → ℕ) × (get_elem? items (d.pos - 1) ≡ some x)
          × Reads 1 (try_read 1 q d (λ i. 0)) d (λ i. 0) x)
store_item-skips_lap_example =
    store_item-skips_lap 0 1 2 two_slots ((λ i. 5) ∷ (λ i. 6) ∷ []) (λ i. 7) (at 1) (λ i. 0)
      (omega arith) (omega arith) (omega arith) refl

call_alone-delivers_example :
    let q = after (map some items) in
    Published 1 (fresh_queue 0 2) [] Producer.idle q items Producer.idle
    × ((got : List (ℕ × (ℕ → ℕ))) × (c : Cursor) × Called 1 q [] (at 2) got (Reader.between c))
    × ((got : List (ℕ × (ℕ → ℕ))) (c : Cursor)
        → Called 1 q [] (at 2) got (Reader.between c)
        → (2 ≡ length items + 1 → (c ≡ at 2) × (got ≡ []))
          × (2 ≤ length items
              → length items < 2 + 2
              → (item : ℕ → ℕ) × (get_elem? items 1 ≡ some item)
                × (c ≡ at 3)
                × (out : ℕ → ℕ) × (got ≡ (2, out) ∷ [])
                × ((j : ℕ) → j < 1 → out j ≡ item j))
          × (2 + 2 ≤ length items
              → (c ≡ record { pos = length items - 2 + 1; missed = 0 + (length items - 2 + 1 - 2) })
                × (got ≡ [])))
call_alone-delivers_example =
    call_alone-delivers 0 1 2 two_slots items (at 2) [] (omega arith) (omega arith) (omega arith)
      (omega arith)
