-- ===== src/Broadcast/Naive.antt =====
-- `try_publish` of `SPMCBroadcastQueue` against the version that scans every cursor on every call,
-- which the comment in its body describes.
use cpp_concurrency_toolbox.Base.{
  ℕ, ◌+◌, ◌^◌, ◌<◌, ◌≡◌, inl, inr, refl, Bool, true, false, Option, List, [], ◌∷◌, length, arith,
  leb, if◌then◌else◌, Bool-cases, ap, ap₂, sym, ◌∙◌,
}
use cpp_concurrency_toolbox.Broadcast.{Queue, looks_full, put, min_cursor, try_publish, try_copy}
use cpp_concurrency_toolbox.Broadcast.Gate.{Gate, free-HasRoom, full-blocked, try_publish-decides}

pub data Call (A : Type 0) : Type 0 where
  publish : A → Call A
  copy : ℕ → Call A

pub data Reply (A : Type 0) : Type 0 where
  published : Bool → Reply A
  copied : Option A → Reply A

module _ {A : Type 0} (last : ℕ) where
  -- The naive version: no minimum is kept.
  abbrev pub naive_publish : Queue A → A → Bool × Queue A
  naive_publish q a =
      if looks_full q q.tail (min_cursor q.cursors last) then (false, q) else (true, put q a)

  -- The replies to a sequence of calls of one thread, for either version.
  abbrev pub replies : (Queue A → A → Bool × Queue A) → Queue A → List (Call A) → List (Reply A)
  replies version q [] = []
  replies version q (Call.publish a ∷ calls) =
      Reply.published (version q a).0 ∷ replies version (version q a).1 calls
  replies version q (Call.copy i ∷ calls) =
      Reply.copied (try_copy q i).0 ∷ replies version (try_copy q i).1 calls

  abbrev pub with_min : Queue A → ℕ → Queue A
  with_min q least = record q { cached_min = least }

  publish-same :
      (q : Queue A) (a : A) (least : ℕ)
      → Gate last q
      → q.tail < 2 ^ 63
      → ((try_publish last q a).0 ≡ (naive_publish (with_min q least) a).0)
        × (with_min (try_publish last q a).1 least ≡ (naive_publish (with_min q least) a).1)
  unfolding try_publish
  publish-same q a least gate small = elim (Bool-cases (looks_full q q.tail q.cached_min)) [
    | inr free ↦ elim (Bool-cases (looks_full q q.tail (min_cursor q.cursors last))) [
      | inr roomy ↦ rw (free, roomy) (refl, refl)
      | inl full ↦ absurd (
          full-blocked last q a gate small full
            (free-HasRoom last q a gate small q.cached_min gate.cached free))
    ]
    | inl stale ↦ elim (Bool-cases (looks_full q q.tail (min_cursor q.cursors last))) [
      | inr roomy ↦ rw (stale, roomy) (refl, refl)
      | inl full ↦ rw (stale, full) (refl, refl)
    ]
  ]

  copy-same :
      (q : Queue A) (i least : ℕ)
      → q.tail < 2 ^ 63
      → Gate last q
      → ((try_copy (with_min q least) i).0 ≡ (try_copy q i).0)
        × ((try_copy (with_min q least) i).1 ≡ with_min (try_copy q i).1 least)
        × ((try_copy q i).1.tail ≡ q.tail)
        × Gate last (try_copy q i).1
  unfolding try_copy
  copy-same q i least small gate = elim (Bool-cases (leb q.tail (q.cursors i))) [
    | inl nothing ↦ rw nothing (refl, refl, refl, gate)
    | inr there ↦ rw there (
      refl,
      refl,
      refl,
      record {
        some_slot = gate.some_slot;
        behind = λ j le. ground (arith, gate.behind j le);
        room = λ j le. ground (arith, gate.room j le);
        cached = λ j le. ground (arith, gate.cached j le);
      },
    )
  ]

  replies-same :
      (q r : Queue A) (least : ℕ) (calls : List (Call A))
      → Gate last q
      → q.tail + length calls < 2 ^ 63
      → r ≡ with_min q least
      → replies (try_publish last) q calls ≡ replies naive_publish r calls
  replies-same q r least [] gate small e = refl
  replies-same q r least (Call.publish a ∷ calls) gate small e =
      let (answer, state) = publish-same q a least gate (omega arith) in
      let (room, grows, stays, still) = try_publish-decides last q a gate (omega arith) in
      ap₂ (λ b l. Reply.published b ∷ l) (answer ∙ ap (λ t. (naive_publish t a).0) (sym e))
        (replies-same (try_publish last q a).1 (naive_publish r a).1 least calls still
          (elim (Bool-cases (try_publish last q a).0) [
            | inl sent ↦ omega (arith, (grows sent).0)
            | inr refused ↦ omega (arith, (stays refused).0)
          ])
          (ap (λ t. (naive_publish t a).1) e ∙ sym state))
  replies-same q r least (Call.copy i ∷ calls) gate small e =
      let (answer, state, same_tail, still) = copy-same q i least (omega arith) gate in
      ap₂ (λ o l. Reply.copied o ∷ l) (sym (ap (λ t. (try_copy t i).0) e ∙ answer))
        (replies-same (try_copy q i).1 (try_copy r i).1 least calls still (omega arith)
          (ap (λ t. (try_copy t i).1) e ∙ state))

  -- The cached minimum changes nothing that a caller sees: from any queue in which no consumer is ahead
  -- of the tail, more than the capacity behind it or behind the cached minimum, every sequence of
  -- `try_publish` and `try_copy` of one thread, too short for the tail to reach 2 ^ 63, has the same
  -- replies as with the version that scans all cursors on every call, whatever that one has for a
  -- minimum.
  pub try_publish-naive :
      (q : Queue A) (least : ℕ) (calls : List (Call A))
      → Gate last q
      → q.tail + length calls < 2 ^ 63
      → replies (try_publish last) q calls ≡ replies naive_publish (with_min q least) calls
  try_publish-naive q least calls gate small =
      replies-same q (with_min q least) least calls gate small refl
