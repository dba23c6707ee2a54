-- ===== src/Recorder/Ranks.antt =====
-- What `LatencyRecorder` answers after any sequence of calls.
use cpp_concurrency_toolbox.Base.{
  ℕ, ◌-◌, ◌≤◌, ◌<◌, ◌≡◌, inl, inr, refl, Bool, true, false, some, List, [], ◌∷◌, ◌++◌, length,
  get_elem?-some, append_nil, leb, ltb, Bool-cases, arith, ap, sym, ◌∙◌,
}
use cpp_concurrency_toolbox.Recorder.{
  Recorder, record_sample, merge_from, ensure_sorted, value_at, is_empty, clamped, percentile,
  min_ns, max_ns,
}
use cpp_concurrency_toolbox.Recorder.Sorting.{
  count, IsSorted, sort-IsSorted, count-sort, count-append, length-sort, IsSorted-rank,
}

-- The flag `sorted_` tells the truth.
abbrev pub Honest : Recorder → Type 0
Honest r = r.sorted ≡ true → IsSorted r.samples

-- The value has rank `i` among the samples.
abbrev pub HasRank : List ℕ → ℕ → ℕ → Type 0
HasRank samples i v = (count (λ x. ltb x v) samples ≤ i) × (i < count (λ x. leb x v) samples)

abbrev pub SameSamples : List ℕ → List ℕ → Type 0
SameSamples xs ys = (test : ℕ → Bool) → count test xs ≡ count test ys

count-nil : (test : ℕ → Bool) (xs : List ℕ) → count test (xs ++ []) ≡ count test xs
count-nil test xs = ap (count test) (append_nil xs)

module _ (r : Recorder) (honest : Honest r) where
  ensured : IsSorted (ensure_sorted r).samples
  ensured = elim (Bool-cases r.sorted) [
    | inl sorted ↦ rw sorted (honest sorted)
    | inr unsorted ↦ rw unsorted (sort-IsSorted r.samples)
  ]

  ensured-SameSamples : SameSamples (ensure_sorted r).samples r.samples
  ensured-SameSamples test = elim (Bool-cases r.sorted) [
    | inl sorted ↦ rw sorted refl
    | inr unsorted ↦ rw unsorted (count-sort test r.samples)
  ]

  ensured-length : length (ensure_sorted r).samples ≡ length r.samples
  ensured-length = elim (Bool-cases r.sorted) [
    | inl sorted ↦ rw sorted refl
    | inr unsorted ↦ rw unsorted (length-sort r.samples)
  ]

  ranked :
      (i : ℕ)
      → i < length r.samples
      → (v : ℕ) × (value_at (ensure_sorted r) i ≡ some v) × HasRank r.samples i v
  ranked i below =
      let (v, at_i) = get_elem?-some (ensure_sorted r).samples i (omega (arith, ensured-length)) in
      let (less, more) = IsSorted-rank (ensure_sorted r).samples i v ensured at_i in
      (
        v,
        at_i,
        (
          omega (arith, ensured-SameSamples (λ x. ltb x v)),
          omega (arith, ensured-SameSamples (λ x. leb x v)),
        ),
      )

not_empty : (xs : List ℕ) → 0 < length xs → is_empty xs ≡ false
not_empty [] positive = absurd (omega arith)
not_empty (x ∷ xs) positive = refl

-- `percentile`, `min_ns` and `max_ns` return order statistics: for a recorder with samples whose flag
-- tells the truth, `percentile` returns a value v such that at most i samples are below v and more
-- than i are at most v, i the index computed or the last one if that is too large; `min_ns` does so
-- for i = 0, and `max_ns` for the last index. None of them changes the samples but for their order.
pub answers-HasRank :
    (r : Recorder) (index : ℕ → ℕ)
    → Honest r
    → 0 < length r.samples
    → ((v : ℕ) × ((percentile index r).0 ≡ some v)
        × HasRank r.samples (clamped (index (length r.samples)) (length r.samples)) v)
      × ((v : ℕ) × ((min_ns r).0 ≡ some v) × HasRank r.samples 0 v)
      × ((v : ℕ) × ((max_ns r).0 ≡ some v) × HasRank r.samples (length r.samples - 1) v)
      × SameSamples (percentile index r).1.samples r.samples
      × SameSamples (min_ns r).1.samples r.samples
      × SameSamples (max_ns r).1.samples r.samples
unfolding percentile min_ns max_ns
answers-HasRank r index honest some_sample = (
  rw (not_empty r.samples some_sample, ensured-length r honest)
      (ranked r honest (clamped (index (length r.samples)) (length r.samples)) (ground arith)),
  rw sorted_some (ranked r honest 0 some_sample),
  rw (sorted_some, ensured-length r honest) (ranked r honest (length r.samples - 1) (omega arith)),
  λ test. rw (not_empty r.samples some_sample) (ensured-SameSamples r honest test),
  ensured-SameSamples r honest,
  ensured-SameSamples r honest,
)
  where
    sorted_some : is_empty (ensure_sorted r).samples ≡ false
    sorted_some = not_empty (ensure_sorted r).samples (omega (arith, ensured-length r honest))

pub data Call : Type 0 where
  add : (ns : ℕ) → Call
  merge : (other : Recorder) → Call
  ask_percentile : (index : ℕ → ℕ) → Call
  ask_min ask_max : Call

unfoldable pub after : Call → Recorder → Recorder
after (Call.add ns) r = record_sample r ns
after (Call.merge other) r = merge_from r other
after (Call.ask_percentile index) r = (percentile index r).1
after Call.ask_min r = (min_ns r).1
after Call.ask_max r = (max_ns r).1

abbrev pub added : Call → List ℕ
added (Call.add ns) = ns ∷ []
added (Call.merge other) = other.samples
added _ = []

abbrev pub run : List Call → Recorder → Recorder
run [] r = r
run (call ∷ calls) r = run calls (after call r)

abbrev pub all_added : List Call → List ℕ
all_added [] = []
all_added (call ∷ calls) = added call ++ all_added calls

ensured-Honest : (r : Recorder) → Honest r → Honest (ensure_sorted r)
ensured-Honest r honest = λ e. ensured r honest

percentile-keeps :
    (index : ℕ → ℕ) (r : Recorder)
    → Honest r
    → Honest (percentile index r).1 × SameSamples (percentile index r).1.samples (r.samples ++ [])
unfolding percentile
percentile-keeps index r honest = elim (Bool-cases (is_empty r.samples)) [
  | inl bare ↦ (rw bare honest, λ test. rw bare (sym (count-nil test r.samples)))
  | inr some_sample ↦ (
    rw some_sample (ensured-Honest r honest),
    λ test. rw some_sample (ensured-SameSamples r honest test ∙ sym (count-nil test r.samples)),
  )
]

after-keeps :
    (call : Call) (r : Recorder)
    → Honest r
    → Honest (after call r) × SameSamples (after call r).samples (r.samples ++ added call)
unfolding after percentile min_ns max_ns
after-keeps (Call.add ns) r honest = (λ e. absurd (cc), λ test. refl)
after-keeps (Call.merge other) r honest = (λ e. absurd (cc), λ test. refl)
after-keeps Call.ask_min r honest = (
  ensured-Honest r honest,
  λ test. ensured-SameSamples r honest test ∙ sym (count-nil test r.samples),
)
after-keeps Call.ask_max r honest = (
  ensured-Honest r honest,
  λ test. ensured-SameSamples r honest test ∙ sym (count-nil test r.samples),
)
after-keeps (Call.ask_percentile index) r honest = percentile-keeps index r honest

-- The sorted flag is always right and no sample is lost: after any sequence of calls on a recorder
-- whose flag tells the truth, such as a new one, the flag still does, and every value occurs as often
-- as it did in the recorder and in what was recorded and merged since, whichever test it is counted
-- by.
pub run-Honest :
    (calls : List Call) (r : Recorder)
    → Honest r
    → Honest (run calls r) × SameSamples (run calls r).samples (r.samples ++ all_added calls)
run-Honest [] r honest = (honest, λ test. sym (count-nil test r.samples))
run-Honest (call ∷ calls) r honest =
    let (still, one) = after-keeps call r honest in
    let (truth, rest) = run-Honest calls (after call r) still in
    (
      truth,
      λ test. omega (
        arith,
        rest test,
        one test,
        count-append test (after call r).samples (all_added calls),
        count-append test r.samples (added call),
        count-append test r.samples (added call ++ all_added calls),
        count-append test (added call) (all_added calls),
      ),
    )
