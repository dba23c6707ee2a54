-- ===== src/Recorder/Tests.antt =====
-- `LatencyRecorder` at concrete inputs: three samples, and the median.
use cpp_concurrency_toolbox.Base.{ℕ, false, ◌-◌, ◌/◌, ◌≡◌, refl, some, List, [], ◌∷◌, ◌++◌, arith}
use cpp_concurrency_toolbox.Recorder.{
  Recorder, initial, sort, clamped, percentile, min_ns, max_ns, total,
}
use cpp_concurrency_toolbox.Recorder.Ranks.{
  Call, Honest, HasRank, SameSamples, run, all_added, answers-HasRank, run-Honest,
}

abbrev half : ℕ → ℕ
half size = size / 2

abbrev three : Recorder
three = record { samples = 9 ∷ 4 ∷ 7 ∷ []; sorted = false }

three-Honest : Honest three
three-Honest e = absurd (cc)

order : sort (9 ∷ 4 ∷ 7 ∷ []) ≡ 4 ∷ 7 ∷ 9 ∷ []
order = refl

answers :
    ((percentile half three).0 ≡ some 7) × ((max_ns three).0 ≡ some 9) × (total three.samples ≡ 20)
unfolding percentile max_ns
answers = (refl, refl, refl)

answers-HasRank_example :
    ((v : ℕ) × ((percentile half three).0 ≡ some v) × HasRank three.samples (clamped (half 3) 3) v)
    × ((v : ℕ) × ((min_ns three).0 ≡ some v) × HasRank three.samples 0 v)
    × ((v : ℕ) × ((max_ns three).0 ≡ some v) × HasRank three.samples (3 - 1) v)
    × SameSamples (percentile half three).1.samples three.samples
    × SameSamples (min_ns three).1.samples three.samples
    × SameSamples (max_ns three).1.samples three.samples
answers-HasRank_example = answers-HasRank three half three-Honest (omega arith)

abbrev calls : List Call
calls = Call.add 9 ∷ Call.ask_max ∷ Call.merge three ∷ Call.ask_percentile half ∷ []

initial-Honest : Honest initial
initial-Honest e = absurd (cc)

run-Honest_example :
    Honest (run calls initial)
    × SameSamples (run calls initial).samples (initial.samples ++ all_added calls)
run-Honest_example = run-Honest calls initial initial-Honest
