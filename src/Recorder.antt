-- ===== src/Recorder.antt =====
-- benchmark/LatencyRecorder.hpp: `LatencyRecorder`, samples that are sorted when a rank is asked for.
-- `std::sort` is a sort by insertion. The index that `percentile` computes from `p` and the number of
-- samples, in floating point, is an argument.
pub mod Sorting
pub mod Ranks
mod Tests
use cpp_concurrency_toolbox.Base.{
  ℕ, suc, ◌+◌, ◌-◌, Bool, true, false, Option, none, some, List, [], ◌∷◌, ◌++◌, length, get_elem?,
  leb, if◌then◌else◌, wrap,
}

pub record Recorder : Type 0 where
  pub samples : List ℕ
  pub sorted : Bool

abbrev pub initial : Recorder
initial = record { samples = []; sorted = false }

abbrev pub record_sample : Recorder → ℕ → Recorder
record_sample r ns = record { samples = r.samples ++ (ns ∷ []); sorted = false }

abbrev pub merge_from : Recorder → Recorder → Recorder
merge_from r other = record { samples = r.samples ++ other.samples; sorted = false }

abbrev pub insert : ℕ → List ℕ → List ℕ
insert n [] = n ∷ []
insert n (x ∷ xs) = let rest = insert n xs in if leb n x then n ∷ x ∷ xs else x ∷ rest

-- `std::sort`, as called.
abbrev pub sort : List ℕ → List ℕ
sort [] = []
sort (x ∷ xs) = insert x (sort xs)

abbrev pub ensure_sorted : Recorder → Recorder
ensure_sorted r = if r.sorted then r else record { samples = sort r.samples; sorted = true }

-- A read past the end has no result.
abbrev pub value_at : Recorder → ℕ → Option ℕ
value_at r index = get_elem? r.samples index

abbrev pub is_empty : List ℕ → Bool
is_empty [] = true
is_empty (x ∷ xs) = false

abbrev pub clamped : (index size : ℕ) → ℕ
clamped index size = if leb size index then size - 1 else index

unfoldable pub percentile : (index : ℕ → ℕ) → Recorder → Option ℕ × Recorder
percentile index r =
    let s = ensure_sorted r in
    if is_empty r.samples
    then (some 0, r)
    else (value_at s (clamped (index (length s.samples)) (length s.samples)), s)

unfoldable pub min_ns : Recorder → Option ℕ × Recorder
min_ns r = let s = ensure_sorted r in (if is_empty s.samples then some 0 else value_at s 0, s)

unfoldable pub max_ns : Recorder → Option ℕ × Recorder
max_ns r =
    let s = ensure_sorted r in
    (if is_empty s.samples then some 0 else value_at s (length s.samples - 1), s)

-- What `mean_ns` divides in floating point: the sum, which wraps at 2 ^ 64, by the number of samples.
abbrev pub total : List ℕ → ℕ
total [] = 0
total (x ∷ xs) = wrap (x + total xs)
