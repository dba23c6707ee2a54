-- ===== src/Recorder/Sorting.antt =====
-- The sort of `LatencyRecorder` orders the samples and keeps how often each occurs.
use cpp_concurrency_toolbox.Base.{
  ℕ, zero, suc, ◌+◌, ◌≤◌, ◌<◌, ◌≡◌, inl, inr, refl, Bool, some, List, [], ◌∷◌, ◌++◌, length,
  get_elem?, leb, ltb, if◌then◌else◌, Bool-cases, arith, ap, ◌∙◌,
}
use cpp_concurrency_toolbox.Recorder.{insert, sort}

-- How many samples pass a test.
abbrev pub count : (ℕ → Bool) → List ℕ → ℕ
count test [] = 0
count test (x ∷ xs) = let rest = count test xs in if test x then suc rest else rest

abbrev pub NoneBelow : ℕ → List ℕ → Type 0
NoneBelow n [] = Unit
NoneBelow n (x ∷ xs) = (n ≤ x) × NoneBelow n xs

abbrev pub IsSorted : List ℕ → Type 0
IsSorted [] = Unit
IsSorted (x ∷ xs) = NoneBelow x xs × IsSorted xs

NoneBelow-weaken : (m n : ℕ) (xs : List ℕ) → m ≤ n → NoneBelow n xs → NoneBelow m xs
NoneBelow-weaken m n [] le all = tt
NoneBelow-weaken m n (x ∷ xs) le (first, rest) = (omega arith, NoneBelow-weaken m n xs le rest)

NoneBelow-insert : (m n : ℕ) (xs : List ℕ) → m ≤ n → NoneBelow m xs → NoneBelow m (insert n xs)
NoneBelow-insert m n [] le all = (le, tt)
NoneBelow-insert m n (x ∷ xs) le (first, rest) = elim (Bool-cases (leb n x)) [
  | inl before ↦ rw before (le, (first, rest))
  | inr after ↦ rw after (first, NoneBelow-insert m n xs le rest)
]

insert-IsSorted : (n : ℕ) (xs : List ℕ) → IsSorted xs → IsSorted (insert n xs)
insert-IsSorted n [] sorted = (tt, tt)
insert-IsSorted n (x ∷ xs) (first, rest) = elim (Bool-cases (leb n x)) [
  | inl before ↦
      rw before ((ground arith, NoneBelow-weaken n x xs (ground arith) first), (first, rest))
  | inr after ↦ rw after (NoneBelow-insert x n xs (ground arith) first, insert-IsSorted n xs rest)
]

pub sort-IsSorted : (xs : List ℕ) → IsSorted (sort xs)
sort-IsSorted [] = tt
sort-IsSorted (x ∷ xs) = insert-IsSorted x (sort xs) (sort-IsSorted xs)

count-insert :
    (test : ℕ → Bool) (n : ℕ) (xs : List ℕ) → count test (insert n xs) ≡ count test (n ∷ xs)
count-insert test n [] = refl
count-insert test n (x ∷ xs) = elim (Bool-cases (leb n x)) [
  | inl before ↦ rw before refl
  | inr after ↦ rw after (ground (arith, count-insert test n xs))
]

pub count-sort : (test : ℕ → Bool) (xs : List ℕ) → count test (sort xs) ≡ count test xs
count-sort test [] = refl
count-sort test (x ∷ xs) =
    count-insert test x (sort xs) ∙ ap (λ c. if test x then suc c else c) (count-sort test xs)

pub count-append :
    (test : ℕ → Bool) (xs ys : List ℕ) → count test (xs ++ ys) ≡ count test xs + count test ys
count-append test [] ys = omega arith
count-append test (x ∷ xs) ys = ground (arith, count-append test xs ys)

pub length-sort : (xs : List ℕ) → length (sort xs) ≡ length xs
length-sort [] = refl
length-sort (x ∷ xs) = length-insert x (sort xs) ∙ ap suc (length-sort xs)
  where
    length-insert : (n : ℕ) (ys : List ℕ) → length (insert n ys) ≡ suc (length ys)
    length-insert n [] = refl
    length-insert n (y ∷ ys) = ground (arith, length-insert n ys)

-- The value at an index of sorted samples has that rank.
below-none : (n : ℕ) (xs : List ℕ) → NoneBelow n xs → count (λ x. ltb x n) xs ≡ 0
below-none n [] all = refl
below-none n (x ∷ xs) (first, rest) = ground (arith, below-none n xs rest)

NoneBelow-get_elem? :
    (n : ℕ) (xs : List ℕ) (i : ℕ) {v : ℕ} → NoneBelow n xs → get_elem? xs i ≡ some v → n ≤ v
NoneBelow-get_elem? n [] i all e = absurd (cc)
NoneBelow-get_elem? n (x ∷ xs) zero (first, rest) e = ground arith
NoneBelow-get_elem? n (x ∷ xs) (suc i) (first, rest) e = NoneBelow-get_elem? n xs i rest e

pub IsSorted-rank :
    (xs : List ℕ) (i v : ℕ)
    → IsSorted xs
    → get_elem? xs i ≡ some v
    → (count (λ x. ltb x v) xs ≤ i) × (i < count (λ x. leb x v) xs)
IsSorted-rank [] i v sorted e = absurd (cc)
IsSorted-rank (x ∷ xs) zero v (first, rest) e = ground (arith, below-none x xs first)
IsSorted-rank (x ∷ xs) (suc i) v (first, rest) e =
    ground (arith, IsSorted-rank xs i v rest e, NoneBelow-get_elem? x xs i first e)
