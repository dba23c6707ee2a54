-- ===== src/Bench/Count.antt =====
-- Sums over the consumers of `run_benchmark`.
use cpp_concurrency_toolbox.Base.{
  ℕ, zero, suc, ◌+◌, ◌≤◌, ◌<◌, ◌≡◌, inl, inr, refl, false, arith, update, ◌==◌, Bool-cases, ap, ◌∙◌,
}

abbrev pub sum : (ℕ → ℕ) → ℕ → ℕ
sum f zero = 0
sum f (suc n) = sum f n + f n

sum-update_above : (f : ℕ → ℕ) (i a n : ℕ) → n ≤ i → sum (update f i a) n ≡ sum f n
sum-update_above f i a zero le = refl
sum-update_above f i a (suc n) le = ground (arith, sum-update_above f i a n (omega arith))

-- One consumer changes its share.
pub sum-change :
    (f g : ℕ → ℕ) (i n : ℕ)
    → i < n
    → ((j : ℕ) → (i == j) ≡ false → g j ≡ f j)
    → sum g n + f i ≡ sum f n + g i
sum-change f g i zero below same = absurd (omega arith)
sum-change f g i (suc n) below same = elim (Bool-cases (i == n)) [
  | inl here ↦ ground (arith, sum-same n (λ j lt. same j (ground arith)))
  | inr there ↦ ground (arith, sum-change f g i n (ground arith) same, same n there)
]
  where
    sum-same : (n : ℕ) → ((j : ℕ) → j < n → g j ≡ f j) → sum g n ≡ sum f n
    sum-same zero h = refl
    sum-same (suc k) h = omega (arith, sum-same k (λ j lt. h j (omega arith)), h k (omega arith))

pub sum-update :
    {A : Type 0} (share : A → ℕ) (f : ℕ → A) (i n : ℕ) (a : A)
    → i < n
    → sum (λ j. share (update f i a j)) n + share (f i) ≡ sum (λ j. share (f j)) n + share a
sum-update share f i n a below =
    sum-change (λ j. share (f j)) (λ j. share (update f i a j)) i n below (λ j other. rw other refl)
    ∙ ap (λ t. sum (λ j. share (f j)) n + share t) (update-same f i a)
  where
    update-same : {A : Type 0} (f : ℕ → A) (i : ℕ) (a : A) → update f i a i ≡ a
    update-same f i a = ground arith
