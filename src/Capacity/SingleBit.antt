-- ===== src/Capacity/SingleBit.antt =====
-- `std::has_single_bit` accepts the powers of two and nothing else.
use native.Mathlib.Nat.{pow-suc, one-le-pow, mod_self}
use native.Mathlib.Decide.{dec_lt}
use mathlib.Core.WellFounded
use cpp_concurrency_toolbox.Base.{
  ℕ, zero, suc, ◌-◌, ◌/◌, ◌%◌, ◌^◌, ◌<◌, ◌≡◌, refl, arith, bit_and, bit_and-halves, lt_wf,
  bit_and-mask, true, ap, ◌∙◌, ◌↔◌,
}
use cpp_concurrency_toolbox.Capacity.{has_single_bit}

abbrev IsPower : ℕ → Type 0
IsPower n = (k : ℕ) × (n ≡ 2 ^ k)

bit_and_self : (n : ℕ) → bit_and n n ≡ n
bit_and_self n = WellFounded.induction lt_wf {C = λ a. bit_and a a ≡ a} n step
  where
    step : (a : ℕ) → ((b : ℕ) → b < a → bit_and b b ≡ b) → bit_and a a ≡ a
    step zero smaller = refl
    step (suc a) smaller =
        omega (arith, bit_and-halves (suc a) (suc a), smaller (suc a / 2) (omega arith))

IsPower-of_no_common_bit : (n : ℕ) → 0 < n → bit_and n (n - 1) ≡ 0 → IsPower n
IsPower-of_no_common_bit n =
    WellFounded.induction lt_wf {C = λ a. 0 < a → bit_and a (a - 1) ≡ 0 → IsPower a} n step
  where
    step :
        (a : ℕ)
        → ((b : ℕ) → b < a → 0 < b → bit_and b (b - 1) ≡ 0 → IsPower b)
        → 0 < a
        → bit_and a (a - 1) ≡ 0
        → IsPower a
    step a smaller pos clear = elim (dec_lt 0 (a % 2)) [
      | yes odd ↦ (
        0,
        omega (
          arith,
          bit_and-halves a (a - 1),
          bit_and_self (a / 2),
          ap (λ (t : ℕ). bit_and (a / 2) t) (below_odd odd),
        ),
      )
      | no even ↦
          let (k, e) = smaller (a / 2) (omega arith) (omega arith) (
            omega (
              arith,
              bit_and-halves a (a - 1),
              ap (λ (t : ℕ). bit_and (a / 2) t) (below_even even),
            )) in
          (suc k, omega (arith, pow-suc 2 k))
    ]
      where
        below_odd : 0 < a % 2 → (a - 1) / 2 ≡ a / 2
        below_odd h = omega arith

        below_even : ¬ (0 < a % 2) → (a - 1) / 2 ≡ a / 2 - 1
        below_even h = omega arith

no_common_bit_of_power : (k : ℕ) → bit_and (2 ^ k) (2 ^ k - 1) ≡ 0
no_common_bit_of_power k = bit_and-mask k (2 ^ k) ∙ mod_self (2 ^ k)

-- The constructor's test `std::has_single_bit(capacity)` passes exactly for the powers of two; it
-- fails for 0.
pub has_single_bit-IsPower : (n : ℕ) → ((has_single_bit n ≡ true) ↔ ((k : ℕ) × (n ≡ 2 ^ k)))
unfolding has_single_bit
has_single_bit-IsPower n = (
  λ h. IsPower-of_no_common_bit n (ground arith) (ground arith),
  λ (k, e). rw e (ground (arith, no_common_bit_of_power k, one-le-pow k 2)),
)
