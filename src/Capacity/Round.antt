-- ===== src/Capacity/Round.antt =====
-- What the capacity checks accept, and what they round to.
use native.Mathlib.Nat.{add-zero, pow-suc, pow-le-pow_right}
use mathlib.Core.Path.{subst}
use native.Mathlib.Decide.{dec_lt}
use cpp_concurrency_toolbox.Base.{
  ℕ, zero, suc, ◌+◌, ◌*◌, ◌^◌, ◌≤◌, ◌<◌, ◌≡◌, refl, arith, Bool-cases, ap, ltb, leb, inl, inr,
  Result, ok, err, capacity_below_two, capacity_above_maximum, capacity_not_power_of_two,
}
use cpp_concurrency_toolbox.Capacity.{
  double_until, bit_ceil, check_and_round, check_and_round_spmc, check_and_round_broadcast,
  check_and_round_overwrite,
}

-- `p` is the least power of two that is no less than `n`, for `n` at least 1.
pub record IsCeiling (n p : ℕ) : Type 0 where
  pub exponent : ℕ
  pub power : p ≡ 2 ^ exponent
  pub reaches : n ≤ p
  pub least : p < 2 * n

double_until-IsCeiling :
    (rounds j p n : ℕ)
    → p ≡ 2 ^ j
    → n ≤ 2 ^ (j + rounds)
    → p < 2 * n
    → IsCeiling n (double_until rounds p n)
unfolding double_until
double_until-IsCeiling zero j p n e below above = record {
  exponent = j;
  power = e;
  reaches = omega (arith, at_end);
  least = above;
}
  where
    at_end : n ≤ p
    at_end = rw e (rw add-zero at below)
double_until-IsCeiling (suc rounds) j p n e below above = elim (Bool-cases (leb n p)) [
  | inl reached ↦ record {
    exponent = j;
    power = rw reached e;
    reaches = rw reached (ground arith);
    least = rw reached above;
  }
  | inr more ↦ rw more (
      double_until-IsCeiling rounds (suc j) (p * 2) n (omega (arith, pow-suc 2 j))
        (subst (λ t. n ≤ 2 ^ t) later below) (ground arith))
]
  where
    later : j + suc rounds ≡ suc j + rounds
    later = omega arith

pub bit_ceil-IsCeiling : (n : ℕ) → 1 ≤ n → n ≤ 2 ^ 64 → IsCeiling n (bit_ceil n)
unfolding bit_ceil
bit_ceil-IsCeiling n pos fits = double_until-IsCeiling 64 0 1 n refl fits (omega arith)

-- A capacity that a queue with at most `2 ^ m` slots can have, for a request of `n`.
pub record IsCapacity (m n c : ℕ) : Type 0 where
  pub exponent : ℕ
  pub power : c ≡ 2 ^ exponent
  pub at_least_two : 1 ≤ exponent
  pub at_most : exponent ≤ m
  pub reaches : n ≤ c
  pub least : c < 2 * n

-- The outcome that the request `n` calls for.
abbrev pub Verdict : ℕ → ℕ → Result ℕ → Type 0
Verdict m n (ok c) = (2 ≤ n) × (n ≤ 2 ^ m) × IsCapacity m n c
Verdict m n (err capacity_below_two) = n < 2
Verdict m n (err capacity_above_maximum) = (2 ≤ n) × (2 ^ m < n)
Verdict m n (err capacity_not_power_of_two) = ⊥

IsCeiling-IsCapacity : (m n c : ℕ) → 2 ≤ n → n ≤ 2 ^ m → IsCeiling n c → IsCapacity m n c
IsCeiling-IsCapacity m n c two fits top = record {
  exponent = top.exponent;
  power = top.power;
  at_least_two = elim (dec_lt 0 top.exponent) [
    | yes some_bit ↦ some_bit
    | no no_bit ↦ absurd (omega (arith, ap (λ (t : ℕ). 2 ^ t) (exponent-zero no_bit)))
  ];
  at_most = elim (dec_lt m top.exponent) [
    | yes above ↦ absurd (omega (arith, pow-suc 2 m, pow-le-pow_right {n = 2} (omega arith) above))
    | no small ↦ omega arith
  ];
  reaches = top.reaches;
  least = top.least;
}
  where
    exponent-zero : ¬ (0 < top.exponent) → top.exponent ≡ 0
    exponent-zero h = omega arith

check_and_round-Verdict : (m n : ℕ) → m ≤ 63 → Verdict m n (check_and_round (2 ^ m) n)
unfolding check_and_round
check_and_round-Verdict m n small = elim (Bool-cases (ltb n 2)) [
  | inl below ↦ rw below (ground arith)
  | inr two ↦ rw two (elim (Bool-cases (ltb (2 ^ m) n)) [
    | inl above ↦ rw above (ground arith)
    | inr fits ↦ rw fits (
      ground arith,
      ground arith,
      IsCeiling-IsCapacity m n (bit_ceil n) (ground arith) (ground arith)
          (bit_ceil-IsCeiling n (ground arith) (reach (ground arith))),
    )
  ])
]
  where
    reach : n ≤ 2 ^ m → n ≤ 2 ^ 64
    reach h = omega (arith, pow-le-pow_right {n = 2} (omega arith) small)

-- Each of the three capacity checks throws exactly when the request is below 2 or above its
-- maximum (2 ^ 63, 2 ^ 63 and 2 ^ 62 slots), and otherwise returns the least power of two that is no
-- less than the request: at least 2, at most the maximum, and less than twice the request.
pub capacity_checks :
    (n : ℕ)
    → Verdict 63 n (check_and_round_spmc n)
      × Verdict 63 n (check_and_round_broadcast n)
      × Verdict 62 n (check_and_round_overwrite n)
unfolding check_and_round_spmc check_and_round_broadcast check_and_round_overwrite
capacity_checks n = (
  check_and_round-Verdict 63 n (omega arith),
  check_and_round-Verdict 63 n (omega arith),
  check_and_round-Verdict 62 n (omega arith),
)
