-- ===== src/Base/Bits.antt =====
-- `x & (capacity - 1)` as a remainder, and the wrap-around of `size_t` under it.
use Prim.Native.Nat.{
  ℕ, zero, suc, ◌+◌, ◌-◌, ◌*◌, ◌/◌, ◌%◌, ◌^◌, ◌≤◌, ◌<◌, ◌∣◌, min, bit_and, digits, bit_and-bitwise,
}
use mathlib.Core.Path.{◌≡◌, refl, ap, ◌∙◌, subst}
use mathlib.Core.WellFounded
use native.Mathlib.Nat.{pow-suc, one-le-pow, mod-mod_of_dvd, dvd_refl, dvd-mul_right_of_dvd}
use native.Mathlib.Nat.{
  div-add-mod, mul-add-mod_self_right, mod-eq_of_lt, mod-lt, add-zero, add-suc,
}
use native.Mathlib.Omega.{arith}
use cpp_concurrency_toolbox.Base.Order.{lt_wf}

-- `std::size_t` has 64 bits.
abbrev pub size_mod : ℕ
size_mod = 2 ^ 64

-- A result of `size_t` arithmetic.
abbrev pub wrap : ℕ → ℕ
wrap n = n % size_mod

-- `a - b` on `size_t`.
abbrev pub sub_size : ℕ → ℕ → ℕ
sub_size a b = wrap (a + size_mod - b)

abbrev and_rounds : ℕ → ℕ → ℕ → ℕ
and_rounds rounds a b = digits (λ _. zero) min rounds a b

-- Rounds beyond the digits of the first number change nothing.
and_rounds_enough : (n m a b : ℕ) → a ≤ n → a ≤ m → and_rounds n a b ≡ and_rounds m a b
and_rounds_enough zero zero zero b p q = refl
and_rounds_enough zero (suc m) zero b p q = refl
and_rounds_enough (suc n) zero zero b p q = refl
and_rounds_enough (suc n) (suc m) zero b p q = refl
and_rounds_enough (suc n) (suc m) (suc a) b p q =
    ap (λ t. t * 2 + min (suc a % 2) (b % 2))
      (and_rounds_enough n m (suc a / 2) (b / 2) (omega arith) (omega arith))
and_rounds_enough zero m (suc a) b p q = absurd (omega arith)
and_rounds_enough (suc n) zero (suc a) b p q = absurd (omega arith)

pub bit_and-halves : (a b : ℕ) → bit_and a b ≡ bit_and (a / 2) (b / 2) * 2 + min (a % 2) (b % 2)
bit_and-halves zero b = omega (arith, bit_and-bitwise 0 b, bit_and-bitwise 0 (b / 2))
bit_and-halves (suc a) b = omega (
  arith,
  bit_and-bitwise (suc a) b,
  bit_and-bitwise (suc a / 2) (b / 2),
  and_rounds_enough a (suc a / 2) (suc a / 2) (b / 2) (omega arith) (omega arith),
)

bit_and-no_mask : (a : ℕ) → bit_and a 0 ≡ 0
bit_and-no_mask a = WellFounded.induction lt_wf {C = λ n. bit_and n 0 ≡ 0} a step
  where
    step : (n : ℕ) → ((m : ℕ) → m < n → bit_and m 0 ≡ 0) → bit_and n 0 ≡ 0
    step zero smaller = refl
    step (suc n) smaller =
        omega (arith, bit_and-halves (suc n) 0, smaller (suc n / 2) (omega arith))

mod-two-pow-suc : (k a : ℕ) → a % 2 ^ suc k ≡ a / 2 % 2 ^ k * 2 + a % 2
mod-two-pow-suc k a =
    ap (λ t. t % 2 ^ suc k) split
    ∙ mul-add-mod_self_right quotient (2 ^ suc k) low
    ∙ mod-eq_of_lt small
  where
    quotient : ℕ
    quotient = a / 2 / 2 ^ k

    low : ℕ
    low = a / 2 % 2 ^ k * 2 + a % 2

    split : a ≡ quotient * 2 ^ suc k + low
    split = omega (arith, div-add-mod (a / 2) (2 ^ k), ap (λ (t : ℕ). quotient * t) (pow-suc 2 k))

    small : low < 2 ^ suc k
    small = omega (
      arith,
      pow-suc 2 k,
      one-le-pow k 2,
      mod-lt (a / 2) {m = 2 ^ k} (one-le-pow k 2 (omega arith)),
    )

-- A mask of `k` ones keeps the remainder by `2 ^ k`.
pub bit_and-mask : (k a : ℕ) → bit_and a (2 ^ k - 1) ≡ a % 2 ^ k
bit_and-mask zero a = omega (arith, bit_and-no_mask a)
bit_and-mask (suc k) a =
    bit_and-halves a (2 ^ suc k - 1)
    ∙ rw (half, bit_and-mask k (a / 2)) (omega (arith, mod-two-pow-suc k a, odd))
  where
    half : (2 ^ suc k - 1) / 2 ≡ 2 ^ k - 1
    half = omega (arith, pow-suc 2 k, one-le-pow k 2)

    odd : (2 ^ suc k - 1) % 2 ≡ 1
    odd = omega (arith, pow-suc 2 k, one-le-pow k 2)

two-pow-dvd : (k d : ℕ) → 2 ^ k ∣ 2 ^ (k + d)
two-pow-dvd k zero = rw add-zero (dvd_refl (2 ^ k))
two-pow-dvd k (suc d) = rw (add-suc, pow-suc) (dvd-mul_right_of_dvd (2 ^ k) (two-pow-dvd k d) 2)

-- Wrapping an index first does not change its slot, since the capacity divides `2 ^ 64`.
pub wrap-mod : (k a : ℕ) → k ≤ 64 → wrap a % 2 ^ k ≡ a % 2 ^ k
wrap-mod k a h =
    mod-mod_of_dvd (2 ^ k) a (subst (λ t. 2 ^ k ∣ 2 ^ t) sixty_four (two-pow-dvd k (64 - k)))
  where
    sixty_four : k + (64 - k) ≡ 64
    sixty_four = omega arith
