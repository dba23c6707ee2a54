-- ===== src/Clock/Interval.antt =====
-- Intervals on `TscClock`: differences of times since the epoch, and what a calibration measures.
use native.Mathlib.Nat.{add-mul, mul_comm, lt_of_mul-lt-mul_right}
use cpp_concurrency_toolbox.Base.{
  ℕ, zero, suc, ◌+◌, ◌-◌, ◌*◌, ◌^◌, ◌≤◌, ◌<◌, ◌≡◌, some, arith, wrap, sub_size, ap, ◌∙◌,
}
use cpp_concurrency_toolbox.Clock.{Clock, scaled, with_frequency, calibrate, to_ns, epoch_ns}
use cpp_concurrency_toolbox.Clock.Exact.{to_ns-exact, scaled-Exact}

-- Rounding down twice loses at most one.
quotients :
    (hz x y a b d : ℕ)
    → a * hz ≤ x
    → x < a * hz + hz
    → d * hz ≤ y
    → y < d * hz + hz
    → b * hz ≤ x + y
    → x + y < b * hz + hz
    → (a + d ≤ b) × (b ≤ a + d + 1)
quotients hz x y a b d a_le lt_a d_le lt_d b_le lt_b = (omega (arith, low), omega (arith, high))
  where
    low : a + d < b + 1
    low = lt_of_mul-lt-mul_right hz (omega (arith, add-mul a d hz, add-mul b 1 hz))

    high : b < a + d + 2
    high = lt_of_mul-lt-mul_right hz (omega (arith, add-mul (a + d) 2 hz, add-mul a d hz))

-- A latency taken as a difference of times since the epoch is the latency of the difference of the
-- counters, or one nanosecond more: for a measured frequency, an epoch that is not after the first
-- reading, a second reading that is not before it, both below 2 ^ 64, and a product that does not
-- overflow.
pub epoch_ns-difference :
    (c : Clock) (t0 t1 : ℕ)
    → 0 < c.tsc_hz
    → c.epoch_cycles ≤ t0
    → t0 ≤ t1
    → t1 < 2 ^ 64
    → (t1 - c.epoch_cycles) * 1000000000 < 2 ^ 64
    → (a : ℕ) × (b : ℕ) × (d : ℕ) × (epoch_ns c t0 ≡ some a)
      × (epoch_ns c t1 ≡ some b)
      × (to_ns c (t1 - t0) ≡ some d)
      × (a + d ≤ b)
      × (b ≤ a + d + 1)
unfolding epoch_ns
epoch_ns-difference c t0 t1 positive since after small fits =
    let (a, at_a, a_le, lt_a) = to_ns-exact c (t0 - c.epoch_cycles) positive (omega arith) in
    let (b, at_b, b_le, lt_b) = to_ns-exact c (t1 - c.epoch_cycles) positive fits in
    let (d, at_d, d_le, lt_d) = to_ns-exact c (t1 - t0) positive (omega arith) in
    let (low, high) =
      quotients c.tsc_hz ((t0 - c.epoch_cycles) * 1000000000) ((t1 - t0) * 1000000000) a b d a_le
        lt_a d_le lt_d (omega arith) (omega arith) in
    (
      a,
      b,
      d,
      ap (to_ns c) (elapsed t0 since (omega arith)) ∙ at_a,
      ap (to_ns c) (elapsed t1 (omega arith) small) ∙ at_b,
      at_d,
      low,
      high,
    )
  where
    elapsed :
        (t : ℕ) → c.epoch_cycles ≤ t → t < 2 ^ 64 → sub_size t c.epoch_cycles ≡ t - c.epoch_cycles
    elapsed t since small = omega arith

-- A calibration reproduces the interval that it measured, even if the counter wraps meanwhile: if the
-- counter moved on by `cycles` in `elapsed_ns`, which is neither 0 nor more than 10 ^ 9 times the
-- cycles, and the product of the cycles and 10 ^ 9 is below 2 ^ 64, then there is a frequency, and
-- `to_ns` of these cycles is `elapsed_ns` or more, by less than `elapsed_ns` divided by the
-- frequency.
pub calibrate-recovers :
    (c : Clock) (tsc0 cycles elapsed_ns : ℕ)
    → tsc0 < 2 ^ 64
    → 0 < elapsed_ns
    → elapsed_ns ≤ cycles * 1000000000
    → cycles * 1000000000 < 2 ^ 64
    → (hz : ℕ) × (ns : ℕ) × (calibrate tsc0 (wrap (tsc0 + cycles)) elapsed_ns c
        ≡ some (record c { tsc_hz = hz }))
      × (to_ns (record c { tsc_hz = hz }) cycles ≡ some ns)
      × (elapsed_ns ≤ ns)
      × (ns * hz < elapsed_ns * hz + elapsed_ns)
unfolding calibrate
calibrate-recovers c tsc0 cycles elapsed_ns in_range positive moved fits =
    let (hz, at_hz, hz_le, lt_hz) = scaled-Exact cycles elapsed_ns positive fits in
    let (ns, at_ns, ns_le, lt_ns) =
      to_ns-exact (record c { tsc_hz = hz }) cycles (some_hz hz lt_hz) fits in
    (
      hz,
      ns,
      ap (with_frequency c) (ap (λ d. scaled d elapsed_ns) difference ∙ at_hz),
      at_ns,
      at_least hz ns hz_le lt_ns,
      omega (arith, mul_comm hz elapsed_ns),
    )
  where
    difference : sub_size (wrap (tsc0 + cycles)) tsc0 ≡ cycles
    difference = omega arith

    some_hz : (hz : ℕ) → cycles * 1000000000 < hz * elapsed_ns + elapsed_ns → 0 < hz
    some_hz zero lt = absurd (omega arith)
    some_hz (suc h) lt = omega arith

    at_least :
        (hz ns : ℕ)
        → hz * elapsed_ns ≤ cycles * 1000000000
        → cycles * 1000000000 < ns * hz + hz
        → elapsed_ns ≤ ns
    at_least hz ns hz_le lt_ns =
        let fewer : elapsed_ns < ns + 1 =
          lt_of_mul-lt-mul_right hz (omega (arith, mul_comm hz elapsed_ns, add-mul ns 1 hz)) in
        omega arith
