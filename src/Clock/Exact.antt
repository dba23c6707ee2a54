-- ===== src/Clock/Exact.antt =====
-- When the conversion of `TscClock` is exact, and what it gives when its product overflows.
use native.Mathlib.Nat.{div-mul-le_self, lt-div-mul-add}
use cpp_concurrency_toolbox.Base.{
  ℕ, ◌+◌, ◌*◌, ◌/◌, ◌^◌, ◌≤◌, ◌<◌, ◌≡◌, refl, false, some, arith, ◌==◌, wrap,
}
use cpp_concurrency_toolbox.Clock.{Clock, scaled, to_ns}

pub scaled-Exact :
    (value by : ℕ)
    → 0 < by
    → value * 1000000000 < 2 ^ 64
    → (q : ℕ) × (scaled value by ≡ some q)
      × (q * by ≤ value * 1000000000)
      × (value * 1000000000 < q * by + by)
unfolding scaled
scaled-Exact value by positive fits = (
  wrap (value * 1000000000) / by,
  rw (nonzero) refl,
  omega (arith, div-mul-le_self (wrap (value * 1000000000)) by),
  omega (arith, lt-div-mul-add {a = wrap (value * 1000000000)} positive),
)
  where
    nonzero : (by == 0) ≡ false
    nonzero = ground arith

-- `to_ns` is exact while its product fits: for a measured frequency and a difference whose product with
-- 10 ^ 9 is below 2 ^ 64, the result is the number of whole nanoseconds, rounded down.
pub to_ns-exact :
    (c : Clock) (delta_cycles : ℕ)
    → 0 < c.tsc_hz
    → delta_cycles * 1000000000 < 2 ^ 64
    → (ns : ℕ) × (to_ns c delta_cycles ≡ some ns)
      × (ns * c.tsc_hz ≤ delta_cycles * 1000000000)
      × (delta_cycles * 1000000000 < ns * c.tsc_hz + c.tsc_hz)
unfolding to_ns
to_ns-exact c delta_cycles positive fits = scaled-Exact delta_cycles c.tsc_hz positive fits

-- Where the product does not fit, `to_ns` is wrong without notice: for a measured frequency and a
-- difference whose product with 10 ^ 9 reaches 2 ^ 64, the result is too small by at least the
-- nanoseconds that 2 ^ 64 stands for.
pub to_ns-overflows :
    (c : Clock) (delta_cycles : ℕ)
    → 0 < c.tsc_hz
    → 2 ^ 64 ≤ delta_cycles * 1000000000
    → (ns : ℕ) × (to_ns c delta_cycles ≡ some ns)
      × (ns * c.tsc_hz + 2 ^ 64 ≤ delta_cycles * 1000000000)
unfolding to_ns scaled
to_ns-overflows c delta_cycles positive large = (
  wrap (delta_cycles * 1000000000) / c.tsc_hz,
  rw nonzero refl,
  omega (arith, div-mul-le_self (wrap (delta_cycles * 1000000000)) c.tsc_hz),
)
  where
    nonzero : (c.tsc_hz == 0) ≡ false
    nonzero = ground arith
