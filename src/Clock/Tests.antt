-- ===== src/Clock/Tests.antt =====
-- `TscClock` at concrete inputs: a counter of 3 GHz.
use cpp_concurrency_toolbox.Base.{ℕ, ◌+◌, ◌*◌, ◌^◌, ◌≤◌, ◌<◌, ◌≡◌, refl, some, none, arith, wrap}
use cpp_concurrency_toolbox.Clock.{Clock, initial, scaled, calibrate, set_epoch, to_ns, epoch_ns}
use cpp_concurrency_toolbox.Clock.Exact.{to_ns-exact, to_ns-overflows}
use cpp_concurrency_toolbox.Clock.Interval.{epoch_ns-difference, calibrate-recovers}

abbrev ghz : Clock
ghz = set_epoch 1000 (record initial { tsc_hz = 3000000000 })

measured : calibrate 100 60000100 20000000 initial ≡ some (record initial { tsc_hz = 3000000000 })
unfolding calibrate scaled
measured = refl

uncalibrated : to_ns initial 5 ≡ none
unfolding to_ns scaled
uncalibrated = refl

to_ns-exact_example :
    (ns : ℕ) × (to_ns ghz 7 ≡ some ns)
    × (ns * 3000000000 ≤ 7 * 1000000000)
    × (7 * 1000000000 < ns * 3000000000 + 3000000000)
to_ns-exact_example = to_ns-exact ghz 7 (omega arith) (omega arith)

-- Eighteen seconds are 54 * 10 ^ 9 cycles.
to_ns-overflows_example :
    (ns : ℕ) × (to_ns ghz 54000000000 ≡ some ns)
    × (ns * 3000000000 + 2 ^ 64 ≤ 54000000000 * 1000000000)
to_ns-overflows_example = to_ns-overflows ghz 54000000000 (omega arith) (omega arith)

epoch_ns-difference_example :
    (a : ℕ) × (b : ℕ) × (d : ℕ) × (epoch_ns ghz 1002 ≡ some a)
    × (epoch_ns ghz 1004 ≡ some b)
    × (to_ns ghz 2 ≡ some d)
    × (a + d ≤ b)
    × (b ≤ a + d + 1)
epoch_ns-difference_example =
    epoch_ns-difference ghz 1002 1004 (omega arith) (omega arith) (omega arith) (omega arith)
      (omega arith)

calibrate-recovers_example :
    (hz : ℕ) × (ns : ℕ) × (calibrate 100 (wrap (100 + 60000000)) 20000000 initial
      ≡ some (record initial { tsc_hz = hz }))
    × (to_ns (record initial { tsc_hz = hz }) 60000000 ≡ some ns)
    × (20000000 ≤ ns)
    × (ns * hz < 20000000 * hz + 20000000)
calibrate-recovers_example =
    calibrate-recovers initial 100 60000000 20000000 (omega arith) (omega arith) (omega arith)
      (omega arith)
