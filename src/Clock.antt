-- ===== src/Clock.antt =====
-- benchmark/TscClock.hpp: `tsc::calibrate`, `tsc::set_epoch`, `tsc::to_ns` and `tsc::epoch_ns`. What
-- the counter and `steady_clock` show is an argument. The state is what the two globals hold.
pub mod Exact
pub mod Interval
mod Tests
use cpp_concurrency_toolbox.Base.{
  ℕ, ◌*◌, ◌/◌, Option, none, some, ◌==◌, if◌then◌else◌, wrap, sub_size,
}

pub record Clock : Type 0 where
  pub tsc_hz : ℕ
  pub epoch_cycles : ℕ

abbrev pub initial : Clock
initial = record { tsc_hz = 0; epoch_cycles = 0 }

-- The product wraps at 2 ^ 64, and a division by 0 has no result.
unfoldable pub scaled : (value by : ℕ) → Option ℕ
scaled value by = if by == 0 then none else some (wrap (value * 1000000000) / by)

abbrev pub with_frequency : Clock → Option ℕ → Option Clock
with_frequency c none = none
with_frequency c (some hz) = some (record c { tsc_hz = hz })

-- `calibrate`, with the counter before and after, and the nanoseconds in between.
unfoldable pub calibrate : (tsc0 tsc1 elapsed_ns : ℕ) → Clock → Option Clock
calibrate tsc0 tsc1 elapsed_ns c = with_frequency c (scaled (sub_size tsc1 tsc0) elapsed_ns)

abbrev pub set_epoch : (now : ℕ) → Clock → Clock
set_epoch now c = record c { epoch_cycles = now }

unfoldable pub to_ns : Clock → (delta_cycles : ℕ) → Option ℕ
to_ns c delta_cycles = scaled delta_cycles c.tsc_hz

unfoldable pub epoch_ns : Clock → (absolute_cycles : ℕ) → Option ℕ
epoch_ns c absolute_cycles = to_ns c (sub_size absolute_cycles c.epoch_cycles)
