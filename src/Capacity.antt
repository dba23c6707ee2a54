-- ===== src/Capacity.antt =====
-- The capacity checks of include/SPMCLockFreeQueue.h, include/SPMCBroadcastQueue.h,
-- include/SPMCOverwriteQueue.h and include/SPSCLockFreeQueue.h, with the two functions of the
-- standard header <bit> that they call.
pub mod Round
pub mod SingleBit
mod Tests
use cpp_concurrency_toolbox.Base.{
  ℕ, zero, suc, ◌-◌, ◌*◌, ◌^◌, Bool, true, false, ◌&&◌, leb, ltb, ◌==◌, bit_and, if◌then◌else◌,
  Result, ok, err, capacity_below_two, capacity_above_maximum,
}

-- Doubles `p` until it reaches `n`.
pub double_until : ℕ → ℕ → ℕ → ℕ
double_until zero p n = p
double_until (suc rounds) p n =
    let rest = double_until rounds (p * 2) n in if leb n p then p else rest

-- `std::bit_ceil`: the least power of two that is no less than `n`.
unfoldable pub bit_ceil : ℕ → ℕ
unfolding double_until
bit_ceil n = double_until 64 1 n

-- `std::has_single_bit`.
unfoldable pub has_single_bit : ℕ → Bool
has_single_bit n = ltb 0 n && bit_and n (n - 1) == 0

-- The three functions `check_and_round_capacity` differ in `max_cap` only.
unfoldable pub check_and_round : ℕ → ℕ → Result ℕ
check_and_round max_cap n =
    if ltb n 2
    then err capacity_below_two
    else if ltb max_cap n
    then err capacity_above_maximum
    else ok (bit_ceil n)

-- `detail::check_and_round_capacity`.
unfoldable pub check_and_round_spmc : ℕ → Result ℕ
unfolding check_and_round
check_and_round_spmc n = check_and_round (2 ^ 63) n

-- `detail_broadcast::check_and_round_capacity`.
unfoldable pub check_and_round_broadcast : ℕ → Result ℕ
unfolding check_and_round
check_and_round_broadcast n = check_and_round (2 ^ 63) n

-- `detail_overwrite::check_and_round_capacity`.
unfoldable pub check_and_round_overwrite : ℕ → Result ℕ
unfolding check_and_round
check_and_round_overwrite n = check_and_round (2 ^ 62) n
