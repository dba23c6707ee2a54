-- ===== src/Capacity/Tests.antt =====
-- The capacity checks at concrete requests.
use cpp_concurrency_toolbox.Base.{
  ◌^◌, ◌≡◌, refl, true, false, ok, err, capacity_below_two, capacity_above_maximum, ◌+◌,
}
use cpp_concurrency_toolbox.Capacity.{
  bit_ceil, has_single_bit, check_and_round_spmc, check_and_round_broadcast,
  check_and_round_overwrite,
}
use cpp_concurrency_toolbox.Capacity.Round.{Verdict, capacity_checks}

round_three : check_and_round_spmc 3 ≡ ok 4
unfolding check_and_round_spmc bit_ceil
round_three = refl

round_limits :
    (check_and_round_spmc 1 ≡ err capacity_below_two)
    × (check_and_round_broadcast (2 ^ 63) ≡ ok (2 ^ 63))
    × (check_and_round_overwrite (2 ^ 62 + 1) ≡ err capacity_above_maximum)
unfolding check_and_round_spmc check_and_round_broadcast check_and_round_overwrite bit_ceil
round_limits = (refl, refl, refl)

capacity_checks_example :
    Verdict 63 1000 (check_and_round_spmc 1000)
    × Verdict 63 1000 (check_and_round_broadcast 1000)
    × Verdict 62 1000 (check_and_round_overwrite 1000)
capacity_checks_example = capacity_checks 1000

single_bits : (has_single_bit 8 ≡ true) × (has_single_bit 12 ≡ false) × (has_single_bit 0 ≡ false)
unfolding has_single_bit
single_bits = (refl, refl, refl)
