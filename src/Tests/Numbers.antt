-- ===== src/Tests/Numbers.antt =====
-- The rounded and the signed operations at concrete numbers.
use gmx_solana.Prelude.{◌+◌, ◌*◌, ◌≤◌, ◌<◌, ◌≡◌, some, refl}
use gmx_solana.Prelude.Int.{pos, negsuc, ◌-ℤ◌}
use gmx_solana.Result.{ok}
use gmx_solana.Tests.{u128}
use gmx_solana.Num.Bounds.{checked_mul_div_lem, checked_signed_sub_lem}
use gmx_solana.Num.{
  narrow, checked_add, checked_mul, checked_sub, checked_div, diff, narrow_signed, signed_add,
  signed_sub, signed_neg, signed_div, checked_add_signed, try_signed, to_signed, to_opposite_signed,
  to_signed_with_sign, checked_signed_sub, checked_add_with_signed, checked_sub_with_signed,
  checked_mul_with_signed, as_divisor_to_round_up_magnitude_div, checked_round_up_div,
  bound_magnitude, checked_mul_div, checked_mul_div_ceil, checked_mul_div_with_signed_numerator,
}

mul_div : checked_mul_div ⦃n = u128⦄ 7 10 3 ≡ some 23
unfolding narrow checked_add checked_mul checked_sub checked_div diff narrow_signed signed_add
    signed_sub signed_neg signed_div checked_add_signed try_signed to_signed to_opposite_signed
    to_signed_with_sign checked_signed_sub checked_add_with_signed checked_sub_with_signed
    checked_mul_with_signed as_divisor_to_round_up_magnitude_div checked_round_up_div
    bound_magnitude checked_mul_div checked_mul_div_ceil checked_mul_div_with_signed_numerator
mul_div = refl

checked_mul_div_lem_example : (23 * 3 ≤ 7 * 10) × (7 * 10 < 23 * 3 + 3)
checked_mul_div_lem_example = checked_mul_div_lem ⦃n = u128⦄ 7 10 3 mul_div

mul_div_ceil : checked_mul_div_ceil ⦃n = u128⦄ 7 10 3 ≡ some 24
unfolding narrow checked_add checked_mul checked_sub checked_div diff narrow_signed signed_add
    signed_sub signed_neg signed_div checked_add_signed try_signed to_signed to_opposite_signed
    to_signed_with_sign checked_signed_sub checked_add_with_signed checked_sub_with_signed
    checked_mul_with_signed as_divisor_to_round_up_magnitude_div checked_round_up_div
    bound_magnitude checked_mul_div checked_mul_div_ceil checked_mul_div_with_signed_numerator
mul_div_ceil = refl

round_up_div : checked_round_up_div ⦃n = u128⦄ 7 3 ≡ some 3
unfolding narrow checked_add checked_mul checked_sub checked_div diff narrow_signed signed_add
    signed_sub signed_neg signed_div checked_add_signed try_signed to_signed to_opposite_signed
    to_signed_with_sign checked_signed_sub checked_add_with_signed checked_sub_with_signed
    checked_mul_with_signed as_divisor_to_round_up_magnitude_div checked_round_up_div
    bound_magnitude checked_mul_div checked_mul_div_ceil checked_mul_div_with_signed_numerator
round_up_div = refl

signed_difference : checked_signed_sub ⦃n = u128⦄ 3 7 ≡ ok (negsuc 3)
unfolding narrow checked_add checked_mul checked_sub checked_div diff narrow_signed signed_add
    signed_sub signed_neg signed_div checked_add_signed try_signed to_signed to_opposite_signed
    to_signed_with_sign checked_signed_sub checked_add_with_signed checked_sub_with_signed
    checked_mul_with_signed as_divisor_to_round_up_magnitude_div checked_round_up_div
    bound_magnitude checked_mul_div checked_mul_div_ceil checked_mul_div_with_signed_numerator
signed_difference = refl

checked_signed_sub_lem_example : negsuc 3 ≡ pos 3 -ℤ pos 7
checked_signed_sub_lem_example = checked_signed_sub_lem ⦃n = u128⦄ 3 7 signed_difference

bounded : bound_magnitude ⦃n = u128⦄ (negsuc 99) 5 10 ≡ ok (negsuc 9)
unfolding narrow checked_add checked_mul checked_sub checked_div diff narrow_signed signed_add
    signed_sub signed_neg signed_div checked_add_signed try_signed to_signed to_opposite_signed
    to_signed_with_sign checked_signed_sub checked_add_with_signed checked_sub_with_signed
    checked_mul_with_signed as_divisor_to_round_up_magnitude_div checked_round_up_div
    bound_magnitude checked_mul_div checked_mul_div_ceil checked_mul_div_with_signed_numerator
bounded = refl
