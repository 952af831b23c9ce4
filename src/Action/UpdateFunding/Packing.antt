-- ===== src/Action/UpdateFunding/Packing.antt =====
-- Funding amounts per unit of position size: their packing, and the arrays of an update's report.
use gmx_solana.Prelude.{ℕ, Bool, true, false, ◌||◌, Option, some, ◌==◌, if◌then◌else◌}
use gmx_solana.Prelude.Maybe.{◌>>=◌ as ◌and_then◌}
use gmx_solana.Num.{
  FixedPointOps, checked_sub, checked_mul, checked_div, checked_mul_div, checked_mul_div_ceil,
  checked_round_up_div,
}
use gmx_solana.Market.Base.{open_interest}

-- The array of four that `flags_to_index` reads, by the side of the position and of its collateral.
pub record Matrix : Type 0 where
  pub long_in_long : ℕ
  pub short_in_long : ℕ
  pub long_in_short : ℕ
  pub short_in_short : ℕ

abbrev pub zeros : Matrix
zeros = record { long_in_long = 0; short_in_long = 0; long_in_short = 0; short_in_short = 0 }

unfoldable pub entry : Matrix → Bool → Bool → ℕ
entry x true true = x.long_in_long
entry x false true = x.short_in_long
entry x true false = x.long_in_short
entry x false false = x.short_in_short

unfoldable pub set_entry : Bool → Bool → ℕ → Matrix → Matrix
set_entry true true v x = record x { long_in_long = v }
set_entry false true v x = record x { short_in_long = v }
set_entry true false v x = record x { long_in_short = v }
set_entry false false v x = record x { short_in_short = v }

module _ ⦃n : FixedPointOps⦄ where
  open n use {unit}

  unfoldable pub pack_to_funding_amount_per_size : ℕ → ℕ → ℕ → ℕ → Bool → Option ℕ
  pack_to_funding_amount_per_size adjustment funding_value open_interest price round_up_magnitude =
      if funding_value == 0 || open_interest == 0
      then some 0
      else ◌and_then◌ (checked_mul adjustment unit) λ numerator.
        if round_up_magnitude
        then ◌and_then◌ (checked_mul_div_ceil funding_value numerator open_interest)
            (λ per_size. checked_round_up_div per_size price)
        else ◌and_then◌ (checked_mul_div funding_value numerator open_interest)
            (λ per_size. checked_div per_size price)

  unfoldable pub unpack_to_funding_amount_delta : ℕ → ℕ → ℕ → ℕ → Bool → Option ℕ
  unpack_to_funding_amount_delta adjustment latest position_value size_in_usd round_up_magnitude =
      ◌and_then◌ (checked_sub latest position_value) λ funding_diff_factor.
        ◌and_then◌ (checked_mul adjustment unit) λ denominator.
          if round_up_magnitude
          then checked_mul_div_ceil size_in_usd funding_diff_factor denominator
          else checked_mul_div size_in_usd funding_diff_factor denominator
