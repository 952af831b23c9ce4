-- ===== src/Market/Pools.antt =====
-- `Pools` of programs/gmsol-store/src/states/market/pool.rs, and `PoolKind` of
-- crates/gmsol-model/src/pool/mod.rs.
use gmx_solana.Prelude.{Bool, false}
use gmx_solana.Pool.{Pool, set_is_pure}

pub data PoolKind : Type 0 where
  primary swap_impact claimable_fee : PoolKind
  open_interest_for_long open_interest_for_short : PoolKind
  open_interest_in_tokens_for_long open_interest_in_tokens_for_short : PoolKind
  position_impact borrowing_factor : PoolKind
  funding_amount_per_size_for_long funding_amount_per_size_for_short : PoolKind
  claimable_funding_amount_per_size_for_long : PoolKind
  claimable_funding_amount_per_size_for_short : PoolKind
  collateral_sum_for_long collateral_sum_for_short total_borrowing : PoolKind

pub record Pools : Type 0 where
  pub primary : Pool
  pub swap_impact : Pool
  pub claimable_fee : Pool
  pub open_interest_for_long : Pool
  pub open_interest_for_short : Pool
  pub open_interest_in_tokens_for_long : Pool
  pub open_interest_in_tokens_for_short : Pool
  pub position_impact : Pool
  pub borrowing_factor : Pool
  pub funding_amount_per_size_for_long : Pool
  pub funding_amount_per_size_for_short : Pool
  pub claimable_funding_amount_per_size_for_long : Pool
  pub claimable_funding_amount_per_size_for_short : Pool
  pub collateral_sum_for_long : Pool
  pub collateral_sum_for_short : Pool
  pub total_borrowing : Pool

-- `Pools::init`.
unfoldable pub init : Bool → Pools → Pools
init is_pure p = record {
  primary = set_is_pure is_pure p.primary;
  swap_impact = set_is_pure is_pure p.swap_impact;
  claimable_fee = set_is_pure is_pure p.claimable_fee;
  open_interest_for_long = set_is_pure is_pure p.open_interest_for_long;
  open_interest_for_short = set_is_pure is_pure p.open_interest_for_short;
  open_interest_in_tokens_for_long = set_is_pure is_pure p.open_interest_in_tokens_for_long;
  open_interest_in_tokens_for_short = set_is_pure is_pure p.open_interest_in_tokens_for_short;
  position_impact = set_is_pure false p.position_impact;
  borrowing_factor = set_is_pure false p.borrowing_factor;
  funding_amount_per_size_for_long = set_is_pure is_pure p.funding_amount_per_size_for_long;
  funding_amount_per_size_for_short = set_is_pure is_pure p.funding_amount_per_size_for_short;
  claimable_funding_amount_per_size_for_long =
      set_is_pure is_pure p.claimable_funding_amount_per_size_for_long;
  claimable_funding_amount_per_size_for_short =
      set_is_pure is_pure p.claimable_funding_amount_per_size_for_short;
  collateral_sum_for_long = set_is_pure is_pure p.collateral_sum_for_long;
  collateral_sum_for_short = set_is_pure is_pure p.collateral_sum_for_short;
  total_borrowing = set_is_pure false p.total_borrowing;
}

-- `Pools::get`, which finds a pool for every kind that there is.
unfoldable pub get : PoolKind → Pools → Pool
get PoolKind.primary p = p.primary
get PoolKind.swap_impact p = p.swap_impact
get PoolKind.claimable_fee p = p.claimable_fee
get PoolKind.open_interest_for_long p = p.open_interest_for_long
get PoolKind.open_interest_for_short p = p.open_interest_for_short
get PoolKind.open_interest_in_tokens_for_long p = p.open_interest_in_tokens_for_long
get PoolKind.open_interest_in_tokens_for_short p = p.open_interest_in_tokens_for_short
get PoolKind.position_impact p = p.position_impact
get PoolKind.borrowing_factor p = p.borrowing_factor
get PoolKind.funding_amount_per_size_for_long p = p.funding_amount_per_size_for_long
get PoolKind.funding_amount_per_size_for_short p = p.funding_amount_per_size_for_short
get PoolKind.claimable_funding_amount_per_size_for_long p =
    p.claimable_funding_amount_per_size_for_long
get PoolKind.claimable_funding_amount_per_size_for_short p =
    p.claimable_funding_amount_per_size_for_short
get PoolKind.collateral_sum_for_long p = p.collateral_sum_for_long
get PoolKind.collateral_sum_for_short p = p.collateral_sum_for_short
get PoolKind.total_borrowing p = p.total_borrowing

-- A write through `Pools::get_mut`.
unfoldable pub set : PoolKind → Pool → Pools → Pools
set PoolKind.primary q p = record p { primary = q }
set PoolKind.swap_impact q p = record p { swap_impact = q }
set PoolKind.claimable_fee q p = record p { claimable_fee = q }
set PoolKind.open_interest_for_long q p = record p { open_interest_for_long = q }
set PoolKind.open_interest_for_short q p = record p { open_interest_for_short = q }
set PoolKind.open_interest_in_tokens_for_long q p = record p {
  open_interest_in_tokens_for_long = q;
}
set PoolKind.open_interest_in_tokens_for_short q p = record p {
  open_interest_in_tokens_for_short = q;
}
set PoolKind.position_impact q p = record p { position_impact = q }
set PoolKind.borrowing_factor q p = record p { borrowing_factor = q }
set PoolKind.funding_amount_per_size_for_long q p = record p {
  funding_amount_per_size_for_long = q;
}
set PoolKind.funding_amount_per_size_for_short q p = record p {
  funding_amount_per_size_for_short = q;
}
set PoolKind.claimable_funding_amount_per_size_for_long q p = record p {
  claimable_funding_amount_per_size_for_long = q;
}
set PoolKind.claimable_funding_amount_per_size_for_short q p = record p {
  claimable_funding_amount_per_size_for_short = q;
}
set PoolKind.collateral_sum_for_long q p = record p { collateral_sum_for_long = q }
set PoolKind.collateral_sum_for_short q p = record p { collateral_sum_for_short = q }
set PoolKind.total_borrowing q p = record p { total_borrowing = q }
