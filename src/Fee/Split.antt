-- ===== src/Fee/Split.antt =====
-- How fees are split: `FeeParams::apply_fees` and `PositionFees` of
-- crates/gmsol-model/src/params/fee.rs.
use gmx_solana.Prelude.{ℕ, ◌+◌, ◌≡◌, Bool, some, none, arith, Option, refl}
use gmx_solana.Result.{
  ok, Ensures, Gives, bind, gives_bind, from_option, gives, returns, weaken_gives, weaken,
}
use gmx_solana.Num.{FixedPointOps}
use gmx_solana.Num.Exact.{sub_gives, add_gives}
use gmx_solana.Fee.Base.{FeeParams, Fees, fee, receiver_fee, apply_fees, LiquidationFees}
use gmx_solana.Fee.Position.{
  PositionFees, for_receiver, for_pool, total_cost_excluding_funding, total_cost_amount,
  borrowing_fee_for_pool, liquidation_fee_for_pool, add_if_some, add_liquidation_for_pool,
}

module _ ⦃n : FixedPointOps⦄ where
  pub record AddsUp (amount : ℕ) (r : ℕ × Fees) : Type 0 where
    pub total : r.0 + r.1.fee_amount_for_pool + r.1.fee_amount_for_receiver ≡ amount

  pub any : {A : Type 0} (o : Option A) → Gives o (λ a. o ≡ some a)
  any o = record { apply = λ a e. e }

  pub apply_fees-AddsUp :
      (p : FeeParams) (b : Bool) (amount : ℕ) → Gives (apply_fees p b amount) (AddsUp amount)
  unfolding apply_fees
  apply_fees-AddsUp p b amount = gives_bind _ (any (fee p b amount)) λ fee_amount _.
      gives_bind _ (any (receiver_fee p fee_amount)) λ receiver _.
        gives_bind _ (sub_gives fee_amount receiver) λ pool h.
          gives_bind _ (sub_gives amount fee_amount)
            λ after k. gives (record { total = omega arith })

  -- What `apply_fees` returns, the amount after fees, the fee for the pool and the fee for the
  -- receiver, add up to the amount that came in.
  pub apply_fees_conserve :
      (p : FeeParams) (is_positive_impact : Bool) (amount : ℕ) {after : ℕ} {fees : Fees}
      → apply_fees p is_positive_impact amount ≡ some (after, fees)
      → after + fees.fee_amount_for_pool + fees.fee_amount_for_receiver ≡ amount
  apply_fees_conserve p b amount h = ((apply_fees-AddsUp p b amount).apply _ h).total

  -- A part of the liquidation fees, nothing where there are none.
  part_or_zero : (LiquidationFees → ℕ) → Option LiquidationFees → ℕ
  part_or_zero part none = 0
  part_or_zero part (some f) = part f

  module _ (p : PositionFees) where
    liquidated : ℕ
    liquidated = part_or_zero (λ f. f.fee_amount) p.liquidation

    liquidated_receiver : ℕ
    liquidated_receiver = part_or_zero (λ f. f.fee_amount_for_receiver) p.liquidation

    add_part :
        (part : LiquidationFees → ℕ) (o : Option LiquidationFees) (t : ℕ)
        → Gives (add_if_some part o t) (λ c. c ≡ t + part_or_zero part o)
    unfolding part_or_zero
    add_part part none t = gives (omega arith)
    add_part part (some f) t = weaken_gives _ (λ c h. h.0) (add_gives t (part f))

    add_pool_part :
        (o : Option LiquidationFees) (t : ℕ)
        → Ensures (add_liquidation_for_pool o t) (λ c.
          c + part_or_zero (λ f. f.fee_amount_for_receiver) o
          ≡ t + part_or_zero (λ f. f.fee_amount) o)
    unfolding part_or_zero liquidation_fee_for_pool
    add_pool_part none t = returns refl
    add_pool_part (some f) t =
        bind _ (from_option _ _ (sub_gives _ f.fee_amount_for_receiver))
          λ a h. from_option _ _ (weaken_gives _ (λ c k. omega arith) (add_gives t a))

    for_receiver_total : Ensures (for_receiver p) (λ c.
        c
        ≡ p.order.base.fee_amount_for_receiver + p.borrowing.fee_amount_for_receiver
          + liquidated_receiver)
    unfolding for_receiver liquidated_receiver
    for_receiver_total =
        from_option _ _
          (gives_bind _ (add_gives _ _) λ t h. rw (← h.0) (add_part _ p.liquidation t))

    for_pool_total : Ensures (for_pool p) (λ c.
        c + p.borrowing.fee_amount_for_receiver + liquidated_receiver
        ≡ p.order.base.fee_amount_for_pool + p.borrowing.fee_amount + liquidated)
    unfolding for_pool liquidated_receiver liquidated borrowing_fee_for_pool
    for_pool_total =
        bind _ (from_option _ _ (sub_gives _ p.borrowing.fee_amount_for_receiver)) λ a h.
          bind _ (from_option _ _ (add_gives _ a))
            λ t k. weaken _ (λ c l. omega arith) (add_pool_part p.liquidation t)

    cost_total : Ensures (total_cost_excluding_funding p) (λ c.
        c
        ≡ p.order.base.fee_amount_for_pool + p.order.base.fee_amount_for_receiver
          + p.borrowing.fee_amount + liquidated)
    unfolding total_cost_excluding_funding liquidated
    cost_total = from_option _ _ (
        gives_bind _ (add_gives _ _) λ t h.
          gives_bind _ (add_gives t _) λ s k. rw (← h.0) (rw (← k.0) (add_part _ p.liquidation s)))

    all_total : Ensures (total_cost_amount p) (λ c.
        c
        ≡ p.order.base.fee_amount_for_pool + p.order.base.fee_amount_for_receiver
          + p.borrowing.fee_amount + liquidated + p.funding.amount)
    unfolding total_cost_amount
    all_total =
        bind _ cost_total λ t h.
          from_option _ _ (weaken_gives _ (λ c k. omega arith) (add_gives t p.funding.amount))

  -- All that a position pays is what the pool, the receiver and the funding get.
  pub total_cost_amount-for_pool-for_receiver :
      (p : PositionFees) {cost pool receiver : ℕ}
      → total_cost_amount p ≡ ok cost
      → for_pool p ≡ ok pool
      → for_receiver p ≡ ok receiver
      → pool + receiver + p.funding.amount ≡ cost
  total_cost_amount-for_pool-for_receiver p c q r =
      let x = (all_total p).apply _ c in
      let y = (for_pool_total p).apply _ q in
      let z = (for_receiver_total p).apply _ r in omega arith

  -- What a position pays without funding, computed by `total_cost_excluding_funding`, is what the pool
  -- and the receiver get, computed by `for_pool` and `for_receiver`.
  pub for_pool-add-for_receiver :
      (p : PositionFees) {cost pool receiver : ℕ}
      → total_cost_excluding_funding p ≡ ok cost
      → for_pool p ≡ ok pool
      → for_receiver p ≡ ok receiver
      → pool + receiver ≡ cost
  for_pool-add-for_receiver p c q r =
      let x = (cost_total p).apply _ c in
      let y = (for_pool_total p).apply _ q in
      let z = (for_receiver_total p).apply _ r in omega arith
