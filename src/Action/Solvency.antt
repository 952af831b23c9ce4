-- ===== src/Action/Solvency.antt =====
-- The balances that a market records and what its pools hold, through sequences of actions:
-- programs/gmsol-store/src/states/market/revertible/market.rs around the actions of
-- crates/gmsol-model/src/action.
use gmx_solana.Prelude.{ℕ, ◌+◌, ◌≤◌, ◌≡◌, Bool, true, false, not, ◌^◌, ltb, leb, arith, refl}
use gmx_solana.Result.{ok, Ensures, bind, branch, returns, raises}
use gmx_solana.Num.{FixedPointOps}
use gmx_solana.Price.{Prices}
use gmx_solana.Market.State.{Market}
use gmx_solana.Market.Balance.{
  RecordedMarket, balance_for_token, record_transferred_in, record_transferred_out, add_u64,
  sub_u64,
}
use mathlib.Core.Path.{subst, sym}
use gmx_solana.Action.Holdings.{holdings, IsTwoSided}
use gmx_solana.Action.Swap.{SwapReport, swap}
use gmx_solana.Action.Deposit.{DepositReport, deposit}
use gmx_solana.Action.Withdraw.{WithdrawReport, withdraw}
use gmx_solana.Action.UpdateBorrowing.{UpdateBorrowingReport, update_borrowing}
use gmx_solana.Action.DistributePositionImpact.{
  DistributePositionImpactReport, distribute_position_impact,
}
use gmx_solana.Action.Accrual.{Keeps, update-Keeps, distribute-Keeps}
use gmx_solana.Action.Swap.Branch.{not-not}
use gmx_solana.Action.Swap.Conservation.{swap_conserves}
use gmx_solana.Action.Deposit.Conservation.{deposit_conserves}
use gmx_solana.Action.Withdraw.Conservation.{withdraw_conserves}

-- What a transfer does to the record: `i` tokens of the side `b` come in and `o` go out.
record Recorded (b : Bool) (i o : ℕ) (r r' : RecordedMarket) : Type 0 where
  market : r'.market ≡ r.market
  two_tokens : r'.is_pure ≡ false
  near : balance_for_token r' b + o ≡ balance_for_token r b + i
  far : balance_for_token r' (not b) ≡ balance_for_token r (not b)

add_exact : (a b : ℕ) → Ensures (add_u64 a b) (λ c. c ≡ a + b)
add_exact a b = branch (ltb (a + b) (2 ^ 64)) (λ _. returns refl) λ _. raises

sub_exact : (a b : ℕ) → Ensures (sub_u64 a b) (λ c. c + b ≡ a)
sub_exact a b = branch (leb b a) (λ h. returns (ground arith)) λ _. raises

module _ (r : RecordedMarket) (two_tokens : r.is_pure ≡ false) (amount : ℕ) where
  transferred_in : (b : Bool) → Ensures (record_transferred_in r b amount) (Recorded b amount 0 r)
  unfolding record_transferred_in balance_for_token
  transferred_in true = rw two_tokens (
      bind _ (add_exact r.other.long_token_balance amount) λ c h.
        returns
          (record { market = refl; two_tokens = refl; near = ground arith; far = ground arith }))
  transferred_in false = rw two_tokens (
      bind _ (add_exact r.other.short_token_balance amount) λ c h.
        returns
          (record { market = refl; two_tokens = refl; near = ground arith; far = ground arith }))

  transferred_out : (b : Bool) → Ensures (record_transferred_out r b amount) (Recorded b 0 amount r)
  unfolding record_transferred_out balance_for_token
  transferred_out true = rw two_tokens (
      bind _ (sub_exact r.other.long_token_balance amount) λ c h.
        returns
          (record { market = refl; two_tokens = refl; near = ground arith; far = ground arith }))
  transferred_out false = rw two_tokens (
      bind _ (sub_exact r.other.short_token_balance amount) λ c h.
        returns
          (record { market = refl; two_tokens = refl; near = ground arith; far = ground arith }))

module _ ⦃n : FixedPointOps⦄ where
  -- An instruction: the tokens that come in are recorded before the action, those that go out after it.
  pub data Step (r : RecordedMarket) : RecordedMarket → Type 0 where
    swapped :
        (b : Bool) (amount : ℕ) (prices : Prices) {r₁ r₂ : RecordedMarket} {m : Market}
        {report : SwapReport}
        → record_transferred_in r b amount ≡ ok r₁
        → swap r₁.market b amount prices ≡ ok (m, report)
        → record_transferred_out (record r₁ { market = m }) (not b) report.result.token_out_amount
          ≡ ok r₂
        → Step r r₂
    deposited :
        (long short : ℕ) (prices : Prices) {r₁ r₂ : RecordedMarket} {m : Market}
        {report : DepositReport}
        → record_transferred_in r true long ≡ ok r₁
        → record_transferred_in r₁ false short ≡ ok r₂
        → deposit r₂.market long short prices ≡ ok (m, report)
        → Step r (record r₂ { market = m })
    withdrawn :
        (amount : ℕ) (prices : Prices) {r₁ r₂ : RecordedMarket} {m : Market}
        {report : WithdrawReport}
        → withdraw r.market amount prices ≡ ok (m, report)
        → record_transferred_out (record r { market = m }) true report.long_token_output ≡ ok r₁
        → record_transferred_out r₁ false report.short_token_output ≡ ok r₂
        → Step r r₂
    borrowing_updated :
        (prices : Prices) {m : Market} {report : UpdateBorrowingReport}
        → update_borrowing r.market prices ≡ ok (m, report)
        → Step r (record r { market = m })
    impact_distributed :
        {m : Market} {report : DistributePositionImpactReport}
        → distribute_position_impact r.market ≡ ok (m, report)
        → Step r (record r { market = m })

  pub data Reach (r : RecordedMarket) : RecordedMarket → Type 0 where
    here : Reach r r
    next : {s t : RecordedMarket} → Reach r s → Step s t → Reach r t

-- The market has two tokens, its pools keep them apart, and of each token it records at least what the
-- pools hold.
pub record IsSolvent (r : RecordedMarket) : Type 0 where
  pub two_tokens : r.is_pure ≡ false
  pub two_sided : IsTwoSided r.market
  pub long : holdings r.market true ≤ balance_for_token r true
  pub short : holdings r.market false ≤ balance_for_token r false

-- The same with the side as an argument.
side : (r : RecordedMarket) → IsSolvent r → (b : Bool) → holdings r.market b ≤ balance_for_token r b
side r h true = h.long
side r h false = h.short

of_side :
    (b : Bool) (r : RecordedMarket)
    → r.is_pure ≡ false
    → IsTwoSided r.market
    → holdings r.market b ≤ balance_for_token r b
    → holdings r.market (not b) ≤ balance_for_token r (not b)
    → IsSolvent r
of_side true r a c x y = record { two_tokens = a; two_sided = c; long = x; short = y }
of_side false r a c x y = record { two_tokens = a; two_sided = c; long = y; short = x }

same_balance :
    (r : RecordedMarket) (m : Market) (b : Bool)
    → balance_for_token (record r { market = m }) b ≡ balance_for_token r b
unfolding balance_for_token
same_balance r m b = refl

module _ {b : Bool} {i o : ℕ} {r r' : RecordedMarket} (f : Recorded b i o r r') (c : Bool) where
  same_holdings : holdings r'.market c ≡ holdings r.market c
  same_holdings = subst (λ m. holdings m c ≡ holdings r.market c) (sym f.market) refl

  same_sides : IsTwoSided r.market → IsTwoSided r'.market
  same_sides h = subst IsTwoSided (sym f.market) h

-- An action that keeps the pools that hold tokens.
keep-IsSolvent :
    (r : RecordedMarket) (m : Market)
    → Keeps r.market m
    → IsSolvent r
    → IsSolvent (record r { market = m })
unfolding balance_for_token
keep-IsSolvent r m k h = record {
  two_tokens = h.two_tokens;
  two_sided = record {
    primary = rw k.primary h.two_sided.primary;
    swap_impact = rw k.swap_impact h.two_sided.swap_impact;
    claimable_fee = rw k.claimable_fee h.two_sided.claimable_fee;
  };
  long = rw k.primary (rw k.swap_impact (rw k.claimable_fee h.long));
  short = rw k.primary (rw k.swap_impact (rw k.claimable_fee h.short));
}

module _ ⦃n : FixedPointOps⦄ where
  Step-IsSolvent : {r s : RecordedMarket} → Step r s → IsSolvent r → IsSolvent s
  Step-IsSolvent {r} (swapped b amount prices {r₁} {r₂} {m} {report} e f g) h =
      let i = (transferred_in r h.two_tokens amount b).apply r₁ e in
      let c = swap_conserves r₁.market (same_sides i b h.two_sided) b amount prices f in
      let o = (transferred_out (record r₁ { market = m }) i.two_tokens _ (not b)).apply r₂ g in
      let near = i.near in
      let far = i.far in
      let out_near = o.near in
      let out_far : balance_for_token r₂ b ≡ balance_for_token (record r₁ { market = m }) b =
        subst (λ c. balance_for_token r₂ c ≡ balance_for_token (record r₁ { market = m }) c)
          (not-not b) o.far in
      let s₁ = same_balance r₁ m b in
      let s₂ = same_balance r₁ m (not b) in
      let h₁ = same_holdings i b in
      let h₂ = same_holdings i (not b) in
      let h₃ = same_holdings o b in
      let h₄ = same_holdings o (not b) in
      let l₁ = side r h b in
      let l₂ = side r h (not b) in
      let c₁ = c.0 in
      let c₂ = c.1 in of_side b r₂ o.two_tokens (same_sides o b c.3) (omega arith) (omega arith)
  Step-IsSolvent {r} (deposited long short prices {r₁} {r₂} {m} {report} e e' f) h =
      let i = (transferred_in r h.two_tokens long true).apply r₁ e in
      let j = (transferred_in r₁ i.two_tokens short false).apply r₂ e' in
      let apart = same_sides j true (same_sides i true h.two_sided) in
      let c = deposit_conserves r₂.market apart long short prices f in
      let a = i.near in
      let a' = i.far in
      let b = j.near in
      let b' = j.far in
      let s₁ = same_balance r₂ m true in
      let s₂ = same_balance r₂ m false in
      let h₁ = same_holdings i true in
      let h₂ = same_holdings i false in
      let h₃ = same_holdings j true in
      let h₄ = same_holdings j false in
      let l₁ = h.long in
      let l₂ = h.short in
      let c₁ = c.0 in
      let c₂ = c.1 in
      record { two_tokens = j.two_tokens; two_sided = c.5; long = omega arith; short = omega arith }
  Step-IsSolvent {r} (withdrawn amount prices {r₁} {r₂} {m} {report} f g g') h =
      let c = withdraw_conserves r.market h.two_sided amount prices f in
      let i = (transferred_out (record r { market = m }) h.two_tokens _ true).apply r₁ g in
      let j = (transferred_out r₁ i.two_tokens _ false).apply r₂ g' in
      let a = i.near in
      let a' = i.far in
      let b = j.near in
      let b' = j.far in
      let s₁ = same_balance r m true in
      let s₂ = same_balance r m false in
      let h₁ = same_holdings i true in
      let h₂ = same_holdings i false in
      let h₃ = same_holdings j true in
      let h₄ = same_holdings j false in
      let l₁ = h.long in
      let l₂ = h.short in
      let c₁ = c.0 in
      let c₂ = c.1 in
      record {
        two_tokens = j.two_tokens;
        two_sided = same_sides j true (same_sides i true c.6);
        long = omega arith;
        short = omega arith;
      }
  Step-IsSolvent {r} (borrowing_updated prices {m} {report} f) h =
      keep-IsSolvent r m ((update-Keeps r.market prices).apply (m, report) f) h
  Step-IsSolvent {r} (impact_distributed {m} {report} f) h =
      keep-IsSolvent r m ((distribute-Keeps r.market).apply (m, report) f) h

  -- A market with two tokens whose records cover what its pools hold stays so through any sequence of
  -- swaps, deposits and withdrawals, each with its transfers recorded, of updates of the borrowing state
  -- and of distributions of the position impact pool.
  pub Reach-IsSolvent : {r s : RecordedMarket} → Reach r s → IsSolvent r → IsSolvent s
  Reach-IsSolvent here h = h
  Reach-IsSolvent (next p step) h = Step-IsSolvent step (Reach-IsSolvent p h)
