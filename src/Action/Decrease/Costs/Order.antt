-- ===== src/Action/Decrease/Costs/Order.antt =====
-- In which order a cost is paid, and that it is paid: `do_pay_for_cost` of
-- crates/gmsol-model/src/action/decrease_position/collateral_processor.rs.
use gmx_solana.Prelude.{
  zero, suc, ℕ, ◌+◌, ◌-◌, ◌*◌, ◌≤◌, ◌<◌, ◌≡◌, ◌⊎◌, inl, inr, true, ◌==◌, refl, Bool, false, ltb,
  arith,
}
use gmx_solana.Result.{Ensures, Gives, ok, bind, from_option, returns, branch, weaken}
use gmx_solana.Num.{FixedPointOps, checked_mul_div, checked_round_up_div}
use gmx_solana.Num.Exact.{sub_gives, add_gives, mul_gives}
use gmx_solana.Num.Bounds.{checked_mul_div_lem, checked_round_up_div_lem}
use gmx_solana.Price.{pick_price}
use gmx_solana.Action.Decrease.Costs.{
  ProcessState, Messages, output_messages, collateral_messages, secondary_messages, pay_from,
  pay_from_secondary, pay_from_collateral, do_pay_for_cost, output_token_price, pnl_token_price,
}

-- A payment from one source: `r` is what is left of it, what is still due and what has been paid.
record Paid (available due paid : ℕ) (r : ℕ × ℕ × ℕ) : Type 0 where
  source : r.0 + r.2 ≡ available + paid
  cost : r.1 + r.2 ≡ due + paid
  exhausted : 0 < r.1 → r.0 ≡ 0

factor_positive : (y p : ℕ) → 0 < y * p → 0 < y
factor_positive zero p h = omega arith
factor_positive (suc y) p h = omega arith

positive : (y : ℕ) → (y ≡ 0 → ⊥) → 0 < y
positive zero h = absurd (h refl)
positive (suc y) h = omega arith

zero_or : {P : Type 0} (x : ℕ) → (0 < x → P) → (x ≡ 0) ⊎ P
zero_or zero f = inl refl
zero_or (suc x) f = inr (f (omega arith))

less_or : {P : Type 0} (a b : ℕ) (c : Bool) → ltb a b ≡ c → (a < b → P) → (b ≤ a) ⊎ P
less_or a b true e f = inr (f (ground arith))
less_or a b false e f = inl (ground arith)

share : (y z c p : ℕ) → y + z ≡ c → c * p ≡ z * p + y * p
share y z c p h = rw (← h) (omega arith)

module _ ⦃n : FixedPointOps⦄ where
  pay_from-Paid :
      (m : Messages) (available due paid : ℕ)
      → Ensures (pay_from m available due paid) (Paid available due paid)
  unfolding pay_from
  pay_from-Paid m available due paid =
      branch (available == 0)
        (λ e. returns (record { source = refl; cost = refl; exhausted = λ _. ground arith }))
        λ _.
          branch (ltb due available)
            (λ _. bind _ (from_option _ _ (add_gives paid due)) λ p h.
              bind _ (from_option _ _ (sub_gives available due)) λ l k. returns (record {
                source = omega (arith, h.0, k);
                cost = omega (arith, h.0);
                exhausted = λ x. omega arith;
              }))
            λ _. bind _ (from_option _ _ (add_gives paid available)) λ p h.
              bind _ (from_option _ _ (sub_gives due available)) λ d k. returns (record {
                source = omega (arith, h.0);
                cost = omega (arith, h.0, k);
                exhausted = λ _. refl;
              })

  -- The prices that costs are paid at.
  abbrev pub output_price : ProcessState → ℕ
  output_price s = pick_price (output_token_price s) false

  abbrev pub secondary_price : ProcessState → ℕ
  secondary_price s = pick_price (pnl_token_price s) false

  covers : (a b d : ℕ) → Gives (checked_mul_div a b d) (λ q. (q * d ≤ a * b) × (a * b < q * d + d))
  covers a b d = record { apply = λ q e. checked_mul_div_lem a b d e }

  covers_up : (a d : ℕ) → Gives (checked_round_up_div a d) (λ q. (a ≤ q * d) × (q * d < a + d))
  covers_up a d = record { apply = λ q e. checked_round_up_div_lem a d e }

  -- What the secondary output pays of a cost that is due in the output token.
  record PaidSecondary (s : ProcessState) (due : ℕ) (r : ProcessState × ℕ × ℕ) : Type 0 where
    output_side : r.0.is_output_token_long ≡ s.is_output_token_long
    pnl_side : r.0.is_pnl_token_long ≡ s.is_pnl_token_long
    source : r.0.report.secondary_output_amount + r.2 ≡ s.report.secondary_output_amount
    output : r.0.report.output_amount ≡ s.report.output_amount
    collateral : r.0.report.remaining_collateral_amount ≡ s.report.remaining_collateral_amount
    covered : due * output_price s < r.2 * secondary_price s + r.1 + secondary_price s
    at_most : r.2 * secondary_price s + r.1 ≤ due * output_price s
    exhausted : 0 < r.1 → r.0.report.secondary_output_amount ≡ 0

  secondary-Paid :
      (s : ProcessState) (due : ℕ) → Ensures (pay_from_secondary s due) (PaidSecondary s due)
  unfolding pay_from_secondary
  secondary-Paid s due =
      bind _ (from_option _ _ (covers due (output_price s) (secondary_price s))) λ c h.
        bind _ (pay_from-Paid secondary_messages s.report.secondary_output_amount c 0) λ r k.
          bind _ (from_option _ _ (mul_gives r.1 (secondary_price s))) λ cost l. returns (record {
            output_side = refl;
            pnl_side = refl;
            source = omega (arith, k.source);
            output = refl;
            collateral = refl;
            covered =
                let parts = share r.1 r.2 c (secondary_price s) (omega (arith, k.cost)) in
                omega (arith, l.0, parts, h.1);
            at_most =
                let parts = share r.1 r.2 c (secondary_price s) (omega (arith, k.cost)) in
                omega (arith, l.0, parts, h.0);
            exhausted =
                λ x. k.exhausted (factor_positive r.1 (secondary_price s) (omega (arith, l.0, x)));
          })

  -- What is paid of a cost of `due` output tokens, after `paid` of them: `r` is the state after the
  -- payments, the cost that is left, and what has been paid in the two tokens.
  record PaidCost (s : ProcessState) (due paid : ℕ) (r : ProcessState × ℕ × ℕ × ℕ) : Type 0 where
    output_side : r.0.is_output_token_long ≡ s.is_output_token_long
    pnl_side : r.0.is_pnl_token_long ≡ s.is_pnl_token_long
    output : r.0.report.output_amount ≡ s.report.output_amount
    collateral :
        r.0.report.remaining_collateral_amount + r.2 ≡ s.report.remaining_collateral_amount + paid
    secondary : r.0.report.secondary_output_amount + r.3 ≡ s.report.secondary_output_amount
    covered :
        (due + paid) * output_price s
        ≤ r.2 * output_price s + r.3 * secondary_price s + r.1 + (secondary_price s - 1)
    at_most : r.2 * output_price s + r.3 * secondary_price s + r.1 ≤ (due + paid) * output_price s
    collateral_first : 0 < r.3 → r.0.report.remaining_collateral_amount ≡ 0
    untouched : due ≡ 0 → (r.2 ≡ paid) × (r.3 ≡ 0) × (r.1 ≡ 0)
    exhausted :
        0 < r.1
        → (r.0.report.remaining_collateral_amount ≡ 0) × (r.0.report.secondary_output_amount ≡ 0)

  collateral-PaidCost :
      (s : ProcessState) (due paid : ℕ)
      → Ensures (pay_from_collateral s due paid) (PaidCost s due paid)
  unfolding pay_from_collateral
  collateral-PaidCost s due paid =
      branch (due == 0)
        (λ e.
          let none : due ≡ 0 = ground arith in
          returns (record {
            output_side = refl;
            pnl_side = refl;
            output = refl;
            collateral = refl;
            secondary = omega arith;
            covered = rw none (omega arith);
            at_most = rw none (omega arith);
            collateral_first = λ x. omega arith;
            untouched = λ _. (refl, refl, refl);
            exhausted = λ x. omega arith;
          }))
        λ some_due.
          bind _ (pay_from-Paid collateral_messages s.report.remaining_collateral_amount due paid)
            λ r k.
              branch (r.1 == 0)
                (λ e.
                  let done : r.1 ≡ 0 = ground arith in
                  returns (record {
                    output_side = refl;
                    pnl_side = refl;
                    output = refl;
                    collateral = k.source;
                    secondary = omega arith;
                    covered = rw (← k.cost) (rw done (omega arith));
                    at_most = rw (← k.cost) (rw done (omega arith));
                    collateral_first = λ x. omega arith;
                    untouched = λ x. ground arith;
                    exhausted = λ x. omega arith;
                  }))
                λ more.
                  bind _
                    (secondary-Paid
                      (record s {
                        report = record (s.report) { remaining_collateral_amount = r.0 };
                      })
                      r.1)
                    λ q l. returns (record {
                      output_side = l.output_side;
                      pnl_side = l.pnl_side;
                      output = l.output;
                      collateral = rw l.collateral k.source;
                      secondary = l.source;
                      covered = rw (← k.cost) (
                          omega
                            (arith, l.covered, share r.1 r.2 (r.1 + r.2) (output_price s) refl));
                      at_most = rw (← k.cost) (
                          omega
                            (arith, l.at_most, share r.1 r.2 (r.1 + r.2) (output_price s) refl));
                      collateral_first = λ x. rw l.collateral (k.exhausted (ground arith));
                      untouched = λ x. ground arith;
                      exhausted =
                          λ x. (rw l.collateral (k.exhausted (ground arith)), l.exhausted x);
                    })

  pub record Ordered (s : ProcessState) (cost : ℕ) (r : ProcessState × ℕ × ℕ × ℕ) : Type 0 where
    pub output_side : r.0.is_output_token_long ≡ s.is_output_token_long
    pub pnl_side : r.0.is_pnl_token_long ≡ s.is_pnl_token_long
    pub collateral :
        r.0.report.output_amount + r.0.report.remaining_collateral_amount + r.2
        ≡ s.report.output_amount + s.report.remaining_collateral_amount
    pub secondary : r.0.report.secondary_output_amount + r.3 ≡ s.report.secondary_output_amount
    pub covered :
        cost ≤ r.2 * output_price s + r.3 * secondary_price s + r.1 + (secondary_price s - 1)
    pub at_most : r.2 * output_price s + r.3 * secondary_price s + r.1 ≤ cost + (output_price s - 1)
    pub free : cost ≡ 0 → r.2 ≡ 0
    pub output_first :
        r.0.report.remaining_collateral_amount < s.report.remaining_collateral_amount
        → r.0.report.output_amount ≡ 0
    pub collateral_next :
        0 < r.3 → (r.0.report.output_amount ≡ 0) × (r.0.report.remaining_collateral_amount ≡ 0)
    pub exhausted :
        0 < r.1
        → (r.0.report.output_amount ≡ 0)
          × (r.0.report.remaining_collateral_amount ≡ 0)
          × (r.0.report.secondary_output_amount ≡ 0)

  pub cost-Ordered :
      (s : ProcessState) (cost : ℕ) → Ensures (do_pay_for_cost s cost) (Ordered s cost)
  unfolding do_pay_for_cost
  cost-Ordered s cost =
      branch (cost == 0)
        (λ e.
          let none : cost ≡ 0 = ground arith in
          returns (record {
            output_side = refl;
            pnl_side = refl;
            collateral = omega arith;
            secondary = omega arith;
            covered = omega arith;
            at_most = omega arith;
            free = λ _. refl;
            output_first = λ x. omega arith;
            collateral_next = λ x. omega arith;
            exhausted = λ x. omega arith;
          }))
        λ charged. bind _ (from_option _ _ (covers_up cost (output_price s))) λ due h.
          bind _ (pay_from-Paid output_messages s.report.output_amount due 0) λ r k.
            weaken _
              (λ q l. record {
                output_side = l.output_side;
                pnl_side = l.pnl_side;
                collateral = omega (arith, k.source, l.collateral, l.output);
                secondary = l.secondary;
                covered = omega (
                  arith,
                  h.0,
                  l.covered,
                  share r.1 r.2 due (output_price s) (omega (arith, k.cost)),
                  share r.1 r.2 (r.1 + r.2) (output_price s) refl,
                );
                at_most = omega (
                  arith,
                  h.1,
                  l.at_most,
                  share r.1 r.2 due (output_price s) (omega (arith, k.cost)),
                  share r.1 r.2 (r.1 + r.2) (output_price s) refl,
                );
                free = λ x. absurd (ground arith);
                output_first = λ x. omega (
                  arith,
                  l.output,
                  k.exhausted (positive r.1 λ z. omega (arith, x, (l.untouched z).0, l.collateral)),
                );
                collateral_next = λ x. (
                  omega (
                    arith,
                    l.output,
                    k.exhausted (positive r.1 λ z. omega (arith, x, (l.untouched z).1)),
                  ),
                  l.collateral_first x,
                );
                exhausted = λ x. (
                  omega (
                    arith,
                    l.output,
                    k.exhausted (positive r.1 λ z. omega (arith, x, (l.untouched z).2)),
                  ),
                  (l.exhausted x).0,
                  (l.exhausted x).1,
                );
              })
              (collateral-PaidCost (record s { report = record (s.report) { output_amount = r.0 } })
                r.1 r.2)

  -- After a payment of a cost: what has been paid in the collateral token is what the output and the
  -- collateral have lost, and what has been paid in the secondary token is what the secondary output has
  -- lost; what has been paid, at the lower prices, and the cost that is left together are worth the cost,
  -- short of it by at most the price of one secondary token less one, and above it by at most the price of
  -- one collateral token less one; the collateral is touched only when the output is used up, and the secondary output
  -- only when both are; and a cost is left only when all three are used up.
  pub do_pay_for_cost_lem :
      (s : ProcessState) (cost : ℕ) {t : ProcessState} {left paid paid_in_secondary : ℕ}
      → do_pay_for_cost s cost ≡ ok (t, left, paid, paid_in_secondary)
      → (t.report.output_amount + t.report.remaining_collateral_amount + paid
          ≡ s.report.output_amount + s.report.remaining_collateral_amount)
        × (t.report.secondary_output_amount + paid_in_secondary ≡ s.report.secondary_output_amount)
        × (cost
            ≤ paid * pick_price (output_token_price s) false
              + paid_in_secondary * pick_price (pnl_token_price s) false
              + left
              + (pick_price (pnl_token_price s) false - 1))
        × (paid * pick_price (output_token_price s) false
              + paid_in_secondary * pick_price (pnl_token_price s) false
              + left
            ≤ cost + (pick_price (output_token_price s) false - 1))
        × ((s.report.remaining_collateral_amount ≤ t.report.remaining_collateral_amount)
            ⊎ (t.report.output_amount ≡ 0))
        × ((paid_in_secondary ≡ 0)
            ⊎ ((t.report.output_amount ≡ 0) × (t.report.remaining_collateral_amount ≡ 0)))
        × ((left ≡ 0)
            ⊎ ((t.report.output_amount ≡ 0)
                × (t.report.remaining_collateral_amount ≡ 0)
                × (t.report.secondary_output_amount ≡ 0)))
  do_pay_for_cost_lem s cost {t} {left} {paid} {paid_in_secondary} e =
      let o = (cost-Ordered s cost).apply (t, left, paid, paid_in_secondary) e in
      (
        o.collateral,
        o.secondary,
        o.covered,
        o.at_most,
        less_or t.report.remaining_collateral_amount s.report.remaining_collateral_amount _ refl
            o.output_first,
        zero_or paid_in_secondary o.collateral_next,
        zero_or left o.exhausted,
      )
