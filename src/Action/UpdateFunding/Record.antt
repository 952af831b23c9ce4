-- ===== src/Action/UpdateFunding/Record.antt =====
-- What an update of the funding state leaves in the market.
use gmx_solana.Prelude.{ℕ, ◌+◌, ◌≡◌, refl, ap, ◌∙◌, Bool, true, false, not, if◌then◌else◌, arith}
use gmx_solana.Prelude.Int.{pos}
use gmx_solana.Result.{Ensures, ok, bind, result, returns, weaken}
use gmx_solana.Num.{FixedPointOps}
use gmx_solana.Num.Exact.{to_signed_ensures}
use gmx_solana.Price.{Prices, validate}
use gmx_solana.Pool.{Pool, amount}
use gmx_solana.Pool.Apply.{Moved, apply_delta_amount-Moved}
use gmx_solana.Market.Pools.{get, set}
use gmx_solana.Market.State.{Market}
use gmx_solana.Market.Perp.{
  funding_amount_per_size_kind, claimable_funding_amount_per_size_kind, apply_delta_to_pool,
  funding_fee_amount_per_size, claimable_funding_fee_amount_per_size,
  apply_delta_to_funding_amount_per_size, apply_delta_to_claimable_funding_amount_per_size,
}
use gmx_solana.Action.UpdateFunding.Packing.{Matrix, entry}
use gmx_solana.Action.UpdateFunding.{
  UpdateFundingReport, move_clock, next_funding_amount_per_size, apply_entry, execute,
  update_funding,
}

-- The four pools of funding amounts keep their sides apart.
pub record KeepsApart (m : Market) : Type 0 where
  pub paid_long : m.pools.funding_amount_per_size_for_long.is_pure ≡ 0
  pub paid_short : m.pools.funding_amount_per_size_for_short.is_pure ≡ 0
  pub claimable_long : m.pools.claimable_funding_amount_per_size_for_long.is_pure ≡ 0
  pub claimable_short : m.pools.claimable_funding_amount_per_size_for_short.is_pure ≡ 0

-- The amounts have grown by `paid` and `claimable`, each by the side of the position and of the
-- collateral.
record Advanced (paid claimable : Bool → Bool → ℕ) (m m' : Market) : Type 0 where
  apart : KeepsApart m'
  pays_long :
      (b : Bool)
      → funding_fee_amount_per_size m' true b ≡ funding_fee_amount_per_size m true b + paid true b
  pays_short :
      (b : Bool)
      → funding_fee_amount_per_size m' false b
        ≡ funding_fee_amount_per_size m false b + paid false b
  claims_long :
      (b : Bool)
      → claimable_funding_fee_amount_per_size m' true b
        ≡ claimable_funding_fee_amount_per_size m true b + claimable true b
  claims_short :
      (b : Bool)
      → claimable_funding_fee_amount_per_size m' false b
        ≡ claimable_funding_fee_amount_per_size m false b + claimable false b

abbrev nothing : Bool → Bool → ℕ
nothing a b = 0

abbrev differ : Bool → Bool → Bool
differ true b = not b
differ false b = b

-- `d` at the given flags.
abbrev only : Bool → Bool → ℕ → Bool → Bool → ℕ
only a b d a' b' = if differ a a' then 0 else if differ b b' then 0 else d

Moved-amount :
    (b : Bool) (d : ℕ) (p q : Pool)
    → Moved b (pos d) (pos 0) p q
    → (b' : Bool) → amount q b' ≡ amount p b' + (if differ b b' then 0 else d)
Moved-amount true d p q h true = let x = h.near in omega arith
Moved-amount true d p q h false = let x = h.far in omega arith
Moved-amount false d p q h true = let x = h.far in omega arith
Moved-amount false d p q h false = let x = h.near in omega arith

module _ ⦃n : FixedPointOps⦄ where
  pays-Advanced :
      (a b : Bool) (d : ℕ) (m : Market)
      → KeepsApart m
      → Ensures
          (apply_delta_to_funding_amount_per_size a b (pos d) m)
          (Advanced (only a b d) nothing m)
  unfolding apply_delta_to_funding_amount_per_size apply_delta_to_pool funding_amount_per_size_kind
      get set funding_fee_amount_per_size claimable_funding_fee_amount_per_size
      claimable_funding_amount_per_size_kind
  pays-Advanced true b d m h =
      bind _
        (apply_delta_amount-Moved m.pools.funding_amount_per_size_for_long h.paid_long (pos d) b)
        λ q k. returns (record {
          apart = record {
            paid_long = k.impure;
            paid_short = h.paid_short;
            claimable_long = h.claimable_long;
            claimable_short = h.claimable_short;
          };
          pays_long = Moved-amount b d m.pools.funding_amount_per_size_for_long q k;
          pays_short = λ y. omega arith;
          claims_long = λ y. omega arith;
          claims_short = λ y. omega arith;
        })
  pays-Advanced false b d m h =
      bind _
        (apply_delta_amount-Moved m.pools.funding_amount_per_size_for_short h.paid_short (pos d) b)
        λ q k. returns (record {
          apart = record {
            paid_long = h.paid_long;
            paid_short = k.impure;
            claimable_long = h.claimable_long;
            claimable_short = h.claimable_short;
          };
          pays_long = λ y. omega arith;
          pays_short = Moved-amount b d m.pools.funding_amount_per_size_for_short q k;
          claims_long = λ y. omega arith;
          claims_short = λ y. omega arith;
        })

  claims-Advanced :
      (a b : Bool) (d : ℕ) (m : Market)
      → KeepsApart m
      → Ensures
          (apply_delta_to_claimable_funding_amount_per_size a b (pos d) m)
          (Advanced nothing (only a b d) m)
  unfolding apply_delta_to_claimable_funding_amount_per_size apply_delta_to_pool
      funding_amount_per_size_kind get set funding_fee_amount_per_size
      claimable_funding_fee_amount_per_size claimable_funding_amount_per_size_kind
  claims-Advanced true b d m h =
      bind _
        (apply_delta_amount-Moved m.pools.claimable_funding_amount_per_size_for_long
          h.claimable_long (pos d) b)
        λ q k. returns (record {
          apart = record {
            paid_long = h.paid_long;
            paid_short = h.paid_short;
            claimable_long = k.impure;
            claimable_short = h.claimable_short;
          };
          pays_long = λ y. omega arith;
          pays_short = λ y. omega arith;
          claims_long = Moved-amount b d m.pools.claimable_funding_amount_per_size_for_long q k;
          claims_short = λ y. omega arith;
        })
  claims-Advanced false b d m h =
      bind _
        (apply_delta_amount-Moved m.pools.claimable_funding_amount_per_size_for_short
          h.claimable_short (pos d) b)
        λ q k. returns (record {
          apart = record {
            paid_long = h.paid_long;
            paid_short = h.paid_short;
            claimable_long = h.claimable_long;
            claimable_short = k.impure;
          };
          pays_long = λ y. omega arith;
          pays_short = λ y. omega arith;
          claims_long = λ y. omega arith;
          claims_short = Moved-amount b d m.pools.claimable_funding_amount_per_size_for_short q k;
        })

  entry-Advanced :
      (report : UpdateFundingReport) (a b : Bool) (m : Market)
      → KeepsApart m
      → Ensures (apply_entry report a b m) (
          Advanced
            (only a b (entry report.delta_funding_amount_per_size a b))
            (only a b (entry report.delta_claimable_funding_amount_per_size a b))
            m)
  unfolding apply_entry
  entry-Advanced report a b m h =
      bind _ (to_signed_ensures (entry report.delta_funding_amount_per_size a b)) λ x e. rw (e.0) (
        bind _ (pays-Advanced a b (entry report.delta_funding_amount_per_size a b) m h) λ m₁ p.
          bind _ (to_signed_ensures (entry report.delta_claimable_funding_amount_per_size a b))
            λ y e'. rw (e'.0) (
              weaken _
                (λ m₂ q. record {
                  apart = q.apart;
                  pays_long = λ v. let i = p.pays_long v in let j = q.pays_long v in omega arith;
                  pays_short = λ v. let i = p.pays_short v in let j = q.pays_short v in omega arith;
                  claims_long =
                      λ v. let i = p.claims_long v in let j = q.claims_long v in omega arith;
                  claims_short =
                      λ v. let i = p.claims_short v in let j = q.claims_short v in omega arith;
                })
                (claims-Advanced a b (entry report.delta_claimable_funding_amount_per_size a b) m₁
                  p.apart)))

  pays_sum :
      {p₁ p₂ p₃ p₄ c₁ c₂ c₃ c₄ : Bool → Bool → ℕ} (m₁ m₂ m₃ m₄ m₅ : Market)
      → Advanced p₁ c₁ m₁ m₂
      → Advanced p₂ c₂ m₂ m₃
      → Advanced p₃ c₃ m₃ m₄
      → Advanced p₄ c₄ m₄ m₅
      → (a b : Bool)
      → (funding_fee_amount_per_size m₅ a b
          ≡ funding_fee_amount_per_size m₁ a b + (p₁ a b + p₂ a b + p₃ a b + p₄ a b))
        × (claimable_funding_fee_amount_per_size m₅ a b
            ≡ claimable_funding_fee_amount_per_size m₁ a b + (c₁ a b + c₂ a b + c₃ a b + c₄ a b))
  pays_sum m₁ m₂ m₃ m₄ m₅ w x y z true b = omega (
    arith,
    w.pays_long b,
    x.pays_long b,
    y.pays_long b,
    z.pays_long b,
    w.claims_long b,
    x.claims_long b,
    y.claims_long b,
    z.claims_long b,
  )
  pays_sum m₁ m₂ m₃ m₄ m₅ w x y z false b = omega (
    arith,
    w.pays_short b,
    x.pays_short b,
    y.pays_short b,
    z.pays_short b,
    w.claims_short b,
    x.claims_short b,
    y.claims_short b,
    z.claims_short b,
  )

  only_sum :
      (x : Matrix) (a b : Bool)
      → only true true (entry x true true) a b
          + only true false (entry x true false) a b
          + only false true (entry x false true) a b
          + only false false (entry x false false) a b
        ≡ entry x a b
  only_sum x true true = omega arith
  only_sum x true false = omega arith
  only_sum x false true = omega arith
  only_sum x false false = omega arith

  -- The amounts per size after an update, by its report.
  abbrev Recorded : Market → Market → UpdateFundingReport → Type 0
  Recorded m m' report =
      (m'.funding_factor_per_second ≡ report.next_funding_factor_per_second)
      × ((a b : Bool)
          → (funding_fee_amount_per_size m' a b
              ≡ funding_fee_amount_per_size m a b + entry report.delta_funding_amount_per_size a b)
            × (claimable_funding_fee_amount_per_size m' a b
                ≡ claimable_funding_fee_amount_per_size m a b
                  + entry report.delta_claimable_funding_amount_per_size a b))

  update-Recorded :
      (m : Market) (prices : Prices)
      → KeepsApart m
      → Ensures (update_funding m prices) (λ r. Recorded m r.0 r.1)
  unfolding update_funding execute move_clock funding_fee_amount_per_size
      claimable_funding_fee_amount_per_size
  update-Recorded m prices h = bind _ (result (validate prices)) λ _ _.
      bind _ (result (next_funding_amount_per_size (move_clock m).0 prices (move_clock m).1))
        λ report _.
          bind _
            (entry-Advanced report true true (move_clock m).0 (record {
              paid_long = h.paid_long;
              paid_short = h.paid_short;
              claimable_long = h.claimable_long;
              claimable_short = h.claimable_short;
            }))
            λ m₂ p. bind _ (entry-Advanced report true false m₂ p.apart) λ m₃ q.
              bind _ (entry-Advanced report false true m₃ q.apart) λ m₄ r.
                bind _ (entry-Advanced report false false m₄ r.apart) λ m₅ s. returns (
                  refl,
                  λ a b.
                      let total = pays_sum (move_clock m).0 m₂ m₃ m₄ m₅ p q r s a b in
                      let paid = only_sum report.delta_funding_amount_per_size a b in
                      let claimed = only_sum report.delta_claimable_funding_amount_per_size a b in
                      (
                        total.0 ∙ ap (λ (x : ℕ). funding_fee_amount_per_size m a b + x) paid,
                        total.1
                            ∙ ap (λ (x : ℕ). claimable_funding_fee_amount_per_size m a b + x)
                                claimed,
                      ),
                )

  -- After an update of the funding state, with pools of funding amounts that keep their sides apart, the
  -- funding amount per size and the claimable one have grown by exactly what the report says, for
  -- positions and collateral of either side, and the market has the reported funding factor.
  pub update_funding_records :
      (m : Market) (prices : Prices) (a b : Bool)
      → KeepsApart m
      → {m' : Market} {report : UpdateFundingReport} → update_funding m prices ≡ ok (m', report)
      → (funding_fee_amount_per_size m' a b
          ≡ funding_fee_amount_per_size m a b + entry report.delta_funding_amount_per_size a b)
        × (claimable_funding_fee_amount_per_size m' a b
            ≡ claimable_funding_fee_amount_per_size m a b
              + entry report.delta_claimable_funding_amount_per_size a b)
        × (m'.funding_factor_per_second ≡ report.next_funding_factor_per_second)
  update_funding_records m prices a b h {m'} {report} e =
      let r = (update-Recorded m prices h).apply (m', report) e in ((r.1 a b).0, (r.1 a b).1, r.0)
