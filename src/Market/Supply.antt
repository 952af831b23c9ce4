-- ===== src/Market/Supply.antt =====
-- The market tokens to mint and to burn: programs/gmsol-store/src/states/market/revertible/market.rs.
use gmx_solana.Prelude.{ℕ, ◌+◌, ◌^◌, ◌≤◌, ◌<◌, ◌≡◌, not, ltb, arith, refl}
use gmx_solana.Result.{ok, Ensures, branch, returns, raises}
use gmx_solana.Market.State.{Market, total_supply, mint, burn}

-- A mint that succeeds adds its amount to what is to be minted, which then fits 64 bits with the supply.
pub mint-Ensures :
    (amount : ℕ) (m : Market)
    → Ensures (mint amount m) (λ m'.
      (m' ≡ record m { to_mint = m.to_mint + amount }) × (m.supply + (m.to_mint + amount) < 2 ^ 64))
unfolding mint
mint-Ensures amount m =
    branch (not (ltb amount (2 ^ 64))) (λ _. raises)
      λ _.
        branch (not (ltb (m.to_mint + amount) (2 ^ 64))) (λ _. raises)
          λ _.
            branch (not (ltb (m.supply + (m.to_mint + amount)) (2 ^ 64))) (λ _. raises)
              λ h. returns (refl, ground arith)

-- A burn that succeeds adds its amount to what is to be burnt, which the supply then covers.
pub burn-Ensures :
    (amount : ℕ) (m : Market)
    → Ensures
        (burn amount m)
        (λ m'. (m' ≡ record m { to_burn = m.to_burn + amount }) × (m.to_burn + amount ≤ m.supply))
unfolding burn
burn-Ensures amount m =
    branch (not (ltb amount (2 ^ 64))) (λ _. raises)
      λ _.
        branch (not (ltb (m.to_burn + amount) (2 ^ 64))) (λ _. raises)
          λ _.
            branch (ltb m.supply (m.to_burn + amount)) (λ _. raises)
              λ h. returns (refl, ground arith)

-- A mint adds its amount to the supply that the market counts with, pending changes included, if what
-- is to be burnt is covered by the supply of the mint account.
pub mint-total_supply :
    (amount : ℕ) (m : Market)
    → m.to_burn ≤ m.supply
    → {m' : Market} → mint amount m ≡ ok m'
    → total_supply m' ≡ total_supply m + amount
unfolding total_supply
mint-total_supply amount m h {m'} e = rw ((mint-Ensures amount m).apply m' e).0 (omega arith)

-- A burn takes its amount from the supply that the market counts with, pending changes included, and
-- leaves no more to be burnt than the supply of the mint account.
pub burn-total_supply :
    (amount : ℕ) (m : Market) {m' : Market}
    → burn amount m ≡ ok m'
    → (total_supply m' + amount ≡ total_supply m) × (m'.to_burn ≤ m'.supply)
unfolding total_supply
burn-total_supply amount m {m'} e =
    let b = (burn-Ensures amount m).apply m' e in let le = b.1 in rw b.0 (omega arith, le)
