-- ===== src/Action/UpdateFunding/Payment.antt =====
-- What funding payers pay against what receivers may claim, after one update.
use gmx_solana.Prelude.{
  ℕ, ◌+◌, ◌*◌, ◌≤◌, ◌<◌, ◌≡◌, Bool, true, false, Option, some, List, [], ◌∷◌, ◌==◌, ◌||◌, arith,
}
use gmx_solana.Prelude.Maybe.{◌>>=◌}
use gmx_solana.Result.{Gives, gives, gives_if, gives_bind, weaken_gives}
use gmx_solana.Num.{
  FixedPointOps, checked_mul_div, checked_mul_div_ceil, checked_round_up_div, checked_div,
}
use gmx_solana.Num.Exact.{mul_gives, sub_gives, div_gives}
use gmx_solana.Num.Bounds.{checked_mul_div_lem, checked_mul_div_ceil_lem, checked_round_up_div_lem}
use gmx_solana.Action.UpdateFunding.Packing.{
  pack_to_funding_amount_per_size, unpack_to_funding_amount_delta,
}
use native.Mathlib.Nat.{
  mul-le-mul_right, mul_comm, add-mul, div-mul-le_self, le_of_mul-le-mul_right,
}

zero_value : (f p : ℕ) → (f == 0 || p == 0) ≡ true → 0 < p → f ≡ 0
zero_value f p h pos = ground arith

abbrev pub sum : List ℕ → ℕ
sum [] = 0
sum (x ∷ xs) = x + sum xs

up_chain : (a v x i : ℕ) → a ≤ v * i → v ≤ x → a ≤ x * i
up_chain a v x i h k = let scaled = mul-le-mul_right i k in omega arith

down_chain : (a v x i : ℕ) → v * i ≤ a → x ≤ v → x * i ≤ a
down_chain a v x i h k = let scaled = mul-le-mul_right i k in omega arith

module _ ⦃n : FixedPointOps⦄ (a b d : ℕ) where
  ceil_covers : Gives (checked_mul_div_ceil a b d) (λ q. a * b ≤ q * d)
  ceil_covers = record { apply = λ q e. (checked_mul_div_ceil_lem a b d e).0 }

  floor_within : Gives (checked_mul_div a b d) (λ q. q * d ≤ a * b)
  floor_within = record { apply = λ q e. (checked_mul_div_lem a b d e).0 }

module _ ⦃n : FixedPointOps⦄ (a d : ℕ) where
  up_covers : Gives (checked_round_up_div a d) (λ q. a ≤ q * d)
  up_covers = record { apply = λ q e. (checked_round_up_div_lem a d e).0 }

  down_within : Gives (checked_div a d) (λ q. q * d ≤ a)
  down_within = weaken_gives _ (λ q h. rw (h.0) (div-mul-le_self a d)) (div_gives a d)

module _ ⦃n : FixedPointOps⦄ (adjustment : ℕ) where
  open n use {unit}

  module _ (value interest price : ℕ) where
    -- What the payers are charged per unit of size is worth the funding value at least.
    pack_paid :
        0 < interest
        → Gives
            (pack_to_funding_amount_per_size adjustment value interest price true)
            (λ d. value * (adjustment * unit) ≤ d * price * interest)
    unfolding pack_to_funding_amount_per_size
    pack_paid pos =
        gives_if (value == 0 || interest == 0)
          (λ h. let e = zero_value value interest h pos in gives {a = 0} (rw e (omega arith)))
          λ h. gives_bind _ (mul_gives adjustment unit) λ k e. rw (← e.0) (
            gives_bind _ (ceil_covers value k interest) λ v whole.
              weaken_gives _ (λ d up. up_chain (value * k) v (d * price) interest whole up)
                (up_covers v price))

    -- What the receivers are credited per unit of size is worth the funding value at most.
    pack_received :
        Gives
          (pack_to_funding_amount_per_size adjustment value interest price false)
          (λ d. d * price * interest ≤ value * (adjustment * unit))
    unfolding pack_to_funding_amount_per_size
    pack_received =
        gives_if (value == 0 || interest == 0) (λ h. gives {a = 0} (omega arith))
          λ h. gives_bind _ (mul_gives adjustment unit) λ k e. rw (← e.0) (
            gives_bind _ (floor_within value k interest) λ v whole.
              weaken_gives _ (λ d down. down_chain (value * k) v (d * price) interest whole down)
                (down_within v price))

  -- The funding of positions of the given sizes since the value that they recorded.
  unfoldable pub total_funding : ℕ → ℕ → List ℕ → Bool → Option ℕ
  total_funding latest recorded [] round_up = some 0
  total_funding latest recorded (size ∷ sizes) round_up = do
    amount ← unpack_to_funding_amount_delta adjustment latest recorded size round_up
    rest ← total_funding latest recorded sizes round_up
    some (amount + rest)

  module _ (recorded d : ℕ) where
    unpack_paid :
        (size : ℕ)
        → Gives
            (unpack_to_funding_amount_delta adjustment (recorded + d) recorded size true)
            (λ a. size * d ≤ a * (adjustment * unit))
    unfolding unpack_to_funding_amount_delta
    unpack_paid size = gives_bind _ (sub_gives (recorded + d) recorded) λ x e.
        let same : x ≡ d = omega arith in
        rw same
          (gives_bind _ (mul_gives adjustment unit) λ k e'. rw (← e'.0) (ceil_covers size d k))

    unpack_received :
        (size : ℕ)
        → Gives
            (unpack_to_funding_amount_delta adjustment (recorded + d) recorded size false)
            (λ a. a * (adjustment * unit) ≤ size * d)
    unfolding unpack_to_funding_amount_delta
    unpack_received size = gives_bind _ (sub_gives (recorded + d) recorded) λ x e.
        let same : x ≡ d = omega arith in
        rw same
          (gives_bind _ (mul_gives adjustment unit) λ k e'. rw (← e'.0) (floor_within size d k))

    total_paid :
        (sizes : List ℕ)
        → Gives
            (total_funding (recorded + d) recorded sizes true)
            (λ a. sum sizes * d ≤ a * (adjustment * unit))
    unfolding total_funding
    total_paid [] = gives {a = 0} (omega arith)
    total_paid (size ∷ sizes) = gives_bind _ (unpack_paid size) λ a h.
        gives_bind _ (total_paid sizes) λ b k.
          gives
            (rw (add-mul size (sum sizes) d) (rw (add-mul a b (adjustment * unit)) (omega arith)))

    total_received :
        (sizes : List ℕ)
        → Gives
            (total_funding (recorded + d) recorded sizes false)
            (λ a. a * (adjustment * unit) ≤ sum sizes * d)
    unfolding total_funding
    total_received [] = gives {a = 0} (omega arith)
    total_received (size ∷ sizes) = gives_bind _ (unpack_received size) λ a h.
        gives_bind _ (total_received sizes) λ b k.
          gives
            (rw (add-mul size (sum sizes) d) (rw (add-mul a b (adjustment * unit)) (omega arith)))

  per_size_le :
      (value payers receivers price paid_rate received_rate : ℕ)
      → 0 < price
      → value * (adjustment * unit) ≤ paid_rate * price * payers
      → received_rate * price * receivers ≤ value * (adjustment * unit)
      → received_rate * receivers ≤ paid_rate * payers
  per_size_le value payers receivers price x y pos h k =
      le_of_mul-le-mul_right {k = price}
        (let a : y * receivers * price ≡ y * price * receivers = grind arith in
          let b : x * payers * price ≡ x * price * payers = grind arith in omega arith)
        pos

  -- Of one token and one update of the funding state: let `paid_rate` and `received_rate` be what
  -- `pack_to_funding_amount_per_size` gives for the payers, rounded up, and for the receivers, rounded
  -- down, from the same funding value and price. Then positions of payers whose sizes reach the open
  -- interest that was charged owe in total at least what positions of receivers whose sizes stay within
  -- theirs can claim in total: funding is never paid out that was not paid in. The payers' open interest,
  -- the price and the scale of the rates are not zero.
  pub funding_payments_cover :
      (value payer_interest receiver_interest price payer_recorded receiver_recorded : ℕ)
      (payers receivers : List ℕ) {paid_rate received_rate paid claimed : ℕ}
      → 0 < payer_interest
      → 0 < price
      → 0 < adjustment * unit
      → payer_interest ≤ sum payers
      → sum receivers ≤ receiver_interest
      → pack_to_funding_amount_per_size adjustment value payer_interest price true ≡ some paid_rate
      → pack_to_funding_amount_per_size adjustment value receiver_interest price false
        ≡ some received_rate
      → total_funding (payer_recorded + paid_rate) payer_recorded payers true ≡ some paid
      → total_funding (receiver_recorded + received_rate) receiver_recorded receivers false
        ≡ some claimed
      → claimed ≤ paid
  funding_payments_cover value payer_interest receiver_interest price payer_recorded
        receiver_recorded payers receivers {paid_rate = x} {received_rate = y} {paid} {claimed}
        some_paid pos scale enough within p q e f =
      let charged = (pack_paid value payer_interest price some_paid).apply x p in
      let credited = (pack_received value receiver_interest price).apply y q in
      let rates =
        per_size_le value payer_interest receiver_interest price x y pos charged credited in
      let owed = (total_paid payer_recorded x payers).apply paid e in
      let claim = (total_received receiver_recorded y receivers).apply claimed f in
      let reach = mul-le-mul_right x enough in
      let stay = mul-le-mul_right y within in
      let a = mul_comm x payer_interest in
      let b = mul_comm y receiver_interest in
      le_of_mul-le-mul_right {k = adjustment * unit} (omega arith) scale
