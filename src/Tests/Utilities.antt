-- ===== src/Tests/Utilities.antt =====
-- The fixed map and the encoding of prices at work: crates/gmsol-utils/src.
use gmx_solana.Prelude.{
  ℕ, zero, suc, ◌+◌, ◌-◌, ◌*◌, ◌/◌, ◌%◌, ◌^◌, ◌≤◌, ◌≡◌, true, false, none, some, List, [], ◌∷◌,
  refl, arith,
}
use gmx_solana.Result.{ok, err, panic}
use gmx_solana.FixedMap.{FixedMap, empty, get, insert_with_options, insert, remove, get_mut, clear}
use gmx_solana.FixedMap.Order.{Sorted, IsValid}
use gmx_solana.FixedMap.Abstract.{
  Command, look_up, put, overwrite, modify, delete, delete_all, new_map,
}
use gmx_solana.FixedMap.Refine.{run, run_spec, fixed_map_refines, remove_full_panics}
use gmx_solana.Decimal.{Decimal, to_unit_price, try_from_price}
use gmx_solana.Decimal.Encoding.{try_from_price_rounds, try_from_price_total}
use gmx_solana.Decimal.RoundTrip.{unit_price_round_trip}

abbrev key : ℕ → ℕ
key k = 100 - k

abbrev commands : List (Command ℕ ℕ)
commands =
    put 1 10 true
    ∷ put 2 20 false
    ∷ overwrite 1 11
    ∷ look_up 1
    ∷ delete 2
    ∷ look_up 2
    ∷ modify 1 (λ v. v + 1)
    ∷ look_up 1
    ∷ delete_all
    ∷ look_up 1
    ∷ []

replies :
    run key 4 0 (empty key 4 0) commands
    ≡ ok (none ∷ none ∷ some 10 ∷ some 11 ∷ some 20 ∷ none ∷ none ∷ some 12 ∷ none ∷ none ∷ [])
unfolding run empty insert_with_options insert get remove get_mut clear
replies = refl

fixed_map_refines_example : run key 4 0 (empty key 4 0) commands ≡ run_spec key 4 0 new_map commands
fixed_map_refines_example = fixed_map_refines key 4 0 commands

abbrev full : FixedMap ℕ
full = record {
  slots = record { key = 98; value = 20 } ∷ record { key = 99; value = 10 } ∷ [];
  count = 2;
}

full-Sorted : Sorted full.slots 2
full-Sorted zero (suc zero) a b lt live p q = ground arith
full-Sorted zero zero a b lt live p q = absurd (omega arith)
full-Sorted (suc i) (suc zero) a b lt live p q = absurd (omega arith)
full-Sorted (suc i) zero a b lt live p q = absurd (omega arith)
full-Sorted i (suc (suc j)) a b lt live p q = absurd (omega arith)

full-IsValid : IsValid 2 full
full-IsValid = record { size = refl; within = omega arith; sorted = full-Sorted }

remove_full_panics_example : remove key 2 0 full 1 ≡ err (panic "index out of bounds")
remove_full_panics_example =
    remove_full_panics key 2 0 full 1 1 (record { key = 99; value = 10 }) full-IsValid refl
      (omega arith) refl refl

-- The test `test_price_8` of the source.
shib : try_from_price 177347 10 5 9 ≡ ok (record { value = 17734; decimal_multiplier = 6 })
unfolding try_from_price
shib = refl

try_from_price_rounds_example :
    (10 ≤ 20)
    × (5 + 9 ≤ 20)
    × (◌≡◌ {A = ℕ} (6 + 5 + 9) 20)
    × (◌≡◌ {A = ℕ} 17734 (177347 * 10 ^ 9 / 10 ^ 10 % 2 ^ 32))
try_from_price_rounds_example =
    try_from_price_rounds 177347 10 5 9 (record { value = 17734; decimal_multiplier = 6 }) shib

try_from_price_total_example : (r : Decimal) × (try_from_price 177347 10 5 9 ≡ ok r)
try_from_price_total_example =
    try_from_price_total 177347 10 5 9 (omega arith) (omega arith) (omega arith) (omega arith)

abbrev shib_price : Decimal
shib_price = record { value = 17734; decimal_multiplier = 6 }

unit_price_round_trip_example :
    try_from_price (to_unit_price shib_price) (20 - 5) 5 (20 - 5 - 6) ≡ ok shib_price
unit_price_round_trip_example = unit_price_round_trip shib_price 5 (omega arith) (omega arith)
