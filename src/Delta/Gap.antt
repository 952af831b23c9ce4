-- ===== src/Delta/Gap.antt =====
-- Distances of rounded products, for the price impact: crates/gmsol-model/src/pool/delta.rs.
use gmx_solana.Prelude.{
  ℕ, ◌+◌, ◌*◌, ◌/◌, ◌-◌, ◌≤◌, ◌<◌, ◌≡◌, Bool-cases, inl, inr, leb→le, leb→lt, leb, arith,
}
use gmx_solana.Num.{diff}
use gmx_solana.Num.Round.{div_bounds}
use mathlib.Core.Path.{subst}
use native.Mathlib.Nat.{add-mul, mul_comm, mul-le-mul_left, mul-le-mul_right, lt_of_mul-lt-mul_left}

module _ (u : ℕ) (h : 0 < u) where
  lt_of_mul : (a b : ℕ) → a * u < b * u → a < b
  lt_of_mul a b lt = lt_of_mul-lt-mul_left u (rw (mul_comm u a) (rw (mul_comm u b) lt))

  pub div_mono : (a b : ℕ) → a ≤ b → a / u ≤ b / u
  div_mono a b le =
      let x = (div_bounds a u h).0 in
      let y = (div_bounds b u h).1 in
      let s = add-mul (b / u) 1 u in
      let lt : a / u < b / u + 1 = lt_of_mul (a / u) (b / u + 1) (omega arith) in omega arith

  -- Rounded products with a greater factor lie further apart, up to one for the rounding.
  floor_gap : (k b p q : ℕ) → p ≤ q → (b + k) * p / u + b * q / u ≤ (b + k) * q / u + b * p / u + 1
  floor_gap k b p q f =
      let ap = add-mul b k p in
      let aq = add-mul b k q in
      let kk = mul-le-mul_left k f in
      let ap_below = (div_bounds ((b + k) * p) u h).0 in
      let bq_below = (div_bounds (b * q) u h).0 in
      let aq_above = (div_bounds ((b + k) * q) u h).1 in
      let bp_above = (div_bounds (b * p) u h).1 in
      let left = add-mul ((b + k) * p / u) (b * q / u) u in
      let right = add-mul ((b + k) * q / u + b * p / u) 2 u in
      let right' = add-mul ((b + k) * q / u) (b * p / u) u in
      let lt =
        lt_of_mul ((b + k) * p / u + b * q / u) ((b + k) * q / u + b * p / u + 2) (omega arith) in
      omega arith

  ordered_gap :
      (a b p q : ℕ)
      → b ≤ a
      → p ≤ q
      → (a * p / u + b * q / u ≤ a * q / u + b * p / u + 1) × (b * p / u ≤ a * p / u)
  ordered_gap a b p q le f =
      let whole : b + (a - b) ≡ a = omega arith in
      (
        subst (λ x. x * p / u + b * q / u ≤ x * q / u + b * p / u + 1) whole
            (floor_gap (a - b) b p q f),
        div_mono (b * p) (a * p) (mul-le-mul_right p le),
      )

  pub gap_le :
      (a b p q : ℕ) → p ≤ q → diff (a * p / u) (b * p / u) ≤ diff (a * q / u) (b * q / u) + 1
  unfolding diff
  gap_le a b p q f = elim (Bool-cases (leb b a)) [
    | inl c ↦ let g = ordered_gap a b p q (leb→le b a c) f in ground arith
    | inr c ↦ let g = ordered_gap b a p q (let l = leb→lt b a c in omega arith) f in ground arith
  ]

pub diff_comm : (a b : ℕ) → diff a b ≡ diff b a
unfolding diff
diff_comm a b = ground arith
