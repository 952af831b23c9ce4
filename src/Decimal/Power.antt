-- ===== src/Decimal/Power.antt =====
-- Quotients by powers of ten.
use gmx_solana.Prelude.{ℕ, zero, suc, ◌+◌, ◌*◌, ◌/◌, ◌^◌, ◌<◌, ◌≡◌, sym, ap, ◌∙◌, arith}
use native.Mathlib.Nat.{
  add-zero, add-suc, pow-zero, pow-suc, mul-one, mul_assoc, div-one, div-div-eq-div-mul,
  mul-div-mul_right, one-le-pow,
}

pub pow-add : (a i j : ℕ) → a ^ (i + j) ≡ a ^ i * a ^ j
pow-add a i zero = simp (add-zero, pow-zero, mul-one)
pow-add a i (suc j) =
    rw (add-suc i j)
      (rw (pow-suc a (i + j)) (rw (pow-suc a j) (rw (pow-add a i j) (mul_assoc (a ^ i) (a ^ j) a))))

pub pow_pos : (i : ℕ) → 0 < 10 ^ i
pow_pos i = one-le-pow i 10 (omega arith)

-- A common power of ten goes out of a quotient.
pub quotient_cancel : (p i j k : ℕ) → p * 10 ^ (i + k) / 10 ^ (j + k) ≡ p * 10 ^ i / 10 ^ j
quotient_cancel p i j k = rw (pow-add 10 i k) (
    rw (pow-add 10 j k)
      (rw (← mul_assoc p (10 ^ i) (10 ^ k)) (mul-div-mul_right (p * 10 ^ i) (10 ^ j) (pow_pos k))))

pub quotient_twice : (p i j : ℕ) → p / 10 ^ i / 10 ^ j ≡ p / 10 ^ (i + j)
quotient_twice p i j = rw (pow-add 10 i j) (div-div-eq-div-mul p (10 ^ i) (10 ^ j))

-- Quotients by powers of ten with the same difference of exponents agree.
pub quotient_eq : (p i j k l : ℕ) → i + l ≡ k + j → p * 10 ^ i / 10 ^ j ≡ p * 10 ^ k / 10 ^ l
quotient_eq p i j k l h =
    sym (quotient_cancel p i j l)
    ∙ ap (λ (x : ℕ). p * 10 ^ x / 10 ^ (j + l)) h
    ∙ ap (λ (x : ℕ). p * 10 ^ (k + j) / 10 ^ x) (omega arith)
    ∙ quotient_cancel p k l j

pub product_eq : (p i k l : ℕ) → i + l ≡ k → p * 10 ^ i ≡ p * 10 ^ k / 10 ^ l
product_eq p i k l h = sym (div-one (p * 10 ^ i)) ∙ quotient_eq p i 0 k l (omega arith)

pub plain_quotient_eq : (p j k l : ℕ) → l ≡ k + j → p / 10 ^ j ≡ p * 10 ^ k / 10 ^ l
plain_quotient_eq p j k l h =
    ap (λ (x : ℕ). x / 10 ^ j) (sym (mul-one p)) ∙ quotient_eq p 0 j k l (omega arith)

pub product_twice : (p i j : ℕ) → p * 10 ^ i * 10 ^ j ≡ p * 10 ^ (i + j)
product_twice p i j = rw (pow-add 10 i j) (mul_assoc p (10 ^ i) (10 ^ j))

pub product_none : (p i : ℕ) → i ≡ 0 → p ≡ p * 10 ^ i
product_none p i h = sym (mul-one p) ∙ ap (λ (x : ℕ). p * 10 ^ x) (sym h)
