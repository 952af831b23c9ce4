-- ===== src/Result/Ensure.antt =====
-- What a call ensures if it returns a value, with a rule for each form of the code.
use gmx_solana.Prelude.{◌≡◌, refl, Bool, true, false, Option, none, some, if◌then◌else◌}
use gmx_solana.Result.Monad.{Result, Error, ok, err, ◌>>=◌, ok_or, err_if}
use gmx_solana.Prelude.Maybe.{◌>>=◌ as ◌and_then◌}

pub record Ensures {A : Type 0} (m : Result A) (P : A → Type 0) : Type 0 where
  pub apply : (a : A) → m ≡ ok a → P a

-- The same for an `Option`.
pub record Gives {A : Type 0} (o : Option A) (P : A → Type 0) : Type 0 where
  pub apply : (a : A) → o ≡ some a → P a

ok_inj : {A : Type 0} {a b : A} → ok a ≡ ok b → a ≡ b
ok_inj h = cc

some_inj : {A : Type 0} {a b : A} → some a ≡ some b → a ≡ b
some_inj h = cc

module _ {A : Type 0} where
  pub returns : {P : A → Type 0} {a : A} → P a → Ensures (ok a) P
  returns {P} {a} p = record { apply = λ b e. rw (← ok_inj e) p }

  pub raises : {P : A → Type 0} {e : Error} → Ensures {A = A} (err e) P
  raises = record { apply = λ b e. cc }

  pub gives : {P : A → Type 0} {a : A} → P a → Gives (some a) P
  gives {P} {a} p = record { apply = λ b e. rw (← some_inj e) p }

  pub gives_none : {P : A → Type 0} → Gives {A = A} none P
  gives_none = record { apply = λ b e. cc }

  -- The trivial postcondition, with the equation kept.
  pub result : (m : Result A) → Ensures m (λ a. m ≡ ok a)
  result m = record { apply = λ a e. e }

  pub weaken : {P Q : A → Type 0} (m : Result A) → ((a : A) → P a → Q a) → Ensures m P → Ensures m Q
  weaken m f h = record { apply = λ a e. f a (h.apply a e) }

  pub weaken_gives :
      {P Q : A → Type 0} (o : Option A) → ((a : A) → P a → Q a) → Gives o P → Gives o Q
  weaken_gives o f h = record { apply = λ a e. f a (h.apply a e) }

  pub from_option : {P : A → Type 0} (o : Option A) (e : Error) → Gives o P → Ensures (ok_or o e) P
  from_option none e h = record { apply = λ b q. cc }
  from_option (some a) e h = returns (h.apply a refl)

  pub branch :
      {P : A → Type 0} (c : Bool) {m k : Result A}
      → (c ≡ true → Ensures m P)
      → (c ≡ false → Ensures k P)
      → Ensures (if c then m else k) P
  branch true f g = f refl
  branch false f g = g refl

  pub gives_if :
      {P : A → Type 0} (c : Bool) {m k : Option A}
      → (c ≡ true → Gives m P)
      → (c ≡ false → Gives k P)
      → Gives (if c then m else k) P
  gives_if true f g = f refl
  gives_if false f g = g refl

  module _ {B : Type 0} where
    pub bind :
        {P : A → Type 0} {Q : B → Type 0} (m : Result A) {f : A → Result B}
        → Ensures m P
        → ((a : A) → P a → Ensures (f a) Q)
        → Ensures (m >>= f) Q
    bind (ok a) h k = k a (h.apply a refl)
    bind (err e) h k = record { apply = λ b q. cc }

    pub gives_bind :
        {P : A → Type 0} {Q : B → Type 0} (m : Option A) {f : A → Option B}
        → Gives m P
        → ((a : A) → P a → Gives (f a) Q)
        → Gives (◌and_then◌ m f) Q
    gives_bind (some a) h k = k a (h.apply a refl)
    gives_bind none h k = record { apply = λ b q. cc }

pub check : (c : Bool) (e : Error) → Ensures (err_if c e) (λ _. c ≡ false)
check true e = record { apply = λ b q. cc }
check false e = returns refl
